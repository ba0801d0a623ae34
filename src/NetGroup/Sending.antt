-- ===== src/NetGroup/Sending.antt =====
-- What `NetGroup_router_send_message` does.
use workqueue.Platform.Codes.{dword}
use workqueue.NetGroup.Destinations.{
  all_ones, router_send_message, send_loop, Resources, obtain_to, at_address, To, link_to, find_to,
}
use workqueue.Prelude.{
  ◌||◌, length, ◌%◌, ◌-◌, ltb, ◌<◌, ◌+◌, ◌≤◌, ◌≢◌, subst, sym, ◌∙◌, arith, true, ◌&&◌, Option, ◌==◌,
  false, Bool-cases, if◌then◌else◌, ◌≡◌, ℕ, List, refl, none, some, inl, inr, [], ◌∷◌,
}
use workqueue.Platform.Run.{and_then, bind, Cmd, Run, mono, Returns, returns, done, fault}

-- No address is kept twice.
unfoldable pub AreDistinct : List To → Type 0
unfolding find_to
AreDistinct [] = Unit {0}
AreDistinct (to ∷ tos) = (find_to to.ip to.port tos ≡ none) × AreDistinct tos

abbrev pub or_else : Option To → Option To → Option To
or_else none b = b
or_else (some to) b = some to

or_else-none : (o : Option To) → or_else o none ≡ o
or_else-none none = refl
or_else-none (some to) = refl

-- A new entry is found where nothing was kept.
find_to-link_to :
    (ip port : ℕ) (to : To) (tos : List To)
    → find_to ip port (link_to to tos)
      ≡ or_else (find_to ip port tos) (if at_address ip port to then some to else none)
unfolding find_to link_to
find_to-link_to ip port to [] = refl
find_to-link_to ip port to (x ∷ tos) = elim (Bool-cases (at_address ip port x)) [
  | inl here ↦ rw here refl
  | inr passed ↦ rw passed (find_to-link_to ip port to tos)
]

AreDistinct-link_to :
    (to : To) (tos : List To)
    → find_to to.ip to.port tos ≡ none
    → AreDistinct tos
    → AreDistinct (link_to to tos)
unfolding AreDistinct find_to link_to
AreDistinct-link_to to [] e d = (refl, tt)
AreDistinct-link_to to (x ∷ tos) e (dx, d) = elim (Bool-cases (at_address to.ip to.port x)) [
  | inl here ↦ let found : find_to to.ip to.port (x ∷ tos) ≡ some x = rw here refl in cc
  | inr passed ↦
      let back : at_address x.ip x.port to ≡ false = ground (arith, passed) in
      let behind : find_to to.ip to.port (x ∷ tos) ≡ find_to to.ip to.port tos = rw passed refl in
      (
        find_to-link_to x.ip x.port to tos
            ∙ (λ i. or_else (dx i) (if back i then some to else none)),
        AreDistinct-link_to to tos (sym behind ∙ e) d,
      )
]

-- The list where an address has an entry, and every other address what it had.
pub record Obtained (ip port : ℕ) (tos : List To) (to : To) (kept : List To) : Type 0 where
  pub found : find_to ip port kept ≡ some to
  pub others : (i p : ℕ) → (i == ip && p == port) ≡ false → find_to i p kept ≡ find_to i p tos
  pub distinct : AreDistinct kept

-- With a block, a socket and a lock for a new entry, the entry of an address is found or added.
obtain_to-known :
    (given : Resources) (ip port : ℕ) (tos : List To) (to : To)
    → find_to ip port tos ≡ some to
    → AreDistinct tos
    → Returns (λ o kept. (o ≡ some to) × (kept ≡ tos)) (obtain_to given ip port tos)
unfolding obtain_to
obtain_to-known given ip port tos to e d = rw (obtain_to, e) (returns (refl, refl))

obtain_to-new :
    (given : Resources) (ip port sock : ℕ) (tos : List To)
    → given.block ≡ true
    → given.socket ≡ some sock
    → given.lock ≡ true
    → find_to ip port tos ≡ none
    → AreDistinct tos
    → Returns
        (λ o kept.
          (o ≡ some (record { ip = ip; port = port; sock = sock }))
          × Obtained ip port tos (record { ip = ip; port = port; sock = sock }) kept)
        (obtain_to given ip port tos)
unfolding obtain_to
obtain_to-new given ip port sock tos block socket lock e d =
    let to : To = record { ip = ip; port = port; sock = sock } in
    let same : at_address ip port to ≡ true = ground arith in
    rw (obtain_to, e, block, socket, lock)
      (returns (
        refl,
        record {
          found =
              find_to-link_to ip port to tos
              ∙ (λ i. or_else (e i) (if same i then some to else none));
          others = λ i p other.
              let apart : at_address i p to ≡ false = ground (arith, other) in
              find_to-link_to i p to tos
              ∙ (λ j. or_else (find_to i p tos) (if apart j then some to else none))
              ∙ or_else-none (find_to i p tos);
          distinct = AreDistinct-link_to to tos e d;
        },
      ))

-- The entry of an address is found, or added where the system gives what it takes.
obtain_to_lem :
    (given : Resources) (ip port sock : ℕ) (tos : List To)
    → given.block ≡ true
    → given.socket ≡ some sock
    → given.lock ≡ true
    → AreDistinct tos
    → Returns
        (λ o kept. (to : To) × (o ≡ some to) × Obtained ip port tos to kept)
        (obtain_to given ip port tos)
obtain_to_lem given ip port sock tos block socket lock d = obtain_by _ refl
  where
    obtain_by :
        (o : Option To)
        → find_to ip port tos ≡ o
        → Returns
            (λ o kept. (to : To) × (o ≡ some to) × Obtained ip port tos to kept)
            (obtain_to given ip port tos)
    obtain_by none e =
        mono (obtain_to-new given ip port sock tos block socket lock e d)
          (λ o kept r. (_, r.0, r.1))
    obtain_by (some to) e = mono (obtain_to-known given ip port tos to e d) (λ o kept r. (
      to,
      r.0,
      subst (Obtained ip port tos to) (sym r.1)
          (record { found = e; others = λ i p n. refl; distinct = d }),
    ))

send_loop-ends :
    (answers : List ℕ) (size sendedlen : ℕ)
    → send_loop answers size 0 sendedlen ≡ some (done sendedlen tt)
unfolding send_loop
send_loop-ends [] size sendedlen = refl
send_loop-ends (a ∷ answers) size sendedlen = refl

send_loop-whole :
    (answers : List ℕ) (size n : ℕ)
    → n ≢ 0
    → n ≤ size
    → n < dword
    → send_loop (n ∷ answers) size n 0 ≡ some (done n tt)
unfolding send_loop
send_loop-whole answers size n some_bytes fits small =
    let a : (n == 0) ≡ false = ground arith in
    let b : ltb size (0 + (n + dword - 0) % dword) ≡ false = ground arith in
    let l : (n + dword - n) % dword ≡ 0 = omega arith in
    let m : (0 + n) % dword ≡ n = omega arith in rw (a, b, l, m) (send_loop-ends answers size n)

send_loop-all_ones :
    (answers : List ℕ) (size n answer : ℕ)
    → n ≢ 0
    → n ≤ size
    → size + 2 < dword
    → send_loop (all_ones ∷ answer ∷ answers) size n 0 ≡ some fault
unfolding send_loop
send_loop-all_ones answers size n answer some_bytes fits small =
    let a : (n == 0) ≡ false = ground arith in
    let b : ltb size (0 + (n + dword - 0) % dword) ≡ false = ground arith in
    let c : ((n + dword - all_ones) % dword == 0) ≡ false = ground arith in
    let e : ltb size (
          (0 + all_ones) % dword
          + ((n + dword - all_ones) % dword + dword - (0 + all_ones) % dword) % dword)
        ≡ true =
      ground arith in
    rw (a, b, c, e) refl

faults_after :
    {S A B : Type 0} {P : A → S → Type 0} {r : Run S A} (k : A → Cmd S B)
    → Returns P r
    → ((a : A) (s : S) → P a s → k a s ≡ fault)
    → and_then r k ≡ fault
faults_after k (returns p) f = f _ _ p

-- A call of `NetGroup_router_send_message` with all that it needs from the system.
pub record Served (given : Resources) (par : List ℕ) (port : ℕ) : Type 0 where
  pub block : given.block ≡ true
  pub sock : ℕ
  pub socket : given.socket ≡ some sock
  pub lock : given.lock ≡ true
  pub some_par : length par ≢ 0
  pub some_port : port ≢ 0

-- `NetGroup_router_send_message`, where `sendto` takes the whole message, returns 1, and there
-- is one entry for the address: the one that was there, or a new one. The entries of all other
-- addresses are as before, and no address has two.
pub router_send_message_lem :
    (given : Resources) (answers : List ℕ) (ip port : ℕ) (par : List ℕ) (encoder : List ℕ → ℕ × ℕ)
    (tos : List To)
    → Served given par port
    → AreDistinct tos
    → (encoder par).0 ≢ 0
    → (encoder par).0 ≤ (encoder par).1
    → (encoder par).0 < dword
    → Returns
        (λ c kept. (c ≡ 1) × (to : To) × Obtained ip (port % 65536) tos to kept)
        (router_send_message given ((encoder par).0 ∷ answers) (some ip) port par encoder tos)
unfolding router_send_message
router_send_message_lem given answers ip port par encoder tos g d some_bytes fits small =
    let called : (port == 0 || length par == 0) ≡ false = ground (arith, g.some_par, g.some_port) in
    rw called (
      bind (obtain_to_lem given ip (port % 65536) g.sock tos g.block g.socket g.lock d) λ o kept r.
        let all_sent : ((encoder par).0 == (encoder par).0) ≡ true = ground arith in
        rw
          (
            r.1,
            send_loop-whole answers (encoder par).1 (encoder par).0 some_bytes fits small,
            all_sent,
          )
          (returns (refl, r.0, r.2)))

-- The same call, where `sendto` first answers -1, as it does where it would have to wait: the
-- error is not noticed, and the next `sendto` is given a part of memory that ends behind the
-- buffer.
pub router_send_message-fault :
    (given : Resources) (answers : List ℕ) (ip port answer : ℕ) (par : List ℕ)
    (encoder : List ℕ → ℕ × ℕ) (tos : List To)
    → Served given par port
    → AreDistinct tos
    → (encoder par).0 ≢ 0
    → (encoder par).0 ≤ (encoder par).1
    → (encoder par).1 + 2 < dword
    → router_send_message given (all_ones ∷ answer ∷ answers) (some ip) port par encoder tos ≡ fault
unfolding router_send_message
router_send_message-fault given answers ip port answer par encoder tos g d some_bytes fits small =
    let called : (port == 0 || length par == 0) ≡ false = ground (arith, g.some_par, g.some_port) in
    rw called (
      faults_after _ (obtain_to_lem given ip (port % 65536) g.sock tos g.block g.socket g.lock d)
        λ o kept r.
          rw
            (
              r.1,
              send_loop-all_ones answers (encoder par).1 (encoder par).0 answer some_bytes fits
                  small,
            )
            refl)
