-- ===== src/NetGroup/Groups.antt =====
-- `NetGroup_router_create` as far as it concerns the hosts, with what the hosts do then.
use workqueue.NetGroup.Deleting.{delete_hosts-Waits}
use workqueue.WorkQueue.Mailbox.{size_held}
use workqueue.NetGroup.Registering.{
  registrable-sizes, hosts_in-refused, Made-CanTake, hosts_in_lem, Made, Granted,
}
use workqueue.WorkQueue.Invariant.{view, pending}
use workqueue.NetGroup.Unicast.{Reached-NextTurn, NextTurn}
use workqueue.NetGroup.Packets.{header}
use workqueue.Platform.Codes.{dword}
use workqueue.Platform.Clock.{Timespec}
use workqueue.NetGroup.Casts.{bare_packet, host_broadcast, delete_hosts}
use workqueue.NetGroup.Hosts.{registrable, Registration, Allocations, Host, hosts_in}
use workqueue.Platform.Posix.{Posix}
use workqueue.Prelude.{
  ◌≤◌, ◌∙◌, arith, ◌==◌, not, length, ◌+◌, if◌then◌else◌, Bool, ◌≢◌, ◌<◌, ◌⊎◌, ◌≡◌, All, List, ℕ,
  refl, some, true, false, inl, inr, [], ◌∷◌,
}
use workqueue.NetGroup.Delivery.{
  CanTake, host_broadcast_lem, Reached, Passed, Each, no_more, one_more,
}
use workqueue.NetGroup.Routing.{
  disconnect, Handlers, Packet, host_routing, recv_from_broadcast, broadcast,
}
use workqueue.Platform.Run.{and_then, Run, waits, Waits, Returns, mono, pure, ◌>>◌, Cmd, done}

-- The hosts are registered one by one; if one is refused, the router is deleted with those
-- before it.
unfoldable pub group_create :
    (os : Posix)
    → Timespec
    → ℕ
    → ℕ
    → ℕ
    → List (Allocations × Registration)
    → Cmd (List (Host os)) Bool
unfolding hosts_in delete_hosts
group_create os now stale_host stale_route routeparsize rs hosts =
    let (all_in, registered) = hosts_in os routeparsize rs hosts in
    if all_in
    then done true registered
    else (delete_hosts os now stale_host stale_route >> pure false) registered

Each-All :
    {A B : Type 0} {R : A → B → Type 0} {P : A → Type 0} (Q : B → Type 0) {xs : List A}
    {ys : List B}
    → ((a : A) (b : B) → P a → R a b → Q b)
    → All P xs
    → Each R xs ys
    → All Q ys
Each-All Q f a no_more = tt
Each-All Q f a (one_more r e) = (f _ _ a.0 r, Each-All Q f a.1 e)

Each-map :
    {A B : Type 0} {R S : A → B → Type 0} (P : A → Type 0) {xs : List A} {ys : List B}
    → ((a : A) (b : B) → P a → R a b → S a b)
    → All P xs
    → Each R xs ys
    → Each S xs ys
Each-map P f a no_more = no_more
Each-map P f a (one_more r e) = one_more (f _ _ a.0 r) (Each-map P f a.1 e)

-- What a host that is not the sender makes of a broadcast in its next turn.
abbrev pub Heard : {os : Posix} → Timespec → ℕ → Host os → List ℕ → Host os → Host os → Type 0
Heard now time sender par h k =
    ((h.address ≡ sender.address) × (k ≡ h))
    ⊎ ((h.address ≢ sender.address)
        × NextTurn now time
            (some (true, recv_from_broadcast par sender.register_data.host_name ∷ [])) k)

routed_broadcast :
    (hs : Handlers) (name stale : ℕ) (par : List ℕ)
    → hs.broadcasts ≡ true
    → host_routing hs (record { host = name; route_id = stale; cast = broadcast; bytes = par })
      ≡ some (true, recv_from_broadcast par name ∷ [])
unfolding host_routing
routed_broadcast hs name stale par handled = rw handled refl

abbrev call_broadcast : ℕ → ℕ → List ℕ → Packet
call_broadcast name stale par = record {
  host = name;
  route_id = stale;
  cast = broadcast;
  bytes = par;
}

module _ {os : Posix} (now : Timespec) (time stale : ℕ) (sender : Host os) (par : List ℕ)
    (small_stale : stale < dword) (small_name : sender.register_data.host_name < dword)
    (fits : header + length par < dword) where
  abbrev p : Packet
  p = call_broadcast sender.register_data.host_name stale par

  -- A host that has nothing waiting and a function for broadcasts.
  abbrev Listens : Host os → Type 0
  Listens h = (pending h.queue ≡ []) × (h.register_data.handlers.broadcasts ≡ true)

  heard :
      (h k : Host os)
      → Listens h
      → Passed (λ h. not (h.address == sender.address)) p h k
      → Heard now time sender par h k
  heard h k l (inr (same, unchanged)) = inl (ground arith, unchanged)
  heard h k (empty, handled) (inl (other, r)) = inr (
    ground arith,
    mono (Reached-NextTurn now time p h k small_name small_stale fits empty r) (λ x w n. (
      n.0
          ∙ routed_broadcast h.register_data.handlers sender.register_data.host_name stale par
              handled,
      n.1,
      n.2,
    )),
  )

stays_waiting :
    {S A B : Type 0} {P Q : S → Type 0} {r : Run S A} (k : A → Cmd S B)
    → Waits P r
    → ((s : S) → P s → Q s)
    → Waits Q (and_then r k)
stays_waiting k (waits related) f = waits (f _ related)

module _ {os : Posix} (now : Timespec) (sems : (n : ℕ) → (s : os.Sem) × (os.sem_init n ≡ some s))
    (q : os.Mutex) (opened : os.mutex_init ≡ some q) where
  -- A new router whose registrations are all taken and have a function for broadcasts: a
  -- broadcast of a message that is no longer than the router's limit returns, and in its
  -- next turn, whatever its timeout is, every host but the sender calls this function with
  -- the bytes and the sender's name. The sender is as before.
  pub group_broadcast :
      (time stale_host stale_route stale routeparsize : ℕ) (rs : List (Allocations × Registration))
      (sender : Host os) (par : List ℕ)
      → All (Granted routeparsize) rs
      → All (λ (x : Allocations × Registration). x.1.handlers.broadcasts ≡ true) rs
      → stale < dword
      → sender.register_data.host_name < dword
      → header + routeparsize < dword
      → length par ≤ routeparsize
      → Returns
          (λ u ks.
            (hs : List (Host os)) × Each (Made routeparsize) rs hs
            × Each (Heard now time sender par) hs ks)
          ((group_create os now stale_host stale_route routeparsize rs
              >> host_broadcast os now stale (some sender) par)
            [])
  unfolding group_create
  group_broadcast time stale_host stale_route stale routeparsize rs sender par a handled small_stale
        small_name narrow short =
      let (hs, created, made) = hosts_in_lem {os = os} sems q opened routeparsize rs [] a in
      let fits : header + length par < dword = omega arith in
      rw created (
        mono
          (host_broadcast_lem now stale sender par hs fits (
            Each-All
              (λ (h : Host os). (h.address ≡ sender.address) ⊎ CanTake 1 (header + length par) h)
              (λ x h g v. inr (
                Made-CanTake routeparsize 1 (length par) x h g v
                  (omega (arith, (registrable-sizes x.1 g.taken).1)) (inr short)))
              a made))
          (λ u ks e. (
            hs,
            made,
            Each-map (Listens now time stale sender par small_stale small_name fits)
                (heard now time stale sender par small_stale small_name fits)
                (Each-All (Listens now time stale sender par small_stale small_name fits)
                  (λ x h b v. (
                    (λ i. (v.state i).pending),
                    (λ i. (v.register_data i).handlers.broadcasts) ∙ b,
                  ))
                  handled made)
                e,
          )))

  -- Where the first host has a queue for one message and the second registration is refused,
  -- the router is not created, and the call does not return: it waits for room in the queue
  -- of the first host, of which no thread runs yet.
  pub group_create-Waits :
      (stale_host stale_route routeparsize : ℕ) (x y : Allocations × Registration)
      (rs : List (Allocations × Registration))
      → Granted routeparsize x
      → x.1.queue_length ≡ 1
      → registrable y.1 ≡ false
      → Waits
          (λ ks.
            (h : Host os) × Made routeparsize x h
            × Each (Reached (bare_packet os now stale_host stale_route disconnect)) (h ∷ []) ks)
          (group_create os now stale_host stale_route routeparsize (x ∷ y ∷ rs) [])
  unfolding group_create
  group_create-Waits stale_host stale_route routeparsize x y rs g one refused =
      let (h, registered, made) =
        hosts_in-refused {os = os} sems q opened routeparsize x y rs g refused in
      let takes =
        Made-CanTake {os = os} routeparsize 1 0 x h g made (omega (arith, one))
          (inl (omega arith)) in
      let none_held : size_held (view h.queue).held ≡ 0 = λ i. size_held (made.state i).held in
      let none_wait : length (pending h.queue) ≡ 0 = λ i. length (made.state i).pending in
      rw registered (
        stays_waiting _
          (delete_hosts-Waits now stale_host stale_route h [] (takes, tt)
            (omega (arith, none_held, none_wait, made.cap, one)))
          (λ ks e. (h, made, e)))
