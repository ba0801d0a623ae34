-- ===== src/NetGroup/Delivery.antt =====
-- What reaches the queues of hosts.
use workqueue.WorkQueue.Slots.{Wq}
use workqueue.WorkQueue.Enqueue.{length-pending, accept-room, send_lem, send-full}
use workqueue.NetGroup.Casts.{after_post, behind_host, post_each, host_broadcast, post}
use workqueue.Platform.Codes.{infinite, dword}
use workqueue.WorkQueue.Send.{sent}
use workqueue.WorkQueue.Invariant.{pending, view, IsValid}
use workqueue.NetGroup.Packets.{length-dump_of, dump_of, header}
use workqueue.WorkQueue.Mailbox.{size_held, Mailbox, Message}
use workqueue.NetGroup.Hosts.{Host}
use workqueue.Platform.Clock.{Timespec}
use workqueue.NetGroup.Routing.{broadcast, Packet}
use workqueue.Platform.Posix.{Posix}
use workqueue.Prelude.{
  suc, All-map, Bool-cases, ◌==◌, not, All, List, ◌⊎◌, some, true, false, inl, Bool, ap, ◌∙◌, arith,
  ◌%◌, ◌<◌, ◌≤◌, length, ◌++◌, ◌+◌, ◌≢◌, ◌≡◌, ℕ, refl, inr, [], ◌∷◌,
}
use workqueue.Platform.Run.{returns, Run, mono, Returns, waiting}

-- A host whose queue is valid and has room for `count` messages of n bytes.
pub record CanTake {os : Posix} (count n : ℕ) (h : Host os) : Type 0 where
  pub valid : IsValid h.queue
  pub room :
      size_held (view h.queue).held + length (pending h.queue) + count ≤ h.queue.element_length
  pub wide : n ≤ h.queue.element_1_size

-- The mailbox of a host.
abbrev pub box_of : {os : Posix} → Host os → Mailbox
box_of h = view h.queue

-- A packet in a slot of a host's queue.
abbrev pub mail : {os : Posix} → Host os → Packet → Message
mail h p = sent h.queue.element_1_size (dump_of p) (header + length p.bytes)

-- The host k is the host h with a packet behind the other messages of its queue.
pub record Reached {os : Posix} (p : Packet) (h k : Host os) : Type 0 where
  pub address : k.address ≡ h.address
  pub register_data : k.register_data ≡ h.register_data
  pub valid : IsValid k.queue
  pub state :
      box_of k ≡ record { held = (box_of h).held; pending = (box_of h).pending ++ mail h p ∷ [] }
  pub width : k.queue.element_1_size ≡ h.queue.element_1_size
  pub cap : k.queue.element_length ≡ h.queue.element_length

some_room :
    {os : Posix} (count n : ℕ) (h : Host os) → CanTake (suc count) n h → os.value h.queue.writer ≢ 0
some_room count n h t = omega (arith, t.room, length-pending t.valid)

module _ {os : Posix} (now : Timespec) (p : Packet) (fits : header + length p.bytes < dword) where
  pub post_lem :
      (flags : ℕ) (h : Host os)
      → flags % 2 ≡ 0
      → CanTake 1 (header + length p.bytes) h
      → Returns (λ c q. Reached p h (record h { queue = q })) (post os now p flags h)
  unfolding post
  post_lem flags h unasked t =
      let n : (header + length p.bytes) % dword ≡ header + length p.bytes = omega arith in
      let open_slot = some_room 0 (header + length p.bytes) h t in
      rw n (
        mono
          (send_lem now (dump_of p) (header + length p.bytes) flags t.valid infinite (omega arith)
            t.wide (omega (arith, length-dump_of p)) unasked (inr open_slot))
          (λ c q a. record {
            address = refl;
            register_data = refl;
            valid = a.valid;
            state =
                a.state
                ∙ ap (λ (r : Bool × Mailbox). r.1) (accept-room t.valid (mail h p) open_slot);
            width = a.width;
            cap = a.cap;
          }))

  pub post-full :
      (flags : ℕ) (h : Host os)
      → IsValid h.queue
      → os.value h.queue.writer ≡ 0
      → post os now p flags h ≡ waiting h.queue
  unfolding post
  post-full flags h v full =
      let n : (header + length p.bytes) % dword ≡ header + length p.bytes = omega arith in
      rw n (send-full now (dump_of p) (header + length p.bytes) flags v (omega arith) full)

-- Two lists of the same length, whose entries are related one by one.
pub data Each {A B : Type 0} (R : A → B → Type 0) : List A → List B → Type 0 where
  no_more : Each R [] []
  one_more :
      {a : A} {b : B} {xs : List A} {ys : List B} → R a b → Each R xs ys → Each R (a ∷ xs) (b ∷ ys)

-- A host that the packet is for is reached, and any other is as before.
abbrev pub Passed : {os : Posix} → (Host os → Bool) → Packet → Host os → Host os → Type 0
Passed goes p h k = ((goes h ≡ true) × Reached p h k) ⊎ ((goes h ≡ false) × (k ≡ h))

module _ {os : Posix} where
  Each-behind :
      {R : Host os → Host os → Type 0} {h : Host os} {hosts : List (Host os)}
      {r : Run (List (Host os)) (Unit {0})} (k : Host os)
      → R h k
      → Returns (λ u ks. Each R hosts ks) r
      → Returns (λ u ks. Each R (h ∷ hosts) ks) (behind_host k r)
  Each-behind k related (returns others) = returns (one_more related others)

  Each-post :
      {R : Host os → Host os → Type 0} {h : Host os} {hosts : List (Host os)} {q : Run (Wq os) ℕ}
      {r : Run (List (Host os)) (Unit {0})}
      → Returns (λ c w. R h (record h { queue = w })) q
      → Returns (λ u ks. Each R hosts ks) r
      → Returns (λ u ks. Each R (h ∷ hosts) ks) (after_post h hosts q r)
  Each-post (returns related) others = Each-behind _ related others

-- The loop over the hosts posts the packet once to each host that it is for, and returns, if
-- all these have room for it.
pub post_each_lem :
    {os : Posix} (now : Timespec) (goes : Host os → Bool) (p : Packet) (hosts : List (Host os))
    → header + length p.bytes < dword
    → All (λ h. (goes h ≡ false) ⊎ CanTake 1 (header + length p.bytes) h) hosts
    → Returns (λ u ks. Each (Passed goes p) hosts ks) (post_each os now goes p hosts)
unfolding post_each
post_each_lem now goes p [] fits a = returns no_more
post_each_lem now goes p (h ∷ hosts) fits (takes, a) =
    let others = post_each_lem now goes p hosts fits a in
    elim (Bool-cases (goes h)) [
      | inl e ↦
          let t : CanTake 1 (header + length p.bytes) h = elim takes [ inl n ↦ cc | inr t ↦ t ] in
          rw e (Each-post (mono (post_lem now p fits 0 h refl t) (λ c q r. inl (e, r))) others)
      | inr e ↦ rw e (Each-behind h (inr (e, refl)) others)
    ]

-- `NetGroup_host_broadcast`, where all hosts but the sender have room for a message of this
-- size, returns with the message, in the name of the sender, once in the queue of every other
-- host, behind what waited there; the sender and all else is as before.
pub host_broadcast_lem :
    {os : Posix} (now : Timespec) (stale : ℕ) (host : Host os) (par : List ℕ)
    (hosts : List (Host os))
    → header + length par < dword
    → All (λ (h : Host os). (h.address ≡ host.address) ⊎ CanTake 1 (header + length par) h) hosts
    → Returns
        (λ u ks.
          Each
            (Passed
              (λ h. not (h.address == host.address))
              (record {
                host = host.register_data.host_name;
                route_id = stale;
                cast = broadcast;
                bytes = par;
              }))
            hosts
            ks)
        (host_broadcast os now stale (some host) par hosts)
unfolding host_broadcast
host_broadcast_lem now stale host par hosts fits a =
    post_each_lem now (λ h. not (h.address == host.address)) _ hosts fits
      (All-map (λ h. (h.address ≡ host.address) ⊎ CanTake 1 (header + length par) h)
        (λ h. (not (h.address == host.address) ≡ false) ⊎ CanTake 1 (header + length par) h) hosts
        (λ h c. elim c [ inl e ↦ inl (ground arith) | inr t ↦ inr t ]) a)
