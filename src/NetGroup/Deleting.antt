-- ===== src/NetGroup/Deleting.antt =====
-- `NetGroup_router_delete` on the queues of the hosts.
use workqueue.Platform.Codes.{dword}
use workqueue.NetGroup.Casts.{bare_packet, delete_hosts, post_each}
use workqueue.Platform.Clock.{Timespec}
use workqueue.WorkQueue.Enqueue.{length-pending}
use workqueue.WorkQueue.Mailbox.{size_held}
use workqueue.NetGroup.Packets.{header, dump_of}
use workqueue.WorkQueue.Send.{sent}
use workqueue.WorkQueue.Invariant.{pending, IsValid}
use workqueue.NetGroup.Delivery.{
  post_each_lem, post-full, Passed, Each, mail, box_of, Reached, CanTake,
}
use workqueue.NetGroup.Hosts.{Host}
use workqueue.Platform.Posix.{Posix}
use workqueue.Prelude.{
  ◌⊎◌, Bool, All-map, All, ◌<◌, List, true, false, inl, inr, append_assoc, arith, ◌∙◌, length, ◌+◌,
  ◌++◌, length-append, ◌≡◌, ℕ, suc, [], ◌∷◌,
}
use workqueue.NetGroup.Routing.{Packet, disconnect, closing}
use workqueue.NetGroup.Delivery.{no_more, one_more}
use workqueue.Platform.Run.{bind, mono, Returns, Waits, bind-Waits, waits}

-- The host k is the host h with two packets more.
pub record ReachedTwice {os : Posix} (p p' : Packet) (h k : Host os) : Type 0 where
  pub address : k.address ≡ h.address
  pub register_data : k.register_data ≡ h.register_data
  pub valid : IsValid k.queue
  pub held : (box_of k).held ≡ (box_of h).held
  pub queued : pending k.queue ≡ pending h.queue ++ mail h p ∷ mail h p' ∷ []

module _ {os : Posix} where
  -- A host that was reached has room for one message less.
  CanTake-Reached :
      (count n : ℕ) (p : Packet) (h k : Host os)
      → CanTake (suc count) n h
      → Reached p h k
      → CanTake count n k
  CanTake-Reached count n p h k t r =
      let longer = length-append (pending h.queue) (mail h p ∷ []) in
      let held : size_held (box_of k).held ≡ size_held (box_of h).held =
        λ i. size_held (r.state i).held in
      let queued : length (pending k.queue) ≡ length (pending h.queue ++ mail h p ∷ []) =
        λ i. length (r.state i).pending in
      record {
        valid = r.valid;
        room = omega (arith, t.room, r.cap, longer, held, queued);
        wide = omega (arith, t.wide, r.width);
      }

  twice : (p p' : Packet) (h k j : Host os) → Reached p h k → Reached p' k j → ReachedTwice p p' h j
  twice p p' h k j r s =
      let mail_of = λ (n : ℕ). sent n (dump_of p') (header + length p'.bytes) in
      record {
        address = s.address ∙ r.address;
        register_data = s.register_data ∙ r.register_data;
        valid = s.valid;
        held = (λ i. (s.state i).held) ∙ (λ i. (r.state i).held);
        queued =
            (λ i. (s.state i).pending)
            ∙ (λ i. (r.state i).pending ++ mail_of (r.width i) ∷ [])
            ∙ append_assoc (pending h.queue) (mail h p ∷ []) (mail h p' ∷ []);
      }

  -- A host that had room for one message more is full.
  full-Reached :
      (p : Packet) (h k : Host os)
      → size_held (box_of h).held + length (pending h.queue) + 1 ≡ h.queue.element_length
      → Reached p h k
      → os.value k.queue.writer ≡ 0
  full-Reached p h k last_slot r =
      let longer = length-append (pending h.queue) (mail h p ∷ []) in
      let held : size_held (box_of k).held ≡ size_held (box_of h).held =
        λ i. size_held (r.state i).held in
      let queued : length (pending k.queue) ≡ length (pending h.queue ++ mail h p ∷ []) =
        λ i. length (r.state i).pending in
      omega (arith, last_slot, r.cap, longer, held, queued, length-pending r.valid)

  -- The loop over all hosts reaches each.
  Each-all :
      (p : Packet) {hosts ks : List (Host os)}
      → Each (Passed (λ h. true) p) hosts ks
      → Each (Reached p) hosts ks
  Each-all p no_more = no_more
  Each-all p (one_more (inl r) e) = one_more r.1 (Each-all p e)
  Each-all p (one_more (inr r) e) = cc

  room_left :
      (n : ℕ) (p : Packet) {hosts ks : List (Host os)}
      → Each (Reached p) hosts ks
      → All (CanTake 2 n) hosts
      → All (CanTake 1 n) ks
  room_left n p no_more a = tt
  room_left n p (one_more r e) (t, a) = (CanTake-Reached 1 n p _ _ t r, room_left n p e a)

  both :
      (p p' : Packet) {hosts ks js : List (Host os)}
      → Each (Reached p) hosts ks
      → Each (Reached p') ks js
      → Each (ReachedTwice p p') hosts js
  both p p' no_more no_more = no_more
  both p p' (one_more r e) (one_more s f) = one_more (twice p p' _ _ _ r s) (both p p' e f)

module _ {os : Posix} (now : Timespec) where
  post_to_all :
      (p : Packet) (hosts : List (Host os))
      → header + length p.bytes < dword
      → All (CanTake 1 (header + length p.bytes)) hosts
      → Returns (λ u ks. Each (Reached p) hosts ks) (post_each os now (λ h. true) p hosts)
  post_to_all p hosts fits a =
      mono
        (post_each_lem now (λ h. true) p hosts fits
          (All-map (CanTake 1 (header + length p.bytes))
            (λ h. (◌≡◌ {A = Bool} true false) ⊎ CanTake 1 (header + length p.bytes) h) hosts
            (λ h t. inr t) a))
        (λ u ks e. Each-all p e)

  -- The loops of `NetGroup_router_delete`, where every host has room for two messages of the
  -- size of a header, return, with a disconnect and behind it a closing in the queue of
  -- every host, behind what waited there.
  pub delete_hosts_lem :
      (stale_host stale_route : ℕ) (hosts : List (Host os))
      → All (CanTake 2 header) hosts
      → Returns
          (λ u ks.
            Each
              (ReachedTwice
                (bare_packet os now stale_host stale_route disconnect)
                (bare_packet os now stale_host stale_route closing))
              hosts
              ks)
          (delete_hosts os now stale_host stale_route hosts)
  unfolding delete_hosts
  delete_hosts_lem stale_host stale_route hosts a =
      let p = bare_packet os now stale_host stale_route disconnect in
      let p' = bare_packet os now stale_host stale_route closing in
      bind
        (post_to_all p hosts (omega arith) (
          All-map (CanTake 2 header) (CanTake 1 header) hosts
            (λ h t. record { valid = t.valid; room = omega (arith, t.room); wide = t.wide }) a))
        λ u ks e.
          mono (post_to_all p' ks (omega arith) (room_left header p e a)) (λ v js f. both p p' e f)

  post_each-full :
      (p : Packet) (k : Host os) (ks : List (Host os)) (P : List (Host os) → Type 0)
      → header + length p.bytes < dword
      → IsValid k.queue
      → os.value k.queue.writer ≡ 0
      → P (k ∷ ks)
      → Waits P (post_each os now (λ h. true) p (k ∷ ks))
  unfolding post_each
  post_each-full p k ks P fits v full related = rw (post-full now p fits 0 k v full) (waits related)

  full_first :
      (p p' : Packet) (h : Host os) {hosts ks : List (Host os)}
      → header + length p'.bytes < dword
      → size_held (box_of h).held + length (pending h.queue) + 1 ≡ h.queue.element_length
      → Each (Reached p) (h ∷ hosts) ks
      → Waits (λ ks. Each (Reached p) (h ∷ hosts) ks) (post_each os now (λ h. true) p' ks)
  full_first p p' h fits last_slot (one_more r e) =
      post_each-full p' _ _ _ fits r.valid (full-Reached p h _ last_slot r) (one_more r e)

  -- The same loops, where every host has room for one message but the first for one only,
  -- are left waiting while no host receives: each host was sent the disconnect, and the
  -- closing of the first does not fit its queue.
  pub delete_hosts-Waits :
      (stale_host stale_route : ℕ) (h : Host os) (hosts : List (Host os))
      → All (CanTake 1 header) (h ∷ hosts)
      → size_held (box_of h).held + length (pending h.queue) + 1 ≡ h.queue.element_length
      → Waits
          (λ ks.
            Each (Reached (bare_packet os now stale_host stale_route disconnect)) (h ∷ hosts) ks)
          (delete_hosts os now stale_host stale_route (h ∷ hosts))
  unfolding delete_hosts
  delete_hosts-Waits stale_host stale_route h hosts a last_slot =
      let p = bare_packet os now stale_host stale_route disconnect in
      let p' = bare_packet os now stale_host stale_route closing in
      bind-Waits (post_to_all p (h ∷ hosts) (omega arith) a)
        λ u ks e. full_first p p' h (omega arith) last_slot e
