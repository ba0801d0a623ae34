-- ===== src/NetGroup/Unicast.antt =====
-- A message from host to host, from the call that sends it to the call that it is for.
use workqueue.NetGroup.Turns.{host_turn_lem, host_turn}
use workqueue.WorkQueue.Send.{sent}
use workqueue.WorkQueue.Invariant.{IsValid, pending}
use workqueue.NetGroup.Delivery.{post_lem, Reached, CanTake}
use workqueue.Platform.Codes.{dword}
use workqueue.NetGroup.Packets.{dump_of, header}
use workqueue.WorkQueue.Slots.{Wq}
use workqueue.Platform.Clock.{Timespec}
use workqueue.NetGroup.Hosts.{Host}
use workqueue.Platform.Posix.{Posix}
use workqueue.NetGroup.Casts.{name_of, host_unicast, behind_host, after_post, post_at}
use workqueue.Prelude.{
  ◌%◌, ap, sym, ◌∙◌, Bool, Option, some, arith, ◌==◌, ◌≢◌, All, ◌<◌, length, ◌+◌, ◌++◌, ◌≡◌, List,
  ℕ, refl, true, false, [], ◌∷◌,
}
use workqueue.NetGroup.Routing.{Handlers, Called, host_routing, Packet, recv_from_unicast, unicast}
use workqueue.Platform.Run.{returns, mono, Returns, Run, done}

-- The hosts where one of them, at its place, has become another.
pub record Replaced {os : Posix} (R : Host os → Type 0) (earlier later ks : List (Host os))
    : Type 0 where
  pub host : Host os
  pub at : ks ≡ earlier ++ host ∷ later
  pub related : R host

Replaced-behind :
    {os : Posix} {R : Host os → Type 0} {earlier later : List (Host os)}
    {r : Run (List (Host os)) (Unit {0})} (g : Host os)
    → Returns (λ u ks. Replaced R earlier later ks) r
    → Returns (λ u ks. Replaced R (g ∷ earlier) later ks) (behind_host g r)
Replaced-behind g (returns c) =
    returns
      (record { host = c.host; at = ap (λ (l : List (Host _)). g ∷ l) c.at; related = c.related })

Replaced-post :
    {os : Posix} {R : Host os → Type 0} {later : List (Host os)} {q : Run (Wq os) ℕ} (h : Host os)
    → Returns (λ c w. R (record h { queue = w })) q
    → Returns (λ u ks. Replaced R [] later ks) (after_post h later q (done tt later))
Replaced-post h (returns related) = returns (record { host = _; at = refl; related = related })

pub post_at_lem :
    {os : Posix} (now : Timespec) (a : ℕ) (p : Packet) (flags : ℕ) (earlier : List (Host os))
    (h : Host os) (later : List (Host os))
    → flags % 2 ≡ 0
    → header + length p.bytes < dword
    → All (λ (g : Host os). g.address ≢ a) earlier
    → h.address ≡ a
    → CanTake 1 (header + length p.bytes) h
    → Returns
        (λ u ks. Replaced (Reached p h) earlier later ks)
        (post_at os now a p flags (earlier ++ h ∷ later))
unfolding post_at
post_at_lem now a p flags [] h later unasked fits apart found t =
    let here : (h.address == a) ≡ true = ground arith in
    rw here (Replaced-post h (post_lem now p fits flags h unasked t))
post_at_lem now a p flags (g ∷ earlier) h later unasked fits (other, apart) found t =
    let passed : (g.address == a) ≡ false = ground arith in
    rw passed
      (Replaced-behind g (post_at_lem now a p flags earlier h later unasked fits apart found t))

-- The next turn of a host makes these calls, and leaves a valid queue where nothing waits.
abbrev pub NextTurn : {os : Posix} → Timespec → ℕ → Option (Bool × List Called) → Host os → Type 0
NextTurn {os} now time o k =
    Returns (λ x w. (x ≡ o) × IsValid w × (pending w ≡ []))
      (host_turn os now k.register_data.handlers time k.queue)

pub Reached-NextTurn :
    {os : Posix} (now : Timespec) (time : ℕ) (p : Packet) (h k : Host os)
    → p.host < dword
    → p.route_id < dword
    → header + length p.bytes < dword
    → pending h.queue ≡ []
    → Reached p h k
    → NextTurn now time (host_routing h.register_data.handlers p) k
Reached-NextTurn now time p h k small_host small_route small empty r =
    let mail_of = λ (n : ℕ). sent n (dump_of p) (header + length p.bytes) in
    let front : pending k.queue ≡ mail_of k.queue.element_1_size ∷ [] =
      (λ i. (r.state i).pending) ∙ (λ i. empty i ++ mail_of (sym r.width i) ∷ []) in
    mono
      (host_turn_lem now k.register_data.handlers time k.queue p [] r.valid small_host small_route
        small front)
      (λ x w a. (a.0 ∙ (λ i. host_routing ((r.register_data i).handlers) p), a.1, a.2))

routed :
    (hs : Handlers) (name stale : ℕ) (par : List ℕ)
    → hs.unicasts ≡ true
    → host_routing hs (record { host = name; route_id = stale; cast = unicast; bytes = par })
      ≡ some (true, recv_from_unicast par name ∷ [])
unfolding host_routing
routed hs name stale par handled = rw handled refl

-- `NetGroup_host_unicast` whose flag asks for no answer (the bit of `WQ_SEND_FLAGS_BLOCK` is 0),
-- to a host with a function for unicasts, whose queue is empty and takes a message of this
-- size, returns, and whatever its timeout is the next turn of the host
-- calls this function with the bytes of the message and the name of the sender. All other
-- hosts are as before.
pub host_unicast_lem :
    {os : Posix} (now : Timespec) (stale time a : ℕ) (sender : Option (Host os)) (par : List ℕ)
    (flag : ℕ) (earlier : List (Host os)) (h : Host os) (later : List (Host os))
    → flag % 2 ≡ 0
    → header + length par < dword
    → stale < dword
    → name_of sender < dword
    → All (λ (g : Host os). g.address ≢ a) earlier
    → h.address ≡ a
    → CanTake 1 (header + length par) h
    → pending h.queue ≡ []
    → h.register_data.handlers.unicasts ≡ true
    → Returns
        (λ u ks.
          Replaced
            (NextTurn now time (some (true, recv_from_unicast par (name_of sender) ∷ [])))
            earlier
            later
            ks)
        (host_unicast os now stale (some a) sender par flag (earlier ++ h ∷ later))
unfolding host_unicast
host_unicast_lem {os} now stale time a sender par flag earlier h later unasked fits small_stale
      small_name apart found t empty handled =
    let p : Packet = record {
      host = name_of sender;
      route_id = stale;
      cast = unicast;
      bytes = par;
    } in
    mono (post_at_lem now a p flag earlier h later unasked fits apart found t) (λ u ks r. record {
      host = r.host;
      at = r.at;
      related =
          mono (Reached-NextTurn now time p h r.host small_name small_stale fits empty r.related)
            (λ x w n.
              (n.0 ∙ routed h.register_data.handlers (name_of sender) stale par handled, n.1, n.2));
    })
