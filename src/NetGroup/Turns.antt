-- ===== src/NetGroup/Turns.antt =====
-- A turn of the loop of a host on its queue, and what a host that is sent to makes of it.
use workqueue.WorkQueue.Ring.{length-window}
use workqueue.WorkQueue.Send.{sent}
use workqueue.WorkQueue.Recv.{recv_lem, received}
use workqueue.Platform.Codes.{signaled, invalid, dword, fail}
use workqueue.WorkQueue.Invariant.{first, messages, blank, pending, IsValid}
use workqueue.WorkQueue.Mailbox.{deliver_from, Message}
use workqueue.WorkQueue.Slots.{Wq}
use workqueue.NetGroup.Packets.{load_packet-dump_of, dump_of, header, load_packet}
use workqueue.Platform.Clock.{Timespec}
use workqueue.WorkQueue.Calls.{recv}
use workqueue.Platform.Posix.{Posix}
use workqueue.Prelude.{
  ◌≢◌, inr, arith, ◌∙◌, ◌≡◌, length, ◌+◌, ◌||◌, ◌==◌, ◌<◌, if◌then◌else◌, List, Bool, Option, ℕ,
  none, some, true, false, [], ◌∷◌,
}
use workqueue.NetGroup.Routing.{Called, Packet, host_routing, Handlers}
use workqueue.Platform.Run.{returns, bind, Returns, and_then, Cmd, done}

-- What follows `WQ_recv`, by its code and what is behind its pointer: whether the loop goes
-- on, and the calls that are made.
abbrev pub turn_of : Handlers → ℕ → Option Message → Option (Bool × List Called)
turn_of hs code m =
    if code == fail || code == invalid
    then some (false, [])
    else if code == signaled
    then elim m [ none ↦ none | some m ↦ host_routing hs (load_packet m) ]
    else some (true, [])

-- A turn, with the timeout that the alarms gave.
unfoldable pub host_turn :
    (os : Posix) → Timespec → Handlers → ℕ → Cmd (Wq os) (Option (Bool × List Called))
unfolding recv load_packet host_routing
host_turn os now hs time q =
    and_then (recv os now time q) (λ r w. done (turn_of hs r.code (received r w)) w)

-- A turn on a valid queue whose first message is a packet returns with what `host_routing`
-- makes of this packet, and the other messages are left.
pub host_turn_lem :
    {os : Posix} (now : Timespec) (hs : Handlers) (time : ℕ) (q : Wq os) (p : Packet)
    (ms : List Message)
    → IsValid q
    → p.host < dword
    → p.route_id < dword
    → header + length p.bytes < dword
    → pending q ≡ sent q.element_1_size (dump_of p) (header + length p.bytes) ∷ ms
    → Returns
        (λ o w. (o ≡ host_routing hs p) × IsValid w × (pending w ≡ ms))
        (host_turn os now hs time q)
unfolding host_turn
host_turn_lem {os} now hs time q p ms v small_host small_route small front =
    let waits = length-window blank q.element_length (messages q) (first q) (os.value q.reader) in
    let some_wait : os.value q.reader ≢ 0 = ground (arith, waits, front) in
    bind (recv_lem now time v (inr some_wait)) λ r w t.
      let code : r.code ≡ signaled = t.code ∙ rw front (ground arith) in
      let given = t.given ∙ (λ i. (deliver_from (front i)).0) in
      let state = t.state ∙ (λ i. (deliver_from (front i)).1) in
      returns (
        (λ i. turn_of hs (code i) (given i)) ∙ (λ i.
            host_routing hs
              (load_packet-dump_of q.element_1_size p small_host small_route small i)),
        t.valid,
        (λ i. (state i).pending),
      )
