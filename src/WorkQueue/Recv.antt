-- ===== src/WorkQueue/Recv.antt =====
-- `WQ_recv`: the element that the receiver holds goes back, and the next one is taken.
use workqueue.Prelude.{
  ℕ, suc, ◌≡◌, refl, sym, ap, ◌∙◌, ◌≢◌, ◌⊎◌, true, false, Option, none, some, List, [], arith, ◌==◌,
  if◌then◌else◌, ℕ_discrete, length, get_elem?, get_or, set, length-set, length-map,
  get_or-set_self, get_or-set_ne, map-set, get_elem?-some, get_or-map_of_some, map-set_same,
  All-set, All-get_elem?,
}
use workqueue.Platform.Codes.{infinite, signaled, timed_out}
use workqueue.Platform.Run.{Returns, returns, bind, mono, Waits, waits, bind-Waits}
use workqueue.Platform.Clock.{Timespec}
use workqueue.Platform.Posix.{Posix}
use workqueue.WorkQueue.Slots.{Element, Wq}
use workqueue.WorkQueue.Calls.{Reply, take_next, hand_out, recv}
use workqueue.WorkQueue.Steps.{
  lock_queue-done, load-done, lock_reader-done, lock_reader-timed_out, lock_reader-waits,
}
use workqueue.WorkQueue.GiveBack.{give_back_lem}
use workqueue.WorkQueue.Mailbox.{Message, deliver_from}
use workqueue.WorkQueue.Invariant.{
  blank, message, is_signaled, signals, messages, holds, pending, view, IsValid,
}

-- What the receiver reads behind the pointer and the size of a reply, in the state `w`.
abbrev pub received : {os : Posix} → Reply → Wq os → Option Message
received r w = elim r.out [
  | none ↦ none
  | some (i, n) ↦ some (record { bytes = (get_or (messages w) i blank).bytes; size = n })
]

-- The reply and the state after `WQ_recv`, where the messages `ms` waited.
pub record Took {os : Posix} (old : Wq os) (ms : List Message) (r : Reply) (w : Wq os)
    : Type 0 where
  pub valid : IsValid w
  pub state : view w ≡ (deliver_from ms).1
  pub given : received r w ≡ (deliver_from ms).0
  pub code : r.code ≡ (if length ms == 0 then timed_out else signaled)
  pub cap : w.element_length ≡ old.element_length
  pub width : w.element_1_size ≡ old.element_1_size

module _ {os : Posix} (wq : Wq os) (v : IsValid wq) (unheld : holds wq ≡ false) (s : os.Sem)
    (fewer : os.value wq.reader ≡ suc (os.value s)) (m : os.Mutex) (locked : os.held m ≡ true)
    (e : Element os) (at : get_elem? wq.work_elements wq.head_cursor ≡ some e) where
  open wq use {work_elements, head_cursor, element_length}

  abbrev marked : Element os
  marked = record e { signaled = true }

  abbrev after : Wq os
  after = record wq {
    reader = s;
    q_sync = os.mutex_unlock m;
    work_elements = set work_elements head_cursor marked;
  }

  signals-marked : signals after ≡ set (signals wq) head_cursor true
  signals-marked = map-set is_signaled work_elements head_cursor marked

  messages-marked : messages after ≡ messages wq
  messages-marked = map-set_same message work_elements head_cursor e marked at refl

  holds-after : holds after ≡ true
  holds-after =
      let size = length-map is_signaled work_elements in
      rw signals-marked (get_or-set_self (signals wq) head_cursor true false (omega arith))

  after-IsValid : IsValid after
  after-IsValid = record {
    small = v.small;
    stored = length-set work_elements head_cursor marked ∙ v.stored;
    head_in = v.head_in;
    count = ground (arith, v.count, holds-after);
    tail_at = ground (arith, v.count, v.tail_at, holds-after);
    free = os.held-mutex_unlock m locked;
    alone = λ i n.
        rw signals-marked
          (get_or-set_ne (signals wq) head_cursor i true false (λ q. n (sym q)) ∙ v.alone i n);
    sized =
        All-set _ work_elements head_cursor marked v.sized
          (All-get_elem? _ work_elements head_cursor v.sized at);
  }

  abbrev reply : Reply
  reply = record { code = signaled; out = some (head_cursor, e.npar) }

  hand_out-Took : Took wq (pending wq) reply after
  hand_out-Took =
      let msg = get_or-map_of_some message work_elements head_cursor blank at in
      let m = get_or (messages wq) head_cursor blank in
      let sized : ℕ → Option Message = λ n. some (record { bytes = m.bytes; size = n }) in
      record {
        valid = after-IsValid;
        state = rw (holds-after, messages-marked, unheld, fewer);
        given =
            rw (messages-marked, unheld, fewer) (ap sized (ap (λ (x : Message). x.size) (sym msg)));
        code = rw (unheld, fewer) (ground arith);
        cap = refl;
        width = refl;
      }

module _ {os : Posix} (now : Timespec) where
  take_next-Took :
      {wq : Wq os}
      → IsValid wq
      → holds wq ≡ false
      → (s : os.Sem) → os.value wq.reader ≡ suc (os.value s)
      → Returns (λ r w. Took wq (pending wq) r w) (hand_out os now (record wq { reader = s }))
  unfolding hand_out
  take_next-Took {wq} v unheld s fewer =
      let (m, locked, h) = lock_queue-done now (record wq { reader = s }) v.free in
      let (e, at) = get_elem?-some wq.work_elements wq.head_cursor (omega arith) in
      rw (locked, load-done now (record wq { reader = s; q_sync = m }) _ at)
        (returns (hand_out-Took wq v unheld s fewer m h e at))

  take_next-timed_out :
      {wq : Wq os}
      → IsValid wq
      → holds wq ≡ false
      → os.value wq.reader ≡ 0
      → Took wq (pending wq) (record { code = timed_out; out = none }) wq
  take_next-timed_out {wq} v unheld empty = record {
    valid = v;
    state = rw (unheld, empty);
    given = rw (unheld, empty);
    code = rw (unheld, empty) (ground arith);
    cap = refl;
    width = refl;
  }

  take_next_lem :
      (time : ℕ) {wq : Wq os}
      → IsValid wq
      → holds wq ≡ false
      → (time ≢ infinite) ⊎ (os.value wq.reader ≢ 0)
      → Returns (λ r w. Took wq (pending wq) r w) (take_next os now time wq)
  unfolding take_next
  take_next_lem time {wq} v unheld ends = elim (ℕ_discrete (os.value wq.reader) 0) [
    | yes empty ↦
        let limit : time ≢ infinite = ground arith in
        rw (lock_reader-timed_out now wq time empty limit)
          (returns (take_next-timed_out v unheld empty))
    | no ready ↦
        let (s, got, fewer) = lock_reader-done now wq time ready in
        rw got (take_next-Took v unheld s fewer)
  ]

  -- `WQ_recv` on a valid queue, with a time limit or while a message waits, returns: it gives back
  -- what the receiver held, and hands out the oldest message that waited, whole and with its size,
  -- or reports the timeout if none waited. The queue stays valid.
  pub recv_lem :
      (time : ℕ) {wq : Wq os}
      → IsValid wq
      → (time ≢ infinite) ⊎ (os.value wq.reader ≢ 0)
      → Returns (λ r w. Took wq (pending wq) r w) (recv os now time wq)
  unfolding recv
  recv_lem time {wq} v ends = bind (give_back_lem now v) λ _ w g.
      let same = g.same in
      mono (take_next_lem time g.valid g.unheld (rw g.ready ends)) λ r u t. record {
        valid = t.valid;
        state = t.state ∙ ap (λ ms. (deliver_from ms).1) g.same;
        given = t.given ∙ ap (λ ms. (deliver_from ms).0) g.same;
        code = t.code ∙ ap (λ ms. if length ms == 0 then timed_out else signaled) g.same;
        cap = t.cap ∙ g.cap;
        width = t.width ∙ g.width;
      }

  -- With no time limit and no message waiting `WQ_recv` is left waiting; by then it has given back
  -- what the receiver held.
  pub recv-Waits :
      {wq : Wq os}
      → IsValid wq
      → os.value wq.reader ≡ 0
      → Waits
          (λ w. IsValid w × (view w ≡ record { held = none; pending = [] }))
          (recv os now infinite wq)
  unfolding recv take_next
  recv-Waits {wq} v empty = bind-Waits (give_back_lem now v) λ _ w g.
      let none_left = g.ready ∙ empty in
      rw (lock_reader-waits now w none_left) (waits (g.valid, rw (g.unheld, none_left)))
