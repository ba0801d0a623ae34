-- ===== src/WorkQueue/Enqueue.antt =====
-- `WQ_send` as a whole: its answers, on a queue with room and on a full one.
use workqueue.WorkQueue.Steps.{
  lock_writer-waits, lock_ack-waits, lock_writer-timed_out, lock_writer-done, put_slot-fault,
  put_slot-done, lock_queue-done,
}
use workqueue.WorkQueue.Send.{
  view-published, published-IsValid, published, fill-none, fill-some, tail-lt, sent,
}
use workqueue.Platform.Run.{waiting, waits, fault, Waits, returns, Returns}
use workqueue.WorkQueue.Ring.{length-window}
use workqueue.Platform.Codes.{infinite, timed_out, signaled}
use workqueue.WorkQueue.Calls.{enqueue, send, publish}
use workqueue.Prelude.{
  refl, All-get_elem?, get_elem?-set_of_some, ℕ_discrete, Bool, ◌⊎◌, some, get_elem?, All, ◌<◌,
  ◌==◌, get_elem?-some, [], ◌∷◌, ◌++◌, suc, arith, ◌%◌, true, false, if◌then◌else◌, length, ◌+◌,
  ◌≤◌, ◌≡◌, ◌≢◌, ℕ, List,
}
use workqueue.WorkQueue.Invariant.{first, messages, blank, pending, view, IsValid}
use workqueue.WorkQueue.Mailbox.{accept, size_held, Message}
use workqueue.Platform.Clock.{Timespec}
use workqueue.WorkQueue.Slots.{filled, Element, Wq}
use workqueue.Platform.Posix.{Posix}

-- The code and the state after `WQ_send` of the message `msg` at a limited time.
pub record Added {os : Posix} (msg : Message) (wq : Wq os) (c : ℕ) (w : Wq os) : Type 0 where
  pub valid : IsValid w
  pub state : view w ≡ (accept wq.element_length msg (view wq)).1
  pub code : c ≡ (if (accept wq.element_length msg (view wq)).0 then signaled else timed_out)
  pub cap : w.element_length ≡ wq.element_length
  pub width : w.element_1_size ≡ wq.element_1_size

module _ {os : Posix} {wq : Wq os} (v : IsValid wq) where
  -- There is room for a message exactly while the writer semaphore is not at zero.
  pub length-pending :
      size_held (view wq).held + length (pending wq) + os.value wq.writer ≡ wq.element_length
  length-pending =
      let l = length-window blank wq.element_length (messages wq) (first wq) (os.value wq.reader) in
      ground (arith, v.count)

  pub accept-room :
      (msg : Message)
      → os.value wq.writer ≢ 0
      → accept wq.element_length msg (view wq)
        ≡ (true, record { held = (view wq).held; pending = pending wq ++ (msg ∷ []) })
  accept-room msg room = ground (arith, length-pending)

  accept-full :
      (msg : Message)
      → os.value wq.writer ≡ 0
      → accept wq.element_length msg (view wq) ≡ (false, view wq)
  accept-full msg full = ground (arith, length-pending)

  -- The queue with the message in it.
  module _ (s : os.Sem) (room : os.value wq.writer ≡ suc (os.value s)) (m : os.Mutex)
      (h : os.held m ≡ true) (e : Element os)
      (at : get_elem? wq.work_elements wq.tail_cursor ≡ some e) (msg : Message) (block : Bool)
      (whole : length msg.bytes ≡ wq.element_1_size) where
    published-Added :
        Added msg wq signaled (published wq v s room m h e at msg.bytes msg.size block whole)
    published-Added =
        let has_room : os.value wq.writer ≢ 0 = omega arith in
        record {
          valid = published-IsValid wq v s room m h e at msg.bytes msg.size block whole;
          state =
              rw (accept-room msg has_room)
                (view-published wq v s room m h e at msg.bytes msg.size block whole);
          code = rw (accept-room msg has_room);
          cap = refl;
          width = refl;
        }

module _ {os : Posix} (now : Timespec) (par : List ℕ) (npar : ℕ) (flags : ℕ) {wq : Wq os}
    (v : IsValid wq) where
  abbrev msg : Message
  msg = sent wq.element_1_size par npar

  -- Behind the writer semaphore the message is published, and the answer awaited if asked for.
  module _ (s : os.Sem) (room : os.value wq.writer ≡ suc (os.value s)) where
    abbrev taken : Wq os
    taken = record wq { writer = s }

    at_tail : (e : Element os) × (get_elem? wq.work_elements wq.tail_cursor ≡ some e)
    at_tail =
        let in_range = tail-lt wq v s room in
        get_elem?-some wq.work_elements wq.tail_cursor (omega (arith, v.stored))

    publish_plain :
        npar ≤ wq.element_1_size
        → npar ≤ length par
        → flags % 2 ≡ 0
        → Returns (Added msg wq) (publish os now par npar flags taken)
    unfolding publish
    publish_plain fits read plain =
        let (m, locked, h) = lock_queue-done now taken v.free in
        let (e, at) = at_tail in
        let (fills, whole) = fill-some wq.element_1_size par npar fits read in
        let block : (flags % 2 == 1) ≡ false = ground arith in
        let put =
          put_slot-done now (record taken { q_sync = m }) par msg.bytes npar false at fills in
        rw (locked, block, put) (returns (published-Added v s room m h e at msg false whole))

    publish_blocks :
        npar ≤ wq.element_1_size
        → npar ≤ length par
        → flags % 2 ≡ 1
        → All (λ (e : Element os). os.value e.ack ≡ 0) wq.work_elements
        → Waits (Added msg wq signaled) (publish os now par npar flags taken)
    unfolding publish
    publish_blocks fits read asks unanswered =
        let (m, locked, h) = lock_queue-done now taken v.free in
        let (e, at) = at_tail in
        let (fills, whole) = fill-some wq.element_1_size par npar fits read in
        let block : (flags % 2 == 1) ≡ true = ground arith in
        let put =
          put_slot-done now (record taken { q_sync = m }) par msg.bytes npar true at fills in
        let w = published wq v s room m h e at msg.bytes npar true whole in
        let new = filled os e msg.bytes npar true in
        let at' = get_elem?-set_of_some wq.work_elements wq.tail_cursor new at in
        let ack = All-get_elem? _ wq.work_elements wq.tail_cursor unanswered at in
        rw (locked, block, put, lock_ack-waits now w wq.tail_cursor at' ack)
          (waits (published-Added v s room m h e at msg true whole))

    publish_overflow : wq.element_1_size < npar → publish os now par npar flags taken ≡ fault
    unfolding publish
    publish_overflow over =
        let (m, locked, h) = lock_queue-done now taken v.free in
        let (e, at) = at_tail in
        let none_left = fill-none wq.element_1_size par npar over in
        rw (
          locked,
          put_slot-fault now (record taken { q_sync = m }) par npar (flags % 2 == 1) at none_left,
        )

  -- `WQ_send` of a message that fits the slots, on a valid queue, with a time limit or while there
  -- is room, and with no answer asked for, returns: the message waits behind the others, whole and
  -- padded with zeros, or the timeout is reported and nothing is changed if the queue was full.
  pub send_lem :
      (time : ℕ)
      → npar ≢ 0
      → npar ≤ wq.element_1_size
      → npar ≤ length par
      → flags % 2 ≡ 0
      → (time ≢ infinite) ⊎ (os.value wq.writer ≢ 0)
      → Returns (Added msg wq) (send os now (some par) npar time flags wq)
  unfolding send enqueue
  send_lem time some_bytes fits read plain ends =
      let not_empty : (npar == 0) ≡ false = ground arith in
      rw not_empty (elim (ℕ_discrete (os.value wq.writer) 0) [
        | yes full ↦
            let limit : time ≢ infinite = ground arith in
            rw (lock_writer-timed_out now wq time full limit) (
              returns (record {
                valid = v;
                state = rw (accept-full v msg full);
                code = rw (accept-full v msg full);
                cap = refl;
                width = refl;
              }))
        | no room ↦
            let (s, got, fewer) = lock_writer-done now wq time room in
            rw got (publish_plain s fewer fits read plain)
      ])

  -- `WQ_send` without a limit of time is left waiting on a full queue, which it does not change.
  pub send-full :
      npar ≢ 0 → os.value wq.writer ≡ 0 → send os now (some par) npar infinite flags wq ≡ waiting wq
  unfolding send enqueue
  send-full some_bytes full =
      let not_empty : (npar == 0) ≡ false = ground arith in
      rw (not_empty, lock_writer-waits now wq full) refl

  -- `WQ_send` that asks for an answer, while there is room and no answer is left over, is left
  -- waiting for it, with the message published.
  pub send-Waits :
      (time : ℕ)
      → npar ≢ 0
      → npar ≤ wq.element_1_size
      → npar ≤ length par
      → flags % 2 ≡ 1
      → os.value wq.writer ≢ 0
      → All (λ (e : Element os). os.value e.ack ≡ 0) wq.work_elements
      → Waits (Added msg wq signaled) (send os now (some par) npar time flags wq)
  unfolding send enqueue
  send-Waits time some_bytes fits read asks room unanswered =
      let not_empty : (npar == 0) ≡ false = ground arith in
      let (s, got, fewer) = lock_writer-done now wq time room in
      rw (not_empty, got) (publish_blocks s fewer fits read asks unanswered)

  -- `WQ_send` does not compare the size of the message with that of the slots: while there is
  -- room, a message that is larger is written behind the end of its slot.
  pub send_overflow :
      (time : ℕ)
      → os.value wq.writer ≢ 0
      → wq.element_1_size < npar
      → send os now (some par) npar time flags wq ≡ fault
  unfolding send enqueue
  send_overflow time room over =
      let not_empty : (npar == 0) ≡ false = ground arith in
      let (s, got, fewer) = lock_writer-done now wq time room in
      rw (not_empty, got) (publish_overflow s fewer over)
