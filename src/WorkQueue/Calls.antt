-- ===== src/WorkQueue/Calls.antt =====
-- `WQ_recv` and `WQ_send` of WQ.c, statement by statement. `now` is the time of the call.
use workqueue.Prelude.{
  ℕ, ◌%◌, Bool, true, Option, none, some, List, ◌==◌, if◌then◌else◌, get_elem?, set,
}
use workqueue.Platform.Codes.{infinite, signaled, wqeinval}
use workqueue.Platform.Run.{done, waiting, fault, Cmd, pure, ◌>>=◌, ◌>>◌}
use workqueue.Platform.Clock.{Timespec}
use workqueue.Platform.Posix.{Posix}
use workqueue.Platform.Locks.{answer, stuck, semaphore_lock, criticalsection_lock}
use workqueue.WorkQueue.Slots.{next_cursor, Element, Wq, fill, acknowledge, filled}

-- What `WQ_recv` gives: its code, and, through `ppar` and `pnpar`, a slot and a size.
pub record Reply : Type 0 where
  pub code : ℕ
  pub out : Option (ℕ × ℕ)

module _ (os : Posix) (now : Timespec) where
  open os use {Sem}

  abbrev pub Call : Type 0 → Type 0
  Call = Cmd (Wq os)

  -- Both calls lock `q_sync` with no time limit and do not look at the code.
  unfoldable pub lock_queue : Call (Unit {0})
  lock_queue wq = elim (criticalsection_lock os now wq.q_sync infinite) [
    | answer c m ↦ done tt (record wq { q_sync = m })
    | stuck ↦ waiting wq
  ]

  abbrev pub unlock_queue : Call (Unit {0})
  unlock_queue wq = done tt (record wq { q_sync = os.mutex_unlock wq.q_sync })

  unfoldable pub lock_reader : ℕ → Call ℕ
  lock_reader time wq = elim (semaphore_lock os now wq.reader time) [
    | answer c s ↦ done c (record wq { reader = s })
    | stuck ↦ waiting wq
  ]

  unfoldable pub lock_writer : ℕ → Call ℕ
  lock_writer time wq = elim (semaphore_lock os now wq.writer time) [
    | answer c s ↦ done c (record wq { writer = s })
    | stuck ↦ waiting wq
  ]

  abbrev pub unlock_reader : Call (Unit {0})
  unlock_reader wq = done tt (record wq { reader = os.sem_post wq.reader })

  abbrev pub unlock_writer : Call (Unit {0})
  unlock_writer wq = done tt (record wq { writer = os.sem_post wq.writer })

  -- `work_elements[i]`, read and written; an index out of range is a fault.
  unfoldable pub load : ℕ → Call (Element os)
  load i wq = elim (get_elem? wq.work_elements i) [ none ↦ fault | some e ↦ done e wq ]

  abbrev pub store : ℕ → Element os → Call (Unit {0})
  store i e wq = done tt (record wq { work_elements = set wq.work_elements i e })

  abbrev pub advance_head : Call (Unit {0})
  advance_head wq =
      done tt (record wq { head_cursor = next_cursor wq.head_cursor wq.element_length })

  abbrev pub advance_tail : Call (Unit {0})
  advance_tail wq =
      done tt (record wq { tail_cursor = next_cursor wq.tail_cursor wq.element_length })

  abbrev pub head : Call ℕ
  head wq = done wq.head_cursor wq

  abbrev pub tail : Call ℕ
  tail wq = done wq.tail_cursor wq

  -- The first half of `WQ_recv`, up to the label `recv`: the element of the last call is given
  -- back to the senders.
  unfoldable pub give_back : Call (Unit {0})
  give_back = do
    lock_queue
    h ← head
    e ← load h
    if e.signaled
        then (do store h (acknowledge os e); advance_head; unlock_queue; unlock_writer)
        else unlock_queue

  -- What `WQ_recv` does once the reader semaphore is taken.
  unfoldable pub hand_out : Call Reply
  hand_out = do
    lock_queue
    h ← head
    e ← load h
    store h (record e { signaled = true })
    unlock_queue
    pure (record { code = signaled; out = some (h, e.npar) })

  -- The second half of `WQ_recv`: the next element is taken.
  unfoldable pub take_next : ℕ → Call Reply
  take_next time = do
    ret ← lock_reader time
    if ret == signaled then hand_out else pure (record { code = ret; out = none })

  unfoldable pub recv : ℕ → Call Reply
  recv time = give_back >> take_next time

  -- `memset` and `memcpy` into the slot at the tail, its size, and the wish for an answer.
  unfoldable pub put_slot : List ℕ → ℕ → Bool → Call (Unit {0})
  put_slot par npar block = do
    t ← tail
    e ← load t
    λ wq. elim (fill wq.element_1_size par npar) [
      | none ↦ fault
      | some bytes ↦ store t (filled os e bytes npar block) wq
    ]

  -- The wait for the receiver, on the semaphore of the slot.
  unfoldable pub lock_ack : ℕ → Call (Unit {0})
  lock_ack i = do
    e ← load i
    λ wq. elim (semaphore_lock os now e.ack infinite) [
      | answer c s ↦ store i (record e { ack = s }) wq
      | stuck ↦ waiting wq
    ]

  -- What `WQ_send` does once the writer semaphore is taken. WQ_SEND_FLAGS_BLOCK is bit 0 of `flags`.
  unfoldable pub publish : List ℕ → ℕ → ℕ → Call ℕ
  publish par npar flags = do
    lock_queue
    slot ← tail
    put_slot par npar (flags % 2 == 1)
    advance_tail
    unlock_queue
    unlock_reader
    if flags % 2 == 1 then (lock_ack slot >> pure signaled) else pure signaled

  -- `WQ_send` behind its test of the arguments.
  unfoldable pub enqueue : List ℕ → ℕ → ℕ → ℕ → Call ℕ
  enqueue par npar time flags = do
    ret ← lock_writer time
    if ret == signaled then publish par npar flags else pure ret

  -- `par` is NULL, or points to the bytes of the list.
  unfoldable pub send : Option (List ℕ) → ℕ → ℕ → ℕ → Call ℕ
  send none npar time flags = pure wqeinval
  send (some par) npar time flags = if npar == 0 then pure wqeinval else enqueue par npar time flags
