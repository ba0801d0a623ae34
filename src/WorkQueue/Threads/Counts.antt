-- ===== src/WorkQueue/Threads/Counts.antt =====
-- How the semaphores and the lock count the threads and the slots.
use workqueue.WorkQueue.Invariant.{size_of}
use workqueue.WorkQueue.Threads.Pool.{weigh}
use workqueue.WorkQueue.Threads.Cells.{held_at, Ring}
use workqueue.Prelude.{◌+◌, ◌≡◌, ℕ, Bool, List, false}
use workqueue.WorkQueue.Threads.Moves.{
  Receiver, Memory, Sender, locking, copying, unlocking, posting, resting, calling, giving, keeping,
  given, returning, entering, taking, leaving,
}

-- A sender that took a unit of `writer` and has not filled its slot.
abbrev pub owns_room : Sender → ℕ
owns_room (locking l) = 1
owns_room (copying l) = 1
owns_room p = 0

-- A sender that filled its slot and has not released a unit of `reader`.
abbrev pub owes_unit : Sender → ℕ
owes_unit (unlocking i b) = 1
owes_unit (posting i b) = 1
owes_unit p = 0

-- A thread between the lock of `q_sync` and its release.
abbrev pub inside : Sender → ℕ
inside (copying l) = 1
inside (unlocking i b) = 1
inside p = 0

abbrev pub inside_call : Receiver → ℕ
inside_call giving = 1
inside_call keeping = 1
inside_call given = 1
inside_call taking = 1
inside_call leaving = 1
inside_call r = 0

-- The receiver gave its slot back and has not released a unit of `writer`.
abbrev pub owes_room : Receiver → ℕ
owes_room given = 1
owes_room returning = 1
owes_room r = 0

-- The receiver took a unit of `reader` and has not marked the slot.
abbrev pub owns_unit : Receiver → ℕ
owns_unit entering = 1
owns_unit taking = 1
owns_unit r = 0

-- From the release of the slot, or the test that there is none, to the next mark nothing is held.
abbrev pub IsClear : Receiver → Bool → Type 0
IsClear resting held = Unit {0}
IsClear calling held = Unit {0}
IsClear giving held = Unit {0}
IsClear leaving held = Unit {0}
IsClear r held = held ≡ false

pub record Inv (m : Memory) (pool : List Sender) (r : Receiver) : Type 0 where
  pub waits : ℕ
  pub ring :
      Ring m.wq.element_length m.wq.head_cursor m.wq.tail_cursor m.wq.work_elements m.sent
        m.received waits
  pub units : waits ≡ owns_unit r + m.wq.reader + weigh owes_unit pool
  pub rooms :
      m.wq.writer
        + weigh owns_room pool
        + size_of (held_at m.wq.work_elements m.wq.head_cursor)
        + waits
        + owes_room r
      ≡ m.wq.element_length
  pub lock : weigh inside pool + inside_call r ≡ size_of m.wq.q_sync
  pub clear : IsClear r (held_at m.wq.work_elements m.wq.head_cursor)
