-- ===== src/WorkQueue/Steps.antt =====
-- The steps of `WQ_recv` and `WQ_send` that can wait or fail, where they go through.
use workqueue.Prelude.{arith, set, none, Bool, List, ℕ, suc, ◌≡◌, ◌≢◌, true, false, some, get_elem?}
use workqueue.Platform.Codes.{infinite, signaled, timed_out}
use workqueue.Platform.Run.{fault, done, waiting}
use workqueue.Platform.Clock.{Timespec}
use workqueue.Platform.Posix.{Posix}
use workqueue.Platform.Locks.{
  semaphore_lock-answer, semaphore_lock-timed_out, semaphore_lock-stuck,
  criticalsection_lock-answer,
}
use workqueue.WorkQueue.Slots.{filled, fill, Element, Wq}
use workqueue.WorkQueue.Calls.{lock_ack, put_slot, lock_queue, lock_reader, lock_writer, load}

module _ {os : Posix} (now : Timespec) (wq : Wq os) where
  pub lock_queue-done :
      os.held wq.q_sync ≡ false
      → (m : os.Mutex) × (lock_queue os now wq ≡ done tt (record wq { q_sync = m }))
        × (os.held m ≡ true)
  unfolding lock_queue
  lock_queue-done free =
      let (m, e, h) = criticalsection_lock-answer os now wq.q_sync free in
      (m, rw (e, lock_queue), h)

  pub lock_reader-done :
      (time : ℕ)
      → os.value wq.reader ≢ 0
      → (s : os.Sem) × (lock_reader os now time wq ≡ done signaled (record wq { reader = s }))
        × (os.value wq.reader ≡ suc (os.value s))
  unfolding lock_reader
  lock_reader-done time ready =
      let (s, e, h) = semaphore_lock-answer os now wq.reader time ready in
      (s, rw (e, lock_reader), h)

  pub lock_reader-timed_out :
      (time : ℕ)
      → os.value wq.reader ≡ 0
      → time ≢ infinite
      → lock_reader os now time wq ≡ done timed_out wq
  unfolding lock_reader
  lock_reader-timed_out time empty limit =
      rw (semaphore_lock-timed_out os now wq.reader time empty limit, lock_reader)

  pub lock_reader-waits : os.value wq.reader ≡ 0 → lock_reader os now infinite wq ≡ waiting wq
  unfolding lock_reader
  lock_reader-waits empty = rw (semaphore_lock-stuck os now wq.reader empty, lock_reader)

  pub lock_writer-done :
      (time : ℕ)
      → os.value wq.writer ≢ 0
      → (s : os.Sem) × (lock_writer os now time wq ≡ done signaled (record wq { writer = s }))
        × (os.value wq.writer ≡ suc (os.value s))
  unfolding lock_writer
  lock_writer-done time room =
      let (s, e, h) = semaphore_lock-answer os now wq.writer time room in
      (s, rw (e, lock_writer), h)

  pub lock_writer-timed_out :
      (time : ℕ)
      → os.value wq.writer ≡ 0
      → time ≢ infinite
      → lock_writer os now time wq ≡ done timed_out wq
  unfolding lock_writer
  lock_writer-timed_out time full limit =
      rw (semaphore_lock-timed_out os now wq.writer time full limit, lock_writer)

  pub lock_writer-waits : os.value wq.writer ≡ 0 → lock_writer os now infinite wq ≡ waiting wq
  unfolding lock_writer
  lock_writer-waits full = rw (semaphore_lock-stuck os now wq.writer full, lock_writer)

  pub load-done :
      (i : ℕ) {e : Element os}
      → get_elem? wq.work_elements i ≡ some e
      → load os now i wq ≡ done e wq
  unfolding load
  load-done i at = rw (at, load)

  pub put_slot-done :
      (par bytes : List ℕ) (npar : ℕ) (block : Bool) {e : Element os}
      → get_elem? wq.work_elements wq.tail_cursor ≡ some e
      → fill wq.element_1_size par npar ≡ some bytes
      → put_slot os now par npar block wq
        ≡ done tt (record wq {
          work_elements = set wq.work_elements wq.tail_cursor (filled os e bytes npar block);
        })
  unfolding put_slot
  put_slot-done par bytes npar block at fills = ground (arith, load-done wq.tail_cursor at)

  pub put_slot-fault :
      (par : List ℕ) (npar : ℕ) (block : Bool) {e : Element os}
      → get_elem? wq.work_elements wq.tail_cursor ≡ some e
      → fill wq.element_1_size par npar ≡ none
      → put_slot os now par npar block wq ≡ fault
  unfolding put_slot
  put_slot-fault par npar block at fills = ground (arith, load-done wq.tail_cursor at)

  pub lock_ack-waits :
      (i : ℕ) {e : Element os}
      → get_elem? wq.work_elements i ≡ some e
      → os.value e.ack ≡ 0
      → lock_ack os now i wq ≡ waiting wq
  unfolding lock_ack
  lock_ack-waits i {e} at empty =
      ground (arith, load-done i at, semaphore_lock-stuck os now e.ack empty)
