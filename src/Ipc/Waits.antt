-- ===== src/Ipc/Waits.antt =====
-- The steps of WQIpc.c that take a semaphore, where they go through and where they wait.
use workqueue.WorkQueue.Send.{fill-some}
use workqueue.WorkQueue.Slots.{next_cursor}
use workqueue.Prelude.{
  ◌∙◌, ◌-◌, replicate, ◌++◌, take, if◌then◌else◌, set, ◌≤◌, Bool, List, true, get_elem?-some,
  get_elem?, length, ◌≢◌, ◌<◌, ◌≡◌, ℕ, suc, refl, some,
}
use workqueue.Platform.Codes.{infinite, signaled, timed_out}
use workqueue.Platform.Run.{done, waiting, and_then}
use workqueue.Platform.Clock.{Timespec}
use workqueue.Platform.Posix.{Posix}
use workqueue.Platform.Locks.{semaphore_lock-answer, semaphore_lock-timed_out, semaphore_lock-stuck}
use workqueue.Ipc.Calls.{
  ipc_store, ipc_put, ipc_lock_writer, ipc_load, ipc_lock_mutex, WqIpc, Place,
}

module _ {os : Posix} (now : Timespec) (s : WqIpc os) where
  pub ipc_lock_mutex-done :
      (time : ℕ)
      → os.value s.mutex ≢ 0
      → (m : os.Sem) × (ipc_lock_mutex os now time s ≡ done signaled (record s { mutex = m }))
        × (os.value s.mutex ≡ suc (os.value m))
  unfolding ipc_lock_mutex
  ipc_lock_mutex-done time free =
      let (m, e, h) = semaphore_lock-answer os now s.mutex time free in
      (m, rw (e, ipc_lock_mutex) refl, h)

  pub ipc_lock_mutex-waits : os.value s.mutex ≡ 0 → ipc_lock_mutex os now infinite s ≡ waiting s
  unfolding ipc_lock_mutex
  ipc_lock_mutex-waits taken = rw (semaphore_lock-stuck os now s.mutex taken, ipc_lock_mutex) refl

  pub ipc_lock_writer-done :
      (time : ℕ)
      → os.value s.writer ≢ 0
      → (m : os.Sem) × (ipc_lock_writer os now time s ≡ done signaled (record s { writer = m }))
        × (os.value s.writer ≡ suc (os.value m))
  unfolding ipc_lock_writer
  ipc_lock_writer-done time room =
      let (m, e, h) = semaphore_lock-answer os now s.writer time room in
      (m, rw (e, ipc_lock_writer) refl, h)

  pub ipc_lock_writer-timed_out :
      (time : ℕ)
      → os.value s.writer ≡ 0
      → time ≢ infinite
      → ipc_lock_writer os now time s ≡ done timed_out s
  unfolding ipc_lock_writer
  ipc_lock_writer-timed_out time full limit =
      rw (semaphore_lock-timed_out os now s.writer time full limit, ipc_lock_writer) refl

  pub ipc_load-done :
      (i : ℕ)
      → i < length s.places
      → (e : Place) × (get_elem? s.places i ≡ some e) × (ipc_load os now i s ≡ done e s)
  unfolding ipc_load
  ipc_load-done i inside =
      let (e, at) = get_elem?-some s.places i inside in (e, at, rw (at, ipc_load) refl)

  store-done :
      (par : List ℕ) (npar : ℕ) (block : Bool) (e : Place)
      → npar ≤ s.sq
      → npar ≤ length par
      → ipc_store os now par npar block e s
        ≡ done tt (record s {
          places = set s.places s.cursor_tail (record {
            sem_flag = if block then true else e.sem_flag;
            reading = e.reading;
            event = take npar par ++ replicate (s.sq - npar) 0;
          });
          cursor_tail = next_cursor s.cursor_tail s.nq;
        })
  unfolding ipc_store
  store-done par npar block e fits readable =
      rw (ipc_store, (fill-some s.sq par npar fits readable).0) refl

  -- The message is put in the place at the tail, whole and padded with zeros.
  pub ipc_put-done :
      (par : List ℕ) (npar : ℕ) (block : Bool) (e : Place)
      → npar ≤ s.sq
      → npar ≤ length par
      → ipc_load os now s.cursor_tail s ≡ done e s
      → ipc_put os now par npar block s
        ≡ done tt (record s {
          places = set s.places s.cursor_tail (record {
            sem_flag = if block then true else e.sem_flag;
            reading = e.reading;
            event = take npar par ++ replicate (s.sq - npar) 0;
          });
          cursor_tail = next_cursor s.cursor_tail s.nq;
        })
  unfolding ipc_put
  ipc_put-done par npar block e fits readable loaded =
      (λ i. and_then (loaded i) (ipc_store os now par npar block))
      ∙ store-done par npar block e fits readable
