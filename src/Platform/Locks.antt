-- ===== src/Platform/Locks.antt =====
-- `Platform_semaphore_lock` and `Platform_criticalsection_lock` of Platform.c. The library passes
-- them the address of a field, so the pointer is never NULL.
use workqueue.Prelude.{
  ℕ, suc, ◌≡◌, ◌≢◌, false, true, ◌||◌, arith, ◌==◌, inl, inr, if◌then◌else◌, Bool-cases,
}
use workqueue.Platform.Codes.{infinite, signaled, fail, timed_out}
use workqueue.Platform.Clock.{Timespec, timeconv_abs}
use workqueue.Platform.Posix.{Posix, Taken, got, failed, blocked}

-- The code of a lock call with the lock after it; or the call does not return.
pub data Answer (S : Type 0) : Type 0 where
  answer : ℕ → S → Answer S
  stuck : Answer S

module _ (os : Posix) where
  open os use {eagain, etimedout, Sem, value, Mutex, held}

  -- The mapping of `errno` at the end of both functions.
  abbrev coded : {S : Type 0} → S → Taken S → Answer S
  coded s (got t) = answer signaled t
  coded s (failed i) = answer (if i == eagain || i == etimedout then timed_out else fail) s
  coded s blocked = stuck

  pub semaphore_lock : Timespec → Sem → ℕ → Answer Sem
  semaphore_lock now s time =
      if time == 0
      then coded s (os.sem_trywait s)
      else if time == infinite
      then coded s (os.sem_wait s)
      else coded s (os.sem_timedwait s (timeconv_abs time now))

  pub criticalsection_lock : Timespec → Mutex → ℕ → Answer Mutex
  criticalsection_lock now m time =
      if time == 0
      then coded m (os.mutex_trylock m)
      else if time == infinite
      then coded m (os.mutex_lock m)
      else coded m (os.mutex_timedlock m (timeconv_abs time now))

  -- A semaphore that is not at zero is taken at once, whatever the time limit.
  pub semaphore_lock-answer :
      (now : Timespec) (s : Sem) (time : ℕ)
      → value s ≢ 0
      → (t : Sem) × (semaphore_lock now s time ≡ answer signaled t) × (value s ≡ suc (value t))
  unfolding semaphore_lock
  semaphore_lock-answer now s time h = elim (Bool-cases (time == 0)) [
    | inl e ↦ let (t, p, q) = os.sem_trywait-got s h in (t, rw (e, p), q)
    | inr e ↦ elim (Bool-cases (time == infinite)) [
      | inl i ↦ let (t, p, q) = os.sem_wait-got s h in (t, rw (e, i, p), q)
      | inr i ↦
          let (t, p, q) = os.sem_timedwait-got s (timeconv_abs time now) h in (t, rw (e, i, p), q)
    ]
  ]

  -- At zero a wait with a time limit reports the timeout and takes nothing.
  pub semaphore_lock-timed_out :
      (now : Timespec) (s : Sem) (time : ℕ)
      → value s ≡ 0
      → time ≢ infinite
      → semaphore_lock now s time ≡ answer timed_out s
  unfolding semaphore_lock
  semaphore_lock-timed_out now s time h ne =
      ground (arith, os.sem_trywait-failed s, os.sem_timedwait-failed s (timeconv_abs time now))

  -- At zero a wait with no limit does not return.
  pub semaphore_lock-stuck :
      (now : Timespec) (s : Sem) → value s ≡ 0 → semaphore_lock now s infinite ≡ stuck
  unfolding semaphore_lock
  semaphore_lock-stuck now s h = rw (os.sem_wait-blocked s h)

  -- A free mutex is taken, and one that is held blocks.
  pub criticalsection_lock-answer :
      (now : Timespec) (m : Mutex)
      → held m ≡ false
      → (l : Mutex) × (criticalsection_lock now m infinite ≡ answer signaled l) × (held l ≡ true)
  unfolding criticalsection_lock
  criticalsection_lock-answer now m h = let (l, e, q) = os.mutex_lock-got m h in (l, rw e, q)

  pub criticalsection_lock-stuck :
      (now : Timespec) (m : Mutex) → held m ≡ true → criticalsection_lock now m infinite ≡ stuck
  unfolding criticalsection_lock
  criticalsection_lock-stuck now m h = rw (os.mutex_lock-blocked m h)
