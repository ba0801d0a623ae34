-- ===== src/Platform/Posix.antt =====
-- What the library uses of POSIX semaphores and mutexes. No thread acts during a call: a wait on
-- an empty semaphore then ends only by its deadline.
use workqueue.Prelude.{ℕ, suc, ◌≡◌, ◌≢◌, Bool, true, false, Option, some}
use workqueue.Platform.Clock.{Timespec}

-- A locking call takes the lock, fails with an error number, or does not return.
pub data Taken (S : Type 0) : Type 0 where
  got : S → Taken S
  failed : ℕ → Taken S
  blocked : Taken S

pub record Posix : Type 1 where
  pub eagain : ℕ
  pub etimedout : ℕ
  pub Sem : Type 0
  pub value : Sem → ℕ
  pub sem_init : ℕ → Option Sem
  pub sem_post : Sem → Sem
  pub sem_trywait : Sem → Taken Sem
  pub sem_wait : Sem → Taken Sem
  pub sem_timedwait : Sem → Timespec → Taken Sem
  pub Mutex : Type 0
  pub held : Mutex → Bool
  pub mutex_init : Option Mutex
  pub mutex_lock : Mutex → Taken Mutex
  pub mutex_trylock : Mutex → Taken Mutex
  pub mutex_timedlock : Mutex → Timespec → Taken Mutex
  pub mutex_unlock : Mutex → Mutex
  pub value-sem_init : (n : ℕ) {s : Sem} → sem_init n ≡ some s → value s ≡ n
  pub value-sem_post : (s : Sem) → value (sem_post s) ≡ suc (value s)
  pub sem_trywait-got :
      (s : Sem) → value s ≢ 0 → (t : Sem) × (sem_trywait s ≡ got t) × (value s ≡ suc (value t))
  pub sem_trywait-failed : (s : Sem) → value s ≡ 0 → sem_trywait s ≡ failed eagain
  pub sem_wait-got :
      (s : Sem) → value s ≢ 0 → (t : Sem) × (sem_wait s ≡ got t) × (value s ≡ suc (value t))
  pub sem_wait-blocked : (s : Sem) → value s ≡ 0 → sem_wait s ≡ blocked
  pub sem_timedwait-got :
      (s : Sem) (at : Timespec)
      → value s ≢ 0
      → (t : Sem) × (sem_timedwait s at ≡ got t) × (value s ≡ suc (value t))
  pub sem_timedwait-failed :
      (s : Sem) (at : Timespec) → value s ≡ 0 → sem_timedwait s at ≡ failed etimedout
  pub held-mutex_init : {m : Mutex} → mutex_init ≡ some m → held m ≡ false
  pub mutex_lock-got :
      (m : Mutex) → held m ≡ false → (l : Mutex) × (mutex_lock m ≡ got l) × (held l ≡ true)
  pub mutex_lock-blocked : (m : Mutex) → held m ≡ true → mutex_lock m ≡ blocked
  pub held-mutex_unlock : (m : Mutex) → held m ≡ true → held (mutex_unlock m) ≡ false
