-- ===== src/Platform/Counting.antt =====
-- Semaphores that count and mutexes that are held or free: a system as `Posix` describes it.
use workqueue.Prelude.{ℕ, zero, suc, ◌≡◌, refl, ◌≢◌, Bool, true, false, some, arith}
use workqueue.Platform.Posix.{Posix, Taken, got, failed, blocked}

abbrev down : Taken ℕ → ℕ → Taken ℕ
down empty zero = empty
down empty (suc n) = got n

abbrev close : Taken Bool → Bool → Taken Bool
close busy false = got true
close busy true = busy

pub down-got : (empty : Taken ℕ) (n : ℕ) → n ≢ 0 → (m : ℕ) × (down empty n ≡ got m) × (n ≡ suc m)
down-got empty zero h = absurd (h refl)
down-got empty (suc n) h = (n, refl, refl)

pub down-empty : (empty : Taken ℕ) (n : ℕ) → n ≡ 0 → down empty n ≡ empty
down-empty empty zero h = refl
down-empty empty (suc n) h = absurd (omega arith)

pub close-got : (m : Bool) → m ≡ false → (l : Bool) × (close blocked m ≡ got l) × (l ≡ true)
close-got false h = (true, refl, refl)
close-got true h = cc

pub close-blocked : (m : Bool) → m ≡ true → close blocked m ≡ blocked
close-blocked false h = cc
close-blocked true h = refl

pub some-counts : (n : ℕ) {s : ℕ} → some n ≡ some s → s ≡ n
some-counts n h = cc

pub some-free : {m : Bool} → some false ≡ some m → m ≡ false
some-free h = cc

-- EAGAIN and ETIMEDOUT of Linux
abbrev pub counting : Posix
counting = record {
  eagain = 11;
  etimedout = 110;
  Sem = ℕ;
  value = λ s. s;
  sem_init = λ n. some n;
  sem_post = λ s. suc s;
  sem_trywait = down (failed 11);
  sem_wait = down blocked;
  sem_timedwait = λ s _. down (failed 110) s;
  Mutex = Bool;
  held = λ m. m;
  mutex_init = some false;
  mutex_lock = close blocked;
  mutex_trylock = close (failed 16);
  mutex_timedlock = λ m _. close (failed 110) m;
  mutex_unlock = λ _. false;
  value-sem_init = some-counts;
  value-sem_post = λ s. refl;
  sem_trywait-got = down-got (failed 11);
  sem_trywait-failed = down-empty (failed 11);
  sem_wait-got = down-got blocked;
  sem_wait-blocked = down-empty blocked;
  sem_timedwait-got = λ s _. down-got (failed 110) s;
  sem_timedwait-failed = λ s _. down-empty (failed 110) s;
  held-mutex_init = some-free;
  mutex_lock-got = close-got;
  mutex_lock-blocked = close-blocked;
  held-mutex_unlock = λ m _. refl;
}
