-- ===== src/Ipc/Open.antt =====
-- `_WQIpc_open` of WQIpc.c. The named semaphores of the system are an interface, with what POSIX says of
-- `sem_open`; they all have the key of the queue in their names. What memory and shared memory
-- the call is given are arguments, and the mutex is free when the call locks it.
-- The names that `make_semaphore` is called with.
use workqueue.Prelude.{
  ◌&&◌, not, Bool-cases, arith, ◌||◌, ◌==◌, if◌then◌else◌, ◌≢◌, with_some, Option-cases, ◌≡◌,
  Option, Bool, ℕ, zero, suc, refl, none, some, true, false, inl, inr,
}

pub data Name : Type 0 where
  wqi_mutex : Name
  wqi_reader : Name
  wqi_writer : Name
  wq_ack : Name

pub record Named : Type 1 where
  pub Registry : Type 0
  pub exists : Name → Registry → Bool
  -- `sem_open` with O_CREAT and O_EXCL; none when it is refused, or when no memory is left for it.
  pub sem_create : Name → ℕ → Registry → Option Registry
  -- `sem_open` without flags
  pub sem_attach : Name → Registry → Option Registry
  pub exists-sem_create :
      (n : Name) (i : ℕ) (r : Registry) {t : Registry}
      → sem_create n i r ≡ some t
      → exists n t ≡ true
  pub sem_create-exists :
      (n : Name) (i : ℕ) (r : Registry) → exists n r ≡ true → sem_create n i r ≡ none

-- The queue, or NULL, with whether the mutex is left locked.
pub data IpcOpened (R : Type 0) : Type 0 where
  opened : R → IpcOpened R
  refused : Bool → R → IpcOpened R

module _ (os : Named) where
  open os use {Registry}

  unfoldable pub make_semaphore : Name → ℕ → Bool → Registry → Option Registry
  make_semaphore n initval bowner r =
      if bowner then os.sem_create n initval r else os.sem_attach n r

  -- The loop over the semaphores for the answers.
  unfoldable pub make_acks : Bool → ℕ → Registry → Option Registry
  make_acks bowner zero r = some r
  make_acks bowner (suc n) r = with_some (make_semaphore wq_ack 0 bowner r) (make_acks bowner n)

  -- `shared` is the shared memory with what its first two words say, and `block` and `acks` are whether
  -- memory is granted. From the lock of the mutex on every failure leaves it locked.
  unfoldable pub ipc_open :
      Bool → ℕ → ℕ → Bool → Option (ℕ × ℕ) → Bool → Registry → IpcOpened Registry
  unfolding make_semaphore make_acks
  ipc_open bowner size length block shared acks r =
      if size == 0 || length == 0 || not block
      then refused false r
      else elim (make_semaphore wqi_mutex 1 bowner r) [
        | none ↦ refused false r
        | some r1 ↦ elim shared [
          | none ↦ refused true r1
          | some sm ↦
              if not bowner && not (sm.0 == length && sm.1 == size)
              then refused true r1
              else elim (make_semaphore wqi_reader 0 bowner r1) [
                | none ↦ refused true r1
                | some r2 ↦ elim (make_semaphore wqi_writer length bowner r2) [
                  | none ↦ refused true r2
                  | some r3 ↦
                      if not acks then refused true r3 else elim (make_acks bowner length r3) [
                        | none ↦ refused true r3
                        | some r4 ↦ opened r4
                      ]
                ]
              ]
        ]
      ]

  positive : (size n : ℕ) → size ≢ 0 → (size == 0 || suc (suc n) == 0 || false) ≡ false
  positive size n some_size =
      let sized : (size == 0) ≡ false = ground (arith, some_size) in
      let more : (suc (suc n) == 0) ≡ false = ground arith in rw (sized, more) refl

  twice : (n : ℕ) (r : Registry) → make_acks true (suc (suc n)) r ≡ none
  unfolding make_acks make_semaphore
  twice n r = elim (Option-cases (os.sem_create wq_ack 0 r)) [
    | inl refusal ↦ rw refusal refl
    | inr (t, made) ↦
        let there = os.sem_create-exists wq_ack 0 t (os.exists-sem_create wq_ack 0 r made) in
        rw (made, there) refl
  ]

  -- `WQIpc_open_owner` of a queue of two messages or more always returns NULL, since it creates its
  -- semaphores for the answers under one name, and where its mutex was created, it leaves that
  -- locked.
  pub ipc_open-refused :
      (size n : ℕ) (shared : Option (ℕ × ℕ)) (acks : Bool) (r r1 : Registry)
      → size ≢ 0
      → os.sem_create wqi_mutex 1 r ≡ some r1
      → (t : Registry) × (ipc_open true size (suc (suc n)) true shared acks r ≡ refused true t)
  unfolding ipc_open make_semaphore
  ipc_open-refused size n none acks r r1 some_size made =
      (r1, rw (positive size n some_size, made) refl)
  ipc_open-refused size n (some sm) acks r r1 some_size made =
      let sized = positive size n some_size in
      elim (Option-cases (os.sem_create wqi_reader 0 r1)) [
        | inl refusal ↦ (r1, rw (sized, made, refusal) refl)
        | inr (r2, made2) ↦ elim (Option-cases (os.sem_create wqi_writer (suc (suc n)) r2)) [
          | inl refusal ↦ (r2, rw (sized, made, made2, refusal) refl)
          | inr (r3, made3) ↦ elim (Bool-cases acks) [
            | inl granted ↦ (r3, rw (sized, made, made2, made3, granted, twice n r3) refl)
            | inr short ↦ (r3, rw (sized, made, made2, made3, short) refl)
          ]
        ]
      ]
