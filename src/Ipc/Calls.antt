-- ===== src/Ipc/Calls.antt =====
-- `WQIpc_send` and `WQIpc_owner_recv` of WQIpc.c, statement by statement, with the drain of
-- `WQIpc_close`. `now` is the time of the call. All handles of `ack` are opened by one name, so
-- that they are one semaphore; no pointer but that to the message of a sender is NULL. The places
-- of the messages lie one behind the other, a byte that marks what is read and then the bytes of
-- the message.
use workqueue.Prelude.{
  ◌%◌, ltb, ◌||◌, take, not, get_elem?, ◌==◌, set, Bool, if◌then◌else◌, ℕ, Option, List, zero, suc,
  none, some, true, false,
}
use workqueue.Platform.Codes.{infinite, signaled, wqeinval}
use workqueue.Platform.Run.{and_then, Run, done, waiting, fault, Cmd, pure, ◌>>=◌, ◌>>◌}
use workqueue.Platform.Clock.{Timespec}
use workqueue.Platform.Posix.{Posix}
use workqueue.Platform.Locks.{Answer, answer, stuck, semaphore_lock}
use workqueue.WorkQueue.Slots.{next_cursor, fill}

-- WQEBADF
abbrev pub wqebadf : ℕ
wqebadf = 5

-- A place of the shared memory, with its flag of `_sem_flag_ptr`.
pub record Place : Type 0 where
  pub sem_flag : Bool
  pub reading : Bool
  pub event : List ℕ

-- struct wq_ipc with what its pointers lead to. `open_state` is `*state > 0`.
pub record WqIpc (os : Posix) : Type 0 where
  pub bowner : Bool
  pub nq : ℕ
  pub sq : ℕ
  pub open_state : Bool
  pub cursor_head : ℕ
  pub cursor_tail : ℕ
  pub places : List Place
  pub ack : os.Sem
  pub reader : os.Sem
  pub writer : os.Sem
  pub mutex : os.Sem

module _ (os : Posix) (now : Timespec) where
  open os use {Sem}

  abbrev pub IpcCall : Type 0 → Type 0
  IpcCall = Cmd (WqIpc os)

  -- The code of a wait, and the semaphore after it.
  abbrev pub locked : Answer Sem → (Sem → WqIpc os) → WqIpc os → Run (WqIpc os) ℕ
  locked (answer c m) after s = done c (after m)
  locked stuck after s = waiting s

  unfoldable pub ipc_lock_mutex : ℕ → IpcCall ℕ
  ipc_lock_mutex time s =
      locked (semaphore_lock os now s.mutex time) (λ m. record s { mutex = m }) s

  abbrev pub ipc_unlock_mutex : IpcCall (Unit {0})
  ipc_unlock_mutex s = done tt (record s { mutex = os.sem_post s.mutex })

  unfoldable pub ipc_lock_writer : ℕ → IpcCall ℕ
  ipc_lock_writer time s =
      locked (semaphore_lock os now s.writer time) (λ m. record s { writer = m }) s

  abbrev pub ipc_unlock_writer : IpcCall (Unit {0})
  ipc_unlock_writer s = done tt (record s { writer = os.sem_post s.writer })

  abbrev pub ipc_unlock_reader : IpcCall (Unit {0})
  ipc_unlock_reader s = done tt (record s { reader = os.sem_post s.reader })

  unfoldable pub ipc_lock_ack : IpcCall ℕ
  ipc_lock_ack s = locked (semaphore_lock os now s.ack infinite) (λ m. record s { ack = m }) s

  -- The place at a cursor.
  unfoldable pub ipc_load : ℕ → IpcCall Place
  ipc_load i s = elim (get_elem? s.places i) [ none ↦ fault | some e ↦ done e s ]

  -- A place that is given back: the sender that waits for it is woken.
  unfoldable pub ipc_give_back : Place → IpcCall (Unit {0})
  ipc_give_back e s = done tt (record s {
    ack = if e.sem_flag then os.sem_post s.ack else s.ack;
    places =
        set s.places s.cursor_head (record { sem_flag = false; reading = false; event = e.event });
    cursor_head = next_cursor s.cursor_head s.nq;
  })

  -- `WQIpc_owner_recv` up to the label `recv`.
  unfoldable pub ipc_release : IpcCall (Unit {0})
  unfolding ipc_give_back
  ipc_release = do
    c ← ipc_lock_mutex infinite
    λ s.
        (do
          e ← ipc_load s.cursor_head
          if e.reading
              then (do ipc_give_back e; ipc_unlock_mutex; ipc_unlock_writer)
              else ipc_unlock_mutex)
          s

  -- `*_rd = 1`, and the address that is handed out, as the number of its place.
  unfoldable pub ipc_mark : IpcCall ℕ
  ipc_mark = λ s.
      (do
        e ← ipc_load s.cursor_head
        λ t. done t.cursor_head (record t {
          places =
              set t.places t.cursor_head
                (record { sem_flag = e.sem_flag; reading = true; event = e.event });
        }))
        s

  -- `WQIpc_owner_recv` from the label `recv` on.
  unfoldable pub ipc_take_next : ℕ → IpcCall (ℕ × Option ℕ)
  ipc_take_next time = do
    res ← ipc_lock_mutex time
    if res == signaled
        then (do c ← ipc_lock_mutex infinite; rd ← ipc_mark; ipc_unlock_mutex; pure (0, some rd))
        else pure (res, none)

  unfoldable pub owner_recv : ℕ → IpcCall (ℕ × Option ℕ)
  owner_recv time s =
      if not s.bowner then done (wqeinval, none) s else (ipc_release >> ipc_take_next time) s

  -- `while(WQIpc_owner_recv(wqipc, &d, time) == WQ_SIGNALED){}`
  unfoldable pub ipc_drain : ℕ → IpcCall (Unit {0})
  ipc_drain zero s = waiting s
  ipc_drain (suc fuel) s =
      and_then (owner_recv 300 s) (λ r. if r.0 == signaled then ipc_drain fuel else pure tt)

  unfoldable pub ipc_threshold : ℕ → IpcCall (Unit {0})
  unfolding ipc_drain
  ipc_threshold fuel = do
    c ← ipc_lock_mutex infinite
    λ s. done tt (record s { open_state = false })
    ipc_unlock_mutex
    ipc_drain fuel

  -- `memset` and `memcpy` into the place at the tail, its flag, and the cursor.
  unfoldable pub ipc_store : List ℕ → ℕ → Bool → Place → IpcCall (Unit {0})
  ipc_store par npar block e s = elim (fill s.sq par npar) [
    | none ↦ fault
    | some bytes ↦ done tt (record s {
      places = set s.places s.cursor_tail (record {
        sem_flag = if block then true else e.sem_flag;
        reading = e.reading;
        event = bytes;
      });
      cursor_tail = next_cursor s.cursor_tail s.nq;
    })
  ]

  unfoldable pub ipc_put : List ℕ → ℕ → Bool → IpcCall (Unit {0})
  ipc_put par npar block s = and_then (ipc_load s.cursor_tail s) (ipc_store par npar block)

  -- The wait for the receiver, and what is copied back from the place.
  unfoldable pub ipc_answer : ℕ → ℕ → IpcCall (ℕ × Option (List ℕ))
  ipc_answer i npar = do c ← ipc_lock_ack; e ← ipc_load i; pure (signaled, some (take npar e.event))

  -- `WQIpc_send` behind its tests: the code, and what is copied back.
  unfoldable pub ipc_publish : List ℕ → ℕ → Bool → IpcCall (ℕ × Option (List ℕ))
  ipc_publish par npar block = do
    c ← ipc_lock_mutex infinite
    λ s.
        (if not s.open_state
            then (do ipc_unlock_mutex; ipc_unlock_writer; pure (wqebadf, none))
            else (do
              ipc_put par npar block
              ipc_unlock_mutex
              ipc_unlock_reader
              if block then ipc_answer s.cursor_tail npar else pure (signaled, none)))
          s

  unfoldable pub ipc_send : Option (List ℕ) → ℕ → ℕ → ℕ → IpcCall (ℕ × Option (List ℕ))
  ipc_send none npar time flags s = done (wqeinval, none) s
  ipc_send (some par) npar time flags s =
      if npar == 0 || ltb s.sq npar || s.bowner
      then done (wqeinval, none) s
      else and_then (ipc_lock_writer time s) (λ res.
        if res == signaled then ipc_publish par npar (flags % 2 == 1) else pure (res, none))
