-- ===== src/Ipc/Send.antt =====
-- `WQIpc_send` of a client.
use workqueue.Ipc.Recv.{accepted}
use workqueue.WorkQueue.Slots.{next_cursor}
use workqueue.Ipc.Waits.{
  ipc_put-done, ipc_lock_writer-timed_out, ipc_lock_writer-done, ipc_load-done, ipc_lock_mutex-done,
}
use workqueue.Prelude.{
  Bool-cases, ◌⊎◌, inl, inr, ◌==◌, ◌%◌, ◌-◌, replicate, arith, ◌++◌, ◌<◌, sym, take, length, set,
  ◌≤◌, ◌∙◌, get_elem?, ◌≢◌, ℕ, ◌≡◌, List, suc, refl, none, some, true, false,
}
use workqueue.Platform.Codes.{infinite, signaled, timed_out}
use workqueue.Platform.Run.{done}
use workqueue.Platform.Clock.{Timespec}
use workqueue.Platform.Posix.{Posix}
use workqueue.Ipc.Calls.{ipc_lock_writer, ipc_send, ipc_publish, WqIpc, Place, wqebadf}

module _ {os : Posix} (now : Timespec) where
  -- What a call leaves that publishes: the message is in the place at the tail, whole and padded with
  -- zeros, with a unit more of `reader` and one less of `writer`.
  pub record Published (s t : WqIpc os) (par : List ℕ) (npar : ℕ) : Type 0 where
    pub before : Place
    pub at : get_elem? s.places s.cursor_tail ≡ some before
    pub places :
        t.places
        ≡ set s.places s.cursor_tail (record {
          sem_flag = before.sem_flag;
          reading = before.reading;
          event = take npar par ++ replicate (s.sq - npar) 0;
        })
    pub tail : t.cursor_tail ≡ next_cursor s.cursor_tail s.nq
    pub reader : os.value t.reader ≡ suc (os.value s.reader)
    pub writer : os.value s.writer ≡ suc (os.value t.writer)
    pub mutex : os.value t.mutex ≡ os.value s.mutex

  -- What a call leaves that is refused: the places, and the units of all semaphores, as before.
  pub record Refused (s t : WqIpc os) : Type 0 where
    pub places : t.places ≡ s.places
    pub tail : t.cursor_tail ≡ s.cursor_tail
    pub reader : os.value t.reader ≡ os.value s.reader
    pub writer : os.value t.writer ≡ os.value s.writer
    pub mutex : os.value t.mutex ≡ os.value s.mutex

  -- A client, a message that fits, and a mutex that is free.
  pub record Ready (s : WqIpc os) (par : List ℕ) (npar : ℕ) : Type 0 where
    pub client : s.bowner ≡ false
    pub some_bytes : npar ≢ 0
    pub fits : npar ≤ s.sq
    pub readable : npar ≤ length par
    pub free : os.value s.mutex ≢ 0
    pub inside : s.cursor_tail < length s.places

  publishes :
      (par : List ℕ) (npar : ℕ) (s : WqIpc os) (w : os.Sem)
      → Ready s par npar
      → os.value s.writer ≡ suc (os.value w)
      → (t : WqIpc os) × (ipc_publish os now par npar false
            (record s { writer = w; open_state = true })
          ≡ done (signaled, none) t)
        × Published s t par npar
  unfolding ipc_publish
  publishes par npar s w r units =
      let (m, taken, was) =
        ipc_lock_mutex-done now (record s { writer = w; open_state = true }) infinite r.free in
      let (e, at, loaded) =
        ipc_load-done now (record s { writer = w; open_state = true; mutex = m }) s.cursor_tail
          r.inside in
      let put_it =
        ipc_put-done now (record s { writer = w; open_state = true; mutex = m }) par npar false e
          r.fits r.readable loaded in
      (
        record s {
          open_state = true;
          writer = w;
          mutex = os.sem_post m;
          reader = os.sem_post s.reader;
          places = set s.places s.cursor_tail (record {
            sem_flag = e.sem_flag;
            reading = e.reading;
            event = take npar par ++ replicate (s.sq - npar) 0;
          });
          cursor_tail = next_cursor s.cursor_tail s.nq;
        },
        rw (taken, put_it) refl,
        record {
          before = e;
          at = at;
          places = refl;
          tail = refl;
          reader = os.value-sem_post s.reader;
          writer = units;
          mutex = os.value-sem_post m ∙ sym was;
        },
      )

  closed :
      (par : List ℕ) (npar : ℕ) (s : WqIpc os) (w : os.Sem)
      → Ready s par npar
      → os.value s.writer ≡ suc (os.value w)
      → (t : WqIpc os) × (ipc_publish os now par npar false
            (record s { writer = w; open_state = false })
          ≡ done (wqebadf, none) t)
        × Refused s t
  unfolding ipc_publish
  closed par npar s w r units =
      let (m, taken, was) =
        ipc_lock_mutex-done now (record s { writer = w; open_state = false }) infinite r.free in
      (
        record s { open_state = false; mutex = os.sem_post m; writer = os.sem_post w },
        rw taken refl,
        record {
          places = refl;
          tail = refl;
          reader = refl;
          writer = os.value-sem_post w ∙ sym units;
          mutex = os.value-sem_post m ∙ sym was;
        },
      )

  passes :
      (par : List ℕ) (npar time flags : ℕ) (s : WqIpc os) (w : os.Sem)
      → Ready s par npar
      → flags % 2 ≡ 0
      → ipc_lock_writer os now time s ≡ done signaled (record s { writer = w })
      → ipc_send os now (some par) npar time flags s
        ≡ ipc_publish os now par npar false (record s { writer = w })
  unfolding ipc_send
  passes par npar time flags s w r no_answer taken =
      let fits = accepted npar s.sq s.bowner r.some_bytes r.fits r.client in
      let silent : (flags % 2 == 1) ≡ false = ground (arith, no_answer) in
      rw (fits, taken, silent) refl

  times_out :
      (par : List ℕ) (npar time flags : ℕ) (s : WqIpc os)
      → Ready s par npar
      → os.value s.writer ≡ 0
      → time ≢ infinite
      → ipc_send os now (some par) npar time flags s ≡ done (timed_out, none) s
  unfolding ipc_send
  times_out par npar time flags s r full limit =
      let fits = accepted npar s.sq s.bowner r.some_bytes r.fits r.client in
      rw (fits, ipc_lock_writer-timed_out now s time full limit) refl

  -- The answers of a call, by their codes, each with when it is given and what is left.
  pub data Answers (s : WqIpc os) : ℕ → WqIpc os → List ℕ → ℕ → Type 0 where
    sent_it :
        {t : WqIpc os} {par : List ℕ} {npar : ℕ}
        → os.value s.writer ≢ 0
        → s.open_state ≡ true
        → Published s t par npar
        → Answers s signaled t par npar
    shut :
        {t : WqIpc os} {par : List ℕ} {npar : ℕ}
        → os.value s.writer ≢ 0
        → s.open_state ≡ false
        → Refused s t
        → Answers s wqebadf t par npar
    late : {par : List ℕ} {npar : ℕ} → os.value s.writer ≡ 0 → Answers s timed_out s par npar

  -- `WQIpc_send` of a client, of a message that fits and with no answer asked for, while the mutex is
  -- free, with a time limit or while there is room, returns: with room in an open queue the
  -- message is put in the place at the tail; with room in a queue that is closed WQEBADF is
  -- reported, and without room the timeout, and the places and the units of all semaphores are as
  -- before.
  pub ipc_send_lem :
      (par : List ℕ) (npar time flags : ℕ) (s : WqIpc os)
      → Ready s par npar
      → flags % 2 ≡ 0
      → (os.value s.writer ≢ 0) ⊎ (time ≢ infinite)
      → (code : ℕ) × (t : WqIpc os) × (ipc_send os now (some par) npar time flags s
          ≡ done (code, none) t)
        × Answers s code t par npar
  ipc_send_lem par npar time flags s r no_answer ends = elim (Bool-cases (os.value s.writer == 0)) [
    | inl empty ↦
        let full : os.value s.writer ≡ 0 = ground (arith, empty) in
        let limit : time ≢ infinite = elim ends [ inl room ↦ absurd (room full) | inr l ↦ l ] in
        (timed_out, s, times_out par npar time flags s r full limit, late full)
    | inr units_left ↦
        let room : os.value s.writer ≢ 0 = ground (arith, units_left) in
        let (w, taken, units) = ipc_lock_writer-done now s time room in
        let starts = passes par npar time flags s w r no_answer taken in
        elim (Bool-cases s.open_state) [
          | inl is_open ↦
              let (t, run, after) = publishes par npar s w r units in
              (
                signaled,
                t,
                starts
                    ∙ (λ i.
                        ipc_publish os now par npar false
                          (record s { writer = w; open_state = is_open i }))
                    ∙ run,
                sent_it room is_open after,
              )
          | inr is_shut ↦
              let (t, run, after) = closed par npar s w r units in
              (
                wqebadf,
                t,
                starts
                    ∙ (λ i.
                        ipc_publish os now par npar false
                          (record s { writer = w; open_state = is_shut i }))
                    ∙ run,
                shut room is_shut after,
              )
        ]
  ]
