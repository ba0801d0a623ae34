-- ===== src/Ipc/Recv.antt =====
-- `WQIpc_owner_recv` and the drain of `WQIpc_close`.
use workqueue.WorkQueue.Slots.{next_cursor}
use workqueue.Ipc.Waits.{
  ipc_lock_writer-done, ipc_load-done, ipc_lock_mutex-waits, ipc_lock_mutex-done,
}
use workqueue.Prelude.{
  suc, not, none, Bool, ◌||◌, set, if◌then◌else◌, Bool-cases, ltb, sym, ◌==◌, ◌∙◌, ◌≤◌, arith, ◌≢◌,
  List, length, ◌<◌, ℕ, ◌≡◌, refl, some, true, false, inl, inr,
}
use workqueue.Platform.Codes.{wqeinval, infinite}
use workqueue.Platform.Run.{◌>>◌, done, waiting, and_then}
use workqueue.Platform.Clock.{Timespec}
use workqueue.Platform.Posix.{Posix}
use workqueue.Ipc.Calls.{
  ipc_drain, ipc_threshold, ipc_publish, ipc_give_back, owner_recv, ipc_send, ipc_take_next,
  ipc_release, WqIpc,
}

-- The test of the arguments of `WQIpc_send`.
pub accepted :
    (npar sq : ℕ) (owner : Bool)
    → npar ≢ 0
    → npar ≤ sq
    → owner ≡ false
    → (npar == 0 || ltb sq npar || owner) ≡ false
accepted npar sq owner some_bytes fits client =
    let sized : (npar == 0) ≡ false = ground (arith, some_bytes) in
    let small : ltb sq npar ≡ false = ground (arith, fits) in rw (sized, small) client

module _ {os : Posix} (now : Timespec) where
  -- Nobody is in a section of the mutex, and the cursor is on a place.
  pub record Quiet (s : WqIpc os) : Type 0 where
    pub free : os.value s.mutex ≡ 1
    pub inside : s.cursor_head < length s.places

  release_lem :
      (s : WqIpc os)
      → Quiet s
      → (t : WqIpc os) × (ipc_release os now s ≡ done tt t)
        × (os.value t.mutex ≡ 1)
        × (t.sq ≡ s.sq)
        × (os.value s.writer ≤ os.value t.writer)
  unfolding ipc_release ipc_give_back
  release_lem s q =
      let (m, taken, was) =
        ipc_lock_mutex-done now s infinite (λ z. absurd (omega (arith, q.free, z))) in
      let (e, at, loaded) = ipc_load-done now (record s { mutex = m }) s.cursor_head q.inside in
      let back : os.value (os.sem_post m) ≡ 1 = os.value-sem_post m ∙ sym was ∙ q.free in
      elim (Bool-cases e.reading) [
        | inl held ↦ (
          record s {
            ack = if e.sem_flag then os.sem_post s.ack else s.ack;
            places =
                set s.places s.cursor_head
                  (record { sem_flag = false; reading = false; event = e.event });
            cursor_head = next_cursor s.cursor_head s.nq;
            mutex = os.sem_post m;
            writer = os.sem_post s.writer;
          },
          rw (taken, loaded, held) refl,
          back,
          refl,
          omega (arith, os.value-sem_post s.writer),
        )
        | inr none_held ↦ (
          record s { mutex = os.sem_post m },
          rw (taken, loaded, none_held) refl,
          back,
          refl,
          omega arith,
        )
      ]

  take_next-waits :
      (time : ℕ) (s : WqIpc os)
      → os.value s.mutex ≡ 1
      → (m : os.Sem) × (ipc_take_next os now time s ≡ waiting (record s { mutex = m }))
        × (os.value m ≡ 0)
  unfolding ipc_take_next
  take_next-waits time s free =
      let (m, taken, was) = ipc_lock_mutex-done now s time (λ z. absurd (omega (arith, free, z))) in
      let none_left : os.value m ≡ 0 = omega (arith, was, free) in
      (m, rw (taken, ipc_lock_mutex-waits now (record s { mutex = m }) none_left) refl, none_left)

  send-waits :
      (par : List ℕ) (npar time flags : ℕ) (s : WqIpc os)
      → npar ≢ 0
      → npar ≤ s.sq
      → s.bowner ≡ false
      → os.value s.mutex ≡ 0
      → os.value s.writer ≢ 0
      → (t : WqIpc os) × (ipc_send os now (some par) npar time flags s ≡ waiting t)
  unfolding ipc_send ipc_publish
  send-waits par npar time flags s some_bytes fits client taken room =
      let (w, got_it, was) = ipc_lock_writer-done now s time room in
      let passes : (npar == 0 || ltb s.sq npar || s.bowner) ≡ false =
        accepted npar s.sq s.bowner some_bytes fits client in
      (
        record s { writer = w },
        rw (passes, got_it, ipc_lock_mutex-waits now (record s { writer = w }) taken) refl,
      )

  -- The state that `WQIpc_owner_recv` is left waiting in.
  record Stuck (s t : WqIpc os) : Type 0 where
    mutex : os.value t.mutex ≡ 0
    size : t.sq ≡ s.sq
    writer : os.value s.writer ≤ os.value t.writer

  recv-Stuck :
      (time : ℕ) (s : WqIpc os)
      → Quiet s
      → s.bowner ≡ true
      → (t : WqIpc os) × (owner_recv os now time s ≡ waiting t) × Stuck s t
  unfolding owner_recv
  recv-Stuck time s q owner =
      let (t, released, free, same, more) = release_lem s q in
      let (m, waits, taken) = take_next-waits time t free in
      (
        record t { mutex = m },
        (λ i.
              if not (owner i)
              then done (wqeinval, none) s
              else (ipc_release os now >> ipc_take_next os now time) s)
            ∙ (λ i. and_then (released i) (λ u. ipc_take_next os now time))
            ∙ waits,
        record { mutex = taken; size = same; writer = more },
      )

  threshold_waits :
      (fuel : ℕ) (s : WqIpc os)
      → Quiet s
      → s.bowner ≡ true
      → (t : WqIpc os) × (ipc_threshold os now (suc fuel) s ≡ waiting t)
  unfolding ipc_threshold ipc_drain
  threshold_waits fuel s q owner =
      let (m, taken, was) =
        ipc_lock_mutex-done now s infinite (λ z. absurd (omega (arith, q.free, z))) in
      let (t, waits, left) =
        recv-Stuck 300 (record s { mutex = os.sem_post m; open_state = false })
          (record { free = os.value-sem_post m ∙ sym was ∙ q.free; inside = q.inside }) owner in
      (t, rw (taken, waits) refl)

  -- `WQIpc_owner_recv` of an owner never hands out a message: with any time limit, and however
  -- many messages wait, it is left waiting for the mutex that it has taken itself; a call of
  -- `WQIpc_send` by a client that comes then, with a message that fits and while there is room, is
  -- left waiting as well; and so is the drain of `WQIpc_close` where it comes instead, with any fuel
  -- from one call on.
  pub owner_recv_waits :
      (time fuel : ℕ) (s : WqIpc os) (par : List ℕ) (npar time_of_send flags : ℕ)
      → Quiet s
      → s.bowner ≡ true
      → npar ≢ 0
      → npar ≤ s.sq
      → os.value s.writer ≢ 0
      → (t : WqIpc os) × (u : WqIpc os) × (v : WqIpc os) × (owner_recv os now time s ≡ waiting t)
        × (ipc_send os now (some par) npar time_of_send flags (record t { bowner = false })
            ≡ waiting u)
        × (ipc_threshold os now (suc fuel) s ≡ waiting v)
  owner_recv_waits time fuel s par npar time_of_send flags q owner some_bytes fits room =
      let (t, waits, left) = recv-Stuck time s q owner in
      let (u, waits_too) =
        send-waits par npar time_of_send flags (record t { bowner = false }) some_bytes
          (omega (arith, left.size, fits)) refl left.mutex
          (λ z. absurd (room (omega (arith, z, left.writer)))) in
      let (v, drains) = threshold_waits fuel s q owner in (t, u, v, waits, waits_too, drains)
