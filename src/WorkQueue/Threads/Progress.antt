-- ===== src/WorkQueue/Threads/Progress.antt =====
-- Some thread of a queue can always go on where others have to wait.
use workqueue.WorkQueue.Send.{fill-some}
use workqueue.WorkQueue.Threads.Cells.{tail-lt, held_at}
use workqueue.WorkQueue.Threads.Pool.{weigh-found, weigh}
use workqueue.WorkQueue.Threads.Invariant.{start_of-Inv, Reach-Inv}
use workqueue.WorkQueue.Invariant.{size_of, view, IsValid}
use workqueue.WorkQueue.Threads.Counts.{
  owes_room, IsClear, owns_unit, owes_unit, owns_room, Inv, inside, inside_call,
}
use workqueue.Platform.Counting.{counting}
use workqueue.WorkQueue.Slots.{Wq}
use workqueue.Prelude.{
  ◌⊎◌, get_elem?-some, ◌<◌, All-get_elem?, Bool-cases, false, inl, inr, subst, ◌≢◌, ◌+◌, true, ap,
  ◌≤◌, length, ℕ_discrete, arith, All, get_elem?, ◌≡◌, ℕ, refl, none, some, [],
}
use workqueue.WorkQueue.Threads.Moves.{
  Receiver, Receives, giving, keeping, given, taking, leaving, resting, calling, returning,
  entering, give, keep, unlock_kept, unlock_given, take_slot, unlock_last, asking, locking,
  unlocking, posting, answering, wake, wake_and_ask, lock, unlock, copying, Sends, Memory, start_of,
  Reach, Sender, System, idle, waiting, copy,
}

-- A letter that a sender has under way fits a slot of this size, and is all there to be read.
abbrev pub Fits : ℕ → Sender → Type 0
Fits size (copying l) = (l.npar ≤ size) × (l.npar ≤ length l.par)
Fits size p = Unit {0}

-- A sender between the unit of `writer` and that of `reader` can make a move.
abbrev pub SenderGoesOn : System → Type 0
SenderGoesOn s =
    (i : ℕ) × (p : Sender) × (q : Sender) × (m : Memory) × (get_elem? s.senders i ≡ some p)
    × (owns_room p + owes_unit p ≢ 0)
    × Sends s.memory p m q

-- The receiver, between the lock of `q_sync` and its release, can make a move.
abbrev pub ReceiverGoesOn : System → Type 0
ReceiverGoesOn s =
    (r : Receiver) × (r' : Receiver) × (m : Memory) × (s.receiver ≡ r)
    × (inside_call r ≢ 0)
    × Receives s.memory r m r'

-- A thread that comes to a lock has to wait: the receiver at an empty `reader` and every sender
-- that asks at an empty `writer`, or any thread at `q_sync`.
abbrev pub Blocked : System → Type 0
Blocked s =
    ((s.receiver ≡ waiting) × (s.memory.wq.reader ≡ 0) × (s.memory.wq.writer ≡ 0))
    ⊎ (s.memory.wq.q_sync ≡ true)

inside-on_way : (p : Sender) → inside p ≢ 0 → owns_room p + owes_unit p ≢ 0
inside-on_way idle in_p = absurd (in_p refl)
inside-on_way (asking l) in_p = absurd (in_p refl)
inside-on_way (locking l) in_p = absurd (in_p refl)
inside-on_way (copying l) in_p = omega arith
inside-on_way (unlocking k b) in_p = omega arith
inside-on_way (posting k b) in_p = absurd (in_p refl)
inside-on_way (answering k) in_p = absurd (in_p refl)

module _ (wq : Wq counting) (n : ℕ) (v : IsValid wq)
    (empty : view wq ≡ record { held = none; pending = [] }) {s : System}
    (reached : Reach (start_of wq n) s) where
  inv : Inv s.memory s.senders s.receiver
  inv = Reach-Inv (start_of-Inv wq n v empty) reached

  -- Some sender is on its way from the unit of `writer` to that of `reader`.
  some_on_way :
      s.receiver ≡ waiting
      → s.memory.wq.reader ≡ 0
      → s.memory.wq.writer ≡ 0
      → (i : ℕ) × (p : Sender) × (get_elem? s.senders i ≡ some p) × (owns_room p + owes_unit p ≢ 0)
  some_on_way at_wait no_units no_rooms = elim (ℕ_discrete (weigh owns_room s.senders) 0) [
    | yes none_own ↦
        let clear =
          subst (λ r. IsClear r (held_at s.memory.wq.work_elements s.memory.wq.head_cursor)) at_wait
            inv.clear in
        let (i, p, at, owes) = weigh-found owes_unit s.senders (λ none_owe. absurd (
          omega (
            arith,
            inv.rooms,
            inv.units,
            none_own,
            none_owe,
            ap size_of clear,
            ap owns_unit at_wait,
            ap owes_room at_wait,
            inv.ring.head_in,
          ))) in
        (i, p, at, λ e. owes (omega arith))
    | no some_own ↦
        let (i, p, at, owns) = weigh-found owns_room s.senders some_own in
        (i, p, at, λ e. owns (omega arith))
  ]

  -- The move of a sender that took a slot, where the lock is free for one that waits for it.
  sender_goes_on :
      (i : ℕ) (p : Sender)
      → get_elem? s.senders i ≡ some p
      → owns_room p + owes_unit p ≢ 0
      → All (Fits s.memory.wq.element_1_size) s.senders
      → (inside p ≡ 0 → s.memory.wq.q_sync ≡ false)
      → SenderGoesOn s
  sender_goes_on i (locking l) at on_way fits free = (i, _, _, _, at, on_way, lock (free refl))
  sender_goes_on i (copying l) at on_way fits free =
      let (small, read) = All-get_elem? (Fits s.memory.wq.element_1_size) s.senders i fits at in
      let written = fill-some s.memory.wq.element_1_size l.par l.npar small read in
      let in_range : s.memory.wq.tail_cursor < length s.memory.wq.work_elements =
        omega (arith, inv.ring.stored, tail-lt inv.ring (omega (arith, inv.rooms))) in
      let (e, tail_at) =
        get_elem?-some s.memory.wq.work_elements s.memory.wq.tail_cursor in_range in
      (i, _, _, _, at, on_way, copy e _ tail_at written.0)
  sender_goes_on i (unlocking k b) at on_way fits free = (i, _, _, _, at, on_way, unlock)
  sender_goes_on i (posting k true) at on_way fits free = (i, _, _, _, at, on_way, wake_and_ask)
  sender_goes_on i (posting k false) at on_way fits free = (i, _, _, _, at, on_way, wake)
  sender_goes_on i idle at on_way fits free = absurd (on_way refl)
  sender_goes_on i (asking l) at on_way fits free = absurd (on_way refl)
  sender_goes_on i (answering k) at on_way fits free = absurd (on_way refl)

  sender_inside :
      weigh inside s.senders ≢ 0 → All (Fits s.memory.wq.element_1_size) s.senders → SenderGoesOn s
  sender_inside some_in fits =
      let (i, p, at, in_p) = weigh-found inside s.senders some_in in
      sender_goes_on i p at (inside-on_way p in_p) fits (λ out. absurd (in_p out))

  receiver_goes_on : (r : Receiver) → s.receiver ≡ r → inside_call r ≢ 0 → ReceiverGoesOn s
  receiver_goes_on giving at in_r =
      let in_range : s.memory.wq.head_cursor < length s.memory.wq.work_elements =
        omega (arith, inv.ring.stored, inv.ring.head_in) in
      let (e, head_at) =
        get_elem?-some s.memory.wq.work_elements s.memory.wq.head_cursor in_range in
      elim (Bool-cases e.signaled) [
        | inl marked ↦ (giving, _, _, at, in_r, give e head_at marked)
        | inr unmarked ↦ (giving, _, _, at, in_r, keep e head_at unmarked)
      ]
  receiver_goes_on keeping at in_r = (keeping, _, _, at, in_r, unlock_kept)
  receiver_goes_on given at in_r = (given, _, _, at, in_r, unlock_given)
  receiver_goes_on taking at in_r =
      let in_range : s.memory.wq.head_cursor < length s.memory.wq.work_elements =
        omega (arith, inv.ring.stored, inv.ring.head_in) in
      let (e, head_at) =
        get_elem?-some s.memory.wq.work_elements s.memory.wq.head_cursor in_range in
      (taking, _, _, at, in_r, take_slot e head_at)
  receiver_goes_on leaving at in_r = (leaving, _, _, at, in_r, unlock_last)
  receiver_goes_on resting at in_r = absurd (in_r refl)
  receiver_goes_on calling at in_r = absurd (in_r refl)
  receiver_goes_on returning at in_r = absurd (in_r refl)
  receiver_goes_on waiting at in_r = absurd (in_r refl)
  receiver_goes_on entering at in_r = absurd (in_r refl)

  -- Where all letters that are to be copied fit their slots, the queue is never stuck: when the
  -- receiver waits at an empty `reader` while `writer` is empty as well, or when `q_sync` is locked,
  -- then some sender that has taken a slot and has not yet released a unit of `reader` has a move
  -- to make, with the lock of `q_sync` free where it needs that, or the receiver is between the
  -- lock of `q_sync` and its release and has a move to make.
  pub no_deadlock :
      Blocked s
      → All (Fits s.memory.wq.element_1_size) s.senders
      → SenderGoesOn s ⊎ ReceiverGoesOn s
  no_deadlock (inr locked) fits = elim (ℕ_discrete (inside_call s.receiver) 0) [
    | yes outside ↦ inl (
        sender_inside
          (λ none_in. absurd (omega (arith, inv.lock, none_in, outside, ap size_of locked))) fits)
    | no in_r ↦ inr (receiver_goes_on s.receiver refl in_r)
  ]
  no_deadlock (inl (at_wait, no_units, no_rooms)) fits = elim (Bool-cases s.memory.wq.q_sync) [
    | inl taken ↦ inl (
        sender_inside
          (λ none_in.
            absurd (omega (arith, inv.lock, none_in, ap inside_call at_wait, ap size_of taken)))
          fits)
    | inr free ↦
        let (i, p, at, on_way) = some_on_way at_wait no_units no_rooms in
        inl (sender_goes_on i p at on_way fits (λ out. free))
  ]
