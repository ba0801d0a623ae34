-- ===== src/WorkQueue/Threads/Safety.antt =====
-- What holds of a queue whatever the order of the steps of its threads.
use workqueue.WorkQueue.Ring.{window, length-window}
use workqueue.WorkQueue.Threads.Cells.{tail-ne-head, held_at, texts, front}
use workqueue.WorkQueue.Threads.Pool.{weigh-constant, weigh-pair, weigh-le}
use workqueue.WorkQueue.Mailbox.{Message}
use workqueue.WorkQueue.Threads.Invariant.{Reach-cap, start_of-Inv, Reach-Inv, size_of-le}
use workqueue.WorkQueue.Invariant.{message, size_of, blank, view, IsValid}
use workqueue.WorkQueue.Threads.Counts.{owns_unit, owes_unit, owns_room, Inv, inside, inside_call}
use workqueue.Platform.Counting.{counting}
use workqueue.WorkQueue.Slots.{filled, Wq}
use workqueue.Prelude.{
  map-set_same, get_or-set_ne, map-set, ◌∙◌, append-nil, get_or, sym, ◌≢◌, true, ap, ◌≤◌, length,
  ℕ_discrete, ◌++◌, arith, All, List, get_elem?, ◌≡◌, ℕ, Option, refl, none, some, [],
}
use workqueue.WorkQueue.Threads.Moves.{
  copying, Sends, Memory, start_of, Reach, Sender, System, idle, waiting, copy, answer,
}

-- A thread between the lock of `q_sync` and its release.
abbrev pub InSection : System → Option ℕ → Type 0
InSection s none = inside_call s.receiver ≡ 1
InSection s (some i) = (p : Sender) × (get_elem? s.senders i ≡ some p) × (inside p ≡ 1)

module _ (wq : Wq counting) (n : ℕ) (v : IsValid wq)
    (empty : view wq ≡ record { held = none; pending = [] }) {s : System}
    (reached : Reach (start_of wq n) s) where
  inv : Inv s.memory s.senders s.receiver
  inv = Reach-Inv (start_of-Inv wq n v empty) reached

  -- Two senders, or a sender and the receiver, are never both between the lock of `q_sync` and its
  -- release.
  pub mutual_exclusion : (a b : Option ℕ) → InSection s a → InSection s b → a ≡ b
  mutual_exclusion none none in_a in_b = refl
  mutual_exclusion none (some j) in_a (q, at_q, in_b) = absurd (
      omega (
        arith,
        inv.lock,
        size_of-le s.memory.wq.q_sync,
        weigh-le inside s.senders j q at_q,
        in_a,
        in_b,
      ))
  mutual_exclusion (some i) none (p, at_p, in_a) in_b = absurd (
      omega (
        arith,
        inv.lock,
        size_of-le s.memory.wq.q_sync,
        weigh-le inside s.senders i p at_p,
        in_a,
        in_b,
      ))
  mutual_exclusion (some i) (some j) (p, at_p, in_a) (q, at_q, in_b) = elim (ℕ_discrete i j) [
    | yes same ↦ ap (λ (k : ℕ). some k) same
    | no apart ↦ absurd (
        omega (
          arith,
          inv.lock,
          size_of-le s.memory.wq.q_sync,
          in_a,
          in_b,
          weigh-pair inside s.senders i j p q at_p at_q apart,
        ))
  ]

  -- What the receiver was handed out is, message by message, what was published first, and at most
  -- as many messages as the queue has slots are published and not handed out.
  pub handed_out_in_order :
      (rest : List Message) × (s.memory.received ++ rest ≡ s.memory.sent)
      × (length rest ≤ wq.element_length)
  handed_out_in_order =
      let open_front =
        front s.memory.wq.element_length s.memory.wq.work_elements s.memory.wq.head_cursor in
      let w =
        length-window blank s.memory.wq.element_length (texts s.memory.wq.work_elements) open_front
          inv.waits in
      (_, inv.ring.log, omega (arith, inv.rooms, w, Reach-cap reached))

  -- When no sender is in a call and the receiver waits at an empty `reader`, it was handed out all
  -- that was ever published: no message is lost, and none waits unseen.
  pub none_lost :
      All (λ p. p ≡ idle) s.senders
      → s.receiver ≡ waiting
      → s.memory.wq.reader ≡ 0
      → s.memory.received ≡ s.memory.sent
  none_lost quiet at_wait no_units =
      let none_owed = weigh-constant owes_unit s.senders idle quiet refl in
      let none_wait : inv.waits ≡ 0 =
        omega (arith, inv.units, no_units, none_owed, ap owns_unit at_wait) in
      let open_front =
        front s.memory.wq.element_length s.memory.wq.work_elements s.memory.wq.head_cursor in
      sym (append-nil s.memory.received)
      ∙ ap
          (λ k.
            s.memory.received
            ++ window blank s.memory.wq.element_length (texts s.memory.wq.work_elements) open_front
                k)
          (sym none_wait)
      ∙ inv.ring.log

  -- While the receiver holds a slot no sender's move changes the message in it, nor the head.
  pub held_untouched :
      (i : ℕ) {p q : Sender} {m : Memory}
      → get_elem? s.senders i ≡ some p
      → Sends s.memory p m q
      → held_at s.memory.wq.work_elements s.memory.wq.head_cursor ≡ true
      → (m.wq.head_cursor ≡ s.memory.wq.head_cursor)
        × (get_or (texts m.wq.work_elements) m.wq.head_cursor blank
            ≡ get_or (texts s.memory.wq.work_elements) s.memory.wq.head_cursor blank)
  held_untouched i at (copy {l} e bytes tail_at full) holds =
      let new = filled counting e bytes l.npar l.block in
      let one = weigh-le owns_room s.senders i (copying l) at in
      let apart : s.memory.wq.tail_cursor ≢ s.memory.wq.head_cursor =
        tail-ne-head inv.ring holds (omega (arith, inv.rooms, ap size_of holds)) in
      (
        refl,
        rw (map-set message s.memory.wq.work_elements s.memory.wq.tail_cursor new) (
            get_or-set_ne (texts s.memory.wq.work_elements) s.memory.wq.tail_cursor
              s.memory.wq.head_cursor (message new) blank apart),
      )
  held_untouched i at (answer {i = j} e k here one) holds = (
    refl,
    rw (map-set_same message s.memory.wq.work_elements j e (record e { ack = k }) here refl) refl,
  )
  held_untouched i at mv holds = (refl, refl)
