-- ===== src/WorkQueue/Threads/Tests.antt =====
-- Schedules of two senders and the receiver on a queue of one slot, and the theorems at them.
use workqueue.WorkQueue.Threads.Cells.{texts}
use workqueue.WorkQueue.Threads.Answers.{one_slot}
use workqueue.WorkQueue.Invariant.{signals, blank, IsValid}
use workqueue.WorkQueue.Threads.Safety.{
  held_untouched, handed_out_in_order, mutual_exclusion, none_lost,
}
use workqueue.WorkQueue.Threads.Progress.{no_deadlock, SenderGoesOn, ReceiverGoesOn}
use workqueue.Platform.Counting.{counting}
use workqueue.WorkQueue.Mailbox.{Message}
use workqueue.WorkQueue.Slots.{acknowledge, next_cursor, fill, Wq, Element}
use workqueue.Prelude.{
  ◌⊎◌, inl, Option, ◌≤◌, arith, ◌≢◌, length, get_or, ◌++◌, List, ℕ, ◌≡◌, zero, suc, refl, some,
  true, false, [], ◌∷◌,
}
use workqueue.WorkQueue.Threads.Moves.{
  start_of, Sender, System, Reach, Letter, call, take_room, lock, copy, unlock, wake, enter_call,
  lock_first, keep, give, unlock_kept, unlock_given, make_room, take_unit, lock_second, take_slot,
  unlock_last, idle, resting, waiting, locking, sender_moves, receiver_moves, here, next,
}

abbrev tiny : Wq counting
tiny = one_slot 2 (0 ∷ 0 ∷ [])

tiny-IsValid : IsValid tiny
unfolding next_cursor
tiny-IsValid = record {
  small = omega arith;
  stored = refl;
  head_in = omega arith;
  count = refl;
  tail_at = refl;
  free = refl;
  alone = only_head;
  sized = (refl, tt);
}
  where
    only_head : (i : ℕ) → i ≢ 0 → get_or (signals tiny) i false ≡ false
    only_head zero d = absurd (d refl)
    only_head (suc zero) d = refl
    only_head (suc (suc i)) d = refl

abbrev letter : Letter
letter = record { par = 5 ∷ 6 ∷ []; npar = 2; block = false }

-- The first sender has the lock.
abbrev s_copying : System
s_copying = record {
  memory = record { wq = record tiny { writer = 0; q_sync = true }; sent = []; received = [] };
  senders = Sender.copying letter ∷ idle ∷ [];
  receiver = resting;
}

to_copying : Reach (start_of tiny 2) s_copying
to_copying =
    next
      (next (next here (sender_moves 0 refl (call letter (omega arith))))
        (sender_moves 0 refl (take_room 0 refl)))
      (sender_moves 0 refl (lock refl))

mutual_exclusion_example : ◌≡◌ {A = Option ℕ} (some 0) (some 0)
mutual_exclusion_example =
    mutual_exclusion tiny 2 tiny-IsValid refl to_copying (some 0) (some 0) (_, refl, refl)
      (_, refl, refl)

abbrev filled_cell : Element counting
filled_cell = record { sema_ack = false; signaled = false; ack = 0; par = 5 ∷ 6 ∷ []; npar = 2 }

abbrev note : Message
note = record { bytes = 5 ∷ 6 ∷ []; size = 2 }

-- The message was published, and the receiver holds it.
abbrev s_held : System
s_held = record {
  memory = record {
    wq = record tiny { writer = 0; work_elements = record filled_cell { signaled = true } ∷ [] };
    sent = note ∷ [];
    received = note ∷ [];
  };
  senders = idle ∷ idle ∷ [];
  receiver = resting;
}

to_held : Reach (start_of tiny 2) s_held
unfolding next_cursor fill
to_held =
    let r4 = next to_copying (sender_moves 0 refl (copy _ (5 ∷ 6 ∷ []) refl refl)) in
    let r5 = next r4 (sender_moves 0 refl unlock) in
    let r6 = next r5 (sender_moves 0 refl wake) in
    let r7 = next r6 (receiver_moves enter_call) in
    let r8 = next r7 (receiver_moves (lock_first refl)) in
    let r9 = next r8 (receiver_moves (keep _ refl refl)) in
    let r10 = next r9 (receiver_moves unlock_kept) in
    let r11 = next r10 (receiver_moves (take_unit 0 refl)) in
    let r12 = next r11 (receiver_moves (lock_second refl)) in
    let r13 = next r12 (receiver_moves (take_slot _ refl)) in next r13 (receiver_moves unlock_last)

handed_out_in_order_example :
    (rest : List Message) × ((note ∷ []) ++ rest ≡ note ∷ []) × (length rest ≤ 1)
handed_out_in_order_example = handed_out_in_order tiny 2 tiny-IsValid refl to_held

held_untouched_example :
    (◌≡◌ {A = ℕ} 0 0)
    × (get_or (texts {os = counting} s_held.memory.wq.work_elements) 0 blank
        ≡ get_or (texts {os = counting} s_held.memory.wq.work_elements) 0 blank)
held_untouched_example =
    held_untouched tiny 2 tiny-IsValid refl to_held 0 refl (call letter (omega arith)) refl

-- The receiver gave the slot back and waits.
abbrev s_drained : System
s_drained = record {
  memory = record {
    wq = record tiny { work_elements = filled_cell ∷ [] };
    sent = note ∷ [];
    received = note ∷ [];
  };
  senders = idle ∷ idle ∷ [];
  receiver = waiting;
}

to_drained : Reach (start_of tiny 2) s_drained
unfolding next_cursor acknowledge
to_drained =
    let r15 = next to_held (receiver_moves enter_call) in
    let r16 = next r15 (receiver_moves (lock_first refl)) in
    let r17 = next r16 (receiver_moves (give _ refl refl)) in
    let r18 = next r17 (receiver_moves unlock_given) in next r18 (receiver_moves make_room)

none_lost_example : note ∷ [] ≡ note ∷ []
none_lost_example = none_lost tiny 2 tiny-IsValid refl to_drained (refl, (refl, tt)) refl refl

-- A sender has taken the slot and has no lock, and the receiver waits.
abbrev s_crossed : System
s_crossed = record {
  memory = record { wq = record tiny { writer = 0 }; sent = []; received = [] };
  senders = locking letter ∷ idle ∷ [];
  receiver = waiting;
}

to_crossed : Reach (start_of tiny 2) s_crossed
to_crossed =
    let r1 = next here (sender_moves 0 refl (call letter (omega arith))) in
    let r2 = next r1 (sender_moves 0 refl (take_room 0 refl)) in
    let r3 = next r2 (receiver_moves enter_call) in
    let r4 = next r3 (receiver_moves (lock_first refl)) in
    let r5 = next r4 (receiver_moves (keep _ refl refl)) in next r5 (receiver_moves unlock_kept)

no_deadlock_example : SenderGoesOn s_crossed ⊎ ReceiverGoesOn s_crossed
no_deadlock_example =
    no_deadlock tiny 2 tiny-IsValid refl to_crossed (inl (refl, refl, refl)) (tt, (tt, tt))
