-- ===== src/WorkQueue/Threads/Answers.antt =====
-- Two senders that ask for an answer, one after the other, through the same slot.
use workqueue.Platform.Counting.{counting}
use workqueue.WorkQueue.Slots.{fill, acknowledge, Wq, Element, next_cursor}
use workqueue.Prelude.{◌≡◌, ◌≢◌, List, ℕ, refl, some, true, false, [], ◌∷◌}
use workqueue.WorkQueue.Threads.Moves.{
  Letter, start_of, Reach, System, call, take_room, lock, copy, unlock, wake_and_ask, answer,
  enter_call, lock_first, keep, give, unlock_kept, unlock_given, make_room, take_unit, lock_second,
  take_slot, unlock_last, idle, answering, sender_moves, receiver_moves, here, next,
}

module _ (size : ℕ) (slot_bytes : List ℕ) where
  abbrev pub one_cell : Element counting
  one_cell = record { sema_ack = false; signaled = false; ack = 0; par = slot_bytes; npar = 0 }

  -- A queue of one slot that holds nothing.
  abbrev pub one_slot : Wq counting
  one_slot = record {
    element_1_size = size;
    element_length = 1;
    reader = 0;
    writer = 1;
    q_sync = false;
    head_cursor = 0;
    tail_cursor = 0;
    work_elements = one_cell ∷ [];
  }

  module _ (par par' bytes bytes' : List ℕ) (npar npar' : ℕ) where
    -- On a queue of one slot there is an order of steps by which a second sender takes the answer to
    -- the first: its call with WQ_SEND_FLAGS_BLOCK returns though its message was not handed out, and
    -- the first sender, whose message was handed out and given back, is left waiting.
    pub answer_taken :
        npar ≢ 0
        → npar' ≢ 0
        → fill size par npar ≡ some bytes
        → fill size par' npar' ≡ some bytes'
        → (s : System) × Reach (start_of one_slot 2) s
          × (s.senders ≡ answering 0 ∷ idle ∷ [])
          × (s.memory.received ≡ record { bytes = bytes; size = npar } ∷ [])
          × (s.memory.sent
              ≡ record { bytes = bytes; size = npar }
                ∷ record { bytes = bytes'; size = npar' }
                ∷ [])
    unfolding next_cursor acknowledge
    answer_taken some_bytes some_bytes' full full' =
        let first : Letter = record { par = par; npar = npar; block = true } in
        let second : Letter = record { par = par'; npar = npar'; block = true } in
        let r1 = next here (sender_moves 0 refl (call first some_bytes)) in
        let r2 = next r1 (sender_moves 0 refl (take_room 0 refl)) in
        let r3 = next r2 (sender_moves 0 refl (lock refl)) in
        let r4 = next r3 (sender_moves 0 refl (copy one_cell bytes refl full)) in
        let r5 = next r4 (sender_moves 0 refl unlock) in
        let r6 = next r5 (sender_moves 0 refl wake_and_ask) in
        let r7 = next r6 (receiver_moves enter_call) in
        let r8 = next r7 (receiver_moves (lock_first refl)) in
        let r9 = next r8 (receiver_moves (keep _ refl refl)) in
        let r10 = next r9 (receiver_moves unlock_kept) in
        let r11 = next r10 (receiver_moves (take_unit 0 refl)) in
        let r12 = next r11 (receiver_moves (lock_second refl)) in
        let r13 = next r12 (receiver_moves (take_slot _ refl)) in
        let r14 = next r13 (receiver_moves unlock_last) in
        let r15 = next r14 (receiver_moves enter_call) in
        let r16 = next r15 (receiver_moves (lock_first refl)) in
        let r17 = next r16 (receiver_moves (give _ refl refl)) in
        let r18 = next r17 (receiver_moves unlock_given) in
        let r19 = next r18 (receiver_moves make_room) in
        let r20 = next r19 (sender_moves 1 refl (call second some_bytes')) in
        let r21 = next r20 (sender_moves 1 refl (take_room 0 refl)) in
        let r22 = next r21 (sender_moves 1 refl (lock refl)) in
        let r23 = next r22 (sender_moves 1 refl (copy _ bytes' refl full')) in
        let r24 = next r23 (sender_moves 1 refl unlock) in
        let r25 = next r24 (sender_moves 1 refl wake_and_ask) in
        let r26 = next r25 (sender_moves 1 refl (answer _ 0 refl refl)) in
        (_, r26, refl, refl, refl)
