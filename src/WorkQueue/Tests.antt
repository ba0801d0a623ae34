-- ===== src/WorkQueue/Tests.antt =====
-- Runs of WQ.c over counting semaphores, and its theorems at concrete queues.
use workqueue.Platform.Codes.{infinite}
use workqueue.WorkQueue.Open.{threshold_lem, threshold}
use workqueue.WorkQueue.Send.{sent}
use workqueue.WorkQueue.Enqueue.{send_lem, Added}
use workqueue.Platform.Counting.{counting}
use workqueue.WorkQueue.Session.{serve_refines, get, serve, put, answers, Request}
use workqueue.WorkQueue.Recv.{recv_lem, Took}
use workqueue.WorkQueue.Calls.{recv, send}
use workqueue.WorkQueue.Invariant.{signals, pending, view, IsValid}
use workqueue.WorkQueue.Slots.{Element, next_cursor, Wq}
use workqueue.Platform.Run.{Returns}
use workqueue.Platform.Clock.{timeconv_abs_lem, nanoseconds, timeconv_abs, Timespec}
use workqueue.Prelude.{
  ◌*◌, ◌+◌, get_or, ◌≡◌, ◌≢◌, ◌<◌, arith, List, ℕ, Bool, zero, suc, refl, none, some, true, false,
  inl, inr, [], ◌∷◌,
}

abbrev now : Timespec
now = record { tv_sec = 7; tv_nsec = 0 }

abbrev slot_of : Bool → List ℕ → ℕ → Element counting
slot_of b bytes n = record { sema_ack = false; signaled = b; ack = 0; par = bytes; npar = n }

-- Two slots of three bytes: the receiver holds the one at the head, and a message waits.
abbrev busy : Wq counting
busy = record {
  element_1_size = 3;
  element_length = 2;
  reader = 1;
  writer = 0;
  q_sync = false;
  head_cursor = 1;
  tail_cursor = 1;
  work_elements = slot_of false (9 ∷ 0 ∷ 0 ∷ []) 1 ∷ slot_of true (7 ∷ 8 ∷ 0 ∷ []) 2 ∷ [];
}

-- The same after the receiver has given its element back and taken the other.
abbrev roomy : Wq counting
roomy = record busy {
  reader = 0;
  writer = 1;
  head_cursor = 0;
  work_elements = slot_of true (9 ∷ 0 ∷ 0 ∷ []) 1 ∷ slot_of false (7 ∷ 8 ∷ 0 ∷ []) 2 ∷ [];
}

busy_alone : (i : ℕ) → i ≢ 1 → get_or (signals busy) i false ≡ false
busy_alone zero h = refl
busy_alone (suc zero) h = absurd (h refl)
busy_alone (suc (suc i)) h = refl

roomy_alone : (i : ℕ) → i ≢ 0 → get_or (signals roomy) i false ≡ false
roomy_alone zero h = absurd (h refl)
roomy_alone (suc zero) h = refl
roomy_alone (suc (suc i)) h = refl

busy-IsValid : IsValid busy
unfolding next_cursor
busy-IsValid = record {
  small = omega arith;
  stored = refl;
  head_in = omega arith;
  count = refl;
  tail_at = refl;
  free = refl;
  alone = busy_alone;
  sized = (refl, (refl, tt));
}

roomy-IsValid : IsValid roomy
roomy-IsValid = record {
  small = omega arith;
  stored = refl;
  head_in = omega arith;
  count = refl;
  tail_at = refl;
  free = refl;
  alone = roomy_alone;
  sized = (refl, (refl, tt));
}

abbrev script : List Request
script = put (5 ∷ 6 ∷ []) 2 0 ∷ get 20 ∷ put (5 ∷ 6 ∷ []) 2 0 ∷ get 20 ∷ get 20 ∷ []

serve_refines_example :
    Returns
      (λ es w. IsValid w × ((es, view w) ≡ answers 2 3 script (view busy)))
      (serve counting now script busy)
serve_refines_example = serve_refines now script busy-IsValid (omega arith)

recv_lem_example : Returns (λ r w. Took busy (pending busy) r w) (recv counting now 20 busy)
recv_lem_example = recv_lem now 20 busy-IsValid (inl (omega arith))

send_lem_example :
    Returns
      (Added (sent 3 (5 ∷ 6 ∷ []) 2) roomy)
      (send counting now (some (5 ∷ 6 ∷ [])) 2 infinite 0 roomy)
send_lem_example =
    send_lem now (5 ∷ 6 ∷ []) 2 0 roomy-IsValid infinite (omega arith) (omega arith) (omega arith)
      refl (inr (omega arith))

threshold_lem_example :
    Returns
      (λ b w. (b ≡ true) × IsValid w × (view w ≡ record { held = none; pending = [] }))
      (threshold counting now 2 busy)
threshold_lem_example = threshold_lem now 2 busy-IsValid (omega arith)

timeconv_abs_lem_example :
    ((timeconv_abs 1500 now).tv_nsec < 1000000000)
    × (nanoseconds (timeconv_abs 1500 now) ≡ nanoseconds now + 1500 * 1000000)
timeconv_abs_lem_example = timeconv_abs_lem 1500 now (omega arith) (omega arith)
