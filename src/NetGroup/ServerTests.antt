-- ===== src/NetGroup/ServerTests.antt =====
-- Runs of the server of messages and of the sending of datagrams, and the theorems at them.
use workqueue.NetGroup.Shifting.{Keeps}
use workqueue.NetGroup.Server.{buffer_turns, Buffer}
use workqueue.NetGroup.Buffering.{buffer_turns_lem, left_over, unread_after}
use workqueue.Platform.Run.{fault, Returns}
use workqueue.NetGroup.Sending.{
  router_send_message_lem, router_send_message-fault, Obtained, AreDistinct, Served,
}
use workqueue.NetGroup.Destinations.{all_ones, find_to, To, router_send_message, Resources}
use workqueue.Prelude.{◌<◌, length, ◌≡◌, arith, ℕ, List, refl, some, true, inl, inr, [], ◌∷◌}

abbrev empty_buffer : Buffer
empty_buffer = record { pbuffer = 0 ∷ 0 ∷ 0 ∷ 0 ∷ []; cursor = 0 }

-- A datagram that is left, one that does not fit whole, one that is all processed, and behind an
-- empty one, which ends the server, one that is not received.
abbrev datagrams : List (List ℕ × ℕ)
datagrams = (1 ∷ 2 ∷ 3 ∷ [], 0) ∷ (4 ∷ 5 ∷ [], 0) ∷ (6 ∷ [], 9) ∷ ([], 0) ∷ (7 ∷ [], 0) ∷ []

test_ended : unread_after 4 datagrams [] ≡ []
unfolding unread_after left_over
test_ended = refl

test_unread : unread_after 4 ((1 ∷ 2 ∷ 3 ∷ [], 0) ∷ (4 ∷ 5 ∷ [], 0) ∷ []) [] ≡ 3 ∷ 4 ∷ []
unfolding unread_after left_over
test_unread = refl

buffer_turns_lem_example :
    (b' : Buffer) × (buffer_turns 4 datagrams empty_buffer ≡ some b')
    × Keeps 4 b' (unread_after 4 datagrams [])
    × (length (unread_after 4 datagrams []) < 4)
buffer_turns_lem_example =
    buffer_turns_lem 4 2 datagrams empty_buffer [] refl
      (record { free = 0 ∷ 0 ∷ 0 ∷ 0 ∷ []; split = refl; used = refl; sized = refl })
      (inl refl, (inl refl, (inr (omega arith), (inl refl, (inl refl, tt))))) (omega arith)
      (omega arith)

abbrev all_given : Resources
all_given = record { block = true; socket = some 5; lock = true }

abbrev one_to : List To
one_to = record { ip = 1; port = 80; sock = 4 } ∷ []

abbrev as_it_is : List ℕ → ℕ × ℕ
as_it_is par = (length par, 16)

given-Served : Served all_given (7 ∷ 8 ∷ []) 90
given-Served = record {
  block = refl;
  sock = 5;
  socket = refl;
  lock = refl;
  some_par = omega arith;
  some_port = omega arith;
}

one_to-AreDistinct : AreDistinct one_to
unfolding AreDistinct find_to
one_to-AreDistinct = (refl, tt)

router_send_message_lem_example :
    Returns
      (λ c kept. (c ≡ 1) × (to : To) × Obtained 1 90 one_to to kept)
      (router_send_message all_given (2 ∷ []) (some 1) 90 (7 ∷ 8 ∷ []) as_it_is one_to)
router_send_message_lem_example =
    router_send_message_lem all_given [] 1 90 (7 ∷ 8 ∷ []) as_it_is one_to given-Served
      one_to-AreDistinct (omega arith) (omega arith) (omega arith)

router_send_message-fault_example :
    router_send_message all_given (all_ones ∷ 2 ∷ []) (some 1) 90 (7 ∷ 8 ∷ []) as_it_is one_to
    ≡ fault
router_send_message-fault_example =
    router_send_message-fault all_given [] 1 90 2 (7 ∷ 8 ∷ []) as_it_is one_to given-Served
      one_to-AreDistinct (omega arith) (omega arith) (omega arith)
