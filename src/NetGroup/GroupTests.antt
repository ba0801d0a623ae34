-- ===== src/NetGroup/GroupTests.antt =====
-- Groups of hosts over counting semaphores, and the theorems at them.
use workqueue.NetGroup.Groups.{group_broadcast, group_create-Waits, group_create, Heard}
use workqueue.NetGroup.Casts.{host_broadcast, delete_hosts, bare_packet, host_unicast}
use workqueue.Platform.Codes.{dword}
use workqueue.NetGroup.Registering.{Granted, Made}
use workqueue.WorkQueue.Invariant.{signals}
use workqueue.NetGroup.Deleting.{delete_hosts_lem, ReachedTwice}
use workqueue.Platform.Counting.{counting}
use workqueue.NetGroup.Hosts.{Host, Registration, Allocations}
use workqueue.NetGroup.Unicast.{host_unicast_lem, NextTurn, Replaced}
use workqueue.NetGroup.Delivery.{Reached, Each, CanTake}
use workqueue.Platform.Clock.{Timespec}
use workqueue.WorkQueue.Slots.{Element, next_cursor}
use workqueue.Prelude.{
  ◌≡◌, replicate, get_or, arith, ◌<◌, ◌≢◌, List, ℕ, zero, suc, refl, some, true, false, [], ◌∷◌,
}
use workqueue.NetGroup.Routing.{Handlers, recv_from_unicast, disconnect, closing}
use workqueue.Platform.Run.{◌>>◌, Returns, Waits}

abbrev now : Timespec
now = record { tv_sec = 7; tv_nsec = 0 }

abbrev all_functions : Handlers
all_functions = record { unicasts = true; broadcasts = true; multicasts = true }

abbrev of_name : ℕ → ℕ → Registration
of_name name n = record {
  inits = true;
  deinits = true;
  handlers = all_functions;
  max_queuesize = 8;
  queue_length = n;
  host_name = name;
}

abbrev at_block : ℕ → Allocations
at_block a = record { block = some a; grants = λ n. true }

-- Two hosts with the names 7 and 9.
abbrev two_hosts : List (Allocations × Registration)
two_hosts = (at_block 16, of_name 7 2) ∷ (at_block 32, of_name 9 1) ∷ []

granted : (name a n : ℕ) → n ≢ 0 → n < dword → Granted 4 (at_block a, of_name name n)
granted name a n some_slots small = record {
  taken = ground arith;
  at = a;
  block = refl;
  grants = λ m. refl;
  small = small;
  narrow = omega arith;
  narrow_route = omega arith;
}

-- A host whose queue has two free slots of 16 bytes.
abbrev slot_of : ℕ → Element counting
slot_of n = record { sema_ack = false; signaled = false; ack = 0; par = replicate 16 0; npar = n }

abbrev idle : ℕ → ℕ → Host counting
idle name a = record {
  address = a;
  register_data = of_name name 2;
  queue = record {
    element_1_size = 16;
    element_length = 2;
    reader = 0;
    writer = 2;
    q_sync = false;
    head_cursor = 0;
    tail_cursor = 0;
    work_elements = slot_of 0 ∷ slot_of 0 ∷ [];
  };
}

idle_alone : (name a i : ℕ) → i ≢ 0 → get_or (signals (idle name a).queue) i false ≡ false
idle_alone name a zero h = refl
idle_alone name a (suc zero) h = refl
idle_alone name a (suc (suc i)) h = refl

idle-CanTake : (name a : ℕ) → CanTake 2 16 (idle name a)
unfolding next_cursor
idle-CanTake name a = record {
  valid = record {
    small = omega arith;
    stored = refl;
    head_in = omega arith;
    count = refl;
    tail_at = refl;
    free = refl;
    alone = idle_alone name a;
    sized = (refl, (refl, tt));
  };
  room = omega arith;
  wide = omega arith;
}

group_broadcast_example :
    Returns
      (λ u ks.
        (hs : List (Host counting)) × Each (Made 4) two_hosts hs
        × Each (Heard now 5 (idle 7 16) (1 ∷ 2 ∷ [])) hs ks)
      ((group_create counting now 0 0 4 two_hosts
          >> host_broadcast counting now 0 (some (idle 7 16)) (1 ∷ 2 ∷ []))
        [])
group_broadcast_example =
    group_broadcast now (λ n. (n, refl)) false refl 5 0 0 0 4 two_hosts (idle 7 16) (1 ∷ 2 ∷ [])
      (granted 7 16 2 (omega arith) (omega arith), (granted 9 32 1 (omega arith) (omega arith), tt))
      (refl, (refl, tt)) (omega arith) (omega arith) (omega arith) (omega arith)

group_create-Waits_example :
    Waits
      (λ ks.
        (h : Host counting) × Made 4 (at_block 16, of_name 7 1) h
        × Each (Reached (bare_packet counting now 0 0 disconnect)) (h ∷ []) ks)
      (group_create counting now 0 0 4
        ((at_block 16, of_name 7 1) ∷ (at_block 32, of_name 9 0) ∷ [])
        [])
group_create-Waits_example =
    group_create-Waits now (λ n. (n, refl)) false refl 0 0 4 (at_block 16, of_name 7 1)
      (at_block 32, of_name 9 0) [] (granted 7 16 1 (omega arith) (omega arith)) refl refl

host_unicast_lem_example :
    Returns
      (λ u ks.
        Replaced
          (NextTurn now 5 (some (true, recv_from_unicast (1 ∷ 2 ∷ []) 7 ∷ [])))
          (idle 7 16 ∷ [])
          []
          ks)
      (host_unicast counting now 0
        (some 32)
        (some (idle 7 16))
        (1 ∷ 2 ∷ [])
        2
        (idle 7 16 ∷ idle 9 32 ∷ []))
host_unicast_lem_example =
    let t = idle-CanTake 9 32 in
    host_unicast_lem now 0 5 32 (some (idle 7 16)) (1 ∷ 2 ∷ []) 2 (idle 7 16 ∷ []) (idle 9 32) []
      refl (omega arith) (omega arith) (omega arith) (omega arith, tt) refl
      (record { valid = t.valid; room = omega arith; wide = omega arith }) refl refl

delete_hosts_lem_example :
    Returns
      (λ u ks.
        Each
          (ReachedTwice
            (bare_packet counting now 3 4 disconnect)
            (bare_packet counting now 3 4 closing))
          (idle 7 16 ∷ [])
          ks)
      (delete_hosts counting now 3 4 (idle 7 16 ∷ []))
delete_hosts_lem_example =
    let t = idle-CanTake 7 16 in
    delete_hosts_lem now 3 4 (idle 7 16 ∷ [])
      (record { valid = t.valid; room = omega arith; wide = omega arith }, tt)
