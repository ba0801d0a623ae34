-- ===== src/NetGroup/Tests.antt =====
-- A host with alarms, a table of routes and packets, and the theorems at them.
use workqueue.Platform.Codes.{signaled, infinite}
use workqueue.NetGroup.Loop.{host_loop-multicast, Arrival, host_loop}
use workqueue.NetGroup.Schedule.{alarm_schdule_lem, remaining, soonest, left_over, due_calls}
use workqueue.NetGroup.Alarms.{schedule_from, Alarm, alarm_schdule}
use workqueue.Prelude.{◌≤◌, All, ℕ, ◌≡◌, List, refl, some, true, false, [], ◌∷◌}
use workqueue.NetGroup.Routing.{
  Handlers, multicast, disconnect, host_routing, Cast, unicast, broadcast, closing, register_deinit,
  recv_from_unicast, recv_from_broadcast,
}

-- A repeating alarm that is due at 1000, one that is due once, and one that is not due.
abbrev alarms : List Alarm
alarms =
    record { address = 16; start_tick = 100; end_tick = 0; time = 300; repeat = true; fn_alarm = 1 }
    ∷ record {
      address = 32;
      start_tick = 900;
      end_tick = 0;
      time = 50;
      repeat = false;
      fn_alarm = 2;
    }
    ∷ record {
      address = 48;
      start_tick = 900;
      end_tick = 0;
      time = 250;
      repeat = false;
      fn_alarm = 3;
    }
    ∷ []

test_alarms : (alarm_schdule 1000 alarms).next_alarm ≡ 150
unfolding alarm_schdule schedule_from
test_alarms = refl

alarm_schdule_lem_example :
    let s = alarm_schdule 1000 alarms in
    (s.called ≡ 1 ∷ 2 ∷ [])
    × (s.alarms ≡ left_over 1000 alarms)
    × (s.next_alarm ≡ soonest 1000 infinite s.alarms)
    × All (λ a. s.next_alarm ≤ remaining 1000 a) s.alarms
unfolding due_calls
alarm_schdule_lem_example = alarm_schdule_lem 1000 alarms

abbrev arrival : Cast → List ℕ → Arrival
arrival c bytes = record {
  tick = 5;
  code = signaled;
  packet = record { host = 3; route_id = 0; cast = c; bytes = bytes };
}

abbrev every_handler : Handlers
every_handler = record { unicasts = true; broadcasts = true; multicasts = true }

-- What stands behind the multicast is not answered, nor is what stands behind the closing.
host_loop-multicast_example :
    host_loop every_handler alarms
      (arrival unicast (1 ∷ []) ∷ arrival multicast [] ∷ arrival broadcast [] ∷ [])
    ≡ host_loop every_handler alarms (arrival unicast (1 ∷ []) ∷ arrival closing [] ∷ [])
host_loop-multicast_example =
    host_loop-multicast every_handler alarms (arrival unicast (1 ∷ []) ∷ [])
      (arrival broadcast [] ∷ []) [] (arrival unicast []) refl

test_host_loop :
    host_loop every_handler [] (
      arrival unicast (1 ∷ [])
      ∷ arrival broadcast []
      ∷ arrival disconnect []
      ∷ arrival multicast []
      ∷ arrival unicast []
      ∷ [])
    ≡ some (
      true,
      recv_from_unicast (1 ∷ []) 3
          ∷ recv_from_broadcast [] 3
          ∷ register_deinit 1
          ∷ register_deinit 0
          ∷ [],
    )
unfolding host_loop host_routing alarm_schdule schedule_from
test_host_loop = refl
