-- ===== src/NetGroup/Loop.antt =====
-- The loop of a host: `host_start_routine`.
use workqueue.NetGroup.Alarms.{alarm_schdule, Alarm}
use workqueue.Prelude.{
  ◌||◌, ◌==◌, if◌then◌else◌, map, ◌≡◌, ◌++◌, ℕ, Bool, Option, List, refl, none, some, true, false,
  [], ◌∷◌,
}
use workqueue.Platform.Codes.{signaled, fail, invalid}
use workqueue.NetGroup.Routing.{
  multicast, closing, register_init, Handlers, Called, Packet, Cast, host_routing, alarmed,
  register_deinit,
}

-- A return of `WQ_recv`: the tick before it, its code, and the packet if there is one.
pub record Arrival : Type 0 where
  pub tick : ℕ
  pub code : ℕ
  pub packet : Packet

-- Whether the loop has ended, and the calls that were made.
abbrev pub HostRun : Type 0
HostRun = Bool × List Called

abbrev pub before : List Called → Option HostRun → Option HostRun
before cs none = none
before cs (some (ended, ds)) = some (ended, cs ++ ds)

-- The end of the routine.
abbrev pub ended : Option HostRun
ended = some (true, register_deinit 0 ∷ [])

-- What follows a packet, by what `host_routing` gave.
abbrev pub routed : Option (Bool × List Called) → Option HostRun → Option HostRun
routed none rest = none
routed (some (true, cs)) rest = before cs rest
routed (some (false, cs)) rest = before cs ended

-- The loop on the alarms of the host; `none` is a call through NULL. Where the arrivals end the
-- host is waiting.
unfoldable pub host_loop : Handlers → List Alarm → List Arrival → Option HostRun
unfolding host_routing
host_loop hs alarms [] = some (false, [])
host_loop hs alarms (a ∷ arrivals) =
    let s = alarm_schdule a.tick alarms in
    let rest = host_loop hs s.alarms arrivals in
    before (map alarmed s.called) (
      if a.code == fail || a.code == invalid
      then ended
      else if a.code == signaled
      then routed (host_routing hs a.packet) rest
      else rest)

-- `host_start_routine`; the first calls may start alarms.
unfoldable pub host_start_routine : Handlers → List Alarm → List Arrival → Option HostRun
unfolding host_loop
host_start_routine hs alarms arrivals =
    before (register_init 0 ∷ register_init 1 ∷ []) (host_loop hs alarms arrivals)

abbrev with_cast : Cast → Arrival → Arrival
with_cast c a = record a { packet = record a.packet { cast = c } }

-- A multicast that a host receives ends its routine as a closing does: whatever came before, the
-- two runs make the same calls, and what follows is not looked at in either.
pub host_loop-multicast :
    (hs : Handlers) (alarms : List Alarm) (earlier later later' : List Arrival) (a : Arrival)
    → a.code ≡ signaled
    → host_loop hs alarms (earlier ++ with_cast multicast a ∷ later)
      ≡ host_loop hs alarms (earlier ++ with_cast closing a ∷ later')
unfolding host_loop host_routing
host_loop-multicast hs alarms [] later later' a e = rw e refl
host_loop-multicast hs alarms (b ∷ earlier) later later' a e =
    rw (host_loop-multicast hs (alarm_schdule b.tick alarms).alarms earlier later later' a e) refl
