-- ===== src/NetGroup/Schedule.antt =====
-- What `alarm_schdule` calls, keeps and waits for.
use workqueue.Platform.Codes.{infinite}
use workqueue.NetGroup.Alarms.{sooner, alarm_schdule, restart, flow_tick, Alarm, schedule_from}
use workqueue.Prelude.{
  sym, ap, ◌∙◌, ◌≤◌, arith, All, min, leb, Bool, ◌-◌, if◌then◌else◌, ◌≡◌, List, ℕ, refl, [], ◌∷◌,
}

abbrev pub due : ℕ → Alarm → Bool
due tick a = leb a.time (flow_tick tick a)

-- The callbacks of the alarms that are due, in their order.
unfoldable pub due_calls : ℕ → List Alarm → List ℕ
due_calls tick [] = []
due_calls tick (a ∷ alarms) =
    let rest = due_calls tick alarms in if due tick a then a.fn_alarm ∷ rest else rest

-- The alarms that are not over, those that are due started again.
unfoldable pub left_over : ℕ → List Alarm → List Alarm
left_over tick [] = []
left_over tick (a ∷ alarms) =
    let rest = left_over tick alarms in
    if due tick a then (if a.repeat then restart tick a ∷ rest else rest) else a ∷ rest

-- The time from a tick on until an alarm that is not due is due.
abbrev pub remaining : ℕ → Alarm → ℕ
remaining tick a = a.time - flow_tick tick a

-- The least of a bound and the remaining times.
unfoldable pub soonest : ℕ → ℕ → List Alarm → ℕ
soonest tick next [] = next
soonest tick next (a ∷ alarms) = min (remaining tick a) (soonest tick next alarms)

called_lem :
    (tick next : ℕ) (alarms : List Alarm)
    → (schedule_from tick next alarms).called ≡ due_calls tick alarms
unfolding schedule_from due_calls
called_lem tick next [] = refl
called_lem tick next (a ∷ alarms) = ground (
  arith,
  called_lem tick next alarms,
  called_lem tick (sooner a.time next) alarms,
  called_lem tick (sooner (a.time - flow_tick tick a) next) alarms,
)

alarms_lem :
    (tick next : ℕ) (alarms : List Alarm)
    → (schedule_from tick next alarms).alarms ≡ left_over tick alarms
unfolding schedule_from left_over
alarms_lem tick next [] = refl
alarms_lem tick next (a ∷ alarms) = ground (
  arith,
  alarms_lem tick next alarms,
  alarms_lem tick (sooner a.time next) alarms,
  alarms_lem tick (sooner (a.time - flow_tick tick a) next) alarms,
)

min-soonest :
    (tick r next : ℕ) (alarms : List Alarm)
    → soonest tick (sooner r next) alarms ≡ min r (soonest tick next alarms)
unfolding soonest
min-soonest tick r next [] = ground arith
min-soonest tick r next (a ∷ alarms) = ground (arith, min-soonest tick r next alarms)

flow_tick-restart : (tick : ℕ) (a : Alarm) → flow_tick tick (restart tick a) ≡ 0
flow_tick-restart tick a = omega arith

next_lem :
    (tick next : ℕ) (alarms : List Alarm)
    → (schedule_from tick next alarms).next_alarm ≡ soonest tick next (left_over tick alarms)
unfolding schedule_from left_over soonest
next_lem tick next [] = refl
next_lem tick next (a ∷ alarms) = ground (
  arith,
  next_lem tick next alarms,
  next_lem tick (sooner a.time next) alarms,
  next_lem tick (sooner (a.time - flow_tick tick a) next) alarms,
  min-soonest tick a.time next (left_over tick alarms),
  min-soonest tick (a.time - flow_tick tick a) next (left_over tick alarms),
  flow_tick-restart tick a,
)

soonest-least :
    (tick next bound : ℕ) (alarms : List Alarm)
    → bound ≤ soonest tick next alarms
    → All (λ a. bound ≤ remaining tick a) alarms
unfolding soonest
soonest-least tick next bound [] h = tt
soonest-least tick next bound (a ∷ alarms) h =
    (omega arith, soonest-least tick next bound alarms (omega arith))

-- At a tick `alarm_schdule` calls the callbacks of the alarms that are due, in their order, starts
-- those that repeat again and drops the others; the wait that it gives is the least of the
-- remaining times, and INFINITE without alarms, so that no alarm that stays is due before.
pub alarm_schdule_lem :
    (tick : ℕ) (alarms : List Alarm)
    → let s = alarm_schdule tick alarms in
      (s.called ≡ due_calls tick alarms)
      × (s.alarms ≡ left_over tick alarms)
      × (s.next_alarm ≡ soonest tick infinite s.alarms)
      × All (λ a. s.next_alarm ≤ remaining tick a) s.alarms
unfolding alarm_schdule
alarm_schdule_lem tick alarms =
    let left = alarms_lem tick infinite alarms in
    let next = next_lem tick infinite alarms in
    (
      called_lem tick infinite alarms,
      left,
      next ∙ ap (soonest tick infinite) (sym left),
      rw (left, next) (soonest-least tick infinite _ (left_over tick alarms) (omega arith)),
    )
