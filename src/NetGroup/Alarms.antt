-- ===== src/NetGroup/Alarms.antt =====
-- The alarms of a host. A tick is a `_dword` of milliseconds, and differences of ticks wrap.
use workqueue.Platform.Codes.{dword, infinite}
use workqueue.Prelude.{
  ◌==◌, ltb, ◌%◌, leb, ◌+◌, if◌then◌else◌, ◌-◌, Bool, Option, List, ℕ, none, some, [], ◌∷◌,
}
use workqueue.Platform.Run.{and_then, Run, done, fault}

-- struct net_host_alarm, with the address it lies at; `fn_alarm` is the callback's.
pub record Alarm : Type 0 where
  pub address : ℕ
  pub start_tick : ℕ
  pub end_tick : ℕ
  pub time : ℕ
  pub repeat : Bool
  pub fn_alarm : ℕ

-- The time that has passed since the start of an alarm.
abbrev pub flow_tick : ℕ → Alarm → ℕ
flow_tick tick a = (tick + dword - a.start_tick) % dword

-- The smaller of a remaining time and the next alarm so far.
abbrev pub sooner : ℕ → ℕ → ℕ
sooner remain next = if ltb remain next then remain else next

abbrev pub restart : ℕ → Alarm → Alarm
restart tick a = record a { start_tick = tick }

-- The next alarm, the alarms that stay, and the callbacks that were called, in their order.
pub record Schedule : Type 0 where
  pub next_alarm : ℕ
  pub alarms : List Alarm
  pub called : List ℕ

abbrev pub keep : Alarm → Schedule → Schedule
keep a s = record s { alarms = a ∷ s.alarms }

abbrev pub call : Alarm → Schedule → Schedule
call a s = record s { called = a.fn_alarm ∷ s.called }

-- The loop of `alarm_schdule`; the callbacks leave the alarms of the host alone.
unfoldable pub schedule_from : ℕ → ℕ → List Alarm → Schedule
schedule_from tick next [] = record { next_alarm = next; alarms = []; called = [] }
schedule_from tick next (a ∷ alarms) =
    let again = call a (keep (restart tick a) (schedule_from tick (sooner a.time next) alarms)) in
    let over = call a (schedule_from tick next alarms) in
    let wait = keep a (schedule_from tick (sooner (a.time - flow_tick tick a) next) alarms) in
    if leb a.time (flow_tick tick a) then (if a.repeat then again else over) else wait

unfoldable pub alarm_schdule : ℕ → List Alarm → Schedule
unfolding schedule_from
alarm_schdule tick alarms = schedule_from tick infinite alarms

-- `alarm_head->_next = alarm` behind its loop, which stops at the first alarm with a successor,
-- and at NULL if there is none.
unfoldable pub put_behind : Alarm → List Alarm → Run (List Alarm) (Unit {0})
put_behind new [] = fault
put_behind new (a ∷ []) = fault
put_behind new (a ∷ b ∷ alarms) = done tt (a ∷ new ∷ [])

-- `NetGroup_host_alarm_start` with a callback, at the address that the allocation gives, if any.
-- A new block is filled with zeros.
abbrev pub started : ℕ → ℕ → ℕ → ℕ → Bool → Alarm
started p tick fn mstime repeat = record {
  address = p;
  start_tick = tick;
  end_tick = (tick + mstime) % dword;
  time = 0;
  repeat = repeat;
  fn_alarm = fn;
}

unfoldable pub alarm_start : Option ℕ → ℕ → ℕ → ℕ → Bool → List Alarm → Run (List Alarm) ℕ
alarm_start none tick fn mstime repeat alarms = fault
alarm_start (some p) tick fn mstime repeat [] = done p (started p tick fn mstime repeat ∷ [])
alarm_start (some p) tick fn mstime repeat (a ∷ alarms) =
    and_then (put_behind (started p tick fn mstime repeat) (a ∷ alarms)) (λ u. done p)

-- The loop of `NetGroup_host_alarm_end`. What the function frees behind it is the variable of its
-- caller, and is not modelled.
unfoldable pub alarm_end : ℕ → List Alarm → List Alarm
alarm_end p [] = []
alarm_end p (a ∷ alarms) =
    let rest = alarm_end p alarms in if a.address == p then alarms else a ∷ rest
