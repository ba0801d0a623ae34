-- ===== src/NetGroup/Starting.antt =====
-- Starting and ending alarms.
use workqueue.Platform.Codes.{infinite}
use workqueue.NetGroup.Alarms.{
  schedule_from, Alarm, alarm_schdule, put_behind, alarm_start, alarm_end,
}
use workqueue.Prelude.{
  arith, subst, ◌≢◌, ◌==◌, Bool, if◌then◌else◌, All, ◌≡◌, ℕ, List, refl, some, [], ◌∷◌,
}
use workqueue.Platform.Run.{returns, Returns, and_then, fault}

-- `NetGroup_host_alarm_start` never stores the time it is given: an alarm started on a host without
-- alarms is called by the next `alarm_schdule`, at any tick, and if it repeats the wait is 0.
pub alarm_start-fires :
    (p tick tick' fn mstime : ℕ) (repeat : Bool)
    → Returns
        (λ q alarms.
          (q ≡ p)
          × ((alarm_schdule tick' alarms).called ≡ fn ∷ [])
          × ((alarm_schdule tick' alarms).next_alarm ≡ (if repeat then 0 else infinite)))
        (alarm_start (some p) tick fn mstime repeat [])
unfolding alarm_start alarm_schdule schedule_from
alarm_start-fires p tick tick' fn mstime repeat = returns (refl, ground arith, ground arith)

-- A second `NetGroup_host_alarm_start` on a host goes through NULL.
pub alarm_start-twice :
    (p p' tick tick' fn fn' mstime mstime' : ℕ) (repeat repeat' : Bool)
    → and_then
        (alarm_start (some p) tick fn mstime repeat [])
        (λ q. alarm_start (some p') tick' fn' mstime' repeat')
      ≡ fault
unfolding alarm_start put_behind
alarm_start-twice p p' tick tick' fn fn' mstime mstime' repeat repeat' = refl

-- The alarms of a host lie at different addresses.
unfoldable pub AreApart : List Alarm → Type 0
AreApart [] = Unit {0}
AreApart (a ∷ alarms) = All (λ (b : Alarm). b.address ≢ a.address) alarms × AreApart alarms

unfoldable pub others : ℕ → List Alarm → List Alarm
others p [] = []
others p (a ∷ alarms) = let rest = others p alarms in if a.address == p then rest else a ∷ rest

others_none :
    (p : ℕ) (alarms : List Alarm)
    → All (λ (b : Alarm). b.address ≢ p) alarms
    → others p alarms ≡ alarms
unfolding others
others_none p [] h = refl
others_none p (a ∷ alarms) (h, hs) = ground (arith, others_none p alarms hs)

-- The loop of `NetGroup_host_alarm_end` leaves all alarms but the one at its address, in their
-- order, where the alarms lie at different addresses.
pub alarm_end_lem :
    (p : ℕ) (alarms : List Alarm) → AreApart alarms → alarm_end p alarms ≡ others p alarms
unfolding alarm_end AreApart others
alarm_end_lem p [] h = refl
alarm_end_lem p (a ∷ alarms) (h, hs) =
    let first : a.address ≡ p → others p alarms ≡ alarms =
      λ e. others_none p alarms (subst (λ q. All (λ (b : Alarm). b.address ≢ q) alarms) e h) in
    ground (arith, first, alarm_end_lem p alarms hs)
