-- ===== src/Engine/Policy/Arming.antt =====
-- What arming does to the timers (`SetMode` of internal/engine/executor.go).
use canarium.Engine.Types.{is_disarmed, Mode}
use canarium.Config.Types.{PlanConfig}
use canarium.Conditions.Dwell.{Timers, reset_dwell}
use canarium.Conditions.Evaluator.{Evaluator, Libs}
use canarium.Engine.Executor.{Executor, Setup, emit, reset_triggers, set_mode}
use canarium.Common.{
  String, Bool, false, not, ◌&&◌, ◌||◌, same, List, [], ◌∷◌, none, ◌≡◌, refl, arith, if◌then◌else◌,
  inl, inr, Option-cases,
}
use canarium.Common.Dict.{lookup, lookup-erase}

-- Whether a timer is that of a plan's whole trigger.
abbrev pub times_a_trigger : Libs → List PlanConfig → String → Bool
times_a_trigger libs [] key = false
times_a_trigger libs (p ∷ ps) key =
    same (libs.condition_key p.trigger) key || times_a_trigger libs ps key

lookup-reset_dwell :
    (k key : String) (t : Timers)
    → lookup key (reset_dwell k t).trackers ≡ (if same k key then none else lookup key t.trackers)
unfolding reset_dwell
lookup-reset_dwell k key t = elim (Option-cases t.store) [
  | inl absent ↦ ground (arith, lookup-erase k key t.trackers, absent)
  | inr (st, there) ↦ ground (arith, lookup-erase k key t.trackers, there)
]

lookup-reset_triggers :
    (libs : Libs) (ps : List PlanConfig) (ev : Evaluator) (key : String)
    → lookup key (reset_triggers libs ps ev).timers.trackers
      ≡ (if times_a_trigger libs ps key then none else lookup key ev.timers.trackers)
unfolding reset_triggers
lookup-reset_triggers libs [] ev key = refl
lookup-reset_triggers libs (p ∷ ps) ev key = ground (
  arith,
  lookup-reset_triggers libs ps
      (record ev { timers = reset_dwell (libs.condition_key p.trigger) ev.timers }) key,
  lookup-reset_dwell (libs.condition_key p.trigger) key ev.timers,
)

-- A change of the mode restarts the `for:` of every plan's trigger exactly if the daemon was disarmed
-- and is so no more; every other timer, one nested in a trigger too, keeps what it has.
pub set_mode_timers :
    (s : Setup) (m : Mode) (e : Executor) (key : String)
    → lookup key (set_mode s m e).evaluator.timers.trackers ≡ (
        if is_disarmed e.mode && not (is_disarmed m) && times_a_trigger s.libs s.cfg.plans key
        then none
        else lookup key e.evaluator.timers.trackers)
unfolding set_mode emit
set_mode_timers s m e key = ground (arith, lookup-reset_triggers s.libs s.cfg.plans e.evaluator key)
