-- ===== src/Simulate/Run.antt =====
-- The replay itself: `Run` and `run` of internal/simulate/simulate.go.
pub mod Ends
pub mod Account
pub mod Outcome
use canarium.Simulate.Store.{build_store}
use canarium.Common.Int.{pos_part}
use canarium.Common.{
  inr, inl, ◌⊎◌, ℕ, zero, suc, String, Bool, true, false, not, ◌&&◌, ◌||◌, List, [], ◌∷◌, ◌++◌,
  Option, none, some, same, leb, length, get_elem?, if◌then◌else◌,
}
use canarium.Common.Int.{ℤ, pos, leb_ℤ, add64, sub64, time_add}
use canarium.Common.Dict.{Dict, insert, erase}
use canarium.Facts.Types.{Value, Values, none_left, item, text, texts, anys, is_nil_value, is_true}
use canarium.Facts.Store.{Store, update, refresh_quality}
use canarium.Conditions.Config.{ConditionConfig}
use canarium.Conditions.Evaluator.{Libs, Evaluator, evaluate, new_evaluator}
use canarium.Config.Types.{Config, PlanConfig, StageConfig, default_wait_timeout}
use canarium.Config.Clients.{resolve_client_refs}
use canarium.Config.Duration.{duration}
use canarium.Simulate.Timeline.{Timeline, TimelineEvent}
use canarium.Simulate.Feed.{
  Happening, SimulationResult, Script, Simulation, all_texts, texts_or, normalise_value, take_event,
  apply_due, reassert, feed,
}

-- Whether a condition is definitely true now.
unfoldable pub holds : Script → ConditionConfig → ℤ → Simulation → Bool × Simulation
holds k c elapsed s =
    let (t, ev) = evaluate k.libs c (time_add k.base elapsed) s.evaluator in
    (is_true t, record s { evaluator = ev })

abbrev pub plan_event : Script → ℤ → Happening
plan_event k elapsed = record { at = elapsed; stage = ""; detail = k.plan.name; clients = [] }

unfoldable pub try_trigger : Script → ℤ → Simulation → Simulation
unfolding holds
try_trigger k elapsed s =
    let (fires, s') = holds k k.plan.trigger elapsed s in
    if fires
    then record s' {
      triggered = true;
      stage_entered_at = elapsed;
      result = record (s'.result) { triggers = s'.result.triggers ++ (plan_event k elapsed ∷ []) };
    }
    else s'

unfoldable pub abort_if : Script → ℤ → Option ConditionConfig → Simulation → Simulation
unfolding holds
abort_if k elapsed none s = s
abort_if k elapsed (some c) s =
    let (fires, s') = holds k c elapsed s in
    if fires
    then record s' {
      aborted = true;
      result = record (s'.result) { aborts = s'.result.aborts ++ (plan_event k elapsed ∷ []) };
    }
    else s'

unfoldable pub try_abort : Script → ℤ → Simulation → Simulation
unfolding abort_if
try_abort k elapsed s =
    if not s.aborted && not s.ponr_crossed then abort_if k elapsed k.plan.abort s else s

-- A text that cannot be read gives the default.
unfoldable pub stage_timed_out : Script → StageConfig → ℤ → ℤ → Bool
stage_timed_out k stage elapsed entered_at =
    if same stage.wait_policy "hold"
    then false
    else leb_ℤ (duration k.libs.parsers stage.wait_timeout default_wait_timeout).0
        (sub64 elapsed entered_at)

unfoldable pub stage_event : Script → StageConfig → ℤ → String → Happening
unfolding resolve_client_refs
stage_event k stage elapsed detail = record {
  at = elapsed;
  stage = stage.name;
  detail = detail;
  clients = resolve_client_refs stage.clients k.cfg;
}

abbrev pub cross : StageConfig → ℤ → Simulation → Simulation
cross stage elapsed s =
    if stage.point_of_no_return && not s.ponr_crossed
    then record s {
      ponr_crossed = true;
      result = record (s.result) {
        ponr =
            s.result.ponr
            ++ (record { at = elapsed; stage = stage.name; detail = ""; clients = [] } ∷ []);
      };
    }
    else s

unfoldable pub start_stage : Script → StageConfig → ℤ → Simulation → Simulation
unfolding stage_event
start_stage k stage elapsed s =
    let event = stage_event k stage elapsed "" in
    record s {
      current_stage = suc s.current_stage;
      stage_entered_at = elapsed;
      result = record (s.result) {
        stages = s.result.stages ++ (event ∷ []);
        shutdown_order = s.result.shutdown_order ++ event.clients;
      };
    }

unfoldable pub skip_stage : Script → StageConfig → ℤ → Simulation → Simulation
unfolding stage_event
skip_stage k stage elapsed s =
    let event = stage_event k stage elapsed "entry condition not met within wait_timeout" in
    record s {
      current_stage = suc s.current_stage;
      stage_entered_at = elapsed;
      result = record (s.result) {
        skipped = s.result.skipped ++ (event ∷ []);
        not_shut_down = s.result.not_shut_down ++ event.clients;
      };
    }

unfoldable pub try_stage : Script → StageConfig → ℤ → Simulation → Simulation
unfolding holds stage_timed_out start_stage skip_stage
try_stage k stage elapsed s =
    let (ready, s') = holds k stage.when elapsed s in
    if ready
    then start_stage k stage elapsed (cross stage elapsed s')
    else if stage_timed_out k stage elapsed s'.stage_entered_at
    then skip_stage k stage elapsed s'
    else s'

unfoldable pub at_stage : Script → ℤ → Option StageConfig → Simulation → Simulation
unfolding try_stage
at_stage k elapsed none s = s
at_stage k elapsed (some stage) s = try_stage k stage elapsed s

unfoldable pub advance_stage : Script → ℤ → Simulation → Simulation
unfolding at_stage
advance_stage k elapsed s =
    if s.aborted then s else at_stage k elapsed (get_elem? k.plan.shutdown.stages s.current_stage) s

-- The wake gate, with whether the simulation is over.
unfoldable pub try_gate : Script → ℤ → Simulation → Simulation × Bool
unfolding holds
try_gate k elapsed s =
    let (opens, s') = holds k k.plan.wake.gate elapsed s in
    if s.aborted || leb (length k.plan.shutdown.stages) s.current_stage
    then (if opens
        then (
          record s' {
            result = record (s'.result) {
              wake_gates = s'.result.wake_gates ++ (plan_event k elapsed ∷ []);
              completed = true;
            };
          },
          true,
        )
        else (s', false))
    else (s, false)

-- One round of the loop.
unfoldable pub tick : Script → ℤ → Simulation → Simulation × Bool
unfolding feed try_trigger try_abort advance_stage try_gate
tick k elapsed s =
    let s' = feed k elapsed s in
    if s'.triggered
    then try_gate k elapsed (advance_stage k elapsed (try_abort k elapsed s'))
    else (try_trigger k elapsed s', false)

-- The loop; `none` means that the fuel ran out.
unfoldable pub run_from : Script → ℤ → ℤ → ℕ → ℤ → Simulation → Option SimulationResult
unfolding tick
run_from k total step zero elapsed s = none
run_from k total step (suc fuel) elapsed s = elim (leb_ℤ elapsed total) [
  | false ↦ some s.result
  | true ↦
      let (s', done) = tick k elapsed s in
      elim done [
        | true ↦ some s'.result
        | false ↦ run_from k total step fuel (add64 elapsed step) s'
      ]
]

abbrev pub empty_result : String → SimulationResult
empty_result plan = record {
  plan = plan;
  triggers = [];
  stages = [];
  aborts = [];
  ponr = [];
  wake_gates = [];
  skipped = [];
  shutdown_order = [];
  not_shut_down = [];
  completed = false;
}

unfoldable pub new_simulation : Store → String → List TimelineEvent → Simulation
unfolding new_evaluator
new_simulation store plan events = record {
  evaluator = new_evaluator store;
  current = [];
  pending = events;
  triggered = false;
  aborted = false;
  ponr_crossed = false;
  current_stage = 0;
  stage_entered_at = pos 0;
  result = empty_result plan;
}

unfoldable pub find_plan : List PlanConfig → String → Option PlanConfig
find_plan [] name = none
find_plan (p ∷ ps) name = if same p.name name then some p else find_plan ps name

pub data SimulationError : Type 0 where
  no_plan unqualified_key : String → SimulationError

-- A round for each nanosecond, and one that ends the loop.
abbrev pub rounds : Timeline → ℕ
rounds t = suc (suc (pos_part t.duration))

unfoldable pub run_script :
    Script → Timeline → String ⊎ Store → SimulationError ⊎ Option SimulationResult
unfolding run_from new_simulation
run_script k t (inl key) = inl (unqualified_key key)
run_script k t (inr store) =
    inr
      (run_from k t.duration t.step (rounds t) (pos 0) (new_simulation store k.plan.name t.events))

-- `Run`, started at the instant `base`; `none` means that the fuel ran out.
unfoldable pub run :
    Config → Libs → ℕ → (String → ℤ) → Timeline → String → SimulationError ⊎ Option SimulationResult
unfolding run_script find_plan build_store
run cfg libs base poll_interval t name = elim (find_plan cfg.plans name) [
  | none ↦ inl (no_plan name)
  | some plan ↦
      run_script (record { cfg = cfg; libs = libs; plan = plan; base = base }) t
        (build_store poll_interval t.events)
]
