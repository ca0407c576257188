-- ===== src/Tests/Simulate.antt =====
-- The theorems on simulations, at a timeline of a few seconds (internal/simulate).
use canarium.Common.Float.{order_key, float_le}
use canarium.Common.Dict.{insert, lookup}
use canarium.Facts.Store.{
  staleness_window, source_from_key, refresh_fact, fact_key, register_declaration, register_all,
  update, refresh_facts, refresh_quality, get,
}
use canarium.Conditions.Evaluator.{within_bounds, evaluate_numeric, evaluate}
use canarium.Common.Text.{concat, cut_dot}
use canarium.Simulate.Run.Ends.{replay_ends}
use canarium.Simulate.Run.Outcome.{run-IsAccounted, IsAccounted}
use canarium.Simulate.Run.{SimulationError, run, find_plan}
use canarium.Simulate.Feed.{SimulationResult, Happening}
use canarium.Simulate.Timeline.{Timeline, TimelineEvent, load_timeline}
use canarium.Common.Int.{time_add, time_sub, double64, add64, ℤ, pos}
use canarium.Config.Types.{PlanConfig, Config, second}
use canarium.Facts.Types.{set_quality, set_fact, float64}
use canarium.Tests.Fixtures.{never_true, stage_of, test_config, test_libs, test_plan}
use canarium.Conditions.Config.{none_left, empty_fields, condition_config, ConditionConfig, kind}
use canarium.Common.{
  map, inl, Option, ◌⊎◌, none, ℕ, ◌*◌, String, true, false, List, [], ◌∷◌, some, ◌≡◌, refl, arith,
  inr,
}

abbrev charge : ℕ → ℕ → TimelineEvent
charge at bits = record {
  at = pos (at * second);
  fact = "ups.charge";
  value = float64 bits;
  explicit_null = false;
}

-- The charge falls from 8.0 to 4.0 in the first second.
abbrev falling : Timeline
falling = record {
  duration = pos (4 * second);
  step = pos 0;
  events = charge 1 0x4010_0000_0000_0000 ∷ charge 0 0x4020_0000_0000_0000 ∷ [];
}

abbrev replayed : Timeline
replayed = record {
  duration = pos (4 * second);
  step = pos second;
  events = charge 0 0x4020_0000_0000_0000 ∷ charge 1 0x4010_0000_0000_0000 ∷ [];
}

abbrev every_five : String → ℤ
every_five source = pos (5 * second)

replay_ends_example :
    (result : SimulationResult) × (run test_config test_libs 0 every_five replayed "outage"
      ≡ inr (some result))
unfolding load_timeline cut_dot find_plan
replay_ends_example =
    replay_ends test_config test_libs 0 every_five falling replayed "outage" test_plan refl
      (omega arith) refl

abbrev happening : ℕ → String → String → List String → Happening
happening at stage detail clients = record {
  at = pos (at * second);
  stage = stage;
  detail = detail;
  clients = clients;
}

abbrev replay : SimulationResult
replay = record {
  plan = "outage";
  triggers = happening 1 "" "outage" [] ∷ [];
  stages = happening 2 "servers" "" ("web" ∷ []) ∷ happening 3 "storage" "" ("nas" ∷ []) ∷ [];
  aborts = [];
  ponr = happening 3 "storage" "" [] ∷ [];
  wake_gates = happening 3 "" "outage" [] ∷ [];
  skipped = [];
  shutdown_order = "web" ∷ "nas" ∷ [];
  not_shut_down = [];
  completed = true;
}

run-IsAccounted_example : IsAccounted 2 replay
unfolding find_plan run cut_dot add64 evaluate kind evaluate_numeric get lookup refresh_quality
    refresh_facts insert update register_all register_declaration fact_key concat refresh_fact
    source_from_key set_fact staleness_window double64 time_sub time_add set_quality within_bounds
    float_le order_key
run-IsAccounted_example =
    run-IsAccounted test_config test_libs 0 every_five replayed "outage" test_plan replay refl refl

-- `ups.charge above 6.0`
abbrev recovered : ConditionConfig
recovered =
    condition_config
      (record empty_fields {
        condition = "numeric";
        fact = "ups.charge";
        above = some 0x4018_0000_0000_0000;
      })
      none_left

-- One stage, which may be aborted, and a gate that stays shut.
abbrev abortable_plan : PlanConfig
abortable_plan = record test_plan {
  abort = some recovered;
  shutdown = record { post_shutdown = none; stages = stage_of "servers" ("web" ∷ []) false ∷ [] };
  wake = record (test_plan.wake) { gate = never_true };
}

abbrev brief_outage : Timeline
brief_outage = record {
  duration = pos (4 * second);
  step = pos second;
  events = charge 0 0x4010_0000_0000_0000 ∷ charge 3 0x4020_0000_0000_0000 ∷ [];
}

abbrev with_abortable : Config
with_abortable = record test_config { plans = abortable_plan ∷ [] }

abbrev aborts_at : SimulationError ⊎ Option SimulationResult → List ℤ
aborts_at (inl _) = []
aborts_at (inr none) = []
aborts_at (inr (some r)) = map (λ e. e.at) r.aborts

-- The last stage has been started at 1 s, and the abort is reported at 3 s.
late_abort :
    aborts_at (run with_abortable test_libs 0 every_five brief_outage "outage")
    ≡ pos (3 * second) ∷ []
unfolding find_plan run cut_dot add64 evaluate kind evaluate_numeric get lookup refresh_quality
    refresh_facts insert update register_all register_declaration fact_key concat refresh_fact
    source_from_key set_fact staleness_window double64 time_sub time_add set_quality within_bounds
    float_le order_key
late_abort = refl
