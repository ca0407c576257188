-- ===== src/Tests/Engine.antt =====
-- The theorems on the engine's operations at concrete inputs.
use canarium.Engine.Shutdown.Journal.{intent_before_command, recorded_status}
use canarium.Engine.Shutdown.{new_intent, dispatch_shutdown}
use canarium.Facts.Store.{Store}
use canarium.Engine.Derived.Threat.{client_threatened_lem, some_feed}
use canarium.Engine.Derived.{client_feeds, client_threatened}
use canarium.State.Types.{dispatching, Database}
use canarium.Engine.Executor.{command, event}
use canarium.Engine.Types.{shutdown}
use canarium.Facts.Types.{texts, good, stale, is_true, is_unavailable}
use canarium.Common.Int.{pos}
use canarium.Engine.Wake.Order.{compute_wake_order_lem, to_wake}
use canarium.Engine.Policy.Arming.{set_mode_timers, times_a_trigger}
use canarium.Tests.Fixtures.{
  nas, transport_of, fact_at, web, obs_at, empty_db, active, test_libs, test_plan, test_setup,
  with_active, stage_of, resting_executor, never_true,
}
use canarium.Config.Types.{StageConfig}
use canarium.Engine.Wake.{compute_wake_order, wake_next_step, complete_sequence}
use canarium.State.Types.{StageRecord}
use canarium.Engine.Machine.Starts.{stage_starts_when_met, starts, is_due}
use canarium.Engine.Machine.{sequence_step}
use canarium.Engine.Phase.{wait}
use canarium.Engine.Executor.{
  find_client_in, find_client_config, get_client_state, set_mode, Executor,
}
use canarium.Config.Clients.Refs.{NoRepeats}
use canarium.Engine.Wake.Guards.{wakes_only_when_due, will_wake, was_not_up, is_up}
use canarium.State.Saves.{recorded_state}
use canarium.Engine.Wake.Guards.{complete_sequence_lem, end_of, holds_lock}
use canarium.Common.{
  all, true, false, same, not, ◌&&◌, ◌||◌, contains, [], ◌∷◌, none, some, ◌≡◌, refl, if◌then◌else◌,
}
use canarium.Common.Dict.{lookup}
use canarium.Engine.Types.{down, up, armed, disarmed}

abbrev first_stage : StageConfig
first_stage = stage_of "servers" ("web" ∷ []) false

stage_starts_when_met_example :
    starts 0 (sequence_step test_setup active (obs_at 9) (wait 0 100) (with_active active)).0
    ≡ is_due test_setup active (obs_at 9) (with_active active) 0 (wait 0 100)
stage_starts_when_met_example =
    stage_starts_when_met test_setup active (obs_at 9) 0 (wait 0 100) (with_active active)

abbrev unmet_stage : StageConfig
unmet_stage = record first_stage { when = never_true }

abbrev waking_executor : Executor
waking_executor = record (with_active active) { client_states = ("nas", up) ∷ ("web", down) ∷ [] }

wakes_only_when_due_example :
    will_wake "web" (wake_next_step test_setup active (obs_at 9) ("web" ∷ []) waking_executor).0
    ≡ not false
      && not (is_up (get_client_state "web" waking_executor))
      && not (
          same web.wake_policy "retain_state"
          && was_not_up (lookup "web" active.seq.pre_sequence_state))
      && all (λ d. is_up (get_client_state d waking_executor)) ("nas" ∷ [])
unfolding find_client_config find_client_in
wakes_only_when_due_example =
    wakes_only_when_due test_setup active (obs_at 9) "web" [] waking_executor web refl

abbrev locking_executor : Executor
locking_executor = record (with_active active) {
  db = record empty_db { client_locks = ("nas", "seq_1") ∷ ("web", "seq_2") ∷ [] };
}

complete_sequence_lem_example :
    let e' = (complete_sequence active 9 locking_executor).1 in
    (e'.active_sequence ≡ none)
    × (recorded_state (lookup "seq_1" e'.db.sequences) ≡ some (end_of active))
    × (holds_lock "seq_1" e'.db.client_locks ≡ false)
complete_sequence_lem_example = complete_sequence_lem active 9 locking_executor refl

abbrev first_done : StageRecord
first_done = record {
  sequence_id = "seq_1";
  stage_index = 0;
  stage_name = "servers";
  started_at = 1;
  completed_at = some 2;
  clients = [];
}

abbrev restarted_executor : Executor
restarted_executor = record (with_active active) {
  db = record empty_db { stage_records = first_done ∷ [] };
}

compute_wake_order_lem_example :
    NoRepeats (compute_wake_order test_setup test_plan)
    × (contains (compute_wake_order test_setup test_plan) "web"
        ≡ to_wake test_setup test_plan "web")
compute_wake_order_lem_example = compute_wake_order_lem test_setup test_plan "web"

abbrev disarmed_executor : Executor
disarmed_executor = record resting_executor { mode = disarmed }

set_mode_timers_example :
    lookup "ups.charge" (set_mode test_setup armed disarmed_executor).evaluator.timers.trackers ≡ (
      if true && true && times_a_trigger test_libs (test_plan ∷ []) "ups.charge"
      then none
      else lookup "ups.charge" [])
set_mode_timers_example = set_mode_timers test_setup armed disarmed_executor "ups.charge"

intent_before_command_example :
    (d : Database) × ((dispatch_shutdown "web" "seq_1" transport_of
        (pos 9)
        20
        (with_active active)).1.effects
      ≡ command "web" shutdown d ∷ event "client_state_changed" "web" ∷ [])
    × (recorded_status (lookup (new_intent "web" "shutdown" "seq_1" 20).id d.intents)
        ≡ some dispatching)
    × (lookup "web" d.client_states ≡ some "shutting_down")
intent_before_command_example =
    intent_before_command "web" "seq_1" transport_of (pos 9) 20 (with_active active) refl refl

abbrev last_stage : StageConfig
last_stage = stage_of "storage" ("nas" ∷ []) true

-- One UPS is on battery; the other has gone quiet.
abbrev status_store : Store
status_store = record {
  facts =
      ("a.status", fact_at "a.status" (texts ("OB" ∷ "DISCHRG" ∷ [])) good 5)
      ∷ ("b.status", fact_at "b.status" (texts ("OL" ∷ [])) stale 1)
      ∷ [];
  decls = [];
  polls = [];
}

client_threatened_lem_example :
    client_threatened ("a" ∷ "b" ∷ []) status_store nas
    ≡ is_true (some_feed status_store ("a" ∷ "b" ∷ []))
      || is_unavailable (some_feed status_store ("a" ∷ "b" ∷ []))
        && same nas.comms_loss_assumes "threatened"
unfolding client_feeds
client_threatened_lem_example = client_threatened_lem ("a" ∷ "b" ∷ []) status_store nas refl
