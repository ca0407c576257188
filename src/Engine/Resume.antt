-- ===== src/Engine/Resume.antt =====
-- Starting a sequence, and taking one up again after a restart: `newSequenceFor`,
-- `executeSequence`, `resumeSequence` and `reconcileIntents` of internal/engine/sequence_run.go,
-- `restoreState` of internal/engine/executor.go.
pub mod FirstOpen
pub mod Restored
use canarium.Common.{
  ℕ, zero, suc, String, Bool, true, false, not, ◌||◌, List, [], ◌∷◌, Option, none, some, ◌==◌,
  length, same, is_some, if◌then◌else◌,
}
use canarium.Common.Int.{pos}
use canarium.Common.Dict.{Dict, insert, lookup}
use canarium.Common.Text.{concat}
use canarium.Facts.Format.{decimal}
use canarium.Config.Types.{ClientConfig, PlanConfig}
use canarium.State.Types.{SequenceState, Intent, Sequence, Database, reconciled}
use canarium.State.Types as S
use canarium.State.Tables.{
  completed_stages, pending_intents, save_intent, get_active_sequence, fail_orphaned_sequence,
}
use canarium.Engine.Types.{
  ClientState, up, down, down_unverified, client_state_text, parse_client_state,
}
use canarium.Engine.Sequence.{
  ActiveSequence, new_active_sequence, set_resolved_addrs, set_config_snapshot, set_current_stage,
}
use canarium.Engine.Executor.{
  Setup, Executor, write, put, save_active, get_client_state, set_client_state, find_client_config,
  find_plan_in,
}
use canarium.Engine.Phase.{Obs, idle, enter, reconcile, settle, gate, Result}

unfoldable pub pre_states : List ClientConfig → Executor → Dict String
pre_states [] e = []
pre_states (c ∷ cs) e =
    insert c.name (client_state_text (get_client_state c.name e)) (pre_states cs e)

unfoldable pub new_sequence_for : Setup → PlanConfig → ℕ → Executor → ActiveSequence
unfolding pre_states new_active_sequence
new_sequence_for s plan now e =
    new_active_sequence
      (record {
        id = concat "seq_" (decimal (pos now));
        plan_name = plan.name;
        state = S.shutting_down;
        current_stage = 0;
        ponr_crossed = false;
        aborted = false;
        post_shutdown_run = false;
        started_at = now;
        completed_at = none;
        config_snapshot = "";
        pre_sequence_state = pre_states s.cfg.clients e;
        resolved_addrs = [];
      })
      plan

unfoldable pub execute_sequence : ActiveSequence → Obs → Executor → Result
unfolding save_active set_resolved_addrs set_config_snapshot
execute_sequence a o e =
    let a' = set_config_snapshot o.snapshot (set_resolved_addrs o.resolved a) in
    (enter a'.seq.current_stage, save_active a' e)

unfoldable pub has_index : List ℕ → ℕ → Bool
has_index [] i = false
has_index (j ∷ js) i = j == i || has_index js i

-- The first index from `i` on, of `count` of them, that is not among the completed.
unfoldable pub first_open : List ℕ → ℕ → ℕ → ℕ
first_open completed i zero = i
first_open completed i (suc count) =
    let rest = first_open completed (suc i) count in if has_index completed i then rest else i

-- No stages, when they cannot be read.
unfoldable pub read_completed : String → Executor → List ℕ
unfolding completed_stages
read_completed id e = if e.db_ok then completed_stages id e.db.stage_records else []

unfoldable pub resume_at : ActiveSequence → Executor → ℕ
unfolding read_completed first_open
resume_at a e = first_open (read_completed a.seq.id e) 0 (length a.plan.shutdown.stages)

unfoldable pub read_pending : String → Executor → List Intent
unfolding pending_intents
read_pending id e = if e.db_ok then pending_intents id e.db.intents else []

-- How a sequence is taken up: an aborted one settles its clients, one past its shutdown goes to the
-- wake gate, any other goes on at its first open stage.
unfoldable pub resume_sequence : Setup → ActiveSequence → Executor → Result
unfolding resume_at read_pending
resume_sequence s a e = by_state a.seq.state
  where
    shutdown_phase : Result
    shutdown_phase =
        let i = resume_at a e in
        (reconcile (read_pending a.seq.id e) i, put (set_current_stage i a) e)

    by_state : SequenceState → Result
    by_state S.aborting = (settle s.cfg.clients, e)
    by_state S.aborted = (settle s.cfg.clients, e)
    by_state S.wake_gate = (gate, e)
    by_state S.waking = (gate, e)
    by_state S.shutting_down = shutdown_phase
    by_state S.completed = shutdown_phase
    by_state S.failed = shutdown_phase

-- What a probe says of a command whose outcome is not known.
unfoldable pub reconcile_client : String → Option ClientState → ℕ → Executor → Executor
reconcile_client name none now e = set_client_state name down_unverified now e
reconcile_client name (some down) now e = set_client_state name down now e
reconcile_client name (some up) now e = set_client_state name up now e
reconcile_client name (some _) now e = e

abbrev outcome_text : Option ClientState → String
outcome_text none = "indeterminate"
outcome_text (some down) = "took effect"
outcome_text (some up) = "did not take effect"
outcome_text (some _) = "unknown"

abbrev found_down : Option ClientState → Bool
found_down (some down) = true
found_down _ = false

unfoldable pub reconciled_intent : Option ClientState → Intent → Intent
reconciled_intent probed i = record i {
  status = reconciled;
  result = some (record {
    success = found_down probed;
    message = concat "reconciled after restart: " (outcome_text probed);
  });
}

unfoldable pub reconcile_step : Setup → Obs → List Intent → ℕ → Executor → Result
unfolding write reconcile_client reconciled_intent
reconcile_step s o [] i e = (enter i, e)
reconcile_step s o (intent ∷ rest) i e = elim (find_client_config s intent.client_name) [
  | none ↦ (reconcile rest i, e)
  | some c ↦
      if is_some (lookup c.transport s.transports)
      then (
        reconcile rest i,
        write (save_intent (reconciled_intent o.probed intent))
            (reconcile_client intent.client_name o.probed o.now e),
      )
      else (reconcile rest i, e)
]

unfoldable pub is_configured : String → List ClientConfig → Bool
is_configured name [] = false
is_configured name (c ∷ cs) = same c.name name || is_configured name cs

-- The recorded states of the clients that are in the configuration.
unfoldable pub restore_clients : Setup → Dict String → Dict ClientState → Dict ClientState
restore_clients s [] states = states
restore_clients s ((name, st) ∷ rows) states =
    let rest = restore_clients s rows states in
    if is_configured name s.cfg.clients then insert name (parse_client_state st) rest else rest

-- A sequence whose plan has gone is marked failed, and its locks are released.
unfoldable pub restore_plan : Setup → ℕ → Sequence → Option PlanConfig → Executor → Result
unfolding write resume_sequence new_active_sequence
restore_plan s now seq none e = (
  idle,
  write
      (fail_orphaned_sequence seq.id
        (concat "plan " (concat seq.plan_name " is no longer in the configuration")) now)
      e,
)
restore_plan s now seq (some plan) e =
    let a = new_active_sequence seq plan in resume_sequence s a (put a e)

unfoldable pub restore_sequence : Setup → ℕ → Option Sequence → Executor → Result
unfolding restore_plan
restore_sequence s now none e = (idle, e)
restore_sequence s now (some seq) e =
    restore_plan s now seq (find_plan_in seq.plan_name s.cfg.plans) e

-- `restoreState` with the start of `resumeSequence`. `none` is no error.
unfoldable pub restore_state : Setup → ℕ → Executor → Option String × Result
unfolding restore_clients restore_sequence
restore_state s now e =
    let e1 : Executor = record e {
      client_states = restore_clients s e.db.client_states e.client_states;
    } in
    if not e.db_ok
    then (some "reading the database", (idle, e))
    else (none, restore_sequence s now (get_active_sequence e.db) e1)
