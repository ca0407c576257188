-- ===== src/Engine/Sequence.antt =====
-- internal/engine/active_sequence.go: the running sequence behind its accessors. Each accessor
-- holds the lock for its whole body, so it is one function of the state.
use canarium.Common.{
  ℕ, String, Bool, true, false, not, Option, none, some, length, get_elem?, if◌then◌else◌,
}
use canarium.Common.Dict.{Dict, lookup}
use canarium.State.Types.{SequenceState, ResolvedAddr, Sequence}
use canarium.Config.Types.{PlanConfig, StageConfig}

pub record ActiveSequence : Type 0 where
  pub seq : Sequence
  pub plan : PlanConfig
  pub abort_requested : Bool
  pub abort_reason : String
  pub proceed_requested : Bool
  pub proceed_reason : String
  pub held_stage : String

unfoldable pub new_active_sequence : Sequence → PlanConfig → ActiveSequence
new_active_sequence seq plan = record {
  seq = seq;
  plan = plan;
  abort_requested = false;
  abort_reason = "";
  proceed_requested = false;
  proceed_reason = "";
  held_stage = "";
}

unfoldable pub set_resolved_addrs : Dict ResolvedAddr → ActiveSequence → ActiveSequence
set_resolved_addrs addrs a = record a { seq = record (a.seq) { resolved_addrs = addrs } }

unfoldable pub set_config_snapshot : String → ActiveSequence → ActiveSequence
set_config_snapshot snapshot a = record a { seq = record (a.seq) { config_snapshot = snapshot } }

unfoldable pub mark_aborted : ActiveSequence → ActiveSequence
mark_aborted a = record a { seq = record (a.seq) { aborted = true } }

unfoldable pub mark_post_shutdown_run : ActiveSequence → ActiveSequence × Bool
mark_post_shutdown_run a =
    if a.seq.post_shutdown_run
    then (a, false)
    else (record a { seq = record (a.seq) { post_shutdown_run = true } }, true)

unfoldable pub request_proceed : String → ActiveSequence → ActiveSequence
request_proceed reason a = record a { proceed_requested = true; proceed_reason = reason }

unfoldable pub consume_proceed : ActiveSequence → ActiveSequence × Bool × String
consume_proceed a =
    if not a.proceed_requested
    then (a, false, "")
    else (record a { proceed_requested = false; proceed_reason = "" }, true, a.proceed_reason)

unfoldable pub set_held_stage : String → ActiveSequence → ActiveSequence
set_held_stage name a = record a { held_stage = name }

unfoldable pub set_current_stage : ℕ → ActiveSequence → ActiveSequence
set_current_stage i a = record a { seq = record (a.seq) { current_stage = i } }

unfoldable pub set_state : SequenceState → ActiveSequence → ActiveSequence
set_state s a = record a { seq = record (a.seq) { state = s } }

unfoldable pub mark_completed : SequenceState → ℕ → ActiveSequence → ActiveSequence
mark_completed s stamp a = record a {
  seq = record (a.seq) { state = s; completed_at = some stamp };
}

unfoldable pub cross_ponr : ActiveSequence → ActiveSequence × Bool
cross_ponr a =
    if a.seq.ponr_crossed
    then (a, false)
    else (record a { seq = record (a.seq) { ponr_crossed = true } }, true)

unfoldable pub resolved_addr : String → ActiveSequence → Option ResolvedAddr
resolved_addr client a = lookup client a.seq.resolved_addrs

unfoldable pub pre_state : String → ActiveSequence → Option String
pre_state client a = lookup client a.seq.pre_sequence_state

-- Refused once the point of no return is crossed.
unfoldable pub request_abort : String → ActiveSequence → ActiveSequence × Bool
request_abort reason a =
    if a.seq.ponr_crossed
    then (a, false)
    else (record a { abort_requested = true; abort_reason = reason }, true)

-- `persistable`: the copy that is written to the database. A value is its own copy.
unfoldable pub persistable : ActiveSequence → Sequence
persistable a = a.seq

pub record SequenceSnapshot : Type 0 where
  pub id : String
  pub plan : String
  pub state : SequenceState
  pub current_stage : ℕ
  pub stage_name : String
  pub total_stages : ℕ
  pub ponr_crossed : Bool
  pub abortable : Bool
  pub aborted : Bool
  pub abort_requested : Bool
  pub abort_reason : String
  pub held_stage : String
  pub started_at : ℕ
  pub completed_at : Option ℕ

abbrev stage_name_at : Option StageConfig → String
stage_name_at none = ""
stage_name_at (some s) = s.name

unfoldable pub snapshot : ActiveSequence → SequenceSnapshot
snapshot a = record {
  id = a.seq.id;
  plan = a.seq.plan_name;
  state = a.seq.state;
  current_stage = a.seq.current_stage;
  stage_name = stage_name_at (get_elem? a.plan.shutdown.stages a.seq.current_stage);
  total_stages = length a.plan.shutdown.stages;
  ponr_crossed = a.seq.ponr_crossed;
  abortable = not a.seq.ponr_crossed;
  aborted = a.seq.aborted;
  abort_requested = a.abort_requested;
  abort_reason = a.abort_reason;
  held_stage = a.held_stage;
  started_at = a.seq.started_at;
  completed_at = a.seq.completed_at;
}
