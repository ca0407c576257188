-- ===== src/Engine/Stages.antt =====
-- The shutdown stages: `runShutdownStages`, `waitForStage`, `handleStageTimeout`, `executeStage`
-- and `executePostShutdown` of internal/engine/sequence_run.go.
pub mod Waits
use canarium.Common.{
  ℕ, ◌+◌, String, ◌&&◌, List, [], ◌∷◌, Option, none, some, ltb, get_elem?, same, is_some,
  if◌then◌else◌,
}
use canarium.Common.Int.{ℤ, time_add}
use canarium.Common.Dict.{Dict, lookup, insert}
use canarium.Common.Text.{trim_space, lower_is}
use canarium.Config.Types.{
  StageConfig, PostShutdownConfig, default_wait_timeout, default_shutdown_budget,
}
use canarium.Config.Clients.{resolve_client_refs}
use canarium.State.Types.{ClientResult, StageRecord}
use canarium.State.Tables.{save_stage_record}
use canarium.Engine.Types.{ActionType, outlet_off, outlet_on, client_state_text, is_dry_run}
use canarium.Engine.Sequence.{
  ActiveSequence, set_held_stage, set_current_stage, consume_proceed, cross_ponr,
  mark_post_shutdown_run,
}
use canarium.Engine.Executor.{
  Setup, outlet, Executor, emit, write, put, save_active, evaluate_now, get_client_state,
  clear_active_sequence, duration_or,
}
use canarium.Engine.Phase.{
  Obs, Task, starting, finished, idle, enter, wait, wait_pause, dispatch, running,
  post_shutdown_call, Result, go_on,
}
use canarium.Engine.Abort.{should_abort, handle_abort, hand_over}
use canarium.Engine.Shutdown.{shutdown_step}

abbrev pub stage_at : ActiveSequence → ℕ → Option StageConfig
stage_at a i = get_elem? a.plan.shutdown.stages i

unfoldable pub enter_stage : Setup → ActiveSequence → Obs → ℕ → StageConfig → Executor → Result
unfolding should_abort handle_abort save_active
enter_stage s a o i stage e =
    let a' = set_current_stage i a in
    let (stop, e') = should_abort s a' o.now (save_active a' e) in
    if stop
    then handle_abort s a' e'
    else (wait i (time_add o.now (duration_or s stage.wait_timeout default_wait_timeout)), e')

-- A policy that is not "hold" skips; `policy` names it, "skip" by default.
unfoldable pub skipped_record :
    ActiveSequence → ℕ → StageConfig → List String → ℕ → Executor → StageRecord
skipped_record a i stage clients now e = record {
  sequence_id = a.seq.id;
  stage_index = i;
  stage_name = stage.name;
  started_at = now;
  completed_at = some now;
  clients = skipped_clients clients;
}
  where
    skipped_clients : List String → Dict ClientResult
    skipped_clients [] = []
    skipped_clients (name ∷ names) =
        insert name
          (record {
            state = client_state_text (get_client_state name e);
            started_at = now;
            completed_at = now;
            error = "stage skipped: entry condition not met within wait_timeout";
          })
          (skipped_clients names)

unfoldable pub handle_stage_timeout :
    Setup → ActiveSequence → ℕ → ℕ → StageConfig → Executor → Result
unfolding emit write skipped_record
handle_stage_timeout s a now i stage e =
    if same stage.wait_policy "hold"
    then (
      enter i,
      if same a.held_stage stage.name
          then put (set_current_stage i a) e
          else emit "stage_held" stage.name
              (put (set_current_stage i (set_held_stage stage.name a)) e),
    )
    else let clients = resolve_client_refs stage.clients s.cfg in
      let e' = if same stage.wait_policy "escalate" then emit "stage_timeout" stage.name e else e in
      (
        enter (i + 1),
        write (save_stage_record (skipped_record a i stage clients now e))
            (emit "stage_skipped" stage.name e'),
      )

unfoldable pub wait_step : Setup → ActiveSequence → Obs → ℕ → ℕ → StageConfig → Executor → Result
unfolding should_abort handle_abort handle_stage_timeout emit
wait_step s a o i deadline stage e =
    let (holds, e1) = evaluate_now s stage.when o.now e in
    let (a', forced, reason) = consume_proceed a in
    let (stop, e2) = should_abort s a o.now e1 in
    if holds
    then (dispatch i, put (set_held_stage "" a) e1)
    else if forced
    then (dispatch i, emit "stage_forced" stage.name (put (set_held_stage "" a') e1))
    else if stop
    then handle_abort s a e2
    else if ltb o.now deadline
    then (wait_pause i deadline, e2)
    else handle_stage_timeout s a o.now i stage e2

unfoldable pub wait_pause_step : Obs → ℕ → ℕ → Executor → Result
wait_pause_step o i deadline e =
    if o.timer
    then (wait i deadline, e)
    else if e.stopped
    then (idle, clear_active_sequence e)
    else (wait_pause i deadline, e)

unfoldable pub start_all : List String → Dict Task
start_all [] = []
start_all (name ∷ names) = insert name starting (start_all names)

-- The point of no return, and the start of `executeStage`.
unfoldable pub begin_stage : ActiveSequence → StageConfig → Executor → Executor
unfolding emit save_active cross_ponr
begin_stage a stage e =
    let (a', crossed) = cross_ponr a in
    emit "stage_start" stage.name (
      if stage.point_of_no_return && crossed
      then emit "ponr_crossed" stage.name (save_active a' e)
      else e)

unfoldable pub dispatch_step : Setup → ActiveSequence → Obs → ℕ → StageConfig → Executor → Result
unfolding begin_stage write
dispatch_step s a o i stage e =
    let rec : StageRecord = record {
      sequence_id = a.seq.id;
      stage_index = i;
      stage_name = stage.name;
      started_at = o.now;
      completed_at = none;
      clients = [];
    } in
    (
      running i (duration_or s stage.budget default_shutdown_budget) rec
          (start_all (resolve_client_refs stage.clients s.cfg)),
      write (save_stage_record rec) (begin_stage a stage e),
    )

-- The goroutine of one client moves.
unfoldable pub client_step :
    Setup → ActiveSequence → Obs → String → ℕ → ℤ → StageRecord → Dict Task → Executor → Result
unfolding shutdown_step
client_step s a o name i budget rec tasks e =
    go_on (lookup name tasks) (running i budget rec tasks, e)
      (λ t.
        let (t', e') = shutdown_step s name a.seq.id budget o t e in
        (running i budget rec (insert name t' tasks), e'))

-- The results, when every goroutine has returned.
unfoldable pub results : Dict Task → Option (Dict ClientResult)
results [] = some []
results ((name, finished r) ∷ tasks) = elim (results tasks) [
  | none ↦ none
  | some rs ↦ some ((name, r) ∷ rs)
]
results (_ ∷ tasks) = none

unfoldable pub join_step : Obs → ℕ → ℤ → StageRecord → Dict Task → Executor → Result
unfolding emit write
join_step o i budget rec tasks e = elim (results tasks) [
  | none ↦ (running i budget rec tasks, e)
  | some rs ↦ (
    enter (i + 1),
    emit "stage_complete" rec.stage_name
        (write (save_stage_record (record rec { completed_at = some o.now; clients = rs })) e),
  )
]

-- An action that is not recognised is the cut of the outlets too.
unfoldable pub post_shutdown_action : PostShutdownConfig → ActionType
post_shutdown_action ps =
    let t = trim_space ps.action in
    if lower_is t "outlet_on"
    then outlet_on
    else if lower_is t "load_on"
    then outlet_on
    else outlet_off

unfoldable pub execute_post_shutdown : Setup → PostShutdownConfig → Executor → Executor
execute_post_shutdown s ps e =
    if is_dry_run e.mode
    then e
    else if is_some (lookup "nut" s.transports)
    then record e { effects = outlet (post_shutdown_action ps) ∷ e.effects }
    else e

-- Marked first, called next, and saved behind the call.
unfoldable pub after_stages_step : Setup → ActiveSequence → Executor → Result
unfolding save_active execute_post_shutdown mark_post_shutdown_run
after_stages_step s a e = elim a.plan.shutdown.post_shutdown [
  | none ↦ hand_over a e
  | some ps ↦
      let (a', first) = mark_post_shutdown_run a in
      if first then (post_shutdown_call, execute_post_shutdown s ps (put a' e)) else hand_over a e
]

unfoldable pub post_shutdown_done : ActiveSequence → Executor → Result
unfolding save_active
post_shutdown_done a e = hand_over a (save_active a e)
