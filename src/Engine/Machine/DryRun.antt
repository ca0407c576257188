-- ===== src/Engine/Machine/DryRun.antt =====
-- In dry-run the machine of internal/engine sends nothing.
use canarium.Engine.Machine.Quiet.{task_step-sent, step-sent}
use canarium.Engine.Types.{is_dry_run}
use canarium.Engine.Sequence.{ActiveSequence}
use canarium.Engine.Executor.{write, save_active, emit, Executor, set_client_state, Setup}
use canarium.Engine.Shutdown.{dispatch_shutdown, start_shutdown, shutdown_step}
use canarium.Engine.Stages.{execute_post_shutdown, after_stages_step, client_step, join_step}
use canarium.Common.{String, false, true, ◌≡◌, refl, arith}
use canarium.Common.Dict.{lookup}
use canarium.Common.Int.{ℤ}
use canarium.Engine.Machine.{
  Input, advance, client, tick, reading, refresh, probed, abort, force, mode, stop, database, step,
  task_step, sequence_step,
}
use canarium.Engine.Machine.Sent.{wakes, sent, go_on-sent, sequence_step-sent}
use canarium.Engine.Phase.{
  starting, finished, pausing, polling, calling, dry, Task, Obs, Phase, idle, begin, reconcile,
  enter, wait, wait_pause, dispatch, running, after_stages, post_shutdown_call, settle, settle_wait,
  settle_pause, gate, gate_pause, wake_next, guard_pause, wake_client, wake_dry, wake_attempt,
  wake_sent, wake_poll, wake_pause, stagger_pause,
}

shutdown_step-sent :
    (s : Setup) (name id : String) (budget : ℤ) (o : Obs) (t : Task) (e : Executor)
    → is_dry_run e.mode ≡ true
    → sent (shutdown_step s name id budget o t e).1.effects ≡ sent e.effects
unfolding shutdown_step start_shutdown dispatch_shutdown set_client_state write emit sent
shutdown_step-sent s name id budget o starting e w = ground arith
shutdown_step-sent s name id budget o (dry started) e w = ground arith
shutdown_step-sent s name id budget o (calling started expires i) e w = ground arith
shutdown_step-sent s name id budget o (polling started expires deadline) e w = ground arith
shutdown_step-sent s name id budget o (pausing started expires deadline) e w = ground arith
shutdown_step-sent s name id budget o (finished r) e w = ground arith

-- What a step that may switch a device off does in dry-run.
dry_task_step-sent :
    (s : Setup) (a : ActiveSequence) (o : Obs) (name : String) (phase : Phase) (e : Executor)
    → is_dry_run e.mode ≡ true
    → sent (task_step s a o name phase e).1.effects ≡ sent e.effects
unfolding task_step client_step
dry_task_step-sent s a o name idle e w = task_step-sent s a o name idle e refl
dry_task_step-sent s a o name begin e w = task_step-sent s a o name begin e refl
dry_task_step-sent s a o name (reconcile is i) e w =
    task_step-sent s a o name (reconcile is i) e refl
dry_task_step-sent s a o name (enter i) e w = task_step-sent s a o name (enter i) e refl
dry_task_step-sent s a o name (wait i deadline) e w =
    task_step-sent s a o name (wait i deadline) e refl
dry_task_step-sent s a o name (wait_pause i deadline) e w =
    task_step-sent s a o name (wait_pause i deadline) e refl
dry_task_step-sent s a o name (dispatch i) e w = task_step-sent s a o name (dispatch i) e refl
dry_task_step-sent s a o name (running i budget rec tasks) e w =
    go_on-sent (sent e.effects) (lookup name tasks) (running i budget rec tasks, e) _ refl
      (λ t. shutdown_step-sent s name a.seq.id budget o t e w)
dry_task_step-sent s a o name after_stages e w = refl
dry_task_step-sent s a o name post_shutdown_call e w =
    task_step-sent s a o name post_shutdown_call e refl
dry_task_step-sent s a o name (settle cs) e w = task_step-sent s a o name (settle cs) e refl
dry_task_step-sent s a o name (settle_wait c deadline cs) e w =
    task_step-sent s a o name (settle_wait c deadline cs) e refl
dry_task_step-sent s a o name (settle_pause c deadline cs) e w =
    task_step-sent s a o name (settle_pause c deadline cs) e refl
dry_task_step-sent s a o name gate e w = task_step-sent s a o name gate e refl
dry_task_step-sent s a o name gate_pause e w = task_step-sent s a o name gate_pause e refl
dry_task_step-sent s a o name (wake_next names) e w =
    task_step-sent s a o name (wake_next names) e refl
dry_task_step-sent s a o name (guard_pause n names) e w =
    task_step-sent s a o name (guard_pause n names) e refl
dry_task_step-sent s a o name (wake_client n names) e w =
    task_step-sent s a o name (wake_client n names) e refl
dry_task_step-sent s a o name (wake_dry n names) e w =
    task_step-sent s a o name (wake_dry n names) e refl
dry_task_step-sent s a o name (wake_attempt n left names) e w =
    task_step-sent s a o name (wake_attempt n left names) e refl
dry_task_step-sent s a o name (wake_sent n left names) e w =
    task_step-sent s a o name (wake_sent n left names) e refl
dry_task_step-sent s a o name (wake_poll n left deadline names) e w =
    task_step-sent s a o name (wake_poll n left deadline names) e refl
dry_task_step-sent s a o name (wake_pause n left deadline names) e w =
    task_step-sent s a o name (wake_pause n left deadline names) e refl
dry_task_step-sent s a o name (stagger_pause names) e w =
    task_step-sent s a o name (stagger_pause names) e refl

dry_sequence_step-sent :
    (s : Setup) (a : ActiveSequence) (o : Obs) (phase : Phase) (e : Executor)
    → is_dry_run e.mode ≡ true
    → wakes phase ≡ false
    → sent (sequence_step s a o phase e).1.effects ≡ sent e.effects
unfolding sequence_step join_step after_stages_step execute_post_shutdown save_active write emit
    sent
dry_sequence_step-sent s a o idle e w v = sequence_step-sent s a o idle e refl v
dry_sequence_step-sent s a o begin e w v = sequence_step-sent s a o begin e refl v
dry_sequence_step-sent s a o (reconcile is i) e w v =
    sequence_step-sent s a o (reconcile is i) e refl v
dry_sequence_step-sent s a o (enter i) e w v = sequence_step-sent s a o (enter i) e refl v
dry_sequence_step-sent s a o (wait i deadline) e w v =
    sequence_step-sent s a o (wait i deadline) e refl v
dry_sequence_step-sent s a o (wait_pause i deadline) e w v =
    sequence_step-sent s a o (wait_pause i deadline) e refl v
dry_sequence_step-sent s a o (dispatch i) e w v = sequence_step-sent s a o (dispatch i) e refl v
dry_sequence_step-sent s a o (running i budget rec tasks) e w v = ground arith
dry_sequence_step-sent s a o after_stages e w v = ground arith
dry_sequence_step-sent s a o post_shutdown_call e w v =
    sequence_step-sent s a o post_shutdown_call e refl v
dry_sequence_step-sent s a o (settle cs) e w v = sequence_step-sent s a o (settle cs) e refl v
dry_sequence_step-sent s a o (settle_wait c deadline cs) e w v =
    sequence_step-sent s a o (settle_wait c deadline cs) e refl v
dry_sequence_step-sent s a o (settle_pause c deadline cs) e w v =
    sequence_step-sent s a o (settle_pause c deadline cs) e refl v
dry_sequence_step-sent s a o gate e w v = sequence_step-sent s a o gate e refl v
dry_sequence_step-sent s a o gate_pause e w v = sequence_step-sent s a o gate_pause e refl v
dry_sequence_step-sent s a o (wake_next names) e w v =
    sequence_step-sent s a o (wake_next names) e refl v
dry_sequence_step-sent s a o (guard_pause n names) e w v =
    sequence_step-sent s a o (guard_pause n names) e refl v
dry_sequence_step-sent s a o (wake_client n names) e w v =
    sequence_step-sent s a o (wake_client n names) e refl v
dry_sequence_step-sent s a o (wake_dry n names) e w v =
    sequence_step-sent s a o (wake_dry n names) e refl v
dry_sequence_step-sent s a o (wake_attempt n left names) e w v =
    sequence_step-sent s a o (wake_attempt n left names) e refl v
dry_sequence_step-sent s a o (wake_sent n left names) e w v =
    sequence_step-sent s a o (wake_sent n left names) e refl v
dry_sequence_step-sent s a o (wake_poll n left deadline names) e w v =
    sequence_step-sent s a o (wake_poll n left deadline names) e refl v
dry_sequence_step-sent s a o (wake_pause n left deadline names) e w v =
    sequence_step-sent s a o (wake_pause n left deadline names) e refl v
dry_sequence_step-sent s a o (stagger_pause names) e w v =
    sequence_step-sent s a o (stagger_pause names) e refl v

-- In dry-run mode nothing that happens sends a command to a device, unless it is the next attempt of
-- a wake that has been begun.
pub dry_run_sends_nothing :
    (s : Setup) (i : Input) (phase : Phase) (e : Executor)
    → is_dry_run e.mode ≡ true
    → wakes phase ≡ false
    → sent (step s i phase e).1.effects ≡ sent e.effects
unfolding step
dry_run_sends_nothing s (advance o) phase e w v =
    go_on-sent (sent e.effects) e.active_sequence (phase, e) _ refl
      (λ a. dry_sequence_step-sent s a o phase e w v)
dry_run_sends_nothing s (client name o) phase e w v =
    go_on-sent (sent e.effects) e.active_sequence (phase, e) _ refl
      (λ a. dry_task_step-sent s a o name phase e w)
dry_run_sends_nothing s (tick now) phase e w v = step-sent s (tick now) phase e refl
dry_run_sends_nothing s (reading key value now) phase e w v =
    step-sent s (reading key value now) phase e refl
dry_run_sends_nothing s (refresh now) phase e w v = step-sent s (refresh now) phase e refl
dry_run_sends_nothing s (probed c p now) phase e w v = step-sent s (probed c p now) phase e refl
dry_run_sends_nothing s (abort reason) phase e w v = step-sent s (abort reason) phase e refl
dry_run_sends_nothing s (force reason) phase e w v = step-sent s (force reason) phase e refl
dry_run_sends_nothing s (mode m) phase e w v = step-sent s (mode m) phase e refl
dry_run_sends_nothing s stop phase e w v = step-sent s stop phase e refl
dry_run_sends_nothing s (database ok) phase e w v = step-sent s (database ok) phase e refl
