-- ===== src/Engine/Machine/Outlets.antt =====
-- How often post-shutdown runs, against how often a sequence starts.
use canarium.Engine.Wake.{stagger_pause_step, guard_pause_step, gate_pause_step}
use canarium.Engine.Resume.{new_sequence_for}
use canarium.Engine.Types.{Mode, ClientState}
use canarium.Config.Types.{PlanConfig, ClientConfig}
use canarium.Engine.Machine.Paid.{
  wake_pause_step-Paid, wake_poll_step-Paid, wake_sent_step-Paid, wake_attempt_step-Paid,
  wake_dry_step-Paid, wake_client_step-Paid, wake_next_step-Paid, gate_step-Paid,
  settle_pause_step-Paid, settle_wait_step-Paid, settle_step-Paid, after_stages_step-Paid,
  join_step-Paid, dispatch_step-Paid, wait_step-Paid, enter_stage-Paid, reconcile_step-Paid,
  execute_sequence-Paid, triggers, outlets, Paid,
}
use canarium.Engine.Executor.{
  clear_active_sequence, set_mode, set_active_sequence, send, get_client_state, Executor,
  force_stage, emit, write, evaluate_now, save_active, abort_sequence, set_client_state, Setup,
}
use canarium.Engine.Shutdown.{dispatch_shutdown, start_shutdown, shutdown_step}
use canarium.Engine.Sequence.{
  new_active_sequence, request_proceed, set_state, request_abort, ActiveSequence,
}
use canarium.Engine.Policy.{
  note_would_trigger, evaluate_policies, apply_probe, evaluate_plans, probe_client,
}
use canarium.Engine.Stages.{stage_at, post_shutdown_done, wait_pause_step, client_step}
use canarium.Common.{ℕ, String, List, [], ◌∷◌, Option, none, some, ◌≡◌, refl, arith}
use canarium.Common.Dict.{lookup}
use canarium.Common.Int.{ℤ}
use canarium.Engine.Machine.{
  Input, advance, client, tick, reading, refresh, probed, abort, force, mode, stop, database, step,
  run, task_step, sequence_step, on_store,
}
use canarium.Engine.Phase.{
  starting, finished, pausing, polling, calling, dry, Task, go_on, Phase, Obs, Result, idle, begin,
  reconcile, enter, wait, wait_pause, dispatch, running, after_stages, post_shutdown_call, settle,
  settle_wait, settle_pause, gate, gate_pause, wake_next, guard_pause, wake_client, wake_dry,
  wake_attempt, wake_sent, wake_poll, wake_pause, stagger_pause,
}

go_on-Paid :
    {A : Type 0} (k : ℕ) (x : Option A) (r : Result) (f : A → Result)
    → Paid k r.1
    → ((a : A) → Paid k (f a).1)
    → Paid k (go_on x r f).1
go_on-Paid k none r f u v = u
go_on-Paid k (some a) r f u v = v a

go_on_active-Paid :
    (k : ℕ) (x : Option ActiveSequence) (r : Result) (f : ActiveSequence → Result)
    → Paid k r.1
    → ((a : ActiveSequence) → x ≡ some a → Paid k (f a).1)
    → Paid k (go_on x r f).1
go_on_active-Paid k none r f u v = u
go_on_active-Paid k (some a) r f u v = v a refl

sequence_step-Paid :
    (k : ℕ) (s : Setup) (a : ActiveSequence) (o : Obs) (phase : Phase) (e : Executor)
    → e.active_sequence ≡ some a
    → Paid k e
    → Paid k (sequence_step s a o phase e).1
unfolding sequence_step wait_pause_step save_active write set_state post_shutdown_done
    gate_pause_step guard_pause_step stagger_pause_step clear_active_sequence outlets triggers
sequence_step-Paid k s a o idle e u w = ground arith
sequence_step-Paid k s a o begin e u w = execute_sequence-Paid k a o e u w
sequence_step-Paid k s a o (reconcile is i) e u w = reconcile_step-Paid k s a o is i e u w
sequence_step-Paid k s a o (enter i) e u w =
    go_on-Paid k (stage_at a i) (after_stages, e) _ w
      (λ stage. enter_stage-Paid k s a o i stage e u w)
sequence_step-Paid k s a o (wait i deadline) e u w =
    go_on-Paid k (stage_at a i) (after_stages, e) _ w
      (λ stage. wait_step-Paid k s a o i deadline stage e u w)
sequence_step-Paid k s a o (wait_pause i deadline) e u w = ground arith
sequence_step-Paid k s a o (dispatch i) e u w =
    go_on-Paid k (stage_at a i) (after_stages, e) _ w
      (λ stage. dispatch_step-Paid k s a o i stage e u w)
sequence_step-Paid k s a o (running i budget rec tasks) e u w =
    join_step-Paid k a o i budget rec tasks e u w
sequence_step-Paid k s a o after_stages e u w = after_stages_step-Paid k s a e u w
sequence_step-Paid k s a o post_shutdown_call e u w = ground arith
sequence_step-Paid k s a o (settle cs) e u w = settle_step-Paid k s a o cs e u w
sequence_step-Paid k s a o (settle_wait c deadline cs) e u w =
    settle_wait_step-Paid k a o c deadline cs e u w
sequence_step-Paid k s a o (settle_pause c deadline cs) e u w =
    settle_pause_step-Paid k a o c deadline cs e u w
sequence_step-Paid k s a o gate e u w = gate_step-Paid k s a o e u w
sequence_step-Paid k s a o gate_pause e u w = ground arith
sequence_step-Paid k s a o (wake_next names) e u w = wake_next_step-Paid k s a o names e u w
sequence_step-Paid k s a o (guard_pause name names) e u w = ground arith
sequence_step-Paid k s a o (wake_client name names) e u w =
    wake_client_step-Paid k s a o name names e u w
sequence_step-Paid k s a o (wake_dry name names) e u w = wake_dry_step-Paid k s a o name names e u w
sequence_step-Paid k s a o (wake_attempt name left names) e u w =
    wake_attempt_step-Paid k s a name left names e u w
sequence_step-Paid k s a o (wake_sent name left names) e u w =
    wake_sent_step-Paid k s a o name left names e u w
sequence_step-Paid k s a o (wake_poll name left deadline names) e u w =
    wake_poll_step-Paid k s a o name left deadline names e u w
sequence_step-Paid k s a o (wake_pause name left deadline names) e u w =
    wake_pause_step-Paid k s a o name left deadline names e u w
sequence_step-Paid k s a o (stagger_pause names) e u w = ground arith

shutdown_step-Paid :
    (k : ℕ) (s : Setup) (name id : String) (budget : ℤ) (o : Obs) (t : Task) (e : Executor)
    → Paid k e
    → Paid k (shutdown_step s name id budget o t e).1
unfolding shutdown_step start_shutdown dispatch_shutdown set_client_state write emit send outlets
    triggers
shutdown_step-Paid k s name id budget o starting e w = ground arith
shutdown_step-Paid k s name id budget o (dry started) e w = ground arith
shutdown_step-Paid k s name id budget o (calling started expires i) e w = ground arith
shutdown_step-Paid k s name id budget o (polling started expires deadline) e w = ground arith
shutdown_step-Paid k s name id budget o (pausing started expires deadline) e w = ground arith
shutdown_step-Paid k s name id budget o (finished r) e w = ground arith

task_step-Paid :
    (k : ℕ) (s : Setup) (a : ActiveSequence) (o : Obs) (name : String) (phase : Phase)
    (e : Executor)
    → Paid k e
    → Paid k (task_step s a o name phase e).1
unfolding task_step client_step
task_step-Paid k s a o name idle e w = w
task_step-Paid k s a o name begin e w = w
task_step-Paid k s a o name (reconcile is i) e w = w
task_step-Paid k s a o name (enter i) e w = w
task_step-Paid k s a o name (wait i deadline) e w = w
task_step-Paid k s a o name (wait_pause i deadline) e w = w
task_step-Paid k s a o name (dispatch i) e w = w
task_step-Paid k s a o name (running i budget rec tasks) e w =
    go_on-Paid k (lookup name tasks) (running i budget rec tasks, e) _ w
      (λ t. shutdown_step-Paid k s name a.seq.id budget o t e w)
task_step-Paid k s a o name after_stages e w = w
task_step-Paid k s a o name post_shutdown_call e w = w
task_step-Paid k s a o name (settle cs) e w = w
task_step-Paid k s a o name (settle_wait c deadline cs) e w = w
task_step-Paid k s a o name (settle_pause c deadline cs) e w = w
task_step-Paid k s a o name gate e w = w
task_step-Paid k s a o name gate_pause e w = w
task_step-Paid k s a o name (wake_next names) e w = w
task_step-Paid k s a o name (guard_pause n names) e w = w
task_step-Paid k s a o name (wake_client n names) e w = w
task_step-Paid k s a o name (wake_dry n names) e w = w
task_step-Paid k s a o name (wake_attempt n left names) e w = w
task_step-Paid k s a o name (wake_sent n left names) e w = w
task_step-Paid k s a o name (wake_poll n left deadline names) e w = w
task_step-Paid k s a o name (wake_pause n left deadline names) e w = w
task_step-Paid k s a o name (stagger_pause names) e w = w

evaluate_plans-Paid :
    (k : ℕ) (s : Setup) (m : Mode) (now : ℕ) (plans : List PlanConfig) (e : Executor)
    → Paid k e
    → Paid k (evaluate_plans s m now plans e).1
unfolding evaluate_plans note_would_trigger evaluate_now emit set_active_sequence new_sequence_for
    new_active_sequence outlets triggers
evaluate_plans-Paid k s m now [] e w = w
evaluate_plans-Paid k s m now (plan ∷ plans) e w =
    let e1 = (evaluate_now s plan.trigger now e).1 in
    ground (
      arith,
      evaluate_plans-Paid k s m now plans e1 w,
      evaluate_plans-Paid k s m now plans
          (note_would_trigger plan.name (evaluate_now s plan.trigger now e).0 e1),
    )

apply_probe-Paid :
    (k : ℕ) (name : String) (current p : ClientState) (now : ℕ) (e : Executor)
    → Paid k e
    → Paid k (apply_probe name current p now e)
unfolding apply_probe set_client_state emit write outlets triggers
apply_probe-Paid k name current p now e w = ground arith

probe_client-Paid :
    (k : ℕ) (s : Setup) (c : ClientConfig) (p : Option ClientState) (now : ℕ) (e : Executor)
    → Paid k e
    → Paid k (probe_client s c p now e)
unfolding probe_client
probe_client-Paid k s c none now e w = ground arith
probe_client-Paid k s c (some p) now e w =
    ground (arith, apply_probe-Paid k c.name (get_client_state c.name e) p now e w)

step-Paid :
    (k : ℕ) (s : Setup) (i : Input) (phase : Phase) (e : Executor)
    → Paid k e
    → Paid k (step s i phase e).1
unfolding step evaluate_policies on_store abort_sequence force_stage request_abort request_proceed
    set_mode emit outlets triggers
step-Paid k s (advance o) phase e w =
    go_on_active-Paid k e.active_sequence (phase, e) _ w
      (λ a u. sequence_step-Paid k s a o phase e u w)
step-Paid k s (client name o) phase e w =
    go_on-Paid k e.active_sequence (phase, e) _ w (λ a. task_step-Paid k s a o name phase e w)
step-Paid k s (tick now) phase e w = evaluate_plans-Paid k s e.mode now s.cfg.plans e w
step-Paid k s (reading key value now) phase e w = w
step-Paid k s (refresh now) phase e w = w
step-Paid k s (probed c p now) phase e w = probe_client-Paid k s c p now e w
step-Paid k s (abort reason) phase e w = ground arith
step-Paid k s (force reason) phase e w = ground arith
step-Paid k s (mode m) phase e w = w
step-Paid k s stop phase e w = w
step-Paid k s (database ok) phase e w = w

-- In any run the commands of post-shutdown, and one more where the active sequence has it ahead,
-- stay within the sequences that a trigger started and `k` others, where they are at the start.
pub post_shutdown_once :
    (k : ℕ) (s : Setup) (is : List Input) (phase : Phase) (e : Executor)
    → Paid k e
    → Paid k (run s is phase e).1
unfolding run
post_shutdown_once k s [] phase e w = w
post_shutdown_once k s (i ∷ is) phase e w =
    post_shutdown_once k s is (step s i phase e).0 (step s i phase e).1 (step-Paid k s i phase e w)
