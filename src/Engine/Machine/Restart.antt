-- ===== src/Engine/Machine/Restart.antt =====
-- A restart at any point of a run of internal/engine.
use canarium.Engine.Resume.{new_sequence_for, restore_state}
use canarium.Engine.Machine.Sound.{not_aborted, phase_of_active, step-sound}
use canarium.Engine.Resume.Restored.{restore_state-sound, row_agrees, agrees}
use canarium.Engine.Types.{Mode, ClientState}
use canarium.Engine.Machine.Parts.{part, fits, sound}
use canarium.Engine.Wake.{stagger_pause_step, guard_pause_step, gate_pause_step}
use canarium.Config.Types.{PlanConfig, ClientConfig}
use canarium.Engine.Sequence.{new_active_sequence, request_proceed, request_abort, ActiveSequence}
use canarium.State.Types.{Sequence}
use canarium.Engine.Machine.WakeRows.{
  wake_pause_step-kept, wake_poll_step-kept, wake_sent_step-kept, wake_attempt_step-kept,
  wake_dry_step-kept, wake_client_step-kept, wake_next_step-kept, gate_step-kept,
}
use canarium.Engine.Machine.Rows.{
  settle_pause_step-kept, settle_wait_step-kept, settle_step-kept, post_shutdown_done-kept,
  after_stages_step-kept, join_step-kept, dispatch_step-kept, wait_step-kept, enter_stage-kept,
  reconcile_step-kept, execute_sequence-kept, rows_ok, kept, kept_with,
}
use canarium.Engine.Shutdown.{dispatch_shutdown, start_shutdown, shutdown_step}
use canarium.State.Tables.{
  acquire_client_lock, save_intent, save_client_state, get_active_sequence, latest_unfinished,
}
use canarium.Engine.Executor.{
  clear_active_sequence, set_mode, send, write, set_active_sequence, get_client_state, evaluate_now,
  force_stage, emit, abort_sequence, set_client_state, Setup, Executor,
}
use canarium.Engine.Policy.{
  note_would_trigger, evaluate_plans, apply_probe, evaluate_policies, probe_client,
}
use canarium.Engine.Stages.{stage_at, wait_pause_step, client_step}
use canarium.Common.{ℕ, String, true, List, [], ◌∷◌, Option, none, some, ◌≡◌, refl, arith}
use canarium.Common.Dict.{Dict, lookup}
use canarium.Common.Int.{ℤ}
use canarium.Engine.Machine.{
  Input, advance, client, tick, reading, refresh, probed, abort, force, mode, stop, database, step,
  run, task_step, sequence_step, on_store,
}
use canarium.Engine.Phase.{
  starting, finished, pausing, polling, calling, dry, Task, Obs, go_on, Phase, Result, idle, begin,
  reconcile, enter, wait, wait_pause, dispatch, running, after_stages, post_shutdown_call, settle,
  settle_wait, settle_pause, gate, gate_pause, wake_next, guard_pause, wake_client, wake_dry,
  wake_attempt, wake_sent, wake_poll, wake_pause, stagger_pause,
}

go_on-kept :
    {A : Type 0} (x : Option A) (r : Result) (f : A → Result)
    → kept r.1 ≡ true
    → ((a : A) → x ≡ some a → kept (f a).1 ≡ true)
    → kept (go_on x r f).1 ≡ true
go_on-kept none r f u v = u
go_on-kept (some a) r f u v = v a refl

all_kept :
    (a : ActiveSequence) (e : Executor)
    → e.active_sequence ≡ some a
    → agrees a.seq.state a.seq ≡ true
    → rows_ok e.db.sequences ≡ true
    → kept e ≡ true
unfolding kept_with
all_kept a e u ok rows = ground arith

-- A step of the sequence's goroutine.
sequence_step-kept :
    (s : Setup) (a : ActiveSequence) (o : Obs) (phase : Phase) (e : Executor)
    → e.active_sequence ≡ some a
    → agrees a.seq.state a.seq ≡ true
    → rows_ok e.db.sequences ≡ true
    → fits (part phase) a ≡ true
    → kept (sequence_step s a o phase e).1 ≡ true
unfolding sequence_step kept_with wait_pause_step gate_pause_step guard_pause_step
    stagger_pause_step clear_active_sequence
sequence_step-kept s a o idle e u ok rows w = ground arith
sequence_step-kept s a o begin e u ok rows w = execute_sequence-kept a o e u ok rows
sequence_step-kept s a o (reconcile is i) e u ok rows w = reconcile_step-kept s a o is i e u ok rows
sequence_step-kept s a o (enter i) e u ok rows w =
    go_on-kept (stage_at a i) (after_stages, e) _ (all_kept a e u ok rows)
      (λ stage v. enter_stage-kept s a o i stage e u ok rows (not_aborted a w))
sequence_step-kept s a o (wait i deadline) e u ok rows w =
    go_on-kept (stage_at a i) (after_stages, e) _ (all_kept a e u ok rows)
      (λ stage v. wait_step-kept s a o i deadline stage e u ok rows (not_aborted a w))
sequence_step-kept s a o (wait_pause i deadline) e u ok rows w = ground arith
sequence_step-kept s a o (dispatch i) e u ok rows w =
    go_on-kept (stage_at a i) (after_stages, e) _ (all_kept a e u ok rows)
      (λ stage v. dispatch_step-kept s a o i stage e u ok rows (not_aborted a w))
sequence_step-kept s a o (running i budget rec tasks) e u ok rows w =
    join_step-kept a o i budget rec tasks e u ok rows
sequence_step-kept s a o after_stages e u ok rows w =
    after_stages_step-kept s a e u ok rows (not_aborted a w)
sequence_step-kept s a o post_shutdown_call e u ok rows w =
    post_shutdown_done-kept a e u ok rows (not_aborted a w)
sequence_step-kept s a o (settle cs) e u ok rows w = settle_step-kept s a o cs e u ok rows w
sequence_step-kept s a o (settle_wait c deadline cs) e u ok rows w =
    settle_wait_step-kept a o c deadline cs e u ok rows
sequence_step-kept s a o (settle_pause c deadline cs) e u ok rows w =
    settle_pause_step-kept a o c deadline cs e u ok rows w
sequence_step-kept s a o gate e u ok rows w = gate_step-kept s a o e u ok rows
sequence_step-kept s a o gate_pause e u ok rows w = ground arith
sequence_step-kept s a o (wake_next names) e u ok rows w =
    wake_next_step-kept s a o names e u ok rows
sequence_step-kept s a o (guard_pause name names) e u ok rows w = ground arith
sequence_step-kept s a o (wake_client name names) e u ok rows w =
    wake_client_step-kept s a o name names e u ok rows
sequence_step-kept s a o (wake_dry name names) e u ok rows w =
    wake_dry_step-kept s a o name names e u ok rows
sequence_step-kept s a o (wake_attempt name left names) e u ok rows w =
    wake_attempt_step-kept s a name left names e u ok rows
sequence_step-kept s a o (wake_sent name left names) e u ok rows w =
    wake_sent_step-kept s a o name left names e u ok rows
sequence_step-kept s a o (wake_poll name left deadline names) e u ok rows w =
    wake_poll_step-kept s a o name left deadline names e u ok rows
sequence_step-kept s a o (wake_pause name left deadline names) e u ok rows w =
    wake_pause_step-kept s a o name left deadline names e u ok rows
sequence_step-kept s a o (stagger_pause names) e u ok rows w = ground arith

-- A client's goroutine touches neither.
shutdown_step-kept :
    (s : Setup) (name id : String) (budget : ℤ) (o : Obs) (t : Task) (e : Executor)
    → kept e ≡ true
    → kept (shutdown_step s name id budget o t e).1 ≡ true
unfolding shutdown_step start_shutdown dispatch_shutdown set_client_state write emit send
    save_client_state save_intent acquire_client_lock kept_with
shutdown_step-kept s name id budget o starting e w = ground arith
shutdown_step-kept s name id budget o (dry started) e w = ground arith
shutdown_step-kept s name id budget o (calling started expires i) e w = ground arith
shutdown_step-kept s name id budget o (polling started expires deadline) e w = ground arith
shutdown_step-kept s name id budget o (pausing started expires deadline) e w = ground arith
shutdown_step-kept s name id budget o (finished r) e w = ground arith

task_step-kept :
    (s : Setup) (a : ActiveSequence) (o : Obs) (name : String) (phase : Phase) (e : Executor)
    → kept e ≡ true
    → kept (task_step s a o name phase e).1 ≡ true
unfolding task_step client_step
task_step-kept s a o name idle e w = w
task_step-kept s a o name begin e w = w
task_step-kept s a o name (reconcile is i) e w = w
task_step-kept s a o name (enter i) e w = w
task_step-kept s a o name (wait i deadline) e w = w
task_step-kept s a o name (wait_pause i deadline) e w = w
task_step-kept s a o name (dispatch i) e w = w
task_step-kept s a o name (running i budget rec tasks) e w =
    go_on-kept (lookup name tasks) (running i budget rec tasks, e) _ w
      (λ t v. shutdown_step-kept s name a.seq.id budget o t e w)
task_step-kept s a o name after_stages e w = w
task_step-kept s a o name post_shutdown_call e w = w
task_step-kept s a o name (settle cs) e w = w
task_step-kept s a o name (settle_wait c deadline cs) e w = w
task_step-kept s a o name (settle_pause c deadline cs) e w = w
task_step-kept s a o name gate e w = w
task_step-kept s a o name gate_pause e w = w
task_step-kept s a o name (wake_next names) e w = w
task_step-kept s a o name (guard_pause n names) e w = w
task_step-kept s a o name (wake_client n names) e w = w
task_step-kept s a o name (wake_dry n names) e w = w
task_step-kept s a o name (wake_attempt n left names) e w = w
task_step-kept s a o name (wake_sent n left names) e w = w
task_step-kept s a o name (wake_poll n left deadline names) e w = w
task_step-kept s a o name (wake_pause n left deadline names) e w = w
task_step-kept s a o name (stagger_pause names) e w = w

evaluate_plans-kept :
    (s : Setup) (m : Mode) (now : ℕ) (plans : List PlanConfig) (e : Executor)
    → kept e ≡ true
    → kept (evaluate_plans s m now plans e).1 ≡ true
unfolding evaluate_plans note_would_trigger evaluate_now emit set_active_sequence new_sequence_for
    new_active_sequence kept_with
evaluate_plans-kept s m now [] e w = w
evaluate_plans-kept s m now (plan ∷ plans) e w =
    let e1 = (evaluate_now s plan.trigger now e).1 in
    ground (
      arith,
      evaluate_plans-kept s m now plans e1 w,
      evaluate_plans-kept s m now plans
          (note_would_trigger plan.name (evaluate_now s plan.trigger now e).0 e1),
    )

apply_probe-kept :
    (name : String) (current p : ClientState) (now : ℕ) (e : Executor)
    → kept e ≡ true
    → kept (apply_probe name current p now e) ≡ true
unfolding apply_probe set_client_state emit write save_client_state kept_with
apply_probe-kept name current p now e w = ground arith

probe_client-kept :
    (s : Setup) (c : ClientConfig) (p : Option ClientState) (now : ℕ) (e : Executor)
    → kept e ≡ true
    → kept (probe_client s c p now e) ≡ true
unfolding probe_client
probe_client-kept s c none now e w = ground arith
probe_client-kept s c (some p) now e w =
    ground (arith, apply_probe-kept c.name (get_client_state c.name e) p now e w)

marks :
    (e : Executor) (a : ActiveSequence)
    → kept e ≡ true
    → e.active_sequence ≡ some a
    → (agrees a.seq.state a.seq ≡ true) × (rows_ok e.db.sequences ≡ true)
unfolding kept_with
marks e a w u = (ground arith, ground arith)

step-kept :
    (s : Setup) (i : Input) (phase : Phase) (e : Executor)
    → sound (phase, e) ≡ true
    → kept e ≡ true
    → kept (step s i phase e).1 ≡ true
unfolding step evaluate_policies on_store abort_sequence force_stage request_abort request_proceed
    set_mode emit kept_with
step-kept s (advance o) phase e v w =
    go_on-kept e.active_sequence (phase, e) _ w
      (λ a u.
        sequence_step-kept s a o phase e u (marks e a w u).0 (marks e a w u).1
          (phase_of_active phase e a v u))
step-kept s (client name o) phase e v w =
    go_on-kept e.active_sequence (phase, e) _ w (λ a u. task_step-kept s a o name phase e w)
step-kept s (tick now) phase e v w = evaluate_plans-kept s e.mode now s.cfg.plans e w
step-kept s (reading key value now) phase e v w = w
step-kept s (refresh now) phase e v w = w
step-kept s (probed c p now) phase e v w = probe_client-kept s c p now e w
step-kept s (abort reason) phase e v w = ground arith
step-kept s (force reason) phase e v w = ground arith
step-kept s (mode m) phase e v w = w
step-kept s stop phase e v w = w
step-kept s (database ok) phase e v w = w

run-kept :
    (s : Setup) (is : List Input) (phase : Phase) (e : Executor)
    → sound (phase, e) ≡ true
    → kept e ≡ true
    → kept (run s is phase e).1 ≡ true
unfolding run
run-kept s [] phase e v w = w
run-kept s (i ∷ is) phase e v w =
    let (phase', e') = step s i phase e in
    run-kept s is phase' e' (step-sound s i phase e v) (step-kept s i phase e v w)

-- What is left of an executor when the daemon dies: its database.
abbrev pub crashed : Executor → Executor → Executor
crashed fresh e = record fresh { active_sequence = none; db = e.db }

rows_of_kept : (e : Executor) → kept e ≡ true → rows_ok e.db.sequences ≡ true
unfolding kept_with
rows_of_kept e w = ground arith

latest-row_agrees :
    (rows : Dict Sequence) → rows_ok rows ≡ true → row_agrees (latest_unfinished rows) ≡ true
unfolding latest_unfinished
latest-row_agrees [] w = refl
latest-row_agrees ((key, q) ∷ rows) w = ground (arith, latest-row_agrees rows)

-- From a sound state whose rows and active sequence have marks that agree with their states, let
-- anything happen, let the daemon die between two steps and start anew with the database that it
-- leaves: the state behind the restart is sound again.
pub restart_is_sound :
    (s : Setup) (is : List Input) (phase : Phase) (e fresh : Executor) (now : ℕ)
    → sound (phase, e) ≡ true
    → kept e ≡ true
    → sound (restore_state s now (crashed fresh (run s is phase e).1)).1 ≡ true
unfolding get_active_sequence
restart_is_sound s is phase e fresh now v w =
    let e' = (run s is phase e).1 in
    restore_state-sound s now (crashed fresh e') refl
      (latest-row_agrees e'.db.sequences (rows_of_kept e' (run-kept s is phase e v w)))
