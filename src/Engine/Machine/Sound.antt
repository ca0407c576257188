-- ===== src/Engine/Machine/Sound.antt =====
-- What every state of the machine of internal/engine satisfies.
use canarium.Engine.Resume.{new_sequence_for}
use canarium.Common.Dict.{lookup, Dict}
use canarium.State.Types.{StageRecord}
use canarium.Common.Int.{ℤ}
use canarium.Engine.Types.{ClientState, Mode}
use canarium.Engine.Policy.{
  evaluate_policies, evaluate_policies, apply_probe, probe_client, note_would_trigger,
  evaluate_plans,
}
use canarium.Engine.Shutdown.{dispatch_shutdown, start_shutdown, shutdown_step}
use canarium.Engine.Machine.Steps.{
  wake_pause_step-sound, wake_poll_step-sound, wake_sent_step-sound, wake_attempt_step-sound,
  wake_dry_step-sound, wake_client_step-sound, wake_next_step-sound, gate_step-sound,
  settle_pause_step-sound, settle_wait_step-sound, settle_step-sound, after_stages_step-sound,
  join_step-sound, dispatch_step-sound, wait_step-sound, enter_stage-sound, reconcile_step-sound,
  execute_sequence-sound,
}
use canarium.Engine.Wake.{stagger_pause_step, guard_pause_step, gate_pause_step}
use canarium.Engine.Phase.{
  go_on, starting, finished, pausing, polling, calling, dry, Task, Obs, Phase, Result, idle, begin,
  reconcile, enter, wait, wait_pause, dispatch, running, after_stages, post_shutdown_call, settle,
  settle_wait, settle_pause, gate, gate_pause, wake_next, guard_pause, wake_client, wake_dry,
  wake_attempt, wake_sent, wake_poll, wake_pause, stagger_pause,
}
use canarium.Engine.Executor.{
  set_mode, force_stage, abort_sequence, get_client_state, set_active_sequence, evaluate_now, send,
  emit, set_client_state, Setup, clear_active_sequence, Executor, write, save_active,
}
use canarium.Engine.Stages.{client_step, stage_at, post_shutdown_done, wait_pause_step}
use canarium.Config.Types.{ClientConfig, PlanConfig}
use canarium.Engine.Machine.{
  task_step, sequence_step, Input, advance, client, tick, reading, refresh, probed, abort, force,
  mode, stop, database, step, run, on_store,
}
use canarium.Engine.Machine.Parts.{Part, shutting, part, sound, fits, sound_with}
use canarium.Engine.Sequence.{
  request_proceed, request_abort, new_active_sequence, set_state, ActiveSequence,
}
use canarium.Common.{
  Bool, refl, ◌∷◌, [], if◌then◌else◌, List, ℕ, String, true, false, Option, none, some, ◌≡◌, arith,
}

go_on-sound :
    {A : Type 0} (x : Option A) (r : Result) (f : A → Result)
    → sound r ≡ true
    → ((a : A) → x ≡ some a → sound (f a) ≡ true)
    → sound (go_on x r f) ≡ true
go_on-sound none r f u v = u
go_on-sound (some a) r f u v = v a refl

after_stages-sound :
    (a : ActiveSequence) (e : Executor)
    → e.active_sequence ≡ some a
    → fits shutting a ≡ true
    → sound (after_stages, e) ≡ true
unfolding sound_with
after_stages-sound a e u w = ground arith

pub not_aborted : (a : ActiveSequence) → fits shutting a ≡ true → a.seq.aborted ≡ false
not_aborted a w = ground arith

-- A step of the sequence's goroutine that starts in a sound state ends in one.
pub sequence_step-sound :
    (s : Setup) (a : ActiveSequence) (o : Obs) (phase : Phase) (e : Executor)
    → e.active_sequence ≡ some a
    → fits (part phase) a ≡ true
    → sound (sequence_step s a o phase e) ≡ true
unfolding sequence_step sound_with wait_pause_step save_active write set_state post_shutdown_done
    gate_pause_step guard_pause_step stagger_pause_step clear_active_sequence
sequence_step-sound s a o idle e u w = ground arith
sequence_step-sound s a o begin e u w = execute_sequence-sound a o e (not_aborted a w)
sequence_step-sound s a o (reconcile is i) e u w =
    reconcile_step-sound s a o is i e u (not_aborted a w)
sequence_step-sound s a o (enter i) e u w =
    go_on-sound (stage_at a i) (after_stages, e) _ (after_stages-sound a e u w)
      (λ stage v. enter_stage-sound s a o i stage e (not_aborted a w))
sequence_step-sound s a o (wait i deadline) e u w =
    go_on-sound (stage_at a i) (after_stages, e) _ (after_stages-sound a e u w)
      (λ stage v. wait_step-sound s a o i deadline stage e u (not_aborted a w))
sequence_step-sound s a o (wait_pause i deadline) e u w = ground arith
sequence_step-sound s a o (dispatch i) e u w =
    go_on-sound (stage_at a i) (after_stages, e) _ (after_stages-sound a e u w)
      (λ stage v. dispatch_step-sound s a o i stage e u (not_aborted a w))
sequence_step-sound s a o (running i budget rec tasks) e u w =
    join_step-sound a o i budget rec tasks e u (not_aborted a w)
sequence_step-sound s a o after_stages e u w = after_stages_step-sound s a e u (not_aborted a w)
sequence_step-sound s a o post_shutdown_call e u w = ground arith
sequence_step-sound s a o (settle cs) e u w = settle_step-sound s a o cs e u w
sequence_step-sound s a o (settle_wait c deadline cs) e u w =
    settle_wait_step-sound a o c deadline cs e u w
sequence_step-sound s a o (settle_pause c deadline cs) e u w =
    settle_pause_step-sound a o c deadline cs e u w
sequence_step-sound s a o gate e u w = gate_step-sound s a o e u
sequence_step-sound s a o gate_pause e u w = ground arith
sequence_step-sound s a o (wake_next names) e u w = wake_next_step-sound s a o names e u
sequence_step-sound s a o (guard_pause name names) e u w = ground arith
sequence_step-sound s a o (wake_client name names) e u w =
    wake_client_step-sound s a o name names e u
sequence_step-sound s a o (wake_dry name names) e u w = wake_dry_step-sound s a o name names e u
sequence_step-sound s a o (wake_attempt name left names) e u w =
    wake_attempt_step-sound s a name left names e u
sequence_step-sound s a o (wake_sent name left names) e u w =
    wake_sent_step-sound s a o name left names e u
sequence_step-sound s a o (wake_poll name left deadline names) e u w =
    wake_poll_step-sound s a o name left deadline names e u
sequence_step-sound s a o (wake_pause name left deadline names) e u w =
    wake_pause_step-sound s a o name left deadline names e u
sequence_step-sound s a o (stagger_pause names) e u w = ground arith

-- Shutting a client down leaves the sequence alone.
pub shutdown_step-active_sequence :
    (s : Setup) (name id : String) (budget : ℤ) (o : Obs) (t : Task) (e : Executor)
    → (shutdown_step s name id budget o t e).1.active_sequence ≡ e.active_sequence
unfolding shutdown_step start_shutdown dispatch_shutdown set_client_state write emit send
shutdown_step-active_sequence s name id budget o starting e = ground arith
shutdown_step-active_sequence s name id budget o (dry started) e = ground arith
shutdown_step-active_sequence s name id budget o (calling started expires i) e = ground arith
shutdown_step-active_sequence s name id budget o (polling started expires deadline) e = ground arith
shutdown_step-active_sequence s name id budget o (pausing started expires deadline) e = ground arith
shutdown_step-active_sequence s name id budget o (finished r) e = ground arith

client_step-sound :
    (s : Setup) (a : ActiveSequence) (o : Obs) (name : String) (i : ℕ) (budget : ℤ)
    (rec : StageRecord) (tasks : Dict Task) (e : Executor)
    → sound_with shutting e.active_sequence ≡ true
    → sound (client_step s a o name i budget rec tasks e) ≡ true
unfolding client_step
client_step-sound s a o name i budget rec tasks e w =
    go_on-sound (lookup name tasks) (running i budget rec tasks, e) _ w
      (λ t v. ground (arith, shutdown_step-active_sequence s name a.seq.id budget o t e))

-- A policy tick starts a sequence only where there is none, and not an aborted one.
evaluate_plans_sound :
    (s : Setup) (m : Mode) (now : ℕ) (plans : List PlanConfig) (p : Part) (e : Executor)
    → sound_with p e.active_sequence ≡ true
    → sound_with
        (if (evaluate_plans s m now plans e).0 then shutting else p)
        (evaluate_plans s m now plans e).1.active_sequence
      ≡ true
unfolding evaluate_plans sound_with note_would_trigger evaluate_now emit set_active_sequence
    new_sequence_for new_active_sequence
evaluate_plans_sound s m now [] p e w = w
evaluate_plans_sound s m now (plan ∷ plans) p e w =
    let e1 = (evaluate_now s plan.trigger now e).1 in
    ground (
      arith,
      evaluate_plans_sound s m now plans p e1 w,
      evaluate_plans_sound s m now plans p
          (note_would_trigger plan.name (evaluate_now s plan.trigger now e).0 e1),
    )

apply_probe-active_sequence :
    (name : String) (current p : ClientState) (now : ℕ) (e : Executor)
    → (apply_probe name current p now e).active_sequence ≡ e.active_sequence
unfolding apply_probe set_client_state emit write
apply_probe-active_sequence name current p now e = ground arith

pub probe_client-active_sequence :
    (s : Setup) (c : ClientConfig) (p : Option ClientState) (now : ℕ) (e : Executor)
    → (probe_client s c p now e).active_sequence ≡ e.active_sequence
unfolding probe_client
probe_client-active_sequence s c none now e = ground arith
probe_client-active_sequence s c (some p) now e =
    ground (arith, apply_probe-active_sequence c.name (get_client_state c.name e) p now e)

task_step-sound :
    (s : Setup) (a : ActiveSequence) (o : Obs) (name : String) (phase : Phase) (e : Executor)
    → sound (phase, e) ≡ true
    → sound (task_step s a o name phase e) ≡ true
unfolding task_step
task_step-sound s a o name idle e w = w
task_step-sound s a o name begin e w = w
task_step-sound s a o name (reconcile is i) e w = w
task_step-sound s a o name (enter i) e w = w
task_step-sound s a o name (wait i deadline) e w = w
task_step-sound s a o name (wait_pause i deadline) e w = w
task_step-sound s a o name (dispatch i) e w = w
task_step-sound s a o name (running i budget rec tasks) e w =
    client_step-sound s a o name i budget rec tasks e w
task_step-sound s a o name after_stages e w = w
task_step-sound s a o name post_shutdown_call e w = w
task_step-sound s a o name (settle cs) e w = w
task_step-sound s a o name (settle_wait c deadline cs) e w = w
task_step-sound s a o name (settle_pause c deadline cs) e w = w
task_step-sound s a o name gate e w = w
task_step-sound s a o name gate_pause e w = w
task_step-sound s a o name (wake_next names) e w = w
task_step-sound s a o name (guard_pause n names) e w = w
task_step-sound s a o name (wake_client n names) e w = w
task_step-sound s a o name (wake_dry n names) e w = w
task_step-sound s a o name (wake_attempt n left names) e w = w
task_step-sound s a o name (wake_sent n left names) e w = w
task_step-sound s a o name (wake_poll n left deadline names) e w = w
task_step-sound s a o name (wake_pause n left deadline names) e w = w
task_step-sound s a o name (stagger_pause names) e w = w

part_begin :
    (b : Bool) (phase : Phase)
    → part (if b then begin else phase) ≡ (if b then shutting else part phase)
part_begin true phase = refl
part_begin false phase = refl

pub phase_of_active :
    (phase : Phase) (e : Executor) (a : ActiveSequence)
    → sound (phase, e) ≡ true
    → e.active_sequence ≡ some a
    → fits (part phase) a ≡ true
unfolding sound_with
phase_of_active phase e a w u = ground arith

-- Whatever happens to the daemon, a sound state is followed by one.
pub step-sound :
    (s : Setup) (i : Input) (phase : Phase) (e : Executor)
    → sound (phase, e) ≡ true
    → sound (step s i phase e) ≡ true
unfolding step evaluate_policies on_store sound_with abort_sequence force_stage request_abort
    request_proceed set_mode emit
step-sound s (advance o) phase e w =
    go_on-sound e.active_sequence (phase, e) _ w
      (λ a u. sequence_step-sound s a o phase e u (phase_of_active phase e a w u))
step-sound s (client name o) phase e w =
    go_on-sound e.active_sequence (phase, e) _ w (λ a u. task_step-sound s a o name phase e w)
step-sound s (tick now) phase e w = ground (
  arith,
  part_begin (evaluate_policies s now e).0 phase,
  evaluate_plans_sound s e.mode now s.cfg.plans (part phase) e w,
)
step-sound s (reading key value now) phase e w = w
step-sound s (refresh now) phase e w = w
step-sound s (probed c p now) phase e w = ground (arith, probe_client-active_sequence s c p now e)
step-sound s (abort reason) phase e w = ground arith
step-sound s (force reason) phase e w = ground arith
step-sound s (mode m) phase e w = w
step-sound s stop phase e w = w
step-sound s (database ok) phase e w = w

-- From a sound state, as one without a sequence is, every run leads to a sound one: a sequence that
-- was aborted does not go on shutting down, one that settles after an abort is short of its point of
-- no return, and a goroutine goes on exactly while a sequence is active.
pub run-sound :
    (s : Setup) (is : List Input) (phase : Phase) (e : Executor)
    → sound (phase, e) ≡ true
    → sound (run s is phase e) ≡ true
unfolding run
run-sound s [] phase e w = w
run-sound s (i ∷ is) phase e w =
    let (phase', e') = step s i phase e in run-sound s is phase' e' (step-sound s i phase e w)
