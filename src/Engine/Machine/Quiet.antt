-- ===== src/Engine/Machine/Quiet.antt =====
-- When the machine of internal/engine sends nothing, and that it does not for a sequence that was
-- aborted.
use canarium.Engine.Machine.Sound.{phase_of_active}
use canarium.Engine.Machine.Parts.{part, fits, sound}
use canarium.Engine.Types.{Mode, ClientState}
use canarium.Config.Types.{PlanConfig, ClientConfig}
use canarium.Engine.Sequence.{ActiveSequence}
use canarium.Engine.Executor.{
  write, set_active_sequence, set_mode, get_client_state, emit, evaluate_now, force_stage, Executor,
  set_client_state, abort_sequence, Setup,
}
use canarium.Engine.Policy.{
  note_would_trigger, evaluate_policies, probe_client, evaluate_plans, apply_probe,
}
use canarium.Common.{
  ℕ, String, Bool, false, true, ◌||◌, List, [], ◌∷◌, Option, none, some, ◌≡◌, refl, arith,
}
use canarium.Engine.Machine.{
  Input, advance, client, tick, reading, refresh, probed, abort, force, mode, stop, database, step,
  task_step, on_store,
}
use canarium.Engine.Machine.Sent.{wakes, powers_off, sent, go_on-sent, sequence_step-sent}
use canarium.Engine.Phase.{
  Obs, Phase, idle, begin, reconcile, enter, wait, wait_pause, dispatch, running, after_stages,
  post_shutdown_call, settle, settle_wait, settle_pause, gate, gate_pause, wake_next, guard_pause,
  wake_client, wake_dry, wake_attempt, wake_sent, wake_poll, wake_pause, stagger_pause,
}

abbrev pub sends : Input → Phase → Bool
sends (advance _) phase = powers_off phase || wakes phase
sends (client _ _) phase = powers_off phase
sends _ phase = false

evaluate_plans-sent :
    (s : Setup) (m : Mode) (now : ℕ) (plans : List PlanConfig) (e : Executor)
    → sent (evaluate_plans s m now plans e).1.effects ≡ sent e.effects
unfolding evaluate_plans sent note_would_trigger evaluate_now emit set_active_sequence
evaluate_plans-sent s m now [] e = refl
evaluate_plans-sent s m now (plan ∷ plans) e =
    let e1 = (evaluate_now s plan.trigger now e).1 in
    ground (
      arith,
      evaluate_plans-sent s m now plans e1,
      evaluate_plans-sent s m now plans
          (note_would_trigger plan.name (evaluate_now s plan.trigger now e).0 e1),
    )

apply_probe-sent :
    (name : String) (current p : ClientState) (now : ℕ) (e : Executor)
    → sent (apply_probe name current p now e).effects ≡ sent e.effects
unfolding apply_probe set_client_state emit write sent
apply_probe-sent name current p now e = ground arith

probe_client-sent :
    (s : Setup) (c : ClientConfig) (p : Option ClientState) (now : ℕ) (e : Executor)
    → sent (probe_client s c p now e).effects ≡ sent e.effects
unfolding probe_client
probe_client-sent s c none now e = ground arith
probe_client-sent s c (some p) now e =
    ground (arith, apply_probe-sent c.name (get_client_state c.name e) p now e)

pub task_step-sent :
    (s : Setup) (a : ActiveSequence) (o : Obs) (name : String) (phase : Phase) (e : Executor)
    → powers_off phase ≡ false
    → sent (task_step s a o name phase e).1.effects ≡ sent e.effects
unfolding task_step
task_step-sent s a o name idle e w = refl
task_step-sent s a o name begin e w = refl
task_step-sent s a o name (reconcile is i) e w = refl
task_step-sent s a o name (enter i) e w = refl
task_step-sent s a o name (wait i deadline) e w = refl
task_step-sent s a o name (wait_pause i deadline) e w = refl
task_step-sent s a o name (dispatch i) e w = refl
task_step-sent s a o name (running i budget rec tasks) e w = ground arith
task_step-sent s a o name after_stages e w = refl
task_step-sent s a o name post_shutdown_call e w = refl
task_step-sent s a o name (settle cs) e w = refl
task_step-sent s a o name (settle_wait c deadline cs) e w = refl
task_step-sent s a o name (settle_pause c deadline cs) e w = refl
task_step-sent s a o name gate e w = refl
task_step-sent s a o name gate_pause e w = refl
task_step-sent s a o name (wake_next names) e w = refl
task_step-sent s a o name (guard_pause n names) e w = refl
task_step-sent s a o name (wake_client n names) e w = refl
task_step-sent s a o name (wake_dry n names) e w = refl
task_step-sent s a o name (wake_attempt n left names) e w = refl
task_step-sent s a o name (wake_sent n left names) e w = refl
task_step-sent s a o name (wake_poll n left deadline names) e w = refl
task_step-sent s a o name (wake_pause n left deadline names) e w = refl
task_step-sent s a o name (stagger_pause names) e w = refl

pub step-sent :
    (s : Setup) (i : Input) (phase : Phase) (e : Executor)
    → sends i phase ≡ false
    → sent (step s i phase e).1.effects ≡ sent e.effects
unfolding step evaluate_policies on_store sent abort_sequence force_stage set_mode emit
step-sent s (advance o) phase e w =
    go_on-sent (sent e.effects) e.active_sequence (phase, e) _ refl
      (λ a. sequence_step-sent s a o phase e (ground arith) (ground arith))
step-sent s (client name o) phase e w =
    go_on-sent (sent e.effects) e.active_sequence (phase, e) _ refl
      (λ a. task_step-sent s a o name phase e w)
step-sent s (tick now) phase e w = evaluate_plans-sent s e.mode now s.cfg.plans e
step-sent s (reading key value now) phase e w = refl
step-sent s (refresh now) phase e w = refl
step-sent s (probed c p now) phase e w = probe_client-sent s c p now e
step-sent s (abort reason) phase e w = ground arith
step-sent s (force reason) phase e w = ground arith
step-sent s (mode m) phase e w = refl
step-sent s stop phase e w = refl
step-sent s (database ok) phase e w = refl

aborted_part :
    (phase : Phase) (a : ActiveSequence)
    → fits (part phase) a ≡ true
    → a.seq.aborted ≡ true
    → powers_off phase ≡ false
aborted_part idle a w u = refl
aborted_part begin a w u = refl
aborted_part (reconcile is i) a w u = refl
aborted_part (enter i) a w u = refl
aborted_part (wait i deadline) a w u = refl
aborted_part (wait_pause i deadline) a w u = refl
aborted_part (dispatch i) a w u = refl
aborted_part (running i budget rec tasks) a w u = ground arith
aborted_part after_stages a w u = ground arith
aborted_part post_shutdown_call a w u = refl
aborted_part (settle cs) a w u = refl
aborted_part (settle_wait c deadline cs) a w u = refl
aborted_part (settle_pause c deadline cs) a w u = refl
aborted_part gate a w u = refl
aborted_part gate_pause a w u = refl
aborted_part (wake_next names) a w u = refl
aborted_part (guard_pause n names) a w u = refl
aborted_part (wake_client n names) a w u = refl
aborted_part (wake_dry n names) a w u = refl
aborted_part (wake_attempt n left names) a w u = refl
aborted_part (wake_sent n left names) a w u = refl
aborted_part (wake_poll n left deadline names) a w u = refl
aborted_part (wake_pause n left deadline names) a w u = refl
aborted_part (stagger_pause names) a w u = refl

pub sends_nothing :
    (i : Input) (phase : Phase)
    → powers_off phase ≡ false
    → wakes phase ≡ false
    → sends i phase ≡ false
sends_nothing (advance o) phase u v = ground arith
sends_nothing (client name o) phase u v = u
sends_nothing (tick now) phase u v = refl
sends_nothing (reading key value now) phase u v = refl
sends_nothing (refresh now) phase u v = refl
sends_nothing (probed c p now) phase u v = refl
sends_nothing (abort reason) phase u v = refl
sends_nothing (force reason) phase u v = refl
sends_nothing (mode m) phase u v = refl
sends_nothing stop phase u v = refl
sends_nothing (database ok) phase u v = refl

-- In a sound state whose active sequence is aborted, nothing that happens sends a command to a
-- device, unless it is an attempt to wake a client.
pub aborted_powers_nothing_off :
    (s : Setup) (i : Input) (phase : Phase) (e : Executor) (a : ActiveSequence)
    → sound (phase, e) ≡ true
    → e.active_sequence ≡ some a
    → a.seq.aborted ≡ true
    → wakes phase ≡ false
    → sent (step s i phase e).1.effects ≡ sent e.effects
aborted_powers_nothing_off s i phase e a w u v x =
    step-sent s i phase e
      (sends_nothing i phase (aborted_part phase a (phase_of_active phase e a w u) v) x)
