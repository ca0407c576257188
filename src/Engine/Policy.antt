-- ===== src/Engine/Policy.antt =====
-- The policy tick and the background probe of internal/engine/executor.go.
pub mod Starts
pub mod Arming
use canarium.Common.{
  ◌||◌, ℕ, String, Bool, true, false, not, List, [], ◌∷◌, Option, none, some, is_some,
  if◌then◌else◌,
}
use canarium.Common.Dict.{lookup, insert, erase}
use canarium.Config.Types.{ClientConfig, PlanConfig}
use canarium.Engine.Types.{ClientState, up, shutting_down, down, waking, Mode, is_disarmed}
use canarium.Engine.Executor.{
  Setup, Executor, emit, evaluate_now, get_client_state, set_client_state, set_active_sequence,
  same_state, probes,
}
use canarium.Engine.Resume.{new_sequence_for}

unfoldable pub note_would_trigger : String → Bool → Executor → Executor
unfolding emit
note_would_trigger plan triggered e =
    if triggered
    then note_episode (record e { would_trigger = insert plan true e.would_trigger })
    else record e { would_trigger = erase plan e.would_trigger }
  where
    note_episode : Executor → Executor
    note_episode e' =
        if is_some (lookup plan e.would_trigger) then e' else emit "would_trigger" plan e'

-- The loop over the plans, and whether it starts a sequence. The mode is read before the loop.
unfoldable pub evaluate_plans : Setup → Mode → ℕ → List PlanConfig → Executor → Bool × Executor
unfolding note_would_trigger new_sequence_for set_active_sequence emit
evaluate_plans s mode now [] e = (false, e)
evaluate_plans s mode now (plan ∷ plans) e =
    let (triggered, e1) = evaluate_now s plan.trigger now e in
    let passed_over =
      evaluate_plans s mode now plans
        (if is_disarmed mode then note_would_trigger plan.name triggered e1 else e1) in
    if is_some e.active_sequence
    then (false, e)
    else if is_disarmed mode || not triggered
    then passed_over
    else (
      true,
      emit "trigger" plan.name (set_active_sequence (new_sequence_for s plan now e1) e1).0,
    )

unfoldable pub evaluate_policies : Setup → ℕ → Executor → Bool × Executor
unfolding evaluate_plans
evaluate_policies s now e = evaluate_plans s e.mode now s.cfg.plans e

-- What the recorded state and a probe's answer make of a client.
unfoldable pub apply_probe : String → ClientState → ClientState → ℕ → Executor → Executor
apply_probe name shutting_down down now e = set_client_state name down now e
apply_probe name shutting_down _ now e = e
apply_probe name waking up now e = set_client_state name up now e
apply_probe name waking _ now e = e
apply_probe name current probed now e =
    if same_state probed current then e else set_client_state name probed now e

-- A probe that established nothing leaves the recorded state alone.
abbrev take_answer : String → Option ClientState → ℕ → Executor → Executor
take_answer name none now e = e
take_answer name (some p) now e = apply_probe name (get_client_state name e) p now e

-- One client's turn in `probeAllClients`.
unfoldable pub probe_client : Setup → ClientConfig → Option ClientState → ℕ → Executor → Executor
unfolding apply_probe
probe_client s c probed now e =
    if probes (lookup c.transport s.transports) then take_answer c.name probed now e else e
