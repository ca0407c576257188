-- ===== src/Engine/Abort.antt =====
-- Stopping a sequence: `shouldAbort`, `handleAbort` and `waitForShuttingDown` of
-- internal/engine/sequence_run.go.
use canarium.Common.{ℕ, Bool, true, false, List, [], ◌∷◌, none, some, ltb, not, ◌||◌, if◌then◌else◌}
use canarium.Common.Int.{time_add}
use canarium.Config.Types.{ClientConfig, default_shutdown_budget}
use canarium.State.Types.{aborting, wake_gate}
use canarium.Engine.Types.{ClientState, shutting_down, down, down_unverified, failed}
use canarium.Engine.Sequence.{ActiveSequence, mark_aborted, set_state}
use canarium.Engine.Executor.{
  Setup, Executor, emit, save_active, evaluate_now, get_client_state, set_client_state, same_state,
  duration_or,
}
use canarium.Engine.Phase.{Obs, settle, settle_wait, settle_pause, gate, Result}

unfoldable pub should_abort : Setup → ActiveSequence → ℕ → Executor → Bool × Executor
should_abort s a now e =
    if a.seq.ponr_crossed
    then (false, e)
    else if a.abort_requested
    then (true, e)
    else elim a.plan.abort [ none ↦ (false, e) | some c ↦ evaluate_now s c now e ]

unfoldable pub handle_abort : Setup → ActiveSequence → Executor → Result
unfolding emit save_active
handle_abort s a e = (
  settle s.cfg.clients,
  emit "abort" a.plan.name (save_active (mark_aborted (set_state aborting a)) e),
)

-- The states that end the wait for a client.
abbrev pub settled : ClientState → Bool
settled down = true
settled down_unverified = true
settled failed = true
settled _ = false

-- Behind the loop for one client.
abbrev give_up : ClientConfig → ℕ → Executor → Executor
give_up c now e =
    if same_state (get_client_state c.name e) shutting_down
    then set_client_state c.name down_unverified now e
    else e

-- To the wake gate.
abbrev pub hand_over : ActiveSequence → Executor → Result
hand_over a e = (gate, save_active (set_state wake_gate a) e)

unfoldable pub settle_step : Setup → ActiveSequence → Obs → List ClientConfig → Executor → Result
unfolding save_active
settle_step s a o [] e = hand_over a e
settle_step s a o (c ∷ cs) e =
    if same_state (get_client_state c.name e) shutting_down
    then (
      settle_wait c (time_add o.now (duration_or s c.shutdown_budget default_shutdown_budget)) cs,
      e,
    )
    else (settle cs, e)

unfoldable pub settle_wait_step : Obs → ClientConfig → ℕ → List ClientConfig → Executor → Result
settle_wait_step o c deadline cs e =
    if not (ltb o.now deadline) || settled (get_client_state c.name e)
    then (settle cs, give_up c o.now e)
    else (settle_pause c deadline cs, e)

-- A daemon that stops ends the whole wait, and the caller goes on.
unfoldable pub settle_pause_step :
    ActiveSequence → Obs → ClientConfig → ℕ → List ClientConfig → Executor → Result
unfolding save_active
settle_pause_step a o c deadline cs e =
    if o.timer
    then (settle_wait c deadline cs, e)
    else if e.stopped
    then hand_over a e
    else (settle_pause c deadline cs, e)
