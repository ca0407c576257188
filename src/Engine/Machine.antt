-- ===== src/Engine/Machine.antt =====
-- The engine as a machine: each input is one thing that happens to the daemon, and a run is a
-- list of them. This puts together the goroutines that `Executor.Start` and `evaluatePolicies`
-- launch and the calls that the API makes.
pub mod Parts
pub mod Steps
pub mod Sound
pub mod Sent
pub mod Quiet
pub mod DryRun
pub mod Paid
pub mod Outlets
pub mod Crossing
pub mod Ponr
pub mod Pins
pub mod Pinned
pub mod Rows
pub mod WakeRows
pub mod Restart
pub mod CalledOff
pub mod Starts
use canarium.Engine.Derived.{refresh_with_derived}
use canarium.Common.{ℕ, String, Bool, true, List, [], ◌∷◌, Option, none, some, if◌then◌else◌}
use canarium.Config.Types.{ClientConfig, StageConfig}
use canarium.Facts.Types.{Value}
use canarium.Facts.Store.{Store, update, refresh_quality}
use canarium.Engine.Types.{Mode, ClientState}
use canarium.Engine.Sequence.{ActiveSequence}
use canarium.Engine.Executor.{Setup, Executor, set_mode, force_stage, abort_sequence}
use canarium.Engine.Phase.{
  go_on, Obs, Phase, idle, begin, reconcile, enter, wait, wait_pause, dispatch, running,
  after_stages, post_shutdown_call, settle, settle_wait, settle_pause, gate, gate_pause, wake_next,
  guard_pause, wake_client, wake_dry, wake_attempt, wake_sent, wake_poll, wake_pause, stagger_pause,
  Result,
}
use canarium.Engine.Abort.{settle_step, settle_wait_step, settle_pause_step}
use canarium.Engine.Stages.{
  stage_at, enter_stage, wait_step, wait_pause_step, dispatch_step, client_step, join_step,
  after_stages_step, post_shutdown_done,
}
use canarium.Engine.Wake.{
  gate_step, gate_pause_step, wake_next_step, guard_pause_step, wake_client_step, wake_dry_step,
  wake_attempt_step, wake_sent_step, wake_poll_step, wake_pause_step, stagger_pause_step,
}
use canarium.Engine.Resume.{execute_sequence, reconcile_step}
use canarium.Engine.Policy.{evaluate_policies, probe_client}

-- The goroutine of the sequence moves.
unfoldable pub sequence_step : Setup → ActiveSequence → Obs → Phase → Executor → Result
unfolding enter_stage wait_step dispatch_step wake_next_step
sequence_step s a o idle e = (idle, e)
sequence_step s a o begin e = execute_sequence a o e
sequence_step s a o (reconcile is i) e = reconcile_step s o is i e
sequence_step s a o (enter i) e =
    go_on (stage_at a i) (after_stages, e) (λ stage. enter_stage s a o i stage e)
sequence_step s a o (wait i deadline) e =
    go_on (stage_at a i) (after_stages, e) (λ stage. wait_step s a o i deadline stage e)
sequence_step s a o (wait_pause i deadline) e = wait_pause_step o i deadline e
sequence_step s a o (dispatch i) e =
    go_on (stage_at a i) (after_stages, e) (λ stage. dispatch_step s a o i stage e)
sequence_step s a o (running i budget rec tasks) e = join_step o i budget rec tasks e
sequence_step s a o after_stages e = after_stages_step s a e
sequence_step s a o post_shutdown_call e = post_shutdown_done a e
sequence_step s a o (settle cs) e = settle_step s a o cs e
sequence_step s a o (settle_wait c deadline cs) e = settle_wait_step o c deadline cs e
sequence_step s a o (settle_pause c deadline cs) e = settle_pause_step a o c deadline cs e
sequence_step s a o gate e = gate_step s a o e
sequence_step s a o gate_pause e = gate_pause_step o e
sequence_step s a o (wake_next names) e = wake_next_step s a o names e
sequence_step s a o (guard_pause name names) e = guard_pause_step o name names e
sequence_step s a o (wake_client name names) e = wake_client_step s a o name names e
sequence_step s a o (wake_dry name names) e = wake_dry_step s a o name names e
sequence_step s a o (wake_attempt name left names) e = wake_attempt_step s name left names e
sequence_step s a o (wake_sent name left names) e = wake_sent_step s a o name left names e
sequence_step s a o (wake_poll name left deadline names) e =
    wake_poll_step s a o name left deadline names e
sequence_step s a o (wake_pause name left deadline names) e =
    wake_pause_step s a o name left deadline names e
sequence_step s a o (stagger_pause names) e = stagger_pause_step o names e

-- The goroutine of one client moves, where a stage is running.
unfoldable pub task_step : Setup → ActiveSequence → Obs → String → Phase → Executor → Result
task_step s a o name (running i budget rec tasks) e = client_step s a o name i budget rec tasks e
task_step s a o name phase e = (phase, e)

pub data Input : Type 0 where
  -- the goroutine of the sequence, or of one client, moves
  advance : Obs → Input
  client : String → Obs → Input
  -- a policy tick, a source's reading, a refresh of freshness and derived facts
  tick : ℕ → Input
  reading : String → Value → ℕ → Input
  refresh : ℕ → Input
  -- the background probe comes back for a client
  probed : ClientConfig → Option ClientState → ℕ → Input
  -- an operator's calls
  abort : String → Input
  force : String → Input
  mode : Mode → Input
  -- the daemon is told to stop; the database fails or recovers
  stop : Input
  database : Bool → Input

unfoldable pub on_store : (Store → Store) → Executor → Executor
on_store f e = record e { evaluator = record (e.evaluator) { store = f e.evaluator.store } }

unfoldable pub step : Setup → Input → Phase → Executor → Result
unfolding on_store
step s (advance o) phase e = go_on e.active_sequence (phase, e) (λ a. sequence_step s a o phase e)
step s (client name o) phase e =
    go_on e.active_sequence (phase, e) (λ a. task_step s a o name phase e)
step s (tick now) phase e =
    let (started, e') = evaluate_policies s now e in (if started then begin else phase, e')
step s (reading key value now) phase e = (phase, on_store (update key value now) e)
step s (refresh now) phase e = (phase, on_store (refresh_with_derived s.cfg.clients now) e)
step s (probed c p now) phase e = (phase, probe_client s c p now e)
step s (abort reason) phase e = (phase, (abort_sequence reason e).0)
step s (force reason) phase e = (phase, (force_stage reason e).0)
step s (mode m) phase e = (phase, set_mode s m e)
step s stop phase e = (phase, record e { stopped = true })
step s (database ok) phase e = (phase, record e { db_ok = ok })

unfoldable pub run : Setup → List Input → Phase → Executor → Result
run s [] phase e = (phase, e)
run s (i ∷ is) phase e = let (phase', e') = step s i phase e in run s is phase' e'
