-- ===== src/Engine/Wake.antt =====
-- Bringing clients back: `runWake`, `wakeClient` and `completeSequence` of
-- internal/engine/sequence_run.go.
pub mod Order
pub mod Guards
pub mod Ends
pub mod Attempts
use canarium.Common.{
  ℕ, suc, zero, String, Bool, true, false, not, ◌&&◌, ◌||◌, List, [], ◌∷◌, Option, none, some, ltb,
  same, is_empty, reverse, if◌then◌else◌,
}
use canarium.Common.Int.{ℤ, pos, negsuc, ltb_ℤ, sub64, time_add}
use canarium.Common.Dict.{lookup}
use canarium.Config.Types.{
  ClientConfig, StageConfig, PlanConfig, WakeConfig, default_stagger, default_guard_period,
  default_boot_deadline,
}
use canarium.Config.Clients.{resolve_client_refs, add_names}
use canarium.State.Types.{SequenceState, completed, aborted, waking}
use canarium.State.Tables.{release_sequence_locks}
use canarium.Engine.Types.{ClientState, up, down_unverified, failed, wake, is_dry_run}
use canarium.Engine.Types as T
use canarium.Engine.Sequence.{ActiveSequence, mark_aborted, mark_completed, set_state, pre_state}
use canarium.Engine.Executor.{
  Transport, Setup, Executor, emit, send, write, save_active, evaluate_now, get_client_state,
  set_client_state, same_state, time_since_settled, clear_active_sequence, find_client_config,
  duration_or, probes,
}
use canarium.Engine.Phase.{
  Obs, Phase, idle, gate, gate_pause, wake_next, guard_pause, wake_client, wake_dry, wake_attempt,
  wake_sent, wake_poll, wake_pause, stagger_pause, Result,
}

-- `releaseSequence`
unfoldable pub release_sequence : ActiveSequence → Executor → Executor
unfolding write clear_active_sequence
release_sequence a e = clear_active_sequence (write (release_sequence_locks a.seq.id) e)

unfoldable pub complete_sequence : ActiveSequence → ℕ → Executor → Result
unfolding emit save_active release_sequence
complete_sequence a now e =
    let final : SequenceState = if a.seq.aborted then aborted else completed in
    let a' = mark_completed final now a in
    (idle, emit "sequence_completed" a.plan.name (release_sequence a' (save_active a' e)))

unfoldable pub add_stages : Setup → List String → List StageConfig → List String
add_stages s order [] = order
add_stages s order (stage ∷ stages) =
    add_stages s (add_names order (resolve_client_refs stage.clients s.cfg)) stages

abbrev pub no_stages : List StageConfig → Bool
no_stages [] = true
no_stages _ = false

unfoldable pub compute_wake_order : Setup → PlanConfig → List String
unfolding add_stages
compute_wake_order s plan =
    if no_stages plan.wake.stages
    then add_stages s [] (reverse plan.shutdown.stages)
    else add_stages s [] plan.wake.stages

unfoldable pub all_up : Executor → List String → Bool
all_up e [] = true
all_up e (name ∷ names) = same_state (get_client_state name e) up && all_up e names

unfoldable pub dependencies_met : Setup → String → Executor → Bool
unfolding all_up
dependencies_met s name e = elim (find_client_config s name) [
  | none ↦ true
  | some c ↦ all_up e c.depends_on
]

unfoldable pub gate_step : Setup → ActiveSequence → Obs → Executor → Result
unfolding complete_sequence save_active emit
gate_step s a o e =
    let (holds, e') = evaluate_now s a.plan.wake.gate o.now e in
    if holds
    then (
      wake_next (compute_wake_order s a.plan),
      save_active (set_state waking a) (emit "wake_gate_satisfied" a.plan.name e'),
    )
    else if a.abort_requested
    then complete_sequence (mark_aborted a) o.now e'
    else (gate_pause, e')

unfoldable pub gate_pause_step : Obs → Executor → Result
gate_pause_step o e =
    if o.timer
    then (gate, e)
    else if e.stopped
    then (idle, clear_active_sequence e)
    else (gate_pause, e)

-- Whether `wake_policy: retain_state` leaves the client as it is.
unfoldable pub retained : ActiveSequence → ClientConfig → Bool
retained a c =
    same c.wake_policy "retain_state"
    && elim (pre_state c.name a) [ none ↦ false | some pre ↦ not (same pre "up") ]

-- What is left of the guard period.
unfoldable pub guard_left : Setup → ClientConfig → ℕ → Executor → ℤ
guard_left s c now e =
    sub64 (duration_or s c.guard_period default_guard_period) (time_since_settled c.name now e)

-- One client's turn in the loop.
unfoldable pub wake_next_step : Setup → ActiveSequence → Obs → List String → Executor → Result
unfolding complete_sequence dependencies_met
wake_next_step s a o [] e = complete_sequence a o.now e
wake_next_step s a o (name ∷ names) e =
    if a.abort_requested
    then complete_sequence (mark_aborted a) o.now e
    else elim (find_client_config s name) [
      | none ↦ (wake_next names, e)
      | some c ↦
          if same_state (get_client_state name e) up || retained a c
          then (wake_next names, e)
          else if not (dependencies_met s name e)
          then (wake_next names, set_client_state name failed o.now e)
          else if same_state (get_client_state name e) down_unverified
              && ltb_ℤ (pos 0) (guard_left s c o.now e)
          then (guard_pause name names, e)
          else (wake_client name names, e)
    ]

unfoldable pub guard_pause_step : Obs → String → List String → Executor → Result
guard_pause_step o name names e =
    if o.timer
    then (wake_client name names, e)
    else if e.stopped
    then (idle, clear_active_sequence e)
    else (guard_pause name names, e)

-- Behind `wakeClient`: the pause between two clients.
unfoldable pub after_client : Setup → ActiveSequence → List String → Phase
after_client s a [] = wake_next []
after_client s a (name ∷ names) =
    if ltb_ℤ (pos 0) (duration_or s a.plan.wake.stagger default_stagger)
    then stagger_pause (name ∷ names)
    else wake_next (name ∷ names)

unfoldable pub stagger_pause_step : Obs → List String → Executor → Result
stagger_pause_step o names e =
    if o.timer
    then (wake_next names, e)
    else if e.stopped
    then (idle, clear_active_sequence e)
    else (stagger_pause names, e)

abbrev wake_transport_or : String → Option WakeConfig → String
wake_transport_or own none = own
wake_transport_or own (some w) = if is_empty w.transport then own else w.transport

unfoldable pub wake_transport : Setup → ClientConfig → Option Transport
wake_transport s c = lookup (wake_transport_or c.transport c.wake) s.transports

-- Retries below zero are none.
abbrev pub retries_of : ℤ → ℕ
retries_of (pos n) = n
retries_of (negsuc _) = 0

unfoldable pub wake_client_step :
    Setup → ActiveSequence → Obs → String → List String → Executor → Result
unfolding after_client wake_transport
wake_client_step s a o name names e = elim (find_client_config s name) [
  | none ↦ (after_client s a names, e)
  | some c ↦ elim (wake_transport s c) [
    | none ↦ (after_client s a names, set_client_state name failed o.now e)
    | some t ↦
        let e' = set_client_state name T.waking o.now e in
        if is_dry_run e.mode
        then (wake_dry name names, e')
        else (wake_attempt name (retries_of a.plan.wake.retries) names, e')
  ]
]

unfoldable pub wake_dry_step :
    Setup → ActiveSequence → Obs → String → List String → Executor → Result
unfolding after_client
wake_dry_step s a o name names e =
    if o.timer || e.stopped
    then (after_client s a names, set_client_state name up o.now e)
    else (wake_dry name names, e)

-- The command, under the name that the transport gives it.
abbrev send_wake : String → Option Transport → Executor → Executor
send_wake name none e = e
send_wake name (some t) e = send name (t.remap wake) e

unfoldable pub wake_attempt_step : Setup → String → ℕ → List String → Executor → Result
unfolding send wake_transport
wake_attempt_step s name left names e = elim (find_client_config s name) [
  | none ↦ (wake_sent name left names, e)
  | some c ↦ (wake_sent name left names, send_wake name (wake_transport s c) e)
]

-- `wakeProbe` gives a probe.
unfoldable pub has_wake_probe : Setup → String → Bool
has_wake_probe s name = elim (find_client_config s name) [
  | none ↦ false
  | some c ↦ probes (lookup c.transport s.transports) || not (is_empty c.address)
]

unfoldable pub wake_sent_step :
    Setup → ActiveSequence → Obs → String → ℕ → List String → Executor → Result
unfolding after_client has_wake_probe
wake_sent_step s a o name left names e =
    if has_wake_probe s name
    then (
      wake_poll name left
          (time_add o.now (duration_or s a.plan.wake.boot_deadline default_boot_deadline)) names,
      e,
    )
    else (after_client s a names, set_client_state name up o.now e)

abbrev pub confirms_up : Option ClientState → Bool
confirms_up (some up) = true
confirms_up _ = false

-- Behind the loop of one attempt.
abbrev next_attempt : Setup → ActiveSequence → ℕ → String → ℕ → List String → Executor → Result
next_attempt s a now name zero names e =
    (after_client s a names, emit "client_wake_failed" name (set_client_state name failed now e))
next_attempt s a now name (suc left) names e = (wake_attempt name left names, e)

unfoldable pub wake_poll_step :
    Setup → ActiveSequence → Obs → String → ℕ → ℕ → List String → Executor → Result
unfolding after_client emit
wake_poll_step s a o name left deadline names e =
    if not (ltb o.now deadline)
    then next_attempt s a o.now name left names e
    else if a.abort_requested
    then (after_client s a names, e)
    else if confirms_up o.probed
    then (
      after_client s a names,
      emit "client_wake_success" name (set_client_state name up o.now e),
    )
    else (wake_pause name left deadline names, e)

unfoldable pub wake_pause_step :
    Setup → ActiveSequence → Obs → String → ℕ → ℕ → List String → Executor → Result
unfolding after_client
wake_pause_step s a o name left deadline names e =
    if o.timer
    then (wake_poll name left deadline names, e)
    else if e.stopped
    then (after_client s a names, e)
    else (wake_pause name left deadline names, e)
