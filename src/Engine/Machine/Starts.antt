-- ===== src/Engine/Machine/Starts.antt =====
-- When a stage starts: `waitForStage` in the whole of a sequence's goroutine
-- (internal/engine/sequence_run.go).
use canarium.Facts.Types.{is_true}
use canarium.Conditions.Evaluator.{evaluate}
use canarium.Config.Types.{StageConfig, ClientConfig}
use canarium.Engine.Executor.{Setup, Executor, evaluate_now}
use canarium.Engine.Abort.{handle_abort, settle_step, settle_wait_step, settle_pause_step}
use canarium.State.Types.{Intent}
use canarium.Engine.Sequence.{ActiveSequence, consume_proceed}
use canarium.Engine.Machine.{sequence_step}
use canarium.Engine.Phase.{
  go_on, Obs, Phase, idle, begin, reconcile, enter, wait, wait_pause, dispatch, running,
  after_stages, post_shutdown_call, settle, settle_wait, settle_pause, gate, gate_pause, wake_next,
  guard_pause, wake_client, wake_dry, wake_attempt, wake_sent, wake_poll, wake_pause, stagger_pause,
}
use canarium.Engine.Resume.{execute_sequence, reconcile_step}
use canarium.Engine.Stages.{
  stage_at, enter_stage, wait_step, wait_pause_step, dispatch_step, join_step, after_stages_step,
  post_shutdown_done, handle_stage_timeout,
}
use canarium.Engine.Wake.{
  gate_step, gate_pause_step, wake_next_step, guard_pause_step, wake_client_step, wake_dry_step,
  wake_attempt_step, wake_sent_step, wake_poll_step, wake_pause_step, stagger_pause_step,
  after_client, complete_sequence,
}
use canarium.Common.{
  get_elem?, ℕ, zero, suc, String, Bool, false, ◌&&◌, ◌||◌, ◌==◌, Option, none, some, List, [], ◌∷◌,
  ◌≡◌, refl, arith,
}

-- The goroutine is at the start of stage `j`.
abbrev pub starts : ℕ → Phase → Bool
starts j (dispatch i) = i == j
starts j _ = false

-- The entry condition of the stage is definitely true, or the operator has forced it.
abbrev pub may_start : Setup → ActiveSequence → Obs → Executor → Option StageConfig → Bool
may_start s a o e none = false
may_start s a o e (some stage) =
    is_true (evaluate s.libs stage.when o.now e.evaluator).0 || a.proceed_requested

-- The goroutine waits before stage `j`, which may start.
abbrev pub is_due : Setup → ActiveSequence → Obs → Executor → ℕ → Phase → Bool
is_due s a o e j (wait i deadline) =
    i == j && may_start s a o e (get_elem? a.plan.shutdown.stages i)
is_due s a o e j _ = false

wait_step-starts :
    (s : Setup) (a : ActiveSequence) (o : Obs) (i j deadline : ℕ) (stage : StageConfig)
    (e : Executor)
    → starts j (wait_step s a o i deadline stage e).0 ≡ i == j && may_start s a o e (some stage)
unfolding wait_step handle_abort handle_stage_timeout consume_proceed evaluate_now
wait_step-starts s a o i j deadline stage e = ground arith

waits :
    (s : Setup) (a : ActiveSequence) (o : Obs) (i j deadline : ℕ) (e : Executor)
    (stage : Option StageConfig)
    → starts j (go_on stage (after_stages, e) (λ st. wait_step s a o i deadline st e)).0
      ≡ i == j && may_start s a o e stage
waits s a o i j deadline e none = ground arith
waits s a o i j deadline e (some stage) = wait_step-starts s a o i j deadline stage e

enter_stage-starts :
    (s : Setup) (a : ActiveSequence) (o : Obs) (i j : ℕ) (stage : Option StageConfig) (e : Executor)
    → starts j (go_on stage (after_stages, e) (λ st. enter_stage s a o i st e)).0 ≡ false
unfolding enter_stage handle_abort
enter_stage-starts s a o i j none e = refl
enter_stage-starts s a o i j (some stage) e = ground arith

dispatch_step-starts :
    (s : Setup) (a : ActiveSequence) (o : Obs) (i j : ℕ) (stage : Option StageConfig) (e : Executor)
    → starts j (go_on stage (after_stages, e) (λ st. dispatch_step s a o i st e)).0 ≡ false
unfolding dispatch_step
dispatch_step-starts s a o i j none e = refl
dispatch_step-starts s a o i j (some stage) e = ground arith

after_client-starts :
    (s : Setup) (a : ActiveSequence) (j : ℕ) (names : List String)
    → starts j (after_client s a names) ≡ false
unfolding after_client
after_client-starts s a j [] = refl
after_client-starts s a j (name ∷ names) = ground arith

poll-starts :
    (s : Setup) (a : ActiveSequence) (o : Obs) (j left deadline : ℕ) (name : String)
    (names : List String) (e : Executor)
    → starts j (wake_poll_step s a o name left deadline names e).0 ≡ false
unfolding wake_poll_step
poll-starts s a o j zero deadline name names e = ground (arith, after_client-starts s a j names)
poll-starts s a o j (suc left) deadline name names e =
    ground (arith, after_client-starts s a j names)

settle_step-starts :
    (s : Setup) (a : ActiveSequence) (o : Obs) (j : ℕ) (cs : List ClientConfig) (e : Executor)
    → starts j (settle_step s a o cs e).0 ≡ false
unfolding settle_step
settle_step-starts s a o j [] e = ground arith
settle_step-starts s a o j (c ∷ cs) e = ground arith

wake_next_step-starts :
    (s : Setup) (a : ActiveSequence) (o : Obs) (j : ℕ) (names : List String) (e : Executor)
    → starts j (wake_next_step s a o names e).0 ≡ false
unfolding wake_next_step complete_sequence
wake_next_step-starts s a o j [] e = ground arith
wake_next_step-starts s a o j (name ∷ names) e = ground arith

reconcile_step-starts :
    (s : Setup) (o : Obs) (j i : ℕ) (is : List Intent) (e : Executor)
    → starts j (reconcile_step s o is i e).0 ≡ false
unfolding reconcile_step
reconcile_step-starts s o j i [] e = refl
reconcile_step-starts s o j i (intent ∷ is) e = ground arith

-- A step of the sequence's goroutine leads to the start of a stage exactly if it waited before that
-- stage, and the stage's entry condition is definitely true at that look, or the operator has forced
-- it: no timeout, no unavailable reading, no abort and no other phase starts one.
pub stage_starts_when_met :
    (s : Setup) (a : ActiveSequence) (o : Obs) (j : ℕ) (phase : Phase) (e : Executor)
    → starts j (sequence_step s a o phase e).0 ≡ is_due s a o e j phase
unfolding sequence_step execute_sequence wait_pause_step join_step after_stages_step
    post_shutdown_done settle_wait_step settle_pause_step gate_step gate_pause_step guard_pause_step
    wake_client_step wake_dry_step wake_attempt_step wake_sent_step wake_pause_step
    stagger_pause_step complete_sequence
stage_starts_when_met s a o j idle e = ground arith
stage_starts_when_met s a o j begin e = ground arith
stage_starts_when_met s a o j (reconcile is i) e = reconcile_step-starts s o j i is e
stage_starts_when_met s a o j (enter i) e = enter_stage-starts s a o i j (stage_at a i) e
stage_starts_when_met s a o j (wait i deadline) e = waits s a o i j deadline e (stage_at a i)
stage_starts_when_met s a o j (wait_pause i deadline) e = ground arith
stage_starts_when_met s a o j (dispatch i) e = dispatch_step-starts s a o i j (stage_at a i) e
stage_starts_when_met s a o j (running i budget rec tasks) e = ground arith
stage_starts_when_met s a o j after_stages e = ground arith
stage_starts_when_met s a o j post_shutdown_call e = ground arith
stage_starts_when_met s a o j (settle cs) e = settle_step-starts s a o j cs e
stage_starts_when_met s a o j (settle_wait c deadline cs) e = ground arith
stage_starts_when_met s a o j (settle_pause c deadline cs) e = ground arith
stage_starts_when_met s a o j gate e = ground arith
stage_starts_when_met s a o j gate_pause e = ground arith
stage_starts_when_met s a o j (wake_next names) e = wake_next_step-starts s a o j names e
stage_starts_when_met s a o j (guard_pause name names) e = ground arith
stage_starts_when_met s a o j (wake_client name names) e =
    ground (arith, after_client-starts s a j names)
stage_starts_when_met s a o j (wake_dry name names) e =
    ground (arith, after_client-starts s a j names)
stage_starts_when_met s a o j (wake_attempt name left names) e = ground arith
stage_starts_when_met s a o j (wake_sent name left names) e =
    ground (arith, after_client-starts s a j names)
stage_starts_when_met s a o j (wake_poll name left deadline names) e =
    poll-starts s a o j left deadline name names e
stage_starts_when_met s a o j (wake_pause name left deadline names) e =
    ground (arith, after_client-starts s a j names)
stage_starts_when_met s a o j (stagger_pause names) e = ground arith
