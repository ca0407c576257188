-- ===== src/Engine/Machine/Paid.antt =====
-- How often the machine of internal/engine cuts the outlets, against how often a sequence starts.
use canarium.Config.Types.{StageConfig, ClientConfig}
use canarium.State.Types.{StageRecord, Intent}
use canarium.Engine.Wake.{
  release_sequence, complete_sequence, wake_dry_step, wake_next_step, wake_client_step,
  wake_sent_step, wake_poll_step, wake_attempt_step, gate_step, wake_pause_step,
}
use canarium.Engine.Sequence.{
  set_held_stage, consume_proceed, mark_aborted, set_current_stage, mark_completed,
  set_config_snapshot, cross_ponr, mark_post_shutdown_run, set_resolved_addrs, set_state,
  ActiveSequence,
}
use canarium.Engine.Stages.{
  handle_stage_timeout, execute_post_shutdown, begin_stage, join_step, enter_stage,
  after_stages_step, dispatch_step, wait_step,
}
use canarium.Engine.Resume.{reconcile_client, execute_sequence, reconcile_step}
use canarium.Engine.Executor.{
  outlet, command, Setup, send, clear_active_sequence, set_client_state, emit, write, save_active,
  evaluate_now, event, Effect, Executor,
}
use canarium.Engine.Abort.{
  handle_abort, should_abort, settle_step, settle_pause_step, settle_wait_step,
}
use canarium.Common.{
  ℕ, zero, suc, ◌+◌, ◌≤◌, String, same, List, [], ◌∷◌, Option, none, some, ◌≡◌, arith,
  if◌then◌else◌,
}
use canarium.Common.Dict.{Dict}
use canarium.Common.Int.{ℤ}
use canarium.Engine.Phase.{Task, Obs}

-- The commands of post-shutdown, the sequences that a trigger started, and whether the active one
-- has post-shutdown ahead of it.
unfoldable pub outlets : List Effect → ℕ
outlets [] = 0
outlets (event _ _ ∷ es) = outlets es
outlets (command _ _ _ ∷ es) = outlets es
outlets (outlet _ ∷ es) = suc (outlets es)

unfoldable pub triggers : List Effect → ℕ
triggers [] = 0
triggers (event type _ ∷ es) = if same type "trigger" then suc (triggers es) else triggers es
triggers (_ ∷ es) = triggers es

abbrev pub ahead : Option ActiveSequence → ℕ
ahead none = 0
ahead (some a) = if a.seq.post_shutdown_run then 0 else 1

-- With `k` sequences beside those triggered.
abbrev pub Paid : ℕ → Executor → Type 0
Paid k e = outlets e.effects + ahead e.active_sequence ≤ k + triggers e.effects

module _ (k : ℕ) where
  pub execute_sequence-Paid :
      (a : ActiveSequence) (o : Obs) (e : Executor)
      → e.active_sequence ≡ some a
      → outlets e.effects + ahead e.active_sequence ≤ k + triggers e.effects
      → outlets (execute_sequence a o e).1.effects
          + ahead (execute_sequence a o e).1.active_sequence
        ≤ k + triggers (execute_sequence a o e).1.effects
  unfolding execute_sequence evaluate_now save_active write emit set_client_state
      clear_active_sequence outlets triggers set_resolved_addrs set_config_snapshot
  execute_sequence-Paid a o e u w = ground arith

  pub enter_stage-Paid :
      (s : Setup) (a : ActiveSequence) (o : Obs) (i : ℕ) (stage : StageConfig) (e : Executor)
      → e.active_sequence ≡ some a
      → outlets e.effects + ahead e.active_sequence ≤ k + triggers e.effects
      → outlets (enter_stage s a o i stage e).1.effects
          + ahead (enter_stage s a o i stage e).1.active_sequence
        ≤ k + triggers (enter_stage s a o i stage e).1.effects
  unfolding enter_stage evaluate_now save_active write emit set_client_state clear_active_sequence
      outlets triggers should_abort handle_abort set_current_stage mark_aborted set_state
  enter_stage-Paid s a o i stage e u w = ground arith

  pub wait_step-Paid :
      (s : Setup) (a : ActiveSequence) (o : Obs) (i deadline : ℕ) (stage : StageConfig)
      (e : Executor)
      → e.active_sequence ≡ some a
      → outlets e.effects + ahead e.active_sequence ≤ k + triggers e.effects
      → outlets (wait_step s a o i deadline stage e).1.effects
          + ahead (wait_step s a o i deadline stage e).1.active_sequence
        ≤ k + triggers (wait_step s a o i deadline stage e).1.effects
  unfolding wait_step evaluate_now save_active write emit set_client_state clear_active_sequence
      outlets triggers should_abort handle_abort set_current_stage mark_aborted set_state
      consume_proceed set_held_stage handle_stage_timeout
  wait_step-Paid s a o i deadline stage e u w = ground arith

  pub dispatch_step-Paid :
      (s : Setup) (a : ActiveSequence) (o : Obs) (i : ℕ) (stage : StageConfig) (e : Executor)
      → e.active_sequence ≡ some a
      → outlets e.effects + ahead e.active_sequence ≤ k + triggers e.effects
      → outlets (dispatch_step s a o i stage e).1.effects
          + ahead (dispatch_step s a o i stage e).1.active_sequence
        ≤ k + triggers (dispatch_step s a o i stage e).1.effects
  unfolding dispatch_step evaluate_now save_active write emit set_client_state clear_active_sequence
      outlets triggers begin_stage cross_ponr
  dispatch_step-Paid s a o i stage e u w = ground arith

  pub after_stages_step-Paid :
      (s : Setup) (a : ActiveSequence) (e : Executor)
      → e.active_sequence ≡ some a
      → outlets e.effects + ahead e.active_sequence ≤ k + triggers e.effects
      → outlets (after_stages_step s a e).1.effects
          + ahead (after_stages_step s a e).1.active_sequence
        ≤ k + triggers (after_stages_step s a e).1.effects
  unfolding after_stages_step evaluate_now save_active write emit set_client_state
      clear_active_sequence outlets triggers execute_post_shutdown mark_post_shutdown_run set_state
  after_stages_step-Paid s a e u w = ground arith

  pub reconcile_step-Paid :
      (s : Setup) (a : ActiveSequence) (o : Obs) (is : List Intent) (i : ℕ) (e : Executor)
      → e.active_sequence ≡ some a
      → outlets e.effects + ahead e.active_sequence ≤ k + triggers e.effects
      → outlets (reconcile_step s o is i e).1.effects
          + ahead (reconcile_step s o is i e).1.active_sequence
        ≤ k + triggers (reconcile_step s o is i e).1.effects
  unfolding reconcile_step evaluate_now save_active write emit set_client_state
      clear_active_sequence outlets triggers reconcile_client
  reconcile_step-Paid s a o [] i e u w = ground arith
  reconcile_step-Paid s a o (j ∷ is) i e u w = ground arith

  pub join_step-Paid :
      (a : ActiveSequence) (o : Obs) (i : ℕ) (budget : ℤ) (rec : StageRecord) (tasks : Dict Task)
      (e : Executor)
      → e.active_sequence ≡ some a
      → outlets e.effects + ahead e.active_sequence ≤ k + triggers e.effects
      → outlets (join_step o i budget rec tasks e).1.effects
          + ahead (join_step o i budget rec tasks e).1.active_sequence
        ≤ k + triggers (join_step o i budget rec tasks e).1.effects
  unfolding join_step evaluate_now save_active write emit set_client_state clear_active_sequence
      outlets triggers
  join_step-Paid a o i budget rec tasks e u w = ground arith

  pub settle_step-Paid :
      (s : Setup) (a : ActiveSequence) (o : Obs) (cs : List ClientConfig) (e : Executor)
      → e.active_sequence ≡ some a
      → outlets e.effects + ahead e.active_sequence ≤ k + triggers e.effects
      → outlets (settle_step s a o cs e).1.effects
          + ahead (settle_step s a o cs e).1.active_sequence
        ≤ k + triggers (settle_step s a o cs e).1.effects
  unfolding settle_step evaluate_now save_active write emit set_client_state clear_active_sequence
      outlets triggers set_state
  settle_step-Paid s a o [] e u w = ground arith
  settle_step-Paid s a o (c ∷ cs) e u w = ground arith

  pub settle_wait_step-Paid :
      (a : ActiveSequence) (o : Obs) (c : ClientConfig) (deadline : ℕ) (cs : List ClientConfig)
      (e : Executor)
      → e.active_sequence ≡ some a
      → outlets e.effects + ahead e.active_sequence ≤ k + triggers e.effects
      → outlets (settle_wait_step o c deadline cs e).1.effects
          + ahead (settle_wait_step o c deadline cs e).1.active_sequence
        ≤ k + triggers (settle_wait_step o c deadline cs e).1.effects
  unfolding settle_wait_step evaluate_now save_active write emit set_client_state
      clear_active_sequence outlets triggers
  settle_wait_step-Paid a o c deadline cs e u w = ground arith

  pub settle_pause_step-Paid :
      (a : ActiveSequence) (o : Obs) (c : ClientConfig) (deadline : ℕ) (cs : List ClientConfig)
      (e : Executor)
      → e.active_sequence ≡ some a
      → outlets e.effects + ahead e.active_sequence ≤ k + triggers e.effects
      → outlets (settle_pause_step a o c deadline cs e).1.effects
          + ahead (settle_pause_step a o c deadline cs e).1.active_sequence
        ≤ k + triggers (settle_pause_step a o c deadline cs e).1.effects
  unfolding settle_pause_step evaluate_now save_active write emit set_client_state
      clear_active_sequence outlets triggers set_state
  settle_pause_step-Paid a o c deadline cs e u w = ground arith

  pub gate_step-Paid :
      (s : Setup) (a : ActiveSequence) (o : Obs) (e : Executor)
      → e.active_sequence ≡ some a
      → outlets e.effects + ahead e.active_sequence ≤ k + triggers e.effects
      → outlets (gate_step s a o e).1.effects + ahead (gate_step s a o e).1.active_sequence
        ≤ k + triggers (gate_step s a o e).1.effects
  unfolding gate_step evaluate_now save_active write emit set_client_state clear_active_sequence
      outlets triggers complete_sequence release_sequence set_state mark_completed mark_aborted
  gate_step-Paid s a o e u w = ground arith

  pub wake_next_step-Paid :
      (s : Setup) (a : ActiveSequence) (o : Obs) (names : List String) (e : Executor)
      → e.active_sequence ≡ some a
      → outlets e.effects + ahead e.active_sequence ≤ k + triggers e.effects
      → outlets (wake_next_step s a o names e).1.effects
          + ahead (wake_next_step s a o names e).1.active_sequence
        ≤ k + triggers (wake_next_step s a o names e).1.effects
  unfolding wake_next_step evaluate_now save_active write emit set_client_state
      clear_active_sequence outlets triggers complete_sequence release_sequence mark_completed
      mark_aborted
  wake_next_step-Paid s a o [] e u w = ground arith
  wake_next_step-Paid s a o (name ∷ names) e u w = ground arith

  pub wake_client_step-Paid :
      (s : Setup) (a : ActiveSequence) (o : Obs) (name : String) (names : List String)
      (e : Executor)
      → e.active_sequence ≡ some a
      → outlets e.effects + ahead e.active_sequence ≤ k + triggers e.effects
      → outlets (wake_client_step s a o name names e).1.effects
          + ahead (wake_client_step s a o name names e).1.active_sequence
        ≤ k + triggers (wake_client_step s a o name names e).1.effects
  unfolding wake_client_step evaluate_now save_active write emit set_client_state
      clear_active_sequence outlets triggers
  wake_client_step-Paid s a o name names e u w = ground arith

  pub wake_dry_step-Paid :
      (s : Setup) (a : ActiveSequence) (o : Obs) (name : String) (names : List String)
      (e : Executor)
      → e.active_sequence ≡ some a
      → outlets e.effects + ahead e.active_sequence ≤ k + triggers e.effects
      → outlets (wake_dry_step s a o name names e).1.effects
          + ahead (wake_dry_step s a o name names e).1.active_sequence
        ≤ k + triggers (wake_dry_step s a o name names e).1.effects
  unfolding wake_dry_step evaluate_now save_active write emit set_client_state clear_active_sequence
      outlets triggers
  wake_dry_step-Paid s a o name names e u w = ground arith

  pub wake_attempt_step-Paid :
      (s : Setup) (a : ActiveSequence) (name : String) (left : ℕ) (names : List String)
      (e : Executor)
      → e.active_sequence ≡ some a
      → outlets e.effects + ahead e.active_sequence ≤ k + triggers e.effects
      → outlets (wake_attempt_step s name left names e).1.effects
          + ahead (wake_attempt_step s name left names e).1.active_sequence
        ≤ k + triggers (wake_attempt_step s name left names e).1.effects
  unfolding wake_attempt_step evaluate_now save_active write emit set_client_state
      clear_active_sequence outlets triggers send
  wake_attempt_step-Paid s a name left names e u w = ground arith

  pub wake_sent_step-Paid :
      (s : Setup) (a : ActiveSequence) (o : Obs) (name : String) (left : ℕ) (names : List String)
      (e : Executor)
      → e.active_sequence ≡ some a
      → outlets e.effects + ahead e.active_sequence ≤ k + triggers e.effects
      → outlets (wake_sent_step s a o name left names e).1.effects
          + ahead (wake_sent_step s a o name left names e).1.active_sequence
        ≤ k + triggers (wake_sent_step s a o name left names e).1.effects
  unfolding wake_sent_step evaluate_now save_active write emit set_client_state
      clear_active_sequence outlets triggers
  wake_sent_step-Paid s a o name left names e u w = ground arith

  pub wake_poll_step-Paid :
      (s : Setup) (a : ActiveSequence) (o : Obs) (name : String) (left deadline : ℕ)
      (names : List String) (e : Executor)
      → e.active_sequence ≡ some a
      → outlets e.effects + ahead e.active_sequence ≤ k + triggers e.effects
      → outlets (wake_poll_step s a o name left deadline names e).1.effects
          + ahead (wake_poll_step s a o name left deadline names e).1.active_sequence
        ≤ k + triggers (wake_poll_step s a o name left deadline names e).1.effects
  unfolding wake_poll_step evaluate_now save_active write emit set_client_state
      clear_active_sequence outlets triggers
  wake_poll_step-Paid s a o name zero deadline names e u w = ground arith
  wake_poll_step-Paid s a o name (suc left) deadline names e u w = ground arith

  pub wake_pause_step-Paid :
      (s : Setup) (a : ActiveSequence) (o : Obs) (name : String) (left deadline : ℕ)
      (names : List String) (e : Executor)
      → e.active_sequence ≡ some a
      → outlets e.effects + ahead e.active_sequence ≤ k + triggers e.effects
      → outlets (wake_pause_step s a o name left deadline names e).1.effects
          + ahead (wake_pause_step s a o name left deadline names e).1.active_sequence
        ≤ k + triggers (wake_pause_step s a o name left deadline names e).1.effects
  unfolding wake_pause_step evaluate_now save_active write emit set_client_state
      clear_active_sequence outlets triggers
  wake_pause_step-Paid s a o name left deadline names e u w = ground arith
