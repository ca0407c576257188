-- ===== src/Engine/Machine/Pins.antt =====
-- What each step of internal/engine leaves of the addresses that a sequence has pinned.
use canarium.State.Types.{ResolvedAddr, StageRecord, Intent}
use canarium.Engine.Executor.{
  Executor, Setup, send, clear_active_sequence, set_client_state, emit, write, save_active,
  evaluate_now,
}
use canarium.Engine.Sequence.{
  set_held_stage, consume_proceed, mark_aborted, mark_completed, set_current_stage, cross_ponr,
  mark_post_shutdown_run, set_state, ActiveSequence,
}
use canarium.Config.Types.{ClientConfig, StageConfig}
use canarium.Engine.Resume.{reconcile_client, reconcile_step}
use canarium.Engine.Stages.{
  handle_stage_timeout, execute_post_shutdown, begin_stage, wait_step, join_step, dispatch_step,
  enter_stage, after_stages_step,
}
use canarium.Engine.Abort.{
  handle_abort, should_abort, settle_step, settle_wait_step, settle_pause_step,
}
use canarium.Engine.Wake.{
  release_sequence, complete_sequence, wake_pause_step, wake_poll_step, wake_dry_step,
  wake_next_step, wake_client_step, gate_step, wake_attempt_step, wake_sent_step,
}
use canarium.Common.{ℕ, zero, suc, String, List, [], ◌∷◌, Option, none, some, ◌≡◌, arith}
use canarium.Common.Dict.{Dict}
use canarium.Common.Int.{ℤ}
use canarium.Engine.Phase.{Task, Obs}

-- The addresses of the active sequence; where none is left, those that `a` had.
abbrev pub pins : ActiveSequence → Option ActiveSequence → Dict ResolvedAddr
pins a none = a.seq.resolved_addrs
pins a (some b) = b.seq.resolved_addrs

pub enter_stage-pins :
    (s : Setup) (a : ActiveSequence) (o : Obs) (i : ℕ) (stage : StageConfig) (e : Executor)
    → e.active_sequence ≡ some a
    → pins a (enter_stage s a o i stage e).1.active_sequence ≡ a.seq.resolved_addrs
unfolding enter_stage evaluate_now save_active write emit set_client_state clear_active_sequence
    should_abort handle_abort set_current_stage mark_aborted set_state
enter_stage-pins s a o i stage e u = ground arith

pub wait_step-pins :
    (s : Setup) (a : ActiveSequence) (o : Obs) (i deadline : ℕ) (stage : StageConfig) (e : Executor)
    → e.active_sequence ≡ some a
    → pins a (wait_step s a o i deadline stage e).1.active_sequence ≡ a.seq.resolved_addrs
unfolding wait_step evaluate_now save_active write emit set_client_state clear_active_sequence
    should_abort handle_abort set_current_stage mark_aborted set_state consume_proceed
    set_held_stage handle_stage_timeout
wait_step-pins s a o i deadline stage e u = ground arith

pub dispatch_step-pins :
    (s : Setup) (a : ActiveSequence) (o : Obs) (i : ℕ) (stage : StageConfig) (e : Executor)
    → e.active_sequence ≡ some a
    → pins a (dispatch_step s a o i stage e).1.active_sequence ≡ a.seq.resolved_addrs
unfolding dispatch_step evaluate_now save_active write emit set_client_state clear_active_sequence
    begin_stage cross_ponr
dispatch_step-pins s a o i stage e u = ground arith

pub after_stages_step-pins :
    (s : Setup) (a : ActiveSequence) (e : Executor)
    → e.active_sequence ≡ some a
    → pins a (after_stages_step s a e).1.active_sequence ≡ a.seq.resolved_addrs
unfolding after_stages_step evaluate_now save_active write emit set_client_state
    clear_active_sequence execute_post_shutdown mark_post_shutdown_run set_state
after_stages_step-pins s a e u = ground arith

pub reconcile_step-pins :
    (s : Setup) (a : ActiveSequence) (o : Obs) (is : List Intent) (i : ℕ) (e : Executor)
    → e.active_sequence ≡ some a
    → pins a (reconcile_step s o is i e).1.active_sequence ≡ a.seq.resolved_addrs
unfolding reconcile_step evaluate_now save_active write emit set_client_state clear_active_sequence
    reconcile_client
reconcile_step-pins s a o [] i e u = ground arith
reconcile_step-pins s a o (j ∷ is) i e u = ground arith

pub join_step-pins :
    (a : ActiveSequence) (o : Obs) (i : ℕ) (budget : ℤ) (rec : StageRecord) (tasks : Dict Task)
    (e : Executor)
    → e.active_sequence ≡ some a
    → pins a (join_step o i budget rec tasks e).1.active_sequence ≡ a.seq.resolved_addrs
unfolding join_step evaluate_now save_active write emit set_client_state clear_active_sequence
join_step-pins a o i budget rec tasks e u = ground arith

pub settle_step-pins :
    (s : Setup) (a : ActiveSequence) (o : Obs) (cs : List ClientConfig) (e : Executor)
    → e.active_sequence ≡ some a
    → pins a (settle_step s a o cs e).1.active_sequence ≡ a.seq.resolved_addrs
unfolding settle_step evaluate_now save_active write emit set_client_state clear_active_sequence
    set_state
settle_step-pins s a o [] e u = ground arith
settle_step-pins s a o (c ∷ cs) e u = ground arith

pub settle_wait_step-pins :
    (a : ActiveSequence) (o : Obs) (c : ClientConfig) (deadline : ℕ) (cs : List ClientConfig)
    (e : Executor)
    → e.active_sequence ≡ some a
    → pins a (settle_wait_step o c deadline cs e).1.active_sequence ≡ a.seq.resolved_addrs
unfolding settle_wait_step evaluate_now save_active write emit set_client_state
    clear_active_sequence
settle_wait_step-pins a o c deadline cs e u = ground arith

pub settle_pause_step-pins :
    (a : ActiveSequence) (o : Obs) (c : ClientConfig) (deadline : ℕ) (cs : List ClientConfig)
    (e : Executor)
    → e.active_sequence ≡ some a
    → pins a (settle_pause_step a o c deadline cs e).1.active_sequence ≡ a.seq.resolved_addrs
unfolding settle_pause_step evaluate_now save_active write emit set_client_state
    clear_active_sequence set_state
settle_pause_step-pins a o c deadline cs e u = ground arith

pub gate_step-pins :
    (s : Setup) (a : ActiveSequence) (o : Obs) (e : Executor)
    → e.active_sequence ≡ some a
    → pins a (gate_step s a o e).1.active_sequence ≡ a.seq.resolved_addrs
unfolding gate_step evaluate_now save_active write emit set_client_state clear_active_sequence
    complete_sequence release_sequence set_state mark_completed mark_aborted
gate_step-pins s a o e u = ground arith

pub wake_next_step-pins :
    (s : Setup) (a : ActiveSequence) (o : Obs) (names : List String) (e : Executor)
    → e.active_sequence ≡ some a
    → pins a (wake_next_step s a o names e).1.active_sequence ≡ a.seq.resolved_addrs
unfolding wake_next_step evaluate_now save_active write emit set_client_state clear_active_sequence
    complete_sequence release_sequence mark_completed mark_aborted
wake_next_step-pins s a o [] e u = ground arith
wake_next_step-pins s a o (name ∷ names) e u = ground arith

pub wake_client_step-pins :
    (s : Setup) (a : ActiveSequence) (o : Obs) (name : String) (names : List String) (e : Executor)
    → e.active_sequence ≡ some a
    → pins a (wake_client_step s a o name names e).1.active_sequence ≡ a.seq.resolved_addrs
unfolding wake_client_step evaluate_now save_active write emit set_client_state
    clear_active_sequence
wake_client_step-pins s a o name names e u = ground arith

pub wake_dry_step-pins :
    (s : Setup) (a : ActiveSequence) (o : Obs) (name : String) (names : List String) (e : Executor)
    → e.active_sequence ≡ some a
    → pins a (wake_dry_step s a o name names e).1.active_sequence ≡ a.seq.resolved_addrs
unfolding wake_dry_step evaluate_now save_active write emit set_client_state clear_active_sequence
wake_dry_step-pins s a o name names e u = ground arith

pub wake_attempt_step-pins :
    (s : Setup) (a : ActiveSequence) (name : String) (left : ℕ) (names : List String) (e : Executor)
    → e.active_sequence ≡ some a
    → pins a (wake_attempt_step s name left names e).1.active_sequence ≡ a.seq.resolved_addrs
unfolding wake_attempt_step evaluate_now save_active write emit set_client_state
    clear_active_sequence send
wake_attempt_step-pins s a name left names e u = ground arith

pub wake_sent_step-pins :
    (s : Setup) (a : ActiveSequence) (o : Obs) (name : String) (left : ℕ) (names : List String)
    (e : Executor)
    → e.active_sequence ≡ some a
    → pins a (wake_sent_step s a o name left names e).1.active_sequence ≡ a.seq.resolved_addrs
unfolding wake_sent_step evaluate_now save_active write emit set_client_state clear_active_sequence
wake_sent_step-pins s a o name left names e u = ground arith

pub wake_poll_step-pins :
    (s : Setup) (a : ActiveSequence) (o : Obs) (name : String) (left deadline : ℕ)
    (names : List String) (e : Executor)
    → e.active_sequence ≡ some a
    → pins a (wake_poll_step s a o name left deadline names e).1.active_sequence
      ≡ a.seq.resolved_addrs
unfolding wake_poll_step evaluate_now save_active write emit set_client_state clear_active_sequence
wake_poll_step-pins s a o name zero deadline names e u = ground arith
wake_poll_step-pins s a o name (suc left) deadline names e u = ground arith

pub wake_pause_step-pins :
    (s : Setup) (a : ActiveSequence) (o : Obs) (name : String) (left deadline : ℕ)
    (names : List String) (e : Executor)
    → e.active_sequence ≡ some a
    → pins a (wake_pause_step s a o name left deadline names e).1.active_sequence
      ≡ a.seq.resolved_addrs
unfolding wake_pause_step evaluate_now save_active write emit set_client_state clear_active_sequence
wake_pause_step-pins s a o name left deadline names e u = ground arith
