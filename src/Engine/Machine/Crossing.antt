-- ===== src/Engine/Machine/Crossing.antt =====
-- What each step of internal/engine does to the mark of the point of no return.
use canarium.State.Types.{StageRecord, Intent}
use canarium.Engine.Executor.{
  Executor, Setup, send, clear_active_sequence, set_client_state, emit, write, save_active,
  evaluate_now,
}
use canarium.Engine.Sequence.{
  set_held_stage, consume_proceed, mark_aborted, mark_completed, set_current_stage, cross_ponr,
  set_config_snapshot, mark_post_shutdown_run, set_state, set_resolved_addrs, ActiveSequence,
}
use canarium.Config.Types.{ClientConfig, StageConfig}
use canarium.Engine.Resume.{reconcile_client, reconcile_step, execute_sequence}
use canarium.Engine.Stages.{
  handle_stage_timeout, execute_post_shutdown, begin_stage, stage_at, wait_step, join_step,
  dispatch_step, enter_stage, after_stages_step,
}
use canarium.Engine.Abort.{
  handle_abort, should_abort, settle_step, settle_wait_step, settle_pause_step,
}
use canarium.Engine.Wake.{
  release_sequence, complete_sequence, wake_pause_step, wake_poll_step, wake_dry_step,
  wake_next_step, wake_client_step, gate_step, wake_attempt_step, wake_sent_step,
}
use canarium.Common.{
  ℕ, zero, suc, String, Bool, false, true, not, ◌||◌, List, [], ◌∷◌, Option, none, some, ◌≡◌, arith,
}
use canarium.Common.Dict.{Dict}
use canarium.Common.Int.{ℤ}
use canarium.Engine.Phase.{Task, Obs, Phase, dispatch}

-- Whether the sequence, if it goes on, has the flag as given.
abbrev pub has_ponr : Bool → Option ActiveSequence → Bool
has_ponr b none = true
has_ponr true (some a) = a.seq.ponr_crossed
has_ponr false (some a) = not a.seq.ponr_crossed

abbrev pub is_ponr_stage : Option StageConfig → Bool
is_ponr_stage none = false
is_ponr_stage (some stage) = stage.point_of_no_return

-- At the start of a stage that is marked as the point of no return.
abbrev pub at_ponr : ActiveSequence → Phase → Bool
at_ponr a (dispatch i) = is_ponr_stage (stage_at a i)
at_ponr a _ = false

pub has_ponr_same : (a : ActiveSequence) → has_ponr a.seq.ponr_crossed (some a) ≡ true
has_ponr_same a = ground arith

pub execute_sequence-has_ponr :
    (a : ActiveSequence) (o : Obs) (e : Executor)
    → e.active_sequence ≡ some a
    → has_ponr a.seq.ponr_crossed (execute_sequence a o e).1.active_sequence ≡ true
unfolding execute_sequence evaluate_now save_active write emit set_client_state
    clear_active_sequence set_resolved_addrs set_config_snapshot
execute_sequence-has_ponr a o e u = ground arith

pub enter_stage-has_ponr :
    (s : Setup) (a : ActiveSequence) (o : Obs) (i : ℕ) (stage : StageConfig) (e : Executor)
    → e.active_sequence ≡ some a
    → has_ponr a.seq.ponr_crossed (enter_stage s a o i stage e).1.active_sequence ≡ true
unfolding enter_stage evaluate_now save_active write emit set_client_state clear_active_sequence
    should_abort handle_abort set_current_stage mark_aborted set_state
enter_stage-has_ponr s a o i stage e u = ground arith

pub wait_step-has_ponr :
    (s : Setup) (a : ActiveSequence) (o : Obs) (i deadline : ℕ) (stage : StageConfig) (e : Executor)
    → e.active_sequence ≡ some a
    → has_ponr a.seq.ponr_crossed (wait_step s a o i deadline stage e).1.active_sequence ≡ true
unfolding wait_step evaluate_now save_active write emit set_client_state clear_active_sequence
    should_abort handle_abort set_current_stage mark_aborted set_state consume_proceed
    set_held_stage handle_stage_timeout
wait_step-has_ponr s a o i deadline stage e u = ground arith

pub dispatch_step-has_ponr :
    (s : Setup) (a : ActiveSequence) (o : Obs) (i : ℕ) (stage : StageConfig) (e : Executor)
    → e.active_sequence ≡ some a
    → has_ponr
        (stage.point_of_no_return || a.seq.ponr_crossed)
        (dispatch_step s a o i stage e).1.active_sequence
      ≡ true
unfolding dispatch_step evaluate_now save_active write emit set_client_state clear_active_sequence
    begin_stage cross_ponr
dispatch_step-has_ponr s a o i stage e u = ground arith

pub after_stages_step-has_ponr :
    (s : Setup) (a : ActiveSequence) (e : Executor)
    → e.active_sequence ≡ some a
    → has_ponr a.seq.ponr_crossed (after_stages_step s a e).1.active_sequence ≡ true
unfolding after_stages_step evaluate_now save_active write emit set_client_state
    clear_active_sequence execute_post_shutdown mark_post_shutdown_run set_state
after_stages_step-has_ponr s a e u = ground arith

pub reconcile_step-has_ponr :
    (s : Setup) (a : ActiveSequence) (o : Obs) (is : List Intent) (i : ℕ) (e : Executor)
    → e.active_sequence ≡ some a
    → has_ponr a.seq.ponr_crossed (reconcile_step s o is i e).1.active_sequence ≡ true
unfolding reconcile_step evaluate_now save_active write emit set_client_state clear_active_sequence
    reconcile_client
reconcile_step-has_ponr s a o [] i e u = ground arith
reconcile_step-has_ponr s a o (j ∷ is) i e u = ground arith

pub join_step-has_ponr :
    (a : ActiveSequence) (o : Obs) (i : ℕ) (budget : ℤ) (rec : StageRecord) (tasks : Dict Task)
    (e : Executor)
    → e.active_sequence ≡ some a
    → has_ponr a.seq.ponr_crossed (join_step o i budget rec tasks e).1.active_sequence ≡ true
unfolding join_step evaluate_now save_active write emit set_client_state clear_active_sequence
join_step-has_ponr a o i budget rec tasks e u = ground arith

pub settle_step-has_ponr :
    (s : Setup) (a : ActiveSequence) (o : Obs) (cs : List ClientConfig) (e : Executor)
    → e.active_sequence ≡ some a
    → has_ponr a.seq.ponr_crossed (settle_step s a o cs e).1.active_sequence ≡ true
unfolding settle_step evaluate_now save_active write emit set_client_state clear_active_sequence
    set_state
settle_step-has_ponr s a o [] e u = ground arith
settle_step-has_ponr s a o (c ∷ cs) e u = ground arith

pub settle_wait_step-has_ponr :
    (a : ActiveSequence) (o : Obs) (c : ClientConfig) (deadline : ℕ) (cs : List ClientConfig)
    (e : Executor)
    → e.active_sequence ≡ some a
    → has_ponr a.seq.ponr_crossed (settle_wait_step o c deadline cs e).1.active_sequence ≡ true
unfolding settle_wait_step evaluate_now save_active write emit set_client_state
    clear_active_sequence
settle_wait_step-has_ponr a o c deadline cs e u = ground arith

pub settle_pause_step-has_ponr :
    (a : ActiveSequence) (o : Obs) (c : ClientConfig) (deadline : ℕ) (cs : List ClientConfig)
    (e : Executor)
    → e.active_sequence ≡ some a
    → has_ponr a.seq.ponr_crossed (settle_pause_step a o c deadline cs e).1.active_sequence ≡ true
unfolding settle_pause_step evaluate_now save_active write emit set_client_state
    clear_active_sequence set_state
settle_pause_step-has_ponr a o c deadline cs e u = ground arith

pub gate_step-has_ponr :
    (s : Setup) (a : ActiveSequence) (o : Obs) (e : Executor)
    → e.active_sequence ≡ some a
    → has_ponr a.seq.ponr_crossed (gate_step s a o e).1.active_sequence ≡ true
unfolding gate_step evaluate_now save_active write emit set_client_state clear_active_sequence
    complete_sequence release_sequence set_state mark_completed mark_aborted
gate_step-has_ponr s a o e u = ground arith

pub wake_next_step-has_ponr :
    (s : Setup) (a : ActiveSequence) (o : Obs) (names : List String) (e : Executor)
    → e.active_sequence ≡ some a
    → has_ponr a.seq.ponr_crossed (wake_next_step s a o names e).1.active_sequence ≡ true
unfolding wake_next_step evaluate_now save_active write emit set_client_state clear_active_sequence
    complete_sequence release_sequence mark_completed mark_aborted
wake_next_step-has_ponr s a o [] e u = ground arith
wake_next_step-has_ponr s a o (name ∷ names) e u = ground arith

pub wake_client_step-has_ponr :
    (s : Setup) (a : ActiveSequence) (o : Obs) (name : String) (names : List String) (e : Executor)
    → e.active_sequence ≡ some a
    → has_ponr a.seq.ponr_crossed (wake_client_step s a o name names e).1.active_sequence ≡ true
unfolding wake_client_step evaluate_now save_active write emit set_client_state
    clear_active_sequence
wake_client_step-has_ponr s a o name names e u = ground arith

pub wake_dry_step-has_ponr :
    (s : Setup) (a : ActiveSequence) (o : Obs) (name : String) (names : List String) (e : Executor)
    → e.active_sequence ≡ some a
    → has_ponr a.seq.ponr_crossed (wake_dry_step s a o name names e).1.active_sequence ≡ true
unfolding wake_dry_step evaluate_now save_active write emit set_client_state clear_active_sequence
wake_dry_step-has_ponr s a o name names e u = ground arith

pub wake_attempt_step-has_ponr :
    (s : Setup) (a : ActiveSequence) (name : String) (left : ℕ) (names : List String) (e : Executor)
    → e.active_sequence ≡ some a
    → has_ponr a.seq.ponr_crossed (wake_attempt_step s name left names e).1.active_sequence ≡ true
unfolding wake_attempt_step evaluate_now save_active write emit set_client_state
    clear_active_sequence send
wake_attempt_step-has_ponr s a name left names e u = ground arith

pub wake_sent_step-has_ponr :
    (s : Setup) (a : ActiveSequence) (o : Obs) (name : String) (left : ℕ) (names : List String)
    (e : Executor)
    → e.active_sequence ≡ some a
    → has_ponr a.seq.ponr_crossed (wake_sent_step s a o name left names e).1.active_sequence ≡ true
unfolding wake_sent_step evaluate_now save_active write emit set_client_state clear_active_sequence
wake_sent_step-has_ponr s a o name left names e u = ground arith

pub wake_poll_step-has_ponr :
    (s : Setup) (a : ActiveSequence) (o : Obs) (name : String) (left deadline : ℕ)
    (names : List String) (e : Executor)
    → e.active_sequence ≡ some a
    → has_ponr a.seq.ponr_crossed
        (wake_poll_step s a o name left deadline names e).1.active_sequence
      ≡ true
unfolding wake_poll_step evaluate_now save_active write emit set_client_state clear_active_sequence
wake_poll_step-has_ponr s a o name zero deadline names e u = ground arith
wake_poll_step-has_ponr s a o name (suc left) deadline names e u = ground arith

pub wake_pause_step-has_ponr :
    (s : Setup) (a : ActiveSequence) (o : Obs) (name : String) (left deadline : ℕ)
    (names : List String) (e : Executor)
    → e.active_sequence ≡ some a
    → has_ponr a.seq.ponr_crossed
        (wake_pause_step s a o name left deadline names e).1.active_sequence
      ≡ true
unfolding wake_pause_step evaluate_now save_active write emit set_client_state clear_active_sequence
wake_pause_step-has_ponr s a o name left deadline names e u = ground arith
