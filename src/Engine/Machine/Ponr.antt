-- ===== src/Engine/Machine/Ponr.antt =====
-- Where the point of no return is crossed, in the machine of internal/engine.
use canarium.Engine.Wake.{stagger_pause_step, guard_pause_step, gate_pause_step}
use canarium.Config.Types.{StageConfig}
use canarium.Engine.Machine.Crossing.{
  wake_pause_step-has_ponr, wake_poll_step-has_ponr, wake_sent_step-has_ponr,
  wake_attempt_step-has_ponr, wake_dry_step-has_ponr, wake_client_step-has_ponr,
  wake_next_step-has_ponr, gate_step-has_ponr, settle_pause_step-has_ponr,
  settle_wait_step-has_ponr, settle_step-has_ponr, after_stages_step-has_ponr, join_step-has_ponr,
  wait_step-has_ponr, enter_stage-has_ponr, reconcile_step-has_ponr, execute_sequence-has_ponr,
  at_ponr, dispatch_step-has_ponr, is_ponr_stage, has_ponr_same, has_ponr,
}
use canarium.Engine.Sequence.{set_state, ActiveSequence}
use canarium.Engine.Stages.{stage_at, post_shutdown_done, dispatch_step, wait_pause_step}
use canarium.Engine.Executor.{clear_active_sequence, write, save_active, Executor, Setup}
use canarium.Common.{ℕ, Bool, true, ◌||◌, Option, none, some, ◌≡◌, arith}
use canarium.Engine.Machine.{sequence_step}
use canarium.Engine.Phase.{
  Phase, go_on, Obs, Result, idle, begin, reconcile, enter, wait, wait_pause, dispatch, running,
  after_stages, post_shutdown_call, settle, settle_wait, settle_pause, gate, gate_pause, wake_next,
  guard_pause, wake_client, wake_dry, wake_attempt, wake_sent, wake_poll, wake_pause, stagger_pause,
}

go_on-has_ponr :
    {A : Type 0} (b : Bool) (x : Option A) (r : Result) (f : A → Result)
    → has_ponr b r.1.active_sequence ≡ true
    → ((a : A) → has_ponr b (f a).1.active_sequence ≡ true)
    → has_ponr b (go_on x r f).1.active_sequence ≡ true
go_on-has_ponr b none r f u v = u
go_on-has_ponr b (some a) r f u v = v a

unchanged :
    (a : ActiveSequence) (e : Executor)
    → e.active_sequence ≡ some a
    → has_ponr a.seq.ponr_crossed e.active_sequence ≡ true
unchanged a e u = rw u (has_ponr_same a)

dispatch-has_ponr :
    (s : Setup) (a : ActiveSequence) (o : Obs) (i : ℕ) (x : Option StageConfig) (e : Executor)
    → e.active_sequence ≡ some a
    → has_ponr
        (is_ponr_stage x || a.seq.ponr_crossed)
        (go_on x (after_stages, e) (λ stage. dispatch_step s a o i stage e)).1.active_sequence
      ≡ true
dispatch-has_ponr s a o i none e u = unchanged a e u
dispatch-has_ponr s a o i (some stage) e u = dispatch_step-has_ponr s a o i stage e u

-- A sequence is past its point of no return exactly when it was before the step, or the step starts
-- a stage that is marked as one: no wait, no timeout, no skipped stage and no abort crosses it, and
-- nothing takes it back.
pub ponr_crossed_at_its_stage :
    (s : Setup) (a : ActiveSequence) (o : Obs) (phase : Phase) (e : Executor)
    → e.active_sequence ≡ some a
    → has_ponr
        (at_ponr a phase || a.seq.ponr_crossed)
        (sequence_step s a o phase e).1.active_sequence
      ≡ true
unfolding sequence_step wait_pause_step save_active write set_state post_shutdown_done
    gate_pause_step guard_pause_step stagger_pause_step clear_active_sequence
ponr_crossed_at_its_stage s a o idle e u = ground arith
ponr_crossed_at_its_stage s a o begin e u = execute_sequence-has_ponr a o e u
ponr_crossed_at_its_stage s a o (reconcile is i) e u = reconcile_step-has_ponr s a o is i e u
ponr_crossed_at_its_stage s a o (enter i) e u =
    go_on-has_ponr a.seq.ponr_crossed (stage_at a i) (after_stages, e) _ (unchanged a e u)
      (λ stage. enter_stage-has_ponr s a o i stage e u)
ponr_crossed_at_its_stage s a o (wait i deadline) e u =
    go_on-has_ponr a.seq.ponr_crossed (stage_at a i) (after_stages, e) _ (unchanged a e u)
      (λ stage. wait_step-has_ponr s a o i deadline stage e u)
ponr_crossed_at_its_stage s a o (wait_pause i deadline) e u = ground arith
ponr_crossed_at_its_stage s a o (dispatch i) e u = dispatch-has_ponr s a o i (stage_at a i) e u
ponr_crossed_at_its_stage s a o (running i budget rec tasks) e u =
    join_step-has_ponr a o i budget rec tasks e u
ponr_crossed_at_its_stage s a o after_stages e u = after_stages_step-has_ponr s a e u
ponr_crossed_at_its_stage s a o post_shutdown_call e u = ground arith
ponr_crossed_at_its_stage s a o (settle cs) e u = settle_step-has_ponr s a o cs e u
ponr_crossed_at_its_stage s a o (settle_wait c deadline cs) e u =
    settle_wait_step-has_ponr a o c deadline cs e u
ponr_crossed_at_its_stage s a o (settle_pause c deadline cs) e u =
    settle_pause_step-has_ponr a o c deadline cs e u
ponr_crossed_at_its_stage s a o gate e u = gate_step-has_ponr s a o e u
ponr_crossed_at_its_stage s a o gate_pause e u = ground arith
ponr_crossed_at_its_stage s a o (wake_next names) e u = wake_next_step-has_ponr s a o names e u
ponr_crossed_at_its_stage s a o (guard_pause name names) e u = ground arith
ponr_crossed_at_its_stage s a o (wake_client name names) e u =
    wake_client_step-has_ponr s a o name names e u
ponr_crossed_at_its_stage s a o (wake_dry name names) e u =
    wake_dry_step-has_ponr s a o name names e u
ponr_crossed_at_its_stage s a o (wake_attempt name left names) e u =
    wake_attempt_step-has_ponr s a name left names e u
ponr_crossed_at_its_stage s a o (wake_sent name left names) e u =
    wake_sent_step-has_ponr s a o name left names e u
ponr_crossed_at_its_stage s a o (wake_poll name left deadline names) e u =
    wake_poll_step-has_ponr s a o name left deadline names e u
ponr_crossed_at_its_stage s a o (wake_pause name left deadline names) e u =
    wake_pause_step-has_ponr s a o name left deadline names e u
ponr_crossed_at_its_stage s a o (stagger_pause names) e u = ground arith
