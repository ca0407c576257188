-- ===== src/Engine/Machine/Steps.antt =====
-- Each step of a sequence in internal/engine leaves a sound state.
use canarium.Common.Dict.{Dict}
use canarium.Common.Int.{ℤ}
use canarium.State.Types.{StageRecord, Intent}
use canarium.Config.Types.{StageConfig, ClientConfig}
use canarium.Engine.Phase.{Task, Obs}
use canarium.Engine.Sequence.{
  set_held_stage, consume_proceed, mark_aborted, set_current_stage, set_config_snapshot, cross_ponr,
  mark_post_shutdown_run, set_resolved_addrs, ActiveSequence, set_state,
}
use canarium.Engine.Executor.{
  Executor, Setup, clear_active_sequence, set_client_state, send, emit, write, save_active,
  evaluate_now,
}
use canarium.Engine.Machine.Parts.{settling, fits, sound, sound_with}
use canarium.Engine.Resume.{reconcile_client, execute_sequence, reconcile_step}
use canarium.Engine.Abort.{
  handle_abort, should_abort, settle_pause_step, settle_step, settle_wait_step,
}
use canarium.Engine.Stages.{
  handle_stage_timeout, execute_post_shutdown, begin_stage, after_stages_step, join_step,
  dispatch_step, wait_step, enter_stage,
}
use canarium.Engine.Wake.{
  release_sequence, complete_sequence, after_client, wake_dry_step, wake_attempt_step,
  wake_pause_step, wake_next_step, gate_step, wake_client_step, wake_sent_step, wake_poll_step,
}
use canarium.Common.{ℕ, zero, suc, String, false, true, List, [], ◌∷◌, some, ◌≡◌, arith}

pub execute_sequence-sound :
    (a : ActiveSequence) (o : Obs) (e : Executor)
    → a.seq.aborted ≡ false
    → sound (execute_sequence a o e) ≡ true
unfolding execute_sequence sound_with evaluate_now save_active write emit send set_client_state
    clear_active_sequence set_resolved_addrs set_config_snapshot
execute_sequence-sound a o e u = ground arith

pub enter_stage-sound :
    (s : Setup) (a : ActiveSequence) (o : Obs) (i : ℕ) (stage : StageConfig) (e : Executor)
    → a.seq.aborted ≡ false
    → sound (enter_stage s a o i stage e) ≡ true
unfolding enter_stage sound_with evaluate_now save_active write emit send set_client_state
    clear_active_sequence should_abort handle_abort set_current_stage mark_aborted set_state
enter_stage-sound s a o i stage e u = ground arith

pub wait_step-sound :
    (s : Setup) (a : ActiveSequence) (o : Obs) (i deadline : ℕ) (stage : StageConfig) (e : Executor)
    → e.active_sequence ≡ some a
    → a.seq.aborted ≡ false
    → sound (wait_step s a o i deadline stage e) ≡ true
unfolding wait_step sound_with evaluate_now save_active write emit send set_client_state
    clear_active_sequence should_abort handle_abort set_current_stage mark_aborted set_state
    consume_proceed set_held_stage handle_stage_timeout
wait_step-sound s a o i deadline stage e u w = ground arith

pub dispatch_step-sound :
    (s : Setup) (a : ActiveSequence) (o : Obs) (i : ℕ) (stage : StageConfig) (e : Executor)
    → e.active_sequence ≡ some a
    → a.seq.aborted ≡ false
    → sound (dispatch_step s a o i stage e) ≡ true
unfolding dispatch_step sound_with evaluate_now save_active write emit send set_client_state
    clear_active_sequence begin_stage cross_ponr
dispatch_step-sound s a o i stage e u w = ground arith

pub after_stages_step-sound :
    (s : Setup) (a : ActiveSequence) (e : Executor)
    → e.active_sequence ≡ some a
    → a.seq.aborted ≡ false
    → sound (after_stages_step s a e) ≡ true
unfolding after_stages_step sound_with evaluate_now save_active write emit send set_client_state
    clear_active_sequence execute_post_shutdown mark_post_shutdown_run set_state
after_stages_step-sound s a e u w = ground arith

pub reconcile_step-sound :
    (s : Setup) (a : ActiveSequence) (o : Obs) (is : List Intent) (i : ℕ) (e : Executor)
    → e.active_sequence ≡ some a
    → a.seq.aborted ≡ false
    → sound (reconcile_step s o is i e) ≡ true
unfolding reconcile_step sound_with evaluate_now save_active write emit send set_client_state
    clear_active_sequence reconcile_client
reconcile_step-sound s a o [] i e u w = ground arith
reconcile_step-sound s a o (j ∷ is) i e u w = ground arith

pub join_step-sound :
    (a : ActiveSequence) (o : Obs) (i : ℕ) (budget : ℤ) (rec : StageRecord) (tasks : Dict Task)
    (e : Executor)
    → e.active_sequence ≡ some a
    → a.seq.aborted ≡ false
    → sound (join_step o i budget rec tasks e) ≡ true
unfolding join_step sound_with evaluate_now save_active write emit send set_client_state
    clear_active_sequence
join_step-sound a o i budget rec tasks e u w = ground arith

pub settle_step-sound :
    (s : Setup) (a : ActiveSequence) (o : Obs) (cs : List ClientConfig) (e : Executor)
    → e.active_sequence ≡ some a
    → fits settling a ≡ true
    → sound (settle_step s a o cs e) ≡ true
unfolding settle_step sound_with evaluate_now save_active write emit send set_client_state
    clear_active_sequence set_state
settle_step-sound s a o [] e u w = ground arith
settle_step-sound s a o (c ∷ cs) e u w = ground arith

pub settle_wait_step-sound :
    (a : ActiveSequence) (o : Obs) (c : ClientConfig) (deadline : ℕ) (cs : List ClientConfig)
    (e : Executor)
    → e.active_sequence ≡ some a
    → fits settling a ≡ true
    → sound (settle_wait_step o c deadline cs e) ≡ true
unfolding settle_wait_step sound_with evaluate_now save_active write emit send set_client_state
    clear_active_sequence
settle_wait_step-sound a o c deadline cs e u w = ground arith

pub settle_pause_step-sound :
    (a : ActiveSequence) (o : Obs) (c : ClientConfig) (deadline : ℕ) (cs : List ClientConfig)
    (e : Executor)
    → e.active_sequence ≡ some a
    → fits settling a ≡ true
    → sound (settle_pause_step a o c deadline cs e) ≡ true
unfolding settle_pause_step sound_with evaluate_now save_active write emit send set_client_state
    clear_active_sequence set_state
settle_pause_step-sound a o c deadline cs e u w = ground arith

pub gate_step-sound :
    (s : Setup) (a : ActiveSequence) (o : Obs) (e : Executor)
    → e.active_sequence ≡ some a
    → sound (gate_step s a o e) ≡ true
unfolding gate_step sound_with evaluate_now save_active write emit send set_client_state
    clear_active_sequence complete_sequence release_sequence set_state
gate_step-sound s a o e u = ground arith

pub wake_next_step-sound :
    (s : Setup) (a : ActiveSequence) (o : Obs) (names : List String) (e : Executor)
    → e.active_sequence ≡ some a
    → sound (wake_next_step s a o names e) ≡ true
unfolding wake_next_step sound_with evaluate_now save_active write emit send set_client_state
    clear_active_sequence complete_sequence release_sequence
wake_next_step-sound s a o [] e u = ground arith
wake_next_step-sound s a o (name ∷ names) e u = ground arith

pub wake_client_step-sound :
    (s : Setup) (a : ActiveSequence) (o : Obs) (name : String) (names : List String) (e : Executor)
    → e.active_sequence ≡ some a
    → sound (wake_client_step s a o name names e) ≡ true
unfolding wake_client_step sound_with evaluate_now save_active write emit send set_client_state
    clear_active_sequence after_client
wake_client_step-sound s a o name [] e u = ground arith
wake_client_step-sound s a o name (n ∷ names) e u = ground arith

pub wake_dry_step-sound :
    (s : Setup) (a : ActiveSequence) (o : Obs) (name : String) (names : List String) (e : Executor)
    → e.active_sequence ≡ some a
    → sound (wake_dry_step s a o name names e) ≡ true
unfolding wake_dry_step sound_with evaluate_now save_active write emit send set_client_state
    clear_active_sequence after_client
wake_dry_step-sound s a o name [] e u = ground arith
wake_dry_step-sound s a o name (n ∷ names) e u = ground arith

pub wake_attempt_step-sound :
    (s : Setup) (a : ActiveSequence) (name : String) (left : ℕ) (names : List String) (e : Executor)
    → e.active_sequence ≡ some a
    → sound (wake_attempt_step s name left names e) ≡ true
unfolding wake_attempt_step sound_with evaluate_now save_active write emit send set_client_state
    clear_active_sequence
wake_attempt_step-sound s a name left names e u = ground arith

pub wake_sent_step-sound :
    (s : Setup) (a : ActiveSequence) (o : Obs) (name : String) (left : ℕ) (names : List String)
    (e : Executor)
    → e.active_sequence ≡ some a
    → sound (wake_sent_step s a o name left names e) ≡ true
unfolding wake_sent_step sound_with evaluate_now save_active write emit send set_client_state
    clear_active_sequence after_client
wake_sent_step-sound s a o name left [] e u = ground arith
wake_sent_step-sound s a o name left (n ∷ names) e u = ground arith

pub wake_poll_step-sound :
    (s : Setup) (a : ActiveSequence) (o : Obs) (name : String) (left deadline : ℕ)
    (names : List String) (e : Executor)
    → e.active_sequence ≡ some a
    → sound (wake_poll_step s a o name left deadline names e) ≡ true
unfolding wake_poll_step sound_with evaluate_now save_active write emit send set_client_state
    clear_active_sequence after_client
wake_poll_step-sound s a o name zero deadline [] e u = ground arith
wake_poll_step-sound s a o name zero deadline (n ∷ names) e u = ground arith
wake_poll_step-sound s a o name (suc left) deadline [] e u = ground arith
wake_poll_step-sound s a o name (suc left) deadline (n ∷ names) e u = ground arith

pub wake_pause_step-sound :
    (s : Setup) (a : ActiveSequence) (o : Obs) (name : String) (left deadline : ℕ)
    (names : List String) (e : Executor)
    → e.active_sequence ≡ some a
    → sound (wake_pause_step s a o name left deadline names e) ≡ true
unfolding wake_pause_step sound_with evaluate_now save_active write emit send set_client_state
    clear_active_sequence after_client
wake_pause_step-sound s a o name left deadline [] e u = ground arith
wake_pause_step-sound s a o name left deadline (n ∷ names) e u = ground arith
