-- ===== src/Engine/Machine/WakeRows.antt =====
-- Rows and the active sequence behind the steps of a wake.
use canarium.Engine.Phase.{Obs}
use canarium.Engine.Resume.Restored.{agrees}
use canarium.State.Tables.{
  release_sequence_locks, save_intent, save_stage_record, save_client_state,
}
use canarium.Engine.Sequence.{mark_aborted, mark_completed, set_state, persistable, ActiveSequence}
use canarium.State.Types.{StageRecord, Intent, Database, Sequence}
use canarium.Engine.Executor.{
  Setup, send, clear_active_sequence, set_client_state, emit, write, save_active, evaluate_now,
  Executor,
}
use canarium.Engine.Wake.{
  release_sequence, complete_sequence, wake_next_step, wake_sent_step, wake_client_step, gate_step,
  wake_attempt_step, wake_dry_step, wake_poll_step, wake_pause_step,
}
use canarium.Common.{ℕ, zero, suc, String, if◌then◌else◌, true, List, [], ◌∷◌, some, ◌≡◌, arith}
use canarium.State.Types as S
use canarium.Engine.Machine.Rows.{kept, kept_with, rows_ok, save_sequence-rows_ok}

pub gate_step-kept :
    (s : Setup) (a : ActiveSequence) (o : Obs) (e : Executor)
    → e.active_sequence ≡ some a
    → agrees a.seq.state a.seq ≡ true
    → rows_ok e.db.sequences ≡ true
    → kept (gate_step s a o e).1 ≡ true
unfolding gate_step kept_with evaluate_now save_active write emit set_client_state
    clear_active_sequence save_client_state save_stage_record save_intent release_sequence_locks
    persistable complete_sequence release_sequence set_state mark_completed mark_aborted
gate_step-kept s a o e u ok rows = ground (
  arith,
  save_sequence-rows_ok (set_state S.waking a).seq e.db,
  save_sequence-rows_ok
      (mark_completed (if (mark_aborted a).seq.aborted then S.aborted else S.completed) o.now
        (mark_aborted a)).seq
      e.db,
)

pub wake_next_step-kept :
    (s : Setup) (a : ActiveSequence) (o : Obs) (names : List String) (e : Executor)
    → e.active_sequence ≡ some a
    → agrees a.seq.state a.seq ≡ true
    → rows_ok e.db.sequences ≡ true
    → kept (wake_next_step s a o names e).1 ≡ true
unfolding wake_next_step kept_with evaluate_now save_active write emit set_client_state
    clear_active_sequence save_client_state save_stage_record save_intent release_sequence_locks
    persistable complete_sequence release_sequence mark_completed mark_aborted
wake_next_step-kept s a o [] e u ok rows = ground (
  arith,
  save_sequence-rows_ok
      (mark_completed (if (a).seq.aborted then S.aborted else S.completed) o.now (a)).seq e.db,
  save_sequence-rows_ok
      (mark_completed (if (mark_aborted a).seq.aborted then S.aborted else S.completed) o.now
        (mark_aborted a)).seq
      e.db,
)
wake_next_step-kept s a o (name ∷ names) e u ok rows = ground (
  arith,
  save_sequence-rows_ok
      (mark_completed (if (a).seq.aborted then S.aborted else S.completed) o.now (a)).seq e.db,
  save_sequence-rows_ok
      (mark_completed (if (mark_aborted a).seq.aborted then S.aborted else S.completed) o.now
        (mark_aborted a)).seq
      e.db,
)

pub wake_client_step-kept :
    (s : Setup) (a : ActiveSequence) (o : Obs) (name : String) (names : List String) (e : Executor)
    → e.active_sequence ≡ some a
    → agrees a.seq.state a.seq ≡ true
    → rows_ok e.db.sequences ≡ true
    → kept (wake_client_step s a o name names e).1 ≡ true
unfolding wake_client_step kept_with evaluate_now save_active write emit set_client_state
    clear_active_sequence save_client_state save_stage_record save_intent release_sequence_locks
    persistable
wake_client_step-kept s a o name names e u ok rows = ground arith

pub wake_dry_step-kept :
    (s : Setup) (a : ActiveSequence) (o : Obs) (name : String) (names : List String) (e : Executor)
    → e.active_sequence ≡ some a
    → agrees a.seq.state a.seq ≡ true
    → rows_ok e.db.sequences ≡ true
    → kept (wake_dry_step s a o name names e).1 ≡ true
unfolding wake_dry_step kept_with evaluate_now save_active write emit set_client_state
    clear_active_sequence save_client_state save_stage_record save_intent release_sequence_locks
    persistable
wake_dry_step-kept s a o name names e u ok rows = ground arith

pub wake_attempt_step-kept :
    (s : Setup) (a : ActiveSequence) (name : String) (left : ℕ) (names : List String) (e : Executor)
    → e.active_sequence ≡ some a
    → agrees a.seq.state a.seq ≡ true
    → rows_ok e.db.sequences ≡ true
    → kept (wake_attempt_step s name left names e).1 ≡ true
unfolding wake_attempt_step kept_with evaluate_now save_active write emit set_client_state
    clear_active_sequence save_client_state save_stage_record save_intent release_sequence_locks
    persistable send
wake_attempt_step-kept s a name left names e u ok rows = ground arith

pub wake_sent_step-kept :
    (s : Setup) (a : ActiveSequence) (o : Obs) (name : String) (left : ℕ) (names : List String)
    (e : Executor)
    → e.active_sequence ≡ some a
    → agrees a.seq.state a.seq ≡ true
    → rows_ok e.db.sequences ≡ true
    → kept (wake_sent_step s a o name left names e).1 ≡ true
unfolding wake_sent_step kept_with evaluate_now save_active write emit set_client_state
    clear_active_sequence save_client_state save_stage_record save_intent release_sequence_locks
    persistable
wake_sent_step-kept s a o name left names e u ok rows = ground arith

pub wake_poll_step-kept :
    (s : Setup) (a : ActiveSequence) (o : Obs) (name : String) (left deadline : ℕ)
    (names : List String) (e : Executor)
    → e.active_sequence ≡ some a
    → agrees a.seq.state a.seq ≡ true
    → rows_ok e.db.sequences ≡ true
    → kept (wake_poll_step s a o name left deadline names e).1 ≡ true
unfolding wake_poll_step kept_with evaluate_now save_active write emit set_client_state
    clear_active_sequence save_client_state save_stage_record save_intent release_sequence_locks
    persistable
wake_poll_step-kept s a o name zero deadline names e u ok rows = ground arith
wake_poll_step-kept s a o name (suc left) deadline names e u ok rows = ground arith

pub wake_pause_step-kept :
    (s : Setup) (a : ActiveSequence) (o : Obs) (name : String) (left deadline : ℕ)
    (names : List String) (e : Executor)
    → e.active_sequence ≡ some a
    → agrees a.seq.state a.seq ≡ true
    → rows_ok e.db.sequences ≡ true
    → kept (wake_pause_step s a o name left deadline names e).1 ≡ true
unfolding wake_pause_step kept_with evaluate_now save_active write emit set_client_state
    clear_active_sequence save_client_state save_stage_record save_intent release_sequence_locks
    persistable
wake_pause_step-kept s a o name left deadline names e u ok rows = ground arith
