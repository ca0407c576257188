-- ===== src/Engine/Machine/Rows.antt =====
-- Every row that internal/engine leaves in the database, and the active sequence, has marks that agree
-- with its state.
use canarium.Engine.Machine.Parts.{settling, fits}
use canarium.Config.Types.{StageConfig, ClientConfig}
use canarium.Engine.Phase.{Task, Obs}
use canarium.Engine.Resume.Restored.{agrees}
use canarium.State.Tables.{
  release_sequence_locks, save_intent, save_stage_record, save_client_state, updated_sequence,
  is_terminal, save_sequence,
}
use canarium.Engine.Sequence.{
  set_held_stage, consume_proceed, mark_aborted, set_current_stage, mark_post_shutdown_run,
  cross_ponr, set_config_snapshot, set_resolved_addrs, set_state, persistable, ActiveSequence,
}
use canarium.Engine.Resume.{reconcile_client, execute_sequence, reconcile_step}
use canarium.State.Types.{StageRecord, Intent, Database, Sequence}
use canarium.Engine.Executor.{
  Setup, clear_active_sequence, set_client_state, emit, write, save_active, evaluate_now, Executor,
}
use canarium.Engine.Abort.{
  handle_abort, should_abort, settle_wait_step, settle_step, settle_pause_step,
}
use canarium.Engine.Stages.{
  handle_stage_timeout, execute_post_shutdown, begin_stage, wait_step, dispatch_step, join_step,
  after_stages_step, enter_stage, post_shutdown_done,
}
use canarium.Common.{
  ℕ, String, Bool, false, true, ◌&&◌, ◌||◌, List, [], ◌∷◌, Option, none, some, ◌≡◌, arith,
}
use canarium.Common.Dict.{Dict, lookup, insert}
use canarium.Common.Int.{ℤ}
use canarium.State.Types as S

abbrev pub row_ok : Sequence → Bool
row_ok q = is_terminal q.state || agrees q.state q

abbrev pub rows_ok : Dict Sequence → Bool
rows_ok [] = true
rows_ok ((_, q) ∷ rows) = row_ok q && rows_ok rows

abbrev pub active_ok : Option ActiveSequence → Bool
active_ok none = true
active_ok (some a) = agrees a.seq.state a.seq

unfoldable pub kept_with : Option ActiveSequence → Dict Sequence → Bool
kept_with x rows = active_ok x && rows_ok rows

abbrev pub kept : Executor → Bool
kept e = kept_with e.active_sequence e.db.sequences

insert-rows_ok :
    (k : String) (q : Sequence) (rows : Dict Sequence)
    → row_ok q ≡ true
    → rows_ok rows ≡ true
    → rows_ok (insert k q rows) ≡ true
unfolding insert
insert-rows_ok k q [] u w = ground arith
insert-rows_ok k q ((j, p) ∷ rows) u w = ground (arith, insert-rows_ok k q rows u)

updated-row_ok :
    (q : Sequence) (x : Option Sequence) → row_ok q ≡ true → row_ok (updated_sequence q x) ≡ true
updated-row_ok q none u = u
updated-row_ok q (some row) u = ground arith

pub save_sequence-rows_ok :
    (q : Sequence) (d : Database)
    → row_ok q ≡ true
    → rows_ok d.sequences ≡ true
    → rows_ok (save_sequence q d).sequences ≡ true
unfolding save_sequence
save_sequence-rows_ok q d u w =
    let row = updated_sequence q (lookup q.id d.sequences) in
    insert-rows_ok q.id row d.sequences (updated-row_ok q (lookup q.id d.sequences) u) w

pub execute_sequence-kept :
    (a : ActiveSequence) (o : Obs) (e : Executor)
    → e.active_sequence ≡ some a
    → agrees a.seq.state a.seq ≡ true
    → rows_ok e.db.sequences ≡ true
    → kept (execute_sequence a o e).1 ≡ true
unfolding execute_sequence kept_with evaluate_now save_active write emit set_client_state
    clear_active_sequence save_client_state save_stage_record save_intent release_sequence_locks
    persistable set_resolved_addrs set_config_snapshot
execute_sequence-kept a o e u ok rows = ground (
  arith,
  save_sequence-rows_ok (set_config_snapshot o.snapshot (set_resolved_addrs o.resolved a)).seq e.db,
)

pub enter_stage-kept :
    (s : Setup) (a : ActiveSequence) (o : Obs) (i : ℕ) (stage : StageConfig) (e : Executor)
    → e.active_sequence ≡ some a
    → agrees a.seq.state a.seq ≡ true
    → rows_ok e.db.sequences ≡ true
    → a.seq.aborted ≡ false
    → kept (enter_stage s a o i stage e).1 ≡ true
unfolding enter_stage kept_with evaluate_now save_active write emit set_client_state
    clear_active_sequence save_client_state save_stage_record save_intent release_sequence_locks
    persistable should_abort handle_abort set_current_stage mark_aborted set_state
enter_stage-kept s a o i stage e u ok rows w = ground (
  arith,
  save_sequence-rows_ok (set_current_stage i a).seq e.db,
  save_sequence-rows_ok (mark_aborted (set_state S.aborting (set_current_stage i a))).seq e.db,
  save_sequence-rows_ok (mark_aborted (set_state S.aborting (set_current_stage i a))).seq
      (save_sequence (set_current_stage i a).seq e.db),
)

pub wait_step-kept :
    (s : Setup) (a : ActiveSequence) (o : Obs) (i deadline : ℕ) (stage : StageConfig) (e : Executor)
    → e.active_sequence ≡ some a
    → agrees a.seq.state a.seq ≡ true
    → rows_ok e.db.sequences ≡ true
    → a.seq.aborted ≡ false
    → kept (wait_step s a o i deadline stage e).1 ≡ true
unfolding wait_step kept_with evaluate_now save_active write emit set_client_state
    clear_active_sequence save_client_state save_stage_record save_intent release_sequence_locks
    persistable should_abort handle_abort set_current_stage mark_aborted set_state consume_proceed
    set_held_stage handle_stage_timeout
wait_step-kept s a o i deadline stage e u ok rows w =
    ground (arith, save_sequence-rows_ok (mark_aborted (set_state S.aborting (a))).seq e.db)

pub dispatch_step-kept :
    (s : Setup) (a : ActiveSequence) (o : Obs) (i : ℕ) (stage : StageConfig) (e : Executor)
    → e.active_sequence ≡ some a
    → agrees a.seq.state a.seq ≡ true
    → rows_ok e.db.sequences ≡ true
    → a.seq.aborted ≡ false
    → kept (dispatch_step s a o i stage e).1 ≡ true
unfolding dispatch_step kept_with evaluate_now save_active write emit set_client_state
    clear_active_sequence save_client_state save_stage_record save_intent release_sequence_locks
    persistable begin_stage cross_ponr
dispatch_step-kept s a o i stage e u ok rows w =
    ground (arith, save_sequence-rows_ok ((cross_ponr a).0).seq e.db)

pub after_stages_step-kept :
    (s : Setup) (a : ActiveSequence) (e : Executor)
    → e.active_sequence ≡ some a
    → agrees a.seq.state a.seq ≡ true
    → rows_ok e.db.sequences ≡ true
    → a.seq.aborted ≡ false
    → kept (after_stages_step s a e).1 ≡ true
unfolding after_stages_step kept_with evaluate_now save_active write emit set_client_state
    clear_active_sequence save_client_state save_stage_record save_intent release_sequence_locks
    persistable execute_post_shutdown mark_post_shutdown_run set_state
after_stages_step-kept s a e u ok rows w =
    ground (arith, save_sequence-rows_ok (set_state S.wake_gate a).seq e.db)

pub post_shutdown_done-kept :
    (a : ActiveSequence) (e : Executor)
    → e.active_sequence ≡ some a
    → agrees a.seq.state a.seq ≡ true
    → rows_ok e.db.sequences ≡ true
    → a.seq.aborted ≡ false
    → kept (post_shutdown_done a e).1 ≡ true
unfolding post_shutdown_done kept_with evaluate_now save_active write emit set_client_state
    clear_active_sequence save_client_state save_stage_record save_intent release_sequence_locks
    persistable set_state
post_shutdown_done-kept a e u ok rows w = ground (
  arith,
  save_sequence-rows_ok (a).seq e.db,
  save_sequence-rows_ok (set_state S.wake_gate a).seq (save_sequence a.seq e.db),
  save_sequence-rows_ok (set_state S.wake_gate a).seq e.db,
)

pub reconcile_step-kept :
    (s : Setup) (a : ActiveSequence) (o : Obs) (is : List Intent) (i : ℕ) (e : Executor)
    → e.active_sequence ≡ some a
    → agrees a.seq.state a.seq ≡ true
    → rows_ok e.db.sequences ≡ true
    → kept (reconcile_step s o is i e).1 ≡ true
unfolding reconcile_step kept_with evaluate_now save_active write emit set_client_state
    clear_active_sequence save_client_state save_stage_record save_intent release_sequence_locks
    persistable reconcile_client
reconcile_step-kept s a o [] i e u ok rows = ground arith
reconcile_step-kept s a o (j ∷ is) i e u ok rows = ground arith

pub join_step-kept :
    (a : ActiveSequence) (o : Obs) (i : ℕ) (budget : ℤ) (rec : StageRecord) (tasks : Dict Task)
    (e : Executor)
    → e.active_sequence ≡ some a
    → agrees a.seq.state a.seq ≡ true
    → rows_ok e.db.sequences ≡ true
    → kept (join_step o i budget rec tasks e).1 ≡ true
unfolding join_step kept_with evaluate_now save_active write emit set_client_state
    clear_active_sequence save_client_state save_stage_record save_intent release_sequence_locks
    persistable
join_step-kept a o i budget rec tasks e u ok rows = ground arith

pub settle_step-kept :
    (s : Setup) (a : ActiveSequence) (o : Obs) (cs : List ClientConfig) (e : Executor)
    → e.active_sequence ≡ some a
    → agrees a.seq.state a.seq ≡ true
    → rows_ok e.db.sequences ≡ true
    → fits settling a ≡ true
    → kept (settle_step s a o cs e).1 ≡ true
unfolding settle_step kept_with evaluate_now save_active write emit set_client_state
    clear_active_sequence save_client_state save_stage_record save_intent release_sequence_locks
    persistable set_state
settle_step-kept s a o [] e u ok rows w =
    ground (arith, save_sequence-rows_ok (set_state S.wake_gate a).seq e.db)
settle_step-kept s a o (c ∷ cs) e u ok rows w =
    ground (arith, save_sequence-rows_ok (set_state S.wake_gate a).seq e.db)

pub settle_wait_step-kept :
    (a : ActiveSequence) (o : Obs) (c : ClientConfig) (deadline : ℕ) (cs : List ClientConfig)
    (e : Executor)
    → e.active_sequence ≡ some a
    → agrees a.seq.state a.seq ≡ true
    → rows_ok e.db.sequences ≡ true
    → kept (settle_wait_step o c deadline cs e).1 ≡ true
unfolding settle_wait_step kept_with evaluate_now save_active write emit set_client_state
    clear_active_sequence save_client_state save_stage_record save_intent release_sequence_locks
    persistable
settle_wait_step-kept a o c deadline cs e u ok rows = ground arith

pub settle_pause_step-kept :
    (a : ActiveSequence) (o : Obs) (c : ClientConfig) (deadline : ℕ) (cs : List ClientConfig)
    (e : Executor)
    → e.active_sequence ≡ some a
    → agrees a.seq.state a.seq ≡ true
    → rows_ok e.db.sequences ≡ true
    → fits settling a ≡ true
    → kept (settle_pause_step a o c deadline cs e).1 ≡ true
unfolding settle_pause_step kept_with evaluate_now save_active write emit set_client_state
    clear_active_sequence save_client_state save_stage_record save_intent release_sequence_locks
    persistable set_state
settle_pause_step-kept a o c deadline cs e u ok rows w =
    ground (arith, save_sequence-rows_ok (set_state S.wake_gate a).seq e.db)
