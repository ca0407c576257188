-- ===== src/Engine/Stages/Waits.antt =====
-- The wait before a stage in internal/engine/sequence_run.go: what a hold and an abort do to it.
use canarium.State.Types.{Sequence}
use canarium.Common.Dict.{lookup}
use canarium.State.Saves.{recorded_ponr, save_sequence-recorded}
use canarium.State.Tables.{save_sequence}
use canarium.Config.Types.{StageConfig}
use canarium.Engine.Executor.{emit, write, save_active, evaluate_now, Executor, Setup}
use canarium.Engine.Abort.{should_abort, handle_abort}
use canarium.Engine.Stages.{begin_stage, handle_stage_timeout, wait_step}
use canarium.Engine.Sequence.{
  persistable, cross_ponr, ActiveSequence, consume_proceed, request_abort,
}
use canarium.Common.{some, ℕ, String, Bool, true, false, not, same, ◌==◌, ◌≡◌, arith}
use canarium.Engine.Phase.{Obs, Phase, enter}

-- The loop goes on behind stage `i`, or enters it again.
abbrev pub passes : ℕ → Phase → Bool
passes i (enter j) = not (j == i)
passes i _ = false

-- Under `wait_policy: hold` a wait neither moves on to another stage nor records this one as done.
hold_never_passes :
    (s : Setup) (a : ActiveSequence) (o : Obs) (i deadline : ℕ) (stage : StageConfig) (e : Executor)
    → same stage.wait_policy "hold" ≡ true
    → (passes i (wait_step s a o i deadline stage e).0 ≡ false)
      × ((wait_step s a o i deadline stage e).1.db.stage_records ≡ e.db.stage_records)
unfolding wait_step should_abort handle_abort handle_stage_timeout consume_proceed evaluate_now
    save_active write emit save_sequence
hold_never_passes s a o i deadline stage e w = (ground arith, ground arith)

-- An abort that is accepted stops the sequence at its next look, as long as the point of no return
-- is not crossed; behind that point none is accepted and the sequence never stops for one.
abort_until_ponr :
    (s : Setup) (a : ActiveSequence) (reason : String) (now : ℕ) (e : Executor)
    → let (a', granted) = request_abort reason a in
      (granted ≡ not a.seq.ponr_crossed) × ((should_abort s a' now e).0 ≡ not a.seq.ponr_crossed)
unfolding request_abort should_abort
abort_until_ponr s a reason now e = (ground arith, ground arith)

-- Where the database takes writes, the start of a stage that crosses the point of no return leaves
-- the mark in the sequence's row.
crossing_is_saved :
    (a : ActiveSequence) (stage : StageConfig) (e : Executor)
    → e.db_ok ≡ true
    → stage.point_of_no_return ≡ true
    → a.seq.ponr_crossed ≡ false
    → recorded_ponr (lookup a.seq.id (begin_stage a stage e).db.sequences) ≡ some true
unfolding begin_stage cross_ponr save_active write emit persistable
crossing_is_saved a stage e ok ponr fresh =
    let crossed : Sequence = record (a.seq) { ponr_crossed = true } in
    rw (fresh, ponr, ok) (save_sequence-recorded crossed e.db).1
