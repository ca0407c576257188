-- ===== src/Engine/Resume/Restored.antt =====
-- What a restart makes of the sequence that it finds (`restoreState` of internal/engine/executor.go).
use canarium.State.Tables.{get_active_sequence}
use canarium.Config.Types.{PlanConfig}
use canarium.Engine.Sequence.{new_active_sequence, ActiveSequence, set_current_stage}
use canarium.Engine.Executor.{put, find_plan_in, Executor, Setup, write}
use canarium.Engine.Machine.Parts.{sound, sound_with}
use canarium.State.Types.{SequenceState, Sequence}
use canarium.Engine.Resume.{
  restore_clients, restore_plan, restore_sequence, restore_state, resume_sequence,
}
use canarium.State.Types as S
use canarium.Common.{ℕ, Bool, true, false, not, ◌&&◌, Option, none, some, ◌≡◌, refl, arith}

-- The marks of a row agree with its state: one that aborts is aborted short of its point of no return,
-- one that shuts down is not aborted. A row that has ended is not taken up.
abbrev pub agrees : SequenceState → Sequence → Bool
agrees S.aborting q = q.aborted && not q.ponr_crossed
agrees S.aborted q = false
agrees S.shutting_down q = not q.aborted
agrees S.completed q = false
agrees S.failed q = false
agrees S.wake_gate q = true
agrees S.waking q = true

abbrev pub row_agrees : Option Sequence → Bool
row_agrees none = true
row_agrees (some q) = agrees q.state q

resume_sequence-sound :
    (s : Setup) (a : ActiveSequence) (e : Executor)
    → e.active_sequence ≡ some a
    → agrees a.seq.state a.seq ≡ true
    → sound (resume_sequence s a e) ≡ true
unfolding resume_sequence sound_with set_current_stage
resume_sequence-sound s a e u w = ground arith

restore_plan-sound :
    (s : Setup) (now : ℕ) (q : Sequence) (x : Option PlanConfig) (e : Executor)
    → e.active_sequence ≡ none
    → agrees q.state q ≡ true
    → sound (restore_plan s now q x e) ≡ true
unfolding restore_plan sound_with write new_active_sequence
restore_plan-sound s now q none e u w = ground arith
restore_plan-sound s now q (some plan) e u w =
    let a = new_active_sequence q plan in resume_sequence-sound s a (put a e) refl w

restore_sequence-sound :
    (s : Setup) (now : ℕ) (x : Option Sequence) (e : Executor)
    → e.active_sequence ≡ none
    → row_agrees x ≡ true
    → sound (restore_sequence s now x e) ≡ true
unfolding restore_sequence sound_with
restore_sequence-sound s now none e u w = ground arith
restore_sequence-sound s now (some q) e u w =
    restore_plan-sound s now q (find_plan_in q.plan_name s.cfg.plans) e u w

-- A restart without an active sequence that finds a row whose marks agree with its state leaves a
-- sound state, whatever it finds of the plan, of stages and of intents.
pub restore_state-sound :
    (s : Setup) (now : ℕ) (e : Executor)
    → e.active_sequence ≡ none
    → row_agrees (get_active_sequence e.db) ≡ true
    → sound (restore_state s now e).1 ≡ true
unfolding restore_state sound_with
restore_state-sound s now e u w =
    let e1 : Executor = record e {
      client_states = restore_clients s e.db.client_states e.client_states;
    } in
    ground (arith, restore_sequence-sound s now (get_active_sequence e.db) e1 u w)
