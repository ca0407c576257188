-- ===== src/Engine/Resume/FirstOpen.antt =====
-- Where a sequence is taken up after a restart (internal/engine/sequence_run.go).
use canarium.Engine.Executor.{Executor}
use canarium.State.Types.{StageRecord}
use canarium.Common.{any, same, is_some, ◌==◌, String, Bool, ◌&&◌, ℕ, zero, suc, true, List}

-- Some row says that the sequence has completed the stage.
abbrev pub recorded : String → List StageRecord → ℕ → Bool
recorded id rows i =
    any (λ row. same row.sequence_id id && is_some row.completed_at && row.stage_index == i) rows

-- Every stage before `n` has such a row.
abbrev pub recorded_below : String → List StageRecord → ℕ → Bool
recorded_below id rows zero = true
recorded_below id rows (suc n) = recorded id rows n && recorded_below id rows n
