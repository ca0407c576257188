-- ===== src/Engine/Machine/CalledOff.antt =====
-- An abort that an operator requests, and the wake that follows (internal/engine/sequence_run.go).
use canarium.Engine.Machine.Sent.{wakes, powers_off}
use canarium.Engine.Executor.{Executor}
use canarium.Engine.Sequence.{ActiveSequence}
use canarium.Common.{Bool, false, true, not, ◌&&◌, List, [], ◌∷◌, Option, none, some}
use canarium.Engine.Machine.{Input, tick}
use canarium.Engine.Phase.{
  Result, Phase, settle, settle_wait, settle_pause, gate, gate_pause, wake_next,
}

-- Between the abort and the first client of the wake.
abbrev pub before_wake : Phase → Bool
before_wake (settle _) = true
before_wake (settle_wait _ _ _) = true
before_wake (settle_pause _ _ _) = true
before_wake gate = true
before_wake gate_pause = true
before_wake (wake_next _) = true
before_wake _ = false

-- There, on request, or over.
unfoldable pub called_off_with : Phase → Option ActiveSequence → Bool
called_off_with phase none = not (powers_off phase) && not (wakes phase)
called_off_with phase (some a) = a.abort_requested && before_wake phase

abbrev pub called_off : Result → Bool
called_off (phase, e) = called_off_with phase e.active_sequence

-- A policy tick, which may start a new sequence behind the end of this one.
abbrev pub is_tick : Input → Bool
is_tick (tick _) = true
is_tick _ = false

abbrev pub no_tick : List Input → Bool
no_tick [] = true
no_tick (i ∷ is) = not (is_tick i) && no_tick is
