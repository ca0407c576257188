-- ===== src/State/Saves.antt =====
-- What a saved row says when it is read back (internal/state/db.go).
use canarium.Common.Dict.{lookup-insert_self, lookup}
use canarium.State.Tables.{updated_sequence, save_sequence}
use canarium.State.Types.{SequenceState, Database, Sequence}
use canarium.Common.{refl, Bool, Option, none, some, ◌≡◌, inl, inr, Option-cases}

-- The state column of a sequence's row.
abbrev pub recorded_state : Option Sequence → Option SequenceState
recorded_state none = none
recorded_state (some seq) = some seq.state

-- Its column of the point of no return.
abbrev pub recorded_ponr : Option Sequence → Option Bool
recorded_ponr none = none
recorded_ponr (some seq) = some seq.ponr_crossed

-- A sequence that is saved, new or again, is read back with its state and its mark of the point of
-- no return.
pub save_sequence-recorded :
    (seq : Sequence) (d : Database)
    → (recorded_state (lookup seq.id (save_sequence seq d).sequences) ≡ some seq.state)
      × (recorded_ponr (lookup seq.id (save_sequence seq d).sequences) ≡ some seq.ponr_crossed)
unfolding save_sequence
save_sequence-recorded seq d =
    let row = updated_sequence seq (lookup seq.id d.sequences) in
    let read = lookup-insert_self seq.id row d.sequences in
    elim (Option-cases (lookup seq.id d.sequences)) [
      | inl fresh ↦ (rw (read, fresh) refl, rw (read, fresh) refl)
      | inr (old, there) ↦ (rw (read, there) refl, rw (read, there) refl)
    ]
