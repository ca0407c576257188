-- ===== src/State/Tables.antt =====
-- The statements of internal/state/db.go and internal/state/intents.go, on the tables. Each gives
-- the tables that it leaves when it succeeds; whether it does is its caller's concern.
use canarium.Common.{
  ℕ, String, Bool, true, false, ◌&&◌, List, [], ◌∷◌, Option, none, some, ltb, ◌==◌, same, is_some,
  if◌then◌else◌,
}
use canarium.Common.Dict.{Dict, lookup, insert, erase}
use canarium.State.Types.{
  SequenceState, completed, failed, aborted, Sequence, reconciled, is_dispatching, Intent,
  StageRecord, Database,
}

-- The columns that the upsert of `SaveSequence` sets on a row that exists.
abbrev pub updated_sequence : Sequence → Option Sequence → Sequence
updated_sequence seq none = seq
updated_sequence seq (some row) = record row {
  state = seq.state;
  current_stage = seq.current_stage;
  ponr_crossed = seq.ponr_crossed;
  completed_at = seq.completed_at;
  aborted = seq.aborted;
  post_shutdown_run = seq.post_shutdown_run;
}

unfoldable pub save_sequence : Sequence → Database → Database
save_sequence seq d = record d {
  sequences = insert seq.id (updated_sequence seq (lookup seq.id d.sequences)) d.sequences;
}

abbrev pub is_terminal : SequenceState → Bool
is_terminal completed = true
is_terminal failed = true
is_terminal aborted = true
is_terminal _ = false

-- The row of the latest start among those that are not finished. The starts are compared as
-- instants, where the code's statement compares the column's text.
unfoldable pub latest_unfinished : Dict Sequence → Option Sequence
latest_unfinished [] = none
latest_unfinished ((_, s) ∷ rows) =
    let rest = latest_unfinished rows in
    if is_terminal s.state then rest else elim rest [
      | none ↦ some s
      | some r ↦ if ltb s.started_at r.started_at then some r else some s
    ]

unfoldable pub get_active_sequence : Database → Option Sequence
get_active_sequence d = latest_unfinished d.sequences

unfoldable pub get_sequence_by_id : String → Database → Option Sequence
get_sequence_by_id id d = lookup id d.sequences

unfoldable pub save_client_state : String → String → Database → Database
save_client_state name state d = record d { client_states = insert name state d.client_states }

abbrev pub updated_intent : Intent → Option Intent → Intent
updated_intent i none = i
updated_intent i (some row) = record row { status = i.status; result = i.result }

unfoldable pub save_intent : Intent → Database → Database
save_intent i d = record d {
  intents = insert i.id (updated_intent i (lookup i.id d.intents)) d.intents;
}

abbrev pub same_stage : StageRecord → StageRecord → Bool
same_stage a b = same a.sequence_id b.sequence_id && a.stage_index == b.stage_index

unfoldable pub upsert_stage : StageRecord → List StageRecord → List StageRecord
upsert_stage rec [] = rec ∷ []
upsert_stage rec (row ∷ rows) =
    if same_stage rec row
    then record row { completed_at = rec.completed_at; clients = rec.clients } ∷ rows
    else row ∷ upsert_stage rec rows

unfoldable pub save_stage_record : StageRecord → Database → Database
save_stage_record rec d = record d { stage_records = upsert_stage rec d.stage_records }

-- The indices of a sequence's completed stages (`GetCompletedStages`); their order is not used.
unfoldable pub completed_stages : String → List StageRecord → List ℕ
completed_stages id [] = []
completed_stages id (row ∷ rows) =
    if same row.sequence_id id && is_some row.completed_at
    then row.stage_index ∷ completed_stages id rows
    else completed_stages id rows

-- Into a list in the order of the timestamps, before those of the same instant.
unfoldable pub by_timestamp : Intent → List Intent → List Intent
by_timestamp i [] = i ∷ []
by_timestamp i (j ∷ js) =
    let rest = by_timestamp i js in if ltb j.timestamp i.timestamp then j ∷ rest else i ∷ j ∷ js

-- `PendingIntents`, in the order of their timestamps; the code compares them as text.
unfoldable pub pending_intents : String → Dict Intent → List Intent
unfolding by_timestamp
pending_intents id [] = []
pending_intents id ((_, i) ∷ is) =
    if same i.sequence_id id && is_dispatching i.status
    then by_timestamp i (pending_intents id is)
    else pending_intents id is

-- `SetKV` and `GetKV`, which gives "" for a key that is not there
unfoldable pub set_kv : String → String → Database → Database
set_kv key value d = record d { kv = insert key value d.kv }

unfoldable pub get_kv : String → Database → String
get_kv key d = elim (lookup key d.kv) [ none ↦ "" | some v ↦ v ]

-- The `INSERT ... ON CONFLICT` of `AcquireClientLock`: a row changes unless another sequence holds
-- it.
unfoldable pub acquire_client_lock : String → String → Database → Bool × Database
acquire_client_lock client id d = elim (lookup client d.client_locks) [
  | none ↦ (true, record d { client_locks = insert client id d.client_locks })
  | some holder ↦ (same holder id, d)
]

unfoldable pub client_lock_holder : String → Database → String
client_lock_holder client d = elim (lookup client d.client_locks) [
  | none ↦ ""
  | some holder ↦ holder
]

unfoldable pub release_client_lock : String → Database → Database
release_client_lock client d = record d { client_locks = erase client d.client_locks }

unfoldable pub without_holder : String → Dict String → Dict String
without_holder id [] = []
without_holder id ((client, holder) ∷ rows) =
    let rest = without_holder id rows in if same holder id then rest else (client, holder) ∷ rest

unfoldable pub release_sequence_locks : String → Database → Database
release_sequence_locks id d = record d { client_locks = without_holder id d.client_locks }

-- The `UPDATE sequences` of `FailOrphanedSequence`.
unfoldable pub fail_sequence : String → ℕ → Dict Sequence → Dict Sequence
fail_sequence id now [] = []
fail_sequence id now ((key, s) ∷ rows) =
    let rest = fail_sequence id now rows in
    if same key id
    then (key, record s { state = failed; completed_at = some now }) ∷ rest
    else (key, s) ∷ rest

unfoldable pub close_intents : String → String → Dict Intent → Dict Intent
close_intents id reason [] = []
close_intents id reason ((key, i) ∷ is) =
    let rest = close_intents id reason is in
    if same i.sequence_id id && is_dispatching i.status
    then (
      key,
      record i {
        status = reconciled;
        result = some (record { success = false; message = reason });
      },
    )
      ∷ rest
    else (key, i) ∷ rest

unfoldable pub fail_orphaned_sequence : String → String → ℕ → Database → Database
fail_orphaned_sequence id reason now d = record d {
  sequences = fail_sequence id now d.sequences;
  client_locks = without_holder id d.client_locks;
  intents = close_intents id reason d.intents;
}
