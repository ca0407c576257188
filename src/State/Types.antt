-- ===== src/State/Types.antt =====
-- The records of internal/state/db.go and internal/state/intents.go. JSON columns hold their
-- decoded values; instants are nanoseconds.
use canarium.Common.{ℕ, String, Bool, true, false, List, Option}
use canarium.Common.Dict.{Dict}

-- `SeqState…` of internal/engine/active_sequence.go
pub data SequenceState : Type 0 where
  shutting_down aborting aborted wake_gate waking completed failed : SequenceState

pub record ResolvedAddr : Type 0 where
  pub ip : String
  pub mac : String
  pub hostname : String
  pub resolved_at : ℕ

pub record Sequence : Type 0 where
  pub id : String
  pub plan_name : String
  pub state : SequenceState
  pub current_stage : ℕ
  pub ponr_crossed : Bool
  pub aborted : Bool
  pub post_shutdown_run : Bool
  pub started_at : ℕ
  pub completed_at : Option ℕ
  pub config_snapshot : String
  pub pre_sequence_state : Dict String
  pub resolved_addrs : Dict ResolvedAddr

pub record ActionResult : Type 0 where
  pub success : Bool
  pub message : String

pub data IntentStatus : Type 0 where
  dispatching dispatched reconciled : IntentStatus

abbrev pub is_dispatching : IntentStatus → Bool
is_dispatching dispatching = true
is_dispatching _ = false

pub record Intent : Type 0 where
  pub id : String
  pub sequence_id : String
  pub client_name : String
  pub action : String
  pub timestamp : ℕ
  pub status : IntentStatus
  pub result : Option ActionResult

pub record ClientResult : Type 0 where
  pub state : String
  pub started_at : ℕ
  pub completed_at : ℕ
  pub error : String

pub record StageRecord : Type 0 where
  pub sequence_id : String
  pub stage_index : ℕ
  pub stage_name : String
  pub started_at : ℕ
  pub completed_at : Option ℕ
  pub clients : Dict ClientResult

-- The tables, each under its primary key. `client_locks` and `client_states` hold the sequence
-- and the state; `kv` is the key-value table.
pub record Database : Type 0 where
  pub sequences : Dict Sequence
  pub client_states : Dict String
  pub client_locks : Dict String
  pub stage_records : List StageRecord
  pub intents : Dict Intent
  pub kv : Dict String
