-- ===== src/Conditions/Dwell.antt =====
-- internal/conditions/dwell.go: the timers behind `for:`, and their persistence.
pub mod Held
pub mod Restart
use canarium.Common.{
  ℕ, String, Bool, true, false, not, ◌&&◌, ◌||◌, List, [], ◌∷◌, Option, none, some, is_some,
  if◌then◌else◌,
}
use canarium.Common.Int.{ℤ, pos, ltb_ℤ, leb_ℤ, eqb_ℤ, add64, time_sub, is_zero_time}
use canarium.Common.Dict.{Dict, lookup, insert, erase}
use canarium.Facts.Types.{
  Trilean, unavailable, definite_true, definite_false, is_true, is_unavailable,
}

-- Durations are int64 nanoseconds; an instant of 0 is Go's zero time.
pub record DwellTracker : Type 0 where
  pub required : ℤ
  pub started_at : ℕ
  pub credited : ℤ
  pub satisfied : Bool
  pub last_seen : ℕ
  pub last_persisted : ℕ

-- `&DwellTracker{Required: required}`
abbrev pub new_tracker : ℤ → DwellTracker
new_tracker r = record {
  required = r;
  started_at = 0;
  credited = pos 0;
  satisfied = false;
  last_seen = 0;
  last_persisted = 0;
}

-- `DwellTracker.Elapsed`
unfoldable pub elapsed : DwellTracker → ℕ → ℤ
elapsed d now =
    let since = time_sub now d.started_at in
    if is_zero_time d.started_at
    then d.credited
    else add64 d.credited (if ltb_ℤ since (pos 0) then pos 0 else since)

pub record DwellRecord : Type 0 where
  pub required_ns : ℤ
  pub elapsed_ns : ℤ
  pub satisfied : Bool
  pub last_seen : ℕ

-- The table behind `DwellStore`: what was written, and whether a write goes through. A failed
-- write changes nothing and is reported.
pub record DwellStore : Type 0 where
  pub rows : Dict DwellRecord
  pub writable : Bool

-- The part of the evaluator that the timers live in. `errors` are the keys that were handed to
-- `onPersistError`, latest first.
pub record Timers : Type 0 where
  pub trackers : Dict DwellTracker
  pub store : Option DwellStore
  pub errors : List String

-- The clauses of `SetDwellStore` that restore one record.
abbrev pub restored : DwellRecord → DwellTracker
restored rec = record {
  required = rec.required_ns;
  started_at = 0;
  credited = rec.elapsed_ns;
  satisfied = rec.satisfied;
  last_seen = rec.last_seen;
  last_persisted = 0;
}

unfoldable pub restore_all : Dict DwellRecord → Dict DwellTracker → Dict DwellTracker
restore_all [] ts = ts
restore_all ((key, rec) ∷ rs) ts = restore_all rs (insert key (restored rec) ts)

-- `SetDwellStore`, the load having succeeded
unfoldable pub set_dwell_store : DwellStore → Timers → Timers
set_dwell_store s e = record e { store = some s; trackers = restore_all s.rows e.trackers }

-- `lastPersistBasis`
unfoldable pub last_persist_basis : DwellTracker → ℕ
last_persist_basis d = if is_zero_time d.last_seen then d.started_at else d.last_seen

abbrev pub record_of : DwellTracker → DwellRecord
record_of d = record {
  required_ns = d.required;
  elapsed_ns = elapsed d (last_persist_basis d);
  satisfied = d.satisfied;
  last_seen = d.last_seen;
}

-- `persistLocked`: the tracker with its time of persistence, and the store and errors behind it.
unfoldable pub persist : String → DwellTracker → Timers → Timers
persist key d e = elim e.store [
  | none ↦ record e { trackers = insert key d e.trackers }
  | some s ↦
      let d' = record d { last_persisted = d.last_seen } in
      if s.writable
      then record e {
        trackers = insert key d' e.trackers;
        store = some (record s { rows = insert key (record_of d) s.rows });
      }
      else record e { trackers = insert key d' e.trackers; errors = key ∷ e.errors }
]

-- 30 * time.Second
abbrev pub dwell_persist_interval : ℤ
dwell_persist_interval = pos 30000000000

unfoldable pub persist_throttled : String → DwellTracker → ℕ → Timers → Timers
persist_throttled key d now e =
    let skip = record e { trackers = insert key d e.trackers } in
    if not (is_some e.store) || is_zero_time d.started_at
    then skip
    else if not (is_zero_time d.last_persisted)
        && ltb_ℤ (time_sub now d.last_persisted) dwell_persist_interval
    then skip
    else persist key d e

-- The tracker that `applyDwell` works on: the one in the map or a new one, with its requirement
-- and time of evaluation set.
unfoldable pub seen_tracker : Option DwellTracker → ℤ → ℕ → DwellTracker
seen_tracker none required now = record (new_tracker required) { last_seen = now }
seen_tracker (some d) required now = record d { required = required; last_seen = now }

abbrev pub has_progress : DwellTracker → Bool
has_progress d = not (is_zero_time d.started_at) || not (eqb_ℤ d.credited (pos 0)) || d.satisfied

abbrev pub reset_tracker : DwellTracker → DwellTracker
reset_tracker d = record d { started_at = 0; credited = pos 0; satisfied = false }

-- The branch for a result that is not true.
unfoldable pub dwell_broken : String → DwellTracker → Trilean → Timers → Trilean × Timers
dwell_broken key d current e = (
  if is_unavailable current then unavailable else definite_false,
  if has_progress d
      then persist key (reset_tracker d) e
      else record e { trackers = insert key (reset_tracker d) e.trackers },
)

abbrev pub started_tracker : DwellTracker → ℕ → DwellTracker
started_tracker d now = record d {
  started_at = if is_zero_time d.started_at then now else d.started_at;
}

abbrev pub same_bool : Bool → Bool → Bool
same_bool true b = b
same_bool false b = not b

-- The branch for a true result, on the tracker with its start set.
unfoldable pub dwell_held : String → DwellTracker → ℤ → ℕ → Timers → Trilean × Timers
dwell_held key d required now e =
    let satisfied = leb_ℤ required (elapsed d now) in
    (
      if satisfied then definite_true else definite_false,
      if same_bool satisfied d.satisfied
          then persist_throttled key d now e
          else persist key (record d { satisfied = satisfied }) e,
    )

-- `applyDwell`, the condition given by its key
unfoldable pub apply_dwell : String → Trilean → ℤ → ℕ → Timers → Trilean × Timers
apply_dwell key current required now e =
    let d = seen_tracker (lookup key e.trackers) required now in
    if is_true current
    then dwell_held key (started_tracker d now) required now e
    else dwell_broken key d current e

unfoldable pub reset_dwell : String → Timers → Timers
reset_dwell key e =
    let e' = record e { trackers = erase key e.trackers } in
    elim e.store [
      | none ↦ e'
      | some s ↦
          if s.writable
          then record e' { store = some (record s { rows = erase key s.rows }) }
          else record e' { errors = key ∷ e'.errors }
    ]

pub record DwellSnapshot : Type 0 where
  pub required : ℤ
  pub elapsed : ℤ
  pub satisfied : Bool
  pub active : Bool

abbrev pub snapshot_of : ℕ → DwellTracker → DwellSnapshot
snapshot_of now t = record {
  required = t.required;
  elapsed = elapsed t now;
  satisfied = t.satisfied;
  active = not (is_zero_time t.started_at);
}

unfoldable pub snapshots : ℕ → Dict DwellTracker → Dict DwellSnapshot
snapshots now [] = []
snapshots now ((key, t) ∷ ts) = (key, snapshot_of now t) ∷ snapshots now ts

unfoldable pub dwell_progress : ℕ → Timers → Dict DwellSnapshot
dwell_progress now e = snapshots now e.trackers
