-- ===== src/Conditions/Dwell/Restart.antt =====
-- What a restart does to a timer: `SetDwellStore` and the first evaluations behind it
-- (internal/conditions/dwell.go).
use canarium.Common.{
  ℕ, ◌^◌, ◌<◌, ◌≡◌, refl, String, true, [], ◌∷◌, none, some, arith, if◌then◌else◌, eq_iff,
}
use canarium.Common.Int.{ℤ, pos, leb_ℤ, time_sub, add64}
use canarium.Common.Dict.{Dict, lookup, insert, lookup-insert, lookup-insert_self}
use canarium.Facts.Types.{definite_true, definite_false}
use canarium.Conditions.Dwell.{
  DwellTracker, DwellRecord, DwellStore, Timers, restored, restore_all, set_dwell_store,
  apply_dwell, seen_tracker, dwell_held, elapsed, persist, record_of, last_persist_basis,
}

-- No key occurs twice among the rows, as in a table with a primary key.
abbrev pub IsTable : Dict DwellRecord → Type 0
IsTable [] = Unit
IsTable ((k, r) ∷ rs) = (lookup k rs ≡ none) × IsTable rs

restore_other :
    (key : String) (rs : Dict DwellRecord) (ts : Dict DwellTracker)
    → lookup key rs ≡ none
    → lookup key (restore_all rs ts) ≡ lookup key ts
unfolding restore_all lookup
restore_other key [] ts h = refl
restore_other key ((k, r) ∷ rs) ts h = ground (
  arith,
  eq_iff k key,
  lookup-insert k key (restored r) ts,
  restore_other key rs (insert k (restored r) ts),
)

restore_row :
    (key : String) (rs : Dict DwellRecord) (ts : Dict DwellTracker) {r : DwellRecord}
    → IsTable rs
    → lookup key rs ≡ some r
    → lookup key (restore_all rs ts) ≡ some (restored r)
unfolding restore_all lookup
restore_row key [] ts w h = ground arith
restore_row key ((k, r') ∷ rs) ts {r} w h = ground (
  arith,
  eq_iff k key,
  lookup-insert k key (restored r') ts,
  restore_other key rs (insert k (restored r') ts),
  restore_row key rs (insert k (restored r') ts) {r = r} w.1,
)

-- The first true evaluation after a restart counts what was saved, and nothing of the time that
-- the daemon was down, whenever it comes.
restart_credits_saved :
    (key : String) (required : ℤ) (now : ℕ) (s : DwellStore) (e : Timers) {r : DwellRecord} {n : ℕ}
    → IsTable s.rows
    → lookup key s.rows ≡ some r
    → r.elapsed_ns ≡ pos n
    → n < 2 ^ 63
    → 0 < now
    → (apply_dwell key definite_true required now (set_dwell_store s e)).0
      ≡ (if leb_ℤ required (pos n) then definite_true else definite_false)
unfolding apply_dwell set_dwell_store seen_tracker dwell_held elapsed time_sub add64
restart_credits_saved key required now s e w h saved small positive =
    ground (arith, restore_row key s.rows e.trackers w h)

-- What is saved of a running timer is the credit that it has at its last evaluation.
persist_saves_elapsed :
    (key : String) (d : DwellTracker) (e : Timers) {s : DwellStore}
    → e.store ≡ some s
    → s.writable ≡ true
    → 0 < d.last_seen
    → (r : DwellRecord) × (s' : DwellStore) × ((persist key d e).store ≡ some s')
      × (lookup key s'.rows ≡ some r)
      × (r.elapsed_ns ≡ elapsed d d.last_seen)
      × (r.satisfied ≡ d.satisfied)
unfolding persist last_persist_basis
persist_saves_elapsed key d e {s} h w seen = (
  record_of d,
  record s { rows = insert key (record_of d) s.rows },
  ground arith,
  lookup-insert_self key (record_of d) s.rows,
  ground arith,
  refl,
)
