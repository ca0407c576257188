-- ===== src/Api/Limiter/Lockout.antt =====
-- Whom `failureLimiter` (internal/api/ratelimit.go) refuses, and for how long.
use canarium.Common.Int.{time_add, ℤ}
use canarium.Api.Limiter.{
  rolled_over, failed_again, next_entry, record_failure, FailureLimiter, gc, FailureEntry,
  allow_entry, sweep, allow,
}
use canarium.Common.{
  ℕ, suc, ◌≤◌, String, Bool, false, not, [], ◌∷◌, Option, none, some, ltb, leb, same, ◌≡◌, ◌≢◌,
  refl, arith, eq_iff, inl, inr, Bool-cases,
}
use canarium.Common.Dict.{lookup-insert, insert, Dict, lookup, lookup-insert_self, lookup-insert_ne}

-- A map has one entry for each key.
abbrev HasUniqueKeys : Dict FailureEntry → Type 0
HasUniqueKeys [] = Unit
HasUniqueKeys ((k, e) ∷ es) = (lookup k es ≡ none) × HasUniqueKeys es

-- What the entries as they stand say.
abbrev locked : ℕ → Option FailureEntry → Bool
locked now none = false
locked now (some e) = ltb now e.locked_until

lookup-sweep-none :
    (window : ℤ) (now : ℕ) (key : String) (es : Dict FailureEntry)
    → lookup key es ≡ none
    → lookup key (sweep window now es) ≡ none
unfolding sweep lookup
lookup-sweep-none window now key [] w = refl
lookup-sweep-none window now key ((k, e) ∷ es) w =
    ground (arith, eq_iff k key, lookup-sweep-none window now key es)

-- Sweeping takes out no entry that locks.
locked-sweep :
    (window : ℤ) (now : ℕ) (key : String) (es : Dict FailureEntry)
    → HasUniqueKeys es
    → locked now (lookup key (sweep window now es)) ≡ locked now (lookup key es)
unfolding sweep lookup
locked-sweep window now key [] w = refl
locked-sweep window now key ((k, e) ∷ es) (fresh, w) =
    ground (
      arith,
      eq_iff k key,
      locked-sweep window now key es w,
      lookup-sweep-none window now k es fresh,
    )

allow_entry-locked :
    (key : String) (now : ℕ) (x : Option FailureEntry) (l : FailureLimiter)
    → (allow_entry key now x l).0 ≡ not (locked now x)
unfolding allow_entry
allow_entry-locked key now none l = refl
allow_entry-locked key now (some e) l = ground arith

allow-locked :
    (key : String) (now : ℕ) (l : FailureLimiter)
    → HasUniqueKeys l.entries
    → (allow key now l).0 ≡ not (locked now (lookup key l.entries))
unfolding allow gc
allow-locked key now l w = ground (
  arith,
  allow_entry-locked key now (lookup key (gc now l).entries) (gc now l),
  locked-sweep l.window now key l.entries w,
)

lookup-insert-none :
    (k j : String) (e : FailureEntry) (es : Dict FailureEntry)
    → lookup j es ≡ none
    → same k j ≡ false
    → lookup j (insert k e es) ≡ none
lookup-insert-none k j e es w ne = ground (arith, w, lookup-insert k j e es)

insert-HasUniqueKeys :
    (k : String) (e : FailureEntry) (es : Dict FailureEntry)
    → HasUniqueKeys es
    → HasUniqueKeys (insert k e es)
unfolding insert lookup
insert-HasUniqueKeys k e [] w = (refl, tt)
insert-HasUniqueKeys k e ((j, d) ∷ es) (fresh, w) = elim (Bool-cases (same j k)) [
  | inl old ↦ rw old (ground (arith, fresh, eq_iff j k), w)
  | inr new ↦ rw new (
    lookup-insert-none k j e es fresh (ground (arith, new, eq_iff j k, eq_iff k j)),
    insert-HasUniqueKeys k e es w,
  )
]

record_failure-HasUniqueKeys :
    (key : String) (now : ℕ) (l : FailureLimiter)
    → HasUniqueKeys l.entries
    → HasUniqueKeys (record_failure key now l).entries
unfolding record_failure
record_failure-HasUniqueKeys key now l w =
    insert-HasUniqueKeys key (next_entry now l (lookup key l.entries)) l.entries w

-- The failure that reaches the threshold within the window locks its source out: whatever is swept,
-- it is refused until exactly the lockout has passed, and allowed from then on.
pub threshold_locks_out :
    (key : String) (now later : ℕ) (l : FailureLimiter) (e : FailureEntry)
    → HasUniqueKeys l.entries
    → lookup key l.entries ≡ some e
    → rolled_over l.window now e ≡ false
    → l.max_failures ≤ suc e.failures
    → (allow key later (record_failure key now l)).0 ≡ leb (time_add now l.lockout) later
unfolding record_failure next_entry failed_again
threshold_locks_out key now later l e w there fresh full =
    let l' = record_failure key now l in
    let entry = next_entry now l (lookup key l.entries) in
    ground (
      arith,
      allow-locked key later l' (record_failure-HasUniqueKeys key now l w),
      lookup-insert_self key entry l.entries,
      there,
    )

-- A source's failures do not lock another one out.
failures_are_per_source :
    (key other : String) (now later : ℕ) (l : FailureLimiter)
    → HasUniqueKeys l.entries
    → key ≢ other
    → (allow other later (record_failure key now l)).0 ≡ (allow other later l).0
unfolding record_failure
failures_are_per_source key other now later l w ne =
    let entry = next_entry now l (lookup key l.entries) in
    ground (
      arith,
      allow-locked other later (record_failure key now l)
          (record_failure-HasUniqueKeys key now l w),
      allow-locked other later l w,
      lookup-insert_ne key other entry l.entries ne,
    )
