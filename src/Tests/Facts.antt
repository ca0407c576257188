-- ===== src/Tests/Facts.antt =====
-- The theorems on facts, names and locks at concrete inputs.
use canarium.Api.Limiter.Lockout.{threshold_locks_out}
use canarium.Common.Text.{cut_dot, concat}
use canarium.Common.Dict.{lookup}
use Prim.Native.Nat.{max}
use canarium.State.Tables.{client_lock_holder, acquire_client_lock}
use canarium.Facts.Keys.{dotted_source_never_stale, fact_good_iff}
use canarium.Tests.Fixtures.{empty_db, fact_at, low_store}
use canarium.State.Locks.{lock_is_exclusive, release, acquire, lock_steps}
use canarium.Facts.Store.{fact_key, refresh_quality, Store, get}
use canarium.Api.Limiter.{record_failure, allow, FailureEntry, FailureLimiter}
use canarium.Common.{
  eq_iff, ℕ, ◌-◌, ◌≤◌, ◌*◌, ◌≢◌, ◌↔◌, String, true, false, [], ◌∷◌, ◌≡◌, refl, arith, leb,
}
use canarium.Common.Int.{time_sub, time_add, pos}
use canarium.Facts.Types.{float64, good, unknown}

abbrev later : ℕ
later = 10000000006

fact_good_iff_example :
    ((get (refresh_quality 6 low_store) (fact_key "ups" "charge")).1 ≡ good)
    ↔ ((good ≢ unknown) × (6 - 5 ≤ 2 * max 5000000000 1000000000))
unfolding lookup fact_key cut_dot concat
fact_good_iff_example =
    fact_good_iff "ups" "charge" 6 5000000000 low_store
      {f = fact_at "ups.charge" (float64 0x4010_0000_0000_0000) good 5} refl refl refl
      (ground arith) (ground arith) (ground arith)

abbrev dotted_store : Store
dotted_store = record {
  facts =
      ("rack.ups.charge", fact_at "rack.ups.charge" (float64 0x4010_0000_0000_0000) good 5) ∷ [];
  decls = [];
  polls = ("rack.ups", pos 5000000000) ∷ [];
}

dotted_source_never_stale_example :
    get (refresh_quality (1000 * later) dotted_store) (fact_key "rack.ups" "charge")
    ≡ get dotted_store (fact_key "rack.ups" "charge")
unfolding cut_dot lookup
dotted_source_never_stale_example =
    dotted_source_never_stale "rack.ups" "charge" (1000 * later) dotted_store refl refl

abbrev second_id : String
second_id = "seq_2"

seq_2_is_other : second_id ≢ "seq_1"
seq_2_is_other = λ p. ground (arith, eq_iff "seq_2" "seq_1", p)

lock_is_exclusive_example :
    let d' =
      lock_steps
        (acquire "nas" "seq_2" ∷ release "seq_2" ∷ [])
        (acquire_client_lock "nas" "seq_1" empty_db).1 in
    ((acquire_client_lock "nas" "seq_2" d').0 ≡ false)
    × ((acquire_client_lock "nas" "seq_1" d').0 ≡ true)
    × (client_lock_holder "nas" d' ≡ "seq_1")
unfolding acquire_client_lock lookup
lock_is_exclusive_example =
    lock_is_exclusive "nas" "seq_1" "seq_2" (acquire "nas" "seq_2" ∷ release "seq_2" ∷ []) empty_db
      refl (seq_2_is_other, (seq_2_is_other, tt)) seq_2_is_other

abbrev near_limit : FailureEntry
near_limit = record { failures = 4; first_failed = 1; locked_until = 0 }

abbrev busy_limiter : FailureLimiter
busy_limiter = record {
  entries = ("10.0.0.9", near_limit) ∷ [];
  max_failures = 5;
  window = pos 900000000000;
  lockout = pos 900000000000;
  last_gc = 1;
}

threshold_locks_out_example :
    (allow "10.0.0.9" 30 (record_failure "10.0.0.9" 20 busy_limiter)).0
    ≡ leb (time_add 20 (pos 900000000000)) 30
unfolding lookup time_sub
threshold_locks_out_example =
    threshold_locks_out "10.0.0.9" 20 30 busy_limiter near_limit (refl, tt) refl refl (ground arith)
