-- ===== src/Tests/Conditions.antt =====
-- The theorems on conditions at concrete inputs.
use canarium.Conditions.Evaluator.Cut.{false_stops_sampling}
use canarium.Conditions.Explain.Agrees.{explain_agrees}
use canarium.Conditions.Evaluator.Meaning.{has_no_dwell, meaning}
use canarium.Conditions.Evaluator.Monotone.{
  has_no_template, is_current, stale_decides_nothing, IsBelow,
}
use canarium.Tests.Fixtures.{
  fresh_cache-IsCoherent, fact_at, low_charge, never_true, plain, low_store, test_libs,
}
use canarium.Conditions.Evaluator.Refines.{evaluate_refines, Gives}
use canarium.Conditions.Evaluator.{new_evaluator, usable, evaluate, Evaluator}
use canarium.Facts.Store.{Store, get}
use canarium.Conditions.Explain.{explain, result_of}
use canarium.Conditions.Dwell.{Timers, DwellRecord, apply_dwell, DwellTracker, DwellStore}
use canarium.Conditions.Dwell.Held.{dwell_holds, held_for, after, Sample, IsTimely}
use canarium.Facts.Kleene.{◌⊑◌}
use canarium.Conditions.Config.{
  kind, empty_fields, ConditionConfig, condition_config, nested, none_left,
}
use canarium.Facts.Types.{trilean_text, definite_true, definite_false, float64, good}
use canarium.Common.{String, true, false, List, [], ◌∷◌, none, some, ◌≡◌, refl, arith, eq_iff}
use canarium.Common.Int.{pos}
use canarium.Common.Dict.{lookup}

-- The charge is low, and it is not so that the load (never read) is low.
abbrev low_load : ConditionConfig
low_load =
    condition_config
      (record empty_fields {
        condition = "numeric";
        fact = "ups.load";
        below = some 0x4014_0000_0000_0000;
      })
      none_left

abbrev both_low : ConditionConfig
both_low = condition_config (plain "and") (nested low_charge (nested low_load none_left))

abbrev either_low : ConditionConfig
either_low = condition_config (plain "or") (nested low_load (nested low_charge none_left))

abbrev test_evaluator : Evaluator
test_evaluator = new_evaluator low_store

evaluate_refines_example :
    Gives test_libs test_evaluator
      (meaning test_libs both_low 9 low_store)
      (evaluate test_libs both_low 9 test_evaluator)
unfolding has_no_dwell new_evaluator
evaluate_refines_example =
    evaluate_refines test_libs both_low 9 test_evaluator refl fresh_cache-IsCoherent

-- The load is read too.
abbrev full_store : Store
full_store = record low_store {
  facts =
      ("ups.charge", fact_at "ups.charge" (float64 0x4010_0000_0000_0000) good 5)
      ∷ ("ups.load", fact_at "ups.load" (float64 0x4030_0000_0000_0000) good 6)
      ∷ [];
}

low_store-IsBelow : IsBelow low_store full_store
unfolding get lookup usable
low_store-IsBelow = record { value = same_value; quality = same_quality }
  where
    same_value :
        (key : String)
        → is_current low_store key ≡ true
        → (get full_store key).0 ≡ (get low_store key).0
    same_value key u = ground (arith, eq_iff "ups.charge" key, eq_iff "ups.load" key)

    same_quality :
        (key : String)
        → is_current low_store key ≡ true
        → (get full_store key).1 ≡ (get low_store key).1
    same_quality key u = ground (arith, eq_iff "ups.charge" key, eq_iff "ups.load" key)

stale_decides_nothing_example :
    (evaluate test_libs either_low 9 test_evaluator).0
    ⊑ (evaluate test_libs either_low 9 (new_evaluator full_store)).0
unfolding has_no_dwell has_no_template kind new_evaluator
stale_decides_nothing_example =
    stale_decides_nothing test_libs either_low 9 test_evaluator (new_evaluator full_store) refl refl
      fresh_cache-IsCoherent fresh_cache-IsCoherent low_store-IsBelow

explain_agrees_example :
    result_of (explain test_libs both_low 9 test_evaluator)
    ≡ trilean_text (evaluate test_libs both_low 9 test_evaluator).0
unfolding has_no_dwell new_evaluator
explain_agrees_example =
    explain_agrees test_libs both_low 9 test_evaluator refl fresh_cache-IsCoherent

abbrev no_timers : Timers
no_timers = record { trackers = []; store = none; errors = [] }

abbrev samples : List Sample
samples = (definite_true, 30) ∷ (definite_true, 20) ∷ (definite_false, 10) ∷ []

samples-IsTimely : IsTimely 50 samples
samples-IsTimely =
    (ground arith, ground arith, (ground arith, ground arith, (ground arith, ground arith, tt)))

dwell_holds_example :
    (apply_dwell "low" definite_true (pos 30) 50 (after "low" (pos 30) samples no_timers)).0
    ≡ held_for (pos 30) definite_true 50 samples
unfolding lookup
dwell_holds_example =
    dwell_holds "low" (pos 30) samples definite_true 50 no_timers refl (ground arith) (ground arith)
      samples-IsTimely

abbrev saved_record : DwellRecord
saved_record = record {
  required_ns = pos 30;
  elapsed_ns = pos 25;
  satisfied = false;
  last_seen = 40;
}

abbrev saved_store : DwellStore
saved_store = record { rows = ("low", saved_record) ∷ []; writable = true }

abbrev running_tracker : DwellTracker
running_tracker = record {
  required = pos 30;
  started_at = 15;
  credited = pos 5;
  satisfied = false;
  last_seen = 40;
  last_persisted = 0;
}

abbrev stored_timers : Timers
stored_timers = record no_timers { store = some saved_store }

abbrev timed : ConditionConfig
timed = condition_config (record empty_fields { condition = "true"; hold_for = "30s" }) none_left

false_stops_sampling_example :
    ((evaluate test_libs
        (condition_config (plain "and") (nested never_true (nested timed none_left)))
        9
        test_evaluator).0
      ≡ definite_false)
    × ((evaluate test_libs
          (condition_config (plain "and") (nested never_true (nested timed none_left)))
          9
          test_evaluator).1.timers
        ≡ test_evaluator.timers)
unfolding kind has_no_dwell new_evaluator meaning
false_stops_sampling_example =
    false_stops_sampling test_libs (plain "and") never_true (nested timed none_left) 9
      test_evaluator refl refl refl fresh_cache-IsCoherent refl
