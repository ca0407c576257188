-- ===== src/Conditions/Evaluator.antt =====
-- Evaluation of conditions: internal/conditions/evaluator.go.
pub mod Cache
pub mod Meaning
pub mod Refines
pub mod Monotone
pub mod Cut
use canarium.Common.{
  ℕ, String, Bool, true, false, not, ◌&&◌, [], Option, none, some, same, is_empty, is_nil, contains,
  if◌then◌else◌,
}
use canarium.Common.Int.{ℤ, pos, eqb_ℤ}
use canarium.Common.Float.{float_le, float_eq, of_int, of_float32}
use canarium.Common.Dict.{Dict}
use canarium.Common.Text.{has_substring}
use canarium.Facts.Types.{
  Quality, Value, float64, float32, int, int32, int64, truth, text, texts, anys, is_nil_value,
  Trilean, unavailable, definite_true, definite_false, is_true, is_false, and, or, negate,
  bool_to_trilean,
}
use canarium.Facts.Store.{Store, get, is_good}
use canarium.Facts.Format.{FloatFormat, sprint}
use canarium.Config.Duration.{DurationParsers, parse_duration}
use canarium.Conditions.Config.{
  by_kind, Fields, ConditionConfig, condition_config, Conditions, none_left, nested, fields, kind,
  numeric, state, all_of, any_of, negation, template, always, never, unrecognised,
}
use canarium.Conditions.Dwell.{Timers, apply_dwell}
use canarium.Conditions.Template.{Program, items_contain, run_program, compile}

-- What evaluation calls outside the program: the expression compiler, Go's number formatting and
-- parsing, `time.Duration.Seconds`, and the digest of the encoded condition (`conditionKey`).
pub record Libs : Type 0 where
  pub expr_compile : String → Option Program
  pub floats : FloatFormat
  pub parsers : DurationParsers
  pub seconds : ℤ → ℕ
  pub condition_key : ConditionConfig → String

pub record Evaluator : Type 0 where
  pub store : Store
  pub timers : Timers
  pub programs : Dict Program

abbrev pub empty_timers : Timers
empty_timers = record { trackers = []; store = none; errors = [] }

unfoldable pub new_evaluator : Store → Evaluator
new_evaluator s = record { store = s; timers = empty_timers; programs = [] }

unfoldable pub usable : Quality → Value → Bool
usable q v = is_good q && not (is_nil_value v)

unfoldable pub to_float64 : Value → Option ℕ
to_float64 (float64 b) = some b
to_float64 (float32 b) = some (of_float32 b)
to_float64 (int n) = some (of_int n)
to_float64 (int64 n) = some (of_int n)
to_float64 (int32 n) = some (of_int n)
to_float64 _ = none

abbrev not_above : ℕ → Option ℕ → Bool
not_above num none = false
not_above num (some limit) = float_le num limit

abbrev not_below : ℕ → Option ℕ → Bool
not_below num none = false
not_below num (some limit) = float_le limit num

abbrev compare_equals : ℕ → Value → Trilean
compare_equals num equals =
    if is_nil_value equals then definite_true else elim (to_float64 equals) [
      | none ↦ unavailable
      | some target ↦ if float_eq num target then definite_true else definite_false
    ]

-- The three bounds of `evaluateNumeric`, on the number.
unfoldable pub within_bounds : Fields → ℕ → Trilean
unfolding to_float64
within_bounds f num =
    if not_above num f.above
    then definite_false
    else if not_below num f.below
    then definite_false
    else compare_equals num f.equals

unfoldable pub evaluate_numeric : Fields → Store → Trilean
unfolding usable to_float64
evaluate_numeric f s =
    let (val, quality, _) = get s f.fact in
    if not (usable quality val)
    then unavailable
    else elim (to_float64 val) [ none ↦ unavailable | some num ↦ within_bounds f num ]

-- The `switch` under `cond.Contains != ""`.
unfoldable pub value_contains : Value → String → Trilean
value_contains (texts ss) s = bool_to_trilean (contains ss s)
value_contains (anys vs) s = if items_contain vs s then definite_true else definite_false
value_contains (text t) s = bool_to_trilean (has_substring t s)
value_contains _ s = unavailable

-- The tests of `evaluateState` on the value's rendering.
unfoldable pub text_matches : Fields → String → Trilean
text_matches f shown =
    if not (is_empty f.is)
    then bool_to_trilean (same shown f.is)
    else if not (is_empty f.is_not)
    then bool_to_trilean (not (same shown f.is_not))
    else if not (is_nil f.is_in)
    then (if contains f.is_in shown then definite_true else definite_false)
    else unavailable

unfoldable pub evaluate_state : FloatFormat → Fields → Store → Trilean
unfolding usable
evaluate_state fmt f s =
    let (val, quality, _) = get s f.fact in
    if not (usable quality val)
    then unavailable
    else if not (is_empty f.is_contains)
    then value_contains val f.is_contains
    else text_matches f (sprint fmt val)

-- What `evaluateTemplate` makes of the answer.
unfoldable pub template_result : Option Value × Bool → Trilean
template_result (none, _) = unavailable
template_result (some v, true) = unavailable
template_result (some (truth b), false) = bool_to_trilean b
template_result (some _, false) = unavailable

abbrev pub run_compiled : Libs → Store → ℕ → Option Program → Trilean
run_compiled libs s now none = unavailable
run_compiled libs s now (some p) = template_result (run_program libs.seconds s now p)

unfoldable pub evaluate_template : Libs → Fields → ℕ → Evaluator → Trilean × Evaluator
evaluate_template libs f now e =
    let (program, programs) = compile libs.expr_compile f.value e.programs in
    if is_empty f.value
    then (unavailable, e)
    else (run_compiled libs e.store now program, record e { programs = programs })

-- The tail of `Evaluate`: the `for:` of the condition applied to its result.
unfoldable pub apply_for : Libs → ConditionConfig → ℕ → Trilean × Evaluator → Trilean × Evaluator
apply_for libs c now (result, e) =
    if is_empty (fields c).hold_for
    then (result, e)
    else elim (parse_duration libs.parsers (fields c).hold_for) [
      | none ↦ (result, e)
      | some dur ↦
          let (held, timers) = apply_dwell (libs.condition_key c) result dur now e.timers in
          if eqb_ℤ dur (pos 0) then (result, e) else (held, record e { timers = timers })
    ]

-- A condition and its nested ones, on the evaluator that the earlier ones left.
unfoldable mutual
  pub evaluate_inner : Libs → ConditionConfig → ℕ → Evaluator → Trilean × Evaluator
  evaluate_inner libs (condition_config f cs) now e =
      let conjunction = evaluate_all libs cs now definite_true e in
      let disjunction = evaluate_any libs cs now definite_false e in
      let inverse = evaluate_not libs cs now e in
      by_kind (kind f) (evaluate_numeric f e.store, e) (evaluate_state libs.floats f e.store, e)
        conjunction disjunction inverse (evaluate_template libs f now e) (definite_true, e)
        (definite_false, e) (unavailable, e)

  -- The loop of `evaluateAnd`; `result` is the conjunction so far.
  pub evaluate_all : Libs → Conditions → ℕ → Trilean → Evaluator → Trilean × Evaluator
  evaluate_all libs none_left now result e = (result, e)
  evaluate_all libs (nested c cs) now result e =
      let (val, e') = apply_for libs c now (evaluate_inner libs c now e) in
      let result' = and result val in
      let rest = evaluate_all libs cs now result' e' in
      if is_false result' then (definite_false, e') else rest

  -- The loop of `evaluateOr`.
  pub evaluate_any : Libs → Conditions → ℕ → Trilean → Evaluator → Trilean × Evaluator
  evaluate_any libs none_left now result e = (result, e)
  evaluate_any libs (nested c cs) now result e =
      let (val, e') = apply_for libs c now (evaluate_inner libs c now e) in
      let result' = or result val in
      let rest = evaluate_any libs cs now result' e' in
      if is_true result' then (definite_true, e') else rest

  pub evaluate_not : Libs → Conditions → ℕ → Evaluator → Trilean × Evaluator
  evaluate_not libs none_left now e = (unavailable, e)
  evaluate_not libs (nested c _) now e =
      let (val, e') = apply_for libs c now (evaluate_inner libs c now e) in (negate val, e')

unfoldable pub evaluate : Libs → ConditionConfig → ℕ → Evaluator → Trilean × Evaluator
unfolding evaluate_inner apply_for
evaluate libs c now e = apply_for libs c now (evaluate_inner libs c now e)
