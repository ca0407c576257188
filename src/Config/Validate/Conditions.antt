-- ===== src/Config/Validate/Conditions.antt =====
-- `validateConditionConfig` and `checkDuration` of internal/config/validate.go, and what the daemon
-- supports (`Registry`).
use canarium.Config.Validate.Identity.{LocalIdentity}
use canarium.Common.{
  ℕ, suc, String, Bool, false, not, ◌&&◌, List, Option, none, some, is_empty, is_nil, contains,
  if◌then◌else◌,
}
use canarium.Common.Int.{pos, ltb_ℤ}
use canarium.Common.Text.{trim_space}
use canarium.Config.Duration.{DurationParsers, parse_duration}
use canarium.Conditions.Config.{
  Fields, ConditionConfig, Conditions, condition_config, none_left, nested, has_bound, kind_of,
  by_kind, no_conditions,
}
use canarium.Config.Validate.Report.{
  unknown_condition, bound_required, text_required, negative_for, one_required, negative_duration,
  bad_expression, unknown_fact, fact_required, bad_for, bad_duration, value_required,
  nested_required, Context, nested_at, ValidationResult, clean, add_error, add_warning, when, ◌⊕◌,
}

pub record Registry : Type 0 where
  pub transports : List String
  pub source_types : List String
  pub facts : List String
  pub local : Option LocalIdentity

-- What validation calls: Go's number parsing, and `ExprValidator`, which `main` sets.
pub record Checkers : Type 0 where
  pub parsers : DurationParsers
  pub expr_is_valid : String → Bool

-- `reg != nil && len(known) > 0 && !slices.Contains(known, name)`
abbrev pub is_unknown : (Registry → List String) → Option Registry → String → Bool
is_unknown known none name = false
is_unknown known (some reg) name = not (is_nil (known reg)) && not (contains (known reg) name)

unfoldable pub check_duration : Checkers → String → Context → ValidationResult
check_duration k value context =
    if is_empty (trim_space value) then clean else elim (parse_duration k.parsers value) [
      | none ↦ add_error (bad_duration context)
      | some d ↦ when (ltb_ℤ d (pos 0)) (add_error (negative_duration context value))
    ]

-- The type of the condition: `condType`.
unfoldable pub condition_type : Fields → String
condition_type f =
    if not (is_empty f.condition)
    then f.condition
    else if not (is_empty f.value)
    then "template"
    else if not (is_empty f.fact)
    then (if has_bound f then "numeric" else "state")
    else ""

unfoldable check_numeric : Context → Fields → ValidationResult
unfolding ◌⊕◌
check_numeric context f =
    when (is_empty f.fact) (add_error (fact_required context "numeric"))
    ⊕ when (not (has_bound f)) (add_error (bound_required context))

unfoldable check_state : Context → Fields → ValidationResult
unfolding ◌⊕◌
check_state context f =
    when (is_empty f.fact) (add_error (fact_required context "state"))
    ⊕ when (is_empty f.is && is_empty f.is_not && is_nil f.is_in && is_empty f.is_contains)
        (add_error (text_required context))

unfoldable check_template : Checkers → Context → Fields → ValidationResult
check_template k context f =
    if is_empty f.value
    then add_error (value_required context)
    else when (not (k.expr_is_valid f.value)) (add_error (bad_expression context))

-- The check of `for:`.
unfoldable pub check_for : Checkers → Context → Fields → ValidationResult
check_for k context f =
    if is_empty f.hold_for then clean else elim (parse_duration k.parsers f.hold_for) [
      | none ↦ add_error (bad_for context)
      | some d ↦ when (ltb_ℤ d (pos 0)) (add_error (negative_for context))
    ]

unfoldable pub check_fact : Option Registry → Context → Fields → ValidationResult
check_fact reg context f =
    when (not (is_empty f.fact) && is_unknown (λ r. r.facts) reg f.fact)
      (add_error (unknown_fact context f.fact))

abbrev is_single : Conditions → Bool
is_single none_left = false
is_single (nested _ cs) = no_conditions cs

-- The `switch` over the type. `all_nested` is the check of every nested condition, `first` that of
-- the first one.
unfoldable pub check_type :
    Checkers
    → Context
    → Fields
    → Conditions
    → ValidationResult
    → ValidationResult
    → ValidationResult
unfolding ◌⊕◌ check_numeric check_state check_template condition_type kind_of
check_type k context f cs all_nested first =
    let t = condition_type f in
    let some_needed =
      when (no_conditions cs) (add_error (nested_required context t)) ⊕ all_nested in
    if is_empty t
    then clean
    else by_kind (kind_of t) (check_numeric context f) (check_state context f) some_needed
        some_needed (when (not (is_single cs)) (add_error (one_required context)) ⊕ first)
        (check_template k context f) clean clean (add_warning (unknown_condition context t))

-- A condition of the configuration is there: the check for `nil` is left out.
unfoldable mutual
  unfolding check_type check_for check_fact ◌⊕◌

  pub validate_condition : Checkers → Option Registry → Context → ConditionConfig → ValidationResult
  validate_condition k reg context (condition_config f cs) =
      let all_nested = validate_nested k reg context 0 cs in
      let first = validate_first k reg context cs in
      check_type k context f cs all_nested first ⊕ check_for k context f ⊕ check_fact reg context f

  -- The nested conditions from index `i` on.
  pub validate_nested : Checkers → Option Registry → Context → ℕ → Conditions → ValidationResult
  validate_nested k reg context i none_left = clean
  validate_nested k reg context i (nested c cs) =
      validate_condition k reg (nested_at context i) c ⊕ validate_nested k reg context (suc i) cs

  pub validate_first : Checkers → Option Registry → Context → Conditions → ValidationResult
  validate_first k reg context none_left = clean
  validate_first k reg context (nested c _) = validate_condition k reg (nested_at context 0) c
