-- ===== src/Conditions/Config.antt =====
-- `ConditionConfig` of internal/config/types.go, and the type of a condition
-- (internal/conditions/evaluator.go).
use canarium.Common.{
  ℕ, String, Bool, true, false, not, ◌&&◌, ◌||◌, List, [], Option, none, same, is_empty, is_some,
  is_nil, if◌then◌else◌,
}
use canarium.Facts.Types.{Value, nil, is_nil_value}

-- The fields of a condition but for the nested ones. Absent floats are `none`; `equals` is `nil`
-- when absent.
pub record Fields : Type 0 where
  pub condition : String
  pub fact : String
  pub above : Option ℕ
  pub below : Option ℕ
  pub equals : Value
  pub is : String
  pub is_not : String
  pub is_in : List String
  pub is_contains : String
  pub hold_for : String
  pub value : String

mutual
  pub data ConditionConfig : Type 0 where
    condition_config : Fields → Conditions → ConditionConfig

  pub data Conditions : Type 0 where
    none_left : Conditions
    nested : ConditionConfig → Conditions → Conditions

abbrev pub fields : ConditionConfig → Fields
fields (condition_config f _) = f

abbrev pub conditions : ConditionConfig → Conditions
conditions (condition_config _ cs) = cs

abbrev pub no_conditions : Conditions → Bool
no_conditions none_left = true
no_conditions (nested _ _) = false

abbrev pub empty_fields : Fields
empty_fields = record {
  condition = "";
  fact = "";
  above = none;
  below = none;
  equals = nil;
  is = "";
  is_not = "";
  is_in = [];
  is_contains = "";
  hold_for = "";
  value = "";
}

abbrev pub has_bound : Fields → Bool
has_bound f = is_some f.above || is_some f.below || not (is_nil_value f.equals)

unfoldable pub infer_condition_type : Fields → String
infer_condition_type f =
    if not (is_empty f.condition)
    then f.condition
    else if not (is_empty f.value)
    then "template"
    else if not (is_empty f.fact)
    then (if has_bound f then "numeric" else "state")
    else "true"

-- What the `switch` over the condition type tells apart.
pub data Kind : Type 0 where
  numeric state all_of any_of negation template always never unrecognised : Kind

-- One value for each kind: numeric, state, and, or, not, template, true, false, and any other.
abbrev pub by_kind {ℓ} : {A : Type ℓ} → Kind → A → A → A → A → A → A → A → A → A → A
by_kind numeric n s a o i t y f u = n
by_kind state n s a o i t y f u = s
by_kind all_of n s a o i t y f u = a
by_kind any_of n s a o i t y f u = o
by_kind negation n s a o i t y f u = i
by_kind template n s a o i t y f u = t
by_kind always n s a o i t y f u = y
by_kind never n s a o i t y f u = f
by_kind unrecognised n s a o i t y f u = u

unfoldable pub kind_of : String → Kind
kind_of t =
    if same t "numeric"
    then numeric
    else if same t "state"
    then state
    else if same t "and"
    then all_of
    else if same t "or"
    then any_of
    else if same t "not"
    then negation
    else if same t "template"
    then template
    else if same t "true"
    then always
    else if same t "false"
    then never
    else unrecognised

unfoldable pub kind : Fields → Kind
unfolding kind_of infer_condition_type
kind f = kind_of (infer_condition_type f)

-- internal/config/validate.go
unfoldable pub is_zero_condition : ConditionConfig → Bool
is_zero_condition (condition_config c cs) =
    is_empty c.condition
    && is_empty c.fact
    && is_empty c.value
    && not (is_some c.above)
    && not (is_some c.below)
    && is_nil_value c.equals
    && is_empty c.is
    && is_empty c.is_not
    && is_empty c.is_contains
    && is_empty c.hold_for
    && is_nil c.is_in
    && no_conditions cs
