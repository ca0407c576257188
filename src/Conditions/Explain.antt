-- ===== src/Conditions/Explain.antt =====
-- The read-only account of a condition: internal/conditions/explain.go.
--
-- A leaf may fill the cache of compiled expressions, which no answer shows; the account alone is
-- returned here.
pub mod Agrees
use canarium.Common.{
  ℕ, String, Bool, true, false, List, [], ◌∷◌, Option, none, some, is_some, same, is_empty, ◌&&◌,
  not, if◌then◌else◌,
}
use canarium.Common.Int.{ℤ, pos, ltb_ℤ, leb_ℤ}
use canarium.Common.Dict.{lookup}
use canarium.Facts.Types.{
  Value, nil, Trilean, unavailable, definite_true, definite_false, is_true, and, or, negate,
  trilean_text, quality_text,
}
use canarium.Facts.Store.{get}
use canarium.Config.Duration.{parse_duration}
use canarium.Conditions.Config.{
  Fields, empty_fields, ConditionConfig, condition_config, Conditions, none_left, nested, kind,
  infer_condition_type, by_kind,
}
use canarium.Conditions.Dwell.{DwellTracker, elapsed}
use canarium.Conditions.Evaluator.{Libs, Evaluator, evaluate_inner}

pub record DwellExplanation : Type 0 where
  pub required_seconds : ℕ
  pub elapsed_seconds : ℕ
  pub tracked : Bool

-- An explanation but for its nested ones. `about` holds the condition's own fields, which are
-- copied, and `condition` the resolved type.
pub record Account : Type 0 where
  pub condition : String
  pub about : Fields
  pub result : String
  pub instant : String
  pub dwell : Option DwellExplanation
  pub fact_value : Value
  pub fact_quality : String

mutual
  pub data Explanation : Type 0 where
    explanation : Account → Explanations → Explanation

  pub data Explanations : Type 0 where
    end : Explanations
    child : Explanation → Explanations → Explanations

abbrev pub result_of : Explanation → String
result_of (explanation a _) = a.result

unfoldable pub parse_trilean : String → Trilean
parse_trilean s =
    if same s "true" then definite_true else if same s "false" then definite_false else unavailable

abbrev timer_elapsed : Option DwellTracker → ℕ → ℤ
timer_elapsed none now = pos 0
timer_elapsed (some t) now = elapsed t now

-- `explainDwell`
unfoldable pub explain_dwell :
    Libs → ConditionConfig → Trilean → ℤ → ℕ → Evaluator → DwellExplanation × String
explain_dwell libs c instant required now e =
    let tracker = lookup (libs.condition_key c) e.timers.trackers in
    let elapsed = timer_elapsed tracker now in
    let idle : DwellExplanation = record {
      required_seconds = libs.seconds required;
      elapsed_seconds = 0;
      tracked = is_some tracker;
    } in
    if not (is_true instant) then (idle, trilean_text instant) else (
      record idle { elapsed_seconds = libs.seconds elapsed },
      if is_some tracker && leb_ℤ required elapsed
          then trilean_text definite_true
          else trilean_text definite_false,
    )

-- The loops over the children's results. Under `not` the program explains the first child alone.
unfoldable pub fold_all : Trilean → Explanations → Trilean
fold_all t end = t
fold_all t (child x xs) = fold_all (and t (parse_trilean (result_of x))) xs

unfoldable pub fold_any : Trilean → Explanations → Trilean
fold_any t end = t
fold_any t (child x xs) = fold_any (or t (parse_trilean (result_of x))) xs

abbrev pub fold_not : Explanations → Trilean
fold_not end = unavailable
fold_not (child x _) = negate (parse_trilean (result_of x))

abbrev pub first_only : Explanations → Explanations
first_only end = end
first_only (child x _) = child x end

-- The instantaneous result and the tail of `Explain`, from the children's accounts.
unfoldable pub instant_of : Libs → ConditionConfig → ℕ → Evaluator → Explanations → Trilean
instant_of libs (condition_config f cs) now e xs =
    let leaf = (evaluate_inner libs (condition_config f cs) now e).0 in
    by_kind (kind f) leaf leaf (fold_all definite_true xs) (fold_any definite_false xs)
      (fold_not xs) leaf leaf leaf leaf

abbrev kept_children : Fields → Explanations → Explanations
kept_children f xs = by_kind (kind f) end end xs xs (first_only xs) end end end end

abbrev reads_fact : Fields → Bool
reads_fact f =
    let own = not (is_empty f.fact) in by_kind (kind f) own own false false false own own own own

unfoldable pub dwell_of :
    Libs → ConditionConfig → Trilean → ℕ → Evaluator → Option DwellExplanation × String
dwell_of libs (condition_config f cs) instant now e =
    let plain : Option DwellExplanation × String = (none, trilean_text instant) in
    if is_empty f.hold_for then plain else elim (parse_duration libs.parsers f.hold_for) [
      | none ↦ plain
      | some required ↦
          let (d, r) = explain_dwell libs (condition_config f cs) instant required now e in
          if ltb_ℤ (pos 0) required then (some d, r) else plain
    ]

unfoldable pub account : Libs → ConditionConfig → ℕ → Evaluator → Explanations → Explanation
account libs (condition_config f cs) now e xs =
    let instant = instant_of libs (condition_config f cs) now e xs in
    let (dwell, result) = dwell_of libs (condition_config f cs) instant now e in
    let (value, quality, _) = get e.store f.fact in
    explanation
      (record {
        condition = infer_condition_type f;
        about = f;
        result = result;
        instant = trilean_text instant;
        dwell = dwell;
        fact_value = if reads_fact f then value else nil;
        fact_quality = if reads_fact f then quality_text quality else "";
      })
      (kept_children f xs)

-- `Explain`
unfoldable mutual
  pub explain : Libs → ConditionConfig → ℕ → Evaluator → Explanation
  explain libs (condition_config f cs) now e =
      account libs (condition_config f cs) now e (explain_each libs cs now e)

  pub explain_each : Libs → Conditions → ℕ → Evaluator → Explanations
  explain_each libs none_left now e = end
  explain_each libs (nested c cs) now e = child (explain libs c now e) (explain_each libs cs now e)

-- `Explain` at a nil pointer.
unfoldable pub explain_optional : Libs → Option ConditionConfig → ℕ → Evaluator → Explanation
unfolding explain
explain_optional libs none now e =
    explanation
      (record {
        condition = "true";
        about = empty_fields;
        result = trilean_text unavailable;
        instant = trilean_text unavailable;
        dwell = none;
        fact_value = nil;
        fact_quality = "";
      })
      end
explain_optional libs (some c) now e = explain libs c now e
