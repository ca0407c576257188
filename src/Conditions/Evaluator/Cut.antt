-- ===== src/Conditions/Evaluator/Cut.antt =====
-- What the cut of `evaluateAnd` (internal/conditions/evaluator.go) does to the timers behind it.
use canarium.Conditions.Evaluator.Refines.{evaluate_refines}
use canarium.Facts.Types.{and, definite_false}
use canarium.Conditions.Evaluator.Cache.{IsCoherent}
use canarium.Conditions.Evaluator.Meaning.{meaning, has_no_dwell}
use canarium.Conditions.Config.{
  nested, condition_config, all_of, kind, Conditions, ConditionConfig, Fields,
}
use canarium.Conditions.Evaluator.{
  Evaluator, Libs, evaluate_all, apply_for, evaluate_inner, evaluate,
}
use canarium.Common.{ℕ, true, is_empty, ◌≡◌, refl, ◌∙◌}

-- A conjunction whose first part is false leaves every timer of its other parts as it was: their
-- conditions are not sampled, so a `for:` among them goes on counting from its last sample.
pub false_stops_sampling :
    (libs : Libs) (f : Fields) (c : ConditionConfig) (cs : Conditions) (now : ℕ) (e : Evaluator)
    → kind f ≡ all_of
    → is_empty f.hold_for ≡ true
    → has_no_dwell c ≡ true
    → IsCoherent libs.expr_compile e.programs
    → meaning libs c now e.store ≡ definite_false
    → ((evaluate libs (condition_config f (nested c cs)) now e).0 ≡ definite_false)
      × ((evaluate libs (condition_config f (nested c cs)) now e).1.timers ≡ e.timers)
unfolding and evaluate evaluate_inner apply_for evaluate_all
false_stops_sampling libs f c cs now e k h p w m =
    let (value, kept) = evaluate_refines libs c now e p w in
    let no : (apply_for libs c now (evaluate_inner libs c now e)).0 ≡ definite_false = value ∙ m in
    (rw (h, k, no) refl, rw (h, k, no) kept.same_timers)
