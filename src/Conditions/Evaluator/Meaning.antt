-- ===== src/Conditions/Evaluator/Meaning.antt =====
-- What a condition without `for:` means: Kleene's logic over the facts, with no state, no cut and
-- no cache. Evaluation (internal/conditions/evaluator.go) is compared with it.
use canarium.Common.{ℕ, Bool, true, ◌&&◌, is_empty, if◌then◌else◌}
use canarium.Facts.Types.{Trilean, unavailable, definite_true, definite_false, and, or, negate}
use canarium.Facts.Store.{Store}
use canarium.Conditions.Config.{
  by_kind, Fields, ConditionConfig, condition_config, Conditions, none_left, nested, kind,
}
use canarium.Conditions.Evaluator.{Libs, evaluate_numeric, evaluate_state, run_compiled}

-- No condition in the tree has a `for:`.
unfoldable mutual
  pub has_no_dwell : ConditionConfig → Bool
  has_no_dwell (condition_config f cs) = is_empty f.hold_for && have_no_dwell cs

  pub have_no_dwell : Conditions → Bool
  have_no_dwell none_left = true
  have_no_dwell (nested c cs) = has_no_dwell c && have_no_dwell cs

unfoldable pub template_meaning : Libs → Fields → ℕ → Store → Trilean
template_meaning libs f now s =
    if is_empty f.value then unavailable else run_compiled libs s now (libs.expr_compile f.value)

unfoldable mutual
  pub meaning : Libs → ConditionConfig → ℕ → Store → Trilean
  meaning libs (condition_config f cs) now s =
      let conjunction = meaning_all libs cs now s in
      let disjunction = meaning_any libs cs now s in
      let inverse = meaning_not libs cs now s in
      by_kind (kind f) (evaluate_numeric f s) (evaluate_state libs.floats f s) conjunction
        disjunction inverse (template_meaning libs f now s) definite_true definite_false unavailable

  pub meaning_all : Libs → Conditions → ℕ → Store → Trilean
  meaning_all libs none_left now s = definite_true
  meaning_all libs (nested c cs) now s = and (meaning libs c now s) (meaning_all libs cs now s)

  pub meaning_any : Libs → Conditions → ℕ → Store → Trilean
  meaning_any libs none_left now s = definite_false
  meaning_any libs (nested c cs) now s = or (meaning libs c now s) (meaning_any libs cs now s)

  pub meaning_not : Libs → Conditions → ℕ → Store → Trilean
  meaning_not libs none_left now s = unavailable
  meaning_not libs (nested c _) now s = negate (meaning libs c now s)
