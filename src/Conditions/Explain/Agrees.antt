-- ===== src/Conditions/Explain/Agrees.antt =====
-- Explaining a condition agrees with evaluating it (internal/conditions/explain.go).
use canarium.Common.{ℕ, ◌≡◌, refl, sym, ◌∙◌, ap, true, arith, is_empty}
use canarium.Facts.Kleene.{
  and_assoc, or_assoc, and_true_left, or_false_left, and_true_right, or_false_right,
}
use canarium.Facts.Types.{
  Trilean, unavailable, definite_true, definite_false, and, or, trilean_text,
}
use canarium.Conditions.Config.{
  Fields, ConditionConfig, condition_config, Conditions, none_left, nested, Kind, kind, all_of,
  any_of, negation,
}
use canarium.Conditions.Evaluator.{Libs, Evaluator, evaluate}
use canarium.Conditions.Evaluator.Meaning.{
  has_no_dwell, have_no_dwell, meaning, meaning_all, meaning_any, meaning_not,
}
use canarium.Conditions.Evaluator.Cache.{IsCoherent}
use canarium.Conditions.Evaluator.Refines.{inner-Gives, evaluate_refines}
use canarium.Conditions.Explain.{
  result_of, parse_trilean, fold_all, fold_any, fold_not, instant_of, dwell_of, account, explain,
  explain_each, Explanations,
}

parse_trilean-trilean_text : (t : Trilean) → parse_trilean (trilean_text t) ≡ t
unfolding parse_trilean trilean_text
parse_trilean-trilean_text unavailable = refl
parse_trilean-trilean_text definite_false = refl
parse_trilean-trilean_text definite_true = refl

module _ (libs : Libs) (now : ℕ) (e : Evaluator) (w : IsCoherent libs.expr_compile e.programs) where
  account_result :
      (f : Fields) (cs : Conditions) (xs : Explanations)
      → is_empty f.hold_for ≡ true
      → result_of (account libs (condition_config f cs) now e xs)
        ≡ trilean_text (instant_of libs (condition_config f cs) now e xs)
  unfolding account dwell_of
  account_result f cs xs h = rw h

  instant_meaning :
      (f : Fields) (cs : Conditions) (xs : Explanations) (k : Kind)
      → kind f ≡ k
      → has_no_dwell (condition_config f cs) ≡ true
      → fold_all definite_true xs ≡ meaning_all libs cs now e.store
      → fold_any definite_false xs ≡ meaning_any libs cs now e.store
      → fold_not xs ≡ meaning_not libs cs now e.store
      → instant_of libs (condition_config f cs) now e xs
        ≡ meaning libs (condition_config f cs) now e.store
  unfolding instant_of
  instant_meaning f cs xs all_of h p a o n = rw h (a ∙ sym (unfold meaning in rw h))
  instant_meaning f cs xs any_of h p a o n = rw h (o ∙ sym (unfold meaning in rw h))
  instant_meaning f cs xs negation h p a o n = rw h (n ∙ sym (unfold meaning in rw h))
  instant_meaning f cs xs _ h p a o n = rw h (inner-Gives libs now (condition_config f cs) e p w).0

  mutual
    unfolding explain explain_each has_no_dwell have_no_dwell fold_all fold_any meaning_all
        meaning_any meaning_not

    explain-meaning :
        (c : ConditionConfig)
        → has_no_dwell c ≡ true
        → result_of (explain libs c now e) ≡ trilean_text (meaning libs c now e.store)
    explain-meaning (condition_config f cs) h =
        let xs = explain_each libs cs now e in
        let p : have_no_dwell cs ≡ true = ground arith in
        let q : is_empty f.hold_for ≡ true = ground arith in
        account_result f cs xs q
        ∙ ap trilean_text (
            instant_meaning f cs xs (kind f) refl h
              (all_meaning cs definite_true p ∙ and_true_left _)
              (any_meaning cs definite_false p ∙ or_false_left _) (not_meaning cs p))

    all_meaning :
        (cs : Conditions) (t : Trilean)
        → have_no_dwell cs ≡ true
        → fold_all t (explain_each libs cs now e) ≡ and t (meaning_all libs cs now e.store)
    all_meaning none_left t h = sym (and_true_right t)
    all_meaning (nested c cs) t h =
        let p : has_no_dwell c ≡ true = ground arith in
        let q : have_no_dwell cs ≡ true = ground arith in
        all_meaning cs _ q ∙ rw (explain-meaning c p, parse_trilean-trilean_text) (and_assoc t _ _)

    any_meaning :
        (cs : Conditions) (t : Trilean)
        → have_no_dwell cs ≡ true
        → fold_any t (explain_each libs cs now e) ≡ or t (meaning_any libs cs now e.store)
    any_meaning none_left t h = sym (or_false_right t)
    any_meaning (nested c cs) t h =
        let p : has_no_dwell c ≡ true = ground arith in
        let q : have_no_dwell cs ≡ true = ground arith in
        any_meaning cs _ q ∙ rw (explain-meaning c p, parse_trilean-trilean_text) (or_assoc t _ _)

    not_meaning :
        (cs : Conditions)
        → have_no_dwell cs ≡ true
        → fold_not (explain_each libs cs now e) ≡ meaning_not libs cs now e.store
    not_meaning none_left h = refl
    not_meaning (nested c cs) h =
        let p : has_no_dwell c ≡ true = ground arith in
        rw (explain-meaning c p, parse_trilean-trilean_text)

-- The result that is shown for a condition without `for:` is the one that evaluation gives.
pub explain_agrees :
    (libs : Libs) (c : ConditionConfig) (now : ℕ) (e : Evaluator)
    → has_no_dwell c ≡ true
    → IsCoherent libs.expr_compile e.programs
    → result_of (explain libs c now e) ≡ trilean_text (evaluate libs c now e).0
explain_agrees libs c now e plain w =
    explain-meaning libs now e w c plain
    ∙ ap trilean_text (sym (evaluate_refines libs c now e plain w).0)
