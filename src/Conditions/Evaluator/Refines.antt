-- ===== src/Conditions/Evaluator/Refines.antt =====
-- Evaluation without `for:` gives the meaning and changes nothing but the cache
-- (internal/conditions/evaluator.go).
use canarium.Common.{ap, ℕ, ◌≡◌, refl, true, arith, is_empty, ◌∙◌, sym, Bool-cases, inl, inr}
use canarium.Facts.Kleene.{
  and_cut, or_cut, and_assoc, or_assoc, and_true_left, or_false_left, and_true_right,
  or_false_right,
}
use canarium.Facts.Types.{
  Trilean, definite_true, definite_false, and, or, negate, is_false, is_true,
}
use canarium.Conditions.Config.{
  Fields, ConditionConfig, condition_config, Conditions, none_left, nested, kind, Kind, numeric,
  state, all_of, any_of, negation, template, always, never, unrecognised,
}
use canarium.Conditions.Evaluator.{
  Libs, Evaluator, evaluate_template, apply_for, evaluate_inner, evaluate_all, evaluate_any,
  evaluate_not, evaluate, run_compiled,
}
use canarium.Conditions.Evaluator.Meaning.{
  has_no_dwell, have_no_dwell, template_meaning, meaning, meaning_all, meaning_any, meaning_not,
}
use canarium.Conditions.Evaluator.Cache.{IsCoherent, compile_transparent}

-- The evaluator `e'` has the facts and timers of `e`, and a coherent cache.
pub record IsKept (libs : Libs) (e e' : Evaluator) : Type 0 where
  pub same_store : e'.store ≡ e.store
  pub same_timers : e'.timers ≡ e.timers
  pub coherent : IsCoherent libs.expr_compile e'.programs

abbrev pub Gives : Libs → Evaluator → Trilean → Trilean × Evaluator → Type 0
Gives libs e m (t, e') = (t ≡ m) × IsKept libs e e'

module _ (libs : Libs) (now : ℕ) where
  kept : (e : Evaluator) → IsCoherent libs.expr_compile e.programs → IsKept libs e e
  kept e w = record { same_store = refl; same_timers = refl; coherent = w }

  IsKept-trans : (a b c : Evaluator) → IsKept libs a b → IsKept libs b c → IsKept libs a c
  IsKept-trans a b c p q = record {
    same_store = q.same_store ∙ p.same_store;
    same_timers = q.same_timers ∙ p.same_timers;
    coherent = q.coherent;
  }

  template-Gives :
      (f : Fields) (e : Evaluator)
      → IsCoherent libs.expr_compile e.programs
      → Gives libs e (template_meaning libs f now e.store) (evaluate_template libs f now e)
  unfolding evaluate_template template_meaning
  template-Gives f e w =
      let (same_program, w') = compile_transparent libs.expr_compile f.value e.programs w in
      elim (Bool-cases (is_empty f.value)) [
        | inl empty ↦ rw empty (refl, kept e w)
        | inr full ↦ rw full (
          ap (run_compiled libs e.store now) same_program,
          record { same_store = refl; same_timers = refl; coherent = w' },
        )
      ]

  apply_for_none :
      (c : ConditionConfig) (r : Trilean × Evaluator)
      → has_no_dwell c ≡ true
      → apply_for libs c now r ≡ r
  unfolding apply_for has_no_dwell
  apply_for_none (condition_config f cs) (t, e) h = ground arith

  -- A condition, from what its nested conditions give.
  inner-Gives_of :
      (f : Fields) (cs : Conditions) (e : Evaluator) (k : Kind)
      → kind f ≡ k
      → IsCoherent libs.expr_compile e.programs
      → Gives libs e (meaning_all libs cs now e.store) (evaluate_all libs cs now definite_true e)
      → Gives libs e (meaning_any libs cs now e.store) (evaluate_any libs cs now definite_false e)
      → Gives libs e (meaning_not libs cs now e.store) (evaluate_not libs cs now e)
      → Gives libs e
          (meaning libs (condition_config f cs) now e.store)
          (evaluate_inner libs (condition_config f cs) now e)
  unfolding evaluate_inner meaning
  inner-Gives_of f cs e numeric h w a o n = rw h (refl, kept e w)
  inner-Gives_of f cs e state h w a o n = rw h (refl, kept e w)
  inner-Gives_of f cs e all_of h w a o n = rw h a
  inner-Gives_of f cs e any_of h w a o n = rw h o
  inner-Gives_of f cs e negation h w a o n = rw h n
  inner-Gives_of f cs e template h w a o n = rw h (template-Gives f e w)
  inner-Gives_of f cs e always h w a o n = rw h (refl, kept e w)
  inner-Gives_of f cs e never h w a o n = rw h (refl, kept e w)
  inner-Gives_of f cs e unrecognised h w a o n = rw h (refl, kept e w)

  module _ (c : ConditionConfig) (cs : Conditions) (result : Trilean) (e : Evaluator)
      (plain : has_no_dwell c ≡ true)
      (first : Gives libs e (meaning libs c now e.store) (evaluate_inner libs c now e)) where
    abbrev val : Trilean
    val = (evaluate_inner libs c now e).0

    abbrev next : Evaluator
    next = (evaluate_inner libs c now e).1

    all_step :
        Gives libs next
          (and (and result val) (meaning_all libs cs now next.store))
          (evaluate_all libs cs now (and result val) next)
        → Gives libs e
            (and result (meaning_all libs (nested c cs) now e.store))
            (evaluate_all libs (nested c cs) now result e)
    unfolding evaluate_all meaning_all
    all_step rest =
        rw (apply_for_none c (evaluate_inner libs c now e) plain)
          (elim (Bool-cases (is_false (and result val))) [
            | inl cut ↦
                rw cut (
                  rw (← first.0) (and_cut result val (meaning_all libs cs now e.store) cut),
                  first.1,
                )
            | inr on ↦ rw on (
              rest.0 ∙ rw (first.1.same_store, first.0) (and_assoc result _ _),
              IsKept-trans e next _ first.1 rest.1,
            )
          ])

    any_step :
        Gives libs next
          (or (or result val) (meaning_any libs cs now next.store))
          (evaluate_any libs cs now (or result val) next)
        → Gives libs e
            (or result (meaning_any libs (nested c cs) now e.store))
            (evaluate_any libs (nested c cs) now result e)
    unfolding evaluate_any meaning_any
    any_step rest =
        rw (apply_for_none c (evaluate_inner libs c now e) plain)
          (elim (Bool-cases (is_true (or result val))) [
            | inl cut ↦
                rw cut (
                  rw (← first.0) (or_cut result val (meaning_any libs cs now e.store) cut),
                  first.1,
                )
            | inr on ↦ rw on (
              rest.0 ∙ rw (first.1.same_store, first.0) (or_assoc result _ _),
              IsKept-trans e next _ first.1 rest.1,
            )
          ])

    not_step :
        Gives libs e
          (meaning_not libs (nested c cs) now e.store)
          (evaluate_not libs (nested c cs) now e)
    unfolding evaluate_not meaning_not
    not_step =
        rw (apply_for_none c (evaluate_inner libs c now e) plain) (ap negate first.0, first.1)

  mutual
    unfolding has_no_dwell have_no_dwell evaluate_all evaluate_any evaluate_not meaning_all
        meaning_any meaning_not

    pub inner-Gives :
        (c : ConditionConfig) (e : Evaluator)
        → has_no_dwell c ≡ true
        → IsCoherent libs.expr_compile e.programs
        → Gives libs e (meaning libs c now e.store) (evaluate_inner libs c now e)
    inner-Gives (condition_config f cs) e plain w =
        let p : have_no_dwell cs ≡ true = ground arith in
        inner-Gives_of f cs e (kind f) refl w
          (rw and_true_left at (all-Gives cs definite_true e p w))
          (rw or_false_left at (any-Gives cs definite_false e p w)) (not-Gives cs e p w)

    all-Gives :
        (cs : Conditions) (result : Trilean) (e : Evaluator)
        → have_no_dwell cs ≡ true
        → IsCoherent libs.expr_compile e.programs
        → Gives libs e
            (and result (meaning_all libs cs now e.store))
            (evaluate_all libs cs now result e)
    all-Gives none_left result e plain w = (sym (and_true_right result), kept e w)
    all-Gives (nested c cs) result e plain w =
        let p : has_no_dwell c ≡ true = ground arith in
        let q : have_no_dwell cs ≡ true = ground arith in
        let first = inner-Gives c e p w in
        all_step c cs result e p first (
          all-Gives cs (and result (evaluate_inner libs c now e).0) (evaluate_inner libs c now e).1
            q first.1.coherent)

    any-Gives :
        (cs : Conditions) (result : Trilean) (e : Evaluator)
        → have_no_dwell cs ≡ true
        → IsCoherent libs.expr_compile e.programs
        → Gives libs e
            (or result (meaning_any libs cs now e.store))
            (evaluate_any libs cs now result e)
    any-Gives none_left result e plain w = (sym (or_false_right result), kept e w)
    any-Gives (nested c cs) result e plain w =
        let p : has_no_dwell c ≡ true = ground arith in
        let q : have_no_dwell cs ≡ true = ground arith in
        let first = inner-Gives c e p w in
        any_step c cs result e p first (
          any-Gives cs (or result (evaluate_inner libs c now e).0) (evaluate_inner libs c now e).1 q
            first.1.coherent)

    not-Gives :
        (cs : Conditions) (e : Evaluator)
        → have_no_dwell cs ≡ true
        → IsCoherent libs.expr_compile e.programs
        → Gives libs e (meaning_not libs cs now e.store) (evaluate_not libs cs now e)
    not-Gives none_left e plain w = (refl, kept e w)
    not-Gives (nested c cs) e plain w =
        let p : has_no_dwell c ≡ true = ground arith in
        not_step c cs definite_true e p (inner-Gives c e p w)

-- Evaluating a condition without `for:` gives its meaning, although the loops stop early and
-- compiled expressions are cached. It changes neither facts nor timers, and the cache stays
-- coherent.
pub evaluate_refines :
    (libs : Libs) (c : ConditionConfig) (now : ℕ) (e : Evaluator)
    → has_no_dwell c ≡ true
    → IsCoherent libs.expr_compile e.programs
    → Gives libs e (meaning libs c now e.store) (evaluate libs c now e)
unfolding evaluate
evaluate_refines libs c now e plain w =
    rw (apply_for_none libs now c (evaluate_inner libs c now e) plain)
      (inner-Gives libs now c e plain w)
