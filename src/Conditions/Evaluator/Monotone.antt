-- ===== src/Conditions/Evaluator/Monotone.antt =====
-- A fact that is unknown or stale decides nothing: evaluation follows the order of information
-- (`usable` of internal/conditions/evaluator.go).
use canarium.Common.{
  ℕ, ◌≡◌, refl, String, Bool, true, false, not, ◌&&◌, arith, inl, inr, Bool-cases,
}
use canarium.Facts.Kleene.{◌⊑◌, and-⊑, or-⊑, negate-⊑}
use canarium.Facts.Types.{
  Quality, good, stale, unknown, Value, nil, Trilean, unavailable, definite_true, definite_false,
}
use canarium.Facts.Store.{Store, get}
use canarium.Conditions.Config.{
  Fields, ConditionConfig, condition_config, Conditions, none_left, nested, Kind, kind, numeric,
  state, all_of, any_of, negation, template, always, never, unrecognised,
}
use canarium.Conditions.Evaluator.{
  Libs, Evaluator, usable, evaluate_numeric, evaluate_state, evaluate,
}
use canarium.Conditions.Evaluator.Meaning.{
  has_no_dwell, meaning, meaning_all, meaning_any, meaning_not,
}
use canarium.Conditions.Evaluator.Cache.{IsCoherent}
use canarium.Conditions.Evaluator.Refines.{evaluate_refines}

abbrev pub is_fresh : Quality → Bool
is_fresh good = true
is_fresh stale = false
is_fresh unknown = false

abbrev pub is_there : Value → Bool
is_there nil = false
is_there _ = true

-- A reading that is neither stale nor missing.
abbrev pub is_current : Store → String → Bool
is_current s key = is_fresh (get s key).1 && is_there (get s key).0

-- The evaluator uses those readings and no others.
usable-is_current : (q : Quality) (v : Value) → usable q v ≡ is_fresh q && is_there v
unfolding usable
usable-is_current good v = ground arith
usable-is_current stale v = ground arith
usable-is_current unknown v = ground arith

-- Every reading that is good and there in `s` is the same in `s'`, which may have more of them.
pub record IsBelow (s s' : Store) : Type 0 where
  pub value : (key : String) → is_current s key ≡ true → (get s' key).0 ≡ (get s key).0
  pub quality : (key : String) → is_current s key ≡ true → (get s' key).1 ≡ (get s key).1

abbrev pub is_template : Kind → Bool
is_template template = true
is_template _ = false

-- No condition in the tree is a template.
unfoldable mutual
  pub has_no_template : ConditionConfig → Bool
  has_no_template (condition_config f cs) = not (is_template (kind f)) && have_no_template cs

  pub have_no_template : Conditions → Bool
  have_no_template none_left = true
  have_no_template (nested c cs) = has_no_template c && have_no_template cs

⊑_refl : (t : Trilean) → t ⊑ t
⊑_refl t = inr refl

module _ (libs : Libs) (now : ℕ) (s s' : Store) (below : IsBelow s s') where
  numeric-⊑ : (f : Fields) → evaluate_numeric f s ⊑ evaluate_numeric f s'
  unfolding evaluate_numeric
  numeric-⊑ f = elim (Bool-cases (is_current s f.fact)) [
    | inl fresh ↦ inr (rw (below.value f.fact fresh, below.quality f.fact fresh))
    | inr old ↦ inl (rw (usable-is_current (get s f.fact).1 (get s f.fact).0, old))
  ]

  state-⊑ : (f : Fields) → evaluate_state libs.floats f s ⊑ evaluate_state libs.floats f s'
  unfolding evaluate_state
  state-⊑ f = elim (Bool-cases (is_current s f.fact)) [
    | inl fresh ↦ inr (rw (below.value f.fact fresh, below.quality f.fact fresh))
    | inr old ↦ inl (rw (usable-is_current (get s f.fact).1 (get s f.fact).0, old))
  ]

  inner-⊑ :
      (f : Fields) (cs : Conditions) (k : Kind)
      → kind f ≡ k
      → is_template k ≡ false
      → meaning_all libs cs now s ⊑ meaning_all libs cs now s'
      → meaning_any libs cs now s ⊑ meaning_any libs cs now s'
      → meaning_not libs cs now s ⊑ meaning_not libs cs now s'
      → meaning libs (condition_config f cs) now s ⊑ meaning libs (condition_config f cs) now s'
  unfolding meaning
  inner-⊑ f cs numeric h t a o n = rw h (numeric-⊑ f)
  inner-⊑ f cs state h t a o n = rw h (state-⊑ f)
  inner-⊑ f cs all_of h t a o n = rw h a
  inner-⊑ f cs any_of h t a o n = rw h o
  inner-⊑ f cs negation h t a o n = rw h n
  inner-⊑ f cs template h t a o n = cc
  inner-⊑ f cs always h t a o n = rw h (⊑_refl definite_true)
  inner-⊑ f cs never h t a o n = rw h (⊑_refl definite_false)
  inner-⊑ f cs unrecognised h t a o n = rw h (⊑_refl unavailable)

  mutual
    unfolding has_no_template have_no_template meaning_all meaning_any meaning_not

    meaning-⊑ :
        (c : ConditionConfig)
        → has_no_template c ≡ true
        → meaning libs c now s ⊑ meaning libs c now s'
    meaning-⊑ (condition_config f cs) h =
        let p : have_no_template cs ≡ true = ground arith in
        let q : is_template (kind f) ≡ false = ground arith in
        inner-⊑ f cs (kind f) refl q (all-⊑ cs p) (any-⊑ cs p) (not-⊑ cs p)

    all-⊑ :
        (cs : Conditions)
        → have_no_template cs ≡ true
        → meaning_all libs cs now s ⊑ meaning_all libs cs now s'
    all-⊑ none_left h = ⊑_refl definite_true
    all-⊑ (nested c cs) h =
        let p : has_no_template c ≡ true = ground arith in
        let q : have_no_template cs ≡ true = ground arith in
        and-⊑ _ _ _ _ (meaning-⊑ c p) (all-⊑ cs q)

    any-⊑ :
        (cs : Conditions)
        → have_no_template cs ≡ true
        → meaning_any libs cs now s ⊑ meaning_any libs cs now s'
    any-⊑ none_left h = ⊑_refl definite_false
    any-⊑ (nested c cs) h =
        let p : has_no_template c ≡ true = ground arith in
        let q : have_no_template cs ≡ true = ground arith in
        or-⊑ _ _ _ _ (meaning-⊑ c p) (any-⊑ cs q)

    not-⊑ :
        (cs : Conditions)
        → have_no_template cs ≡ true
        → meaning_not libs cs now s ⊑ meaning_not libs cs now s'
    not-⊑ none_left h = ⊑_refl unavailable
    not-⊑ (nested c cs) h =
        let p : has_no_template c ≡ true = ground arith in negate-⊑ _ _ (meaning-⊑ c p)

-- Let `e'` have every reading that is good and has a value in `e`, and perhaps more. A condition without
-- templates and `for:` that is true, or false, in `e` is the same in `e'`: readings that are stale
-- or missing have no part in a definite answer.
pub stale_decides_nothing :
    (libs : Libs) (c : ConditionConfig) (now : ℕ) (e e' : Evaluator)
    → has_no_dwell c ≡ true
    → has_no_template c ≡ true
    → IsCoherent libs.expr_compile e.programs
    → IsCoherent libs.expr_compile e'.programs
    → IsBelow e.store e'.store
    → (evaluate libs c now e).0 ⊑ (evaluate libs c now e').0
stale_decides_nothing libs c now e e' plain no_template w w' below =
    rw ((evaluate_refines libs c now e plain w).0, (evaluate_refines libs c now e' plain w').0)
      (meaning-⊑ libs now e.store e'.store below c no_template)
