-- ===== src/Config/Validate/Report.antt =====
-- What validation reports: `ValidationResult` of internal/config/validate.go. A message is the
-- constructor of its format with the values that are put in; the words of a parser's error and the
-- suggestions for an unknown fact are left out.
use canarium.Common.{inr, inl, inr, eq_iff, inl, same, Bool-cases, true, contains}
use canarium.Common.{
  inr, inl, suc, ◌≡◌, ℕ, zero, suc, ◌+◌, ◌≡◌, refl, arith, some, get_elem?, String, Bool, false,
  not, List, [], ◌∷◌, ◌++◌, is_nil, if◌then◌else◌,
}
use canarium.Common.Int.{ℤ}

-- The `context` that a message begins with.
pub data Context : Type 0 where
  source_at : ℕ → Context
  source_named : String → Context
  setting : String → Context
  client_field : String → String → Context
  plan_part : String → String → Context
  stage_when : String → String → Context
  stage_field : String → String → String → Context
  nested_at : Context → ℕ → Context

pub data Message : Type 0 where
  unknown_mode : String → Message
  empty_setting : String → Message
  keeps_history not_bcrypt hash_is_set config_is_readonly : Message
  webhook_without_url : ℕ → Message
  source_without_name source_without_type : Context → Message
  duplicate_source : String → Message
  unknown_source_type : Context → String → Message
  bad_poll_interval : Context → Message
  client_without_name : Message
  duplicate_client client_without_transport : String → Message
  unknown_transport unknown_wake_transport : String → String → Message
  bad_comms_loss bad_feed_policy bad_wake_policy : String → String → Message
  budget_too_short : String → ℤ → Message
  unknown_dependency : String → String → Message
  plan_without_name : Message
  duplicate_plan : String → Message
  stage_without_name : String → ℕ → Message
  bad_wait_policy : String → String → String → Message
  skips_stage : String → String → ℤ × Bool → Message
  tag_without_clients unknown_stage_client : String → String → String → Message
  ponr_is_marked no_ponr no_wake_gate : String → Message
  wake_tag_without_clients unknown_wake_client : String → ℕ → String → Message
  negative_retries : String → Message
  unknown_action : Context → String → Message
  no_command no_ups negative_delay half_credentials no_credentials no_host : Context → Message
  bad_port : Context → ℤ → Message
  dependency_cycle : String → String → Message
  two_stages : String → String → ℕ → ℕ → Message
  same_stage : String → String → String → String → Message
  dependency_first : String → String → ℕ → String → ℕ → Message
  contradicts_after : String → String → ℕ → String → ℕ → Message
  fact_required : Context → String → Message
  bound_required text_required value_required one_required : Context → Message
  nested_required : Context → String → Message
  bad_expression : Context → Message
  unknown_condition : Context → String → Message
  bad_for negative_for : Context → Message
  unknown_fact : Context → String → Message
  bad_duration : Context → Message
  identity_unknown : Message
  is_this_host : String → String → Message
  shuts_itself_down : String → String → String → String → Message
  commands_ups : String → String → String → Message
  negative_duration : Context → String → Message

-- A check gives what it adds to the result, in the order of its calls.
pub record ValidationResult : Type 0 where
  pub errors : List Message
  pub warnings : List Message
  pub info : List Message

abbrev pub clean : ValidationResult
clean = record { errors = []; warnings = []; info = [] }

abbrev pub add_error : Message → ValidationResult
add_error m = record { errors = m ∷ []; warnings = []; info = [] }

abbrev pub add_warning : Message → ValidationResult
add_warning m = record { errors = []; warnings = m ∷ []; info = [] }

abbrev pub add_info : Message → ValidationResult
add_info m = record { errors = []; warnings = []; info = m ∷ [] }

-- One check and then another.
infixr 20 ◌⊕◌
unfoldable pub ◌⊕◌ : ValidationResult → ValidationResult → ValidationResult
r ⊕ s = record {
  errors = r.errors ++ s.errors;
  warnings = r.warnings ++ s.warnings;
  info = r.info ++ s.info;
}

-- `if test { … }`
abbrev pub when : Bool → ValidationResult → ValidationResult
when test r = if test then r else clean

unfoldable pub has_errors : ValidationResult → Bool
has_errors r = not (is_nil r.errors)

-- A check that runs over a list.
unfoldable pub each {ℓ} : {A : Type ℓ} → (A → ValidationResult) → List A → ValidationResult
unfolding ◌⊕◌
each check [] = clean
each check (x ∷ xs) = check x ⊕ each check xs

-- The same with the index of each element, from `i` on.
unfoldable pub each_from {ℓ} :
    {A : Type ℓ} → (ℕ → A → ValidationResult) → ℕ → List A → ValidationResult
unfolding ◌⊕◌
each_from check i [] = clean
each_from check i (x ∷ xs) = check i x ⊕ each_from check (suc i) xs

some_inj {ℓ} : {A : Type ℓ} (a b : A) → some a ≡ some b → a ≡ b
some_inj a b e = cc

pub has_errors-⊕ :
    (r s : ValidationResult)
    → has_errors (r ⊕ s) ≡ false
    → (has_errors r ≡ false) × (has_errors s ≡ false)
unfolding has_errors ◌⊕◌
has_errors-⊕ r s h = go r.errors s.errors h
  where
    go :
        (xs ys : List Message)
        → not (is_nil (xs ++ ys)) ≡ false
        → (not (is_nil xs) ≡ false) × (not (is_nil ys) ≡ false)
    go [] ys h = (refl, h)
    go (x ∷ xs) ys h = cc

-- A check over a list without errors has none at any element.
pub has_errors-each {ℓ} :
    {A : Type ℓ} (check : A → ValidationResult) (xs : List A) (i : ℕ) (x : A)
    → has_errors (each check xs) ≡ false
    → get_elem? xs i ≡ some x
    → has_errors (check x) ≡ false
unfolding each
has_errors-each check [] i x h m = cc
has_errors-each check (y ∷ ys) zero x h m =
    rw (some_inj y x m) at ((has_errors-⊕ (check y) (each check ys) h).0)
has_errors-each check (y ∷ ys) (suc i) x h m =
    has_errors-each check ys i x ((has_errors-⊕ (check y) (each check ys) h).1) m

pub has_errors-each_from {ℓ} :
    {A : Type ℓ} (check : ℕ → A → ValidationResult) (k : ℕ) (xs : List A) (i : ℕ) (x : A)
    → has_errors (each_from check k xs) ≡ false
    → get_elem? xs i ≡ some x
    → has_errors (check (k + i) x) ≡ false
unfolding each_from
has_errors-each_from check k [] i x h m = cc
has_errors-each_from check k (y ∷ ys) zero x h m =
    let here : k + 0 ≡ k = omega arith in
    rw here (rw (some_inj y x m) at ((has_errors-⊕ (check k y) _ h).0))
has_errors-each_from check k (y ∷ ys) (suc i) x h m =
    let next : k + suc i ≡ suc k + i = omega arith in
    rw next (has_errors-each_from check (suc k) ys i x ((has_errors-⊕ (check k y) _ h).1) m)

pub has_errors-each-contains :
    (check : String → ValidationResult) (xs : List String) (x : String)
    → has_errors (each check xs) ≡ false
    → contains xs x ≡ true
    → has_errors (check x) ≡ false
unfolding each
has_errors-each-contains check [] x h m = cc
has_errors-each-contains check (y ∷ ys) x h m =
    let (here, there) = has_errors-⊕ (check y) (each check ys) h in
    elim (Bool-cases (same y x)) [
      | inl e ↦ rw ((eq_iff y x).0 e) at here
      | inr e ↦ has_errors-each-contains check ys x there (rw e at m)
    ]

-- A guard without an error did not hold.
pub has_errors-when :
    (b : Bool) (m : Message) → has_errors (when b (add_error m)) ≡ false → b ≡ false
unfolding has_errors
has_errors-when true m h = cc
has_errors-when false m h = refl

pub has_errors-add_error :
    (m : Message) (s : ValidationResult) → has_errors (add_error m ⊕ s) ≡ false → ⊥
unfolding has_errors ◌⊕◌
has_errors-add_error m s h = cc
