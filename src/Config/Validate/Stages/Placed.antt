-- ===== src/Config/Validate/Stages/Placed.antt =====
-- In a configuration without errors a client is shut down before what it depends on.
use canarium.Config.Validate.Accepted.Parts.{validate_with-Accepts}
use canarium.Config.Validate.Identity.{Network}
use canarium.Config.Validate.Conditions.{Registry, Checkers}
use canarium.Config.Clients.{resolve_client_refs}
use canarium.Common.Dict.{lookup-insert, insert, lookup, Dict}
use canarium.Config.Validate.Stages.{
  check_cycles, check_client_order, check_dependency, check_plan_order, validate_dependencies,
  placed_twice, place_stages, place_names,
}
use canarium.Config.Types.{ClientConfig, PlanConfig, StageConfig, Config}
use canarium.Config.Validate.Whole.{validate_with}
use canarium.Common.{
  ◌∙◌, ℕ, zero, suc, ◌<◌, ◌+◌, ◌≡◌, refl, arith, eq_iff, String, true, false, List, [], ◌∷◌, Option,
  none, some, get_elem?, if◌then◌else◌, same, contains, Bool-cases, inl, inr,
}
use canarium.Config.Validate.Report.{
  has_errors-each-contains, has_errors-each, each, has_errors-⊕, has_errors, ◌⊕◌,
}

-- Where a name stands behind the loop over one stage's clients.
lookup-place_names :
    (plan : String) (i : ℕ) (ns : List String) (m : Dict ℕ) (x : String)
    → lookup x (place_names plan i ns m).1 ≡ (if contains ns x then some i else lookup x m)
unfolding place_names
lookup-place_names plan i [] m x = refl
lookup-place_names plan i (n ∷ ns) m x =
    ground (arith, lookup-place_names plan i ns (insert n i m) x, lookup-insert n x i m)

placed_once :
    (plan n : String) (i : ℕ) (o : Option ℕ)
    → has_errors (placed_twice plan n i o) ≡ false
    → o ≡ none
unfolding has_errors
placed_once plan n i none h = refl
placed_once plan n i (some j) h = cc

-- Without an error none of the names was placed before.
place_names_new :
    (plan : String) (i : ℕ) (ns : List String) (m : Dict ℕ) (x : String)
    → has_errors (place_names plan i ns m).0 ≡ false
    → contains ns x ≡ true
    → lookup x m ≡ none
unfolding place_names
place_names_new plan i [] m x h c = cc
place_names_new plan i (n ∷ ns) m x h c =
    let (here, there) = has_errors-⊕ (placed_twice plan n i (lookup n m)) _ h in
    let free = placed_once plan n i (lookup n m) here in
    elim (Bool-cases (same n x)) [
      | inl s ↦ rw ((eq_iff n x).0 s) at free
      | inr s ↦
          ground
            (arith, place_names_new plan i ns (insert n i m) x there, lookup-insert n x i m, s, c)
    ]

module _ (cfg : Config) (plan : String) where
  -- A name that is placed stays where it is.
  place_stages_keep :
      (i j : ℕ) (ss : List StageConfig) (m : Dict ℕ) (x : String)
      → has_errors (place_stages cfg plan i ss m).0 ≡ false
      → lookup x m ≡ some j
      → lookup x (place_stages cfg plan i ss m).1 ≡ some j
  unfolding place_stages
  place_stages_keep i j [] m x h e = e
  place_stages_keep i j (s ∷ ss) m x h e =
      let ns = resolve_client_refs s.clients cfg in
      let (here, there) = has_errors-⊕ (place_names plan i ns m).0 _ h in
      place_stages_keep (suc i) j ss (place_names plan i ns m).1 x there
        (ground (arith, lookup-place_names plan i ns m x, place_names_new plan i ns m x here, e))

  -- A name of a stage is placed there.
  lookup-place_stages :
      (i k : ℕ) (ss : List StageConfig) (m : Dict ℕ) (s : StageConfig) (x : String)
      → has_errors (place_stages cfg plan k ss m).0 ≡ false
      → get_elem? ss i ≡ some s
      → contains (resolve_client_refs s.clients cfg) x ≡ true
      → lookup x (place_stages cfg plan k ss m).1 ≡ some (k + i)
  unfolding place_stages
  lookup-place_stages i k [] m s x h g c = cc
  lookup-place_stages zero k (t ∷ ss) m s x h g c =
      let ns = resolve_client_refs t.clients cfg in
      let (_, there) = has_errors-⊕ (place_names plan k ns m).0 _ h in
      let at_t : contains ns x ≡ true = ground (arith, c, g) in
      let here : k + 0 ≡ k = omega arith in
      rw here (
        place_stages_keep (suc k) k ss (place_names plan k ns m).1 x there
          (lookup-place_names plan k ns m x ∙ rw at_t refl))
  lookup-place_stages (suc i) k (t ∷ ss) m s x h g c =
      let ns = resolve_client_refs t.clients cfg in
      let (_, there) = has_errors-⊕ (place_names plan k ns m).0 _ h in
      let next : k + suc i ≡ suc k + i = omega arith in
      rw next (lookup-place_stages i (suc k) ss (place_names plan k ns m).1 s x there g c)

lookup-place_stages_first :
    (cfg : Config) (plan : String) (i : ℕ) (ss : List StageConfig) (s : StageConfig) (x : String)
    → has_errors (place_stages cfg plan 0 ss []).0 ≡ false
    → get_elem? ss i ≡ some s
    → contains (resolve_client_refs s.clients cfg) x ≡ true
    → lookup x (place_stages cfg plan 0 ss []).1 ≡ some i
lookup-place_stages_first cfg plan i ss s x h g c =
    let at_i : 0 + i ≡ i = omega arith in
    rw at_i at (lookup-place_stages cfg plan i 0 ss [] s x h g c)

-- A dependency that passes its check comes in a later stage.
check_dependency-lt :
    (m : Dict ℕ) (p : PlanConfig) (client : String) (i : ℕ) (dep : String) (j : ℕ)
    → has_errors (check_dependency m p client i dep) ≡ false
    → lookup dep m ≡ some j
    → i < j
unfolding check_dependency has_errors ◌⊕◌
check_dependency-lt m p client i dep j h e = ground (arith, rw (e, check_dependency) at h)

check_client_order-lt :
    (m : Dict ℕ) (p : PlanConfig) (c : ClientConfig) (dep : String) (i j : ℕ)
    → has_errors (check_client_order m p c) ≡ false
    → contains c.depends_on dep ≡ true
    → lookup c.name m ≡ some i
    → lookup dep m ≡ some j
    → i < j
unfolding check_client_order
check_client_order-lt m p c dep i j h d ei ej =
    let checked =
      has_errors-⊕ (each (check_dependency m p c.name i) c.depends_on) _
        (rw (ei, check_client_order) at h) in
    check_dependency-lt m p c.name i dep j
      (has_errors-each-contains (check_dependency m p c.name i) c.depends_on dep checked.0 d) ej

check_plan_order-parts :
    (cfg : Config) (p : PlanConfig)
    → has_errors (check_plan_order cfg p) ≡ false
    → (has_errors (place_stages cfg p.name 0 p.shutdown.stages []).0 ≡ false)
      × (has_errors (
            each
              (check_client_order (place_stages cfg p.name 0 p.shutdown.stages []).1 p)
              cfg.clients)
          ≡ false)
unfolding check_plan_order
check_plan_order-parts cfg p h = has_errors-⊕ (place_stages cfg p.name 0 p.shutdown.stages []).0 _ h

-- In a configuration that is accepted a client stands in an earlier shutdown stage than any client
-- that it depends on, wherever a plan has both.
pub dependents_go_down_first :
    (k : Checkers) (net : Network) (roots : List String) (reg : Option Registry) (cfg : Config)
    (n : ℕ) (p : PlanConfig) (l : ℕ) (c : ClientConfig) (dep : String) (i j : ℕ) (s t : StageConfig)
    → has_errors (validate_with k net roots reg cfg) ≡ false
    → get_elem? cfg.plans n ≡ some p
    → get_elem? cfg.clients l ≡ some c
    → contains c.depends_on dep ≡ true
    → get_elem? p.shutdown.stages i ≡ some s
    → contains (resolve_client_refs s.clients cfg) c.name ≡ true
    → get_elem? p.shutdown.stages j ≡ some t
    → contains (resolve_client_refs t.clients cfg) dep ≡ true
    → i < j
unfolding validate_dependencies
dependents_go_down_first k net roots reg cfg n p l c dep i j s t h gp gc d gs cs gt ct =
    let accepts = validate_with-Accepts k net roots reg cfg h in
    let (_, plans) = has_errors-⊕ (check_cycles roots cfg.clients) _ accepts.dependencies in
    let plan = has_errors-each (check_plan_order cfg) cfg.plans n p plans gp in
    let (placed, ordered) = check_plan_order-parts cfg p plan in
    let m = (place_stages cfg p.name 0 p.shutdown.stages []).1 in
    check_client_order-lt m p c dep i j
      (has_errors-each (check_client_order m p) cfg.clients l c ordered gc) d
      (lookup-place_stages_first cfg p.name i p.shutdown.stages s c.name placed gs cs)
      (lookup-place_stages_first cfg p.name j p.shutdown.stages t dep placed gt ct)
