-- ===== src/Config/Validate/Accepted/Names.antt =====
-- The names of the clients, and what they depend on.
use canarium.Config.Validate.Accepted.Parts.{validate_with-Accepts}
use canarium.Config.Clients.Refs.{NoRepeats}
use canarium.Config.Validate.Identity.{Network}
use canarium.Config.Types.{Config, ClientConfig}
use canarium.Config.Validate.Plans.{client_name_set}
use canarium.Config.Validate.Clients.{
  check_client, check_clients, named_clients, check_dependencies, validate_clients,
}
use canarium.Config.Validate.Conditions.{Registry, Checkers}
use canarium.Config.Validate.Whole.{validate_with}
use canarium.Common.{
  zero, suc, suc, some, ℕ, ap, String, true, false, not, List, [], ◌∷◌, all, Bool, ◌&&◌, Option,
  ◌≡◌, refl, arith, contains, eq_iff, get_elem?, is_empty, Bool-cases, inl, inr, same_refl,
}
use canarium.Config.Validate.Report.{
  each, has_errors-when, unknown_dependency, has_errors-add_error, duplicate_client, when,
  client_without_name, add_error, has_errors-⊕, has_errors,
}

module _ (k : Checkers) (reg : Option Registry) where
  -- The first client of a list without errors.
  check_clients-head :
      (names : List String) (c : ClientConfig) (cs : List ClientConfig)
      → has_errors (check_clients k reg names (c ∷ cs)) ≡ false
      → (is_empty c.name ≡ false)
        × (contains names c.name ≡ false)
        × (has_errors (check_client k reg c) ≡ false)
        × (has_errors (check_clients k reg (c.name ∷ names) cs) ≡ false)
  unfolding check_clients
  check_clients-head names c cs h = elim (Bool-cases (is_empty c.name)) [
    | inl e ↦ absurd (has_errors-add_error client_without_name _ (rw e at h))
    | inr e ↦
        let (a, rest) =
          has_errors-⊕ (when (contains names c.name) (add_error (duplicate_client c.name))) _
            (rw e at h) in
        let (b, d) = has_errors-⊕ (check_client k reg c) _ rest in (e, has_errors-when _ _ a, b, d)
  ]

  -- A name that was seen does not come again.
  seen_not_again :
      (names : List String) (cs : List ClientConfig) (x : String)
      → has_errors (check_clients k reg names cs) ≡ false
      → contains names x ≡ true
      → contains (client_name_set cs) x ≡ false
  unfolding client_name_set
  seen_not_again names [] x h m = refl
  seen_not_again names (c ∷ cs) x h m =
      let (_, new, _, rest) = check_clients-head names c cs h in
      ground (arith, seen_not_again (c.name ∷ names) cs x rest, eq_iff c.name x, new, m)

  check_clients-NoRepeats :
      (names : List String) (cs : List ClientConfig)
      → has_errors (check_clients k reg names cs) ≡ false
      → NoRepeats (client_name_set cs)
  unfolding client_name_set
  check_clients-NoRepeats names [] h = tt
  check_clients-NoRepeats names (c ∷ cs) h =
      let (_, _, _, rest) = check_clients-head names c cs h in
      (
        seen_not_again (c.name ∷ names) cs c.name rest (ground (arith, same_refl c.name)),
        check_clients-NoRepeats (c.name ∷ names) cs rest,
      )

  -- Each client of a list without errors has a name, and its own checks report none.
  pub check_clients-each :
      (names : List String) (cs : List ClientConfig) (i : ℕ) (c : ClientConfig)
      → has_errors (check_clients k reg names cs) ≡ false
      → get_elem? cs i ≡ some c
      → (is_empty c.name ≡ false) × (has_errors (check_client k reg c) ≡ false)
  check_clients-each names [] i c h g = cc
  check_clients-each names (d ∷ cs) zero c h g =
      let (named, _, checked, _) = check_clients-head names d cs h in
      ground (arith, named, checked, g)
  check_clients-each names (d ∷ cs) (suc i) c h g =
      let (_, _, _, rest) = check_clients-head names d cs h in
      check_clients-each (d.name ∷ names) cs i c rest g

  -- Without errors, the names that count are all of them.
  named_clients-all :
      (names : List String) (cs : List ClientConfig)
      → has_errors (check_clients k reg names cs) ≡ false
      → named_clients cs ≡ client_name_set cs
  unfolding named_clients client_name_set
  named_clients-all names [] h = refl
  named_clients-all names (c ∷ cs) h =
      let (named, _, _, rest) = check_clients-head names c cs h in
      rw named (ap (λ ns. c.name ∷ ns) (named_clients-all (c.name ∷ names) cs rest))

-- The dependencies of a client with a name are known.
known_dependencies :
    (names : List String) (c : ClientConfig) (deps : List String)
    → has_errors (
        each
          (λ dep. when (not (contains names dep)) (add_error (unknown_dependency c.name dep)))
          deps)
      ≡ false
    → all (contains names) deps ≡ true
unfolding each
known_dependencies names c [] h = refl
known_dependencies names c (dep ∷ deps) h =
    let (here, there) = has_errors-⊕ (when (not (contains names dep)) _) _ h in
    ground (
      arith,
      has_errors-when (not (contains names dep)) _ here,
      known_dependencies names c deps there,
    )

check_dependencies-known :
    (names : List String) (c : ClientConfig)
    → is_empty c.name ≡ false
    → has_errors (check_dependencies names c) ≡ false
    → all (contains names) c.depends_on ≡ true
unfolding check_dependencies
check_dependencies-known names c named h = known_dependencies names c c.depends_on (rw named at h)

-- A client with a name whose dependencies are among the names.
abbrev pub is_known : List String → ClientConfig → Bool
is_known names c = not (is_empty c.name) && all (contains names) c.depends_on

all-is_known :
    (k : Checkers) (reg : Option Registry) (names seen : List String) (cs : List ClientConfig)
    → has_errors (check_clients k reg seen cs) ≡ false
    → has_errors (each (check_dependencies names) cs) ≡ false
    → all (is_known names) cs ≡ true
unfolding each
all-is_known k reg names seen [] h d = refl
all-is_known k reg names seen (c ∷ cs) h d =
    let (named, _, _, rest) = check_clients-head k reg seen c cs h in
    let (here, there) = has_errors-⊕ (check_dependencies names c) _ d in
    ground (
      arith,
      named,
      check_dependencies-known names c named here,
      all-is_known k reg names (c.name ∷ seen) cs rest there,
    )

-- In a configuration that is accepted every client has a name, no two have the same, and every
-- client that one depends on is one of them.
pub accepted_names :
    (k : Checkers) (net : Network) (roots : List String) (reg : Option Registry) (cfg : Config)
    → has_errors (validate_with k net roots reg cfg) ≡ false
    → NoRepeats (client_name_set cfg.clients)
      × (all
            (λ c.
              not (is_empty c.name) && all (contains (client_name_set cfg.clients)) c.depends_on)
            cfg.clients
          ≡ true)
unfolding validate_clients
accepted_names k net roots reg cfg h =
    let accepts = validate_with-Accepts k net roots reg cfg h in
    let (checked, deps) = has_errors-⊕ (check_clients k reg [] cfg.clients) _ accepts.clients in
    let same_names = named_clients-all k reg [] cfg.clients checked in
    (
      check_clients-NoRepeats k reg [] cfg.clients checked,
      rw same_names at (all-is_known k reg (named_clients cfg.clients) [] cfg.clients checked deps),
    )
