-- ===== src/Config/Validate/Accepted/Host.antt =====
-- A configuration that is accepted does not shut down the host that the daemon runs on.
use canarium.Config.Validate.Accepted.Parts.{validate_with-Accepts}
use canarium.Config.Clients.{resolve_client_refs}
use canarium.Config.Validate.Conditions.{Registry, Checkers}
use canarium.Config.Types.{ClientConfig, PlanConfig, StageConfig, Config}
use canarium.Common.Dict.{lookup-insert, insert, lookup, Dict}
use canarium.Config.Validate.Identity.{
  validate_self_preservation, is_local, LocalIdentity, Network, add_plan_placements, check_self,
  add_stage_placements, Placement, add_placements,
}
use canarium.Config.Validate.Whole.{validate_with}
use canarium.Common.{
  ℕ, any, String, Bool, true, false, ◌||◌, ◌&&◌, List, [], ◌∷◌, none, some, ◌≡◌, refl, arith,
  get_elem?, contains, is_nil, is_some, eq_iff, Bool-cases, Option-cases, inl, inr,
}
use canarium.Config.Validate.Report.{has_errors-each, each, has_errors-⊕, has_errors}

-- A name keeps its placement, and a name of the list has one.
lookup-add_placements :
    (at : Placement) (ns : List String) (m : Dict Placement) (x : String)
    → is_some (lookup x (add_placements at ns m)) ≡ contains ns x || is_some (lookup x m)
unfolding add_placements
lookup-add_placements at [] m x = refl
lookup-add_placements at (n ∷ ns) m x = elim (Bool-cases (is_some (lookup n m))) [
  | inl old ↦ rw old (ground (arith, lookup-add_placements at ns m x, eq_iff n x, old))
  | inr new ↦
      rw new (ground (arith, lookup-add_placements at ns (insert n at m) x, lookup-insert n x at m))
]

-- Whether some stage of the plan shuts the client down.
abbrev in_stages : Config → List StageConfig → String → Bool
in_stages cfg ss x = any (λ s. contains (resolve_client_refs s.clients cfg) x) ss

-- Whether some plan does.
abbrev pub in_shutdown : Config → List PlanConfig → String → Bool
in_shutdown cfg ps x = any (λ p. in_stages cfg p.shutdown.stages x) ps

lookup-add_stage_placements :
    (cfg : Config) (plan : String) (ss : List StageConfig) (m : Dict Placement) (x : String)
    → is_some (lookup x (add_stage_placements cfg plan ss m))
      ≡ in_stages cfg ss x || is_some (lookup x m)
unfolding add_stage_placements
lookup-add_stage_placements cfg plan [] m x = refl
lookup-add_stage_placements cfg plan (s ∷ ss) m x =
    let ns = resolve_client_refs s.clients cfg in
    ground (
      arith,
      lookup-add_stage_placements cfg plan ss (add_placements (plan, s.name) ns m) x,
      lookup-add_placements (plan, s.name) ns m x,
    )

lookup-add_plan_placements :
    (cfg : Config) (ps : List PlanConfig) (m : Dict Placement) (x : String)
    → is_some (lookup x (add_plan_placements cfg ps m))
      ≡ in_shutdown cfg ps x || is_some (lookup x m)
unfolding add_plan_placements
lookup-add_plan_placements cfg [] m x = refl
lookup-add_plan_placements cfg (p ∷ ps) m x = ground (
  arith,
  lookup-add_plan_placements cfg ps (add_stage_placements cfg p.name p.shutdown.stages m) x,
  lookup-add_stage_placements cfg p.name p.shutdown.stages m x,
)

unplaced :
    (net : Network) (id : LocalIdentity) (m : Dict Placement) (c : ClientConfig)
    → is_local net id c.address ≡ true
    → has_errors (check_self net id m c) ≡ false
    → lookup c.name m ≡ none
unfolding check_self has_errors
unplaced net id m c l h = elim (Option-cases (lookup c.name m)) [
  | inl e ↦ e
  | inr (at, e) ↦ cc (rw (l, check_self, e) at h)
]

-- In a configuration that is accepted no plan shuts down a client at an address of the daemon's own
-- host, where that host's identity could be determined.
pub accepted_spares_host :
    (k : Checkers) (net : Network) (roots : List String) (reg : Registry) (cfg : Config)
    (id : LocalIdentity) (i : ℕ) (c : ClientConfig)
    → has_errors (validate_with k net roots (some reg) cfg) ≡ false
    → reg.local ≡ some id
    → is_nil id.hostnames && is_nil id.addresses ≡ false
    → get_elem? cfg.clients i ≡ some c
    → is_local net id c.address ≡ true
    → in_shutdown cfg cfg.plans c.name ≡ false
unfolding validate_self_preservation lookup
accepted_spares_host k net roots reg cfg id i c h known some_identity g l =
    let accepts = validate_with-Accepts k net roots (some reg) cfg h in
    let m = add_plan_placements cfg cfg.plans [] in
    let checked = rw (known, validate_self_preservation, some_identity) at accepts.host in
    let (clients, _) = has_errors-⊕ (each (check_self net id m) cfg.clients) _ checked in
    let free =
      unplaced net id m c l (has_errors-each (check_self net id m) cfg.clients i c clients g) in
    ground (arith, lookup-add_plan_placements cfg cfg.plans [] c.name, free)
