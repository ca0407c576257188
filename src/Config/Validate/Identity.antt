-- ===== src/Config/Validate/Identity.antt =====
-- The host's own identity: internal/config/selfpreservation.go. `Network` is what it calls of Go's
-- net package and of `strings.ToLower`; an address is the number of its 16 bytes, in which
-- `IP.Equal` compares.
use canarium.Common.Text.{concat, trim_space}
use canarium.Config.Types.{PlanConfig, StageConfig, Config, PostShutdownConfig, ClientConfig}
use canarium.Config.Clients.{resolve_client_refs}
use canarium.Common.Dict.{insert, lookup, Dict}
use canarium.Common.{
  is_some, ℕ, String, Bool, false, not, ◌&&◌, ◌==◌, List, [], ◌∷◌, Option, none, some, is_empty,
  any, contains, is_nil, if◌then◌else◌,
}
use canarium.Config.Validate.Report.{
  identity_unknown, when, each, shuts_itself_down, add_error, commands_ups, is_this_host, add_info,
  clean, add_warning, ValidationResult, ◌⊕◌,
}

pub record LocalIdentity : Type 0 where
  pub hostnames : List String
  pub addresses : List ℕ

pub record Network : Type 0 where
  pub to_lower : String → String
  pub split_host_port : String → Option String
  pub parse_ip : String → Option ℕ

abbrev without_port : Network → String → String
without_port net address = elim (net.split_host_port address) [ none ↦ address | some host ↦ host ]

unfoldable pub is_local : Network → LocalIdentity → String → Bool
is_local net id address =
    let text = net.to_lower (trim_space address) in
    let host = without_port net text in
    if is_empty text then false else elim (net.parse_ip host) [
      | some ip ↦ any (λ a. a == ip) id.addresses
      | none ↦ contains id.hostnames host
    ]

-- A plan and a stage, by their names.
abbrev pub Placement : Type 0
Placement = String × String

-- The first placement of each name.
unfoldable pub add_placements : Placement → List String → Dict Placement → Dict Placement
add_placements at [] m = m
add_placements at (n ∷ ns) m =
    add_placements at ns (if is_some (lookup n m) then m else insert n at m)

unfoldable pub add_stage_placements :
    Config → String → List StageConfig → Dict Placement → Dict Placement
unfolding add_placements resolve_client_refs
add_stage_placements cfg plan [] m = m
add_stage_placements cfg plan (s ∷ ss) m =
    add_stage_placements cfg plan ss
      (add_placements (plan, s.name) (resolve_client_refs s.clients cfg) m)

unfoldable pub add_plan_placements : Config → List PlanConfig → Dict Placement → Dict Placement
unfolding add_stage_placements
add_plan_placements cfg [] m = m
add_plan_placements cfg (p ∷ ps) m =
    add_plan_placements cfg ps (add_stage_placements cfg p.name p.shutdown.stages m)

abbrev report_placement : ClientConfig → Option Placement → ValidationResult
report_placement c none = add_warning (is_this_host c.name c.address)
report_placement c (some (plan, stage)) = add_error (shuts_itself_down c.name c.address plan stage)

unfoldable pub check_self :
    Network → LocalIdentity → Dict Placement → ClientConfig → ValidationResult
unfolding is_local
check_self net id m c = when (is_local net id c.address) (report_placement c (lookup c.name m))

abbrev post_shutdown_description : PostShutdownConfig → String
post_shutdown_description ps =
    if not (is_empty ps.command) then concat "run " ps.command else "cut its outlets"

abbrev report_outlets : String → Option PostShutdownConfig → ValidationResult
report_outlets plan none = clean
report_outlets plan (some ps) = add_info (commands_ups plan ps.ups (post_shutdown_description ps))

-- `none` is a missing identity.
unfoldable pub validate_self_preservation :
    Network → Config → Option LocalIdentity → ValidationResult
unfolding ◌⊕◌ add_plan_placements check_self each
validate_self_preservation net cfg none = clean
validate_self_preservation net cfg (some id) =
    let placements = add_plan_placements cfg cfg.plans [] in
    if is_nil id.hostnames && is_nil id.addresses
    then add_warning identity_unknown
    else each (check_self net id placements) cfg.clients
      ⊕ each (λ p. report_outlets p.name p.shutdown.post_shutdown) cfg.plans
