-- ===== src/Config/Validate/Accepted/Parts.antt =====
-- The parts of `ValidateWith` have no error where the whole has none.
use canarium.Config.Validate.Stages.{validate_dependencies}
use canarium.Config.Validate.Plans.{validate_plans}
use canarium.Config.Validate.Clients.{validate_clients}
use canarium.Config.Validate.Settings.{validate_sources, validate_canarium}
use canarium.Config.Validate.Report.{has_errors-⊕, has_errors}
use canarium.Config.Types.{Config}
use canarium.Config.Validate.Identity.{validate_self_preservation, Network}
use canarium.Config.Validate.Whole.{local_of, validate_with}
use canarium.Config.Validate.Conditions.{Registry, Checkers}
use canarium.Common.{String, false, List, Option, ◌≡◌}

pub record Accepts (k : Checkers) (net : Network) (roots : List String) (reg : Option Registry)
    (cfg : Config) : Type 0 where
  pub settings : has_errors (validate_canarium k cfg) ≡ false
  pub clients : has_errors (validate_clients k reg cfg) ≡ false
  pub sources : has_errors (validate_sources k reg cfg) ≡ false
  pub plans : has_errors (validate_plans k reg cfg) ≡ false
  pub dependencies : has_errors (validate_dependencies roots cfg) ≡ false
  pub host : has_errors (validate_self_preservation net cfg (local_of reg)) ≡ false

pub validate_with-Accepts :
    (k : Checkers) (net : Network) (roots : List String) (reg : Option Registry) (cfg : Config)
    → has_errors (validate_with k net roots reg cfg) ≡ false
    → Accepts k net roots reg cfg
unfolding validate_with
validate_with-Accepts k net roots reg cfg h =
    let (a, h1) = has_errors-⊕ (validate_canarium k cfg) _ h in
    let (b, h2) = has_errors-⊕ (validate_clients k reg cfg) _ h1 in
    let (c, h3) = has_errors-⊕ (validate_sources k reg cfg) _ h2 in
    let (d, h4) = has_errors-⊕ (validate_plans k reg cfg) _ h3 in
    let (e, f) = has_errors-⊕ (validate_dependencies roots cfg) _ h4 in
    record { settings = a; clients = b; sources = c; plans = d; dependencies = e; host = f }
