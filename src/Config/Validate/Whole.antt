-- ===== src/Config/Validate/Whole.antt =====
-- `ValidateWith` and `Validate` of internal/config/validate.go.
use canarium.Config.Validate.Stages.{validate_dependencies}
use canarium.Config.Validate.Plans.{validate_plans}
use canarium.Config.Types.{Config}
use canarium.Config.Validate.Clients.{validate_clients}
use canarium.Config.Validate.Identity.{validate_self_preservation, Network, LocalIdentity}
use canarium.Config.Validate.Settings.{validate_sources, validate_canarium}
use canarium.Config.Validate.Conditions.{Registry, Checkers}
use canarium.Common.{String, List, Option, none, some}
use canarium.Config.Validate.Report.{ValidationResult, ◌⊕◌}

abbrev pub local_of : Option Registry → Option LocalIdentity
local_of none = none
local_of (some reg) = reg.local

-- `roots` is the order in which Go runs through the graph of dependencies.
unfoldable pub validate_with :
    Checkers → Network → List String → Option Registry → Config → ValidationResult
unfolding ◌⊕◌ validate_canarium validate_clients validate_sources validate_plans
    validate_dependencies validate_self_preservation
validate_with k net roots reg cfg =
    validate_canarium k cfg
    ⊕ validate_clients k reg cfg
    ⊕ validate_sources k reg cfg
    ⊕ validate_plans k reg cfg
    ⊕ validate_dependencies roots cfg
    ⊕ validate_self_preservation net cfg (local_of reg)

unfoldable pub validate : Checkers → Network → List String → Config → ValidationResult
unfolding validate_with
validate k net roots cfg = validate_with k net roots none cfg
