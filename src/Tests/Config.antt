-- ===== src/Tests/Config.antt =====
-- The theorems on validation, at a small configuration (internal/config/validate.go).
use canarium.Facts.Types.{definite_true}
use canarium.Conditions.Evaluator.{evaluate}
use canarium.Config.Validate.Cycles.{graph_of}
use canarium.Config.Validate.Accepted.Names.{accepted_names}
use canarium.Conditions.Config.{kind, none_left, nested, empty_fields, condition_config}
use canarium.Config.Validate.Cycles.Walks.{Cyclic}
use canarium.Config.Validate.Accepted.Host.{accepted_spares_host, in_shutdown}
use canarium.Config.Validate.Stages.Cyclic.{cycle_is_reported}
use canarium.Config.Validate.Plans.{client_name_set}
use canarium.Config.Clients.Refs.{NoRepeats}
use canarium.Config.Validate.Accepted.Times.{accepted_times, IsUsable}
use canarium.Config.Validate.Stages.Placed.{dependents_go_down_first}
use canarium.Config.Validate.Stages.{reports_of, find_cycles, check_cycles}
use canarium.Config.Clients.{resolve_client_refs}
use canarium.Common.Dict.{insert, lookup}
use canarium.Config.Duration.{parse_duration, duration}
use canarium.Common.Text.{trim_space, lower_is}
use canarium.Tests.Fixtures.{
  resting_executor, low_charge, stage_of, test_plan, web, test_libs, nas, test_config, client_named,
}
use canarium.Config.Validate.Report.{clean, plan_part, has_errors}
use canarium.Config.Types.{
  default_boot_deadline, default_probe_interval, default_stagger, default_wait_timeout,
  default_guard_period, default_shutdown_budget, Config, ClientConfig,
}
use canarium.Config.Validate.Conditions.{validate_condition, Checkers, Registry}
use canarium.Config.Validate.Identity.{is_local, LocalIdentity, Network}
use canarium.Config.Validate.Whole.{validate_with}
use canarium.Common.{
  all, not, ◌&&◌, String, true, false, List, [], ◌∷◌, none, some, ◌≡◌, ◌↔◌, ◌<◌, refl, contains,
  is_empty,
}

abbrev valid_client : ClientConfig → ClientConfig
valid_client c = record c { feed_policy = "any"; wake_policy = "power_state" }

-- The daemon's own host, which no stage shuts down.
abbrev own_host : ClientConfig
own_host = record (valid_client (client_named "monitor" [])) { address = "canarium"; tags = [] }

abbrev valid_config : Config
valid_config = record test_config { clients = valid_client nas ∷ valid_client web ∷ own_host ∷ [] }

abbrev checkers : Checkers
checkers = record { parsers = test_libs.parsers; expr_is_valid = λ s. true }

abbrev network : Network
network = record { to_lower = λ s. s; split_host_port = λ s. none; parse_ip = λ s. none }

abbrev identity : LocalIdentity
identity = record { hostnames = "canarium" ∷ []; addresses = [] }

abbrev registry : Registry
registry = record {
  transports = "ssh" ∷ "nut" ∷ [];
  source_types = [];
  facts = "ups.charge" ∷ [];
  local = some identity;
}

abbrev root_order : List String
root_order = "web" ∷ "monitor" ∷ "nas" ∷ []

accepted :
    has_errors (validate_with checkers network root_order (some registry) valid_config) ≡ false
unfolding validate_with has_errors lower_is trim_space duration parse_duration lookup insert
accepted = refl

accepted_names_example :
    NoRepeats (client_name_set valid_config.clients)
    × (all
          (λ c.
            not (is_empty c.name)
            && all (contains (client_name_set valid_config.clients)) c.depends_on)
          valid_config.clients
        ≡ true)
accepted_names_example =
    accepted_names checkers network root_order (some registry) valid_config accepted

accepted_times_example :
    (IsUsable checkers.parsers "" default_shutdown_budget
      × IsUsable checkers.parsers "" default_guard_period)
    × (IsUsable checkers.parsers "" default_shutdown_budget
        × IsUsable checkers.parsers "30s" default_wait_timeout)
    × (IsUsable checkers.parsers "" default_stagger
        × IsUsable checkers.parsers "" default_probe_interval
        × IsUsable checkers.parsers "" default_boot_deadline)
accepted_times_example =
    accepted_times checkers network root_order (some registry) valid_config 1 0 1 (valid_client web)
      test_plan (stage_of "storage" ("nas" ∷ []) true) accepted refl refl refl

accepted_spares_host_example : in_shutdown valid_config valid_config.plans "monitor" ≡ false
unfolding is_local trim_space
accepted_spares_host_example =
    accepted_spares_host checkers network root_order registry valid_config identity 2 own_host
      accepted refl refl refl refl

dependents_go_down_first_example : 0 < 1
unfolding resolve_client_refs
dependents_go_down_first_example =
    dependents_go_down_first checkers network root_order (some registry) valid_config 0 test_plan 1
      (valid_client web) "nas" 0 1 (stage_of "servers" ("web" ∷ []) false)
      (stage_of "storage" ("nas" ∷ []) true) accepted refl refl refl refl refl refl refl

-- Two clients that depend on each other, and one that does not.
abbrev looped : List ClientConfig
looped =
    client_named "a" ("b" ∷ []) ∷ client_named "b" ("a" ∷ []) ∷ client_named "c" ("a" ∷ []) ∷ []

cycle_is_reported_example :
    (has_errors (check_cycles ("c" ∷ "a" ∷ "b" ∷ []) looped) ≡ true) ↔ Cyclic (graph_of looped [])
cycle_is_reported_example =
    cycle_is_reported ("c" ∷ "a" ∷ "b" ∷ []) looped (refl, (refl, (refl, tt)))

-- `conditions:` without `condition: and`: validated without a message, and always true.
untyped_trigger :
    (validate_condition checkers none
        (plan_part "outage" "trigger")
        (condition_config empty_fields (nested low_charge none_left))
      ≡ clean)
    × (evaluate test_libs
          (condition_config empty_fields (nested low_charge none_left))
          7
          (resting_executor.evaluator)
        ≡ (definite_true, resting_executor.evaluator))
unfolding validate_condition evaluate kind
untyped_trigger = (refl, refl)

-- The search leaves its path marked when it finds a cycle: "c", which is on none, is reported too.
spurious_report :
    reports_of (find_cycles ("a" ∷ "b" ∷ "c" ∷ []) looped) ≡ ("b", "a") ∷ ("c", "a") ∷ []
unfolding find_cycles lookup insert
spurious_report = refl
