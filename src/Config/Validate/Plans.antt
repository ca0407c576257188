-- ===== src/Config/Validate/Plans.antt =====
-- Plans: `validatePlans`, `validatePostShutdown` and `warnIfWakeGateMissing` of
-- internal/config/validate.go.
use canarium.Config.Duration.{duration}
use canarium.Common.Int.{pos, ltb_ℤ, ℤ}
use canarium.Common.Text.{drop_prefix, trim_space, has_prefix}
use canarium.Config.Duration.{duration}
use canarium.Config.Clients.{build_tag_map}
use canarium.Common.Dict.{lookup, Dict}
use canarium.Config.Validate.Settings.{is_word}
use canarium.Config.Types.{
  default_wait_timeout, Config, PlanConfig, StageConfig, PostShutdownConfig, ClientConfig,
}
use canarium.Conditions.Config.{is_zero_condition}
use canarium.Config.Validate.Conditions.{Registry, validate_condition, Checkers, check_duration}
use canarium.Common.{
  ℕ, String, Bool, not, ◌&&◌, ◌||◌, List, [], ◌∷◌, Option, none, some, is_empty, is_some, same,
  contains, any, if◌then◌else◌,
}
use canarium.Config.Validate.Report.{
  no_host, no_credentials, unknown_stage_client, no_wake_gate, tag_without_clients,
  half_credentials, negative_delay, add_warning, skips_stage, unknown_wake_client, bad_wait_policy,
  bad_port, stage_field, no_ups, negative_retries, stage_when, no_ponr, no_command,
  stage_without_name, ponr_is_marked, wake_tag_without_clients, unknown_action, duplicate_plan,
  add_info, when, each_from, each, plan_without_name, add_error, plan_part, clean, Context, Message,
  ValidationResult, ◌⊕◌,
}

unfoldable pub warn_if_wake_gate_missing : PlanConfig → ValidationResult
unfolding is_zero_condition
warn_if_wake_gate_missing p =
    when (is_zero_condition p.wake.gate) (add_warning (no_wake_gate p.name))

abbrev action_words : List String
action_words = "" ∷ "upscmd" ∷ "outlet_off" ∷ "load_off" ∷ "outlet_on" ∷ "load_on" ∷ []

unfoldable check_post_shutdown : Context → PostShutdownConfig → ValidationResult
unfolding ◌⊕◌ is_word
check_post_shutdown context ps =
    when (not (is_word action_words ps.action)) (add_error (unknown_action context ps.action))
    ⊕ when (is_empty (trim_space ps.command)) (add_error (no_command context))
    ⊕ when (is_empty (trim_space ps.ups)) (add_error (no_ups context))
    ⊕ when (ltb_ℤ ps.port (pos 0) || ltb_ℤ (pos 65535) ps.port)
        (add_error (bad_port context ps.port))
    ⊕ when (ltb_ℤ ps.delay (pos 0)) (add_error (negative_delay context))
    ⊕ when
        (not (is_empty ps.username) && is_empty ps.password
          || is_empty ps.username && not (is_empty ps.password))
        (add_error (half_credentials context))
    ⊕ when (is_empty ps.username && is_empty ps.password) (add_warning (no_credentials context))
    ⊕ when (is_empty (trim_space ps.host)) (add_info (no_host context))

unfoldable pub validate_post_shutdown : String → Option PostShutdownConfig → ValidationResult
unfolding check_post_shutdown
validate_post_shutdown plan none = clean
validate_post_shutdown plan (some ps) = check_post_shutdown (plan_part plan "post_shutdown") ps

abbrev wait_policies : List String
wait_policies = "skip" ∷ "escalate" ∷ "hold" ∷ []

-- One reference of a stage: an unknown tag is a warning, an unknown client an error.
unfoldable check_ref :
    Dict (List String)
    → List String
    → (String → Message)
    → (String → Message)
    → String
    → ValidationResult
check_ref tag_clients names no_tag no_client ref =
    if has_prefix ref "tag:"
    then when (not (is_some (lookup (drop_prefix ref "tag:") tag_clients)))
        (add_warning (no_tag (drop_prefix ref "tag:")))
    else when (not (contains names ref)) (add_error (no_client ref))

-- `waitTimeoutOrDefault` prints this duration, or the text where it cannot be read.
abbrev wait_timeout_or_default : Checkers → StageConfig → ℤ × Bool
wait_timeout_or_default k s = duration k.parsers s.wait_timeout default_wait_timeout

unfoldable pub check_stage :
    Checkers
    → Option Registry
    → Dict (List String)
    → List String
    → String
    → ℕ
    → StageConfig
    → ValidationResult
unfolding ◌⊕◌ validate_condition check_duration each check_ref
check_stage k reg tag_clients names plan i s =
    when (is_empty s.name) (add_error (stage_without_name plan i))
    ⊕ validate_condition k reg (stage_when plan s.name) s.when
    ⊕ check_duration k s.budget (stage_field plan s.name "budget")
    ⊕ check_duration k s.wait_timeout (stage_field plan s.name "wait_timeout")
    ⊕ when (not (is_empty s.wait_policy) && not (contains wait_policies s.wait_policy))
        (add_error (bad_wait_policy plan s.name s.wait_policy))
    ⊕ when (same s.wait_policy "skip" || is_empty s.wait_policy)
        (add_info (skips_stage plan s.name (wait_timeout_or_default k s)))
    ⊕ each
        (check_ref tag_clients names (tag_without_clients plan s.name)
          (unknown_stage_client plan s.name))
        s.clients

unfoldable pub check_wake_stage :
    Dict (List String) → List String → String → ℕ → StageConfig → ValidationResult
unfolding each check_ref
check_wake_stage tag_clients names plan i s =
    each
      (check_ref tag_clients names (wake_tag_without_clients plan i) (unknown_wake_client plan i))
      s.clients

unfoldable pub check_abort : Checkers → Option Registry → PlanConfig → ValidationResult
unfolding validate_condition
check_abort k reg p = elim p.abort [
  | none ↦ clean
  | some c ↦ validate_condition k reg (plan_part p.name "abort") c
]

-- The three durations come from a Go map, in any order.
unfoldable pub check_wake : Checkers → Option Registry → PlanConfig → ValidationResult
unfolding ◌⊕◌ check_duration
check_wake k reg p =
    when (ltb_ℤ p.wake.retries (pos 0)) (add_error (negative_retries p.name))
    ⊕ check_duration k p.wake.stagger (plan_part p.name "wake.stagger")
    ⊕ check_duration k p.wake.probe_interval (plan_part p.name "wake.probe_interval")
    ⊕ check_duration k p.wake.boot_deadline (plan_part p.name "wake.boot_deadline")

-- The checks of one plan with a name.
unfoldable pub check_plan :
    Checkers → Option Registry → Dict (List String) → List String → PlanConfig → ValidationResult
unfolding ◌⊕◌ validate_condition check_abort each_from check_stage validate_post_shutdown
    warn_if_wake_gate_missing check_wake_stage check_wake
check_plan k reg tag_clients names p =
    validate_condition k reg (plan_part p.name "trigger") p.trigger
    ⊕ check_abort k reg p
    ⊕ each_from (check_stage k reg tag_clients names p.name) 0 p.shutdown.stages
    ⊕ add_info (
        if any (λ s. s.point_of_no_return) p.shutdown.stages
        then ponr_is_marked p.name
        else no_ponr p.name)
    ⊕ validate_post_shutdown p.name p.shutdown.post_shutdown
    ⊕ warn_if_wake_gate_missing p
    ⊕ validate_condition k reg (plan_part p.name "wake gate") p.wake.gate
    ⊕ each_from (check_wake_stage tag_clients names p.name) 0 p.wake.stages
    ⊕ check_wake k reg p

-- The loop over the plans; `seen` are the names so far.
unfoldable pub check_plans :
    Checkers
    → Option Registry
    → Dict (List String)
    → List String
    → List String
    → List PlanConfig
    → ValidationResult
unfolding ◌⊕◌ check_plan
check_plans k reg tag_clients names seen [] = clean
check_plans k reg tag_clients names seen (p ∷ rest) =
    let others = check_plans k reg tag_clients names seen rest in
    let below = check_plans k reg tag_clients names (p.name ∷ seen) rest in
    if is_empty p.name
    then add_error plan_without_name ⊕ others
    else when (contains seen p.name) (add_error (duplicate_plan p.name))
      ⊕ check_plan k reg tag_clients names p
      ⊕ below

-- The names as `buildClientNameSet` has them.
unfoldable pub client_name_set : List ClientConfig → List String
client_name_set [] = []
client_name_set (c ∷ rest) = c.name ∷ client_name_set rest

unfoldable pub validate_plans : Checkers → Option Registry → Config → ValidationResult
unfolding check_plans build_tag_map client_name_set
validate_plans k reg cfg =
    check_plans k reg (build_tag_map cfg) (client_name_set cfg.clients) [] cfg.plans
