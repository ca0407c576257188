-- ===== src/Config/Validate/Accepted/Times.antt =====
-- The durations of a configuration that is accepted, as the engine reads them.
use canarium.Config.Validate.Accepted.Plans.{accepted_plan}
use canarium.Config.Validate.Accepted.Parts.{validate_with-Accepts}
use canarium.Config.Validate.Identity.{Network}
use canarium.Config.Validate.Plans.{client_name_set, check_wake, check_stage}
use canarium.Config.Types.{
  Config, default_wait_timeout, StageConfig, default_boot_deadline, default_probe_interval,
  default_guard_period, default_stagger, default_shutdown_budget, PlanConfig, ClientConfig,
}
use canarium.Config.Validate.Clients.{
  check_clients, validate_clients, warn_if_budget_too_short, check_comms_loss, check_wake_transport,
  check_transport, check_client,
}
use canarium.Common.Dict.{Dict}
use canarium.Common.Text.{trim_space}
use canarium.Common.Int.{ltb_ℤ, ◌≤ℤ◌, pos, ℤ}
use canarium.Config.Validate.Conditions.{validate_condition, Registry, Checkers, check_duration}
use canarium.Config.Duration.{parse_duration, duration, DurationParsers}
use canarium.Config.Validate.Whole.{validate_with}
use canarium.Config.Clients.{build_tag_map}
use canarium.Config.Validate.Accepted.Names.{check_clients-each}
use canarium.Common.{
  ◌+◌, [], some, get_elem?, ℕ, String, true, false, List, Option, ◌≡◌, refl, arith, is_empty,
  Bool-cases, Option-cases, inl, inr,
}
use canarium.Common.Int.{◌≤ℤ◌}
use canarium.Config.Validate.Report.{
  has_errors-each_from, when, has_errors-⊕, has_errors-when, Context, has_errors,
}

-- The duration can be read and is not negative.
abbrev pub IsUsable : DurationParsers → String → ℤ → Type 0
IsUsable p value def = ((duration p value def).1 ≡ true) × (pos 0 ≤ℤ (duration p value def).0)

not_negative : (d : ℤ) → ltb_ℤ d (pos 0) ≡ false → pos 0 ≤ℤ d
not_negative d h = ground arith

check_duration-IsUsable :
    (k : Checkers) (value : String) (context : Context) (def : ℤ)
    → has_errors (check_duration k value context) ≡ false
    → pos 0 ≤ℤ def
    → IsUsable k.parsers value def
unfolding check_duration duration has_errors
check_duration-IsUsable k value context def h d = elim (Bool-cases (is_empty (trim_space value))) [
  | inl e ↦ rw e (refl, d)
  | inr e ↦ elim (Option-cases (parse_duration k.parsers value)) [
    | inl bad ↦ cc (rw (e, bad, check_duration) at h)
    | inr (n, good) ↦
        let fine = rw (e, good, check_duration) at h in
        rw e (rw good (refl, not_negative n (has_errors-when _ _ fine)))
  ]
]

module _ (k : Checkers) (reg : Option Registry) where
  client_times :
      (c : ClientConfig)
      → has_errors (check_client k reg c) ≡ false
      → IsUsable k.parsers c.shutdown_budget default_shutdown_budget
        × IsUsable k.parsers c.guard_period default_guard_period
  unfolding check_client
  client_times c h =
      let (_, h1) = has_errors-⊕ (check_transport reg c) _ h in
      let (_, h2) = has_errors-⊕ (check_wake_transport reg c) _ h1 in
      let (_, h3) = has_errors-⊕ (check_comms_loss c) _ h2 in
      let (budget, h4) = has_errors-⊕ (check_duration k c.shutdown_budget _) _ h3 in
      let (_, h5) = has_errors-⊕ (warn_if_budget_too_short k c) _ h4 in
      let (guard, _) = has_errors-⊕ (check_duration k c.guard_period _) _ h5 in
      (
        check_duration-IsUsable k c.shutdown_budget _ default_shutdown_budget budget (omega arith),
        check_duration-IsUsable k c.guard_period _ default_guard_period guard (omega arith),
      )

  module _ (tag_clients : Dict (List String)) (names : List String) where
    stage_times :
        (plan : String) (i : ℕ) (s : StageConfig)
        → has_errors (check_stage k reg tag_clients names plan i s) ≡ false
        → IsUsable k.parsers s.budget default_shutdown_budget
          × IsUsable k.parsers s.wait_timeout default_wait_timeout
    unfolding check_stage
    stage_times plan i s h =
        let (_, h1) = has_errors-⊕ (when (is_empty s.name) _) _ h in
        let (_, h2) = has_errors-⊕ (validate_condition k reg _ s.when) _ h1 in
        let (budget, h3) = has_errors-⊕ (check_duration k s.budget _) _ h2 in
        let (timeout, _) = has_errors-⊕ (check_duration k s.wait_timeout _) _ h3 in
        (
          check_duration-IsUsable k s.budget _ default_shutdown_budget budget (omega arith),
          check_duration-IsUsable k s.wait_timeout _ default_wait_timeout timeout (omega arith),
        )

    wake_times :
        (p : PlanConfig)
        → has_errors (check_wake k reg p) ≡ false
        → IsUsable k.parsers p.wake.stagger default_stagger
          × IsUsable k.parsers p.wake.probe_interval default_probe_interval
          × IsUsable k.parsers p.wake.boot_deadline default_boot_deadline
    unfolding check_wake
    wake_times p h =
        let (_, h1) = has_errors-⊕ (when (ltb_ℤ p.wake.retries (pos 0)) _) _ h in
        let (stagger, h2) = has_errors-⊕ (check_duration k p.wake.stagger _) _ h1 in
        let (interval, deadline) = has_errors-⊕ (check_duration k p.wake.probe_interval _) _ h2 in
        (
          check_duration-IsUsable k p.wake.stagger _ default_stagger stagger (omega arith),
          check_duration-IsUsable k p.wake.probe_interval _ default_probe_interval interval
              (omega arith),
          check_duration-IsUsable k p.wake.boot_deadline _ default_boot_deadline deadline
              (omega arith),
        )

-- In a configuration that is accepted the engine can read every client's budget and guard period,
-- every stage's budget and wait timeout and the times of a wake, and none is negative.
pub accepted_times :
    (k : Checkers) (net : Network) (roots : List String) (reg : Option Registry) (cfg : Config)
    (h i j : ℕ) (c : ClientConfig) (p : PlanConfig) (s : StageConfig)
    → has_errors (validate_with k net roots reg cfg) ≡ false
    → get_elem? cfg.clients h ≡ some c
    → get_elem? cfg.plans i ≡ some p
    → get_elem? p.shutdown.stages j ≡ some s
    → (IsUsable k.parsers c.shutdown_budget default_shutdown_budget
        × IsUsable k.parsers c.guard_period default_guard_period)
      × (IsUsable k.parsers s.budget default_shutdown_budget
          × IsUsable k.parsers s.wait_timeout default_wait_timeout)
      × (IsUsable k.parsers p.wake.stagger default_stagger
          × IsUsable k.parsers p.wake.probe_interval default_probe_interval
          × IsUsable k.parsers p.wake.boot_deadline default_boot_deadline)
unfolding validate_clients
accepted_times k net roots reg cfg h i j c p s ok gc gp gs =
    let tag_clients = build_tag_map cfg in
    let names = client_name_set cfg.clients in
    let accepts = validate_with-Accepts k net roots reg cfg ok in
    let (checked, _) = has_errors-⊕ (check_clients k reg [] cfg.clients) _ accepts.clients in
    let (_, client) = check_clients-each k reg [] cfg.clients h c checked gc in
    let plan = accepted_plan k net roots reg cfg i p ok gp in
    let stage =
      has_errors-each_from (check_stage k reg tag_clients names p.name) 0 p.shutdown.stages j s
        plan.stages gs in
    (
      client_times k reg c client,
      stage_times k reg tag_clients names p.name (0 + j) s stage,
      wake_times k reg tag_clients names p plan.wake,
    )
