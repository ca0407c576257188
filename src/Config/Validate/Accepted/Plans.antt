-- ===== src/Config/Validate/Accepted/Plans.antt =====
-- The plans of a configuration that is accepted have passed their checks one by one.
use canarium.Config.Validate.Accepted.Parts.{validate_with-Accepts}
use canarium.Common.Dict.{Dict}
use canarium.Config.Types.{PlanConfig, Config}
use canarium.Config.Validate.Identity.{Network}
use canarium.Config.Validate.Conditions.{validate_condition, Registry, Checkers}
use canarium.Config.Validate.Plans.{
  client_name_set, check_wake_stage, warn_if_wake_gate_missing, validate_post_shutdown, check_wake,
  check_stage, check_abort, check_plans, check_plan, validate_plans,
}
use canarium.Config.Validate.Whole.{validate_with}
use canarium.Config.Clients.{build_tag_map}
use canarium.Common.{
  ℕ, String, false, List, [], ◌∷◌, Option, some, ◌≡◌, arith, get_elem?, is_empty, contains,
  Bool-cases, inl, inr, zero, suc,
}
use canarium.Config.Validate.Report.{
  duplicate_plan, add_error, when, add_info, each_from, plan_part, plan_without_name, has_errors-⊕,
  has_errors-add_error, has_errors,
}

module _ (k : Checkers) (reg : Option Registry) (tag_clients : Dict (List String))
    (names : List String) where
  check_plans-head :
      (seen : List String) (p : PlanConfig) (ps : List PlanConfig)
      → has_errors (check_plans k reg tag_clients names seen (p ∷ ps)) ≡ false
      → (has_errors (check_plan k reg tag_clients names p) ≡ false)
        × (has_errors (check_plans k reg tag_clients names (p.name ∷ seen) ps) ≡ false)
  unfolding check_plans
  check_plans-head seen p ps h = elim (Bool-cases (is_empty p.name)) [
    | inl e ↦ absurd (has_errors-add_error plan_without_name _ (rw e at h))
    | inr e ↦
        let (_, rest) =
          has_errors-⊕ (when (contains seen p.name) (add_error (duplicate_plan p.name))) _
            (rw e at h) in
        has_errors-⊕ (check_plan k reg tag_clients names p) _ rest
  ]

  pub check_plans-each :
      (seen : List String) (ps : List PlanConfig) (i : ℕ) (p : PlanConfig)
      → has_errors (check_plans k reg tag_clients names seen ps) ≡ false
      → get_elem? ps i ≡ some p
      → has_errors (check_plan k reg tag_clients names p) ≡ false
  check_plans-each seen [] i p h g = cc
  check_plans-each seen (q ∷ ps) zero p h g = ground (arith, (check_plans-head seen q ps h).0, g)
  check_plans-each seen (q ∷ ps) (suc i) p h g =
      check_plans-each (q.name ∷ seen) ps i p ((check_plans-head seen q ps h).1) g

  -- The parts of a plan's check.
  pub record Passes (p : PlanConfig) : Type 0 where
    pub trigger :
        has_errors (validate_condition k reg (plan_part p.name "trigger") p.trigger) ≡ false
    pub stages :
        has_errors (each_from (check_stage k reg tag_clients names p.name) 0 p.shutdown.stages)
        ≡ false
    pub gate :
        has_errors (validate_condition k reg (plan_part p.name "wake gate") p.wake.gate) ≡ false
    pub wake : has_errors (check_wake k reg p) ≡ false

  pub check_plan-Passes :
      (p : PlanConfig) → has_errors (check_plan k reg tag_clients names p) ≡ false → Passes p
  unfolding check_plan
  check_plan-Passes p h =
      let (trigger, h1) = has_errors-⊕ (validate_condition k reg _ p.trigger) _ h in
      let (_, h2) = has_errors-⊕ (check_abort k reg p) _ h1 in
      let (stages, h3) =
        has_errors-⊕ (each_from (check_stage k reg tag_clients names p.name) 0 p.shutdown.stages) _
          h2 in
      let (_, h4) = has_errors-⊕ (add_info _) _ h3 in
      let (_, h5) = has_errors-⊕ (validate_post_shutdown p.name p.shutdown.post_shutdown) _ h4 in
      let (_, h6) = has_errors-⊕ (warn_if_wake_gate_missing p) _ h5 in
      let (gate, h7) = has_errors-⊕ (validate_condition k reg _ p.wake.gate) _ h6 in
      let (_, wake) =
        has_errors-⊕ (each_from (check_wake_stage tag_clients names p.name) 0 p.wake.stages) _ h7 in
      record { trigger = trigger; stages = stages; gate = gate; wake = wake }

-- A plan of a configuration that is accepted has passed.
pub accepted_plan :
    (k : Checkers) (net : Network) (roots : List String) (reg : Option Registry) (cfg : Config)
    (i : ℕ) (p : PlanConfig)
    → has_errors (validate_with k net roots reg cfg) ≡ false
    → get_elem? cfg.plans i ≡ some p
    → Passes k reg (build_tag_map cfg) (client_name_set cfg.clients) p
unfolding validate_plans
accepted_plan k net roots reg cfg i p h g =
    let accepts = validate_with-Accepts k net roots reg cfg h in
    check_plan-Passes k reg (build_tag_map cfg) (client_name_set cfg.clients) p (
      check_plans-each k reg (build_tag_map cfg) (client_name_set cfg.clients) [] cfg.plans i p
        accepts.plans g)
