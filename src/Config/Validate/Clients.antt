-- ===== src/Config/Validate/Clients.antt =====
-- Clients: `validateClients` and `warnIfBudgetTooShortToVerify` of internal/config/validate.go.
use canarium.Config.Duration.{duration}
use canarium.Common.Int.{ltb_ℤ, pos, ℤ}
use canarium.Config.Validate.Conditions.{is_unknown, check_duration, Registry, Checkers}
use canarium.Config.Types.{default_shutdown_budget, Config, second, ClientConfig}
use canarium.Common.{
  ◌*◌, String, not, ◌&&◌, ◌||◌, List, [], ◌∷◌, Option, none, some, is_empty, same, contains,
  if◌then◌else◌,
}
use canarium.Config.Validate.Report.{
  budget_too_short, add_warning, unknown_wake_transport, bad_wake_policy, unknown_transport,
  unknown_dependency, bad_feed_policy, duplicate_client, bad_comms_loss, when, each,
  client_without_name, client_without_transport, client_field, add_error, clean, ValidationResult,
  ◌⊕◌,
}

abbrev min_verifiable_budget : ℤ
min_verifiable_budget = pos (90 * second)

unfoldable pub warn_if_budget_too_short : Checkers → ClientConfig → ValidationResult
warn_if_budget_too_short k c =
    let (budget, read) = duration k.parsers c.shutdown_budget default_shutdown_budget in
    when (read && ltb_ℤ (pos 0) budget && ltb_ℤ budget min_verifiable_budget)
      (add_warning (budget_too_short c.name budget))

unfoldable pub check_transport : Option Registry → ClientConfig → ValidationResult
check_transport reg c =
    if is_empty c.transport
    then add_error (client_without_transport c.name)
    else when (is_unknown (λ r. r.transports) reg c.transport)
        (add_error (unknown_transport c.name c.transport))

unfoldable pub check_wake_transport : Option Registry → ClientConfig → ValidationResult
check_wake_transport reg c = elim c.wake [
  | none ↦ clean
  | some w ↦
      when (not (is_empty w.transport) && is_unknown (λ r. r.transports) reg w.transport)
        (add_error (unknown_wake_transport c.name w.transport))
]

unfoldable pub check_comms_loss : ClientConfig → ValidationResult
check_comms_loss c =
    when
      (not (is_empty c.comms_loss_assumes)
        && not (same c.comms_loss_assumes "threatened")
        && not (same c.comms_loss_assumes "safe"))
      (add_error (bad_comms_loss c.name c.comms_loss_assumes))

unfoldable check_probe : Checkers → ClientConfig → ValidationResult
unfolding check_duration
check_probe k c = elim c.probe [
  | none ↦ clean
  | some p ↦ check_duration k p.timeout (client_field c.name "probe.timeout")
]

unfoldable check_policies : ClientConfig → ValidationResult
unfolding ◌⊕◌
check_policies c =
    when (not (same c.feed_policy "any" || same c.feed_policy "all"))
      (add_error (bad_feed_policy c.name c.feed_policy))
    ⊕ when (not (same c.wake_policy "power_state" || same c.wake_policy "retain_state"))
        (add_error (bad_wake_policy c.name c.wake_policy))

-- The checks of one client with a name.
unfoldable pub check_client : Checkers → Option Registry → ClientConfig → ValidationResult
unfolding ◌⊕◌ check_transport check_wake_transport check_comms_loss check_duration
    warn_if_budget_too_short check_probe check_policies
check_client k reg c =
    check_transport reg c
    ⊕ check_wake_transport reg c
    ⊕ check_comms_loss c
    ⊕ check_duration k c.shutdown_budget (client_field c.name "shutdown_budget")
    ⊕ warn_if_budget_too_short k c
    ⊕ check_duration k c.guard_period (client_field c.name "guard_period")
    ⊕ check_probe k c
    ⊕ check_policies c

-- The loop over the clients; `names` are those seen so far.
unfoldable pub check_clients :
    Checkers → Option Registry → List String → List ClientConfig → ValidationResult
unfolding ◌⊕◌ check_client
check_clients k reg names [] = clean
check_clients k reg names (c ∷ rest) =
    let others = check_clients k reg names rest in
    let below = check_clients k reg (c.name ∷ names) rest in
    if is_empty c.name
    then add_error client_without_name ⊕ others
    else when (contains names c.name) (add_error (duplicate_client c.name))
      ⊕ check_client k reg c
      ⊕ below

-- The names that the loop has seen at its end.
unfoldable pub named_clients : List ClientConfig → List String
named_clients [] = []
named_clients (c ∷ rest) =
    let below = named_clients rest in if is_empty c.name then below else c.name ∷ below

unfoldable pub check_dependencies : List String → ClientConfig → ValidationResult
unfolding each
check_dependencies names c = when (not (is_empty c.name)) (
    each (λ dep. when (not (contains names dep)) (add_error (unknown_dependency c.name dep)))
      c.depends_on)

unfoldable pub validate_clients : Checkers → Option Registry → Config → ValidationResult
unfolding ◌⊕◌ check_clients named_clients check_dependencies each
validate_clients k reg cfg =
    check_clients k reg [] cfg.clients
    ⊕ each (check_dependencies (named_clients cfg.clients)) cfg.clients
