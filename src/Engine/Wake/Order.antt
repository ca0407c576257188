-- ===== src/Engine/Wake/Order.antt =====
-- The wake order of internal/engine/sequence_run.go names whom it should.
use canarium.Config.Clients.Refs.{
  resolve_client_refs_lem, contains-add_names, add_names-NoRepeats, refers_to, NoRepeats,
}
use canarium.Config.Clients.{build_tag_map, add_names, resolve_client_refs}
use canarium.Config.Types.{StageConfig, PlanConfig}
use canarium.Engine.Executor.{Setup}
use canarium.Engine.Wake.{no_stages, add_stages, compute_wake_order}
use mathlib.Core.List.{reverse_aux}
use canarium.Common.{
  if◌then◌else◌, String, Bool, true, false, ◌||◌, List, [], ◌∷◌, contains, reverse, ◌≡◌, refl,
  arith,
}

-- Whether a stage's references stand for the client.
abbrev pub in_stages : Setup → List StageConfig → String → Bool
in_stages s [] name = false
in_stages s (stage ∷ stages) name =
    refers_to (build_tag_map s.cfg) stage.clients name || in_stages s stages name

add_stages-NoRepeats :
    (s : Setup) (order : List String) (stages : List StageConfig)
    → NoRepeats order
    → NoRepeats (add_stages s order stages)
unfolding add_stages
add_stages-NoRepeats s order [] w = w
add_stages-NoRepeats s order (stage ∷ stages) w =
    add_stages-NoRepeats s (add_names order (resolve_client_refs stage.clients s.cfg)) stages
      (add_names-NoRepeats order (resolve_client_refs stage.clients s.cfg) w)

contains-add_stages :
    (s : Setup) (order : List String) (stages : List StageConfig) (name : String)
    → contains (add_stages s order stages) name ≡ contains order name || in_stages s stages name
unfolding add_stages
contains-add_stages s order [] name = ground arith
contains-add_stages s order (stage ∷ stages) name =
    let names = resolve_client_refs stage.clients s.cfg in
    ground (
      arith,
      contains-add_stages s (add_names order names) stages name,
      contains-add_names order names name,
      (resolve_client_refs_lem stage.clients s.cfg name).1,
    )

in_stages-reverse_onto :
    (s : Setup) (xs ys : List StageConfig) (name : String)
    → in_stages s (reverse_aux xs ys) name ≡ in_stages s xs name || in_stages s ys name
in_stages-reverse_onto s [] ys name = refl
in_stages-reverse_onto s (x ∷ xs) ys name =
    ground (arith, in_stages-reverse_onto s xs (x ∷ ys) name)

-- The clients that a plan means to wake: those of its wake stages, or without any those of its
-- shutdown stages.
abbrev pub to_wake : Setup → PlanConfig → String → Bool
to_wake s plan name =
    if no_stages plan.wake.stages
    then in_stages s plan.shutdown.stages name
    else in_stages s plan.wake.stages name

-- The wake order has every client that the plan means to wake, no other, and none twice.
pub compute_wake_order_lem :
    (s : Setup) (plan : PlanConfig) (name : String)
    → NoRepeats (compute_wake_order s plan)
      × (contains (compute_wake_order s plan) name ≡ to_wake s plan name)
unfolding compute_wake_order
compute_wake_order_lem s plan name = by_stages (no_stages plan.wake.stages)
  where
    by_stages :
        (b : Bool)
        → NoRepeats (
            if b
            then add_stages s [] (reverse plan.shutdown.stages)
            else add_stages s [] plan.wake.stages)
          × (contains
                (if b
                  then add_stages s [] (reverse plan.shutdown.stages)
                  else add_stages s [] plan.wake.stages)
                name
              ≡ (if b
                  then in_stages s plan.shutdown.stages name
                  else in_stages s plan.wake.stages name))
    by_stages true = (
      add_stages-NoRepeats s [] (reverse plan.shutdown.stages) tt,
      ground (
        arith,
        contains-add_stages s [] (reverse plan.shutdown.stages) name,
        in_stages-reverse_onto s plan.shutdown.stages [] name,
      ),
    )
    by_stages false = (
      add_stages-NoRepeats s [] plan.wake.stages tt,
      contains-add_stages s [] plan.wake.stages name,
    )
