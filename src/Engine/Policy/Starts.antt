-- ===== src/Engine/Policy/Starts.antt =====
-- When a policy tick of internal/engine/executor.go starts a sequence.
use canarium.Engine.Types.{is_disarmed, Mode}
use canarium.Config.Types.{PlanConfig}
use canarium.Engine.Executor.{emit, Executor, evaluate_now, Setup}
use canarium.Engine.Policy.{note_would_trigger, evaluate_policies, evaluate_plans}
use canarium.Common.{ℕ, true, false, List, [], ◌∷◌, is_some, ◌≡◌, refl, arith}

-- While a sequence is active a tick starts none, and changes nothing at all.
one_sequence_at_a_time :
    (s : Setup) (now : ℕ) (e : Executor)
    → is_some e.active_sequence ≡ true
    → evaluate_policies s now e ≡ (false, e)
unfolding evaluate_policies evaluate_plans
one_sequence_at_a_time s now e w = by_plans s.cfg.plans
  where
    by_plans : (ps : List PlanConfig) → evaluate_plans s e.mode now ps e ≡ (false, e)
    by_plans [] = refl
    by_plans (p ∷ ps) = rw w refl

disarmed_plans :
    (s : Setup) (m : Mode) (now : ℕ) (ps : List PlanConfig) (e : Executor)
    → is_disarmed m ≡ true
    → ((evaluate_plans s m now ps e).0 ≡ false)
      × ((evaluate_plans s m now ps e).1.active_sequence ≡ e.active_sequence)
unfolding evaluate_plans note_would_trigger evaluate_now emit
disarmed_plans s m now [] e w = (refl, refl)
disarmed_plans s m now (p ∷ ps) e w =
    let e1 =
      note_would_trigger p.name (evaluate_now s p.trigger now e).0
        (evaluate_now s p.trigger now e).1 in
    let rest = disarmed_plans s m now ps e1 w in (ground (arith, rest.0), ground (arith, rest.1))

-- A disarmed daemon never starts a sequence, whatever its plans' triggers say.
disarmed_starts_nothing :
    (s : Setup) (now : ℕ) (e : Executor)
    → is_disarmed e.mode ≡ true
    → ((evaluate_policies s now e).0 ≡ false)
      × ((evaluate_policies s now e).1.active_sequence ≡ e.active_sequence)
unfolding evaluate_policies
disarmed_starts_nothing s now e w = disarmed_plans s e.mode now s.cfg.plans e w
