-- ===== src/Simulate/Run/Outcome.antt =====
-- What a simulation's result says of the plan: `run` of internal/simulate/simulate.go.
use canarium.Simulate.Run.{advance_stage, try_gate, tick, run_from}
use canarium.Simulate.Feed.{feed}
use canarium.Common.Int.{leb_ℤ, add64}
use canarium.Conditions.Evaluator.{Libs}
use canarium.Config.Types.{Config, PlanConfig}
use canarium.Simulate.Timeline.{Timeline}
use canarium.Simulate.Run.{find_plan, run, run_script, new_simulation, rounds}
use canarium.Simulate.Store.{build_store}
use canarium.Facts.Store.{Store}
use canarium.Simulate.Run.{SimulationError}
use canarium.Simulate.Timeline.{TimelineEvent}
use canarium.Common.Int.{pos}
use canarium.Common.{
  ◌⊎◌, leb→le, ◌||◌, ◌⊎◌, inl, inr, Bool-cases, leb, Option, ap, ◌∙◌, ℕ, zero, suc, ◌+◌, ◌≤◌,
  String, Bool, true, false, ◌&&◌, List, some, ◌≡◌, refl, arith, by_test, length,
}
use canarium.Common.Int.{ℤ}
use canarium.Simulate.Run.{try_abort, holds}
use canarium.Simulate.Feed.{SimulationResult, Script, Simulation}
use canarium.Simulate.Run.Account.{
  one_if, clients_of, Account, try_trigger-Account, try_abort-Account, advance_stage-Account,
}

-- What a result says: at most one trigger, an abort or the point of no return but not both, no stage
-- twice, and the clients of the stages that were started and skipped. Behind an open gate every stage
-- was dealt with, or the plan was aborted.
abbrev pub IsAccounted : ℕ → SimulationResult → Type 0
IsAccounted total r =
    (length r.triggers ≤ 1)
    × (length r.aborts + length r.ponr ≤ 1)
    × (length r.stages + length r.skipped ≤ total)
    × (r.shutdown_order ≡ clients_of r.stages)
    × (r.not_shut_down ≡ clients_of r.skipped)
    × ((r.completed ≡ false) ⊎ (length r.aborts ≡ 1) ⊎ (length r.stages + length r.skipped ≡ total))

one_if-le : (a b : Bool) → a && b ≡ false → (one_if a ≤ 1) × (one_if a + one_if b ≤ 1)
one_if-le false b h = ground (arith, h)
one_if-le true b h = ground (arith, h)

Account-IsAccounted :
    (k : Script) (s : Simulation)
    → Account k s
    → IsAccounted (length k.plan.shutdown.stages) s.result
Account-IsAccounted k s a =
    let apart = one_if-le s.aborted s.ponr_crossed a.apart in
    (
      omega (arith, a.triggers, (one_if-le s.triggered false (ground arith)).0),
      omega (arith, a.aborts, a.ponr, apart.1),
      omega (arith, a.stages, a.bound),
      a.order,
      a.left,
      inl a.before,
    )

abbrev After : Script → Simulation × Bool → Type 0
After k (s, false) = Account k s
After k (s, true) = IsAccounted (length k.plan.shutdown.stages) s.result

After-done :
    (k : Script) (p : Simulation × Bool)
    → p.1 ≡ true
    → After k p
    → IsAccounted (length k.plan.shutdown.stages) p.0.result
After-done k (s, true) e a = a
After-done k (s, false) e a = cc

After-more : (k : Script) (p : Simulation × Bool) → p.1 ≡ false → After k p → Account k p.0
After-more k (s, true) e a = cc
After-more k (s, false) e a = a

over :
    (total : ℕ) (s : Simulation) (k : Script)
    → Account k s
    → total ≡ length k.plan.shutdown.stages
    → s.aborted || leb total s.current_stage ≡ true
    → (length s.result.aborts ≡ 1) ⊎ (length s.result.stages + length s.result.skipped ≡ total)
over total s k a t h = elim (Bool-cases s.aborted) [
  | inl e ↦ inl (a.aborts ∙ ap one_if e)
  | inr e ↦
      inr (omega (arith, a.stages, a.bound, t, leb→le total s.current_stage (ground (arith, h, e))))
]

try_gate-After :
    (k : Script) (elapsed : ℤ) (s : Simulation) → Account k s → After k (try_gate k elapsed s)
unfolding try_gate holds
try_gate-After k elapsed s a =
    by_test (After k) (s.aborted || leb (length k.plan.shutdown.stages) s.current_stage) _ _
      (λ h.
        by_test (After k) (holds k k.plan.wake.gate elapsed s).0 _ _
          (λ _.
            let (t, ab, st, o, l, _) = Account-IsAccounted k s a in
            (t, ab, st, o, l, inr (over _ s k a refl h)))
          (λ _. a))
      (λ _. a)

tick-After : (k : Script) (elapsed : ℤ) (s : Simulation) → Account k s → After k (tick k elapsed s)
unfolding tick feed
tick-After k elapsed s a =
    let s' = feed k elapsed s in
    by_test (After k) s'.triggered _ _
      (λ _. try_gate-After k elapsed (advance_stage k elapsed (try_abort k elapsed s')) (
        advance_stage-Account k elapsed (try_abort k elapsed s')
          (try_abort-Account k elapsed s' a)))
      (λ n. try_trigger-Account k elapsed s' n a)

some_inj : (a b : SimulationResult) → some a ≡ some b → a ≡ b
some_inj a b e = cc

pub run_from-IsAccounted :
    (k : Script) (total step : ℤ) (fuel : ℕ) (elapsed : ℤ) (s : Simulation) (r : SimulationResult)
    → Account k s
    → run_from k total step fuel elapsed s ≡ some r
    → IsAccounted (length k.plan.shutdown.stages) r
unfolding run_from
run_from-IsAccounted k total step zero elapsed s r a h = cc
run_from-IsAccounted k total step (suc fuel) elapsed s r a h =
    elim (Bool-cases (leb_ℤ elapsed total)) [
      | inr e ↦ rw (some_inj s.result r (rw (run_from, e) at h)) at (Account-IsAccounted k s a)
      | inl e ↦ elim (Bool-cases (tick k elapsed s).1) [
        | inl done ↦
            rw (some_inj (tick k elapsed s).0.result r (rw (run_from, e, done) at h)) at
              (After-done k (tick k elapsed s) done (tick-After k elapsed s a))
        | inr more ↦
            run_from-IsAccounted k total step fuel (add64 elapsed step) (tick k elapsed s).0 r
              (After-more k (tick k elapsed s) more (tick-After k elapsed s a))
              (rw (run_from, e, more) at h)
      ]
    ]

new_simulation-Account :
    (k : Script) (store : Store) (events : List TimelineEvent)
    → Account k (new_simulation store k.plan.name events)
unfolding new_simulation
new_simulation-Account k store events = record {
  triggers = refl;
  aborts = refl;
  ponr = refl;
  apart = refl;
  stages = refl;
  bound = omega arith;
  order = refl;
  left = refl;
  before = refl;
}

inr_inj :
    (a b : Option SimulationResult)
    → ◌≡◌ {A = SimulationError ⊎ Option SimulationResult} (inr a) (inr b)
    → a ≡ b
inr_inj a b e = cc

run_script-IsAccounted :
    (k : Script) (t : Timeline) (b : String ⊎ Store) (r : SimulationResult)
    → run_script k t b ≡ inr (some r)
    → IsAccounted (length k.plan.shutdown.stages) r
unfolding run_script
run_script-IsAccounted k t (inl key) r h = cc
run_script-IsAccounted k t (inr store) r h =
    run_from-IsAccounted k t.duration t.step (rounds t) (pos 0)
      (new_simulation store k.plan.name t.events) r (new_simulation-Account k store t.events)
      (inr_inj _ (some r) h)

-- A run that gives a result gives an account of the plan: at most one trigger, an abort or the point
-- of no return but not both, no more stages than the plan has, and with them the clients that the
-- result lists; behind an open gate every stage was dealt with, or the plan was aborted.
pub run-IsAccounted :
    (cfg : Config) (libs : Libs) (base : ℕ) (poll_interval : String → ℤ) (t : Timeline)
    (name : String) (plan : PlanConfig) (r : SimulationResult)
    → find_plan cfg.plans name ≡ some plan
    → run cfg libs base poll_interval t name ≡ inr (some r)
    → IsAccounted (length plan.shutdown.stages) r
unfolding run
run-IsAccounted cfg libs base poll_interval t name plan r p h =
    run_script-IsAccounted (record { cfg = cfg; libs = libs; plan = plan; base = base }) t
      (build_store poll_interval t.events) r (rw (run, p) at h)
