-- ===== src/Simulate/Run/Ends.antt =====
-- The loop of internal/simulate/simulate.go ends.
use canarium.Config.Types.{Config, PlanConfig}
use canarium.Conditions.Evaluator.{Libs}
use canarium.Simulate.Timeline.{Timeline, TimelineEvent, split_fact_key, load_timeline}
use canarium.Simulate.Timeline.Loaded.{AreQualified, IsLoaded, load_timeline-IsLoaded}
use canarium.Simulate.Store.{SourceDecl, declare_events, declare_event, build_store}
use canarium.Common.Dict.{Dict}
use canarium.Common.Int.{ℤ, pos_part}
use canarium.Simulate.Run.{find_plan, run}
use canarium.Simulate.Feed.{SimulationResult}
use canarium.Facts.Store.{new_store}
use canarium.Common.Int.{negsuc, ◌<ℤ◌}
use canarium.Simulate.Store.{register_sources}
use canarium.Simulate.Run.{rounds, new_simulation}
use canarium.Common.{Option, ap, refl, some, String, List, [], ◌∷◌, Option-cases}
use canarium.Common.{
  sym, ℕ, zero, suc, ◌+◌, ◌<◌, ◌≤◌, ◌^◌, true, none, ◌≡◌, ◌≢◌, arith, Bool-cases, inl, inr,
}
use canarium.Common.Int.{pos, add64_pos, leb_ℤ}
use canarium.Simulate.Run.{tick, run_from}
use canarium.Simulate.Feed.{Script, Simulation}

-- The loop's test.
over : (n d : ℕ) → leb_ℤ (pos n) (pos d) ≡ true → n ≤ d
over n d e = ground (arith, e)

run_from-ne-none :
    (k : Script) (d st f n : ℕ) (s : Simulation)
    → 0 < st
    → d + st < 2 ^ 63
    → d < n + f
    → run_from k (pos d) (pos st) (suc f) (pos n) s ≢ none
unfolding run_from
run_from-ne-none k d st zero n s p w h = elim (Bool-cases (leb_ℤ (pos n) (pos d))) [
  | inr e ↦ rw (run_from, e) (λ x. cc)
  | inl e ↦ absurd (omega (arith, over n d e, h))
]
run_from-ne-none k d st (suc f) n s p w h = elim (Bool-cases (leb_ℤ (pos n) (pos d))) [
  | inr e ↦ rw (run_from, e) (λ x. cc)
  | inl e ↦ elim (Bool-cases (tick k (pos n) s).1) [
    | inl done ↦ rw (run_from, e, done) (λ x. cc)
    | inr more ↦
        let later =
          run_from-ne-none k d st f (n + st) (tick k (pos n) s).0 p w (omega (arith, h, p)) in
        rw (run_from, e, more) (rw (sym (add64_pos n st (omega (arith, over n d e, w)))) at later)
  ]
]

loop-ne-none :
    (k : Script) (d st : ℤ) (s : Simulation)
    → pos 0 <ℤ d
    → pos 0 <ℤ st
    → pos_part d + pos_part st < 2 ^ 63
    → run_from k d st (suc (suc (pos_part d))) (pos 0) s ≢ none
loop-ne-none k (pos d) (pos st) s p q w =
    run_from-ne-none k d st (suc d) 0 s (omega (arith, q)) w (omega arith)
loop-ne-none k (negsuc d) st s p q w = absurd (omega (arith, p))
loop-ne-none k (pos d) (negsuc st) s p q w = absurd (omega (arith, q))

some_of {ℓ} : {A : Type ℓ} (o : Option A) → o ≢ none → (a : A) × (o ≡ some a)
some_of none h = absurd (h refl)
some_of (some a) h = (a, refl)

declare_events-AreQualified :
    (poll_interval : String → ℤ) (es : List TimelineEvent) (sources : Dict SourceDecl)
    → AreQualified es
    → (found : Dict SourceDecl) × (declare_events poll_interval es sources ≡ inr found)
unfolding declare_events
declare_events-AreQualified poll_interval [] sources qs = (sources, refl)
declare_events-AreQualified poll_interval (e ∷ es) sources (q, qs) =
    elim (Option-cases (split_fact_key e.fact)) [
      | inl h ↦ cc (rw h at q)
      | inr ((source, name), h) ↦
          rw (declare_events, h)
            (declare_events-AreQualified poll_interval es
              (declare_event poll_interval source name e.value sources) qs)
    ]

-- A timeline that was loaded is replayed to its end, without an error, on every plan that the
-- configuration has, where its duration and one step more stay below 2 ^ 63 nanoseconds.
pub replay_ends :
    (cfg : Config) (libs : Libs) (base : ℕ) (poll_interval : String → ℤ) (t t' : Timeline)
    (name : String) (plan : PlanConfig)
    → load_timeline t ≡ inr t'
    → pos_part t'.duration + pos_part t'.step < 2 ^ 63
    → find_plan cfg.plans name ≡ some plan
    → (result : SimulationResult) × (run cfg libs base poll_interval t' name ≡ inr (some result))
unfolding run build_store
replay_ends cfg libs base poll_interval t t' name plan l w p =
    let loaded : IsLoaded t' = rw l at (load_timeline-IsLoaded t) in
    let (found, e) = declare_events-AreQualified poll_interval t'.events [] loaded.2 in
    let k : Script = record { cfg = cfg; libs = libs; plan = plan; base = base } in
    let s = new_simulation (register_sources found new_store) plan.name t'.events in
    let (result, r) =
      some_of (run_from k t'.duration t'.step (rounds t') (pos 0) s)
        (loop-ne-none k t'.duration t'.step s loaded.0 loaded.1 w) in
    (result, rw (run, p, e) (ap inr r))
