-- ===== src/Tests/Endings.antt =====
-- The theorems on what ends, at concrete inputs (internal/engine/sequence_run.go).
use canarium.Engine.Wake.Attempts.{attempts_are_bounded}
use canarium.Engine.Wake.Ends.{wake_ends}
use canarium.Tests.Fixtures.{active, with_active, test_setup, obs_at}
use canarium.Engine.Machine.Sent.{sent}
use canarium.Engine.Machine.{advance, run}
use canarium.Engine.Phase.{idle, wake_poll, wake_next, Obs}
use canarium.Common.{◌+◌, ◌≤◌, List, [], ◌∷◌, ◌≡◌, refl, arith, map}

-- "nas" does not answer within its last attempt, which has two nanoseconds left.
abbrev seven_looks : List Obs
seven_looks = obs_at 4 ∷ obs_at 5 ∷ obs_at 6 ∷ obs_at 7 ∷ obs_at 8 ∷ obs_at 9 ∷ obs_at 10 ∷ []

wake_ends_example :
    (run test_setup (map advance seven_looks) (wake_poll "nas" 0 5 []) (with_active active)).0
    ≡ idle
wake_ends_example =
    wake_ends test_setup active 3 seven_looks (wake_poll "nas" 0 5 []) (with_active active) refl
      refl
      (
        refl,
        omega arith,
        (
          refl,
          omega arith,
          (
            refl,
            omega arith,
            (refl, omega arith, (refl, omega arith, (refl, omega arith, (refl, omega arith, tt)))),
          ),
        ),
      )
      (omega arith)

attempts_are_bounded_example :
    sent
      (run test_setup
        (map advance seven_looks)
        (wake_next ("nas" ∷ []))
        (with_active active)).1.effects
    ≤ 2 + 0
unfolding sent
attempts_are_bounded_example =
    attempts_are_bounded test_setup active seven_looks (wake_next ("nas" ∷ [])) (with_active active)
      refl refl
