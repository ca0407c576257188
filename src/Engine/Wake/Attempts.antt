-- ===== src/Engine/Wake/Attempts.antt =====
-- How many commands the loop of `runWake` sends (internal/engine/sequence_run.go).
use canarium.Engine.Machine.Sent.{sent}
use canarium.Engine.Machine.{advance, run, sequence_step}
use canarium.Engine.Wake.{
  stagger_pause_step, release_sequence, after_client, wake_pause_step, wake_dry_step,
  complete_sequence, guard_pause_step, wake_client_step, wake_poll_step, wake_sent_step, retries_of,
  wake_next_step, wake_attempt_step,
}
use canarium.Engine.Wake.Ends.{run-idle, run-advance, in_loop, is_idle}
use canarium.Engine.Sequence.{ActiveSequence}
use canarium.Engine.Executor.{
  save_active, clear_active_sequence, write, emit, send, set_client_state, Executor, Setup,
}
use canarium.Common.{
  some, inl, inr, ap, Bool-cases, map, ℕ, zero, suc, ◌+◌, ◌≤◌, String, true, false, ◌||◌, List, [],
  ◌∷◌, ◌≡◌, arith,
}
use canarium.Engine.Phase.{
  idle, Obs, Phase, wake_next, guard_pause, wake_client, wake_dry, wake_attempt, wake_sent,
  wake_poll, wake_pause, stagger_pause, Result,
}

-- The first attempt and the retries, for each client of the list.
abbrev pub attempts_of : ℕ → List String → ℕ
attempts_of r [] = 0
attempts_of r (_ ∷ names) = suc r + attempts_of r names

-- The attempts that are left at most.
abbrev pub attempts_left : ℕ → Phase → ℕ
attempts_left r (wake_next names) = attempts_of r names
attempts_left r (guard_pause _ names) = suc r + attempts_of r names
attempts_left r (wake_client _ names) = suc r + attempts_of r names
attempts_left r (wake_dry _ names) = attempts_of r names
attempts_left r (wake_attempt _ left names) = suc left + attempts_of r names
attempts_left r (wake_sent _ left names) = left + attempts_of r names
attempts_left r (wake_poll _ left _ names) = left + attempts_of r names
attempts_left r (wake_pause _ left _ names) = left + attempts_of r names
attempts_left r (stagger_pause names) = attempts_of r names
attempts_left r _ = 0

-- One step: the loop has ended, or goes on for the same sequence, and what has been sent and what
-- is left to send stay within `n`.
abbrev Spends : ActiveSequence → ℕ → Result → Type 0
Spends a n (phase, e) =
    (is_idle phase || in_loop phase ≡ true)
    × (is_idle phase ≡ false → e.active_sequence ≡ some a)
    × (attempts_left (retries_of a.plan.wake.retries) phase + sent e.effects ≤ n)

module _ (s : Setup) (a : ActiveSequence) (o : Obs) (e : Executor)
    (u : e.active_sequence ≡ some a) where
  abbrev retries : ℕ
  retries = retries_of a.plan.wake.retries

  wake_next_step-Spends :
      (names : List String)
      → Spends a (attempts_of retries names + sent e.effects) (wake_next_step s a o names e)
  unfolding wake_next_step complete_sequence set_client_state emit write sent release_sequence
      clear_active_sequence save_active
  wake_next_step-Spends [] = ground arith
  wake_next_step-Spends (name ∷ names) = ground arith

  wake_client_step-Spends :
      (name : String) (names : List String)
      → Spends a
          (suc retries + attempts_of retries names + sent e.effects)
          (wake_client_step s a o name names e)
  unfolding wake_client_step set_client_state emit write sent after_client
  wake_client_step-Spends name [] = ground arith
  wake_client_step-Spends name (n ∷ names) = ground arith

  wake_poll_step-Spends :
      (name : String) (left deadline : ℕ) (names : List String)
      → Spends a
          (left + attempts_of retries names + sent e.effects)
          (wake_poll_step s a o name left deadline names e)
  unfolding wake_poll_step set_client_state emit write sent after_client
  wake_poll_step-Spends name zero deadline [] = ground arith
  wake_poll_step-Spends name zero deadline (n ∷ names) = ground arith
  wake_poll_step-Spends name (suc left) deadline [] = ground arith
  wake_poll_step-Spends name (suc left) deadline (n ∷ names) = ground arith

  wake_sent_step-Spends :
      (name : String) (left : ℕ) (names : List String)
      → Spends a
          (left + attempts_of retries names + sent e.effects)
          (wake_sent_step s a o name left names e)
  unfolding wake_sent_step set_client_state emit write sent after_client
  wake_sent_step-Spends name left [] = ground arith
  wake_sent_step-Spends name left (n ∷ names) = ground arith

  wake_attempt_step-Spends :
      (name : String) (left : ℕ) (names : List String)
      → Spends a
          (suc left + attempts_of retries names + sent e.effects)
          (wake_attempt_step s name left names e)
  unfolding wake_attempt_step send sent
  wake_attempt_step-Spends name left names = ground arith

  sequence_step-Spends :
      (phase : Phase)
      → in_loop phase ≡ true
      → Spends a (attempts_left retries phase + sent e.effects) (sequence_step s a o phase e)
  unfolding sequence_step guard_pause_step wake_dry_step wake_pause_step stagger_pause_step
      set_client_state emit write sent after_client clear_active_sequence
  sequence_step-Spends (wake_next names) l = wake_next_step-Spends names
  sequence_step-Spends (guard_pause name names) l = ground arith
  sequence_step-Spends (wake_client name names) l = wake_client_step-Spends name names
  sequence_step-Spends (wake_dry name []) l = ground arith
  sequence_step-Spends (wake_dry name (n ∷ names)) l = ground arith
  sequence_step-Spends (wake_attempt name left names) l = wake_attempt_step-Spends name left names
  sequence_step-Spends (wake_sent name left names) l = wake_sent_step-Spends name left names
  sequence_step-Spends (wake_poll name left deadline names) l =
      wake_poll_step-Spends name left deadline names
  sequence_step-Spends (wake_pause name left deadline []) l = ground arith
  sequence_step-Spends (wake_pause name left deadline (n ∷ names)) l = ground arith
  sequence_step-Spends (stagger_pause names) l = ground arith
  sequence_step-Spends phase l = cc

ended_sends_nothing :
    (s : Setup) (os : List Obs) (r : Result)
    → is_idle r.0 ≡ true
    → sent (run s (map advance os) r.0 r.1).1.effects ≡ sent r.1.effects
ended_sends_nothing s os (idle, e) h = ap (λ (r : Result). sent r.1.effects) (run-idle s os e)
ended_sends_nothing s os (phase, e) h = cc

-- However its goroutine moves on, the loop that wakes clients sends no more commands than the
-- attempts that are left: one and the plan's retries for each client of the list.
pub attempts_are_bounded :
    (s : Setup) (a : ActiveSequence) (os : List Obs) (phase : Phase) (e : Executor)
    → e.active_sequence ≡ some a
    → in_loop phase ≡ true
    → sent (run s (map advance os) phase e).1.effects
      ≤ attempts_left (retries_of a.plan.wake.retries) phase + sent e.effects
attempts_are_bounded s a [] phase e u l = unfold run in omega arith
attempts_are_bounded s a (o ∷ os) phase e u l =
    let (on, kept, spent) = sequence_step-Spends s a o e u phase l in
    let moved = run-advance s a o (map advance os) phase e u in
    let r = sequence_step s a o phase e in
    elim (Bool-cases (is_idle r.0)) [
      | inl done ↦ rw moved (rw (ended_sends_nothing s os r done) (omega (arith, spent)))
      | inr more ↦ rw moved (
          omega (
            arith,
            attempts_are_bounded s a os r.0 r.1 (kept more) (ground (arith, on, more)),
            spent,
          ))
    ]
