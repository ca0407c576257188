-- ===== src/Engine/Wake/Ends.antt =====
-- The loop of `runWake` that wakes the clients ends (internal/engine/sequence_run.go), and how often
-- it sends a command.
use canarium.Engine.Types.{failed, up}
use canarium.Engine.Executor.{duration_or, send, write, emit, set_client_state, Executor, Setup}
use canarium.Engine.Wake.{
  stagger_pause_step, wake_pause_step, wake_dry_step, guard_pause_step, wake_client_step,
  wake_attempt_step, wake_poll_step, wake_sent_step, complete_sequence, retries_of, wake_next_step,
  after_client,
}
use canarium.Engine.Sequence.{ActiveSequence}
use canarium.Config.Types.{default_boot_deadline}
use canarium.Common.Int.{ℤ, pos, negsuc, pos_part, time_add}
use canarium.Common.{
  none, some, inl, inr, ap, ◌∙◌, Option, refl, Bool-cases, map, length, ◌||◌, ℕ, zero, suc, ◌+◌,
  ◌-◌, ◌*◌, ◌≤◌, ◌<◌, String, Bool, true, false, List, [], ◌∷◌, ◌≡◌, arith,
}
use canarium.Engine.Machine.{Input, advance, run, step, sequence_step}
use canarium.Engine.Phase.{
  go_on, Obs, Phase, idle, wake_next, guard_pause, wake_client, wake_dry, wake_attempt, wake_sent,
  wake_poll, wake_pause, stagger_pause, Result,
}

-- The time that a client has to come up; a negative one is none.
abbrev pub boot_span : Setup → ActiveSequence → ℕ
boot_span s a = pos_part (duration_or s a.plan.wake.boot_deadline default_boot_deadline)

-- Steps that are left at most for a number of further attempts, each with the time span `d`.
abbrev pub tries : ℕ → ℕ → ℕ
tries d zero = 0
tries d (suc left) = 2 * d + 3 + tries d left

-- The same before a list of clients, each with `r` retries.
abbrev pub clients_left : ℕ → ℕ → List String → ℕ
clients_left d r [] = 1
clients_left d r (_ ∷ names) = tries d (suc r) + 4 + clients_left d r names

-- Steps that are left at most, in the loop over the clients, where it was looked at last at `last`.
abbrev pub steps_left : ℕ → ℕ → ℕ → Phase → ℕ
steps_left d r last idle = 0
steps_left d r last (wake_next names) = clients_left d r names
steps_left d r last (guard_pause _ names) = tries d (suc r) + 3 + clients_left d r names
steps_left d r last (wake_client _ names) = tries d (suc r) + 2 + clients_left d r names
steps_left d r last (wake_dry _ names) = 2 + clients_left d r names
steps_left d r last (wake_attempt _ left names) = tries d (suc left) + 1 + clients_left d r names
steps_left d r last (wake_sent _ left names) = tries d (suc left) + clients_left d r names
steps_left d r last (wake_poll _ left deadline names) =
    2 * (deadline - last) + 2 + tries d left + clients_left d r names
steps_left d r last (wake_pause _ left deadline names) =
    2 * (deadline - last) + 3 + tries d left + clients_left d r names
steps_left d r last (stagger_pause names) = 1 + clients_left d r names
steps_left d r last _ = 0

-- A phase of that loop.
abbrev pub in_loop : Phase → Bool
in_loop (wake_next _) = true
in_loop (guard_pause _ _) = true
in_loop (wake_client _ _) = true
in_loop (wake_dry _ _) = true
in_loop (wake_attempt _ _ _) = true
in_loop (wake_sent _ _ _) = true
in_loop (wake_poll _ _ _ _) = true
in_loop (wake_pause _ _ _ _) = true
in_loop (stagger_pause _) = true
in_loop _ = false

abbrev pub is_idle : Phase → Bool
is_idle idle = true
is_idle _ = false

-- Each look comes after its timer has fired, and later than the one before.
abbrev pub IsTicking : ℕ → List Obs → Type 0
IsTicking last [] = Unit
IsTicking last (o ∷ os) = (o.timer ≡ true) × (last < o.now) × IsTicking o.now os

time_add-pos_part : (t : ℕ) (z : ℤ) → time_add t z ≤ t + pos_part z
unfolding time_add
time_add-pos_part t (pos d) = ground arith
time_add-pos_part t (negsuc d) = ground arith

-- One step forward: the loop has ended, or goes on for the same sequence, with fewer steps left.
abbrev Falls : Setup → ActiveSequence → ℕ → ℕ → Result → Type 0
Falls s a now n (phase, e) =
    (is_idle phase || in_loop phase ≡ true)
    × (is_idle phase ≡ false → e.active_sequence ≡ some a)
    × (steps_left (boot_span s a) (retries_of a.plan.wake.retries) now phase < n)

module _ (s : Setup) (a : ActiveSequence) (o : Obs) (last : ℕ) (e : Executor)
    (u : e.active_sequence ≡ some a) (later : last < o.now) (fired : o.timer ≡ true) where
  abbrev d : ℕ
  d = boot_span s a

  abbrev r : ℕ
  r = retries_of a.plan.wake.retries

  after_client-Falls :
      (names : List String) (n : ℕ) (e' : Executor)
      → e'.active_sequence ≡ some a
      → clients_left d r names + 1 < n
      → Falls s a o.now n (after_client s a names, e')
  unfolding after_client
  after_client-Falls [] n e' u' h = ground arith
  after_client-Falls (x ∷ names) n e' u' h = ground arith

  wake_next_step-Falls :
      (names : List String)
      → Falls s a o.now (clients_left d r names) (wake_next_step s a o names e)
  unfolding wake_next_step complete_sequence set_client_state emit write
  wake_next_step-Falls [] = ground arith
  wake_next_step-Falls (name ∷ names) = ground arith

  wake_client_step-Falls :
      (name : String) (names : List String)
      → Falls s a o.now
          (tries d (suc r) + 2 + clients_left d r names)
          (wake_client_step s a o name names e)
  unfolding wake_client_step set_client_state emit write
  wake_client_step-Falls name names =
      let n = tries d (suc r) + 2 + clients_left d r names in
      ground (
        arith,
        after_client-Falls names n e,
        after_client-Falls names n (set_client_state name failed o.now e),
      )

  wake_poll_step-Falls :
      (name : String) (left deadline : ℕ) (names : List String)
      → Falls s a o.now
          (2 * (deadline - last) + 2 + tries d left + clients_left d r names)
          (wake_poll_step s a o name left deadline names e)
  unfolding wake_poll_step set_client_state emit write
  wake_poll_step-Falls name zero deadline names =
      let n = 2 * (deadline - last) + 2 + tries d 0 + clients_left d r names in
      ground (
        arith,
        later,
        after_client-Falls names n e,
        after_client-Falls names n
            (emit "client_wake_success" name (set_client_state name up o.now e)),
        after_client-Falls names n
            (emit "client_wake_failed" name (set_client_state name failed o.now e)),
      )
  wake_poll_step-Falls name (suc left) deadline names =
      let n = 2 * (deadline - last) + 2 + tries d (suc left) + clients_left d r names in
      ground (
        arith,
        later,
        after_client-Falls names n e,
        after_client-Falls names n
            (emit "client_wake_success" name (set_client_state name up o.now e)),
      )

  wake_sent_step-Falls :
      (name : String) (left : ℕ) (names : List String)
      → Falls s a o.now
          (tries d (suc left) + clients_left d r names)
          (wake_sent_step s a o name left names e)
  unfolding wake_sent_step set_client_state emit write
  wake_sent_step-Falls name left names =
      let n = tries d (suc left) + clients_left d r names in
      ground (
        arith,
        time_add-pos_part o.now (duration_or s a.plan.wake.boot_deadline default_boot_deadline),
        after_client-Falls names n (set_client_state name up o.now e),
      )

  wake_attempt_step-Falls :
      (name : String) (left : ℕ) (names : List String)
      → Falls s a o.now
          (tries d (suc left) + 1 + clients_left d r names)
          (wake_attempt_step s name left names e)
  unfolding wake_attempt_step send
  wake_attempt_step-Falls name left names = ground arith

  wake_pause_step-Falls :
      (name : String) (left deadline : ℕ) (names : List String)
      → Falls s a o.now
          (2 * (deadline - last) + 3 + tries d left + clients_left d r names)
          (wake_pause_step s a o name left deadline names e)
  unfolding wake_pause_step
  wake_pause_step-Falls name left deadline names = ground (arith, fired, later)

  -- A step of the loop leaves fewer steps.
  sequence_step-Falls :
      (phase : Phase)
      → in_loop phase ≡ true
      → Falls s a o.now (steps_left d r last phase) (sequence_step s a o phase e)
  unfolding sequence_step guard_pause_step wake_dry_step stagger_pause_step set_client_state emit
      write
  sequence_step-Falls (wake_next names) l = wake_next_step-Falls names
  sequence_step-Falls (guard_pause name names) l = ground (arith, fired)
  sequence_step-Falls (wake_client name names) l = wake_client_step-Falls name names
  sequence_step-Falls (wake_dry name names) l = ground (
    arith,
    fired,
    after_client-Falls names (2 + clients_left d r names) (set_client_state name up o.now e),
  )
  sequence_step-Falls (wake_attempt name left names) l = wake_attempt_step-Falls name left names
  sequence_step-Falls (wake_sent name left names) l = wake_sent_step-Falls name left names
  sequence_step-Falls (wake_poll name left deadline names) l =
      wake_poll_step-Falls name left deadline names
  sequence_step-Falls (wake_pause name left deadline names) l =
      wake_pause_step-Falls name left deadline names
  sequence_step-Falls (stagger_pause names) l = ground (arith, fired)
  sequence_step-Falls phase l = cc

go_on_same : {A : Type 0} (x : Option A) (r : Result) → go_on x r (λ _. r) ≡ r
go_on_same none r = refl
go_on_same (some a) r = refl

step-idle : (s : Setup) (o : Obs) (e : Executor) → step s (advance o) idle e ≡ (idle, e)
unfolding step sequence_step
step-idle s o e = go_on_same e.active_sequence (idle, e)

-- Without a goroutine nothing moves.
pub run-idle :
    (s : Setup) (os : List Obs) (e : Executor) → run s (map advance os) idle e ≡ (idle, e)
unfolding run
run-idle s [] e = refl
run-idle s (o ∷ os) e =
    ap (λ (r : Result). run s (map advance os) r.0 r.1) (step-idle s o e) ∙ run-idle s os e

ended :
    (s : Setup) (os : List Obs) (r : Result)
    → is_idle r.0 ≡ true
    → (run s (map advance os) r.0 r.1).0 ≡ idle
ended s os (idle, e) h = ap (λ (r : Result). r.0) (run-idle s os e)
ended s os (phase, e) h = cc

clients_left-pos : (d r : ℕ) (names : List String) → 0 < clients_left d r names
clients_left-pos d r [] = omega arith
clients_left-pos d r (_ ∷ names) = omega (arith, clients_left-pos d r names)

steps_left-pos :
    (d r last : ℕ) (phase : Phase) → in_loop phase ≡ true → 0 < steps_left d r last phase
steps_left-pos d r last (wake_next names) h = clients_left-pos d r names
steps_left-pos d r last (wake_sent _ left names) h = omega (arith, clients_left-pos d r names)
steps_left-pos d r last phase h = ground arith

step-advance :
    (s : Setup) (a : ActiveSequence) (o : Obs) (phase : Phase) (e : Executor)
    → e.active_sequence ≡ some a
    → step s (advance o) phase e ≡ sequence_step s a o phase e
unfolding step
step-advance s a o phase e u = simp u refl

pub run-advance :
    (s : Setup) (a : ActiveSequence) (o : Obs) (is : List Input) (phase : Phase) (e : Executor)
    → e.active_sequence ≡ some a
    → run s (advance o ∷ is) phase e
      ≡ run s is (sequence_step s a o phase e).0 (sequence_step s a o phase e).1
unfolding run
run-advance s a o is phase e u =
    ap (λ (r : Result). run s is r.0 r.1) (step-advance s a o phase e u)

-- Whatever the devices answer, the loop that wakes clients ends, where each look comes after its
-- timer has fired and later than the one before: with a boot deadline of `d` nanoseconds it takes at
-- most `2 * d + 3` steps for each attempt, with `n` instead of `d` for one under way whose deadline
-- is `n` away, four more for each client, and one at the end.
pub wake_ends :
    (s : Setup) (a : ActiveSequence) (last : ℕ) (os : List Obs) (phase : Phase) (e : Executor)
    → e.active_sequence ≡ some a
    → in_loop phase ≡ true
    → IsTicking last os
    → steps_left (boot_span s a) (retries_of a.plan.wake.retries) last phase ≤ length os
    → (run s (map advance os) phase e).0 ≡ idle
wake_ends s a last [] phase e u l ticking h =
    absurd (
      omega
        (arith, steps_left-pos (boot_span s a) (retries_of a.plan.wake.retries) last phase l, h))
wake_ends s a last (o ∷ os) phase e u l (fired, later, ticking) h =
    let (on, kept, less) = sequence_step-Falls s a o last e u later fired phase l in
    let moved = run-advance s a o (map advance os) phase e u in
    let r = sequence_step s a o phase e in
    elim (Bool-cases (is_idle r.0)) [
      | inl done ↦ rw moved (ended s os r done)
      | inr more ↦ rw moved (
          wake_ends s a o.now os r.0 r.1 (kept more) (ground (arith, on, more)) ticking
            (omega (arith, less, h)))
    ]
