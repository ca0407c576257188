-- ===== src/Simulate/Run/Account.antt =====
-- The account that the loop of a simulation keeps: `run` of internal/simulate/simulate.go.
use canarium.Conditions.Config.{ConditionConfig}
use canarium.Config.Clients.{resolve_client_refs}
use canarium.Config.Types.{StageConfig}
use canarium.Simulate.Run.{try_stage, at_stage, advance_stage, stage_timed_out}
use canarium.Common.{
  none, Option, not, ap, sym, ◌∙◌, ℕ, zero, suc, ◌+◌, ◌≤◌, ◌<◌, String, Bool, true, false, ◌&&◌,
  List, [], ◌∷◌, ◌++◌, some, ◌≡◌, refl, arith, by_test, length, get_elem?,
}
use canarium.Common.Int.{ℤ}
use canarium.Simulate.Run.{
  skip_stage, start_stage, cross, abort_if, try_abort, holds, try_trigger, plan_event, stage_event,
}
use canarium.Simulate.Feed.{SimulationResult, Script, Simulation, Happening}

abbrev pub one_if : Bool → ℕ
one_if false = 0
one_if true = 1

-- The clients of the stages, in their order.
abbrev pub clients_of : List Happening → List String
clients_of [] = []
clients_of (e ∷ es) = e.clients ++ clients_of es

-- In the loop: what is recorded is what the loop's variables say, and nothing has passed the gate.
pub record Accounts (total : ℕ) (triggered aborted ponr_crossed : Bool) (stage : ℕ)
    (r : SimulationResult) : Type 0 where
  pub triggers : length r.triggers ≡ one_if triggered
  pub aborts : length r.aborts ≡ one_if aborted
  pub ponr : length r.ponr ≡ one_if ponr_crossed
  pub apart : aborted && ponr_crossed ≡ false
  pub stages : length r.stages + length r.skipped ≡ stage
  pub bound : stage ≤ total
  pub order : r.shutdown_order ≡ clients_of r.stages
  pub left : r.not_shut_down ≡ clients_of r.skipped
  pub before : r.completed ≡ false

abbrev pub Account : Script → Simulation → Type 0
Account k s =
    Accounts (length k.plan.shutdown.stages) s.triggered s.aborted s.ponr_crossed s.current_stage
      s.result

length-snoc {ℓ} : {A : Type ℓ} (xs : List A) (x : A) → length (xs ++ (x ∷ [])) ≡ suc (length xs)
length-snoc [] x = refl
length-snoc (y ∷ ys) x = ap suc (length-snoc ys x)

append_nil {ℓ} : {A : Type ℓ} (xs : List A) → xs ++ [] ≡ xs
append_nil [] = refl
append_nil (x ∷ xs) = ap (λ l. x ∷ l) (append_nil xs)

append_assoc {ℓ} : {A : Type ℓ} (xs ys zs : List A) → (xs ++ ys) ++ zs ≡ xs ++ (ys ++ zs)
append_assoc [] ys zs = refl
append_assoc (x ∷ xs) ys zs = ap (λ l. x ∷ l) (append_assoc xs ys zs)

clients_of-snoc :
    (es : List Happening) (e : Happening) → clients_of (es ++ (e ∷ [])) ≡ clients_of es ++ e.clients
clients_of-snoc [] e = append_nil e.clients
clients_of-snoc (f ∷ fs) e =
    ap (λ l. f.clients ++ l) (clients_of-snoc fs e)
    ∙ sym (append_assoc f.clients (clients_of fs) e.clients)

get_elem?-lt {ℓ} :
    {A : Type ℓ} (xs : List A) (i : ℕ) (x : A) → get_elem? xs i ≡ some x → i < length xs
get_elem?-lt [] i x h = cc
get_elem?-lt (y ∷ ys) zero x h = omega arith
get_elem?-lt (y ∷ ys) (suc i) x h = omega (arith, get_elem?-lt ys i x h)

pub try_trigger-Account :
    (k : Script) (elapsed : ℤ) (s : Simulation)
    → s.triggered ≡ false
    → Account k s
    → Account k (try_trigger k elapsed s)
unfolding try_trigger holds
try_trigger-Account k elapsed s t a =
    by_test (Account k) (holds k k.plan.trigger elapsed s).0 _ _
      (λ _. record {
        triggers =
            length-snoc s.result.triggers (plan_event k elapsed)
            ∙ ap suc (a.triggers ∙ ap one_if t);
        aborts = a.aborts;
        ponr = a.ponr;
        apart = a.apart;
        stages = a.stages;
        bound = a.bound;
        order = a.order;
        left = a.left;
        before = a.before;
      })
      (λ _. a)

abort_if-Account :
    (k : Script) (elapsed : ℤ) (c : Option ConditionConfig) (s : Simulation)
    → s.aborted ≡ false
    → s.ponr_crossed ≡ false
    → Account k s
    → Account k (abort_if k elapsed c s)
unfolding abort_if holds
abort_if-Account k elapsed none s n p a = a
abort_if-Account k elapsed (some c) s n p a =
    by_test (Account k) (holds k c elapsed s).0 _ _
      (λ _. record {
        triggers = a.triggers;
        aborts =
            length-snoc s.result.aborts (plan_event k elapsed) ∙ ap suc (a.aborts ∙ ap one_if n);
        ponr = a.ponr;
        apart = p;
        stages = a.stages;
        bound = a.bound;
        order = a.order;
        left = a.left;
        before = a.before;
      })
      (λ _. a)

pub try_abort-Account :
    (k : Script) (elapsed : ℤ) (s : Simulation) → Account k s → Account k (try_abort k elapsed s)
unfolding try_abort
try_abort-Account k elapsed s a =
    by_test (Account k) (not s.aborted && not s.ponr_crossed) _ _
      (λ e. abort_if-Account k elapsed k.plan.abort s (ground (arith, e)) (ground (arith, e)) a)
      (λ _. a)

cross-Account :
    (k : Script) (stage : StageConfig) (elapsed : ℤ) (s : Simulation)
    → s.aborted ≡ false
    → Account k s
    → Account k (cross stage elapsed s)
cross-Account k stage elapsed s n a =
    by_test (Account k) (stage.point_of_no_return && not s.ponr_crossed) _ _
      (λ e. record {
        triggers = a.triggers;
        aborts = a.aborts;
        ponr =
            length-snoc s.result.ponr _
            ∙ ap suc (a.ponr ∙ ap one_if {y = false} (ground (arith, e)));
        apart = rw n refl;
        stages = a.stages;
        bound = a.bound;
        order = a.order;
        left = a.left;
        before = a.before;
      })
      (λ _. a)

cross-lt :
    (k : Script) (stage : StageConfig) (elapsed : ℤ) (s : Simulation)
    → s.current_stage < length k.plan.shutdown.stages
    → (cross stage elapsed s).current_stage < length k.plan.shutdown.stages
cross-lt k stage elapsed s l =
    by_test (λ (s' : Simulation). s'.current_stage < length k.plan.shutdown.stages)
      (stage.point_of_no_return && not s.ponr_crossed) _ _ (λ _. l) (λ _. l)

start_stage-Account :
    (k : Script) (stage : StageConfig) (elapsed : ℤ) (s : Simulation)
    → s.current_stage < length k.plan.shutdown.stages
    → Account k s
    → Account k (start_stage k stage elapsed s)
unfolding start_stage stage_event
start_stage-Account k stage elapsed s l a = record {
  triggers = a.triggers;
  aborts = a.aborts;
  ponr = a.ponr;
  apart = a.apart;
  stages = omega (arith, length-snoc s.result.stages (stage_event k stage elapsed ""), a.stages);
  bound = omega (arith, l);
  order =
      ap (λ l. l ++ resolve_client_refs stage.clients k.cfg) a.order
      ∙ sym (clients_of-snoc s.result.stages (stage_event k stage elapsed ""));
  left = a.left;
  before = a.before;
}

skip_stage-Account :
    (k : Script) (stage : StageConfig) (elapsed : ℤ) (s : Simulation)
    → s.current_stage < length k.plan.shutdown.stages
    → Account k s
    → Account k (skip_stage k stage elapsed s)
unfolding skip_stage stage_event
skip_stage-Account k stage elapsed s l a = record {
  triggers = a.triggers;
  aborts = a.aborts;
  ponr = a.ponr;
  apart = a.apart;
  stages = omega (
    arith,
    length-snoc s.result.skipped
        (stage_event k stage elapsed "entry condition not met within wait_timeout"),
    a.stages,
  );
  bound = omega (arith, l);
  order = a.order;
  left =
      ap (λ l. l ++ resolve_client_refs stage.clients k.cfg) a.left
      ∙ sym (
          clients_of-snoc s.result.skipped
            (stage_event k stage elapsed "entry condition not met within wait_timeout"));
  before = a.before;
}

try_stage-Account :
    (k : Script) (stage : StageConfig) (elapsed : ℤ) (s : Simulation)
    → s.aborted ≡ false
    → s.current_stage < length k.plan.shutdown.stages
    → Account k s
    → Account k (try_stage k stage elapsed s)
unfolding try_stage holds
try_stage-Account k stage elapsed s n l a =
    let s' = (holds k stage.when elapsed s).1 in
    by_test (Account k) (holds k stage.when elapsed s).0 _ _
      (λ _.
        start_stage-Account k stage elapsed (cross stage elapsed s') (cross-lt k stage elapsed s' l)
          (cross-Account k stage elapsed s' n a))
      (λ _.
        by_test (Account k) (stage_timed_out k stage elapsed s.stage_entered_at) _ _
          (λ _. skip_stage-Account k stage elapsed s' l a) (λ _. a))

pub advance_stage-Account :
    (k : Script) (elapsed : ℤ) (s : Simulation)
    → Account k s
    → Account k (advance_stage k elapsed s)
unfolding advance_stage at_stage
advance_stage-Account k elapsed s a = by_test (Account k) s.aborted _ _ (λ _. a) (λ n. go n _ refl)
  where
    go :
        s.aborted ≡ false
        → (found : Option StageConfig) → get_elem? k.plan.shutdown.stages s.current_stage ≡ found
        → Account k (at_stage k elapsed found s)
    go n none e = a
    go n (some stage) e =
        try_stage-Account k stage elapsed s n
          (get_elem?-lt k.plan.shutdown.stages s.current_stage stage e) a
