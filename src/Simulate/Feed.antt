-- ===== src/Simulate/Feed.antt =====
-- What a simulation keeps, and how the timeline feeds it (internal/simulate/simulate.go).
use canarium.Common.{ℕ, String, Bool, List, [], ◌∷◌, Option, none, some, if◌then◌else◌}
use canarium.Common.Int.{ℤ, leb_ℤ, time_add}
use canarium.Common.Dict.{Dict, insert, erase}
use canarium.Facts.Types.{Value, Values, none_left, item, text, texts, anys, is_nil_value}
use canarium.Facts.Store.{Store, update, refresh_quality}
use canarium.Conditions.Evaluator.{Libs, Evaluator}
use canarium.Config.Types.{Config, PlanConfig}
use canarium.Simulate.Timeline.{TimelineEvent}

-- `Event`
pub record Happening : Type 0 where
  pub at : ℤ
  pub stage : String
  pub detail : String
  pub clients : List String

pub record SimulationResult : Type 0 where
  pub plan : String
  pub triggers : List Happening
  pub stages : List Happening
  pub aborts : List Happening
  pub ponr : List Happening
  pub wake_gates : List Happening
  pub skipped : List Happening
  pub shutdown_order : List String
  pub not_shut_down : List String
  pub completed : Bool

-- What a simulation works on: the configuration, the plan, and the instant that it starts at.
pub record Script : Type 0 where
  pub cfg : Config
  pub libs : Libs
  pub plan : PlanConfig
  pub base : ℕ

-- The simulation and the variables of its loop; `pending` are the events from `eventIdx` on.
pub record Simulation : Type 0 where
  pub evaluator : Evaluator
  pub current : Dict Value
  pub pending : List TimelineEvent
  pub triggered : Bool
  pub aborted : Bool
  pub ponr_crossed : Bool
  pub current_stage : ℕ
  pub stage_entered_at : ℤ
  pub result : SimulationResult

-- The list as texts, where it holds nothing else.
unfoldable pub all_texts : Values → Option (List String)
all_texts none_left = some []
all_texts (item (text t) vs) = elim (all_texts vs) [ none ↦ none | some ts ↦ some (t ∷ ts) ]
all_texts (item _ vs) = none

abbrev pub texts_or : Value → Option (List String) → Value
texts_or v none = v
texts_or v (some ts) = texts ts

unfoldable pub normalise_value : Value → Value
unfolding all_texts
normalise_value (anys vs) = texts_or (anys vs) (all_texts vs)
normalise_value v = v

unfoldable pub take_event : TimelineEvent → Dict Value → Dict Value
unfolding normalise_value
take_event e current =
    if is_nil_value e.value
    then erase e.fact current
    else insert e.fact (normalise_value e.value) current

-- Every event that is due.
unfoldable pub apply_due : ℤ → List TimelineEvent → Dict Value → List TimelineEvent × Dict Value
unfolding take_event
apply_due elapsed [] current = ([], current)
apply_due elapsed (e ∷ es) current =
    let rest = apply_due elapsed es (take_event e current) in
    if leb_ℤ e.at elapsed then rest else (e ∷ es, current)

-- Every value, read again.
unfoldable pub reassert : Dict Value → ℕ → Store → Store
reassert [] now s = s
reassert ((key, v) ∷ rows) now s = reassert rows now (update key v now s)

unfoldable pub feed : Script → ℤ → Simulation → Simulation
unfolding apply_due reassert
feed k elapsed s =
    let now = time_add k.base elapsed in
    let (pending, current) = apply_due elapsed s.pending s.current in
    record s {
      pending = pending;
      current = current;
      evaluator = record (s.evaluator) {
        store = refresh_quality now (reassert current now s.evaluator.store);
      };
    }
