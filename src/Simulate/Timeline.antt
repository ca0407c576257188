-- ===== src/Simulate/Timeline.antt =====
-- Timelines: `validate`, `splitFactKey` and the sorting of `LoadTimeline`, in
-- internal/simulate/timeline.go. A timeline is taken as its JSON decodes.
pub mod Loaded
use canarium.Common.{
  ℕ, suc, String, Bool, true, false, not, ◌&&◌, List, [], ◌∷◌, Option, none, some, is_empty, is_nil,
  ◌⊎◌, inl, inr, if◌then◌else◌,
}
use canarium.Common.Int.{ℤ, pos, ltb_ℤ, eqb_ℤ}
use canarium.Common.Text.{cut_dot}
use canarium.Config.Types.{second}
use canarium.Facts.Types.{Value, is_nil_value}

pub record TimelineEvent : Type 0 where
  pub at : ℤ
  pub fact : String
  pub value : Value
  pub explicit_null : Bool

pub record Timeline : Type 0 where
  pub duration : ℤ
  pub step : ℤ
  pub events : List TimelineEvent

-- An event is named by its index.
pub data TimelineError : Type 0 where
  bad_duration negative_step step_too_long no_events : TimelineError
  no_fact unqualified negative_at after_end no_value : ℕ → TimelineError

-- `splitFactKey`: the source and the name; `none` is a key that is not qualified.
unfoldable pub split_fact_key : String → Option (String × String)
split_fact_key key =
    let (source, name, found) = cut_dot key in
    if found && not (is_empty source) && not (is_empty name) then some (source, name) else none

abbrev pub is_qualified : Option (String × String) → Bool
is_qualified none = false
is_qualified (some _) = true

-- The first error of one event.
unfoldable pub event_error : ℤ → ℕ → TimelineEvent → Option TimelineError
unfolding split_fact_key
event_error duration i e =
    if is_empty e.fact
    then some (no_fact i)
    else if not (is_qualified (split_fact_key e.fact))
    then some (unqualified i)
    else if ltb_ℤ e.at (pos 0)
    then some (negative_at i)
    else if ltb_ℤ duration e.at
    then some (after_end i)
    else if is_nil_value e.value && not e.explicit_null
    then some (no_value i)
    else none

abbrev pub or_else : Option TimelineError → Option TimelineError → Option TimelineError
or_else none later = later
or_else (some error) later = some error

-- The events from index `i` on.
unfoldable pub events_error : ℤ → ℕ → List TimelineEvent → Option TimelineError
unfolding event_error
events_error duration i [] = none
events_error duration i (e ∷ es) =
    or_else (event_error duration i e) (events_error duration (suc i) es)

abbrev pub default_step : ℤ → ℤ
default_step step = if eqb_ℤ step (pos 0) then pos second else step

abbrev pub unless_error : Option TimelineError → Timeline → TimelineError ⊎ Timeline
unless_error none t = inr t
unless_error (some error) t = inl error

-- `validate`, which fills the step in.
unfoldable pub validate : Timeline → TimelineError ⊎ Timeline
unfolding events_error
validate t =
    let t' = record t { step = default_step t.step } in
    if not (ltb_ℤ (pos 0) t.duration)
    then inl bad_duration
    else if ltb_ℤ t.step (pos 0)
    then inl negative_step
    else if ltb_ℤ t.duration t'.step
    then inl step_too_long
    else if is_nil t.events
    then inl no_events
    else unless_error (events_error t.duration 0 t.events) t'

-- Behind the events that are not later.
unfoldable pub insert_event : TimelineEvent → List TimelineEvent → List TimelineEvent
insert_event e [] = e ∷ []
insert_event e (f ∷ fs) =
    let below = insert_event e fs in if ltb_ℤ e.at f.at then e ∷ f ∷ fs else f ∷ below

-- `sort.SliceStable` by the time of the events.
unfoldable pub sort_onto : List TimelineEvent → List TimelineEvent → List TimelineEvent
unfolding insert_event
sort_onto sorted [] = sorted
sort_onto sorted (e ∷ es) = sort_onto (insert_event e sorted) es

unfoldable pub sorted_if_valid : TimelineError ⊎ Timeline → TimelineError ⊎ Timeline
unfolding sort_onto
sorted_if_valid (inl error) = inl error
sorted_if_valid (inr t) = inr (record t { events = sort_onto [] t.events })

-- `LoadTimeline`, behind the decoding.
unfoldable pub load_timeline : Timeline → TimelineError ⊎ Timeline
unfolding validate sorted_if_valid
load_timeline t = sorted_if_valid (validate t)
