-- ===== src/Simulate/Timeline/Loaded.antt =====
-- What a timeline that was loaded has: internal/simulate/timeline.go.
use canarium.Common.{
  ℕ, suc, true, false, not, List, [], ◌∷◌, Option, none, some, ◌≡◌, refl, arith, is_nil, by_test,
  ◌⊎◌, inl, inr,
}
use canarium.Common.Int.{ℤ, pos, ◌<ℤ◌, ltb_ℤ}
use canarium.Simulate.Timeline.{
  Timeline, TimelineEvent, TimelineError, split_fact_key, is_qualified, event_error, events_error,
  or_else, validate, sorted_if_valid, insert_event, sort_onto, load_timeline, default_step,
  unless_error,
}

abbrev pub AreQualified : List TimelineEvent → Type 0
AreQualified [] = Unit
AreQualified (e ∷ es) = (is_qualified (split_fact_key e.fact) ≡ true) × AreQualified es

abbrev pub IsLoaded : Timeline → Type 0
IsLoaded t = (pos 0 <ℤ t.duration) × (pos 0 <ℤ t.step) × AreQualified t.events

abbrev pub IsLoadedIf : TimelineError ⊎ Timeline → Type 0
IsLoadedIf (inl _) = Unit
IsLoadedIf (inr t) = IsLoaded t

event_error-qualified :
    (duration : ℤ) (i : ℕ) (e : TimelineEvent)
    → event_error duration i e ≡ none
    → is_qualified (split_fact_key e.fact) ≡ true
unfolding event_error
event_error-qualified duration i e h = ground (arith, h)

or_else-none : (a b : Option TimelineError) → or_else a b ≡ none → (a ≡ none) × (b ≡ none)
or_else-none none b h = (refl, h)
or_else-none (some a) b h = cc

default_step-pos : (step : ℤ) → ltb_ℤ step (pos 0) ≡ false → pos 0 <ℤ default_step step
default_step-pos step h = ground (arith, h)

events_error-AreQualified :
    (duration : ℤ) (i : ℕ) (es : List TimelineEvent)
    → events_error duration i es ≡ none
    → AreQualified es
unfolding events_error
events_error-AreQualified duration i [] h = tt
events_error-AreQualified duration i (e ∷ es) h =
    let (now, later) =
      or_else-none (event_error duration i e) (events_error duration (suc i) es) h in
    (event_error-qualified duration i e now, events_error-AreQualified duration (suc i) es later)

unless_error-IsLoaded :
    (error : Option TimelineError) (t : Timeline)
    → (error ≡ none → IsLoaded t)
    → IsLoadedIf (unless_error error t)
unless_error-IsLoaded none t h = h refl
unless_error-IsLoaded (some error) t h = tt

validate-IsLoaded : (t : Timeline) → IsLoadedIf (validate t)
unfolding validate
validate-IsLoaded t =
    let t' = record t { step = default_step t.step } in
    by_test IsLoadedIf (not (ltb_ℤ (pos 0) t.duration)) _ _ (λ e. tt)
      (λ a.
        by_test IsLoadedIf (ltb_ℤ t.step (pos 0)) _ _ (λ e. tt)
          (λ b.
            by_test IsLoadedIf (ltb_ℤ t.duration t'.step) _ _ (λ e. tt)
              (λ c.
                by_test IsLoadedIf (is_nil t.events) _ _ (λ e. tt)
                  (λ d. unless_error-IsLoaded (events_error t.duration 0 t.events) t' (λ e. (
                    ground (arith, a),
                    default_step-pos t.step b,
                    events_error-AreQualified t.duration 0 t.events e,
                  ))))))

insert_event-AreQualified :
    (e : TimelineEvent) (es : List TimelineEvent)
    → is_qualified (split_fact_key e.fact) ≡ true
    → AreQualified es
    → AreQualified (insert_event e es)
unfolding insert_event
insert_event-AreQualified e [] q qs = (q, tt)
insert_event-AreQualified e (f ∷ fs) q (p, ps) =
    by_test AreQualified (ltb_ℤ e.at f.at) _ _ (λ _. (q, (p, ps)))
      (λ _. (p, insert_event-AreQualified e fs q ps))

sort_onto-AreQualified :
    (sorted es : List TimelineEvent)
    → AreQualified sorted
    → AreQualified es
    → AreQualified (sort_onto sorted es)
unfolding sort_onto
sort_onto-AreQualified sorted [] s qs = s
sort_onto-AreQualified sorted (e ∷ es) s (q, qs) =
    sort_onto-AreQualified (insert_event e sorted) es (insert_event-AreQualified e sorted q s) qs

sorted-IsLoaded : (r : TimelineError ⊎ Timeline) → IsLoadedIf r → IsLoadedIf (sorted_if_valid r)
unfolding sorted_if_valid
sorted-IsLoaded (inl error) h = tt
sorted-IsLoaded (inr t) (d, s, qs) = (d, s, sort_onto-AreQualified [] t.events tt qs)

pub load_timeline-IsLoaded : (t : Timeline) → IsLoadedIf (load_timeline t)
unfolding load_timeline
load_timeline-IsLoaded t = sorted-IsLoaded (validate t) (validate-IsLoaded t)
