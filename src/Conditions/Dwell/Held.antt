-- ===== src/Conditions/Dwell/Held.antt =====
-- A condition with `for:` holds exactly when it has been seen true without a break for long enough
-- (`applyDwell` of internal/conditions/dwell.go).
use canarium.Common.{
  ◌∙◌, ◌==◌, ℕ, ◌-◌, ◌^◌, ◌≤◌, ◌<◌, ◌≡◌, refl, String, List, [], ◌∷◌, Option, none, some, arith,
  if◌then◌else◌,
}
use canarium.Common.Int.{ℤ, pos, leb_ℤ, time_sub, add64}
use canarium.Common.Dict.{lookup, lookup-insert_self}
use canarium.Facts.Types.{Trilean, unavailable, definite_true, definite_false, is_true}
use canarium.Conditions.Dwell.{
  started_tracker, DwellTracker, Timers, persist, persist_throttled, apply_dwell, seen_tracker,
  dwell_held, dwell_broken, elapsed, reset_tracker,
}

-- One evaluation: what the condition was, and when.
abbrev pub Sample : Type 0
Sample = Trilean × ℕ

-- The timers after a history, whose latest sample stands first.
unfoldable pub after : String → ℤ → List Sample → Timers → Timers
after key required [] e = e
after key required ((t, now) ∷ h) e = (apply_dwell key t required now (after key required h e)).1

-- The first instant of the unbroken run of true samples that ends a history, or 0.
abbrev pub true_since : List Sample → ℕ
true_since [] = 0
true_since ((definite_true, now) ∷ h) = if true_since h == 0 then now else true_since h
true_since (_ ∷ h) = 0

-- No instant is zero, and none comes before an earlier sample's.
abbrev pub IsTimely : ℕ → List Sample → Type 0
IsTimely now [] = Unit
IsTimely now ((_, t) ∷ h) = (0 < t) × (t ≤ now) × IsTimely t h

-- What `for: required` makes of a history that ends in the sample `(t, now)`.
abbrev pub held_for : ℤ → Trilean → ℕ → List Sample → Trilean
held_for required definite_true now h =
    if leb_ℤ required (pos (now - true_since ((definite_true, now) ∷ h)))
    then definite_true
    else definite_false
held_for required definite_false now h = definite_false
held_for required unavailable now h = unavailable

-- The start and the credit of the timer under a key.
abbrev start_of : Option DwellTracker → ℕ
start_of none = 0
start_of (some d) = d.started_at

abbrev credit_of : Option DwellTracker → ℤ
credit_of none = pos 0
credit_of (some d) = d.credited

abbrev timer : String → Timers → Option DwellTracker
timer key e = lookup key e.trackers

persist_timer :
    (key : String) (d : DwellTracker) (e : Timers)
    → (start_of (timer key (persist key d e)) ≡ d.started_at)
      × (credit_of (timer key (persist key d e)) ≡ d.credited)
unfolding persist
persist_timer key d e = ground (
  arith,
  lookup-insert_self key d e.trackers,
  lookup-insert_self key (record d { last_persisted = d.last_seen }) e.trackers,
)

persist_throttled_timer :
    (key : String) (d : DwellTracker) (now : ℕ) (e : Timers)
    → (start_of (timer key (persist_throttled key d now e)) ≡ d.started_at)
      × (credit_of (timer key (persist_throttled key d now e)) ≡ d.credited)
unfolding persist_throttled
persist_throttled_timer key d now e =
    ground (arith, lookup-insert_self key d e.trackers, persist_timer key d e)

broken_timer :
    (key : String) (d : DwellTracker) (t : Trilean) (e : Timers)
    → let e' = (dwell_broken key d t e).1 in
      (credit_of (timer key e') ≡ pos 0) × (start_of (timer key e') ≡ 0)
unfolding dwell_broken
broken_timer key d t e = ground (
  arith,
  persist_timer key (reset_tracker d) e,
  lookup-insert_self key (reset_tracker d) e.trackers,
)

held_timer :
    (key : String) (d : DwellTracker) (required : ℤ) (now : ℕ) (e : Timers)
    → let e' = (dwell_held key d required now e).1 in
      (credit_of (timer key e') ≡ d.credited) × (start_of (timer key e') ≡ d.started_at)
unfolding dwell_held
held_timer key d required now e = ground (
  arith,
  persist_throttled_timer key d now e,
  persist_timer key (record d { satisfied = leb_ℤ required (elapsed d now) }) e,
)

seen_timer :
    (o : Option DwellTracker) (required : ℤ) (now : ℕ)
    → ((seen_tracker o required now).started_at ≡ start_of o)
      × ((seen_tracker o required now).credited ≡ credit_of o)
unfolding seen_tracker
seen_timer none required now = (refl, refl)
seen_timer (some d) required now = (refl, refl)

apply_timer :
    (key : String) (t : Trilean) (required : ℤ) (now : ℕ) (e : Timers)
    → credit_of (timer key e) ≡ pos 0
    → let e' = (apply_dwell key t required now e).1 in
      (credit_of (timer key e') ≡ pos 0)
      × (start_of (timer key e') ≡ (
          if is_true t
          then (if start_of (timer key e) == 0 then now else start_of (timer key e))
          else 0))
unfolding apply_dwell
apply_timer key t required now e h =
    let d = seen_tracker (timer key e) required now in
    ground (
      arith,
      seen_timer (timer key e) required now,
      broken_timer key d t e,
      held_timer key (started_tracker d now) required now e,
    )

-- The timer that a history leaves behind: no credit, and the start of the unbroken run.
after_timer :
    (key : String) (required : ℤ) (h : List Sample) (e : Timers)
    → timer key e ≡ none
    → (credit_of (timer key (after key required h e)) ≡ pos 0)
      × (start_of (timer key (after key required h e)) ≡ true_since h)
unfolding after
after_timer key required [] e fresh = rw fresh (refl, refl)
after_timer key required ((t, now) ∷ h) e fresh =
    let (credit, start) = after_timer key required h e fresh in
    let (credit', start') = apply_timer key t required now (after key required h e) credit in
    (credit', start' ∙ rw start (since_step t now h))
  where
    since_step :
        (t : Trilean) (now : ℕ) (h : List Sample)
        → (if is_true t then (if true_since h == 0 then now else true_since h) else 0)
          ≡ true_since ((t, now) ∷ h)
    since_step definite_true now h = refl
    since_step definite_false now h = refl
    since_step unavailable now h = refl

true_since-le : (now : ℕ) (h : List Sample) → IsTimely now h → true_since h ≤ now
true_since-le now [] h = omega arith
true_since-le now ((definite_true, t) ∷ h) w = ground (arith, true_since-le t h w.2)
true_since-le now ((definite_false, t) ∷ h) w = omega arith
true_since-le now ((unavailable, t) ∷ h) w = omega arith

-- The result of one evaluation, from the timer's start.
apply_result :
    (key : String) (t : Trilean) (required : ℤ) (now : ℕ) (h : List Sample) (e : Timers)
    → 0 < now
    → now - true_since ((definite_true, now) ∷ h) < 2 ^ 63
    → true_since h ≤ now
    → credit_of (timer key e) ≡ pos 0
    → start_of (timer key e) ≡ true_since h
    → (apply_dwell key t required now e).0 ≡ held_for required t now h
unfolding apply_dwell dwell_held dwell_broken elapsed time_sub add64
apply_result key definite_true required now h e positive small le c st =
    ground (arith, seen_timer (timer key e) required now)
apply_result key definite_false required now h e positive small le c st = refl
apply_result key unavailable required now h e positive small le c st = refl

-- Let a condition have no timer before its first sample, as none that a restart has restored, let no
-- sample be at the zero instant or before an earlier one, and let it have been true for less than
-- 2 ^ 63 nanoseconds. Then an evaluation gives true exactly if the condition is true now and has been
-- true at every evaluation since an instant at least `required` ago. An unavailable result stays
-- unavailable, and any other is false.
pub dwell_holds :
    (key : String) (required : ℤ) (h : List Sample) (t : Trilean) (now : ℕ) (e : Timers)
    → lookup key e.trackers ≡ none
    → 0 < now
    → now - true_since ((definite_true, now) ∷ h) < 2 ^ 63
    → IsTimely now h
    → (apply_dwell key t required now (after key required h e)).0 ≡ held_for required t now h
dwell_holds key required h t now e fresh positive small w =
    let (credit, start) = after_timer key required h e fresh in
    apply_result key t required now h (after key required h e) positive small
      (true_since-le now h w) credit start
