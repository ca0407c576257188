-- ===== src/Api/Limiter.antt =====
-- internal/api/ratelimit.go: `failureLimiter`. Its clock is an argument, instants are nanoseconds,
-- and the zero time is 0.
pub mod Lockout
use canarium.Common.{
  ℕ, suc, ◌*◌, String, Bool, true, false, not, ◌&&◌, ◌||◌, List, [], ◌∷◌, Option, none, some, ltb,
  leb, if◌then◌else◌,
}
use canarium.Common.Int.{ℤ, pos, ltb_ℤ, time_sub, time_add, is_zero_time}
use canarium.Common.Dict.{Dict, lookup, insert, erase}
use canarium.Config.Types.{second}

pub record FailureEntry : Type 0 where
  pub failures : ℕ
  pub first_failed : ℕ
  pub locked_until : ℕ

pub record FailureLimiter : Type 0 where
  pub entries : Dict FailureEntry
  pub max_failures : ℕ
  pub window : ℤ
  pub lockout : ℤ
  pub last_gc : ℕ

unfoldable new_failure_limiter : ℕ → ℤ → ℤ → FailureLimiter
new_failure_limiter max_failures window lockout = record {
  entries = [];
  max_failures = max_failures;
  window = window;
  lockout = lockout;
  last_gc = 0;
}

abbrev limiter_gc_interval : ℤ
limiter_gc_interval = pos (600 * second)

-- More than the window has passed since the first failure.
abbrev pub rolled_over : ℤ → ℕ → FailureEntry → Bool
rolled_over window now e = ltb_ℤ window (time_sub now e.first_failed)

unfoldable pub sweep : ℤ → ℕ → Dict FailureEntry → Dict FailureEntry
sweep window now [] = []
sweep window now ((key, e) ∷ es) =
    let rest = sweep window now es in
    if ltb e.locked_until now && rolled_over window now e then rest else (key, e) ∷ rest

-- `gcLocked`
unfoldable pub gc : ℕ → FailureLimiter → FailureLimiter
unfolding sweep
gc now l =
    if ltb_ℤ (time_sub now l.last_gc) limiter_gc_interval
    then l
    else record l { entries = sweep l.window now l.entries; last_gc = now }

-- The answer, the time to wait, and the limiter behind the call.
unfoldable pub allow_entry :
    String → ℕ → Option FailureEntry → FailureLimiter → Bool × ℤ × FailureLimiter
allow_entry key now none l = (true, pos 0, l)
allow_entry key now (some e) l =
    if ltb now e.locked_until
    then (false, time_sub e.locked_until now, l)
    else if not (is_zero_time e.locked_until) || rolled_over l.window now e
    then (true, pos 0, record l { entries = erase key l.entries })
    else (true, pos 0, l)

unfoldable pub allow : String → ℕ → FailureLimiter → Bool × ℤ × FailureLimiter
unfolding gc allow_entry
allow key now l = let l' = gc now l in allow_entry key now (lookup key l'.entries) l'

abbrev first_failure : ℕ → FailureEntry
first_failure now = record { failures = 1; first_failed = now; locked_until = 0 }

unfoldable pub failed_again : ℕ → FailureLimiter → FailureEntry → FailureEntry
failed_again now l e = record e {
  failures = suc e.failures;
  locked_until =
      if leb l.max_failures (suc e.failures) then time_add now l.lockout else e.locked_until;
}

unfoldable pub next_entry : ℕ → FailureLimiter → Option FailureEntry → FailureEntry
unfolding failed_again
next_entry now l none = first_failure now
next_entry now l (some e) =
    if rolled_over l.window now e then first_failure now else failed_again now l e

unfoldable pub record_failure : String → ℕ → FailureLimiter → FailureLimiter
unfolding next_entry
record_failure key now l = record l {
  entries = insert key (next_entry now l (lookup key l.entries)) l.entries;
}

unfoldable pub reset : String → FailureLimiter → FailureLimiter
reset key l = record l { entries = erase key l.entries }
