-- ===== src/Config/Duration.antt =====
-- Durations in the configuration: internal/config/loader.go.
use canarium.Common.{String, Bool, true, false, Option, none, some, is_empty, if◌then◌else◌}
use canarium.Common.Int.{ℤ, pos}
use canarium.Common.Text.{trim_space, cut_last}

-- Go's number parsing, which the program calls: `time.ParseDuration`, and a count of days in
-- decimal (`strconv.ParseFloat`) as a duration.
pub record DurationParsers : Type 0 where
  pub standard : String → Option ℤ
  pub days : String → Option ℤ

unfoldable pub parse_days : DurationParsers → String → Option ℤ
parse_days p s = elim (cut_last b'd' s) [ none ↦ none | some num ↦ p.days num ]

-- `none` is an error.
unfoldable pub parse_duration : DurationParsers → String → Option ℤ
unfolding parse_days
parse_duration p s =
    let t = trim_space s in
    if is_empty s
    then some (pos 0)
    else elim (p.standard t) [ some d ↦ some d | none ↦ parse_days p t ]

-- `Duration`: the duration to use, and whether the value could be read.
unfoldable pub duration : DurationParsers → String → ℤ → ℤ × Bool
duration p value def =
    if is_empty (trim_space value)
    then (def, true)
    else elim (parse_duration p value) [ none ↦ (def, false) | some d ↦ (d, true) ]
