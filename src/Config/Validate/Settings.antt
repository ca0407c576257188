-- ===== src/Config/Validate/Settings.antt =====
-- The daemon's own settings and its sources: `validateCanarium` and `validateSources` of
-- internal/config/validate.go.
use canarium.Config.Duration.{parse_duration}
use canarium.Config.Types.{Config, SourceConfig, WebhookConfig}
use canarium.Common.Int.{pos, eqb_ℤ, ℤ}
use canarium.Common.Text.{has_prefix, trim_space, lower_is}
use canarium.Config.Validate.Conditions.{is_unknown, Registry, check_duration, Checkers}
use canarium.Common.{
  ℕ, suc, String, Bool, false, not, ◌&&◌, ◌||◌, List, [], ◌∷◌, Option, none, some, is_empty,
  is_some, contains, if◌then◌else◌,
}
use canarium.Config.Validate.Report.{
  keeps_history, add_warning, setting, bad_poll_interval, webhook_without_url, hash_is_set,
  config_is_readonly, unknown_source_type, add_info, not_bcrypt, empty_setting, unknown_mode,
  duplicate_source, when, each_from, source_named, source_without_type, source_without_name,
  add_error, clean, source_at, Context, ValidationResult, ◌⊕◌,
}

-- `strings.ToLower(strings.TrimSpace(v))` is one of the words.
unfoldable pub is_word : List String → String → Bool
is_word [] v = false
is_word (w ∷ ws) v = lower_is (trim_space v) w || is_word ws v

abbrev pub mode_words : List String
mode_words = "disarmed" ∷ "dry-run" ∷ "dryrun" ∷ "dry_run" ∷ "armed" ∷ []

abbrev is_zero_duration : Option ℤ → Bool
is_zero_duration none = false
is_zero_duration (some d) = eqb_ℤ d (pos 0)

unfoldable check_retention : Checkers → String → ValidationResult
unfolding ◌⊕◌ check_duration
check_retention k value = when (not (is_empty value)) (
    check_duration k value (setting "canarium.journal_retain")
    ⊕ when (is_zero_duration (parse_duration k.parsers value)) (add_warning keeps_history))

unfoldable check_password_hash : String → ValidationResult
unfolding ◌⊕◌
check_password_hash value =
    let hash = trim_space value in
    when (not (is_empty hash))
      (when (not (has_prefix hash "$2")) (add_error not_bcrypt) ⊕ add_info hash_is_set)

unfoldable check_webhook : ℕ → WebhookConfig → ValidationResult
check_webhook i wh = when (is_empty (trim_space wh.url)) (add_error (webhook_without_url i))

unfoldable pub validate_canarium : Checkers → Config → ValidationResult
unfolding ◌⊕◌ check_retention check_password_hash check_webhook each_from is_word
validate_canarium k cfg =
    let c = cfg.canarium in
    when (not (is_word mode_words c.mode)) (add_error (unknown_mode c.mode))
    ⊕ when (is_empty c.host) (add_error (empty_setting "canarium.host"))
    ⊕ when (is_empty c.data_dir) (add_error (empty_setting "canarium.data_dir"))
    ⊕ check_retention k c.journal_retain
    ⊕ check_password_hash c.auth.password_hash
    ⊕ when c.config_readonly (add_info config_is_readonly)
    ⊕ each_from check_webhook 0 c.notifications.webhooks

-- `fmt.Sprintf("source %q", s.Name)`, or the index where there is no name.
abbrev source_context : ℕ → SourceConfig → Context
source_context i s = if is_empty s.name then source_at i else source_named s.name

unfoldable check_source : Checkers → Option Registry → Context → SourceConfig → ValidationResult
unfolding ◌⊕◌
check_source k reg context s =
    if is_empty s.type
    then add_error (source_without_type context)
    else when (is_unknown (λ r. r.source_types) reg s.type)
        (add_error (unknown_source_type context s.type))
      ⊕ when
          (not (is_empty s.poll_interval)
            && not (is_some (parse_duration k.parsers s.poll_interval)))
          (add_error (bad_poll_interval context))

-- The sources from index `i` on; `names` are those seen so far.
unfoldable validate_sources_from :
    Checkers → Option Registry → ℕ → List String → List SourceConfig → ValidationResult
unfolding ◌⊕◌ check_source
validate_sources_from k reg i names [] = clean
validate_sources_from k reg i names (s ∷ rest) =
    let context = source_context i s in
    (if is_empty s.name
      then add_error (source_without_name context)
      else when (contains names s.name) (add_error (duplicate_source s.name)))
    ⊕ check_source k reg context s
    ⊕ validate_sources_from k reg (suc i) (s.name ∷ names) rest

unfoldable pub validate_sources : Checkers → Option Registry → Config → ValidationResult
unfolding validate_sources_from
validate_sources k reg cfg = validate_sources_from k reg 0 [] cfg.sources
