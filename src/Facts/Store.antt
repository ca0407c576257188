-- ===== src/Facts/Store.antt =====
-- internal/facts/store.go. A method that changes the store returns the new one; the locks, which
-- each method takes around its whole body, are not modelled.
use canarium.Common.{
  ℕ, String, Bool, true, false, List, [], ◌∷◌, Option, none, some, is_some, if◌then◌else◌,
}
use canarium.Common.Int.{ℤ, pos, ltb_ℤ, double64, time_sub, is_zero_time}
use canarium.Common.Float.{float_lt}
use canarium.Common.Dict.{Dict, lookup, insert}
use canarium.Common.Text.{concat, cut_dot}
use canarium.Facts.Types.{
  Quality, unknown, stale, good, Value, nil, FactDeclaration, Fact, set_fact, set_quality,
  parse_fact_type, quality_text,
}

pub record Store : Type 0 where
  pub facts : Dict Fact
  pub decls : Dict FactDeclaration
  pub polls : Dict ℤ  -- source to poll interval

unfoldable pub new_store : Store
new_store = record { facts = []; decls = []; polls = [] }

-- `source + "." + name`
unfoldable pub fact_key : String → String → String
fact_key source name = concat source (concat "." name)

abbrev pub fresh_fact : String → FactDeclaration → Fact
fresh_fact source d = record {
  key = fact_key source d.name;
  value = nil;
  type = parse_fact_type d.type;
  quality = unknown;
  updated_at = 0;
  source = source;
}

-- The body of the loop in `RegisterSource`.
unfoldable pub register_declaration : String → Store → FactDeclaration → Store
register_declaration source s d =
    let key = fact_key source d.name in
    record s {
      decls = insert key d s.decls;
      facts =
          if is_some (lookup key s.facts)
          then s.facts
          else insert key (fresh_fact source d) s.facts;
    }

unfoldable pub register_all : String → Store → List FactDeclaration → Store
register_all source s [] = s
register_all source s (d ∷ ds) = register_all source (register_declaration source s d) ds

unfoldable pub register_source : String → ℤ → List FactDeclaration → Store → Store
register_source source poll_interval declarations s =
    register_all source (record s { polls = insert source poll_interval s.polls }) declarations

unfoldable pub update : String → Value → ℕ → Store → Store
update key v t s = elim (lookup key s.facts) [
  | none ↦ s
  | some f ↦ record s { facts = insert key (set_fact f v t) s.facts }
]

unfoldable pub get : Store → String → Value × Quality × ℕ
get s key = elim (lookup key s.facts) [
  | none ↦ (nil, unknown, 0)
  | some f ↦ (f.value, f.quality, f.updated_at)
]

unfoldable pub get_fact : Store → String → Option Fact
get_fact s key = lookup key s.facts

unfoldable pub get_declaration : Store → String → Option FactDeclaration
get_declaration s key = lookup key s.decls

unfoldable pub source_from_key : String → String
source_from_key key = let (before, _, found) = cut_dot key in if found then before else key

-- time.Second, in nanoseconds
abbrev pub min_poll_interval : ℤ
min_poll_interval = pos 1000000000

-- The window `interval * stalenessFactor` after the floor; the factor is 2.
unfoldable pub staleness_window : ℤ → ℤ
staleness_window interval =
    double64 (if ltb_ℤ interval min_poll_interval then min_poll_interval else interval)

abbrev pub is_unknown : Quality → Bool
is_unknown unknown = true
is_unknown _ = false

abbrev pub is_good : Quality → Bool
is_good good = true
is_good _ = false

-- The body of the loop in `RefreshQuality`. `key` is the map's key.
unfoldable pub refresh_fact : Dict ℤ → ℕ → String → Fact → Fact
refresh_fact polls now key f = elim (lookup (source_from_key key) polls) [
  | none ↦ f
  | some interval ↦
      if is_unknown f.quality
      then f
      else if ltb_ℤ (staleness_window interval) (time_sub now f.updated_at)
      then set_quality f stale
      else set_quality f good
]

unfoldable pub refresh_facts : Dict ℤ → ℕ → Dict Fact → Dict Fact
refresh_facts polls now [] = []
refresh_facts polls now ((key, f) ∷ fs) =
    (key, refresh_fact polls now key f) ∷ refresh_facts polls now fs

unfoldable pub refresh_quality : ℕ → Store → Store
refresh_quality now s = record s { facts = refresh_facts s.polls now s.facts }

unfoldable pub fact_value : Store → String → Value
fact_value s key = let (v, q, _) = get s key in if is_good q then v else nil

unfoldable pub fact_quality : Store → String → String
fact_quality s key = quality_text (get s key).1

-- The bits of the float64 -1.
abbrev pub minus_one : ℕ
minus_one = 0xbff0_0000_0000_0000

-- `seconds` is `time.Duration.Seconds`, as float64 bits.
unfoldable pub fact_age_at : (ℤ → ℕ) → Store → String → ℕ → ℕ
fact_age_at seconds s key now =
    let updated = (get s key).2 in
    let age = seconds (time_sub now updated) in
    if is_zero_time updated then minus_one else if float_lt age 0 then 0 else age
