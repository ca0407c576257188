-- ===== src/Facts/Keys.antt =====
-- Which source a fact's key leads back to: `fact_key` against `source_from_key`.
use canarium.Common.{
  some, ◌<◌, ◌≤◌, ◌-◌, ◌*◌, ◌^◌, ◌≢◌, ◌↔◌, ℕ, ◌≡◌, refl, String, Bool, true, false, none, arith,
}
use canarium.Common.Dict.{lookup}
use canarium.Common.Text.{concat, cut_dot}
use canarium.Facts.Store.{Store, fact_key, get, source_from_key, refresh_fact, refresh_quality}
use canarium.Facts.Fresh.{lookup-refresh_facts, refresh-good_iff}
use canarium.Facts.Types.{Fact, good, unknown}
use canarium.Common.Int.{pos}
use Prim.Native.Nat.{max}

-- Whether a text has a dot.
abbrev pub has_dot : String → Bool
has_dot s = (cut_dot s).2

cut_dot-concat_dot :
    (s t : String) → has_dot s ≡ false → cut_dot (concat s (concat "." t)) ≡ (s, t, true)
unfolding cut_dot concat
cut_dot-concat_dot String.[] t h = refl
cut_dot-concat_dot (String.◌∷◌ c s) t h = ground (arith, cut_dot-concat_dot s t)

cut_dot-concat :
    (s t : String)
    → has_dot s ≡ true
    → ((cut_dot (concat s t)).0 ≡ (cut_dot s).0) × (has_dot (concat s t) ≡ true)
unfolding cut_dot concat
cut_dot-concat String.[] t h = ground arith
cut_dot-concat (String.◌∷◌ c s) t h = ground (arith, cut_dot-concat s t)

-- The key of a fact of a source without a dot leads back to that source.
source_from_key-fact_key :
    (source name : String)
    → has_dot source ≡ false
    → source_from_key (fact_key source name) ≡ source
unfolding source_from_key fact_key
source_from_key-fact_key source name h = ground (arith, cut_dot-concat_dot source name h)

-- A fact of a registered source whose name has no dot is good after a refresh exactly if it has ever
-- had a value and that is at most two poll intervals old, an interval below one second counting as
-- one, where the interval is below 2 ^ 62 nanoseconds, and the value is not from the future and less
-- than 2 ^ 63 nanoseconds old.
pub fact_good_iff :
    (source name : String) (now i : ℕ) (s : Store) {f : Fact}
    → has_dot source ≡ false
    → lookup source s.polls ≡ some (pos i)
    → lookup (fact_key source name) s.facts ≡ some f
    → i < 2 ^ 62
    → f.updated_at ≤ now
    → now - f.updated_at < 2 ^ 63
    → ((get (refresh_quality now s) (fact_key source name)).1 ≡ good)
      ↔ ((f.quality ≢ unknown) × (now - f.updated_at ≤ 2 * max i 1000000000))
fact_good_iff source name now i s {f} plain p h small past near =
    refresh-good_iff now i s (fact_key source name) {f = f} h
      (rw (source_from_key-fact_key source name plain) p) small past near

-- A fact of a source whose name has a dot leads to the part before the dot.
source_from_key_dotted :
    (source name : String)
    → has_dot source ≡ true
    → source_from_key (fact_key source name) ≡ (cut_dot source).0
unfolding source_from_key fact_key
source_from_key_dotted source name h = ground (arith, cut_dot-concat source (concat "." name) h)

-- The facts of a source whose name has a dot never go stale, however long the source is silent,
-- unless another source bears the part before the dot as its name.
pub dotted_source_never_stale :
    (source name : String) (now : ℕ) (s : Store)
    → has_dot source ≡ true
    → lookup (cut_dot source).0 s.polls ≡ none
    → get (refresh_quality now s) (fact_key source name) ≡ get s (fact_key source name)
unfolding get refresh_quality refresh_fact
dotted_source_never_stale source name now s h p = ground (
  arith,
  lookup-refresh_facts s.polls now (fact_key source name) s.facts,
  source_from_key_dotted source name h,
)
