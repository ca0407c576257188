-- ===== src/Facts/Fresh.antt =====
-- What the operations of internal/facts/store.go do to a reading, key by key.
use mathlib.Core.Option
use Prim.Native.Nat.{max}
use canarium.Common.{
  none, List, ℕ, ◌-◌, ◌*◌, ◌^◌, ◌≤◌, ◌<◌, ◌≡◌, refl, ◌≢◌, ◌↔◌, String, [], ◌∷◌, some, arith, same,
  eq_iff, if◌then◌else◌,
}
use canarium.Common.Int.{ℤ, pos, double64, time_sub}
use canarium.Common.Dict.{insert, Dict, lookup, lookup-insert}
use canarium.Facts.Types.{FactDeclaration, unknown, good, Value, Fact, set_fact, set_quality}
use canarium.Facts.Store.{
  register_all, fresh_fact, fact_key, get_fact, register_source, register_declaration, Store,
  update, get, source_from_key, staleness_window, refresh_fact, refresh_facts, refresh_quality,
}

-- The reading after a refresh is the refreshed reading.
pub lookup-refresh_facts :
    (polls : Dict ℤ) (now : ℕ) (key : String) (fs : Dict Fact)
    → lookup key (refresh_facts polls now fs)
      ≡ Option.map (refresh_fact polls now key) (lookup key fs)
unfolding lookup refresh_facts
lookup-refresh_facts polls now key [] = refl
lookup-refresh_facts polls now key ((j, f) ∷ fs) =
    ground (arith, eq_iff j key, lookup-refresh_facts polls now key fs)

-- A refresh leaves every value and its time stamp alone.
pub refresh_keeps_reading :
    (now : ℕ) (s : Store) (key : String)
    → ((get (refresh_quality now s) key).0 ≡ (get s key).0)
      × ((get (refresh_quality now s) key).2 ≡ (get s key).2)
unfolding get refresh_quality refresh_fact set_quality
refresh_keeps_reading now s key = ground (arith, lookup-refresh_facts s.polls now key s.facts)

-- A fact whose key's text before the first dot is registered with a poll interval is good after a
-- refresh exactly if it has ever had a value and that is at most two intervals old, an interval
-- below one second counting as one second.
pub refresh-good_iff :
    (now i : ℕ) (s : Store) (key : String) {f : Fact}
    → lookup key s.facts ≡ some f
    → lookup (source_from_key key) s.polls ≡ some (pos i)
    → i < 2 ^ 62
    → f.updated_at ≤ now
    → now - f.updated_at < 2 ^ 63
    → ((get (refresh_quality now s) key).1 ≡ good)
      ↔ ((f.quality ≢ unknown) × (now - f.updated_at ≤ 2 * max i 1000000000))
unfolding get refresh_quality refresh_fact set_quality staleness_window double64 time_sub
refresh-good_iff now i s key h p small past near =
    ground (arith, lookup-refresh_facts s.polls now key s.facts)

update_known :
    (key : String) (v : Value) (t : ℕ) (s : Store) (f : Fact)
    → lookup key s.facts ≡ some f
    → update key v t s ≡ record s { facts = insert key (set_fact f v t) s.facts }
unfolding update
update_known key v t s f h = rw (h, update)

-- An update of a known fact sets its reading and makes it good, and changes no other reading.
get-update :
    (key j : String) (v : Value) (t : ℕ) (s : Store) {f : Fact}
    → lookup key s.facts ≡ some f
    → get (update key v t s) j ≡ (if same key j then (v, good, t) else get s j)
unfolding get set_fact
get-update key j v t s {f} h =
    rw (update_known key v t s f h) (ground (arith, lookup-insert key j (set_fact f v t) s.facts))

-- An update of an unknown fact changes nothing.
pub update_unknown :
    (key : String) (v : Value) (t : ℕ) (s : Store)
    → lookup key s.facts ≡ none
    → update key v t s ≡ s
unfolding update
update_unknown key v t s h = rw (h, update)

-- Registering a declaration again keeps the reading that is there.
register_declaration_keeps :
    (source key : String) (s : Store) (d : FactDeclaration) {f : Fact}
    → lookup key s.facts ≡ some f
    → lookup key (register_declaration source s d).facts ≡ some f
unfolding register_declaration
register_declaration_keeps source key s d h = ground (
  arith,
  eq_iff (fact_key source d.name) key,
  lookup-insert (fact_key source d.name) key (fresh_fact source d) s.facts,
)

register_all_keeps :
    (source key : String) (s : Store) (ds : List FactDeclaration) {f : Fact}
    → lookup key s.facts ≡ some f
    → lookup key (register_all source s ds).facts ≡ some f
unfolding register_all
register_all_keeps source key s [] h = h
register_all_keeps source key s (d ∷ ds) h =
    register_all_keeps source key (register_declaration source s d) ds
      (register_declaration_keeps source key s d h)

-- A source that registers keeps every fact that the store already has, reading included.
pub register_source_keeps :
    (source key : String) (interval : ℤ) (ds : List FactDeclaration) (s : Store) {f : Fact}
    → lookup key s.facts ≡ some f
    → get_fact (register_source source interval ds s) key ≡ some f
unfolding register_source get_fact
register_source_keeps source key interval ds s h =
    register_all_keeps source key (record s { polls = insert source interval s.polls }) ds h
