-- ===== src/Engine/Derived.antt =====
-- The facts that the engine computes itself: internal/engine/derived.go.
--
-- The list of UPS sources, which the executor computes once, is an argument of what uses it; it is
-- sorted there, and here in the order of the declarations.
pub mod Threat
use canarium.Config.Clients.{add_name}
use canarium.Facts.Store.{refresh_quality, is_good, register_source, get, update, Store}
use canarium.Config.Types.{ClientConfig}
use canarium.Common.{
  ℕ, String, Bool, true, false, not, ◌&&◌, ◌||◌, List, [], ◌∷◌, same, contains, is_nil,
  if◌then◌else◌,
}
use canarium.Common.Int.{ℤ}
use canarium.Common.Dict.{Dict}
use canarium.Common.Text.{concat, cut_dot, split_fields}
use canarium.Facts.Types.{
  none_left, item, is_nil_value, FactDeclaration, Value, item, truth, unavailable, definite_true,
  definite_false, and, or, is_true, is_false, text, texts, anys, Values, Trilean,
}

abbrev pub threat_flags : List String
threat_flags = "OB" ∷ "LB" ∷ "DISCHRG" ∷ "ALARM" ∷ "RB" ∷ []

unfoldable pub has_threat : List String → Bool
has_threat [] = false
has_threat (flag ∷ flags) =
    let rest = has_threat flags in if contains threat_flags flag then true else rest

unfoldable pub items_have_threat : Values → Bool
items_have_threat none_left = false
items_have_threat (item (text t) vs) =
    let rest = items_have_threat vs in if contains threat_flags t then true else rest
items_have_threat (item _ vs) = items_have_threat vs

unfoldable pub flags_threatened : Value → Trilean
flags_threatened (texts flags) = if has_threat flags then definite_true else definite_false
flags_threatened (anys vs) = if items_have_threat vs then definite_true else definite_false
flags_threatened (text t) = if has_threat (split_fields t) then definite_true else definite_false
flags_threatened _ = unavailable

unfoldable pub feed_threatened : Store → String → Trilean
feed_threatened s feed =
    let (value, quality, _) = get s (concat feed ".status") in
    if not (is_good quality) || is_nil_value value then unavailable else flags_threatened value

-- The two loops of `clientThreatened`, with their `break`.
unfoldable pub all_feeds : Store → Trilean → List String → Trilean
all_feeds s result [] = result
all_feeds s result (feed ∷ feeds) =
    let result' = and result (feed_threatened s feed) in
    let rest = all_feeds s result' feeds in if is_false result' then result' else rest

unfoldable pub any_feed : Store → Trilean → List String → Trilean
any_feed s result [] = result
any_feed s result (feed ∷ feeds) =
    let result' = or result (feed_threatened s feed) in
    let rest = any_feed s result' feeds in if is_true result' then result' else rest

-- The `switch` behind the loops.
abbrev pub resolve_loss : ClientConfig → Trilean → Bool
resolve_loss c definite_true = true
resolve_loss c definite_false = false
resolve_loss c unavailable = same c.comms_loss_assumes "threatened"

-- `upsSources`
unfoldable pub ups_sources : List String → Dict FactDeclaration → List String
ups_sources found [] = found
ups_sources found ((key, _) ∷ decls) =
    let (instance_name, rest, cut) = cut_dot key in
    ups_sources
      (if cut && same rest "status" && not (same instance_name "client")
        then add_name found instance_name
        else found)
      decls

unfoldable pub client_feeds : List String → ClientConfig → List String
client_feeds sources c = if is_nil c.feeds then sources else c.feeds

unfoldable pub feeds_threatened : Store → ClientConfig → List String → Trilean
unfolding all_feeds any_feed
feeds_threatened s c feeds =
    if same c.feed_policy "all"
    then all_feeds s definite_true feeds
    else any_feed s definite_false feeds

unfoldable pub client_threatened : List String → Store → ClientConfig → Bool
unfolding client_feeds feeds_threatened
client_threatened sources s c =
    let feeds = client_feeds sources c in
    if is_nil feeds then false else resolve_loss c (feeds_threatened s c feeds)

abbrev pub threatened_key : String → String
threatened_key name = concat "client." (concat name ".threatened")

unfoldable pub update_derived_facts : List String → ℕ → List ClientConfig → Store → Store
unfolding client_threatened
update_derived_facts sources now [] s = s
update_derived_facts sources now (c ∷ cs) s =
    update_derived_facts sources now cs
      (update (threatened_key c.name) (truth (client_threatened sources s c)) now s)

abbrev pub derived_declaration : ClientConfig → FactDeclaration
derived_declaration c = record {
  name = concat c.name ".threatened";
  type = "bool";
  range = [];
  values = [];
  description =
      concat "Whether "
        (concat c.name "'s power feeds are threatened, per its feeds and feed_policy");
  unit = "";
}

unfoldable pub derived_declarations : List ClientConfig → List FactDeclaration
derived_declarations [] = []
derived_declarations (c ∷ cs) = derived_declaration c ∷ derived_declarations cs

-- The interval is that of the policy tick.
unfoldable pub register_derived_facts : ℤ → List ClientConfig → Store → Store
unfolding derived_declarations
register_derived_facts interval cs s = register_source "client" interval (derived_declarations cs) s

-- `refreshFacts` of internal/engine/executor.go. The code lists the sources once and sorts them; here
-- they are those that are declared at present, in the order of the table.
unfoldable pub refresh_with_derived : List ClientConfig → ℕ → Store → Store
refresh_with_derived cs now s =
    let fresh = refresh_quality now s in
    refresh_quality now (update_derived_facts (ups_sources [] fresh.decls) now cs fresh)
