-- ===== src/Config/Clients.antt =====
-- References to clients: `buildTagMap` and `ResolveClientRefs` of internal/config/validate.go.
pub mod Refs
use canarium.Common.{
  ℕ, String, Bool, true, false, List, [], ◌∷◌, ◌++◌, Option, none, some, same, contains,
  if◌then◌else◌,
}
use canarium.Common.Dict.{Dict, lookup, insert}
use canarium.Common.Text.{has_prefix, drop_prefix}
use canarium.Config.Types.{ClientConfig, Config}

abbrev pub names_or_none : Option (List String) → List String
names_or_none none = []
names_or_none (some ns) = ns

-- `tags[t] = append(tags[t], name)`, for each tag of a client.
unfoldable pub add_tags : String → List String → Dict (List String) → Dict (List String)
add_tags name [] m = m
add_tags name (t ∷ ts) m = add_tags name ts (insert t (names_or_none (lookup t m) ++ (name ∷ [])) m)

unfoldable pub add_clients : List ClientConfig → Dict (List String) → Dict (List String)
unfolding add_tags
add_clients [] m = m
add_clients (c ∷ cs) m = add_clients cs (add_tags c.name c.tags m)

unfoldable pub build_tag_map : Config → Dict (List String)
unfolding add_clients
build_tag_map cfg = add_clients cfg.clients []

-- Appends a name that has not been seen. `result` holds the names seen so far, in order.
unfoldable pub add_name : List String → String → List String
add_name result n = if contains result n then result else result ++ (n ∷ [])

unfoldable pub add_names : List String → List String → List String
unfolding add_name
add_names result [] = result
add_names result (n ∷ ns) = add_names (add_name result n) ns

-- The names that one reference stands for.
unfoldable pub ref_names : Dict (List String) → String → List String
ref_names tag_map ref =
    if has_prefix ref "tag:"
    then names_or_none (lookup (drop_prefix ref "tag:") tag_map)
    else ref ∷ []

unfoldable pub resolve_from : Dict (List String) → List String → List String → List String
unfolding add_names ref_names
resolve_from tag_map result [] = result
resolve_from tag_map result (r ∷ rs) =
    resolve_from tag_map (add_names result (ref_names tag_map r)) rs

unfoldable pub resolve_client_refs : List String → Config → List String
unfolding resolve_from build_tag_map
resolve_client_refs refs cfg = resolve_from (build_tag_map cfg) [] refs
