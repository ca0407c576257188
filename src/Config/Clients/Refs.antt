-- ===== src/Config/Clients/Refs.antt =====
-- The names that references resolve to (`ResolveClientRefs`, internal/config/validate.go).
use canarium.Common.{
  ◌≡◌, refl, String, Bool, false, ◌||◌, List, [], ◌∷◌, ◌++◌, arith, same, contains, eq_iff,
  Bool-cases, inl, inr,
}
use canarium.Common.Dict.{Dict}
use canarium.Config.Clients.{
  build_tag_map, Config, resolve_from, resolve_client_refs, add_name, add_names, ref_names,
}

-- No name stands twice.
abbrev pub NoRepeats : List String → Type 0
NoRepeats [] = Unit
NoRepeats (n ∷ ns) = (contains ns n ≡ false) × NoRepeats ns

contains-append :
    (xs ys : List String) (s : String) → contains (xs ++ ys) s ≡ contains xs s || contains ys s
contains-append [] ys s = refl
contains-append (x ∷ xs) ys s = ground (arith, contains-append xs ys s)

append_new :
    (ns : List String) (n : String)
    → NoRepeats ns
    → contains ns n ≡ false
    → NoRepeats (ns ++ (n ∷ []))
append_new [] n w h = (refl, tt)
append_new (m ∷ ns) n w h =
    ground (arith, append_new ns n w.1, contains-append ns (n ∷ []) m, eq_iff n m, eq_iff m n)

add_name-NoRepeats : (ns : List String) (n : String) → NoRepeats ns → NoRepeats (add_name ns n)
unfolding add_name
add_name-NoRepeats ns n w = elim (Bool-cases (contains ns n)) [
  | inl old ↦ rw old w
  | inr new ↦ rw new (append_new ns n w new)
]

contains-add_name :
    (ns : List String) (n s : String) → contains (add_name ns n) s ≡ contains ns s || same n s
unfolding add_name
contains-add_name ns n s = ground (arith, contains-append ns (n ∷ []) s, eq_iff n s)

pub add_names-NoRepeats : (ns ms : List String) → NoRepeats ns → NoRepeats (add_names ns ms)
unfolding add_names
add_names-NoRepeats ns [] w = w
add_names-NoRepeats ns (m ∷ ms) w =
    add_names-NoRepeats (add_name ns m) ms (add_name-NoRepeats ns m w)

pub contains-add_names :
    (ns ms : List String) (s : String)
    → contains (add_names ns ms) s ≡ contains ns s || contains ms s
unfolding add_names
contains-add_names ns [] s = ground arith
contains-add_names ns (m ∷ ms) s =
    ground (arith, contains-add_names (add_name ns m) ms s, contains-add_name ns m s)

-- Whether some reference stands for the name.
abbrev pub refers_to : Dict (List String) → List String → String → Bool
refers_to tag_map [] s = false
refers_to tag_map (r ∷ rs) s = contains (ref_names tag_map r) s || refers_to tag_map rs s

resolve_from-NoRepeats :
    (m : Dict (List String)) (ns rs : List String) → NoRepeats ns → NoRepeats (resolve_from m ns rs)
unfolding resolve_from
resolve_from-NoRepeats m ns [] w = w
resolve_from-NoRepeats m ns (r ∷ rs) w =
    resolve_from-NoRepeats m (add_names ns (ref_names m r)) rs
      (add_names-NoRepeats ns (ref_names m r) w)

contains-resolve_from :
    (m : Dict (List String)) (ns rs : List String) (s : String)
    → contains (resolve_from m ns rs) s ≡ contains ns s || refers_to m rs s
unfolding resolve_from
contains-resolve_from m ns [] s = ground arith
contains-resolve_from m ns (r ∷ rs) s = ground (
  arith,
  contains-resolve_from m (add_names ns (ref_names m r)) rs s,
  contains-add_names ns (ref_names m r) s,
)

-- Resolved references name every client that some reference stands for, no other, and none twice.
pub resolve_client_refs_lem :
    (refs : List String) (cfg : Config) (s : String)
    → NoRepeats (resolve_client_refs refs cfg)
      × (contains (resolve_client_refs refs cfg) s ≡ refers_to (build_tag_map cfg) refs s)
unfolding resolve_client_refs
resolve_client_refs_lem refs cfg s = (
  resolve_from-NoRepeats (build_tag_map cfg) [] refs tt,
  contains-resolve_from (build_tag_map cfg) [] refs s,
)
