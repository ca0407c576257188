-- ===== src/Common/Dict.antt =====
-- A Go map with text keys, as an association list. Iteration order is not used by any model.
use canarium.Common.Tests.{same, if◌then◌else◌, same_refl, same_ne}
use Prim.Native.String.{String}
use mathlib.Core.Path.{◌≡◌, refl}
use mathlib.Core.Logic.{◌≢◌}
use mathlib.Core.Option.{Option, none, some}
use mathlib.Core.List.{List, [], ◌∷◌}
use native.Mathlib.Omega.{arith}
use text.Mathlib.TextEquality.{eq_iff}

abbrev pub Dict {ℓ} : Type ℓ → Type ℓ
Dict V = List (String × V)

module _ {ℓ} {V : Type ℓ} where
  unfoldable pub lookup : String → Dict V → Option V
  lookup key [] = none
  lookup key ((top, value) ∷ rows) = if same top key then some value else lookup key rows

  -- `m[key] = value`
  unfoldable pub insert : String → V → Dict V → Dict V
  insert key value [] = (key, value) ∷ []
  insert key value ((top, old) ∷ rows) =
      let below = insert key value rows in
      if same top key then (key, value) ∷ rows else (top, old) ∷ below

  -- `delete(m, key)`
  unfoldable pub erase : String → Dict V → Dict V
  erase key [] = []
  erase key ((top, value) ∷ rows) =
      let below = erase key rows in if same top key then below else (top, value) ∷ below

  pub lookup-insert :
      (key wanted : String) (value : V) (rows : Dict V)
      → lookup wanted (insert key value rows)
        ≡ (if same key wanted then some value else lookup wanted rows)
  unfolding lookup insert
  lookup-insert key wanted value [] = refl
  lookup-insert key wanted value ((top, old) ∷ rows) = ground (
    arith,
    lookup-insert key wanted value rows,
    eq_iff top wanted,
    eq_iff top key,
    eq_iff key wanted,
  )

  pub lookup-erase :
      (key wanted : String) (rows : Dict V)
      → lookup wanted (erase key rows) ≡ (if same key wanted then none else lookup wanted rows)
  unfolding lookup erase
  lookup-erase key wanted [] = ground arith
  lookup-erase key wanted ((top, old) ∷ rows) =
      ground
        (arith, lookup-erase key wanted rows, eq_iff top wanted, eq_iff top key, eq_iff key wanted)

  pub lookup-insert_self : (k : String) (v : V) (m : Dict V) → lookup k (insert k v m) ≡ some v
  lookup-insert_self k v m = simp (lookup-insert, same_refl)

  pub lookup-insert_ne :
      (k j : String) (v : V) (m : Dict V) → k ≢ j → lookup j (insert k v m) ≡ lookup j m
  lookup-insert_ne k j v m h = rw (lookup-insert k j v m) (rw (same_ne k j h))

  pub lookup-erase_self : (k : String) (m : Dict V) → lookup k (erase k m) ≡ none
  lookup-erase_self k m = simp (lookup-erase, same_refl)

  pub lookup-erase_ne : (k j : String) (m : Dict V) → k ≢ j → lookup j (erase k m) ≡ lookup j m
  lookup-erase_ne k j m h = rw (lookup-erase k j m) (rw (same_ne k j h))
