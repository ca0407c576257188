-- ===== src/Config/Validate/Cycles/Walks.antt =====
-- What the search for cycles is about: walks along dependencies.
use canarium.Common.{
  ◌⊎◌, String, Bool, true, ◌≡◌, contains, same, if◌then◌else◌, Bool-cases, inl, inr,
}
use canarium.Common.Dict.{Dict, insert, lookup-insert}
use canarium.Config.Validate.Cycles.{Graph, deps_of, marked}

-- A client depends on another, directly.
abbrev pub Edge : Graph → String → String → Type 0
Edge g x y = contains (deps_of g x) y ≡ true

-- A client depends on another, directly or through others.
pub data DependsOn (g : Graph) : String → String → Type 0 where
  direct : {x y : String} → Edge g x y → DependsOn g x y
  through : {x y z : String} → DependsOn g x y → Edge g y z → DependsOn g x z

-- Some client depends on itself.
abbrev pub Cyclic : Graph → Type 0
Cyclic g = (x : String) × DependsOn g x x

-- Every chain of dependencies from the client ends.
pub data Grounded (g : Graph) : String → Type 0 where
  grounded : (x : String) → ((y : String) → Edge g x y → Grounded g y) → Grounded g x

pub marked-insert :
    (k x : String) (b : Bool) (m : Dict Bool)
    → marked (insert k b m) x ≡ (if same k x then b else marked m x)
marked-insert k x b m = elim (Bool-cases (same k x)) [
  | inl e ↦ rw (lookup-insert k x b m) (rw e)
  | inr e ↦ rw (lookup-insert k x b m) (rw e)
]

-- The first step of a chain of dependencies, and what is left of it.
first_step :
    (g : Graph) (x z : String)
    → DependsOn g x z
    → Edge g x z ⊎ ((y : String) × Edge g x y × DependsOn g y z)
first_step g x z (direct e) = inl e
first_step g x z (through {y = y} d e) = elim (first_step g x y d) [
  | inl f ↦ inr (y, f, direct e)
  | inr (w, f, r) ↦ inr (w, f, through r e)
]

-- A grounded client is on no cycle.
pub Grounded-no_cycle : (g : Graph) (x : String) → Grounded g x → DependsOn g x x → ⊥
Grounded-no_cycle g x (grounded _ below) d = elim (first_step g x x d) [
  | inl e ↦ Grounded-no_cycle g x (below x e) d
  | inr (y, e, r) ↦ Grounded-no_cycle g y (below y e) (through r e)
]
