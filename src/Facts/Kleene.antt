-- ===== src/Facts/Kleene.antt =====
-- The three-valued logic of internal/facts/types.go, against the order false < unavailable < true.
use Prim.Native.Nat.{min, max}
use canarium.Common.{true, ℕ, ◌-◌, ◌≡◌, ◌⊎◌, arith}
use canarium.Facts.Types.{
  is_false, is_true, Trilean, unavailable, definite_false, definite_true, and, or, negate,
}

abbrev pub rank : Trilean → ℕ
rank definite_false = 0
rank unavailable = 1
rank definite_true = 2

-- `And` is the smaller operand, `Or` the larger, and `Not` turns the order round: Kleene's logic.
kleene_order :
    (a b : Trilean)
    → (rank (and a b) ≡ min (rank a) (rank b))
      × (rank (or a b) ≡ max (rank a) (rank b))
      × (rank (negate a) ≡ 2 - rank a)
unfolding and or negate
kleene_order definite_false definite_false = omega arith
kleene_order definite_false unavailable = omega arith
kleene_order definite_false definite_true = omega arith
kleene_order unavailable definite_false = omega arith
kleene_order unavailable unavailable = omega arith
kleene_order unavailable definite_true = omega arith
kleene_order definite_true definite_false = omega arith
kleene_order definite_true unavailable = omega arith
kleene_order definite_true definite_true = omega arith

-- `a` says no more than `b`: it is unavailable, or it is `b`.
infix 4 ◌⊑◌
abbrev pub ◌⊑◌ : Trilean → Trilean → Type 0
a ⊑ b = (a ≡ unavailable) ⊎ (a ≡ b)

pub and-⊑ : (a a' b b' : Trilean) → a ⊑ a' → b ⊑ b' → and a b ⊑ and a' b'
unfolding and
and-⊑ a a' b b' p q = ground arith

pub or-⊑ : (a a' b b' : Trilean) → a ⊑ a' → b ⊑ b' → or a b ⊑ or a' b'
unfolding or
or-⊑ a a' b b' p q = ground arith

pub negate-⊑ : (a a' : Trilean) → a ⊑ a' → negate a ⊑ negate a'
unfolding negate
negate-⊑ a a' p = ground arith

pub and_false_left : (b : Trilean) → and definite_false b ≡ definite_false
unfolding and
and_false_left b = ground arith

pub or_true_left : (b : Trilean) → or definite_true b ≡ definite_true
unfolding or
or_true_left b = ground arith

pub and_assoc : (a b c : Trilean) → and (and a b) c ≡ and a (and b c)
unfolding and
and_assoc a b c = ground arith

pub or_assoc : (a b c : Trilean) → or (or a b) c ≡ or a (or b c)
unfolding or
or_assoc a b c = ground arith

pub and_true_right : (a : Trilean) → and a definite_true ≡ a
unfolding and
and_true_right a = ground arith

pub or_false_right : (a : Trilean) → or a definite_false ≡ a
unfolding or
or_false_right a = ground arith

pub and_true_left : (a : Trilean) → and definite_true a ≡ a
unfolding and
and_true_left a = ground arith

pub or_false_left : (a : Trilean) → or definite_false a ≡ a
unfolding or
or_false_left a = ground arith

-- A conjunction that is false already stays false, and a disjunction that is true stays true.
pub and_cut : (a b c : Trilean) → is_false (and a b) ≡ true → definite_false ≡ and a (and b c)
unfolding and
and_cut a b c h = ground arith

pub or_cut : (a b c : Trilean) → is_true (or a b) ≡ true → definite_true ≡ or a (or b c)
unfolding or
or_cut a b c h = ground arith
