-- ===== src/Facts/Format.antt =====
-- `fmt.Sprintf("%v", value)` for the values that facts carry.
use canarium.Common.{
  ℕ, zero, suc, ◌/◌, ◌%◌, String, true, false, List, [], ◌∷◌, ltb, ◌==◌, if◌then◌else◌,
}
use canarium.Common.Int.{ℤ, pos, negsuc}
use canarium.Common.Text.{concat}
use canarium.Facts.Types.{
  Value, nil, float64, float32, int, int32, int64, truth, text, texts, anys, other, Values,
  none_left, item,
}

-- The shortest decimal of a float, which `strconv` chooses.
pub record FloatFormat : Type 0 where
  pub format64 : ℕ → String
  pub format32 : ℕ → String

digit : ℕ → String
digit n =
    if n == 0
    then "0"
    else if n == 1
    then "1"
    else if n == 2
    then "2"
    else if n == 3
    then "3"
    else if n == 4
    then "4"
    else if n == 5
    then "5"
    else if n == 6
    then "6"
    else if n == 7
    then "7"
    else if n == 8
    then "8"
    else "9"

-- `fuel` is more than the number of digits.
decimal_onto : ℕ → ℕ → String → String
unfolding digit
decimal_onto zero n rest = rest
decimal_onto (suc fuel) n rest =
    let shown = concat (digit (n % 10)) rest in
    let longer = decimal_onto fuel (n / 10) shown in if ltb n 10 then shown else longer

unfoldable pub decimal : ℤ → String
unfolding decimal_onto
decimal (pos n) = decimal_onto (suc n) n ""
decimal (negsuc n) = concat "-" (decimal_onto (suc (suc n)) (suc n) "")

unfoldable pub join_spaced : List String → String
join_spaced [] = ""
join_spaced (s ∷ []) = s
join_spaced (s ∷ t ∷ ss) = concat s (concat " " (join_spaced (t ∷ ss)))

unfoldable mutual
  pub sprint : FloatFormat → Value → String
  sprint f nil = "<nil>"
  sprint f (float64 b) = f.format64 b
  sprint f (float32 b) = f.format32 b
  sprint f (int n) = decimal n
  sprint f (int32 n) = decimal n
  sprint f (int64 n) = decimal n
  sprint f (truth true) = "true"
  sprint f (truth false) = "false"
  sprint f (text s) = s
  sprint f (texts ss) = concat "[" (concat (join_spaced ss) "]")
  sprint f (anys vs) = concat "[" (concat (join_spaced (sprint_items f vs)) "]")
  sprint f (other s) = s

  pub sprint_items : FloatFormat → Values → List String
  sprint_items f none_left = []
  sprint_items f (item v vs) = sprint f v ∷ sprint_items f vs
