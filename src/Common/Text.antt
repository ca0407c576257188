-- ===== src/Common/Text.antt =====
-- The functions of Go's `strings` that the program calls, on texts as lists of characters.
use Prim.Native.Char.{code}
use Prim.Native.String.{String}
use mathlib.Core.Bool.{Bool, true, false, ◌||◌, ◌&&◌}
use mathlib.Core.Option
use mathlib.Core.Option.{Option, none, some}
use mathlib.Core.List.{List, [], ◌∷◌}
use Prim.Native.Nat.{ℕ, ◌+◌}
use text.Mathlib.Text.{starts_with}
use canarium.Common.Tests.{leb, same, ◌==◌, if◌then◌else◌}

-- `s + t`
unfoldable pub concat : String → String → String
concat String.[] t = t
concat (String.◌∷◌ c s) t = String.◌∷◌ c (concat s t)

-- `strings.Cut(s, ".")`: the text before the first dot, the text behind it, and whether there is
-- one.
unfoldable pub cut_dot : String → String × String × Bool
cut_dot String.[] = (String.[], String.[], false)
cut_dot (String.◌∷◌ c s) =
    let (before, after, found) = cut_dot s in
    if code c == b'.' then (String.[], s, true) else (String.◌∷◌ c before, after, found)

-- `strings.HasPrefix`
abbrev pub has_prefix : String → String → Bool
has_prefix s p = starts_with s p

-- `strings.Contains`
unfoldable pub has_substring : String → String → Bool
has_substring String.[] p = has_prefix String.[] p
has_substring (String.◌∷◌ c s) p = has_prefix (String.◌∷◌ c s) p || has_substring s p

-- `unicode.IsSpace`
abbrev pub is_space : ℕ → Bool
is_space c =
    (leb 9 c && leb c 13)
    || c == 32
    || c == 0x85
    || c == 0xa0
    || c == 0x1680
    || (leb 0x2000 c && leb c 0x200a)
    || c == 0x2028
    || c == 0x2029
    || c == 0x202f
    || c == 0x205f
    || c == 0x3000

unfoldable pub trim_left : String → String
trim_left String.[] = String.[]
trim_left (String.◌∷◌ c s) =
    let rest = trim_left s in if is_space (code c) then rest else String.◌∷◌ c s

unfoldable pub trim_right : String → String
trim_right String.[] = String.[]
trim_right (String.◌∷◌ c s) =
    let rest = trim_right s in
    if same rest "" && is_space (code c) then String.[] else String.◌∷◌ c rest

-- `strings.TrimSpace`
unfoldable pub trim_space : String → String
unfolding trim_left trim_right
trim_space s = trim_right (trim_left s)

-- `strings.CutSuffix` with a suffix of one character, given by its code.
unfoldable pub cut_last : ℕ → String → Option String
cut_last d String.[] = none
cut_last d (String.◌∷◌ c String.[]) = if code c == d then some String.[] else none
cut_last d (String.◌∷◌ c (String.◌∷◌ c' s)) =
    Option.map (λ rest. String.◌∷◌ c rest) (cut_last d (String.◌∷◌ c' s))

-- The words of `strings.Fields`: `word` is the one that is being read, backwards.
unfoldable pub reverse_onto : String → String → String
reverse_onto String.[] t = t
reverse_onto (String.◌∷◌ c s) t = reverse_onto s (String.◌∷◌ c t)

unfoldable pub words_from : String → String → List String
unfolding reverse_onto
words_from word String.[] = if same word "" then [] else reverse_onto word "" ∷ []
words_from word (String.◌∷◌ c s) =
    let closed = words_from "" s in
    let longer = words_from (String.◌∷◌ c word) s in
    if is_space (code c)
    then (if same word "" then closed else reverse_onto word "" ∷ closed)
    else longer

unfoldable pub split_fields : String → List String
unfolding words_from
split_fields s = words_from "" s

-- `strings.TrimPrefix`, for a prefix that is there.
unfoldable pub drop_prefix : String → String → String
drop_prefix s String.[] = s
drop_prefix String.[] (String.◌∷◌ d p) = String.[]
drop_prefix (String.◌∷◌ c s) (String.◌∷◌ d p) = drop_prefix s p

-- The code that `unicode.ToLower` gives, exact wherever that is an ASCII code.
abbrev pub lower_code : ℕ → ℕ
lower_code c =
    if leb b'A' c && leb c b'Z'
    then c + 32
    else if c == 0x130
    then b'i'
    else if c == 0x212a
    then b'k'
    else c

-- Whether `strings.ToLower(s)` is the ASCII text `w`.
unfoldable pub lower_is : String → String → Bool
lower_is String.[] String.[] = true
lower_is (String.◌∷◌ c s) (String.◌∷◌ d w) = lower_code (code c) == code d && lower_is s w
lower_is _ _ = false
