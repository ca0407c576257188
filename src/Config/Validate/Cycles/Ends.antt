-- ===== src/Config/Validate/Cycles/Ends.antt =====
-- The search for cycles ends: each call enters a node that was not visited.
use canarium.Common.Dict.{lookup, insert, Dict}
use canarium.Config.Validate.Cycles.{
  deps_of, enter, search_from, names_in, forget_found, unless_found, marked, Graph, Answer,
  has_cycle, Search, visit_deps,
}
use canarium.Common.{
  ℕ, zero, suc, same_refl, ◌≤◌, ◌<◌, String, Bool, true, false, List, [], ◌∷◌, ◌++◌, Option, none,
  some, ◌≡◌, ◌≢◌, arith, contains, same, eq_iff, if◌then◌else◌, Bool-cases, length, inl, inr,
}
use canarium.Config.Validate.Cycles.Walks.{Edge, marked-insert}

-- How many of the names have not been visited.
abbrev unvisited : Dict Bool → List String → ℕ
unvisited m [] = 0
unvisited m (n ∷ ns) = if marked m n then unvisited m ns else suc (unvisited m ns)

-- No mark is lost from one map to the other.
abbrev Grows : Dict Bool → Dict Bool → Type 0
Grows m m' = (x : String) → marked m x ≡ true → marked m' x ≡ true

unvisited-Grows :
    (m m' : Dict Bool) (ns : List String) → Grows m m' → unvisited m' ns ≤ unvisited m ns
unvisited-Grows m m' [] g = omega arith
unvisited-Grows m m' (n ∷ ns) g = ground (arith, unvisited-Grows m m' ns g, g n)

Grows-insert : (m : Dict Bool) (k : String) → Grows m (insert k true m)
Grows-insert m k x h = ground (arith, marked-insert k x true m)

-- A mark on a name that counted lowers the count.
unvisited-insert :
    (m : Dict Bool) (k : String) (ns : List String)
    → contains ns k ≡ true
    → marked m k ≡ false
    → unvisited (insert k true m) ns < unvisited m ns
unvisited-insert m k [] c h = cc
unvisited-insert m k (n ∷ ns) c h = ground (
  arith,
  marked-insert k n true m,
  unvisited-insert m k ns,
  unvisited-Grows m (insert k true m) ns (Grows-insert m k),
  eq_iff n k,
  eq_iff k n,
)

unvisited-le : (m : Dict Bool) (ns : List String) → unvisited m ns ≤ length ns
unvisited-le m [] = omega arith
unvisited-le m (n ∷ ns) = ground (arith, unvisited-le m ns)

-- The call has an answer, and loses no mark.
abbrev Answers : Search → Answer → Type 0
Answers s none = ⊥
Answers s (some (_, t)) = Grows s.visited t.visited

abbrev Enters : List String → ℕ → (String → Search → Answer) → Type 0
Enters ns fuel visit =
    (x : String) (s : Search)
    → unvisited (insert x true s.visited) ns < fuel
    → Answers s (visit x s)

Answers-Grows : (s t : Search) (a : Answer) → Grows s.visited t.visited → Answers t a → Answers s a
Answers-Grows s t none g w = w
Answers-Grows s t (some (_, u)) g w = λ x h. w x (g x h)

Answers-unless_found :
    (s : Search) (r : Answer) (rest : Search → Answer)
    → Answers s r
    → ((t : Search) → Grows s.visited t.visited → Answers t (rest t))
    → Answers s (unless_found r rest)
Answers-unless_found s none rest m k = m
Answers-unless_found s (some (true, t)) rest m k = m
Answers-unless_found s (some (false, t)) rest m k = Answers-Grows s t (rest t) m (k t m)

visit_deps-Answers :
    (ns : List String) (fuel : ℕ) (visit : String → Search → Answer) (node : String)
    (ds : List String) (s : Search)
    → Enters ns fuel visit
    → ((y : String) → contains ds y ≡ true → contains ns y ≡ true)
    → unvisited s.visited ns ≤ fuel
    → Answers s (visit_deps visit node ds s)
unfolding visit_deps
visit_deps-Answers ns fuel visit node [] s v sub le = λ x h. h
visit_deps-Answers ns fuel visit node (d ∷ ds) s v sub le =
    let tail = λ (y : String) (m : contains ds y ≡ true). sub y (ground (arith, m)) in
    elim (Bool-cases (marked s.visited d)) [
      | inl old ↦ elim (Bool-cases (marked s.path d)) [
        | inl on ↦ rw old (rw on (λ x h. h))
        | inr off ↦ rw old (rw off (visit_deps-Answers ns fuel visit node ds s v tail le))
      ]
      | inr new ↦
          let less = unvisited-insert s.visited d ns (sub d (ground (arith, same_refl d))) new in
          rw new (
            Answers-unless_found s (visit d s) _ (v d s (omega (arith, less, le))) (λ t w.
              visit_deps-Answers ns fuel visit node ds t v tail
                (omega (arith, unvisited-Grows s.visited t.visited ns w, le))))
    ]

has_cycle-Answers :
    (g : Graph) (ns : List String)
    → ((x y : String) → Edge g x y → contains ns y ≡ true)
    → (fuel : ℕ) → Enters ns fuel (has_cycle g fuel)
unfolding has_cycle
has_cycle-Answers g ns sub zero x s h = absurd (omega arith)
has_cycle-Answers g ns sub (suc fuel) x s h =
    Answers-unless_found s _ _
      (Answers-Grows s (enter x s) _ (Grows-insert s.visited x) (
        visit_deps-Answers ns fuel (has_cycle g fuel) x (deps_of g x) (enter x s)
          (has_cycle-Answers g ns sub fuel) (sub x) (omega (arith, h))))
      (λ t w y m. m)

contains-append_left :
    (xs ys : List String) (s : String) → contains xs s ≡ true → contains (xs ++ ys) s ≡ true
contains-append_left [] ys s h = cc
contains-append_left (x ∷ xs) ys s h = ground (arith, contains-append_left xs ys s)

contains-append_right :
    (xs ys : List String) (s : String) → contains ys s ≡ true → contains (xs ++ ys) s ≡ true
contains-append_right [] ys s h = h
contains-append_right (x ∷ xs) ys s h = ground (arith, contains-append_right xs ys s)

-- The names in a graph include every dependency.
contains-names_in : (g : Graph) (x y : String) → Edge g x y → contains (names_in g) y ≡ true
unfolding names_in lookup
contains-names_in [] x y e = cc
contains-names_in ((n, ds) ∷ rows) x y e = elim (Bool-cases (same n x)) [
  | inl here ↦ ground (arith, contains-append_left ds (names_in rows) y (rw here at e))
  | inr there ↦ ground (
    arith,
    contains-append_right ds (names_in rows) y (contains-names_in rows x y (rw there at e)),
  )
]

forget_found-ne-none :
    (s : Search) (a : Answer) (rest : Search → Option Search)
    → Answers s a
    → ((t : Search) → rest t ≢ none)
    → forget_found a rest ≢ none
forget_found-ne-none s none rest w k = absurd w
forget_found-ne-none s (some (_, t)) rest w k = k t

-- Fuel for every name that the graph mentions is enough.
pub search_from-ne-none :
    (g : Graph) (roots : List String) (s : Search)
    → search_from g (suc (length (names_in g))) roots s ≢ none
unfolding search_from
search_from-ne-none g [] s = λ e. cc
search_from-ne-none g (r ∷ rs) s = elim (Bool-cases (marked s.visited r)) [
  | inl old ↦ rw old (search_from-ne-none g rs s)
  | inr new ↦ rw new (
      forget_found-ne-none s (has_cycle g (suc (length (names_in g))) r s) _
        (has_cycle-Answers g (names_in g) (contains-names_in g) (suc (length (names_in g))) r s
          (omega (arith, unvisited-le (insert r true s.visited) (names_in g))))
        (λ t. search_from-ne-none g rs t))
]
