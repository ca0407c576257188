-- ===== src/Config/Validate/Cycles/Verdict.antt =====
-- The search over every root reports a cycle exactly if there is one.
use canarium.Common.Dict.{lookup}
use canarium.Config.Validate.Cycles.{
  new_search, forget_found, search_from, has_cycle, deps_of, enter, unless_found, marked, Answer,
  Search, visit_deps, Graph,
}
use canarium.Common.{
  ◌∙◌, ℕ, zero, suc, String, true, false, List, [], ◌∷◌, Option, none, some, ◌≡◌, refl, contains,
  is_nil, Bool-cases, ◌⊎◌, inl, inr,
}
use canarium.Config.Validate.Cycles.Walks.{Cyclic, Grounded}
use canarium.Config.Validate.Cycles.Sound.{
  AllGrounded, Found, Inv, Kept, Meets, all_grounded, has_cycle-Meets,
}

-- A search with an empty path that has reported nothing.
record Clean (g : Graph) (s : Search) : Type 0 where
  inv : Inv g s
  no_path : (x : String) → marked s.path x ≡ false
  no_reports : s.reports ≡ []

-- A cycle that has been reported stays reported.
abbrev Reported : Answer → Type 0
Reported none = Unit
Reported (some (_, t)) = is_nil t.reports ≡ false

abbrev Reports : (String → Search → Answer) → Type 0
Reports visit = (x : String) (s : Search) → is_nil s.reports ≡ false → Reported (visit x s)

Reported-unless_found :
    (r : Answer) (rest : Search → Answer)
    → Reported r
    → ((t : Search) → is_nil t.reports ≡ false → Reported (rest t))
    → Reported (unless_found r rest)
Reported-unless_found none rest m k = tt
Reported-unless_found (some (true, t)) rest m k = m
Reported-unless_found (some (false, t)) rest m k = k t m

visit_deps-Reported :
    (visit : String → Search → Answer) (node : String) (ds : List String) (s : Search)
    → Reports visit
    → is_nil s.reports ≡ false
    → Reported (visit_deps visit node ds s)
unfolding visit_deps
visit_deps-Reported visit node [] s v h = h
visit_deps-Reported visit node (d ∷ ds) s v h = elim (Bool-cases (marked s.visited d)) [
  | inl old ↦ elim (Bool-cases (marked s.path d)) [
    | inl on ↦ rw old (rw on refl)
    | inr off ↦ rw old (rw off (visit_deps-Reported visit node ds s v h))
  ]
  | inr new ↦ rw new (
      Reported-unless_found (visit d s) _ (v d s h)
        (λ t r. visit_deps-Reported visit node ds t v r))
]

has_cycle-Reported : (g : Graph) (fuel : ℕ) → Reports (has_cycle g fuel)
unfolding has_cycle
has_cycle-Reported g zero node s h = tt
has_cycle-Reported g (suc fuel) node s h =
    Reported-unless_found _ _
      (visit_deps-Reported (has_cycle g fuel) node (deps_of g node) (enter node s)
        (has_cycle-Reported g fuel) h)
      (λ t r. r)

-- What the loop over the roots must establish.
abbrev Decides : Graph → List String → Option Search → Type 0
Decides g roots none = Unit
Decides g roots (some t) = (is_nil t.reports ≡ true) × AllGrounded g roots ⊎ Found g t

module _ (g : Graph) (all : List String) (rest : Search → Option Search) where
  Decides-Reported :
      (a : Answer)
      → Reported a
      → ((t : Search) → is_nil t.reports ≡ false → Decides g all (rest t))
      → Decides g all (forget_found a rest)
  Decides-Reported none m k = tt
  Decides-Reported (some (_, t)) m k = k t m

  Decides-Meets :
      (s : Search) (P : Type 0) (a : Answer)
      → Meets g s P a
      → ((t : Search) → Found g t → Decides g all (rest t))
      → ((t : Search) → Kept g s t → P → Decides g all (rest t))
      → Decides g all (forget_found a rest)
  Decides-Meets s P none m f k = tt
  Decides-Meets s P (some (true, t)) m f k = f t m
  Decides-Meets s P (some (false, t)) (w, p) f k = k t w p

-- Once a cycle is found, the loop goes on and keeps the report.
Decides-Found :
    (g : Graph) (fuel : ℕ) (roots all : List String) (s : Search)
    → Found g s
    → Decides g all (search_from g fuel roots s)
unfolding search_from
Decides-Found g fuel [] all s f = inr f
Decides-Found g fuel (r ∷ rs) all s f = elim (Bool-cases (marked s.visited r)) [
  | inl old ↦ rw old (Decides-Found g fuel rs all s f)
  | inr new ↦ rw new (
      Decides-Reported g all _ (has_cycle g fuel r s) (has_cycle-Reported g fuel r s f.1)
        (λ t m. Decides-Found g fuel rs all t (f.0, m)))
]

Decides-cons :
    (g : Graph) (x : String) (roots : List String) (r : Option Search)
    → Grounded g x
    → Decides g roots r
    → Decides g (x ∷ roots) r
Decides-cons g x roots none w d = tt
Decides-cons g x roots (some t) w (inl (q, ws)) = inl (q, (w, ws))
Decides-cons g x roots (some t) w (inr f) = inr f

Clean-Kept : (g : Graph) (s t : Search) → Clean g s → Kept g s t → Clean g t
Clean-Kept g s t c k = record {
  inv = k.inv;
  no_path = λ x. k.same_path x ∙ c.no_path x;
  no_reports = k.quiet ∙ c.no_reports;
}

search_from-Decides :
    (g : Graph) (fuel : ℕ) (roots : List String) (s : Search)
    → Clean g s
    → Decides g roots (search_from g fuel roots s)
unfolding search_from
search_from-Decides g fuel [] s c = inl (rw c.no_reports refl, tt)
search_from-Decides g fuel (r ∷ rs) s c = elim (Bool-cases (marked s.visited r)) [
  | inl old ↦
      rw old
        (Decides-cons g r rs _ (c.inv.left r old (c.no_path r)) (search_from-Decides g fuel rs s c))
  | inr new ↦ rw new (
      Decides-Meets g (r ∷ rs) _ s (Grounded g r) (has_cycle g fuel r s)
        (has_cycle-Meets g fuel r s c.inv new (λ p m. cc (c.no_path p)))
        (λ t f. Decides-Found g fuel rs (r ∷ rs) t f)
        (λ t k w. Decides-cons g r rs _ w (search_from-Decides g fuel rs t (Clean-Kept g s t c k))))
]

new_search-Clean : (g : Graph) → Clean g new_search
unfolding lookup
new_search-Clean g = record {
  inv = record { entered = λ x m. cc; left = λ x m p. cc };
  no_path = λ x. refl;
  no_reports = refl;
}

-- What a search from an empty state over the roots has found.
pub search_result :
    (g : Graph) (fuel : ℕ) (roots : List String) (t : Search)
    → search_from g fuel roots new_search ≡ some t
    → (is_nil t.reports ≡ true) × ((x : String) → contains roots x ≡ true → Grounded g x)
      ⊎ (is_nil t.reports ≡ false) × Cyclic g
search_result g fuel roots t e =
    go (rw e at (search_from-Decides g fuel roots new_search (new_search-Clean g)))
  where
    go :
        Decides g roots (some t)
        → (is_nil t.reports ≡ true) × ((x : String) → contains roots x ≡ true → Grounded g x)
          ⊎ (is_nil t.reports ≡ false) × Cyclic g
    go (inl (q, w)) = inl (q, all_grounded g roots w)
    go (inr (c, q)) = inr (q, c)
