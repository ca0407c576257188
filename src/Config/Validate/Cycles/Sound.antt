-- ===== src/Config/Validate/Cycles/Sound.antt =====
-- What a call of `hasCycle` establishes (internal/config/validate.go).
use canarium.Common.Dict.{insert}
use canarium.Config.Validate.Cycles.{
  has_cycle, leave, deps_of, enter, unless_found, marked, Answer, Search, visit_deps, Graph,
}
use canarium.Common.{
  sym, ◌∙◌, ℕ, zero, suc, String, true, false, List, [], ◌∷◌, none, some, ◌≡◌, refl, arith,
  contains, same, eq_iff, same_refl, is_nil, Bool-cases, ◌⊎◌, inl, inr,
}
use canarium.Config.Validate.Cycles.Walks.{
  marked-insert, Cyclic, Edge, DependsOn, direct, through, Grounded, grounded,
}

-- A node that has been left is grounded, and one that has not been left has been entered.
pub record Inv (g : Graph) (s : Search) : Type 0 where
  pub entered : (x : String) → marked s.path x ≡ true → marked s.visited x ≡ true
  pub left : (x : String) → marked s.visited x ≡ true → marked s.path x ≡ false → Grounded g x

-- The call found nothing: it leaves the path as it was.
pub record Kept (g : Graph) (s s' : Search) : Type 0 where
  pub inv : Inv g s'
  pub same_path : (x : String) → marked s'.path x ≡ marked s.path x
  pub grown : (x : String) → marked s.visited x ≡ true → marked s'.visited x ≡ true
  pub quiet : s'.reports ≡ s.reports

abbrev pub Found : Graph → Search → Type 0
Found g s' = Cyclic g × (is_nil s'.reports ≡ false)

-- What a call of `hasCycle` from state `s` must answer, with what it has established.
abbrev pub Meets : Graph → Search → Type 0 → Answer → Type 0
Meets g s P none = Unit
Meets g s P (some (true, s')) = Found g s'
Meets g s P (some (false, s')) = Kept g s s' × P

-- Every node on the path depends on the node.
abbrev Above : Graph → Search → String → Type 0
Above g s node = (p : String) → marked s.path p ≡ true → DependsOn g p node

-- The node is on the path, and what else is depends on it.
abbrev OnTop : Graph → Search → String → Type 0
OnTop g s node = (p : String) → marked s.path p ≡ true → (p ≡ node) ⊎ DependsOn g p node

abbrev pub AllGrounded : Graph → List String → Type 0
AllGrounded g [] = Unit
AllGrounded g (d ∷ ds) = Grounded g d × AllGrounded g ds

abbrev Visits : Graph → (String → Search → Answer) → Type 0
Visits g visit =
    (x : String) (s : Search)
    → Inv g s
    → marked s.visited x ≡ false
    → Above g s x
    → Meets g s (Grounded g x) (visit x s)

Above-Edge : (g : Graph) (s : Search) (x y : String) → OnTop g s x → Edge g x y → Above g s y
Above-Edge g s x y top e p m = elim (top p m) [
  | inl here ↦ rw here (direct e)
  | inr d ↦ through d e
]

Kept-refl : (g : Graph) (s : Search) → Inv g s → Kept g s s
Kept-refl g s i = record { inv = i; same_path = λ x. refl; grown = λ x m. m; quiet = refl }

Kept-trans : (g : Graph) (s t u : Search) → Kept g s t → Kept g t u → Kept g s u
Kept-trans g s t u a b = record {
  inv = b.inv;
  same_path = λ x. b.same_path x ∙ a.same_path x;
  grown = λ x m. b.grown x (a.grown x m);
  quiet = b.quiet ∙ a.quiet;
}

OnTop-Kept : (g : Graph) (s t : Search) (x : String) → Kept g s t → OnTop g s x → OnTop g t x
OnTop-Kept g s t x k top p m = top p (ground (arith, k.same_path p))

Meets-trans :
    (g : Graph) (s t : Search) (P Q : Type 0) (r : Answer)
    → Kept g s t
    → (P → Q)
    → Meets g t P r
    → Meets g s Q r
Meets-trans g s t P Q none k f m = tt
Meets-trans g s t P Q (some (true, u)) k f m = m
Meets-trans g s t P Q (some (false, u)) k f m = (Kept-trans g s t u k m.0, f m.1)

Meets-unless_found :
    (g : Graph) (s : Search) (P Q : Type 0) (r : Answer) (rest : Search → Answer)
    → Meets g s P r
    → ((t : Search) → Kept g s t → P → Meets g s Q (rest t))
    → Meets g s Q (unless_found r rest)
Meets-unless_found g s P Q none rest m k = tt
Meets-unless_found g s P Q (some (true, t)) rest m k = m
Meets-unless_found g s P Q (some (false, t)) rest m k = k t m.0 m.1

abbrev Edges : Graph → String → List String → Type 0
Edges g node ds = (y : String) → contains ds y ≡ true → Edge g node y

Edges-tail :
    (g : Graph) (node d : String) (ds : List String) → Edges g node (d ∷ ds) → Edges g node ds
Edges-tail g node d ds h y m = h y (ground (arith, m))

Edges-head :
    (g : Graph) (node d : String) (ds : List String) → Edges g node (d ∷ ds) → Edge g node d
Edges-head g node d ds h = h d (ground (arith, same_refl d))

on_path_closes :
    (g : Graph) (s : Search) (node d : String)
    → OnTop g s node
    → Edge g node d
    → marked s.path d ≡ true
    → Cyclic g
on_path_closes g s node d top e m = elim (top d m) [
  | inl here ↦ (node, direct (rw here at e))
  | inr w ↦ (d, through w e)
]

visit_deps-Meets :
    (g : Graph) (visit : String → Search → Answer)
    → Visits g visit
    → (node : String) (ds : List String) (s : Search) → Inv g s
    → OnTop g s node
    → Edges g node ds
    → Meets g s (AllGrounded g ds) (visit_deps visit node ds s)
unfolding visit_deps
visit_deps-Meets g visit v node [] s i top es = (Kept-refl g s i, tt)
visit_deps-Meets g visit v node (d ∷ ds) s i top es = elim (Bool-cases (marked s.visited d)) [
  | inl old ↦ elim (Bool-cases (marked s.path d)) [
    | inl on ↦ rw old (rw on (on_path_closes g s node d top (Edges-head g node d ds es) on, refl))
    | inr off ↦ rw old (
        rw off (
          Meets-trans g s s (AllGrounded g ds) (AllGrounded g (d ∷ ds)) _ (Kept-refl g s i)
            (λ rest. (i.left d old off, rest))
            (visit_deps-Meets g visit v node ds s i top (Edges-tail g node d ds es))))
  ]
  | inr new ↦ rw new (
      Meets-unless_found g s (Grounded g d) (AllGrounded g (d ∷ ds)) (visit d s) _
        (v d s i new (Above-Edge g s node d top (Edges-head g node d ds es)))
        (λ t k w.
          Meets-trans g s t (AllGrounded g ds) (AllGrounded g (d ∷ ds)) _ k (λ rest. (w, rest))
            (visit_deps-Meets g visit v node ds t k.inv (OnTop-Kept g s t node k top)
              (Edges-tail g node d ds es))))
]

enter-Inv : (g : Graph) (s : Search) (node : String) → Inv g s → Inv g (enter node s)
enter-Inv g s node i = record {
  entered = λ x m. ground (
    arith,
    i.entered x,
    marked-insert node x true s.path,
    marked-insert node x true s.visited,
    m,
  );
  left = λ x m p.
      i.left x
        (ground
          (arith, marked-insert node x true s.path, marked-insert node x true s.visited, m, p))
        (ground
          (arith, marked-insert node x true s.path, marked-insert node x true s.visited, m, p));
}

enter-OnTop :
    (g : Graph) (s : Search) (node : String) → Above g s node → OnTop g (enter node s) node
enter-OnTop g s node a p m = elim (Bool-cases (same node p)) [
  | inl e ↦ inl (sym ((eq_iff node p).0 e))
  | inr e ↦ inr (a p (ground (arith, marked-insert node p true s.path, m)))
]

pub all_grounded :
    (g : Graph) (ds : List String)
    → AllGrounded g ds
    → (y : String) → contains ds y ≡ true
    → Grounded g y
all_grounded g [] w y m = cc
all_grounded g (d ∷ ds) w y m = elim (Bool-cases (same d y)) [
  | inl e ↦ rw ((eq_iff d y).0 e) at w.0
  | inr e ↦ all_grounded g ds w.1 y (rw e at m)
]

off_path :
    (g : Graph) (s : Search) (x : String)
    → Inv g s
    → marked s.visited x ≡ false
    → marked s.path x ≡ false
off_path g s x i new = ground (arith, i.entered x)

leave-Kept :
    (g : Graph) (s t : Search) (node : String)
    → Inv g s
    → marked s.visited node ≡ false
    → Kept g (enter node s) t
    → Grounded g node
    → Kept g s (record t { path = insert node false t.path })
leave-Kept g s t node i new k w = record {
  inv = record {
    entered = λ x m. ground (arith, k.inv.entered x, marked-insert node x false t.path, m);
    left = λ x m p. elim (Bool-cases (same node x)) [
      | inl e ↦ rw ((eq_iff node x).0 e) at w
      | inr e ↦ k.inv.left x m (ground (arith, marked-insert node x false t.path, p))
    ];
  };
  same_path = λ x. ground (
    arith,
    marked-insert node x false t.path,
    marked-insert node x true s.path,
    k.same_path x,
    off_path g s node i new,
    eq_iff node x,
  );
  grown = λ x m. k.grown x (ground (arith, marked-insert node x true s.visited, m));
  quiet = k.quiet;
}

leave-Meets :
    (g : Graph) (s : Search) (node : String) (r : Answer)
    → Inv g s
    → marked s.visited node ≡ false
    → Meets g (enter node s) (AllGrounded g (deps_of g node)) r
    → Meets g s (Grounded g node) (leave node r)
leave-Meets g s node none i new m = tt
leave-Meets g s node (some (true, t)) i new m = m
leave-Meets g s node (some (false, t)) i new (k, w) =
    let done = grounded node (all_grounded g (deps_of g node) w) in
    (leave-Kept g s t node i new k done, done)

pub has_cycle-Meets : (g : Graph) (fuel : ℕ) → Visits g (has_cycle g fuel)
unfolding has_cycle
has_cycle-Meets g zero node s i new a = tt
has_cycle-Meets g (suc fuel) node s i new a = leave-Meets g s node _ i new (
    visit_deps-Meets g (has_cycle g fuel) (has_cycle-Meets g fuel) node (deps_of g node)
      (enter node s) (enter-Inv g s node i) (enter-OnTop g s node a) (λ y e. e))
