-- ===== src/Config/Validate/Stages/Cyclic.antt =====
-- Validation reports a dependency cycle exactly if there is one, and its search always ends.
use mathlib.Core.List.{reverse_aux}
use canarium.Config.Validate.Cycles.Verdict.{search_result}
use canarium.Common.Dict.{lookup-insert_ne, insert, lookup}
use canarium.Config.Validate.Cycles.Walks.{Grounded-no_cycle, grounded, Grounded, Cyclic}
use canarium.Config.Validate.Cycles.Ends.{search_from-ne-none}
use canarium.Config.Validate.Cycles.{names_in, Search, new_search, Graph, graph_of}
use canarium.Config.Validate.Stages.{reports_of, cycle_report, find_cycles, check_cycles}
use canarium.Config.Types.{ClientConfig}
use canarium.Common.{
  length, sym, ◌∙◌, is_nil, suc, ◌≡◌, ◌≢◌, ◌↔◌, refl, String, true, false, not, List, [], ◌∷◌, none,
  some, contains, Bool-cases, Option-cases, inl, inr, reverse,
}
use canarium.Config.Validate.Report.{each, has_errors, ◌⊕◌}

-- Every client's name is among the roots.
abbrev AllNamed : List String → List ClientConfig → Type 0
AllNamed roots [] = Unit
AllNamed roots (c ∷ cs) = (contains roots c.name ≡ true) × AllNamed roots cs

-- The search for dependency cycles ends: fuel for the names in the graph is enough.
find_cycles-ne-none :
    (roots : List String) (clients : List ClientConfig) → find_cycles roots clients ≢ none
unfolding find_cycles
find_cycles-ne-none roots clients = search_from-ne-none (graph_of clients []) roots new_search

has_errors-cycle_reports :
    (xs : List (String × String)) → has_errors (each cycle_report xs) ≡ not (is_nil xs)
unfolding has_errors each ◌⊕◌
has_errors-cycle_reports [] = refl
has_errors-cycle_reports (x ∷ xs) = refl

is_nil-reverse_aux {ℓ} :
    {A : Type ℓ} (xs ys : List A) (y : A) → is_nil (reverse_aux xs (y ∷ ys)) ≡ false
is_nil-reverse_aux [] ys y = refl
is_nil-reverse_aux (x ∷ xs) ys y = is_nil-reverse_aux xs (y ∷ ys) x

is_nil-reverse {ℓ} : {A : Type ℓ} (xs : List A) → is_nil (reverse xs) ≡ is_nil xs
is_nil-reverse [] = refl
is_nil-reverse (x ∷ xs) = is_nil-reverse_aux xs [] x

-- Outside the roots no client has dependencies.
lookup-graph_of :
    (roots : List String) (cs : List ClientConfig) (g : Graph) (x : String)
    → AllNamed roots cs
    → contains roots x ≡ false
    → lookup x (graph_of cs g) ≡ lookup x g
unfolding graph_of
lookup-graph_of roots [] g x a h = refl
lookup-graph_of roots (c ∷ cs) g x a h =
    lookup-graph_of roots cs (insert c.name c.depends_on g) x a.1 h
    ∙ lookup-insert_ne c.name x c.depends_on g (λ e. cc (a.0, rw (sym e) at h))

Grounded-off_roots :
    (roots : List String) (clients : List ClientConfig) (x : String)
    → AllNamed roots clients
    → contains roots x ≡ false
    → Grounded (graph_of clients []) x
unfolding lookup
Grounded-off_roots roots clients x a h =
    let alone = lookup-graph_of roots clients [] x a h in grounded x (λ y e. cc (rw alone at e))

has_errors-found :
    (t : Search) → has_errors (each cycle_report (reports_of (some t))) ≡ not (is_nil t.reports)
has_errors-found t =
    rw (has_errors-cycle_reports (reverse t.reports)) (rw (is_nil-reverse t.reports) refl)

module _ (roots : List String) (clients : List ClientConfig) (named : AllNamed roots clients) where
  no_cycle :
      ((x : String) → contains roots x ≡ true → Grounded (graph_of clients []) x)
      → Cyclic (graph_of clients [])
      → ⊥
  no_cycle w (x, d) = elim (Bool-cases (contains roots x)) [
    | inl root ↦ Grounded-no_cycle (graph_of clients []) x (w x root) d
    | inr off ↦ Grounded-no_cycle _ x (Grounded-off_roots roots clients x named off) d
  ]

  -- Validation reports a dependency cycle exactly if some client depends on itself, directly or
  -- through others, where the search's roots include every client, in whatever order.
  pub cycle_is_reported :
      (has_errors (check_cycles roots clients) ≡ true) ↔ Cyclic (graph_of clients [])
  unfolding check_cycles find_cycles
  cycle_is_reported = elim (Option-cases (find_cycles roots clients)) [
    | inl e ↦ absurd (find_cycles-ne-none roots clients e)
    | inr (t, e) ↦
        elim (search_result (graph_of clients []) (suc (length (names_in (graph_of clients []))))
          roots t e) [
            | inl (quiet, w) ↦
                rw e (rw (has_errors-found t) (rw quiet (λ p. cc, λ c. absurd (no_cycle w c))))
            | inr (loud, c) ↦ rw e (rw (has_errors-found t) (rw loud (λ p. c, λ c'. refl)))
          ]
  ]
