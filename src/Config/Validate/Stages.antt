-- ===== src/Config/Validate/Stages.antt =====
-- Dependencies: `validateDependencies` of internal/config/validate.go, the search for cycles and
-- the order of each plan's shutdown stages.
pub mod Placed
pub mod Cyclic
use canarium.Config.Clients.{resolve_client_refs}
use canarium.Config.Validate.Cycles.{new_search, names_in, graph_of, search_from, Search}
use canarium.Config.Types.{ClientConfig, Config, PlanConfig, StageConfig}
use canarium.Common.Dict.{insert, lookup, Dict}
use canarium.Common.{
  reverse, ℕ, zero, suc, ◌==◌, String, Bool, true, false, not, ◌&&◌, ◌||◌, List, [], ◌∷◌, Option,
  none, some, get_elem?, length, ltb, if◌then◌else◌,
}
use canarium.Config.Validate.Report.{
  dependency_first, contradicts_after, same_stage, add_warning, when, each, dependency_cycle,
  two_stages, clean, add_error, ValidationResult, ◌⊕◌,
}

abbrev pub cycle_report : String × String → ValidationResult
cycle_report (node, dep) = add_error (dependency_cycle node dep)

-- The search over the graph, its nodes in the order `roots`, with fuel for every name in it.
unfoldable pub find_cycles : List String → List ClientConfig → Option Search
unfolding search_from graph_of names_in
find_cycles roots clients =
    let g = graph_of clients [] in search_from g (suc (length (names_in g))) roots new_search

abbrev pub reports_of : Option Search → List (String × String)
reports_of none = []
reports_of (some s) = reverse s.reports

unfoldable pub check_cycles : List String → List ClientConfig → ValidationResult
unfolding find_cycles each
check_cycles roots clients = each cycle_report (reports_of (find_cycles roots clients))

abbrev pub placed_twice : String → String → ℕ → Option ℕ → ValidationResult
placed_twice plan name i none = clean
placed_twice plan name i (some prev) = add_error (two_stages plan name prev i)

-- The clients of stage `i`, put into `stageClients`.
unfoldable pub place_names : String → ℕ → List String → Dict ℕ → ValidationResult × Dict ℕ
unfolding ◌⊕◌
place_names plan i [] m = (clean, m)
place_names plan i (n ∷ ns) m =
    let (r, m') = place_names plan i ns (insert n i m) in
    (placed_twice plan n i (lookup n m) ⊕ r, m')

-- The stages from index `i` on.
unfoldable pub place_stages :
    Config → String → ℕ → List StageConfig → Dict ℕ → ValidationResult × Dict ℕ
unfolding place_names ◌⊕◌ resolve_client_refs
place_stages cfg plan i [] m = (clean, m)
place_stages cfg plan i (s ∷ ss) m =
    let (r, m') = place_names plan i (resolve_client_refs s.clients cfg) m in
    let (r', m'') = place_stages cfg plan (suc i) ss m' in (r ⊕ r', m'')

abbrev pub stage_name : List StageConfig → ℕ → String
stage_name stages i = elim (get_elem? stages i) [ none ↦ "" | some s ↦ s.name ]

-- A client in stage `i` and one that it depends on.
unfoldable pub check_dependency : Dict ℕ → PlanConfig → String → ℕ → String → ValidationResult
unfolding ◌⊕◌
check_dependency m p client i dep = elim (lookup dep m) [
  | none ↦ clean
  | some j ↦
      when (i == j) (add_error (same_stage p.name client dep (stage_name p.shutdown.stages i)))
      ⊕ when (ltb j i) (add_error (dependency_first p.name client i dep j))
]

unfoldable check_after : Dict ℕ → PlanConfig → String → ℕ → String → ValidationResult
check_after m p client i after = elim (lookup after m) [
  | none ↦ clean
  | some j ↦ when (ltb i j) (add_warning (contradicts_after p.name client i after j))
]

unfoldable pub check_client_order : Dict ℕ → PlanConfig → ClientConfig → ValidationResult
unfolding ◌⊕◌ check_dependency check_after each
check_client_order m p c = elim (lookup c.name m) [
  | none ↦ clean
  | some i ↦
      each (check_dependency m p c.name i) c.depends_on ⊕ each (check_after m p c.name i) c.after
]

unfoldable pub check_plan_order : Config → PlanConfig → ValidationResult
unfolding ◌⊕◌ place_stages check_client_order each
check_plan_order cfg p =
    let (r, m) = place_stages cfg p.name 0 p.shutdown.stages [] in
    r ⊕ each (check_client_order m p) cfg.clients

unfoldable pub validate_dependencies : List String → Config → ValidationResult
unfolding ◌⊕◌ check_cycles check_plan_order each
validate_dependencies roots cfg =
    check_cycles roots cfg.clients ⊕ each (check_plan_order cfg) cfg.plans
