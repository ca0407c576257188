-- ===== src/Config/Validate/Cycles.antt =====
-- The search for dependency cycles: `hasCycle` in `validateDependencies`,
-- internal/config/validate.go. A Go map has no order: the roots come in any order, a parameter.
pub mod Walks
pub mod Sound
pub mod Verdict
pub mod Ends
use canarium.Common.{
  ℕ, zero, suc, String, Bool, true, false, not, List, [], ◌∷◌, ◌++◌, Option, none, some,
  if◌then◌else◌,
}
use canarium.Common.Dict.{Dict, lookup, insert}
use canarium.Config.Types.{ClientConfig}
use canarium.Config.Clients.{names_or_none}

-- Each client's name with the names that it depends on.
abbrev pub Graph : Type 0
Graph = Dict (List String)

-- `graph[c.Name] = c.DependsOn`, for each client.
unfoldable pub graph_of : List ClientConfig → Graph → Graph
graph_of [] g = g
graph_of (c ∷ cs) g = graph_of cs (insert c.name c.depends_on g)

-- `graph[node]`
abbrev pub deps_of : Graph → String → List String
deps_of g node = names_or_none (lookup node g)

abbrev is_set : Option Bool → Bool
is_set none = false
is_set (some b) = b

-- `visited[node]` and `path[node]`
abbrev pub marked : Dict Bool → String → Bool
marked m node = is_set (lookup node m)

-- What `hasCycle` closes over. `reports` are the cycles reported, newest first.
pub record Search : Type 0 where
  pub visited : Dict Bool
  pub path : Dict Bool
  pub reports : List (String × String)

-- What a call of `hasCycle` returns, with the state behind it; `none` means that the fuel ran out.
abbrev pub Answer : Type 0
Answer = Option (Bool × Search)

abbrev pub enter : String → Search → Search
enter node s = record s { visited = insert node true s.visited; path = insert node true s.path }

abbrev pub report : String → String → Search → Search
report node dep s = record s { reports = (node, dep) ∷ s.reports }

-- `if hasCycle(dep) { return true }`, and the rest of the loop.
abbrev pub unless_found : Answer → (Search → Answer) → Answer
unless_found none rest = none
unless_found (some (true, s)) rest = some (true, s)
unless_found (some (false, s)) rest = rest s

-- The loop over the dependencies of a node. `visit` is the call of `hasCycle` for one of them.
unfoldable pub visit_deps : (String → Search → Answer) → String → List String → Search → Answer
visit_deps visit node [] s = some (false, s)
visit_deps visit node (dep ∷ deps) s =
    let rest = visit_deps visit node deps s in
    if not (marked s.visited dep)
    then unless_found (visit dep s) (λ s'. visit_deps visit node deps s')
    else if marked s.path dep
    then some (true, report node dep s)
    else rest

-- `path[node] = false`, where no cycle has been found.
abbrev pub leave : String → Answer → Answer
leave node r = unless_found r (λ s. some (false, record s { path = insert node false s.path }))

unfoldable pub has_cycle : Graph → ℕ → String → Search → Answer
unfolding visit_deps
has_cycle g zero node s = none
has_cycle g (suc fuel) node s =
    leave node (visit_deps (has_cycle g fuel) node (deps_of g node) (enter node s))

abbrev pub forget_found : Answer → (Search → Option Search) → Option Search
forget_found none rest = none
forget_found (some (_, s)) rest = rest s

-- The loop over the nodes of the graph.
unfoldable pub search_from : Graph → ℕ → List String → Search → Option Search
unfolding has_cycle
search_from g fuel [] s = some s
search_from g fuel (root ∷ roots) s =
    let rest = search_from g fuel roots s in
    if not (marked s.visited root)
    then forget_found (has_cycle g fuel root s) (λ s'. search_from g fuel roots s')
    else rest

abbrev pub new_search : Search
new_search = record { visited = []; path = []; reports = [] }

-- Every name that the graph mentions.
unfoldable pub names_in : Graph → List String
names_in [] = []
names_in ((name, deps) ∷ rows) = name ∷ (deps ++ names_in rows)
