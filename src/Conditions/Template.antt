-- ===== src/Conditions/Template.antt =====
-- Template expressions: internal/conditions/expr.go.
--
-- The expression language (github.com/expr-lang/expr) is not part of the program. A compiled
-- expression is what the program sees of it: the calls of the environment that it makes, each
-- continued by what the call returned, up to its answer or its failure.
use canarium.Common.{ℕ, String, Bool, false, ◌||◌, Option, none, some, same, contains}
use canarium.Common.Int.{ℤ}
use canarium.Common.Dict.{Dict, lookup, insert}
use canarium.Common.Text.{has_substring}
use canarium.Facts.Types.{Value, text, texts, anys, Values, item, is_nil_value}
use canarium.Facts.Store.{Store, fact_value, fact_quality, fact_age_at}

pub data Program : Type 0 where
  failed : Program
  answer : Value → Program
  ask_fact : String → (Value → Program) → Program
  ask_quality : String → (String → Program) → Program
  ask_age : String → (ℕ → Program) → Program
  ask_contains : Value → String → (Bool → Program) → Program

-- Whether an item of an `[]any` is a text equal to `s`.
unfoldable pub items_contain : Values → String → Bool
items_contain Values.none_left s = false
items_contain (item (text t) vs) s = same t s || items_contain vs s
items_contain (item _ vs) s = items_contain vs s

-- The environment's `contains`.
unfoldable pub set_contains : Value → String → Bool
set_contains (texts ss) s = contains ss s
set_contains (anys vs) s = items_contain vs s
set_contains (text t) s = has_substring t s
set_contains _ s = false

-- `expr.Run` in the environment of `buildExprEnv`: the answer, if there is one, and whether a call
-- of `fact` found nothing.
unfoldable pub run_program : (ℤ → ℕ) → Store → ℕ → Program → Option Value × Bool
run_program seconds s now failed = (none, false)
run_program seconds s now (answer v) = (some v, false)
run_program seconds s now (ask_fact key k) =
    let v = fact_value s key in
    let (r, missing) = run_program seconds s now (k v) in (r, is_nil_value v || missing)
run_program seconds s now (ask_quality key k) = run_program seconds s now (k (fact_quality s key))
run_program seconds s now (ask_age key k) =
    run_program seconds s now (k (fact_age_at seconds s key now))
run_program seconds s now (ask_contains v t k) = run_program seconds s now (k (set_contains v t))

-- `compile`: the program, if the text compiles, and the cache behind the call.
unfoldable pub compile :
    (String → Option Program) → String → Dict Program → Option Program × Dict Program
compile expr_compile expression programs = elim (lookup expression programs) [
  | some cached ↦ (some cached, programs)
  | none ↦ elim (expr_compile expression) [
    | none ↦ (none, programs)
    | some program ↦ (some program, insert expression program programs)
  ]
]
