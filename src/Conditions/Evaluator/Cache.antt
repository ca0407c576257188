-- ===== src/Conditions/Evaluator/Cache.antt =====
-- The cache of compiled expressions is invisible: `compile` of internal/conditions/expr.go.
use canarium.Common.{inl, sym, inr, ◌≡◌, refl, String, Option, some, arith, eq_iff, Option-cases}
use canarium.Common.Dict.{Dict, lookup, insert, lookup-insert}
use canarium.Conditions.Template.{Program, compile}

-- Every cached program is what its text compiles to.
pub record IsCoherent (expr_compile : String → Option Program) (programs : Dict Program)
    : Type 0 where
  pub hit : (x : String) (p : Program) → lookup x programs ≡ some p → expr_compile x ≡ some p

module _ (expr_compile : String → Option Program) where
  insert-IsCoherent :
      (x : String) (p : Program) (programs : Dict Program)
      → IsCoherent expr_compile programs
      → expr_compile x ≡ some p
      → IsCoherent expr_compile (insert x p programs)
  insert-IsCoherent x p programs w h = record {
    hit = λ y q found. ground (arith, eq_iff x y, lookup-insert x y p programs, w.hit y q);
  }

  -- With a coherent cache, `compile` returns what the compiler returns and keeps the cache
  -- coherent.
  pub compile_transparent :
      (x : String) (programs : Dict Program)
      → IsCoherent expr_compile programs
      → ((compile expr_compile x programs).0 ≡ expr_compile x)
        × IsCoherent expr_compile (compile expr_compile x programs).1
  unfolding compile
  compile_transparent x programs w = elim (Option-cases (lookup x programs)) [
    | inr (p, found) ↦ rw (found, compile) (sym (w.hit x p found), w)
    | inl missing ↦ elim (Option-cases (expr_compile x)) [
      | inl bad ↦ rw (missing, bad, compile) (refl, w)
      | inr (p, good) ↦ rw (missing, good, compile) (refl, insert-IsCoherent x p programs w good)
    ]
  ]
