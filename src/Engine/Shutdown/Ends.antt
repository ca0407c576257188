-- ===== src/Engine/Shutdown/Ends.antt =====
-- The goroutine of one client's shutdown ends (internal/engine/sequence_run.go).
use canarium.Engine.Executor.{Executor, Setup}
use canarium.Engine.Shutdown.{dispatch_shutdown, start_shutdown, client_budget, shutdown_step}
use canarium.Common.{◌≤◌, String, Bool, true, false, ◌≡◌, refl, arith}
use canarium.Common.Int.{time_add, ℤ, ◌≤ℤ◌}
use canarium.Engine.Phase.{Obs, Task, starting, dry, calling, finished}

abbrev pub is_finished : Task → Bool
is_finished (finished _) = true
is_finished _ = false

-- Its first three steps: to the transport's call, to the first look at the client, and that look.
abbrev pub three_steps : Setup → String → String → ℤ → Obs → Obs → Obs → Executor → Task × Executor
three_steps s name id budget o p q e =
    let (t, e1) = shutdown_step s name id budget o starting e in
    let (t', e2) = shutdown_step s name id budget p t e1 in shutdown_step s name id budget q t' e2

client_budget-le : (s : Setup) (name : String) (budget : ℤ) → client_budget s name budget ≤ℤ budget
unfolding client_budget
client_budget-le s name budget = ground arith

-- A task behind its first step.
abbrev is_started : Task → Bool
is_started (finished _) = true
is_started (dry _) = true
is_started (calling _ _ _) = true
is_started _ = false

started_task :
    (s : Setup) (name id : String) (budget : ℤ) (o : Obs) (e : Executor)
    → is_started (shutdown_step s name id budget o starting e).0 ≡ true
unfolding shutdown_step start_shutdown dispatch_shutdown
started_task s name id budget o e = ground arith

last_steps :
    (s : Setup) (name id : String) (budget : ℤ) (p q : Obs) (t : Task) (e : Executor)
    → is_started t ≡ true
    → time_add p.now (client_budget s name budget) ≤ q.now
    → is_finished
        (shutdown_step s name id budget q
          (shutdown_step s name id budget p t e).0
          (shutdown_step s name id budget p t e).1).0
      ≡ true
unfolding shutdown_step
last_steps s name id budget p q (finished r) e w h = refl
last_steps s name id budget p q (dry started) e w h = refl
last_steps s name id budget p q (calling started expires i) e w h = ground arith
last_steps s name id budget p q t e w h = cc

-- Whatever the transport replies, a client's shutdown is over with the first look at the client that
-- comes after its budget, which is at most the stage's.
client_finishes :
    (s : Setup) (name id : String) (budget : ℤ) (o p q : Obs) (e : Executor)
    → time_add p.now (client_budget s name budget) ≤ q.now
    → (is_finished (three_steps s name id budget o p q e).0 ≡ true)
      × (client_budget s name budget ≤ℤ budget)
client_finishes s name id budget o p q e h = (
  last_steps s name id budget p q (shutdown_step s name id budget o starting e).0
      (shutdown_step s name id budget o starting e).1 (started_task s name id budget o e) h,
  client_budget-le s name budget,
)
