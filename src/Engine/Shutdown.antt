-- ===== src/Engine/Shutdown.antt =====
-- Shutting one client down: `shutdownClient` and `awaitClientDown` of
-- internal/engine/sequence_run.go.
pub mod Journal
pub mod Ends
use canarium.Common.{
  ℕ, String, Bool, true, false, not, ◌||◌, Option, none, some, ltb, leb, if◌then◌else◌,
}
use canarium.Common.Int.{ℤ, pos, ltb_ℤ, time_add}
use canarium.Common.Dict.{lookup}
use canarium.Common.Text.{concat}
use canarium.Facts.Format.{decimal}
use canarium.Config.Types.{ClientConfig}
use canarium.State.Types.{Intent, dispatching, dispatched}
use canarium.State.Tables.{acquire_client_lock, client_lock_holder, save_intent}
use canarium.Engine.Types.{
  ClientState, unknown, shutting_down, down, down_unverified, failed, client_state_text, shutdown,
  is_dry_run,
}
use canarium.Engine.Executor.{
  Transport, Setup, Executor, send, write, get_client_state, set_client_state, find_client_config,
  duration_or,
}
use canarium.Engine.Phase.{
  Reply, refused, replied, no_result, Obs, Task, starting, dry, calling, polling, pausing, finished,
}

-- `finish`
abbrev pub result : ℕ → ℕ → ClientState → String → Task
result started now s error = finished (record {
  state = client_state_text s;
  started_at = started;
  completed_at = now;
  error = error;
})

abbrev pub new_intent : String → String → String → ℕ → Intent
new_intent name action id now = record {
  id = concat "int_" (concat name (concat "_" (decimal (pos now))));
  sequence_id = id;
  client_name = name;
  action = action;
  timestamp = now;
  status = dispatching;
  result = none;
}

abbrev pub answered : Bool → String → Intent → Intent
answered success message i = record i {
  status = dispatched;
  result = some (record { success = success; message = message });
}

-- From the lock on: the intent is on record and the client is marked before the command goes out.
unfoldable pub dispatch_shutdown : String → String → Transport → ℤ → ℕ → Executor → Task × Executor
unfolding send write
dispatch_shutdown name id t budget now e =
    let intent = new_intent name "shutdown" id now in
    let marked = set_client_state name shutting_down now (write (save_intent intent) e) in
    if is_dry_run e.mode
    then (dry now, write (save_intent (answered true "dry-run" intent)) marked)
    else (calling now (time_add now budget) intent, send name (t.remap shutdown) marked)

unfoldable pub start_shutdown : Setup → String → String → ℤ → ℕ → Executor → Task × Executor
unfolding dispatch_shutdown
start_shutdown s name id budget now e = elim (find_client_config s name) [
  | none ↦ (result now now unknown "client not found in config", e)
  | some c ↦ elim (lookup c.transport s.transports) [
    | none ↦ (
      result now now failed (concat "unknown transport " c.transport),
      set_client_state name failed now e,
    )
    | some t ↦
        let (granted, db) = acquire_client_lock name id e.db in
        if not e.db_ok
        then (result now now failed "could not acquire client lock", e)
        else if granted
        then dispatch_shutdown name id t budget now (record e { db = db })
        else (
          result now now (get_client_state name e)
              (concat "locked by sequence " (client_lock_holder name e.db)),
          e,
        )
  ]
]

-- The intent with the transport's answer.
unfoldable pub answer : Reply → Intent → Intent
answer (refused message) i = answered false message i
answer (replied success message) i = answered success message i
answer no_result i = answered false "transport returned no result" i

abbrev pub shutdown_budget_of : Option ClientConfig → String
shutdown_budget_of none = ""
shutdown_budget_of (some c) = c.shutdown_budget

-- The client's own budget, capped by the stage's.
unfoldable pub client_budget : Setup → String → ℤ → ℤ
client_budget s name stage_budget =
    let own = duration_or s (shutdown_budget_of (find_client_config s name)) stage_budget in
    if ltb_ℤ stage_budget own then stage_budget else own

abbrev pub expired_text : String
expired_text = "budget expired before the host was confirmed down"

abbrev pub confirms_down : Option ClientState → Bool
confirms_down (some down) = true
confirms_down _ = false

unfoldable pub shutdown_step : Setup → String → String → ℤ → Obs → Task → Executor → Task × Executor
unfolding start_shutdown answer write client_budget
shutdown_step s name id budget o starting e = start_shutdown s name id budget o.now e
shutdown_step s name id budget o (dry started) e =
    (result started o.now down "", set_client_state name down o.now e)
shutdown_step s name id budget o (calling started expires i) e = (
  polling started expires (time_add o.now (client_budget s name budget)),
  write (save_intent (answer o.reply i)) e,
)
shutdown_step s name id budget o (polling started expires deadline) e =
    if not (ltb o.now deadline)
    then (
      result started o.now down_unverified expired_text,
      set_client_state name down_unverified o.now e,
    )
    else if confirms_down o.probed
    then (result started o.now down "", set_client_state name down o.now e)
    else (pausing started expires deadline, e)
shutdown_step s name id budget o (pausing started expires deadline) e =
    if o.timer
    then (polling started expires deadline, e)
    else if e.stopped || leb expires o.now
    then (
      result started o.now down_unverified expired_text,
      set_client_state name down_unverified o.now e,
    )
    else (pausing started expires deadline, e)
shutdown_step s name id budget o (finished r) e = (finished r, e)
