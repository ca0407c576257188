-- ===== src/Engine/Shutdown/Journal.antt =====
-- What is on record when a shutdown command goes out (internal/engine/sequence_run.go).
use canarium.Engine.Types.{is_dry_run, client_state_text}
use canarium.Engine.Executor.{
  event, command, Executor, Transport, send, emit, write, set_client_state,
}
use canarium.State.Types.{dispatching, Database, IntentStatus, Intent}
use canarium.Engine.Shutdown.{new_intent, shutdown, dispatch_shutdown}
use canarium.State.Tables.{updated_intent, save_client_state, save_intent}
use canarium.Common.{
  ℕ, String, true, false, ◌∷◌, Option, none, some, ◌≡◌, refl, inl, inr, Option-cases,
}
use canarium.Common.Dict.{lookup, lookup-insert_self}
use canarium.Common.Int.{ℤ}

-- The status column of an intent's row.
abbrev pub recorded_status : Option Intent → Option IntentStatus
recorded_status none = none
recorded_status (some i) = some i.status

pub save_intent-recorded :
    (i : Intent) (d : Database)
    → recorded_status (lookup i.id (save_intent i d).intents) ≡ some i.status
unfolding save_intent
save_intent-recorded i d =
    let row = updated_intent i (lookup i.id d.intents) in
    let read = lookup-insert_self i.id row d.intents in
    elim (Option-cases (lookup i.id d.intents)) [
      | inl fresh ↦ rw (read, fresh) refl
      | inr (old, there) ↦ rw (read, there) refl
    ]

-- Outside dry-run and where the database takes writes, a client's shutdown command goes out last, and
-- at that moment the tables have its intent as dispatching, and the client as shutting down.
pub intent_before_command :
    (name id : String) (t : Transport) (budget : ℤ) (now : ℕ) (e : Executor)
    → is_dry_run e.mode ≡ false
    → e.db_ok ≡ true
    → (d : Database) × ((dispatch_shutdown name id t budget now e).1.effects
        ≡ command name (t.remap shutdown) d ∷ event "client_state_changed" name ∷ e.effects)
      × (recorded_status (lookup (new_intent name "shutdown" id now).id d.intents)
          ≡ some dispatching)
      × (lookup name d.client_states ≡ some "shutting_down")
unfolding dispatch_shutdown set_client_state write emit send save_client_state client_state_text
intent_before_command name id t budget now e w ok =
    let i = new_intent name "shutdown" id now in
    (
      save_client_state name "shutting_down" (save_intent i e.db),
      rw (w, ok) refl,
      save_intent-recorded i e.db,
      lookup-insert_self name "shutting_down" (save_intent i e.db).client_states,
    )
