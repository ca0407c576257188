-- ===== src/Engine/Executor.antt =====
-- internal/engine/executor.go: the executor's state and its small methods.
--
-- One `Executor` value is the state between two steps of its goroutines: the fields behind the
-- mutex, the evaluator, the database, and what has gone out. A method that logs only is left out.
use canarium.Common.{
  ℕ, String, Bool, true, false, not, ◌&&◌, ◌||◌, List, [], ◌∷◌, Option, none, some, ◌==◌, same,
  is_empty, is_some, if◌then◌else◌,
}
use canarium.Common.Int.{ℤ, pos, time_sub, is_zero_time}
use canarium.Common.Text.{concat}
use canarium.Common.Dict.{Dict, lookup, insert}
use canarium.Facts.Types.{is_true}
use canarium.Config.Duration.{duration}
use canarium.Config.Types.{ClientConfig, Config, PlanConfig}
use canarium.Conditions.Config.{ConditionConfig}
use canarium.Conditions.Dwell.{reset_dwell}
use canarium.Conditions.Evaluator.{Libs, Evaluator, evaluate}
use canarium.State.Types.{Database}
use canarium.State.Tables.{save_sequence, save_client_state, get_kv}
use canarium.Engine.Types.{
  is_probe, is_dry_run, parse_mode, disarmed, dry_run, armed, ClientState, unknown,
  client_state_text, state_index, ActionType, Mode, is_disarmed, mode_text, parse_mode_strict,
}
use canarium.Engine.Sequence.{ActiveSequence, persistable, request_abort, request_proceed}

-- A transport as the engine sees it: what it can do, and how it renames actions
-- (`ActionRemapper`; the identity where it has none). Its replies come from outside.
pub record Transport : Type 0 where
  pub capabilities : List ActionType
  pub remap : ActionType → ActionType

-- What does not change while the daemon runs.
pub record Setup : Type 0 where
  pub cfg : Config
  pub libs : Libs
  pub transports : Dict Transport

-- What listeners and devices see, latest first. `command` is a call of `Transport.Execute` for a
-- client, with the tables as they are at that moment; `outlet` is the call for post-shutdown.
pub data Effect : Type 0 where
  event : String → String → Effect
  command : String → ActionType → Database → Effect
  outlet : ActionType → Effect

-- `db_ok` says whether the database takes writes at present; `stopped` that the context is
-- cancelled.
pub record Executor : Type 0 where
  pub evaluator : Evaluator
  pub db : Database
  pub db_ok : Bool
  pub mode : Mode
  pub active_sequence : Option ActiveSequence
  pub client_states : Dict ClientState
  pub client_state_since : Dict ℕ
  pub would_trigger : Dict Bool
  pub stopped : Bool
  pub effects : List Effect

unfoldable pub emit : String → String → Executor → Executor
emit type subject e = record e { effects = event type subject ∷ e.effects }

unfoldable pub send : String → ActionType → Executor → Executor
send client action e = record e { effects = command client action e.db ∷ e.effects }

-- A write that the database refuses is logged and changes nothing.
unfoldable pub write : (Database → Database) → Executor → Executor
write f e = record e { db = if e.db_ok then f e.db else e.db }

unfoldable pub reset_triggers : Libs → List PlanConfig → Evaluator → Evaluator
reset_triggers libs [] ev = ev
reset_triggers libs (p ∷ ps) ev =
    reset_triggers libs ps
      (record ev { timers = reset_dwell (libs.condition_key p.trigger) ev.timers })

unfoldable pub set_mode : Setup → Mode → Executor → Executor
set_mode s m e =
    let arming = is_disarmed e.mode && not (is_disarmed m) in
    emit "mode_changed" (mode_text m) (record e {
      mode = m;
      would_trigger = if is_disarmed m then e.would_trigger else [];
      evaluator = if arming then reset_triggers s.libs s.cfg.plans e.evaluator else e.evaluator;
    })

-- A name that is not in the map has the zero value, unknown.
abbrev pub state_or_unknown : Option ClientState → ClientState
state_or_unknown none = unknown
state_or_unknown (some s) = s

unfoldable pub get_client_state : String → Executor → ClientState
get_client_state name e = state_or_unknown (lookup name e.client_states)

abbrev pub same_state : ClientState → ClientState → Bool
same_state a b = state_index a == state_index b

-- Whether a map entry is the state.
abbrev pub is_recorded : Option ClientState → ClientState → Bool
is_recorded none s = false
is_recorded (some p) s = same_state p s

unfoldable pub set_client_state : String → ClientState → ℕ → Executor → Executor
unfolding emit write
set_client_state name s now e = emit "client_state_changed" name (
    write (save_client_state name (client_state_text s)) (record e {
      client_states = insert name s e.client_states;
      client_state_since =
          if is_recorded (lookup name e.client_states) s
          then e.client_state_since
          else insert name now e.client_state_since;
    }))

unfoldable pub time_since_settled : String → ℕ → Executor → ℤ
time_since_settled name now e = elim (lookup name e.client_state_since) [
  | none ↦ pos 0
  | some since ↦ if is_zero_time since then pos 0 else time_sub now since
]

-- Refuses to replace a sequence that is in flight.
unfoldable pub set_active_sequence : ActiveSequence → Executor → Executor × Bool
set_active_sequence a e =
    if is_some e.active_sequence then (e, false) else (record e { active_sequence = some a }, true)

unfoldable pub clear_active_sequence : Executor → Executor
clear_active_sequence e = record e { active_sequence = none }

-- The goroutine and the map share one sequence: what it changes is seen in both.
abbrev pub put : ActiveSequence → Executor → Executor
put a e = record e { active_sequence = some a }

-- `saveSequence`, and `saveSequenceDurable`, which differs in when the write reaches the disk.
unfoldable pub save_active : ActiveSequence → Executor → Executor
unfolding write
save_active a e = write (save_sequence (persistable a)) (put a e)

unfoldable pub evaluate_now : Setup → ConditionConfig → ℕ → Executor → Bool × Executor
evaluate_now s c now e =
    let (t, ev) = evaluate s.libs c now e.evaluator in (is_true t, record e { evaluator = ev })

unfoldable pub find_client_in : String → List ClientConfig → Option ClientConfig
find_client_in name [] = none
find_client_in name (c ∷ cs) = if same c.name name then some c else find_client_in name cs

unfoldable pub find_client_config : Setup → String → Option ClientConfig
find_client_config s name = find_client_in name s.cfg.clients

unfoldable pub find_plan_in : String → List PlanConfig → Option PlanConfig
find_plan_in name [] = none
find_plan_in name (p ∷ ps) = if same p.name name then some p else find_plan_in name ps

-- `Executor.duration`
abbrev pub duration_or : Setup → String → ℤ → ℤ
duration_or s value def = (duration s.libs.parsers value def).0

unfoldable pub any_capability : (ActionType → Bool) → List ActionType → Bool
any_capability p [] = false
any_capability p (a ∷ rest) = p a || any_capability p rest

-- `transportCan`
abbrev pub can_probe : Transport → Bool
can_probe t = any_capability is_probe t.capabilities

-- Whether there is a transport, and it can probe.
abbrev pub probes : Option Transport → Bool
probes none = false
probes (some t) = can_probe t

-- `ForceStage` and `AbortSequence`: `none` is no error.
unfoldable pub force_stage : String → Executor → Executor × Option String
force_stage reason e = elim e.active_sequence [
  | none ↦ (e, some "no active sequence")
  | some a ↦ (put (request_proceed reason a) e, none)
]

unfoldable pub abort_sequence : String → Executor → Executor × Option String
abort_sequence reason e = elim e.active_sequence [
  | none ↦ (e, some "no active sequence")
  | some a ↦
      let (a', granted) = request_abort reason a in
      if granted then (put a' e, none) else (
        e,
        some (
            concat "sequence "
              (concat a.seq.id " has passed the point of no return and cannot be aborted")),
      )
]

abbrev pub same_mode : Mode → Mode → Bool
same_mode disarmed m = is_disarmed m
same_mode dry_run m = is_dry_run m
same_mode armed m = not (is_disarmed m) && not (is_dry_run m)

-- `restoreMode`, the key-value table having been read. `readonly` is `config_readonly`,
-- `configured` is `canarium.mode`.
unfoldable pub restore_mode : Bool → String → Executor → Executor
restore_mode readonly configured e =
    let stored = get_kv "mode" e.db in
    let (mode, known) = parse_mode_strict stored in
    if readonly || not e.db_ok || is_empty stored || not known
    then e
    else if same_mode mode (parse_mode configured)
    then e
    else record e { mode = mode }
