-- ===== src/Engine/Wake/Guards.antt =====
-- Whom a wake leaves alone, and how a sequence ends (internal/engine/sequence_run.go).
use canarium.Engine.Types.{up, ClientState}
use canarium.Config.Types.{ClientConfig}
use canarium.Engine.Executor.{
  get_client_state, same_state, find_client_config, emit, Executor, write, save_active,
  clear_active_sequence, Setup,
}
use canarium.Engine.Sequence.{pre_state, persistable, mark_completed, ActiveSequence}
use canarium.State.Tables.{release_sequence_locks, save_sequence, without_holder}
use canarium.Engine.Wake.{
  all_up, retained, dependencies_met, release_sequence, complete_sequence, wake_next_step,
}
use canarium.State.Saves.{recorded_state, save_sequence-recorded}
use canarium.Common.{
  if◌then◌else◌, Option, all, same_refl, ℕ, String, Bool, true, false, ◌&&◌, ◌||◌, not, same, List,
  [], ◌∷◌, none, some, ◌≡◌, refl, arith,
}
use canarium.Common.Dict.{Dict, lookup}
use canarium.Engine.Phase.{Obs, Phase, wake_client, guard_pause}
use canarium.State.Types.{SequenceState, completed, aborted}

-- The loop goes on to wake the client of that name, now or behind its guard period.
abbrev pub will_wake : String → Phase → Bool
will_wake name (wake_client n _) = same n name
will_wake name (guard_pause n _) = same n name
will_wake name _ = false

abbrev pub is_up : ClientState → Bool
is_up up = true
is_up _ = false

same_state-up : (state : ClientState) → same_state state up ≡ is_up state
same_state-up up = refl
same_state-up state = ground arith

-- The client had a state before the sequence, and it was not up.
abbrev pub was_not_up : Option String → Bool
was_not_up none = false
was_not_up (some state) = not (same state "up")

all_up-all :
    (e : Executor) (names : List String)
    → all_up e names ≡ all (λ d. is_up (get_client_state d e)) names
unfolding all_up
all_up-all e [] = refl
all_up-all e (name ∷ names) =
    ground (arith, all_up-all e names, same_state-up (get_client_state name e))

-- The loop goes on to wake the client of a name that the configuration has, at once or behind its
-- guard period, exactly if no abort was requested, it is not recorded as up, `retain_state` does not
-- keep it as it was before the sequence, and every client that it depends on is up.
pub wakes_only_when_due :
    (s : Setup) (a : ActiveSequence) (o : Obs) (name : String) (names : List String) (e : Executor)
    (c : ClientConfig)
    → find_client_config s name ≡ some c
    → will_wake name (wake_next_step s a o (name ∷ names) e).0
      ≡ not a.abort_requested
        && not (is_up (get_client_state name e))
        && not (
            same c.wake_policy "retain_state"
            && was_not_up (lookup c.name a.seq.pre_sequence_state))
        && all (λ d. is_up (get_client_state d e)) c.depends_on
unfolding wake_next_step complete_sequence dependencies_met retained pre_state
wakes_only_when_due s a o name names e c u =
    ground
      (arith, u, all_up-all e c.depends_on, same_refl name, same_state-up (get_client_state name e))

-- A row of the lock table that the sequence holds.
abbrev pub holds_lock : String → Dict String → Bool
holds_lock id [] = false
holds_lock id ((client, holder) ∷ rows) = same holder id || holds_lock id rows

without_holder-holds_lock :
    (id : String) (rows : Dict String) → holds_lock id (without_holder id rows) ≡ false
unfolding without_holder
without_holder-holds_lock id [] = refl
without_holder-holds_lock id ((client, holder) ∷ rows) =
    ground (arith, without_holder-holds_lock id rows)

abbrev pub end_of : ActiveSequence → SequenceState
end_of a = if a.seq.aborted then aborted else completed

-- A sequence that ends leaves no active one, and where the database takes writes it is recorded as
-- aborted if it was and as completed if not, and holds no client's lock any more.
pub complete_sequence_lem :
    (a : ActiveSequence) (now : ℕ) (e : Executor)
    → e.db_ok ≡ true
    → let e' = (complete_sequence a now e).1 in
      (e'.active_sequence ≡ none)
      × (recorded_state (lookup a.seq.id e'.db.sequences) ≡ some (end_of a))
      × (holds_lock a.seq.id e'.db.client_locks ≡ false)
unfolding complete_sequence release_sequence clear_active_sequence save_active write emit
    mark_completed persistable save_sequence release_sequence_locks
complete_sequence_lem a now e w =
    let seq = (mark_completed (end_of a) now a).seq in
    (
      refl,
      rw w (save_sequence-recorded seq e.db).0,
      rw w (without_holder-holds_lock a.seq.id e.db.client_locks),
    )
