-- ===== src/State/Locks.antt =====
-- Client locks (`AcquireClientLock` and its neighbours, internal/state/db.go).
use canarium.Common.{
  ◌&&◌, sym, ◌≡◌, ◌≢◌, String, Bool, true, false, List, [], ◌∷◌, Option, none, some, arith, same,
  eq_iff, if◌then◌else◌, Option-cases, inl, inr,
}
use canarium.Common.Dict.{Dict, lookup, lookup-insert}
use canarium.State.Types.{Database}
use canarium.State.Tables.{
  acquire_client_lock, client_lock_holder, without_holder, release_sequence_locks,
}

-- What sequences do to the locks.
pub data LockOp : Type 0 where
  acquire : String → String → LockOp
  release : String → LockOp

abbrev pub actor : LockOp → String
actor (acquire client id) = id
actor (release id) = id

unfoldable pub lock_step : LockOp → Database → Database
lock_step (acquire client id) d = (acquire_client_lock client id d).1
lock_step (release id) d = release_sequence_locks id d

unfoldable pub lock_steps : List LockOp → Database → Database
unfolding lock_step
lock_steps [] d = d
lock_steps (op ∷ ops) d = lock_steps ops (lock_step op d)

-- None of the operations is made by the sequence.
abbrev pub IsByOthers : String → List LockOp → Type 0
IsByOthers id [] = Unit
IsByOthers id (op ∷ ops) = (actor op ≢ id) × IsByOthers id ops

-- Whether `acquire_client_lock` grants a lock that is in the given state.
abbrev pub is_free_for : String → Option String → Bool
is_free_for id none = true
is_free_for id (some holder) = same holder id

-- A granted request makes the sequence the holder, a refused one changes nothing, and no request
-- touches another client's lock.
pub lookup-acquire :
    (client id other : String) (d : Database)
    → lookup other (acquire_client_lock client id d).1.client_locks ≡ (
        if is_free_for id (lookup client d.client_locks) && same client other
        then some id
        else lookup other d.client_locks)
unfolding acquire_client_lock
lookup-acquire client id other d = elim (Option-cases (lookup client d.client_locks)) [
  | inl free ↦ ground (arith, lookup-insert client other id d.client_locks)
  | inr (holder, held) ↦ ground (arith, eq_iff client other, eq_iff holder id)
]

lookup-without_holder :
    (id client : String) (m : Dict String) {h : String}
    → lookup client m ≡ some h
    → h ≢ id
    → lookup client (without_holder id m) ≡ some h
unfolding lookup without_holder
lookup-without_holder id client [] e ne = ground arith
lookup-without_holder id client ((k, h') ∷ m) {h} e ne =
    ground (arith, eq_iff k client, eq_iff h' id, lookup-without_holder id client m {h = h})

lock_step_keeps :
    (client id : String) (op : LockOp) (d : Database)
    → actor op ≢ id
    → lookup client d.client_locks ≡ some id
    → lookup client (lock_step op d).client_locks ≡ some id
unfolding lock_step release_sequence_locks
lock_step_keeps client id (acquire c i) d ne held =
    ground (arith, lookup-acquire c i client d, eq_iff c client, eq_iff id i)
lock_step_keeps client id (release i) d ne held =
    lookup-without_holder i client d.client_locks held (λ e. ne (sym e))

lock_steps_keep :
    (client id : String) (ops : List LockOp) (d : Database)
    → IsByOthers id ops
    → lookup client d.client_locks ≡ some id
    → lookup client (lock_steps ops d).client_locks ≡ some id
unfolding lock_steps
lock_steps_keep client id [] d w held = held
lock_steps_keep client id (op ∷ ops) d w held =
    lock_steps_keep client id ops (lock_step op d) w.1 (lock_step_keeps client id op d w.0 held)

grant_of :
    (client id : String) (d : Database)
    → (acquire_client_lock client id d).0 ≡ is_free_for id (lookup client d.client_locks)
unfolding acquire_client_lock
grant_of client id d = ground arith

acquire_holds :
    (client id : String) (d : Database)
    → (acquire_client_lock client id d).0 ≡ true
    → lookup client (acquire_client_lock client id d).1.client_locks ≡ some id
acquire_holds client id d h =
    ground (arith, grant_of client id d, lookup-acquire client id client d, eq_iff client client)

-- What the lock operations answer while a sequence holds the client.
held_answers :
    (client id intruder : String) (d : Database)
    → lookup client d.client_locks ≡ some id
    → intruder ≢ id
    → ((acquire_client_lock client intruder d).0 ≡ false)
      × ((acquire_client_lock client id d).0 ≡ true)
      × (client_lock_holder client d ≡ id)
unfolding acquire_client_lock client_lock_holder
held_answers client id intruder d held ne = ground (arith, eq_iff id intruder, eq_iff id id)

-- A sequence that has been granted a client keeps it, whatever other sequences acquire and
-- release: every one of them is refused that client, and the sequence itself is granted it again.
pub lock_is_exclusive :
    (client id intruder : String) (ops : List LockOp) (d : Database)
    → (acquire_client_lock client id d).0 ≡ true
    → IsByOthers id ops
    → intruder ≢ id
    → let d' = lock_steps ops (acquire_client_lock client id d).1 in
      ((acquire_client_lock client intruder d').0 ≡ false)
      × ((acquire_client_lock client id d').0 ≡ true)
      × (client_lock_holder client d' ≡ id)
lock_is_exclusive client id intruder ops d granted w ne =
    held_answers client id intruder (lock_steps ops (acquire_client_lock client id d).1)
      (lock_steps_keep client id ops _ w (acquire_holds client id d granted)) ne
