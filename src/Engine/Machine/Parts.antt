-- ===== src/Engine/Machine/Parts.antt =====
-- The parts of a sequence in internal/engine, and which phases go with which sequence.
use canarium.Common.{Bool, true, false, not, ◌&&◌, Option, none, some}
use canarium.Engine.Sequence.{ActiveSequence}
use canarium.Engine.Phase.{
  Phase, idle, begin, reconcile, enter, wait, wait_pause, dispatch, running, after_stages,
  post_shutdown_call, settle, settle_wait, settle_pause, gate, gate_pause, wake_next, guard_pause,
  wake_client, wake_dry, wake_attempt, wake_sent, wake_poll, wake_pause, stagger_pause, Result,
}

-- Where a sequence stands, in three parts: shutting down, settling after an abort, waking.
pub data Part : Type 0 where
  resting shutting settling awaking : Part

abbrev pub part : Phase → Part
part idle = resting
part begin = shutting
part (reconcile _ _) = shutting
part (enter _) = shutting
part (wait _ _) = shutting
part (wait_pause _ _) = shutting
part (dispatch _) = shutting
part (running _ _ _ _) = shutting
part after_stages = shutting
part post_shutdown_call = shutting
part (settle _) = settling
part (settle_wait _ _ _) = settling
part (settle_pause _ _ _) = settling
part gate = awaking
part gate_pause = awaking
part (wake_next _) = awaking
part (guard_pause _ _) = awaking
part (wake_client _ _) = awaking
part (wake_dry _ _) = awaking
part (wake_attempt _ _ _) = awaking
part (wake_sent _ _ _) = awaking
part (wake_poll _ _ _ _) = awaking
part (wake_pause _ _ _ _) = awaking
part (stagger_pause _) = awaking

-- A sequence that shuts down is not aborted; one that settles is, short of the point of no return.
abbrev pub fits : Part → ActiveSequence → Bool
fits resting a = false
fits shutting a = not a.seq.aborted
fits settling a = a.seq.aborted && not a.seq.ponr_crossed
fits awaking a = true

abbrev pub resting_part : Part → Bool
resting_part resting = true
resting_part _ = false

unfoldable pub sound_with : Part → Option ActiveSequence → Bool
sound_with p none = resting_part p
sound_with p (some a) = fits p a

abbrev pub sound : Result → Bool
sound (phase, e) = sound_with (part phase) e.active_sequence
