-- ===== src/Tests/Machine.antt =====
-- The theorems on the engine as a machine at concrete inputs, and runs of it.
use canarium.Engine.Machine.Rows.{kept_with}
use canarium.Engine.Machine.Restart.{restart_is_sound, crashed}
use canarium.Engine.Resume.{restore_state}
use canarium.Engine.Machine.DryRun.{dry_run_sends_nothing}
use canarium.Engine.Sequence.{ActiveSequence}
use canarium.Engine.Machine.Ponr.{ponr_crossed_at_its_stage}
use canarium.Engine.Machine.Outlets.{post_shutdown_once}
use canarium.Engine.Machine.Sound.{run-sound}
use canarium.Engine.Machine.Quiet.{aborted_powers_nothing_off}
use canarium.Common.Int.{pos}
use canarium.Tests.Fixtures.{
  test_sequence, active, aborted_active, nas, resting_executor, test_setup, obs_at, with_active,
}
use canarium.Engine.Machine.Sent.{sent}
use canarium.Engine.Machine.Parts.{sound_with, sound}
use canarium.Engine.Machine.Paid.{Paid}
use canarium.Engine.Executor.{Executor}
use canarium.Engine.Machine.Crossing.{at_ponr, has_ponr}
use canarium.Engine.Machine.Paid.{outlets, triggers}
use canarium.Common.{true, false, ◌||◌, List, [], ◌∷◌, none, ◌≡◌, refl, arith}
use canarium.Engine.Phase.{starting, Phase, idle, dispatch, settle, running}
use canarium.Engine.Machine.{sequence_step, step, run, Input, advance, client, tick, stop}
use canarium.Engine.Types.{dry_run}

-- Trigger, pin the addresses, enter the first stage, meet its condition and start its clients.
abbrev start_of_outage : List Input
start_of_outage =
    tick 9
    ∷ advance (obs_at 10)
    ∷ advance (obs_at 11)
    ∷ advance (obs_at 12)
    ∷ advance (obs_at 13)
    ∷ []

run-sound_example : sound (run test_setup start_of_outage idle resting_executor) ≡ true
unfolding sound_with
run-sound_example = run-sound test_setup start_of_outage idle resting_executor refl

aborted_powers_nothing_off_example :
    sent
      (step test_setup
        (advance (obs_at 9))
        (settle (nas ∷ []))
        (with_active aborted_active)).1.effects
    ≡ 0
unfolding sound_with sent
aborted_powers_nothing_off_example =
    aborted_powers_nothing_off test_setup (advance (obs_at 9)) (settle (nas ∷ []))
      (with_active aborted_active) aborted_active refl refl refl refl

post_shutdown_once_example : Paid 0 (run test_setup start_of_outage idle resting_executor).1
unfolding outlets triggers
post_shutdown_once_example =
    post_shutdown_once 0 test_setup start_of_outage idle resting_executor (ground arith)

ponr_crossed_at_its_stage_example :
    has_ponr
      (at_ponr active (dispatch 1) || false)
      (sequence_step test_setup active
        (obs_at 9)
        (dispatch 1)
        (with_active active)).1.active_sequence
    ≡ true
ponr_crossed_at_its_stage_example =
    ponr_crossed_at_its_stage test_setup active (obs_at 9) (dispatch 1) (with_active active) refl

abbrev dry_executor : Executor
dry_executor = record (with_active active) { mode = dry_run }

abbrev running_stage : Phase
running_stage =
    running 1 (pos 180000000000)
      (record {
        sequence_id = "seq_1";
        stage_index = 1;
        stage_name = "storage";
        started_at = 8;
        completed_at = none;
        clients = [];
      })
      (("nas", starting) ∷ [])

dry_run_sends_nothing_example :
    sent (step test_setup (client "nas" (obs_at 9)) running_stage dry_executor).1.effects ≡ 0
unfolding sent
dry_run_sends_nothing_example =
    dry_run_sends_nothing test_setup (client "nas" (obs_at 9)) running_stage dry_executor refl refl

abbrev end_of_abort : List Input
end_of_abort = advance (obs_at 9) ∷ stop ∷ advance (obs_at 10) ∷ []

abbrev pinned_active : ActiveSequence
pinned_active = record active {
  seq = record test_sequence {
    resolved_addrs =
        (
          "nas",
          record { ip = "10.0.0.5"; mac = "02:00:00:00:00:01"; hostname = "nas"; resolved_at = 8 },
        )
        ∷ [];
  };
}

restart_is_sound_example :
    sound
      (restore_state test_setup 99
        (crashed resting_executor (run test_setup start_of_outage idle resting_executor).1)).1
    ≡ true
unfolding sound_with kept_with
restart_is_sound_example =
    restart_is_sound test_setup start_of_outage idle resting_executor resting_executor 99 refl refl
