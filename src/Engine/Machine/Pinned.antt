-- ===== src/Engine/Machine/Pinned.antt =====
-- Through the steps of internal/engine a sequence keeps the addresses that it pinned at its start.
use canarium.Engine.Wake.{stagger_pause_step, guard_pause_step, gate_pause_step}
use canarium.Config.Types.{ClientConfig}
use canarium.Engine.Executor.{clear_active_sequence, Setup, write, save_active, Executor}
use canarium.Engine.Machine.Pins.{
  wake_pause_step-pins, wake_poll_step-pins, wake_sent_step-pins, wake_attempt_step-pins,
  wake_dry_step-pins, wake_client_step-pins, wake_next_step-pins, gate_step-pins,
  settle_pause_step-pins, settle_wait_step-pins, settle_step-pins, after_stages_step-pins,
  join_step-pins, dispatch_step-pins, wait_step-pins, enter_stage-pins, reconcile_step-pins, pins,
}
use canarium.Engine.Address.{mac_for, address_for}
use canarium.Engine.Sequence.{set_state, resolved_addr, ActiveSequence}
use canarium.Engine.Stages.{stage_at, post_shutdown_done, wait_pause_step}
use canarium.Common.{◌∙◌, String, Bool, false, true, Option, none, some, ◌≡◌, refl, arith}
use canarium.Engine.Machine.{sequence_step}
use canarium.Engine.Phase.{
  Obs, go_on, Result, Phase, idle, begin, reconcile, enter, wait, wait_pause, dispatch, running,
  after_stages, post_shutdown_call, settle, settle_wait, settle_pause, gate, gate_pause, wake_next,
  guard_pause, wake_client, wake_dry, wake_attempt, wake_sent, wake_poll, wake_pause, stagger_pause,
}

go_on-pins :
    {A : Type 0} (a : ActiveSequence) (x : Option A) (r : Result) (f : A → Result)
    → pins a r.1.active_sequence ≡ a.seq.resolved_addrs
    → ((y : A) → pins a (f y).1.active_sequence ≡ a.seq.resolved_addrs)
    → pins a (go_on x r f).1.active_sequence ≡ a.seq.resolved_addrs
go_on-pins a none r f u v = u
go_on-pins a (some y) r f u v = v y

unchanged :
    (a : ActiveSequence) (e : Executor)
    → e.active_sequence ≡ some a
    → pins a e.active_sequence ≡ a.seq.resolved_addrs
unchanged a e u = rw u refl

abbrev pub begins : Phase → Bool
begins begin = true
begins _ = false

sequence_step-pins :
    (s : Setup) (a : ActiveSequence) (o : Obs) (phase : Phase) (e : Executor)
    → e.active_sequence ≡ some a
    → begins phase ≡ false
    → pins a (sequence_step s a o phase e).1.active_sequence ≡ a.seq.resolved_addrs
unfolding sequence_step wait_pause_step save_active write set_state post_shutdown_done
    gate_pause_step guard_pause_step stagger_pause_step clear_active_sequence
sequence_step-pins s a o idle e u w = ground arith
sequence_step-pins s a o begin e u w = ground arith
sequence_step-pins s a o (reconcile is i) e u w = reconcile_step-pins s a o is i e u
sequence_step-pins s a o (enter i) e u w =
    go_on-pins a (stage_at a i) (after_stages, e) _ (unchanged a e u)
      (λ stage. enter_stage-pins s a o i stage e u)
sequence_step-pins s a o (wait i deadline) e u w =
    go_on-pins a (stage_at a i) (after_stages, e) _ (unchanged a e u)
      (λ stage. wait_step-pins s a o i deadline stage e u)
sequence_step-pins s a o (wait_pause i deadline) e u w = ground arith
sequence_step-pins s a o (dispatch i) e u w =
    go_on-pins a (stage_at a i) (after_stages, e) _ (unchanged a e u)
      (λ stage. dispatch_step-pins s a o i stage e u)
sequence_step-pins s a o (running i budget rec tasks) e u w =
    join_step-pins a o i budget rec tasks e u
sequence_step-pins s a o after_stages e u w = after_stages_step-pins s a e u
sequence_step-pins s a o post_shutdown_call e u w = ground arith
sequence_step-pins s a o (settle cs) e u w = settle_step-pins s a o cs e u
sequence_step-pins s a o (settle_wait c deadline cs) e u w =
    settle_wait_step-pins a o c deadline cs e u
sequence_step-pins s a o (settle_pause c deadline cs) e u w =
    settle_pause_step-pins a o c deadline cs e u
sequence_step-pins s a o gate e u w = gate_step-pins s a o e u
sequence_step-pins s a o gate_pause e u w = ground arith
sequence_step-pins s a o (wake_next names) e u w = wake_next_step-pins s a o names e u
sequence_step-pins s a o (guard_pause name names) e u w = ground arith
sequence_step-pins s a o (wake_client name names) e u w = wake_client_step-pins s a o name names e u
sequence_step-pins s a o (wake_dry name names) e u w = wake_dry_step-pins s a o name names e u
sequence_step-pins s a o (wake_attempt name left names) e u w =
    wake_attempt_step-pins s a name left names e u
sequence_step-pins s a o (wake_sent name left names) e u w =
    wake_sent_step-pins s a o name left names e u
sequence_step-pins s a o (wake_poll name left deadline names) e u w =
    wake_poll_step-pins s a o name left deadline names e u
sequence_step-pins s a o (wake_pause name left deadline names) e u w =
    wake_pause_step-pins s a o name left deadline names e u
sequence_step-pins s a o (stagger_pause names) e u w = ground arith

-- The sequence behind a step; the one before it where none is left.
abbrev next_sequence : ActiveSequence → Option ActiveSequence → ActiveSequence
next_sequence a none = a
next_sequence a (some b) = b

pins_of_next :
    (a : ActiveSequence) (x : Option ActiveSequence)
    → (next_sequence a x).seq.resolved_addrs ≡ pins a x
pins_of_next a none = refl
pins_of_next a (some b) = refl

-- But for its start, no step of a sequence changes the address or the MAC that is used for a client.
addresses_stay_pinned :
    (s : Setup) (a : ActiveSequence) (o : Obs) (phase : Phase) (e : Executor)
    (learned : Option String) (c : ClientConfig)
    → e.active_sequence ≡ some a
    → begins phase ≡ false
    → let b = next_sequence a (sequence_step s a o phase e).1.active_sequence in
      (address_for (some b) c ≡ address_for (some a) c)
      × (mac_for learned (some b) c ≡ mac_for learned (some a) c)
unfolding address_for mac_for resolved_addr
addresses_stay_pinned s a o phase e learned c u w =
    let same_addrs =
      pins_of_next a (sequence_step s a o phase e).1.active_sequence
      ∙ sequence_step-pins s a o phase e u w in
    (rw same_addrs refl, rw same_addrs refl)
