-- ===== src/Engine/Machine/Sent.antt =====
-- Which steps of the machine of internal/engine send a command to a device.
use canarium.State.Types.{Intent, StageRecord}
use canarium.Config.Types.{StageConfig, ClientConfig}
use canarium.Engine.Sequence.{ActiveSequence}
use canarium.Engine.Executor.{
  outlet, command, Executor, Setup, clear_active_sequence, set_client_state, emit, write,
  save_active, event, evaluate_now, Effect,
}
use canarium.Engine.Abort.{
  handle_abort, should_abort, settle_step, settle_wait_step, settle_pause_step,
}
use canarium.Engine.Resume.{reconcile_client, execute_sequence, reconcile_step}
use canarium.Engine.Stages.{
  handle_stage_timeout, stage_at, begin_stage, post_shutdown_done, wait_pause_step, wait_step,
  join_step, enter_stage, dispatch_step,
}
use canarium.Engine.Wake.{
  release_sequence, stagger_pause_step, complete_sequence, guard_pause_step, gate_pause_step,
  gate_step, wake_poll_step, wake_next_step, wake_dry_step, wake_client_step, wake_sent_step,
  wake_pause_step,
}
use canarium.Common.{
  ℕ, zero, suc, String, Bool, false, true, List, [], ◌∷◌, Option, none, some, ◌≡◌, refl, arith,
}
use canarium.Common.Dict.{Dict}
use canarium.Common.Int.{ℤ}
use canarium.Engine.Machine.{sequence_step}
use canarium.Engine.Phase.{
  Task, Obs, go_on, Result, Phase, idle, begin, reconcile, enter, wait, wait_pause, dispatch,
  running, after_stages, post_shutdown_call, settle, settle_wait, settle_pause, gate, gate_pause,
  wake_next, guard_pause, wake_client, wake_dry, wake_attempt, wake_sent, wake_poll, wake_pause,
  stagger_pause,
}

-- How many commands have gone out.
unfoldable pub sent : List Effect → ℕ
sent [] = 0
sent (event _ _ ∷ es) = sent es
sent (command _ _ _ ∷ es) = suc (sent es)
sent (outlet _ ∷ es) = suc (sent es)

-- The places from which a command is sent: the start of a client's goroutine, post-shutdown, and an
-- attempt to wake.
abbrev pub wakes : Phase → Bool
wakes (wake_attempt _ _ _) = true
wakes _ = false

abbrev pub powers_off : Phase → Bool
powers_off (running _ _ _ _) = true
powers_off after_stages = true
powers_off _ = false

enter_stage-sent :
    (s : Setup) (a : ActiveSequence) (o : Obs) (i : ℕ) (stage : StageConfig) (e : Executor)
    → sent (enter_stage s a o i stage e).1.effects ≡ sent e.effects
unfolding enter_stage sent evaluate_now save_active write emit set_client_state
    clear_active_sequence should_abort handle_abort
enter_stage-sent s a o i stage e = ground arith

wait_step-sent :
    (s : Setup) (a : ActiveSequence) (o : Obs) (i deadline : ℕ) (stage : StageConfig) (e : Executor)
    → sent (wait_step s a o i deadline stage e).1.effects ≡ sent e.effects
unfolding wait_step sent evaluate_now save_active write emit set_client_state clear_active_sequence
    should_abort handle_abort handle_stage_timeout
wait_step-sent s a o i deadline stage e = ground arith

dispatch_step-sent :
    (s : Setup) (a : ActiveSequence) (o : Obs) (i : ℕ) (stage : StageConfig) (e : Executor)
    → sent (dispatch_step s a o i stage e).1.effects ≡ sent e.effects
unfolding dispatch_step sent evaluate_now save_active write emit set_client_state
    clear_active_sequence begin_stage
dispatch_step-sent s a o i stage e = ground arith

reconcile_step-sent :
    (s : Setup) (o : Obs) (is : List Intent) (i : ℕ) (e : Executor)
    → sent (reconcile_step s o is i e).1.effects ≡ sent e.effects
unfolding reconcile_step sent evaluate_now save_active write emit set_client_state
    clear_active_sequence reconcile_client
reconcile_step-sent s o [] i e = ground arith
reconcile_step-sent s o (j ∷ is) i e = ground arith

join_step-sent :
    (o : Obs) (i : ℕ) (budget : ℤ) (rec : StageRecord) (tasks : Dict Task) (e : Executor)
    → sent (join_step o i budget rec tasks e).1.effects ≡ sent e.effects
unfolding join_step sent evaluate_now save_active write emit set_client_state clear_active_sequence
join_step-sent o i budget rec tasks e = ground arith

settle_step-sent :
    (s : Setup) (a : ActiveSequence) (o : Obs) (cs : List ClientConfig) (e : Executor)
    → sent (settle_step s a o cs e).1.effects ≡ sent e.effects
unfolding settle_step sent evaluate_now save_active write emit set_client_state
    clear_active_sequence
settle_step-sent s a o [] e = ground arith
settle_step-sent s a o (c ∷ cs) e = ground arith

settle_wait_step-sent :
    (o : Obs) (c : ClientConfig) (deadline : ℕ) (cs : List ClientConfig) (e : Executor)
    → sent (settle_wait_step o c deadline cs e).1.effects ≡ sent e.effects
unfolding settle_wait_step sent evaluate_now save_active write emit set_client_state
    clear_active_sequence
settle_wait_step-sent o c deadline cs e = ground arith

settle_pause_step-sent :
    (a : ActiveSequence) (o : Obs) (c : ClientConfig) (deadline : ℕ) (cs : List ClientConfig)
    (e : Executor)
    → sent (settle_pause_step a o c deadline cs e).1.effects ≡ sent e.effects
unfolding settle_pause_step sent evaluate_now save_active write emit set_client_state
    clear_active_sequence
settle_pause_step-sent a o c deadline cs e = ground arith

gate_step-sent :
    (s : Setup) (a : ActiveSequence) (o : Obs) (e : Executor)
    → sent (gate_step s a o e).1.effects ≡ sent e.effects
unfolding gate_step sent evaluate_now save_active write emit set_client_state clear_active_sequence
    complete_sequence release_sequence
gate_step-sent s a o e = ground arith

wake_next_step-sent :
    (s : Setup) (a : ActiveSequence) (o : Obs) (names : List String) (e : Executor)
    → sent (wake_next_step s a o names e).1.effects ≡ sent e.effects
unfolding wake_next_step sent evaluate_now save_active write emit set_client_state
    clear_active_sequence complete_sequence release_sequence
wake_next_step-sent s a o [] e = ground arith
wake_next_step-sent s a o (name ∷ names) e = ground arith

wake_client_step-sent :
    (s : Setup) (a : ActiveSequence) (o : Obs) (name : String) (names : List String) (e : Executor)
    → sent (wake_client_step s a o name names e).1.effects ≡ sent e.effects
unfolding wake_client_step sent evaluate_now save_active write emit set_client_state
    clear_active_sequence
wake_client_step-sent s a o name names e = ground arith

wake_dry_step-sent :
    (s : Setup) (a : ActiveSequence) (o : Obs) (name : String) (names : List String) (e : Executor)
    → sent (wake_dry_step s a o name names e).1.effects ≡ sent e.effects
unfolding wake_dry_step sent evaluate_now save_active write emit set_client_state
    clear_active_sequence
wake_dry_step-sent s a o name names e = ground arith

wake_sent_step-sent :
    (s : Setup) (a : ActiveSequence) (o : Obs) (name : String) (left : ℕ) (names : List String)
    (e : Executor)
    → sent (wake_sent_step s a o name left names e).1.effects ≡ sent e.effects
unfolding wake_sent_step sent evaluate_now save_active write emit set_client_state
    clear_active_sequence
wake_sent_step-sent s a o name left names e = ground arith

wake_poll_step-sent :
    (s : Setup) (a : ActiveSequence) (o : Obs) (name : String) (left deadline : ℕ)
    (names : List String) (e : Executor)
    → sent (wake_poll_step s a o name left deadline names e).1.effects ≡ sent e.effects
unfolding wake_poll_step sent evaluate_now save_active write emit set_client_state
    clear_active_sequence
wake_poll_step-sent s a o name zero deadline names e = ground arith
wake_poll_step-sent s a o name (suc left) deadline names e = ground arith

wake_pause_step-sent :
    (s : Setup) (a : ActiveSequence) (o : Obs) (name : String) (left deadline : ℕ)
    (names : List String) (e : Executor)
    → sent (wake_pause_step s a o name left deadline names e).1.effects ≡ sent e.effects
unfolding wake_pause_step sent evaluate_now save_active write emit set_client_state
    clear_active_sequence
wake_pause_step-sent s a o name left deadline names e = ground arith

pub go_on-sent :
    {A : Type 0} (n : ℕ) (x : Option A) (r : Result) (f : A → Result)
    → sent r.1.effects ≡ n
    → ((a : A) → sent (f a).1.effects ≡ n)
    → sent (go_on x r f).1.effects ≡ n
go_on-sent n none r f u v = u
go_on-sent n (some a) r f u v = v a

-- Only post-shutdown and an attempt to wake send a command from the sequence's goroutine.
pub sequence_step-sent :
    (s : Setup) (a : ActiveSequence) (o : Obs) (phase : Phase) (e : Executor)
    → powers_off phase ≡ false
    → wakes phase ≡ false
    → sent (sequence_step s a o phase e).1.effects ≡ sent e.effects
unfolding sequence_step execute_sequence sent wait_pause_step save_active write post_shutdown_done
    gate_pause_step guard_pause_step stagger_pause_step clear_active_sequence
sequence_step-sent s a o idle e u w = refl
sequence_step-sent s a o begin e u w = ground arith
sequence_step-sent s a o (reconcile is i) e u w = reconcile_step-sent s o is i e
sequence_step-sent s a o (enter i) e u w =
    go_on-sent (sent e.effects) (stage_at a i) (after_stages, e) _ refl
      (λ stage. enter_stage-sent s a o i stage e)
sequence_step-sent s a o (wait i deadline) e u w =
    go_on-sent (sent e.effects) (stage_at a i) (after_stages, e) _ refl
      (λ stage. wait_step-sent s a o i deadline stage e)
sequence_step-sent s a o (wait_pause i deadline) e u w = ground arith
sequence_step-sent s a o (dispatch i) e u w =
    go_on-sent (sent e.effects) (stage_at a i) (after_stages, e) _ refl
      (λ stage. dispatch_step-sent s a o i stage e)
sequence_step-sent s a o (running i budget rec tasks) e u w = ground arith
sequence_step-sent s a o after_stages e u w = ground arith
sequence_step-sent s a o post_shutdown_call e u w = ground arith
sequence_step-sent s a o (settle cs) e u w = settle_step-sent s a o cs e
sequence_step-sent s a o (settle_wait c deadline cs) e u w = settle_wait_step-sent o c deadline cs e
sequence_step-sent s a o (settle_pause c deadline cs) e u w =
    settle_pause_step-sent a o c deadline cs e
sequence_step-sent s a o gate e u w = gate_step-sent s a o e
sequence_step-sent s a o gate_pause e u w = ground arith
sequence_step-sent s a o (wake_next names) e u w = wake_next_step-sent s a o names e
sequence_step-sent s a o (guard_pause name names) e u w = ground arith
sequence_step-sent s a o (wake_client name names) e u w = wake_client_step-sent s a o name names e
sequence_step-sent s a o (wake_dry name names) e u w = wake_dry_step-sent s a o name names e
sequence_step-sent s a o (wake_attempt name left names) e u w = ground arith
sequence_step-sent s a o (wake_sent name left names) e u w =
    wake_sent_step-sent s a o name left names e
sequence_step-sent s a o (wake_poll name left deadline names) e u w =
    wake_poll_step-sent s a o name left deadline names e
sequence_step-sent s a o (wake_pause name left deadline names) e u w =
    wake_pause_step-sent s a o name left deadline names e
sequence_step-sent s a o (stagger_pause names) e u w = ground arith
