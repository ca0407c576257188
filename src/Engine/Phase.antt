-- ===== src/Engine/Phase.antt =====
-- Where the goroutines of a sequence stand (internal/engine/sequence_run.go).
--
-- The sequence's goroutine and the goroutines of one stage's clients stop where they wait: in a
-- `select`, in `Executor.sleep`, in a transport's call. A step runs one of them from such a place
-- to the next, on what it observes there. Between two steps anything else may happen, so every
-- interleaving at those places is a list of steps.
use canarium.Common.{ℕ, String, Bool, List, Option, none, some}
use canarium.Common.Int.{ℤ}
use canarium.Common.Dict.{Dict}
use canarium.Config.Types.{ClientConfig}
use canarium.State.Types.{Intent, ClientResult, StageRecord, ResolvedAddr}
use canarium.Engine.Types.{ClientState}
use canarium.Engine.Executor.{Executor}

-- What `Transport.Execute` came back with.
pub data Reply : Type 0 where
  refused : String → Reply
  replied : Bool → String → Reply
  no_result : Reply

-- What one step observes: the time, whether the timer of the `select` fired, the reply of a probe
-- (`none` is an error) and of a command, the addresses that were resolved, and the encoded
-- configuration.
pub record Obs : Type 0 where
  pub now : ℕ
  pub timer : Bool
  pub probed : Option ClientState
  pub reply : Reply
  pub resolved : Dict ResolvedAddr
  pub snapshot : String

-- The goroutine of `shutdownClient` for one client. `started` is when it began, `expires` the
-- deadline of its context, `deadline` that of `awaitClientDown`.
pub data Task : Type 0 where
  starting : Task
  dry : (started : ℕ) → Task
  calling : (started expires : ℕ) → Intent → Task
  polling : (started expires deadline : ℕ) → Task
  pausing : (started expires deadline : ℕ) → Task
  finished : ClientResult → Task

-- The goroutine of the sequence.
pub data Phase : Type 0 where
  -- none is running, or it has returned
  idle : Phase
  -- at the start of `executeSequence`
  begin : Phase
  -- in `reconcileIntents`, with the intents left and the stage to resume at
  reconcile : List Intent → ℕ → Phase
  -- at the head of the loop of `runShutdownStages`
  enter : ℕ → Phase
  -- in `waitForStage`, at the head of its loop and in its `select`
  wait : ℕ → (deadline : ℕ) → Phase
  wait_pause : ℕ → (deadline : ℕ) → Phase
  -- behind the wait, and in `executeStage`
  dispatch : ℕ → Phase
  running : ℕ → (budget : ℤ) → StageRecord → Dict Task → Phase
  -- behind the loop of `runShutdownStages`, and in the call for post-shutdown
  after_stages : Phase
  post_shutdown_call : Phase
  -- in `waitForShuttingDown`, with the clients left
  settle : List ClientConfig → Phase
  settle_wait : ClientConfig → (deadline : ℕ) → List ClientConfig → Phase
  settle_pause : ClientConfig → (deadline : ℕ) → List ClientConfig → Phase
  -- in the first loop of `runWake`
  gate : Phase
  gate_pause : Phase
  -- in its second loop, with the clients left
  wake_next : List String → Phase
  guard_pause : String → List String → Phase
  wake_client : String → List String → Phase
  wake_dry : String → List String → Phase
  wake_attempt : String → (left : ℕ) → List String → Phase
  wake_sent : String → (left : ℕ) → List String → Phase
  wake_poll : String → (left deadline : ℕ) → List String → Phase
  wake_pause : String → (left deadline : ℕ) → List String → Phase
  stagger_pause : List String → Phase

abbrev pub Result : Type 0
Result = Phase × Executor

-- The first result where there is nothing, the second on what there is.
abbrev pub go_on : {A : Type 0} → Option A → Result → (A → Result) → Result
go_on none r f = r
go_on (some a) r f = f a
