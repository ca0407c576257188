-- ===== src/Lib.antt =====
-- Canarium: an orderly shutdown of a site on UPS power, and its wake when mains is back.
--
-- Sources write readings into the fact store (internal/facts). Conditions over the facts, in Kleene's
-- three-valued logic and with `for:` timers, are evaluated by internal/conditions. A policy tick of
-- the executor (internal/engine) evaluates each plan's trigger; one that holds, with the daemon not
-- disarmed, starts a sequence: its shutdown stages in order, each behind an entry condition, the
-- post-shutdown command, the wake gate, and the clients of the wake order. The sequence, its locks,
-- intents and stage records are kept in a database (internal/state), from which it is taken up after
-- a restart. The API (internal/api) can abort a sequence, force a stage and change the mode, for callers
-- with the admin scope. What the daemon may do is checked before it starts (internal/config), and a
-- plan can be replayed against a scripted timeline (internal/simulate).
--
-- What models what, by file:
--   Common         texts, maps as association lists, Go's int64 and time.Time arithmetic, float64
--                  comparisons on bits, and the lemmas that the parts share
--   Facts          internal/facts: Types (types.go), Store (store.go); Fresh, Keys and Kleene hold
--                  the theorems, Format is Go's printing of values
--   Config         internal/config: Types (types.go), Duration (loader.go), Clients (the references of
--                  validate.go); Validate is validate.go and selfpreservation.go: Report, Conditions,
--                  Settings, Clients, Plans, Cycles and Stages (validateDependencies), Identity,
--                  Whole; Accepted says what a configuration without errors has
--   Conditions     internal/conditions: Evaluator, Dwell, Template (expr.go), Explain
--   State          internal/state: Types and Tables, the statements of db.go and intents.go
--   Engine         internal/engine: Types, Sequence (active_sequence.go), Executor and Policy
--                  (executor.go), and sequence_run.go as Abort, Shutdown, Stages, Wake and Resume;
--                  Derived is derived.go, Address is resolve.go; Phase says where a goroutine
--                  stands, Machine puts them together
--   Api            internal/api: Limiter (ratelimit.go), Passwords (password.go), and server.go as
--                  Server, Access, Control, Login, Setup and Routes; Accounts is the password,
--                  sessions and tokens of internal/state (db.go, sessions.go, tokens.go)
--   Simulate       internal/simulate: Timeline (timeline.go), Store, Feed and Run (simulate.go)
--   Tests          a small site, and each theorem applied to it
--
-- State is passed explicitly. An `Executor` holds the fields behind the mutex, the evaluator, the
-- database, and what has gone out to listeners and devices, a client's command with the tables as
-- they were then. A goroutine of a sequence is a `Phase`,
-- one of a client's shutdown a `Task`; they stop where the code waits (a `select`, a sleep, a call of
-- a transport), and a step runs from one such place to the next on what it observes there, an `Obs`.
-- What else happens to the daemon is an `Input`; a run is a list of them, so every interleaving at
-- those places is a run. A lock that a method holds for its whole body makes it one function.
--
-- Bounds. Instants are natural numbers of nanoseconds since the zero time, durations are integers
-- with Go's wrap at 64 bits, and `time.Time.Sub` saturates, as in Go. Loops over lists are structural,
-- and loops that wait are phases of the machine, whose runs need not end. Fuel is
-- used twice: by the search for dependency cycles, one more than there are names in its graph, each
-- of which it enters once, and by a simulation, a round for each nanosecond, since its step is at
-- least one.
--
-- Not from the sources, and a parameter (`Libs`, `Checkers`, `Network`, `Crypto`, `Setup`, `Obs`): the
-- expression language, Go's parsing and printing of numbers, its net and crypto packages, the digest
-- of a condition, the replies of transports and probes, whether the database takes reads and writes,
-- and the order in which Go runs through a map of clients.
--
-- Not modelled: what a response shows, the WebSocket, proxies and the flags of a cookie, the device
-- protocols under modules, loading of YAML, DNS and ARP lookups, journal files and retention, logging,
-- and the command line, which are input and output around the parts above; goroutines that are cut
-- off in the middle of a step.
pub mod Common
pub mod Facts
pub mod Config
pub mod Conditions
pub mod State
pub mod Engine
pub mod Api
pub mod Simulate
pub mod Tests
