-- ===== src/Lib.antt =====
-- The event bus, the install runtime and the end-to-end runner of greentic-events, and what is
-- proved of them.
--
-- The program routes events of many tenants to providers. `EventBus` (src/bus.rs) asks the access
-- rules (src/acl.rs), finds the provider of the topic by glob patterns (src/pattern.rs), records
-- the event's idempotency key (src/idempotency.rs), and publishes with retries and waits that a
-- policy sets (src/backoff.rs); what fails goes to a dead letter topic, and counters
-- (src/metrics.rs) keep the tally. `EventBusBuilder` registers the providers of a pack and builds
-- the bus. Beside the bus, the install runtime resolves installs of providers and keeps their
-- subscriptions in step, and validators check packs and publish inputs before they are used.
-- Providers and bridges (src/provider.rs, src/bridge.rs) are supplied from outside; src/runner.rs
-- makes them from components that a runner hosts, whose envelopes it converts. The end-to-end
-- runner (src/e2e.rs) takes the packs of a directory through five stages, requirements, setup,
-- ingestion, emission and subscriptions, and reports on each.
--
-- The files:
--   Base: shared names; texts as UTF-8 bytes (Base.Str), maps as association lists (Base.Map),
--     fallible code that acts on the world (Base.Io).
--   Event, Message, Error: the envelope, JSON values and objects, channel messages, and src/error.rs.
--   Pattern: src/pattern.rs. Pattern.Glob says what a pattern means, Pattern.Loop has the invariant
--     of the loop, Pattern.Correct the theorems.
--   Acl, Backoff, Idempotency, Metrics, Subscription, Descriptor, Provider, Bridge: the files of src/
--     by those names (Descriptor is the second half of src/provider.rs).
--   Bus: src/bus.rs, with a module for each topic of its theorems (Bus.Gated has the access rules and
--     the routing together).
--   Publishing: `publish_event` of src/bus.rs.
--   Annotations, Pack, Envelope, Builder: the parts of src/bus.rs that load a pack, read the overrides
--     in its annotations, register its providers and build the bus.
--   Install: crates/greentic-events-runtime/src/install.rs. Install.Sink builds the sink router,
--     Install.Source starts sources, Install.Sync synchronises subscriptions, and Install.Metadata is
--     the failure counter that it keeps in an install's metadata.
--   RuntimeConfig: crates/greentic-events-runtime/src/lib.rs, the retry policy of a configuration.
--   ProviderOps, InputCheck: src/provider_ops.rs and src/validate.rs, the contract of the publish
--     operation and the validation of its input.
--   Validate: crates/greentic-events-validate/src/lib.rs, the validators of packs (Validate.Checks),
--     with the format of topics (Validate.Topic).
--   Runner: src/runner.rs. Runner.Broker has the provider of a runner-hosted broker and the body of
--     its polling task, Runner.Adapters the bridges, Runner.RoundTrip the way of an event to the wire
--     and back, Runner.Poll what the task delivers and acknowledges.
--   E2e: src/e2e.rs. E2e.Task is code that may panic, E2e.Flow the flows that ask for a
--     configuration, E2e.Checks and E2e.Stages the stages with their checks, E2e.Report statuses and
--     summaries, E2e.Run `run_pack` and `run_e2e_with`, E2e.Plans the runners of requirements and
--     provisioning, E2e.Fixtures those of ingestion and emission, E2e.Live the commands of live mode,
--     E2e.DryBus the dry run of subscriptions over a bus of its own, E2e.Default what is used where
--     a run is given no runners, E2e.Command src/bin/greentic-events-test.rs.
--   PackCheck: crates/greentic-events-pack-validator/src/lib.rs, the validator that is compiled to
--     WebAssembly; it shares with Validate the functions that the two crates repeat.
--   Samples: a small world with a provider that fails on demand, and the theorems at it.
--
-- What providers, bridges, the timer and the random generator do is given by records of functions
-- over a type `W` of states of the world; theorems hold for all of them, or name what they assume
-- (as `IsMetered` in Bus.Retry). A method that changes shared state takes and returns `BusState`.
-- Numbers are natural numbers; the counters wrap at 2 ^ 64, the u32 power saturates, and a
-- duration is its nanoseconds, with the overflow of the standard library's `Duration`.
--
-- Bounds and fuel: the matching loop runs on (text + 1) * (pattern + 1) rounds of fuel, which is
-- enough: `none` is never its answer (Pattern.Correct.simple_match-Answers). The retry loop
-- recurs on the count of rounds left, and needs no fuel; so does the loop of a synchronisation. The
-- loop over a configuration flow has the visits that its limit leaves as its count, and the limit is
-- part of the code. The polling task has no end of its own: `poll_rounds` is its first rounds, for
-- any count. Recursion elsewhere is on the lists that the code walks.
--
-- Not modelled: tracing spans and the OpenTelemetry instruments (output only), the scheduling of
-- asynchronous tasks (each method runs to its end, and a timeout is an argument that gives the result
-- or nothing), panics outside the stages of the end-to-end run, YAML and JSON parsing, the file
-- system, processes and channels, which are arguments, and the command line programs for inspecting a
-- pack and for writing fixtures.
pub mod Acl
pub mod Annotations
pub mod Backoff
pub mod Base
pub mod Bridge
pub mod Builder
pub mod Bus
pub mod Descriptor
pub mod E2e
pub mod Envelope
pub mod Error
pub mod Event
pub mod Idempotency
pub mod InputCheck
pub mod Install
pub mod Message
pub mod Metrics
pub mod Pack
pub mod PackCheck
pub mod Pattern
pub mod Provider
pub mod ProviderOps
pub mod Publishing
pub mod Runner
pub mod RuntimeConfig
pub mod Samples
pub mod Subscription
pub mod Validate
