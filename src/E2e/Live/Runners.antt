-- ===== src/E2e/Live/Runners.antt =====
-- src/e2e.rs: the runners of ingestion and emission, with their live branches.
use greentic_events.Base.{Bool, List}
use greentic_events.Base.Str.{codes}
use greentic_events.Base.Io.{Io, ◌>>=◌}
use greentic_events.Event.{EventEnvelope}
use greentic_events.Message.{ChannelMessageEnvelope}
use greentic_events.Descriptor.{EventProviderSpec}
use greentic_events.E2e.{PackLoad}
use greentic_events.E2e.Checks.{Formats}
use greentic_events.E2e.Fixtures.{Envelopes, fixture_ingest, fixture_emit}
use greentic_events.E2e.Task.{Task, safely}
use greentic_events.E2e.Live.{Host, env_command, command_ingest, command_emit}
use greentic_events.E2e.Live.Broker.{command_subscriptions}

module _ {W R : Type 0} (host : Host W R) (x : Envelopes R) where
  -- The live branches of the runners: the command of the environment.
  unfoldable pub live_ingest : PackLoad → List EventProviderSpec → Io W (List EventEnvelope)
  unfolding env_command command_ingest
  live_ingest pack providers = do
    cmd ← env_command host (codes "GREENTIC_EVENTS_E2E_LIVE_BRIDGE_CMD")
    command_ingest host x cmd pack providers

  unfoldable pub live_emit :
      PackLoad → List EventProviderSpec → Io W (List (ChannelMessageEnvelope R))
  unfolding env_command command_emit
  live_emit pack providers = do
    cmd ← env_command host (codes "GREENTIC_EVENTS_E2E_LIVE_BRIDGE_CMD")
    command_emit host x cmd pack providers

  unfoldable pub live_sync : Formats → PackLoad → List EventProviderSpec → Io W Unit
  unfolding env_command command_subscriptions
  live_sync f pack providers = do
    cmd ← env_command host (codes "GREENTIC_EVENTS_E2E_LIVE_BROKER_CMD")
    command_subscriptions host f x cmd pack providers

  -- `FixtureIngestRunner` and `FixtureEmitRunner` with their live branches.
  unfoldable pub ingest_runner :
      PackLoad → List EventProviderSpec → Bool → Task W (List EventEnvelope)
  unfolding fixture_ingest live_ingest
  ingest_runner = fixture_ingest x (λ pack providers. safely (live_ingest pack providers))

  unfoldable pub emit_runner :
      PackLoad → List EventProviderSpec → Bool → Task W (List (ChannelMessageEnvelope R))
  unfolding fixture_emit live_emit
  emit_runner = fixture_emit x (λ pack providers. safely (live_emit pack providers))
