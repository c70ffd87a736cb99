-- ===== src/E2e/Fixtures.antt =====
-- src/e2e.rs: ingestion and emission over a pack's fixtures, by bridges that make up the result.
-- `R` is the type of reply scopes.
pub mod Accepted
use greentic_events.Base.{
  Bool, true, false, ◌||◌, Option, none, some, List, [], ◌∷◌, ◌++◌, Result, ok, err, then_ok,
  map_err, map_option, unwrap_or, find, ℕ,
}
use greentic_events.Base.Str.{Str, codes}
use greentic_events.Base.Map.{lookup, insert}
use greentic_events.Event.{Json, EventEnvelope, TenantCtx}
use greentic_events.Message.{ChannelMessageEnvelope}
use greentic_events.Descriptor.{EventProviderSpec, source, sink, bridge}
use greentic_events.Error.{Outcome}
use greentic_events.Bridge.{
  MessageToEventBridge, EventToMessageBridge, empty_registry, register_message_to_event,
  register_event_to_message, handle_message, handle_event,
}
use greentic_events.E2e.{PackLoad, load_fixture}
use greentic_events.E2e.Task.{Task, give, safely, ◌>>=◌}
use greentic_events.E2e.Run.{kind_is}

-- What the code uses of serde_json for envelopes, of the identifiers of crate greentic-types, and
-- of chrono for the fixed time.
pub record Envelopes (R : Type 0) : Type 0 where
  pub decode_message : Str → Result Str (ChannelMessageEnvelope R)
  pub decode_event : Str → Result Str EventEnvelope
  pub message_to_value : ChannelMessageEnvelope R → Result Str Json
  pub value_to_string : Json → Str
  pub event_id : Str → Result Str Str
  pub fixed_time : Result Str ℕ

-- The name of the first provider of two kinds.
unfoldable pub source_name : List EventProviderSpec → Str
unfolding find
source_name providers =
    unwrap_or
      (map_option (λ (p : EventProviderSpec). p.name)
        (find (λ (p : EventProviderSpec). kind_is source p.kind || kind_is bridge p.kind)
          providers))
      (codes "events")

unfoldable pub sink_name : List EventProviderSpec → Str
unfolding find
sink_name providers =
    unwrap_or
      (map_option (λ (p : EventProviderSpec). p.name)
        (find (λ (p : EventProviderSpec). kind_is sink p.kind || kind_is bridge p.kind) providers))
      (codes "events")

-- The event that stands for a message.
abbrev pub ingested : {R : Type 0} → Str → ChannelMessageEnvelope R → ℕ → Str → Json → EventEnvelope
ingested provider_name message time id payload = record {
  id = id;
  topic = provider_name ++ codes ".ingest";
  event_type = codes "greentic.events.ingest";
  source = codes "greentic-events-test";
  tenant = message.tenant;
  subject = some message.session_id;
  time = time;
  correlation_id = message.correlation_id;
  payload = payload;
  metadata = message.metadata;
}

module _ {R : Type 0} (x : Envelopes R) where
  -- `DryRunMessageToEventBridge::handle_message`
  unfoldable pub dry_run_event : Str → ChannelMessageEnvelope R → Result Str (List EventEnvelope)
  dry_run_event provider_name message = then_ok x.fixed_time λ time.
      then_ok (x.event_id (codes "evt-" ++ message.id)) λ id.
        then_ok (x.message_to_value message)
          λ payload. ok (ingested provider_name message time id payload ∷ [])

  -- `DryRunEventToMessageBridge::handle_event`
  unfoldable pub dry_run_message :
      Str → EventEnvelope → Result Str (List (ChannelMessageEnvelope R))
  dry_run_message provider_name event = ok (
      record {
        id = codes "msg-" ++ event.id;
        tenant = event.tenant;
        channel = provider_name ++ codes ".emit";
        session_id = unwrap_or event.subject (codes "session");
        reply_scope = none;
        user_id = none;
        correlation_id = event.correlation_id;
        text = some (x.value_to_string event.payload);
        attachments = [];
        metadata = event.metadata;
      }
      ∷ [])

  abbrev pub fixture_message : PackLoad → Result Str (ChannelMessageEnvelope R)
  fixture_message pack =
      map_err (λ _. codes "ingest fixture missing or invalid")
        (load_fixture x.decode_message pack (codes "fixtures/ingest.request.json"))

  abbrev pub fixture_event : PackLoad → Result Str EventEnvelope
  fixture_event pack =
      map_err (λ _. codes "emit fixture missing or invalid")
        (load_fixture x.decode_event pack (codes "fixtures/emit.request.json"))

  module _ {W : Type 0} where
    abbrev pub dry_run_ingest_bridge : Str → MessageToEventBridge W (ChannelMessageEnvelope R)
    dry_run_ingest_bridge provider_name = record {
      handle_message = λ message w. (dry_run_event provider_name message, w);
    }

    abbrev pub dry_run_emit_bridge : Str → EventToMessageBridge W (ChannelMessageEnvelope R)
    dry_run_emit_bridge provider_name = record {
      handle_event = λ event w. (dry_run_message provider_name event, w);
    }

    -- `.context(…)` on what the service gives.
    abbrev pub bridged : {A : Type 0} → Str → Outcome A × W → Result Str A × W
    bridged message (r, w) = (map_err (λ _. message) r, w)

    abbrev ingest_message :
        List EventProviderSpec → ChannelMessageEnvelope R → W → Result Str (List EventEnvelope) × W
    ingest_message providers message w = bridged (codes "ingest bridge failed") (
        handle_message
          (register_message_to_event (codes "ingest")
            (dry_run_ingest_bridge (source_name providers))
            (empty_registry W (ChannelMessageEnvelope R)))
          (codes "ingest") message w)

    abbrev emit_event :
        List EventProviderSpec
        → EventEnvelope
        → W
        → Result Str (List (ChannelMessageEnvelope R)) × W
    emit_event providers event w = bridged (codes "emit bridge failed") (
        handle_event
          (register_event_to_message (codes "emit") (dry_run_emit_bridge (sink_name providers))
            (empty_registry W (ChannelMessageEnvelope R)))
          (codes "emit") event w)

    -- `FixtureIngestRunner::ingest`, `live` being its live branch.
    unfoldable pub fixture_ingest :
        (PackLoad → List EventProviderSpec → Task W (List EventEnvelope))
        → PackLoad
        → List EventProviderSpec
        → Bool
        → Task W (List EventEnvelope)
    unfolding handle_message register_message_to_event lookup insert dry_run_event source_name
    fixture_ingest live pack providers true = live pack providers
    fixture_ingest live pack providers false = do
      message ← give (fixture_message pack)
      safely (ingest_message providers message)

    -- `FixtureEmitRunner::emit`
    unfoldable pub fixture_emit :
        (PackLoad → List EventProviderSpec → Task W (List (ChannelMessageEnvelope R)))
        → PackLoad
        → List EventProviderSpec
        → Bool
        → Task W (List (ChannelMessageEnvelope R))
    unfolding handle_event register_event_to_message lookup insert dry_run_message sink_name
    fixture_emit live pack providers true = live pack providers
    fixture_emit live pack providers false = do
      event ← give (fixture_event pack)
      safely (emit_event providers event)
