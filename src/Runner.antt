-- ===== src/Runner.antt =====
-- src/runner.rs: envelopes on the wire to runner-hosted components, and providers backed by them.
-- Time stamps and JSON are printed and parsed by other crates (chrono, serde_json), and event
-- identifiers are checked by greentic-types: a `Codec` has these functions.
pub mod Broker
pub mod RoundTrip
pub mod Poll
pub mod Adapters
use greentic_events.Base.{
  ℕ, Option, none, some, List, [], ◌∷◌, Result, ok, err, then_ok, map_err, Bool,
}
use greentic_events.Base.Str.{Str, codes}
use greentic_events.Base.Io.{Io, pure_io, ◌>>=◌}
use greentic_events.Event.{Json, Dict, EventEnvelope, TenantCtx}
use greentic_events.Subscription.{AckMode, auto, manual, SubscriptionOptions, SubscriptionHandle}
use greentic_events.Descriptor.{
  EventProviderDescriptor, EventProviderSpec, broker, other, at_most_once, unordered,
  descriptor_from_spec,
}
use greentic_events.Provider.{EventProvider, EventProviderFactory}
use greentic_events.Bridge.{BridgeFactory, MessageToEventBridge, EventToMessageBridge}

pub record Codec : Type 0 where
  pub to_rfc3339 : ℕ → Str
  pub parse_rfc3339 : Str → Result Str ℕ
  pub new_id : Str → Result Str Str
  pub json_to_string : Json → Result Str Str
  pub json_from_str : Str → Result Str Json

pub record WitEventEnvelope : Type 0 where
  pub id : Str
  pub topic : Str
  pub event_type : Str
  pub source : Str
  pub tenant : TenantCtx
  pub subject : Option Str
  pub time : Str
  pub correlation_id : Option Str
  pub payload_json : Str
  pub metadata : Dict Str

pub data WitAckMode : Type 0 where
  wit_auto wit_manual : WitAckMode

pub record WitSubscriptionOptions : Type 0 where
  pub durable : Bool
  pub deliver_existing : Bool
  pub ack_mode : WitAckMode

abbrev pub wit_ack_mode : AckMode → WitAckMode
wit_ack_mode auto = wit_auto
wit_ack_mode manual = wit_manual

-- `From<SubscriptionOptions>`
abbrev pub wit_options : SubscriptionOptions → WitSubscriptionOptions
wit_options o = record {
  durable = o.durable;
  deliver_existing = o.deliver_existing;
  ack_mode = wit_ack_mode o.ack_mode;
}

unfoldable pub to_wit_event : Codec → EventEnvelope → Result Str WitEventEnvelope
to_wit_event codec event = then_ok (codec.json_to_string event.payload) λ payload_json. ok (record {
  id = event.id;
  topic = event.topic;
  event_type = event.event_type;
  source = event.source;
  tenant = event.tenant;
  subject = event.subject;
  time = codec.to_rfc3339 event.time;
  correlation_id = event.correlation_id;
  payload_json = payload_json;
  metadata = event.metadata;
})

unfoldable pub from_wit_event : Codec → WitEventEnvelope → Result Str EventEnvelope
from_wit_event codec wit = then_ok (codec.parse_rfc3339 wit.time) λ time.
    then_ok (codec.new_id wit.id) λ id. then_ok (codec.json_from_str wit.payload_json) λ payload.
      ok (record {
        id = id;
        topic = wit.topic;
        event_type = wit.event_type;
        source = wit.source;
        tenant = wit.tenant;
        subject = wit.subject;
        time = time;
        correlation_id = wit.correlation_id;
        payload = payload;
        metadata = wit.metadata;
      })
