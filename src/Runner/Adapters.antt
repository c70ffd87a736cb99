-- ===== src/Runner/Adapters.antt =====
-- src/runner.rs: bridges backed by runner-hosted components.
use greentic_events.Base.{Option, none, List, [], ◌∷◌, map, Result, ok, then_ok, ◌≡◌, refl, ap, ℕ}
use greentic_events.Base.Str.{Str}
use greentic_events.Base.Io.{Io, pure_io, ◌>>=◌}
use greentic_events.Event.{Dict, EventEnvelope, TenantCtx}
use greentic_events.Message.{Attachment, ChannelMessageEnvelope}
use greentic_events.Bridge.{MessageToEventBridge, EventToMessageBridge, BridgeFactory}
use greentic_events.Runner.{Codec, WitEventEnvelope, to_wit_event, from_wit_event}

pub record WitAttachment : Type 0 where
  pub mime_type : Str
  pub url : Str
  pub name : Option Str
  pub size_bytes : Option ℕ

pub record WitChannelMessageEnvelope : Type 0 where
  pub id : Str
  pub tenant : TenantCtx
  pub channel : Str
  pub session_id : Str
  pub user_id : Option Str
  pub text : Option Str
  pub attachments : List WitAttachment
  pub metadata : Dict Str

abbrev pub to_wit_attachment : Attachment → WitAttachment
to_wit_attachment a = record {
  mime_type = a.mime_type;
  url = a.url;
  name = a.name;
  size_bytes = a.size_bytes;
}

abbrev pub from_wit_attachment : WitAttachment → Attachment
from_wit_attachment a = record {
  mime_type = a.mime_type;
  url = a.url;
  name = a.name;
  size_bytes = a.size_bytes;
}

unfoldable pub to_wit_message : {R : Type 0} → ChannelMessageEnvelope R → WitChannelMessageEnvelope
to_wit_message msg = record {
  id = msg.id;
  tenant = msg.tenant;
  channel = msg.channel;
  session_id = msg.session_id;
  user_id = msg.user_id;
  text = msg.text;
  attachments = map to_wit_attachment msg.attachments;
  metadata = msg.metadata;
}

unfoldable pub from_wit_message :
    {R : Type 0} → WitChannelMessageEnvelope → ChannelMessageEnvelope R
from_wit_message msg = record {
  id = msg.id;
  tenant = msg.tenant;
  channel = msg.channel;
  session_id = msg.session_id;
  reply_scope = none;
  user_id = msg.user_id;
  correlation_id = none;
  text = msg.text;
  attachments = map from_wit_attachment msg.attachments;
  metadata = msg.metadata;
}

pub record RunnerBridgeClient (W : Type 0) : Type 0 where
  pub handle_message : Str → WitChannelMessageEnvelope → Io W (List WitEventEnvelope)
  pub handle_event : Str → WitEventEnvelope → Io W (List WitChannelMessageEnvelope)

-- `map(from_wit_event).collect::<Result<Vec<_>>>()`
unfoldable pub decode_all : Codec → List WitEventEnvelope → Result Str (List EventEnvelope)
unfolding from_wit_event
decode_all codec [] = ok []
decode_all codec (wit ∷ wits) =
    then_ok (from_wit_event codec wit)
      λ event. then_ok (decode_all codec wits) λ events. ok (event ∷ events)

module _ {W R : Type 0} where
  -- `RunnerMessageToEventBridgeAdapter` and `RunnerEventToMessageBridgeAdapter`
  unfoldable pub message_to_event_adapter :
      Codec → Str → RunnerBridgeClient W → MessageToEventBridge W (ChannelMessageEnvelope R)
  unfolding to_wit_message decode_all
  message_to_event_adapter codec name client = record {
    handle_message = λ message. do
      wits ← client.handle_message name (to_wit_message message)
      pure_io (decode_all codec wits);
  }

  unfoldable pub event_to_message_adapter :
      Codec → Str → RunnerBridgeClient W → EventToMessageBridge W (ChannelMessageEnvelope R)
  unfolding to_wit_event from_wit_message
  event_to_message_adapter codec name client = record {
    handle_event = λ event. do
      wit ← pure_io (to_wit_event codec event)
      messages ← client.handle_event name wit
      pure_io (ok (map from_wit_message messages));
  }

  -- `RunnerWitBridgeFactory`
  abbrev pub wit_bridge_factory :
      Codec → RunnerBridgeClient W → BridgeFactory W (ChannelMessageEnvelope R)
  wit_bridge_factory codec client = record {
    build_message_to_event = λ name. pure_io (ok (message_to_event_adapter codec name client));
    build_event_to_message = λ name. pure_io (ok (event_to_message_adapter codec name client));
  }

  -- `RunnerBridgeFactory`
  abbrev pub runner_bridge_factory :
      (Str → Io W (MessageToEventBridge W (ChannelMessageEnvelope R)))
      → (Str → Io W (EventToMessageBridge W (ChannelMessageEnvelope R)))
      → BridgeFactory W (ChannelMessageEnvelope R)
  runner_bridge_factory message_to_event event_to_message = record {
    build_message_to_event = message_to_event;
    build_event_to_message = event_to_message;
  }

  -- `FnMessageToEventBridge` and `FnEventToMessageBridge`
  abbrev pub fn_message_bridge :
      (ChannelMessageEnvelope R → Io W (List EventEnvelope))
      → MessageToEventBridge W (ChannelMessageEnvelope R)
  fn_message_bridge handler = record { handle_message = handler }

  abbrev pub fn_event_bridge :
      (EventEnvelope → Io W (List (ChannelMessageEnvelope R)))
      → EventToMessageBridge W (ChannelMessageEnvelope R)
  fn_event_bridge handler = record { handle_event = handler }

attachments_back : (xs : List Attachment) → map from_wit_attachment (map to_wit_attachment xs) ≡ xs
attachments_back [] = refl
attachments_back (a ∷ xs) = ap (λ ys. a ∷ ys) (attachments_back xs)

-- A message that was put on the wire is read back from it without its reply scope and its
-- correlation identifier, and otherwise unchanged.
pub from_wit_message-to_wit_message :
    {R : Type 0} (msg : ChannelMessageEnvelope R)
    → from_wit_message (to_wit_message msg)
      ≡ record msg { reply_scope = none; correlation_id = none }
unfolding from_wit_message to_wit_message
from_wit_message-to_wit_message msg i = record msg {
  reply_scope = none;
  correlation_id = none;
  attachments = attachments_back msg.attachments i;
}
