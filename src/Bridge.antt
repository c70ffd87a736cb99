-- ===== src/Bridge.antt =====
-- src/bridge.rs: the registry of bridges between channel messages and events, and its service.
-- A bridge acts on the world outside, of states `W`; `M` is the type of channel messages.
use greentic_events.Base.{Option, none, some, List, [], Result, ok, err}
use greentic_events.Base.Str.{Str}
use greentic_events.Base.Map.{lookup, insert}
use greentic_events.Event.{EventEnvelope}
use greentic_events.Error.{Outcome, bridge_not_found, bridge_error}

pub record MessageToEventBridge (W M : Type 0) : Type 0 where
  pub handle_message : M → W → Result Str (List EventEnvelope) × W

pub record EventToMessageBridge (W M : Type 0) : Type 0 where
  pub handle_event : EventEnvelope → W → Result Str (List M) × W

pub record BridgeFactory (W M : Type 0) : Type 0 where
  pub build_message_to_event : Str → W → Result Str (MessageToEventBridge W M) × W
  pub build_event_to_message : Str → W → Result Str (EventToMessageBridge W M) × W

pub record BridgeRegistry (W M : Type 0) : Type 0 where
  pub message_to_event : List (Str × MessageToEventBridge W M)
  pub event_to_message : List (Str × EventToMessageBridge W M)

abbrev pub empty_registry : (W M : Type 0) → BridgeRegistry W M
empty_registry W M = record { message_to_event = []; event_to_message = [] }

-- The error of a bridge, wrapped.
abbrev pub bridge_outcome : {W A : Type 0} → Result Str A × W → Outcome A × W
bridge_outcome (ok a, w) = (ok a, w)
bridge_outcome (err e, w) = (err (bridge_error e), w)

module _ {W M : Type 0} where
  unfoldable pub register_message_to_event :
      Str → MessageToEventBridge W M → BridgeRegistry W M → BridgeRegistry W M
  register_message_to_event name bridge r = record r {
    message_to_event = insert name bridge r.message_to_event;
  }

  unfoldable pub register_event_to_message :
      Str → EventToMessageBridge W M → BridgeRegistry W M → BridgeRegistry W M
  register_event_to_message name bridge r = record r {
    event_to_message = insert name bridge r.event_to_message;
  }

  abbrev pub invoke_message :
      Str → M → W → Option (MessageToEventBridge W M) → Outcome (List EventEnvelope) × W
  invoke_message name message w none = (err (bridge_not_found name), w)
  invoke_message name message w (some bridge) = bridge_outcome (bridge.handle_message message w)

  abbrev pub invoke_event :
      Str → EventEnvelope → W → Option (EventToMessageBridge W M) → Outcome (List M) × W
  invoke_event name event w none = (err (bridge_not_found name), w)
  invoke_event name event w (some bridge) = bridge_outcome (bridge.handle_event event w)

  -- `BridgeService::handle_message` over the service's registry.
  unfoldable pub handle_message :
      BridgeRegistry W M → Str → M → W → Outcome (List EventEnvelope) × W
  handle_message r name message w = invoke_message name message w (lookup name r.message_to_event)

  -- `BridgeService::handle_event`
  unfoldable pub handle_event : BridgeRegistry W M → Str → EventEnvelope → W → Outcome (List M) × W
  handle_event r name event w = invoke_event name event w (lookup name r.event_to_message)
