-- ===== src/E2e/Live/Broker.antt =====
-- src/e2e.rs: the commands that try a broker in live mode.
use greentic_events.Base.{
  ℕ, ◌==◌, Bool, true, false, not, Option, none, some, List, [], ◌∷◌, ◌++◌, Result, ok, err,
  then_ok, ok_or, map_err, and_then, find, if◌then◌else◌,
}
use greentic_events.Base.Str.{Str, codes, is_blank}
use greentic_events.Base.Io.{Io, pure_io, ◌>>=◌, ◌>>◌}
use greentic_events.Event.{
  Json, Fields, end, field, object, string, bool, number, EventEnvelope, TenantCtx, as_str, array,
}
use greentic_events.Event.Object.{get}
use greentic_events.Descriptor.{EventProviderSpec, broker}
use greentic_events.E2e.{PackLoad, load_fixture}
use greentic_events.E2e.Checks.{Formats}
use greentic_events.E2e.Run.{kind_is}
use greentic_events.E2e.Fixtures.{Envelopes}
use greentic_events.E2e.Live.{Host, run_command_json, member}

-- `pattern.replace('*', "test")`
unfoldable pub sample_topic : Str → Str
sample_topic [] = []
sample_topic (c ∷ s) = (if c == b'*' then codes "test" else c ∷ []) ++ sample_topic s

abbrev pub broker_of : List EventProviderSpec → Option EventProviderSpec
broker_of providers = find (λ (p : EventProviderSpec). kind_is broker p.kind) providers

-- The topic on which a broker is tried.
abbrev pub tried_topic : EventProviderSpec → Str
tried_topic provider = elim provider.capabilities.topics [
  | [] ↦ codes "greentic.events.test"
  | pattern ∷ _ ↦ sample_topic pattern
]

-- The event with which a broker is tried.
abbrev pub tried_event : Str → Str → TenantCtx → ℕ → EventEnvelope
tried_event id topic tenant time = record {
  id = id;
  topic = topic;
  event_type = codes "greentic.events.subscription";
  source = codes "greentic-events-test";
  tenant = tenant;
  subject = some (codes "subscription");
  time = time;
  correlation_id = none;
  payload = object end;
  metadata = [];
}

module _ {W R : Type 0} (host : Host W R) where
  -- What a broker's commands share.
  abbrev broker_payload : Str → PackLoad → EventProviderSpec → Fields → Json
  broker_payload op pack provider more = object (
      field (codes "op") (string op) (
        field (codes "pack_id") (string pack.pack_id)
          (field (codes "provider") (string provider.name) more)))

  abbrev subscribe_payload : PackLoad → EventProviderSpec → Json
  subscribe_payload pack provider = broker_payload (codes "subscribe") pack provider (
      field (codes "topic") (string (tried_topic provider)) (
        field (codes "options")
          (object (
            field (codes "durable") (bool false) (
              field (codes "deliver_existing") (bool false)
                (field (codes "ack_mode") (string (codes "auto")) end))))
          end))

  abbrev publish_payload : PackLoad → EventProviderSpec → EventEnvelope → Json
  publish_payload pack provider event =
      broker_payload (codes "publish") pack provider
        (field (codes "event") (host.event_value event) end)

  abbrev next_payload : PackLoad → EventProviderSpec → Str → Json
  next_payload pack provider subscription_id = broker_payload (codes "next_event") pack provider (
      field (codes "subscription_id") (string subscription_id)
        (field (codes "timeout_ms") (number 500) end))

  abbrev ack_payload : PackLoad → EventProviderSpec → Str → EventEnvelope → Json
  ack_payload pack provider subscription_id received =
      broker_payload (codes "ack_event") pack provider (
        field (codes "subscription_id") (string subscription_id)
          (field (codes "event_id") (string received.id) end))

  abbrev is_array : Json → Bool
  is_array (array items) = true
  is_array _ = false

  -- The fixture that says which subscriptions to expect, which must be an array, and the broker.
  unfoldable pub tried_broker :
      Formats → PackLoad → List EventProviderSpec → Result Str EventProviderSpec
  unfolding load_fixture find
  tried_broker f pack providers =
      then_ok
        (map_err (λ _. codes "subscriptions fixture missing or invalid")
          (load_fixture f.decode_value pack (codes "fixtures/subscriptions.expected.json")))
        λ expected.
          if not (is_array expected)
          then err (codes "subscriptions expected fixture must be a JSON array")
          else ok_or (broker_of providers)
              (codes "subscriptions requested but no broker providers declared")

  -- A response that has an event's topic.
  abbrev received_event : Json → Result Str EventEnvelope
  received_event response =
      then_ok (member (codes "event") (codes "live next_event response missing event") response)
        λ value.
          then_ok (map_err (λ _. codes "parse live event") (host.event_of_value value)) λ received.
            if is_blank received.topic
            then err (codes "subscription received empty topic")
            else ok received

  unfoldable pub command_subscriptions :
      Formats → Envelopes R → Str → PackLoad → List EventProviderSpec → Io W Unit
  unfolding tried_broker sample_topic run_command_json
  command_subscriptions f x command pack providers = do
    provider ← pure_io (tried_broker f pack providers)
    tenant ← pure_io (host.new_tenant (codes "dev") (codes "tenant"))
    response ← run_command_json host command (subscribe_payload pack provider)
    subscription_id ← pure_io (
        ok_or (and_then (get (codes "subscription_id") response) as_str)
          (codes "live subscribe response missing subscription_id"))
    time ← pure_io x.fixed_time
    id ← pure_io (x.event_id (codes "evt-subscription"))
    run_command_json host command
        (publish_payload pack provider (tried_event id (tried_topic provider) tenant time))
    next ← run_command_json host command (next_payload pack provider subscription_id)
    received ← pure_io (received_event next)
    run_command_json host command (ack_payload pack provider subscription_id received)
    pure_io (ok tt)
