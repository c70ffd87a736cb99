-- ===== src/E2e/DryBus.antt =====
-- src/e2e.rs: the dry run of subscriptions, a bus over one provider that broadcasts to itself.
-- The broadcast channel, its forwarding tasks and the receiver with its timeout (crate tokio) are a
-- parameter: `Broadcast`. What a provider has kept and the factory's map are parts of the world.
pub mod Topics
use greentic_events.Base.{
  ℕ, Bool, true, false, Option, none, some, List, [], ◌∷◌, Result, ok, err, map_err, push,
  if◌then◌else◌, find, any,
}
use greentic_events.Base.Str.{Str, codes, is_blank}
use greentic_events.Base.Io.{Io, ◌>>=◌, ◌>>◌, pure_io}
use greentic_events.Event.{EventEnvelope, TenantCtx}
use greentic_events.Error.{Outcome, display}
use greentic_events.Backoff.{default_policy}
use greentic_events.Subscription.{SubscriptionOptions, SubscriptionHandle, auto}
use greentic_events.Descriptor.{EventProviderSpec, descriptor_from_spec}
use greentic_events.Provider.{EventProvider, ProviderRegistration}
use greentic_events.Bus.Action.{Act, BusState}
use greentic_events.Bus.{Runtime, EventBus, publish, subscribe}
use greentic_events.Builder.{default_builder, register_provider, build}
use greentic_events.Runner.Broker.{Sender}
use greentic_events.E2e.{PackLoad}
use greentic_events.E2e.Task.{Task, safely}
use greentic_events.E2e.Checks.{Formats}
use greentic_events.E2e.Fixtures.{Envelopes}
use greentic_events.E2e.Live.{Host}
use greentic_events.E2e.Live.Broker.{tried_topic, tried_event, tried_broker}

pub record Broadcast (W : Type 0) : Type 0 where
  -- the events that the provider was given
  pub published : W → List EventEnvelope
  pub keep : EventEnvelope → W → W
  -- the sending half of the broadcast channel
  pub send : EventEnvelope → W → W
  pub subscription_channel : W → (Sender W × SubscriptionHandle) × W
  -- a task that forwards what is broadcast from now on
  pub forward : Sender W → W → W
  -- the factory's entry for a provider's name
  pub register : Str → W → W
  -- `timeout(…, subscription.next())`: nothing where the time elapsed
  pub next : SubscriptionHandle → W → Option (Option EventEnvelope) × W

-- The loop over the events that were published: a receiver that was dropped ends it.
unfoldable pub send_all : {W : Type 0} → Sender W → List EventEnvelope → W → W
send_all tx [] w = w
send_all tx (ev ∷ events) w =
    let (taken, w1) = tx.send ev w in let rest = send_all tx events w1 in if taken then rest else w1

module _ {W : Type 0} (t : Broadcast W) where
  abbrev pub dry_publish : EventEnvelope → Io W Unit
  dry_publish event w = (ok tt, t.send event (t.keep event w))

  abbrev pub deliver_existing : Bool → Sender W → W → W
  deliver_existing existing tx w = if existing then send_all tx (t.published w) w else w

  abbrev pub dry_subscribe : Str → TenantCtx → SubscriptionOptions → Io W SubscriptionHandle
  dry_subscribe topic tenant options w =
      let ((tx, handle), w1) = t.subscription_channel w in
      (ok handle, t.forward tx (deliver_existing options.deliver_existing tx w1))

  -- `DryRunProvider`
  abbrev pub dry_provider : EventProviderSpec → EventProvider W
  dry_provider spec = record {
    descriptor = descriptor_from_spec spec;
    topic_patterns = spec.capabilities.topics;
    publish = dry_publish;
    subscribe = dry_subscribe;
  }

  abbrev pub registered : EventProviderSpec → ProviderRegistration W
  registered spec = record {
    descriptor = descriptor_from_spec spec;
    topics = spec.capabilities.topics;
    dlq_topic = none;
    retry = default_policy;
    backend = dry_provider spec;
  }

  abbrev pub registration_from_spec : EventProviderSpec → Io W (ProviderRegistration W)
  registration_from_spec spec w = (ok (registered spec), t.register spec.name w)

-- A method of the bus under `?`.
abbrev pub on_bus : {W S A : Type 0} → Act W S A → Io (BusState W S) A
on_bus act st = let (r, st1) = act st in (map_err display r, st1)

abbrev pub dry_options : SubscriptionOptions
dry_options = record { durable = false; deliver_existing = false; ack_mode = auto }

-- The two contexts of the receiver, and its event.
abbrev pub arrived : Option (Option EventEnvelope) → Result Str EventEnvelope
arrived none = err (codes "subscription receive timed out")
arrived (some none) = err (codes "subscription channel closed")
arrived (some (some event)) = ok event

module _ {W R : Type 0} (t : Broadcast W) (rt : Runtime W) (host : Host W R) (x : Envelopes R) where
  abbrev pub next_event : {S : Type 0} → SubscriptionHandle → Io (BusState W S) EventEnvelope
  next_event handle st =
      let (received, w) = t.next handle st.world in (arrived received, record st { world = w })

  -- From the bus on: subscribe, publish, and wait for the event.
  unfoldable pub try_bus :
      {S M : Type 0} → EventBus W S M → EventProviderSpec → Io (BusState W S) Unit
  unfolding subscribe publish is_blank
  try_bus bus provider = do
    tenant ← pure_io (host.new_tenant (codes "dev") (codes "tenant"))
    handle ← on_bus (subscribe bus (tried_topic provider) tenant dry_options)
    time ← pure_io x.fixed_time
    id ← pure_io (x.event_id (codes "evt-subscription"))
    on_bus (publish rt bus (tried_event id (tried_topic provider) tenant time))
    received ← next_event handle
    pure_io
        (if is_blank received.topic then err (codes "subscription received empty topic") else ok tt)

  abbrev pub with_bus : (M : Type 0) → EventProviderSpec → ProviderRegistration W → Io W Unit
  with_bus M provider registration w =
      let (bus, st) = build (register_provider registration (default_builder W M)) w in
      let (r, st1) = try_bus bus provider st in (r, st1.world)

  unfoldable pub dry_sync : (M : Type 0) → Formats → PackLoad → List EventProviderSpec → Io W Unit
  unfolding try_bus build tried_broker
  dry_sync M f pack providers = do
    provider ← pure_io (tried_broker host f pack providers)
    registration ← registration_from_spec t provider
    with_bus M provider registration

  -- `FixtureSubscriptionRunner::sync`, `live` being its live branch.
  unfoldable pub fixture_sync :
      (M : Type 0)
      → Formats
      → (PackLoad → List EventProviderSpec → Task W Unit)
      → PackLoad
      → List EventProviderSpec
      → Bool
      → Task W Unit
  unfolding dry_sync
  fixture_sync M f live pack providers true = live pack providers
  fixture_sync M f live pack providers false = safely (dry_sync M f pack providers)
