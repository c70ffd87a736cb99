-- ===== src/Runner/Broker.antt =====
-- src/runner.rs: the provider backed by a runner-hosted broker, with the task that polls for the
-- events of a subscription; the other factories, and the provider that drops what it is given.
use greentic_events.Base.{
  ℕ, Option, none, some, List, [], ◌∷◌, Result, ok, err, ◌*◌, Bool, true, false,
}
use greentic_events.Runner.{
  Codec, WitEventEnvelope, WitSubscriptionOptions, wit_options, to_wit_event, from_wit_event,
}
use greentic_events.Base.Str.{Str, codes}
use greentic_events.Base.Io.{Io, pure_io, ◌>>=◌}
use greentic_events.Event.{EventEnvelope, TenantCtx}
use greentic_events.Subscription.{AckMode, auto, manual, SubscriptionOptions, SubscriptionHandle}
use greentic_events.Descriptor.{
  EventProviderDescriptor, EventProviderSpec, broker, other, at_most_once, unordered,
  descriptor_from_spec,
}
use greentic_events.Provider.{EventProvider, EventProviderFactory}

pub record RunnerBrokerClient (W : Type 0) : Type 0 where
  pub publish : WitEventEnvelope → Io W Unit
  pub subscribe : Str → WitSubscriptionOptions → Io W Str
  pub next_event : Str → ℕ → Io W (Option WitEventEnvelope)
  pub ack_event : Str → Str → Io W Unit

-- The sending half of a subscription's channel: whether the event was taken, which it is unless
-- the receiver was dropped.
pub record Sender (W : Type 0) : Type 0 where
  pub send : EventEnvelope → W → Bool × W

-- What the code uses of tokio: a channel with its receiver, a task given by the body of its
-- loop, which says whether to go on, and sleep.
pub record Executor (W : Type 0) : Type 0 where
  pub subscription_channel : W → (Sender W × SubscriptionHandle) × W
  pub spawn : (W → Bool × W) → W → W
  pub sleep : ℕ → W → W

pub record RunnerBrokerProvider (W : Type 0) : Type 0 where
  pub descriptor : EventProviderDescriptor
  pub topics : List Str
  pub client : RunnerBrokerClient W
  pub poll_timeout : ℕ

-- What one subscription's task has.
pub record Poller (W : Type 0) : Type 0 where
  pub client : RunnerBrokerClient W
  pub subscription_id : Str
  pub timeout : ℕ
  pub ack_mode : AckMode
  pub tx : Sender W

-- `let _ = client.ack_event(…)`, in the automatic mode.
abbrev pub acknowledge : {W : Type 0} → Poller W → Str → W → AckMode → W
acknowledge p id w auto = (p.client.ack_event p.subscription_id id w).1
acknowledge p id w manual = w

abbrev pub after_send : {W : Type 0} → Poller W → Str → Bool × W → Bool × W
after_send p id (true, w) = (true, acknowledge p id w p.ack_mode)
after_send p id (false, w) = (false, w)

abbrev pub after_decode : {W : Type 0} → Poller W → Result Str EventEnvelope → W → Bool × W
after_decode p (ok ev) w = after_send p ev.id (p.tx.send ev w)
after_decode p (err e) w = (false, w)

abbrev pub after_next :
    {W : Type 0}
    → Codec
    → Executor W
    → Poller W
    → Result Str (Option WitEventEnvelope) × W
    → Bool × W
after_next codec executor p (ok (some wit), w) = after_decode p (from_wit_event codec wit) w
after_next codec executor p (ok none, w) = (true, executor.sleep 10_000_000 w)
after_next codec executor p (err e, w) = (false, w)

-- The body of the task's loop: whether the loop goes on.
unfoldable pub poll_once : {W : Type 0} → Codec → Executor W → Poller W → W → Bool × W
unfolding from_wit_event
poll_once codec executor p w =
    after_next codec executor p (p.client.next_event p.subscription_id p.timeout w)

module _ {W : Type 0} where
  abbrev pub new_provider :
      EventProviderDescriptor → List Str → RunnerBrokerClient W → RunnerBrokerProvider W
  new_provider descriptor topics client = record {
    descriptor = descriptor;
    topics = topics;
    client = client;
    poll_timeout = 1_000 * 1_000_000;
  }

  unfoldable pub broker_publish : Codec → RunnerBrokerProvider W → EventEnvelope → Io W Unit
  unfolding to_wit_event
  broker_publish codec provider event = do
    wit ← pure_io (to_wit_event codec event)
    provider.client.publish wit

  -- The task is spawned with the subscription's identifier, and the handle is returned at once.
  abbrev pub start_poller :
      Codec
      → Executor W
      → RunnerBrokerProvider W
      → SubscriptionOptions
      → Str
      → (Sender W × SubscriptionHandle) × W
      → Result Str SubscriptionHandle × W
  start_poller codec executor provider options subscription_id ((tx, handle), w) =
      let poller : Poller W = record {
        client = provider.client;
        subscription_id = subscription_id;
        timeout = provider.poll_timeout;
        ack_mode = options.ack_mode;
        tx = tx;
      } in
      (ok handle, executor.spawn (poll_once codec executor poller) w)

  unfoldable pub broker_subscribe :
      Codec
      → Executor W
      → RunnerBrokerProvider W
      → Str
      → TenantCtx
      → SubscriptionOptions
      → Io W SubscriptionHandle
  unfolding poll_once
  broker_subscribe codec executor provider topic tenant options = do
    subscription_id ← provider.client.subscribe topic (wit_options options)
    λ w.
        start_poller codec executor provider options subscription_id
          (executor.subscription_channel w)

  abbrev pub runner_provider : Codec → Executor W → RunnerBrokerProvider W → EventProvider W
  runner_provider codec executor provider = record {
    descriptor = provider.descriptor;
    topic_patterns = provider.topics;
    publish = broker_publish codec provider;
    subscribe = broker_subscribe codec executor provider;
  }

  -- `RunnerWitProviderFactory`
  abbrev pub runner_wit_factory : Codec → Executor W → RunnerBrokerClient W → EventProviderFactory W
  runner_wit_factory codec executor client = record {
    build_provider = λ spec. pure_io (
        ok (
          runner_provider codec executor
            (new_provider (descriptor_from_spec spec) spec.capabilities.topics client)));
  }

  -- `InMemoryProviderFactory`
  abbrev pub in_memory_factory : (W → EventProvider W × W) → EventProviderFactory W
  in_memory_factory builder = record {
    build_provider = λ spec w. let (provider, w1) = builder w in (ok provider, w1);
  }

  -- `RunnerProviderFactory`
  abbrev pub runner_provider_factory :
      (EventProviderSpec → Io W (EventProvider W)) → EventProviderFactory W
  runner_provider_factory build = record { build_provider = build }

  -- `NoopProvider`
  abbrev pub noop_provider : EventProvider W
  noop_provider = record {
    descriptor = record {
      name = codes "noop";
      kind = broker;
      transport = other (codes "noop");
      reliability = at_most_once;
      ordering = unordered;
      notes = some (codes "In-memory noop provider");
      tags = codes "noop" ∷ [];
    };
    topic_patterns = [];
    publish = λ event. pure_io (ok tt);
    subscribe =
        λ topic tenant options. pure_io (err (codes "Noop provider does not support subscribe"));
  }
