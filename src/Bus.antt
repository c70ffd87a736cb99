-- ===== src/Bus.antt =====
-- src/bus.rs: `EventBus`, with `publish`, `subscribe` and what they call.
-- The bus itself does not change. What its methods change through shared references is `BusState`:
-- the counters, the state `S` of the idempotency store, and the world `W` outside, on which
-- providers act. `M` is the type of channel messages. Tracing spans and the measured latency, which
-- only the OpenTelemetry histogram receives, are not modelled.
pub mod Action
pub mod Gate
pub mod Gated
pub mod Retry
pub mod Routing
pub mod Failure
pub mod Tenants
pub mod Accounting
pub mod Duplicates
use greentic_events.Base.{
  ℕ, zero, suc, ◌+◌, Bool, true, false, ◌||◌, not, Option, none, some, List, [], ◌∷◌, ◌++◌, map,
  Result, ok, err, ◌==◌, if◌then◌else◌, any, find, ok_or, map_err, unwrap_or,
}
use greentic_events.Base.Str.{Str, codes}
use greentic_events.Base.Map.{lookup, insert}
use greentic_events.Event.{EventEnvelope, TenantCtx, Json}
use greentic_events.Error.{Outcome, EventBusError, no_provider, duplicate, delivery_failed, other}
use greentic_events.Pattern.{matches_pattern}
use greentic_events.Acl.{TopicAcl, allow_publish, allow_subscribe}
use greentic_events.Backoff.{RetryPolicy, is_retryable, delay_for_attempt}
use greentic_events.Idempotency.{IdempotencyStore}
use greentic_events.Metrics.{EventMetrics, record_in, record_out, record_failed, record_dlq}
use greentic_events.Bridge.{BridgeRegistry}
use greentic_events.Subscription.{SubscriptionOptions, SubscriptionHandle}
use greentic_events.Descriptor.{EventProviderDescriptor}
use greentic_events.Provider.{EventProvider, ProviderRegistration}
use greentic_events.Bus.Action.{
  BusState, Act, lift, count, run_world, record_idempotency, ◌>>=◌, ◌>>◌,
}

-- The timer and the random number generator: a sleep moves the world on, and the sample for an
-- inclusive bound depends on the state of the world.
pub record Runtime (W : Type 0) : Type 0 where
  pub sleep : ℕ → W → W
  pub draw : W → ℕ → ℕ

pub record EventBus (W S M : Type 0) : Type 0 where
  pub providers : List (ProviderRegistration W)
  pub acl : TopicAcl
  pub idempotency : IdempotencyStore S
  pub bridges : BridgeRegistry W M

-- One round of the retry loop: a success returns, the last round or an error that is not retryable
-- breaks out, and otherwise the loop sleeps and goes on.
unfoldable pub after_attempt :
    {W : Type 0}
    → Runtime W
    → RetryPolicy
    → ℕ
    → (Str → W → Result Str Unit × W)
    → Result Str Unit × W
    → Result Str Unit × W
after_attempt rt retry attempt next (ok u, w) = (ok u, w)
after_attempt rt retry attempt next (err e, w) =
    if attempt == retry.max_retries || not (is_retryable retry e)
    then (err e, w)
    else next e (rt.sleep (delay_for_attempt (rt.draw w) retry (attempt + 1)) w)

-- `for attempt in 0..=max_retries`, by the count of rounds left, with the error kept so far.
unfoldable pub retry_rounds :
    {W : Type 0}
    → Runtime W
    → ProviderRegistration W
    → EventEnvelope
    → ℕ
    → ℕ
    → Option Str
    → W
    → Result Str Unit × W
unfolding after_attempt
retry_rounds rt provider event zero attempt last_err w =
    (err (unwrap_or last_err (codes "unknown error")), w)
retry_rounds rt provider event (suc n) attempt last_err w =
    after_attempt rt provider.retry attempt
      (λ e w'. retry_rounds rt provider event n (attempt + 1) (some e) w')
      (provider.backend.publish event w)

unfoldable pub publish_with_retry :
    {W : Type 0} → Runtime W → ProviderRegistration W → EventEnvelope → W → Result Str Unit × W
unfolding retry_rounds
publish_with_retry rt provider event w =
    retry_rounds rt provider event (suc provider.retry.max_retries) 0 none w

abbrev pub serves : {W : Type 0} → Str → ProviderRegistration W → Bool
serves topic provider = any (λ pattern. matches_pattern pattern topic) provider.topics

abbrev pub idempotency_key : Str
idempotency_key = codes "idempotency_key"

-- The key under which an event is recorded.
abbrev pub composed_key : EventEnvelope → Str → Str
composed_key event key = event.tenant.tenant ++ (codes ":" ++ key)

-- The event for the dead letter queue.
unfoldable pub dlq_event_of :
    {W : Type 0} → ProviderRegistration W → EventEnvelope → Str → EventEnvelope
dlq_event_of provider event reason = record event {
  topic = unwrap_or provider.dlq_topic (event.topic ++ codes ".dlq");
  metadata = insert (codes "dlq_reason") reason event.metadata;
}

module _ {W S : Type 0} where
  unfoldable pub publish_to_dlq : ProviderRegistration W → EventEnvelope → Act W S Unit
  publish_to_dlq provider event = do run_world (provider.backend.publish event); count record_dlq

  -- The match on the outcome of the retries.
  unfoldable pub finish : ProviderRegistration W → EventEnvelope → Result Str Unit → Act W S Unit
  unfolding publish_to_dlq dlq_event_of
  finish provider event (ok u) = count record_out
  finish provider event (err reason) = do
    count record_failed
    publish_to_dlq provider (dlq_event_of provider event reason)
    lift (err (delivery_failed provider.descriptor.name reason))

  -- The provider's error becomes `EventBusError::Other`.
  abbrev pub subscribed : Result Str SubscriptionHandle → Act W S SubscriptionHandle
  subscribed r = lift (map_err other r)

module _ {W S M : Type 0} where
  unfoldable pub provider_for_topic : EventBus W S M → Str → Outcome (ProviderRegistration W)
  unfolding find
  provider_for_topic bus topic = ok_or (find (serves topic) bus.providers) (no_provider topic)

  -- The check of the key, where the event has one.
  unfoldable pub check_key : EventBus W S M → EventEnvelope → Option Str → Act W S Unit
  check_key bus event none st = (ok tt, st)
  check_key bus event (some key) st =
      record_idempotency bus.idempotency (composed_key event key)
        (duplicate (composed_key event key)) st

  -- The block inside the span.
  unfoldable pub deliver :
      Runtime W → EventBus W S M → ProviderRegistration W → EventEnvelope → Act W S Unit
  unfolding check_key finish
  deliver rt bus provider event = do
    count record_in
    check_key bus event (lookup idempotency_key event.metadata)
    result ← run_world (publish_with_retry rt provider event)
    finish provider event result

  unfoldable pub publish : Runtime W → EventBus W S M → EventEnvelope → Act W S Unit
  unfolding deliver
  publish rt bus event = do
    lift (allow_publish bus.acl event.tenant event.topic)
    provider ← lift (provider_for_topic bus event.topic)
    deliver rt bus provider event

  unfoldable pub subscribe :
      EventBus W S M → Str → TenantCtx → SubscriptionOptions → Act W S SubscriptionHandle
  subscribe bus topic tenant options = do
    lift (allow_subscribe bus.acl tenant topic)
    provider ← lift (provider_for_topic bus topic)
    result ← run_world (provider.backend.subscribe topic tenant options)
    subscribed result

  unfoldable pub list_providers : EventBus W S M → List EventProviderDescriptor
  list_providers bus = map (λ (p : ProviderRegistration W). p.descriptor) bus.providers
