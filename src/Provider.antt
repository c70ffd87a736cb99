-- ===== src/Provider.antt =====
-- src/provider.rs: what a provider implements, and the runtime configuration of a registered one.
-- A provider acts on the world outside the bus: `W` is the type of that world's states, and each
-- method returns the state that it leaves.
use greentic_events.Base.{List, Option, Result}
use greentic_events.Base.Str.{Str}
use greentic_events.Event.{EventEnvelope, TenantCtx}
use greentic_events.Backoff.{RetryPolicy}
use greentic_events.Subscription.{SubscriptionOptions, SubscriptionHandle}
use greentic_events.Descriptor.{EventProviderDescriptor, EventProviderSpec}

-- The error of a provider is its message.
pub record EventProvider (W : Type 0) : Type 0 where
  pub descriptor : EventProviderDescriptor
  pub topic_patterns : List Str
  pub publish : EventEnvelope → W → Result Str Unit × W
  pub subscribe : Str → TenantCtx → SubscriptionOptions → W → Result Str SubscriptionHandle × W

pub record EventProviderFactory (W : Type 0) : Type 0 where
  pub build_provider : EventProviderSpec → W → Result Str (EventProvider W) × W

pub record ProviderRegistration (W : Type 0) : Type 0 where
  pub descriptor : EventProviderDescriptor
  pub topics : List Str
  pub dlq_topic : Option Str
  pub retry : RetryPolicy
  pub backend : EventProvider W
