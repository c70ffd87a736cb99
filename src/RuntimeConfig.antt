-- ===== src/RuntimeConfig.antt =====
-- crates/greentic-events-runtime/src/lib.rs: the retry policy that a configuration gives.
-- The configuration types (crate greentic-config-types) have the fields that the code reads; of the
-- endpoint that is the URL. The number type of the multiplier is a parameter, with the test
-- `multiplier <= 1.0`.
pub mod Policy
use greentic_events.Base.{
  ℕ, Bool, true, false, Option, none, some, if◌then◌else◌, is_some, unwrap_or, and_then,
}
use greentic_events.Base.Str.{Str}
use greentic_events.Backoff.{
  RetryPolicy, BackoffStrategy, fixed, exponential, exponential_with_jitter, default_policy,
  from_millis,
}

pub record ReconnectConfig : Type 0 where
  pub max_retries : Option ℕ

pub record BackoffConfig (F : Type 0) : Type 0 where
  pub initial_ms : Option ℕ
  pub max_ms : Option ℕ
  pub multiplier : Option F
  pub jitter : Option Bool

-- `EventsRuntimeConfig`, without the telemetry and network settings, which are only passed on.
pub record EventsRuntimeConfig (F : Type 0) : Type 0 where
  pub endpoint : Option Str
  pub reconnect : Option ReconnectConfig
  pub backoff : Option (BackoffConfig F)

-- An assignment under `if let Some(v) = …`.
abbrev pub set_if :
    {A : Type 0} → Option A → (A → RetryPolicy → RetryPolicy) → RetryPolicy → RetryPolicy
set_if none assign policy = policy
set_if (some v) assign policy = assign v policy

abbrev pub with_reconnect : Option ReconnectConfig → RetryPolicy → RetryPolicy
with_reconnect none policy = policy
with_reconnect (some reconnect) policy =
    set_if reconnect.max_retries (λ max p. record p { max_retries = max }) policy

abbrev pub by_jitter : Bool → BackoffStrategy
by_jitter jitter = if jitter then exponential_with_jitter else exponential

-- The strategy, by the multiplier and the jitter setting.
abbrev pub with_strategy :
    {F : Type 0} → (F → Bool) → Option F → Option Bool → RetryPolicy → RetryPolicy
with_strategy le_one (some multiplier) jitter policy = record policy {
  strategy = if le_one multiplier then fixed else by_jitter (unwrap_or jitter true);
}
with_strategy le_one none none policy = policy
with_strategy le_one none (some jitter) policy = record policy { strategy = by_jitter jitter }

abbrev pub with_backoff :
    {F : Type 0} → (F → Bool) → Option (BackoffConfig F) → RetryPolicy → RetryPolicy
with_backoff le_one none policy = policy
with_backoff le_one (some backoff) policy = with_strategy le_one backoff.multiplier backoff.jitter (
    set_if backoff.max_ms (λ max p. record p { max_delay = from_millis max })
      (set_if backoff.initial_ms (λ initial p. record p { base_delay = from_millis initial })
        policy))

unfoldable pub retry_policy_from : {F : Type 0} → (F → Bool) → EventsRuntimeConfig F → RetryPolicy
retry_policy_from le_one runtime =
    with_backoff le_one runtime.backoff (with_reconnect runtime.reconnect default_policy)

-- The sections of a resolved configuration (crate greentic-config-types) that the runtime reads.
pub record ServicesConfig : Type 0 where
  pub events : Option Str

pub record EventsConfig (F : Type 0) : Type 0 where
  pub reconnect : Option ReconnectConfig
  pub backoff : Option (BackoffConfig F)

pub record GreenticConfig (F : Type 0) : Type 0 where
  pub services : Option ServicesConfig
  pub events : Option (EventsConfig F)

module _ {F : Type 0} where
  unfoldable pub from_greentic : GreenticConfig F → EventsRuntimeConfig F
  from_greentic config = record {
    endpoint = and_then config.services (λ (s : ServicesConfig). s.events);
    reconnect = and_then config.events (λ (e : EventsConfig F). e.reconnect);
    backoff = and_then config.events (λ (e : EventsConfig F). e.backoff);
  }

  abbrev pub endpoint_url : EventsRuntimeConfig F → Option Str
  endpoint_url runtime = runtime.endpoint

  abbrev pub to_retry_policy : (F → Bool) → EventsRuntimeConfig F → RetryPolicy
  to_retry_policy le_one runtime = retry_policy_from le_one runtime
