-- ===== src/RuntimeConfig/Policy.antt =====
-- crates/greentic-events-runtime/src/lib.rs: which retry policy `retry_policy_from` gives.
use greentic_events.Base.{
  ℕ, ◌≡◌, refl, ap, ◌∙◌, Bool, true, false, Option, none, some, if◌then◌else◌, and_then, unwrap_or,
  map_option, [], Option-cases, inl, inr,
}
use greentic_events.Backoff.{
  RetryPolicy, BackoffStrategy, fixed, exponential, exponential_with_jitter, default_policy,
  from_millis,
}
use greentic_events.RuntimeConfig.{
  ReconnectConfig, BackoffConfig, EventsRuntimeConfig, retry_policy_from, set_if, with_reconnect,
  with_strategy, with_backoff,
}

-- Jitter is on unless it is switched off; no exponential growth where the multiplier is at most 1.
abbrev pub strategy_for : {F : Type 0} → (F → Bool) → Option F → Option Bool → BackoffStrategy
strategy_for le_one multiplier jitter =
    if unwrap_or (map_option le_one multiplier) false
    then fixed
    else if unwrap_or jitter true
    then exponential_with_jitter
    else exponential

set_max_delay :
    (o : Option ℕ) (p : RetryPolicy)
    → set_if o (λ max q. record q { max_delay = from_millis max }) p
      ≡ record p { max_delay = unwrap_or (map_option from_millis o) p.max_delay }
set_max_delay none p = refl
set_max_delay (some v) p = refl

set_base_delay :
    (o : Option ℕ) (p : RetryPolicy)
    → set_if o (λ initial q. record q { base_delay = from_millis initial }) p
      ≡ record p { base_delay = unwrap_or (map_option from_millis o) p.base_delay }
set_base_delay none p = refl
set_base_delay (some v) p = refl

set_max_retries :
    (r : Option ReconnectConfig) (p : RetryPolicy)
    → with_reconnect r p
      ≡ record p { max_retries = unwrap_or (and_then r (λ c. c.max_retries)) p.max_retries }
set_max_retries none p = refl
set_max_retries (some r) p = elim (Option-cases r.max_retries) [
  | inl e ↦ rw e refl
  | inr (v, e) ↦ rw e refl
]

set_strategy :
    {F : Type 0} (le_one : F → Bool) (m : Option F) (j : Option Bool) (p : RetryPolicy)
    → p.strategy ≡ exponential_with_jitter
    → with_strategy le_one m j p ≡ record p { strategy = strategy_for le_one m j }
set_strategy le_one (some m) j p h = refl
set_strategy le_one none none p h = λ i. record p { strategy = h i }
set_strategy le_one none (some j) p h = refl

set_backoff :
    {F : Type 0} (le_one : F → Bool) (o : Option (BackoffConfig F)) (p : RetryPolicy)
    → p.strategy ≡ exponential_with_jitter
    → with_backoff le_one o p ≡ record p {
      strategy = strategy_for le_one (and_then o (λ b. b.multiplier)) (and_then o (λ b. b.jitter));
      base_delay = unwrap_or (map_option from_millis (and_then o (λ b. b.initial_ms))) p.base_delay;
      max_delay = unwrap_or (map_option from_millis (and_then o (λ b. b.max_ms))) p.max_delay;
    }
set_backoff le_one none p h = λ i. record p { strategy = h i }
set_backoff le_one (some b) p h =
    ap (with_strategy le_one b.multiplier b.jitter) (
      ap (λ q. set_if b.max_ms (λ max q. record q { max_delay = from_millis max }) q)
        (set_base_delay b.initial_ms p)
      ∙ set_max_delay b.max_ms _)
    ∙ set_strategy le_one b.multiplier b.jitter _ h

-- The policy, field by field: what the configuration sets, else the default.
pub retry_policy_from_fields :
    {F : Type 0} (le_one : F → Bool) (runtime : EventsRuntimeConfig F)
    → retry_policy_from le_one runtime ≡ record {
      max_retries =
          unwrap_or (and_then runtime.reconnect (λ r. r.max_retries)) default_policy.max_retries;
      strategy =
          strategy_for le_one
            (and_then runtime.backoff (λ b. b.multiplier))
            (and_then runtime.backoff (λ b. b.jitter));
      base_delay =
          unwrap_or
            (map_option from_millis (and_then runtime.backoff (λ b. b.initial_ms)))
            default_policy.base_delay;
      max_delay =
          unwrap_or
            (map_option from_millis (and_then runtime.backoff (λ b. b.max_ms)))
            default_policy.max_delay;
      retryable_errors = [];
    }
unfolding retry_policy_from
retry_policy_from_fields le_one runtime =
    ap (with_backoff le_one runtime.backoff) (set_max_retries runtime.reconnect default_policy)
    ∙ set_backoff le_one runtime.backoff _ refl
