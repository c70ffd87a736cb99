-- ===== src/Annotations.antt =====
-- src/bus.rs: `ProviderOverrides`, read from the annotations of a pack.
-- `serde_json::Map` is the list of its entries in the order of iteration.
use greentic_events.Base.{
  ℕ, ◌%◌, ◌^◌, ◌||◌, Option, none, some, List, [], ◌∷◌, ◌++◌, if◌then◌else◌, is_some, unwrap_or,
}
use greentic_events.Base.Str.{Str, codes, str_eq, strip_prefix, to_ascii_lowercase}
use greentic_events.Event.{Json, Items, nil, cons, Dict, as_str, as_u64, as_array}
use greentic_events.Backoff.{
  BackoffStrategy, fixed, exponential, exponential_with_jitter, RetryPolicy, default_policy,
  from_millis,
}

pub record ProviderOverrides : Type 0 where
  pub retry : Option RetryPolicy
  pub dlq_topic : Option Str

-- `retry.get_or_insert_with(RetryPolicy::default)`, then an assignment to one field.
abbrev pub set_retry : (RetryPolicy → RetryPolicy) → ProviderOverrides → ProviderOverrides
set_retry assign o = record o { retry = some (assign (unwrap_or o.retry default_policy)) }

-- An assignment under `if let Some(v) = …`.
abbrev pub assign_if :
    {A : Type 0}
    → Option A
    → (A → ProviderOverrides → ProviderOverrides)
    → ProviderOverrides
    → ProviderOverrides
assign_if none assign o = o
assign_if (some v) assign o = assign v o

abbrev pub strategy_named : Str → BackoffStrategy
strategy_named name =
    if str_eq (to_ascii_lowercase name) (codes "fixed")
    then fixed
    else if str_eq (to_ascii_lowercase name) (codes "exponential")
    then exponential
    else exponential_with_jitter

abbrev pub keep : Option Str → List Str → List Str
keep none rest = rest
keep (some s) rest = s ∷ rest

-- The strings among the items.
unfoldable pub string_items : Items → List Str
string_items nil = []
string_items (cons v items) = keep (as_str v) (string_items items)

-- `v as u32`
abbrev pub as_u32 : ℕ → ℕ
as_u32 v = v % 2 ^ 32

-- One annotation, by what follows the prefix in its key.
unfoldable pub apply_setting : Str → Json → ProviderOverrides → ProviderOverrides
unfolding str_eq
apply_setting suffix value o =
    if str_eq suffix (codes "dlq_topic")
    then assign_if (as_str value) (λ s p. record p { dlq_topic = some s }) o
    else if str_eq suffix (codes "retry.max_retries")
    then assign_if (as_u64 value) (λ v. set_retry (λ r. record r { max_retries = as_u32 v })) o
    else if str_eq suffix (codes "retry.base_delay_ms")
    then assign_if (as_u64 value) (λ v. set_retry (λ r. record r { base_delay = from_millis v })) o
    else if str_eq suffix (codes "retry.max_delay_ms")
    then assign_if (as_u64 value) (λ v. set_retry (λ r. record r { max_delay = from_millis v })) o
    else if str_eq suffix (codes "retry.strategy")
    then assign_if (as_str value) (λ s. set_retry (λ r. record r { strategy = strategy_named s })) o
    else if str_eq suffix (codes "retry.retryable_errors")
    then assign_if (as_array value)
        (λ items. set_retry (λ r. record r { retryable_errors = string_items items })) o
    else o

abbrev pub prefix_of : Str → Str
prefix_of name = codes "events.providers." ++ (name ++ codes ".")

-- The body of the loop: a key without the prefix is passed over.
abbrev pub apply_stripped : Option Str → Json → ProviderOverrides → ProviderOverrides
apply_stripped none value o = o
apply_stripped (some suffix) value o = apply_setting suffix value o

unfoldable pub annotation_loop : Str → Dict Json → ProviderOverrides → ProviderOverrides
unfolding apply_setting
annotation_loop name [] o = o
annotation_loop name ((key, value) ∷ annotations) o =
    annotation_loop name annotations (apply_stripped (strip_prefix (prefix_of name) key) value o)

abbrev pub nothing_set : ProviderOverrides
nothing_set = record { retry = none; dlq_topic = none }

-- The last test: no overrides where nothing was set.
abbrev pub if_any : ProviderOverrides → Option ProviderOverrides
if_any o = if is_some o.retry || is_some o.dlq_topic then some o else none

unfoldable pub provider_overrides_from_annotations : Str → Dict Json → Option ProviderOverrides
unfolding annotation_loop
provider_overrides_from_annotations name annotations =
    if_any (annotation_loop name annotations nothing_set)
