-- ===== src/Backoff.antt =====
-- src/backoff.rs: the retry policy of a provider.
-- A `Duration` is its number of nanoseconds, at most `duration_max`. The sample that the random
-- number generator returns for an inclusive bound is the argument `draw`.
pub mod Delay
use greentic_events.Base.{
  ℕ, zero, suc, ◌+◌, ◌-◌, ◌*◌, ◌^◌, min, max, Bool, true, false, Option, none, some, List, [], ◌∷◌,
  leb, if◌then◌else◌, is_empty, any, unwrap_or,
}
use greentic_events.Base.Str.{Str, contains}

pub data BackoffStrategy : Type 0 where
  fixed exponential exponential_with_jitter : BackoffStrategy

pub record RetryPolicy : Type 0 where
  pub max_retries : ℕ
  pub strategy : BackoffStrategy
  pub base_delay : ℕ
  pub max_delay : ℕ
  pub retryable_errors : List Str

-- `Duration::MAX`: 2 ^ 64 - 1 seconds and 999,999,999 nanoseconds.
abbrev pub duration_max : ℕ
duration_max = 2 ^ 64 * 1_000_000_000 - 1

abbrev pub u32_max : ℕ
u32_max = 2 ^ 32 - 1

abbrev pub u64_max : ℕ
u64_max = 2 ^ 64 - 1

abbrev pub from_millis : ℕ → ℕ
from_millis ms = ms * 1_000_000

-- `Duration::saturating_mul`
abbrev pub saturating_mul : ℕ → ℕ → ℕ
saturating_mul d n = min duration_max (d * n)

-- `Duration::checked_mul`
abbrev pub checked_mul : ℕ → ℕ → Option ℕ
checked_mul d n = if leb (d * n) duration_max then some (d * n) else none

-- `2_u32.saturating_pow(n)`
unfoldable pub saturating_pow2 : ℕ → ℕ
saturating_pow2 n = min u32_max (2 ^ n)

abbrev pub default_policy : RetryPolicy
default_policy = record {
  max_retries = 3;
  strategy = exponential_with_jitter;
  base_delay = from_millis 500;
  max_delay = from_millis 30_000;
  retryable_errors = [];
}

abbrev pub default_with_budget : ℕ → RetryPolicy
default_with_budget n = record default_policy { max_retries = n }

unfoldable pub is_retryable : RetryPolicy → Str → Bool
is_retryable p message =
    if is_empty p.retryable_errors
    then true
    else any (λ pat. contains pat message) p.retryable_errors

unfoldable pub jitter : (ℕ → ℕ) → ℕ → ℕ
jitter draw duration = draw (min duration u64_max)

-- The shared value of the two exponential strategies.
unfoldable pub capped : RetryPolicy → ℕ → ℕ
capped p attempt =
    min p.max_delay (unwrap_or (checked_mul p.base_delay (saturating_pow2 attempt)) p.max_delay)

abbrev pub by_strategy : (ℕ → ℕ) → RetryPolicy → ℕ → BackoffStrategy → ℕ
by_strategy draw p attempt fixed = min p.max_delay (saturating_mul p.base_delay (max attempt 1))
by_strategy draw p attempt exponential = capped p attempt
by_strategy draw p attempt exponential_with_jitter = jitter draw (capped p attempt)

unfoldable pub delay_for_attempt : (ℕ → ℕ) → RetryPolicy → ℕ → ℕ
unfolding capped jitter
delay_for_attempt draw p attempt = by_strategy draw p attempt p.strategy
