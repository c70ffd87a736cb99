-- ===== src/Bus/Retry.antt =====
-- src/bus.rs: `publish_with_retry` keeps to the policy's budget of attempts and of waiting time.
use greentic_events.Base.{
  ℕ, zero, suc, ◌+◌, ◌*◌, ◌≤◌, ◌≡◌, refl, true, ◌||◌, not, Option, none, some, Result, ok, err,
  arith, ◌==◌, min, Bool-cases, inl, inr,
}
use greentic_events.Base.Str.{Str}
use greentic_events.Event.{EventEnvelope}
use greentic_events.Backoff.{RetryPolicy, is_retryable, delay_for_attempt}
use greentic_events.Backoff.Delay.{delay-le-max_delay}
use greentic_events.Provider.{ProviderRegistration}
use greentic_events.Bus.{Runtime, after_attempt, retry_rounds, publish_with_retry}

-- What a world counts: the publishes that reached the provider, and the time slept.
pub record Meter (W : Type 0) : Type 0 where
  pub calls : W → ℕ
  pub slept : W → ℕ

-- Publishing and sleeping are what the meter says that they are.
pub record IsMetered {W : Type 0} (rt : Runtime W) (provider : ProviderRegistration W) (m : Meter W)
    : Type 0 where
  pub publish_calls :
      (event : EventEnvelope) (w : W) → m.calls (provider.backend.publish event w).1 ≡ m.calls w + 1
  pub publish_slept :
      (event : EventEnvelope) (w : W) → m.slept (provider.backend.publish event w).1 ≡ m.slept w
  pub sleep_calls : (d : ℕ) (w : W) → m.calls (rt.sleep d w) ≡ m.calls w
  pub sleep_slept : (d : ℕ) (w : W) → m.slept (rt.sleep d w) ≡ m.slept w + d
  pub draw_in_range : (w : W) (n : ℕ) → rt.draw w n ≤ n

pred_eq : {n k : ℕ} → suc n ≡ suc k → n ≡ k
pred_eq z = omega arith

module _ {W : Type 0} (rt : Runtime W) (provider : ProviderRegistration W) (m : Meter W)
    (metered : IsMetered rt provider m) where
  abbrev policy : RetryPolicy
  policy = provider.retry

  -- After rounds that began with `c` calls and may make `n` more: at least one is made if any may
  -- be, at most `n` are, and an error that could be retried is returned only after all of them.
  abbrev Spent : ℕ → ℕ → Result Str Unit × W → Type 0
  Spent n c (r, w) =
      (c + min n 1 ≤ m.calls w)
      × (m.calls w ≤ c + n)
      × ((e : Str) → r ≡ err e → is_retryable policy e ≡ true → m.calls w ≡ c + n)

  after_attempt-Spent :
      (n attempt c : ℕ) (next : Str → W → Result Str Unit × W) (r : Result Str Unit × W)
      → attempt + n ≡ policy.max_retries
      → ((e : Str) (w : W) → Spent n (m.calls w) (next e w))
      → m.calls r.1 ≡ c + 1
      → Spent (suc n) c (after_attempt rt policy attempt next r)
  unfolding after_attempt
  after_attempt-Spent n attempt c next (ok u, w) e rec h =
      (omega arith, omega arith, λ e' k _. cc k)
  after_attempt-Spent n attempt c next (err x, w) e rec h =
      elim (Bool-cases (attempt == policy.max_retries || not (is_retryable policy x))) [
        | inl stop ↦ rw stop (omega arith, omega arith, λ x' k retry. ground arith)
        | inr on ↦ rw on (
            let d = delay_for_attempt (rt.draw w) policy (attempt + 1) in
            let same = metered.sleep_calls d w in
            let (low, high, full) = rec x (rt.sleep d w) in
            (omega arith, omega arith, λ x' k retry. omega (arith, full x' k retry)))
      ]

  retry_rounds-Spent :
      (event : EventEnvelope) (n attempt : ℕ) (last_err : Option Str) (w : W)
      → attempt + n ≡ suc policy.max_retries
      → Spent n (m.calls w) (retry_rounds rt provider event n attempt last_err w)
  unfolding retry_rounds
  retry_rounds-Spent event zero attempt last_err w e =
      (omega arith, omega arith, λ x k retry. omega arith)
  retry_rounds-Spent event (suc n) attempt last_err w e =
      after_attempt-Spent n attempt (m.calls w) _ (provider.backend.publish event w) (omega arith)
        (λ x w'. retry_rounds-Spent event n (attempt + 1) (some x) w' (omega arith))
        (metered.publish_calls event w)

  -- Every publish with retries reaches the provider at least once, and at most `max_retries` times
  -- more.
  pub publish_with_retry_attempts :
      (event : EventEnvelope) (w : W)
      → (m.calls w + 1 ≤ m.calls (publish_with_retry rt provider event w).1)
        × (m.calls (publish_with_retry rt provider event w).1 ≤ m.calls w + 1 + policy.max_retries)
  unfolding publish_with_retry
  publish_with_retry_attempts event w =
      let (low, high, _) =
        retry_rounds-Spent event (suc policy.max_retries) 0 none w (omega arith) in
      (omega arith, omega arith)

  -- An error that could be retried is returned only after the first attempt and all the retries.
  pub publish_with_retry_exhausted :
      (event : EventEnvelope) (w : W) (e : Str)
      → (publish_with_retry rt provider event w).0 ≡ err e
      → is_retryable policy e ≡ true
      → m.calls (publish_with_retry rt provider event w).1 ≡ m.calls w + 1 + policy.max_retries
  unfolding publish_with_retry
  publish_with_retry_exhausted event w e k retry =
      let (_, _, full) = retry_rounds-Spent event (suc policy.max_retries) 0 none w (omega arith) in
      omega (arith, full e k retry)

  after_attempt-slept :
      (n attempt c : ℕ) (next : Str → W → Result Str Unit × W) (r : Result Str Unit × W)
      → attempt + n ≡ policy.max_retries
      → ((k : ℕ) (e : Str) (w : W)
          → n ≡ suc k
          → m.slept (next e w).1 ≤ m.slept w + k * policy.max_delay)
      → m.slept r.1 ≡ c
      → m.slept (after_attempt rt policy attempt next r).1 ≤ c + n * policy.max_delay
  unfolding after_attempt
  after_attempt-slept n attempt c next (ok u, w) e rec h = grind arith
  after_attempt-slept zero attempt c next (err x, w) e rec h = ground arith
  after_attempt-slept (suc n) attempt c next (err x, w) e rec h =
      elim (Bool-cases (attempt == policy.max_retries || not (is_retryable policy x))) [
        | inl stop ↦ rw stop (grind arith)
        | inr on ↦ rw on (
            let d = delay_for_attempt (rt.draw w) policy (attempt + 1) in
            let short =
              delay-le-max_delay (rt.draw w) policy (attempt + 1) (metered.draw_in_range w) in
            let longer = metered.sleep_slept d w in
            let rest = rec n x (rt.sleep d w) refl in omega arith)
      ]

  retry_rounds-slept :
      (event : EventEnvelope) (n attempt : ℕ) (last_err : Option Str) (w : W)
      → attempt + n ≡ policy.max_retries
      → m.slept (retry_rounds rt provider event (suc n) attempt last_err w).1
        ≤ m.slept w + n * policy.max_delay
  unfolding retry_rounds
  retry_rounds-slept event zero attempt last_err w e =
      after_attempt-slept zero attempt (m.slept w)
        (λ x w'. retry_rounds rt provider event zero (attempt + 1) (some x) w')
        (provider.backend.publish event w) e (λ k x w' z. absurd (omega arith))
        (metered.publish_slept event w)
  retry_rounds-slept event (suc n) attempt last_err w e =
      after_attempt-slept (suc n) attempt (m.slept w)
        (λ x w'. retry_rounds rt provider event (suc n) (attempt + 1) (some x) w')
        (provider.backend.publish event w) e
        (λ k x w' z.
          rw (← pred_eq z) (retry_rounds-slept event n (attempt + 1) (some x) w' (omega arith)))
        (metered.publish_slept event w)

  -- A publish with retries sleeps at most the policy's cap once for each retry.
  pub publish_with_retry_wait :
      (event : EventEnvelope) (w : W)
      → m.slept (publish_with_retry rt provider event w).1
        ≤ m.slept w + policy.max_retries * policy.max_delay
  unfolding publish_with_retry
  publish_with_retry_wait event w =
      retry_rounds-slept event policy.max_retries 0 none w (omega arith)
