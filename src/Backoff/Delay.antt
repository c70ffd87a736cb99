-- ===== src/Backoff/Delay.antt =====
-- src/backoff.rs: closed forms, bounds and growth of the retry delays.
use native.Mathlib.Nat.{mul-le-mul_left, pow-le-pow_right}
use greentic_events.Base.{ℕ, ◌*◌, ◌^◌, ◌≤◌, min, max, ◌≡◌, ◌≢◌, ◌⊎◌, inl, inr, refl, arith, ap}
use greentic_events.Backoff.{
  BackoffStrategy, fixed, exponential, exponential_with_jitter, RetryPolicy, duration_max, u32_max,
  saturating_pow2, capped, jitter, by_strategy, delay_for_attempt, u64_max,
}

-- Where the product overflows a `Duration` it is past the cap too.
pub capped_lem :
    (p : RetryPolicy) (attempt : ℕ)
    → p.max_delay ≤ duration_max
    → capped p attempt ≡ min p.max_delay (p.base_delay * saturating_pow2 attempt)
unfolding capped
capped_lem p attempt h = ground arith

-- The base times the attempt, or times a power of two that stops at the largest u32, and never more
-- than the cap; with jitter the sample for that bound, which is itself at most the largest u64.
abbrev pub closed_form : (ℕ → ℕ) → RetryPolicy → ℕ → BackoffStrategy → ℕ
closed_form draw p attempt fixed = min p.max_delay (p.base_delay * max attempt 1)
closed_form draw p attempt exponential = min p.max_delay (p.base_delay * min u32_max (2 ^ attempt))
closed_form draw p attempt exponential_with_jitter =
    draw (min (min p.max_delay (p.base_delay * min u32_max (2 ^ attempt))) u64_max)

closed_form-cases :
    (draw : ℕ → ℕ) (p : RetryPolicy) (attempt : ℕ) (s : BackoffStrategy)
    → p.max_delay ≤ duration_max
    → by_strategy draw p attempt s ≡ closed_form draw p attempt s
unfolding jitter saturating_pow2
closed_form-cases draw p attempt fixed h = ground arith
closed_form-cases draw p attempt exponential h = capped_lem p attempt h
closed_form-cases draw p attempt exponential_with_jitter h =
    ap (λ d. draw (min d u64_max)) (capped_lem p attempt h)

-- With a cap that a `Duration` can hold, every delay has the closed form of its strategy: no overflow
-- of the multiplications shows in it.
pub delay_closed_form :
    (draw : ℕ → ℕ) (p : RetryPolicy) (attempt : ℕ)
    → p.max_delay ≤ duration_max
    → delay_for_attempt draw p attempt ≡ closed_form draw p attempt p.strategy
unfolding delay_for_attempt
delay_closed_form draw p attempt h = closed_form-cases draw p attempt p.strategy h

-- Every delay is at most the policy's cap, if the generator keeps to the bound that it is given.
pub delay-le-max_delay :
    (draw : ℕ → ℕ) (p : RetryPolicy) (attempt : ℕ)
    → ((n : ℕ) → draw n ≤ n)
    → delay_for_attempt draw p attempt ≤ p.max_delay
unfolding delay_for_attempt
delay-le-max_delay draw p attempt in_range =
    ground (arith, in_range (min (capped p attempt) u64_max))

saturating_pow2_mono : (a b : ℕ) → a ≤ b → saturating_pow2 a ≤ saturating_pow2 b
unfolding saturating_pow2
saturating_pow2_mono a b h =
    let up : 2 ^ a ≤ 2 ^ b = pow-le-pow_right (omega arith) h in omega arith

module _ (draw : ℕ → ℕ) (p : RetryPolicy) (a b : ℕ) (le : a ≤ b) where
  fixed_mono : p.strategy ≡ fixed → delay_for_attempt draw p a ≤ delay_for_attempt draw p b
  unfolding delay_for_attempt
  fixed_mono e =
      let up : p.base_delay * max a 1 ≤ p.base_delay * max b 1 =
        mul-le-mul_left p.base_delay (omega arith) in
      ground (arith, e, up)

  exponential_mono :
      p.max_delay ≤ duration_max
      → p.strategy ≡ exponential
      → delay_for_attempt draw p a ≤ delay_for_attempt draw p b
  unfolding delay_for_attempt
  exponential_mono h e =
      let up : p.base_delay * saturating_pow2 a ≤ p.base_delay * saturating_pow2 b =
        mul-le-mul_left p.base_delay (saturating_pow2_mono a b le) in
      ground (arith, e, up, capped_lem p a h, capped_lem p b h)

strategy_cases :
    (s : BackoffStrategy) → s ≢ exponential_with_jitter → (s ≡ fixed) ⊎ (s ≡ exponential)
strategy_cases fixed n = inl refl
strategy_cases exponential n = inr refl
strategy_cases exponential_with_jitter n = absurd (n refl)

-- Without jitter a later attempt never waits less.
pub delay_mono :
    (draw : ℕ → ℕ) (p : RetryPolicy) (a b : ℕ)
    → p.strategy ≢ exponential_with_jitter
    → p.max_delay ≤ duration_max
    → a ≤ b
    → delay_for_attempt draw p a ≤ delay_for_attempt draw p b
delay_mono draw p a b n h le = elim (strategy_cases p.strategy n) [
  | inl e ↦ fixed_mono draw p a b le e
  | inr e ↦ exponential_mono draw p a b le h e
]
