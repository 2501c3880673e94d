-- ===== src/Retry/Bounds.antt =====
-- How far the delays of src/messaging/retry-policy.ts can go.
use whatsapp_bot.Retry.{jittered, retry_delay_ms, exponential, resolution}
use whatsapp_bot.Base.{ℕ, ◌<◌, ◌^◌, ◌≤◌, arith, ◌+◌, ◌*◌, max, ◌-◌}
use native.Mathlib.Nat.{pow-le-pow_right}

product_bound : (e r : ℕ) → r < resolution → e * r ≤ e * resolution
product_bound e r h = grind arith

jittered_bounds :
    (e r : ℕ) → r < resolution → (8 * e ≤ 10 * jittered e r + 4) × (10 * jittered e r ≤ 12 * e + 5)
unfolding jittered
jittered_bounds e r h = omega (arith, product_bound e r h)

-- Whatever the random number below one, a delay is at least 100 ms, at least 0.8 and at most 1.2 times the
-- exponential backoff up to rounding and that minimum, and so at most 1.2 times the configured
-- maximum.
pub retry_delay_ms_bounds :
    (attempt base_ms max_ms random : ℕ)
    → random < resolution
    → let delay = retry_delay_ms attempt base_ms max_ms random in
      let backoff = exponential attempt base_ms max_ms in
      (100 ≤ delay)
      × (8 * backoff ≤ 10 * delay + 4)
      × (10 * delay ≤ max 1000 (12 * backoff + 5))
      × (10 * delay ≤ max 1000 (12 * max_ms + 5))
unfolding retry_delay_ms exponential
retry_delay_ms_bounds attempt base_ms max_ms random h =
    omega (arith, jittered_bounds (exponential attempt base_ms max_ms) random h)

-- The backoff never falls from one attempt to a later one.
pub exponential_mono :
    (attempt later base_ms max_ms : ℕ)
    → attempt ≤ later
    → exponential attempt base_ms max_ms ≤ exponential later base_ms max_ms
unfolding exponential
exponential_mono attempt later base_ms max_ms h =
    let powers : 2 ^ (attempt - 1) ≤ 2 ^ (later - 1) =
      pow-le-pow_right (omega arith) (omega arith) in
    let scaled : base_ms * 2 ^ (attempt - 1) ≤ base_ms * 2 ^ (later - 1) = grind arith in
    omega arith
