-- ===== src/Retry.antt =====
-- src/messaging/retry-policy.ts. `Math.random` is a fraction of 2 ^ 53, and the product with the
-- jitter is taken exactly and rounded half up, where the source computes in binary floating point.
pub mod Bounds
pub mod Decisions
use whatsapp_bot.Base.{
  none, some, true, false, Option, Bool, ℕ, if◌then◌else◌, min, ◌*◌, max, leb, ◌^◌, ◌+◌, get_or,
  ◌-◌, ◌/◌,
}
use whatsapp_bot.Domain.Errors.{
  DeliveryErrorClass, temporary_network, connection_closed, rate_limited, auth_required, logged_out,
  session_error, unknown_transient,
}

pub data RetryAction : Type 0 where
  retry rate_limit fail pause_auth : RetryAction

pub record RetryDecision : Type 0 where
  pub action : RetryAction
  pub delay_ms : Option ℕ

-- `transientClasses`
unfoldable pub is_transient : DeliveryErrorClass → Bool
is_transient temporary_network = true
is_transient connection_closed = true
is_transient session_error = true
is_transient unknown_transient = true
is_transient _ = false

-- The two classes that `decideRetry` tests first.
unfoldable pub needs_auth : DeliveryErrorClass → Bool
needs_auth auth_required = true
needs_auth logged_out = true
needs_auth _ = false

unfoldable pub is_rate_limited : DeliveryErrorClass → Bool
is_rate_limited rate_limited = true
is_rate_limited _ = false

-- The number of values of `Math.random`.
abbrev pub resolution : ℕ
resolution = 9007199254740992

-- `Math.min(maxMs, baseMs * 2 ** Math.max(0, attempt - 1))`
unfoldable pub exponential : ℕ → ℕ → ℕ → ℕ
exponential attempt base_ms max_ms = min max_ms (base_ms * 2 ^ (attempt - 1))

-- `Math.round(exponential * (0.8 + random() * 0.4))`
unfoldable pub jittered : ℕ → ℕ → ℕ
jittered delay random =
    (2 * (delay * (4 * resolution + 2 * random)) + 5 * resolution) / (10 * resolution)

unfoldable pub retry_delay_ms : ℕ → ℕ → ℕ → ℕ → ℕ
retry_delay_ms attempt base_ms max_ms random =
    max 100 (jittered (exponential attempt base_ms max_ms) random)

-- The argument of `decideRetry`.
pub record RetryOptions : Type 0 where
  pub error_class : DeliveryErrorClass
  pub attempt : ℕ
  pub max_attempts : ℕ
  pub base_ms : ℕ
  pub max_ms : ℕ
  pub retry_after_ms : Option ℕ
  pub random : ℕ

unfoldable pub delay_of : RetryOptions → ℕ
delay_of o = retry_delay_ms o.attempt o.base_ms o.max_ms o.random

unfoldable pub decide_retry : RetryOptions → RetryDecision
decide_retry o =
    if needs_auth o.error_class
    then record { action = pause_auth; delay_ms = some (delay_of o) }
    else if leb o.max_attempts o.attempt
    then record { action = fail; delay_ms = none }
    else if is_rate_limited o.error_class
    then record { action = rate_limit; delay_ms = some (get_or o.retry_after_ms (delay_of o)) }
    else if is_transient o.error_class
    then record { action = retry; delay_ms = some (delay_of o) }
    else record { action = fail; delay_ms = none }
