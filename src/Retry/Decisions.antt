-- ===== src/Retry/Decisions.antt =====
-- What src/messaging/retry-policy.ts decides, and when it gives up.
use whatsapp_bot.Retry.{
  decide_retry, needs_auth, is_rate_limited, is_transient, RetryOptions, pause_auth, rate_limit,
  retry, fail,
}
use whatsapp_bot.Base.{none, true, ◌≡◌, ◌↔◌, ◌<◌, arith}

-- The decision as a table: authentication errors pause whatever the count; otherwise the attempts
-- must not be used up, and then only rate limits and the transient classes go on. A delay is given
-- exactly for the decisions to go on.
pub decide_retry_table :
    (o : RetryOptions)
    → let d = decide_retry o in
      ((d.action ≡ pause_auth) ↔ (needs_auth o.error_class ≡ true))
      × ((d.action ≡ rate_limit)
          ↔ ((is_rate_limited o.error_class ≡ true) × (o.attempt < o.max_attempts)))
      × ((d.action ≡ retry) ↔ ((is_transient o.error_class ≡ true) × (o.attempt < o.max_attempts)))
      × ((d.action ≡ fail) ↔ (d.delay_ms ≡ none))
unfolding decide_retry needs_auth is_rate_limited is_transient
decide_retry_table o = ground arith
