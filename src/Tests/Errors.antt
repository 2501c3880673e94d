-- ===== src/Tests/Errors.antt =====
-- The theorem on classified errors at a value with status 429.
use whatsapp_bot.Domain.Errors.{unknown_transient}
use whatsapp_bot.Retry.{RetryOptions, pause_auth, rate_limit}
use whatsapp_bot.Classify.{
  StatusLike, decision_on, foreign, says_logged_out, says_forbidden, says_absent, says_limited,
  classified_decision,
}
use whatsapp_bot.Base.{[], none, some, true, false, ◌≡◌, ◌↔◌, ◌<◌}

abbrev limited_value : StatusLike
limited_value = record {
  output_status = some 429;
  data_status = none;
  own_status = none;
  code = [];
  message = none;
}

abbrev first_attempt : RetryOptions
first_attempt = record {
  error_class = unknown_transient;
  attempt = 1;
  max_attempts = 3;
  base_ms = 1000;
  max_ms = 60000;
  retry_after_ms = none;
  random = 7;
}

classified_decision_example :
    let d = decision_on first_attempt (foreign limited_value) in
    ((d.action ≡ pause_auth) ↔ (says_logged_out limited_value ≡ true))
    × (((d.action ≡ rate_limit) × (d.delay_ms ≡ some 60000)) ↔ (
        (says_logged_out limited_value ≡ false)
        × (says_forbidden limited_value ≡ false)
        × (says_absent limited_value ≡ false)
        × (says_limited limited_value ≡ true)
        × (1 < 3)))
classified_decision_example = classified_decision first_attempt limited_value
