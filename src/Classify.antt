-- ===== src/Classify.antt =====
-- src/whatsapp/error-classifier.ts: what a value thrown by the WhatsApp client means for delivery.
use whatsapp_bot.Retry.{
  RetryOptions, decide_retry, RetryDecision, pause_auth, rate_limit, needs_auth, is_rate_limited,
  is_transient,
}
use whatsapp_bot.Domain.Errors.{
  DeliveryError, DeliveryErrorClass, logged_out, rate_limited, permission_error, destination_error,
  temporary_network, connection_closed, media_error, unknown_transient,
}
use whatsapp_bot.Base.{
  [], none, some, true, false, ◌∷◌, Option, ℕ, Text, String, Bool, or_else, get_or, ◌==◌, ◌||◌,
  text, any, if◌then◌else◌, ◌≡◌, ◌&&◌, text_eq, ◌↔◌, arith, ◌<◌,
}
use whatsapp_bot.Targets.{lower_case}

-- The properties of a thrown object that are read; another value has none of them.
pub record StatusLike : Type 0 where
  pub output_status : Option ℕ
  pub data_status : Option ℕ
  pub own_status : Option ℕ
  pub code : Text
  pub message : Option Text

-- A `DeliveryError`, or anything else.
pub data Thrown : Type 0 where
  already_classified : DeliveryError → Thrown
  foreign : StatusLike → Thrown

abbrev pub status_of : StatusLike → Option ℕ
status_of value = or_else value.output_status (or_else value.data_status value.own_status)

abbrev pub has_status : StatusLike → ℕ → Bool
has_status value n = get_or (status_of value) 0 == n

unfoldable pub starts_with : Text → Text → Bool
starts_with [] s = true
starts_with (c ∷ cs) [] = false
starts_with (c ∷ cs) (d ∷ ds) = c == d && starts_with cs ds

unfoldable pub includes : Text → Text → Bool
includes part [] = starts_with part []
includes part (c ∷ cs) = starts_with part (c ∷ cs) || includes part cs

unfoldable pub says : StatusLike → String → Bool
says value part = includes (text part) (lower_case (get_or value.message []))

abbrev pub is_network_status : StatusLike → Bool
is_network_status value = any (has_status value) (408 ∷ 428 ∷ 500 ∷ 502 ∷ 503 ∷ 504 ∷ [])

abbrev pub is_network_code : Text → Bool
is_network_code code = any (text_eq code) (
    text "ECONNRESET"
    ∷ text "ECONNREFUSED"
    ∷ text "ETIMEDOUT"
    ∷ text "ENETUNREACH"
    ∷ text "EAI_AGAIN"
    ∷ [])

unfoldable pub says_logged_out : StatusLike → Bool
says_logged_out value = has_status value 401 || says value "logged out"

unfoldable pub says_forbidden : StatusLike → Bool
says_forbidden value =
    has_status value 403 || (says value "not-authorized" || says value "forbidden")

unfoldable pub says_absent : StatusLike → Bool
says_absent value = has_status value 404 || (says value "not found" || says value "no participants")

unfoldable pub says_limited : StatusLike → Bool
says_limited value = has_status value 429 || says value "rate limit"

unfoldable pub says_network : StatusLike → Bool
says_network value = is_network_status value || is_network_code value.code

unfoldable pub says_closed : StatusLike → Bool
says_closed value = says value "connection closed" || says value "socket closed"

unfoldable pub says_media : StatusLike → Bool
says_media value = says value "media" || says value "file"

unfoldable pub class_of : StatusLike → DeliveryErrorClass
class_of value =
    if says_logged_out value
    then logged_out
    else if says_forbidden value
    then permission_error
    else if says_absent value
    then destination_error
    else if says_limited value
    then rate_limited
    else if says_network value
    then temporary_network
    else if says_closed value
    then connection_closed
    else if says_media value
    then media_error
    else unknown_transient

abbrev pub safe_message : DeliveryErrorClass → String
safe_message logged_out = "WhatsApp linked-device authorization was revoked"
safe_message permission_error = "The account cannot send to this destination"
safe_message destination_error = "The WhatsApp destination is unavailable"
safe_message rate_limited = "WhatsApp temporarily rate-limited delivery"
safe_message temporary_network = "A temporary network error interrupted delivery"
safe_message connection_closed = "The WhatsApp connection closed during delivery"
safe_message media_error = "WhatsApp rejected the staged media"
safe_message _ = "Unexpected error while communicating with WhatsApp"

abbrev pub retry_after : DeliveryErrorClass → Option ℕ
retry_after rate_limited = some 60000
retry_after _ = none

unfoldable pub classify_whatsapp_error : Thrown → DeliveryError
classify_whatsapp_error (already_classified e) = e
classify_whatsapp_error (foreign value) = record {
  error_class = class_of value;
  message = safe_message (class_of value);
  retry_after_ms = retry_after (class_of value);
}

-- The decision of the worker on a thrown value that the client classifies.
abbrev pub decision_on : RetryOptions → Thrown → RetryDecision
decision_on o thrown =
    let e = classify_whatsapp_error thrown in
    decide_retry (record o { error_class = e.error_class; retry_after_ms = e.retry_after_ms })

-- On a value that is no `DeliveryError`, the worker pauses for a new sign-in exactly when the
-- status is 401 or the message says "logged out". It waits as for a rate limit exactly when the
-- value says so, says nothing of the earlier tests, and attempts are left; the wait is a minute.
pub classified_decision :
    (o : RetryOptions) (value : StatusLike)
    → let d = decision_on o (foreign value) in
      ((d.action ≡ pause_auth) ↔ (says_logged_out value ≡ true))
      × (((d.action ≡ rate_limit) × (d.delay_ms ≡ some 60000)) ↔ (
          (says_logged_out value ≡ false)
          × (says_forbidden value ≡ false)
          × (says_absent value ≡ false)
          × (says_limited value ≡ true)
          × (o.attempt < o.max_attempts)))
unfolding classify_whatsapp_error class_of decide_retry needs_auth is_rate_limited is_transient
classified_decision o value = ground arith
