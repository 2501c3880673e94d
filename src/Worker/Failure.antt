-- ===== src/Worker/Failure.antt =====
-- src/messaging/queue-worker.ts: `handleError`.
use whatsapp_bot.Db.Audit.{add}
use whatsapp_bot.Db.State.{set}
use whatsapp_bot.Destinations.{set_can_send}
use whatsapp_bot.Jobs.Transition.{transition, TransitionOptions, no_options}
use whatsapp_bot.Db.{EventType, EntityType}
use whatsapp_bot.Db.Exec.{◌>>◌, pure, modify}
use whatsapp_bot.Retry.{RetryOptions, RetryAction, decide_retry}
use whatsapp_bot.Domain.Errors.{
  DeliveryErrorClass, permission_error, DeliveryError, logged_out, destination_error, auth_required,
  delivery,
}
use whatsapp_bot.Worker.{
  WorkerConfig, Readings, QueueJob, StateValue, Exec, World, Db, on_db, StateKey,
}
use whatsapp_bot.Base.{none, some, true, false, Option, Bool, ℕ, Text, ◌+◌, get_or}
use whatsapp_bot.Domain.Jobs.{failed, retry, waiting_rate_limit}

-- The argument of `decideRetry` in `handleError`.
abbrev pub retry_options : WorkerConfig → Readings → QueueJob → DeliveryError → RetryOptions
retry_options cfg at job e = record {
  error_class = e.error_class;
  attempt = job.attempt_count;
  max_attempts = job.max_attempts;
  base_ms = cfg.retry_base_ms;
  max_ms = cfg.retry_max_ms;
  retry_after_ms = e.retry_after_ms;
  random = at.random;
}

abbrev pub failure_options : Option ℕ → DeliveryError → EventType → TransitionOptions
failure_options next e event = record no_options {
  next_attempt_at = next;
  error_class = some (delivery e.error_class);
  error_message = some e.message;
  audit_event = some event;
}

abbrev pub auth_state : DeliveryErrorClass → StateValue
auth_state logged_out = StateValue.logged_out
auth_state _ = StateValue.auth_required

-- `outgoing_pause_reason` after an authentication error: the error class itself.
abbrev pub auth_reason : DeliveryErrorClass → StateValue
auth_reason logged_out = StateValue.logged_out
auth_reason auth_required = StateValue.auth_required
auth_reason c = StateValue.delivery_class c

unfoldable pub retry_later : Readings → QueueJob → DeliveryError → ℕ → Exec World (Unit {0})
retry_later at job e next = do
  on_db (
      transition at.wall job.uuid retry
        (failure_options (some next) e EventType.delivery_retry_scheduled))
  pure tt

unfoldable pub wait_rate_limit : Readings → QueueJob → DeliveryError → ℕ → Exec World (Unit {0})
wait_rate_limit at job e next = do
  on_db (
      transition at.wall job.uuid waiting_rate_limit
        (failure_options (some next) e EventType.delivery_rate_limited))
  on_db (set at.wall StateKey.outgoing_pause_until (StateValue.instant next))
  on_db (set at.wall StateKey.outgoing_pause_reason StateValue.rate_limited)

unfoldable pub pause_for_auth : Readings → QueueJob → DeliveryError → ℕ → Exec World (Unit {0})
pause_for_auth at job e next = do
  on_db (
      transition at.wall job.uuid retry
        (failure_options (some next) e EventType.delivery_paused_auth))
  on_db (set at.wall StateKey.connectivity (auth_state e.error_class))
  on_db (set at.wall StateKey.outgoing_pause_reason (auth_reason e.error_class))
  on_db (
      add at.wall EventType.auth_required_event "worker" (some EntityType.job) (some job.uuid) none)
  modify λ w. record w { stopping = true }

unfoldable pub closes_destination : DeliveryErrorClass → Bool
closes_destination permission_error = true
closes_destination destination_error = true
closes_destination _ = false

abbrev pub close_destination : Bool → ℕ → Text → Exec Db (Unit {0})
close_destination true now jid = set_can_send now jid false
close_destination false now jid = pure tt

unfoldable pub fail_for_good : Readings → QueueJob → DeliveryError → Exec World (Unit {0})
fail_for_good at job e = do
  on_db (close_destination (closes_destination e.error_class) at.wall job.destination_jid)
  on_db (
      transition at.wall job.uuid failed
        (failure_options none e EventType.delivery_permanent_failure))
  pure tt

-- The branches of `handleError`, by the action and the instant of the next attempt.
unfoldable pub act_on :
    RetryAction → ℕ → Readings → QueueJob → DeliveryError → Exec World (Unit {0})
act_on RetryAction.retry next at job e = retry_later at job e next
act_on RetryAction.rate_limit next at job e = wait_rate_limit at job e next
act_on RetryAction.pause_auth next at job e = pause_for_auth at job e next
act_on RetryAction.fail next at job e = fail_for_good at job e

unfoldable pub handle_error :
    WorkerConfig → Readings → QueueJob → DeliveryError → Exec World (Unit {0})
handle_error cfg at job e =
    let decision = decide_retry (retry_options cfg at job e) in
    act_on decision.action (at.clock + get_or decision.delay_ms 0) at job e
