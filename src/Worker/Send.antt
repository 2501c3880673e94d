-- ===== src/Worker/Send.antt =====
-- src/messaging/queue-worker.ts: `processOnce` after the pacing: the last checks, the call of the
-- transport, and what follows when it returns or throws.
use whatsapp_bot.Db.State.{set}
use whatsapp_bot.Db.{EventType}
use whatsapp_bot.Jobs.Transition.{transition, no_options, TransitionOptions}
use whatsapp_bot.Domain.Groups.{Destination}
use whatsapp_bot.Destinations.{resolve}
use whatsapp_bot.Worker.Failure.{handle_error}
use whatsapp_bot.Domain.Errors.{
  Error, DeliveryError, DeliveryErrorClass, unknown_transient, shutdown_before_send, delivery,
  plain, destination_error, invalid_state_transition, media_error,
}
use whatsapp_bot.Worker.{
  failed_otherwise, delivered, delivery_failed, WorkerConfig, Readings, QueueJob, SendOutcome,
  World, Db, Phase, on_db, StateKey, finished, StateValue, sending,
}
use whatsapp_bot.Db.Exec.{ok, err, Exec, Result, ◌>>◌, ◌>>=◌, modify, map_result, gets, pure}
use whatsapp_bot.Base.{
  text, [], none, some, true, false, ◌∷◌, Option, Text, Bool, ◌&&◌, not, String, ◌++◌,
  if◌then◌else◌, ℕ,
}
use whatsapp_bot.Domain.Jobs.{processing, failed, sent, dry_run, retry, same_status}

abbrev pub sendable_now : Option Destination → Bool
sendable_now none = false
sendable_now (some d) = d.enabled && d.can_send

abbrev pub media_missing : WorkerConfig → Option Text → Bool
media_missing cfg none = false
media_missing cfg (some []) = false
media_missing cfg (some (c ∷ cs)) = not (cfg.media_exists (c ∷ cs))

unfoldable pub stop_before_send : Readings → QueueJob → Exec World Phase
stop_before_send at job = do
  on_db (
      transition at.wall job.uuid retry (record no_options {
        next_attempt_at = some at.clock;
        error_class = some shutdown_before_send;
        error_message = some "Worker stopped before transport invocation";
      }))
  pure (finished true)

unfoldable pub fail_before_send :
    Readings → QueueJob → DeliveryErrorClass → String → Exec World Phase
fail_before_send at job error_class message = do
  on_db (
      transition at.wall job.uuid failed (record no_options {
        error_class = some (delivery error_class);
        error_message = some message;
        audit_event = some EventType.delivery_permanent_failure;
      }))
  pure (finished true)

-- `job.dryRun && this.transport.name !== 'dry-run'`
abbrev pub is_simulated : WorkerConfig → QueueJob → Bool
is_simulated cfg job = job.dry_run && not cfg.transport_is_dry_run

unfoldable pub call_transport : WorkerConfig → QueueJob → Exec World Phase
call_transport cfg job = do
  modify λ w. record w {
    send_calls = w.send_calls ++ record { job = job; simulated = is_simulated cfg job } ∷ [];
  }
  pure (sending job (is_simulated cfg job))

-- The error that `handleError` gets from the `catch`.
abbrev pub to_delivery_error : Error → DeliveryError
to_delivery_error (Error.delivery_error e) = e
to_delivery_error _ = record {
  error_class = unknown_transient;
  message = "Unexpected transport failure";
  retry_after_ms = none;
}

-- The `finally` of the round, after the `catch`.
unfoldable pub note_failure : WorkerConfig → Readings → QueueJob → Error → Exec World Phase
note_failure cfg at job e w =
    let (r, w') = handle_error cfg at job (to_delivery_error e) w in
    (map_result (λ _. finished true) r, record w' { last_send_finished_at = at.wall })

-- `transport.send(asSendableJob(job))`: the call is made for a job in processing only.
unfoldable pub send_job : WorkerConfig → Readings → QueueJob → Exec World Phase
send_job cfg at job =
    if same_status job.status processing
    then call_transport cfg job
    else note_failure cfg at job (invalid_state_transition job.status processing)

unfoldable pub check_and_send : WorkerConfig → Readings → QueueJob → Exec World Phase
check_and_send cfg at job = do
  d ← on_db (gets (resolve job.destination_jid))
  if not (sendable_now d)
      then fail_before_send at job destination_error "Destination was disabled before delivery"
      else if media_missing cfg job.media_path
      then fail_before_send at job media_error "Staged media no longer exists"
      else send_job cfg at job

-- From the end of `pace` to the await of `send`, or to the end of the round.
unfoldable pub resume_round : WorkerConfig → Readings → QueueJob → Bool → Exec World Phase
resume_round cfg at job true = check_and_send cfg at job
resume_round cfg at job false = stop_before_send at job

abbrev pub success_options : Option Text → EventType → TransitionOptions
success_options remote event = record no_options {
  remote_message_id = remote;
  audit_event = some event;
}

abbrev pub note_dry_run : Bool → ℕ → Exec Db (Unit {0})
note_dry_run true now = set now StateKey.connectivity StateValue.offline_dry_run
note_dry_run false now = pure tt

unfoldable pub record_delivery :
    WorkerConfig → Readings → QueueJob → Option Text → Bool → Exec Db (Unit {0})
record_delivery cfg at job remote true = do
  transition at.wall job.uuid dry_run (success_options remote EventType.dry_run_executed)
  note_dry_run cfg.transport_is_dry_run at.wall
record_delivery cfg at job remote false = do
  transition at.wall job.uuid sent (success_options remote EventType.delivery_succeeded)
  set at.wall StateKey.last_successful_send_at (StateValue.instant at.clock)
  set at.wall StateKey.connectivity
      (if cfg.transport_is_dry_run then StateValue.offline_dry_run else StateValue.connected)

-- The rest of the `try` once `send` has ended.
unfoldable pub after_send : WorkerConfig → Readings → QueueJob → SendOutcome → Exec World Phase
after_send cfg at job (delivered remote dry) w =
    let (r, db') = record_delivery cfg at job remote dry w.db in
    (map_result (λ _. finished true) r, record w { db = db' })
after_send cfg at job (delivery_failed e) w = (err (Error.delivery_error e), w)
after_send cfg at job failed_otherwise w = (err (plain "transport"), w)

unfoldable pub finish_send : WorkerConfig → Readings → QueueJob → Result Phase → Exec World Phase
finish_send cfg at job (ok phase) w = (ok phase, record w { last_send_finished_at = at.wall })
finish_send cfg at job (err e) w = note_failure cfg at job e w

-- From the end of `send` to the end of the round.
unfoldable pub settle : WorkerConfig → Readings → QueueJob → SendOutcome → Exec World Phase
settle cfg at job outcome w =
    let (r, w') = after_send cfg at job outcome w in finish_send cfg at job r w'

-- src/messaging/dry-run-transport.ts: what the simulated transport answers.
unfoldable pub dry_run_outcome : QueueJob → SendOutcome
dry_run_outcome job = delivered (some (text "dryrun:" ++ job.uuid)) true
