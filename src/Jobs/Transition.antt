-- ===== src/Jobs/Transition.antt =====
-- src/db/repositories/job-repository.ts: `transition`, `cancel`, `retry` and `markSent`.
use whatsapp_bot.Base.{ℕ, Text, text, String, not, Option, none, some, ◌==◌, if◌then◌else◌, or_else}
use whatsapp_bot.Domain.Jobs.{JobStatus, retry, sent, cancelled, same_status, may_become}
use whatsapp_bot.Domain.Errors.{
  LastErrorClass, operator_cancelled, not_found, invalid_state_transition, plain,
}
use whatsapp_bot.Domain.Queue.{QueueJob}
use whatsapp_bot.Db.{Db, EventType, job, from_to}
use whatsapp_bot.Db.Exec.{◌>>=◌, ◌>>◌, Exec, pure, gets, or_throw, throw_if, immediate_transaction}
use whatsapp_bot.Db.Audit.{insert_audit}
use whatsapp_bot.Jobs.Rows.{get_by_reference, update_jobs}

-- The options of `transition`; an absent one is `none`, and an absent actor is 'system'.
pub record TransitionOptions : Type 0 where
  pub remote_message_id : Option Text
  pub next_attempt_at : Option ℕ
  pub error_class : Option LastErrorClass
  pub error_message : Option String
  pub actor : String
  pub audit_event : Option EventType

abbrev pub no_options : TransitionOptions
no_options = record {
  remote_message_id = none;
  next_attempt_at = none;
  error_class = none;
  error_message = none;
  actor = "system";
  audit_event = none;
}

-- The SET clause of `transition`.
unfoldable pub moved : ℕ → JobStatus → TransitionOptions → QueueJob → QueueJob
moved now target options row = record row {
  status = target;
  next_attempt_at = options.next_attempt_at;
  last_error_class = options.error_class;
  last_error_message = options.error_message;
  updated_at = now;
  sent_at = if same_status target sent then some now else row.sent_at;
  remote_message_id = or_else options.remote_message_id row.remote_message_id;
}

unfoldable pub audit_move :
    ℕ → TransitionOptions → QueueJob → JobStatus → Option EventType → Exec Db (Unit {0})
audit_move now options row target none = pure tt
audit_move now options row target (some event) =
    insert_audit now event options.actor (some job) (some row.uuid)
      (some (from_to row.status target))

unfoldable pub transition : ℕ → Text → JobStatus → TransitionOptions → Exec Db QueueJob
transition now reference target options = immediate_transaction do
  row ← or_throw (← gets (get_by_reference reference)) (not_found reference)
  throw_if (not (may_become row.status target)) (invalid_state_transition row.status target)
  update_jobs (λ j. j.id == row.id) (moved now target options)
  audit_move now options row target options.audit_event
  or_throw (← gets (get_by_reference row.uuid)) (plain "Job disappeared after transition")

unfoldable pub cancel : ℕ → Text → String → Exec Db QueueJob
cancel now reference actor = do
  or_throw (← gets (get_by_reference reference)) (not_found reference)
  transition now reference cancelled (record no_options {
    actor = actor;
    audit_event = some EventType.job_cancelled;
    error_class = some operator_cancelled;
    error_message = some "Cancelled by operator";
  })

-- The SET clause of `retry`.
unfoldable pub reset : ℕ → QueueJob → QueueJob
reset now row = record row {
  status = retry;
  attempt_count = 0;
  next_attempt_at = some now;
  last_error_class = none;
  last_error_message = none;
  updated_at = now;
}

unfoldable pub manual_retry : ℕ → Text → String → Exec Db QueueJob
manual_retry now reference actor = immediate_transaction do
  row ← or_throw (← gets (get_by_reference reference)) (not_found reference)
  throw_if (not (may_become row.status retry)) (invalid_state_transition row.status retry)
  update_jobs (λ j. j.id == row.id) (reset now)
  insert_audit now EventType.job_manually_retried actor (some job) (some row.uuid)
      (some (from_to row.status retry))
  or_throw (← gets (get_by_reference row.uuid)) (plain "Job disappeared after retry")

unfoldable pub mark_sent : ℕ → Text → String → Exec Db QueueJob
mark_sent now reference actor = transition now reference sent (record no_options {
  actor = actor;
  audit_event = some EventType.job_manually_marked_sent;
  remote_message_id = some (text "operator-confirmed");
})
