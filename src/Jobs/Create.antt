-- ===== src/Jobs/Create.antt =====
-- src/db/repositories/job-repository.ts: `create`, with the constraints that its INSERT meets.
use whatsapp_bot.Base.{
  ℕ, suc, Text, String, Bool, true, ◌&&◌, ◌||◌, not, Option, none, some, List, [], ◌∷◌, ◌++◌, ◌==◌,
  text_eq, any,
}
use whatsapp_bot.Domain.Errors.{
  Error, duplicate_job, unique_constraint_failed, check_constraint_failed,
  foreign_key_constraint_failed, plain,
}
use whatsapp_bot.Domain.Queue.{
  QueueJob, NewQueueJob, InitialStatus, initially_pending, initially_scheduled, of_initial,
}
use whatsapp_bot.Db.{Db, EventType, job, job_details}
use whatsapp_bot.Db.Exec.{
  ◌>>=◌, ◌>>◌, Exec, throw, gets, or_throw, modify, throw_if, immediate_transaction, catch_error,
}
use whatsapp_bot.Db.Audit.{insert_audit}
use whatsapp_bot.Jobs.Rows.{get_by_reference, find_by_idempotency_key, is_active_with}

-- A nullable reference to a table: NULL, or the key of a row.
abbrev refers_to : {A : Type 0} → (A → Text) → List A → Option Text → Bool
refers_to key rows none = true
refers_to key rows (some k) = any (λ row. text_eq (key row) k) rows

-- The unique columns: `uuid`, and the key of an active job. A new job is always active.
unfoldable pub violates_unique : NewQueueJob → Db → Bool
violates_unique new db =
    any (λ row. text_eq row.uuid new.uuid) db.jobs
    || any (is_active_with new.idempotency_key) db.jobs

unfoldable pub violates_foreign_keys : NewQueueJob → Db → Bool
violates_foreign_keys new db = not (
    refers_to (λ d. d.jid) db.destinations (some new.destination_jid)
    && refers_to (λ m. m.hash) db.media_assets new.media_hash
    && refers_to (λ b. b.id) db.batches new.batch_id)

unfoldable pub new_row : ℕ → ℕ → NewQueueJob → QueueJob
new_row now id new = record {
  id = id;
  uuid = new.uuid;
  destination_jid = new.destination_jid;
  payload_type = new.payload_type;
  text = new.text;
  media_path = new.media_path;
  media_hash = new.media_hash;
  media_mime = new.media_mime;
  filename = new.filename;
  scheduled_at = new.scheduled_at;
  status = of_initial new.status;
  attempt_count = 0;
  max_attempts = new.max_attempts;
  next_attempt_at = none;
  last_error_class = none;
  last_error_message = none;
  idempotency_key = new.idempotency_key;
  options_json = new.options_json;
  requested_by = new.requested_by;
  created_at = now;
  updated_at = now;
  started_at = none;
  sent_at = none;
  remote_message_id = none;
  batch_id = new.batch_id;
  dry_run = new.dry_run;
  forward_source_key = new.forward_source_key;
}

-- The INSERT: CHECK before UNIQUE before FOREIGN KEY, and the next number of AUTOINCREMENT.
unfoldable pub insert_job : ℕ → NewQueueJob → Exec Db (Unit {0})
insert_job now new = do
  throw_if (new.max_attempts == 0) check_constraint_failed
  throw_if (← gets (violates_unique new)) unique_constraint_failed
  throw_if (← gets (violates_foreign_keys new)) foreign_key_constraint_failed
  modify λ db. record db {
    jobs = db.jobs ++ new_row now (suc db.job_seq) new ∷ [];
    job_seq = suc db.job_seq;
  }

abbrev created_event : InitialStatus → EventType
created_event initially_pending = EventType.job_enqueued
created_event initially_scheduled = EventType.job_scheduled

unfoldable pub insert_and_read : ℕ → NewQueueJob → String → Exec Db QueueJob
insert_and_read now new actor = do
  insert_job now new
  insert_audit now (created_event new.status) actor (some job) (some new.uuid)
      (some (job_details new.destination_jid new.payload_type new.idempotency_key new.batch_id))
  or_throw (← gets (get_by_reference new.uuid)) (plain "Job insert did not return a row")

unfoldable pub rethrow_duplicate : Option QueueJob → Exec Db QueueJob
rethrow_duplicate none = throw unique_constraint_failed
rethrow_duplicate (some row) = throw (duplicate_job row.uuid)

-- The `catch` of `create`.
unfoldable pub report_duplicate : NewQueueJob → Error → Exec Db QueueJob
unfolding rethrow_duplicate
report_duplicate new unique_constraint_failed = do
  existing ← gets (find_by_idempotency_key new.idempotency_key)
  rethrow_duplicate existing
report_duplicate new e = throw e

unfoldable pub create : ℕ → NewQueueJob → String → Exec Db QueueJob
create now new actor =
    catch_error (immediate_transaction (insert_and_read now new actor)) (report_duplicate new)
