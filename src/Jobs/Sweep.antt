-- ===== src/Jobs/Sweep.antt =====
-- src/db/repositories/job-repository.ts: the statements that move many jobs at once:
-- `promoteDueScheduled`, `cancelDisabled` and `recoverStaleProcessing`.
use whatsapp_bot.Base.{ℕ, Bool, ◌&&◌, ◌||◌, not, some, List, [], ◌∷◌, leb, text_eq, any, select}
use whatsapp_bot.Domain.Jobs.{
  pending, scheduled, processing, cancelled, review_required, same_status, is_unsent,
}
use whatsapp_bot.Domain.Errors.{destination_error, delivery, delivery_uncertain_after_restart}
use whatsapp_bot.Domain.Queue.{QueueJob}
use whatsapp_bot.Db.{Db, EventType, job, reason}
use whatsapp_bot.Db.Exec.{◌>>=◌, ◌>>◌, Exec, pure, gets, immediate_transaction}
use whatsapp_bot.Db.Audit.{insert_audit}
use whatsapp_bot.Jobs.Rows.{update_jobs}

unfoldable pub is_promotable : ℕ → QueueJob → Bool
is_promotable now row = same_status row.status scheduled && leb row.scheduled_at now

abbrev pub promoted : ℕ → QueueJob → QueueJob
promoted now row = record row { status = pending; updated_at = now }

unfoldable pub promote_due_scheduled : ℕ → Exec Db ℕ
promote_due_scheduled now = immediate_transaction (update_jobs (is_promotable now) (promoted now))

-- `EXISTS (SELECT 1 FROM destinations d WHERE d.jid = ... AND (d.enabled = 0 OR d.can_send = 0))`
unfoldable pub destination_closed : Db → QueueJob → Bool
destination_closed db row =
    any (λ d. text_eq d.jid row.destination_jid && (not d.enabled || not d.can_send))
      db.destinations

abbrev pub disabled_away : ℕ → QueueJob → QueueJob
disabled_away now row = record row {
  status = cancelled;
  updated_at = now;
  last_error_class = some (delivery destination_error);
  last_error_message = some "Destination is disabled or no longer allows sending";
}

unfoldable pub cancel_disabled : ℕ → Exec Db ℕ
cancel_disabled now = immediate_transaction do
  closed ← gets destination_closed
  update_jobs (λ row. is_unsent row.status && closed row) (disabled_away now)

unfoldable pub audit_reviews : ℕ → List QueueJob → Exec Db (Unit {0})
audit_reviews now [] = pure tt
audit_reviews now (row ∷ rows) = do
  insert_audit now EventType.job_review_required "startup" (some job) (some row.uuid)
      (some (reason "delivery_uncertain_after_restart"))
  audit_reviews now rows

abbrev pub is_processing : QueueJob → Bool
is_processing row = same_status row.status processing

abbrev pub reviewed : ℕ → QueueJob → QueueJob
reviewed now row = record row {
  status = review_required;
  updated_at = now;
  last_error_class = some delivery_uncertain_after_restart;
  last_error_message = some "Process stopped during delivery; review before retrying";
}

unfoldable pub recover_stale_processing : ℕ → Exec Db ℕ
recover_stale_processing now = immediate_transaction do
  stale ← gets (λ db. select is_processing db.jobs)
  changes ← update_jobs is_processing (reviewed now)
  audit_reviews now stale
  pure changes
