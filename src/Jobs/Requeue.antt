-- ===== src/Jobs/Requeue.antt =====
-- `retry` by an operator: a fresh set of attempts, unless the job has been replaced.
use whatsapp_bot.Jobs.Replaced.{
  active_keys_unique_two, is_replaced, active_keys_unique-rewritten, rewritten_row,
}
use whatsapp_bot.Jobs.Invariant.{IsValid, updated_row_found}
use whatsapp_bot.Db.Audit.{insert_audit}
use whatsapp_bot.Jobs.Index.{update_jobs_refused}
use whatsapp_bot.Domain.Errors.{unique_constraint_failed}
use whatsapp_bot.Db.{Db, EventType, job, from_to}
use whatsapp_bot.Domain.Jobs.{is_active, may_become, retry}
use whatsapp_bot.Domain.Queue.{QueueJob}
use whatsapp_bot.Jobs.Transition.{manual_retry, reset}
use whatsapp_bot.Jobs.Rows.{active_keys_unique, get_by_reference, update_jobs}
use whatsapp_bot.Db.Exec.{err, immediate_transaction, ◌>>=◌, ok}
use whatsapp_bot.Base.{
  [], some, true, false, ◌∷◌, Memᴰ, ℕ, ◌==◌, Text, ◌≡◌, String, text_eq, update_where, refl,
  if◌then◌else◌, ◌++◌, arith, subst, update_where-mem, find_first-mem, none, ◌∙◌,
}

-- A job that has failed or awaits review cannot be retried once another active job carries its
-- idempotency key: the unique index refuses the UPDATE, and nothing changes.
pub manual_retry_refused_when_replaced :
    (now : ℕ) (reference : Text) (actor : String) (db : Db) (row other : QueueJob)
    → get_by_reference reference db ≡ some row
    → may_become row.status retry ≡ true
    → Memᴰ other db.jobs
    → (row.id == other.id) ≡ false
    → is_active other.status ≡ true
    → text_eq row.idempotency_key other.idempotency_key ≡ true
    → manual_retry now reference actor db ≡ (err unique_constraint_failed, db)
unfolding manual_retry immediate_transaction ◌>>=◌ get_by_reference reset is_active
manual_retry_refused_when_replaced now reference actor db row other e legal j ne active same =
    rw (e, legal, update_jobs_refused (λ j. j.id == row.id) (reset now) db clash)
  where
    here_row : (if row.id == row.id then reset now row else row) ≡ reset now row
    here_row = ground arith

    there_row : (if other.id == row.id then reset now other else other) ≡ other
    there_row = ground arith

    reset_row : Memᴰ (reset now row) (update_where (λ j. j.id == row.id) (reset now) db.jobs)
    reset_row =
        subst (λ r. Memᴰ r (update_where (λ j. j.id == row.id) (reset now) db.jobs)) here_row
          (update_where-mem (λ j. j.id == row.id) (reset now) db.jobs (find_first-mem _ db.jobs e))

    kept_row : Memᴰ other (update_where (λ j. j.id == row.id) (reset now) db.jobs)
    kept_row =
        subst (λ r. Memᴰ r (update_where (λ j. j.id == row.id) (reset now) db.jobs)) there_row
          (update_where-mem (λ j. j.id == row.id) (reset now) db.jobs j)

    retried : is_active (reset now row).status ≡ true
    retried = refl

    clash : active_keys_unique (update_where (λ j. j.id == row.id) (reset now) db.jobs) ≡ false
    clash = active_keys_unique_two _ (reset now row) other reset_row kept_row ne retried active same

-- The row as an operator's retry leaves it: due at once, with no attempt and no error on it.
abbrev pub renewed : ℕ → QueueJob → QueueJob
renewed now old = record old {
  status = retry;
  next_attempt_at = some now;
  attempt_count = 0;
  last_error_message = none;
  last_error_class = none;
  updated_at = now;
}

-- The database after it: `renewed` stands in the place of the row, and the retry is recorded.
abbrev pub after_retry : ℕ → String → QueueJob → Db → Db
after_retry now actor row db = record db {
  jobs = update_where (λ j. j.id == row.id) (λ _. renewed now row) db.jobs;
  audit_events =
      db.audit_events
      ++ record {
        event_type = EventType.job_manually_retried;
        actor = actor;
        entity_type = some job;
        entity_id = some row.uuid;
        details = some (from_to row.status retry);
        created_at = now;
      }
        ∷ [];
}

retry_admitted :
    (now : ℕ) (db : Db) (row : QueueJob)
    → IsValid db
    → Memᴰ row db.jobs
    → is_replaced row db.jobs ≡ false
    → active_keys_unique (update_where (λ j. j.id == row.id) (reset now) db.jobs) ≡ true
unfolding reset
retry_admitted now db row v i fresh =
    rw (active_keys_unique-rewritten db row (reset now) (λ r. refl) (λ r. refl) v i, fresh)
      (ground arith)

manual_retry_resets :
    (now : ℕ) (reference : Text) (actor : String) (db : Db) (row : QueueJob)
    → IsValid db
    → get_by_reference reference db ≡ some row
    → may_become row.status retry ≡ true
    → active_keys_unique (update_where (λ j. j.id == row.id) (reset now) db.jobs) ≡ true
    → manual_retry now reference actor db ≡ (
      ok (reset now row),
      record (after_retry now actor row db) {
        jobs = update_where (λ j. j.id == row.id) (reset now) db.jobs;
      },
    )
unfolding manual_retry immediate_transaction ◌>>=◌ get_by_reference reset update_jobs insert_audit
manual_retry_resets now reference actor db row v e legal index = rw (
  e,
  legal,
  index,
  updated_row_found (λ j. j.id == row.id) (reset now) db row (λ j. refl) (λ j. refl) v
      (find_first-mem _ db.jobs e) (ground arith),
)

reset-eq-renewed : (now : ℕ) (row : QueueJob) → reset now row ≡ renewed now row
unfolding reset
reset-eq-renewed now row = refl

-- In a valid database, where no other active job carries its idempotency key, the retry of a job
-- that the table lets retry succeeds: that one row is in RETRY, due at `now`, with no attempt
-- counted and no error, the retry is recorded, and nothing else changes. The row is returned.
pub manual_retry_succeeds :
    (now : ℕ) (reference : Text) (actor : String) (db : Db) (row : QueueJob)
    → IsValid db
    → get_by_reference reference db ≡ some row
    → may_become row.status retry ≡ true
    → is_replaced row db.jobs ≡ false
    → manual_retry now reference actor db ≡ (ok (renewed now row), after_retry now actor row db)
unfolding get_by_reference
manual_retry_succeeds now reference actor db row v e legal fresh =
    let i = find_first-mem _ db.jobs e in
    manual_retry_resets now reference actor db row v e legal (retry_admitted now db row v i fresh)
    ∙ rw (rewritten_row (reset now) db row v i, reset-eq-renewed now row)
