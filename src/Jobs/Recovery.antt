-- ===== src/Jobs/Recovery.antt =====
-- What the sweeps do to a valid queue: they go through, and leave no row that they should take.
use whatsapp_bot.Domain.Errors.{delivery_uncertain_after_restart}
use whatsapp_bot.Jobs.Invariant.{IsValid}
use whatsapp_bot.Db.Audit.{insert_audit}
use whatsapp_bot.Db.{AuditEvent, Db, EventType, job, reason}
use whatsapp_bot.Jobs.Index.{WakesNone, update_jobs_succeeds}
use whatsapp_bot.Domain.Jobs.{is_active, review_required, same_status, processing}
use whatsapp_bot.Jobs.Sweep.{
  is_promotable, promote_due_scheduled, audit_reviews, recover_stale_processing, promoted,
  is_processing, reviewed,
}
use whatsapp_bot.Domain.Queue.{QueueJob}
use whatsapp_bot.Db.Exec.{ok, immediate_transaction, ◌>>=◌}
use whatsapp_bot.Base.{
  refl, [], some, false, inl, inr, ◌∷◌, ℕ, Bool, List, ◌≡◌, arith, All, count_if, ◌++◌, select,
  update_where, map, length, Bool-cases, length-select,
}
use mathlib.Core.List.{append-nil, append_assoc}

All-update_where-false :
    (p : QueueJob → Bool) (f : QueueJob → QueueJob) (rows : List QueueJob)
    → ((row : QueueJob) → p (f row) ≡ false)
    → All (λ row. p row ≡ false) (update_where p f rows)
All-update_where-false p f [] h = tt
All-update_where-false p f (x ∷ rows) h = elim (Bool-cases (p x)) [
  | inl hit ↦ (rw (hit, h x), All-update_where-false p f rows h)
  | inr miss ↦ (rw (miss, miss), All-update_where-false p f rows h)
]

promoted-WakesNone :
    (now : ℕ) (rows : List QueueJob) → WakesNone (is_promotable now) (promoted now) rows
unfolding is_promotable is_active
promoted-WakesNone now rows = record {
  same_key = λ row. refl;
  still_asleep = λ row i h s. ground arith;
}

-- In a valid database the promotion goes through, counts the rows that it moves, and afterwards no
-- job is SCHEDULED for `now` or earlier; all other rows and tables stay as they were.
pub promote_due_scheduled_exhausts :
    (now : ℕ) (db : Db)
    → IsValid db
    → (promote_due_scheduled now db ≡ (
      ok (count_if (is_promotable now) db.jobs),
      record db { jobs = update_where (is_promotable now) (promoted now) db.jobs },
    ))
      × All (λ row. is_promotable now row ≡ false) (promote_due_scheduled now db).1.jobs
unfolding promote_due_scheduled immediate_transaction is_promotable
promote_due_scheduled_exhausts now db v =
    let done =
      update_jobs_succeeds (is_promotable now) (promoted now) db v
        (promoted-WakesNone now db.jobs) in
    (
      rw done,
      rw done (All-update_where-false (is_promotable now) (promoted now) db.jobs (λ row. refl)),
    )

reviewed-WakesNone : (now : ℕ) (rows : List QueueJob) → WakesNone is_processing (reviewed now) rows
unfolding is_active
reviewed-WakesNone now rows = record { same_key = λ row. refl; still_asleep = λ row i h s. refl }

abbrev pub review_event : ℕ → QueueJob → AuditEvent
review_event now row = record {
  event_type = EventType.job_review_required;
  actor = "startup";
  entity_type = some job;
  entity_id = some row.uuid;
  details = some (reason "delivery_uncertain_after_restart");
  created_at = now;
}

audit_reviews_lem :
    (now : ℕ) (rows : List QueueJob) (db : Db)
    → (audit_reviews now rows db
        ≡ (ok tt, record db { audit_events = db.audit_events ++ map (review_event now) rows }))
unfolding audit_reviews ◌>>=◌ insert_audit
audit_reviews_lem now [] db = rw append-nil
audit_reviews_lem now (row ∷ rows) db = rw (audit_reviews_lem now rows _, append_assoc)

-- The row as the recovery leaves it: it waits for an operator, with the reason.
abbrev pub for_review : ℕ → QueueJob → QueueJob
for_review now old = record old {
  status = review_required;
  last_error_class = some delivery_uncertain_after_restart;
  last_error_message = some "Process stopped during delivery; review before retrying";
  updated_at = now;
}

-- The jobs whose delivery a crash may have cut off.
abbrev pub is_stale : QueueJob → Bool
is_stale row = same_status row.status processing

-- Recovery after a crash, in a valid database: every job that was PROCESSING is put up for review
-- and none is left to be sent again by itself; each is reported to the audit trail once; all other
-- rows and tables stay as they were.
pub recover_stale_processing_clears :
    (now : ℕ) (db : Db)
    → IsValid db
    → let stale = select is_stale db.jobs in
      (recover_stale_processing now db ≡ (
        ok (length stale),
        record db {
          jobs = update_where is_stale (for_review now) db.jobs;
          audit_events = db.audit_events ++ map (review_event now) stale;
        },
      ))
      × All (λ row. is_stale row ≡ false) (recover_stale_processing now db).1.jobs
unfolding recover_stale_processing immediate_transaction ◌>>=◌
recover_stale_processing_clears now db v =
    let done =
      update_jobs_succeeds is_processing (reviewed now) db v (reviewed-WakesNone now db.jobs) in
    let reported =
      audit_reviews_lem now (select is_processing db.jobs)
        (record db { jobs = update_where is_processing (reviewed now) db.jobs }) in
    (
      rw (done, reported, length-select is_processing db.jobs),
      rw (done, reported)
          (All-update_where-false is_processing (reviewed now) db.jobs (λ row. refl)),
    )
