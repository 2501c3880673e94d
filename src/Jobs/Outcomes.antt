-- ===== src/Jobs/Outcomes.antt =====
-- How `transition`, `cancel` and `retry` end, by the status of the job and by the unique index.
use whatsapp_bot.Jobs.Index.{WakesNone, active_keys_unique-update_where}
use whatsapp_bot.Domain.Errors.{not_found, invalid_state_transition, unique_constraint_failed}
use whatsapp_bot.Jobs.Rows.{get_by_reference, update_jobs, active_keys_unique}
use whatsapp_bot.Jobs.Invariant.{IsValid, updated_row_found, row_of_id}
use whatsapp_bot.Db.{Db, EventType, AuditEvent, job, from_to}
use whatsapp_bot.Domain.Queue.{QueueJob}
use whatsapp_bot.Domain.Jobs.{JobStatus, may_become, is_active}
use whatsapp_bot.Db.Audit.{insert_audit}
use whatsapp_bot.Jobs.Transition.{transition, audit_move, moved, TransitionOptions}
use whatsapp_bot.Db.Exec.{ok, err, immediate_transaction, ◌>>=◌}
use whatsapp_bot.Base.{
  refl, [], none, some, true, false, ◌∷◌, ℕ, Option, update_where, Text, ◌==◌, ◌≡◌, Memᴰ, List,
  ◌++◌, arith, find_first-mem,
}
use mathlib.Core.List.{append-nil}

abbrev pub move_events :
    ℕ → TransitionOptions → QueueJob → JobStatus → Option EventType → List AuditEvent
move_events now options row target none = []
move_events now options row target (some event) =
    record {
      event_type = event;
      actor = options.actor;
      entity_type = some job;
      entity_id = some row.uuid;
      details = some (from_to row.status target);
      created_at = now;
    }
    ∷ []

-- The state after a move: the row is rewritten, and the event is recorded if there is one.
abbrev pub after_move : ℕ → TransitionOptions → QueueJob → JobStatus → Db → Db
after_move now options row target db = record db {
  jobs = update_where (λ j. j.id == row.id) (moved now target options) db.jobs;
  audit_events = db.audit_events ++ move_events now options row target options.audit_event;
}

pub transition_missing :
    (now : ℕ) (reference : Text) (target : JobStatus) (options : TransitionOptions) (db : Db)
    → get_by_reference reference db ≡ none
    → transition now reference target options db ≡ (err (not_found reference), db)
unfolding transition immediate_transaction ◌>>=◌
transition_missing now reference target options db e = rw e

pub transition_illegal :
    (now : ℕ) (reference : Text) (target : JobStatus) (options : TransitionOptions) (db : Db)
    (row : QueueJob)
    → get_by_reference reference db ≡ some row
    → may_become row.status target ≡ false
    → transition now reference target options db
      ≡ (err (invalid_state_transition row.status target), db)
unfolding transition immediate_transaction ◌>>=◌
transition_illegal now reference target options db row e h = rw (e, h)

audit_move_lem :
    (now : ℕ) (options : TransitionOptions) (row : QueueJob) (target : JobStatus)
    (event : Option EventType) (db : Db)
    → audit_move now options row target event db ≡ (
      ok tt,
      record db { audit_events = db.audit_events ++ move_events now options row target event },
    )
unfolding audit_move insert_audit
audit_move_lem now options row target none db = rw append-nil
audit_move_lem now options row target (some event) db = refl

-- A move of an active job wakes none.
moved-WakesNone :
    (now : ℕ) (target : JobStatus) (options : TransitionOptions) (db : Db) (row : QueueJob)
    → IsValid db
    → Memᴰ row db.jobs
    → is_active row.status ≡ true
    → WakesNone (λ j. j.id == row.id) (moved now target options) db.jobs
unfolding moved
moved-WakesNone now target options db row v i active = record {
  same_key = λ j. refl;
  still_asleep = λ j ij e s. ground (arith, row_of_id j row v ij i e);
}

-- The UPDATE goes through, so the move is made: the row is rewritten and returned.
pub transition_moves :
    (now : ℕ) (reference : Text) (target : JobStatus) (options : TransitionOptions) (db : Db)
    (row : QueueJob)
    → IsValid db
    → get_by_reference reference db ≡ some row
    → may_become row.status target ≡ true
    → active_keys_unique (update_where (λ j. j.id == row.id) (moved now target options) db.jobs)
      ≡ true
    → transition now reference target options db
      ≡ (ok (moved now target options row), after_move now options row target db)
unfolding transition immediate_transaction ◌>>=◌ get_by_reference moved update_jobs
transition_moves now reference target options db row v e move index = rw (
  e,
  move,
  index,
  audit_move_lem now options row target options.audit_event _,
  updated_row_found (λ j. j.id == row.id) (moved now target options) db row (λ j. refl) (λ j. refl)
      v (find_first-mem _ db.jobs e) (ground arith),
)

pub transition_refused :
    (now : ℕ) (reference : Text) (target : JobStatus) (options : TransitionOptions) (db : Db)
    (row : QueueJob)
    → get_by_reference reference db ≡ some row
    → may_become row.status target ≡ true
    → active_keys_unique (update_where (λ j. j.id == row.id) (moved now target options) db.jobs)
      ≡ false
    → transition now reference target options db ≡ (err unique_constraint_failed, db)
unfolding transition immediate_transaction ◌>>=◌ update_jobs
transition_refused now reference target options db row e move index = rw (e, move, index)

-- In a valid database every move of the table from a status that the unique index covers succeeds:
-- it rewrites and returns the row, and records the event that is asked for.
pub transition_of_active_succeeds :
    (now : ℕ) (reference : Text) (target : JobStatus) (options : TransitionOptions) (db : Db)
    (row : QueueJob)
    → IsValid db
    → get_by_reference reference db ≡ some row
    → is_active row.status ≡ true
    → may_become row.status target ≡ true
    → transition now reference target options db
      ≡ (ok (moved now target options row), after_move now options row target db)
unfolding get_by_reference
transition_of_active_succeeds now reference target options db row v e active legal =
    transition_moves now reference target options db row v e legal (
      active_keys_unique-update_where _ _ db.jobs
        (moved-WakesNone now target options db row v (find_first-mem _ db.jobs e) active)
        v.index_holds)
