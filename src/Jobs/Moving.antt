-- ===== src/Jobs/Moving.antt =====
-- What a caller of `transition` may rely on, written without its statements.
use whatsapp_bot.Jobs.Invariant.{IsValid}
use whatsapp_bot.Domain.Errors.{not_found, invalid_state_transition, unique_constraint_failed}
use whatsapp_bot.Jobs.Rows.{get_by_reference, active_keys_unique}
use whatsapp_bot.Db.{Db}
use whatsapp_bot.Domain.Queue.{QueueJob}
use whatsapp_bot.Db.Exec.{ok, err, Result}
use whatsapp_bot.Jobs.Replaced.{is_replaced, rewritten_row, active_keys_unique-rewritten}
use whatsapp_bot.Jobs.Outcomes.{
  move_events, transition_missing, transition_illegal, transition_moves, transition_refused,
}
use whatsapp_bot.Jobs.Transition.{moved, TransitionOptions, transition}
use whatsapp_bot.Jobs.Evolution.{SameRequest}
use whatsapp_bot.Domain.Jobs.{
  JobStatus, sent, same_status, may_become, pending, is_active, scheduled, processing,
  waiting_rate_limit, retry, failed, cancelled, dry_run, review_required,
}
use whatsapp_bot.Base.{
  refl, none, some, true, false, inl, inr, ℕ, Text, ◌≡◌, ◌⊎◌, Option-cases, Bool-cases, arith, Memᴰ,
  ◌&&◌, update_where, ◌==◌, find_first-mem, ◌++◌, not,
}

-- The row after a move: what was asked for is kept, and so are its attempts; the status is the
-- target; the time of sending is `now` when the job is sent, and is kept otherwise; the remote id is
-- that of the options, and without one is kept.
pub record IsMoved (now : ℕ) (target : JobStatus) (options : TransitionOptions) (old new : QueueJob)
    : Type 0 where
  pub request : SameRequest old new
  pub status : new.status ≡ target
  pub attempts : new.attempt_count ≡ old.attempt_count
  pub started : new.started_at ≡ old.started_at
  pub due : new.next_attempt_at ≡ options.next_attempt_at
  pub error_class : new.last_error_class ≡ options.error_class
  pub error_message : new.last_error_message ≡ options.error_message
  pub updated : new.updated_at ≡ now
  pub sending :
      ((target ≡ sent) × (new.sent_at ≡ some now))
      ⊎ ((same_status target sent ≡ false) × (new.sent_at ≡ old.sent_at))
  pub remote :
      ((id : Text) × (options.remote_message_id ≡ some id) × (new.remote_message_id ≡ some id))
      ⊎ ((options.remote_message_id ≡ none) × (new.remote_message_id ≡ old.remote_message_id))

-- The four ends of `transition`.
pub data Ends (now : ℕ) (reference : Text) (target : JobStatus) (options : TransitionOptions)
    (db : Db) : Result QueueJob × Db → Type 0 where
  unknown :
      get_by_reference reference db ≡ none
      → Ends now reference target options db (err (not_found reference), db)
  forbidden :
      (old : QueueJob)
      → get_by_reference reference db ≡ some old
      → may_become old.status target ≡ false
      → Ends now reference target options db (err (invalid_state_transition old.status target), db)
  clashes :
      (old : QueueJob)
      → get_by_reference reference db ≡ some old
      → may_become old.status target ≡ true
      → is_active target ≡ true
      → is_replaced old db.jobs ≡ true
      → Ends now reference target options db (err unique_constraint_failed, db)
  moves :
      (old new : QueueJob)
      → get_by_reference reference db ≡ some old
      → may_become old.status target ≡ true
      → (is_active target && is_replaced old db.jobs) ≡ false
      → IsMoved now target options old new
      → Ends now reference target options db (
        ok new,
        record db {
          jobs = update_where (λ j. j.id == old.id) (λ _. new) db.jobs;
          audit_events = db.audit_events ++ move_events now options old target options.audit_event;
        },
      )

is_sent : (s : JobStatus) → same_status s sent ≡ true → s ≡ sent
is_sent pending h = cc
is_sent scheduled h = cc
is_sent processing h = cc
is_sent waiting_rate_limit h = cc
is_sent retry h = cc
is_sent JobStatus.sent h = refl
is_sent failed h = cc
is_sent cancelled h = cc
is_sent dry_run h = cc
is_sent review_required h = cc

sent_at_moved :
    (now : ℕ) (target : JobStatus) (options : TransitionOptions) (old : QueueJob)
    → ((target ≡ sent) × ((moved now target options old).sent_at ≡ some now))
      ⊎ ((same_status target sent ≡ false) × ((moved now target options old).sent_at ≡ old.sent_at))
unfolding moved
sent_at_moved now target options old = elim (Bool-cases (same_status target sent)) [
  | inl e ↦ inl (is_sent target e, rw e)
  | inr e ↦ inr (e, rw e)
]

remote_moved :
    (now : ℕ) (target : JobStatus) (options : TransitionOptions) (old : QueueJob)
    → ((id : Text) × (options.remote_message_id ≡ some id)
        × ((moved now target options old).remote_message_id ≡ some id))
      ⊎ ((options.remote_message_id ≡ none)
          × ((moved now target options old).remote_message_id ≡ old.remote_message_id))
unfolding moved
remote_moved now target options old = elim (Option-cases options.remote_message_id) [
  | inl e ↦ inr (e, rw e)
  | inr (id, e) ↦ inl (id, e, rw e)
]

moved-IsMoved :
    (now : ℕ) (target : JobStatus) (options : TransitionOptions) (old : QueueJob)
    → IsMoved now target options old (moved now target options old)
unfolding moved
moved-IsMoved now target options old = record {
  request = ground arith;
  status = refl;
  attempts = refl;
  started = refl;
  due = refl;
  error_class = refl;
  error_message = refl;
  updated = refl;
  sending = sent_at_moved now target options old;
  remote = remote_moved now target options old;
}

made :
    (now : ℕ) (reference : Text) (target : JobStatus) (options : TransitionOptions) (db : Db)
    (row : QueueJob)
    → IsValid db
    → get_by_reference reference db ≡ some row
    → may_become row.status target ≡ true
    → (is_active target && is_replaced row db.jobs) ≡ false
    → (index : active_keys_unique
          (update_where (λ j. j.id == row.id) (moved now target options) db.jobs)
        ≡ true)
    → Ends now reference target options db (transition now reference target options db)
unfolding get_by_reference
made now reference target options db row v e legal fits index =
    rw
      (
        transition_moves now reference target options db row v e legal index,
        rewritten_row (moved now target options) db row v (find_first-mem _ db.jobs e),
      )
      (moves row (moved now target options row) e legal fits (moved-IsMoved now target options row))

index_after_move :
    (now : ℕ) (target : JobStatus) (options : TransitionOptions) (db : Db) (row : QueueJob)
    → IsValid db
    → Memᴰ row db.jobs
    → active_keys_unique (update_where (λ j. j.id == row.id) (moved now target options) db.jobs)
      ≡ not (is_active target && is_replaced row db.jobs)
unfolding moved
index_after_move now target options db row v i =
    active_keys_unique-rewritten db row (moved now target options) (λ r. refl) (λ r. refl) v i

-- In a valid database `transition` ends in one of four ways. It throws, and changes nothing, for an
-- unknown reference, for a move that the table forbids, and where the job is to be active and another
-- active job carries its key. Otherwise it puts one row in the place of the job's and returns it,
-- with the target as its status and `now` as its time of sending if it is sent; it records the move if
-- an event is asked for; and nothing else changes.
pub transition_lem :
    (now : ℕ) (reference : Text) (target : JobStatus) (options : TransitionOptions) (db : Db)
    → IsValid db
    → Ends now reference target options db (transition now reference target options db)
unfolding get_by_reference
transition_lem now reference target options db v =
    elim (Option-cases (get_by_reference reference db)) [
      | inl e ↦ rw (transition_missing now reference target options db e) (unknown e)
      | inr (row, e) ↦ elim (Bool-cases (may_become row.status target)) [
        | inr illegal ↦
            rw (transition_illegal now reference target options db row e illegal)
              (forbidden row e illegal)
        | inl legal ↦
            let index = index_after_move now target options db row v (find_first-mem _ db.jobs e) in
            elim (Bool-cases (is_active target && is_replaced row db.jobs)) [
              | inr fits ↦
                  made now reference target options db row v e legal fits (rw fits at index)
              | inl clash ↦
                  rw
                    (transition_refused now reference target options db row e legal
                      (rw clash at index))
                    (clashes row e legal (ground arith) (ground arith))
            ]
      ]
    ]
