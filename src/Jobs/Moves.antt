-- ===== src/Jobs/Moves.antt =====
-- Every operation on the queue keeps the invariant, rewrites no request and moves statuses along
-- the transition table, on every branch.
use whatsapp_bot.Base.{
  ℕ, ◌≡◌, refl, Text, String, Bool, true, ◌&&◌, Option, none, some, List, [], ◌∷◌, ◌==◌,
  find_first-mem, arith, Memᴰ, select, earliest, earliest-IsEarliest, &&-both,
}
use whatsapp_bot.Domain.Jobs.{
  JobStatus, processing, cancelled, retry, sent, same_status, may_become, is_unsent,
}
use whatsapp_bot.Domain.Jobs.Graph.{◌⟶◌, ⟶-⟶*}
use whatsapp_bot.Domain.Queue.{QueueJob}
use whatsapp_bot.Db.{Db, EventType}
use whatsapp_bot.Jobs.Rules.{bind, found, got, transaction, guarded, read, returned}
use whatsapp_bot.Jobs.Rows.{get_by_reference}
use whatsapp_bot.Jobs.Sweep.{
  promote_due_scheduled, is_promotable, cancel_disabled, recover_stale_processing, is_processing,
  audit_reviews,
}
use whatsapp_bot.Jobs.Transition.{
  TransitionOptions, transition, moved, cancel, manual_retry, reset, mark_sent, audit_move,
}
use whatsapp_bot.Jobs.Claim.{claim, start, claim_row, is_eligible, due_time, claim_found}
use whatsapp_bot.Jobs.Invariant.{IsValid, row_of_id}
use whatsapp_bot.Jobs.Evolution.{Follows, SoundAt, update_jobs-SoundAt, insert_audit-SoundAt}

pub promote_due_scheduled-SoundAt : (now : ℕ) (db : Db) → SoundAt (promote_due_scheduled now) db
unfolding promote_due_scheduled is_promotable may_become
promote_due_scheduled-SoundAt now db = transaction _ db (
    update_jobs-SoundAt _ _ db (λ row. refl) (λ row. refl)
      (λ v row i h. record { request = ground arith; path = ⟶-⟶* (ground arith) }))

pub cancel_disabled-SoundAt : (now : ℕ) (db : Db) → SoundAt (cancel_disabled now) db
unfolding cancel_disabled is_unsent may_become
cancel_disabled-SoundAt now db = transaction _ db (
    got _ _ db (
      update_jobs-SoundAt _ _ db (λ row. refl) (λ row. refl)
        (λ v row i h. record { request = ground arith; path = ⟶-⟶* (ground arith) })))

audit_reviews-SoundAt :
    (now : ℕ) (rows : List QueueJob) (db : Db) → SoundAt (audit_reviews now rows) db
unfolding audit_reviews
audit_reviews-SoundAt now [] db = returned tt db
audit_reviews-SoundAt now (row ∷ rows) db =
    bind _ _ db (insert_audit-SoundAt _ _ _ _ _ _ db) (λ _ _. audit_reviews-SoundAt now rows _)

pub recover_stale_processing-SoundAt :
    (now : ℕ) (db : Db) → SoundAt (recover_stale_processing now) db
unfolding recover_stale_processing may_become
recover_stale_processing-SoundAt now db = transaction _ db (
    got _ _ db (
      bind _ _ db
        (update_jobs-SoundAt _ _ db (λ row. refl) (λ row. refl)
          (λ v row i h. record { request = ground arith; path = ⟶-⟶* (ground arith) }))
        (λ changes _.
          bind _ _ _ (audit_reviews-SoundAt now (select is_processing db.jobs) _)
            (λ _ _. returned changes _))))

module _ (now : ℕ) (reference : Text) (target : JobStatus) (options : TransitionOptions) where
  audit_move-SoundAt :
      (row : QueueJob) (event : Option EventType) (db : Db)
      → SoundAt (audit_move now options row target event) db
  unfolding audit_move
  audit_move-SoundAt row none db = returned tt db
  audit_move-SoundAt row (some event) db = insert_audit-SoundAt _ _ _ _ _ _ db

  moved_row-Follows :
      (db : Db) (row : QueueJob)
      → Memᴰ row db.jobs
      → row.status ⟶ target
      → IsValid db
      → (j : QueueJob) → Memᴰ j db.jobs
      → (j.id == row.id) ≡ true
      → Follows j (moved now target options j)
  unfolding moved
  moved_row-Follows db row i move v j ij e =
      rw (row_of_id j row v ij i e) (record { request = ground arith; path = ⟶-⟶* move })

  pub transition-SoundAt : (db : Db) → SoundAt (transition now reference target options) db
  unfolding transition moved get_by_reference
  transition-SoundAt db = transaction _ db (
      got _ _ db (
        found _ _ _ db (λ row e. guarded _ _ _ db (λ allowed.
          bind _ _ db
            (update_jobs-SoundAt _ _ db (λ j. refl) (λ j. refl)
              (moved_row-Follows db row (find_first-mem _ db.jobs e) (ground arith)))
            (λ _ _.
              bind _ _ _ (audit_move-SoundAt row options.audit_event _)
                (λ _ _. got _ _ _ (read _ _ _)))))))

pub cancel-SoundAt :
    (now : ℕ) (reference : Text) (actor : String) (db : Db)
    → SoundAt (cancel now reference actor) db
unfolding cancel
cancel-SoundAt now reference actor db =
    got _ _ db (found _ _ _ db (λ row e. transition-SoundAt now reference cancelled _ db))

pub mark_sent-SoundAt :
    (now : ℕ) (reference : Text) (actor : String) (db : Db)
    → SoundAt (mark_sent now reference actor) db
unfolding mark_sent
mark_sent-SoundAt now reference actor db = transition-SoundAt now reference sent _ db

reset_row-Follows :
    (now : ℕ) (db : Db) (row : QueueJob)
    → Memᴰ row db.jobs
    → row.status ⟶ retry
    → IsValid db
    → (j : QueueJob) → Memᴰ j db.jobs
    → (j.id == row.id) ≡ true
    → Follows j (reset now j)
unfolding reset
reset_row-Follows now db row i move v j ij e =
    rw (row_of_id j row v ij i e) (record { request = ground arith; path = ⟶-⟶* move })

pub manual_retry-SoundAt :
    (now : ℕ) (reference : Text) (actor : String) (db : Db)
    → SoundAt (manual_retry now reference actor) db
unfolding manual_retry reset get_by_reference
manual_retry-SoundAt now reference actor db = transaction _ db (
    got _ _ db (
      found _ _ _ db (λ row e. guarded _ _ _ db (λ allowed.
        bind _ _ db
          (update_jobs-SoundAt _ _ db (λ j. refl) (λ j. refl)
            (reset_row-Follows now db row (find_first-mem _ db.jobs e) (ground arith)))
          (λ _ _.
            bind _ _ _ (insert_audit-SoundAt _ _ _ _ _ _ _) (λ _ _. got _ _ _ (read _ _ _)))))))

started_row-Follows :
    (now : ℕ) (db : Db) (row : QueueJob)
    → Memᴰ row db.jobs
    → row.status ⟶ processing
    → IsValid db
    → (j : QueueJob) → Memᴰ j db.jobs
    → (j.id == row.id && same_status j.status row.status) ≡ true
    → Follows j (start now j)
unfolding start
started_row-Follows now db row i move v j ij e =
    rw (row_of_id j row v ij i (&&-both (j.id == row.id) (same_status j.status row.status) e).0)
      (record { request = ground arith; path = ⟶-⟶* move })

claim_row-SoundAt :
    (now : ℕ) (row : QueueJob) (db : Db) → Memᴰ row db.jobs → SoundAt (claim_row now row) db
unfolding claim_row start
claim_row-SoundAt now row db i = guarded _ _ _ db (λ allowed.
    bind _ _ db
      (update_jobs-SoundAt _ _ db (λ j. refl) (λ j. refl)
        (started_row-Follows now db row i (ground arith)))
      (λ changes _. got _ _ _ (returned _ _)))

pub claim-SoundAt :
    (now : ℕ) (reference : Option Text) (dry_run_only : Bool) (db : Db)
    → SoundAt (claim now reference dry_run_only) db
unfolding claim
claim-SoundAt now reference dry_run_only db =
    transaction _ db (got _ _ db (found_row (earliest eligible due_time db.jobs) refl))
  where
    eligible : QueueJob → Bool
    eligible = is_eligible now reference dry_run_only db

    found_row :
        (o : Option QueueJob)
        → earliest eligible due_time db.jobs ≡ o
        → SoundAt (claim_found now o) db
    found_row none e = returned none db
    found_row (some row) e =
        claim_row-SoundAt now row db (earliest-IsEarliest eligible due_time db.jobs row e).member
