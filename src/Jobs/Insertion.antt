-- ===== src/Jobs/Insertion.antt =====
-- `create` adds one row at the end of a valid table, or throws and changes nothing.
use whatsapp_bot.Db.Exec.{◌>>=◌}
use whatsapp_bot.Domain.Errors.{Error, unique_constraint_failed}
use whatsapp_bot.Jobs.Rules.{guarded, caught, got, transaction, bind, read}
use mathlib.Core.List.{map-append}
use whatsapp_bot.Base.{
  ℕ, suc, ◌≤◌, ◌<◌, ◌≡◌, refl, Text, String, Bool, true, false, ◌||◌, List, [], ◌∷◌, ◌++◌, map,
  text_eq, text_eq_comm, any, All, arith, has_dash, ap, ◌∙◌, Pairwise-append_one, All-weaken,
  All-append_one, find_first_append, ◌==◌, Option, some, none,
}
use whatsapp_bot.Domain.Queue.{QueueJob, NewQueueJob}
use whatsapp_bot.Db.{Db}
use whatsapp_bot.Jobs.Rows.{is_active_with, active_keys_unique, find_by_idempotency_key}
use whatsapp_bot.Jobs.Create.{
  create, new_row, insert_job, violates_unique, report_duplicate, insert_and_read,
  rethrow_duplicate,
}
use whatsapp_bot.Jobs.Invariant.{id_of, uuid_of, DiffersFrom}
use whatsapp_bot.Jobs.Evolution.{Sound, SoundAt, Follows-refl, insert_audit-SoundAt, Sound-refl}

any-append_one :
    (p : QueueJob → Bool) (rows : List QueueJob) (x : QueueJob)
    → any p (rows ++ x ∷ []) ≡ (any p rows || p x)
any-append_one p [] x = ground arith
any-append_one p (y ∷ rows) x = ground (arith, any-append_one p rows x)

-- The index holds after the insert if no active row has the new key.
active_keys_unique-append :
    (rows : List QueueJob) (x : QueueJob)
    → active_keys_unique rows ≡ true
    → any (is_active_with x.idempotency_key) rows ≡ false
    → active_keys_unique (rows ++ x ∷ []) ≡ true
unfolding active_keys_unique is_active_with
active_keys_unique-append [] x h free = ground arith
active_keys_unique-append (y ∷ rows) x h free = ground (
  arith,
  active_keys_unique-append rows x,
  any-append_one (is_active_with y.idempotency_key) rows x,
  text_eq_comm x.idempotency_key y.idempotency_key,
)

uuids_free :
    (rows : List QueueJob) (uuid : Text)
    → any (λ row. text_eq row.uuid uuid) rows ≡ false
    → All (λ u. DiffersFrom u uuid) (map uuid_of rows)
uuids_free [] uuid h = tt
uuids_free (x ∷ rows) uuid h = ground (arith, uuids_free rows uuid)

-- A table to which a row with a fresh number, uuid and key is added.
insert_row-Sound :
    (db db' : Db) (x : QueueJob)
    → x.id ≡ suc db.job_seq
    → has_dash x.uuid ≡ true
    → any (λ row. text_eq row.uuid x.uuid) db.jobs ≡ false
    → any (is_active_with x.idempotency_key) db.jobs ≡ false
    → db'.jobs ≡ db.jobs ++ x ∷ []
    → db'.job_seq ≡ suc db.job_seq
    → Sound db db'
insert_row-Sound db db' x e dashed fresh free ejobs eseq v =
    let ids = ap (map id_of) ejobs ∙ map-append id_of db.jobs (x ∷ []) in
    let uuids = ap (map uuid_of) ejobs ∙ map-append uuid_of db.jobs (x ∷ []) in
    (
      record {
        ids_ascend = rw ids (
            Pairwise-append_one ◌<◌ (map id_of db.jobs) x.id v.ids_ascend (
              All-weaken (λ k. k ≤ db.job_seq) (λ k. k < x.id) (λ k h. omega arith) _ v.ids_given));
        ids_given =
            rw (ids, eseq)
              (All-append_one (λ k. k ≤ suc db.job_seq) (map id_of db.jobs)
                (All-weaken (λ k. k ≤ db.job_seq) (λ k. k ≤ suc db.job_seq) (λ k h. omega arith) _
                  v.ids_given)
                (omega arith));
        uuids_differ = rw uuids (
            Pairwise-append_one DiffersFrom (map uuid_of db.jobs) x.uuid v.uuids_differ
              (uuids_free db.jobs x.uuid fresh));
        uuids_dashed =
            rw uuids
              (All-append_one (λ u. has_dash u ≡ true) (map uuid_of db.jobs) v.uuids_dashed dashed);
        index_holds = rw ejobs (active_keys_unique-append db.jobs x v.index_holds free);
      },
      λ k row found. (
        row,
        rw ejobs (find_first_append (λ j. j.id == k) db.jobs (x ∷ []) found),
        Follows-refl row,
      ),
    )

insert_job-SoundAt :
    (now : ℕ) (new : NewQueueJob) (db : Db)
    → has_dash new.uuid ≡ true
    → SoundAt (insert_job now new) db
unfolding insert_job new_row violates_unique
insert_job-SoundAt now new db dashed = guarded _ _ _ db (λ checked. got _ _ db (
    guarded _ _ _ db (λ unique. got _ _ db (
      guarded _ _ _ db (λ referred. record {
        at =
            insert_row-Sound db _ (new_row now (suc db.job_seq) new) refl dashed (ground arith)
              (ground arith) refl refl;
      })))))

rethrow_duplicate_state : (o : Option QueueJob) (db : Db) → (rethrow_duplicate o db).1 ≡ db
unfolding rethrow_duplicate
rethrow_duplicate_state none db = refl
rethrow_duplicate_state (some row) db = refl

-- The handler only reads.
pub report_duplicate_state :
    (new : NewQueueJob) (e : Error) (db : Db) → (report_duplicate new e db).1 ≡ db
unfolding report_duplicate ◌>>=◌
report_duplicate_state new unique_constraint_failed db =
    rethrow_duplicate_state (find_by_idempotency_key new.idempotency_key db) db
report_duplicate_state new e db = refl

report_duplicate-SoundAt :
    (new : NewQueueJob) (e : Error) (db : Db) → SoundAt (report_duplicate new e) db
report_duplicate-SoundAt new e db = record {
  at = rw (report_duplicate_state new e db) (Sound-refl db);
}

-- `create`, for a uuid with a dash, as `randomUUID` makes them.
pub create-SoundAt :
    (now : ℕ) (new : NewQueueJob) (actor : String) (db : Db)
    → has_dash new.uuid ≡ true
    → SoundAt (create now new actor) db
unfolding create insert_and_read
create-SoundAt now new actor db dashed =
    caught _ _ db
      (transaction _ db (
        bind _ _ db (insert_job-SoundAt now new db dashed)
          (λ _ _. bind _ _ _ (insert_audit-SoundAt _ _ _ _ _ _ _) (λ _ _. got _ _ _ (read _ _ _)))))
      (λ e. report_duplicate-SoundAt new e _)
