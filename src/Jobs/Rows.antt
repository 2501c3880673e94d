-- ===== src/Jobs/Rows.antt =====
-- src/db/repositories/job-repository.ts and the constraints of src/db/migrations/index.ts: how
-- rows of `message_jobs` are found, and how a statement updates them.
use whatsapp_bot.Base.{
  ℕ, Text, Bool, true, ◌&&◌, ◌||◌, not, Option, List, [], ◌∷◌, if◌then◌else◌, text_eq, decimal, any,
  find_first, find_last, count_if, update_where,
}
use whatsapp_bot.Domain.Jobs.{is_active}
use whatsapp_bot.Domain.Errors.{unique_constraint_failed}
use whatsapp_bot.Domain.Queue.{QueueJob}
use whatsapp_bot.Db.{Db}
use whatsapp_bot.Db.Exec.{Exec, ok, err}

-- `uuid = ? OR CAST(id AS TEXT) = ?`
unfoldable pub row_matches : Text → QueueJob → Bool
row_matches reference row = text_eq row.uuid reference || text_eq (decimal row.id) reference

-- `getByReference`; `LIMIT 1` takes the first row of the table.
unfoldable pub get_by_reference : Text → Db → Option QueueJob
get_by_reference reference db = find_first (row_matches reference) db.jobs

-- `idempotency_key = ?` among the rows of the partial index.
unfoldable pub is_active_with : Text → QueueJob → Bool
is_active_with key row = text_eq row.idempotency_key key && is_active row.status

-- `findByIdempotencyKey`
unfoldable pub find_by_idempotency_key : Text → Db → Option QueueJob
find_by_idempotency_key key db = find_last (is_active_with key) db.jobs

-- The unique index `uq_jobs_active_idempotency` holds of these rows.
unfoldable pub active_keys_unique : List QueueJob → Bool
active_keys_unique [] = true
active_keys_unique (row ∷ rows) =
    not (is_active row.status && any (is_active_with row.idempotency_key) rows)
    && active_keys_unique rows

-- `UPDATE message_jobs SET f WHERE p`, with the number of changed rows. The statement fails where
-- the unique index would not hold after it.
unfoldable pub update_jobs : (QueueJob → Bool) → (QueueJob → QueueJob) → Exec Db ℕ
update_jobs p f db =
    let rows = update_where p f db.jobs in
    if active_keys_unique rows
    then (ok (count_if p db.jobs), record db { jobs = rows })
    else (err unique_constraint_failed, db)
