-- ===== src/Bulk/Status.antt =====
-- `get` of src/db/repositories/batch-repository.ts.
use whatsapp_bot.Base.{
  ℕ, Text, Option, Bool, map_option, count_if, find_first, none, some, false, text_eq, ◌&&◌,
  if◌then◌else◌, ◌==◌,
}
use whatsapp_bot.Db.{Db, MessageBatch}
use whatsapp_bot.Domain.Jobs.{JobStatus, same_status}

pub record BatchStatus : Type 0 where
  pub batch : MessageBatch
  pub counts : JobStatus → Option ℕ

abbrev pub has_batch : Text → Option Text → Bool
has_batch id none = false
has_batch id (some batch) = text_eq batch id

-- `GROUP BY status`: a status with no job has no entry.
unfoldable pub batch_counts : Text → Db → JobStatus → Option ℕ
batch_counts id db status =
    let n = count_if (λ row. has_batch id row.batch_id && same_status row.status status) db.jobs in
    if n == 0 then none else some n

unfoldable pub batch_status : Text → Db → Option BatchStatus
batch_status id db =
    map_option (λ batch. record { batch = batch; counts = batch_counts id db })
      (find_first (λ batch. text_eq batch.id id) db.batches)
