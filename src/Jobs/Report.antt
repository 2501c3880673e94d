-- ===== src/Jobs/Report.antt =====
-- src/db/repositories/job-repository.ts: `list`, `counts`, `oldestPending`, `lastSuccessfulSend`.
use whatsapp_bot.Domain.Queue.{QueueJob}
use whatsapp_bot.Db.{Db}
use whatsapp_bot.Base.{
  [], none, some, true, ◌∷◌, List, ℕ, Option, count_if, if◌then◌else◌, map, Bool, take, leb, select,
  get_or, ◌==◌, reverse,
}
use whatsapp_bot.Domain.Jobs.{sent, JobStatus, same_status, status_in, is_unsent}

abbrev pub status_filter : List JobStatus → QueueJob → Bool
status_filter [] row = true
status_filter (s ∷ statuses) row = status_in (s ∷ statuses) row.status

-- `ORDER BY id DESC LIMIT ?`; no statuses ask for all.
unfoldable pub list_jobs : List JobStatus → Option ℕ → Db → List QueueJob
list_jobs statuses limit db =
    take (get_or limit 100) (reverse (select (status_filter statuses) db.jobs))

-- The entry of a status; a status with no job has none.
unfoldable pub counts : Db → JobStatus → Option ℕ
counts db status =
    let n = count_if (λ row. same_status row.status status) db.jobs in
    if n == 0 then none else some n

-- MIN and MAX of a column, which pass over NULL.
unfoldable pub least : List ℕ → Option ℕ
least [] = none
least (n ∷ ns) = some (smaller (least ns))
  where
    smaller : Option ℕ → ℕ
    smaller none = n
    smaller (some m) = if leb n m then n else m

unfoldable pub greatest : List (Option ℕ) → Option ℕ
greatest [] = none
greatest (none ∷ ns) = greatest ns
greatest (some n ∷ ns) = some (larger (greatest ns))
  where
    larger : Option ℕ → ℕ
    larger none = n
    larger (some m) = if leb n m then m else n

unfoldable pub oldest_pending : Db → Option ℕ
oldest_pending db =
    least (map (λ row. row.created_at) (select (λ row. is_unsent row.status) db.jobs))

unfoldable pub last_successful_send : Db → Option ℕ
last_successful_send db =
    greatest (map (λ row. row.sent_at) (select (λ row. same_status row.status sent) db.jobs))
