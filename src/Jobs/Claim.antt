-- ===== src/Jobs/Claim.antt =====
-- src/db/repositories/job-repository.ts: `claimNext` and `claimJob`.
use whatsapp_bot.Base.{
  ℕ, suc, Text, Bool, true, false, ◌&&◌, ◌||◌, not, Option, none, some, [], ◌∷◌, ◌==◌,
  if◌then◌else◌, leb, get_or, text_eq, any, earliest,
}
use whatsapp_bot.Domain.Jobs.{
  pending, processing, waiting_rate_limit, retry, same_status, status_in, may_become,
}
use whatsapp_bot.Domain.Errors.{invalid_state_transition}
use whatsapp_bot.Domain.Queue.{QueueJob}
use whatsapp_bot.Db.{Db}
use whatsapp_bot.Db.Exec.{◌>>=◌, ◌>>◌, Exec, pure, gets, throw_if, immediate_transaction}
use whatsapp_bot.Jobs.Rows.{row_matches, get_by_reference, update_jobs}

-- The JOIN: the destination of the job exists, is enabled and can be sent to.
unfoldable pub destination_open : Db → QueueJob → Bool
destination_open db row =
    any (λ d. text_eq d.jid row.destination_jid && (d.enabled && d.can_send)) db.destinations

abbrev pub is_due : ℕ → Option ℕ → Bool
is_due now none = false
is_due now (some at) = leb at now

-- The interpolated condition: an absent or empty reference adds none.
abbrev pub reference_filter : Option Text → QueueJob → Bool
reference_filter none row = true
reference_filter (some []) row = true
reference_filter (some (c ∷ cs)) row = row_matches (c ∷ cs) row

-- The WHERE clause of the SELECT.
unfoldable pub is_eligible : ℕ → Option Text → Bool → Db → QueueJob → Bool
is_eligible now reference dry_run_only db row =
    destination_open db row
    && ((same_status row.status pending
          || (status_in (retry ∷ waiting_rate_limit ∷ []) row.status
              && is_due now row.next_attempt_at))
        && ((not dry_run_only || row.dry_run) && reference_filter reference row))

-- `COALESCE(j.next_attempt_at, j.scheduled_at)`
abbrev pub due_time : QueueJob → ℕ
due_time row = get_or row.next_attempt_at row.scheduled_at

unfoldable pub start : ℕ → QueueJob → QueueJob
start now row = record row {
  status = processing;
  attempt_count = suc row.attempt_count;
  next_attempt_at = none;
  updated_at = now;
  started_at = some now;
}

unfoldable pub claim_row : ℕ → QueueJob → Exec Db (Option QueueJob)
claim_row now row = do
  throw_if (not (may_become row.status processing)) (invalid_state_transition row.status processing)
  changes ← update_jobs (λ j. j.id == row.id && same_status j.status row.status) (start now)
  refreshed ← gets (get_by_reference row.uuid)
  pure (if changes == 1 then refreshed else none)

abbrev pub claim_found : ℕ → Option QueueJob → Exec Db (Option QueueJob)
claim_found now none = pure none
claim_found now (some row) = claim_row now row

-- The private `claim`; `claimNext` passes no reference, `claimJob` one.
unfoldable pub claim : ℕ → Option Text → Bool → Exec Db (Option QueueJob)
claim now reference dry_run_only = immediate_transaction do
  row ← gets (λ db. earliest (is_eligible now reference dry_run_only db) due_time db.jobs)
  claim_found now row
