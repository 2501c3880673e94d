-- ===== src/Domain/Jobs.antt =====
-- src/domain/jobs.ts: the statuses of a queued job, the table of legal transitions, and the job
-- itself. Instants are milliseconds of UTC; `toISOString` writes them with a fixed width, so the
-- textual order of the columns is the order of the numbers.
pub mod Graph
use whatsapp_bot.Base.{ℕ, Bool, List, [], ◌∷◌, any, ◌==◌}

pub data JobStatus : Type 0 where
  pending scheduled processing waiting_rate_limit retry sent failed cancelled : JobStatus
  review_required dry_run : JobStatus

pub data PayloadType : Type 0 where
  text image video document audio : PayloadType

-- The position of a status in `JOB_STATUSES`, by which two statuses are compared.
abbrev pub position : JobStatus → ℕ
position pending = 0
position scheduled = 1
position processing = 2
position waiting_rate_limit = 3
position retry = 4
position sent = 5
position failed = 6
position cancelled = 7
position review_required = 8
position dry_run = 9

-- `===` on statuses.
abbrev pub same_status : JobStatus → JobStatus → Bool
same_status s t = position s == position t

-- `status IN (...)`
abbrev pub status_in : List JobStatus → JobStatus → Bool
status_in l s = any (same_status s) l

-- The sets of the table `transitions`.
abbrev pub transitions : JobStatus → List JobStatus
transitions pending = processing ∷ cancelled ∷ []
transitions scheduled = pending ∷ cancelled ∷ []
transitions processing = sent ∷ dry_run ∷ retry ∷ waiting_rate_limit ∷ failed ∷ review_required ∷ []
transitions waiting_rate_limit = processing ∷ cancelled ∷ []
transitions retry = processing ∷ cancelled ∷ []
transitions failed = retry ∷ cancelled ∷ []
transitions review_required = retry ∷ sent ∷ failed ∷ cancelled ∷ []
transitions sent = []
transitions cancelled = []
transitions dry_run = []

-- The test of `assertJobTransition`.
unfoldable pub may_become : JobStatus → JobStatus → Bool
may_become current target = status_in (transitions current) target

-- `UNSENT_STATUSES`, the statuses that the bulk cancellations select.
abbrev pub unsent_statuses : List JobStatus
unsent_statuses = pending ∷ scheduled ∷ retry ∷ waiting_rate_limit ∷ []

unfoldable pub is_unsent : JobStatus → Bool
is_unsent = status_in unsent_statuses

-- The statuses of the partial unique index `uq_jobs_active_idempotency`.
abbrev pub active_statuses : List JobStatus
active_statuses =
    pending ∷ scheduled ∷ processing ∷ waiting_rate_limit ∷ retry ∷ sent ∷ dry_run ∷ []

unfoldable pub is_active : JobStatus → Bool
is_active = status_in active_statuses
