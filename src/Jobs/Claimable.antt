-- ===== src/Jobs/Claimable.antt =====
-- Which jobs a claim may take, written from what they wait for.
use whatsapp_bot.Domain.Groups.{Destination}
use whatsapp_bot.Domain.Jobs.{
  pending, scheduled, processing, waiting_rate_limit, retry, sent, failed, cancelled,
  review_required, dry_run, JobStatus, status_in,
}
use whatsapp_bot.Jobs.Rows.{row_matches}
use whatsapp_bot.Db.{Db}
use whatsapp_bot.Domain.Jobs.{same_status, processing}
use whatsapp_bot.Domain.Queue.{QueueJob}
use whatsapp_bot.Base.{
  ℕ, List, ◌≡◌, true, ◌&&◌, arith, ◌∷◌, refl, [], false, Bool, none, some, Option, Text, inl, inr,
  Option-cases, text_eq, ◌||◌, leb, decimal, not, any,
}
use whatsapp_bot.Jobs.Claim.{is_eligible, due_time, destination_open, reference_filter, is_due}

-- A job waits for nothing but a claim: it is PENDING, or its next attempt is due.
abbrev pub is_time : ℕ → JobStatus → Option ℕ → Bool
is_time now pending at = true
is_time now retry (some at) = leb at now
is_time now waiting_rate_limit (some at) = leb at now
is_time now _ _ = false

-- The caller has named no job, or this one, by its uuid or its number.
abbrev pub is_named : Option Text → QueueJob → Bool
is_named none row = true
is_named (some []) row = true
is_named (some (c ∷ cs)) row = text_eq row.uuid (c ∷ cs) || text_eq (decimal row.id) (c ∷ cs)

-- Its destination is known, enabled and open for sending, and it is a dry run if only those are
-- asked for.
abbrev pub may_be_claimed : ℕ → Option Text → Bool → Db → QueueJob → Bool
may_be_claimed now reference dry_run_only db row =
    is_time now row.status row.next_attempt_at
    && (is_named reference row
        && ((row.dry_run || not dry_run_only)
            && any (λ d. d.enabled && (d.can_send && text_eq d.jid row.destination_jid))
                db.destinations))

-- The time since when it waits.
abbrev pub due_since : QueueJob → ℕ
due_since row = elim row.next_attempt_at [ none ↦ row.scheduled_at | some at ↦ at ]

time_tested :
    (now : ℕ) (s : JobStatus) (at : Option ℕ)
    → (same_status s pending || (status_in (retry ∷ waiting_rate_limit ∷ []) s && is_due now at))
      ≡ is_time now s at
time_tested now pending at = refl
time_tested now scheduled at = refl
time_tested now processing at = refl
time_tested now waiting_rate_limit none = refl
time_tested now waiting_rate_limit (some at) = refl
time_tested now retry none = refl
time_tested now retry (some at) = refl
time_tested now sent at = refl
time_tested now failed at = refl
time_tested now cancelled at = refl
time_tested now review_required at = refl
time_tested now dry_run at = refl

name_tested :
    (reference : Option Text) (row : QueueJob)
    → reference_filter reference row ≡ is_named reference row
unfolding row_matches
name_tested none row = refl
name_tested (some []) row = refl
name_tested (some (c ∷ cs)) row = refl

destination_tested :
    (jid : Text) (destinations : List Destination)
    → any (λ d. text_eq d.jid jid && (d.enabled && d.can_send)) destinations
      ≡ any (λ d. d.enabled && (d.can_send && text_eq d.jid jid)) destinations
destination_tested jid [] = refl
destination_tested jid (d ∷ ds) = ground (arith, destination_tested jid ds)

pub is_eligible-eq-may_be_claimed :
    (now : ℕ) (reference : Option Text) (dry_run_only : Bool) (db : Db) (row : QueueJob)
    → is_eligible now reference dry_run_only db row
      ≡ may_be_claimed now reference dry_run_only db row
unfolding is_eligible destination_open
is_eligible-eq-may_be_claimed now reference dry_run_only db row =
    rw
      (
        time_tested now row.status row.next_attempt_at,
        name_tested reference row,
        destination_tested row.destination_jid db.destinations,
      )
      (ground arith)

pub due_time-eq-due_since : (row : QueueJob) → due_time row ≡ due_since row
due_time-eq-due_since row = elim (Option-cases row.next_attempt_at) [
  | inl e ↦ rw e
  | inr (at, e) ↦ rw e
]
