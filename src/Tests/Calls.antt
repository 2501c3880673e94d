-- ===== src/Tests/Calls.antt =====
-- The theorems on the repositories, at the sample database.
use whatsapp_bot.Jobs.Claimable.{may_be_claimed, due_since}
use whatsapp_bot.Jobs.Claiming.{Taken}
use whatsapp_bot.Jobs.Claiming.{claim_lem}
use whatsapp_bot.Jobs.Requeue.{
  manual_retry_refused_when_replaced, after_retry, manual_retry_succeeds, renewed,
}
use whatsapp_bot.Domain.Errors.{unique_constraint_failed, DeliveryErrorClass}
use whatsapp_bot.Jobs.Recovery.{review_event, recover_stale_processing_clears, for_review, is_stale}
use whatsapp_bot.Retry.Bounds.{retry_delay_ms_bounds}
use whatsapp_bot.Jobs.Evolution.{Evolves, SameRequest}
use whatsapp_bot.Domain.Jobs.{is_active, may_become, sent}
use whatsapp_bot.Jobs.Transition.{transition, manual_retry, no_options}
use whatsapp_bot.History.{
  perform_all, Call, claim_job, perform_all_keeps, move_job, perform_all_settled, retry_job,
  recover_jobs, allow_destination,
}
use whatsapp_bot.Retry.{RetryOptions, retry_delay_ms, exponential}
use whatsapp_bot.Db.{Db}
use whatsapp_bot.Jobs.Sweep.{recover_stale_processing}
use whatsapp_bot.Jobs.Rows.{get_by_reference, active_keys_unique, is_active_with, row_matches}
use whatsapp_bot.Jobs.Moving.{Ends, transition_lem}
use whatsapp_bot.Jobs.Claim.{claim}
use whatsapp_bot.Domain.Queue.{QueueJob}
use whatsapp_bot.Jobs.Invariant.{IsValid, find_id}
use whatsapp_bot.Db.Exec.{ok, err}
use whatsapp_bot.Base.{
  refl, [], none, some, true, false, inl, ◌∷◌, List, text_eq, ℕ, ◌≡◌, has_dash, ◌≤◌, All, ◌*◌, ◌+◌,
  arith, max, Memᴰ, decimal,
}
use whatsapp_bot.Tests.Samples.{
  sample_db, sample_db-IsValid, pending_row, processing_row, failed_row, sent_row, other_jid,
  uuid_one, uuid_two, uuid_three,
}

abbrev sample_calls : List (ℕ × Call)
sample_calls =
    (100, claim_job none false)
    ∷ (110, move_job uuid_one sent no_options)
    ∷ (120, retry_job uuid_three "cli")
    ∷ (130, recover_jobs)
    ∷ (140, allow_destination other_jid true "cli")
    ∷ []

perform_all_keeps_example :
    IsValid (perform_all sample_calls sample_db)
    × Evolves sample_db.jobs (perform_all sample_calls sample_db).jobs
perform_all_keeps_example =
    perform_all_keeps sample_calls sample_db sample_db-IsValid (tt, (tt, (tt, (tt, (tt, tt)))))

perform_all_settled_example :
    (later : QueueJob) × (find_id 4 (perform_all sample_calls sample_db).jobs ≡ some later)
    × (later.status ≡ sent)
    × SameRequest sent_row later
perform_all_settled_example =
    perform_all_settled sample_calls sample_db sent_row sample_db-IsValid
      (tt, (tt, (tt, (tt, (tt, tt))))) refl (inl refl)

claim_lem_example :
    Taken 100 sample_db
      (may_be_claimed 100 none false sample_db)
      due_since
      (claim 100 none false sample_db)
claim_lem_example = claim_lem 100 none false sample_db sample_db-IsValid

transition_lem_example :
    Ends 100 uuid_two sent no_options sample_db (transition 100 uuid_two sent no_options sample_db)
transition_lem_example = transition_lem 100 uuid_two sent no_options sample_db sample_db-IsValid

recover_stale_processing_clears_example :
    (recover_stale_processing 100 sample_db ≡ (
      ok 1,
      record sample_db {
        jobs = pending_row ∷ for_review 100 processing_row ∷ failed_row ∷ sent_row ∷ [];
        audit_events = review_event 100 processing_row ∷ [];
      },
    ))
    × All (λ row. is_stale row ≡ false) (recover_stale_processing 100 sample_db).1.jobs
recover_stale_processing_clears_example =
    recover_stale_processing_clears 100 sample_db sample_db-IsValid

manual_retry_refused_when_replaced_example :
    manual_retry 100 uuid_three "cli" sample_db ≡ (err unique_constraint_failed, sample_db)
unfolding get_by_reference may_become is_active text_eq row_matches decimal
manual_retry_refused_when_replaced_example =
    manual_retry_refused_when_replaced 100 uuid_three "cli" sample_db failed_row pending_row refl
      refl (Memᴰ.head refl) refl refl refl

abbrev unreplaced_db : Db
unreplaced_db = record sample_db { jobs = failed_row ∷ [] }

unreplaced_db-IsValid : IsValid unreplaced_db
unfolding text_eq has_dash active_keys_unique is_active_with is_active
unreplaced_db-IsValid = record {
  ids_ascend = omega arith;
  ids_given = omega arith;
  uuids_differ = (tt, tt);
  uuids_dashed = (refl, tt);
  index_holds = refl;
}

manual_retry_succeeds_example :
    manual_retry 100 uuid_three "cli" unreplaced_db
    ≡ (ok (renewed 100 failed_row), after_retry 100 "cli" failed_row unreplaced_db)
unfolding get_by_reference may_become row_matches text_eq is_active
manual_retry_succeeds_example =
    manual_retry_succeeds 100 uuid_three "cli" unreplaced_db failed_row unreplaced_db-IsValid refl
      refl refl

abbrev sample_failure : RetryOptions
sample_failure = record {
  error_class = DeliveryErrorClass.rate_limited;
  attempt = 1;
  max_attempts = 3;
  base_ms = 1000;
  max_ms = 60000;
  retry_after_ms = none;
  random = 7;
}

retry_delay_ms_bounds_example :
    let delay = retry_delay_ms 3 1000 60000 7 in
    let backoff = exponential 3 1000 60000 in
    (100 ≤ delay)
    × (8 * backoff ≤ 10 * delay + 4)
    × (10 * delay ≤ max 1000 (12 * backoff + 5))
    × (10 * delay ≤ max 1000 (12 * 60000 + 5))
retry_delay_ms_bounds_example = retry_delay_ms_bounds 3 1000 60000 7 (omega arith)
