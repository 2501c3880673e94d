-- ===== src/Tests/Rounds.antt =====
-- The theorems on the worker's rounds and on calls of the repositories, at the sample database.
use whatsapp_bot.Db.{same_key}
use whatsapp_bot.Db.Audit.{insert_audit}
use whatsapp_bot.Jobs.Transition.{transition, moved, audit_move}
use whatsapp_bot.Destinations.{resolve, refers, eq_nocase}
use whatsapp_bot.Domain.Queue.{QueueJob}
use whatsapp_bot.Domain.Jobs.{is_active, is_unsent, may_become, sent}
use whatsapp_bot.Jobs.Rows.{
  update_jobs, active_keys_unique, is_active_with, get_by_reference, row_matches,
}
use whatsapp_bot.Jobs.Sweep.{
  promote_due_scheduled, is_promotable, cancel_disabled, destination_closed,
}
use whatsapp_bot.Jobs.Evolution.{Evolves}
use whatsapp_bot.Db.State.{get, remove, set, put}
use whatsapp_bot.Jobs.Invariant.{IsValid, find_id}
use whatsapp_bot.Db.Exec.{◌>>=◌, immediate_transaction}
use whatsapp_bot.Worker.Steps.{
  Run, next, here, resume, settled, round_calls_once, round_keeps, round_settled,
}
use whatsapp_bot.Worker.Send.{
  resume_round, settle, check_and_send, send_job, call_transport, after_send, record_delivery,
  finish_send,
}
use whatsapp_bot.Worker.{
  SendOutcome, World, begin_round, delivered, is_globally_paused, phase_of, finished,
  claim_for_round, end_pause, start_pacing,
}
use whatsapp_bot.Jobs.Claim.{start, claim, is_eligible, destination_open, claim_row}
use whatsapp_bot.Base.{
  [], none, some, true, false, ◌∷◌, length, ◌≤◌, ◌≡◌, text_eq, decimal, refl, inl,
}
use whatsapp_bot.Tests.Samples.{
  sample_config, sample_readings, sample_world, pending_row, sample_db, sample_db-IsValid, sent_row,
}

abbrev remote_answer : SendOutcome
remote_answer = delivered (some (77 ∷ [])) false

abbrev begun : World
begun = (begin_round sample_config sample_readings none sample_world).1

abbrev called : World
called = (resume_round sample_config sample_readings (start 100 pending_row) true begun).1

abbrev ended : World
ended = (settle sample_config sample_readings (start 100 pending_row) remote_answer called).1

-- The pending job is claimed, sent, and recorded as sent.
sample-Run :
    Run sample_config
      (phase_of (begin_round sample_config sample_readings none sample_world).0)
      begun
      (finished true)
      ended
unfolding begin_round is_globally_paused ◌>>=◌ get same_key claim_for_round promote_due_scheduled
    immediate_transaction update_jobs active_keys_unique is_active is_promotable is_active_with
    text_eq cancel_disabled is_unsent destination_closed claim is_eligible destination_open decimal
    remove may_become claim_row start get_by_reference row_matches end_pause start_pacing
    resume_round check_and_send resolve refers eq_nocase send_job call_transport settle after_send
    record_delivery finish_send transition moved audit_move insert_audit set put
sample-Run =
    next (next here (resume sample_readings (start 100 pending_row) true begun))
      (settled sample_readings (start 100 pending_row) false remote_answer called tt)

round_keeps_example : IsValid ended.db × Evolves sample_db.jobs ended.db.jobs
round_keeps_example =
    round_keeps sample_config sample_readings none sample_world (finished true) ended
      sample_db-IsValid sample-Run

round_settled_example :
    (later : QueueJob) × (find_id 4 ended.db.jobs ≡ some later) × (later.status ≡ sent)
round_settled_example =
    round_settled sample_config sample_readings none sample_world (finished true) ended sent_row
      sample_db-IsValid sample-Run refl (inl refl)

round_calls_once_example : length ended.send_calls ≤ 1
round_calls_once_example =
    round_calls_once sample_config sample_readings none sample_world (finished true) ended
      sample-Run
