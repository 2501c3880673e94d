-- ===== src/History.antt =====
-- Sequences of calls on the repositories of src/db/repositories/, by the command line, the
-- controller, the start-up and the worker in any order, each with its own reading of the clock.
use whatsapp_bot.Destinations.Alias.{set_alias}
use whatsapp_bot.Domain.Groups.{DiscoveredDestination}
use whatsapp_bot.Domain.Jobs.Graph.{IsTerminal, terminal_absorbs}
use whatsapp_bot.Domain.Jobs.{JobStatus}
use whatsapp_bot.Jobs.Invariant.{IsValid, find_id}
use whatsapp_bot.Jobs.Evolution.{Sound, Evolves, Sound-refl, Sound-trans, SameRequest}
use whatsapp_bot.Db.{Db}
use whatsapp_bot.Domain.Queue.{NewQueueJob, QueueJob}
use whatsapp_bot.Base.{[], some, true, ◌∷◌, ℕ, has_dash, List, String, ◌≡◌, Option, Text, All, Bool}
use whatsapp_bot.Jobs.Create.{create}
use whatsapp_bot.Jobs.Claim.{claim}
use whatsapp_bot.Jobs.Transition.{transition, cancel, manual_retry, mark_sent, TransitionOptions}
use whatsapp_bot.Jobs.Sweep.{promote_due_scheduled, cancel_disabled, recover_stale_processing}
use whatsapp_bot.Destinations.{set_can_send, set_enabled, synchronize}
use whatsapp_bot.Jobs.Insertion.{create-SoundAt}
use whatsapp_bot.Jobs.Moves.{
  claim-SoundAt, transition-SoundAt, cancel-SoundAt, manual_retry-SoundAt, mark_sent-SoundAt,
  promote_due_scheduled-SoundAt, cancel_disabled-SoundAt, recover_stale_processing-SoundAt,
}
use whatsapp_bot.Destinations.Moves.{
  set_can_send-SoundAt, set_enabled-SoundAt, synchronize-SoundAt, set_alias-SoundAt,
}

-- A call of an operation, with its arguments.
pub data Call : Type 0 where
  create_job : NewQueueJob → String → Call
  claim_job : Option Text → Bool → Call
  move_job : Text → JobStatus → TransitionOptions → Call
  cancel_job : Text → String → Call
  retry_job : Text → String → Call
  mark_job_sent : Text → String → Call
  promote_jobs : Call
  cancel_disabled_jobs : Call
  recover_jobs : Call
  allow_sending : Text → Bool → Call
  allow_destination : Text → Bool → String → Call
  name_destination : Text → Option Text → String → Call
  synchronize_groups : List DiscoveredDestination → String → Call

-- The state that a call leaves behind, whether it returns or throws.
unfoldable pub perform : ℕ → Call → Db → Db
perform now (create_job new actor) db = (create now new actor db).1
perform now (claim_job reference dry_run_only) db = (claim now reference dry_run_only db).1
perform now (move_job reference target options) db = (transition now reference target options db).1
perform now (cancel_job reference actor) db = (cancel now reference actor db).1
perform now (retry_job reference actor) db = (manual_retry now reference actor db).1
perform now (mark_job_sent reference actor) db = (mark_sent now reference actor db).1
perform now promote_jobs db = (promote_due_scheduled now db).1
perform now cancel_disabled_jobs db = (cancel_disabled now db).1
perform now recover_jobs db = (recover_stale_processing now db).1
perform now (allow_sending jid can_send) db = (set_can_send now jid can_send db).1
perform now (allow_destination reference enabled actor) db =
    (set_enabled now reference enabled actor db).1
perform now (name_destination reference alias actor) db = (set_alias now reference alias actor db).1
perform now (synchronize_groups items actor) db = (synchronize now items actor db).1

-- `randomUUID` gives new jobs a uuid with dashes.
abbrev pub MintsUuid : Call → Type 0
MintsUuid (create_job new actor) = has_dash new.uuid ≡ true
MintsUuid _ = Unit

unfoldable pub perform_all : List (ℕ × Call) → Db → Db
perform_all [] db = db
perform_all ((now, call) ∷ calls) db = perform_all calls (perform now call db)

perform-Sound : (now : ℕ) (call : Call) (db : Db) → MintsUuid call → Sound db (perform now call db)
unfolding perform
perform-Sound now (create_job new actor) db h = (create-SoundAt now new actor db h).at
perform-Sound now (claim_job reference dry_run_only) db h =
    (claim-SoundAt now reference dry_run_only db).at
perform-Sound now (move_job reference target options) db h =
    (transition-SoundAt now reference target options db).at
perform-Sound now (cancel_job reference actor) db h = (cancel-SoundAt now reference actor db).at
perform-Sound now (retry_job reference actor) db h =
    (manual_retry-SoundAt now reference actor db).at
perform-Sound now (mark_job_sent reference actor) db h =
    (mark_sent-SoundAt now reference actor db).at
perform-Sound now promote_jobs db h = (promote_due_scheduled-SoundAt now db).at
perform-Sound now cancel_disabled_jobs db h = (cancel_disabled-SoundAt now db).at
perform-Sound now recover_jobs db h = (recover_stale_processing-SoundAt now db).at
perform-Sound now (allow_sending jid can_send) db h = (set_can_send-SoundAt now jid can_send db).at
perform-Sound now (allow_destination reference enabled actor) db h =
    (set_enabled-SoundAt now reference enabled actor db).at
perform-Sound now (name_destination reference alias actor) db h =
    (set_alias-SoundAt now reference alias actor db).at
perform-Sound now (synchronize_groups items actor) db h =
    (synchronize-SoundAt now items actor db).at

-- Any sequence of calls, with any clock readings, leads from a valid database to a valid one: the
-- numbers of the jobs still ascend, no two jobs share a uuid, and no two active jobs share a key.
-- Every job that was there is there still, with its request unchanged and its status moved along
-- the transition table. New jobs are assumed to get uuids with a dash.
pub perform_all_keeps :
    (calls : List (ℕ × Call)) (db : Db)
    → IsValid db
    → All (λ timed. MintsUuid timed.1) calls
    → IsValid (perform_all calls db) × Evolves db.jobs (perform_all calls db).jobs
unfolding perform_all
perform_all_keeps [] db v h = Sound-refl db v
perform_all_keeps ((now, call) ∷ calls) db v h =
    Sound-trans db (perform now call db) _ (perform-Sound now call db h.0)
      (λ v'. perform_all_keeps calls (perform now call db) v' h.1) v

-- A job that is sent, cancelled or dry-run stays so for ever: whatever calls follow, in a valid
-- database its number still finds it, with the same status.
pub perform_all_settled :
    (calls : List (ℕ × Call)) (db : Db) (row : QueueJob)
    → IsValid db
    → All (λ timed. MintsUuid timed.1) calls
    → find_id row.id db.jobs ≡ some row
    → IsTerminal row.status
    → (next : QueueJob) × (find_id row.id (perform_all calls db).jobs ≡ some next)
      × (next.status ≡ row.status)
      × SameRequest row next
perform_all_settled calls db row v h e final =
    let (next, found, follows) = (perform_all_keeps calls db v h).1 row.id row e in
    (next, found, terminal_absorbs final follows.path, follows.request)
