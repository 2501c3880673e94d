-- ===== src/Messages/Suppression.antt =====
-- A message is queued once: a repeated one is answered with the job that is there.
use whatsapp_bot.Destinations.{resolve}
use whatsapp_bot.Domain.Groups.{Destination}
use whatsapp_bot.Messages.Enqueue.{insert_message, handle_enqueue_error, message_job}
use whatsapp_bot.Domain.Errors.{duplicate_job}
use whatsapp_bot.Db.{Db}
use whatsapp_bot.Domain.Queue.{QueueJob, NewQueueJob}
use whatsapp_bot.Db.Exec.{ok, err, catch_error, immediate_transaction, ◌>>=◌}
use whatsapp_bot.Base.{
  [], some, true, false, inl, inr, ◌∷◌, Bool, List, ℕ, find_last, ◌≡◌, String, Memᴰ, Option-cases,
  ◌==◌, any_of_mem, Bool-cases, arith, sym, subst, Text, Option,
}
use whatsapp_bot.Messages.{
  create_or_return, create_job, return_duplicate, enqueue_forward, MessageConfig, Fresh,
  ForwardRequest, QueueMessageRequest, is_past, StagedMedia, forward_job, Store,
}
use whatsapp_bot.Jobs.Create.{
  create, insert_and_read, insert_job, report_duplicate, rethrow_duplicate, violates_unique,
}
use whatsapp_bot.Jobs.Invariant.{IsValid, find_uuid_of_mem}
use whatsapp_bot.Jobs.Rows.{find_by_idempotency_key, is_active_with, get_by_reference}

find_last_lem :
    (p : QueueJob → Bool) (rows : List QueueJob) (x : QueueJob)
    → find_last p rows ≡ some x
    → Memᴰ x rows × (p x ≡ true)
find_last_lem p [] x h = absurd cc
find_last_lem p (y ∷ rows) x h = elim (Option-cases (find_last p rows)) [
  | inl e ↦ elim (Bool-cases (p y)) [
    | inl hit ↦
        let same : y ≡ x = ground arith in (Memᴰ.head (sym same), subst (λ z. p z ≡ true) same hit)
    | inr miss ↦ absurd (ground arith)
  ]
  | inr (z, e) ↦
      let same : z ≡ x = ground arith in
      let (i, hit) = find_last_lem p rows z e in
      (Memᴰ.tail (subst (λ r. Memᴰ r rows) same i), subst (λ r. p r ≡ true) same hit)
]

key_taken :
    (new : NewQueueJob) (db : Db) (other : QueueJob)
    → find_by_idempotency_key new.idempotency_key db ≡ some other
    → violates_unique new db ≡ true
unfolding find_by_idempotency_key violates_unique
key_taken new db other e =
    let (i, active) = find_last_lem _ db.jobs other e in
    let taken = any_of_mem (is_active_with new.idempotency_key) db.jobs i active in
    ground (arith, taken)

-- `create` of a job whose key an active job has: nothing changes.
create_refused :
    (now : ℕ) (new : NewQueueJob) (actor : String) (db : Db) (other : QueueJob)
    → (new.max_attempts == 0) ≡ false
    → find_by_idempotency_key new.idempotency_key db ≡ some other
    → create now new actor db ≡ (err (duplicate_job other.uuid), db)
unfolding create catch_error immediate_transaction ◌>>=◌ insert_and_read insert_job report_duplicate
    rethrow_duplicate
create_refused now new actor db other positive e = rw (positive, key_taken new db other e, e)

create_or_return_duplicate :
    (now : ℕ) (new : NewQueueJob) (actor : String) (db : Db) (other : QueueJob)
    → IsValid db
    → (new.max_attempts == 0) ≡ false
    → find_by_idempotency_key new.idempotency_key db ≡ some other
    → create_or_return now new actor db ≡ (ok (record { job = other; duplicate = true }), db)
unfolding create_or_return catch_error create_job ◌>>=◌ return_duplicate get_by_reference
    find_by_idempotency_key
create_or_return_duplicate now new actor db other v positive e = rw (
  create_refused now new actor db other positive e,
  find_uuid_of_mem db.jobs other v.uuids_differ v.uuids_dashed (find_last_lem _ db.jobs other e).0,
)

-- Forwarding a message again, to the same open destination for the same time, while the job of the
-- first request holds the key: the answer is that job, marked as a duplicate, and nothing changes.
pub enqueue_forward_suppresses :
    (cfg : MessageConfig) (fresh : Fresh) (request : ForwardRequest) (db : Db) (d : Destination)
    (other : QueueJob)
    → IsValid db
    → resolve request.destination db ≡ some d
    → (d.enabled ≡ true) × (d.can_send ≡ true)
    → is_past fresh.now request.scheduled_at ≡ false
    → (cfg.max_attempts == 0) ≡ false
    → find_by_idempotency_key (forward_job cfg fresh request d.jid).idempotency_key db ≡ some other
    → enqueue_forward cfg fresh request db ≡ (ok (record { job = other; duplicate = true }), db)
unfolding enqueue_forward ◌>>=◌
enqueue_forward_suppresses cfg fresh request db d other v e sendable future positive key = rw (
  e,
  sendable.0,
  sendable.1,
  future,
  create_or_return_duplicate fresh.now (forward_job cfg fresh request d.jid) _ db other v positive
      key,
)

-- `enqueue` answers in the same way when it comes to the INSERT, with a file or without one.
pub insert_message_suppresses :
    (cfg : MessageConfig) (fresh : Fresh) (request : QueueMessageRequest) (body jid : Text)
    (staged : Option StagedMedia) (s : Store) (other : QueueJob)
    → IsValid s.db
    → (cfg.max_attempts == 0) ≡ false
    → find_by_idempotency_key (message_job cfg fresh request body staged jid).idempotency_key s.db
      ≡ some other
    → insert_message cfg fresh request body staged jid s
      ≡ (ok (record { job = other; duplicate = true }), s)
unfolding insert_message catch_error create_job ◌>>=◌ handle_enqueue_error return_duplicate
    get_by_reference find_by_idempotency_key
insert_message_suppresses cfg fresh request body jid staged s other v positive e = rw (
  create_refused fresh.now (message_job cfg fresh request body staged jid) _ s.db other positive e,
  find_uuid_of_mem s.db.jobs other v.uuids_differ v.uuids_dashed
      (find_last_lem _ s.db.jobs other e).0,
)
