-- ===== src/Messages.antt =====
-- src/messaging/message-service.ts, src/messaging/idempotency.ts and
-- src/db/repositories/media-repository.ts: how a request becomes a job.
pub mod Media
pub mod Enqueue
pub mod Suppression
pub mod Staging
pub mod Moves
use whatsapp_bot.Destinations.{resolve}
use whatsapp_bot.Jobs.Rows.{get_by_reference}
use whatsapp_bot.Domain.Jobs.{PayloadType}
use whatsapp_bot.Domain.Errors.{Error, duplicate_job, not_found, plain}
use whatsapp_bot.Domain.Queue.{
  QueueJob, InitialStatus, NewQueueJob, initially_pending, initially_scheduled,
}
use whatsapp_bot.Db.Exec.{Exec, throw, ◌>>=◌, pure, gets, catch_error, or_throw, ◌>>◌, throw_if}
use whatsapp_bot.Db.{Db}
use whatsapp_bot.Base.{
  [], none, some, true, false, ◌∷◌, Text, ℕ, Option, List, String, Bool, leb, text, get_or, not,
  ◌||◌,
}
use whatsapp_bot.Jobs.Create.{create}

-- What the idempotency key depends on; the schedule `none` is 'IMMEDIATE'.
pub record IdempotencyInput : Type 0 where
  pub destination_jid : Text
  pub payload_type : PayloadType
  pub text : Text
  pub media_hash : Option Text
  pub schedule : Option ℕ
  pub filename : Option Text
  pub options : List (Text × Text)
  pub force_nonce : Option Text
  pub dry_run : Bool

-- What the service gets from elsewhere: the hash of the canonical JSON, the printer of JSON, the
-- normalisation of Unicode, and two fields of the configuration.
pub record MessageConfig : Type 0 where
  pub digest : IdempotencyInput → Text
  pub stringify : List (Text × Text) → Text
  pub normalize_nfc : Text → Text
  pub dry_run : Bool
  pub max_attempts : ℕ

-- The database and the files in the media directory.
pub record Store : Type 0 where
  pub db : Db
  pub files : List Text

abbrev pub in_db : {A : Type 0} → Exec Db A → Exec Store A
in_db m s = let (r, db') = m s.db in (r, record s { db = db' })

-- The values read at the call: the clock and `randomUUID`.
pub record Fresh : Type 0 where
  pub now : ℕ
  pub uuid : Text

pub record ForwardRequest : Type 0 where
  pub destination : Text
  pub source_key : Text
  pub scheduled_at : Option ℕ
  pub actor : Option String
  pub batch_id : Option Text

pub record QueueMessageRequest : Type 0 where
  pub destination : Text
  pub text : Option Text
  pub media_path : Option Text
  pub filename : Option Text
  pub scheduled_at : Option ℕ
  pub force : Bool
  pub actor : Option String
  pub options : Option (List (Text × Text))
  pub batch_id : Option Text
  pub dry_run : Option Bool

pub record StagedMedia : Type 0 where
  pub path : Text
  pub hash : Text
  pub byte_size : ℕ
  pub mime_type : Text
  pub payload_type : PayloadType
  pub safe_filename : Text
  pub created : Bool

pub record QueueMessageResult : Type 0 where
  pub job : QueueJob
  pub duplicate : Bool

abbrev pub is_past : ℕ → Option ℕ → Bool
is_past now none = false
is_past now (some at) = leb at now

abbrev pub initial_status : Option ℕ → InitialStatus
initial_status none = initially_pending
initial_status (some at) = initially_scheduled

-- `jobs.get(error.existingId)`, which must find the job that `create` has named.
abbrev pub as_duplicate : Error → Option QueueJob → Exec Db QueueMessageResult
as_duplicate e none = throw e
as_duplicate e (some row) = pure (record { job = row; duplicate = true })

-- The `catch` of `enqueueForward`.
unfoldable pub return_duplicate : Error → Exec Db QueueMessageResult
return_duplicate (duplicate_job uuid) = do
  existing ← gets (get_by_reference uuid)
  as_duplicate (duplicate_job uuid) existing
return_duplicate e = throw e

unfoldable pub create_job : ℕ → NewQueueJob → String → Exec Db QueueMessageResult
create_job now new actor = do
  row ← create now new actor
  pure (record { job = row; duplicate = false })

unfoldable pub create_or_return : ℕ → NewQueueJob → String → Exec Db QueueMessageResult
create_or_return now new actor = catch_error (create_job now new actor) return_duplicate

-- The argument of `buildIdempotencyKey` in `enqueueForward`.
abbrev pub forward_input : MessageConfig → ForwardRequest → Text → IdempotencyInput
forward_input cfg request jid = record {
  destination_jid = jid;
  payload_type = PayloadType.text;
  text = [];
  media_hash = none;
  schedule = request.scheduled_at;
  filename = none;
  options = (text "forwardSourceKey", request.source_key) ∷ [];
  force_nonce = none;
  dry_run = cfg.dry_run;
}

abbrev pub forward_job : MessageConfig → Fresh → ForwardRequest → Text → NewQueueJob
forward_job cfg fresh request jid = record {
  uuid = fresh.uuid;
  destination_jid = jid;
  payload_type = PayloadType.text;
  text = none;
  media_path = none;
  media_hash = none;
  media_mime = none;
  filename = none;
  scheduled_at = get_or request.scheduled_at fresh.now;
  status = initial_status request.scheduled_at;
  max_attempts = cfg.max_attempts;
  idempotency_key = cfg.digest (forward_input cfg request jid);
  options_json = text "{}";
  requested_by = get_or request.actor "self-controller";
  batch_id = request.batch_id;
  dry_run = cfg.dry_run;
  forward_source_key = some request.source_key;
}

unfoldable pub enqueue_forward : MessageConfig → Fresh → ForwardRequest → Exec Db QueueMessageResult
enqueue_forward cfg fresh request = do
  d ← or_throw (← gets (resolve request.destination)) (not_found request.destination)
  throw_if (not d.enabled || not d.can_send)
      (plain "Destination is not allowed to receive messages")
  throw_if (is_past fresh.now request.scheduled_at)
      (plain "Scheduled delivery must be in the future")
  create_or_return fresh.now (forward_job cfg fresh request d.jid)
      (get_or request.actor "self-controller")
