-- ===== src/Domain/Queue.antt =====
-- src/domain/jobs.ts: the job as the repository returns it, and a job to be created.
use whatsapp_bot.Base.{ℕ, Text, String, Bool, Option}
use whatsapp_bot.Domain.Jobs.{JobStatus, pending, scheduled, PayloadType}
use whatsapp_bot.Domain.Errors.{LastErrorClass}

pub record QueueJob : Type 0 where
  pub id : ℕ
  pub uuid : Text
  pub destination_jid : Text
  pub payload_type : PayloadType
  pub text : Option Text
  pub media_path : Option Text
  pub media_hash : Option Text
  pub media_mime : Option Text
  pub filename : Option Text
  pub scheduled_at : ℕ
  pub status : JobStatus
  pub attempt_count : ℕ
  pub max_attempts : ℕ
  pub next_attempt_at : Option ℕ
  pub last_error_class : Option LastErrorClass
  pub last_error_message : Option String
  pub idempotency_key : Text
  pub options_json : Text
  pub requested_by : String
  pub created_at : ℕ
  pub updated_at : ℕ
  pub started_at : Option ℕ
  pub sent_at : Option ℕ
  pub remote_message_id : Option Text
  pub batch_id : Option Text
  pub dry_run : Bool
  pub forward_source_key : Option Text

-- The two statuses that a new job may have.
pub data InitialStatus : Type 0 where
  initially_pending initially_scheduled : InitialStatus

abbrev pub of_initial : InitialStatus → JobStatus
of_initial initially_pending = pending
of_initial initially_scheduled = scheduled

pub record NewQueueJob : Type 0 where
  pub uuid : Text
  pub destination_jid : Text
  pub payload_type : PayloadType
  pub text : Option Text
  pub media_path : Option Text
  pub media_hash : Option Text
  pub media_mime : Option Text
  pub filename : Option Text
  pub scheduled_at : ℕ
  pub status : InitialStatus
  pub max_attempts : ℕ
  pub idempotency_key : Text
  pub options_json : Text
  pub requested_by : String
  pub batch_id : Option Text
  pub dry_run : Bool
  pub forward_source_key : Option Text
