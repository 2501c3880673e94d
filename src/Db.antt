-- ===== src/Db.antt =====
-- The database of src/db/migrations/index.ts: one list of rows for each table that the model
-- writes, in the order of insertion.
pub mod Migrate
pub mod Exec
pub mod Audit
pub mod Keeps
pub mod State
pub mod Auth
use whatsapp_bot.Base.{ℕ, Text, String, Bool, Option, List, ◌==◌}
use whatsapp_bot.Domain.Jobs.{JobStatus, PayloadType}
use whatsapp_bot.Domain.Errors.{DeliveryErrorClass}
use whatsapp_bot.Domain.Queue.{QueueJob}
use whatsapp_bot.Domain.Groups.{Destination}

-- The keys of `app_state` that the program uses.
pub data StateKey : Type 0 where
  connectivity outgoing_pause_reason outgoing_pause_until worker_state : StateKey
  controller_state own_jid own_lid last_connection_at last_successful_send_at : StateKey

abbrev pub key_position : StateKey → ℕ
key_position connectivity = 0
key_position outgoing_pause_reason = 1
key_position outgoing_pause_until = 2
key_position worker_state = 3
key_position controller_state = 4
key_position own_jid = 5
key_position own_lid = 6
key_position last_connection_at = 7
key_position last_successful_send_at = 8

unfoldable pub same_key : StateKey → StateKey → Bool
same_key k j = key_position k == key_position j

-- The values of `app_state`: the fixed words of the program, a jid, or an instant.
pub data StateValue : Type 0 where
  connecting connected disconnected reconnecting auth_required logged_out fatal : StateValue
  offline_dry_run running stopped rate_limited attached detached : StateValue
  delivery_class : DeliveryErrorClass → StateValue
  jid : Text → StateValue
  instant : ℕ → StateValue

pub data EventType : Type 0 where
  job_enqueued job_scheduled job_cancelled job_review_required : EventType
  job_manually_retried job_manually_marked_sent : EventType
  delivery_succeeded dry_run_executed delivery_rate_limited delivery_retry_scheduled : EventType
  delivery_paused_auth delivery_permanent_failure auth_required_event auth_logout : EventType
  connection_restored connection_fatal group_refresh group_allowed group_denied : EventType
  group_alias_set group_alias_removed group_set_created group_set_deleted : EventType
  group_set_members_added group_set_members_removed message_batch_created startup shutdown :
      EventType

pub data EntityType : Type 0 where
  job destination group_set message_batch : EntityType

pub data BatchType : Type 0 where
  sendall sendmulti sendset : BatchType

-- `details_json`, by the shapes that the program writes.
pub data Details : Type 0 where
  job_details : Text → PayloadType → Text → Option Text → Details
  from_to : JobStatus → JobStatus → Details
  reason : String → Details
  cancelled_jobs discovered members_deleted status_code : ℕ → Details
  new_alias : Text → Details
  requested_changed : ℕ → ℕ → Details
  batch_details : BatchType → ℕ → Details

pub record AuditEvent : Type 0 where
  pub event_type : EventType
  pub actor : String
  pub entity_type : Option EntityType
  pub entity_id : Option Text
  pub details : Option Details
  pub created_at : ℕ

pub record MediaAsset : Type 0 where
  pub hash : Text
  pub path : Text
  pub byte_size : ℕ
  pub mime_type : Option Text
  pub created_at : ℕ

pub record MessageBatch : Type 0 where
  pub id : Text
  pub batch_type : BatchType
  pub target_count : ℕ
  pub created_at : ℕ

pub record GroupSetRow : Type 0 where
  pub id : ℕ
  pub name : Text
  pub created_at : ℕ
  pub updated_at : ℕ

pub record MemberRow : Type 0 where
  pub group_set_id : ℕ
  pub destination_jid : Text
  pub created_at : ℕ

pub record StateRow : Type 0 where
  pub key : StateKey
  pub value : Option StateValue
  pub updated_at : ℕ

pub record ControllerMessage : Type 0 where
  pub message_id : Text
  pub received_at : ℕ
  pub command_hash : Text

-- The content types that the controller stores.
pub data ContentType : Type 0 where
  text image video document : ContentType

pub record ForwardSource : Type 0 where
  pub source_key : Text
  pub payload : List ℕ
  pub content_type : ContentType
  pub received_at : ℕ
  pub expires_at : Option ℕ

-- The one row of `wa_auth_creds`, and a row of `wa_auth_keys`.
pub record AuthCreds : Type 0 where
  pub value_json : Text
  pub updated_at : ℕ

pub record AuthKey : Type 0 where
  pub category : Text
  pub key_id : Text
  pub value_json : Text
  pub updated_at : ℕ

-- `job_seq` and `group_set_seq` are the last numbers that AUTOINCREMENT has given.
pub record Db : Type 0 where
  pub app_state : List StateRow
  pub destinations : List Destination
  pub media_assets : List MediaAsset
  pub jobs : List QueueJob
  pub job_seq : ℕ
  pub audit_events : List AuditEvent
  pub group_sets : List GroupSetRow
  pub group_set_seq : ℕ
  pub members : List MemberRow
  pub batches : List MessageBatch
  pub controller_messages : List ControllerMessage
  pub forward_sources : List ForwardSource
  pub auth_creds : Option AuthCreds
  pub auth_keys : List AuthKey
