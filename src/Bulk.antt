-- ===== src/Bulk.antt =====
-- src/messaging/bulk-message-service.ts and src/db/repositories/batch-repository.ts: one message
-- to many groups.
pub mod Counting
pub mod Status
pub mod Moves
use whatsapp_bot.Db.Audit.{insert_audit}
use whatsapp_bot.Domain.Errors.{unique_constraint_failed}
use whatsapp_bot.Domain.Groups.{Destination}
use whatsapp_bot.Db.{BatchType, Db, MessageBatch, EventType, EntityType, batch_details}
use whatsapp_bot.Db.Exec.{
  ok, err, Result, Exec, ◌>>◌, immediate_transaction, throw_if, ◌>>=◌, gets, modify, pure,
}
use whatsapp_bot.Base.{
  [], none, some, suc, ◌∷◌, Text, ℕ, List, String, Option, if◌then◌else◌, get_or, length, Bool,
  text_eq, ◌+◌, ◌-◌, any, ◌++◌,
}
use whatsapp_bot.Messages.{
  MessageConfig, Store, in_db, Fresh, QueueMessageRequest, QueueMessageResult, enqueue_forward,
}
use whatsapp_bot.Messages.Enqueue.{enqueue_text}

pub record BulkEnqueueRequest : Type 0 where
  pub batch_type : BatchType
  pub destinations : List Destination
  pub text : Option Text
  pub forward_source_key : Option Text
  pub scheduled_at : Option ℕ
  pub force : Bool
  pub actor : Option String
  pub duplicate_targets : Option ℕ

pub record BulkEnqueueResult : Type 0 where
  pub batch_id : Text
  pub targets : ℕ
  pub queued : ℕ
  pub duplicate_jobs : ℕ
  pub duplicate_targets : ℕ
  pub failed : ℕ

-- `batches.create`; the id is the primary key.
unfoldable pub create_batch : ℕ → Text → BatchType → ℕ → String → Exec Db MessageBatch
create_batch now id batch_type target_count actor = immediate_transaction do
  throw_if (← gets (λ db. any (λ b. text_eq b.id id) db.batches)) unique_constraint_failed
  modify λ db. record db {
    batches =
        db.batches
        ++ record {
          id = id;
          batch_type = batch_type;
          target_count = target_count;
          created_at = now;
        }
          ∷ [];
  }
  insert_audit now EventType.message_batch_created actor (some EntityType.message_batch) (some id)
      (some (batch_details batch_type target_count))
  pure (record { id = id; batch_type = batch_type; target_count = target_count; created_at = now })

-- An entry of the Map: the last destination with a jid, at the place of the first.
unfoldable pub put_unique : Destination → List Destination → List Destination
put_unique d [] = d ∷ []
put_unique d (e ∷ es) = if text_eq e.jid d.jid then d ∷ es else e ∷ put_unique d es

unfoldable pub unique_from : List Destination → List Destination → List Destination
unique_from [] acc = acc
unique_from (d ∷ ds) acc = unique_from ds (put_unique d acc)

abbrev pub unique_destinations : List Destination → List Destination
unique_destinations ds = unique_from ds []

abbrev pub bulk_actor : BulkEnqueueRequest → String
bulk_actor request = get_or request.actor "self-controller"

abbrev pub message_request : BulkEnqueueRequest → Text → Text → QueueMessageRequest
message_request request batch_id jid = record {
  destination = jid;
  text = some (get_or request.text []);
  media_path = none;
  filename = none;
  scheduled_at = none;
  force = request.force;
  actor = some (bulk_actor request);
  options = none;
  batch_id = some batch_id;
  dry_run = none;
}

-- An empty source key counts as none.
abbrev pub enqueue_by_key :
    MessageConfig
    → Fresh
    → BulkEnqueueRequest
    → Text
    → Text
    → Option Text
    → Exec Store QueueMessageResult
enqueue_by_key cfg fresh request batch_id jid (some (c ∷ cs)) = in_db (
    enqueue_forward cfg fresh (record {
      destination = jid;
      source_key = c ∷ cs;
      scheduled_at = request.scheduled_at;
      actor = some (bulk_actor request);
      batch_id = some batch_id;
    }))
enqueue_by_key cfg fresh request batch_id jid _ =
    enqueue_text cfg fresh (message_request request batch_id jid)

unfoldable pub enqueue_one :
    MessageConfig → BulkEnqueueRequest → Text → Fresh → Text → Exec Store QueueMessageResult
enqueue_one cfg request batch_id fresh jid =
    enqueue_by_key cfg fresh request batch_id jid request.forward_source_key

pub record Counts : Type 0 where
  pub queued : ℕ
  pub duplicate_jobs : ℕ
  pub failed : ℕ

unfoldable pub tally : Result QueueMessageResult → Counts → Counts
tally (ok r) c =
    if r.duplicate
    then record c { duplicate_jobs = suc c.duplicate_jobs }
    else record c { queued = suc c.queued }
tally (err e) c = record c { failed = suc c.failed }

-- The loop. Before each destination other tasks may change the store: `others` is what they do in
-- the await before it, and each call reads the clock and makes a uuid.
unfoldable pub enqueue_all :
    MessageConfig
    → BulkEnqueueRequest
    → Text
    → (Text → Store → Store)
    → (Text → Fresh)
    → List Destination
    → Counts
    → Store
    → Counts × Store
enqueue_all cfg request batch_id others fresh [] c s = (c, s)
enqueue_all cfg request batch_id others fresh (d ∷ ds) c s =
    let (r, s') = enqueue_one cfg request batch_id (fresh d.jid) d.jid (others d.jid s) in
    enqueue_all cfg request batch_id others fresh ds (tally r c) s'

unfoldable pub bulk_result : BulkEnqueueRequest → Text → Counts → BulkEnqueueResult
bulk_result request batch_id c =
    let targets = length (unique_destinations request.destinations) in
    record {
      batch_id = batch_id;
      targets = targets;
      queued = c.queued;
      duplicate_jobs = c.duplicate_jobs;
      duplicate_targets =
          get_or request.duplicate_targets 0 + length request.destinations - targets;
      failed = c.failed;
    }

unfoldable pub bulk_enqueue :
    MessageConfig
    → BulkEnqueueRequest
    → Fresh
    → (Text → Store → Store)
    → (Text → Fresh)
    → Exec Store BulkEnqueueResult
bulk_enqueue cfg request batch others fresh = do
  in_db (
      create_batch batch.now batch.uuid request.batch_type
        (length (unique_destinations request.destinations)) (bulk_actor request))
  λ s.
      let (c, s') =
        enqueue_all cfg request batch.uuid others fresh (unique_destinations request.destinations)
          (record { queued = 0; duplicate_jobs = 0; failed = 0 }) s in
      (ok (bulk_result request batch.uuid c), s')
