-- ===== src/Messages/Enqueue.antt =====
-- src/messaging/message-service.ts: `enqueue`, cut at the await of the staging of a file.
use whatsapp_bot.Destinations.{resolve}
use whatsapp_bot.Domain.Groups.{Destination}
use whatsapp_bot.Domain.Errors.{Error, duplicate_job, plain, not_found}
use whatsapp_bot.Domain.Queue.{NewQueueJob}
use whatsapp_bot.Domain.Jobs.{PayloadType}
use whatsapp_bot.Db.{Db}
use whatsapp_bot.Db.Exec.{
  Exec, ◌>>=◌, pure, catch_error, ◌>>◌, throw_if, modify, or_throw, throw, gets,
}
use whatsapp_bot.Base.{
  [], none, some, true, false, ◌∷◌, Text, Option, ℕ, if◌then◌else◌, get_or, Bool, ◌==◌, ◌&&◌,
  select, not, is_some, text_eq, ltb, length, map_option, is_empty,
}
use whatsapp_bot.Messages.{
  MessageConfig, Store, in_db, Fresh, QueueMessageRequest, StagedMedia, QueueMessageResult,
  IdempotencyInput, create_job, return_duplicate, is_past, initial_status,
}
use whatsapp_bot.Messages.Media.{upsert_asset, remove_if_unreferenced}
use whatsapp_bot.Targets.{trim}

-- The checks before the staging.
unfoldable pub check_destination : Text → Exec Db Destination
check_destination reference = do
  d ← or_throw (← gets (resolve reference)) (not_found reference)
  throw_if (not d.enabled) (plain "Destination is not allowlisted")
  throw_if (not d.can_send) (plain "Destination is not sendable")
  pure d

-- `replace(/\r\n/g, '\n')`
unfoldable pub unix_lines : Text → Text
unix_lines [] = []
unix_lines (c ∷ cs) = elim cs [
  | [] ↦ c ∷ []
  | d ∷ ds ↦ if c == 13 && d == 10 then unix_lines cs else c ∷ unix_lines cs
]

unfoldable pub normalize_message : MessageConfig → Option Text → Text
normalize_message cfg value = trim (cfg.normalize_nfc (unix_lines (get_or value [])))

abbrev pub text_limit : Option StagedMedia → ℕ
text_limit none = 65536
text_limit (some m) = 1024

unfoldable pub check_text : Text → Option StagedMedia → Exec Db (Unit {0})
check_text body staged = do
  throw_if (is_empty body && not (is_some staged))
      (plain "A message must contain text or a media file")
  throw_if (ltb (text_limit staged) (length body)) (plain "Message exceeds its limit")

abbrev pub staged_payload : Option StagedMedia → PayloadType
staged_payload none = PayloadType.text
staged_payload (some m) = m.payload_type

-- The filename counts only where the request gives one that is not empty.
abbrev pub key_filename : Option Text → Option StagedMedia → Option Text
key_filename (some (c ∷ cs)) (some m) = some m.safe_filename
key_filename _ _ = none

abbrev pub message_input :
    MessageConfig
    → Fresh
    → QueueMessageRequest
    → Text
    → Option StagedMedia
    → Text
    → IdempotencyInput
message_input cfg fresh request body staged jid = record {
  destination_jid = jid;
  payload_type = staged_payload staged;
  text = body;
  media_hash = map_option (λ m. m.hash) staged;
  schedule = request.scheduled_at;
  filename = key_filename request.filename staged;
  options = get_or request.options [];
  force_nonce = if request.force then some fresh.uuid else none;
  dry_run = get_or request.dry_run cfg.dry_run;
}

abbrev pub message_job :
    MessageConfig → Fresh → QueueMessageRequest → Text → Option StagedMedia → Text → NewQueueJob
message_job cfg fresh request body staged jid = record {
  uuid = fresh.uuid;
  destination_jid = jid;
  payload_type = staged_payload staged;
  text = if is_empty body then none else some body;
  media_path = map_option (λ m. m.path) staged;
  media_hash = map_option (λ m. m.hash) staged;
  media_mime = map_option (λ m. m.mime_type) staged;
  filename = map_option (λ m. m.safe_filename) staged;
  scheduled_at = get_or request.scheduled_at fresh.now;
  status = initial_status request.scheduled_at;
  max_attempts = cfg.max_attempts;
  idempotency_key = cfg.digest (message_input cfg fresh request body staged jid);
  options_json = cfg.stringify (get_or request.options []);
  requested_by = get_or request.actor "cli";
  batch_id = request.batch_id;
  dry_run = get_or request.dry_run cfg.dry_run;
  forward_source_key = none;
}

abbrev pub store_staged : ℕ → Option StagedMedia → Exec Db (Unit {0})
store_staged now none = pure tt
store_staged now (some m) = do upsert_asset now m; pure tt

-- `rmSync(path, { force: true })`
abbrev pub remove_file : Text → Bool → Exec Store (Unit {0})
remove_file path false = pure tt
remove_file path true = modify λ s. record s { files = select (λ f. not (text_eq f path)) s.files }

unfoldable pub drop_asset : StagedMedia → Exec Store (Unit {0})
drop_asset m = do removed ← in_db (remove_if_unreferenced m.hash); remove_file m.path removed

-- A file that this request has staged is removed again if no job refers to it.
unfoldable pub discard_staged : Option StagedMedia → Exec Store (Unit {0})
discard_staged none = pure tt
discard_staged (some m) = if m.created then drop_asset m else pure tt

-- The `catch` of `enqueue`.
unfoldable pub handle_enqueue_error : Option StagedMedia → Error → Exec Store QueueMessageResult
handle_enqueue_error staged (duplicate_job uuid) = in_db (return_duplicate (duplicate_job uuid))
handle_enqueue_error staged e = do discard_staged staged; throw e

unfoldable pub insert_message :
    MessageConfig
    → Fresh
    → QueueMessageRequest
    → Text
    → Option StagedMedia
    → Text
    → Exec Store QueueMessageResult
insert_message cfg fresh request body staged jid =
    catch_error
      (in_db (
        create_job fresh.now (message_job cfg fresh request body staged jid)
          (get_or request.actor "cli")))
      (handle_enqueue_error staged)

-- From the staging to the end.
unfoldable pub enqueue_staged :
    MessageConfig
    → Fresh
    → QueueMessageRequest
    → Option StagedMedia
    → Text
    → Exec Store QueueMessageResult
enqueue_staged cfg fresh request staged jid = do
  in_db (check_text (normalize_message cfg request.text) staged)
  in_db (
      throw_if (is_past fresh.now request.scheduled_at)
        (plain "Scheduled delivery must be in the future"))
  in_db (store_staged fresh.now staged)
  insert_message cfg fresh request (normalize_message cfg request.text) staged jid

-- A request without a file, which does not wait.
unfoldable pub enqueue_text :
    MessageConfig → Fresh → QueueMessageRequest → Exec Store QueueMessageResult
enqueue_text cfg fresh request = do
  d ← in_db (check_destination request.destination)
  enqueue_staged cfg fresh request none d.jid
