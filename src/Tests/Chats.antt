-- ===== src/Tests/Chats.antt =====
-- The theorems on the controller, its sources and the key-value table, at small examples.
use whatsapp_bot.Controller.Following.{Listens, follow_all, follow_all-Listens}
use whatsapp_bot.Controller.{
  is_authorized, is_own, is_forwarded, context_info, message_text, has_processed, mark_processed,
  store_forward_source, may_store, Message, ControllerConfig, UpsertEvent,
}
use whatsapp_bot.Controller.Inbox.{
  handle_all, handle_command, answer, apologize, begins_word, command_run, is_forward_command,
  quoted_key, reply_to, run_marked, store_all, ChatServices, Chat, handle_upsert, handle_message,
}
use whatsapp_bot.Targets.{
  is_user_jid, normalize_jid, canonical_jid, trim, trim_start, is_allowed_server, lower_case,
  same_jid,
}
use whatsapp_bot.Tests.Services.{split_jid, sample_codec}
use whatsapp_bot.Base.{text_eq, Text, ◌≡◌, text, refl, [], none, some, true, false, ◌∷◌}
use whatsapp_bot.Db.Exec.{catch_error, ◌>>=◌, ok}
use whatsapp_bot.Controller.Repeat.{handle_message_twice}
use whatsapp_bot.Db.State.Refines.{
  Answers, call_table_all, set_call, remove_call, call_map_all, state_refines,
}
use whatsapp_bot.Sources.Lookup.{resolve_saved}
use whatsapp_bot.Controller.Origin.{RunsFrom, handle_upsert_runs}
use whatsapp_bot.Controller.Once.{RunsOnce, handle_upsert-RunsOnce}
use whatsapp_bot.Db.{StateKey, StateValue, ForwardSource, ContentType}
use whatsapp_bot.Db.State.{get}
use whatsapp_bot.Sources.{resolve, save, forward_source_key}
use whatsapp_bot.Tests.Samples.{sample_db}

abbrev own_jid_text : Text
own_jid_text = text "a@lid"

abbrev chat_config : ControllerConfig
chat_config = record {
  own_jids = own_jid_text ∷ [];
  started_at_seconds = 100;
  has_forward_sources = true;
  digest = λ command. command;
  encode = λ m. [];
  codec = sample_codec;
}

abbrev command_message : Message
command_message = record {
  remote_jid = some own_jid_text;
  participant = none;
  id = some (text "M1");
  from_me = true;
  content = some (record {
    conversation = some (text "/help");
    extended_text = none;
    image = none;
    video = none;
    document = none;
  });
  timestamp = some 100;
}

abbrev command_event : UpsertEvent
command_event = record {
  messages = command_message ∷ command_message ∷ [];
  is_notify = true;
  request_id = none;
}

abbrev quiet_services : ChatServices
quiet_services = record {
  execute = λ command key c. (ok command, c);
  send_message = λ socket jid reply c. (ok tt, c);
}

abbrev sample_chat : Chat
sample_chat = record {
  db = sample_db;
  now = 100000;
  socket = some 1;
  listening = 1 ∷ [];
  runs = [];
}

one_run : (handle_upsert chat_config quiet_services command_event sample_chat).0 ≡ 1
unfolding handle_upsert handle_all handle_message is_authorized text is_user_jid normalize_jid
    canonical_jid split_jid trim trim_start is_allowed_server text_eq lower_case is_own same_jid
    is_forwarded context_info handle_command message_text answer apologize begins_word command_run
    is_forward_command quoted_key reply_to run_marked has_processed mark_processed catch_error ◌>>=◌
    forward_source_key store_all store_forward_source may_store
one_run = refl

handle_upsert-RunsOnce_example :
    RunsOnce (handle_upsert chat_config quiet_services command_event sample_chat).1
handle_upsert-RunsOnce_example =
    handle_upsert-RunsOnce chat_config quiet_services command_event sample_chat
      (λ command key d h. h) (λ socket jid reply d h. h) (record { processed = tt; differ = tt })

handle_upsert_runs_example :
    RunsFrom chat_config command_event sample_chat
      (handle_upsert chat_config quiet_services command_event sample_chat).1
handle_upsert_runs_example =
    handle_upsert_runs chat_config quiet_services command_event sample_chat (λ command key d. refl)
      (λ socket jid reply d. refl)

abbrev later_chat : Chat
later_chat = (handle_message chat_config quiet_services command_message sample_chat).1

handle_message_twice_example :
    handle_message chat_config quiet_services command_message later_chat ≡ (false, later_chat)
unfolding handle_message is_authorized text is_user_jid normalize_jid canonical_jid split_jid trim
    trim_start is_allowed_server text_eq lower_case is_own same_jid is_forwarded context_info
    handle_command message_text answer apologize begins_word command_run is_forward_command
    quoted_key reply_to run_marked has_processed mark_processed catch_error ◌>>=◌ forward_source_key
handle_message_twice_example =
    handle_message_twice chat_config quiet_services (λ command key d id h. h)
      (λ socket jid reply d id h. h) command_message sample_chat later_chat refl (λ id h. h)

abbrev stored_source : ForwardSource
stored_source = record {
  source_key = forward_source_key own_jid_text (text "M7");
  payload = [];
  content_type = ContentType.image;
  received_at = 5;
  expires_at = some 86400005;
}

resolve_saved_example :
    resolve (text "M7") (save stored_source sample_db).1 ≡ ok (some stored_source)
unfolding text
resolve_saved_example =
    resolve_saved own_jid_text (text "M7") stored_source sample_db refl refl refl refl

state_refines_example :
    Answers
      (call_table_all
        (set_call 9 StateKey.worker_state StateValue.running
          ∷ remove_call StateKey.connectivity
          ∷ [])
        sample_db)
      (call_map_all
        (set_call 9 StateKey.worker_state StateValue.running
          ∷ remove_call StateKey.connectivity
          ∷ [])
        (λ k. get k sample_db))
state_refines_example =
    state_refines
      (set_call 9 StateKey.worker_state StateValue.running ∷ remove_call StateKey.connectivity ∷ [])
      sample_db (λ k. get k sample_db) (λ k. refl)

follow_all-Listens_example : Listens (some 3) (follow_all (some 2 ∷ none ∷ some 3 ∷ []) sample_chat)
follow_all-Listens_example =
    follow_all-Listens (some 2 ∷ none ∷ some 3 ∷ []) (some 1) sample_chat
      (record { attached = refl; listening = refl })
