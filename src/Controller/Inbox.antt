-- ===== src/Controller/Inbox.antt =====
-- `handleMessage` and `handleUpsert` of src/whatsapp/self-controller.ts, and the socket that the
-- controller follows.
use whatsapp_bot.Db.{Db, ForwardSource}
use whatsapp_bot.Db.Exec.{Exec, pure, catch_error, ok, ◌>>=◌}
use whatsapp_bot.Sources.{forward_source_key, get}
use whatsapp_bot.Targets.{trim, is_space}
use whatsapp_bot.Destinations.{fold_case}
use whatsapp_bot.Base.{
  Text, ℕ, List, Option, Bool, [], none, some, true, false, suc, ◌∷◌, select, ◌==◌, any, leb, text,
  map_option, if◌then◌else◌, ◌++◌, not, ◌&&◌, ◌||◌, is_some,
}
use whatsapp_bot.Controller.{
  ControllerConfig, Message, UpsertEvent, truthy, then_read, context_info, mark_processed,
  is_authorized, message_text, store_forward_source,
}

-- A call of the executor.
pub record CommandRun : Type 0 where
  pub message_id : Text
  pub command : Text
  pub source_key : Option Text

-- The database, the clock, the socket that is attached, the sockets that have the listener, and the
-- calls of the executor so far.
pub record Chat : Type 0 where
  pub db : Db
  pub now : ℕ
  pub socket : Option ℕ
  pub listening : List ℕ
  pub runs : List CommandRun

-- What the controller calls and awaits: the executor of commands and `sendMessage` of a socket.
-- What other tasks do during an await is part of the effect.
pub record ChatServices : Type 0 where
  pub execute : Text → Option Text → Exec Chat Text
  pub send_message : ℕ → Text → Text → Exec Chat (Unit {0})

unfoldable pub detach : Chat → Chat
detach c = record c {
  socket = none;
  listening = elim c.socket [
    | none ↦ c.listening
    | some s ↦ select (λ l. not (l == s)) c.listening
  ];
}

-- `this.socket === socket`
abbrev pub is_same_socket : ℕ → Option ℕ → Bool
is_same_socket s none = false
is_same_socket s (some t) = s == t

unfoldable pub attach : ℕ → Chat → Chat
attach socket c =
    let d = detach c in
    if is_same_socket socket c.socket
    then c
    else record d { socket = some socket; listening = d.listening ++ socket ∷ [] }

abbrev pub ends_word : Text → Bool
ends_word [] = true
ends_word (c ∷ cs) = is_space c

-- The word and an end of word stand at the front.
unfoldable pub begins_word : Text → Text → Bool
begins_word [] s = ends_word s
begins_word (c ∷ word) [] = false
begins_word (c ∷ word) (d ∷ s) = c == d && begins_word word s

-- `/^\/forward(?:multi|set|all)?(?:\s|$)/i`
unfoldable pub is_forward_command : Text → Bool
is_forward_command s =
    any (λ word. begins_word word (fold_case s))
      (text "/forward" ∷ text "/forwardmulti" ∷ text "/forwardset" ∷ text "/forwardall" ∷ [])

abbrev pub is_expired : ℕ → Option ℕ → Bool
is_expired now none = false
is_expired now (some at) = leb at now

-- `!source || (source.expiresAt && Date.now() >= Date.parse(source.expiresAt))`
abbrev pub is_unusable : ℕ → Option ForwardSource → Bool
is_unusable now none = true
is_unusable now (some source) = is_expired now source.expires_at

abbrev pub missing_source : Text
missing_source =
    text
      "Forward source is missing or expired. Forward a text, photo, video, or document into Message Yourself again, then reply."

abbrev pub command_failed : Text
command_failed = text "Command failed. Use the CLI for recovery and inspect service logs."

-- `sourceKey`
unfoldable pub quoted_key : Text → Message → Option Text
quoted_key jid m =
    map_option (forward_source_key jid)
      (truthy (then_read (context_info m) λ context. context.stanza_id))

abbrev pub quoted_source : ControllerConfig → Option Text → Db → Option ForwardSource
quoted_source cfg key db = if cfg.has_forward_sources then then_read key (λ k. get k db) else none

abbrev pub run_command : ChatServices → CommandRun → Exec Chat Text
run_command services run c =
    services.execute run.command run.source_key (record c { runs = c.runs ++ run ∷ [] })

unfoldable pub command_run : Text → Text → Message → Text → CommandRun
command_run jid id m command = record {
  message_id = id;
  command = command;
  source_key = if is_forward_command command then quoted_key jid m else none;
}

-- The reply: a refusal, or what the executor answers.
unfoldable pub reply_to :
    ControllerConfig → ChatServices → Text → Text → Message → Text → Exec Chat Text
reply_to cfg services jid id m command c =
    if is_forward_command command && is_unusable c.now (quoted_source cfg (quoted_key jid m) c.db)
    then (ok missing_source, c)
    else run_command services (command_run jid id m command) c

-- The `try` of `handleMessage`.
unfoldable pub answer :
    ControllerConfig → ChatServices → ℕ → Text → Text → Message → Text → Exec Chat (Unit {0})
answer cfg services socket jid id m command = do
  reply ← reply_to cfg services jid id m command
  services.send_message socket jid reply

-- Its `catch`.
unfoldable pub apologize : ChatServices → ℕ → Text → Exec Chat (Unit {0})
apologize services socket jid =
    catch_error (services.send_message socket jid command_failed) (λ e. pure tt)

unfoldable pub run_marked :
    ControllerConfig
    → ChatServices
    → ℕ
    → Text
    → Text
    → Message
    → Text
    → Bool × Db
    → Chat
    → Bool × Chat
run_marked cfg services socket jid id m command (false, db) c = (false, record c { db = db })
run_marked cfg services socket jid id m command (true, db) c = (
  true,
  (catch_error (answer cfg services socket jid id m command) (λ e. apologize services socket jid)
      (record c { db = db })).1,
)

abbrev pub slash : Text → Bool
slash [] = false
slash (c ∷ cs) = c == 47

unfoldable pub handle_command :
    ControllerConfig
    → ChatServices
    → Message
    → Option ℕ
    → Option Text
    → Option Text
    → Option Text
    → Chat
    → Bool × Chat
handle_command cfg services m (some socket) (some jid) (some id) (some command) c =
    if slash command
    then run_marked cfg services socket jid id m command
        (mark_processed id (cfg.digest command) c.now c.db) c
    else (false, c)
handle_command cfg services m _ _ _ _ c = (false, c)

unfoldable pub handle_message : ControllerConfig → ChatServices → Message → Chat → Bool × Chat
handle_message cfg services m c =
    if is_authorized cfg m
    then handle_command cfg services m c.socket (truthy m.remote_jid) (truthy m.id)
        (map_option trim (message_text m)) c
    else (false, c)

unfoldable pub store_all : ControllerConfig → ℕ → List Message → Db → Db
store_all cfg now [] db = db
store_all cfg now (m ∷ ms) db = store_all cfg now ms (store_forward_source cfg now m db).1

unfoldable pub handle_all : ControllerConfig → ChatServices → List Message → Chat → ℕ × Chat
handle_all cfg services [] c = (0, c)
handle_all cfg services (m ∷ ms) c =
    let (accepted, after) = handle_message cfg services m c in
    let (count, last) = handle_all cfg services ms after in
    (if accepted then suc count else count, last)

-- The number of messages that were accepted.
unfoldable pub handle_upsert : ControllerConfig → ChatServices → UpsertEvent → Chat → ℕ × Chat
handle_upsert cfg services event c =
    if not event.is_notify || is_some (truthy event.request_id)
    then (0, c)
    else handle_all cfg services event.messages
        (record c { db = store_all cfg c.now event.messages c.db })
