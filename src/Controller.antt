-- ===== src/Controller.antt =====
-- src/whatsapp/self-controller.ts: which messages of the chat with oneself are commands, and
-- src/db/repositories/controller-repository.ts.
pub mod Inbox
pub mod Walk
pub mod Once
pub mod Origin
pub mod Repeat
pub mod Following
use whatsapp_bot.Db.{Db, ForwardSource, ContentType}
use whatsapp_bot.Db.Exec.{Exec, pure}
use whatsapp_bot.Sources.{forward_source_key, save}
use whatsapp_bot.Targets.{JidCodec, same_jid, is_user_jid}
use whatsapp_bot.Base.{
  Text, ℕ, List, Option, Bool, [], none, some, true, false, ◌∷◌, is_some, if◌then◌else◌, or_else,
  ◌||◌, any, not, ◌+◌, ltb, text_eq, ◌++◌, ◌&&◌, get_or,
}

-- The fields of a Baileys message that the controller reads.
pub record ContextInfo : Type 0 where
  pub is_forwarded : Bool
  pub forwarding_score : Option ℕ
  pub stanza_id : Option Text

pub record MediaPart : Type 0 where
  pub context_info : Option ContextInfo

pub record ExtendedText : Type 0 where
  pub text : Option Text
  pub context_info : Option ContextInfo

pub record Content : Type 0 where
  pub conversation : Option Text
  pub extended_text : Option ExtendedText
  pub image : Option MediaPart
  pub video : Option MediaPart
  pub document : Option MediaPart

-- `Number(message.messageTimestamp ?? 0)`: seconds, or no finite number.
pub record Message : Type 0 where
  pub remote_jid : Option Text
  pub participant : Option Text
  pub id : Option Text
  pub from_me : Bool
  pub content : Option Content
  pub timestamp : Option ℕ

pub record UpsertEvent : Type 0 where
  pub messages : List Message
  pub is_notify : Bool  -- `event.type === 'notify'`
  pub request_id : Option Text

-- What the controller is built with: the own jids, the time it started, whether it has the
-- repository of forward sources, the hash of commands, the encoder of messages, the parser of jids.
pub record ControllerConfig : Type 0 where
  pub own_jids : List Text
  pub started_at_seconds : ℕ
  pub has_forward_sources : Bool
  pub digest : Text → Text
  pub encode : Message → List ℕ
  pub codec : JidCodec

-- A text that JavaScript takes for true.
abbrev pub truthy : Option Text → Option Text
truthy none = none
truthy (some []) = none
truthy (some (c ∷ cs)) = some (c ∷ cs)

abbrev pub then_read {ℓ} : {A B : Type ℓ} → Option A → (A → Option B) → Option B
then_read none f = none
then_read (some a) f = f a

abbrev pub has_text : Content → Bool
has_text c =
    is_some (truthy (then_read c.extended_text λ e. e.text)) || is_some (truthy c.conversation)

abbrev pub content_type_of : Content → Option ContentType
content_type_of c =
    if has_text c
    then some ContentType.text
    else if is_some c.image
    then some ContentType.image
    else if is_some c.video
    then some ContentType.video
    else if is_some c.document
    then some ContentType.document
    else none

unfoldable pub forward_content_type : Message → Option ContentType
forward_content_type m = then_read m.content content_type_of

abbrev pub media_context : Option MediaPart → Option ContextInfo
media_context part = then_read part λ p. p.context_info

abbrev pub context_of : Content → Option ContextInfo
context_of c =
    or_else (then_read c.extended_text λ e. e.context_info)
      (or_else (media_context c.image) (or_else (media_context c.video) (media_context c.document)))

unfoldable pub context_info : Message → Option ContextInfo
context_info m = then_read m.content context_of

abbrev pub text_of : Content → Option Text
text_of c = or_else c.conversation (then_read c.extended_text λ e. e.text)

unfoldable pub message_text : Message → Option Text
message_text m = then_read m.content text_of

abbrev pub marks_forwarded : Option ContextInfo → Bool
marks_forwarded none = false
marks_forwarded (some context) = context.is_forwarded || ltb 0 (get_or context.forwarding_score 0)

unfoldable pub is_forwarded : Message → Bool
is_forwarded m = marks_forwarded (context_info m)

unfoldable pub is_own : ControllerConfig → Text → Bool
is_own cfg jid = any (λ own. same_jid cfg.codec own jid) cfg.own_jids

-- `!participant || ownJids.some(...)`
abbrev pub is_own_or_absent : ControllerConfig → Option Text → Bool
is_own_or_absent cfg none = true
is_own_or_absent cfg (some jid) = is_own cfg jid

abbrev pub is_recent : ControllerConfig → Option ℕ → Bool
is_recent cfg none = false
is_recent cfg (some seconds) = not (ltb (seconds + 30) cfg.started_at_seconds)

abbrev pub is_authorized_in : ControllerConfig → Message → Text → Bool
is_authorized_in cfg m jid =
    if not m.from_me || not (is_user_jid cfg.codec jid)
    then false
    else if not (is_own cfg jid)
    then false
    else if not (is_own_or_absent cfg (truthy m.participant))
    then false
    else if is_forwarded m
    then false
    else is_recent cfg m.timestamp

abbrev pub is_authorized_from : ControllerConfig → Message → Option Text → Bool
is_authorized_from cfg m none = false
is_authorized_from cfg m (some jid) = is_authorized_in cfg m jid

unfoldable pub is_authorized : ControllerConfig → Message → Bool
is_authorized cfg m = is_authorized_from cfg m (truthy m.remote_jid)

-- `ControllerRepository.hasProcessed`
unfoldable pub has_processed : Text → Db → Bool
has_processed id db = any (λ row. text_eq row.message_id id) db.controller_messages

-- `ControllerRepository.markProcessed`: INSERT OR IGNORE, and whether a row was written.
unfoldable pub mark_processed : Text → Text → ℕ → Db → Bool × Db
mark_processed id hash now db = if has_processed id db then (false, db) else (
  true,
  record db {
    controller_messages =
        db.controller_messages
        ++ record { message_id = id; received_at = now; command_hash = hash } ∷ [];
  },
)

abbrev pub one_day_ms : ℕ
one_day_ms = 86400000

unfoldable pub source_of :
    ControllerConfig → ℕ → Message → Text → Text → ContentType → ForwardSource
source_of cfg now m jid id content_type = record {
  source_key = forward_source_key jid id;
  payload = cfg.encode m;
  content_type = content_type;
  received_at = now;
  expires_at = elim content_type [ ContentType.text ↦ none | _ ↦ some (now + one_day_ms) ];
}

-- The guards of `storeForwardSource` on a message with a jid and an id.
unfoldable pub may_store : ControllerConfig → Message → Text → Bool
may_store cfg m jid =
    if not m.from_me || not (is_user_jid cfg.codec jid)
    then false
    else if not (is_own cfg jid)
    then false
    else if not (is_own_or_absent cfg (truthy m.participant))
    then false
    else is_forwarded m

abbrev pub save_source :
    ControllerConfig → ℕ → Message → Text → Text → Option ContentType → Exec Db (Unit {0})
save_source cfg now m jid id none = pure tt
save_source cfg now m jid id (some content_type) = save (source_of cfg now m jid id content_type)

abbrev pub store_with :
    ControllerConfig → ℕ → Message → Option Text → Option Text → Exec Db (Unit {0})
store_with cfg now m (some jid) (some id) =
    if cfg.has_forward_sources && may_store cfg m jid
    then save_source cfg now m jid id (forward_content_type m)
    else pure tt
store_with cfg now m _ _ = pure tt

unfoldable pub store_forward_source : ControllerConfig → ℕ → Message → Exec Db (Unit {0})
store_forward_source cfg now m = store_with cfg now m (truthy m.remote_jid) (truthy m.id)
