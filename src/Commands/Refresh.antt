-- ===== src/Commands/Refresh.antt =====
-- src/whatsapp/group-service.ts: the groups that the account takes part in.
use whatsapp_bot.Destinations.{synchronize}
use whatsapp_bot.Domain.Errors.{plain}
use whatsapp_bot.Messages.{Store, in_db}
use whatsapp_bot.Domain.Groups.{DiscoveredDestination}
use whatsapp_bot.Db.Exec.{Exec, ◌>>=◌, throw, or_throw}
use whatsapp_bot.Targets.{JidCodec, normalize_jid, same_jid}
use whatsapp_bot.Base.{
  [], none, some, false, ◌∷◌, Option, Text, List, ℕ, Bool, map_option, any, is_some, not, get_or,
  String, ◌||◌, length, find_first,
}

pub record GroupParticipant : Type 0 where
  pub id : Option Text
  pub lid : Option Text
  pub phone_number : Option Text
  pub admin : Option Text

-- The metadata of a group that the code reads.
pub record GroupMetadata : Type 0 where
  pub id : Text
  pub subject : Text
  pub desc : Option Text
  pub owner : Option Text
  pub participants : List GroupParticipant
  pub size : Option ℕ
  pub addressing_mode : Option Text
  pub announce : Bool

-- The part of a socket that the service uses: the ids of its user and the request for the groups,
-- with what other tasks do to the store while it is awaited.
pub record GroupSocket : Type 0 where
  pub user_id : Option Text
  pub user_lid : Option Text
  pub fetch_all : Exec Store (List GroupMetadata)

-- `filter((value) => Boolean(value))`
unfoldable pub present_texts : List (Option Text) → List Text
present_texts [] = []
present_texts (none ∷ texts) = present_texts texts
present_texts (some [] ∷ texts) = present_texts texts
present_texts (some (c ∷ cs) ∷ texts) = (c ∷ cs) ∷ present_texts texts

unfoldable pub is_own_participant : JidCodec → List Text → GroupParticipant → Bool
is_own_participant codec own p =
    any (λ jid. any (λ o. same_jid codec jid o) own)
      (present_texts (p.id ∷ p.lid ∷ p.phone_number ∷ []))

abbrev is_admin : Option GroupParticipant → Bool
is_admin none = false
is_admin (some p) = is_some p.admin

unfoldable pub may_write : JidCodec → List Text → GroupMetadata → Bool
may_write codec own group =
    not group.announce || is_admin (find_first (is_own_participant codec own) group.participants)

-- `group.owner ? normalizeJid(group.owner) : null`; the outer `none` is a throw.
abbrev owner_jid_of : JidCodec → Option Text → Option (Option Text)
owner_jid_of codec none = some none
owner_jid_of codec (some []) = some none
owner_jid_of codec (some (c ∷ cs)) = map_option some (normalize_jid codec (c ∷ cs))

abbrev described :
    JidCodec
    → List Text
    → GroupMetadata
    → Option Text
    → Option (Option Text)
    → Option DiscoveredDestination
described codec own group none owner = none
described codec own group (some jid) none = none
described codec own group (some jid) (some owner) = some (record {
  jid = jid;
  subject = group.subject;
  description = group.desc;
  owner_jid = owner;
  participant_count = some (get_or group.size (length group.participants));
  addressing_mode = group.addressing_mode;
  can_send = some (may_write codec own group);
})

unfoldable pub discover : JidCodec → List Text → GroupMetadata → Option DiscoveredDestination
discover codec own group =
    described codec own group (normalize_jid codec group.id) (owner_jid_of codec group.owner)

abbrev listed_with :
    Option DiscoveredDestination
    → Option (List DiscoveredDestination)
    → Option (List DiscoveredDestination)
listed_with (some d) (some ds) = some (d ∷ ds)
listed_with _ _ = none

-- One malformed jid and nothing is stored.
unfoldable pub discover_all :
    JidCodec → List Text → List GroupMetadata → Option (List DiscoveredDestination)
discover_all codec own [] = some []
discover_all codec own (group ∷ groups) =
    listed_with (discover codec own group) (discover_all codec own groups)

unfoldable pub refresh_from : JidCodec → ℕ → String → GroupSocket → Exec Store ℕ
refresh_from codec now actor socket = do
  groups ← socket.fetch_all
  discovered ←
      or_throw (discover_all codec (present_texts (socket.user_id ∷ socket.user_lid ∷ [])) groups)
        (plain "Invalid WhatsApp JID")
  in_db (synchronize now discovered actor)

-- `refresh`; `now` is the reading of the clock after the await.
unfoldable pub refresh : JidCodec → ℕ → String → Option GroupSocket → Exec Store ℕ
refresh codec now actor none = throw (plain "WhatsApp is not connected")
refresh codec now actor (some socket) = refresh_from codec now actor socket
