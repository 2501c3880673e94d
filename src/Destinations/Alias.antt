-- ===== src/Destinations/Alias.antt =====
-- src/db/repositories/destination-repository.ts: `setAlias`.
use whatsapp_bot.Db.Audit.{insert_audit}
use whatsapp_bot.Domain.Errors.{unique_constraint_failed, plain}
use whatsapp_bot.Domain.Groups.{Destination}
use whatsapp_bot.Db.Exec.{Exec, immediate_transaction, ◌>>◌, ◌>>=◌, throw_if, or_throw, gets}
use whatsapp_bot.Db.{Db, EventType, EntityType, new_alias}
use whatsapp_bot.Base.{
  [], none, some, false, ◌∷◌, ℕ, Text, Option, Bool, String, leb, ◌||◌, ◌&&◌, not, any, ◌==◌, all,
  text_eq, length, map_option,
}
use whatsapp_bot.Targets.{trim}
use whatsapp_bot.Destinations.{resolve, update_destination, alias_is, not_found}

abbrev pub is_alias_start : ℕ → Bool
is_alias_start c = (leb 97 c && leb c 122) || ((leb 65 c && leb c 90) || (leb 48 c && leb c 57))

abbrev pub is_alias_unit : ℕ → Bool
is_alias_unit c = is_alias_start c || (c == 46 || (c == 95 || c == 45))

-- `/^[a-zA-Z0-9][a-zA-Z0-9._-]{0,63}$/`
unfoldable pub is_alias : Text → Bool
is_alias [] = false
is_alias (c ∷ cs) = is_alias_start c && (all is_alias_unit cs && leb (length cs) 63)

abbrev pub nonempty : Text → Option Text
nonempty [] = none
nonempty (c ∷ cs) = some (c ∷ cs)

-- `alias?.trim() || null`
abbrev pub normalized_alias : Option Text → Option Text
normalized_alias none = none
normalized_alias (some alias) = nonempty (trim alias)

abbrev pub is_bad_alias : Option Text → Bool
is_bad_alias none = false
is_bad_alias (some alias) = not (is_alias alias)

-- The unique column `alias`, compared without case.
unfoldable pub alias_taken : Text → Option Text → Db → Bool
alias_taken jid none db = false
alias_taken jid (some alias) db =
    any (λ d. not (text_eq d.jid jid) && alias_is alias d.alias) db.destinations

abbrev pub alias_event : Option Text → EventType
alias_event none = EventType.group_alias_removed
alias_event (some alias) = EventType.group_alias_set

unfoldable pub write_alias : ℕ → Text → Option Text → String → Exec Db (Unit {0})
write_alias now jid alias actor = immediate_transaction do
  throw_if (← gets (alias_taken jid alias)) unique_constraint_failed
  update_destination jid (λ d. record d { alias = alias; updated_at = now })
  insert_audit now (alias_event alias) actor (some EntityType.destination) (some jid)
      (map_option new_alias alias)

unfoldable pub set_alias : ℕ → Text → Option Text → String → Exec Db Destination
set_alias now reference alias actor = do
  d ← or_throw (← gets (resolve reference)) (not_found reference)
  throw_if (is_bad_alias (normalized_alias alias)) (plain "Alias is malformed")
  write_alias now d.jid (normalized_alias alias) actor
  or_throw (← gets (resolve d.jid)) (plain "Destination disappeared after alias update")
