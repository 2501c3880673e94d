-- ===== src/Destinations.antt =====
-- src/db/repositories/destination-repository.ts: the known groups and the allowlist.
pub mod Moves
pub mod Alias
pub mod Listing
use whatsapp_bot.Db.Audit.{insert_audit}
use whatsapp_bot.Jobs.Rows.{update_jobs}
use whatsapp_bot.Domain.Errors.{delivery, destination_error, not_found, plain}
use whatsapp_bot.Domain.Jobs.{cancelled, is_unsent}
use whatsapp_bot.Db.Exec.{Exec, modify, pure, immediate_transaction, ◌>>=◌, ◌>>◌, or_throw, gets}
use whatsapp_bot.Domain.Queue.{QueueJob}
use whatsapp_bot.Db.{Db, EventType, destination, discovered, cancelled_jobs}
use whatsapp_bot.Domain.Groups.{Destination, DiscoveredDestination}
use whatsapp_bot.Base.{
  [], none, some, true, false, ◌∷◌, Text, ℕ, Bool, Option, List, map, text_eq, String,
  if◌then◌else◌, ◌||◌, find_first, ◌&&◌, any, leb, update_where, not, ◌+◌, length,
}

-- ASCII letters in lower case, as COLLATE NOCASE compares them.
abbrev pub fold_case : Text → Text
fold_case = map λ c. if leb 65 c && leb c 90 then c + 32 else c

unfoldable pub eq_nocase : Text → Text → Bool
eq_nocase s t = text_eq (fold_case s) (fold_case t)

abbrev pub alias_is : Text → Option Text → Bool
alias_is reference none = false
alias_is reference (some alias) = eq_nocase alias reference

-- `jid = ? OR alias = ? COLLATE NOCASE LIMIT 1`, in the order of the table.
unfoldable pub refers : Text → Destination → Bool
refers reference d = text_eq d.jid reference || alias_is reference d.alias

unfoldable pub resolve : Text → Db → Option Destination
resolve reference db = find_first (refers reference) db.destinations

-- `UPDATE destinations SET f WHERE jid = ?`, for columns with no unique index.
unfoldable pub update_destination : Text → (Destination → Destination) → Exec Db (Unit {0})
update_destination jid f =
    modify
      λ db. record db { destinations = update_where (λ d. text_eq d.jid jid) f db.destinations }

abbrev pub cancelled_for : ℕ → String → QueueJob → QueueJob
cancelled_for now message row = record row {
  status = cancelled;
  updated_at = now;
  last_error_class = some (delivery destination_error);
  last_error_message = some message;
}

-- The unsent jobs of one destination.
unfoldable pub is_unsent_for : Text → QueueJob → Bool
is_unsent_for jid row = text_eq row.destination_jid jid && is_unsent row.status

unfoldable pub cancel_unless : Bool → ℕ → Text → String → Exec Db ℕ
cancel_unless true now jid message = pure 0
cancel_unless false now jid message = update_jobs (is_unsent_for jid) (cancelled_for now message)

enabled_event : Bool → EventType
enabled_event true = EventType.group_allowed
enabled_event false = EventType.group_denied

-- The transaction of `setEnabled`.
unfoldable pub write_enabled : ℕ → Text → Bool → String → Exec Db (Unit {0})
unfolding enabled_event
write_enabled now jid enabled actor = immediate_transaction do
  update_destination jid (λ d. record d { enabled = enabled; updated_at = now })
  count ← cancel_unless enabled now jid "Destination was removed from the allowlist"
  insert_audit now (enabled_event enabled) actor (some destination) (some jid)
      (some (cancelled_jobs count))

unfoldable pub set_enabled : ℕ → Text → Bool → String → Exec Db Destination
set_enabled now reference enabled actor = do
  d ← or_throw (← gets (resolve reference)) (not_found reference)
  write_enabled now d.jid enabled actor
  or_throw (← gets (resolve d.jid)) (plain "Destination disappeared after update")

unfoldable pub set_can_send : ℕ → Text → Bool → Exec Db (Unit {0})
set_can_send now jid can_send = immediate_transaction do
  update_destination jid (λ d. record d { can_send = can_send; updated_at = now })
  cancel_unless can_send now jid "Destination no longer allows sending"
  pure tt

-- `item.canSend === false ? 0 : 1`
abbrev pub may_send : Option Bool → Bool
may_send (some false) = false
may_send (some true) = true
may_send none = true

-- The upsert: a known group keeps its alias, its place on the allowlist and its creation time.
unfoldable pub upsert : ℕ → DiscoveredDestination → List Destination → List Destination
upsert now item [] =
    record {
      jid = item.jid;
      subject = item.subject;
      description = item.description;
      owner_jid = item.owner_jid;
      participant_count = item.participant_count;
      addressing_mode = item.addressing_mode;
      alias = none;
      enabled = false;
      can_send = may_send item.can_send;
      created_at = now;
      updated_at = now;
      last_refreshed_at = now;
    }
    ∷ []
upsert now item (d ∷ ds) =
    if text_eq d.jid item.jid
    then record d {
      subject = item.subject;
      description = item.description;
      owner_jid = item.owner_jid;
      participant_count = item.participant_count;
      addressing_mode = item.addressing_mode;
      can_send = may_send item.can_send;
      updated_at = now;
      last_refreshed_at = now;
    }
      ∷ ds
    else d ∷ upsert now item ds

unfoldable pub upsert_all : ℕ → List DiscoveredDestination → List Destination → List Destination
unfolding upsert
upsert_all now [] ds = ds
upsert_all now (item ∷ items) ds = upsert_all now items (upsert now item ds)

-- `EXISTS (SELECT 1 FROM destinations d WHERE d.jid = ... AND d.can_send = 0)`
unfoldable pub destination_mute : List Destination → QueueJob → Bool
destination_mute ds row = any (λ d. text_eq d.jid row.destination_jid && not d.can_send) ds

unfoldable pub synchronize : ℕ → List DiscoveredDestination → String → Exec Db ℕ
unfolding upsert_all
synchronize now items actor = immediate_transaction do
  modify λ db. record db { destinations = upsert_all now items db.destinations }
  known ← gets (λ db. db.destinations)
  update_jobs (λ row. is_unsent row.status && destination_mute known row)
      (cancelled_for now "Destination no longer allows sending")
  insert_audit now EventType.group_refresh actor (some destination) none
      (some (discovered (length items)))
  pure (length items)
