-- ===== src/Sources.antt =====
-- src/db/repositories/forward-source-repository.ts: the messages that may be forwarded, by the key
-- that src/whatsapp/self-controller.ts gives them.
pub mod Lookup
use whatsapp_bot.Destinations.Listing.{text_before}
use whatsapp_bot.Db.{Db, ForwardSource, ContentType}
use whatsapp_bot.Db.Exec.{Exec, modify, Result, ok, err}
use whatsapp_bot.Domain.Errors.{plain}
use whatsapp_bot.Targets.{contains}
use whatsapp_bot.Base.{
  Text, ℕ, List, Option, Bool, [], none, some, ◌∷◌, ◌++◌, if◌then◌else◌, get_or, text_eq,
  find_first, ltb, map, String, ◌==◌, any, ◌||◌, take, ◌&&◌, select, sort_rows,
}

-- The code unit of '|'.
abbrev pub bar : ℕ
bar = 124

-- `forwardSourceKey`
unfoldable pub forward_source_key : Text → Text → Text
forward_source_key jid id = jid ++ bar ∷ id

-- `source_key.slice(source_key.indexOf('|') + 1)`, and the same of SQL: what follows the first bar,
-- or everything.
unfoldable pub after_bar : Text → Option Text
after_bar [] = none
after_bar (c ∷ cs) = if c == bar then some cs else after_bar cs

unfoldable pub message_id_of : Text → Text
message_id_of key = get_or (after_bar key) key

unfoldable pub has_key : Text → ForwardSource → Bool
has_key key row = text_eq row.source_key key

-- `ON CONFLICT(source_key) DO NOTHING`
unfoldable pub save : ForwardSource → Exec Db (Unit {0})
save source = modify λ db.
    if any (has_key source.source_key) db.forward_sources
    then db
    else record db { forward_sources = db.forward_sources ++ source ∷ [] }

unfoldable pub get : Text → Db → Option ForwardSource
get key db = find_first (has_key key) db.forward_sources

-- What `list` returns of a row: no payload.
pub record ForwardSourceSummary : Type 0 where
  pub source_key : Text
  pub message_id : Text
  pub content_type : ContentType
  pub received_at : ℕ
  pub expires_at : Option ℕ

abbrev pub summary : ForwardSource → ForwardSourceSummary
summary row = record {
  source_key = row.source_key;
  message_id = message_id_of row.source_key;
  content_type = row.content_type;
  received_at = row.received_at;
  expires_at = row.expires_at;
}

-- `ORDER BY received_at DESC, source_key DESC`
unfoldable pub newer : ForwardSource → ForwardSource → Bool
newer a b =
    ltb b.received_at a.received_at
    || a.received_at == b.received_at && text_before b.source_key a.source_key

unfoldable pub newest_first : List ForwardSource → List ForwardSource
newest_first = sort_rows newer

unfoldable pub list : ℕ → Db → List ForwardSourceSummary
list limit db = map summary (take limit (newest_first db.forward_sources))

abbrev ambiguous : String
ambiguous = "Source message ID is ambiguous; use the full source key from forwardsources"

-- What `resolve` does with the rows that `LIMIT 2` leaves.
unfoldable pub only_source : List ForwardSource → Db → Result (Option ForwardSource)
only_source [] db = ok none
only_source (row ∷ []) db = ok (get row.source_key db)
only_source (row ∷ other ∷ rows) db = err (plain ambiguous)

abbrev pub has_message_id : Text → ForwardSource → Bool
has_message_id id row = text_eq (message_id_of row.source_key) id

unfoldable pub resolve : Text → Db → Result (Option ForwardSource)
resolve reference db =
    if contains bar reference
    then ok (get reference db)
    else only_source (take 2 (select (has_message_id reference) db.forward_sources)) db
