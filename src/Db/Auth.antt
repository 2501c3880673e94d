-- ===== src/Db/Auth.antt =====
-- src/db/repositories/auth-repository.ts: the credentials and keys of the sign-in.
pub mod Written
use whatsapp_bot.Base.{
  Text, Option, ℕ, Bool, [], none, some, false, ◌∷◌, map_option, ◌||◌, ◌&&◌, List, text_eq,
  if◌then◌else◌, select, map, not, any,
}
use whatsapp_bot.Db.{Db, AuthKey}
use whatsapp_bot.Db.Exec.{Exec, modify, immediate_transaction}

unfoldable pub get_credentials : Db → Option Text
get_credentials db = map_option (λ row. row.value_json) db.auth_creds

unfoldable pub save_credentials : ℕ → Text → Exec Db (Unit {0})
save_credentials now value_json = immediate_transaction (
    modify
      λ db. record db { auth_creds = some (record { value_json = value_json; updated_at = now }) })

-- What the parsed credentials hold: `registered === true`, and whether `me` and `account` are
-- truthy. The parser of JSON is a parameter, `none` where it throws.
pub record Credentials : Type 0 where
  pub registered : Bool
  pub me : Bool
  pub account : Bool

abbrev pub signs_in : Option Credentials → Bool
signs_in none = false
signs_in (some c) = c.registered || (c.me && c.account)

abbrev pub parse_stored : (Text → Option Credentials) → Option Text → Option Credentials
parse_stored parse none = none
parse_stored parse (some []) = none
parse_stored parse (some (c ∷ cs)) = parse (c ∷ cs)

unfoldable pub has_credentials : (Text → Option Credentials) → Db → Bool
has_credentials parse db = signs_in (parse_stored parse (get_credentials db))

unfoldable pub clear : Exec Db (Unit {0})
clear = immediate_transaction (modify λ db. record db { auth_creds = none; auth_keys = [] })

unfoldable pub is_key : Text → Text → AuthKey → Bool
is_key category id row = text_eq row.category category && text_eq row.key_id id

-- The upsert on the primary key.
unfoldable pub put_key : ℕ → Text → Text → Text → List AuthKey → List AuthKey
put_key now category id value_json [] =
    record { category = category; key_id = id; value_json = value_json; updated_at = now } ∷ []
put_key now category id value_json (row ∷ rows) =
    if is_key category id row
    then record row { value_json = value_json; updated_at = now } ∷ rows
    else row ∷ put_key now category id value_json rows

-- A null value deletes the row.
unfoldable pub write_key : ℕ → Text → Text → Option Text → List AuthKey → List AuthKey
write_key now category id none rows = select (λ row. not (is_key category id row)) rows
write_key now category id (some value_json) rows = put_key now category id value_json rows

unfoldable pub write_category : ℕ → Text → List (Text × Option Text) → List AuthKey → List AuthKey
write_category now category [] rows = rows
write_category now category ((id, value_json) ∷ values) rows =
    write_category now category values (write_key now category id value_json rows)

unfoldable pub write_keys :
    ℕ → List (Text × List (Text × Option Text)) → List AuthKey → List AuthKey
write_keys now [] rows = rows
write_keys now ((category, values) ∷ updates) rows =
    write_keys now updates (write_category now category values rows)

unfoldable pub set_keys : ℕ → List (Text × List (Text × Option Text)) → Exec Db (Unit {0})
set_keys now updates =
    immediate_transaction
      (modify λ db. record db { auth_keys = write_keys now updates db.auth_keys })

-- The entries of the object; without ids there are none.
unfoldable pub get_keys : Text → List Text → Db → List (Text × Text)
get_keys category ids db =
    map (λ row. (row.key_id, row.value_json))
      (select (λ row. text_eq row.category category && any (text_eq row.key_id) ids) db.auth_keys)
