-- ===== src/Db/State.antt =====
-- src/db/repositories/state-repository.ts: the table `app_state`.
pub mod Refines
use whatsapp_bot.Db.Exec.{Exec, modify}
use whatsapp_bot.Db.{StateKey, Db, StateValue, StateRow, same_key}
use whatsapp_bot.Base.{[], none, some, ◌∷◌, ℕ, Option, List, find_first, if◌then◌else◌, select, not}

-- `StateRepository.get`: NULL and a missing row read alike.
unfoldable pub get : StateKey → Db → Option StateValue
get key db = value_of (find_first (λ row. same_key row.key key) db.app_state)
  where
    value_of : Option StateRow → Option StateValue
    value_of none = none
    value_of (some row) = row.value

-- The upsert of `StateRepository.set`.
unfoldable pub put : ℕ → StateKey → Option StateValue → List StateRow → List StateRow
put now key value [] = record { key = key; value = value; updated_at = now } ∷ []
put now key value (row ∷ rows) =
    if same_key row.key key
    then record { key = key; value = value; updated_at = now } ∷ rows
    else row ∷ put now key value rows

unfoldable pub set : ℕ → StateKey → StateValue → Exec Db (Unit {0})
unfolding put
set now key value = modify λ db. record db { app_state = put now key (some value) db.app_state }

-- `StateRepository.remove`
unfoldable pub remove : StateKey → Exec Db (Unit {0})
remove key =
    modify λ db. record db { app_state = select (λ row. not (same_key row.key key)) db.app_state }
