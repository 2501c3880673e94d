-- ===== src/Db/State/Refines.antt =====
-- The table `app_state` implements a map from keys to values, whatever rows it starts with.
use whatsapp_bot.Db.{StateKey, Db, StateValue, same_key, StateRow, key_position}
use whatsapp_bot.Base.{
  [], none, some, ◌∷◌, ℕ, if◌then◌else◌, List, Option, find_first, ◌≡◌, select, arith, not, true,
  ◌==◌, false, inl, inr, Bool-cases, refl,
}
use whatsapp_bot.Db.State.{put, set, remove, get}

-- The calls of src/db/repositories/state-repository.ts that change the table.
pub data StateCall : Type 0 where
  set_call : ℕ → StateKey → StateValue → StateCall
  remove_call : StateKey → StateCall

abbrev pub StateMap : Type 0
StateMap = StateKey → Option StateValue

unfoldable pub call_table : StateCall → Db → Db
call_table (set_call now key value) db = (set now key value db).1
call_table (remove_call key) db = (remove key db).1

unfoldable pub call_map : StateCall → StateMap → StateMap
call_map (set_call now key value) m = λ k. if same_key key k then some value else m k
call_map (remove_call key) m = λ k. if same_key key k then none else m k

unfoldable pub call_table_all : List StateCall → Db → Db
call_table_all [] db = db
call_table_all (c ∷ cs) db = call_table_all cs (call_table c db)

unfoldable pub call_map_all : List StateCall → StateMap → StateMap
call_map_all [] m = m
call_map_all (c ∷ cs) m = call_map_all cs (call_map c m)

abbrev lookup : StateKey → List StateRow → Option StateRow
lookup k = find_first (λ row. same_key row.key k)

equal_left : (a b c : ℕ) → (a == b) ≡ true → (a == c) ≡ (b == c)
equal_left a b c h = ground arith

-- Equal keys are equal to the same keys.
same_key_left : (a b c : StateKey) → same_key a b ≡ true → same_key a c ≡ same_key b c
unfolding same_key
same_key_left a b c h = equal_left (key_position a) (key_position b) (key_position c) h

other_equal : (a b c : ℕ) → (a == c) ≡ true → (a == b) ≡ false → (b == c) ≡ false
other_equal a b c h k = ground arith

-- A key equal to the one and not to the other tells the two apart.
other_key : (a b c : StateKey) → same_key a c ≡ true → same_key a b ≡ false → same_key b c ≡ false
unfolding same_key
other_key a b c h k = other_equal (key_position a) (key_position b) (key_position c) h k

lookup-put :
    (now : ℕ) (key : StateKey) (value : Option StateValue) (k : StateKey) (rows : List StateRow)
    → lookup k (put now key value rows) ≡ (
        if same_key key k
        then some (record { key = key; value = value; updated_at = now })
        else lookup k rows)
unfolding put
lookup-put now key value k [] = ground arith
lookup-put now key value k (row ∷ rows) = elim (Bool-cases (same_key row.key key)) [
  | inl e ↦ elim (Bool-cases (same_key key k)) [
    | inl f ↦ rw (e, same_key_left row.key key k e, f)
    | inr f ↦ rw (e, same_key_left row.key key k e, f)
  ]
  | inr e ↦
      let rest = lookup-put now key value k rows in
      elim (Bool-cases (same_key row.key k)) [
        | inl f ↦ rw (e, f, other_key row.key key k f e)
        | inr f ↦ rw (e, f, rest)
      ]
]

lookup-remove :
    (key k : StateKey) (rows : List StateRow)
    → lookup k (select (λ row. not (same_key row.key key)) rows)
      ≡ (if same_key key k then none else lookup k rows)
lookup-remove key k [] = ground arith
lookup-remove key k (row ∷ rows) = elim (Bool-cases (same_key row.key key)) [
  | inl e ↦ elim (Bool-cases (same_key key k)) [
    | inl f ↦ rw (e, lookup-remove key k rows, same_key_left row.key key k e, f)
    | inr f ↦ rw (e, lookup-remove key k rows, same_key_left row.key key k e, f)
  ]
  | inr e ↦
      let rest = lookup-remove key k rows in
      elim (Bool-cases (same_key row.key k)) [
        | inl f ↦ rw (e, f, other_key row.key key k f e)
        | inr f ↦ rw (e, f, rest)
      ]
]

-- The table answers every key as the map does.
abbrev pub Answers : Db → StateMap → Type 0
Answers db m = (k : StateKey) → get k db ≡ m k

call-Answers :
    (c : StateCall) (db : Db) (m : StateMap)
    → Answers db m
    → Answers (call_table c db) (call_map c m)
unfolding call_table call_map set remove get
call-Answers (set_call now key value) db m h k =
    ground (arith, lookup-put now key (some value) k db.app_state, h k)
call-Answers (remove_call key) db m h k = ground (arith, lookup-remove key k db.app_state, h k)

pub get-set :
    (now : ℕ) (key : StateKey) (value : StateValue) (k : StateKey) (db : Db)
    → get k (set now key value db).1 ≡ (if same_key key k then some value else get k db)
unfolding call_table call_map
get-set now key value k db = call-Answers (set_call now key value) db (λ j. get j db) (λ j. refl) k

pub get-remove :
    (key k : StateKey) (db : Db)
    → get k (remove key db).1 ≡ (if same_key key k then none else get k db)
unfolding call_table call_map
get-remove key k db = call-Answers (remove_call key) db (λ j. get j db) (λ j. refl) k

-- After any sequence of `set` and `remove`, `get` answers every key as the map after the same
-- calls does, if it did so before.
pub state_refines :
    (calls : List StateCall) (db : Db) (m : StateMap)
    → Answers db m
    → Answers (call_table_all calls db) (call_map_all calls m)
unfolding call_table_all call_map_all
state_refines [] db m h = h
state_refines (c ∷ cs) db m h =
    state_refines cs (call_table c db) (call_map c m) (call-Answers c db m h)
