-- ===== src/Db/Auth/Written.antt =====
-- What `getKeys` reads after `setKeys`.
use whatsapp_bot.Db.Exec.{immediate_transaction}
use whatsapp_bot.Db.{AuthKey, Db}
use whatsapp_bot.Db.Auth.{
  put_key, is_key, write_key, write_category, write_keys, get_keys, set_keys,
}
use whatsapp_bot.Base.{
  [], none, some, ◌∷◌, Text, List, Option, ℕ, map_option, if◌then◌else◌, ◌≡◌, find_first, text_eq,
  ◌&&◌, arith, refl, true, false, inl, inr, Bool, text_eq_sound, Bool-cases, select, map,
  text_eq_comm, not, ◌∙◌, any, ap,
}

-- The value of a key in the table.
pub key_value : Text → Text → List AuthKey → Option Text
key_value category id rows =
    map_option (λ row. row.value_json) (find_first (is_key category id) rows)

-- The property of an object.
pub entry_of : Text → List (Text × Text) → Option Text
entry_of id [] = none
entry_of id ((key, value) ∷ entries) = if text_eq key id then some value else entry_of id entries

-- The last value that is written under the id, or the one before.
pub last_value : Text → List (Text × Option Text) → Option Text → Option Text
last_value id [] before = before
last_value id ((key, value) ∷ values) before =
    last_value id values (if text_eq key id then value else before)

-- The same for the category and the id.
pub last_write : Text → Text → List (Text × List (Text × Option Text)) → Option Text → Option Text
last_write category id [] before = before
last_write category id ((key, values) ∷ updates) before =
    last_write category id updates
      (if text_eq key category then last_value id values before else before)

both_left : (p q : Bool) → (p && q) ≡ true → p ≡ true
both_left p q h = ground arith

both_right : (p q : Bool) → (p && q) ≡ true → q ≡ true
both_right p q h = ground arith

-- A row with one key has another exactly when the keys are the same.
same_keys :
    (a b d key c id : Text)
    → (text_eq a d && text_eq b key) ≡ true
    → (text_eq a c && text_eq b id) ≡ (text_eq d c && text_eq key id)
same_keys a b d key c id h = rw (
  text_eq_sound a d (both_left (text_eq a d) (text_eq b key) h),
  text_eq_sound b key (both_right (text_eq a d) (text_eq b key) h),
)

other_keys :
    (a b d key c id : Text)
    → (text_eq a d && text_eq b key) ≡ false
    → (text_eq a c && text_eq b id) ≡ true
    → (text_eq d c && text_eq key id) ≡ false
other_keys a b d key c id h k =
    rw
      (
        ← text_eq_sound a c (both_left (text_eq a c) (text_eq b id) k),
        ← text_eq_sound b id (both_right (text_eq a c) (text_eq b id) k),
        text_eq_comm d a,
        text_eq_comm key b,
      )
      h

put_key-value :
    (now : ℕ) (c id d key value : Text) (rows : List AuthKey)
    → key_value c id (put_key now d key value rows)
      ≡ (if text_eq d c && text_eq key id then some value else key_value c id rows)
unfolding put_key key_value is_key
put_key-value now c id d key value [] = ground arith
put_key-value now c id d key value (row ∷ rows) =
    elim (Bool-cases (text_eq row.category d && text_eq row.key_id key)) [
      | inl e ↦
          let same = same_keys row.category row.key_id d key c id e in
          elim (Bool-cases (text_eq d c && text_eq key id)) [
            | inl f ↦ rw (e, same, f)
            | inr f ↦ rw (e, same, f)
          ]
      | inr e ↦ elim (Bool-cases (text_eq row.category c && text_eq row.key_id id)) [
        | inl f ↦ rw (e, f, other_keys row.category row.key_id d key c id e f)
        | inr f ↦ rw (e, f, put_key-value now c id d key value rows)
      ]
    ]

remove_key-value :
    (c id d key : Text) (rows : List AuthKey)
    → key_value c id (select (λ row. not (is_key d key row)) rows)
      ≡ (if text_eq d c && text_eq key id then none else key_value c id rows)
unfolding key_value is_key
remove_key-value c id d key [] = ground arith
remove_key-value c id d key (row ∷ rows) =
    elim (Bool-cases (text_eq row.category d && text_eq row.key_id key)) [
      | inl e ↦
          let same = same_keys row.category row.key_id d key c id e in
          elim (Bool-cases (text_eq d c && text_eq key id)) [
            | inl f ↦ rw (e, remove_key-value c id d key rows, f)
            | inr f ↦ rw (e, remove_key-value c id d key rows, same, f)
          ]
      | inr e ↦ elim (Bool-cases (text_eq row.category c && text_eq row.key_id id)) [
        | inl f ↦ rw (e, f, other_keys row.category row.key_id d key c id e f)
        | inr f ↦ rw (e, f, remove_key-value c id d key rows)
      ]
    ]

write_key-value :
    (now : ℕ) (c id d key : Text) (value : Option Text) (rows : List AuthKey)
    → key_value c id (write_key now d key value rows)
      ≡ (if text_eq d c && text_eq key id then value else key_value c id rows)
unfolding write_key
write_key-value now c id d key none rows = remove_key-value c id d key rows
write_key-value now c id d key (some value) rows = put_key-value now c id d key value rows

write_category-value :
    (now : ℕ) (c id d : Text) (values : List (Text × Option Text)) (rows : List AuthKey)
    → key_value c id (write_category now d values rows)
      ≡ (if text_eq d c then last_value id values (key_value c id rows) else key_value c id rows)
unfolding write_category last_value
write_category-value now c id d [] rows = elim (Bool-cases (text_eq d c)) [
  | inl e ↦ rw e
  | inr e ↦ rw e
]
write_category-value now c id d ((key, value) ∷ values) rows =
    write_category-value now c id d values (write_key now d key value rows)
    ∙ (elim (Bool-cases (text_eq d c)) [
      | inl e ↦ rw (e, write_key-value now c id d key value rows, e)
      | inr e ↦ rw (e, write_key-value now c id d key value rows, e)
    ])

write_keys-value :
    (now : ℕ) (c id : Text) (updates : List (Text × List (Text × Option Text)))
    (rows : List AuthKey)
    → key_value c id (write_keys now updates rows) ≡ last_write c id updates (key_value c id rows)
unfolding write_keys last_write
write_keys-value now c id [] rows = refl
write_keys-value now c id ((d, values) ∷ updates) rows =
    write_keys-value now c id updates (write_category now d values rows)
    ∙ ap (last_write c id updates) (write_category-value now c id d values rows)

any_same :
    (a b : Text) (ids : List Text) → text_eq a b ≡ true → any (text_eq a) ids ≡ any (text_eq b) ids
any_same a b ids h = ap (λ t. any (text_eq t) ids) (text_eq_sound a b h)

entry_of-rows :
    (c id : Text) (ids : List Text) (rows : List AuthKey)
    → entry_of id (
        map
          (λ row. (row.key_id, row.value_json))
          (select (λ row. text_eq row.category c && any (text_eq row.key_id) ids) rows))
      ≡ (if any (text_eq id) ids then key_value c id rows else none)
unfolding entry_of key_value is_key
entry_of-rows c id ids [] = ground arith
entry_of-rows c id ids (row ∷ rows) = elim (Bool-cases (text_eq row.category c)) [
  | inr e ↦ rw (e, entry_of-rows c id ids rows)
  | inl e ↦ elim (Bool-cases (text_eq row.key_id id)) [
    | inl f ↦
        let same = any_same row.key_id id ids f in
        elim (Bool-cases (any (text_eq id) ids)) [
          | inl g ↦ rw (e, same, g, f)
          | inr g ↦ rw (e, same, g, entry_of-rows c id ids rows, g)
        ]
    | inr f ↦ elim (Bool-cases (any (text_eq row.key_id) ids)) [
      | inl g ↦ rw (e, g, f, entry_of-rows c id ids rows)
      | inr g ↦ rw (e, g, f, entry_of-rows c id ids rows)
    ]
  ]
]

-- After `setKeys`, `getKeys` gives for an id that it is asked for the value that was last written
-- under the category and the id, none where that was a deletion, and the stored value where nothing
-- was written; and it gives nothing for any other id.
pub get_keys-set_keys :
    (now : ℕ) (updates : List (Text × List (Text × Option Text))) (c id : Text) (ids : List Text)
    (db : Db)
    → entry_of id (get_keys c ids (set_keys now updates db).1) ≡ (
        if any (text_eq id) ids
        then last_write c id updates (key_value c id db.auth_keys)
        else none)
unfolding get_keys set_keys immediate_transaction
get_keys-set_keys now updates c id ids db =
    entry_of-rows c id ids (write_keys now updates db.auth_keys)
    ∙ (rw (write_keys-value now c id updates db.auth_keys))
