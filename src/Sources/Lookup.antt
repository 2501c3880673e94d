-- ===== src/Sources/Lookup.antt =====
-- What the key of a forward source and the look-up by message id promise.
use whatsapp_bot.Db.Exec.{ok}
use whatsapp_bot.Base.{
  ◌≡◌, text_eq_refl, text_eq_sound, Text, List, refl, [], some, true, false, ◌∷◌, Bool, ◌++◌, any,
  arith, select, find_first,
}
use whatsapp_bot.Db.{Db, ForwardSource}
use whatsapp_bot.Sources.{
  resolve, get, save, has_key, only_source, has_message_id, bar, after_bar, message_id_of,
  forward_source_key,
}
use whatsapp_bot.Targets.{contains}

after_bar-append :
    (jid id : Text) → contains bar jid ≡ false → after_bar (jid ++ bar ∷ id) ≡ some id
unfolding after_bar
after_bar-append [] id h = refl
after_bar-append (c ∷ cs) id h = ground (arith, after_bar-append cs id)

-- A jid without a bar does not hide the message id in the key.
message_id_of-key :
    (jid id : Text) → contains bar jid ≡ false → message_id_of (forward_source_key jid id) ≡ id
unfolding message_id_of forward_source_key
message_id_of-key jid id h = rw (after_bar-append jid id h)

module _ {A : Type 0} (p : A → Bool) where
  select_none : (xs : List A) → any p xs ≡ false → select p xs ≡ []
  select_none [] h = refl
  select_none (x ∷ xs) h = ground (arith, select_none xs)

  select-append_one :
      (xs : List A) (x : A) → any p xs ≡ false → p x ≡ true → select p (xs ++ x ∷ []) ≡ x ∷ []
  select-append_one [] x h k = rw k
  select-append_one (y ∷ ys) x h k = ground (arith, select-append_one ys x)

  find_first-append_one :
      (xs : List A) (x : A) → any p xs ≡ false → p x ≡ true → find_first p (xs ++ x ∷ []) ≡ some x
  find_first-append_one [] x h k = rw k
  find_first-append_one (y ∷ ys) x h k = ground (arith, find_first-append_one ys x)

module _ {A : Type 0} (p q : A → Bool) (weaker : (x : A) → q x ≡ true → p x ≡ true) where
  -- A test that implies one that no row passes is passed by no row.
  any-false_of_weaker : (xs : List A) → any p xs ≡ false → any q xs ≡ false
  any-false_of_weaker [] h = refl
  any-false_of_weaker (x ∷ xs) h = ground (arith, weaker x, any-false_of_weaker xs)

has_key-has_message_id :
    (jid id : Text) (row : ForwardSource)
    → contains bar jid ≡ false
    → has_key (forward_source_key jid id) row ≡ true
    → has_message_id id row ≡ true
unfolding has_key
has_key-has_message_id jid id row h k = rw (
  text_eq_sound row.source_key (forward_source_key jid id) k,
  message_id_of-key jid id h,
  text_eq_refl id,
)

has_own_key : (row : ForwardSource) → has_key row.source_key row ≡ true
unfolding has_key
has_own_key row = text_eq_refl row.source_key

abbrev with_source : ForwardSource → Db → Db
with_source source db = record db { forward_sources = db.forward_sources ++ source ∷ [] }

save_new :
    (source : ForwardSource) (db : Db)
    → any (has_key source.source_key) db.forward_sources ≡ false
    → (save source db).1 ≡ with_source source db
unfolding save
save_new source db h = rw h

get_new :
    (source : ForwardSource) (db : Db)
    → any (has_key source.source_key) db.forward_sources ≡ false
    → get source.source_key (with_source source db) ≡ some source
unfolding get
get_new source db h =
    find_first-append_one (has_key source.source_key) db.forward_sources source h
      (has_own_key source)

-- When no stored message has the id yet, a source that is saved under the key of a jid and this id,
-- neither with a bar, is what the id alone resolves to.
pub resolve_saved :
    (jid id : Text) (source : ForwardSource) (db : Db)
    → contains bar jid ≡ false
    → contains bar id ≡ false
    → source.source_key ≡ forward_source_key jid id
    → any (has_message_id id) db.forward_sources ≡ false
    → resolve id (save source db).1 ≡ ok (some source)
unfolding resolve only_source
resolve_saved jid id source db no_bar no_bar_in_id keyed absent =
    let new : any (has_key source.source_key) db.forward_sources ≡ false =
      any-false_of_weaker (has_message_id id) (has_key source.source_key)
        (λ row k. has_key-has_message_id jid id row no_bar (rw (← keyed) k)) db.forward_sources
        absent in
    let own_id : has_message_id id source ≡ true =
      rw (keyed, message_id_of-key jid id no_bar, text_eq_refl id) in
    rw (
      no_bar_in_id,
      save_new source db new,
      select-append_one (has_message_id id) db.forward_sources source absent own_id,
      get_new source db new,
    )
