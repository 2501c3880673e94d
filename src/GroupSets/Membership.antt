-- ===== src/GroupSets/Membership.antt =====
-- What adding and removing members of a group set does to its membership.
use whatsapp_bot.Db.Audit.{insert_audit}
use whatsapp_bot.Db.Exec.{ok, immediate_transaction, ◌>>=◌}
use whatsapp_bot.Db.{MemberRow, Db}
use mathlib.Core.List.{append-nil, append_assoc}
use whatsapp_bot.Base.{
  [], true, false, inl, inr, ◌∷◌, ℕ, List, ◌≡◌, Bool, Text, any, length, ◌++◌, ◌+◌, ◌||◌, ◌≤◌,
  arith, Bool-cases, refl, some, text_eq_refl, length-append, All, String, sym, select, count_if,
  ◌∙◌, not, ap, if◌then◌else◌,
}
use whatsapp_bot.GroupSets.{
  is_member, insert_member, insert_members, add_members, change_members, GroupSet, select_set,
  MembershipChange, delete_members, remove_members, delete_member,
}

abbrev pub has_member : ℕ → List MemberRow → Text → Bool
has_member id rows jid = any (is_member id jid) rows

-- The rows are those of a table with the constraint UNIQUE(group_set_id, destination_jid).
abbrev pub IsOther : MemberRow → MemberRow → Type 0
IsOther a b = is_member b.group_set_id b.destination_jid a ≡ false

any-append :
    (p : MemberRow → Bool) (rows : List MemberRow) (row : MemberRow)
    → any p (rows ++ row ∷ []) ≡ (any p rows || p row)
any-append p [] row = ground arith
any-append p (x ∷ rows) row = ground (arith, any-append p rows row)

module _ (now id : ℕ) where
  insert_member_adds :
      (jid : Text) (rows : List MemberRow)
      → has_member id (insert_member now id jid rows).1 jid ≡ true
  unfolding insert_member
  insert_member_adds jid rows = elim (Bool-cases (has_member id rows jid)) [
    | inl there ↦ rw (there, there)
    | inr missing ↦ rw (missing, any-append) (unfold is_member in ground (arith, text_eq_refl jid))
  ]

  insert_member_keeps :
      (jid : Text) (p : MemberRow → Bool) (rows : List MemberRow)
      → any p rows ≡ true
      → any p (insert_member now id jid rows).1 ≡ true
  unfolding insert_member
  insert_member_keeps jid p rows h = elim (Bool-cases (has_member id rows jid)) [
    | inl there ↦ rw there h
    | inr missing ↦ rw (missing, any-append, h)
  ]

  insert_members_keeps :
      (jids : List Text) (p : MemberRow → Bool) (rows : List MemberRow)
      → any p rows ≡ true
      → any p (insert_members now id jids rows).1 ≡ true
  unfolding insert_members
  insert_members_keeps [] p rows h = h
  insert_members_keeps (jid ∷ jids) p rows h =
      insert_members_keeps jids p _ (insert_member_keeps jid p rows h)

  insert_members_adds :
      (jids : List Text) (rows : List MemberRow)
      → All (λ jid. has_member id (insert_members now id jids rows).1 jid ≡ true) jids
  unfolding insert_members
  insert_members_adds [] rows = tt
  insert_members_adds (jid ∷ jids) rows = (
    insert_members_keeps jids (is_member id jid) _ (insert_member_adds jid rows),
    insert_members_adds jids _,
  )

  insert_member_extends :
      (jid : Text) (rows : List MemberRow)
      → let (n, after) = insert_member now id jid rows in
        (extra : List MemberRow) × (after ≡ rows ++ extra) × (length extra ≡ n) × (n ≤ 1)
  unfolding insert_member
  insert_member_extends jid rows = elim (Bool-cases (has_member id rows jid)) [
    | inl there ↦ rw there ([], sym (append-nil rows), refl, omega arith)
    | inr missing ↦ rw missing (
      record { group_set_id = id; destination_jid = jid; created_at = now } ∷ [],
      refl,
      omega arith,
      omega arith,
    )
  ]

  insert_members_extends :
      (jids : List Text) (rows : List MemberRow)
      → let (n, after) = insert_members now id jids rows in
        (extra : List MemberRow) × (after ≡ rows ++ extra) × (length extra ≡ n) × (n ≤ length jids)
  unfolding insert_members
  insert_members_extends [] rows = ([], sym (append-nil rows), refl, omega arith)
  insert_members_extends (jid ∷ jids) rows =
      let (xs, e, n, one) = insert_member_extends jid rows in
      let (ys, f, m, rest) = insert_members_extends jids (insert_member now id jid rows).1 in
      (xs ++ ys, f ∙ (rw (e, append_assoc)), omega (arith, length-append {0} xs ys), omega arith)

-- Adding to a set that exists: afterwards every requested group is a member of it, the rows that
-- were there are there still, and `changed` of the requested groups have got new rows, the other
-- `unchanged` ones having none.
pub add_members_adds :
    (now : ℕ) (name : Text) (jids : List Text) (actor : String) (db : Db) (set : GroupSet)
    → select_set name db ≡ some set
    → let (result, after) = add_members now name jids actor db in
      (change : MembershipChange) × (extra : List MemberRow) × (result ≡ ok (some change))
      × All (λ jid. has_member set.id after.members jid ≡ true) jids
      × (after.members ≡ db.members ++ extra)
      × (length extra ≡ change.changed)
      × (change.changed + change.unchanged ≡ length jids)
unfolding add_members change_members immediate_transaction ◌>>=◌ insert_audit
add_members_adds now name jids actor db set e =
    let (extra, extends, counted, bounded) = insert_members_extends now set.id jids db.members in
    rw e (
      record { changed = (insert_members now set.id jids db.members).0; unchanged = _ },
      extra,
      refl,
      insert_members_adds now set.id jids db.members,
      extends,
      counted,
      omega arith,
    )

-- The rows that a removal is about.
abbrev pub is_listed : ℕ → List Text → MemberRow → Bool
is_listed id jids row = any (λ jid. is_member id jid row) jids

select-select :
    (p q : MemberRow → Bool) (rows : List MemberRow)
    → select (λ row. not (p row)) (select (λ row. not (q row)) rows)
      ≡ select (λ row. not (if q row then true else p row)) rows
select-select p q [] = refl
select-select p q (row ∷ rows) = ground (arith, select-select p q rows)

count_if-select :
    (p q : MemberRow → Bool) (rows : List MemberRow)
    → count_if q rows + count_if p (select (λ row. not (q row)) rows)
      ≡ count_if (λ row. if q row then true else p row) rows
count_if-select p q [] = omega arith
count_if-select p q (row ∷ rows) = ground (arith, count_if-select p q rows)

delete_nothing :
    (id : ℕ) (rows : List MemberRow)
    → (count_if (is_listed id []) rows ≡ 0)
      × (select (λ row. not (is_listed id [] row)) rows ≡ rows)
delete_nothing id [] = (refl, refl)
delete_nothing id (row ∷ rows) = let (e, f) = delete_nothing id rows in (e, ap (◌∷◌ row) f)

delete_members_lem :
    (id : ℕ) (jids : List Text) (rows : List MemberRow)
    → delete_members id jids rows
      ≡ (count_if (is_listed id jids) rows, select (λ row. not (is_listed id jids row)) rows)
unfolding delete_members delete_member
delete_members_lem id [] rows = let (e, f) = delete_nothing id rows in rw (e, f)
delete_members_lem id (jid ∷ jids) rows = rw (
  delete_members_lem id jids (select (λ row. not (is_member id jid row)) rows),
  count_if-select (is_listed id jids) (is_member id jid) rows,
  select-select (is_listed id jids) (is_member id jid) rows,
)

-- Removing from a set that exists deletes exactly the rows of the set that the request lists, and
-- counts them; every other row and every job stays as it was.
pub remove_members_removes :
    (now : ℕ) (name : Text) (jids : List Text) (actor : String) (db : Db) (set : GroupSet)
    → select_set name db ≡ some set
    → let (result, after) = remove_members now name jids actor db in
      (change : MembershipChange) × (result ≡ ok (some change))
      × (change.changed ≡ count_if (is_listed set.id jids) db.members)
      × (after.members ≡ select (λ row. not (is_listed set.id jids row)) db.members)
      × (after.jobs ≡ db.jobs)
unfolding remove_members change_members immediate_transaction ◌>>=◌ insert_audit
remove_members_removes now name jids actor db set e =
    let deleted = delete_members_lem set.id jids db.members in
    rw e (
      record { changed = _; unchanged = _ },
      refl,
      ap (λ p. p.0) deleted,
      ap (λ p. p.1) deleted,
      refl,
    )
