-- ===== src/GroupSets.antt =====
-- src/db/repositories/group-set-repository.ts and src/domain/group-sets.ts: named sets of groups.
pub mod Membership
pub mod Listing
pub mod Moves
use whatsapp_bot.Targets.{trim, lower_case}
use whatsapp_bot.Db.Audit.{insert_audit}
use whatsapp_bot.Db.Exec.{Exec, modify, ◌>>◌, immediate_transaction, pure, ◌>>=◌, gets}
use whatsapp_bot.Db.{
  MemberRow, Db, GroupSetRow, EventType, EntityType, requested_changed, members_deleted,
}
use whatsapp_bot.Base.{
  [], none, some, true, false, suc, ◌∷◌, ℕ, Text, List, Option, Bool, String, leb, ◌||◌, ◌&&◌, ◌==◌,
  count_if, if◌then◌else◌, ◌+◌, update_where, all, text_eq, ◌++◌, any, select, length, not, ◌-◌,
  map_option, find_first,
}
use whatsapp_bot.Destinations.{eq_nocase}

pub record GroupSet : Type 0 where
  pub id : ℕ
  pub name : Text
  pub member_count : ℕ
  pub created_at : ℕ
  pub updated_at : ℕ

pub record MembershipChange : Type 0 where
  pub changed : ℕ
  pub unchanged : ℕ

-- The pattern of `normalizeGroupSetName`.
abbrev pub is_name_start : ℕ → Bool
is_name_start c = (leb 97 c && leb c 122) || (leb 48 c && leb c 57)

abbrev pub is_name_unit : ℕ → Bool
is_name_unit c = is_name_start c || (c == 95 || c == 45)

unfoldable pub is_set_name : Text → Bool
is_set_name [] = false
is_set_name (c ∷ cs) = is_name_start c && (all is_name_unit cs && leb (length cs) 63)

-- A throw is `none`.
unfoldable pub normalize_group_set_name : Text → Option Text
normalize_group_set_name value =
    let normalized = lower_case (trim value) in
    if is_set_name normalized then some normalized else none

unfoldable pub is_member : ℕ → Text → MemberRow → Bool
is_member id jid row = (row.group_set_id == id) && text_eq row.destination_jid jid

abbrev pub in_set : ℕ → MemberRow → Bool
in_set id row = row.group_set_id == id

abbrev pub with_count : List MemberRow → GroupSetRow → GroupSet
with_count members row = record {
  id = row.id;
  name = row.name;
  member_count = count_if (in_set row.id) members;
  created_at = row.created_at;
  updated_at = row.updated_at;
}

-- `selectSet`, which is also `get`.
unfoldable pub select_set : Text → Db → Option GroupSet
select_set name db =
    map_option (with_count db.members) (find_first (λ row. eq_nocase row.name name) db.group_sets)

abbrev pub insert_set : ℕ → Text → Exec Db (Unit {0})
insert_set now name = modify λ db. record db {
  group_sets =
      db.group_sets
      ++ record { id = suc db.group_set_seq; name = name; created_at = now; updated_at = now } ∷ [];
  group_set_seq = suc db.group_set_seq;
}

unfoldable pub insert_new : ℕ → Text → String → Exec Db (Option GroupSet)
insert_new now name actor = do
  insert_set now name
  insert_audit now EventType.group_set_created actor (some EntityType.group_set) (some name) none
  gets (select_set name)

-- INSERT OR IGNORE: a name that exists already, in any case of its letters, is left alone.
unfoldable pub create_set : ℕ → Text → String → Exec Db (Option GroupSet)
create_set now name actor = immediate_transaction do
  taken ← gets (λ db. any (λ row. eq_nocase row.name name) db.group_sets)
  if taken then pure none else insert_new now name actor

-- One run of the INSERT OR IGNORE, with the number of changed rows.
unfoldable pub insert_member : ℕ → ℕ → Text → List MemberRow → ℕ × List MemberRow
insert_member now id jid rows =
    if any (is_member id jid) rows
    then (0, rows)
    else (1, rows ++ record { group_set_id = id; destination_jid = jid; created_at = now } ∷ [])

unfoldable pub insert_members : ℕ → ℕ → List Text → List MemberRow → ℕ × List MemberRow
insert_members now id [] rows = (0, rows)
insert_members now id (jid ∷ jids) rows =
    let (n, rows') = insert_member now id jid rows in
    let (m, rows'') = insert_members now id jids rows' in (n + m, rows'')

-- One run of the DELETE.
unfoldable pub delete_member : ℕ → Text → List MemberRow → ℕ × List MemberRow
delete_member id jid rows =
    (count_if (is_member id jid) rows, select (λ row. not (is_member id jid row)) rows)

unfoldable pub delete_members : ℕ → List Text → List MemberRow → ℕ × List MemberRow
delete_members id [] rows = (0, rows)
delete_members id (jid ∷ jids) rows =
    let (n, rows') = delete_member id jid rows in
    let (m, rows'') = delete_members id jids rows' in (n + m, rows'')

-- `UPDATE group_sets SET updated_at = ? WHERE id = ?`
abbrev pub touch_set : ℕ → ℕ → List GroupSetRow → List GroupSetRow
touch_set now id = update_where (λ row. row.id == id) (λ row. record row { updated_at = now })

-- The part that `addMembers` and `removeMembers` share.
unfoldable pub change_members :
    ℕ
    → (ℕ → List MemberRow → ℕ × List MemberRow)
    → EventType
    → String
    → ℕ
    → Option GroupSet
    → Exec Db (Option MembershipChange)
change_members now change event actor requested none = pure none
change_members now change event actor requested (some set) = do
  changed ← gets (λ db. (change set.id db.members).0)
  modify λ db. record db {
    members = (change set.id db.members).1;
    group_sets = touch_set now set.id db.group_sets;
  }
  insert_audit now event actor (some EntityType.group_set) (some set.name)
      (some (requested_changed requested changed))
  pure (some (record { changed = changed; unchanged = requested - changed }))

unfoldable pub add_members : ℕ → Text → List Text → String → Exec Db (Option MembershipChange)
add_members now name jids actor = immediate_transaction do
  set ← gets (select_set name)
  change_members now (λ id. insert_members now id jids) EventType.group_set_members_added actor
      (length jids) set

unfoldable pub remove_members : ℕ → Text → List Text → String → Exec Db (Option MembershipChange)
remove_members now name jids actor = immediate_transaction do
  set ← gets (select_set name)
  change_members now (λ id. delete_members id jids) EventType.group_set_members_removed actor
      (length jids) set

-- The DELETE, with ON DELETE CASCADE for the members.
unfoldable pub delete_found : ℕ → String → Option GroupSet → Exec Db Bool
delete_found now actor none = pure false
delete_found now actor (some set) = do
  modify λ db. record db {
    group_sets = select (λ row. not (row.id == set.id)) db.group_sets;
    members = select (λ row. not (in_set set.id row)) db.members;
  }
  insert_audit now EventType.group_set_deleted actor (some EntityType.group_set) (some set.name)
      (some (members_deleted set.member_count))
  pure true

unfoldable pub delete_set : ℕ → Text → String → Exec Db Bool
delete_set now name actor =
    immediate_transaction do set ← gets (select_set name); delete_found now actor set
