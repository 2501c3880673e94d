-- ===== src/GroupSets/Listing.antt =====
-- `list` and `members` of src/db/repositories/group-set-repository.ts, in their order.
use whatsapp_bot.Base.{
  ℕ, Text, List, Option, Bool, ◌≡◌, map, map_option, ap, ◌∙◌, find_first, get_or, refl, [], none,
  some, ◌∷◌, sort_rows, text_eq, length, select, arith, count_if, length-sort_rows, length-select,
}
use whatsapp_bot.Db.{Db, GroupSetRow, MemberRow}
use whatsapp_bot.Domain.Groups.{Destination}
use whatsapp_bot.Destinations.{fold_case, eq_nocase}
use whatsapp_bot.Destinations.Listing.{text_before}
use whatsapp_bot.GroupSets.{GroupSet, with_count, in_set, select_set}

unfoldable pub set_before : GroupSetRow → GroupSetRow → Bool
set_before a b = text_before (fold_case a.name) (fold_case b.name)

unfoldable pub list_sets : Db → List GroupSet
list_sets db = map (with_count db.members) (sort_rows set_before db.group_sets)

pub record GroupSetMember : Type 0 where
  pub jid : Text
  pub created_at : ℕ
  pub destination : Option Destination

-- The LEFT JOIN with the destinations, whose key is the jid.
unfoldable pub with_destination : Db → MemberRow → GroupSetMember
with_destination db row = record {
  jid = row.destination_jid;
  created_at = row.created_at;
  destination = find_first (λ d. text_eq d.jid row.destination_jid) db.destinations;
}

-- `COALESCE(d.alias, d.subject, gsm.destination_jid)`
unfoldable pub member_label : GroupSetMember → Text
member_label m = label m.destination
  where
    label : Option Destination → Text
    label none = m.jid
    label (some d) = get_or d.alias d.subject

unfoldable pub member_before : GroupSetMember → GroupSetMember → Bool
member_before a b = text_before (fold_case (member_label a)) (fold_case (member_label b))

unfoldable pub members_of : Db → GroupSet → List GroupSetMember
members_of db set =
    sort_rows member_before (map (with_destination db) (select (in_set set.id) db.members))

-- `none` where the set does not exist.
unfoldable pub members : Text → Db → Option (List GroupSetMember)
members name db = map_option (members_of db) (select_set name db)

length-map : {A B : Type 0} (f : A → B) (xs : List A) → length (map f xs) ≡ length xs
length-map f [] = refl
length-map f (x ∷ xs) = omega (arith, length-map f xs)

counted_members :
    (db : Db) (row : GroupSetRow)
    → length (members_of db (with_count db.members row)) ≡ count_if (in_set row.id) db.members
unfolding members_of
counted_members db row =
    length-sort_rows member_before _
    ∙ length-map (with_destination db) _
    ∙ length-select (in_set row.id) db.members

found_members :
    (db : Db) (found : Option GroupSetRow)
    → map_option length (map_option (members_of db) (map_option (with_count db.members) found))
      ≡ map_option (λ set. set.member_count) (map_option (with_count db.members) found)
found_members db none = refl
found_members db (some row) = ap some (counted_members db row)

-- A set has members exactly when `get` finds it, and then as many as `get` counts.
pub members_counted :
    (name : Text) (db : Db)
    → map_option length (members name db)
      ≡ map_option (λ set. set.member_count) (select_set name db)
unfolding members select_set
members_counted name db =
    found_members db (find_first (λ row. eq_nocase row.name name) db.group_sets)
