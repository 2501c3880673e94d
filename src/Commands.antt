-- ===== src/Commands.antt =====
-- src/whatsapp/group-set-commands.ts: the command `/groupset` and its replies.
pub mod Aborted
pub mod Listed
pub mod Replies
pub mod Accounts
pub mod Settling
pub mod Keeps
pub mod Moves
pub mod Sets
pub mod Schedule
pub mod Executor
pub mod Run
pub mod Refresh
pub mod BulkCommands
pub mod Parse
use whatsapp_bot.Base.{
  ℕ, Text, List, Option, Bool, map, is_empty, reverse, text, get_or, [], none, some, true, false,
  ◌∷◌, if◌then◌else◌, ◌++◌, not, ◌&&◌, count_if, ◌+◌, ◌==◌, text_eq, is_some, length, ◌-◌,
}
use whatsapp_bot.Db.{Db}
use whatsapp_bot.Db.Exec.{Exec, gets, pure, throw, ◌>>=◌, ok}
use whatsapp_bot.Domain.Errors.{plain}
use whatsapp_bot.Domain.Groups.{Destination}
use whatsapp_bot.Destinations.{fold_case}
use whatsapp_bot.GroupSets.{
  GroupSet, MembershipChange, select_set, create_set, delete_set, add_members, remove_members,
  normalize_group_set_name,
}
use whatsapp_bot.GroupSets.Listing.{members, list_sets, GroupSetMember}
use whatsapp_bot.Targets.{
  JidCodec, Targets, TargetIssue, resolve_targets, trim, lower_case, is_space,
}

pub record ParsedCommand : Type 0 where
  pub action : Text
  pub name : Option Text
  pub targets : List Text

abbrev pub put_word : Text → List Text → List Text
put_word [] ws = ws
put_word (c ∷ cs) ws = reverse (c ∷ cs) ∷ ws

-- `split(/\s+/).filter(Boolean)`; `word` holds the word so far, last unit first.
unfoldable pub words_from : Text → Text → List Text
words_from word [] = put_word word []
words_from word (c ∷ cs) =
    if is_space c then put_word word (words_from [] cs) else words_from (c ∷ word) cs

unfoldable pub words : Text → List Text
words = words_from []

-- `split(',')`
unfoldable pub split_from : Text → Text → List Text
split_from part [] = reverse part ∷ []
split_from part (c ∷ cs) =
    if c == 44 then reverse part ∷ split_from [] cs else split_from (c ∷ part) cs

-- What follows the head of a command, whose letters may be of either case, up to an end of word.
unfoldable pub after_head : Text → Text → Option Text
after_head [] [] = some []
after_head [] (c ∷ cs) = if is_space c then some cs else none
after_head (h ∷ hs) [] = none
after_head (h ∷ hs) (c ∷ cs) =
    if text_eq (fold_case (c ∷ [])) (h ∷ []) then after_head hs cs else none

-- `flatMap`, `map` and `filter` of the targets.
unfoldable pub trimmed : List Text → List Text
trimmed [] = []
trimmed (part ∷ parts) =
    let rest = trimmed parts in if is_empty (trim part) then rest else trim part ∷ rest

unfoldable pub targets_of : List Text → List Text
targets_of [] = []
targets_of (part ∷ parts) = trimmed (split_from [] part) ++ targets_of parts

unfoldable pub parse_parts : List Text → ParsedCommand
parse_parts [] = record { action = []; name = none; targets = [] }
parse_parts (action ∷ []) = record { action = lower_case action; name = none; targets = [] }
parse_parts (action ∷ name ∷ parts) = record {
  action = lower_case action;
  name = some name;
  targets = targets_of parts;
}

unfoldable pub parse : Text → ParsedCommand
parse command = parse_parts (words (get_or (after_head (text "/groupset") command) []))

-- The replies, by what they say.
pub data GroupSetReply : Type 0 where
  usage usage_list no_sets usage_name invalid_name usage_create usage_delete usage_show :
      GroupSetReply
  sets : List GroupSet → GroupSetReply
  created already_exists deleted not_found : Text → GroupSetReply
  shown : Text → List GroupSetMember → ℕ → ℕ → ℕ → GroupSetReply
  usage_modify : Bool → GroupSetReply
  aborted : Bool → List TargetIssue → GroupSetReply
  updated : Bool → Text → ℕ → ℕ → GroupSetReply

abbrev pub listed : List GroupSet → GroupSetReply
listed [] = no_sets
listed (set ∷ rest) = sets (set ∷ rest)

unfoldable pub list_reply : Option Text → Db → GroupSetReply
list_reply none db = listed (list_sets db)
list_reply (some name) db = usage_list

abbrev pub no_targets : List Text → Bool
no_targets [] = true
no_targets (t ∷ ts) = false

abbrev pub creation : Text → Option GroupSet → GroupSetReply
creation name none = already_exists name
creation name (some set) = created set.name

unfoldable pub create_reply : ℕ → Text → Exec Db GroupSetReply
create_reply now name = do set ← create_set now name "self-controller"; pure (creation name set)

unfoldable pub delete_reply : ℕ → Text → Exec Db GroupSetReply
delete_reply now name = do
  done ← delete_set now name "self-controller"
  pure (if done then deleted name else not_found name)

abbrev pub is_missing : GroupSetMember → Bool
is_missing m = not (is_some m.destination)

abbrev pub member_allowed : Option Destination → Bool
member_allowed none = false
member_allowed (some d) = d.enabled && d.can_send

unfoldable pub show_members : Text → Option (List GroupSetMember) → GroupSetReply
show_members name none = not_found name
show_members name (some ms) =
    let allowed = count_if (λ m. member_allowed m.destination) ms in
    let missing = count_if is_missing ms in
    shown name ms allowed (length ms - allowed - missing) missing

unfoldable pub show_reply : Text → Db → GroupSetReply
show_reply name db = show_members name (members name db)

abbrev pub change_said : Bool → Text → ℕ → Option MembershipChange → GroupSetReply
change_said adds name duplicates none = not_found name
change_said adds name duplicates (some change) =
    updated adds name change.changed (change.unchanged + duplicates)

unfoldable pub change_reply : ℕ → Bool → Text → Targets → Exec Db GroupSetReply
change_reply now adds name t = do
  change ←
      (if adds
        then add_members now name (map (λ d. d.jid) t.resolved) "self-controller"
        else remove_members now name (map (λ d. d.jid) t.resolved) "self-controller")
  pure (change_said adds name t.duplicates change)

unfoldable pub issues_reply : ℕ → Bool → Text → Targets → List TargetIssue → Exec Db GroupSetReply
issues_reply now adds name t [] = change_reply now adds name t
issues_reply now adds name t (i ∷ is) = pure (aborted adds (i ∷ is))

unfoldable pub resolved_reply : ℕ → Bool → Text → Option Targets → Exec Db GroupSetReply
resolved_reply now adds name none = throw (plain "Invalid WhatsApp JID")
resolved_reply now adds name (some t) = issues_reply now adds name t t.issues

-- `modify`: `adds` is whether the action is 'add'.
unfoldable pub modify_set : JidCodec → ℕ → Bool → Text → List Text → Exec Db GroupSetReply
modify_set codec now adds name inputs db =
    if no_targets inputs
    then (ok (usage_modify adds), db)
    else if not (is_some (select_set name db))
    then (ok (not_found name), db)
    else resolved_reply now adds name (resolve_targets codec false db inputs) db

-- An action that takes no targets.
abbrev pub bare : List Text → GroupSetReply → Exec Db GroupSetReply → Exec Db GroupSetReply
bare targets wrong m = if no_targets targets then m else pure wrong

unfoldable pub changing_action : JidCodec → ℕ → Text → Text → List Text → Exec Db GroupSetReply
changing_action codec now action name targets =
    if text_eq action (text "add")
    then modify_set codec now true name targets
    else if text_eq action (text "remove")
    then modify_set codec now false name targets
    else pure usage

unfoldable pub named_action : JidCodec → ℕ → Text → Text → List Text → Exec Db GroupSetReply
named_action codec now action name targets =
    if text_eq action (text "create")
    then bare targets usage_create (create_reply now name)
    else if text_eq action (text "delete")
    then bare targets usage_delete (delete_reply now name)
    else if text_eq action (text "show")
    then bare targets usage_show (gets (show_reply name))
    else changing_action codec now action name targets

abbrev pub with_normalized : JidCodec → ℕ → ParsedCommand → Option Text → Exec Db GroupSetReply
with_normalized codec now parsed none = pure invalid_name
with_normalized codec now parsed (some name) =
    named_action codec now parsed.action name parsed.targets

abbrev pub with_name : JidCodec → ℕ → ParsedCommand → Option Text → Exec Db GroupSetReply
with_name codec now parsed none = pure usage_name
with_name codec now parsed (some name) =
    with_normalized codec now parsed (normalize_group_set_name name)

-- `GroupSetCommands.execute`
unfoldable pub execute_group_set : JidCodec → ℕ → Text → Exec Db GroupSetReply
execute_group_set codec now command =
    let parsed = parse command in
    if text_eq parsed.action (text "list")
    then gets (list_reply parsed.name)
    else with_name codec now parsed parsed.name
