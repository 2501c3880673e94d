-- ===== src/Commands/Aborted.antt =====
-- What a refused `/groupset` command leaves alone.
use whatsapp_bot.Base.{
  ℕ, Text, List, Option, Bool, ◌≡◌, ◌⊎◌, any, find_first, ◌++◌, refl, [], none, some, true, false,
  inl, inr, suc, ◌∷◌, arith, text_eq_refl, Bool-cases, not, is_some, text_eq, text,
}
use whatsapp_bot.Db.{Db, GroupSetRow}
use whatsapp_bot.Db.Audit.{insert_audit}
use whatsapp_bot.Db.Exec.{Exec, Result, ok, ◌>>=◌, immediate_transaction, gets}
use whatsapp_bot.Destinations.{fold_case, eq_nocase}
use whatsapp_bot.GroupSets.{
  GroupSet, select_set, create_set, delete_set, add_members, remove_members,
  normalize_group_set_name, insert_new, delete_found, change_members,
}
use whatsapp_bot.Targets.{JidCodec, Targets, TargetIssue, resolve_targets}
use whatsapp_bot.Commands.{
  GroupSetReply, created, deleted, updated, usage_create, usage_delete, usage_show, create_reply,
  delete_reply, change_reply, resolved_reply, modify_set, bare, named_action, execute_group_set,
  issues_reply, ParsedCommand, no_targets, with_normalized, with_name, parse, changing_action,
  show_reply,
}

-- The replies that report a change.
unfoldable pub says_done : Result GroupSetReply → Bool
says_done (ok (created name)) = true
says_done (ok (deleted name)) = true
says_done (ok (updated adds name changed unchanged)) = true
says_done _ = false

-- A change is reported, or the database is as it was.
abbrev pub Honest : Db → Result GroupSetReply × Db → Type 0
Honest db after = (says_done after.0 ≡ true) ⊎ (after.1 ≡ db)

module _ {A : Type 0} (p : A → Bool) where
  find_first-last :
      (xs : List A) (x : A) → any p xs ≡ false → p x ≡ true → find_first p (xs ++ x ∷ []) ≡ some x
  find_first-last [] x h k = rw k
  find_first-last (y ∷ ys) x h k = ground (arith, find_first-last ys x)

eq_nocase_refl : (s : Text) → eq_nocase s s ≡ true
unfolding eq_nocase
eq_nocase_refl s = text_eq_refl (fold_case s)

new_set : ℕ → Text → Db → GroupSetRow
new_set now name db = record {
  id = suc db.group_set_seq;
  name = name;
  created_at = now;
  updated_at = now;
}

created_found :
    (now : ℕ) (name : Text) (db : Db)
    → any (λ row. eq_nocase row.name name) db.group_sets ≡ false
    → find_first (λ row. eq_nocase row.name name) (db.group_sets ++ new_set now name db ∷ [])
      ≡ some (new_set now name db)
unfolding new_set
created_found now name db h =
    find_first-last (λ row. eq_nocase row.name name) db.group_sets _ h (eq_nocase_refl name)

create-Honest : (now : ℕ) (name : Text) (db : Db) → Honest db (create_reply now name db)
unfolding create_reply create_set insert_new insert_audit select_set immediate_transaction ◌>>=◌
    says_done new_set
create-Honest now name db = elim (Bool-cases (any (λ row. eq_nocase row.name name) db.group_sets)) [
  | inl e ↦ inr (rw e)
  | inr e ↦ inl (rw (e, created_found now name db e))
]

deleted-Honest :
    (now : ℕ) (name : Text) (db : Db) (found : Option GroupSet)
    → select_set name db ≡ found
    → Honest db (delete_reply now name db)
unfolding delete_reply delete_set delete_found insert_audit immediate_transaction ◌>>=◌ says_done
deleted-Honest now name db none e = inr (rw e)
deleted-Honest now name db (some set) e = inl (rw e)

change-Honest :
    (now : ℕ) (adds : Bool) (name : Text) (t : Targets) (db : Db) (found : Option GroupSet)
    → select_set name db ≡ found
    → Honest db (change_reply now adds name t db)
unfolding change_reply add_members remove_members change_members insert_audit immediate_transaction
    ◌>>=◌ says_done
change-Honest now true name t db none e = inr (rw e)
change-Honest now true name t db (some set) e = inl (rw e)
change-Honest now false name t db none e = inr (rw e)
change-Honest now false name t db (some set) e = inl (rw e)

resolved-Honest :
    (now : ℕ) (adds : Bool) (name : Text) (found : Option Targets) (db : Db)
    → Honest db (resolved_reply now adds name found db)
unfolding resolved_reply issues_reply change_reply
resolved-Honest now adds name none db = inr refl
resolved-Honest now adds name (some t) db = by_issues t.issues
  where
    by_issues : (issues : List TargetIssue) → Honest db (issues_reply now adds name t issues db)
    by_issues [] = change-Honest now adds name t db (select_set name db) refl
    by_issues (i ∷ is) = inr refl

module _ (codec : JidCodec) (now : ℕ) (db : Db) where
  modify-Honest :
      (adds : Bool) (name : Text) (inputs : List Text)
      → Honest db (modify_set codec now adds name inputs db)
  unfolding modify_set
  modify-Honest adds name inputs = elim (Bool-cases (no_targets inputs)) [
    | inl e ↦ inr (rw e)
    | inr e ↦ elim (Bool-cases (not (is_some (select_set name db)))) [
      | inl f ↦ inr (rw (e, f))
      | inr f ↦ rw (e, f) (resolved-Honest now adds name (resolve_targets codec false db inputs) db)
    ]
  ]

  bare-Honest :
      (targets : List Text) (wrong : GroupSetReply) (m : Exec Db GroupSetReply)
      → Honest db (m db)
      → Honest db (bare targets wrong m db)
  bare-Honest [] wrong m h = h
  bare-Honest (t ∷ ts) wrong m h = inr refl

  changing-Honest :
      (action name : Text) (targets : List Text)
      → Honest db (changing_action codec now action name targets db)
  unfolding changing_action
  changing-Honest action name targets = elim (Bool-cases (text_eq action (text "add"))) [
    | inl e ↦ rw e (modify-Honest true name targets)
    | inr e ↦ elim (Bool-cases (text_eq action (text "remove"))) [
      | inl f ↦ rw (e, f) (modify-Honest false name targets)
      | inr f ↦ rw (e, f) (inr refl)
    ]
  ]

  named-Honest :
      (action name : Text) (targets : List Text)
      → Honest db (named_action codec now action name targets db)
  unfolding named_action
  named-Honest action name targets = elim (Bool-cases (text_eq action (text "create"))) [
    | inl e ↦
        rw e (bare-Honest targets usage_create (create_reply now name) (create-Honest now name db))
    | inr e ↦ elim (Bool-cases (text_eq action (text "delete"))) [
      | inl f ↦
          rw (e, f)
            (bare-Honest targets usage_delete (delete_reply now name)
              (deleted-Honest now name db (select_set name db) refl))
      | inr f ↦ elim (Bool-cases (text_eq action (text "show"))) [
        | inl g ↦ rw (e, f, g) (bare-Honest targets usage_show (gets (show_reply name)) (inr refl))
        | inr g ↦ rw (e, f, g) (changing-Honest action name targets)
      ]
    ]
  ]

  -- `/groupset` with any arguments reports a set as created or deleted or its members as updated,
  -- or it leaves the database as it was, whatever it replies or throws.
  pub execute_group_set-Honest :
      (command : Text) → Honest db (execute_group_set codec now command db)
  unfolding execute_group_set
  execute_group_set-Honest command =
      elim (Bool-cases (text_eq (parse command).action (text "list"))) [
        | inl e ↦ rw e (inr refl)
        | inr e ↦ rw e (by_name (parse command) (parse command).name)
      ]
    where
      by_normalized :
          (parsed : ParsedCommand) (name : Option Text)
          → Honest db (with_normalized codec now parsed name db)
      by_normalized parsed none = inr refl
      by_normalized parsed (some name) = named-Honest parsed.action name parsed.targets

      by_name :
          (parsed : ParsedCommand) (name : Option Text)
          → Honest db (with_name codec now parsed name db)
      by_name parsed none = inr refl
      by_name parsed (some name) = by_normalized parsed (normalize_group_set_name name)
