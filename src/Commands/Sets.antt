-- ===== src/Commands/Sets.antt =====
-- The command `/groupset` is sound for the queue.
use whatsapp_bot.GroupSets.{select_set}
use whatsapp_bot.GroupSets.Moves.{
  create_set-SoundAt, delete_set-SoundAt, add_members-SoundAt, remove_members-SoundAt,
}
use whatsapp_bot.Jobs.Rules.{bind, returned}
use whatsapp_bot.Jobs.Evolution.{SoundAt, Sound-refl}
use whatsapp_bot.Db.{Db}
use whatsapp_bot.Db.Exec.{Exec, pure, gets}
use whatsapp_bot.Targets.{JidCodec, Targets, TargetIssue, resolve_targets}
use whatsapp_bot.Commands.{
  create_reply, delete_reply, change_reply, issues_reply, resolved_reply, GroupSetReply, modify_set,
  named_action, ParsedCommand, execute_group_set, bare, changing_action, with_normalized, with_name,
  parse, no_targets, usage_create, usage, usage_delete, list_reply, usage_show, show_reply,
}
use whatsapp_bot.Base.{
  [], none, some, true, false, ◌∷◌, List, Bool, ℕ, Text, Option, if◌then◌else◌, inl, inr,
  Bool-cases, not, is_some, text_eq, text,
}

create_reply-SoundAt : (now : ℕ) (name : Text) (db : Db) → SoundAt (create_reply now name) db
unfolding create_reply
create_reply-SoundAt now name db =
    bind _ _ db (create_set-SoundAt now name "self-controller" db) (λ set _. returned _ _)

delete_reply-SoundAt : (now : ℕ) (name : Text) (db : Db) → SoundAt (delete_reply now name) db
unfolding delete_reply
delete_reply-SoundAt now name db =
    bind _ _ db (delete_set-SoundAt now name "self-controller" db) (λ set _. returned _ _)

change_reply-SoundAt :
    (now : ℕ) (adds : Bool) (name : Text) (t : Targets) (db : Db)
    → SoundAt (change_reply now adds name t) db
unfolding change_reply
change_reply-SoundAt now true name t db =
    bind _ _ db (add_members-SoundAt now name _ "self-controller" db) (λ change _. returned _ _)
change_reply-SoundAt now false name t db =
    bind _ _ db (remove_members-SoundAt now name _ "self-controller" db) (λ change _. returned _ _)

issues_reply-SoundAt :
    (now : ℕ) (adds : Bool) (name : Text) (t : Targets) (issues : List TargetIssue) (db : Db)
    → SoundAt (issues_reply now adds name t issues) db
unfolding issues_reply
issues_reply-SoundAt now adds name t [] db = change_reply-SoundAt now adds name t db
issues_reply-SoundAt now adds name t (i ∷ is) db = returned _ db

resolved_reply-SoundAt :
    (now : ℕ) (adds : Bool) (name : Text) (found : Option Targets) (db : Db)
    → SoundAt (resolved_reply now adds name found) db
unfolding resolved_reply
resolved_reply-SoundAt now adds name none db = record { at = Sound-refl db }
resolved_reply-SoundAt now adds name (some t) db = issues_reply-SoundAt now adds name t t.issues db

bare-SoundAt :
    (targets : List Text) (wrong : GroupSetReply) (m : Exec Db GroupSetReply) (db : Db)
    → SoundAt m db
    → SoundAt (bare targets wrong m) db
bare-SoundAt [] wrong m db h = h
bare-SoundAt (t ∷ ts) wrong m db h = returned wrong db

-- One of two calls.
chosen :
    {A : Type 0} (c : Bool) (m n : Exec Db A) (db : Db)
    → SoundAt m db
    → SoundAt n db
    → SoundAt (if c then m else n) db
chosen true m n db h k = h
chosen false m n db h k = k

module _ (codec : JidCodec) (now : ℕ) where
  modify_set-SoundAt :
      (adds : Bool) (name : Text) (inputs : List Text) (db : Db)
      → SoundAt (modify_set codec now adds name inputs) db
  unfolding modify_set
  modify_set-SoundAt adds name inputs db = elim (Bool-cases (no_targets inputs)) [
    | inl e ↦ record { at = rw e (Sound-refl db) }
    | inr e ↦ elim (Bool-cases (not (is_some (select_set name db)))) [
      | inl f ↦ record { at = rw (e, f) (Sound-refl db) }
      | inr f ↦ record {
        at =
            rw (e, f)
              (resolved_reply-SoundAt now adds name (resolve_targets codec false db inputs) db).at;
      }
    ]
  ]

  changing_action-SoundAt :
      (action name : Text) (targets : List Text) (db : Db)
      → SoundAt (changing_action codec now action name targets) db
  unfolding changing_action
  changing_action-SoundAt action name targets db =
      chosen (text_eq action (text "add")) (modify_set codec now true name targets) _ db
        (modify_set-SoundAt true name targets db)
        (chosen (text_eq action (text "remove")) (modify_set codec now false name targets)
          (pure usage) db (modify_set-SoundAt false name targets db) (returned usage db))

  named_action-SoundAt :
      (action name : Text) (targets : List Text) (db : Db)
      → SoundAt (named_action codec now action name targets) db
  unfolding named_action
  named_action-SoundAt action name targets db =
      chosen (text_eq action (text "create")) (bare targets usage_create (create_reply now name)) _
        db (bare-SoundAt targets usage_create _ db (create_reply-SoundAt now name db))
        (chosen (text_eq action (text "delete")) (bare targets usage_delete (delete_reply now name))
          _ db (bare-SoundAt targets usage_delete _ db (delete_reply-SoundAt now name db))
          (chosen (text_eq action (text "show")) (bare targets usage_show (gets (show_reply name)))
            (changing_action codec now action name targets) db
            (bare-SoundAt targets usage_show _ db (record { at = Sound-refl db }))
            (changing_action-SoundAt action name targets db)))

  with_normalized-SoundAt :
      (parsed : ParsedCommand) (name : Option Text) (db : Db)
      → SoundAt (with_normalized codec now parsed name) db
  with_normalized-SoundAt parsed none db = returned _ db
  with_normalized-SoundAt parsed (some name) db =
      named_action-SoundAt parsed.action name parsed.targets db

  with_name-SoundAt :
      (parsed : ParsedCommand) (name : Option Text) (db : Db)
      → SoundAt (with_name codec now parsed name) db
  with_name-SoundAt parsed none db = returned _ db
  with_name-SoundAt parsed (some name) db = with_normalized-SoundAt parsed _ db

  pub execute_group_set-SoundAt :
      (command : Text) (db : Db) → SoundAt (execute_group_set codec now command) db
  unfolding execute_group_set
  execute_group_set-SoundAt command db =
      chosen (text_eq (parse command).action (text "list")) (gets (list_reply (parse command).name))
        (with_name codec now (parse command) (parse command).name) db
        (record { at = Sound-refl db }) (with_name-SoundAt (parse command) _ db)
