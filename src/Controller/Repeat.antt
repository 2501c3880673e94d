-- ===== src/Controller/Repeat.antt =====
-- What a second delivery of a message does.
use whatsapp_bot.Controller.Walk.{answered_at}
use whatsapp_bot.Controller.Once.{mark-has_processed}
use whatsapp_bot.Controller.Inbox.{
  Chat, ChatServices, run_marked, handle_command, handle_message, slash,
}
use whatsapp_bot.Base.{
  Text, ◌≡◌, refl, [], none, some, true, false, inl, inr, ◌∷◌, Option, ℕ, Bool-cases, ◌++◌,
  map_option,
}
use whatsapp_bot.Controller.{
  Message, ControllerConfig, has_processed, mark_processed, truthy, is_authorized, message_text,
}
use whatsapp_bot.Targets.{trim}
use mathlib.Core.Bool.{false≢true}

abbrev pub MarksKept : Chat → Chat → Type 0
MarksKept c d = (id : Text) → has_processed id c.db ≡ true → has_processed id d.db ≡ true

module _ (cfg : ControllerConfig) (services : ChatServices) (m : Message) (id : Text) where
  run_marked_repeat :
      (socket : ℕ) (jid command : Text) (c : Chat)
      → has_processed id c.db ≡ true
      → run_marked cfg services socket jid id m command
          (mark_processed id (cfg.digest command) c.now c.db)
          c
        ≡ (false, c)
  unfolding run_marked mark_processed
  run_marked_repeat socket jid command c h = rw h

  handle_command_repeat :
      (socket : Option ℕ) (jid command : Option Text) (c : Chat)
      → has_processed id c.db ≡ true
      → handle_command cfg services m socket jid (some id) command c ≡ (false, c)
  unfolding handle_command
  handle_command_repeat none jid command c h = refl
  handle_command_repeat (some s) none command c h = refl
  handle_command_repeat (some s) (some jid) none c h = refl
  handle_command_repeat (some s) (some jid) (some command) c h = elim (Bool-cases (slash command)) [
    | inl e ↦ rw e (run_marked_repeat s jid command c h)
    | inr e ↦ rw e
  ]

  handle_message_repeat :
      (c : Chat)
      → truthy m.id ≡ some id
      → has_processed id c.db ≡ true
      → handle_message cfg services m c ≡ (false, c)
  unfolding handle_message
  handle_message_repeat c k h = elim (Bool-cases (is_authorized cfg m)) [
    | inl e ↦ rw (
      e,
      k,
      handle_command_repeat c.socket (truthy m.remote_jid) (map_option trim (message_text m)) c h,
    )
    | inr e ↦ rw e
  ]

module _ (cfg : ControllerConfig) (services : ChatServices)
    (execute_keeps : (command : Text) (key : Option Text) (d : Chat)
      → MarksKept d (services.execute command key d).1)
    (send_keeps : (socket : ℕ) (jid reply : Text) (d : Chat)
      → MarksKept d (services.send_message socket jid reply d).1) where
  run_marked_marks :
      (m : Message) (socket : ℕ) (jid id command : Text) (c : Chat)
      → let after =
          run_marked cfg services socket jid id m command
            (mark_processed id (cfg.digest command) c.now c.db)
            c in
        after.0 ≡ true → has_processed id after.1.db ≡ true
  unfolding run_marked mark_processed
  run_marked_marks m socket jid id command c = elim (Bool-cases (has_processed id c.db)) [
    | inl e ↦ rw e (λ h. cc)
    | inr e ↦
        let fresh_mark = mark-has_processed id (cfg.digest command) c.now c.db in
        rw e (λ h.
          answered_at MarksKept (λ d other k. k) (λ d f g p q other k. q other (p other k)) cfg
            services send_keeps socket jid id m command _ (execute_keeps _ _ _) id (marked_row e))
  ]
    where
      marked_row :
          has_processed id c.db ≡ false
          → has_processed id (record c.db {
            controller_messages =
                c.db.controller_messages
                ++ record {
                  message_id = id;
                  received_at = c.now;
                  command_hash = cfg.digest command;
                }
                  ∷ [];
          })
            ≡ true
      marked_row e = rw e at (mark-has_processed id (cfg.digest command) c.now c.db)

  handle_command_marks :
      (m : Message) (socket : Option ℕ) (jid id command : Option Text) (c : Chat)
      → let after = handle_command cfg services m socket jid id command c in
        after.0 ≡ true
        → (known : Text) × (id ≡ some known) × (has_processed known after.1.db ≡ true)
  unfolding handle_command
  handle_command_marks m none jid id command c h = cc
  handle_command_marks m (some s) none id command c h = cc
  handle_command_marks m (some s) (some jid) none command c h = cc
  handle_command_marks m (some s) (some jid) (some id) none c h = cc
  handle_command_marks m (some s) (some jid) (some id) (some command) c h =
      elim (Bool-cases (slash command)) [
        | inl e ↦ rw e (id, refl, run_marked_marks m s jid id command c (rw e at h))
        | inr e ↦ absurd (false≢true (rw e at h))
      ]

  handle_message_marks :
      (m : Message) (c : Chat)
      → let after = handle_message cfg services m c in
        after.0 ≡ true
        → (known : Text) × (truthy m.id ≡ some known) × (has_processed known after.1.db ≡ true)
  unfolding handle_message
  handle_message_marks m c = elim (Bool-cases (is_authorized cfg m)) [
    | inl e ↦ rw e (λ h. handle_command_marks m c.socket _ _ _ c h)
    | inr e ↦ rw e (λ h. cc)
  ]

  -- When neither the executor nor the socket unmarks a message, a message that was accepted is
  -- refused at any later time, if the marks that were there have stayed, and nothing changes.
  pub handle_message_twice :
      (m : Message) (c later : Chat)
      → (handle_message cfg services m c).0 ≡ true
      → MarksKept (handle_message cfg services m c).1 later
      → handle_message cfg services m later ≡ (false, later)
  handle_message_twice m c later accepted kept_since =
      let (known, has_id, done) = handle_message_marks m c accepted in
      handle_message_repeat cfg services m known later has_id (kept_since known done)
