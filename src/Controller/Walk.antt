-- ===== src/Controller/Walk.antt =====
-- A relation between chats that every part of `handle_upsert` keeps is kept by the whole.
use whatsapp_bot.Controller.Inbox.{
  Chat, store_all, ChatServices, reply_to, apologize, answer, handle_upsert, run_command,
  command_failed, slash, command_run, run_marked, handle_command, handle_message, handle_all,
  is_forward_command, is_unusable, quoted_source, quoted_key,
}
use whatsapp_bot.Base.{
  Text, ◌≡◌, List, refl, [], none, some, true, false, inl, inr, ◌∷◌, ℕ, map_option, Memᴰ,
  Bool-cases, Option, not, ◌&&◌, ◌||◌, is_some,
}
use whatsapp_bot.Db.Exec.{catch_error}
use whatsapp_bot.Db.Keeps.{KeepsAt, bind_at, catch_at}
use whatsapp_bot.Targets.{trim}
use whatsapp_bot.Controller.{
  Message, ControllerConfig, is_authorized, mark_processed, truthy, message_text, has_processed,
  UpsertEvent,
}

-- What the messages that are run satisfy: authorised, with an id, and a command.
pub record IsCommand (cfg : ControllerConfig) (m : Message) (jid id command : Text) : Type 0 where
  pub authorized : is_authorized cfg m ≡ true
  pub has_jid : truthy m.remote_jid ≡ some jid
  pub has_id : truthy m.id ≡ some id
  pub has_command : map_option trim (message_text m) ≡ some command
  pub begins : slash command ≡ true

abbrev pub marked : ControllerConfig → Text → Text → Chat → Chat
marked cfg id command c = record c { db = (mark_processed id (cfg.digest command) c.now c.db).1 }

abbrev pub stored : ControllerConfig → List Message → Chat → Chat
stored cfg ms c = record c { db = store_all cfg c.now ms c.db }

module _ (R : Chat → Chat → Type 0) (R-refl : (c : Chat) → R c c)
    (R-trans : (c d e : Chat) → R c d → R d e → R c e) (cfg : ControllerConfig)
    (services : ChatServices)
    (send_at : (socket : ℕ) (jid reply : Text) (c : Chat)
      → R c (services.send_message socket jid reply c).1) where
  sent_at :
      (socket : ℕ) (jid reply : Text) (c : Chat)
      → KeepsAt R (services.send_message socket jid reply) c
  sent_at socket jid reply c = record { at = send_at socket jid reply c }

  reply_at :
      (jid id : Text) (m : Message) (command : Text) (c : Chat)
      → R c (run_command services (command_run jid id m command) c).1
      → KeepsAt R (reply_to cfg services jid id m command) c
  unfolding reply_to
  reply_at jid id m command c h = record {
    at =
        elim (Bool-cases (
          is_forward_command command
          && is_unusable c.now (quoted_source cfg (quoted_key jid m) c.db))) [
            | inl e ↦ rw e (R-refl c)
            | inr e ↦ rw e h
          ];
  }

  apologize_at : (socket : ℕ) (jid : Text) (c : Chat) → KeepsAt R (apologize services socket jid) c
  unfolding apologize
  apologize_at socket jid c =
      catch_at R R-refl R-trans _ _ c (sent_at socket jid command_failed c)
        (λ e. record { at = R-refl _ })

  pub answered_at :
      (socket : ℕ) (jid id : Text) (m : Message) (command : Text) (c : Chat)
      → R c (run_command services (command_run jid id m command) c).1
      → R c
          (catch_error
            (answer cfg services socket jid id m command)
            (λ e. apologize services socket jid)
            c).1
  unfolding answer
  answered_at socket jid id m command c h =
      (catch_at R R-refl R-trans _ _ c
        (bind_at R R-refl R-trans _ _ c (reply_at jid id m command c h)
          (λ reply _. sent_at socket jid reply _))
        (λ e. apologize_at socket jid _)).at

module _ (R : Chat → Chat → Type 0) (R-refl : (c : Chat) → R c c)
    (R-trans : (c d e : Chat) → R c d → R d e → R c e) (cfg : ControllerConfig)
    (services : ChatServices)
    (send_at : (socket : ℕ) (jid reply : Text) (c : Chat)
      → R c (services.send_message socket jid reply c).1) where
  module _ (ms : List Message)
      (run_at : (m : Message) (jid id command : Text) (c : Chat)
        → Memᴰ m ms
        → IsCommand cfg m jid id command
        → has_processed id c.db ≡ false
        → R c (marked cfg id command c)
          × R c
              (run_command services
                (command_run jid id m command)
                (marked cfg id command c)).1) where
    run_marked_at :
        (m : Message) (socket : ℕ) (jid id command : Text) (c : Chat)
        → Memᴰ m ms
        → IsCommand cfg m jid id command
        → R c
            (run_marked cfg services socket jid id m command
              (mark_processed id (cfg.digest command) c.now c.db)
              c).1
    unfolding mark_processed run_marked
    run_marked_at m socket jid id command c i h = elim (Bool-cases (has_processed id c.db)) [
      | inl e ↦ rw e (R-refl c)
      | inr e ↦
          let (p, q) = run_at m jid id command c i h e in
          rw e (
            answered_at (λ d f. R c d → R c f) (λ d k. k) (λ d f g k l j. l (k j)) cfg services
              (λ s j r d k. R-trans c d _ k (send_at s j r d)) socket jid id m command _
              (λ _. rw e at q) (rw e at p))
    ]

    handle_command_at :
        (m : Message) (socket : Option ℕ) (jid id command : Option Text) (c : Chat)
        → Memᴰ m ms
        → is_authorized cfg m ≡ true
        → truthy m.remote_jid ≡ jid
        → truthy m.id ≡ id
        → map_option trim (message_text m) ≡ command
        → R c (handle_command cfg services m socket jid id command c).1
    unfolding handle_command
    handle_command_at m none jid id command c i a j k t = R-refl c
    handle_command_at m (some socket) none id command c i a j k t = R-refl c
    handle_command_at m (some socket) (some jid) none command c i a j k t = R-refl c
    handle_command_at m (some socket) (some jid) (some id) none c i a j k t = R-refl c
    handle_command_at m (some socket) (some jid) (some id) (some command) c i a j k t =
        elim (Bool-cases (slash command)) [
          | inl e ↦ rw e (
              run_marked_at m socket jid id command c i
                (record { authorized = a; has_jid = j; has_id = k; has_command = t; begins = e }))
          | inr e ↦ rw e (R-refl c)
        ]

    handle_message_at :
        (m : Message) (c : Chat) → Memᴰ m ms → R c (handle_message cfg services m c).1
    unfolding handle_message
    handle_message_at m c i = elim (Bool-cases (is_authorized cfg m)) [
      | inl e ↦ rw e (handle_command_at m c.socket _ _ _ c i e refl refl refl)
      | inr e ↦ rw e (R-refl c)
    ]

    handle_all_at :
        (ns : List Message) (c : Chat)
        → ((m : Message) → Memᴰ m ns → Memᴰ m ms)
        → R c (handle_all cfg services ns c).1
    unfolding handle_all
    handle_all_at [] c i = R-refl c
    handle_all_at (n ∷ ns) c i =
        R-trans c (handle_message cfg services n c).1 _
          (handle_message_at n c (i n (Memᴰ.head refl)))
          (handle_all_at ns _ (λ m j. i m (Memᴰ.tail j)))

  -- The sources are stored first, then each message is handled.
  pub handle_upsert_at :
      (event : UpsertEvent) (c : Chat)
      → R c (stored cfg event.messages c)
      → ((m : Message) (jid id command : Text) (c : Chat)
          → Memᴰ m event.messages
          → IsCommand cfg m jid id command
          → has_processed id c.db ≡ false
          → R c (marked cfg id command c)
            × R c (run_command services (command_run jid id m command) (marked cfg id command c)).1)
      → R c (handle_upsert cfg services event c).1
  unfolding handle_upsert
  handle_upsert_at event c s run_at =
      elim (Bool-cases (not event.is_notify || is_some (truthy event.request_id))) [
        | inl e ↦ rw e (R-refl c)
        | inr e ↦ rw e (
            R-trans c (stored cfg event.messages c) _ s
              (handle_all_at event.messages run_at event.messages _ (λ m i. i)))
      ]
