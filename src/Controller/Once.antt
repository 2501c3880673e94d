-- ===== src/Controller/Once.antt =====
-- No message makes the executor run twice, however messages are delivered again.
use whatsapp_bot.Controller.Walk.{marked, stored, handle_upsert_at}
use whatsapp_bot.Controller.Inbox.{
  CommandRun, Chat, ChatServices, store_all, handle_upsert, command_run,
}
use whatsapp_bot.Base.{
  Text, ◌≡◌, List, sym, ◌∙◌, refl, [], none, some, true, false, inl, inr, ◌∷◌, Bool-cases, Bool,
  text_eq, All, ℕ, any, Pairwise, any_append, any_append_last, text_eq_sound, All-weaken, ◌++◌,
  Option, text_eq_refl, All-append_one, Pairwise-append_one, ◌&&◌,
}
use mathlib.Core.Bool.{false≢true}
use whatsapp_bot.Db.{Db, ForwardSource, ContentType}
use whatsapp_bot.Sources.{save, has_key}
use whatsapp_bot.Controller.{
  Message, mark_processed, ControllerConfig, has_processed, UpsertEvent, save_source, store_with,
  store_forward_source, source_of, truthy, may_store, forward_content_type,
}

abbrev pub is_processed : Db → CommandRun → Bool
is_processed db run = has_processed run.message_id db

abbrev pub OtherMessage : CommandRun → CommandRun → Type 0
OtherMessage a b = text_eq a.message_id b.message_id ≡ false

-- The executor's calls are for messages that are marked as processed, each for another one.
pub record RunsOnce (c : Chat) : Type 0 where
  pub processed : All (λ run. is_processed c.db run ≡ true) c.runs
  pub differ : Pairwise OtherMessage c.runs

pub has_processed-mark :
    (id other hash : Text) (now : ℕ) (db : Db)
    → has_processed id db ≡ true
    → has_processed id (mark_processed other hash now db).1 ≡ true
unfolding mark_processed has_processed
has_processed-mark id other hash now db h = elim (Bool-cases (has_processed other db)) [
  | inl e ↦ rw (e, h)
  | inr e ↦ rw (e, any_append (λ row. text_eq row.message_id id) db.controller_messages _ h)
]

pub mark-has_processed :
    (id hash : Text) (now : ℕ) (db : Db) → has_processed id (mark_processed id hash now db).1 ≡ true
unfolding mark_processed has_processed
mark-has_processed id hash now db = elim (Bool-cases (has_processed id db)) [
  | inl e ↦ rw (e, e)
  | inr e ↦ rw e (
      any_append_last (λ row. text_eq row.message_id id) db.controller_messages
        (record { message_id = id; received_at = now; command_hash = hash }) (text_eq_refl id))
]

-- A run of a message that is not processed yet is of another message than those before.
runs_of_others :
    (id : Text) (db : Db) (run : CommandRun)
    → has_processed id db ≡ false
    → is_processed db run ≡ true
    → text_eq run.message_id id ≡ false
runs_of_others id db run fresh h = elim (Bool-cases (text_eq run.message_id id)) [
  | inl e ↦
      let same : run.message_id ≡ id = text_eq_sound run.message_id id e in
      absurd (false≢true (sym fresh ∙ rw same at h))
  | inr e ↦ e
]

marked-RunsOnce :
    (cfg : ControllerConfig) (id command : Text) (c : Chat)
    → RunsOnce c
    → RunsOnce (marked cfg id command c)
marked-RunsOnce cfg id command c h = record {
  processed =
      All-weaken _ _ (λ run k. has_processed-mark run.message_id id _ c.now c.db k) c.runs
        h.processed;
  differ = h.differ;
}

run-RunsOnce :
    (cfg : ControllerConfig) (id command : Text) (run : CommandRun) (c : Chat)
    → has_processed id c.db ≡ false
    → run.message_id ≡ id
    → RunsOnce c
    → RunsOnce (record (marked cfg id command c) { runs = c.runs ++ run ∷ [] })
run-RunsOnce cfg id command run c fresh e h = record {
  processed =
      All-append_one _ c.runs (marked-RunsOnce cfg id command c h).processed
        (rw e (mark-has_processed id (cfg.digest command) c.now c.db));
  differ =
      Pairwise-append_one OtherMessage c.runs run h.differ
        (All-weaken _ _ (λ old k. rw e (runs_of_others id c.db old fresh k)) c.runs h.processed);
}

save_keeps :
    (source : ForwardSource) (db : Db)
    → (save source db).1.controller_messages ≡ db.controller_messages
unfolding save
save_keeps source db = elim (Bool-cases (any (has_key source.source_key) db.forward_sources)) [
  | inl e ↦ rw e
  | inr e ↦ rw e
]

module _ (cfg : ControllerConfig) (now : ℕ) where
  save_source_keeps :
      (m : Message) (jid id : Text) (content_type : Option ContentType) (db : Db)
      → (save_source cfg now m jid id content_type db).1.controller_messages
        ≡ db.controller_messages
  save_source_keeps m jid id none db = refl
  save_source_keeps m jid id (some t) db = save_keeps (source_of cfg now m jid id t) db

  store_with_keeps :
      (m : Message) (jid id : Option Text) (db : Db)
      → (store_with cfg now m jid id db).1.controller_messages ≡ db.controller_messages
  store_with_keeps m none id db = refl
  store_with_keeps m (some jid) none db = refl
  store_with_keeps m (some jid) (some id) db =
      elim (Bool-cases (cfg.has_forward_sources && may_store cfg m jid)) [
        | inl e ↦ rw e (save_source_keeps m jid id (forward_content_type m) db)
        | inr e ↦ rw e
      ]

  -- Storing forward sources marks no message.
  pub store_all_keeps :
      (ms : List Message) (db : Db)
      → (store_all cfg now ms db).controller_messages ≡ db.controller_messages
  unfolding store_all store_forward_source
  store_all_keeps [] db = refl
  store_all_keeps (m ∷ ms) db =
      store_all_keeps ms _ ∙ store_with_keeps m (truthy m.remote_jid) (truthy m.id) db

same_marks :
    (id : Text) (db db' : Db)
    → db'.controller_messages ≡ db.controller_messages
    → has_processed id db ≡ true
    → has_processed id db' ≡ true
unfolding has_processed
same_marks id db db' e h = rw e h

stored-RunsOnce :
    (cfg : ControllerConfig) (ms : List Message) (c : Chat)
    → RunsOnce c
    → RunsOnce (stored cfg ms c)
stored-RunsOnce cfg ms c h = record {
  processed =
      All-weaken _ _
        (λ run k. same_marks run.message_id c.db _ (store_all_keeps cfg c.now ms c.db) k) c.runs
        h.processed;
  differ = h.differ;
}

-- When the executor and the socket, with what other tasks do meanwhile, keep the state so that every
-- message that was run is marked as processed and none was run twice, `handleUpsert` keeps it so.
pub handle_upsert-RunsOnce :
    (cfg : ControllerConfig) (services : ChatServices) (event : UpsertEvent) (c : Chat)
    → ((command : Text) (key : Option Text) (d : Chat)
        → RunsOnce d
        → RunsOnce (services.execute command key d).1)
    → ((socket : ℕ) (jid reply : Text) (d : Chat)
        → RunsOnce d
        → RunsOnce (services.send_message socket jid reply d).1)
    → RunsOnce c
    → RunsOnce (handle_upsert cfg services event c).1
unfolding command_run
handle_upsert-RunsOnce cfg services event c execute_keeps send_keeps =
    handle_upsert_at (λ d e. RunsOnce d → RunsOnce e) (λ d h. h) (λ d e f p q h. q (p h)) cfg
      services send_keeps event c (stored-RunsOnce cfg event.messages c)
      (λ m jid id command d i k fresh. (
        marked-RunsOnce cfg id command d,
        λ h. execute_keeps _ _ _ (run-RunsOnce cfg id command _ d fresh (named jid id m command) h),
      ))
  where
    named :
        (jid id : Text) (m : Message) (command : Text)
        → (command_run jid id m command).message_id ≡ id
    named jid id m command = refl
