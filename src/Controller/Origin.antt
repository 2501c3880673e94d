-- ===== src/Controller/Origin.antt =====
-- Which messages make the executor run, and what a second delivery does.
use whatsapp_bot.Controller.Walk.{IsCommand, handle_upsert_at, marked}
use whatsapp_bot.Controller.Inbox.{
  CommandRun, command_run, handle_upsert, ChatServices, Chat, run_command,
}
use whatsapp_bot.Base.{
  Text, ◌≡◌, List, sym, ◌⊎◌, subst, Memᴰ, refl, [], some, true, false, inl, inr, ◌∷◌, ◌++◌, arith,
  Option, ℕ, Bool-cases,
}
use whatsapp_bot.Controller.{
  Message, is_forwarded, ControllerConfig, is_authorized, UpsertEvent, is_own, is_authorized_in,
  truthy, is_recent,
}

-- The run is for a message of the event that is authorised, comes from the account itself in a chat
-- of its own, is not forwarded, and has this command as its text.
pub record IsRunOf (cfg : ControllerConfig) (event : UpsertEvent) (run : CommandRun) : Type 0 where
  pub is_notify : event.is_notify ≡ true
  pub message : Message
  pub jid : Text
  pub delivered : Memᴰ message event.messages
  pub is_command : IsCommand cfg message jid run.message_id run.command
  pub from_me : message.from_me ≡ true
  pub own_chat : is_own cfg jid ≡ true
  pub not_forwarded : is_forwarded message ≡ false
  pub recent : is_recent cfg message.timestamp ≡ true

-- Every call of the executor up to the later chat was there before or is one for the event.
pub record RunsFrom (cfg : ControllerConfig) (event : UpsertEvent) (c d : Chat) : Type 0 where
  pub origin : (run : CommandRun) → Memᴰ run d.runs → Memᴰ run c.runs ⊎ IsRunOf cfg event run

record Guards (cfg : ControllerConfig) (m : Message) (jid : Text) : Type 0 where
  from_me : m.from_me ≡ true
  own_chat : is_own cfg jid ≡ true
  not_forwarded : is_forwarded m ≡ false
  recent : is_recent cfg m.timestamp ≡ true

is_authorized_in-Guards :
    (cfg : ControllerConfig) (m : Message) (jid : Text)
    → is_authorized_in cfg m jid ≡ true
    → Guards cfg m jid
is_authorized_in-Guards cfg m jid h = record {
  from_me = ground arith;
  own_chat = ground arith;
  not_forwarded = ground arith;
  recent = ground arith;
}

is_authorized-Guards :
    (cfg : ControllerConfig) (m : Message) (jid : Text)
    → is_authorized cfg m ≡ true
    → truthy m.remote_jid ≡ some jid
    → Guards cfg m jid
unfolding is_authorized
is_authorized-Guards cfg m jid h j = is_authorized_in-Guards cfg m jid (rw j at h)

mem_append_one :
    (runs : List CommandRun) (run new : CommandRun)
    → Memᴰ run (runs ++ new ∷ [])
    → Memᴰ run runs ⊎ (run ≡ new)
mem_append_one [] run new (Memᴰ.head e) = inr e
mem_append_one [] run new (Memᴰ.tail i) = elim i [ ]
mem_append_one (x ∷ xs) run new (Memᴰ.head e) = inl (Memᴰ.head e)
mem_append_one (x ∷ xs) run new (Memᴰ.tail i) = elim (mem_append_one xs run new i) [
  | inl j ↦ inl (Memᴰ.tail j)
  | inr e ↦ inr e
]

run-RunsFrom :
    (cfg : ControllerConfig) (event : UpsertEvent) (m : Message) (jid id command : Text) (c : Chat)
    → event.is_notify ≡ true
    → Memᴰ m event.messages
    → IsCommand cfg m jid id command
    → RunsFrom cfg event c (record c { runs = c.runs ++ command_run jid id m command ∷ [] })
unfolding command_run
run-RunsFrom cfg event m jid id command c n i k = record {
  origin = λ run j.
      let g = is_authorized-Guards cfg m jid k.authorized k.has_jid in
      elim (mem_append_one c.runs run (command_run jid id m command) j) [
        | inl old ↦ inl old
        | inr e ↦ inr (
            subst (IsRunOf cfg event) (sym e) (record {
              is_notify = n;
              message = m;
              jid = jid;
              delivered = i;
              is_command = k;
              from_me = g.from_me;
              own_chat = g.own_chat;
              not_forwarded = g.not_forwarded;
              recent = g.recent;
            }))
      ];
}

kept :
    (cfg : ControllerConfig) (event : UpsertEvent) (c d : Chat)
    → d.runs ≡ c.runs
    → RunsFrom cfg event c d
kept cfg event c d e = record { origin = λ run i. inl (subst (λ runs. Memᴰ run runs) e i) }

module _ (cfg : ControllerConfig) (event : UpsertEvent) where
  RunsFrom-trans :
      (c d e : Chat) → RunsFrom cfg event c d → RunsFrom cfg event d e → RunsFrom cfg event c e
  RunsFrom-trans c d e p q = record {
    origin = λ run i. elim (q.origin run i) [ inl j ↦ p.origin run j | inr r ↦ inr r ];
  }

ignored :
    (cfg : ControllerConfig) (services : ChatServices) (event : UpsertEvent) (c : Chat)
    → event.is_notify ≡ false
    → handle_upsert cfg services event c ≡ (0, c)
unfolding handle_upsert
ignored cfg services event c h = rw h

-- When the executor and the socket record no calls of their own, every call of the executor that
-- `handleUpsert` adds is for the text of a message of a live event (of type notify) that is
-- authorised: from the account itself, in a chat of its own, not forwarded, and recent.
pub handle_upsert_runs :
    (cfg : ControllerConfig) (services : ChatServices) (event : UpsertEvent) (c : Chat)
    → ((command : Text) (key : Option Text) (d : Chat)
        → (services.execute command key d).1.runs ≡ d.runs)
    → ((socket : ℕ) (jid reply : Text) (d : Chat)
        → (services.send_message socket jid reply d).1.runs ≡ d.runs)
    → RunsFrom cfg event c (handle_upsert cfg services event c).1
handle_upsert_runs cfg services event c execute_keeps send_keeps =
    elim (Bool-cases event.is_notify) [
      | inr off ↦ kept cfg event c _ (rw (ignored cfg services event c off))
      | inl on ↦
          handle_upsert_at (RunsFrom cfg event) (λ d. kept cfg event d d refl)
            (RunsFrom-trans cfg event) cfg services
            (λ socket jid reply d. kept cfg event d _ (send_keeps socket jid reply d)) event c
            (kept cfg event c _ refl)
            (λ m jid id command d i k fresh.
              (kept cfg event d _ refl, executed m jid id command d i k on))
    ]
  where
    executed :
        (m : Message) (jid id command : Text) (d : Chat)
        → Memᴰ m event.messages
        → IsCommand cfg m jid id command
        → event.is_notify ≡ true
        → RunsFrom cfg event d
            (run_command services (command_run jid id m command) (marked cfg id command d)).1
    executed m jid id command d i k on =
        let run = command_run jid id m command in
        let before = marked cfg id command d in
        RunsFrom-trans cfg event d (record d { runs = d.runs ++ run ∷ [] })
          (run_command services run before).1 (run-RunsFrom cfg event m jid id command d on i k)
          (kept cfg event (record d { runs = d.runs ++ run ∷ [] })
            (run_command services run before).1
            (execute_keeps run.command run.source_key
              (record before { runs = d.runs ++ run ∷ [] })))
