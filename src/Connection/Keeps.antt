-- ===== src/Connection/Keeps.antt =====
-- The calls on the database and the events keep the connection manager sound.
use whatsapp_bot.Db.Auth.{clear, save_credentials}
use whatsapp_bot.Retry.{resolution}
use whatsapp_bot.Connection.Handlers.{
  has_status, restarts, on_final_close, settle_close, on_close, restart, install_socket,
  is_fatal_status, finish_attempt, note_jid, normalized_or_throw, on_open, save_creds, flush_creds,
}
use whatsapp_bot.Connection.Sound.{
  Kept, audited, update_attempt_sound, finish_attempt_sound, set_state_sound, set_socket_sound,
  cleared, create_socket_sound, schedule_reconnect_sound, saved,
}
use whatsapp_bot.Targets.{normalize_jid}
use whatsapp_bot.Db.State.Refines.{get-set, get-remove}
use whatsapp_bot.Base.{
  Option, ℕ, ◌≡◌, ◌∙◌, refl, [], none, some, false, ◌∷◌, String, Text, true, inl, inr, ltb,
  Bool-cases, Bool, if◌then◌else◌, not, ◌&&◌, ◌||◌,
}
use whatsapp_bot.Db.{Db, StateKey, StateValue, EventType, Details, same_key}
use whatsapp_bot.Db.Keeps.{KeepsAt, bind_at}
use whatsapp_bot.Db.State.{get, set, remove}
use whatsapp_bot.Db.Audit.{add}
use whatsapp_bot.Db.Exec.{Exec, modify, ◌>>=◌}
use whatsapp_bot.Connection.{
  Attempt, Manager, ConnectionConfig, ConnectionState, set_state, on_state, end_logout,
  AttemptPhase, set_socket, schedule_reconnect,
}

module _ (cfg : ConnectionConfig) where
  Kept-refl : (m : Manager) → Kept cfg m m
  unfolding Kept
  Kept-refl m h = h

  Kept-trans : (m n o : Manager) → (Kept cfg) m n → (Kept cfg) n o → (Kept cfg) m o
  unfolding Kept
  Kept-trans m n o p q h = q (p h)

  modify_sound :
      (f : Manager → Manager) (m : Manager) → (Kept cfg) m (f m) → KeepsAt (Kept cfg) (modify f) m
  modify_sound f m h = record { at = h }

  then_sound :
      {A B : Type 0} (x : Exec Manager A) (f : A → Exec Manager B) (m : Manager)
      → KeepsAt (Kept cfg) x m
      → ((a : A) (n : Manager) → KeepsAt (Kept cfg) (f a) n)
      → KeepsAt (Kept cfg) (x >>= f) m
  then_sound x f m h k = bind_at (Kept cfg) Kept-refl Kept-trans x f m h (λ a _. k a _)

  -- A call on the database that leaves the connectivity alone.
  on_state_sound :
      (op : Exec Db (Unit {0})) (m : Manager)
      → ((db : Db) → get StateKey.connectivity (op db).1 ≡ get StateKey.connectivity db)
      → KeepsAt (Kept cfg) (on_state op) m
  unfolding Kept
  on_state_sound op m k = record {
    at = λ h. record {
      mirrored = k m.db ∙ h.mirrored;
      told = h.told;
      numbered = h.numbered;
      timer = h.timer;
    };
  }

  set_other :
      (now : ℕ) (key : StateKey) (value : StateValue) (m : Manager)
      → same_key key StateKey.connectivity ≡ false
      → KeepsAt (Kept cfg) (on_state (set now key value)) m
  set_other now key value m k =
      on_state_sound _ m (λ db. rw k at (get-set now key value StateKey.connectivity db))

  remove_other :
      (key : StateKey) (m : Manager)
      → same_key key StateKey.connectivity ≡ false
      → KeepsAt (Kept cfg) (on_state (remove key)) m
  remove_other key m k =
      on_state_sound _ m (λ db. rw k at (get-remove key StateKey.connectivity db))

  audit_sound :
      (now : ℕ) (event : EventType) (actor : String) (details : Option Details) (m : Manager)
      → KeepsAt (Kept cfg) (on_state (add now event actor none none details)) m
  audit_sound now event actor details m =
      on_state_sound _ m (λ db. audited now event actor details db)

  note_jid_sound :
      (now : ℕ) (key : StateKey) (jid : Option Text) (m : Manager)
      → same_key key StateKey.connectivity ≡ false
      → KeepsAt (Kept cfg) (note_jid cfg.codec now key jid) m
  note_jid_sound now key none m k = modify_sound (λ n. n) m (Kept-refl m)
  note_jid_sound now key (some []) m k = modify_sound (λ n. n) m (Kept-refl m)
  note_jid_sound now key (some (c ∷ cs)) m k =
      then_sound _ _ m (normalized (normalize_jid cfg.codec (c ∷ cs)) m)
        (λ jid n. set_other now key (StateValue.jid jid) n k)
    where
      normalized :
          (jid : Option Text) (m : Manager) → KeepsAt (Kept cfg) (normalized_or_throw jid) m
      normalized none m = record { at = Kept-refl m }
      normalized (some jid) m = record { at = Kept-refl m }

  pub on_open_sound :
      (now : ℕ) (own_jid own_lid : Option Text) (a : Attempt) (m : Manager)
      → Kept cfg m (on_open cfg now own_jid own_lid a m).1
  unfolding on_open same_key Kept
  on_open_sound now own_jid own_lid a m =
      (then_sound _ _ m (modify_sound _ m (update_attempt_sound cfg a.generation _ m (λ b. refl)))
        (λ _ n. then_sound _ _ n (modify_sound _ n (connected_sound n)) (λ _ n.
          then_sound _ _ n (note_jid_sound now StateKey.own_jid own_jid n refl) (λ _ n.
            then_sound _ _ n (note_jid_sound now StateKey.own_lid own_lid n refl) (λ _ n.
              then_sound _ _ n (set_other now StateKey.last_connection_at _ n refl) (λ _ n.
                then_sound _ _ n (remove_other StateKey.outgoing_pause_reason n refl) (λ _ n.
                  then_sound _ _ n (remove_other StateKey.outgoing_pause_until n refl) (λ _ n.
                    then_sound _ _ n (audit_sound now EventType.connection_restored "daemon" none n)
                      (λ _ n. modify_sound _ n (finish_attempt_sound cfg a n)))))))))).at
    where
      connected_sound :
          (n : Manager)
          → Kept cfg n
              (set_state now ConnectionState.connected (record n { reconnect_attempt = 0 }))
      connected_sound n h =
          set_state_sound cfg now ConnectionState.connected _ (record {
            mirrored = h.mirrored;
            told = h.told;
            numbered = h.numbered;
            timer = h.timer;
          })

  on_final_close_sound :
      (now random : ℕ) (status : Option ℕ) (a : Attempt) (m : Manager)
      → ltb random resolution ≡ true
      → Kept cfg m (on_final_close cfg now random status a m).1
  unfolding on_final_close Kept same_key
  on_final_close_sound now random status a m r =
      elim (Bool-cases (has_status status cfg.reasons.logged_out)) [
        | inl e ↦
            rw e
              (then_sound _ _ m
                (modify_sound _ m (set_state_sound cfg now ConnectionState.logged_out m))
                (λ _ n.
                  then_sound _ _ n (set_other now StateKey.outgoing_pause_reason _ n refl)
                    (λ _ n. audit_sound now EventType.auth_required_event "connection" _ n))).at
        | inr e ↦ rw e (elim (Bool-cases (is_fatal_status cfg.reasons status)) [
          | inl f ↦
              rw f
                (then_sound _ _ m
                  (modify_sound _ m (set_state_sound cfg now ConnectionState.fatal m))
                  (λ _ n.
                    then_sound _ _ n (set_other now StateKey.outgoing_pause_reason _ n refl)
                      (λ _ n. audit_sound now EventType.connection_fatal "connection" _ n))).at
          | inr f ↦ rw f (
              retried (set_state now ConnectionState.disconnected m)
                (set_state_sound cfg now ConnectionState.disconnected m))
        ])
      ]
    where
      retried :
          (n : Manager)
          → Kept cfg m n
          → Kept cfg m (
              if not n.stopped && a.options.auto_reconnect
              then schedule_reconnect cfg now random n
              else n)
      retried n k h = elim (Bool-cases (not n.stopped && a.options.auto_reconnect)) [
        | inl e ↦ rw e (schedule_reconnect_sound cfg now random n r (k h))
        | inr e ↦ rw e (k h)
      ]

  settle_close_sound : (a : Attempt) (m : Manager) → Kept cfg m (settle_close a m)
  unfolding Kept finish_attempt
  settle_close_sound a m h = elim (Bool-cases a.settled) [
    | inl e ↦ rw e h
    | inr e ↦
        rw e
          (finish_attempt_sound cfg a _ (update_attempt_sound cfg a.generation _ m (λ b. refl) h))
  ]

  pub save_creds_sound :
      (now : ℕ) (written : Text) (m : Manager) → Kept cfg m (save_creds now written m)
  unfolding save_creds
  save_creds_sound now written m =
      (on_state_sound (save_credentials now written) m (saved now written)).at

  flush_creds_sound :
      (now : ℕ) (flush : Option Text) (m : Manager) → Kept cfg m (flush_creds now flush m)
  flush_creds_sound now none m = Kept-refl m
  flush_creds_sound now (some written) m = save_creds_sound now written m

  pub on_close_sound :
      (now random : ℕ) (status : Option ℕ) (flush : Option Text) (a : Attempt) (m : Manager)
      → ltb random resolution ≡ true
      → Kept cfg m (on_close cfg now random status flush a m).1
  unfolding on_close Kept
  on_close_sound now random status flush a m r h =
      let m' = set_socket none m in
      let h' = set_socket_sound cfg none m h in
      elim (Bool-cases (restarts cfg status a m')) [
        | inl e ↦ rw e (
            flush_creds_sound now flush _ (
              set_state_sound cfg now ConnectionState.reconnecting _
                (update_attempt_sound cfg a.generation _ m' (λ b. refl) h')))
        | inr e ↦ rw e (settle_close_sound a _ (on_final_close_sound now random status a m' r h'))
      ]

  pub restart_sound : (now : ℕ) (a : Attempt) (m : Manager) → Kept cfg m (restart now a m)
  unfolding restart Kept
  restart_sound now a m h =
      let h' =
        update_attempt_sound cfg a.generation
          (λ b. record b { phase = AttemptPhase.listening; awaited = false }) m (λ b. refl) h in
      elim (Bool-cases (not a.flushed || m.stopped)) [
        | inr e ↦ rw e (create_socket_sound cfg now a.options _ a.awaited _ h')
        | inl e ↦ rw e (elim (Bool-cases a.awaited) [
          | inr f ↦ rw f h'
          | inl f ↦ rw f (record {
            mirrored = h'.mirrored;
            told = h'.told;
            numbered = h'.numbered;
            timer = h'.timer;
          })
        ])
      ]

  pub install_socket_sound :
      (socket : ℕ) (unusable : Bool) (a : Attempt) (m : Manager)
      → Kept cfg m (install_socket socket unusable a m)
  unfolding install_socket Kept
  install_socket_sound socket unusable a m h =
      let h' = set_socket_sound cfg (some socket) _ (
        update_attempt_sound cfg a.generation (λ b. record b { phase = AttemptPhase.listening }) m
          (λ b. refl) h) in
      elim (Bool-cases unusable) [
        | inl e ↦ rw e (finish_attempt_sound cfg a _ h')
        | inr e ↦ rw e h'
      ]

  pub end_logout_sound : (now : ℕ) (m : Manager) → Kept cfg m (end_logout now m).1
  unfolding end_logout same_key
  end_logout_sound now m =
      (then_sound _ _ m (modify_sound _ m (set_socket_sound cfg none m)) (λ _ n.
        then_sound _ _ n (on_state_sound clear n cleared) (λ _ n.
          then_sound _ _ n (remove_other StateKey.own_jid n refl) (λ _ n.
            then_sound _ _ n (remove_other StateKey.own_lid n refl) (λ _ n.
              then_sound _ _ n (set_other now StateKey.outgoing_pause_reason _ n refl) (λ _ n.
                then_sound _ _ n
                  (modify_sound _ n (set_state_sound cfg now ConnectionState.logged_out n))
                  (λ _ n. audit_sound now EventType.auth_logout "cli" none n))))))).at
