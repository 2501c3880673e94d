-- ===== src/Connection/Handlers.antt =====
-- The rest of `createSocket` of src/whatsapp/connection-manager.ts: after the authentication state
-- is read, and the handler of connection updates.
use whatsapp_bot.Db.Auth.{save_credentials}
use whatsapp_bot.Base.{
  Text, Option, ℕ, Bool, leb, [], none, some, true, false, suc, ◌∷◌, ◌==◌, update_where, find_first,
  if◌then◌else◌, ◌&&◌, not, ◌||◌, any, map_option, ltb, is_some,
}
use whatsapp_bot.Db.{StateKey, StateValue, EventType, Details}
use whatsapp_bot.Db.State.{set, remove}
use whatsapp_bot.Db.Audit.{add}
use whatsapp_bot.Db.Exec.{Exec, modify, ◌>>=◌, ◌>>◌, pure, throw, ok}
use whatsapp_bot.Domain.Errors.{plain}
use whatsapp_bot.Targets.{JidCodec, normalize_jid}
use whatsapp_bot.Connection.{
  reading_auth, listening, restarting, connected, disconnected, reconnecting, logged_out, fatal,
  Attempt, Manager, ConnectionConfig, DisconnectReason, set_socket, on_state, set_state,
  create_socket, schedule_reconnect,
}

abbrev pub is_attempt : ℕ → Attempt → Bool
is_attempt generation a = a.generation == generation

unfoldable pub update_attempt : ℕ → (Attempt → Attempt) → Manager → Manager
update_attempt generation f m = record m {
  attempts = update_where (is_attempt generation) f m.attempts;
}

unfoldable pub find_attempt : ℕ → Manager → Option Attempt
find_attempt generation m = find_first (is_attempt generation) m.attempts

-- The promise of `createSocket` is settled. `connect` waits for the attempt or for one that has
-- restarted into it, and clears its own promise then.
unfoldable pub finish_attempt : Attempt → Manager → Manager
finish_attempt a m =
    if a.awaited
    then update_attempt a.generation (λ b. record b { awaited = false })
        (record m { promise = false })
    else m

-- The socket is made, whatever has happened since the attempt began. A pairing phone without digits
-- rejects the promise.
unfoldable pub install_socket : ℕ → Bool → Attempt → Manager → Manager
install_socket socket phone_unusable a m =
    let m' =
      set_socket (some socket)
        (update_attempt a.generation (λ b. record b { phase = listening }) m) in
    if phone_unusable then finish_attempt a m' else m'

abbrev pub is_digit : ℕ → Bool
is_digit c = leb 48 c && leb c 57

-- `!state.creds.registered && options.pairingPhone`, and no digit in it.
abbrev pub unusable_phone : Bool → Option Text → Bool
unusable_phone registered none = false
unusable_phone registered (some []) = false
unusable_phone registered (some (c ∷ cs)) = not registered && not (any is_digit (c ∷ cs))

abbrev pub auth_read_by : ℕ → Bool → Option Attempt → Manager → Manager
auth_read_by socket registered none m = m
auth_read_by socket registered (some a) m = elim a.phase [
  | reading_auth ↦ install_socket socket (unusable_phone registered a.options.pairing_phone) a m
  | _ ↦ m
]

-- After `useSQLiteAuthState`.
unfoldable pub auth_read : ℕ → ℕ → Bool → Manager → Manager
auth_read generation socket registered m =
    auth_read_by socket registered (find_attempt generation m) m

-- `createSocket` throws: reading the authentication state, making the socket or the request of a
-- pairing code has failed. A restart that is under way goes on.
abbrev pub give_up : Attempt → Attempt
give_up b = record b { phase = elim b.phase [ restarting ↦ restarting | _ ↦ listening ] }

unfoldable pub attempt_rejected : ℕ → Manager → Manager
attempt_rejected generation m = elim (find_attempt generation m) [
  | none ↦ m
  | some a ↦ finish_attempt a (update_attempt generation give_up m)
]

abbrev pub normalized_or_throw : Option Text → Exec Manager Text
normalized_or_throw none = throw (plain "Invalid WhatsApp JID")
normalized_or_throw (some jid) = pure jid

abbrev pub note_jid : JidCodec → ℕ → StateKey → Option Text → Exec Manager (Unit {0})
note_jid codec now key (some (c ∷ cs)) = do
  jid ← normalized_or_throw (normalize_jid codec (c ∷ cs))
  on_state (set now key (StateValue.jid jid))
note_jid codec now key _ = pure tt

-- `update.connection === 'open'`, with the ids of `socket.user`; `now` is written as an instant.
unfoldable pub on_open :
    ConnectionConfig → ℕ → Option Text → Option Text → Attempt → Exec Manager (Unit {0})
on_open cfg now own_jid own_lid a = do
  modify (update_attempt a.generation (λ b. record b { settled = true }))
  modify (λ m. set_state now connected (record m { reconnect_attempt = 0 }))
  note_jid cfg.codec now StateKey.own_jid own_jid
  note_jid cfg.codec now StateKey.own_lid own_lid
  on_state (set now StateKey.last_connection_at (StateValue.instant now))
  on_state (remove StateKey.outgoing_pause_reason)
  on_state (remove StateKey.outgoing_pause_until)
  on_state (add now EventType.connection_restored "daemon" none none none)
  modify (finish_attempt a)

abbrev pub has_status : Option ℕ → ℕ → Bool
has_status none n = false
has_status (some status) n = status == n

abbrev pub is_fatal_status : DisconnectReason → Option ℕ → Bool
is_fatal_status reasons status =
    has_status status reasons.bad_session
    || has_status status reasons.multidevice_mismatch
    || has_status status reasons.forbidden

-- The branches on the status of a close that is no protocol restart.
unfoldable pub on_final_close :
    ConnectionConfig → ℕ → ℕ → Option ℕ → Attempt → Exec Manager (Unit {0})
on_final_close cfg now random status a =
    if has_status status cfg.reasons.logged_out
    then mark_logged_out
    else if is_fatal_status cfg.reasons status
    then mark_fatal
    else modify retry_later
  where
    mark_logged_out : Exec Manager (Unit {0})
    mark_logged_out = do
      modify (set_state now logged_out)
      on_state (set now StateKey.outgoing_pause_reason StateValue.logged_out)
      on_state (
          add now EventType.auth_required_event "connection" none none
            (some (Details.reason "logged_out")))

    mark_fatal : Exec Manager (Unit {0})
    mark_fatal = do
      modify (set_state now fatal)
      on_state (set now StateKey.outgoing_pause_reason StateValue.fatal)
      on_state (
          add now EventType.connection_fatal "connection" none none
            (map_option Details.status_code status))

    retry_later : Manager → Manager
    retry_later m =
        let m' = set_state now disconnected m in
        if not m'.stopped && a.options.auto_reconnect
        then schedule_reconnect cfg now random m'
        else m'

abbrev pub settle_close : Attempt → Manager → Manager
settle_close a m =
    if a.settled
    then m
    else finish_attempt a (update_attempt a.generation (λ b. record b { settled = true }) m)

abbrev pub restarts : ConnectionConfig → Option ℕ → Attempt → Manager → Bool
restarts cfg status a m =
    has_status status cfg.reasons.restart_required
    && not a.settled
    && not m.stopped
    && ltb a.protocol_restart_count 2

-- `saveCreds`: the credentials in memory, as written, replace those in the database.
unfoldable pub save_creds : ℕ → Text → Manager → Manager
save_creds now written m = (on_state (save_credentials now written) m).1

-- The flush before a protocol restart: what it writes, or `none` where it throws.
abbrev pub flush_creds : ℕ → Option Text → Manager → Manager
flush_creds now none m = m
flush_creds now (some written) m = save_creds now written m

-- `update.connection === 'close'`, up to the first await of a protocol restart.
unfoldable pub on_close :
    ConnectionConfig → ℕ → ℕ → Option ℕ → Option Text → Attempt → Exec Manager (Unit {0})
on_close cfg now random status flush a m =
    let m' = set_socket none m in
    if restarts cfg status a m'
    then (
      ok tt,
      flush_creds now flush (
          set_state now reconnecting (
            update_attempt a.generation
              (λ b. record b { settled = true; phase = restarting; flushed = is_some flush }) m')),
    )
    else (ok tt, settle_close a (on_final_close cfg now random status a m').1)

-- After the flush of the credentials, and after the sleep where it went through. A failed flush and
-- a stop reject the promise; otherwise a new attempt takes its place.
unfoldable pub restart : ℕ → Attempt → Manager → Manager
restart now a m =
    let m' = update_attempt a.generation (λ b. record b { phase = listening; awaited = false }) m in
    if not a.flushed || m.stopped
    then (if a.awaited then record m' { promise = false } else m')
    else create_socket now a.options (suc a.protocol_restart_count) a.awaited m'
