-- ===== src/Connection.antt =====
-- src/whatsapp/connection-manager.ts: the connection's state machine, cut at its awaits. A socket is
-- a number; each run of `createSocket` is an attempt, named by the generation it has taken.
pub mod Handlers
pub mod Events
pub mod Abandon
pub mod Quiet
pub mod Silence
pub mod Blocked
pub mod Sound
pub mod Keeps
pub mod Invariant
use whatsapp_bot.Base.{
  Text, List, Option, ℕ, Bool, map, [], none, some, true, false, suc, ◌∷◌, ◌++◌, select,
  if◌then◌else◌, is_some, not, ◌||◌, ltb, ◌&&◌, ◌==◌,
}
use whatsapp_bot.Db.{Db, StateKey, StateValue, EventType}
use whatsapp_bot.Db.State.{set, remove}
use whatsapp_bot.Db.Auth.{clear}
use whatsapp_bot.Db.Audit.{add}
use whatsapp_bot.Db.Exec.{Exec, modify, ◌>>◌}
use whatsapp_bot.Retry.{retry_delay_ms}
use whatsapp_bot.Targets.{JidCodec}

pub data ConnectionState : Type 0 where
  connecting connected disconnected reconnecting auth_required logged_out fatal : ConnectionState

-- The word that `setState` writes.
unfoldable pub state_word : ConnectionState → StateValue
state_word connecting = StateValue.connecting
state_word connected = StateValue.connected
state_word disconnected = StateValue.disconnected
state_word reconnecting = StateValue.reconnecting
state_word auth_required = StateValue.auth_required
state_word logged_out = StateValue.logged_out
state_word fatal = StateValue.fatal

pub record ConnectOptions : Type 0 where
  pub pairing_phone : Option Text
  pub auto_reconnect : Bool  -- `autoReconnect !== false`

-- The constants of `DisconnectReason` of Baileys that the code names.
pub record DisconnectReason : Type 0 where
  pub restart_required : ℕ
  pub logged_out : ℕ
  pub bad_session : ℕ
  pub multidevice_mismatch : ℕ
  pub forbidden : ℕ

pub record ConnectionConfig : Type 0 where
  pub retry_base_ms : ℕ
  pub retry_max_ms : ℕ
  pub reasons : DisconnectReason
  pub codec : JidCodec

-- Where a run of `createSocket` stands: at the await of the authentication state, listening to its
-- socket, or flushing the credentials before a protocol restart.
pub data AttemptPhase : Type 0 where
  reading_auth listening restarting : AttemptPhase

-- The variables of a run of `createSocket`. `flushed` is whether the credentials were saved before
-- its protocol restart, and `awaited` is whether the promise of `connect` still
-- waits for it.
pub record Attempt : Type 0 where
  pub generation : ℕ
  pub options : ConnectOptions
  pub protocol_restart_count : ℕ
  pub phase : AttemptPhase
  pub flushed : Bool
  pub settled : Bool
  pub awaited : Bool

-- A listener and the socket it was told last.
pub record SocketListener : Type 0 where
  pub id : ℕ
  pub told : Option ℕ

-- The fields of `ConnectionManager`, the database it shares, and the attempts. `promise` is whether
-- `connectPromise` is set, and `reconnect_timer` holds the delay of the timer that runs.
pub record Manager : Type 0 where
  pub db : Db
  pub socket : Option ℕ
  pub state_value : ConnectionState
  pub promise : Bool
  pub generation : ℕ
  pub stopped : Bool
  pub reconnect_attempt : ℕ
  pub reconnect_timer : Option ℕ
  pub last_options : ConnectOptions
  pub socket_listeners : List SocketListener
  pub attempts : List Attempt

abbrev pub on_state : Exec Db (Unit {0}) → Exec Manager (Unit {0})
on_state m s = let (r, db') = m s.db in (r, record s { db = db' })

-- `setState`
unfoldable pub set_state : ℕ → ConnectionState → Manager → Manager
set_state now state m = record m {
  state_value = state;
  db = (set now StateKey.connectivity (state_word state) m.db).1;
}

unfoldable pub set_socket : Option ℕ → Manager → Manager
set_socket socket m = record m {
  socket = socket;
  socket_listeners = map (λ l. record { id = l.id; told = socket }) m.socket_listeners;
}

-- `onSocketChange`, and the function that it returns.
unfoldable pub on_socket_change : ℕ → Manager → Manager
on_socket_change id m = record m {
  socket_listeners = m.socket_listeners ++ record { id = id; told = m.socket } ∷ [];
}

unfoldable pub release_listener : ℕ → Manager → Manager
release_listener id m = record m {
  socket_listeners = select (λ l. not (l.id == id)) m.socket_listeners;
}

-- `scheduleReconnect`
unfoldable pub schedule_reconnect : ConnectionConfig → ℕ → ℕ → Manager → Manager
schedule_reconnect cfg now random m =
    if is_some m.reconnect_timer || m.stopped
    then m
    else set_state now reconnecting (record m {
      reconnect_attempt = suc m.reconnect_attempt;
      reconnect_timer =
          some (retry_delay_ms (suc m.reconnect_attempt) cfg.retry_base_ms cfg.retry_max_ms random);
    })

-- `createSocket` up to its first await.
unfoldable pub create_socket : ℕ → ConnectOptions → ℕ → Bool → Manager → Manager
create_socket now options restarts awaited m =
    set_state now (if ltb 0 m.reconnect_attempt then reconnecting else connecting) (record m {
      generation = suc m.generation;
      attempts =
          m.attempts
          ++ record {
            generation = suc m.generation;
            options = options;
            protocol_restart_count = restarts;
            phase = reading_auth;
            flushed = false;
            settled = false;
            awaited = awaited;
          }
            ∷ [];
    })

abbrev pub is_connected : Manager → Bool
is_connected m = is_some m.socket && elim m.state_value [ connected ↦ true | _ ↦ false ]

unfoldable pub connect : ℕ → ConnectOptions → Manager → Manager
connect now options m =
    if is_connected m || m.promise
    then m
    else create_socket now options 0 true
        (record m { stopped = false; last_options = options; promise = true })

-- `disconnect` up to the end of the socket, and the rest. Without a socket the two run at once.
unfoldable pub begin_disconnect : Manager → Manager
begin_disconnect m =
    let m' = set_socket none (record m { stopped = true; reconnect_timer = none }) in
    record m' { generation = suc m'.generation }

unfoldable pub end_disconnect : ℕ → Manager → Manager
end_disconnect now m = set_state now disconnected m

-- `logout` up to the end of the socket, and the rest.
unfoldable pub begin_logout : Manager → Manager
begin_logout m = record m { stopped = true }

unfoldable pub end_logout : ℕ → Exec Manager (Unit {0})
end_logout now = do
  modify (set_socket none)
  on_state clear
  on_state (remove StateKey.own_jid)
  on_state (remove StateKey.own_lid)
  on_state (set now StateKey.outgoing_pause_reason StateValue.auth_required)
  modify (set_state now logged_out)
  on_state (add now EventType.auth_logout "cli" none none none)
