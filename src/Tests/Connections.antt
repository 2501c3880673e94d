-- ===== src/Tests/Connections.antt =====
-- The theorems on the connection manager, at small runs.
use whatsapp_bot.Connection.Events.{creds_updated, attempt_was_rejected}
use whatsapp_bot.Db.State.{set, remove, get}
use whatsapp_bot.Db.Auth.{clear}
use whatsapp_bot.Db.Audit.{add, insert_audit}
use whatsapp_bot.Db.Exec.{◌>>=◌, immediate_transaction}
use whatsapp_bot.Connection.{
  begin_logout, end_logout, set_socket, set_state, connect, create_socket, Manager,
  ConnectionConfig, ConnectOptions, ConnectionState, AttemptPhase, state_word,
}
use whatsapp_bot.Connection.Events.{
  logout_began, logout_ended, run_event, Event, listener_added, connect_called, auth_was_read,
  opened, closed, timer_fired, reconnect_failed, run_events,
}
use whatsapp_bot.Connection.Invariant.{events-IsSound}
use whatsapp_bot.Connection.Blocked.{overtaken_connect_blocks}
use whatsapp_bot.Connection.Sound.{is_fair, IsSound}
use whatsapp_bot.Base.{List, ◌≡◌, refl, [], none, some, true, false, ◌∷◌, arith, text}
use whatsapp_bot.Db.{StateKey, StateValue, same_key}
use whatsapp_bot.Connection.Abandon.{disconnect, is_rejection}
use whatsapp_bot.Tests.Samples.{sample_db}
use whatsapp_bot.Tests.Services.{sample_codec}

abbrev connection_config : ConnectionConfig
connection_config = record {
  retry_base_ms = 1000;
  retry_max_ms = 60000;
  reasons = record {
    restart_required = 515;
    logged_out = 401;
    bad_session = 500;
    multidevice_mismatch = 411;
    forbidden = 403;
  };
  codec = sample_codec;
}

abbrev options : ConnectOptions
options = record { pairing_phone = none; auto_reconnect = true }

abbrev idle_manager : Manager
idle_manager = record {
  db = record sample_db {
    app_state =
        record { key = StateKey.connectivity; value = some StateValue.disconnected; updated_at = 1 }
        ∷ [];
  };
  socket = none;
  state_value = ConnectionState.disconnected;
  promise = false;
  generation = 0;
  stopped = false;
  reconnect_attempt = 0;
  reconnect_timer = none;
  last_options = options;
  socket_listeners = [];
  attempts = [];
}

-- A connection is made, opened, lost, and made again by the timer.
abbrev sample_events : List Event
sample_events =
    listener_added 1
    ∷ connect_called 10 options
    ∷ auth_was_read 1 7 true
    ∷ opened 1 20 none none
    ∷ closed 1 30 5 (some 428) none
    ∷ timer_fired 40
    ∷ []

events-IsSound_example :
    IsSound connection_config (run_events connection_config sample_events idle_manager)
unfolding is_fair get same_key state_word
events-IsSound_example =
    events-IsSound connection_config sample_events idle_manager
      (refl, (refl, (refl, (refl, (refl, (refl, tt))))))
      (record { mirrored = refl; told = tt; numbered = tt; timer = tt })

-- The socket of a `connect` is made and has not opened yet.
abbrev waiting_manager : Manager
waiting_manager = record idle_manager {
  socket = some 7;
  promise = true;
  generation = 1;
  attempts =
      record {
        generation = 1;
        options = options;
        protocol_restart_count = 0;
        phase = AttemptPhase.listening;
        flushed = false;
        settled = false;
        awaited = true;
      }
      ∷ [];
}

abbrev late_events : List Event
late_events =
    closed 1 50 5 none none
    ∷ creds_updated 1 55 (text "{}")
    ∷ timer_fired 60
    ∷ reconnect_failed 70 5
    ∷ attempt_was_rejected 1
    ∷ []

overtaken_connect_blocks_example :
    let later =
      run_events connection_config
        (closed 1 50 5 none none ∷ connect_called 60 options ∷ [])
        (disconnect 45 waiting_manager) in
    (later.promise ≡ true) × (later.attempts ≡ waiting_manager.attempts)
unfolding is_rejection
overtaken_connect_blocks_example =
    overtaken_connect_blocks connection_config 45 waiting_manager
      (closed 1 50 5 none none ∷ connect_called 60 options ∷ [])
      (record { numbered = (omega arith, tt) }) (refl, tt) refl (refl, (refl, tt))

-- A logout while a reconnect is due: the timer still runs and connects again.
logout_reconnects :
    let later =
      run_events connection_config
        (logout_began ∷ logout_ended 50 ∷ timer_fired 60 ∷ [])
        (record idle_manager { reconnect_timer = some 500 }) in
    (later.state_value ≡ ConnectionState.connecting) × (later.stopped ≡ false)
unfolding run_events run_event begin_logout end_logout ◌>>=◌ set_socket set_state clear add
    insert_audit immediate_transaction remove set connect create_socket
logout_reconnects = (refl, refl)
