-- ===== src/Connection/Events.antt =====
-- Everything that calls into the connection manager, one event at a time. `creds_updated` is the
-- listener of `creds.update`, which knows no generation; where its write fails, it only logs.
use whatsapp_bot.Connection.Handlers.{
  restart, find_attempt, auth_read, attempt_rejected, on_open, on_close, save_creds,
}
use whatsapp_bot.Base.{Text, List, Option, ℕ, Bool, [], none, some, ◌∷◌, if◌then◌else◌, ◌==◌}
use whatsapp_bot.Connection.{
  reading_auth, restarting, Attempt, Manager, ConnectionConfig, connect, ConnectOptions,
  begin_disconnect, end_disconnect, begin_logout, end_logout, on_socket_change, release_listener,
  schedule_reconnect,
}

pub data Event : Type 0 where
  connect_called : ℕ → ConnectOptions → Event
  disconnect_began : Event
  disconnect_ended : ℕ → Event
  logout_began : Event
  logout_ended : ℕ → Event
  listener_added listener_released : ℕ → Event
  auth_was_read : ℕ → ℕ → Bool → Event
  attempt_was_rejected : ℕ → Event
  opened : ℕ → ℕ → Option Text → Option Text → Event
  closed : ℕ → ℕ → ℕ → Option ℕ → Option Text → Event
  creds_updated : ℕ → ℕ → Text → Event
  restart_ready : ℕ → ℕ → Event
  timer_fired : ℕ → Event
  reconnect_failed : ℕ → ℕ → Event

-- The attempt, if its socket has been made and the handlers are set.
abbrev pub heard : Option Attempt → Option Attempt
heard none = none
heard (some a) = elim a.phase [ reading_auth ↦ none | _ ↦ some a ]

-- The guard `generation !== this.generation` of the handler, and the attempt's variables.
unfoldable pub current_attempt : ℕ → Manager → Option Attempt
current_attempt generation m =
    if generation == m.generation then heard (find_attempt generation m) else none

abbrev pub with_attempt : Option Attempt → (Attempt → Manager → Manager) → Manager → Manager
with_attempt none f m = m
with_attempt (some a) f m = f a m

abbrev pub restarted : ℕ → Attempt → Manager → Manager
restarted now a m = elim a.phase [ restarting ↦ restart now a m | _ ↦ m ]

-- The callback of the timer, up to the first await of `connect`.
abbrev pub fire : ℕ → Option ℕ → Manager → Manager
fire now none m = m
fire now (some delay) m = connect now m.last_options (record m { reconnect_timer = none })

unfoldable pub run_event : ConnectionConfig → Event → Manager → Manager
run_event cfg (connect_called now options) m = connect now options m
run_event cfg disconnect_began m = begin_disconnect m
run_event cfg (disconnect_ended now) m = end_disconnect now m
run_event cfg logout_began m = begin_logout m
run_event cfg (logout_ended now) m = (end_logout now m).1
run_event cfg (listener_added id) m = on_socket_change id m
run_event cfg (listener_released id) m = release_listener id m
run_event cfg (auth_was_read g socket registered) m = auth_read g socket registered m
run_event cfg (attempt_was_rejected g) m = attempt_rejected g m
run_event cfg (opened g now own_jid own_lid) m =
    with_attempt (current_attempt g m) (λ a m. (on_open cfg now own_jid own_lid a m).1) m
run_event cfg (closed g now random status flush) m =
    with_attempt (current_attempt g m) (λ a m. (on_close cfg now random status flush a m).1) m
run_event cfg (creds_updated g now written) m =
    with_attempt (heard (find_attempt g m)) (λ a. save_creds now written) m
run_event cfg (restart_ready g now) m = with_attempt (find_attempt g m) (restarted now) m
run_event cfg (timer_fired now) m = fire now m.reconnect_timer m
run_event cfg (reconnect_failed now random) m = schedule_reconnect cfg now random m

unfoldable pub run_events : ConnectionConfig → List Event → Manager → Manager
run_events cfg [] m = m
run_events cfg (e ∷ es) m = run_events cfg es (run_event cfg e m)
