-- ===== src/Connection/Invariant.antt =====
-- The invariant of the connection manager, over all sequences of events.
use whatsapp_bot.Connection.Events.{creds_updated, heard}
use whatsapp_bot.Connection.Keeps.{
  install_socket_sound, restart_sound, end_logout_sound, on_open_sound, on_close_sound,
  save_creds_sound,
}
use whatsapp_bot.Connection.Sound.{
  IsSound, is_fair, use-Kept, finish_attempt_sound, connect_sound, update_attempt_sound,
  set_socket_sound, set_state_sound, All-select, schedule_reconnect_sound,
}
use whatsapp_bot.Connection.Handlers.{
  auth_read, attempt_rejected, install_socket, finish_attempt, unusable_phone, update_attempt,
  restart, auth_read_by, find_attempt, give_up,
}
use whatsapp_bot.Base.{
  refl, [], none, some, true, ◌∷◌, Option, ℕ, Bool, List, All, ◌≡◌, All-append_one, All-weaken, ◌≤◌,
  arith,
}
use whatsapp_bot.Connection.{
  Attempt, Manager, ConnectionConfig, AttemptPhase, reading_auth, restarting, begin_disconnect,
  end_disconnect, begin_logout, on_socket_change, release_listener, set_socket,
}
use whatsapp_bot.Connection.Events.{
  connect_called, disconnect_began, disconnect_ended, logout_began, logout_ended, listener_added,
  listener_released, auth_was_read, attempt_was_rejected, opened, closed, restart_ready,
  timer_fired, reconnect_failed, Event, run_event, run_events, with_attempt, restarted, fire,
  current_attempt,
}

module _ (cfg : ConnectionConfig) where
  auth_read-IsSound :
      (g socket : ℕ) (registered : Bool) (m : Manager)
      → IsSound cfg m
      → IsSound cfg (auth_read g socket registered m)
  unfolding auth_read
  auth_read-IsSound g socket registered m h = by_attempt (find_attempt g m)
    where
      by_phase :
          (a : Attempt) (p : AttemptPhase)
          → IsSound cfg (elim p [
            | reading_auth ↦
                install_socket socket (unusable_phone registered a.options.pairing_phone) a m
            | _ ↦ m
          ])
      by_phase a reading_auth = use-Kept cfg (install_socket_sound cfg socket _ a m) h
      by_phase a AttemptPhase.listening = h
      by_phase a restarting = h

      by_attempt : (o : Option Attempt) → IsSound cfg (auth_read_by socket registered o m)
      by_attempt none = h
      by_attempt (some a) = by_phase a a.phase

  attempt_rejected-IsSound :
      (g : ℕ) (m : Manager) → IsSound cfg m → IsSound cfg (attempt_rejected g m)
  unfolding attempt_rejected
  attempt_rejected-IsSound g m h = by_attempt (find_attempt g m)
    where
      by_attempt :
          (o : Option Attempt)
          → IsSound cfg
              (elim o [ none ↦ m | some a ↦ finish_attempt a (update_attempt g give_up m) ])
      by_attempt none = h
      by_attempt (some a) =
          use-Kept cfg (finish_attempt_sound cfg a _)
            (use-Kept cfg (update_attempt_sound cfg g _ m (λ b. refl)) h)

  with_attempt-IsSound :
      (o : Option Attempt) (f : Attempt → Manager → Manager) (m : Manager)
      → ((a : Attempt) → IsSound cfg m → IsSound cfg (f a m))
      → IsSound cfg m
      → IsSound cfg (with_attempt o f m)
  with_attempt-IsSound none f m k h = h
  with_attempt-IsSound (some a) f m k h = k a h

  restarted-IsSound :
      (now : ℕ) (m : Manager) (a : Attempt) → IsSound cfg m → IsSound cfg (restarted now a m)
  restarted-IsSound now m a h = by_phase a.phase
    where
      by_phase : (p : AttemptPhase) → IsSound cfg (elim p [ restarting ↦ restart now a m | _ ↦ m ])
      by_phase reading_auth = h
      by_phase AttemptPhase.listening = h
      by_phase restarting = use-Kept cfg (restart_sound cfg now a m) h

  fire-IsSound :
      (now : ℕ) (timer : Option ℕ) (m : Manager) → IsSound cfg m → IsSound cfg (fire now timer m)
  fire-IsSound now none m h = h
  fire-IsSound now (some delay) m h =
      use-Kept cfg (connect_sound cfg now m.last_options _)
        (record { mirrored = h.mirrored; told = h.told; numbered = h.numbered; timer = tt })

  event-IsSound :
      (e : Event) (m : Manager) → is_fair e ≡ true → IsSound cfg m → IsSound cfg (run_event cfg e m)
  unfolding run_event is_fair set_socket begin_disconnect end_disconnect begin_logout
      on_socket_change release_listener
  event-IsSound (connect_called now options) m r h =
      use-Kept cfg (connect_sound cfg now options m) h
  event-IsSound disconnect_began m r h =
      let cleared_timer = record m { stopped = true; reconnect_timer = none } in
      let s =
        use-Kept cfg (set_socket_sound cfg none cleared_timer)
          (record { mirrored = h.mirrored; told = h.told; numbered = h.numbered; timer = tt }) in
      record {
        mirrored = s.mirrored;
        told = s.told;
        numbered =
            All-weaken _ _ (λ a k. let k' : a.generation ≤ m.generation = k in omega arith)
              m.attempts h.numbered;
        timer = tt;
      }
  event-IsSound (disconnect_ended now) m r h = use-Kept cfg (set_state_sound cfg now _ m) h
  event-IsSound logout_began m r h = record {
    mirrored = h.mirrored;
    told = h.told;
    numbered = h.numbered;
    timer = h.timer;
  }
  event-IsSound (logout_ended now) m r h = use-Kept cfg (end_logout_sound cfg now m) h
  event-IsSound (listener_added id) m r h = record {
    mirrored = h.mirrored;
    told = All-append_one _ m.socket_listeners h.told refl;
    numbered = h.numbered;
    timer = h.timer;
  }
  event-IsSound (listener_released id) m r h = record {
    mirrored = h.mirrored;
    told = All-select _ _ m.socket_listeners h.told;
    numbered = h.numbered;
    timer = h.timer;
  }
  event-IsSound (auth_was_read g socket registered) m r h =
      auth_read-IsSound g socket registered m h
  event-IsSound (attempt_was_rejected g) m r h = attempt_rejected-IsSound g m h
  event-IsSound (opened g now own_jid own_lid) m r h =
      with_attempt-IsSound (current_attempt g m) _ m
        (λ a. use-Kept cfg (on_open_sound cfg now own_jid own_lid a m)) h
  event-IsSound (creds_updated g now written) m r h =
      with_attempt-IsSound (heard (find_attempt g m)) _ m
        (λ a. use-Kept cfg (save_creds_sound cfg now written m)) h
  event-IsSound (closed g now random status flush) m r h =
      with_attempt-IsSound (current_attempt g m) _ m
        (λ a. use-Kept cfg (on_close_sound cfg now random status flush a m r)) h
  event-IsSound (restart_ready g now) m r h =
      with_attempt-IsSound (find_attempt g m) _ m (restarted-IsSound now m) h
  event-IsSound (timer_fired now) m r h = fire-IsSound now m.reconnect_timer m h
  event-IsSound (reconnect_failed now random) m r h =
      use-Kept cfg (schedule_reconnect_sound cfg now random m r) h

  -- Whatever calls and reports come, in whatever order, the word in `connectivity` is that of the
  -- manager's state, every listener has been told the present socket, attempts have numbers that
  -- were given, and the delay of a reconnect is at least 100 ms and at most 1.2 times the configured
  -- maximum, or 100 ms; if that held at the start and random numbers are below one.
  pub events-IsSound :
      (events : List Event) (m : Manager)
      → All (λ e. is_fair e ≡ true) events
      → IsSound cfg m
      → IsSound cfg (run_events cfg events m)
  unfolding run_events
  events-IsSound [] m r h = h
  events-IsSound (e ∷ es) m r h =
      events-IsSound es (run_event cfg e m) r.1 (event-IsSound e m r.0 h)
