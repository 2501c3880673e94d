-- ===== src/Connection/Blocked.antt =====
-- What becomes of a `connect` that a disconnect has overtaken.
use whatsapp_bot.Connection.Handlers.{save_creds, find_attempt}
use whatsapp_bot.Connection.Events.{creds_updated, heard, with_attempt}
use whatsapp_bot.Connection.Events.{
  connect_called, disconnect_began, disconnect_ended, logout_began, logout_ended, listener_added,
  listener_released, auth_was_read, attempt_was_rejected, opened, closed, restart_ready,
  timer_fired, reconnect_failed, run_event, run_events, Event,
}
use whatsapp_bot.Base.{
  List, ℕ, ◌≡◌, ◌<◌, ◌≤◌, sym, ◌∙◌, subst, refl, [], none, true, false, inl, inr, ◌∷◌, arith,
  Bool-cases, All, All-weaken, some, Text, Option,
}
use whatsapp_bot.Db.State.{set, remove}
use whatsapp_bot.Db.Auth.{clear}
use whatsapp_bot.Db.Audit.{add, insert_audit}
use whatsapp_bot.Db.Exec.{◌>>=◌, immediate_transaction}
use whatsapp_bot.Connection.{
  Attempt, Manager, ConnectionConfig, connect, ConnectOptions, end_logout, begin_disconnect,
  set_socket, is_connected, end_disconnect, set_state, begin_logout, on_socket_change,
  release_listener,
}
use whatsapp_bot.Connection.Abandon.{
  disconnect, IsAbandoned, is_rejection, is_report, IsNumbered, AllListening,
  disconnected-IsAbandoned, report_ignored,
}

record IsStuck (attempts : List Attempt) (m : Manager) : Type 0 where
  abandoned : IsAbandoned m
  promise : m.promise ≡ true
  same : m.attempts ≡ attempts

-- A state that differs in what the promise and the attempts do not depend on.
record SameSetup (m m' : Manager) : Type 0 where
  stopped : m'.stopped ≡ true
  timer : m'.reconnect_timer ≡ none
  promise : m'.promise ≡ m.promise
  attempts : m'.attempts ≡ m.attempts
  generation : m.generation ≤ m'.generation

SameSetup-IsStuck :
    (attempts : List Attempt) (m m' : Manager)
    → SameSetup m m'
    → IsStuck attempts m
    → IsStuck attempts m'
SameSetup-IsStuck attempts m m' s h = record {
  abandoned = record {
    stopped = s.stopped;
    no_timer = s.timer;
    listening = rw s.attempts h.abandoned.listening;
    stale =
        subst (λ xs. All (λ a. a.generation < m'.generation) xs) (sym s.attempts)
          (All-weaken _ _ (λ a k. raised a.generation m.generation m'.generation k s.generation)
            m.attempts h.abandoned.stale);
  };
  promise = s.promise ∙ h.promise;
  same = s.attempts ∙ h.same;
}
  where
    raised : (a b c : ℕ) → a < b → b ≤ c → a < c
    raised a b c h k = omega arith

-- The fields of the setup, which the calls on the database do not touch.
SameSetup-logout :
    (now : ℕ) (m : Manager)
    → m.reconnect_timer ≡ none
    → m.stopped ≡ true
    → SameSetup m (end_logout now m).1
unfolding end_logout ◌>>=◌ set_socket set_state clear add insert_audit immediate_transaction remove
    set
SameSetup-logout now m h k = record {
  stopped = k;
  timer = h;
  promise = refl;
  attempts = refl;
  generation = omega arith;
}

connect_refused :
    (now : ℕ) (options : ConnectOptions) (m : Manager)
    → m.promise ≡ true
    → connect now options m ≡ m
unfolding connect
connect_refused now options m h = elim (Bool-cases (is_connected m)) [
  | inl e ↦ rw e
  | inr e ↦ rw (e, h)
]

report-IsStuck :
    (cfg : ConnectionConfig) (e : Event) (attempts : List Attempt) (m : Manager)
    → is_report e ≡ true
    → IsStuck attempts m
    → IsStuck attempts (run_event cfg e m)
report-IsStuck cfg e attempts m k h =
    subst (IsStuck attempts) (sym (report_ignored cfg m h.abandoned e k)) h

saved-IsStuck :
    (now : ℕ) (written : Text) (attempts : List Attempt) (found : Option Attempt) (m : Manager)
    → IsStuck attempts m
    → IsStuck attempts (with_attempt found (λ a. save_creds now written) m)
unfolding save_creds
saved-IsStuck now written attempts none m h = h
saved-IsStuck now written attempts (some a) m h =
    SameSetup-IsStuck attempts m _
      (record {
        stopped = h.abandoned.stopped;
        timer = h.abandoned.no_timer;
        promise = refl;
        attempts = refl;
        generation = omega arith;
      })
      h

event-IsStuck :
    (cfg : ConnectionConfig) (e : Event) (attempts : List Attempt) (m : Manager)
    → is_rejection e ≡ false
    → IsStuck attempts m
    → IsStuck attempts (run_event cfg e m)
unfolding run_event is_rejection is_report begin_disconnect end_disconnect set_socket set_state
    begin_logout on_socket_change release_listener
event-IsStuck cfg (connect_called now options) attempts m k h =
    rw (connect_refused now options m h.promise) h
event-IsStuck cfg disconnect_began attempts m k h =
    SameSetup-IsStuck attempts m _
      (record {
        stopped = refl;
        timer = refl;
        promise = refl;
        attempts = refl;
        generation = omega arith;
      })
      h
event-IsStuck cfg (disconnect_ended now) attempts m k h =
    SameSetup-IsStuck attempts m _
      (record {
        stopped = h.abandoned.stopped;
        timer = h.abandoned.no_timer;
        promise = refl;
        attempts = refl;
        generation = omega arith;
      })
      h
event-IsStuck cfg logout_began attempts m k h =
    SameSetup-IsStuck attempts m _
      (record {
        stopped = refl;
        timer = h.abandoned.no_timer;
        promise = refl;
        attempts = refl;
        generation = omega arith;
      })
      h
event-IsStuck cfg (logout_ended now) attempts m k h =
    SameSetup-IsStuck attempts m _ (SameSetup-logout now m h.abandoned.no_timer h.abandoned.stopped)
      h
event-IsStuck cfg (listener_added id) attempts m k h =
    SameSetup-IsStuck attempts m _
      (record {
        stopped = h.abandoned.stopped;
        timer = h.abandoned.no_timer;
        promise = refl;
        attempts = refl;
        generation = omega arith;
      })
      h
event-IsStuck cfg (listener_released id) attempts m k h =
    SameSetup-IsStuck attempts m _
      (record {
        stopped = h.abandoned.stopped;
        timer = h.abandoned.no_timer;
        promise = refl;
        attempts = refl;
        generation = omega arith;
      })
      h
event-IsStuck cfg (attempt_was_rejected g) attempts m k h = cc
event-IsStuck cfg (auth_was_read g socket registered) attempts m k h =
    report-IsStuck cfg (auth_was_read g socket registered) attempts m refl h
event-IsStuck cfg (opened g now own_jid own_lid) attempts m k h =
    report-IsStuck cfg (opened g now own_jid own_lid) attempts m refl h
event-IsStuck cfg (closed g now random status flush) attempts m k h =
    report-IsStuck cfg (closed g now random status flush) attempts m refl h
event-IsStuck cfg (restart_ready g now) attempts m k h =
    report-IsStuck cfg (restart_ready g now) attempts m refl h
event-IsStuck cfg (creds_updated g now written) attempts m k h =
    saved-IsStuck now written attempts (heard (find_attempt g m)) m h
event-IsStuck cfg (timer_fired now) attempts m k h =
    report-IsStuck cfg (timer_fired now) attempts m refl h
event-IsStuck cfg (reconnect_failed now random) attempts m k h =
    report-IsStuck cfg (reconnect_failed now random) attempts m refl h

events-IsStuck :
    (cfg : ConnectionConfig) (events : List Event) (attempts : List Attempt) (m : Manager)
    → All (λ e. is_rejection e ≡ false) events
    → IsStuck attempts m
    → IsStuck attempts (run_events cfg events m)
unfolding run_events
events-IsStuck cfg [] attempts m k h = h
events-IsStuck cfg (e ∷ es) attempts m k h =
    events-IsStuck cfg es attempts (run_event cfg e m) k.1 (event-IsStuck cfg e attempts m k.0 h)

-- When `disconnect` overtakes a `connect` that waits for its socket to open, every later sequence of
-- calls and reports, save the rejection of an attempt, leaves `connectPromise` set and makes no
-- attempt: each later `connect` waits for the promise that nothing settles.
pub overtaken_connect_blocks :
    (cfg : ConnectionConfig) (now : ℕ) (m : Manager) (events : List Event)
    → IsNumbered m
    → AllListening m
    → m.promise ≡ true
    → All (λ e. is_rejection e ≡ false) events
    → let later = run_events cfg events (disconnect now m) in
      (later.promise ≡ true) × (later.attempts ≡ m.attempts)
unfolding begin_disconnect end_disconnect set_state set_socket
overtaken_connect_blocks cfg now m events h l p k =
    let stuck =
      events-IsStuck cfg events m.attempts (disconnect now m) k
        (record { abandoned = disconnected-IsAbandoned now m h l; promise = p; same = refl }) in
    (stuck.promise, stuck.same)
