-- ===== src/Connection/Abandon.antt =====
-- What a disconnect leaves behind.
use whatsapp_bot.Connection.Events.{creds_updated}
use whatsapp_bot.Connection.Handlers.{auth_read, find_attempt, is_attempt}
use whatsapp_bot.Connection.Events.{
  Event, current_attempt, run_event, auth_was_read, attempt_was_rejected, with_attempt,
  connect_called, opened, restarted, disconnect_ended, closed, logout_ended, restart_ready,
  listener_added, timer_fired, listener_released, reconnect_failed, disconnect_began, logout_began,
}
use whatsapp_bot.Base.{
  List, ℕ, Bool, ◌≡◌, ◌<◌, ◌≤◌, ==_iff, refl, [], none, some, true, false, inl, inr, ◌∷◌, All,
  find_first, Option-cases, arith, All-mem, All-weaken, Bool-cases, find_first-mem, ◌==◌,
}
use whatsapp_bot.Connection.{
  reading_auth, restarting, Attempt, AttemptPhase, Manager, ConnectionConfig, listening,
  schedule_reconnect, end_disconnect, begin_disconnect, set_state, set_socket,
}

-- The attempts have lower numbers than the next.
pub record IsNumbered (m : Manager) : Type 0 where
  pub numbered : All (λ a. a.generation ≤ m.generation) m.attempts

-- Every attempt has its socket and waits for what the socket reports.
abbrev pub is_listening : AttemptPhase → Bool
is_listening listening = true
is_listening _ = false

abbrev pub AllListening : Manager → Type 0
AllListening m = All (λ a. is_listening a.phase ≡ true) m.attempts

-- The manager is stopped, no timer runs, and no attempt is current.
pub record IsAbandoned (m : Manager) : Type 0 where
  pub stopped : m.stopped ≡ true
  pub no_timer : m.reconnect_timer ≡ none
  pub listening : AllListening m
  pub stale : All (λ a. a.generation < m.generation) m.attempts

-- What the manager's sockets, timers and promises report. It leaves out the rejection of an attempt
-- and the `creds.update` listener, which knows no generation.
unfoldable pub is_report : Event → Bool
is_report (auth_was_read g socket registered) = true
is_report (opened g now own_jid own_lid) = true
is_report (closed g now random status flush) = true
is_report (restart_ready g now) = true
is_report (timer_fired now) = true
is_report (reconnect_failed now random) = true
is_report _ = false

unfoldable pub is_rejection : Event → Bool
is_rejection (attempt_was_rejected g) = true
is_rejection _ = false

pub none_current :
    (g : ℕ) (m : Manager)
    → All (λ a. a.generation < m.generation) m.attempts
    → current_attempt g m ≡ none
unfolding current_attempt find_attempt
none_current g m stale = elim (Bool-cases (g == m.generation)) [
  | inr e ↦ rw e
  | inl e ↦ rw (e, not_found_above m.attempts g m.generation ((==_iff g m.generation).0 e) stale)
]
  where
    not_found_above :
        (attempts : List Attempt) (g top : ℕ)
        → g ≡ top
        → All (λ a. a.generation < top) attempts
        → find_first (is_attempt g) attempts ≡ none
    not_found_above [] g top e h = refl
    not_found_above (a ∷ attempts) g top e h =
        let rest = not_found_above attempts g top e h.1 in let below = h.0 in ground arith

pub found_listening :
    (g : ℕ) (attempts : List Attempt) (a : Attempt)
    → All (λ b. is_listening b.phase ≡ true) attempts
    → find_first (is_attempt g) attempts ≡ some a
    → a.phase ≡ AttemptPhase.listening
found_listening g attempts a h e = only_listening a.phase (
    All-mem (λ b. is_listening b.phase ≡ true) attempts h
      (find_first-mem (is_attempt g) attempts e))
  where
    only_listening : (p : AttemptPhase) → is_listening p ≡ true → p ≡ AttemptPhase.listening
    only_listening reading_auth k = cc
    only_listening AttemptPhase.listening k = refl
    only_listening restarting k = cc

module _ (cfg : ConnectionConfig) (m : Manager) (h : IsAbandoned m) where
  pub auth_read_ignored : (g socket : ℕ) (registered : Bool) → auth_read g socket registered m ≡ m
  unfolding auth_read find_attempt
  auth_read_ignored g socket registered =
      elim (Option-cases (find_first (is_attempt g) m.attempts)) [
        | inl e ↦ rw e
        | inr (a, e) ↦ rw (e, found_listening g m.attempts a h.listening e)
      ]

  pub restart_ignored : (g now : ℕ) → with_attempt (find_attempt g m) (restarted now) m ≡ m
  unfolding find_attempt
  restart_ignored g now = elim (Option-cases (find_first (is_attempt g) m.attempts)) [
    | inl e ↦ rw e
    | inr (a, e) ↦ rw (e, found_listening g m.attempts a h.listening e)
  ]

  pub reconnect_ignored : (now random : ℕ) → schedule_reconnect cfg now random m ≡ m
  unfolding schedule_reconnect
  reconnect_ignored now random = rw (h.no_timer, h.stopped)

  pub report_ignored : (e : Event) → is_report e ≡ true → run_event cfg e m ≡ m
  unfolding is_report run_event
  report_ignored (connect_called now options) k = cc
  report_ignored disconnect_began k = cc
  report_ignored (disconnect_ended now) k = cc
  report_ignored logout_began k = cc
  report_ignored (logout_ended now) k = cc
  report_ignored (listener_added id) k = cc
  report_ignored (listener_released id) k = cc
  report_ignored (auth_was_read g socket registered) k = auth_read_ignored g socket registered
  report_ignored (attempt_was_rejected g) k = cc
  report_ignored (opened g now own_jid own_lid) k = rw (none_current g m h.stale)
  report_ignored (closed g now random status flush) k = rw (none_current g m h.stale)
  report_ignored (restart_ready g now) k = restart_ignored g now
  report_ignored (creds_updated g now written) k = cc
  report_ignored (timer_fired now) k = rw h.no_timer
  report_ignored (reconnect_failed now random) k = reconnect_ignored now random

abbrev pub disconnect : ℕ → Manager → Manager
disconnect now m = end_disconnect now (begin_disconnect m)

pub disconnected-IsAbandoned :
    (now : ℕ) (m : Manager) → IsNumbered m → AllListening m → IsAbandoned (disconnect now m)
unfolding begin_disconnect end_disconnect set_state set_socket
disconnected-IsAbandoned now m h l = record {
  stopped = refl;
  no_timer = refl;
  listening = l;
  stale =
      All-weaken _ _ (λ a k. let k' : a.generation ≤ m.generation = k in omega arith) m.attempts
        h.numbered;
}
