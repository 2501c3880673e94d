-- ===== src/Connection/Sound.antt =====
-- What holds of the connection manager after every event.
use whatsapp_bot.Db.Auth.{clear, save_credentials}
use whatsapp_bot.Retry.Bounds.{retry_delay_ms_bounds}
use whatsapp_bot.Db.State.Refines.{get-set}
use whatsapp_bot.Retry.{resolution}
use whatsapp_bot.Connection.Handlers.{update_attempt, finish_attempt, is_attempt}
use whatsapp_bot.Base.{
  List, Option, ℕ, Bool, ◌≡◌, ◌<◌, ◌≤◌, map, max, refl, [], none, some, true, false, inl, inr, suc,
  ◌∷◌, ◌*◌, ltb, All, Bool-cases, String, ◌+◌, select, update_where, All-append_one, is_some,
  All-weaken, ◌||◌, arith, Text,
}
use whatsapp_bot.Db.{Db, StateKey, EventType, Details, same_key}
use whatsapp_bot.Db.State.{get}
use whatsapp_bot.Db.Audit.{add, insert_audit}
use whatsapp_bot.Db.Exec.{immediate_transaction}
use whatsapp_bot.Connection.{
  Attempt, Manager, ConnectionConfig, connect, ConnectOptions, ConnectionState, state_word,
  SocketListener, set_state, set_socket, schedule_reconnect, create_socket, is_connected,
}
use whatsapp_bot.Connection.Events.{closed, reconnect_failed, Event}

abbrev pub TimerWithin : ConnectionConfig → Option ℕ → Type 0
TimerWithin cfg none = Unit
TimerWithin cfg (some delay) = (100 ≤ delay) × (10 * delay ≤ max 1000 (12 * cfg.retry_max_ms + 5))

-- The database has the word of the state; every listener knows the socket; the attempts have
-- numbers that were given; a delay lies within the bounds of the configuration.
pub record IsSound (cfg : ConnectionConfig) (m : Manager) : Type 0 where
  pub mirrored : get StateKey.connectivity m.db ≡ some (state_word m.state_value)
  pub told : All (λ l. l.told ≡ m.socket) m.socket_listeners
  pub numbered : All (λ a. a.generation ≤ m.generation) m.attempts
  pub timer : TimerWithin cfg m.reconnect_timer

-- The random numbers are fractions of one.
unfoldable pub is_fair : Event → Bool
is_fair (closed g now random status flush) = ltb random resolution
is_fair (reconnect_failed now random) = ltb random resolution
is_fair _ = true

told_map :
    (listeners : List SocketListener) (socket : Option ℕ)
    → All {A = SocketListener}
        (λ l. l.told ≡ socket)
        (map (λ l. record { id = l.id; told = socket }) listeners)
told_map [] socket = tt
told_map (l ∷ ls) socket = (refl, told_map ls socket)

pub All-select :
    (P : SocketListener → Type 0) (p : SocketListener → Bool) (xs : List SocketListener)
    → All P xs
    → All P (select p xs)
All-select P p [] h = tt
All-select P p (x ∷ xs) h = elim (Bool-cases (p x)) [
  | inl e ↦ rw e (h.0, All-select P p xs h.1)
  | inr e ↦ rw e (All-select P p xs h.1)
]

numbered-update :
    (top g : ℕ) (f : Attempt → Attempt) (xs : List Attempt)
    → ((a : Attempt) → (f a).generation ≡ a.generation)
    → All (λ a. a.generation ≤ top) xs
    → All (λ a. a.generation ≤ top) (update_where (is_attempt g) f xs)
numbered-update top g f [] k h = tt
numbered-update top g f (x ∷ xs) k h = elim (Bool-cases (is_attempt g x)) [
  | inl e ↦ rw e (rw (k x) h.0, numbered-update top g f xs k h.1)
  | inr e ↦ rw e (h.0, numbered-update top g f xs k h.1)
]

pub audited :
    (now : ℕ) (event : EventType) (actor : String) (details : Option Details) (db : Db)
    → get StateKey.connectivity (add now event actor none none details db).1
      ≡ get StateKey.connectivity db
unfolding get add immediate_transaction insert_audit
audited now event actor details db = refl

pub cleared : (db : Db) → get StateKey.connectivity (clear db).1 ≡ get StateKey.connectivity db
unfolding get clear immediate_transaction
cleared db = refl

pub saved :
    (now : ℕ) (written : Text) (db : Db)
    → get StateKey.connectivity (save_credentials now written db).1 ≡ get StateKey.connectivity db
unfolding get save_credentials immediate_transaction
saved now written db = refl

module _ (cfg : ConnectionConfig) where
  unfoldable pub Kept : Manager → Manager → Type 0
  Kept m m' = IsSound cfg m → IsSound cfg m'

  pub set_state_sound :
      (now : ℕ) (state : ConnectionState) (m : Manager) → Kept m (set_state now state m)
  unfolding Kept set_state same_key
  set_state_sound now state m h = record {
    mirrored = get-set now StateKey.connectivity (state_word state) StateKey.connectivity m.db;
    told = h.told;
    numbered = h.numbered;
    timer = h.timer;
  }

  pub set_socket_sound : (socket : Option ℕ) (m : Manager) → Kept m (set_socket socket m)
  unfolding Kept set_socket
  set_socket_sound socket m h = record {
    mirrored = h.mirrored;
    told = told_map m.socket_listeners socket;
    numbered = h.numbered;
    timer = h.timer;
  }

  pub update_attempt_sound :
      (g : ℕ) (f : Attempt → Attempt) (m : Manager)
      → ((a : Attempt) → (f a).generation ≡ a.generation)
      → Kept m (update_attempt g f m)
  unfolding Kept update_attempt
  update_attempt_sound g f m k h = record {
    mirrored = h.mirrored;
    told = h.told;
    numbered = numbered-update m.generation g f m.attempts k h.numbered;
    timer = h.timer;
  }

  pub finish_attempt_sound : (a : Attempt) (m : Manager) → Kept m (finish_attempt a m)
  unfolding Kept finish_attempt
  finish_attempt_sound a m h = elim (Bool-cases a.awaited) [
    | inr e ↦ rw e h
    | inl e ↦ rw e (
        update_attempt_sound a.generation _ (record m { promise = false }) (λ b. refl)
          (record { mirrored = h.mirrored; told = h.told; numbered = h.numbered; timer = h.timer }))
  ]

  pub schedule_reconnect_sound :
      (now random : ℕ) (m : Manager)
      → ltb random resolution ≡ true
      → Kept m (schedule_reconnect cfg now random m)
  unfolding Kept schedule_reconnect
  schedule_reconnect_sound now random m r h =
      elim (Bool-cases (is_some m.reconnect_timer || m.stopped)) [
        | inl e ↦ rw e h
        | inr e ↦ rw e (
            set_state_sound now ConnectionState.reconnecting _ (record {
              mirrored = h.mirrored;
              told = h.told;
              numbered = h.numbered;
              timer =
                  let below : random < resolution = ground arith in
                  let (low, _, _, high) =
                    retry_delay_ms_bounds (suc m.reconnect_attempt) cfg.retry_base_ms
                      cfg.retry_max_ms random below in
                  (low, high);
            }))
      ]

  pub create_socket_sound :
      (now : ℕ) (options : ConnectOptions) (restarts : ℕ) (awaited : Bool) (m : Manager)
      → Kept m (create_socket now options restarts awaited m)
  unfolding Kept create_socket
  create_socket_sound now options restarts awaited m h = set_state_sound now _ _ (record {
    mirrored = h.mirrored;
    told = h.told;
    numbered =
        All-append_one _ m.attempts
          (All-weaken _ _ (λ a k. let k' : a.generation ≤ m.generation = k in omega arith)
            m.attempts h.numbered)
          (omega arith);
    timer = h.timer;
  })

  pub connect_sound :
      (now : ℕ) (options : ConnectOptions) (m : Manager) → Kept m (connect now options m)
  unfolding Kept connect
  connect_sound now options m h = elim (Bool-cases (is_connected m || m.promise)) [
    | inl e ↦ rw e h
    | inr e ↦ rw e (
        create_socket_sound now options 0 true _
          (record { mirrored = h.mirrored; told = h.told; numbered = h.numbered; timer = h.timer }))
  ]

  pub use-Kept : {m m' : Manager} → Kept m m' → IsSound cfg m → IsSound cfg m'
  unfolding Kept
  use-Kept k = k
