-- ===== src/Connection/Quiet.antt =====
-- The steps that a manager can still make after a disconnect: each leaves it silent.
use whatsapp_bot.Connection.Abandon.{found_listening}
use whatsapp_bot.Db.Exec.{immediate_transaction}
use whatsapp_bot.Db.Auth.{save_credentials}
use whatsapp_bot.Connection.Events.{creds_updated, Event, with_attempt, heard}
use whatsapp_bot.Connection.Handlers.{
  find_attempt, is_attempt, update_attempt, finish_attempt, give_up, attempt_rejected, save_creds,
}
use whatsapp_bot.Connection.Abandon.{IsAbandoned, is_listening}
use whatsapp_bot.Connection.{restarting}
use whatsapp_bot.Connection.{Attempt, Manager, AttemptPhase}
use whatsapp_bot.Db.{AuthCreds}
use whatsapp_bot.Base.{
  refl, [], none, some, true, false, inl, inr, ◌∷◌, List, ℕ, Option, if◌then◌else◌, ◌≡◌, any, map,
  All, ap, Bool-cases, ◌==◌, update_where, Text, ◌∙◌, map-update_where, sym, find_first, arith,
  Option-cases,
}

-- The credentials after a row of events, where `creds` are stored before: those written last by the
-- listener of a socket that was made.
abbrev pub written_last : Manager → List Event → Option AuthCreds → Option AuthCreds
written_last m [] creds = creds
written_last m (creds_updated g now written ∷ es) creds = written_last m es (
    if any (λ a. a.generation == g) m.attempts
    then some (record { value_json = written; updated_at = now })
    else creds)
written_last m (_ ∷ es) creds = written_last m es creds

abbrev pub number : Attempt → ℕ
number a = a.generation

-- `later` is `m` but for the credentials, and for the promises of `connect` that wait.
pub record IsQuiet (creds : Option AuthCreds) (m later : Manager) : Type 0 where
  pub rest : later ≡ record m {
    db = record m.db { auth_creds = creds };
    promise = later.promise;
    attempts = later.attempts;
  }
  pub numbers : map number later.attempts ≡ map number m.attempts

any-number :
    (g : ℕ) (xs : List Attempt)
    → any (λ a. a.generation == g) xs ≡ any (λ n. n == g) (map number xs)
any-number g [] = refl
any-number g (x ∷ xs) = rw (any-number g xs)

any-same_numbers :
    (g : ℕ) (xs ys : List Attempt)
    → map number xs ≡ map number ys
    → any (λ a. a.generation == g) xs ≡ any (λ a. a.generation == g) ys
any-same_numbers g xs ys e = any-number g xs ∙ ap (any (λ n. n == g)) e ∙ sym (any-number g ys)

All-update_where :
    (P : Attempt → Type 0) (g : ℕ) (f : Attempt → Attempt) (xs : List Attempt)
    → ((a : Attempt) → P a → P (f a))
    → All P xs
    → All P (update_where (is_attempt g) f xs)
All-update_where P g f [] k h = tt
All-update_where P g f (x ∷ xs) k h = elim (Bool-cases (is_attempt g x)) [
  | inl e ↦ rw e (k x h.0, All-update_where P g f xs k h.1)
  | inr e ↦ rw e (h.0, All-update_where P g f xs k h.1)
]

-- What a step needs of the manager that it meets.
pub record IsSilent (creds : Option AuthCreds) (m later : Manager) : Type 0 where
  pub quiet : IsQuiet creds m later
  pub abandoned : IsAbandoned later

module _ (m : Manager) where
  -- A change of the attempts that keeps their numbers and phases.
  update_attempt-IsSilent :
      (creds : Option AuthCreds) (later : Manager) (g : ℕ) (f : Attempt → Attempt)
      → ((a : Attempt) → (f a).generation ≡ a.generation)
      → ((a : Attempt) → is_listening a.phase ≡ true → is_listening (f a).phase ≡ true)
      → IsSilent creds m later
      → IsSilent creds m (update_attempt g f later)
  unfolding update_attempt
  update_attempt-IsSilent creds later g f same stays h = record {
    quiet = record {
      rest =
          ap (λ (x : Manager). record x { attempts = update_where (is_attempt g) f later.attempts })
            h.quiet.rest;
      numbers = map-update_where (is_attempt g) f number later.attempts same ∙ h.quiet.numbers;
    };
    abandoned = record {
      stopped = h.abandoned.stopped;
      no_timer = h.abandoned.no_timer;
      listening = All-update_where _ g f later.attempts stays h.abandoned.listening;
      stale = All-update_where _ g f later.attempts (λ a k. rw (same a) k) h.abandoned.stale;
    };
  }

  forgotten-IsSilent :
      (creds : Option AuthCreds) (later : Manager)
      → IsSilent creds m later
      → IsSilent creds m (record later { promise = false })
  forgotten-IsSilent creds later h = record {
    quiet = record {
      rest = ap (λ (x : Manager). record x { promise = false }) h.quiet.rest;
      numbers = h.quiet.numbers;
    };
    abandoned = record {
      stopped = h.abandoned.stopped;
      no_timer = h.abandoned.no_timer;
      listening = h.abandoned.listening;
      stale = h.abandoned.stale;
    };
  }

  finish_attempt-IsSilent :
      (creds : Option AuthCreds) (later : Manager) (a : Attempt)
      → IsSilent creds m later
      → IsSilent creds m (finish_attempt a later)
  unfolding finish_attempt
  finish_attempt-IsSilent creds later a h = elim (Bool-cases a.awaited) [
    | inr e ↦ rw e h
    | inl e ↦ rw e (
        update_attempt-IsSilent creds _ a.generation _ (λ b. refl) (λ b k. k)
          (forgotten-IsSilent creds later h))
  ]

  pub attempt_rejected-IsSilent :
      (creds : Option AuthCreds) (later : Manager) (g : ℕ)
      → IsSilent creds m later
      → IsSilent creds m (attempt_rejected g later)
  unfolding attempt_rejected
  attempt_rejected-IsSilent creds later g h = by_attempt (find_attempt g later)
    where
      stays :
          (p : AttemptPhase)
          → is_listening p ≡ true
          → is_listening (elim p [ restarting ↦ restarting | _ ↦ AttemptPhase.listening ]) ≡ true
      stays AttemptPhase.listening k = refl
      stays AttemptPhase.reading_auth k = refl
      stays AttemptPhase.restarting k = k

      by_attempt :
          (o : Option Attempt)
          → IsSilent creds m
              (elim o [ none ↦ later | some a ↦ finish_attempt a (update_attempt g give_up later) ])
      by_attempt none = h
      by_attempt (some a) =
          finish_attempt-IsSilent creds _ a
            (update_attempt-IsSilent creds later g give_up (λ b. refl) (λ b. stays b.phase) h)

  save_creds-IsSilent :
      (creds : Option AuthCreds) (later : Manager) (now : ℕ) (written : Text)
      → IsSilent creds m later
      → IsSilent
          (some (record { value_json = written; updated_at = now }))
          m
          (save_creds now written later)
  unfolding save_creds save_credentials immediate_transaction
  save_creds-IsSilent creds later now written h = record {
    quiet = record {
      rest =
          ap
            (λ (x : Manager). record x {
              db = record x.db {
                auth_creds = some (record { value_json = written; updated_at = now });
              };
            })
            h.quiet.rest;
      numbers = h.quiet.numbers;
    };
    abandoned = record {
      stopped = h.abandoned.stopped;
      no_timer = h.abandoned.no_timer;
      listening = h.abandoned.listening;
      stale = h.abandoned.stale;
    };
  }

  any_attempt :
      (g : ℕ) (xs : List Attempt) (a : Attempt)
      → find_first (is_attempt g) xs ≡ some a
      → any (λ b. b.generation == g) xs ≡ true
  any_attempt g [] a h = cc
  any_attempt g (x ∷ xs) a h = ground (arith, any_attempt g xs a)

  no_attempt :
      (g : ℕ) (xs : List Attempt)
      → find_first (is_attempt g) xs ≡ none
      → any (λ b. b.generation == g) xs ≡ false
  no_attempt g [] h = refl
  no_attempt g (x ∷ xs) h = ground (arith, no_attempt g xs)

  pub creds_updated-IsSilent :
      (creds : Option AuthCreds) (later : Manager) (g now : ℕ) (written : Text)
      → IsSilent creds m later
      → IsSilent
          (written_last m (creds_updated g now written ∷ []) creds)
          m
          (with_attempt (heard (find_attempt g later)) (λ a. save_creds now written) later)
  unfolding find_attempt
  creds_updated-IsSilent creds later g now written h =
      let same = any-same_numbers g later.attempts m.attempts h.quiet.numbers in
      elim (Option-cases (find_first (is_attempt g) later.attempts)) [
        | inl e ↦ rw (e, ← same, no_attempt g later.attempts e) h
        | inr (a, e) ↦
            rw
              (
                e,
                found_listening g later.attempts a h.abandoned.listening e,
                ← same,
                any_attempt g later.attempts a e,
              )
              (save_creds-IsSilent creds later now written h)
      ]
