-- ===== src/Commands/Settling.antt =====
-- The parts of a run of the executor: the refresh of the groups, the time of a schedule, and what is
-- returned within the `try`.
use whatsapp_bot.Destinations.Moves.{synchronize-SoundAt}
use whatsapp_bot.Messages.Moves.{
  SoundStoreAt, throw-SoundStoreAt, bind_store, found_store, in_db-SoundStoreAt,
}
use whatsapp_bot.Jobs.Evolution.{SoundAt, Sound-refl, Sound}
use whatsapp_bot.Messages.{Store}
use whatsapp_bot.Targets.{JidCodec}
use whatsapp_bot.Db.{Db}
use whatsapp_bot.Commands.Refresh.{refresh, refresh_from, GroupSocket}
use whatsapp_bot.Commands.Schedule.{parse_schedule, in_future, names_zone}
use whatsapp_bot.Base.{none, some, inl, inr, ℕ, Option, Text, String, List, Bool-cases, leb}
use whatsapp_bot.Commands.Run.{value, promise, Returned, Reply, replies, failure_reply}
use whatsapp_bot.Db.Exec.{ok, err, Result, ◌>>=◌, catch_error, Exec, pure, continue, handle}

in_future-SoundAt : (now : ℕ) (at : Option ℕ) (db : Db) → SoundAt (in_future now at) db
in_future-SoundAt now none db = record { at = Sound-refl db }
in_future-SoundAt now (some at) db = elim (Bool-cases (leb at now)) [
  | inl e ↦ rw e (record { at = Sound-refl db })
  | inr e ↦ rw e (record { at = Sound-refl db })
]

pub parse_schedule-SoundAt :
    (read_date : Text → Option ℕ) (now : ℕ) (written : Text) (db : Db)
    → SoundAt (parse_schedule read_date now written) db
unfolding parse_schedule
parse_schedule-SoundAt read_date now written db = elim (Bool-cases (names_zone written)) [
  | inl e ↦ rw e (in_future-SoundAt now (read_date written) db)
  | inr e ↦ rw e (record { at = Sound-refl db })
]

-- What other tasks do while the groups are fetched keeps the queue in order.
abbrev pub FetchIsSound : Option GroupSocket → Type 0
FetchIsSound none = Unit
FetchIsSound (some socket) = (s : Store) → Sound s.db (socket.fetch_all s).1.db

pub refresh-SoundStoreAt :
    (codec : JidCodec) (now : ℕ) (actor : String) (socket : Option GroupSocket)
    → FetchIsSound socket
    → (s : Store) → SoundStoreAt (refresh codec now actor socket) s
unfolding refresh refresh_from
refresh-SoundStoreAt codec now actor none fetch_sound s = throw-SoundStoreAt _ s
refresh-SoundStoreAt codec now actor (some socket) fetch_sound s =
    bind_store _ _ s (record { at = fetch_sound s })
      (λ found_groups _.
        found_store _ _ _ _
          (λ discovered _. in_db-SoundStoreAt _ _ (synchronize-SoundAt now discovered actor _)))

-- What was returned within the `try` is a reply, or a promise that is sound.
abbrev pub Settles : Result Returned → Type 0
Settles (err e) = Unit
Settles (ok (value reply)) = Unit
Settles (ok (promise m)) = (t : Store) → SoundStoreAt m t

pub replies-Settles :
    {A : Type 0} (m : Exec Store A) (say : A → Reply) (s : Store) → Settles (replies m say s).0
unfolding ◌>>=◌
replies-Settles {A = A} m say s = by_result (m s).0
  where
    by_result : (r : Result A) → Settles (continue r (λ a. pure (value (say a))) (m s).1).0
    by_result (ok a) = tt
    by_result (err e) = tt

pub caught-Settles :
    (m : Exec Store Returned) (parts : List Text) (s : Store)
    → Settles (m s).0
    → Settles (catch_error m (λ e. pure (value (failure_reply parts))) s).0
unfolding catch_error
caught-Settles m parts s = by_result (m s).0
  where
    by_result :
        (r : Result Returned)
        → Settles r
        → Settles (handle r (λ e. pure (value (failure_reply parts))) (m s).1).0
    by_result (ok returned_one) h = h
    by_result (err e) h = tt
