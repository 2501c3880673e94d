-- ===== src/Destinations/Moves.antt =====
-- The operations on destinations touch the queue only by cancelling unsent jobs.
use whatsapp_bot.Destinations.Alias.{write_alias, set_alias}
use whatsapp_bot.Domain.Jobs.Graph.{⟶-⟶*}
use whatsapp_bot.Jobs.Rows.{update_jobs}
use whatsapp_bot.Db.Exec.{modify}
use whatsapp_bot.Jobs.Rules.{returned, transaction, got, bind, found, read, guarded}
use whatsapp_bot.Jobs.Evolution.{
  SoundAt, Sound-of_same_jobs, insert_audit-SoundAt, update_jobs-SoundAt,
}
use whatsapp_bot.Domain.Queue.{QueueJob}
use whatsapp_bot.Domain.Groups.{Destination, DiscoveredDestination}
use whatsapp_bot.Db.{Db}
use whatsapp_bot.Destinations.{
  cancel_unless, update_destination, set_can_send, write_enabled, set_enabled, synchronize,
  is_unsent_for, cancelled_for, upsert_all,
}
use whatsapp_bot.Domain.Jobs.{is_unsent, may_become}
use whatsapp_bot.Base.{refl, true, false, Text, ℕ, List, String, Bool, ◌≡◌, &&-both, arith, Option}

unsent_cancel-SoundAt :
    (now : ℕ) (message : String) (p : QueueJob → Bool) (db : Db)
    → ((row : QueueJob) → p row ≡ true → is_unsent row.status ≡ true)
    → SoundAt (update_jobs p (cancelled_for now message)) db
unfolding is_unsent may_become
unsent_cancel-SoundAt now message p db unsent =
    update_jobs-SoundAt _ _ db (λ row. refl) (λ row. refl)
      (λ v row i h. record { request = ground arith; path = ⟶-⟶* (ground (arith, unsent row h)) })

cancel_unless-SoundAt :
    (keep : Bool) (now : ℕ) (jid : Text) (message : String) (db : Db)
    → SoundAt (cancel_unless keep now jid message) db
unfolding cancel_unless is_unsent_for
cancel_unless-SoundAt true now jid message db = returned 0 db
cancel_unless-SoundAt false now jid message db =
    unsent_cancel-SoundAt now message _ db (λ row h. (&&-both _ _ h).1)

update_destination-SoundAt :
    (jid : Text) (f : Destination → Destination) (db : Db) → SoundAt (update_destination jid f) db
unfolding update_destination
update_destination-SoundAt jid f db = record { at = Sound-of_same_jobs db _ refl refl }

pub set_can_send-SoundAt :
    (now : ℕ) (jid : Text) (can_send : Bool) (db : Db) → SoundAt (set_can_send now jid can_send) db
unfolding set_can_send
set_can_send-SoundAt now jid can_send db = transaction _ db (
    bind _ _ db (update_destination-SoundAt jid _ db)
      (λ _ _. bind _ _ _ (cancel_unless-SoundAt can_send now jid _ _) (λ _ _. returned tt _)))

write_enabled-SoundAt :
    (now : ℕ) (jid : Text) (enabled : Bool) (actor : String) (db : Db)
    → SoundAt (write_enabled now jid enabled actor) db
unfolding write_enabled
write_enabled-SoundAt now jid enabled actor db = transaction _ db (
    bind _ _ db (update_destination-SoundAt jid _ db) (λ _ _.
      bind _ _ _ (cancel_unless-SoundAt enabled now jid _ _)
        (λ _ _. insert_audit-SoundAt _ _ _ _ _ _ _)))

pub set_enabled-SoundAt :
    (now : ℕ) (reference : Text) (enabled : Bool) (actor : String) (db : Db)
    → SoundAt (set_enabled now reference enabled actor) db
unfolding set_enabled
set_enabled-SoundAt now reference enabled actor db = got _ _ db (
    found _ _ _ db (λ d e.
      bind _ _ db (write_enabled-SoundAt now d.jid enabled actor db)
        (λ _ _. got _ _ _ (read _ _ _))))

store_destinations-SoundAt :
    (g : Db → List Destination) (db : Db) → SoundAt (modify λ s. record s { destinations = g s }) db
store_destinations-SoundAt g db = record { at = Sound-of_same_jobs db _ refl refl }

pub synchronize-SoundAt :
    (now : ℕ) (items : List DiscoveredDestination) (actor : String) (db : Db)
    → SoundAt (synchronize now items actor) db
unfolding synchronize
synchronize-SoundAt now items actor db = transaction _ db (
    bind _ _ db (store_destinations-SoundAt (λ s. upsert_all now items s.destinations) db) (λ _ _.
      got _ _ _ (
        bind _ _ _ (unsent_cancel-SoundAt now _ _ _ (λ row h. (&&-both _ _ h).0))
          (λ _ _. bind _ _ _ (insert_audit-SoundAt _ _ _ _ _ _ _) (λ _ _. returned _ _)))))

write_alias-SoundAt :
    (now : ℕ) (jid : Text) (alias : Option Text) (actor : String) (db : Db)
    → SoundAt (write_alias now jid alias actor) db
unfolding write_alias
write_alias-SoundAt now jid alias actor db = transaction _ db (
    got _ _ db (
      guarded _ _ _ db (λ free.
        bind _ _ db (update_destination-SoundAt jid _ db)
          (λ _ _. insert_audit-SoundAt _ _ _ _ _ _ _))))

pub set_alias-SoundAt :
    (now : ℕ) (reference : Text) (alias : Option Text) (actor : String) (db : Db)
    → SoundAt (set_alias now reference alias actor) db
unfolding set_alias
set_alias-SoundAt now reference alias actor db = got _ _ db (
    found _ _ _ db (λ d e. guarded _ _ _ db (λ good.
      bind _ _ db (write_alias-SoundAt now d.jid _ actor db) (λ _ _. got _ _ _ (read _ _ _)))))
