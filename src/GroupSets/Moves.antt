-- ===== src/GroupSets/Moves.antt =====
-- The operations on group sets are sound for the queue.
use whatsapp_bot.Destinations.{eq_nocase}
use whatsapp_bot.Jobs.Rules.{bind, transaction, got, returned}
use whatsapp_bot.Db.Exec.{modify, pure}
use whatsapp_bot.Jobs.Evolution.{SoundAt, Sound-of_same_jobs, insert_audit-SoundAt, Sound-refl}
use whatsapp_bot.GroupSets.{
  insert_new, create_set, change_members, add_members, remove_members, delete_found, delete_set,
  GroupSet,
}
use whatsapp_bot.Db.{Db, MemberRow, EventType}
use whatsapp_bot.Base.{
  refl, none, some, true, false, ◌≡◌, ℕ, Text, List, String, Bool, Option, if◌then◌else◌, any,
}

set_rows-SoundAt :
    (f : Db → Db) (db : Db)
    → (f db).jobs ≡ db.jobs
    → (f db).job_seq ≡ db.job_seq
    → SoundAt (modify f) db
set_rows-SoundAt f db e n = record { at = Sound-of_same_jobs db (f db) e n }

insert_new-SoundAt :
    (now : ℕ) (name : Text) (actor : String) (db : Db) → SoundAt (insert_new now name actor) db
unfolding insert_new
insert_new-SoundAt now name actor db =
    bind _ _ db (set_rows-SoundAt _ db refl refl)
      (λ _ _. bind _ _ _ (insert_audit-SoundAt _ _ _ _ _ _ _) (λ _ _. record { at = Sound-refl _ }))

pub create_set-SoundAt :
    (now : ℕ) (name : Text) (actor : String) (db : Db) → SoundAt (create_set now name actor) db
unfolding create_set
create_set-SoundAt now name actor db =
    transaction _ db (got _ _ db (by_taken (any (λ row. eq_nocase row.name name) db.group_sets)))
  where
    by_taken : (taken : Bool) → SoundAt (if taken then pure none else insert_new now name actor) db
    by_taken true = returned none db
    by_taken false = insert_new-SoundAt now name actor db

change_members-SoundAt :
    (now : ℕ) (change : ℕ → List MemberRow → ℕ × List MemberRow) (event : EventType)
    (actor : String) (requested : ℕ) (set : Option GroupSet) (db : Db)
    → SoundAt (change_members now change event actor requested set) db
unfolding change_members
change_members-SoundAt now change event actor requested none db = returned none db
change_members-SoundAt now change event actor requested (some set) db = got _ _ db (
    bind _ _ db (set_rows-SoundAt _ db refl refl)
      (λ _ _. bind _ _ _ (insert_audit-SoundAt _ _ _ _ _ _ _) (λ _ _. returned _ _)))

pub add_members-SoundAt :
    (now : ℕ) (name : Text) (jids : List Text) (actor : String) (db : Db)
    → SoundAt (add_members now name jids actor) db
unfolding add_members
add_members-SoundAt now name jids actor db =
    transaction _ db (got _ _ db (change_members-SoundAt now _ _ actor _ _ db))

pub remove_members-SoundAt :
    (now : ℕ) (name : Text) (jids : List Text) (actor : String) (db : Db)
    → SoundAt (remove_members now name jids actor) db
unfolding remove_members
remove_members-SoundAt now name jids actor db =
    transaction _ db (got _ _ db (change_members-SoundAt now _ _ actor _ _ db))

delete_found-SoundAt :
    (now : ℕ) (actor : String) (set : Option GroupSet) (db : Db)
    → SoundAt (delete_found now actor set) db
unfolding delete_found
delete_found-SoundAt now actor none db = returned false db
delete_found-SoundAt now actor (some set) db =
    bind _ _ db (set_rows-SoundAt _ db refl refl)
      (λ _ _. bind _ _ _ (insert_audit-SoundAt _ _ _ _ _ _ _) (λ _ _. returned true _))

pub delete_set-SoundAt :
    (now : ℕ) (name : Text) (actor : String) (db : Db) → SoundAt (delete_set now name actor) db
unfolding delete_set
delete_set-SoundAt now name actor db =
    transaction _ db (got _ _ db (delete_found-SoundAt now actor _ db))
