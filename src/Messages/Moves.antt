-- ===== src/Messages/Moves.antt =====
-- The operations of the message service are sound for the queue, files left aside.
use whatsapp_bot.Jobs.Insertion.{create-SoundAt}
use whatsapp_bot.Jobs.Rules.{got, guarded, found, returned, bind, read, caught}
use whatsapp_bot.Domain.Queue.{QueueJob, NewQueueJob}
use whatsapp_bot.Db.{Db}
use whatsapp_bot.Db.Keeps.{KeepsAt, catch_at, bind_at, found_at}
use whatsapp_bot.Jobs.Evolution.{Sound, Sound-refl, Sound-trans, SoundAt, Sound-of_same_jobs}
use whatsapp_bot.Messages.Media.{
  store_asset, upsert_asset, remove_if_unreferenced, paths_differ, is_referenced, put_asset,
}
use whatsapp_bot.Db.Exec.{ok, Exec, catch_error, pure, throw, ◌>>=◌, or_throw, throw_if}
use whatsapp_bot.Base.{
  refl, none, some, true, false, inl, inr, Option, Bool, Text, ℕ, ◌≡◌, Bool-cases, String, has_dash,
}
use whatsapp_bot.Messages.Enqueue.{
  remove_file, check_destination, check_text, discard_staged, handle_enqueue_error, enqueue_staged,
  enqueue_text, drop_asset, insert_message, store_staged,
}
use whatsapp_bot.Domain.Errors.{duplicate_job, Error}
use whatsapp_bot.Messages.{
  create_job, Store, return_duplicate, enqueue_forward, StagedMedia, create_or_return,
  MessageConfig, Fresh, in_db, as_duplicate, ForwardRequest, QueueMessageRequest,
}

abbrev pub SoundStore : Store → Store → Type 0
SoundStore s t = Sound s.db t.db

abbrev pub SoundStoreAt : {A : Type 0} → Exec Store A → Store → Type 0
SoundStoreAt m s = KeepsAt SoundStore m s

pub SoundStore-refl : (s : Store) → SoundStore s s
SoundStore-refl s = Sound-refl s.db

pub SoundStore-trans : (s t u : Store) → SoundStore s t → SoundStore t u → SoundStore s u
SoundStore-trans s t u = Sound-trans s.db t.db u.db

module _ {A B : Type 0} where
  pub bind_store :
      (m : Exec Store A) (f : A → Exec Store B) (s : Store)
      → SoundStoreAt m s
      → ((a : A) → (m s).0 ≡ ok a → SoundStoreAt (f a) (m s).1)
      → SoundStoreAt (m >>= f) s
  bind_store = bind_at SoundStore SoundStore-refl SoundStore-trans

  pub found_store :
      (o : Option A) (e : Error) (f : A → Exec Store B) (s : Store)
      → ((a : A) → o ≡ some a → SoundStoreAt (f a) s)
      → SoundStoreAt (or_throw o e >>= f) s
  found_store = found_at SoundStore SoundStore-refl SoundStore-trans

module _ {A : Type 0} where
  pub in_db-SoundStoreAt : (m : Exec Db A) (s : Store) → SoundAt m s.db → SoundStoreAt (in_db m) s
  in_db-SoundStoreAt m s h = record { at = h.at }

  pub caught_store :
      (m : Exec Store A) (h : Error → Exec Store A) (s : Store)
      → SoundStoreAt m s
      → ((e : Error) → SoundStoreAt (h e) (m s).1)
      → SoundStoreAt (catch_error m h) s
  caught_store = catch_at SoundStore SoundStore-refl SoundStore-trans

  pub pure-SoundStoreAt : (a : A) (s : Store) → SoundStoreAt (pure a) s
  pure-SoundStoreAt a s = record { at = Sound-refl s.db }

  pub throw-SoundStoreAt : (e : Error) (s : Store) → SoundStoreAt (throw {A = A} e) s
  throw-SoundStoreAt e s = record { at = Sound-refl s.db }

throw_if-SoundAt : (c : Bool) (e : Error) (db : Db) → SoundAt (throw_if c e) db
throw_if-SoundAt c e db = record { at = Sound-refl db }

check_destination-SoundAt : (reference : Text) (db : Db) → SoundAt (check_destination reference) db
unfolding check_destination
check_destination-SoundAt reference db =
    got _ _ db
      (found _ _ _ db (λ d e. guarded _ _ _ db (λ on. guarded _ _ _ db (λ open_to. returned d db))))

check_text-SoundAt :
    (body : Text) (staged : Option StagedMedia) (db : Db) → SoundAt (check_text body staged) db
unfolding check_text
check_text-SoundAt body staged db = guarded _ _ _ db (λ some_content. throw_if-SoundAt _ _ db)

store_asset-SoundAt : (now : ℕ) (m : StagedMedia) (db : Db) → SoundAt (store_asset now m) db
unfolding store_asset
store_asset-SoundAt now m db = elim (Bool-cases (paths_differ (put_asset now m db.media_assets))) [
  | inl e ↦ record { at = rw e (Sound-of_same_jobs db _ refl refl) }
  | inr e ↦ record { at = rw e (Sound-refl db) }
]

store_staged-SoundAt :
    (now : ℕ) (staged : Option StagedMedia) (db : Db) → SoundAt (store_staged now staged) db
unfolding upsert_asset
store_staged-SoundAt now none db = returned tt db
store_staged-SoundAt now (some m) db =
    bind _ _ db (bind _ _ db (store_asset-SoundAt now m db) (λ _ _. got _ _ _ (read _ _ _)))
      (λ _ _. returned tt _)

remove_if_unreferenced-SoundAt : (hash : Text) (db : Db) → SoundAt (remove_if_unreferenced hash) db
unfolding remove_if_unreferenced
remove_if_unreferenced-SoundAt hash db = elim (Bool-cases (is_referenced hash db)) [
  | inl e ↦ record { at = rw e (Sound-refl db) }
  | inr e ↦ record { at = rw e (Sound-of_same_jobs db _ refl refl) }
]

remove_file-SoundStoreAt :
    (path : Text) (removed : Bool) (s : Store) → SoundStoreAt (remove_file path removed) s
remove_file-SoundStoreAt path false s = pure-SoundStoreAt tt s
remove_file-SoundStoreAt path true s = record { at = Sound-refl s.db }

discard_staged-SoundStoreAt :
    (staged : Option StagedMedia) (s : Store) → SoundStoreAt (discard_staged staged) s
unfolding discard_staged drop_asset
discard_staged-SoundStoreAt none s = pure-SoundStoreAt tt s
discard_staged-SoundStoreAt (some m) s = elim (Bool-cases m.created) [
  | inl e ↦ rw e (
      bind_store _ _ s (in_db-SoundStoreAt _ s (remove_if_unreferenced-SoundAt m.hash s.db))
        (λ removed _. remove_file-SoundStoreAt m.path removed _))
  | inr e ↦ rw e (pure-SoundStoreAt tt s)
]

as_duplicate-SoundAt :
    (e : Error) (row : Option QueueJob) (db : Db) → SoundAt (as_duplicate e row) db
as_duplicate-SoundAt e none db = record { at = Sound-refl db }
as_duplicate-SoundAt e (some row) db = returned _ db

return_duplicate-SoundAt : (e : Error) (db : Db) → SoundAt (return_duplicate e) db
unfolding return_duplicate
return_duplicate-SoundAt (duplicate_job uuid) db = got _ _ db (as_duplicate-SoundAt _ _ db)
return_duplicate-SoundAt e db = record { at = Sound-refl db }

create_job-SoundAt :
    (now : ℕ) (new : NewQueueJob) (actor : String) (db : Db)
    → has_dash new.uuid ≡ true
    → SoundAt (create_job now new actor) db
unfolding create_job
create_job-SoundAt now new actor db dashed =
    bind _ _ db (create-SoundAt now new actor db dashed) (λ row _. returned _ _)

pub enqueue_forward-SoundAt :
    (cfg : MessageConfig) (fresh : Fresh) (request : ForwardRequest) (db : Db)
    → has_dash fresh.uuid ≡ true
    → SoundAt (enqueue_forward cfg fresh request) db
unfolding enqueue_forward create_or_return
enqueue_forward-SoundAt cfg fresh request db dashed = got _ _ db (
    found _ _ _ db (λ d e. guarded _ _ _ db (λ open_to. guarded _ _ _ db (λ later.
      caught _ _ db (create_job-SoundAt _ _ _ db dashed) (λ e. return_duplicate-SoundAt e _)))))

handle_enqueue_error-SoundStoreAt :
    (staged : Option StagedMedia) (e : Error) (s : Store)
    → SoundStoreAt (handle_enqueue_error staged e) s
unfolding handle_enqueue_error
handle_enqueue_error-SoundStoreAt staged (duplicate_job uuid) s =
    in_db-SoundStoreAt _ s (return_duplicate-SoundAt (duplicate_job uuid) s.db)
handle_enqueue_error-SoundStoreAt staged e s =
    bind_store _ _ s (discard_staged-SoundStoreAt staged s) (λ _ _. throw-SoundStoreAt e _)

pub enqueue_staged-SoundStoreAt :
    (cfg : MessageConfig) (fresh : Fresh) (request : QueueMessageRequest)
    (staged : Option StagedMedia) (jid : Text) (s : Store)
    → has_dash fresh.uuid ≡ true
    → SoundStoreAt (enqueue_staged cfg fresh request staged jid) s
unfolding enqueue_staged insert_message
enqueue_staged-SoundStoreAt cfg fresh request staged jid s dashed =
    bind_store _ _ s (in_db-SoundStoreAt _ s (check_text-SoundAt _ staged s.db)) (λ _ _.
      bind_store _ _ _ (in_db-SoundStoreAt _ _ (throw_if-SoundAt _ _ _)) (λ _ _.
        bind_store _ _ _ (in_db-SoundStoreAt _ _ (store_staged-SoundAt fresh.now staged _)) (λ _ _.
          caught_store _ _ _ (in_db-SoundStoreAt _ _ (create_job-SoundAt _ _ _ _ dashed))
            (λ e. handle_enqueue_error-SoundStoreAt staged e _))))

pub enqueue_text-SoundStoreAt :
    (cfg : MessageConfig) (fresh : Fresh) (request : QueueMessageRequest) (s : Store)
    → has_dash fresh.uuid ≡ true
    → SoundStoreAt (enqueue_text cfg fresh request) s
unfolding enqueue_text
enqueue_text-SoundStoreAt cfg fresh request s dashed =
    bind_store _ _ s (in_db-SoundStoreAt _ s (check_destination-SoundAt request.destination s.db))
      (λ d _. enqueue_staged-SoundStoreAt cfg fresh request none d.jid _ dashed)
