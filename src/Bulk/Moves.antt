-- ===== src/Bulk/Moves.antt =====
-- A bulk send is sound for the queue, as far as what others do meanwhile is.
use whatsapp_bot.Domain.Groups.{Destination}
use whatsapp_bot.Messages.Moves.{
  SoundStoreAt, bind_store, in_db-SoundStoreAt, enqueue_forward-SoundAt, enqueue_text-SoundStoreAt,
}
use whatsapp_bot.Jobs.Rules.{transaction, got, guarded, bind, returned}
use whatsapp_bot.Jobs.Evolution.{
  SoundAt, Sound, Sound-of_same_jobs, Sound-refl, insert_audit-SoundAt, Sound-trans,
}
use whatsapp_bot.Db.{BatchType, Db}
use whatsapp_bot.Messages.{MessageConfig, Fresh, Store}
use whatsapp_bot.Bulk.{
  create_batch, bulk_enqueue, BulkEnqueueRequest, enqueue_one, enqueue_all, enqueue_by_key, Counts,
  unique_destinations, tally,
}
use whatsapp_bot.Base.{
  refl, [], none, some, true, ◌∷◌, ℕ, Text, String, has_dash, ◌≡◌, Option, List,
}

create_batch-SoundAt :
    (now : ℕ) (id : Text) (batch_type : BatchType) (target_count : ℕ) (actor : String) (db : Db)
    → SoundAt (create_batch now id batch_type target_count actor) db
unfolding create_batch
create_batch-SoundAt now id batch_type target_count actor db = transaction _ db (
    got _ _ db (
      guarded _ _ _ db (λ free.
        bind _ _ db (record { at = Sound-of_same_jobs db _ refl refl })
          (λ _ _. bind _ _ _ (insert_audit-SoundAt _ _ _ _ _ _ _) (λ _ _. returned _ _)))))

module _ (cfg : MessageConfig) (request : BulkEnqueueRequest) (batch_id : Text)
    (others : Text → Store → Store) (fresh : Text → Fresh)
    (dashed : (jid : Text) → has_dash (fresh jid).uuid ≡ true)
    (others_sound : (jid : Text) (s : Store) → Sound s.db (others jid s).db) where
  enqueue_one-SoundStoreAt :
      (jid : Text) (s : Store) → SoundStoreAt (enqueue_one cfg request batch_id (fresh jid) jid) s
  unfolding enqueue_one
  enqueue_one-SoundStoreAt jid s = by_key request.forward_source_key
    where
      by_key :
          (key : Option Text)
          → SoundStoreAt (enqueue_by_key cfg (fresh jid) request batch_id jid key) s
      by_key (some (c ∷ cs)) =
          in_db-SoundStoreAt _ s (enqueue_forward-SoundAt cfg (fresh jid) _ s.db (dashed jid))
      by_key (some []) = enqueue_text-SoundStoreAt cfg (fresh jid) _ s (dashed jid)
      by_key none = enqueue_text-SoundStoreAt cfg (fresh jid) _ s (dashed jid)

  enqueue_all-Sound :
      (ds : List Destination) (c : Counts) (s : Store)
      → Sound s.db (enqueue_all cfg request batch_id others fresh ds c s).1.db
  unfolding enqueue_all
  enqueue_all-Sound [] c s = Sound-refl s.db
  enqueue_all-Sound (d ∷ ds) c s =
      let after = enqueue_one cfg request batch_id (fresh d.jid) d.jid (others d.jid s) in
      Sound-trans s.db after.1.db _
        (Sound-trans s.db (others d.jid s).db after.1.db (others_sound d.jid s)
          (enqueue_one-SoundStoreAt d.jid (others d.jid s)).at)
        (enqueue_all-Sound ds (tally after.0 c) after.1)

pub bulk_enqueue-SoundStoreAt :
    (cfg : MessageConfig) (request : BulkEnqueueRequest) (batch : Fresh)
    (others : Text → Store → Store) (fresh : Text → Fresh)
    → ((jid : Text) → has_dash (fresh jid).uuid ≡ true)
    → ((jid : Text) (s : Store) → Sound s.db (others jid s).db)
    → (s : Store) → SoundStoreAt (bulk_enqueue cfg request batch others fresh) s
unfolding bulk_enqueue
bulk_enqueue-SoundStoreAt cfg request batch others fresh dashed others_sound s =
    bind_store _ _ s (in_db-SoundStoreAt _ s (create_batch-SoundAt _ _ _ _ _ s.db)) (λ _ _. record {
      at =
          enqueue_all-Sound cfg request batch.uuid others fresh dashed others_sound
            (unique_destinations request.destinations) _ _;
    })
