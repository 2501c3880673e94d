-- ===== src/Jobs/Index.antt =====
-- The unique index on the keys of active jobs: an update that makes no job active cannot break it,
-- so that it goes through in a valid database.
use whatsapp_bot.Domain.Errors.{unique_constraint_failed}
use whatsapp_bot.Db.Exec.{ok, err}
use whatsapp_bot.Jobs.Invariant.{IsValid}
use whatsapp_bot.Db.{Db}
use whatsapp_bot.Base.{
  Bool, ◌≡◌, Text, List, true, any, false, update_where, ◌∷◌, count_if, arith, refl, [], Memᴰ,
}
use whatsapp_bot.Domain.Queue.{QueueJob}
use whatsapp_bot.Domain.Jobs.{is_active}
use whatsapp_bot.Jobs.Rows.{is_active_with, active_keys_unique, update_jobs}

-- `f` keeps the key, and no row of the table that it changes becomes active by it.
pub record WakesNone (p : QueueJob → Bool) (f : QueueJob → QueueJob) (rows : List QueueJob)
    : Type 0 where
  pub same_key : (row : QueueJob) → (f row).idempotency_key ≡ row.idempotency_key
  pub still_asleep :
      (row : QueueJob)
      → Memᴰ row rows
      → p row ≡ true
      → is_active row.status ≡ false
      → is_active (f row).status ≡ false

module _ (p : QueueJob → Bool) (f : QueueJob → QueueJob) where
  WakesNone-tail :
      (x : QueueJob) (rows : List QueueJob) → WakesNone p f (x ∷ rows) → WakesNone p f rows
  WakesNone-tail x rows quiet = record {
    same_key = quiet.same_key;
    still_asleep = λ row i. quiet.still_asleep row (Memᴰ.tail i);
  }

  any-update_where :
      (key : Text) (rows : List QueueJob)
      → WakesNone p f rows
      → any (is_active_with key) rows ≡ false
      → any (is_active_with key) (update_where p f rows) ≡ false
  unfolding is_active_with
  any-update_where key [] quiet h = refl
  any-update_where key (x ∷ rows) quiet h = ground (
    arith,
    quiet.same_key x,
    quiet.still_asleep x (Memᴰ.head refl),
    any-update_where key rows (WakesNone-tail x rows quiet),
  )

  pub active_keys_unique-update_where :
      (rows : List QueueJob)
      → WakesNone p f rows
      → active_keys_unique rows ≡ true
      → active_keys_unique (update_where p f rows) ≡ true
  unfolding active_keys_unique
  active_keys_unique-update_where [] quiet h = refl
  active_keys_unique-update_where (x ∷ rows) quiet h = ground (
    arith,
    quiet.same_key x,
    quiet.still_asleep x (Memᴰ.head refl),
    any-update_where x.idempotency_key rows (WakesNone-tail x rows quiet),
    active_keys_unique-update_where rows (WakesNone-tail x rows quiet),
  )

  -- In a valid database such an UPDATE never meets the index.
  pub update_jobs_succeeds :
      (db : Db)
      → IsValid db
      → WakesNone p f db.jobs
      → update_jobs p f db
        ≡ (ok (count_if p db.jobs), record db { jobs = update_where p f db.jobs })
  unfolding update_jobs
  update_jobs_succeeds db v quiet = rw (active_keys_unique-update_where db.jobs quiet v.index_holds)

  -- Where the index would not hold, the UPDATE fails and changes nothing.
  pub update_jobs_refused :
      (db : Db)
      → active_keys_unique (update_where p f db.jobs) ≡ false
      → update_jobs p f db ≡ (err unique_constraint_failed, db)
  unfolding update_jobs
  update_jobs_refused db h = rw h
