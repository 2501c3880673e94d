-- ===== src/Jobs/Rules.antt =====
-- The rules by which a call on the database is shown to be sound, one for each way to build it.
use whatsapp_bot.Base.{◌≡◌, Bool, false, Option, some}
use whatsapp_bot.Domain.Errors.{Error}
use whatsapp_bot.Db.{Db}
use whatsapp_bot.Db.Exec.{
  Exec, ok, pure, gets, or_throw, throw_if, immediate_transaction, catch_error, ◌>>=◌, ◌>>◌,
}
use whatsapp_bot.Db.Keeps.{
  bind_at, transaction_at, catch_at, read_at, found_at, guarded_at, gets_at,
}
use whatsapp_bot.Jobs.Evolution.{Sound, Sound-refl, Sound-trans, SoundAt}

module _ {A B : Type 0} where
  pub bind :
      (m : Exec Db A) (f : A → Exec Db B) (db : Db)
      → SoundAt m db
      → ((a : A) → (m db).0 ≡ ok a → SoundAt (f a) (m db).1)
      → SoundAt (m >>= f) db
  bind = bind_at Sound Sound-refl Sound-trans

  pub found :
      (o : Option A) (e : Error) (f : A → Exec Db B) (db : Db)
      → ((a : A) → o ≡ some a → SoundAt (f a) db)
      → SoundAt (or_throw o e >>= f) db
  found = found_at Sound Sound-refl Sound-trans

  pub got :
      (g : Db → A) (f : A → Exec Db B) (db : Db) → SoundAt (f (g db)) db → SoundAt (gets g >>= f) db
  got = gets_at Sound Sound-refl Sound-trans

module _ {A : Type 0} where
  pub transaction : (m : Exec Db A) (db : Db) → SoundAt m db → SoundAt (immediate_transaction m) db
  transaction = transaction_at Sound Sound-refl Sound-trans

  pub guarded :
      (c : Bool) (e : Error) (m : Exec Db A) (db : Db)
      → (c ≡ false → SoundAt m db)
      → SoundAt (throw_if c e >> m) db
  guarded = guarded_at Sound Sound-refl Sound-trans

  pub read : (o : Option A) (e : Error) (db : Db) → SoundAt (or_throw o e) db
  read = read_at Sound Sound-refl Sound-trans

  pub caught :
      (m : Exec Db A) (h : Error → Exec Db A) (db : Db)
      → SoundAt m db
      → ((e : Error) → SoundAt (h e) (m db).1)
      → SoundAt (catch_error m h) db
  caught = catch_at Sound Sound-refl Sound-trans

  pub returned : (a : A) (db : Db) → SoundAt (pure a) db
  returned a db = record { at = Sound-refl db }
