-- ===== src/Db/Exec.antt =====
-- Repository calls: each reads and writes the database and may throw. What was written before a
-- throw stays, unless a transaction rolls it back.
use whatsapp_bot.Base.{Bool, Option, none, some, if◌then◌else◌}
use whatsapp_bot.Domain.Errors.{Error}

pub data Result {ℓ} (A : Type ℓ) : Type ℓ where
  ok : A → Result A
  err : Error → Result A

-- `S` is the database, or a larger state that holds it.
abbrev pub Exec {ℓ} : Type ℓ → Type ℓ → Type ℓ
Exec S A = S → Result A × S

module _ {ℓ} {S A : Type ℓ} where
  abbrev pub pure : A → Exec S A
  pure a s = (ok a, s)

  abbrev pub throw : Error → Exec S A
  throw e s = (err e, s)

  abbrev pub gets : (S → A) → Exec S A
  gets f s = (ok (f s), s)

  abbrev pub or_throw : Option A → Error → Exec S A
  or_throw none e = throw e
  or_throw (some a) _ = pure a

  abbrev pub resume : Result A → S → S → Result A × S
  resume (ok a) before after = (ok a, after)
  resume (err e) before after = (err e, before)

  -- src/db/database.ts: BEGIN IMMEDIATE, then COMMIT, or ROLLBACK and rethrow.
  unfoldable pub immediate_transaction : Exec S A → Exec S A
  immediate_transaction m s = let (r, t) = m s in resume r s t

  abbrev pub handle : Result A → (Error → Exec S A) → S → Result A × S
  handle (ok a) h s = (ok a, s)
  handle (err e) h s = h e s

  -- `try { m } catch (error) { h }`
  unfoldable pub catch_error : Exec S A → (Error → Exec S A) → Exec S A
  catch_error m h s = let (r, t) = m s in handle r h t

module _ {ℓ} {S A B : Type ℓ} where
  abbrev pub continue : Result A → (A → Exec S B) → Exec S B
  continue (ok a) f s = f a s
  continue (err e) f s = (err e, s)

  infixl 10 ◌>>=◌ ◌>>◌
  unfoldable pub ◌>>=◌ : Exec S A → (A → Exec S B) → Exec S B
  ◌>>=◌ m f s = let (r, t) = m s in continue r f t

  abbrev pub ◌>>◌ : Exec S A → Exec S B → Exec S B
  m >> n = m >>= λ _. n

abbrev pub map_result {ℓ κ} : {A : Type ℓ} {B : Type κ} → (A → B) → Result A → Result B
map_result f (ok a) = ok (f a)
map_result f (err e) = err e

abbrev pub modify : {S : Type 0} → (S → S) → Exec S (Unit {0})
modify f s = (ok tt, f s)

abbrev pub throw_if : {S : Type 0} → Bool → Error → Exec S (Unit {0})
throw_if c e s = (if c then err e else ok tt, s)
