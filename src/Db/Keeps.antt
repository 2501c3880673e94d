-- ===== src/Db/Keeps.antt =====
-- A relation between the states before and after a call, through the ways to build calls. The
-- relation is given with its reflexivity and transitivity.
use whatsapp_bot.Base.{◌≡◌, refl, Bool, true, false, Option, none, some}
use whatsapp_bot.Domain.Errors.{Error}
use whatsapp_bot.Db.Exec.{
  Result, ok, err, Exec, immediate_transaction, resume, continue, catch_error, handle, ◌>>=◌, ◌>>◌,
  or_throw, throw_if, gets,
}

-- From `s`, the call `m` ends in a related state, by a return or by a throw.
pub record KeepsAt {S A : Type 0} (R : S → S → Type 0) (m : Exec S A) (s : S) : Type 0 where
  pub at : R s (m s).1

module _ {S : Type 0} (R : S → S → Type 0) (R-refl : (s : S) → R s s)
    (R-trans : (s t u : S) → R s t → R t u → R s u) where
  continue_at :
      {A B : Type 0} (r : Result A) (f : A → Exec S B) (s t : S)
      → R s t
      → ((a : A) → r ≡ ok a → KeepsAt R (f a) t)
      → R s (continue r f t).1
  continue_at (ok a) f s t h k = R-trans s t _ h (k a refl).at
  continue_at (err e) f s t h k = h

  -- The rest of a block may use what the first step returned.
  pub bind_at :
      {A B : Type 0} (m : Exec S A) (f : A → Exec S B) (s : S)
      → KeepsAt R m s
      → ((a : A) → (m s).0 ≡ ok a → KeepsAt R (f a) (m s).1)
      → KeepsAt R (m >>= f) s
  unfolding ◌>>=◌
  bind_at m f s h k = record { at = continue_at (m s).0 f s (m s).1 h.at k }

  resume_at : {A : Type 0} (r : Result A) (s t : S) → R s t → R s (resume r s t).1
  resume_at (ok a) s t h = h
  resume_at (err e) s t h = R-refl s

  -- A transaction is rolled back or committed.
  pub transaction_at :
      {A : Type 0} (m : Exec S A) (s : S) → KeepsAt R m s → KeepsAt R (immediate_transaction m) s
  unfolding immediate_transaction
  transaction_at m s h = record { at = resume_at (m s).0 s (m s).1 h.at }

  handle_at :
      {A : Type 0} (r : Result A) (h : Error → Exec S A) (s t : S)
      → R s t
      → ((e : Error) → KeepsAt R (h e) t)
      → R s (handle r h t).1
  handle_at (ok a) h s t k j = k
  handle_at (err e) h s t k j = R-trans s t _ k (j e).at

  pub catch_at :
      {A : Type 0} (m : Exec S A) (h : Error → Exec S A) (s : S)
      → KeepsAt R m s
      → ((e : Error) → KeepsAt R (h e) (m s).1)
      → KeepsAt R (catch_error m h) s
  unfolding catch_error
  catch_at m h s k j = record { at = handle_at (m s).0 h s (m s).1 k.at j }

  -- A lookup that throws when it finds nothing.
  pub read_at : {A : Type 0} (o : Option A) (e : Error) (s : S) → KeepsAt R (or_throw o e) s
  read_at none e s = record { at = R-refl s }
  read_at (some a) e s = record { at = R-refl s }

  -- The rest of a block after such a lookup.
  pub found_at :
      {A B : Type 0} (o : Option A) (e : Error) (f : A → Exec S B) (s : S)
      → ((a : A) → o ≡ some a → KeepsAt R (f a) s)
      → KeepsAt R (or_throw o e >>= f) s
  unfolding ◌>>=◌
  found_at none e f s k = record { at = R-refl s }
  found_at (some a) e f s k = record { at = (k a refl).at }

  -- The rest of a block after a guard.
  pub guarded_at :
      {B : Type 0} (c : Bool) (e : Error) (m : Exec S B) (s : S)
      → (c ≡ false → KeepsAt R m s)
      → KeepsAt R (throw_if c e >> m) s
  unfolding ◌>>=◌
  guarded_at true e m s k = record { at = R-refl s }
  guarded_at false e m s k = record { at = (k refl).at }

  -- The rest of a block after a read of the state.
  pub gets_at :
      {A B : Type 0} (g : S → A) (f : A → Exec S B) (s : S)
      → KeepsAt R (f (g s)) s
      → KeepsAt R (gets g >>= f) s
  unfolding ◌>>=◌
  gets_at g f s k = record { at = k.at }
