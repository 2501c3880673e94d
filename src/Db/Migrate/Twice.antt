-- ===== src/Db/Migrate/Twice.antt =====
-- A second run of `migrate` does nothing.
use mathlib.Core.List.{append-nil, append_assoc}
use whatsapp_bot.Db.Migrate.{
  find_applied, Schema, clashes, AppliedMigration, Migration, insert_applied, is_unchanged,
  apply_migration, applied_row, migrate_one, migrate_all, migrate,
}
use whatsapp_bot.Base.{
  refl, [], some, true, false, inl, inr, ◌∷◌, Text, List, ℕ, ◌≡◌, ◌++◌, any, All, find_first_append,
  arith, ◌==◌, Bool-cases, text_eq_refl, none, Option, sym, subst, ◌∙◌,
}
use whatsapp_bot.Db.Exec.{ok, err, Result, Exec, immediate_transaction, ◌>>=◌, resume, continue}

-- The migration has a row, and the row is its own.
abbrev pub IsApplied : (Text → Text) → List AppliedMigration → Migration → Type 0
IsApplied digest rows m =
    (row : AppliedMigration) × (find_applied m.version rows ≡ some row)
    × (is_unchanged digest m row ≡ true)

-- Rows are only added, and those of these migrations are there.
record Extends (digest : Text → Text) (rows after : List AppliedMigration) (ms : List Migration)
    : Type 0 where
  more : List AppliedMigration
  added : after ≡ rows ++ more
  applied : All (IsApplied digest after) ms

-- The outcome of a call that has to be a success.
abbrev IfOk : {S : Type 0} → Result (Unit {0}) × S → (S → Type 0) → Type 0
IfOk (ok done, t) P = P t
IfOk (err e, t) P = Unit

IsApplied-append :
    (digest : Text → Text) (rows more : List AppliedMigration) (m : Migration)
    → IsApplied digest rows m
    → IsApplied digest (rows ++ more) m
unfolding find_applied
IsApplied-append digest rows more m (row, found, same) =
    (row, find_first_append (λ r. r.version == m.version) rows more found, same)

-- A row that no other clashes with is found once it is added.
find_applied-append_one :
    (rows : List AppliedMigration) (m : Migration) (row : AppliedMigration)
    → any (clashes m) rows ≡ false
    → row.version ≡ m.version
    → find_applied m.version (rows ++ row ∷ []) ≡ some row
unfolding find_applied clashes
find_applied-append_one [] m row h e = ground arith
find_applied-append_one (r ∷ rows) m row h e = ground (arith, find_applied-append_one rows m row)

module _ {T : Type 0} (digest : Text → Text) (now : ℕ) (m : Migration) where
  inserted :
      (s : Schema T)
      → IfOk (insert_applied digest now m s) (λ t. Extends digest s.applied t.applied (m ∷ []))
  unfolding insert_applied is_unchanged
  inserted s = elim (Bool-cases (any (clashes m) s.applied)) [
    | inl clash ↦ rw clash tt
    | inr free ↦ rw free (record {
      more = applied_row digest now m ∷ [];
      added = refl;
      applied = (
        (
          applied_row digest now m,
          find_applied-append_one s.applied m (applied_row digest now m) free refl,
          rw (text_eq_refl m.name, text_eq_refl (digest m.sql)),
        ),
        tt,
      );
    })
  ]

  module _ (execute_sql : Text → Exec T (Unit {0})) where
    applied_migration :
        (s : Schema T)
        → IfOk
            (apply_migration digest execute_sql now m s)
            (λ t. Extends digest s.applied t.applied (m ∷ []))
    unfolding apply_migration immediate_transaction ◌>>=◌
    applied_migration s = by_script (execute_sql m.sql s.tables)
      where
        committed :
            (r : Result (Unit {0}) × Schema T)
            → IfOk r (λ t. Extends digest s.applied t.applied (m ∷ []))
            → IfOk (resume r.0 s r.1) (λ t. Extends digest s.applied t.applied (m ∷ []))
        committed (ok done, t) h = h
        committed (err e, t) h = tt

        by_script :
            (r : Result (Unit {0}) × T)
            → let run =
                continue r.0 (λ _. insert_applied digest now m) (record s { tables = r.1 }) in
              IfOk (resume run.0 s run.1) (λ t. Extends digest s.applied t.applied (m ∷ []))
        by_script (ok done, t) = committed _ (inserted (record s { tables = t }))
        by_script (err e, t) = tt

    migrated_one :
        (before more : List AppliedMigration) (s : Schema T)
        → s.applied ≡ before ++ more
        → IfOk
            (migrate_one digest execute_sql now m (find_applied m.version before) s)
            (λ t. Extends digest s.applied t.applied (m ∷ []))
    unfolding migrate_one
    migrated_one before more s grown = by_row (find_applied m.version before) refl
      where
        by_row :
            (found : Option AppliedMigration)
            → find_applied m.version before ≡ found
            → IfOk
                (migrate_one digest execute_sql now m found s)
                (λ t. Extends digest s.applied t.applied (m ∷ []))
        by_row none e = applied_migration s
        by_row (some row) e = elim (Bool-cases (is_unchanged digest m row)) [
          | inl same ↦ rw same (record {
            more = [];
            added = sym (append-nil s.applied);
            applied = (rw grown (IsApplied-append digest before more m (row, e, same)), tt);
          })
          | inr changed ↦ rw changed tt
        ]

All-IsApplied-append :
    (digest : Text → Text) (rows more : List AppliedMigration) (ms : List Migration)
    → All (IsApplied digest rows) ms
    → All (IsApplied digest (rows ++ more)) ms
All-IsApplied-append digest rows more [] h = tt
All-IsApplied-append digest rows more (m ∷ ms) h =
    (IsApplied-append digest rows more m h.0, All-IsApplied-append digest rows more ms h.1)

module _ {T : Type 0} (digest : Text → Text) (execute_sql : Text → Exec T (Unit {0}))
    (now : ℕ) where
  migrated_all :
      (ms : List Migration) (before more : List AppliedMigration) (s : Schema T)
      → s.applied ≡ before ++ more
      → IfOk
          (migrate_all digest execute_sql now before ms s)
          (λ t. Extends digest s.applied t.applied ms)
  unfolding migrate_all ◌>>=◌
  migrated_all [] before more s grown = record {
    more = [];
    added = sym (append-nil s.applied);
    applied = tt;
  }
  migrated_all (m ∷ ms) before more s grown =
      step (migrate_one digest execute_sql now m (find_applied m.version before) s)
        (migrated_one digest now m execute_sql before more s grown)
        (λ t one. migrated_all ms before (more ++ one) t)
    where
      joined :
          (t : Schema T) (r : Result (Unit {0}) × Schema T)
          → Extends digest s.applied t.applied (m ∷ [])
          → IfOk r (λ u. Extends digest t.applied u.applied ms)
          → IfOk r (λ u. Extends digest s.applied u.applied (m ∷ ms))
      joined t (err e, u) one rest = tt
      joined t (ok done, u) one rest = record {
        more = one.more ++ rest.more;
        added = rest.added ∙ (rw (one.added, append_assoc s.applied one.more rest.more));
        applied = (
          rw rest.added (IsApplied-append digest t.applied rest.more m one.applied.0),
          rest.applied,
        );
      }

      step :
          (r : Result (Unit {0}) × Schema T)
          → IfOk r (λ t. Extends digest s.applied t.applied (m ∷ []))
          → ((t : Schema T) (one : List AppliedMigration)
              → t.applied ≡ before ++ (more ++ one)
              → IfOk
                  (migrate_all digest execute_sql now before ms t)
                  (λ u. Extends digest t.applied u.applied ms))
          → IfOk
              (continue r.0 (λ _. migrate_all digest execute_sql now before ms) r.1)
              (λ t. Extends digest s.applied t.applied (m ∷ ms))
      step (err e, t) h rest = tt
      step (ok done, t) h rest =
          joined t (migrate_all digest execute_sql now before ms t) h
            (rest t h.more (h.added ∙ (rw (grown, append_assoc before more h.more))))

  -- Where every migration is applied, there is nothing to do.
  nothing_left :
      (ms : List Migration) (s : Schema T)
      → (rows : List AppliedMigration) → All (IsApplied digest rows) ms
      → migrate_all digest execute_sql now rows ms s ≡ (ok tt, s)
  unfolding migrate_all migrate_one ◌>>=◌
  nothing_left [] s rows h = refl
  nothing_left (m ∷ ms) s rows h =
      let (row, found, same) = h.0 in rw (found, same, nothing_left ms s rows h.1)

-- After a `migrate` that returns, every migration has a row with its number, its name and the
-- checksum of its script, the rows that were there are kept, and a second run returns at any later
-- time and changes nothing.
pub migrate_twice :
    {T : Type 0} (digest : Text → Text) (execute_sql : Text → Exec T (Unit {0})) (now later : ℕ)
    (ms : List Migration) (s t : Schema T)
    → migrate digest execute_sql now ms s ≡ (ok tt, t)
    → All (IsApplied digest t.applied) ms
      × ((more : List AppliedMigration) × (t.applied ≡ s.applied ++ more))
      × (migrate digest execute_sql later ms t ≡ (ok tt, t))
unfolding migrate
migrate_twice digest execute_sql now later ms s t e =
    let done : Extends digest s.applied t.applied ms =
      subst (λ r. IfOk r (λ u. Extends digest s.applied u.applied ms)) e
        (migrated_all digest execute_sql now ms s.applied [] s (sym (append-nil s.applied))) in
    (
      done.applied,
      (done.more, done.added),
      nothing_left digest execute_sql later ms t t.applied done.applied,
    )
