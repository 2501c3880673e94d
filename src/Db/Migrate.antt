-- ===== src/Db/Migrate.antt =====
-- `migrate` and `getSchemaVersion` of src/db/database.ts. The tables are a parameter, and so is what
-- a script of SQL does to them; the scripts leave `schema_migrations` alone.
pub mod Twice
use whatsapp_bot.Domain.Errors.{unique_constraint_failed, plain}
use whatsapp_bot.Base.{
  [], none, some, ◌∷◌, ℕ, List, Bool, Text, Option, ◌==◌, if◌then◌else◌, text_eq, max, find_first,
  ◌||◌, any, ◌&&◌, not, ◌++◌,
}
use whatsapp_bot.Db.Exec.{ok, err, Exec, immediate_transaction, pure, ◌>>◌, throw_if}

pub record Migration : Type 0 where
  pub version : ℕ
  pub name : Text
  pub sql : Text

pub record AppliedMigration : Type 0 where
  pub version : ℕ
  pub name : Text
  pub checksum : Text
  pub applied_at : ℕ

pub record Schema (T : Type 0) : Type 0 where
  pub tables : T
  pub applied : List AppliedMigration

-- The tables as SQL sees them; a throw rolls the statement's transaction back.
abbrev pub on_tables : {T : Type 0} → Exec T (Unit {0}) → Exec (Schema T) (Unit {0})
on_tables m s = let (r, t) = m s.tables in (r, record s { tables = t })

unfoldable pub find_applied : ℕ → List AppliedMigration → Option AppliedMigration
find_applied version = find_first λ row. row.version == version

-- `version` is the primary key, and `name` is unique.
unfoldable pub clashes : Migration → AppliedMigration → Bool
clashes m row = row.version == m.version || text_eq row.name m.name

abbrev pub applied_row : (Text → Text) → ℕ → Migration → AppliedMigration
applied_row digest now m = record {
  version = m.version;
  name = m.name;
  checksum = digest m.sql;
  applied_at = now;
}

unfoldable pub insert_applied :
    {T : Type 0} → (Text → Text) → ℕ → Migration → Exec (Schema T) (Unit {0})
insert_applied digest now m s =
    if any (clashes m) s.applied
    then (err unique_constraint_failed, s)
    else (ok tt, record s { applied = s.applied ++ applied_row digest now m ∷ [] })

unfoldable pub is_unchanged : (Text → Text) → Migration → AppliedMigration → Bool
is_unchanged digest m row = text_eq row.name m.name && text_eq row.checksum (digest m.sql)

module _ {T : Type 0} (digest : Text → Text) (execute_sql : Text → Exec T (Unit {0}))
    (now : ℕ) where
  -- The transaction of one migration.
  unfoldable pub apply_migration : Migration → Exec (Schema T) (Unit {0})
  apply_migration m =
      immediate_transaction do on_tables (execute_sql m.sql); insert_applied digest now m

  unfoldable pub migrate_one : Migration → Option AppliedMigration → Exec (Schema T) (Unit {0})
  migrate_one m none = apply_migration m
  migrate_one m (some row) =
      throw_if (not (is_unchanged digest m row))
        (plain "Migration was changed after it was applied")

  -- `before` are the rows that were read at the start.
  unfoldable pub migrate_all : List AppliedMigration → List Migration → Exec (Schema T) (Unit {0})
  migrate_all before [] = pure tt
  migrate_all before (m ∷ ms) = do
    migrate_one m (find_applied m.version before)
    migrate_all before ms

  unfoldable pub migrate : List Migration → Exec (Schema T) (Unit {0})
  migrate ms s = migrate_all s.applied ms s

-- `COALESCE(MAX(version), 0)`
unfoldable pub schema_version : List AppliedMigration → ℕ
schema_version [] = 0
schema_version (row ∷ rows) = max row.version (schema_version rows)
