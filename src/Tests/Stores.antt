-- ===== src/Tests/Stores.antt =====
-- The theorems on the store of the sign-in and on migration, at small tables.
use whatsapp_bot.Messages.Staging.Kept.{StageEnds, stage_ends}
use whatsapp_bot.Db.Migrate.Twice.{IsApplied, migrate_twice}
use whatsapp_bot.Tests.Samples.{sample_db}
use whatsapp_bot.Messages.Staging.{
  StagerConfig, StageReadings, stage, on_disk, sanitize_filename, replace_unsafe, drop_dots,
}
use whatsapp_bot.Db.Auth.{get_keys, set_keys}
use whatsapp_bot.Db.Auth.Written.{entry_of, last_write, key_value, get_keys-set_keys}
use whatsapp_bot.Db.Migrate.{
  migrate, Migration, AppliedMigration, migrate_all, migrate_one, apply_migration, insert_applied,
  is_unchanged, find_applied, clashes,
}
use whatsapp_bot.Base.{
  refl, [], none, some, suc, ◌∷◌, List, Text, Option, text, ℕ, ◌++◌, ◌≡◌, if◌then◌else◌, any,
  text_eq, All, true, false,
}
use whatsapp_bot.Db.Exec.{ok, Exec, immediate_transaction, ◌>>=◌}

abbrev sample_migrations : List Migration
sample_migrations =
    record { version = 1; name = text "initial"; sql = text "a" }
    ∷ record { version = 2; name = text "more"; sql = text "b" }
    ∷ []

-- The tables are the number of scripts that have run.
abbrev count_script : Text → Exec ℕ (Unit {0})
count_script sql n = (ok tt, suc n)

abbrev first_applied : List AppliedMigration
first_applied =
    record { version = 1; name = text "initial"; checksum = text "a"; applied_at = 5 } ∷ []

abbrev both_applied : List AppliedMigration
both_applied =
    first_applied
    ++ record { version = 2; name = text "more"; checksum = text "b"; applied_at = 9 } ∷ []

migrate_twice_example :
    All (IsApplied (λ sql. sql) both_applied) sample_migrations
    × ((more : List AppliedMigration) × (both_applied ≡ first_applied ++ more))
    × (migrate
          (λ sql. sql)
          count_script
          10
          sample_migrations
          (record { tables = 2; applied = both_applied })
        ≡ (ok tt, record { tables = 2; applied = both_applied }))
unfolding migrate migrate_all migrate_one apply_migration insert_applied is_unchanged find_applied
    clashes immediate_transaction ◌>>=◌ text text_eq
migrate_twice_example =
    migrate_twice (λ sql. sql) count_script 9 10 sample_migrations
      (record { tables = 1; applied = first_applied })
      (record { tables = 2; applied = both_applied }) refl

abbrev key_updates : List (Text × List (Text × Option Text))
key_updates =
    (text "session", (text "1", some (text "x")) ∷ (text "2", none) ∷ [])
    ∷ (text "pre-key", (text "1", none) ∷ [])
    ∷ []

get_keys-set_keys_example :
    entry_of
      (text "1")
      (get_keys (text "session") (text "1" ∷ []) (set_keys 9 key_updates sample_db).1)
    ≡ (if any (text_eq (text "1")) (text "1" ∷ [])
        then last_write
            (text "session")
            (text "1")
            key_updates
            (key_value (text "session") (text "1") sample_db.auth_keys)
        else none)
get_keys-set_keys_example =
    get_keys-set_keys 9 key_updates (text "session") (text "1") (text "1" ∷ []) sample_db

abbrev stager : StagerConfig
stager = record {
  media_dir = text "media";
  max_bytes = 100;
  basename = λ path. path;
  extname = λ path. text ".png";
  join = λ left right. left ++ 47 ∷ right;
  normalize_nfkc = λ value. value;
  digest = λ bytes. bytes;
}

abbrev flush_fails : StageReadings
flush_fails = record {
  stat = some (true, 3);
  hashed = some (text "abc");
  directory_made = true;
  copied = text "ab";
  copy_completed = true;
  flushed = false;
  renamed = true;
  uuid = text "u";
}

stage_ends_example :
    StageEnds stager flush_fails [] (stage stager flush_fails (text "../a b.png") none [])
unfolding on_disk
stage_ends_example = stage_ends stager flush_fails (text "../a b.png") none [] (λ hash. refl)

sample_name : sanitize_filename stager (text "..a /*b.png") ≡ text "a_b.png"
unfolding sanitize_filename replace_unsafe drop_dots text
sample_name = refl
