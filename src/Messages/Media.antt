-- ===== src/Messages/Media.antt =====
-- src/db/repositories/media-repository.ts: staged files, one row for each content hash.
use whatsapp_bot.Domain.Errors.{unique_constraint_failed, plain}
use whatsapp_bot.Db.{Db, MediaAsset}
use whatsapp_bot.Db.Exec.{ok, err, Exec, ◌>>◌, or_throw, ◌>>=◌, gets}
use whatsapp_bot.Base.{
  [], none, some, true, false, ◌∷◌, Text, ℕ, List, Option, if◌then◌else◌, Bool, find_first, text_eq,
  not, count_if, any, ◌==◌, ◌&&◌, select,
}
use whatsapp_bot.Messages.{StagedMedia}

unfoldable pub get_asset : Text → Db → Option MediaAsset
get_asset hash db = find_first (λ row. text_eq row.hash hash) db.media_assets

-- The upsert: a known hash keeps its creation time.
unfoldable pub put_asset : ℕ → StagedMedia → List MediaAsset → List MediaAsset
put_asset now m [] =
    record {
      hash = m.hash;
      path = m.path;
      byte_size = m.byte_size;
      mime_type = some m.mime_type;
      created_at = now;
    }
    ∷ []
put_asset now m (row ∷ rows) =
    if text_eq row.hash m.hash
    then record row { path = m.path; byte_size = m.byte_size; mime_type = some m.mime_type } ∷ rows
    else row ∷ put_asset now m rows

-- The UNIQUE column `path`.
unfoldable pub paths_differ : List MediaAsset → Bool
paths_differ [] = true
paths_differ (row ∷ rows) = not (any (λ m. text_eq m.path row.path) rows) && paths_differ rows

unfoldable pub store_asset : ℕ → StagedMedia → Exec Db (Unit {0})
store_asset now m db =
    let rows = put_asset now m db.media_assets in
    if paths_differ rows
    then (ok tt, record db { media_assets = rows })
    else (err unique_constraint_failed, db)

unfoldable pub upsert_asset : ℕ → StagedMedia → Exec Db MediaAsset
upsert_asset now m = do
  store_asset now m
  or_throw (← gets (get_asset m.hash)) (plain "Media asset disappeared after upsert")

-- `NOT EXISTS (SELECT 1 FROM message_jobs WHERE media_hash = media_assets.hash)`
unfoldable pub is_referenced : Text → Db → Bool
is_referenced hash db = any (λ row. any_hash row.media_hash) db.jobs
  where
    any_hash : Option Text → Bool
    any_hash none = false
    any_hash (some h) = text_eq h hash

unfoldable pub remove_if_unreferenced : Text → Exec Db Bool
remove_if_unreferenced hash db = if is_referenced hash db then (ok false, db) else (
  ok (count_if (λ row. text_eq row.hash hash) db.media_assets == 1),
  record db { media_assets = select (λ row. not (text_eq row.hash hash)) db.media_assets },
)
