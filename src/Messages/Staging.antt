-- ===== src/Messages/Staging.antt =====
-- src/messaging/media-staging.ts: how a file comes into the media directory. No other process writes
-- there between the steps.
pub mod Names
pub mod Kept
use whatsapp_bot.Destinations.{fold_case}
use whatsapp_bot.Messages.{StagedMedia}
use whatsapp_bot.Domain.Errors.{Error, plain}
use whatsapp_bot.Domain.Jobs.{PayloadType}
use whatsapp_bot.Destinations.Alias.{is_alias_unit}
use whatsapp_bot.Base.{
  [], none, some, true, false, ◌∷◌, Text, Option, ℕ, Bool, List, if◌then◌else◌, text, take,
  find_first, ◌++◌, any, ◌==◌, text_eq, select, not, ◌||◌, ltb, get_or,
}
use whatsapp_bot.Db.Exec.{
  ok, Exec, modify, ◌>>◌, ◌>>=◌, throw_if, catch_error, or_throw, gets, pure,
}

pub record DiskFile : Type 0 where
  pub path : Text
  pub content : List ℕ

-- What `path` and `crypto` of Node.js compute, Unicode normalisation, and the configuration.
pub record StagerConfig : Type 0 where
  pub media_dir : Text
  pub max_bytes : ℕ
  pub basename : Text → Text
  pub extname : Text → Text
  pub join : Text → Text → Text
  pub normalize_nfkc : Text → Text
  pub digest : List ℕ → Text

-- What the calls of one staging meet: whether the source is a regular file and its size, if it can
-- be asked; its bytes when it is hashed; whether the directory can be made; the bytes that are
-- copied, and whether all are; whether they can be flushed and the file renamed; a uuid.
pub record StageReadings : Type 0 where
  pub stat : Option (Bool × ℕ)
  pub hashed : Option (List ℕ)
  pub directory_made : Bool
  pub copied : List ℕ
  pub copy_completed : Bool
  pub flushed : Bool
  pub renamed : Bool
  pub uuid : Text

abbrev pub is_safe_unit : ℕ → Bool
is_safe_unit c = is_alias_unit c

-- `replace(/[^a-zA-Z0-9._-]+/g, '_')`; the flag says that the unit before was replaced.
unfoldable pub replace_unsafe : Bool → Text → Text
replace_unsafe after_unsafe [] = []
replace_unsafe after_unsafe (c ∷ cs) =
    let clean = replace_unsafe false cs in
    let rest = replace_unsafe true cs in
    if is_safe_unit c then c ∷ clean else if after_unsafe then rest else 95 ∷ rest

-- `replace(/^\.+/, '')`
unfoldable pub drop_dots : Text → Text
drop_dots [] = []
drop_dots (c ∷ cs) = if c == 46 then drop_dots cs else c ∷ cs

abbrev pub or_attachment : Text → Text
or_attachment [] = text "attachment.bin"
or_attachment (c ∷ cs) = c ∷ cs

unfoldable pub sanitize_filename : StagerConfig → Text → Text
sanitize_filename cfg value =
    or_attachment
      (take 120 (drop_dots (replace_unsafe false (cfg.normalize_nfkc (cfg.basename value)))))

pub record MediaKind : Type 0 where
  pub mime : Text
  pub payload_type : PayloadType

abbrev pub kinds : List (Text × MediaKind)
kinds =
    (text ".jpg", record { mime = text "image/jpeg"; payload_type = PayloadType.image })
    ∷ (text ".jpeg", record { mime = text "image/jpeg"; payload_type = PayloadType.image })
    ∷ (text ".png", record { mime = text "image/png"; payload_type = PayloadType.image })
    ∷ (text ".webp", record { mime = text "image/webp"; payload_type = PayloadType.image })
    ∷ (text ".gif", record { mime = text "image/gif"; payload_type = PayloadType.video })
    ∷ (text ".mp4", record { mime = text "video/mp4"; payload_type = PayloadType.video })
    ∷ (text ".mov", record { mime = text "video/quicktime"; payload_type = PayloadType.video })
    ∷ (text ".mkv", record { mime = text "video/x-matroska"; payload_type = PayloadType.video })
    ∷ (text ".mp3", record { mime = text "audio/mpeg"; payload_type = PayloadType.audio })
    ∷ (text ".ogg", record { mime = text "audio/ogg"; payload_type = PayloadType.audio })
    ∷ (
      text ".opus",
      record { mime = text "audio/ogg; codecs=opus"; payload_type = PayloadType.audio },
    )
    ∷ (text ".wav", record { mime = text "audio/wav"; payload_type = PayloadType.audio })
    ∷ (text ".pdf", record { mime = text "application/pdf"; payload_type = PayloadType.document })
    ∷ (text ".txt", record { mime = text "text/plain"; payload_type = PayloadType.document })
    ∷ (text ".zip", record { mime = text "application/zip"; payload_type = PayloadType.document })
    ∷ []

abbrev pub kind_or_default : Option (Text × MediaKind) → MediaKind
kind_or_default none = record {
  mime = text "application/octet-stream";
  payload_type = PayloadType.document;
}
kind_or_default (some entry) = entry.1

unfoldable pub kind_of : Text → MediaKind
kind_of extension = kind_or_default (find_first (λ entry. text_eq entry.0 extension) kinds)

abbrev pub or_bin : Text → Text
or_bin [] = text ".bin"
or_bin (c ∷ cs) = c ∷ cs

abbrev pub target_dir : StagerConfig → Text → Text
target_dir cfg hash = cfg.join cfg.media_dir (take 2 hash)

abbrev pub target_path : StagerConfig → Text → Text → Text
target_path cfg hash extension = cfg.join (target_dir cfg hash) (hash ++ or_bin extension)

abbrev pub temporary_path : StagerConfig → Text → Text → Text
temporary_path cfg hash uuid =
    cfg.join (target_dir cfg hash) (46 ∷ hash ++ (46 ∷ uuid ++ text ".tmp"))

unfoldable pub on_disk : Text → List DiskFile → Bool
on_disk path = any λ f. text_eq f.path path

abbrev pub unlink : Text → Exec (List DiskFile) (Unit {0})
unlink path = modify λ disk. select (λ f. not (text_eq f.path path)) disk

-- The pipeline with the flag 'wx', the flush of the file and the rename.
unfoldable pub copy_in : StageReadings → Text → Text → Exec (List DiskFile) (Unit {0})
copy_in at temporary target = do
  throw_if (← gets (on_disk temporary)) (plain "EEXIST")
  modify λ disk. disk ++ record { path = temporary; content = at.copied } ∷ []
  throw_if (not at.copy_completed || not at.flushed || not at.renamed) (plain "The copy failed")
  unlink temporary
  unlink target
  modify λ disk. disk ++ record { path = target; content = at.copied } ∷ []

-- The `catch`.
unfoldable pub give_up : Text → Text → Error → Exec (List DiskFile) (Unit {0})
give_up temporary target e = do unlink temporary; throw_if (not (← gets (on_disk target))) e

unfoldable pub place : StageReadings → Text → Text → Exec (List DiskFile) Bool
place at temporary target disk =
    if on_disk target disk
    then (ok false, disk)
    else (do catch_error (copy_in at temporary target) (give_up temporary target); pure true) disk

abbrev pub staged_media : StagerConfig → Text → Text → ℕ → Bool → StagedMedia
staged_media cfg safe hash size created =
    let extension = fold_case (cfg.extname safe) in
    record {
      path = target_path cfg hash extension;
      hash = hash;
      byte_size = size;
      mime_type = (kind_of extension).mime;
      payload_type = (kind_of extension).payload_type;
      safe_filename = safe;
      created = created;
    }

unfoldable pub stage_content :
    StagerConfig → StageReadings → Text → ℕ → Text → Exec (List DiskFile) StagedMedia
stage_content cfg at safe size hash = do
  throw_if (not at.directory_made) (plain "The directory cannot be made")
  created ←
      place at (temporary_path cfg hash at.uuid)
        (target_path cfg hash (fold_case (cfg.extname safe)))
  pure (staged_media cfg safe hash size created)

-- `stage`, for a source whose path is resolved.
unfoldable pub stage :
    StagerConfig → StageReadings → Text → Option Text → Exec (List DiskFile) StagedMedia
stage cfg at source requested = do
  stats ← or_throw at.stat (plain "ENOENT")
  throw_if (not stats.0) (plain "Media path must be a regular file")
  throw_if (ltb cfg.max_bytes stats.1) (plain "Media exceeds configured maximum")
  content ← or_throw at.hashed (plain "The source cannot be read")
  stage_content cfg at (sanitize_filename cfg (get_or requested (cfg.basename source))) stats.1
      (cfg.digest content)
