-- ===== src/Messages/Staging/Kept.antt =====
-- What a staging leaves on the disk.
use whatsapp_bot.Messages.Staging.Names.{IsSafeName, sanitize_filename-IsSafeName}
use whatsapp_bot.Destinations.{fold_case}
use whatsapp_bot.Domain.Errors.{Error, plain}
use whatsapp_bot.Db.Exec.{
  ◌>>◌, throw_if, or_throw, ok, err, Result, ◌>>=◌, catch_error, Exec, pure, continue,
}
use whatsapp_bot.Messages.{StagedMedia}
use whatsapp_bot.Messages.Staging.{
  StageReadings, on_disk, DiskFile, copy_in, give_up, place, StagerConfig, temporary_path,
  stage_content, staged_media, target_path, stage, sanitize_filename,
}
use whatsapp_bot.Base.{
  refl, [], true, false, ◌∷◌, List, Text, ◌≡◌, select, not, ◌++◌, text_eq, inl, inr, Bool-cases, ℕ,
  arith, text_eq_refl, ◌||◌, Bool, none, some, Option, ltb, get_or,
}

-- What is returned: the hash of the bytes that were read first, the path that the hash and the
-- extension make, and a safe name.
pub record IsStaged (cfg : StagerConfig) (at : StageReadings) (m : StagedMedia) : Type 0 where
  pub content : List ℕ
  pub hashed : at.hashed ≡ some content
  pub hash : m.hash ≡ cfg.digest content
  pub path : m.path ≡ target_path cfg m.hash (fold_case (cfg.extname m.safe_filename))
  pub name : IsSafeName m.safe_filename

-- The staging has thrown and the disk is as it was; or it has returned and the target was there
-- and the disk is as it was; or the target is the one new file, with the bytes that were copied.
pub data StageEnds (cfg : StagerConfig) (at : StageReadings) (disk : List DiskFile)
    : Result StagedMedia × List DiskFile → Type 0 where
  thrown : (e : Error) → StageEnds cfg at disk (err e, disk)
  known :
      (m : StagedMedia)
      → IsStaged cfg at m
      → m.created ≡ false
      → on_disk m.path disk ≡ true
      → StageEnds cfg at disk (ok m, disk)
  added :
      (m : StagedMedia)
      → IsStaged cfg at m
      → m.created ≡ true
      → on_disk m.path disk ≡ false
      → at.copy_completed ≡ true
      → StageEnds cfg at disk (ok m, disk ++ record { path = m.path; content = at.copied } ∷ [])

select-others :
    (path : Text) (disk : List DiskFile)
    → on_disk path disk ≡ false
    → select (λ f. not (text_eq f.path path)) disk ≡ disk
unfolding on_disk
select-others path [] h = refl
select-others path (f ∷ disk) h = elim (Bool-cases (text_eq f.path path)) [
  | inl e ↦ absurd (ground arith)
  | inr e ↦ rw (e, select-others path disk (rw e at h))
]

select-added :
    (path : Text) (content : List ℕ) (disk : List DiskFile)
    → on_disk path disk ≡ false
    → select
        (λ f. not (text_eq f.path path))
        (disk ++ record { path = path; content = content } ∷ [])
      ≡ disk
unfolding on_disk
select-added path content [] h = rw (text_eq_refl path)
select-added path content (f ∷ disk) h = elim (Bool-cases (text_eq f.path path)) [
  | inl e ↦ absurd (ground arith)
  | inr e ↦ rw (e, select-added path content disk (rw e at h))
]

module _ (at : StageReadings) (temporary target : Text) (disk : List DiskFile)
    (unused : on_disk temporary disk ≡ false) (absent : on_disk target disk ≡ false) where
  copied :
      (not at.copy_completed || not at.flushed || not at.renamed) ≡ false
      → copy_in at temporary target disk
        ≡ (ok tt, disk ++ record { path = target; content = at.copied } ∷ [])
  unfolding copy_in ◌>>=◌
  copied good =
      rw (
        unused,
        good,
        select-added temporary at.copied disk unused,
        select-others target disk absent,
      )

  not_copied :
      (not at.copy_completed || not at.flushed || not at.renamed) ≡ true
      → catch_error (copy_in at temporary target) (give_up temporary target) disk
        ≡ (err (plain "The copy failed"), disk)
  unfolding copy_in give_up catch_error ◌>>=◌
  not_copied bad = rw (unused, bad, select-added temporary at.copied disk unused, absent)

all_steps : (p q r : Bool) → (not p || not q || not r) ≡ false → p ≡ true
all_steps p q r h = ground arith

-- How the file comes to its place.
data PlaceEnds (at : StageReadings) (target : Text) (disk : List DiskFile)
    : Result Bool × List DiskFile → Type 0 where
  broken : (e : Error) → PlaceEnds at target disk (err e, disk)
  there : on_disk target disk ≡ true → PlaceEnds at target disk (ok false, disk)
  put :
      on_disk target disk ≡ false
      → at.copy_completed ≡ true
      → PlaceEnds at target disk
          (ok true, disk ++ record { path = target; content = at.copied } ∷ [])

caught_copy :
    (m : Exec (List DiskFile) (Unit {0})) (h : Error → Exec (List DiskFile) (Unit {0}))
    (disk after : List DiskFile)
    → m disk ≡ (ok tt, after)
    → catch_error m h disk ≡ (ok tt, after)
unfolding catch_error
caught_copy m h disk after e = rw e

place_ends :
    (at : StageReadings) (temporary target : Text) (disk : List DiskFile)
    → on_disk temporary disk ≡ false
    → PlaceEnds at target disk (place at temporary target disk)
unfolding place ◌>>=◌
place_ends at temporary target disk unused = elim (Bool-cases (on_disk target disk)) [
  | inl known_one ↦ rw known_one (there known_one)
  | inr absent ↦ elim (Bool-cases (not at.copy_completed || not at.flushed || not at.renamed)) [
    | inl bad ↦ rw (absent, not_copied at temporary target disk unused absent bad) (broken _)
    | inr good ↦
        rw (absent, caught_copy _ _ disk _ (copied at temporary target disk unused absent good))
          (put absent (all_steps at.copy_completed at.flushed at.renamed good))
  ]
]

-- A guard, and a lookup that throws when it finds nothing.
module _ {A : Type 0} (disk : List DiskFile) (P : Result A × List DiskFile → Type 0)
    (or_else_thrown : (e : Error) → P (err e, disk)) where
  after_guard :
      (c : Bool) (e : Error) (m : Exec (List DiskFile) A)
      → P (m disk)
      → P ((throw_if c e >> m) disk)
  unfolding ◌>>=◌
  after_guard true e m h = or_else_thrown e
  after_guard false e m h = h

  after_lookup :
      {B : Type 0} (found : Option B) (e : Error) (f : B → Exec (List DiskFile) A)
      → ((b : B) → found ≡ some b → P (f b disk))
      → P ((or_throw found e >>= f) disk)
  unfolding ◌>>=◌
  after_lookup none e f h = or_else_thrown e
  after_lookup (some b) e f h = h b refl

module _ (cfg : StagerConfig) (at : StageReadings) (disk : List DiskFile)
    (unused : (hash : Text) → on_disk (temporary_path cfg hash at.uuid) disk ≡ false) where
  placed :
      (safe : Text) (size : ℕ) (content : List ℕ) (r : Result Bool × List DiskFile)
      → at.hashed ≡ some content
      → IsSafeName safe
      → PlaceEnds at (target_path cfg (cfg.digest content) (fold_case (cfg.extname safe))) disk r
      → StageEnds cfg at disk (
          continue r.0
            (λ created. pure (staged_media cfg safe (cfg.digest content) size created))
            r.1)
  placed safe size content _ e name (broken error) = thrown error
  placed safe size content _ e name (there h) =
      known (staged_media cfg safe (cfg.digest content) size false)
        (record { content = content; hashed = e; hash = refl; path = refl; name = name }) refl h
  placed safe size content _ e name (put absent complete) =
      added (staged_media cfg safe (cfg.digest content) size true)
        (record { content = content; hashed = e; hash = refl; path = refl; name = name }) refl
        absent complete

  module _ (safe : Text) (size : ℕ) (content : List ℕ) (e : at.hashed ≡ some content)
      (name : IsSafeName safe) where
    placed_ends : StageEnds cfg at disk (
        (do
          created ←
              place at
                (temporary_path cfg (cfg.digest content) at.uuid)
                (target_path cfg (cfg.digest content) (fold_case (cfg.extname safe)))
          pure (staged_media cfg safe (cfg.digest content) size created))
          disk)
    unfolding ◌>>=◌
    placed_ends = placed safe size content _ e name (
        place_ends at (temporary_path cfg (cfg.digest content) at.uuid)
          (target_path cfg (cfg.digest content) (fold_case (cfg.extname safe))) disk
          (unused (cfg.digest content)))

    stage_content_ends :
        StageEnds cfg at disk (stage_content cfg at safe size (cfg.digest content) disk)
    unfolding stage_content
    stage_content_ends =
        after_guard disk (StageEnds cfg at disk) thrown (not at.directory_made) _ _ placed_ends

-- When no file has the name of the temporary one, a staging either throws and leaves the disk as it
-- was, whichever step fails; or it returns a target that was there and leaves the disk as it was;
-- or it returns a target that was not there and adds this one file, with all the bytes copied. What
-- is returned has the hash of the bytes that were read first, the path that this hash makes, and a
-- safe name.
pub stage_ends :
    (cfg : StagerConfig) (at : StageReadings) (source : Text) (requested : Option Text)
    (disk : List DiskFile)
    → ((hash : Text) → on_disk (temporary_path cfg hash at.uuid) disk ≡ false)
    → StageEnds cfg at disk (stage cfg at source requested disk)
unfolding stage
stage_ends cfg at source requested disk unused =
    let named = get_or requested (cfg.basename source) in
    after_lookup disk (StageEnds cfg at disk) thrown at.stat _ _ (λ stats _.
      after_guard disk (StageEnds cfg at disk) thrown (not stats.0) _ _ (
        after_guard disk (StageEnds cfg at disk) thrown (ltb cfg.max_bytes stats.1) _ _ (
          after_lookup disk (StageEnds cfg at disk) thrown at.hashed _ _ (λ content e.
            stage_content_ends cfg at disk unused (sanitize_filename cfg named) stats.1 content e
              (sanitize_filename-IsSafeName cfg named)))))
