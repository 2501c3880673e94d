-- ===== src/Jobs/Invariant.antt =====
-- The invariant of `message_jobs`: the numbers of AUTOINCREMENT ascend, no job can be referred to
-- by two names, and the unique index holds.
use whatsapp_bot.Base.{
  ==_iff, sym, subst, ℕ, ◌≤◌, ◌<◌, ◌≡◌, Text, text_eq, text_eq_refl, decimal, true, false, Option,
  some, List, [], ◌∷◌, map, Memᴰ, ◌==◌, All, Pairwise, find_first, arith, has_dash,
  decimal-has_dash, text_eq-has_dash, Bool, update_where, find_first-update_where, ◌∙◌,
}
use whatsapp_bot.Domain.Queue.{QueueJob}
use whatsapp_bot.Db.{Db}
use whatsapp_bot.Jobs.Rows.{row_matches, active_keys_unique}

abbrev pub id_of : QueueJob → ℕ
id_of row = row.id

abbrev pub uuid_of : QueueJob → Text
uuid_of row = row.uuid

abbrev pub DiffersFrom : Text → Text → Type 0
DiffersFrom s t = text_eq s t ≡ false

-- `randomUUID` writes dashes, so that no uuid is the decimal print of a number.
pub record IsValid (db : Db) : Type 0 where
  pub ids_ascend : Pairwise ◌<◌ (map id_of db.jobs)
  pub ids_given : All (λ k. k ≤ db.job_seq) (map id_of db.jobs)
  pub uuids_differ : Pairwise DiffersFrom (map uuid_of db.jobs)
  pub uuids_dashed : All (λ u. has_dash u ≡ true) (map uuid_of db.jobs)
  pub index_holds : active_keys_unique db.jobs ≡ true

-- The row with a given number.
abbrev pub find_id : ℕ → List QueueJob → Option QueueJob
find_id k = find_first (λ row. row.id == k)

pub All-map-mem {ℓ} :
    {A : Type ℓ} (P : A → Type 0) (g : QueueJob → A) (rows : List QueueJob) {row : QueueJob}
    → All P (map g rows)
    → Memᴰ row rows
    → P (g row)
All-map-mem P g [] h i = elim i [ ]
All-map-mem P g (x ∷ rows) h (Memᴰ.head e) = subst (λ r. P (g r)) (sym e) h.0
All-map-mem P g (x ∷ rows) h (Memᴰ.tail i) = All-map-mem P g rows h.1 i

-- Every row of the table is the one that its number finds.
pub find_id_of_mem :
    (rows : List QueueJob) (row : QueueJob)
    → Pairwise ◌<◌ (map id_of rows)
    → Memᴰ row rows
    → find_id row.id rows ≡ some row
find_id_of_mem [] row h i = elim i [ ]
find_id_of_mem (x ∷ rows) row h (Memᴰ.head e) = rw e (ground arith)
find_id_of_mem (x ∷ rows) row h (Memᴰ.tail i) =
    ground (arith, All-map-mem (λ k. x.id < k) id_of rows h.0 i, find_id_of_mem rows row h.1 i)

row_matches_self : (row : QueueJob) → row_matches row.uuid row ≡ true
unfolding row_matches
row_matches_self row = ground (arith, text_eq_refl row.uuid)

row_matches_other :
    (uuid : Text) (row : QueueJob)
    → text_eq row.uuid uuid ≡ false
    → has_dash uuid ≡ true
    → row_matches uuid row ≡ false
unfolding row_matches
row_matches_other uuid row h d =
    ground (arith, text_eq-has_dash (decimal row.id) uuid, decimal-has_dash row.id)

-- Every row of the table is the one that its uuid finds.
pub find_uuid_of_mem :
    (rows : List QueueJob) (row : QueueJob)
    → Pairwise DiffersFrom (map uuid_of rows)
    → All (λ u. has_dash u ≡ true) (map uuid_of rows)
    → Memᴰ row rows
    → find_first (row_matches row.uuid) rows ≡ some row
find_uuid_of_mem [] row h d i = elim i [ ]
find_uuid_of_mem (x ∷ rows) row h d (Memᴰ.head e) = rw e (ground (arith, row_matches_self x))
find_uuid_of_mem (x ∷ rows) row h d (Memᴰ.tail i) = ground (
  arith,
  find_uuid_of_mem rows row h.1 d.1 i,
  row_matches_other row.uuid x (All-map-mem (DiffersFrom x.uuid) uuid_of rows h.0 i)
      (All-map-mem (λ u. has_dash u ≡ true) uuid_of rows d.1 i),
)

-- In a valid table a number belongs to one row.
pub row_of_id :
    {db : Db} (a b : QueueJob)
    → IsValid db
    → Memᴰ a db.jobs
    → Memᴰ b db.jobs
    → (a.id == b.id) ≡ true
    → a ≡ b
row_of_id {db} a b v i j e =
    let same : a.id ≡ b.id = (==_iff a.id b.id).0 e in
    let at_a : find_id b.id db.jobs ≡ some a =
      subst (λ k. find_id k db.jobs ≡ some a) same (find_id_of_mem db.jobs a v.ids_ascend i) in
    cc (find_id_of_mem db.jobs b v.ids_ascend j)

-- After an UPDATE that keeps numbers and uuids, the uuid of an updated row finds its new version.
pub updated_row_found :
    (p : QueueJob → Bool) (f : QueueJob → QueueJob) (db : Db) (old : QueueJob)
    → ((row : QueueJob) → (f row).id ≡ row.id)
    → ((row : QueueJob) → (f row).uuid ≡ row.uuid)
    → IsValid db
    → Memᴰ old db.jobs
    → p old ≡ true
    → find_first (row_matches old.uuid) (update_where p f db.jobs) ≡ some (f old)
unfolding row_matches
updated_row_found p f db old same_id same_uuid v i hit =
    find_first-update_where p f (row_matches old.uuid) db.jobs old
      (λ y. rw (same_id y, same_uuid y))
      (find_uuid_of_mem db.jobs old v.uuids_differ v.uuids_dashed i)
    ∙ (rw hit)
