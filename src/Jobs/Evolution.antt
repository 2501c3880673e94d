-- ===== src/Jobs/Evolution.antt =====
-- How the rows of `message_jobs` may change from one state of the database to a later one: no row
-- is lost, what was asked for is never rewritten, and statuses move along the transition table.
use whatsapp_bot.Base.{
  Option, String, Text, refl, ℕ, ◌≡◌, ◌∙◌, ap, Bool, true, some, List, map, ◌==◌, if◌then◌else◌,
  update_where, map-update_where, find_first-update_where, find_first-mem, arith, inl, inr,
  Bool-cases, Memᴰ,
}
use whatsapp_bot.Domain.Jobs.Graph.{◌⟶*◌, here, ⟶*-trans}
use whatsapp_bot.Domain.Queue.{QueueJob}
use whatsapp_bot.Db.{Db, EventType, EntityType, Details}
use whatsapp_bot.Db.Exec.{Exec}
use whatsapp_bot.Db.Audit.{insert_audit}
use whatsapp_bot.Db.Keeps.{KeepsAt}
use whatsapp_bot.Jobs.Rows.{update_jobs, active_keys_unique}
use whatsapp_bot.Jobs.Invariant.{IsValid, id_of, uuid_of, find_id}

-- The columns that are written once, by `create`.
pub record SameRequest (a b : QueueJob) : Type 0 where
  pub id : b.id ≡ a.id
  pub uuid : b.uuid ≡ a.uuid
  pub destination_jid : b.destination_jid ≡ a.destination_jid
  pub payload_type : b.payload_type ≡ a.payload_type
  pub text : b.text ≡ a.text
  pub media_path : b.media_path ≡ a.media_path
  pub media_hash : b.media_hash ≡ a.media_hash
  pub media_mime : b.media_mime ≡ a.media_mime
  pub filename : b.filename ≡ a.filename
  pub scheduled_at : b.scheduled_at ≡ a.scheduled_at
  pub max_attempts : b.max_attempts ≡ a.max_attempts
  pub idempotency_key : b.idempotency_key ≡ a.idempotency_key
  pub options_json : b.options_json ≡ a.options_json
  pub requested_by : b.requested_by ≡ a.requested_by
  pub created_at : b.created_at ≡ a.created_at
  pub batch_id : b.batch_id ≡ a.batch_id
  pub dry_run : b.dry_run ≡ a.dry_run
  pub forward_source_key : b.forward_source_key ≡ a.forward_source_key

pub record Follows (a b : QueueJob) : Type 0 where
  pub request : SameRequest a b
  pub path : a.status ⟶* b.status

pub SameRequest-refl : (a : QueueJob) → SameRequest a a
SameRequest-refl a = ground arith

SameRequest-trans : {a b c : QueueJob} → SameRequest a b → SameRequest b c → SameRequest a c
SameRequest-trans p q = record {
  id = q.id ∙ p.id;
  uuid = q.uuid ∙ p.uuid;
  destination_jid = q.destination_jid ∙ p.destination_jid;
  payload_type = q.payload_type ∙ p.payload_type;
  text = q.text ∙ p.text;
  media_path = q.media_path ∙ p.media_path;
  media_hash = q.media_hash ∙ p.media_hash;
  media_mime = q.media_mime ∙ p.media_mime;
  filename = q.filename ∙ p.filename;
  scheduled_at = q.scheduled_at ∙ p.scheduled_at;
  max_attempts = q.max_attempts ∙ p.max_attempts;
  idempotency_key = q.idempotency_key ∙ p.idempotency_key;
  options_json = q.options_json ∙ p.options_json;
  requested_by = q.requested_by ∙ p.requested_by;
  created_at = q.created_at ∙ p.created_at;
  batch_id = q.batch_id ∙ p.batch_id;
  dry_run = q.dry_run ∙ p.dry_run;
  forward_source_key = q.forward_source_key ∙ p.forward_source_key;
}

pub Follows-refl : (a : QueueJob) → Follows a a
Follows-refl a = record { request = SameRequest-refl a; path = here }

pub Follows-trans : {a b c : QueueJob} → Follows a b → Follows b c → Follows a c
Follows-trans p q = record {
  request = SameRequest-trans p.request q.request;
  path = ⟶*-trans p.path q.path;
}

-- A row and what has become of it.
abbrev pub Successor : QueueJob → List QueueJob → Type 0
Successor row rows = (next : QueueJob) × (find_id row.id rows ≡ some next) × Follows row next

abbrev pub Evolves : List QueueJob → List QueueJob → Type 0
Evolves rows rows' =
    (k : ℕ) (row : QueueJob)
    → find_id k rows ≡ some row
    → (next : QueueJob) × (find_id k rows' ≡ some next) × Follows row next

pub Evolves-refl : (rows : List QueueJob) → Evolves rows rows
Evolves-refl rows k row e = (row, e, Follows-refl row)

pub Evolves-trans : (r s t : List QueueJob) → Evolves r s → Evolves s t → Evolves r t
Evolves-trans r s t p q k row e =
    let (b, eb, fb) = p k row e in let (c, ec, fc) = q k b eb in (c, ec, Follows-trans fb fc)

-- What every operation on the queue does: from a valid database it leads to a valid one, whose
-- rows follow the old ones.
abbrev pub Sound : Db → Db → Type 0
Sound db db' = IsValid db → IsValid db' × Evolves db.jobs db'.jobs

pub Sound-refl : (db : Db) → Sound db db
Sound-refl db v = (v, Evolves-refl db.jobs)

pub Sound-trans : (a b c : Db) → Sound a b → Sound b c → Sound a c
Sound-trans a b c p q v =
    let (vb, eb) = p v in let (vc, ec) = q vb in (vc, Evolves-trans a.jobs b.jobs c.jobs eb ec)

-- A change of other tables only.
pub Sound-of_same_jobs :
    (db db' : Db) → db'.jobs ≡ db.jobs → db'.job_seq ≡ db.job_seq → Sound db db'
Sound-of_same_jobs db db' e n v = (
  record {
    ids_ascend = rw e v.ids_ascend;
    ids_given = rw (e, n) v.ids_given;
    uuids_differ = rw e v.uuids_differ;
    uuids_dashed = rw e v.uuids_dashed;
    index_holds = rw e v.index_holds;
  },
  rw e (Evolves-refl db.jobs),
)

abbrev pub SoundAt : {A : Type 0} → Exec Db A → Db → Type 0
SoundAt m db = KeepsAt Sound m db

module _ (p : QueueJob → Bool) (f : QueueJob → QueueJob) where
  Evolves-update_where :
      (rows : List QueueJob)
      → ((row : QueueJob) → (f row).id ≡ row.id)
      → ((row : QueueJob) → Memᴰ row rows → p row ≡ true → Follows row (f row))
      → Evolves rows (update_where p f rows)
  Evolves-update_where rows same follows k row e = elim (Bool-cases (p row)) [
    | inl hit ↦ (f row, found ∙ (rw hit), follows row (find_first-mem _ rows e) hit)
    | inr miss ↦ (row, found ∙ (rw miss), Follows-refl row)
  ]
    where
      found : find_id k (update_where p f rows) ≡ some (if p row then f row else row)
      found = find_first-update_where p f (λ j. j.id == k) rows row (λ y. rw (same y)) e

  -- An update of rows that may make the move, under an intact index.
  pub Sound-update :
      (db db' : Db)
      → ((row : QueueJob) → (f row).id ≡ row.id)
      → ((row : QueueJob) → (f row).uuid ≡ row.uuid)
      → (IsValid db → (row : QueueJob) → Memᴰ row db.jobs → p row ≡ true → Follows row (f row))
      → active_keys_unique (update_where p f db.jobs) ≡ true
      → db'.jobs ≡ update_where p f db.jobs
      → db'.job_seq ≡ db.job_seq
      → Sound db db'
  Sound-update db db' same_id same_uuid follows index e n v =
      let ids = ap (map id_of) e ∙ map-update_where p f id_of db.jobs same_id in
      let uuids = ap (map uuid_of) e ∙ map-update_where p f uuid_of db.jobs same_uuid in
      (
        record {
          ids_ascend = rw ids v.ids_ascend;
          ids_given = rw (ids, n) v.ids_given;
          uuids_differ = rw uuids v.uuids_differ;
          uuids_dashed = rw uuids v.uuids_dashed;
          index_holds = rw e index;
        },
        rw e (Evolves-update_where db.jobs same_id (follows v)),
      )

  -- The UPDATE itself, whether or not the index admits it.
  pub update_jobs-SoundAt :
      (db : Db)
      → ((row : QueueJob) → (f row).id ≡ row.id)
      → ((row : QueueJob) → (f row).uuid ≡ row.uuid)
      → (IsValid db → (row : QueueJob) → Memᴰ row db.jobs → p row ≡ true → Follows row (f row))
      → SoundAt (update_jobs p f) db
  unfolding update_jobs
  update_jobs-SoundAt db same_id same_uuid follows = record { at = updated }
    where
      updated : Sound db (update_jobs p f db).1
      updated = elim (Bool-cases (active_keys_unique (update_where p f db.jobs))) [
        | inl e ↦ rw e (
            Sound-update db (record db { jobs = update_where p f db.jobs }) same_id same_uuid
              follows e refl refl)
        | inr e ↦ rw e (Sound-refl db)
      ]

pub insert_audit-SoundAt :
    (now : ℕ) (event : EventType) (actor : String) (entity : Option EntityType) (id : Option Text)
    (details : Option Details) (db : Db)
    → SoundAt (insert_audit now event actor entity id details) db
unfolding insert_audit
insert_audit-SoundAt now event actor entity id details db = record {
  at = Sound-of_same_jobs db _ refl refl;
}
