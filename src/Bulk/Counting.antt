-- ===== src/Bulk/Counting.antt =====
-- The counts that a bulk send reports.
use whatsapp_bot.Db.Audit.{insert_audit}
use whatsapp_bot.Domain.Groups.{Destination}
use whatsapp_bot.Db.Exec.{ok, err, Result, immediate_transaction, ◌>>=◌}
use whatsapp_bot.Base.{
  [], false, inl, inr, suc, ◌∷◌, ℕ, Text, List, ◌+◌, ◌≡◌, text_eq, length, All, Pairwise, arith,
  ◌≤◌, Bool-cases, get_or, subst, text_eq_sound, refl, any, ◌∙◌,
}
use whatsapp_bot.Bulk.{
  enqueue_all, tally, Counts, put_unique, unique_from, unique_destinations, BulkEnqueueRequest,
  enqueue_one, bulk_enqueue, BulkEnqueueResult, create_batch, bulk_result,
}
use whatsapp_bot.Messages.{MessageConfig, Store, Fresh, QueueMessageResult}

abbrev pub total : Counts → ℕ
total c = c.queued + c.duplicate_jobs + c.failed

total-tally : (r : Result QueueMessageResult) (c : Counts) → total (tally r c) ≡ suc (total c)
unfolding tally
total-tally (ok r) c = ground arith
total-tally (err e) c = omega arith

total-enqueue_all :
    (cfg : MessageConfig) (request : BulkEnqueueRequest) (batch_id : Text)
    (others : Text → Store → Store) (fresh : Text → Fresh) (ds : List Destination) (c : Counts)
    (s : Store)
    → total (enqueue_all cfg request batch_id others fresh ds c s).0 ≡ total c + length ds
unfolding enqueue_all
total-enqueue_all cfg request batch_id others fresh [] c s = omega arith
total-enqueue_all cfg request batch_id others fresh (d ∷ ds) c s =
    let r = (enqueue_one cfg request batch_id (fresh d.jid) d.jid (others d.jid s)).0 in
    omega
      (arith, total-enqueue_all cfg request batch_id others fresh ds (tally r c) _, total-tally r c)

-- Two entries of the Map have different jids.
abbrev pub JidsDiffer : Destination → Destination → Type 0
JidsDiffer a b = text_eq a.jid b.jid ≡ false

length-put_unique :
    (d : Destination) (es : List Destination) → length (put_unique d es) ≤ suc (length es)
unfolding put_unique
length-put_unique d [] = omega arith
length-put_unique d (e ∷ es) = ground (arith, length-put_unique d es)

All-put_unique :
    (P : Text → Type 0) (d : Destination) (es : List Destination)
    → All (λ e. P e.jid) es
    → P d.jid
    → All (λ e. P e.jid) (put_unique d es)
unfolding put_unique
All-put_unique P d [] h p = (p, tt)
All-put_unique P d (e ∷ es) h p = elim (Bool-cases (text_eq e.jid d.jid)) [
  | inl same ↦ rw same (p, h.1)
  | inr other ↦ rw other (h.0, All-put_unique P d es h.1 p)
]

put_unique-distinct :
    (d : Destination) (es : List Destination)
    → Pairwise JidsDiffer es
    → Pairwise JidsDiffer (put_unique d es)
unfolding put_unique
put_unique-distinct d [] h = (tt, tt)
put_unique-distinct d (e ∷ es) h = elim (Bool-cases (text_eq e.jid d.jid)) [
  | inl same ↦
      rw same (
        subst (λ j. All (λ x. text_eq j x.jid ≡ false) es) (text_eq_sound e.jid d.jid same) h.0,
        h.1,
      )
  | inr other ↦
      rw other
        (All-put_unique (λ j. text_eq e.jid j ≡ false) d es h.0 other, put_unique-distinct d es h.1)
]

unique_from-distinct :
    (ds es : List Destination) → Pairwise JidsDiffer es → Pairwise JidsDiffer (unique_from ds es)
unfolding unique_from
unique_from-distinct [] es h = h
unique_from-distinct (d ∷ ds) es h = unique_from-distinct ds _ (put_unique-distinct d es h)

length-unique_from : (ds es : List Destination) → length (unique_from ds es) ≤ length ds + length es
unfolding unique_from
length-unique_from [] es = omega arith
length-unique_from (d ∷ ds) es =
    omega (arith, length-unique_from ds (put_unique d es), length-put_unique d es)

-- A bulk send with a fresh batch id returns, whatever the others do in between and however the
-- single sends end. Its targets have pairwise different jids; every target counts once, as queued,
-- as a duplicate job or as failed; and targets and duplicate targets add up to what was asked for.
pub bulk_enqueue_counts :
    (cfg : MessageConfig) (request : BulkEnqueueRequest) (batch : Fresh)
    (others : Text → Store → Store) (fresh : Text → Fresh) (s : Store)
    → any (λ b. text_eq b.id batch.uuid) s.db.batches ≡ false
    → Pairwise JidsDiffer (unique_destinations request.destinations)
      × ((result : BulkEnqueueResult) × ((bulk_enqueue cfg request batch others fresh s).0
            ≡ ok result)
          × (result.targets ≡ length (unique_destinations request.destinations))
          × (result.queued + result.duplicate_jobs + result.failed ≡ result.targets)
          × (result.targets + result.duplicate_targets
              ≡ get_or request.duplicate_targets 0 + length request.destinations))
unfolding bulk_enqueue create_batch immediate_transaction ◌>>=◌ insert_audit bulk_result
bulk_enqueue_counts cfg request batch others fresh s free =
    let targets = unique_destinations request.destinations in
    (
      unique_from-distinct request.destinations [] tt,
      rw free (
        _,
        refl,
        refl,
        total-enqueue_all cfg request batch.uuid others fresh targets _ _ ∙ (omega arith),
        omega (arith, length-unique_from request.destinations []),
      ),
    )
