-- ===== src/Commands/Accounts.antt =====
-- What the reply to `/sendset` says of the members of the set.
use whatsapp_bot.Bulk.Counting.{bulk_enqueue_counts}
use whatsapp_bot.Domain.Groups.{Destination}
use whatsapp_bot.Db.{sendset}
use whatsapp_bot.GroupSets.{normalize_group_set_name}
use whatsapp_bot.Commands.Parse.{NamedMessage, named_message}
use whatsapp_bot.Targets.Distinct.{is_given, resolve_targets_tallies}
use whatsapp_bot.Targets.{Targets}
use whatsapp_bot.GroupSets.Listing.{GroupSetMember, members}
use whatsapp_bot.Messages.{Store}
use whatsapp_bot.Bulk.{BulkEnqueueResult, BulkEnqueueRequest, bulk_enqueue}
use whatsapp_bot.Commands.BulkCommands.{
  queue_bulk, BulkServices, send_set, bulk_call, send_set_parsed, SetCounts, with_set, BulkReply,
  with_members, no_eligible_groups, set_queued, present, set_counts, send_set_to, bulk_request,
  is_disabled_issue, unless_empty,
}
use whatsapp_bot.Db.Exec.{ok, Result, ◌>>=◌}
use whatsapp_bot.Base.{
  refl, [], none, some, true, false, inl, inr, ◌∷◌, ℕ, Text, List, All, ◌≡◌, any, ◌+◌, count_if,
  text_eq, ◌⊎◌, map, length, text, Bool-cases, is_some, arith, count_if-le-length, ◌∙◌,
  length-select,
}

-- The reply counts every member of the set once: as queued, as a duplicate job, as failed, as a
-- duplicate target, as disabled or as missing.
pub record CountsMembers (count : ℕ) (r : BulkEnqueueResult) (c : SetCounts) : Type 0 where
  pub members : c.members ≡ count
  pub each_once :
      r.queued + r.duplicate_jobs + r.failed + r.duplicate_targets + c.disabled + c.missing ≡ count

-- The set is queued with such a reply, or no member is eligible and nothing is done.
abbrev pub SendSetEnds : Text → ℕ → Store → Result BulkReply × Store → Type 0
SendSetEnds name count s ended =
    (ended ≡ (ok (no_eligible_groups name), s))
    ⊎ ((r : BulkEnqueueResult) × (c : SetCounts) × (ended.0 ≡ ok (set_queued name r c))
        × CountsMembers count r c)

every_member_given :
    (ms : List GroupSetMember)
    → All (λ m. is_given m.jid ≡ true) ms
    → count_if is_given (map (λ m. m.jid) (present ms)) ≡ length (present ms)
every_member_given [] h = refl
every_member_given (m ∷ ms) h = elim (Bool-cases (is_some m.destination)) [
  | inl e ↦ rw (e, h.0, every_member_given ms h.1)
  | inr e ↦ rw (e, every_member_given ms h.1)
]

queue_bulk_ends :
    (v : BulkServices) (request : BulkEnqueueRequest) (say : BulkEnqueueResult → BulkReply)
    (s : Store) (r : BulkEnqueueResult)
    → (bulk_enqueue v.cfg request v.batch v.others v.fresh s).0 ≡ ok r
    → (queue_bulk v request say s).0 ≡ ok (say r)
unfolding queue_bulk bulk_call ◌>>=◌
queue_bulk_ends v request say s r e = rw e

module _ (v : BulkServices) (message name : Text) (ms : List GroupSetMember) (t : Targets)
    (s : Store) (free : any (λ b. text_eq b.id v.batch.uuid) s.db.batches ≡ false)
    (tallied : length t.resolved + length t.issues + t.duplicates ≡ length (present ms)) where
  counted_members :
      (r : BulkEnqueueResult)
      → r.queued + r.duplicate_jobs + r.failed ≡ r.targets
      → r.targets + r.duplicate_targets ≡ t.duplicates + length t.resolved
      → CountsMembers (length ms) r (set_counts ms t)
  unfolding set_counts
  counted_members r e f = record {
    members = refl;
    each_once = omega (
      arith,
      e,
      f,
      tallied,
      count_if-le-length is_disabled_issue t.issues,
      count_if-le-length (λ m. is_some m.destination) ms,
      length-select (λ m. is_some m.destination) ms,
    );
  }

  send_set_to_ends : SendSetEnds name (length ms) s (send_set_to v message name ms t s)
  unfolding send_set_to
  send_set_to_ends = by_targets t.resolved refl
    where
      by_targets :
          (ds : List Destination)
          → t.resolved ≡ ds
          → SendSetEnds name (length ms) s (
              unless_empty ds
                (no_eligible_groups name)
                (queue_bulk v
                  (bulk_request sendset t.resolved (some message) none t.duplicates)
                  (λ r. set_queued name r (set_counts ms t)))
                s)
      by_targets [] e = inl refl
      by_targets (d ∷ ds) e =
          let (distinct, (r, ended, targets, counted, asked)) =
            bulk_enqueue_counts v.cfg
              (bulk_request sendset t.resolved (some message) none t.duplicates) v.batch v.others
              v.fresh s free in
          inr (r, set_counts ms t, queue_bulk_ends v _ _ s r ended, counted_members r counted asked)

-- For a command that names a set that exists, whose members' jids are not blank, and for a fresh
-- batch id, `/sendset` ends with a reply that counts every member once, as queued, as a duplicate
-- job, as failed, as a duplicate target, as disabled or as missing; or it says that no member is
-- eligible and changes nothing.
pub send_set_accounts :
    (v : BulkServices) (command name : Text) (parsed : NamedMessage) (ms : List GroupSetMember)
    (s : Store)
    → named_message (text "/sendset") command ≡ some parsed
    → normalize_group_set_name parsed.name ≡ some name
    → members name s.db ≡ some ms
    → All (λ m. is_given m.jid ≡ true) ms
    → any (λ b. text_eq b.id v.batch.uuid) s.db.batches ≡ false
    → SendSetEnds name (length ms) s (send_set v command s)
unfolding send_set send_set_parsed with_set with_members
send_set_accounts v command name parsed ms s e f g given free =
    let (t, resolved, tally) =
      resolve_targets_tallies v.codec true s.db (map (λ m. m.jid) (present ms)) in
    let ends =
      send_set_to_ends v parsed.message name ms t s free
        (tally.counted ∙ every_member_given ms given) in
    rw (e, f, g, resolved) ends
