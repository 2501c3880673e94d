-- ===== src/Tests/Services.antt =====
-- The theorems on the services that fill the queue, at small databases.
use whatsapp_bot.GroupSets.Membership.{
  is_listed, has_member, add_members_adds, remove_members_removes,
}
use whatsapp_bot.Messages.Suppression.{enqueue_forward_suppresses}
use whatsapp_bot.Domain.Jobs.{is_active}
use whatsapp_bot.Bulk.Counting.{JidsDiffer, bulk_enqueue_counts}
use whatsapp_bot.Bulk.{BulkEnqueueRequest, unique_destinations, BulkEnqueueResult, bulk_enqueue}
use whatsapp_bot.Jobs.Rows.{find_by_idempotency_key, is_active_with}
use whatsapp_bot.Destinations.{resolve, eq_nocase, refers}
use whatsapp_bot.Messages.{
  MessageConfig, Fresh, ForwardRequest, QueueMessageRequest, Store, enqueue_forward,
}
use whatsapp_bot.GroupSets.{GroupSet, select_set, add_members, remove_members, MembershipChange}
use whatsapp_bot.Db.{Db, sendmulti, MemberRow}
use whatsapp_bot.Db.Exec.{ok}
use whatsapp_bot.Base.{
  refl, [], none, some, true, false, ◌∷◌, Text, ◌++◌, List, ◌≡◌, Pairwise, Option, text, count_if,
  if◌then◌else◌, text_eq, ◌==◌, map_option, length, All, select, ◌+◌, not,
}
use whatsapp_bot.Tests.Samples.{sample_db, sample_db-IsValid, pending_row, group_jid, group}
use whatsapp_bot.Targets.{JidCodec, Targets, resolve_targets}
use whatsapp_bot.Targets.Distinct.{IsTally, is_given, resolve_targets_tallies}

-- Splits at the first '@'.
unfoldable pub split_jid : Text → Option (Text × Text)
split_jid [] = none
split_jid (c ∷ cs) =
    if c == 64 then some ([], cs) else map_option (λ p. (c ∷ p.0, p.1)) (split_jid cs)

abbrev pub sample_codec : JidCodec
sample_codec = record { decode = split_jid; encode = λ user server. user ++ 64 ∷ server }

abbrev sample_inputs : List Text
sample_inputs = text "a@g.us" ∷ text " a@g.us" ∷ text "  " ∷ text "b" ∷ []

abbrev pub groups_db : Db
groups_db = record sample_db {
  destinations = group (text "a@g.us") true ∷ [];
  group_sets = record { id = 1; name = text "fam"; created_at = 1; updated_at = 1 } ∷ [];
  group_set_seq = 1;
  members = record { group_set_id = 1; destination_jid = text "a@g.us"; created_at = 1 } ∷ [];
}

resolve_targets_tallies_example :
    (result : Targets) × (resolve_targets sample_codec true groups_db sample_inputs ≡ some result)
    × IsTally sample_codec true (count_if is_given sample_inputs) result
resolve_targets_tallies_example = resolve_targets_tallies sample_codec true groups_db sample_inputs

abbrev family : GroupSet
family = record { id = 1; name = text "fam"; member_count = 1; created_at = 1; updated_at = 1 }

abbrev sample_jids : List Text
sample_jids = text "a@g.us" ∷ text "b@g.us" ∷ []

add_members_adds_example :
    let (result, after) = add_members 100 (text "FAM") sample_jids "cli" groups_db in
    (change : MembershipChange) × (extra : List MemberRow) × (result ≡ ok (some change))
    × All (λ jid. has_member 1 after.members jid ≡ true) sample_jids
    × (after.members ≡ groups_db.members ++ extra)
    × (length extra ≡ change.changed)
    × (change.changed + change.unchanged ≡ 2)
unfolding select_set eq_nocase text text_eq
add_members_adds_example = add_members_adds 100 (text "FAM") sample_jids "cli" groups_db family refl

remove_members_removes_example :
    let (result, after) = remove_members 100 (text "FAM") sample_jids "cli" groups_db in
    (change : MembershipChange) × (result ≡ ok (some change))
    × (change.changed ≡ count_if (is_listed 1 sample_jids) groups_db.members)
    × (after.members ≡ select (λ row. not (is_listed 1 sample_jids row)) groups_db.members)
    × (after.jobs ≡ groups_db.jobs)
unfolding select_set eq_nocase text text_eq
remove_members_removes_example =
    remove_members_removes 100 (text "FAM") sample_jids "cli" groups_db family refl

abbrev pub message_config : MessageConfig
message_config = record {
  digest = λ input. 1 ∷ [];
  stringify = λ options. [];
  normalize_nfc = λ s. s;
  dry_run = false;
  max_attempts = 3;
}

abbrev pub fresh_values : Fresh
fresh_values = record { now = 100; uuid = 97 ∷ 45 ∷ 57 ∷ [] }

abbrev forward_request : ForwardRequest
forward_request = record {
  destination = group_jid;
  source_key = 9 ∷ [];
  scheduled_at = none;
  actor = none;
  batch_id = none;
}

enqueue_forward_suppresses_example :
    enqueue_forward message_config fresh_values forward_request sample_db
    ≡ (ok (record { job = pending_row; duplicate = true }), sample_db)
unfolding resolve refers eq_nocase text_eq find_by_idempotency_key is_active_with is_active
enqueue_forward_suppresses_example =
    enqueue_forward_suppresses message_config fresh_values forward_request sample_db
      (group group_jid true) pending_row sample_db-IsValid refl (refl, refl) refl refl refl

abbrev text_request : QueueMessageRequest
text_request = record {
  destination = group_jid;
  text = some (72 ∷ []);
  media_path = none;
  filename = none;
  scheduled_at = none;
  force = false;
  actor = none;
  options = none;
  batch_id = none;
  dry_run = none;
}

abbrev sample_store : Store
sample_store = record { db = sample_db; files = [] }

abbrev bulk_request : BulkEnqueueRequest
bulk_request = record {
  batch_type = sendmulti;
  destinations = group group_jid true ∷ group group_jid true ∷ [];
  text = some (72 ∷ []);
  forward_source_key = none;
  scheduled_at = none;
  force = false;
  actor = none;
  duplicate_targets = none;
}

bulk_enqueue_counts_example :
    Pairwise JidsDiffer (unique_destinations bulk_request.destinations)
    × ((result : BulkEnqueueResult) × ((bulk_enqueue message_config bulk_request fresh_values
            (λ jid s. s)
            (λ jid. fresh_values)
            sample_store).0
          ≡ ok result)
        × (result.targets ≡ length (unique_destinations bulk_request.destinations))
        × (result.queued + result.duplicate_jobs + result.failed ≡ result.targets)
        × (result.targets + result.duplicate_targets ≡ 0 + 2))
bulk_enqueue_counts_example =
    bulk_enqueue_counts message_config bulk_request fresh_values (λ jid s. s) (λ jid. fresh_values)
      sample_store refl
