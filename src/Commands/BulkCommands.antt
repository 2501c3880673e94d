-- ===== src/Commands/BulkCommands.antt =====
-- src/whatsapp/bulk-controller-commands.ts: one message, or one forwarded message, to many groups.
use whatsapp_bot.Targets.{TargetIssueReason, TargetIssue, JidCodec, Targets, resolve_targets, trim}
use whatsapp_bot.Commands.{split_from}
use whatsapp_bot.Domain.Errors.{plain}
use whatsapp_bot.GroupSets.{normalize_group_set_name}
use whatsapp_bot.Bulk.Status.{BatchStatus, batch_status}
use whatsapp_bot.Commands.Parse.{
  MultiMessage, NamedMessage, multi_message, message_after, named_message,
}
use whatsapp_bot.GroupSets.Listing.{GroupSetMember, members}
use whatsapp_bot.Targets.Snapshot.{AllowedSnapshot, snapshot_allowed}
use whatsapp_bot.Domain.Groups.{Destination}
use whatsapp_bot.Bulk.{BulkEnqueueRequest, BulkEnqueueResult, bulk_enqueue}
use whatsapp_bot.Db.{BatchType, Db, sendmulti, sendall, sendset}
use whatsapp_bot.Messages.{MessageConfig, Fresh, Store}
use whatsapp_bot.Db.Exec.{ok, Exec, ◌>>=◌, throw, pure}
use whatsapp_bot.Base.{
  [], none, some, true, false, ◌∷◌, ℕ, Text, Option, List, Bool, select, count_if, map, is_some,
  length, ◌+◌, ◌-◌, text, if◌then◌else◌, ltb, ◌||◌, any, is_empty,
}

-- What the commands work with: the configuration of the message service, Baileys' coding of jids,
-- the reading of clock and `randomUUID` for the batch and for each destination, and what other
-- tasks do to the store in the await before a destination.
pub record BulkServices : Type 0 where
  pub cfg : MessageConfig
  pub codec : JidCodec
  pub batch : Fresh
  pub fresh : Text → Fresh
  pub others : Text → Store → Store

-- The counts that the reply to a set gives.
pub record SetCounts : Type 0 where
  pub members : ℕ
  pub eligible : ℕ
  pub disabled : ℕ
  pub missing : ℕ

-- The replies, by what they say.
pub data BulkReply : Type 0 where
  usage_forward_multi usage_multi usage_all usage_set invalid_set_name : BulkReply
  no_allowed_groups nothing_to_forward : BulkReply
  set_not_found no_eligible_groups batch_not_found : Text → BulkReply
  invalid_targets : List TargetIssue → BulkReply
  forward_queued all_queued : BulkEnqueueResult → ℕ → BulkReply
  multi_queued : BulkEnqueueResult → BulkReply
  set_queued : Text → BulkEnqueueResult → SetCounts → BulkReply
  batch_found : BatchStatus → BulkReply

-- A request without a schedule, by the controller.
abbrev pub bulk_request :
    BatchType → List Destination → Option Text → Option Text → ℕ → BulkEnqueueRequest
bulk_request batch_type destinations body source_key duplicates = record {
  batch_type = batch_type;
  destinations = destinations;
  text = body;
  forward_source_key = source_key;
  scheduled_at = none;
  force = false;
  actor = some "self-controller";
  duplicate_targets = some duplicates;
}

unfoldable pub bulk_call : BulkServices → BulkEnqueueRequest → Exec Store BulkEnqueueResult
bulk_call v request = bulk_enqueue v.cfg request v.batch v.others v.fresh

-- The call, and the reply made of its result.
unfoldable pub queue_bulk :
    BulkServices → BulkEnqueueRequest → (BulkEnqueueResult → BulkReply) → Exec Store BulkReply
queue_bulk v request say = do result ← bulk_call v request; pure (say result)

-- Where a resolution throws, so does the command.
abbrev pub with_targets :
    {A : Type 0} → Option A → (A → Exec Store BulkReply) → Exec Store BulkReply
with_targets none f = throw (plain "Invalid WhatsApp JID")
with_targets (some t) f = f t

-- A list with an invalid target is refused as a whole.
abbrev pub unless_invalid : List TargetIssue → Exec Store BulkReply → Exec Store BulkReply
unless_invalid [] m = m
unless_invalid (i ∷ is) m = pure (invalid_targets (i ∷ is))

-- `if (!destinations.length) return`
abbrev pub unless_empty : List Destination → BulkReply → Exec Store BulkReply → Exec Store BulkReply
unless_empty [] reply m = pure reply
unless_empty (d ∷ ds) reply m = m

unfoldable pub forward_multi_to : BulkServices → Text → Targets → Exec Store BulkReply
forward_multi_to v source_key t = unless_invalid t.issues (
    queue_bulk v (bulk_request sendmulti t.resolved none (some source_key) t.duplicates)
      λ r. forward_queued r (t.duplicates + r.duplicate_jobs))

-- `forwardMulti`
unfoldable pub forward_multi : BulkServices → Text → Text → Exec Store BulkReply
forward_multi v expression source_key s =
    let inputs = map trim (split_from [] expression) in
    if ltb (length inputs) 2 || any is_empty inputs
    then (ok usage_forward_multi, s)
    else with_targets (resolve_targets v.codec true s.db inputs) (forward_multi_to v source_key) s

unfoldable pub forward_all_to : BulkServices → Text → AllowedSnapshot → Exec Store BulkReply
forward_all_to v source_key t = unless_empty t.destinations nothing_to_forward (
    queue_bulk v (bulk_request sendall t.destinations none (some source_key) t.duplicates)
      λ r. forward_queued r (t.skipped + t.duplicates + r.duplicate_jobs))

-- `forwardAll`
unfoldable pub forward_all : BulkServices → Text → Exec Store BulkReply
forward_all v source_key s =
    with_targets (snapshot_allowed v.codec s.db) (forward_all_to v source_key) s

-- The members whose group is known.
abbrev pub present : List GroupSetMember → List GroupSetMember
present = select λ m. is_some m.destination

abbrev pub resolve_members : BulkServices → List GroupSetMember → Db → Option Targets
resolve_members v ms db = resolve_targets v.codec true db (map (λ m. m.jid) (present ms))

unfoldable pub forward_set_to :
    BulkServices → Text → List GroupSetMember → Targets → Exec Store BulkReply
forward_set_to v source_key ms t =
    let skipped = length ms - length t.resolved - t.duplicates in
    unless_empty t.resolved nothing_to_forward (
      queue_bulk v (bulk_request sendset t.resolved none (some source_key) t.duplicates)
        λ r. forward_queued r (skipped + t.duplicates + r.duplicate_jobs))

-- What both commands on a set do with its members.
unfoldable pub with_members :
    BulkServices
    → Text
    → (List GroupSetMember → Targets → Exec Store BulkReply)
    → Option (List GroupSetMember)
    → Exec Store BulkReply
with_members v name send none s = (ok (set_not_found name), s)
with_members v name send (some ms) s = with_targets (resolve_members v ms s.db) (send ms) s

unfoldable pub with_set :
    BulkServices
    → (Text → List GroupSetMember → Targets → Exec Store BulkReply)
    → Option Text
    → Exec Store BulkReply
with_set v send none s = (ok invalid_set_name, s)
with_set v send (some name) s = with_members v name (send name) (members name s.db) s

-- `forwardSet`
unfoldable pub forward_set : BulkServices → Text → Text → Exec Store BulkReply
forward_set v raw_name source_key =
    with_set v (λ name. forward_set_to v source_key) (normalize_group_set_name raw_name)

unfoldable pub send_multi_to : BulkServices → Text → Targets → Exec Store BulkReply
send_multi_to v message t =
    unless_invalid t.issues (
      queue_bulk v (bulk_request sendmulti t.resolved (some message) none t.duplicates)
        multi_queued)

unfoldable pub send_multi_parsed : BulkServices → Option MultiMessage → Exec Store BulkReply
send_multi_parsed v none s = (ok usage_multi, s)
send_multi_parsed v (some parsed) s =
    with_targets (resolve_targets v.codec true s.db parsed.targets) (send_multi_to v parsed.message)
      s

-- `sendMulti`
unfoldable pub send_multi : BulkServices → Text → Exec Store BulkReply
send_multi v command = send_multi_parsed v (multi_message command)

unfoldable pub send_all_to : BulkServices → Text → AllowedSnapshot → Exec Store BulkReply
send_all_to v message t = unless_empty t.destinations no_allowed_groups (
    queue_bulk v (bulk_request sendall t.destinations (some message) none t.duplicates)
      λ r. all_queued r t.skipped)

unfoldable pub send_all_parsed : BulkServices → Option Text → Exec Store BulkReply
send_all_parsed v none s = (ok usage_all, s)
send_all_parsed v (some message) s =
    with_targets (snapshot_allowed v.codec s.db) (send_all_to v message) s

-- `sendAll`
unfoldable pub send_all : BulkServices → Text → Exec Store BulkReply
send_all v command = send_all_parsed v (message_after (text "/sendall") command)

abbrev pub is_disabled_issue : TargetIssue → Bool
is_disabled_issue issue = elim issue.reason [
  | TargetIssueReason.disabled ↦ true
  | TargetIssueReason.not_sendable ↦ true
  | _ ↦ false
]

unfoldable pub set_counts : List GroupSetMember → Targets → SetCounts
set_counts ms t =
    let off = count_if is_disabled_issue t.issues in
    record {
      members = length ms;
      eligible = length t.resolved;
      disabled = off;
      missing = length ms - length (present ms) + length t.issues - off;
    }

unfoldable pub send_set_to :
    BulkServices → Text → Text → List GroupSetMember → Targets → Exec Store BulkReply
send_set_to v message name ms t = unless_empty t.resolved (no_eligible_groups name) (
    queue_bulk v (bulk_request sendset t.resolved (some message) none t.duplicates)
      λ r. set_queued name r (set_counts ms t))

unfoldable pub send_set_parsed : BulkServices → Option NamedMessage → Exec Store BulkReply
send_set_parsed v none = pure usage_set
send_set_parsed v (some parsed) =
    with_set v (send_set_to v parsed.message) (normalize_group_set_name parsed.name)

-- `sendSet`
unfoldable pub send_set : BulkServices → Text → Exec Store BulkReply
send_set v command = send_set_parsed v (named_message (text "/sendset") command)

abbrev batch_said : Text → Option BatchStatus → BulkReply
batch_said id none = batch_not_found id
batch_said id (some status) = batch_found status

-- `batch`
unfoldable pub batch_reply : Text → Db → BulkReply
batch_reply id db = batch_said id (batch_status id db)
