-- ===== src/Commands/Run.antt =====
-- `createControllerExecutor` of src/whatsapp/controller-commands.ts: what each command does.
use whatsapp_bot.Jobs.Transition.{cancel}
use whatsapp_bot.Destinations.Listing.{list_destinations}
use whatsapp_bot.Destinations.{set_enabled}
use whatsapp_bot.Destinations.Alias.{set_alias}
use whatsapp_bot.Jobs.Report.{list_jobs}
use whatsapp_bot.Messages.Enqueue.{enqueue_text}
use whatsapp_bot.Targets.{trim}
use whatsapp_bot.Commands.Schedule.{parse_schedule}
use whatsapp_bot.Domain.Groups.{Destination}
use whatsapp_bot.Commands.{words, GroupSetReply, execute_group_set}
use whatsapp_bot.Domain.Queue.{QueueJob}
use whatsapp_bot.Commands.Refresh.{GroupSocket, refresh}
use whatsapp_bot.Health.{HealthReport, HealthConfig, report}
use whatsapp_bot.Db.{Db}
use whatsapp_bot.Db.Exec.{Exec, ◌>>=◌, pure, gets, catch_error}
use whatsapp_bot.Messages.{
  QueueMessageResult, Fresh, Store, ForwardRequest, in_db, QueueMessageRequest, enqueue_forward,
}
use whatsapp_bot.Commands.BulkCommands.{
  BulkServices, BulkReply, forward_multi, forward_set, forward_all, send_multi, send_all, send_set,
  batch_reply,
}
use whatsapp_bot.Base.{
  [], none, some, true, false, ◌∷◌, List, Text, Bool, ◌++◌, Option, if◌then◌else◌, ◌==◌, ℕ, ◌&&◌,
  text, get_or,
}
use whatsapp_bot.Domain.Jobs.{JobStatus}
use whatsapp_bot.Commands.Executor.{
  Command, read_command, forward_one, forward_many, forward_to_set, forward_to_all,
  forward_no_source, queue, refresh_groups, set_group_alias, allow, deny, list_groups, cancel_job,
  send, send_many, send_to_all, send_to_set, show_batch, schedule,
}

-- What the executor works with: the bulk commands' services, the reading of the clock and of
-- `randomUUID` for a command, the socket if there is one, the time at which its answer has come,
-- the parser of dates, and what the health report reads.
pub record CommandServices : Type 0 where
  pub bulk : BulkServices
  pub fresh : Fresh
  pub socket : Option GroupSocket
  pub later : ℕ
  pub read_date : Text → Option ℕ
  pub health : HealthConfig

-- The replies, by what they say.
pub data Reply : Type 0 where
  no_source forward_usage help unknown forward_failed failed_command : Reply
  forwarded queued scheduled : QueueMessageResult → Reply
  status : HealthReport → Reply
  jobs : List QueueJob → Reply
  refreshed : ℕ → Reply
  aliased allowed denied : Destination → Reply
  groups : List Destination → Reply
  group_set : GroupSetReply → Reply
  job_cancelled : QueueJob → Reply
  bulk : BulkReply → Reply

-- What the function returns within its `try`: a reply, or the promise of a bulk command, which is
-- not awaited there.
pub data Returned : Type 0 where
  value : Reply → Returned
  promise : Exec Store BulkReply → Returned

-- A call whose result makes the reply.
abbrev pub replies : {A : Type 0} → Exec Store A → (A → Reply) → Exec Store Returned
replies m say = do a ← m; pure (value (say a))

abbrev pub hands_on : Exec Store BulkReply → Exec Store Returned
hands_on m = pure (promise m)

-- `join(' ')`
unfoldable pub join_words : List Text → Text
join_words [] = []
join_words (word ∷ []) = word
join_words (word ∷ next_word ∷ words) = word ++ 32 ∷ join_words (next_word ∷ words)

abbrev pub send_request : Text → List Text → Option ℕ → QueueMessageRequest
send_request destination body scheduled_at = record {
  destination = destination;
  text = some (join_words body);
  media_path = none;
  filename = none;
  scheduled_at = scheduled_at;
  force = false;
  actor = some "self-controller";
  options = none;
  batch_id = none;
  dry_run = none;
}

abbrev pub forward_one_request : Text → Text → ForwardRequest
forward_one_request destination source_key = record {
  destination = destination;
  source_key = source_key;
  scheduled_at = none;
  actor = some "self-controller";
  batch_id = none;
}

abbrev pub queue_filter : Bool → List JobStatus
queue_filter failed_only =
    if failed_only then JobStatus.failed ∷ JobStatus.review_required ∷ [] else []

abbrev pub in_groups : {A : Type 0} → (Db → A) → Exec Store A
in_groups f = in_db (gets f)

unfoldable pub schedule_message :
    CommandServices → Text → Text → List Text → Exec Store QueueMessageResult
schedule_message v destination at body = do
  scheduled_at ← in_db (parse_schedule v.read_date v.fresh.now at)
  enqueue_text v.bulk.cfg v.fresh (send_request destination body (some scheduled_at))

-- The body of the `try`; `key` is the source key and `command` the trimmed text.
unfoldable pub run_within : CommandServices → Text → Text → Command → Exec Store Returned
run_within v command key (forward_one destination) =
    replies (in_db (enqueue_forward v.bulk.cfg v.fresh (forward_one_request destination key)))
      forwarded
run_within v command key (forward_many expression) = hands_on (forward_multi v.bulk expression key)
run_within v command key (forward_to_set name) = hands_on (forward_set v.bulk name key)
run_within v command key forward_to_all = hands_on (forward_all v.bulk key)
run_within v command key Command.forward_usage = pure (value Reply.forward_usage)
run_within v command key forward_no_source = pure (value no_source)
run_within v command key Command.help = pure (value Reply.help)
run_within v command key Command.status = replies (in_groups (report v.health)) Reply.status
run_within v command key (queue failed_only) =
    replies (in_groups (list_jobs (queue_filter failed_only) (some 20))) jobs
run_within v command key refresh_groups =
    replies (refresh v.bulk.codec v.later "self-controller" v.socket) refreshed
run_within v command key (set_group_alias reference alias) =
    replies (in_db (set_alias v.fresh.now reference (some alias) "self-controller")) aliased
run_within v command key (allow reference) =
    replies (in_db (set_enabled v.fresh.now reference true "self-controller")) allowed
run_within v command key (deny reference) =
    replies (in_db (set_enabled v.fresh.now reference false "self-controller")) denied
run_within v command key list_groups = replies (in_groups (list_destinations false)) groups
run_within v command key Command.group_set =
    replies (in_db (execute_group_set v.bulk.codec v.fresh.now command)) Reply.group_set
run_within v command key (cancel_job reference) =
    replies (in_db (cancel v.fresh.now reference "self-controller")) job_cancelled
run_within v command key (send destination body) =
    replies (enqueue_text v.bulk.cfg v.fresh (send_request destination body none)) queued
run_within v command key send_many = hands_on (send_multi v.bulk command)
run_within v command key send_to_all = hands_on (send_all v.bulk command)
run_within v command key send_to_set = hands_on (send_set v.bulk command)
run_within v command key (show_batch id) = replies (in_groups (batch_reply id)) Reply.bulk
run_within v command key (schedule destination at body) =
    replies (schedule_message v destination at body) scheduled
run_within v command key Command.unknown = pure (value Reply.unknown)

-- `startsWith('/forward')`
unfoldable pub starts_with : Text → Text → Bool
starts_with [] s = true
starts_with (c ∷ word) [] = false
starts_with (c ∷ word) (d ∷ s) = c == d && starts_with word s

abbrev pub failure_reply : List Text → Reply
failure_reply [] = failed_command
failure_reply (head ∷ args) =
    if starts_with (text "/forward") head then forward_failed else failed_command

-- A returned promise settles as the bulk command does, out of reach of the `catch`.
abbrev pub settle_returned : Returned → Exec Store Reply
settle_returned (value reply) = pure reply
settle_returned (promise m) = do reply ← m; pure (Reply.bulk reply)

unfoldable pub run_caught : CommandServices → Text → Option Text → Exec Store Returned
run_caught v command key =
    let parts = words command in
    catch_error (run_within v command (get_or key []) (read_command parts key))
      (λ e. pure (value (failure_reply parts)))

-- The executor.
unfoldable pub execute : CommandServices → Text → Option Text → Exec Store Reply
execute v command key = do returned ← run_caught v (trim command) key; settle_returned returned
