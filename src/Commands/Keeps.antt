-- ===== src/Commands/Keeps.antt =====
-- Every run of the executor keeps the queue in order.
use whatsapp_bot.Commands.Settling.{
  parse_schedule-SoundAt, refresh-SoundStoreAt, Settles, replies-Settles, caught-Settles,
  FetchIsSound,
}
use whatsapp_bot.Commands.{words}
use whatsapp_bot.Commands.Moves.{
  forward_multi-SoundStoreAt, forward_set-SoundStoreAt, forward_all-SoundStoreAt,
  send_multi-SoundStoreAt, send_all-SoundStoreAt, send_set-SoundStoreAt,
}
use whatsapp_bot.Jobs.Invariant.{IsValid}
use whatsapp_bot.Commands.BulkCommands.{batch_reply}
use whatsapp_bot.Jobs.Moves.{cancel-SoundAt}
use whatsapp_bot.Commands.Sets.{execute_group_set-SoundAt}
use whatsapp_bot.Destinations.Listing.{list_destinations}
use whatsapp_bot.Jobs.Report.{list_jobs}
use whatsapp_bot.Destinations.Moves.{set_alias-SoundAt, set_enabled-SoundAt}
use whatsapp_bot.Health.{report}
use whatsapp_bot.Db.{Db}
use whatsapp_bot.Messages.Moves.{
  SoundStoreAt, in_db-SoundStoreAt, bind_store, enqueue_forward-SoundAt, pure-SoundStoreAt,
  enqueue_text-SoundStoreAt, caught_store,
}
use whatsapp_bot.Jobs.Evolution.{Sound, Sound-refl, Evolves}
use whatsapp_bot.Messages.{Store}
use whatsapp_bot.Targets.{trim}
use whatsapp_bot.Commands.Run.{
  CommandServices, schedule_message, run_within, Returned, Reply, in_groups, settle_returned,
  replies, queue_filter, value, execute, promise, run_caught,
}
use whatsapp_bot.Db.Exec.{ok, Exec}
use whatsapp_bot.Base.{some, true, false, has_dash, ◌≡◌, Text, Option, List, [], get_or, subst}
use whatsapp_bot.Commands.Executor.{
  Command, forward_one, queue, refresh_groups, set_group_alias, allow, deny, list_groups,
  cancel_job, send, show_batch, schedule, forward_many, forward_to_set, read_command,
  forward_to_all, forward_no_source, send_many, send_to_all, send_to_set,
}

module _ (v : CommandServices) (dashed : has_dash v.fresh.uuid ≡ true)
    (bulk_dashed : (jid : Text) → has_dash (v.bulk.fresh jid).uuid ≡ true)
    (others_sound : (jid : Text) (s : Store) → Sound s.db (v.bulk.others jid s).db)
    (fetch_sound : FetchIsSound v.socket) where
  replies-SoundStoreAt :
      {A : Type 0} (m : Exec Store A) (say : A → Reply) (s : Store)
      → SoundStoreAt m s
      → SoundStoreAt (replies m say) s
  replies-SoundStoreAt m say s h = bind_store _ _ s h (λ a _. pure-SoundStoreAt _ _)

  read_only : {A : Type 0} (f : Db → A) (s : Store) → SoundStoreAt (in_groups f) s
  read_only f s = record { at = Sound-refl s.db }

  schedule_message-SoundStoreAt :
      (destination at : Text) (body : List Text) (s : Store)
      → SoundStoreAt (schedule_message v destination at body) s
  unfolding schedule_message
  schedule_message-SoundStoreAt destination at body s =
      bind_store _ _ s
        (in_db-SoundStoreAt _ s (parse_schedule-SoundAt v.read_date v.fresh.now at s.db))
        (λ when _. enqueue_text-SoundStoreAt v.bulk.cfg v.fresh _ _ dashed)

  run_within-SoundStoreAt :
      (command key : Text) (parsed : Command) (s : Store)
      → SoundStoreAt (run_within v command key parsed) s
  unfolding run_within
  run_within-SoundStoreAt command key (forward_one destination) s =
      replies-SoundStoreAt _ _ s
        (in_db-SoundStoreAt _ s (enqueue_forward-SoundAt v.bulk.cfg v.fresh _ s.db dashed))
  run_within-SoundStoreAt command key Command.status s =
      replies-SoundStoreAt _ _ s (read_only (report v.health) s)
  run_within-SoundStoreAt command key (queue failed_only) s =
      replies-SoundStoreAt _ _ s (read_only (list_jobs (queue_filter failed_only) (some 20)) s)
  run_within-SoundStoreAt command key refresh_groups s =
      replies-SoundStoreAt _ _ s
        (refresh-SoundStoreAt v.bulk.codec v.later "self-controller" v.socket fetch_sound s)
  run_within-SoundStoreAt command key (set_group_alias reference alias) s =
      replies-SoundStoreAt _ _ s
        (in_db-SoundStoreAt _ s (set_alias-SoundAt v.fresh.now reference (some alias) _ s.db))
  run_within-SoundStoreAt command key (allow reference) s =
      replies-SoundStoreAt _ _ s
        (in_db-SoundStoreAt _ s (set_enabled-SoundAt v.fresh.now reference true _ s.db))
  run_within-SoundStoreAt command key (deny reference) s =
      replies-SoundStoreAt _ _ s
        (in_db-SoundStoreAt _ s (set_enabled-SoundAt v.fresh.now reference false _ s.db))
  run_within-SoundStoreAt command key list_groups s =
      replies-SoundStoreAt _ _ s (read_only (list_destinations false) s)
  run_within-SoundStoreAt command key Command.group_set s =
      replies-SoundStoreAt _ _ s
        (in_db-SoundStoreAt _ s (execute_group_set-SoundAt v.bulk.codec v.fresh.now command s.db))
  run_within-SoundStoreAt command key (cancel_job reference) s =
      replies-SoundStoreAt _ _ s
        (in_db-SoundStoreAt _ s (cancel-SoundAt v.fresh.now reference _ s.db))
  run_within-SoundStoreAt command key (send destination body) s =
      replies-SoundStoreAt _ _ s (enqueue_text-SoundStoreAt v.bulk.cfg v.fresh _ s dashed)
  run_within-SoundStoreAt command key (show_batch id) s =
      replies-SoundStoreAt _ _ s (read_only (batch_reply id) s)
  run_within-SoundStoreAt command key (schedule destination at body) s =
      replies-SoundStoreAt _ _ s (schedule_message-SoundStoreAt destination at body s)
  run_within-SoundStoreAt command key _ s = pure-SoundStoreAt _ s

  run_within-Settles :
      (command key : Text) (parsed : Command) (s : Store)
      → Settles (run_within v command key parsed s).0
  unfolding run_within
  run_within-Settles command key (forward_one destination) s = replies-Settles _ _ s
  run_within-Settles command key (forward_many expression) s =
      λ t. forward_multi-SoundStoreAt v.bulk bulk_dashed others_sound expression key t
  run_within-Settles command key (forward_to_set name) s =
      λ t. forward_set-SoundStoreAt v.bulk bulk_dashed others_sound name key t
  run_within-Settles command key forward_to_all s =
      λ t. forward_all-SoundStoreAt v.bulk bulk_dashed others_sound key t
  run_within-Settles command key Command.forward_usage s = tt
  run_within-Settles command key forward_no_source s = tt
  run_within-Settles command key Command.help s = tt
  run_within-Settles command key Command.status s = replies-Settles _ _ s
  run_within-Settles command key (queue failed_only) s = replies-Settles _ _ s
  run_within-Settles command key refresh_groups s = replies-Settles _ _ s
  run_within-Settles command key (set_group_alias reference alias) s = replies-Settles _ _ s
  run_within-Settles command key (allow reference) s = replies-Settles _ _ s
  run_within-Settles command key (deny reference) s = replies-Settles _ _ s
  run_within-Settles command key list_groups s = replies-Settles _ _ s
  run_within-Settles command key Command.group_set s = replies-Settles _ _ s
  run_within-Settles command key (cancel_job reference) s = replies-Settles _ _ s
  run_within-Settles command key (send destination body) s = replies-Settles _ _ s
  run_within-Settles command key send_many s =
      λ t. send_multi-SoundStoreAt v.bulk bulk_dashed others_sound command t
  run_within-Settles command key send_to_all s =
      λ t. send_all-SoundStoreAt v.bulk bulk_dashed others_sound command t
  run_within-Settles command key send_to_set s =
      λ t. send_set-SoundStoreAt v.bulk bulk_dashed others_sound command t
  run_within-Settles command key (show_batch id) s = replies-Settles _ _ s
  run_within-Settles command key (schedule destination at body) s = replies-Settles _ _ s
  run_within-Settles command key Command.unknown s = tt

  settle_returned-SoundStoreAt :
      (returned_one : Returned) (t : Store)
      → Settles (ok returned_one)
      → SoundStoreAt (settle_returned returned_one) t
  settle_returned-SoundStoreAt (value reply) t h = pure-SoundStoreAt reply t
  settle_returned-SoundStoreAt (promise m) t h =
      bind_store _ _ t (h t) (λ reply _. pure-SoundStoreAt _ _)

  execute-SoundStoreAt :
      (command : Text) (key : Option Text) (s : Store) → SoundStoreAt (execute v command key) s
  unfolding execute run_caught
  execute-SoundStoreAt command key s =
      let parts = words (trim command) in
      let parsed = read_command parts key in
      bind_store (run_caught v (trim command) key) settle_returned s
        (caught_store _ _ s (run_within-SoundStoreAt (trim command) (get_or key []) parsed s)
          (λ e. pure-SoundStoreAt _ _))
        (λ returned_one e. settle_returned-SoundStoreAt returned_one _ (
          subst Settles e (
            caught-Settles _ parts s (run_within-Settles (trim command) (get_or key []) parsed s))))

-- Whatever the command and its source key, and whether the executor replies or throws, it leads
-- from a valid database to a valid one, in which every job that was there is found by its number,
-- with its request unchanged and its status moved along the transition table; if new uuids have a
-- dash, and what other tasks do during its awaits keeps the database so.
pub execute_keeps :
    (v : CommandServices) (command : Text) (key : Option Text) (s : Store)
    → has_dash v.fresh.uuid ≡ true
    → ((jid : Text) → has_dash (v.bulk.fresh jid).uuid ≡ true)
    → ((jid : Text) (t : Store) → Sound t.db (v.bulk.others jid t).db)
    → FetchIsSound v.socket
    → IsValid s.db
    → IsValid (execute v command key s).1.db × Evolves s.db.jobs (execute v command key s).1.db.jobs
execute_keeps v command key s dashed bulk_dashed others_sound fetch_sound =
    (execute-SoundStoreAt v dashed bulk_dashed others_sound fetch_sound command key s).at
