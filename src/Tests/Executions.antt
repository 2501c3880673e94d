-- ===== src/Tests/Executions.antt =====
-- The theorems on the executor of commands, at a small database.
use whatsapp_bot.Commands.Accounts.{SendSetEnds, send_set_accounts}
use whatsapp_bot.Commands.Executor.{
  set_group_alias, forward_no_source, read_head, send_to_all, read_command,
}
use whatsapp_bot.Destinations.{eq_nocase}
use whatsapp_bot.GroupSets.{normalize_group_set_name, is_set_name, select_set}
use whatsapp_bot.Commands.Listed.{comma_list, multi_message_listed}
use whatsapp_bot.Commands.Replies.{is_handed_on, execute_outcome}
use whatsapp_bot.Commands.Keeps.{execute_keeps}
use whatsapp_bot.Targets.{trim, trim_start, lower_case}
use whatsapp_bot.Commands.{words, split_from, words_from}
use whatsapp_bot.Tests.Samples.{group, sample_db, sample_db-IsValid}
use whatsapp_bot.Jobs.Evolution.{Evolves, Sound-of_same_jobs, Sound-refl}
use whatsapp_bot.Commands.Parse.{
  named_message, multi_message, after_word, read_name, read_targets, spaced_rest,
}
use whatsapp_bot.Jobs.Invariant.{IsValid}
use whatsapp_bot.Tests.Services.{fresh_values, groups_db, message_config, sample_codec}
use whatsapp_bot.Commands.Refresh.{GroupSocket}
use whatsapp_bot.Commands.BulkCommands.{BulkServices, send_all, send_set}
use whatsapp_bot.Messages.{Store}
use whatsapp_bot.Base.{
  refl, [], none, some, true, false, ◌∷◌, has_dash, text, text_eq, ◌≡◌, ◌++◌, ap, sort_rows-one,
}
use whatsapp_bot.Db.Exec.{ok, map_result}
use whatsapp_bot.Commands.Run.{Reply, CommandServices, execute}
use whatsapp_bot.GroupSets.Listing.{
  members, GroupSetMember, members_of, with_destination, member_before,
}

abbrev groups_store : Store
groups_store = record { db = groups_db; files = [] }

abbrev bulk_services : BulkServices
bulk_services = record {
  cfg = message_config;
  codec = sample_codec;
  batch = fresh_values;
  fresh = λ jid. fresh_values;
  others = λ jid s. s;
}

abbrev socket : GroupSocket
socket = record { user_id = none; user_lid = none; fetch_all = λ s. (ok [], s) }

abbrev services : CommandServices
services = record {
  bulk = bulk_services;
  fresh = fresh_values;
  socket = some socket;
  later = 101;
  read_date = λ written. none;
  health = record {
    journal_mode = text "wal";
    parse_credentials = λ written. none;
    dry_run = true;
  };
}

groups_db-IsValid : IsValid groups_db
groups_db-IsValid = (Sound-of_same_jobs sample_db groups_db refl refl sample_db-IsValid).0

execute_keeps_example :
    IsValid (execute services (text "/sendset fam hi") none groups_store).1.db
    × Evolves groups_db.jobs (execute services (text "/sendset fam hi") none groups_store).1.db.jobs
unfolding has_dash
execute_keeps_example =
    execute_keeps services (text "/sendset fam hi") none groups_store refl (λ jid. refl)
      (λ jid t. Sound-refl t.db) (λ s. Sound-refl s.db) groups_db-IsValid

abbrev family_member : GroupSetMember
family_member = record {
  jid = text "a@g.us";
  created_at = 1;
  destination = some (group (text "a@g.us") true);
}

send_set_accounts_example :
    SendSetEnds
      (text "fam")
      1
      groups_store
      (send_set bulk_services (text "/sendset fam hi") groups_store)
unfolding named_message after_word text text_eq read_name spaced_rest trim trim_start
    normalize_group_set_name is_set_name lower_case members select_set eq_nocase members_of
    with_destination
send_set_accounts_example =
    send_set_accounts bulk_services (text "/sendset fam hi") (text "fam")
      (record { name = text "fam"; message = text "hi" }) (family_member ∷ []) groups_store refl
      refl (ap some (sort_rows-one member_before family_member)) (refl, tt) refl

execute_outcome_example :
    let parsed = read_command (words (trim (text "/send a hi"))) none in
    (is_handed_on parsed ≡ false
      → (reply : Reply) × ((execute services (text "/send a hi") none groups_store).0 ≡ ok reply))
    × (parsed ≡ send_to_all
        → (execute services (text "/send a hi") none groups_store).0
          ≡ map_result Reply.bulk
              (send_all services.bulk (trim (text "/send a hi")) groups_store).0)
execute_outcome_example = execute_outcome services (text "/send a hi") none groups_store

multi_message_listed_example :
    multi_message (text "/sendmulti " ++ (comma_list (text "ab") (text "c" ∷ []) ++ 32 ∷ text "hi"))
    ≡ some (record { targets = text "ab" ∷ text "c" ∷ []; message = text "hi" })
unfolding text trim trim_start
multi_message_listed_example =
    multi_message_listed (text "ab") (text "c" ∷ []) 104 (105 ∷ [])
      ((refl, refl), ((refl, refl), tt)) (((refl, refl), tt), tt) (refl, refl) refl

-- A message that begins with a comma loses its first word to the targets.
comma_taken :
    multi_message (text "/sendmulti a ,b c")
    ≡ some (record { targets = text "a" ∷ text "b" ∷ []; message = text "c" })
unfolding multi_message after_word text text_eq read_targets spaced_rest trim trim_start split_from
comma_taken = refl

-- A comma before the message belongs to it where no target follows.
comma_left :
    multi_message (text "/sendmulti a ,b")
    ≡ some (record { targets = text "a" ∷ []; message = text ",b" })
unfolding multi_message after_word text text_eq read_targets spaced_rest trim trim_start split_from
comma_left = refl

alias_read :
    read_command (words (text "/groups  alias a b")) none ≡ set_group_alias (text "a") (text "b")
unfolding read_command read_head words words_from text text_eq
alias_read = refl

-- A command on a forwarded message without one.
no_source_read : read_command (words (text "/forwardset fam")) none ≡ forward_no_source
unfolding read_command read_head words words_from text text_eq
no_source_read = refl
