-- ===== src/Tests/Hosts.antt =====
-- The theorems on the command line, at small hosts.
use whatsapp_bot.Cli.Update.Plan.{update_plan, is_ready}
use whatsapp_bot.Cli.Check.Condition.{all_accessible, can_deliver, lacks_staged, newest_queued}
use whatsapp_bot.Cli.Check.Verdict.{run_system_check_healthy}
use whatsapp_bot.Cli.Update.Steps.{FollowsPlan}
use whatsapp_bot.Tests.Samples.{sample_db}
use whatsapp_bot.Cli.Check.{CheckHost, run_system_check}
use whatsapp_bot.Cli.Update.{UpdateHost, Runner, UpdateOptions, run_update, configured_source}
use whatsapp_bot.Base.{
  [], none, some, true, false, text, if◌then◌else◌, ◌⊎◌, length, Text, ◌≡◌, ◌==◌, ◌&&◌, not, any,
}
use whatsapp_bot.Db.Exec.{ok, err}
use whatsapp_bot.Domain.Errors.{unique_constraint_failed}
use whatsapp_bot.Cli.Update.Order.{Refused, run_update_follows}

abbrev update_host : UpdateHost
update_host = record {
  is_linux = true;
  uid = some 0;
  env_source = none;
  source_record = some (text " src ");
  resolve = λ dir parts. dir;
  exists = λ path. true;
  manifest_name = λ path. some (some (text "sajadbot-whatsapp"));
}

-- The lint fails.
abbrev failing_lint : Runner
failing_lint ran call = record {
  status = some (if length ran == 4 then 1 else 0);
  stdout = [];
  error = none;
}

abbrev no_arguments : UpdateOptions
no_arguments = record { source_dir = none; skip_pull = false }

run_update_follows_example :
    (Refused (run_update update_host failing_lint no_arguments [])
      × (is_ready update_host (configured_source update_host no_arguments) ≡ false))
    ⊎ ((source : Text) × (configured_source update_host no_arguments ≡ some source)
        × (is_ready update_host (some source) ≡ true)
        × FollowsPlan failing_lint
            (update_plan update_host false source)
            []
            (run_update update_host failing_lint no_arguments []))
run_update_follows_example = run_update_follows update_host failing_lint no_arguments

abbrev check_host : CheckHost
check_host = record {
  node_major = 22;
  state_dir = text "s";
  media_dir = text "m";
  database_path = text "s";
  lock_path = text "s";
  dirname = λ path. path;
  is_accessible = λ path. true;
  lock_file = none;
  is_alive = λ pid. false;
  exists = λ path. true;
  health = record {
    journal_mode = text "WAL";
    parse_credentials = λ written. none;
    dry_run = true;
  };
}

run_system_check_healthy_example :
    ((run_system_check check_host (ok sample_db)).healthy ≡ (
      (true && all_accessible check_host)
      && (can_deliver check_host sample_db
          && not (any (lacks_staged check_host) (newest_queued sample_db)))))
    × ((run_system_check check_host (err unique_constraint_failed)).healthy ≡ false)
run_system_check_healthy_example =
    run_system_check_healthy check_host sample_db unique_constraint_failed
