-- ===== src/Health.antt =====
-- src/health/health-service.ts: what the service reports of itself.
use whatsapp_bot.Jobs.Report.{counts, oldest_pending, last_successful_send}
use whatsapp_bot.Db.Auth.{Credentials, has_credentials}
use whatsapp_bot.Base.{true, false, Bool, Text, Option, get_or, ℕ, not, ◌&&◌, ◌||◌}
use whatsapp_bot.Db.{
  StateKey, StateValue, connectivity, auth_required, logged_out, fatal, disconnected, stopped, Db,
}
use whatsapp_bot.Db.State.{get}
use whatsapp_bot.Domain.Jobs.{review_required, failed, JobStatus}

pub record HealthReport : Type 0 where
  pub healthy : Bool
  pub database_reachable : Bool
  pub journal_mode : Text
  pub connection_state : StateValue
  pub auth_available : Bool
  pub own_jid : Option StateValue
  pub queue_counts : JobStatus → Option ℕ
  pub oldest_pending : Option ℕ
  pub review_required : ℕ
  pub failed : ℕ
  pub last_successful_send : Option ℕ
  pub last_connection_at : Option StateValue
  pub dry_run : Bool
  pub worker_state : StateValue
  -- `none` for 'DISABLED'
  pub controller_state : Option StateValue

-- The journal mode that SQLite reports, the parser of stored credentials, the configuration.
pub record HealthConfig : Type 0 where
  pub journal_mode : Text
  pub parse_credentials : Text → Option Credentials
  pub dry_run : Bool

abbrev pub is_serious : StateValue → Bool
is_serious auth_required = true
is_serious logged_out = true
is_serious fatal = true
is_serious _ = false

unfoldable pub report : HealthConfig → Db → HealthReport
report cfg db =
    let connection_state = get_or (get connectivity db) disconnected in
    let auth_available = has_credentials cfg.parse_credentials db in
    record {
      healthy = not (is_serious connection_state) && (auth_available || cfg.dry_run);
      database_reachable = true;
      journal_mode = cfg.journal_mode;
      connection_state = connection_state;
      auth_available = auth_available;
      own_jid = get StateKey.own_jid db;
      queue_counts = counts db;
      oldest_pending = oldest_pending db;
      review_required = get_or (counts db review_required) 0;
      failed = get_or (counts db failed) 0;
      last_successful_send = last_successful_send db;
      last_connection_at = get StateKey.last_connection_at db;
      dry_run = cfg.dry_run;
      worker_state = get_or (get StateKey.worker_state db) stopped;
      controller_state = get StateKey.controller_state db;
    }
