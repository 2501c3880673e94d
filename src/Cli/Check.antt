-- ===== src/Cli/Check.antt =====
-- src/cli/check-command.ts: `wts check`. The items without their titles and details.
pub mod Condition
pub mod Verdict
use whatsapp_bot.Destinations.{fold_case}
use whatsapp_bot.Controller.{truthy}
use whatsapp_bot.Jobs.Report.{list_jobs}
use whatsapp_bot.Domain.Queue.{QueueJob}
use whatsapp_bot.Health.{HealthReport, HealthConfig, is_serious, report}
use whatsapp_bot.Base.{
  [], none, some, true, false, ◌∷◌, Text, ℕ, Bool, List, if◌then◌else◌, Option, count_if, ltb, any,
  not, leb, ◌++◌, text_eq, ◌||◌, map, text, ◌==◌, ◌&&◌,
}
use whatsapp_bot.Db.{connected, StateValue, Db}
use whatsapp_bot.Db.Exec.{ok, err, Result}
use whatsapp_bot.Domain.Jobs.{pending, scheduled, processing, waiting_rate_limit, retry}
use whatsapp_bot.Lock.{LockData}

pub data CheckSeverity : Type 0 where
  pass info warning fail : CheckSeverity

pub data CheckId : Type 0 where
  configuration node daemon_lock database wal auth connection : CheckId
  review_required failed_jobs media queue_summary : CheckId
  directory : Text → CheckId

pub record CheckItem : Type 0 where
  pub id : CheckId
  pub severity : CheckSeverity

pub record CheckSummary : Type 0 where
  pub passed : ℕ
  pub info : ℕ
  pub warnings : ℕ
  pub failed : ℕ

pub data CheckStatus : Type 0 where
  healthy_status warning_status unhealthy_status : CheckStatus

pub record CheckReport : Type 0 where
  pub status : CheckStatus
  pub healthy : Bool
  pub checks : List CheckItem
  pub summary : CheckSummary

-- The configuration, and what the check reads of its host: the major version of Node.js, `dirname`,
-- access to a path, the lock file if it exists and what it names, signals to processes, files.
pub record CheckHost : Type 0 where
  pub node_major : ℕ
  pub state_dir : Text
  pub media_dir : Text
  pub database_path : Text
  pub lock_path : Text
  pub dirname : Text → Text
  pub is_accessible : Text → Bool
  pub lock_file : Option (Option LockData)
  pub is_alive : ℕ → Bool
  pub exists : Text → Bool
  pub health : HealthConfig

abbrev pub same_severity : CheckSeverity → CheckSeverity → Bool
same_severity pass pass = true
same_severity info info = true
same_severity warning warning = true
same_severity fail fail = true
same_severity _ _ = false

abbrev pub count_severity : CheckSeverity → List CheckItem → ℕ
count_severity severity = count_if λ item. same_severity item.severity severity

abbrev pub report_status : CheckSummary → CheckStatus
report_status s =
    if ltb 0 s.failed
    then unhealthy_status
    else if ltb 0 s.warnings
    then warning_status
    else healthy_status

abbrev pub is_healthy : CheckStatus → Bool
is_healthy unhealthy_status = false
is_healthy _ = true

abbrev pub summary_of : List CheckItem → CheckSummary
summary_of checks = record {
  passed = count_severity pass checks;
  info = count_severity info checks;
  warnings = count_severity warning checks;
  failed = count_severity fail checks;
}

unfoldable pub build_report : List CheckItem → CheckReport
build_report checks =
    let summary = summary_of checks in
    record {
      status = report_status summary;
      healthy = is_healthy (report_status summary);
      checks = checks;
      summary = summary;
    }

abbrev pub item : CheckId → CheckSeverity → CheckItem
item id severity = record { id = id; severity = severity }

unfoldable pub failed_check_report : CheckReport
failed_check_report = build_report (item configuration fail ∷ [])

-- A Set keeps the first of equal texts.
unfoldable pub distinct_from : List Text → List Text → List Text
distinct_from seen [] = []
distinct_from seen (t ∷ ts) =
    let rest = distinct_from (t ∷ seen) ts in
    if any (text_eq t) seen then distinct_from seen ts else t ∷ rest

unfoldable pub directories : CheckHost → List Text
directories host = distinct_from [] (
    host.state_dir
    ∷ host.media_dir
    ∷ host.dirname host.database_path
    ∷ host.dirname host.lock_path
    ∷ [])

abbrev pub directory_item : CheckHost → Text → CheckItem
directory_item host path = item (directory path) (if host.is_accessible path then pass else fail)

-- A pid that is no positive integer is 0.
abbrev pub process_is_alive : CheckHost → ℕ → Bool
process_is_alive host pid = not (pid == 0) && host.is_alive pid

unfoldable pub lock_severity : CheckHost → Option (Option LockData) → CheckSeverity
lock_severity host none = info
lock_severity host (some none) = warning
lock_severity host (some (some lock)) = if process_is_alive host lock.pid then pass else warning

abbrev pub auth_severity : HealthReport → Bool → CheckSeverity
auth_severity r dry_run = if r.auth_available then pass else if dry_run then info else fail

abbrev pub is_connected : StateValue → Bool
is_connected connected = true
is_connected _ = false

abbrev pub connection_severity : HealthReport → Bool → CheckSeverity
connection_severity r dry_run =
    if is_serious r.connection_state
    then fail
    else if is_connected r.connection_state || dry_run
    then pass
    else warning

unfoldable pub active_jobs : Db → List QueueJob
active_jobs =
    list_jobs (pending ∷ scheduled ∷ processing ∷ waiting_rate_limit ∷ retry ∷ []) (some 10000)

abbrev pub path_missing : CheckHost → Option Text → Bool
path_missing host none = false
path_missing host (some path) = not (host.exists path)

unfoldable pub lacks_media : CheckHost → QueueJob → Bool
lacks_media host job = path_missing host (truthy job.media_path)

unfoldable pub context_items : CheckHost → Db → List CheckItem
context_items host db =
    let r = report host.health db in
    item database (if r.database_reachable then pass else fail)
    ∷ item wal (if text_eq (fold_case r.journal_mode) (text "wal") then pass else warning)
    ∷ item auth (auth_severity r host.health.dry_run)
    ∷ item connection (connection_severity r host.health.dry_run)
    ∷ item review_required (if ltb 0 r.review_required then warning else pass)
    ∷ item failed_jobs (if ltb 0 r.failed then warning else pass)
    ∷ item media (if any (lacks_media host) (active_jobs db) then fail else pass)
    ∷ item queue_summary info
    ∷ []

-- The context is the database as opened and migrated, or the opening throws.
unfoldable pub opened_items : CheckHost → Result Db → List CheckItem
opened_items host (ok db) = context_items host db
opened_items host (err e) = item database fail ∷ []

unfoldable pub host_items : CheckHost → List CheckItem
host_items host =
    item node (if leb 20 host.node_major then pass else fail)
      ∷ map (directory_item host) (directories host)
    ++ item daemon_lock (lock_severity host host.lock_file) ∷ []

-- `runSystemCheck`
unfoldable pub run_system_check : CheckHost → Result Db → CheckReport
run_system_check host context = build_report (host_items host ++ opened_items host context)
