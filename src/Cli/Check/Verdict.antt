-- ===== src/Cli/Check/Verdict.antt =====
-- When `wts check` calls the system healthy.
use whatsapp_bot.Cli.Check.Condition.{
  all_accessible, can_deliver, lacks_staged, newest_queued, media_lacking, directories_accessible,
  report_healthy,
}
use whatsapp_bot.Destinations.{fold_case}
use whatsapp_bot.Domain.Errors.{Error}
use whatsapp_bot.Db.{Db}
use whatsapp_bot.Lock.{LockData}
use whatsapp_bot.Health.{report, is_serious}
use whatsapp_bot.Base.{
  refl, [], none, some, false, inl, inr, ◌∷◌, List, Bool, ltb, ◌≡◌, any, Text, Option, not, ◌++◌,
  map, arith, Bool-cases, ◌∙◌, ◌||◌, if◌then◌else◌, ◌&&◌, leb, ap, all, text_eq, text, true,
}
use whatsapp_bot.Cli.Check.{
  database, wal, connection, review_required, failed_jobs, media, queue_summary, daemon_lock, pass,
  warning, info, fail, auth, CheckItem, CheckSummary, build_report, CheckHost, lock_severity,
  context_items, host_items, run_system_check, same_severity, is_healthy, opened_items,
  count_severity, report_status, item, directory_item, process_is_alive, lacks_media, active_jobs,
  directories, summary_of, is_connected,
}
use whatsapp_bot.Db.Exec.{ok, err}

abbrev fails : CheckItem → Bool
fails i = same_severity i.severity fail

failures_found : (checks : List CheckItem) → ltb 0 (count_severity fail checks) ≡ any fails checks
failures_found [] = ground arith
failures_found (i ∷ checks) = ground (arith, failures_found checks)

is_healthy-report_status : (s : CheckSummary) → is_healthy (report_status s) ≡ not (ltb 0 s.failed)
is_healthy-report_status s = elim (Bool-cases (ltb 0 s.failed)) [
  | inl e ↦ rw e
  | inr e ↦ elim (Bool-cases (ltb 0 s.warnings)) [ inl f ↦ rw (e, f) | inr f ↦ rw (e, f) ]
]

build_report-healthy :
    (checks : List CheckItem) → (build_report checks).healthy ≡ not (any fails checks)
unfolding build_report
build_report-healthy checks =
    is_healthy-report_status (summary_of checks) ∙ ap not (failures_found checks)

any-append : (xs ys : List CheckItem) → any fails (xs ++ ys) ≡ (any fails xs || any fails ys)
any-append [] ys = refl
any-append (x ∷ xs) ys = ground (arith, any-append xs ys)

directories_pass :
    (host : CheckHost) (paths : List Text)
    → any fails (map (directory_item host) paths) ≡ not (all host.is_accessible paths)
directories_pass host [] = refl
directories_pass host (path ∷ paths) = elim (Bool-cases (host.is_accessible path)) [
  | inl e ↦ rw (e, directories_pass host paths)
  | inr e ↦ rw e
]

lock_passes :
    (host : CheckHost) (file : Option (Option LockData))
    → same_severity (lock_severity host file) fail ≡ false
unfolding lock_severity
lock_passes host none = refl
lock_passes host (some none) = refl
lock_passes host (some (some lock)) = elim (Bool-cases (process_is_alive host lock.pid)) [
  | inl e ↦ rw e
  | inr e ↦ rw e
]

-- The items on the context, for what their tests find.
items_pass :
    (wal_on signed dry serious joined reviews failures lost : Bool)
    → any fails (
        item database pass
        ∷ item wal (if wal_on then pass else warning)
        ∷ item auth (if signed then pass else if dry then info else fail)
        ∷ item connection (if serious then fail else if joined then pass else warning)
        ∷ item review_required (if reviews then warning else pass)
        ∷ item failed_jobs (if failures then warning else pass)
        ∷ item media (if lost then fail else pass)
        ∷ item queue_summary info
        ∷ [])
      ≡ not ((not serious && (signed || dry)) && not lost)
items_pass wal_on signed dry serious joined reviews failures lost = ground arith

context_passes :
    (host : CheckHost) (db : Db)
    → any fails (context_items host db)
      ≡ not ((report host.health db).healthy && not (any (lacks_media host) (active_jobs db)))
unfolding context_items report
context_passes host db =
    let r = report host.health db in
    items_pass (text_eq (fold_case r.journal_mode) (text "wal")) r.auth_available
      host.health.dry_run (is_serious r.connection_state)
      (is_connected r.connection_state || host.health.dry_run) (ltb 0 r.review_required)
      (ltb 0 r.failed) (any (lacks_media host) (active_jobs db))

host_passes :
    (host : CheckHost)
    → any fails (host_items host)
      ≡ not (leb 20 host.node_major && all host.is_accessible (directories host))
unfolding host_items
host_passes host = elim (Bool-cases (leb 20 host.node_major)) [
  | inl e ↦
      rw
        (
          e,
          any-append (map (directory_item host) (directories host))
              (item daemon_lock (lock_severity host host.lock_file) ∷ []),
          directories_pass host (directories host),
          lock_passes host host.lock_file,
        )
        (ground arith)
  | inr e ↦ rw e
]

both_hold : (a b : Bool) → not (not a || not b) ≡ (a && b)
both_hold true true = refl
both_hold true false = refl
both_hold false b = refl

-- The system check calls the system healthy exactly when Node.js has version 20 or later; the
-- directories of the state, the media, the database and the lock are accessible; the context opens;
-- the connection is not AUTH_REQUIRED, LOGGED_OUT or FATAL; there are credentials or runs are dry; and
-- of the newest 10,000 jobs in PENDING, SCHEDULED, PROCESSING, WAITING_RATE_LIMIT and RETRY none lacks
-- its media.
pub run_system_check_healthy :
    (host : CheckHost) (db : Db) (e : Error)
    → ((run_system_check host (ok db)).healthy ≡ (
        (leb 20 host.node_major && all_accessible host)
        && (can_deliver host db && not (any (lacks_staged host) (newest_queued db)))))
      × ((run_system_check host (err e)).healthy ≡ false)
unfolding run_system_check opened_items
run_system_check_healthy host db e = (
  build_report-healthy (host_items host ++ context_items host db)
      ∙ (rw
          (
            any-append (host_items host) (context_items host db),
            host_passes host,
            context_passes host db,
            media_lacking host db,
            directories_accessible host,
            report_healthy host db,
          )
          (both_hold (leb 20 host.node_major && all_accessible host)
            (can_deliver host db && not (any (lacks_staged host) (newest_queued db))))),
  build_report-healthy (host_items host ++ item database fail ∷ [])
      ∙ (rw (any-append (host_items host) (item database fail ∷ [])) (ground arith)),
)
