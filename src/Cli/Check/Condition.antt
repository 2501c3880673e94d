-- ===== src/Cli/Check/Condition.antt =====
-- The health of the system, written from the files and rows that it depends on.
use whatsapp_bot.Db.{
  StateValue, connectivity, auth_required, logged_out, fatal, disconnected, connecting, connected,
  reconnecting, offline_dry_run, running, rate_limited, attached, detached, delivery_class, instant,
}
use whatsapp_bot.Db.State.{get}
use whatsapp_bot.Db.Auth.{has_credentials}
use whatsapp_bot.Cli.Check.{distinct_from}
use whatsapp_bot.Controller.{truthy}
use whatsapp_bot.Jobs.Report.{list_jobs}
use whatsapp_bot.Domain.Jobs.{
  pending, scheduled, processing, waiting_rate_limit, retry, sent, failed, cancelled,
  review_required, dry_run, status_in,
}
use whatsapp_bot.Domain.Jobs.{JobStatus, pending, scheduled, processing, waiting_rate_limit, retry}
use whatsapp_bot.Domain.Queue.{QueueJob}
use whatsapp_bot.Db.{Db}
use whatsapp_bot.Health.{report, is_serious}
use whatsapp_bot.Base.{
  refl, [], none, some, false, inl, inr, ◌∷◌, List, Bool, ◌≡◌, any, Text, Option, not, arith,
  Bool-cases, ◌∙◌, ◌||◌, ◌&&◌, all, text_eq, true, take, reverse, select, get_or, text_eq_sound,
}
use whatsapp_bot.Cli.Check.{
  review_required, CheckHost, lacks_media, active_jobs, directories, path_missing,
}

-- The statuses from which a job is sent without an operator.
abbrev pub is_queued : JobStatus → Bool
is_queued pending = true
is_queued scheduled = true
is_queued processing = true
is_queued waiting_rate_limit = true
is_queued retry = true
is_queued _ = false

-- The newest 10,000 of the jobs in them.
abbrev pub newest_queued : Db → List QueueJob
newest_queued db = take 10000 (reverse (select (λ row. is_queued row.status) db.jobs))

-- A staged file that is gone; the empty path counts as none.
abbrev pub is_gone : CheckHost → Option Text → Bool
is_gone host none = false
is_gone host (some []) = false
is_gone host (some (c ∷ cs)) = not (host.exists (c ∷ cs))

abbrev pub lacks_staged : CheckHost → QueueJob → Bool
lacks_staged host row = is_gone host row.media_path

is_gone-eq-missing :
    (host : CheckHost) (path : Option Text) → path_missing host (truthy path) ≡ is_gone host path
is_gone-eq-missing host none = refl
is_gone-eq-missing host (some []) = refl
is_gone-eq-missing host (some (c ∷ cs)) = refl

is_queued-eq-status_in :
    (s : JobStatus)
    → status_in (pending ∷ scheduled ∷ processing ∷ waiting_rate_limit ∷ retry ∷ []) s ≡ is_queued s
is_queued-eq-status_in pending = refl
is_queued-eq-status_in scheduled = refl
is_queued-eq-status_in processing = refl
is_queued-eq-status_in waiting_rate_limit = refl
is_queued-eq-status_in retry = refl
is_queued-eq-status_in sent = refl
is_queued-eq-status_in failed = refl
is_queued-eq-status_in cancelled = refl
is_queued-eq-status_in review_required = refl
is_queued-eq-status_in dry_run = refl

select_same :
    (p q : QueueJob → Bool) (rows : List QueueJob)
    → ((row : QueueJob) → p row ≡ q row)
    → select p rows ≡ select q rows
select_same p q [] h = refl
select_same p q (x ∷ rows) h = rw (h x, select_same p q rows h)

any_same :
    (p q : QueueJob → Bool) (rows : List QueueJob)
    → ((row : QueueJob) → p row ≡ q row)
    → any p rows ≡ any q rows
any_same p q [] h = refl
any_same p q (x ∷ rows) h = rw (h x, any_same p q rows h)

active_jobs-eq-newest : (db : Db) → active_jobs db ≡ newest_queued db
unfolding active_jobs list_jobs
active_jobs-eq-newest db =
    rw (
      select_same _ (λ row. is_queued row.status) db.jobs
        (λ row. is_queued-eq-status_in row.status))

pub media_lacking :
    (host : CheckHost) (db : Db)
    → any (lacks_media host) (active_jobs db) ≡ any (lacks_staged host) (newest_queued db)
unfolding lacks_media
media_lacking host db = rw (active_jobs-eq-newest db) (
    any_same (lacks_media host) (lacks_staged host) (newest_queued db)
      (λ row. is_gone-eq-missing host row.media_path))

-- The directories of the state, the media, the database and the lock can be read and written.
abbrev pub all_accessible : CheckHost → Bool
all_accessible host =
    host.is_accessible host.state_dir
    && (host.is_accessible host.media_dir
        && (host.is_accessible (host.dirname host.database_path)
            && host.is_accessible (host.dirname host.lock_path)))

-- The connection waits for no operator.
abbrev pub is_usable : StateValue → Bool
is_usable logged_out = false
is_usable fatal = false
is_usable auth_required = false
is_usable _ = true

-- The connection is usable, and there is a sign-in or none is needed.
abbrev pub can_deliver : CheckHost → Db → Bool
can_deliver host db =
    is_usable (get_or (get connectivity db) disconnected)
    && (has_credentials host.health.parse_credentials db || host.health.dry_run)

module _ (p : Text → Bool) where
  all_seen :
      (t : Text) (seen : List Text) → any (text_eq t) seen ≡ true → all p seen ≡ true → p t ≡ true
  all_seen t [] h k = cc
  all_seen t (x ∷ seen) h k = elim (Bool-cases (text_eq t x)) [
    | inl e ↦ ground (arith, text_eq_sound t x e)
    | inr e ↦ ground (arith, all_seen t seen)
  ]

  -- Leaving out what was seen does not matter to a test of all.
  all-distinct_from :
      (seen ts : List Text) → all p seen ≡ true → all p (distinct_from seen ts) ≡ all p ts
  unfolding distinct_from
  all-distinct_from seen [] h = refl
  all-distinct_from seen (t ∷ ts) h = elim (Bool-cases (any (text_eq t) seen)) [
    | inl e ↦ rw (e, all_seen t seen e h, all-distinct_from seen ts h)
    | inr e ↦ rw e (elim (Bool-cases (p t)) [
      | inr f ↦ rw f
      | inl f ↦ rw (f, all-distinct_from (t ∷ seen) ts (rw (f, h)))
    ])
  ]

pub directories_accessible :
    (host : CheckHost) → all host.is_accessible (directories host) ≡ all_accessible host
unfolding directories
directories_accessible host = all-distinct_from host.is_accessible [] _ refl ∙ ground arith

is_serious-eq-not-usable : (s : StateValue) → not (is_serious s) ≡ is_usable s
is_serious-eq-not-usable connecting = refl
is_serious-eq-not-usable connected = refl
is_serious-eq-not-usable disconnected = refl
is_serious-eq-not-usable reconnecting = refl
is_serious-eq-not-usable auth_required = refl
is_serious-eq-not-usable logged_out = refl
is_serious-eq-not-usable fatal = refl
is_serious-eq-not-usable offline_dry_run = refl
is_serious-eq-not-usable running = refl
is_serious-eq-not-usable StateValue.stopped = refl
is_serious-eq-not-usable rate_limited = refl
is_serious-eq-not-usable attached = refl
is_serious-eq-not-usable detached = refl
is_serious-eq-not-usable (delivery_class c) = refl
is_serious-eq-not-usable (StateValue.jid t) = refl
is_serious-eq-not-usable (instant n) = refl

pub report_healthy :
    (host : CheckHost) (db : Db) → (report host.health db).healthy ≡ can_deliver host db
unfolding report
report_healthy host db = rw (is_serious-eq-not-usable (get_or (get connectivity db) disconnected))
