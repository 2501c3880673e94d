-- ===== src/Worker.antt =====
-- src/messaging/queue-worker.ts: one round of the worker, `processOnce`, cut at its awaits. A round
-- is a phase and a state; between two phases other tasks may run. Within one uninterrupted part of
-- the code all readings of a clock are one value.
pub mod Failure
pub mod Send
pub mod Moves
pub mod Calls
pub mod Steps
use whatsapp_bot.Jobs.Claim.{claim}
use whatsapp_bot.Jobs.Sweep.{promote_due_scheduled, cancel_disabled}
use whatsapp_bot.Db.State.{remove, get}
use whatsapp_bot.Domain.Errors.{DeliveryError, logged_out, auth_required, Error}
use whatsapp_bot.Db.Exec.{Exec, ◌>>=◌, pure, ◌>>◌, gets, ok, err, Result}
use whatsapp_bot.Db.{Db, StateValue, StateKey}
use whatsapp_bot.Domain.Queue.{QueueJob}
use whatsapp_bot.Base.{
  none, some, true, false, Bool, ℕ, Option, Text, List, ◌+◌, if◌then◌else◌, ◌&&◌, ltb, ◌-◌, not,
  ◌==◌, ◌||◌, is_some,
}
use whatsapp_bot.Domain.Jobs.{dry_run}

-- The fields of `AppConfig` that the worker reads.
pub record WorkerConfig : Type 0 where
  pub dry_run : Bool
  pub send_interval_ms : ℕ
  pub retry_base_ms : ℕ
  pub retry_max_ms : ℕ
  pub transport_is_dry_run : Bool  -- `transport.name === 'dry-run'`
  pub media_exists : Text → Bool  -- `existsSync`

-- A call of `send` on the transport, or on the simulated one.
pub record SendCall : Type 0 where
  pub job : QueueJob
  pub simulated : Bool

-- The worker's fields and the database that it shares; `last_send_finished_at` is 0 before the
-- first send, and `send_calls` records the calls of the transports.
pub record World : Type 0 where
  pub db : Db
  pub stopping : Bool
  pub last_send_finished_at : ℕ
  pub send_calls : List SendCall

-- What is read from outside in one part: the injected clock, the system's clock, a random number.
pub record Readings : Type 0 where
  pub clock : ℕ
  pub wall : ℕ
  pub random : ℕ

pub data Phase : Type 0 where
  pacing : QueueJob → ℕ → Phase
  paced : QueueJob → Bool → Phase
  sending : QueueJob → Bool → Phase
  finished : Bool → Phase
  rejected : Error → Phase

-- The phase after a part of the code: a throw rejects the promise of `processOnce`.
abbrev pub phase_of : Result Phase → Phase
phase_of (ok p) = p
phase_of (err e) = rejected e

-- How the awaited `send` ends.
pub data SendOutcome : Type 0 where
  delivered : Option Text → Bool → SendOutcome
  delivery_failed : DeliveryError → SendOutcome
  failed_otherwise : SendOutcome

abbrev pub on_db : {A : Type 0} → Exec Db A → Exec World A
on_db m w = let (r, db') = m w.db in (r, record w { db = db' })

abbrev pub blocks_sending : Option StateValue → Bool
blocks_sending (some StateValue.auth_required) = true
blocks_sending (some StateValue.logged_out) = true
blocks_sending (some StateValue.fatal) = true
blocks_sending _ = false

-- The comparison of `new Date(until)`; what is no instant is NaN, which is not later.
abbrev pub is_later : ℕ → Option StateValue → Bool
is_later now (some (StateValue.instant t)) = ltb now t
is_later now _ = false

abbrev pub is_rate_limit_reason : Option StateValue → Bool
is_rate_limit_reason (some StateValue.rate_limited) = true
is_rate_limit_reason _ = false

abbrev pub clear_reason : Bool → Exec Db (Unit {0})
clear_reason true = remove StateKey.outgoing_pause_reason
clear_reason false = pure tt

unfoldable pub end_pause : Option StateValue → Exec Db Bool
end_pause reason = do
  remove StateKey.outgoing_pause_until
  clear_reason (is_rate_limit_reason reason)
  pure false

unfoldable pub is_globally_paused : WorkerConfig → ℕ → Exec Db Bool
is_globally_paused cfg now = do
  reason ← gets (get StateKey.outgoing_pause_reason)
  until ← gets (get StateKey.outgoing_pause_until)
  if cfg.transport_is_dry_run
      then pure false
      else if blocks_sending reason
      then pure true
      else if not (is_some until)
      then pure false
      else if is_later now until
      then pure true
      else end_pause reason

-- The start of `pace`: no wait, or the deadline to wait for.
unfoldable pub start_pacing : WorkerConfig → ℕ → QueueJob → World → Phase
start_pacing cfg wall job w =
    let wait = cfg.send_interval_ms + w.last_send_finished_at - wall in
    if cfg.send_interval_ms == 0 || (w.last_send_finished_at == 0 || wait == 0)
    then paced job (not w.stopping)
    else pacing job (wall + wait)

abbrev pub pace_claimed : WorkerConfig → ℕ → Option QueueJob → Exec World Phase
pace_claimed cfg wall none = pure (finished false)
pace_claimed cfg wall (some job) = gets (start_pacing cfg wall job)

unfoldable pub claim_for_round : WorkerConfig → Readings → Option Text → Exec World Phase
claim_for_round cfg at reference = do
  on_db (promote_due_scheduled at.clock)
  on_db (cancel_disabled at.wall)
  job ← on_db (claim at.clock reference cfg.dry_run)
  pace_claimed cfg at.wall job

-- From the call of `processOnce` to the first await.
unfoldable pub begin_round : WorkerConfig → Readings → Option Text → Exec World Phase
begin_round cfg at reference = do
  paused ← on_db (is_globally_paused cfg at.clock)
  if paused then pure (finished false) else claim_for_round cfg at reference

-- One test of the loop of `pace`, after a sleep.
unfoldable pub pace_tick : ℕ → QueueJob → ℕ → World → Phase
pace_tick now job deadline w =
    if not w.stopping && ltb now deadline then pacing job deadline else paced job (not w.stopping)
