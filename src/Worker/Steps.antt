-- ===== src/Worker/Steps.antt =====
-- A round of the worker among the other tasks of the process and of other processes: the parts of
-- the round in their order, and between them whatever the others do to the shared database, as long
-- as it is sound and calls no transport of the worker.
use whatsapp_bot.Domain.Jobs.Graph.{IsTerminal, terminal_absorbs}
use whatsapp_bot.Jobs.Invariant.{IsValid, find_id}
use whatsapp_bot.Worker.Calls.{settle_calls, resume_calls, begin_calls, call_for}
use whatsapp_bot.Worker.Moves.{resume_round-SoundAt, settle-SoundAt, begin_round-SoundAt}
use whatsapp_bot.Worker.Send.{
  dry_run_outcome, resume_round, settle, after_send, finish_send, note_failure, record_delivery,
}
use whatsapp_bot.Jobs.Evolution.{Sound, Sound-refl, Sound-trans, Evolves}
use whatsapp_bot.Domain.Queue.{QueueJob}
use whatsapp_bot.Worker.{
  WorkerConfig, Phase, pace_tick, World, Readings, SendOutcome, pacing, phase_of, paced,
  begin_round, sending, finished, rejected, delivered, delivery_failed, failed_otherwise,
}
use whatsapp_bot.Db.Exec.{ok, err, Result, map_result}
use whatsapp_bot.Base.{
  refl, true, false, Bool, ℕ, ◌≡◌, Option, arith, Text, [], inl, inr, ◌∷◌, ◌≤◌, length, ◌+◌, ap,
  length-append, some,
}

-- The simulated transport gives one answer; the other may give any.
abbrev pub AnswerOf : Bool → QueueJob → SendOutcome → Type 0
AnswerOf true job outcome = outcome ≡ dry_run_outcome job
AnswerOf false job outcome = Unit

pub data Step (cfg : WorkerConfig) : Phase → World → Phase → World → Type 0 where
  others :
      (p : Phase) (w w' : World)
      → Sound w.db w'.db
      → w'.send_calls ≡ w.send_calls
      → Step cfg p w p w'
  tick :
      (now : ℕ) (job : QueueJob) (deadline : ℕ) (w : World)
      → Step cfg (pacing job deadline) w (pace_tick now job deadline w) w
  resume :
      (at : Readings) (job : QueueJob) (go : Bool) (w : World)
      → Step cfg
          (paced job go)
          w
          (phase_of (resume_round cfg at job go w).0)
          (resume_round cfg at job go w).1
  settled :
      (at : Readings) (job : QueueJob) (simulated : Bool) (outcome : SendOutcome) (w : World)
      → AnswerOf simulated job outcome
      → Step cfg
          (sending job simulated)
          w
          (phase_of (settle cfg at job outcome w).0)
          (settle cfg at job outcome w).1

pub data Run (cfg : WorkerConfig) (p : Phase) (w : World) : Phase → World → Type 0 where
  here : Run cfg p w p w
  next : {q r : Phase} {u v : World} → Run cfg p w q u → Step cfg q u r v → Run cfg p w r v

Step-Sound :
    {cfg : WorkerConfig} {p : Phase} {w : World} {p' : Phase} {w' : World}
    → Step cfg p w p' w'
    → Sound w.db w'.db
Step-Sound (others p w w' sound same) = sound
Step-Sound (tick now job deadline w) = Sound-refl w.db
Step-Sound {cfg} (resume at job go w) = (resume_round-SoundAt cfg at job go w).at
Step-Sound {cfg} (settled at job simulated outcome w a) = (settle-SoundAt cfg at job outcome w).at

Run-Sound :
    {cfg : WorkerConfig} {p : Phase} {w : World} {p' : Phase} {w' : World}
    → Run cfg p w p' w'
    → Sound w.db w'.db
Run-Sound {w = w} here = Sound-refl w.db
Run-Sound {w = w} (next {u = u} {v = v} r s) =
    Sound-trans w.db u.db v.db (Run-Sound r) (Step-Sound s)

-- A round, however it is interleaved with sound activity of others and whatever the transport
-- answers, leads from a valid database to a valid one, loses no job, rewrites no request, and moves
-- every status along the transition table.
pub round_keeps :
    (cfg : WorkerConfig) (at : Readings) (reference : Option Text) (w : World) (p : Phase)
    (w' : World)
    → IsValid w.db
    → Run cfg (phase_of (begin_round cfg at reference w).0) (begin_round cfg at reference w).1 p w'
    → IsValid w'.db × Evolves w.db.jobs w'.db.jobs
round_keeps cfg at reference w p w' v run =
    Sound-trans w.db (begin_round cfg at reference w).1.db w'.db
      (begin_round-SoundAt cfg at reference w).at (Run-Sound run) v

-- A job that is sent, cancelled or dry-run when a round begins has the same status at any later
-- point of the round, in a valid database: it does not come back to the queue.
pub round_settled :
    (cfg : WorkerConfig) (at : Readings) (reference : Option Text) (w : World) (p : Phase)
    (w' : World) (row : QueueJob)
    → IsValid w.db
    → Run cfg (phase_of (begin_round cfg at reference w).0) (begin_round cfg at reference w).1 p w'
    → find_id row.id w.db.jobs ≡ some row
    → IsTerminal row.status
    → (next : QueueJob) × (find_id row.id w'.db.jobs ≡ some next) × (next.status ≡ row.status)
round_settled cfg at reference w p w' row v run e final =
    let (later, found, follows) = (round_keeps cfg at reference w p w' v run).1 row.id row e in
    (later, found, terminal_absorbs final follows.path)

-- The calls that a round may still make from a phase on.
budget : Phase → ℕ
budget (pacing job deadline) = 1
budget (paced job go) = 1
budget (sending job simulated) = 0
budget (finished b) = 0
budget (rejected e) = 0

budget-pace_tick :
    (now : ℕ) (job : QueueJob) (deadline : ℕ) (w : World)
    → budget (pace_tick now job deadline w) ≡ 1
unfolding pace_tick budget
budget-pace_tick now job deadline w = ground arith

budget-le-one : (p : Phase) → budget p ≤ 1
unfolding budget
budget-le-one p = ground arith

finished_budget :
    {A : Type 0} (r : Result A) (b : Bool) → budget (phase_of (map_result (λ _. finished b) r)) ≡ 0
unfolding budget
finished_budget (ok a) b = refl
finished_budget (err e) b = refl

budget-settle :
    (cfg : WorkerConfig) (at : Readings) (job : QueueJob) (outcome : SendOutcome) (w : World)
    → budget (phase_of (settle cfg at job outcome w).0) ≡ 0
unfolding settle after_send finish_send note_failure
budget-settle cfg at job (delivered remote dry) w =
    delivered_budget (record_delivery cfg at job remote dry w.db).0
  where
    delivered_budget :
        (r : Result (Unit {0}))
        → budget (
            phase_of
              (finish_send cfg at job
                (map_result (λ _. finished true) r)
                (after_send cfg at job (delivered remote dry) w).1).0)
          ≡ 0
    delivered_budget (ok a) = unfold budget in refl
    delivered_budget (err e) = finished_budget _ true
budget-settle cfg at job (delivery_failed e) w = finished_budget _ true
budget-settle cfg at job failed_otherwise w = finished_budget _ true

Step_budget :
    {cfg : WorkerConfig} {p : Phase} {w : World} {p' : Phase} {w' : World}
    → Step cfg p w p' w'
    → length w'.send_calls + budget p' ≤ length w.send_calls + budget p
Step_budget (others p w w' sound same) = rw same (omega arith)
Step_budget (tick now job deadline w) =
    unfold budget in omega (arith, budget-pace_tick now job deadline w)
Step_budget {cfg} (settled at job simulated outcome w a) =
    rw (settle_calls cfg at job outcome w, budget-settle cfg at job outcome w) (omega arith)
Step_budget {cfg} (resume at job go w) = elim (resume_calls cfg at job go w) [
  | inl same ↦
      rw same
        (unfold budget in omega (arith, budget-le-one (phase_of (resume_round cfg at job go w).0)))
  | inr (may, called) ↦
      rw called
        (unfold budget in omega (arith, length-append {0} w.send_calls (call_for cfg job ∷ [])))
]

Run-budget :
    {cfg : WorkerConfig} {p : Phase} {w : World} {p' : Phase} {w' : World}
    → Run cfg p w p' w'
    → length w'.send_calls + budget p' ≤ length w.send_calls + budget p
Run-budget here = omega arith
Run-budget (next r s) = omega (arith, Run-budget r, Step_budget s)

-- A round calls a transport at most once, however its parts are interleaved with sound activity of
-- others that makes no call.
pub round_calls_once :
    (cfg : WorkerConfig) (at : Readings) (reference : Option Text) (w : World) (p : Phase)
    (w' : World)
    → Run cfg (phase_of (begin_round cfg at reference w).0) (begin_round cfg at reference w).1 p w'
    → length w'.send_calls ≤ length w.send_calls + 1
round_calls_once cfg at reference w p w' run = omega (
  arith,
  Run-budget run,
  budget-le-one (phase_of (begin_round cfg at reference w).0),
  ap length (begin_calls cfg at reference w),
)
