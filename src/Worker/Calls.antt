-- ===== src/Worker/Calls.antt =====
-- When the worker calls the transport: which conditions have been tested, and how often.
use whatsapp_bot.Destinations.{resolve}
use whatsapp_bot.Domain.Jobs.{same_status, processing}
use whatsapp_bot.Retry.{decide_retry, RetryAction}
use whatsapp_bot.Domain.Errors.{Error, DeliveryError, DeliveryErrorClass}
use whatsapp_bot.Domain.Queue.{QueueJob}
use whatsapp_bot.Db.{Db}
use whatsapp_bot.Db.Keeps.{KeepsAt, bind_at}
use whatsapp_bot.Worker.Send.{
  note_failure, settle, after_send, is_simulated, resume_round, to_delivery_error, finish_send,
  sendable_now, media_missing, fail_before_send, stop_before_send, check_and_send, send_job,
  call_transport,
}
use whatsapp_bot.Worker.Failure.{
  act_on, retry_later, handle_error, wait_rate_limit, pause_for_auth, fail_for_good, retry_options,
}
use whatsapp_bot.Worker.{
  failed_otherwise, delivered, delivery_failed, World, WorkerConfig, Readings, on_db, SendOutcome,
  SendCall, Phase, sending, finished, claim_for_round, begin_round, pace_claimed,
}
use whatsapp_bot.Db.Exec.{ok, err, Exec, ◌>>=◌, pure, Result}
use whatsapp_bot.Base.{
  refl, [], true, false, ◌∷◌, ◌≡◌, ◌∙◌, Bool, ◌⊎◌, ℕ, ◌++◌, inl, inr, String, Bool-cases, none,
  some, Option, Text, if◌then◌else◌,
}

SameCalls : World → World → Type 0
SameCalls w w' = w'.send_calls ≡ w.send_calls

SameCalls-refl : (w : World) → SameCalls w w
unfolding SameCalls
SameCalls-refl w = refl

SameCalls-trans : (u v w : World) → SameCalls u v → SameCalls v w → SameCalls u w
unfolding SameCalls
SameCalls-trans u v w p q = q ∙ p

module _ {A B : Type 0} where
  bind_calls :
      (m : Exec World A) (f : A → Exec World B) (w : World)
      → KeepsAt SameCalls m w
      → ((a : A) → (m w).0 ≡ ok a → KeepsAt SameCalls (f a) (m w).1)
      → KeepsAt SameCalls (m >>= f) w
  bind_calls = bind_at SameCalls SameCalls-refl SameCalls-trans

module _ {A : Type 0} where
  on_db_calls : (m : Exec Db A) (w : World) → KeepsAt SameCalls (on_db m) w
  unfolding SameCalls
  on_db_calls m w = record { at = refl }

  pure_calls : (a : A) (w : World) → KeepsAt SameCalls (pure a) w
  pure_calls a w = record { at = SameCalls-refl w }

pace_claimed_calls :
    (cfg : WorkerConfig) (wall : ℕ) (job : Option QueueJob) (w : World)
    → KeepsAt SameCalls (pace_claimed cfg wall job) w
unfolding SameCalls
pace_claimed_calls cfg wall none w = record { at = refl }
pace_claimed_calls cfg wall (some job) w = record { at = refl }

claim_for_round_calls :
    (cfg : WorkerConfig) (at : Readings) (reference : Option Text) (w : World)
    → KeepsAt SameCalls (claim_for_round cfg at reference) w
unfolding claim_for_round
claim_for_round_calls cfg at reference w = bind_calls _ _ w (on_db_calls _ w) (λ _ _.
    bind_calls _ _ _ (on_db_calls _ _)
      (λ _ _. bind_calls _ _ _ (on_db_calls _ _) (λ job _. pace_claimed_calls cfg at.wall job _)))

begun_calls :
    (cfg : WorkerConfig) (at : Readings) (reference : Option Text) (paused : Bool) (w : World)
    → KeepsAt SameCalls
        (if paused then pure (finished false) else claim_for_round cfg at reference)
        w
begun_calls cfg at reference true w = pure_calls (finished false) w
begun_calls cfg at reference false w = claim_for_round_calls cfg at reference w

-- The first part of a round calls no transport.
pub begin_calls :
    (cfg : WorkerConfig) (at : Readings) (reference : Option Text) (w : World)
    → (begin_round cfg at reference w).1.send_calls ≡ w.send_calls
unfolding begin_round SameCalls
begin_calls cfg at reference w =
    (bind_calls _ _ w (on_db_calls _ w) (λ paused _. begun_calls cfg at reference paused _)).at

act_on_calls :
    (action : RetryAction) (next : ℕ) (at : Readings) (job : QueueJob) (e : DeliveryError)
    (w : World)
    → KeepsAt SameCalls (act_on action next at job e) w
unfolding act_on retry_later wait_rate_limit pause_for_auth fail_for_good SameCalls
act_on_calls RetryAction.retry next at job e w =
    bind_calls _ _ w (on_db_calls _ w) (λ _ _. pure_calls _ _)
act_on_calls RetryAction.rate_limit next at job e w =
    bind_calls _ _ w (on_db_calls _ w)
      (λ _ _. bind_calls _ _ _ (on_db_calls _ _) (λ _ _. on_db_calls _ _))
act_on_calls RetryAction.pause_auth next at job e w = bind_calls _ _ w (on_db_calls _ w) (λ _ _.
    bind_calls _ _ _ (on_db_calls _ _) (λ _ _.
      bind_calls _ _ _ (on_db_calls _ _)
        (λ _ _. bind_calls _ _ _ (on_db_calls _ _) (λ _ _. record { at = refl }))))
act_on_calls RetryAction.fail next at job e w =
    bind_calls _ _ w (on_db_calls _ w)
      (λ _ _. bind_calls _ _ _ (on_db_calls _ _) (λ _ _. pure_calls _ _))

note_failure_calls :
    (cfg : WorkerConfig) (at : Readings) (job : QueueJob) (e : Error) (w : World)
    → (note_failure cfg at job e w).1.send_calls ≡ w.send_calls
unfolding note_failure handle_error SameCalls
note_failure_calls cfg at job e w =
    (act_on_calls (decide_retry (retry_options cfg at job (to_delivery_error e))).action _ at job
      (to_delivery_error e) w).at

-- The last part of a round calls no transport.
pub settle_calls :
    (cfg : WorkerConfig) (at : Readings) (job : QueueJob) (outcome : SendOutcome) (w : World)
    → (settle cfg at job outcome w).1.send_calls ≡ w.send_calls
unfolding settle after_send
settle_calls cfg at job outcome w =
    finished_calls (after_send cfg at job outcome w).0 _ ∙ sent_calls outcome
  where
    finished_calls :
        (r : Result Phase) (v : World) → (finish_send cfg at job r v).1.send_calls ≡ v.send_calls
    finished_calls (ok phase) v = unfold finish_send in refl
    finished_calls (err e) v = unfold finish_send in note_failure_calls cfg at job e v

    sent_calls : (o : SendOutcome) → (after_send cfg at job o w).1.send_calls ≡ w.send_calls
    sent_calls (delivered remote dry) = refl
    sent_calls (delivery_failed e) = refl
    sent_calls failed_otherwise = refl

fail_calls :
    (at : Readings) (job : QueueJob) (error_class : DeliveryErrorClass) (message : String)
    (w : World)
    → (fail_before_send at job error_class message w).1.send_calls ≡ w.send_calls
unfolding fail_before_send SameCalls
fail_calls at job error_class message w =
    (bind_calls _ _ w (on_db_calls _ w) (λ _ _. pure_calls (finished true) _)).at

stop_calls :
    (at : Readings) (job : QueueJob) (w : World)
    → (stop_before_send at job w).1.send_calls ≡ w.send_calls
unfolding stop_before_send SameCalls
stop_calls at job w = (bind_calls _ _ w (on_db_calls _ w) (λ _ _. pure_calls (finished true) _)).at

-- What must hold for a call of a transport: the pacing has not been interrupted, the job is in
-- processing, its destination is on the allowlist and can be sent to, and its media is there.
pub record MayCall (cfg : WorkerConfig) (job : QueueJob) (go : Bool) (w : World) : Type 0 where
  pub uninterrupted : go ≡ true
  pub claimed : same_status job.status processing ≡ true
  pub allowed : sendable_now (resolve job.destination_jid w.db) ≡ true
  pub media_there : media_missing cfg job.media_path ≡ false

-- A job that is marked for a dry run goes to the simulated transport, unless the whole process is
-- on the dry-run transport.
abbrev pub call_for : WorkerConfig → QueueJob → SendCall
call_for cfg job = record { job = job; simulated = is_simulated cfg job }

pub resume_calls :
    (cfg : WorkerConfig) (at : Readings) (job : QueueJob) (go : Bool) (w : World)
    → ((resume_round cfg at job go w).1.send_calls ≡ w.send_calls)
      ⊎ (MayCall cfg job go w
          × (resume_round cfg at job go w ≡ (
            ok (sending job (is_simulated cfg job)),
            record w { send_calls = w.send_calls ++ call_for cfg job ∷ [] },
          )))
unfolding resume_round check_and_send send_job call_transport ◌>>=◌
resume_calls cfg at job false w = inl (stop_calls at job w)
resume_calls cfg at job true w =
    elim (Bool-cases (sendable_now (resolve job.destination_jid w.db))) [
      | inr closed ↦ inl (rw closed (fail_calls at job _ _ w))
      | inl allowed ↦ elim (Bool-cases (media_missing cfg job.media_path)) [
        | inl missing ↦ inl (rw (allowed, missing) (fail_calls at job _ _ w))
        | inr there ↦ elim (Bool-cases (same_status job.status processing)) [
          | inr stale ↦ inl (rw (allowed, there, stale) (note_failure_calls cfg at job _ w))
          | inl claimed ↦ inr (
            record {
              uninterrupted = refl;
              claimed = claimed;
              allowed = allowed;
              media_there = there;
            },
            rw (allowed, there, claimed),
          )
        ]
      ]
    ]
