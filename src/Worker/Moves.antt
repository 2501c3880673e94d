-- ===== src/Worker/Moves.antt =====
-- Every part of a round of the worker keeps the invariant of the queue, rewrites no request and
-- moves statuses along the transition table, whatever the transport does.
use whatsapp_bot.Destinations.{resolve}
use whatsapp_bot.Jobs.Transition.{TransitionOptions, transition}
use whatsapp_bot.Retry.{decide_retry, RetryAction}
use whatsapp_bot.Domain.Jobs.{JobStatus, same_status, processing}
use whatsapp_bot.Domain.Errors.{DeliveryError, Error}
use whatsapp_bot.Jobs.Moves.{
  promote_due_scheduled-SoundAt, cancel_disabled-SoundAt, claim-SoundAt, transition-SoundAt,
}
use whatsapp_bot.Destinations.Moves.{set_can_send-SoundAt}
use whatsapp_bot.Domain.Queue.{QueueJob}
use whatsapp_bot.Worker.Send.{
  note_failure, resume_round, check_and_send, fail_before_send, to_delivery_error, stop_before_send,
  send_job, call_transport, record_delivery, after_send, finish_send, settle, note_dry_run,
  sendable_now, media_missing,
}
use whatsapp_bot.Worker.Failure.{
  close_destination, handle_error, act_on, retry_later, retry_options, wait_rate_limit,
  pause_for_auth, fail_for_good,
}
use whatsapp_bot.Jobs.Rules.{returned, transaction, bind, got}
use whatsapp_bot.Db.{Db, StateKey, StateValue, EventType, EntityType, Details}
use whatsapp_bot.Db.Keeps.{KeepsAt, bind_at}
use whatsapp_bot.Jobs.Evolution.{
  Sound, Sound-refl, Sound-trans, SoundAt, Sound-of_same_jobs, insert_audit-SoundAt,
}
use whatsapp_bot.Db.Audit.{add}
use whatsapp_bot.Db.State.{set, remove, get}
use whatsapp_bot.Worker.{
  failed_otherwise, delivered, delivery_failed, World, end_pause, on_db, clear_reason,
  is_globally_paused, WorkerConfig, begin_round, Readings, is_rate_limit_reason, claim_for_round,
  pace_claimed, finished, blocks_sending, SendOutcome, Phase, is_later,
}
use whatsapp_bot.Db.Exec.{ok, Exec, pure, ◌>>=◌, ◌>>◌, err, Result, gets}
use whatsapp_bot.Base.{
  refl, true, false, Bool, ◌≡◌, ℕ, Option, String, Text, none, some, if◌then◌else◌, not, is_some,
}

abbrev pub SoundWorld : World → World → Type 0
SoundWorld w w' = Sound w.db w'.db

abbrev pub SoundWorldAt : {A : Type 0} → Exec World A → World → Type 0
SoundWorldAt m w = KeepsAt SoundWorld m w

SoundWorld-refl : (w : World) → SoundWorld w w
SoundWorld-refl w = Sound-refl w.db

SoundWorld-trans : (u v w : World) → SoundWorld u v → SoundWorld v w → SoundWorld u w
SoundWorld-trans u v w = Sound-trans u.db v.db w.db

module _ {A B : Type 0} where
  bind_world :
      (m : Exec World A) (f : A → Exec World B) (w : World)
      → SoundWorldAt m w
      → ((a : A) → (m w).0 ≡ ok a → SoundWorldAt (f a) (m w).1)
      → SoundWorldAt (m >>= f) w
  bind_world = bind_at SoundWorld SoundWorld-refl SoundWorld-trans

module _ {A : Type 0} where
  lifted : (m : Exec Db A) (w : World) → SoundAt m w.db → SoundWorldAt (on_db m) w
  lifted m w h = record { at = h.at }

  returned_world : (a : A) (w : World) → SoundWorldAt (pure a) w
  returned_world a w = record { at = Sound-refl w.db }

set-SoundAt :
    (now : ℕ) (key : StateKey) (value : StateValue) (db : Db) → SoundAt (set now key value) db
unfolding set
set-SoundAt now key value db = record { at = Sound-of_same_jobs db _ refl refl }

remove-SoundAt : (key : StateKey) (db : Db) → SoundAt (remove key) db
unfolding remove
remove-SoundAt key db = record { at = Sound-of_same_jobs db _ refl refl }

add-SoundAt :
    (now : ℕ) (event : EventType) (actor : String) (entity : Option EntityType) (id : Option Text)
    (details : Option Details) (db : Db)
    → SoundAt (add now event actor entity id details) db
unfolding add
add-SoundAt now event actor entity id details db =
    transaction _ db (insert_audit-SoundAt _ _ _ _ _ _ db)

clear_reason-SoundAt : (b : Bool) (db : Db) → SoundAt (clear_reason b) db
clear_reason-SoundAt true db = remove-SoundAt _ db
clear_reason-SoundAt false db = returned tt db

end_pause-SoundAt : (reason : Option StateValue) (db : Db) → SoundAt (end_pause reason) db
unfolding end_pause
end_pause-SoundAt reason db = bind _ _ db (remove-SoundAt _ db) (λ _ _.
    bind _ _ _ (clear_reason-SoundAt (is_rate_limit_reason reason) _) (λ _ _. returned false _))

choose :
    {S A : Type 0} (R : S → S → Type 0) (b : Bool) (m n : Exec S A) (s : S)
    → KeepsAt R m s
    → KeepsAt R n s
    → KeepsAt R (if b then m else n) s
choose R true m n s h k = h
choose R false m n s h k = k

is_globally_paused-SoundAt :
    (cfg : WorkerConfig) (now : ℕ) (db : Db) → SoundAt (is_globally_paused cfg now) db
unfolding is_globally_paused
is_globally_paused-SoundAt cfg now db =
    let reason = get StateKey.outgoing_pause_reason db in
    let until = get StateKey.outgoing_pause_until db in
    got _ _ db (
      got _ _ db (
        choose Sound cfg.transport_is_dry_run _ _ db (returned false db) (
          choose Sound (blocks_sending reason) _ _ db (returned true db) (
            choose Sound (not (is_some until)) _ _ db (returned false db) (
              choose Sound (is_later now until) _ _ db (returned true db)
                (end_pause-SoundAt reason db))))))

pace_claimed-SoundAt :
    (cfg : WorkerConfig) (wall : ℕ) (job : Option QueueJob) (w : World)
    → SoundWorldAt (pace_claimed cfg wall job) w
pace_claimed-SoundAt cfg wall none w = returned_world _ w
pace_claimed-SoundAt cfg wall (some job) w = record { at = Sound-refl w.db }

-- The first part of a round.
pub begin_round-SoundAt :
    (cfg : WorkerConfig) (at : Readings) (reference : Option Text) (w : World)
    → SoundWorldAt (begin_round cfg at reference) w
unfolding begin_round claim_for_round
begin_round-SoundAt cfg at reference w =
    bind_world _ _ w (lifted _ w (is_globally_paused-SoundAt cfg at.clock w.db)) (λ paused _.
      choose SoundWorld paused _ _ _ (returned_world _ _) (
        bind_world _ _ _ (lifted _ _ (promote_due_scheduled-SoundAt at.clock _)) (λ _ _.
          bind_world _ _ _ (lifted _ _ (cancel_disabled-SoundAt at.wall _)) (λ _ _.
            bind_world _ _ _ (lifted _ _ (claim-SoundAt at.clock reference cfg.dry_run _))
              (λ job _. pace_claimed-SoundAt cfg at.wall job _)))))

close_destination-SoundAt :
    (b : Bool) (now : ℕ) (jid : Text) (db : Db) → SoundAt (close_destination b now jid) db
close_destination-SoundAt true now jid db = set_can_send-SoundAt now jid false db
close_destination-SoundAt false now jid db = returned tt db

module _ (at : Readings) (job : QueueJob) where
  moved_then_done :
      {A : Type 0} (target : JobStatus) (options : TransitionOptions) (a : A) (w : World)
      → SoundWorldAt (on_db (transition at.wall job.uuid target options) >> pure a) w
  moved_then_done target options a w =
      bind_world _ _ w (lifted _ w (transition-SoundAt at.wall job.uuid target options w.db))
        (λ _ _. returned_world a _)

module _ (at : Readings) (job : QueueJob) (e : DeliveryError) where
  act_on-SoundAt :
      (action : RetryAction) (next : ℕ) (w : World) → SoundWorldAt (act_on action next at job e) w
  unfolding act_on retry_later wait_rate_limit pause_for_auth fail_for_good
  act_on-SoundAt RetryAction.retry next w = moved_then_done at job _ _ tt w
  act_on-SoundAt RetryAction.rate_limit next w =
      bind_world _ _ w (lifted _ w (transition-SoundAt at.wall job.uuid _ _ w.db)) (λ _ _.
        bind_world _ _ _ (lifted _ _ (set-SoundAt _ _ _ _))
          (λ _ _. lifted _ _ (set-SoundAt _ _ _ _)))
  act_on-SoundAt RetryAction.pause_auth next w =
      bind_world _ _ w (lifted _ w (transition-SoundAt at.wall job.uuid _ _ w.db)) (λ _ _.
        bind_world _ _ _ (lifted _ _ (set-SoundAt _ _ _ _)) (λ _ _.
          bind_world _ _ _ (lifted _ _ (set-SoundAt _ _ _ _)) (λ _ _.
            bind_world _ _ _ (lifted _ _ (add-SoundAt _ _ _ _ _ _ _))
              (λ _ _. record { at = Sound-refl _ }))))
  act_on-SoundAt RetryAction.fail next w =
      bind_world _ _ w (lifted _ w (close_destination-SoundAt _ at.wall job.destination_jid w.db))
        (λ _ _. moved_then_done at job _ _ tt _)

handle_error-SoundAt :
    (cfg : WorkerConfig) (at : Readings) (job : QueueJob) (e : DeliveryError) (w : World)
    → SoundWorldAt (handle_error cfg at job e) w
unfolding handle_error
handle_error-SoundAt cfg at job e w =
    act_on-SoundAt at job e (decide_retry (retry_options cfg at job e)).action _ w

note_failure-SoundAt :
    (cfg : WorkerConfig) (at : Readings) (job : QueueJob) (e : Error) (w : World)
    → SoundWorldAt (note_failure cfg at job e) w
unfolding note_failure
note_failure-SoundAt cfg at job e w = record {
  at = (handle_error-SoundAt cfg at job (to_delivery_error e) w).at;
}

send_job-SoundAt :
    (cfg : WorkerConfig) (at : Readings) (job : QueueJob) (w : World)
    → SoundWorldAt (send_job cfg at job) w
unfolding send_job call_transport
send_job-SoundAt cfg at job w =
    choose SoundWorld (same_status job.status processing) _ _ w
      (bind_world _ _ w (record { at = Sound-refl w.db }) (λ _ _. returned_world _ _))
      (note_failure-SoundAt cfg at job _ w)

-- The second part, up to the call of the transport.
pub resume_round-SoundAt :
    (cfg : WorkerConfig) (at : Readings) (job : QueueJob) (go : Bool) (w : World)
    → SoundWorldAt (resume_round cfg at job go) w
unfolding resume_round check_and_send fail_before_send stop_before_send
resume_round-SoundAt cfg at job false w = moved_then_done at job _ _ (finished true) w
resume_round-SoundAt cfg at job true w =
    bind_world _ _ w
      (lifted (gets (resolve job.destination_jid)) w (record { at = Sound-refl w.db }))
      (λ d _.
        choose SoundWorld (not (sendable_now d)) _ _ w
          (moved_then_done at job _ _ (finished true) w)
          (choose SoundWorld (media_missing cfg job.media_path) _ _ w
            (moved_then_done at job _ _ (finished true) w) (send_job-SoundAt cfg at job w)))

record_delivery-SoundAt :
    (cfg : WorkerConfig) (at : Readings) (job : QueueJob) (remote : Option Text) (dry : Bool)
    (db : Db)
    → SoundAt (record_delivery cfg at job remote dry) db
unfolding record_delivery
record_delivery-SoundAt cfg at job remote true db =
    bind _ _ db (transition-SoundAt at.wall job.uuid _ _ db)
      (λ _ _. noted cfg.transport_is_dry_run _)
  where
    noted : (b : Bool) (s : Db) → SoundAt (note_dry_run b at.wall) s
    noted true s = set-SoundAt _ _ _ s
    noted false s = returned tt s
record_delivery-SoundAt cfg at job remote false db =
    bind _ _ db (transition-SoundAt at.wall job.uuid _ _ db)
      (λ _ _. bind _ _ _ (set-SoundAt _ _ _ _) (λ _ _. set-SoundAt _ _ _ _))

after_send-SoundAt :
    (cfg : WorkerConfig) (at : Readings) (job : QueueJob) (outcome : SendOutcome) (w : World)
    → SoundWorldAt (after_send cfg at job outcome) w
unfolding after_send
after_send-SoundAt cfg at job (delivered remote dry) w = record {
  at = (record_delivery-SoundAt cfg at job remote dry w.db).at;
}
after_send-SoundAt cfg at job (delivery_failed e) w = record { at = Sound-refl w.db }
after_send-SoundAt cfg at job failed_otherwise w = record { at = Sound-refl w.db }

finish_send-SoundAt :
    (cfg : WorkerConfig) (at : Readings) (job : QueueJob) (r : Result Phase) (w : World)
    → SoundWorldAt (finish_send cfg at job r) w
unfolding finish_send
finish_send-SoundAt cfg at job (ok phase) w = record { at = Sound-refl w.db }
finish_send-SoundAt cfg at job (err e) w = record { at = (note_failure-SoundAt cfg at job e w).at }

-- The last part, whatever the transport has done.
pub settle-SoundAt :
    (cfg : WorkerConfig) (at : Readings) (job : QueueJob) (outcome : SendOutcome) (w : World)
    → SoundWorldAt (settle cfg at job outcome) w
unfolding settle
settle-SoundAt cfg at job outcome w =
    let (r, w') = after_send cfg at job outcome w in
    record {
      at =
          Sound-trans w.db w'.db (finish_send cfg at job r w').1.db
            (after_send-SoundAt cfg at job outcome w).at (finish_send-SoundAt cfg at job r w').at;
    }
