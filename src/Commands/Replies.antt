-- ===== src/Commands/Replies.antt =====
-- Which commands the executor always replies to.
use whatsapp_bot.Commands.BulkCommands.{send_all, BulkReply}
use whatsapp_bot.Targets.{trim}
use whatsapp_bot.Commands.{words}
use whatsapp_bot.Messages.{Store}
use whatsapp_bot.Base.{refl, [], true, false, Bool, List, Text, Option, ◌≡◌, get_or}
use whatsapp_bot.Commands.Executor.{
  Command, read_command, forward_one, forward_many, forward_to_set, forward_to_all,
  forward_no_source, queue, refresh_groups, set_group_alias, allow, deny, list_groups, cancel_job,
  send, send_many, send_to_all, send_to_set, show_batch, schedule,
}
use whatsapp_bot.Commands.Run.{
  value, promise, Reply, CommandServices, execute, Returned, run_caught, replies, run_within,
  failure_reply, settle_returned,
}
use whatsapp_bot.Db.Exec.{
  ok, err, Result, ◌>>=◌, Exec, catch_error, handle, continue, pure, map_result,
}

-- The commands whose promise the executor returns without awaiting it.
abbrev pub is_handed_on : Command → Bool
is_handed_on (forward_many expression) = true
is_handed_on (forward_to_set name) = true
is_handed_on forward_to_all = true
is_handed_on send_many = true
is_handed_on send_to_all = true
is_handed_on send_to_set = true
is_handed_on _ = false

-- A reply has been made, or an error is on its way to the `catch`.
abbrev RepliesOrThrows : Result Returned → Type 0
RepliesOrThrows (err e) = Unit
RepliesOrThrows (ok (value reply)) = Unit
RepliesOrThrows (ok (promise m)) = ⊥

replies-RepliesOrThrows :
    {A : Type 0} (m : Exec Store A) (say : A → Reply) (s : Store)
    → RepliesOrThrows (replies m say s).0
unfolding ◌>>=◌
replies-RepliesOrThrows {A = A} m say s = by_result (m s).0
  where
    by_result : (r : Result A) → RepliesOrThrows (continue r (λ a. pure (value (say a))) (m s).1).0
    by_result (ok a) = tt
    by_result (err e) = tt

module _ (v : CommandServices) (command key : Text) (s : Store) where
  run_within-RepliesOrThrows :
      (parsed : Command)
      → is_handed_on parsed ≡ false
      → RepliesOrThrows (run_within v command key parsed s).0
  unfolding run_within
  run_within-RepliesOrThrows (forward_one destination) h = replies-RepliesOrThrows _ _ s
  run_within-RepliesOrThrows (forward_many expression) h = absurd cc
  run_within-RepliesOrThrows (forward_to_set name) h = absurd cc
  run_within-RepliesOrThrows forward_to_all h = absurd cc
  run_within-RepliesOrThrows Command.forward_usage h = tt
  run_within-RepliesOrThrows forward_no_source h = tt
  run_within-RepliesOrThrows Command.help h = tt
  run_within-RepliesOrThrows Command.status h = replies-RepliesOrThrows _ _ s
  run_within-RepliesOrThrows (queue failed_only) h = replies-RepliesOrThrows _ _ s
  run_within-RepliesOrThrows refresh_groups h = replies-RepliesOrThrows _ _ s
  run_within-RepliesOrThrows (set_group_alias reference alias) h = replies-RepliesOrThrows _ _ s
  run_within-RepliesOrThrows (allow reference) h = replies-RepliesOrThrows _ _ s
  run_within-RepliesOrThrows (deny reference) h = replies-RepliesOrThrows _ _ s
  run_within-RepliesOrThrows list_groups h = replies-RepliesOrThrows _ _ s
  run_within-RepliesOrThrows Command.group_set h = replies-RepliesOrThrows _ _ s
  run_within-RepliesOrThrows (cancel_job reference) h = replies-RepliesOrThrows _ _ s
  run_within-RepliesOrThrows (send destination body) h = replies-RepliesOrThrows _ _ s
  run_within-RepliesOrThrows send_many h = absurd cc
  run_within-RepliesOrThrows send_to_all h = absurd cc
  run_within-RepliesOrThrows send_to_set h = absurd cc
  run_within-RepliesOrThrows (show_batch id) h = replies-RepliesOrThrows _ _ s
  run_within-RepliesOrThrows (schedule destination at body) h = replies-RepliesOrThrows _ _ s
  run_within-RepliesOrThrows Command.unknown h = tt

-- Whatever is thrown within the `try`, there is a reply in the end.
settled_reply :
    (parts : List Text) (r : Result Returned) (t : Store)
    → RepliesOrThrows r
    → let (caught_one, u) = handle r (λ e. pure (value (failure_reply parts))) t in
      (reply : Reply) × ((continue caught_one settle_returned u).0 ≡ ok reply)
settled_reply parts (err e) t h = (failure_reply parts, refl)
settled_reply parts (ok (value reply)) t h = (reply, refl)
settled_reply parts (ok (promise m)) t h = absurd h

-- The executor replies to every command but the six whose promise it returns without awaiting it,
-- whatever their calls throw. To `/sendall` it ends as `sendAll` does: what that throws passes the
-- `catch` by.
pub execute_outcome :
    (v : CommandServices) (command : Text) (key : Option Text) (s : Store)
    → let parsed = read_command (words (trim command)) key in
      (is_handed_on parsed ≡ false → (reply : Reply) × ((execute v command key s).0 ≡ ok reply))
      × (parsed ≡ send_to_all
          → (execute v command key s).0
            ≡ map_result Reply.bulk (send_all v.bulk (trim command) s).0)
unfolding execute run_caught catch_error ◌>>=◌ run_within
execute_outcome v command key s = (
  λ h.
      settled_reply (words (trim command)) _ _
        (run_within-RepliesOrThrows v (trim command) (get_or key []) s _ h),
  λ e. rw e (passed_on (send_all v.bulk (trim command) s)),
)
  where
    passed_on :
        (ended : Result BulkReply × Store)
        → (continue ended.0 (λ reply. pure (Reply.bulk reply)) ended.1).0
          ≡ map_result Reply.bulk ended.0
    passed_on (ok reply, t) = refl
    passed_on (err e, t) = refl
