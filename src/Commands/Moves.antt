-- ===== src/Commands/Moves.antt =====
-- The executor and the queue: whatever the command, no job is lost or rewritten.
use whatsapp_bot.Bulk.Moves.{bulk_enqueue-SoundStoreAt}
use whatsapp_bot.Commands.{split_from}
use whatsapp_bot.Commands.Parse.{
  MultiMessage, NamedMessage, message_after, multi_message, named_message,
}
use whatsapp_bot.GroupSets.{normalize_group_set_name}
use whatsapp_bot.GroupSets.Listing.{GroupSetMember, members}
use whatsapp_bot.Targets.Snapshot.{snapshot_allowed}
use whatsapp_bot.Bulk.{BulkEnqueueRequest, BulkEnqueueResult}
use whatsapp_bot.Messages.Moves.{SoundStoreAt, bind_store, pure-SoundStoreAt, throw-SoundStoreAt}
use whatsapp_bot.Db.Exec.{Exec}
use whatsapp_bot.Domain.Groups.{Destination}
use whatsapp_bot.Targets.{TargetIssue, trim, Targets, resolve_targets}
use whatsapp_bot.Jobs.Evolution.{Sound, Sound-refl}
use whatsapp_bot.Messages.{Store}
use whatsapp_bot.Commands.BulkCommands.{
  BulkServices, queue_bulk, forward_multi, forward_all, with_set, forward_set, send_multi, send_all,
  send_set, bulk_call, forward_multi_to, forward_all_to, with_members, forward_set_to, BulkReply,
  send_all_parsed, unless_invalid, unless_empty, with_targets, send_multi_parsed, send_set_parsed,
  resolve_members, send_all_to, send_multi_to, usage_set, send_set_to,
}
use whatsapp_bot.Base.{
  [], none, some, true, inl, inr, ◌∷◌, Text, has_dash, ◌≡◌, List, Option, map, Bool-cases, ltb,
  text, length, ◌||◌, any, is_empty,
}

module _ (v : BulkServices) (dashed : (jid : Text) → has_dash (v.fresh jid).uuid ≡ true)
    (others_sound : (jid : Text) (s : Store) → Sound s.db (v.others jid s).db) where
  queue_bulk-SoundStoreAt :
      (request : BulkEnqueueRequest) (say : BulkEnqueueResult → BulkReply) (s : Store)
      → SoundStoreAt (queue_bulk v request say) s
  unfolding queue_bulk bulk_call
  queue_bulk-SoundStoreAt request say s =
      bind_store _ _ s
        (bulk_enqueue-SoundStoreAt v.cfg request v.batch v.others v.fresh dashed others_sound s)
        (λ result _. pure-SoundStoreAt _ _)

  unless_invalid-SoundStoreAt :
      (issues : List TargetIssue) (m : Exec Store BulkReply) (s : Store)
      → SoundStoreAt m s
      → SoundStoreAt (unless_invalid issues m) s
  unless_invalid-SoundStoreAt [] m s h = h
  unless_invalid-SoundStoreAt (i ∷ is) m s h = pure-SoundStoreAt _ s

  unless_empty-SoundStoreAt :
      (ds : List Destination) (reply : BulkReply) (m : Exec Store BulkReply) (s : Store)
      → SoundStoreAt m s
      → SoundStoreAt (unless_empty ds reply m) s
  unless_empty-SoundStoreAt [] reply m s h = pure-SoundStoreAt reply s
  unless_empty-SoundStoreAt (d ∷ ds) reply m s h = h

  with_targets-SoundStoreAt :
      {A : Type 0} (found : Option A) (f : A → Exec Store BulkReply) (s : Store)
      → ((a : A) → SoundStoreAt (f a) s)
      → SoundStoreAt (with_targets found f) s
  with_targets-SoundStoreAt none f s h = throw-SoundStoreAt _ s
  with_targets-SoundStoreAt (some a) f s h = h a

  pub forward_multi-SoundStoreAt :
      (expression source_key : Text) (s : Store)
      → SoundStoreAt (forward_multi v expression source_key) s
  unfolding forward_multi forward_multi_to
  forward_multi-SoundStoreAt expression source_key s =
      let inputs = map trim (split_from [] expression) in
      elim (Bool-cases (ltb (length inputs) 2 || any is_empty inputs)) [
        | inl e ↦ record { at = rw e (Sound-refl s.db) }
        | inr e ↦ record {
          at =
              rw e
                (with_targets-SoundStoreAt (resolve_targets v.codec true s.db inputs)
                  (forward_multi_to v source_key) s
                  (λ t.
                    unless_invalid-SoundStoreAt t.issues _ s (queue_bulk-SoundStoreAt _ _ s))).at;
        }
      ]

  pub forward_all-SoundStoreAt :
      (source_key : Text) (s : Store) → SoundStoreAt (forward_all v source_key) s
  unfolding forward_all forward_all_to
  forward_all-SoundStoreAt source_key s = record {
    at =
        (with_targets-SoundStoreAt (snapshot_allowed v.codec s.db) (forward_all_to v source_key) s
          (λ t. unless_empty-SoundStoreAt t.destinations _ _ s (queue_bulk-SoundStoreAt _ _ s))).at;
  }

  with_set-SoundStoreAt :
      (send : Text → List GroupSetMember → Targets → Exec Store BulkReply) (name : Option Text)
      (s : Store)
      → ((raw : Text) (ms : List GroupSetMember) (t : Targets) → SoundStoreAt (send raw ms t) s)
      → SoundStoreAt (with_set v send name) s
  unfolding with_set with_members
  with_set-SoundStoreAt send none s h = record { at = Sound-refl s.db }
  with_set-SoundStoreAt send (some name) s h = record { at = by_members (members name s.db) }
    where
      by_members :
          (found : Option (List GroupSetMember))
          → Sound s.db (with_members v name (send name) found s).1.db
      by_members none = Sound-refl s.db
      by_members (some ms) =
          (with_targets-SoundStoreAt (resolve_members v ms s.db) (send name ms) s (h name ms)).at

  pub forward_set-SoundStoreAt :
      (name source_key : Text) (s : Store) → SoundStoreAt (forward_set v name source_key) s
  unfolding forward_set forward_set_to
  forward_set-SoundStoreAt name source_key s =
      with_set-SoundStoreAt (λ raw. forward_set_to v source_key) (normalize_group_set_name name) s
        (λ raw ms t. unless_empty-SoundStoreAt t.resolved _ _ s (queue_bulk-SoundStoreAt _ _ s))

  pub send_multi-SoundStoreAt : (command : Text) (s : Store) → SoundStoreAt (send_multi v command) s
  unfolding send_multi send_multi_parsed send_multi_to
  send_multi-SoundStoreAt command s = by_parsed (multi_message command)
    where
      by_parsed : (parsed : Option MultiMessage) → SoundStoreAt (send_multi_parsed v parsed) s
      by_parsed none = record { at = Sound-refl s.db }
      by_parsed (some parsed) = record {
        at =
            (with_targets-SoundStoreAt (resolve_targets v.codec true s.db parsed.targets)
              (send_multi_to v parsed.message) s
              (λ t. unless_invalid-SoundStoreAt t.issues _ s (queue_bulk-SoundStoreAt _ _ s))).at;
      }

  pub send_all-SoundStoreAt : (command : Text) (s : Store) → SoundStoreAt (send_all v command) s
  unfolding send_all send_all_parsed send_all_to
  send_all-SoundStoreAt command s = by_parsed (message_after (text "/sendall") command)
    where
      by_parsed : (parsed : Option Text) → SoundStoreAt (send_all_parsed v parsed) s
      by_parsed none = record { at = Sound-refl s.db }
      by_parsed (some message) = record {
        at =
            (with_targets-SoundStoreAt (snapshot_allowed v.codec s.db) (send_all_to v message) s
              (λ t.
                unless_empty-SoundStoreAt t.destinations _ _ s (queue_bulk-SoundStoreAt _ _ s))).at;
      }

  pub send_set-SoundStoreAt : (command : Text) (s : Store) → SoundStoreAt (send_set v command) s
  unfolding send_set send_set_parsed send_set_to
  send_set-SoundStoreAt command s = by_parsed (named_message (text "/sendset") command)
    where
      by_parsed : (parsed : Option NamedMessage) → SoundStoreAt (send_set_parsed v parsed) s
      by_parsed none = pure-SoundStoreAt usage_set s
      by_parsed (some parsed) =
          with_set-SoundStoreAt (send_set_to v parsed.message)
            (normalize_group_set_name parsed.name) s
            (λ raw ms t. unless_empty-SoundStoreAt t.resolved _ _ s (queue_bulk-SoundStoreAt _ _ s))
