-- ===== src/Lib.antt =====
-- Models and theorems of the WhatsApp delivery bot: its message queue, the worker that empties it,
-- and the services that fill it.
--
-- The program keeps all its state in one SQLite database. Commands (from the command line or from a
-- chat with oneself) put jobs into the table `message_jobs`; the worker claims one job at a time,
-- paces itself, calls a transport and records how the call ended; destinations are an allowlist
-- whose changes cancel unsent jobs.
--
-- Files and code:
--   Base          text, lists, Boolean tests and lemmas that all parts share
--   Domain        src/domain/jobs.ts, errors.ts, groups.ts: statuses, the transition table, records
--   Db            src/db/migrations/index.ts (tables), src/db/database.ts (transactions),
--                 src/db/repositories/helpers.ts, audit-repository.ts, state-repository.ts (State),
--                 auth-repository.ts (Auth); Migrate is `migrate`; State/Refines, Auth/Written and
--                 Migrate/Twice hold proofs
--   Jobs          src/db/repositories/job-repository.ts: Create, Claim, Transition, Sweep hold the
--                 operations, Report the reports; Invariant, Evolution, Moves, Insertion, Index,
--                 Replaced, Claimable, Claiming, Outcomes, Moving, Recovery, Requeue hold proofs
--   Retry         src/messaging/retry-policy.ts
--   Destinations  src/db/repositories/destination-repository.ts; Alias is `setAlias`, Listing
--                 is `list`
--   History       sequences of calls on the two repositories
--   GroupSets     src/db/repositories/group-set-repository.ts, src/domain/group-sets.ts; Listing is
--                 `list` and `members`
--   Targets       src/whatsapp/jid.ts, src/whatsapp/target-resolver.ts; Snapshot is
--                 `snapshotAllowed`
--   Messages      src/messaging/message-service.ts (Messages and Messages/Enqueue),
--                 src/messaging/idempotency.ts, src/db/repositories/media-repository.ts; Staging is
--                 src/messaging/media-staging.ts, with proofs in Names and Kept; Moves holds proofs
--   Bulk          src/messaging/bulk-message-service.ts, src/db/repositories/batch-repository.ts
--                 (Status is its `get`)
--   Classify      src/whatsapp/error-classifier.ts
--   Worker        src/messaging/queue-worker.ts: Worker and Worker/Send are `processOnce` and `pace`,
--                 Worker/Failure is `handleError`, Worker/Steps interleaves a round with other tasks
--   Sources       src/db/repositories/forward-source-repository.ts; Lookup holds proofs
--   Controller    src/whatsapp/self-controller.ts, src/db/repositories/controller-repository.ts:
--                 Inbox is `handleMessage` and `handleUpsert`; Walk, Once, Origin, Repeat hold
--                 proofs; Following is the socket listener of src/daemon.ts
--   Lock          src/lock/process-lock.ts: Exclusion and Moves interleave processes, Endings bounds
--                 the calls of `acquire`
--   Connection    src/whatsapp/connection-manager.ts: Handlers is the rest of `createSocket`, Events
--                 what calls the manager; Sound, Keeps, Invariant, Abandon,
--                 Quiet, Silence, Blocked hold proofs
--   Commands      src/whatsapp/group-set-commands.ts; Parse and BulkCommands are
--                 src/whatsapp/bulk-controller-commands.ts, Executor and Run
--                 src/whatsapp/controller-commands.ts, Refresh src/whatsapp/group-service.ts,
--                 Schedule src/messaging/scheduler.ts; Aborted, Sets, Moves, Settling, Keeps,
--                 Accounts, Replies, Listed hold proofs
--   Health        src/health/health-service.ts
--   Cli           Update is src/cli/update-command.ts, with proofs in Steps and Order, from
--                 the plan in Plan; Check is
--                 src/cli/check-command.ts, with proofs in Condition and Verdict
--   Tests         a sample database, and the theorems at it
--
-- How the code is read. A table is the list of its rows in the order of insertion; `ORDER BY ...
-- LIMIT 1` is the first row that is least. An operation is a function from the database to a result
-- or an error and the new database; an immediate transaction restores the database when its body
-- throws; the unique index on active idempotency keys is checked on the state after a statement.
-- Instants are milliseconds, and texts that the program compares are lists of UTF-16 code units.
-- Each operation gets one reading of the clock; `Math.random` is a numerator over 2^53, and the
-- jitter is rounded exactly where the program uses doubles. A round of the worker is cut at its
-- awaits, so that other tasks may change the database between two parts. All loops run over
-- lists, except the wait of `pace`, which is a step of the relation, and the decimal print of a
-- number, whose fuel is one more than the number and so more than its digits.
--
-- A database is valid when the numbers of jobs ascend up to the last that was given, uuids differ
-- and contain a dash, and no two active jobs share an idempotency key. An activity is sound when it
-- leads from valid databases to valid ones and each job keeps its request and moves along the
-- transition table.
--
-- The executor of commands is modelled twice: Commands has its definition on the database and the
-- files, with the replies as data, and the controller takes any executor. A promise that is returned
-- without an await settles after the `try` that returned it. The runner of `wts update` answers by
-- what ran before; the host of `wts check` answers as it likes.
--
-- The controller's executor and `sendMessage`, and what other tasks do while they are awaited, are
-- arbitrary functions on the state. The process lock and the connection manager are cut at their
-- file system calls and awaits, and run in any interleaving; an attempt to connect is named by the
-- generation that it takes, and a promise that is settled counts as heard at once.
--
-- Not modelled: Baileys and its sign-in, the file system beyond the lock file and the media
-- directory, logging, configuration, the command line but for `wts check` and `wts update`, the
-- daemon's start and stop, the wording of replies, and the SQL of the migrations. `existsSync`, the
-- answers of the transport, the effect of a script of SQL on the tables, the parser and printer of
-- jids, the encoder of messages, the codes of a disconnect, the parser of credentials, the hashes,
-- the paths of Node.js and the bytes of files are parameters.
pub mod Base
pub mod Domain
pub mod Db
pub mod Jobs
pub mod Retry
pub mod Destinations
pub mod History
pub mod GroupSets
pub mod Targets
pub mod Messages
pub mod Bulk
pub mod Classify
pub mod Worker
pub mod Sources
pub mod Controller
pub mod Lock
pub mod Connection
pub mod Commands
pub mod Health
pub mod Cli
pub mod Tests
