-- ===== src/Lib.antt =====
-- Verification of the backups service.
--
-- The service takes logical backups of PostgreSQL databases with pg_dump and wal-g, removes the
-- backups that a job no longer retains, and restores a backup after an approved request. The parts
-- and the files that model them:
--
-- * Retention (src/retention/retention.service.ts) is Retention: `cleanup` chooses the newest verified
--   run as its anchor, proves with a listing that the anchor's object is there, and removes the
--   objects of the successful runs that are neither retained nor pinned, each under the lock of its
--   run (`delete_expired_object`).
-- * Restore requests (src/restore/restore.service.ts) are Restore: Restore.Pin is `create` and
--   `createPin`, Restore.Execution is `claimForExecution` and `runExecution`, Restore.Terminal is
--   `persistTerminalState` and `terminateStaleRequest`, Restore.Key the idempotency key.
--   Restore.Steps puts the transactions of restores and retention into one step relation.
-- * The recovery of stranded requests (src/restore/restore-reconciliation.service.ts) is
--   Reconciliation.
-- * The wrapper of wal-g (src/backup/walg-wrapper.service.ts) is Walg, with the listing of objects in
--   Walg.Listing and `runPipedPair` in Walg.Pipeline, a state machine over the callbacks of two child
--   processes and of the pipe between them. The names and paths of objects, and
--   src/restore/restore-execution.ts, are Storage.
-- * Backup runs (src/backup/backup.service.ts) are Backup: `executeJob`, which ends with a cleanup where
--   the upload succeeded, and the blocked `remove`; Backup.Crons is the registration of the cron
--   jobs. src/jobs/schedule-policy.ts is Schedule, and src/jobs/jobs.service.ts is Jobs.
-- * The service of targets (src/targets/targets.service.ts) is Targets, the bootstrap of the nightly
--   backup (src/backup/nightly-backup-bootstrap.service.ts) is Nightly, and the summary of
--   src/dashboard/dashboard.service.ts is Dashboard, over what src/discovery/discovery.service.ts
--   (Discovery) finds in the cluster. src/destinations/destinations.service.ts is Destinations.
-- * src/auth is Authentication: the guard of jwt-roles.guard.ts, with the cache of keys of
--   jwt-verifier.ts in Authentication.Verifier and `decodeURIComponent` in Authentication.Uri. Admin
--   is the middleware of src/main.ts that guards the admin pages, and the sign-in.
-- * `apply` and the check of src/schema/schema-readiness.service.ts are Readiness, which decides
--   whether `create` of Restore.Pin takes requests; src/health/health.controller.ts, which reports
--   it, is Health.
-- * Redaction is the redaction of nested values by their keys, which
--   src/notifications/notifications.service.ts (Notifications) and shared/logger/logger.service.ts
--   (Logger) apply, each with its pattern.
-- * src/common/database-name.ts is DatabaseName. The entity classes are Entities. The queries and
--   writes on the tables, with src/audit/audit.service.ts and the unique indexes of
--   src/migrations/1748563700000-RestoreSerializationControls.ts, are Repositories.
--
-- An operation is an action on a `World`: the tables, the readiness of the restore indexes, the
-- executions in flight and started, the notifications sent and the processes started. An action gives
-- the value returned, the error thrown, or no outcome where a promise never settles. A function `fooBar`
-- of the source is `foo_bar` here; where a method is split, the parts stand above it. `External` holds
-- what the service calls and does not implement: the lock of a backup run, the refusals of the
-- database, what wal-g and the pipes do, new identifiers, the digest, the clock and the environment.
-- The lock is not in the repository; the theorems that depend on it take `LockRuns`, which says that it
-- runs the work in a transaction on the tables as they stand when it is granted, or refuses.
--
-- A restore's `create` starts its execution without awaiting it; the execution is an operation of its
-- own, `execute_restore`, and stands in `tasks`. A step of Restore.Steps is one whole transaction: what
-- other transactions commit while it waits for its lock comes before it. The lock is that of a backup
-- run, so the pins of two runs of one target can interleave: an insertion is also a step of its own,
-- whose reads may be out of date, and the unique indexes judge it.
--
-- Texts are lists of UTF-16 code units, times are natural numbers of milliseconds, exit codes natural
-- numbers. `Number` of a text that is no plain decimal numeral is a parameter. All loops recurse on a
-- list; only `decimal`, the digits of a number, runs on fuel, of one more than the number, which its
-- digits never exhaust.
--
-- Not modelled: the lines of the log files; the metadata of audit events, and in the models of the
-- other services the details of notifications beyond names and identifiers; the timer that sends
-- SIGKILL after SIGTERM; the controllers, and the queries that only read; a refresh of the keys that
-- several requests share; the evidence files of the dashboard; the requests to the cluster; the pages
-- of the web console, and the SQL of the schema alignment and of its check.
mod Prelude
pub mod Js
pub mod Errors
pub mod Entities
pub mod DatabaseName
pub mod Storage
pub mod Walg
pub mod World
pub mod Notifications
pub mod Logger
pub mod Admin
pub mod Authentication
pub mod Readiness
pub mod Targets
pub mod Nightly
pub mod Dashboard
pub mod Discovery
pub mod Destinations
pub mod Health
pub mod Redaction
pub mod Repositories
pub mod Retention
pub mod Restore
pub mod Reconciliation
pub mod Examples
pub mod Backup
pub mod Schedule
pub mod Jobs
