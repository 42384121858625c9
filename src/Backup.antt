-- ===== src/Backup.antt =====
-- The execution of a backup job and the blocked deletion of a run: src/backup/backup.service.ts.
pub mod Execution
pub mod Ending
pub mod Removal
pub mod Crons
pub mod Registration
use backups_microservice.Prelude.{
  ℕ, Bool, true, false, ◌||◌, Option, none, some, List, [], ◌∷◌, ◌++◌, ◌==◌, if◌then◌else◌,
}
use backups_microservice.Js.{Text, text, is_empty, trim, slice_last, text_or_empty}
use backups_microservice.Errors
use backups_microservice.Errors.{Error, bad_request, not_found, plain, message, Result, ok, err}
use backups_microservice.Entities.{
  BackupRun, BackupRunStatus, VerificationStatus, TriggerType, BackupJob, BackupTarget, AuditEvent,
  manual_backup_triggered, backup_run_deletion_blocked,
}
use backups_microservice.Storage.{logical_backup_object_name, logical_backup_storage_path}
use backups_microservice.Walg.{or_text, build_env, backup_push}
use backups_microservice.Walg.Pipeline.{WalgResult}
use backups_microservice.World.{
  Db, World, WalgEnv, External, Notice, backup_succeeded, backup_failed, verification_pending,
  Action, pure, throw, gets, or_throw, modify_db, notify, ◌>>=◌, ◌>>◌,
}
use backups_microservice.Repositories.{
  find_job, find_target, save_run, update_job, record_audit, load_run,
}
use backups_microservice.Retention.{cleanup}

-- JobsService.findOne
unfoldable pub load_job : Text → Action BackupJob
load_job id w =
    or_throw (not_found (text "Job " ++ (id ++ text " not found"))) (find_job id w.db.jobs) w

unfoldable pub mark_verification_pending : Text → ℕ → BackupRun → BackupRun
mark_verification_pending reason now run = record run {
  verification_status = VerificationStatus.pending;
  verification_checked_at = some now;
  verification_reason = some reason;
  verification_error = none;
}

unfoldable pub mark_verification_skipped : Text → ℕ → BackupRun → BackupRun
mark_verification_skipped reason now run = record run {
  verification_status = VerificationStatus.skipped;
  verification_checked_at = some now;
  verification_reason = some reason;
  verification_error = none;
}

unfoldable pub fail_run : Text → Text → ℕ → BackupRun → BackupRun
unfolding mark_verification_skipped
fail_run error reason now run = record (mark_verification_skipped reason now run) {
  completed_at = some now;
  status = BackupRunStatus.failed;
  error_message = some (slice_last 500 error);
}

unfoldable pub succeed_run : WalgEnv → Text → ℕ → BackupRun → BackupRun
unfolding mark_verification_pending
succeed_run env object_name now run =
    record (mark_verification_pending
      (text "No isolated restore verification runner is configured yet.") now run) {
        completed_at = some now;
        status = BackupRunStatus.success;
        storage_path = some (logical_backup_storage_path env.walg_s3_prefix object_name);
      }

unfoldable pub mark_job_run : ℕ → BackupJob → BackupJob
mark_job_run now job = record job { last_run_at = some now }

abbrev no_target : Error
no_target = plain (text "Cannot read properties of undefined (reading 'database_name')")

module _ (ext : External) where
  -- The row that an execution starts from.
  unfoldable pub new_run : BackupJob → TriggerType → World → BackupRun
  new_run job triggered_by w = record {
    id = ext.new_id w.db;
    job_id = job.id;
    job_target_id = some job.target_id;
    status = BackupRunStatus.running;
    started_at = ext.now w;
    completed_at = none;
    size_bytes = none;
    storage_path = none;
    walg_output = none;
    error_message = none;
    verification_status = VerificationStatus.pending;
    verification_checked_at = none;
    verification_reason =
        some (text "Backup is still running; restore verification has not started.");
    verification_error = none;
    triggered_by = triggered_by;
    created_at = ext.now w;
  }

  unfoldable pub triggered_event : Text → BackupJob → BackupRun → AuditEvent
  unfolding or_text
  triggered_event actor job run = record {
    action = manual_backup_triggered;
    actor = or_text (some actor) (text "unknown");
    target_id = some job.target_id;
    job_id = some job.id;
    backup_run_id = some run.id;
    restore_request_id = none;
    reason = text "Manual backup trigger requested.";
  }

  unfoldable pub audit_trigger : TriggerType → Text → BackupJob → BackupRun → Action (Unit {0})
  audit_trigger TriggerType.manual actor job run = record_audit ext (triggered_event actor job run)
  audit_trigger TriggerType.scheduler actor job run = pure tt

  -- What the `try` of executeJob computes; `none` stands for a job whose target is gone.
  unfoldable pub parameters : BackupJob → Option BackupTarget → Text → Result (WalgEnv × Text)
  parameters job none run_id = err no_target
  parameters job (some target) run_id =
      Errors.◌>>=◌
        (build_env ext job.storage_prefix target (text_or_empty (ext.env (text "DB_PASSWORD"))))
        (λ env.
          Errors.◌>>=◌ (logical_backup_object_name run_id) (λ object_name. ok (env, object_name)))

  unfoldable pub fail_execution : BackupJob → Text → Text → BackupRun → Action BackupRun
  fail_execution job error reason run = do
    now ← gets ext.now
    let done = fail_run error reason now run
    modify_db (λ db. record db { runs = save_run done db.runs })
    notify (backup_failed job.name done.id)
    pure done

  unfoldable pub succeed_execution : BackupJob → WalgEnv → Text → BackupRun → Action BackupRun
  succeed_execution job env object_name run = do
    now ← gets ext.now
    let done = succeed_run env object_name now run
    modify_db (λ db. record db { runs = save_run done db.runs })
    modify_db (λ db. record db { jobs = update_job job.id (mark_job_run now) db.jobs })
    notify (backup_succeeded job.name done.id)
    notify (verification_pending job.name done.id)
    cleanup ext job env
    pure done

  -- What follows the upload.
  unfoldable pub conclude : BackupJob → WalgEnv → Text → BackupRun → WalgResult → Action BackupRun
  conclude job env object_name run result =
      let done = record run { walg_output = some result.output } in
      if result.exit_code == 0
      then succeed_execution job env object_name done
      else fail_execution job result.output
          (text "Backup failed before restore verification could run.") done

  unfoldable pub push : BackupJob → BackupRun → Result (WalgEnv × Text) → Action BackupRun
  push job run (err e) =
      fail_execution job (message e) (text "Backup was rejected before any process started.") run
  push job run (ok (env, object_name)) = do
    result ← backup_push ext env object_name
    conclude job env object_name run result

  unfoldable pub execute_job : Text → TriggerType → Text → Action BackupRun
  execute_job job_id triggered_by actor = do
    job ← load_job job_id
    target ← gets (λ w. find_target job.target_id w.db.targets)
    run ← gets (new_run job triggered_by)
    modify_db (λ db. record db { runs = save_run run db.runs })
    audit_trigger triggered_by actor job run
    push job run (parameters job target run.id)

  unfoldable pub trigger_manual : Text → Text → Action BackupRun
  trigger_manual job_id actor = execute_job job_id TriggerType.manual actor

  unfoldable pub blocked_event : Text → Text → BackupRun → AuditEvent
  unfolding or_text
  blocked_event actor reason run = record {
    action = backup_run_deletion_blocked;
    actor = or_text (some actor) (text "unknown");
    target_id = run.job_target_id;
    job_id = some run.job_id;
    backup_run_id = some run.id;
    restore_request_id = none;
    reason = reason;
  }

  -- `remove`, whose answer carries the run's identifier.
  unfoldable pub remove : Text → Text → Option Text → Option Text → Action Text
  remove id actor approval_actor approval_reason = do
    run ← load_run id
    (if is_empty (trim (text_or_empty approval_actor))
          || is_empty (trim (text_or_empty approval_reason))
        then throw (
            bad_request (
              text
                "Backup-run deletion is disabled unless approval actor and audit reason are supplied."))
        else (do
          record_audit ext (blocked_event actor (trim (text_or_empty approval_reason)) run)
          pure run.id))
