-- ===== src/Restore/Terminal.antt =====
-- The terminal transitions of src/restore/restore.service.ts: `persistTerminalState`,
-- `recordSuccess`, `recordFailure` and `terminateStaleRequest`.
use backups_microservice.Prelude.{
  ℕ, Bool, true, false, Option, none, some, ◌++◌, any, if◌then◌else◌,
}
use backups_microservice.Js.{Text, text, text_eq, truthy, text_or_empty}
use backups_microservice.Entities.{
  BackupRun, BackupTarget, RestoreRequest, RestoreStatus, VerificationStatus, AuditEvent,
  AuditAction, restore_execution_completed, restore_execution_failed,
}
use backups_microservice.World.{
  World, External, restore_completed, verification_verified, restore_failed, verification_failed,
  Action, pure, gets, modify_db, notify, ◌>>=◌, ◌>>◌,
}
use backups_microservice.Repositories.{
  is_terminal, find_request, save_run, save_request, record_audit, load_run, load_target,
}
use backups_microservice.Restore.Key.{restore_error}

-- The two statuses that persistTerminalState is called with.
pub data Ending : Type 0 where
  completed failed : Ending

unfoldable pub final_status : Ending → RestoreStatus
final_status completed = RestoreStatus.completed
final_status failed = RestoreStatus.failed

verdict : Ending → VerificationStatus
verdict completed = VerificationStatus.verified
verdict failed = VerificationStatus.failed

verdict_reason : Ending → Text → Text
verdict_reason completed id = text "Restore request " ++ (id ++ text " completed successfully.")
verdict_reason failed id = text "Restore request " ++ (id ++ text " failed.")

default_reason : Ending → Text
default_reason completed = text "Restore completed after approved request."
default_reason failed = text "Restore failed after approved request."

ending_action : Ending → AuditAction
ending_action completed = restore_execution_completed
ending_action failed = restore_execution_failed

-- `a || b` on nullable strings
or_field : Option Text → Option Text → Option Text
or_field a b = if truthy a then a else b

unfoldable pub finish_request : Ending → Option Text → ℕ → RestoreRequest → RestoreRequest
unfolding final_status
finish_request ending error completed_at request = record request {
  status = final_status ending;
  completed_at = some completed_at;
  error_message = error;
}

unfoldable pub finish_run : Ending → Option Text → ℕ → Text → BackupRun → BackupRun
unfolding verdict verdict_reason
finish_run ending error completed_at request_id run = record run {
  verification_status = verdict ending;
  verification_checked_at = some completed_at;
  verification_reason = some (verdict_reason ending request_id);
  verification_error = error;
}

unfoldable pub ending_event : Ending → RestoreRequest → BackupRun → BackupTarget → AuditEvent
unfolding or_field default_reason ending_action
ending_event ending request run target = record {
  action = ending_action ending;
  actor = text_or_empty (or_field request.requested_by request.approval_actor);
  target_id = some target.id;
  job_id = none;
  backup_run_id = some run.id;
  restore_request_id = some request.id;
  reason = text_or_empty (or_field request.approval_reason (some (default_reason ending)));
}

-- `fresh && TERMINAL_RESTORE_STATUSES.includes(fresh.status)`
abbrev pub already_over : Option RestoreRequest → Bool
already_over none = false
already_over (some fresh) = is_terminal fresh.status

module _ (ext : External) where
  -- The work that persistTerminalState runs under the lock.
  unfoldable pub persist_work :
      RestoreRequest → BackupRun → BackupTarget → Ending → Option Text → ℕ → Action Bool
  persist_work request run target ending error completed_at = do
    over ← gets (λ w. already_over (find_request request.id w.db.requests))
    (if over then pure false else (do
      modify_db (λ db. record db {
        runs = save_run (finish_run ending error completed_at request.id run) db.runs;
        requests = save_request (finish_request ending error completed_at request) db.requests;
      })
      record_audit ext (ending_event ending request run target)
      pure true))

  unfoldable pub persist_terminal_state :
      RestoreRequest → BackupRun → BackupTarget → Ending → Option Text → Action Bool
  persist_terminal_state request run target ending error = do
    completed_at ← gets ext.now
    ext.with_backup_run_lock Bool request.backup_run_id
        (persist_work request run target ending error completed_at)

  unfoldable pub record_success : RestoreRequest → BackupRun → BackupTarget → Action (Unit {0})
  record_success request run target = do
    applied ← persist_terminal_state request run target completed none
    (if applied
        then (do
          notify (restore_completed target.name request.id)
          notify (verification_verified target.name request.id))
        else pure tt)

  unfoldable pub record_failure : RestoreRequest → BackupRun → BackupTarget → Text → Action Bool
  record_failure request run target output = do
    applied ← persist_terminal_state request run target failed (some (restore_error output))
    (if applied
        then (do
          notify (restore_failed target.name request.id)
          notify (verification_failed target.name request.id)
          pure true)
        else pure false)

abbrev same_status : RestoreStatus → RestoreStatus → Bool
same_status RestoreStatus.pending RestoreStatus.pending = true
same_status RestoreStatus.running RestoreStatus.running = true
same_status RestoreStatus.completed RestoreStatus.completed = true
same_status RestoreStatus.failed RestoreStatus.failed = true
same_status _ _ = false

-- isInFlight
unfoldable pub is_in_flight : Text → World → Bool
is_in_flight id w = any (λ i. text_eq i id) w.in_flight

module _ (ext : External) where
  terminate_if : RestoreStatus → Text → Option RestoreRequest → Action Bool
  terminate_if expected reason none = pure false
  terminate_if expected reason (some request) =
      if same_status request.status expected
      then (do
        run ← load_run request.backup_run_id
        target ← load_target request.target_id
        record_failure ext request run target reason)
      else pure false

  unfoldable pub terminate_stale_request : Text → RestoreStatus → Text → Action Bool
  unfolding terminate_if
  terminate_stale_request request_id expected reason = do
    running ← gets (is_in_flight request_id)
    found ← gets (λ w. find_request request_id w.db.requests)
    (if running then pure false else terminate_if expected reason found)
