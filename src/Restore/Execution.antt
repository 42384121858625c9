-- ===== src/Restore/Execution.antt =====
-- `claimForExecution`, `executeRestore` and `runExecution` of src/restore/restore.service.ts.
use backups_microservice.Prelude.{
  ℕ, Bool, true, false, ◌&&◌, some, List, [], ◌∷◌, ◌++◌, ◌==◌, length, filter, if◌then◌else◌,
}
use backups_microservice.Js.{Text, text, text_eq, text_or_empty}
use backups_microservice.Errors.{message, Result, ok, err}
use backups_microservice.Entities.{
  BackupRun, BackupTarget, RestoreRequest, RestoreStatus, VerificationStatus,
}
use backups_microservice.Storage.{LogicalRestoreLocation}
use backups_microservice.Walg.{build_env, restore_from_object}
use backups_microservice.World.{
  External, Action, pure, gets, lift, modify_db, catch, finally, ◌>>=◌, ◌>>◌,
}
use backups_microservice.Repositories.{is_pending, update_run, load_run, load_target, load_request}
use backups_microservice.Restore.Pin.{validate_restore, set_delete}
use backups_microservice.Restore.Terminal.{record_failure, record_success}

-- The rows that `{ id, status: PENDING }` matches.
unfoldable pub is_claimable : Text → RestoreRequest → Bool
is_claimable id q = text_eq q.id id && is_pending q.status

unfoldable pub claim_request : ℕ → RestoreRequest → RestoreRequest
claim_request started_at q = record q {
  status = RestoreStatus.running;
  started_at = some started_at;
}

unfoldable pub claim_requests : Text → ℕ → List RestoreRequest → List RestoreRequest
unfolding is_claimable claim_request
claim_requests id started_at [] = []
claim_requests id started_at (q ∷ qs) =
    (if is_claimable id q then claim_request started_at q else q) ∷ claim_requests id started_at qs

unfoldable pub verify_run : Text → ℕ → BackupRun → BackupRun
verify_run request_id started_at run = record run {
  verification_status = VerificationStatus.verifying;
  verification_checked_at = some started_at;
  verification_reason =
      some (text "Approved restore request " ++ (request_id ++ text " is running."));
}

pub data ClaimOutcome : Type 0 where
  claimed not_pending deferred : ClaimOutcome

-- The work that claimForExecution runs under the lock: whether the update affected one row.
unfoldable pub claim_work : RestoreRequest → BackupRun → ℕ → Action Bool
unfolding claim_requests verify_run
claim_work request run started_at = do
  affected ← gets (λ w. length (filter (is_claimable request.id) w.db.requests))
  modify_db (λ db. record db { requests = claim_requests request.id started_at db.requests })
  (if affected == 1
      then (do
        modify_db (λ db. record db {
          runs = update_run run.id (verify_run request.id started_at) db.runs;
        })
        pure true)
      else pure false)

abbrev pub claim_outcome : Bool → ClaimOutcome
claim_outcome true = claimed
claim_outcome false = not_pending

module _ (ext : External) where
  -- claimForExecution; the caller's two entities change with a claim, by `claim_request` and
  -- `verify_run` at the time of its start.
  unfoldable pub claim_for_execution : RestoreRequest → BackupRun → ℕ → Action ClaimOutcome
  claim_for_execution request run started_at =
      catch
        (ext.with_backup_run_lock Bool request.backup_run_id (claim_work request run started_at)
          >>= λ b. pure (claim_outcome b))
        (λ e. pure deferred)

  -- What runExecution does with a claimed request.
  unfoldable pub run_claimed :
      RestoreRequest → BackupRun → BackupTarget → LogicalRestoreLocation → Action (Unit {0})
  run_claimed request run target loc = do
    env ← lift (
        build_env ext (some loc.storage_prefix) target
          (text_or_empty (ext.env (text "DB_PASSWORD"))))
    result ← restore_from_object ext env loc.object_name target.database_name
    let done = record request { walg_output = some result.output }
    (if result.exit_code == 0
        then record_success ext done run target
        else (do record_failure ext done run target result.output; pure tt))

  unfoldable pub after_claim :
      RestoreRequest
      → BackupRun
      → BackupTarget
      → LogicalRestoreLocation
      → ℕ
      → ClaimOutcome
      → Action (Unit {0})
  after_claim request run target loc started_at claimed =
      run_claimed (claim_request started_at request) (verify_run request.id started_at run) target
        loc
  after_claim request run target loc started_at _ = pure tt

  unfoldable pub execute_validated :
      RestoreRequest → BackupRun → BackupTarget → Result LogicalRestoreLocation → Action (Unit {0})
  execute_validated request run target (err e) = do
    record_failure ext request run target (message e)
    pure tt
  execute_validated request run target (ok loc) = do
    started_at ← gets ext.now
    outcome ← claim_for_execution request run started_at
    after_claim request run target loc started_at outcome

  unfoldable pub run_execution : Text → Action (Unit {0})
  unfolding execute_validated after_claim
  run_execution request_id = do
    request ← load_request request_id
    run ← load_run request.backup_run_id
    target ← load_target request.target_id
    execute_validated request run target (validate_restore run target)

  -- executeRestore, from the point where the set of running executions holds the request
  unfoldable pub execute_restore : Text → Action (Unit {0})
  execute_restore request_id =
      finally (run_execution request_id)
        (λ w. record w { in_flight = set_delete request_id w.in_flight })
