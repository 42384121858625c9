-- ===== src/Restore/Pin.antt =====
-- `create`, `createPin` and `assertReplayMatches` of src/restore/restore.service.ts: a request is
-- validated, replayed or inserted under the lock of its backup run, and its execution started.
use backups_microservice.Prelude.{
  Bool, true, false, ◌&&◌, ◌||◌, not, Option, none, some, List, ◌∷◌, ◌++◌, any, filter, ltb, length,
  if◌then◌else◌,
}
use backups_microservice.Js.{Text, text, text_eq, field_eq, is_empty, truthy}
use backups_microservice.Errors
use backups_microservice.Errors.{
  Error, bad_request, conflict, service_unavailable, unique_violation, plain, Result, ok, err,
}
use backups_microservice.Entities.{
  BackupRun, BackupTarget, RestoreRequest, RestoreStatus, AuditEvent, restore_request_created,
}
use backups_microservice.Storage.{
  LogicalRestoreLocation, assert_restorable_run, assert_postgres_restore_target,
  logical_restore_location,
}
use backups_microservice.World.{
  World, External, Action, pure, throw, gets, lift, or_throw, modify, throw_when, catch, ◌>>=◌,
  ◌>>◌,
}
use backups_microservice.Repositories.{
  find_run, find_by_key, find_active, insert_request, record_audit, load_run, load_target,
}
use backups_microservice.Restore.Key.{CreateRestoreDto, clean, restore_idempotency_key}

unfoldable pub replay_matches : RestoreRequest → CreateRestoreDto → Text → Bool
replay_matches request dto requested_by =
    text_eq request.backup_run_id dto.backup_run_id
    && (text_eq request.target_id dto.target_id
        && (field_eq request.approval_confirmed_backup_run_id dto.approval_confirmed_backup_run_id
            && (field_eq request.approval_confirmed_target_id dto.approval_confirmed_target_id
                && (request.production_restore_approved
                    && (text_eq (clean request.approval_actor) (clean (some dto.approval_actor))
                        && (text_eq (clean request.approval_reason)
                              (clean (some dto.approval_reason))
                            && text_eq (clean request.requested_by)
                                (clean (some requested_by))))))))

unfoldable pub assert_replay_matches :
    RestoreRequest → CreateRestoreDto → Text → Action RestoreRequest
assert_replay_matches request dto requested_by =
    if replay_matches request dto requested_by
    then pure request
    else throw (conflict (text "Idempotency key already belongs to a different restore request."))

pub record Pin : Type 0 where
  pub request : RestoreRequest
  pub replayed : Bool

-- The five refusals at the top of `create`.
unfoldable pub check_approval : CreateRestoreDto → Result (Unit {0})
check_approval dto =
    Errors.◌>>◌
      (Errors.throw_if (not (text_eq dto.approval_confirmed_backup_run_id dto.backup_run_id))
        (bad_request (text "Restore approval must confirm the exact backup run ID.")))
      (Errors.◌>>◌
        (Errors.throw_if (not (text_eq dto.approval_confirmed_target_id dto.target_id))
          (bad_request (text "Restore approval must confirm the exact target ID.")))
        (Errors.◌>>◌
          (Errors.throw_if (not dto.production_restore_approved)
            (bad_request (text "Production restore approval checkbox is required.")))
          (Errors.throw_if
            (is_empty (clean (some dto.approval_actor))
              || ltb (length (clean (some dto.approval_reason))) 12)
            (bad_request (text "Restore approval actor and reason are required.")))))

-- assertRestoreSerializationReady of src/schema/schema-readiness.service.ts
unfoldable pub assert_restore_serialization_ready : Action (Unit {0})
assert_restore_serialization_ready w =
    throw_when (not w.serialization.ready)
      (service_unavailable (text "Restore requests are unavailable: " ++ w.serialization.reason)) w

-- `backupRun.job?.target_id && backupRun.job.target_id !== target.id`
unfoldable pub target_mismatch : BackupRun → BackupTarget → Bool
target_mismatch run target = truthy run.job_target_id && not (field_eq run.job_target_id target.id)

-- The checks on a run and a target that `create` and `runExecution` share.
unfoldable pub validate_restore : BackupRun → BackupTarget → Result LogicalRestoreLocation
validate_restore run target =
    Errors.◌>>◌
      (Errors.throw_if (target_mismatch run target)
        (bad_request (text "Restore target must match the selected backup run target.")))
      (Errors.◌>>◌ (assert_restorable_run run)
        (Errors.◌>>◌ (assert_postgres_restore_target target) (logical_restore_location run)))

abbrev active_conflict : Error
active_conflict = conflict (text "A restore request is already pending or running for this target.")

module _ (ext : External) (dto : CreateRestoreDto) (requested_by : Text) (key : Text) where
  -- The row that `createPin` saves.
  unfoldable pub new_request : World → RestoreRequest
  new_request w = record {
    id = ext.new_id w.db;
    backup_run_id = dto.backup_run_id;
    target_id = dto.target_id;
    status = RestoreStatus.pending;
    requested_by = some requested_by;
    approval_actor = some (clean (some dto.approval_actor));
    approval_reason = some (clean (some dto.approval_reason));
    approval_confirmed_target_id = some dto.approval_confirmed_target_id;
    approval_confirmed_backup_run_id = some dto.approval_confirmed_backup_run_id;
    production_restore_approved = true;
    approved_at = some (ext.now w);
    idempotency_key = some key;
    started_at = none;
    completed_at = none;
    error_message = none;
    walg_output = none;
    created_at = ext.now w;
  }

  unfoldable pub created_event : BackupTarget → BackupRun → RestoreRequest → AuditEvent
  created_event target run saved = record {
    action = restore_request_created;
    actor = requested_by;
    target_id = some target.id;
    job_id = some run.job_id;
    backup_run_id = some run.id;
    restore_request_id = some saved.id;
    reason = clean saved.approval_reason;
  }

  unfoldable pub insert_pin : BackupTarget → BackupRun → Option RestoreRequest → Action Pin
  insert_pin target run (some active) = throw active_conflict
  insert_pin target run none = do
    draft ← gets new_request
    saved ← insert_request ext draft
    record_audit ext (created_event target run saved)
    pure (record { request = saved; replayed = false })

  unfoldable pub replay_or_insert : BackupTarget → BackupRun → Option RestoreRequest → Action Pin
  unfolding insert_pin
  replay_or_insert target run (some duplicate) = do
    request ← assert_replay_matches duplicate dto requested_by
    pure (record { request = request; replayed = true })
  replay_or_insert target run none = do
    active ← gets (λ w. find_active dto.target_id w.db.requests)
    insert_pin target run active

  -- The work that `createPin` runs under the lock.
  unfoldable pub create_pin_work : BackupTarget → BackupRun → Action Pin
  unfolding replay_or_insert
  create_pin_work target run = do
    found ← gets (λ w. find_run dto.backup_run_id w.db.runs)
    locked_run ← or_throw (bad_request (text "Backup run no longer exists.")) found
    lift (assert_restorable_run locked_run)
    lift (logical_restore_location locked_run)
    duplicate ← gets (λ w. find_by_key key w.db.requests)
    replay_or_insert target run duplicate

  unfoldable pub create_pin : BackupTarget → BackupRun → Action Pin
  create_pin target run =
      ext.with_backup_run_lock Pin dto.backup_run_id (create_pin_work target run)

-- What the `try` around `createPin` leaves: the pin, or the answer of its handler.
pub data Attempt : Type 0 where
  pin : Pin → Attempt
  answered : RestoreRequest → Attempt

is_unique_violation : Error → Bool
is_unique_violation (unique_violation m) = true
is_unique_violation _ = false

-- The set of running executions, and the start of one whose promise is not awaited.
unfoldable pub set_add : Text → List Text → List Text
set_add id ids = if any (λ i. text_eq i id) ids then ids else id ∷ ids

unfoldable pub set_delete : Text → List Text → List Text
set_delete id ids = filter (λ i. not (text_eq i id)) ids

unfoldable pub start_execution : Text → Action (Unit {0})
unfolding set_add
start_execution id =
    modify (λ w. record w { in_flight = set_add id w.in_flight; tasks = id ∷ w.tasks })

module _ (ext : External) (dto : CreateRestoreDto) (requested_by : Text) where
  replay_existing : Option RestoreRequest → Action Attempt
  replay_existing none = throw active_conflict
  replay_existing (some existing) = do
    request ← assert_replay_matches existing dto requested_by
    pure (answered request)

  -- The handler of the `try` around `createPin`.
  unfoldable pub on_pin_error : Text → Error → Action Attempt
  unfolding replay_existing is_unique_violation
  on_pin_error key e =
      if ext.is_lock_timeout e
      then throw (
          service_unavailable (
            text
              "The selected backup run is locked by another retention or restore operation. Retry shortly."))
      else if not (is_unique_violation e)
      then throw e
      else (do existing ← gets (λ w. find_by_key key w.db.requests); replay_existing existing)

  answer : Attempt → Action RestoreRequest
  answer (answered request) = pure request
  answer (pin p) =
      if p.replayed
      then assert_replay_matches p.request dto requested_by
      else (do start_execution p.request.id; pure p.request)

  create_new : Text → Action RestoreRequest
  unfolding answer
  create_new key = do
    run ← load_run dto.backup_run_id
    target ← load_target dto.target_id
    lift (validate_restore run target)
    attempt ←
        catch (create_pin ext dto requested_by key target run >>= λ p. pure (pin p))
          (on_pin_error key)
    answer attempt

  replay_or_create : Text → Option RestoreRequest → Action RestoreRequest
  unfolding create_new
  replay_or_create key (some replayed) = assert_replay_matches replayed dto requested_by
  replay_or_create key none = create_new key

  unfoldable pub create : Action RestoreRequest
  unfolding replay_or_create
  create = do
    lift (check_approval dto)
    assert_restore_serialization_ready
    let key = restore_idempotency_key ext.sha256_hex dto requested_by
    replayed ← gets (λ w. find_by_key key w.db.requests)
    replay_or_create key replayed
