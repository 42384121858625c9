-- ===== src/Repositories.antt =====
-- The queries and writes that the services make on the tables, over primary keys.

use backups_microservice.Prelude.{
  Bool, true, false, ◌&&◌, Option, none, some, List, [], ◌∷◌, ◌++◌, find, any, if◌then◌else◌,
}
use backups_microservice.Js.{Text, text, text_eq, field_eq}
use backups_microservice.Errors.{Error, unique_violation, plain, not_found}
use backups_microservice.Entities.{
  BackupTarget, BackupJob, BackupRun, RestoreRequest, RestoreStatus, AuditEvent,
}
use backups_microservice.World.{Db, External, Action, pure, throw, modify_db, or_throw, ◌>>◌}

-- ACTIVE_RESTORE_STATUSES
unfoldable pub is_active : RestoreStatus → Bool
is_active RestoreStatus.pending = true
is_active RestoreStatus.running = true
is_active _ = false

-- TERMINAL_RESTORE_STATUSES
unfoldable pub is_terminal : RestoreStatus → Bool
is_terminal RestoreStatus.completed = true
is_terminal RestoreStatus.failed = true
is_terminal _ = false

unfoldable pub is_pending : RestoreStatus → Bool
is_pending RestoreStatus.pending = true
is_pending _ = false

-- `findOne({ where: { id } })` of each repository.
unfoldable pub find_run : Text → List BackupRun → Option BackupRun
find_run id runs = find (λ r. text_eq r.id id) runs

unfoldable pub find_target : Text → List BackupTarget → Option BackupTarget
find_target id targets = find (λ t. text_eq t.id id) targets

unfoldable pub find_job : Text → List BackupJob → Option BackupJob
find_job id jobs = find (λ j. text_eq j.id id) jobs

unfoldable pub find_request : Text → List RestoreRequest → Option RestoreRequest
find_request id requests = find (λ q. text_eq q.id id) requests

-- `findOne({ where: { idempotency_key } })`
unfoldable pub find_by_key : Text → List RestoreRequest → Option RestoreRequest
find_by_key key requests = find (λ q. field_eq q.idempotency_key key) requests

-- `findOne({ where: { target_id, status: In(ACTIVE_RESTORE_STATUSES) } })`
unfoldable pub find_active : Text → List RestoreRequest → Option RestoreRequest
find_active target_id requests =
    find (λ q. text_eq q.target_id target_id && is_active q.status) requests

-- Whether `{ backup_run_id, status: In(ACTIVE_RESTORE_STATUSES) }` matches a request.
unfoldable pub pins : Text → RestoreRequest → Bool
pins run_id q = text_eq q.backup_run_id run_id && is_active q.status

-- `save(entity)`: the row of the entity's identifier takes all its values, or a row is added.
unfoldable pub save_run : BackupRun → List BackupRun → List BackupRun
save_run run [] = run ∷ []
save_run run (r ∷ runs) = if text_eq r.id run.id then run ∷ runs else r ∷ save_run run runs

unfoldable pub save_request : RestoreRequest → List RestoreRequest → List RestoreRequest
save_request request [] = request ∷ []
save_request request (q ∷ requests) =
    if text_eq q.id request.id then request ∷ requests else q ∷ save_request request requests

unfoldable pub save_job : BackupJob → List BackupJob → List BackupJob
save_job job [] = job ∷ []
save_job job (j ∷ jobs) = if text_eq j.id job.id then job ∷ jobs else j ∷ save_job job jobs

-- `update(BackupRun, { id }, values)`
unfoldable pub update_run : Text → (BackupRun → BackupRun) → List BackupRun → List BackupRun
update_run id f [] = []
update_run id f (r ∷ runs) = (if text_eq r.id id then f r else r) ∷ update_run id f runs

unfoldable pub update_job : Text → (BackupJob → BackupJob) → List BackupJob → List BackupJob
update_job id f [] = []
update_job id f (j ∷ jobs) = (if text_eq j.id id then f j else j) ∷ update_job id f jobs

-- The unique indexes of restore requests (1748563700000-RestoreSerializationControls.ts): the row
-- that stands against a new one, where the index is installed.
unfoldable pub violates_active : Db → RestoreRequest → Bool
unfolding find_active
violates_active db q =
    db.active_target_index
    && (is_active q.status
        && any (λ p. text_eq p.target_id q.target_id && is_active p.status) db.requests)

abbrev key_taken : Option Text → List RestoreRequest → Bool
key_taken none requests = false
key_taken (some key) requests = any (λ p. field_eq p.idempotency_key key) requests

unfoldable pub violates_key : Db → RestoreRequest → Bool
violates_key db q = db.idempotency_index && key_taken q.idempotency_key db.requests

abbrev insert_or : Option Error → RestoreRequest → Action RestoreRequest
insert_or (some e) q = throw e
insert_or none q = do modify_db (λ db. record db { requests = q ∷ db.requests }); pure q

-- `save` of a new restore request: the database refuses a row that an index forbids.
unfoldable pub insert_request : External → RestoreRequest → Action RestoreRequest
unfolding violates_active violates_key
insert_request ext q w =
    if violates_key w.db q
    then throw (unique_violation (text "uq_restore_requests_idempotency_key")) w
    else if violates_active w.db q
    then throw (unique_violation (text "uq_restore_requests_active_target")) w
    else insert_or (ext.insert_refused w.db q) q w

abbrev pub record_or : Option Error → AuditEvent → Action (Unit {0})
record_or (some e) event = throw e
record_or none event = modify_db (λ db. record db { audits = event ∷ db.audits })

-- `id || null`
unfoldable pub or_null : Option Text → Option Text
or_null none = none
or_null (some []) = none
or_null (some (c ∷ s)) = some (c ∷ s)

-- The row that AuditService.record creates from its input.
unfoldable pub audit_row : AuditEvent → AuditEvent
unfolding or_null
audit_row input = record {
  action = input.action;
  actor = input.actor;
  target_id = or_null input.target_id;
  job_id = or_null input.job_id;
  backup_run_id = or_null input.backup_run_id;
  restore_request_id = or_null input.restore_request_id;
  reason = input.reason;
}

-- AuditService.record
unfoldable pub record_audit : External → AuditEvent → Action (Unit {0})
unfolding audit_row
record_audit ext input = record_or (ext.audit_refused (audit_row input)) (audit_row input)

-- BackupService.findOne, TargetsService.findOne and RestoreService.findOne
unfoldable pub load_run : Text → Action BackupRun
load_run id w =
    or_throw (plain (text "BackupRun " ++ (id ++ text " not found"))) (find_run id w.db.runs) w

unfoldable pub load_target : Text → Action BackupTarget
load_target id w =
    or_throw (not_found (text "Target " ++ (id ++ text " not found"))) (find_target id w.db.targets)
      w

unfoldable pub load_request : Text → Action RestoreRequest
load_request id w =
    or_throw (plain (text "RestoreRequest " ++ (id ++ text " not found")))
      (find_request id w.db.requests) w
