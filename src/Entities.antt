-- ===== src/Entities.antt =====
-- The rows of the database: the entity classes under src/backup, src/jobs, src/restore, src/targets
-- and src/audit. A nullable column is an `Option`; a timestamp is a number of milliseconds.
use backups_microservice.Prelude.{ℕ, Bool, Option}
use backups_microservice.Js.{Text}

-- backup-run.entity.ts
pub data BackupRunStatus : Type 0 where
  running success failed verifying : BackupRunStatus

pub data VerificationStatus : Type 0 where
  unknown pending verifying verified failed skipped : VerificationStatus

pub data TriggerType : Type 0 where
  scheduler manual : TriggerType

-- `job_target_id` is `run.job?.target_id`, the target of the job that the `job` relation loads.
pub record BackupRun : Type 0 where
  pub id : Text
  pub job_id : Text
  pub job_target_id : Option Text
  pub status : BackupRunStatus
  pub started_at : ℕ
  pub completed_at : Option ℕ
  pub size_bytes : Option ℕ
  pub storage_path : Option Text
  pub walg_output : Option Text
  pub error_message : Option Text
  pub verification_status : VerificationStatus
  pub verification_checked_at : Option ℕ
  pub verification_reason : Option Text
  pub verification_error : Option Text
  pub triggered_by : TriggerType
  pub created_at : ℕ

-- restore-request.entity.ts
pub data RestoreStatus : Type 0 where
  pending running completed failed : RestoreStatus

pub record RestoreRequest : Type 0 where
  pub id : Text
  pub backup_run_id : Text
  pub target_id : Text
  pub status : RestoreStatus
  pub requested_by : Option Text
  pub approval_actor : Option Text
  pub approval_reason : Option Text
  pub approval_confirmed_target_id : Option Text
  pub approval_confirmed_backup_run_id : Option Text
  pub production_restore_approved : Bool
  pub approved_at : Option ℕ
  pub idempotency_key : Option Text
  pub started_at : Option ℕ
  pub completed_at : Option ℕ
  pub error_message : Option Text
  pub walg_output : Option Text
  pub created_at : ℕ

-- backup-target.entity.ts
pub data SourceCategory : Type 0 where
  postgres_database minio_bucket kubernetes_resource secret_reference pvc : SourceCategory

pub data TargetCriticality : Type 0 where
  low standard high critical : TargetCriticality

pub data RestoreClass : Type 0 where
  logical_postgres object_restore manifest_reapply secret_rehydration volume_restore manual :
      RestoreClass

pub record BackupTarget : Type 0 where
  pub id : Text
  pub name : Text
  pub host : Text
  pub port : ℕ
  pub database_name : Text
  pub vault_secret_ref : Option Text
  pub service_owner : Option Text
  pub source_category : Option SourceCategory
  pub criticality : Option TargetCriticality
  pub rpo_minutes : Option ℕ
  pub rto_minutes : Option ℕ
  pub restore_class : RestoreClass
  pub kubernetes_namespace : Option Text
  pub coverage_notes : Option Text
  pub enabled : Bool
  pub created_at : ℕ
  pub updated_at : ℕ

-- schedule-policy.ts
pub data SchedulePolicyType : Type 0 where
  hourly daily weekly custom_cron : SchedulePolicyType

-- backup-job.entity.ts; `target` is the target that the `target` relation loads.
pub record BackupJob : Type 0 where
  pub id : Text
  pub target_id : Text
  pub name : Text
  pub schedule_cron : Text
  pub schedule_policy : SchedulePolicyType
  pub schedule_hour_utc : Option ℕ
  pub schedule_minute_utc : Option ℕ
  pub schedule_day_of_week : Option ℕ
  pub retention_full_count : ℕ
  pub retention_approval_actor : Option Text
  pub retention_approval_reason : Option Text
  pub retention_approved_at : Option ℕ
  pub storage_prefix : Option Text
  pub enabled : Bool
  pub last_run_at : Option ℕ
  pub created_at : ℕ
  pub updated_at : ℕ

-- audit-event.entity.ts
pub data AuditAction : Type 0 where
  manual_backup_triggered retention_approval retention_policy_update : AuditAction
  backup_run_delete_denied backup_run_deletion_blocked : AuditAction
  restore_request_created restore_execution_completed restore_execution_failed : AuditAction

-- The `metadata` column is left out: no code of the service reads it back.
pub record AuditEvent : Type 0 where
  pub action : AuditAction
  pub actor : Text
  pub target_id : Option Text
  pub job_id : Option Text
  pub backup_run_id : Option Text
  pub restore_request_id : Option Text
  pub reason : Text
