-- ===== src/Jobs.antt =====
-- The creation, update and disabling of backup jobs: src/jobs/jobs.service.ts.
pub mod Approval
pub mod Schedules
use backups_microservice.Prelude.{
  ℕ, Bool, true, false, ◌&&◌, ◌||◌, not, Option, none, some, List, [], ◌∷◌, ◌++◌, ◌==◌, ltb, length,
  filter, pos, if◌then◌else◌,
}
use backups_microservice.Js.{Text, text, is_empty, trim, truthy, text_or_empty, decimal}
use backups_microservice.Errors.{Error, bad_request, not_found, Result, ok, err}
use backups_microservice.Errors
use backups_microservice.Entities.{
  BackupJob, BackupTarget, SchedulePolicyType, hourly, daily, weekly, custom_cron, AuditEvent,
  retention_approval, retention_policy_update,
}
use backups_microservice.Storage.{is_postgres}
use backups_microservice.Walg.{or_text}
use backups_microservice.World.{
  Db, World, External, Action, pure, gets, lift, or_throw, modify_db, ◌>>=◌, ◌>>◌,
}
use backups_microservice.Repositories.{find_target, save_job, record_audit}
use backups_microservice.Backup.{load_job}
use backups_microservice.Schedule.{
  Number, integer, not_integer, SchedulePolicyInput, Schedule, resolve_schedule_policy,
}

abbrev pub min_safe_full_backups : ℕ
min_safe_full_backups = 3

-- CreateJobDto and UpdateJobDto, whose validators let natural numbers through; an update carries no
-- target, and may carry no name. The prefix may be null, which an update stores. In the other fields a
-- null, which the columns refuse or the policy of the schedule reads, is not told from a missing field.
pub record JobDto : Type 0 where
  pub name : Option Text
  pub schedule_cron : Option Text
  pub schedule_policy : Option SchedulePolicyType
  pub schedule_hour_utc : Option ℕ
  pub schedule_minute_utc : Option ℕ
  pub schedule_day_of_week : Option ℕ
  pub retention_full_count : Option ℕ
  pub retention_approval_actor : Option Text
  pub retention_approval_reason : Option Text
  pub storage_prefix : Option (Option Text)
  pub enabled : Option Bool

unfoldable pub normalized : Option Text → Text
normalized none = []
normalized (some s) = trim s

unfoldable pub require_low_retention_approval : ℕ → Option Text → Option Text → Result (Unit {0})
unfolding normalized
require_low_retention_approval count actor reason =
    if ltb count min_safe_full_backups
      && (is_empty (normalized actor) || ltb (length (normalized reason)) 12)
    then err (
        bad_request (
          text
            "Retention below three full backups requires explicit owner approval actor and reason."))
    else ok tt

unfoldable pub policy_name : SchedulePolicyType → Text
policy_name hourly = text "hourly"
policy_name daily = text "daily"
policy_name weekly = text "weekly"
policy_name custom_cron = text "custom_cron"

abbrev pub name_of : Option SchedulePolicyType → Option Text
name_of none = none
name_of (some p) = some (policy_name p)

abbrev pub number_of : Option ℕ → Option Number
number_of none = none
number_of (some n) = some (integer (pos n))

-- A column of integers. The schedule of a job holds natural numbers, as its request does.
abbrev pub column : Option Number → Option ℕ
column (some (integer (pos n))) = some n
column _ = none

module _ {ℓ} {A : Type ℓ} where
  -- `a ?? b`, and `{ ...b, ...a }` at one key
  abbrev pub or_default : Option A → A → A
  or_default none b = b
  or_default (some a) b = a

  abbrev pub or_stored : Option A → Option A → Option A
  or_stored none b = b
  or_stored (some a) b = some a

-- `a || b` of two texts that may be missing
unfoldable pub or_truthy : Option Text → Option Text → Option Text
or_truthy a b = if truthy a then a else b

unfoldable pub schedule_input : JobDto → SchedulePolicyInput
schedule_input dto = record {
  schedule_cron = dto.schedule_cron;
  schedule_policy = name_of dto.schedule_policy;
  schedule_hour_utc = number_of dto.schedule_hour_utc;
  schedule_minute_utc = number_of dto.schedule_minute_utc;
  schedule_day_of_week = number_of dto.schedule_day_of_week;
}

-- A field that a request gives, null included, or what stands without it.
abbrev pub given : Option (Option Text) → Option Text → Option Text
given none before = before
given (some value) before = value

-- `{ ...previousSchedule, ...dto }`
unfoldable pub merged_schedule_input : BackupJob → JobDto → SchedulePolicyInput
merged_schedule_input job dto = record {
  schedule_cron = some (or_default dto.schedule_cron job.schedule_cron);
  schedule_policy = some (policy_name (or_default dto.schedule_policy job.schedule_policy));
  schedule_hour_utc = number_of (or_stored dto.schedule_hour_utc job.schedule_hour_utc);
  schedule_minute_utc = number_of (or_stored dto.schedule_minute_utc job.schedule_minute_utc);
  schedule_day_of_week = number_of (or_stored dto.schedule_day_of_week job.schedule_day_of_week);
}

-- `Object.assign(job, schedule)`
unfoldable pub with_schedule : Schedule → BackupJob → BackupJob
with_schedule s job = record job {
  schedule_cron = s.schedule_cron;
  schedule_policy = s.schedule_policy;
  schedule_hour_utc = column s.schedule_hour_utc;
  schedule_minute_utc = column s.schedule_minute_utc;
  schedule_day_of_week = column s.schedule_day_of_week;
}

-- The approval that is stored with a job: none where it keeps enough backups.
unfoldable pub with_approval : Text → Text → ℕ → BackupJob → BackupJob
with_approval actor reason at job =
    if ltb job.retention_full_count min_safe_full_backups
    then record job {
      retention_approval_actor = some actor;
      retention_approval_reason = some reason;
      retention_approved_at = some at;
    }
    else record job {
      retention_approval_actor = none;
      retention_approval_reason = none;
      retention_approved_at = none;
    }

unfoldable pub approval_event : Text → BackupJob → AuditEvent
approval_event actor job = record {
  action = retention_approval;
  actor = or_text (some actor) (text_or_empty job.retention_approval_actor);
  target_id = some job.target_id;
  job_id = some job.id;
  backup_run_id = none;
  restore_request_id = none;
  reason = text_or_empty job.retention_approval_reason;
}

-- The event of an update, by the fallback of its actor and the count before.
unfoldable pub update_event : Text → Text → ℕ → BackupJob → AuditEvent
update_event actor approval_actor previous job = record {
  action =
      if ltb job.retention_full_count min_safe_full_backups
      then retention_approval
      else retention_policy_update;
  actor = or_text (some actor) (or_text (some approval_actor) (text "unknown"));
  target_id = some job.target_id;
  job_id = some job.id;
  backup_run_id = none;
  restore_request_id = none;
  reason =
      if ltb job.retention_full_count min_safe_full_backups
      then text_or_empty job.retention_approval_reason
      else text "Retention changed from "
        ++ (decimal previous
            ++ (text " to " ++ (decimal job.retention_full_count ++ text " full backups.")));
}

-- `dto.actor || dto.reason || !job.retention_approved_at ? new Date() : job.retention_approved_at`
unfoldable pub approval_time : JobDto → ℕ → Option ℕ → ℕ
approval_time dto now none = now
approval_time dto now (some before) =
    if truthy dto.retention_approval_actor || truthy dto.retention_approval_reason
    then now
    else before

-- `Object.assign(job, dto)`, but for the schedule and the approval, which are set after it.
unfoldable pub assign : JobDto → BackupJob → BackupJob
assign dto job = record job {
  name = or_default dto.name job.name;
  retention_full_count = or_default dto.retention_full_count job.retention_full_count;
  storage_prefix = given dto.storage_prefix job.storage_prefix;
  enabled = or_default dto.enabled job.enabled;
}

unfoldable pub check_source : BackupTarget → Result (Unit {0})
check_source target = Errors.throw_if (not (is_postgres target.source_category)) (
    bad_request (
      text
        "Backup jobs are only implemented for postgres_database targets; this source category is contract-only."))

unfoldable pub missing_target : Text → Error
missing_target target_id = not_found (text "Target " ++ (target_id ++ text " not found"))

module _ (ext : External) where
  -- The row that `create` saves, before its approval.
  unfoldable pub new_job : JobDto → Text → Text → Schedule → World → BackupJob
  new_job dto target_id name s w = with_schedule s (record {
    id = ext.new_id w.db;
    target_id = target_id;
    name = name;
    schedule_cron = s.schedule_cron;
    schedule_policy = s.schedule_policy;
    schedule_hour_utc = none;
    schedule_minute_utc = none;
    schedule_day_of_week = none;
    retention_full_count = or_default dto.retention_full_count 7;
    retention_approval_actor = none;
    retention_approval_reason = none;
    retention_approved_at = none;
    storage_prefix = given dto.storage_prefix none;
    enabled = or_default dto.enabled true;
    last_run_at = none;
    created_at = ext.now w;
    updated_at = ext.now w;
  })

  unfoldable pub store_job : BackupJob → Action BackupJob
  store_job job = do modify_db (λ db. record db { jobs = save_job job db.jobs }); pure job

  unfoldable pub audit_creation : Text → BackupJob → Action BackupJob
  audit_creation actor saved =
      if ltb saved.retention_full_count min_safe_full_backups
      then (do record_audit ext (approval_event actor saved); pure saved)
      else pure saved

  -- `create`, for a job of a target with a name
  unfoldable pub create_job : JobDto → Text → Text → Text → Action BackupJob
  create_job dto target_id name actor = do
    found ← gets (λ w. find_target target_id w.db.targets)
    target ← or_throw (missing_target target_id) found
    lift (check_source target)
    lift (
        require_low_retention_approval (or_default dto.retention_full_count 7)
          dto.retention_approval_actor dto.retention_approval_reason)
    s ← lift (resolve_schedule_policy (schedule_input dto))
    now ← gets ext.now
    job ← gets (new_job dto target_id name s)
    saved ← store_job (
        with_approval (normalized dto.retention_approval_actor)
          (normalized dto.retention_approval_reason) now job)
    audit_creation actor saved

  unfoldable pub audit_update : Text → Text → ℕ → BackupJob → Action BackupJob
  audit_update actor approval_actor previous saved =
      if not (saved.retention_full_count == previous)
        || ltb saved.retention_full_count min_safe_full_backups
      then (do record_audit ext (update_event actor approval_actor previous saved); pure saved)
      else pure saved

  unfoldable pub update_with : JobDto → Text → BackupJob → Action BackupJob
  update_with dto actor job = do
    let approval_actor =
        normalized (or_truthy dto.retention_approval_actor job.retention_approval_actor)
    let approval_reason =
        normalized (or_truthy dto.retention_approval_reason job.retention_approval_reason)
    lift (
        require_low_retention_approval
          (or_default dto.retention_full_count job.retention_full_count) (some approval_actor)
          (some approval_reason))
    s ← lift (resolve_schedule_policy (merged_schedule_input job dto))
    now ← gets ext.now
    saved ← store_job (
        with_approval approval_actor approval_reason
          (approval_time dto now job.retention_approved_at) (with_schedule s (assign dto job)))
    audit_update actor approval_actor job.retention_full_count saved

  -- `update`
  unfoldable pub change_job : Text → JobDto → Text → Action BackupJob
  change_job id dto actor = do job ← load_job id; update_with dto actor job

-- `remove`
unfoldable pub disable_job : Text → Action (Unit {0})
disable_job id = do
  job ← load_job id
  modify_db (λ db. record db { jobs = save_job (record job { enabled = false }) db.jobs })

unfoldable pub find_enabled : List BackupJob → List BackupJob
find_enabled jobs = filter (λ (j : BackupJob). j.enabled) jobs
