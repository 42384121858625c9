-- ===== src/Nightly.antt =====
-- The nightly backup of the service's own database, which a start creates:
-- src/backup/nightly-backup-bootstrap.service.ts.
pub mod Restart
use backups_microservice.Prelude.{
  ℕ, Bool, true, false, ◌&&◌, Option, none, some, List, [], ◌∷◌, ◌++◌, ◌==◌, leb, find,
  if◌then◌else◌,
}
use backups_microservice.Js.{
  Text, text, text_eq, trim, is_empty, text_or_empty, truthy, to_lower_case, parse_positive,
}
use backups_microservice.Walg.{or_text}
use backups_microservice.Entities.{
  BackupTarget, BackupJob, TargetCriticality, SourceCategory, RestoreClass, custom_cron,
}
use backups_microservice.Schedule.{SchedulePolicyInput, Schedule, resolve_schedule_policy}
use backups_microservice.Jobs.{with_schedule, store_job, or_truthy}
use backups_microservice.Targets.{blank_target, store_target}
use backups_microservice.World.{World, External, Action, pure, gets, lift, ◌>>=◌, ◌>>◌}

-- `Math.max`
unfoldable pub max : ℕ → ℕ → ℕ
max a b = if leb a b then b else a

abbrev pub default_retention_full_count : ℕ
default_retention_full_count = 7

-- What defaultNightlyConfig returns.
pub record NightlyConfig : Type 0 where
  pub enabled : Bool
  pub target_name : Text
  pub host : Text
  pub port : ℕ
  pub database_name : Text
  pub vault_secret_ref : Option Text
  pub service_owner : Text
  pub schedule_cron : Text
  pub retention_full_count : ℕ
  pub job_name : Text
  pub storage_prefix : Text

abbrev pub or_some : Option ℕ → ℕ → ℕ
or_some none b = b
or_some (some a) b = a

abbrev trimmed : Option Text → Option Text
trimmed none = none
trimmed (some s) = some (trim s)

abbrev or_missing : Option Text → Option Text
or_missing o = if truthy o then o else none

module _ (env : Text → Option Text) where
  unfoldable pub env_string : Text → Text → Text
  unfolding or_text trim truthy
  env_string key fallback = or_text (trimmed (env key)) fallback

  unfoldable pub env_int : Text → ℕ → ℕ
  unfolding parse_positive text_or_empty
  env_int key fallback = or_some (parse_positive (text_or_empty (env key))) fallback

  unfoldable pub env_bool : Text → Bool → Bool
  unfolding text_eq to_lower_case trim text_or_empty text
  env_bool key fallback =
      let value = to_lower_case (trim (text_or_empty (env key))) in
      if text_eq value (text "true")
      then true
      else if text_eq value (text "false")
      then false
      else fallback

  unfoldable pub default_nightly_config : NightlyConfig
  unfolding env_string env_int env_bool or_text trim truthy text
  default_nightly_config =
      let database_name =
        env_string (text "BACKUP_TARGET_DATABASE") (env_string (text "DB_NAME") (text "backups")) in
      record {
        enabled = env_bool (text "BACKUPS_DEFAULT_NIGHTLY_ENABLED") true;
        target_name = env_string (text "BACKUP_TARGET_NAME") database_name;
        host =
            env_string (text "BACKUP_TARGET_HOST")
              (env_string (text "DB_HOST") (text "db-server-postgres"));
        port = env_int (text "BACKUP_TARGET_PORT") (env_int (text "DB_PORT") 5432);
        database_name = database_name;
        vault_secret_ref = or_missing (trimmed (env (text "BACKUP_TARGET_VAULT_SECRET_REF")));
        service_owner =
            or_text (trimmed (env (text "BACKUP_TARGET_SERVICE_OWNER"))) (text "platform");
        schedule_cron = env_string (text "BACKUP_SCHEDULE_DB") (text "0 2 * * *");
        retention_full_count =
            env_int (text "BACKUP_RETENTION_FULL_COUNT") default_retention_full_count;
        job_name =
            env_string (text "BACKUP_DEFAULT_JOB_NAME")
              (text "Nightly PostgreSQL backup: " ++ database_name);
        storage_prefix =
            or_text (trimmed (env (text "BACKUP_STORAGE_PREFIX"))) (
              env_string (text "WALG_S3_PREFIX") (text "s3://backups")
              ++ text "/"
              ++ database_name);
      }

-- `findOne` by host, port and database, and by target and name.
unfoldable pub is_default_target : NightlyConfig → BackupTarget → Bool
unfolding text_eq
is_default_target config t =
    text_eq t.host config.host
    && t.port == config.port
    && text_eq t.database_name config.database_name

unfoldable pub is_default_job : NightlyConfig → Text → BackupJob → Bool
unfolding text_eq
is_default_job config target_id j = text_eq j.target_id target_id && text_eq j.name config.job_name

unfoldable pub fill_target : NightlyConfig → Text → BackupTarget → BackupTarget
unfolding or_truthy text
fill_target config name t = record t {
  name = name;
  host = config.host;
  port = config.port;
  database_name = config.database_name;
  vault_secret_ref = config.vault_secret_ref;
  service_owner = or_truthy t.service_owner (some config.service_owner);
  source_category = some SourceCategory.postgres_database;
  restore_class = RestoreClass.logical_postgres;
  coverage_notes = or_truthy t.coverage_notes (
      some (text "Default nightly PostgreSQL backup target managed by Backups startup bootstrap."));
  enabled = true;
}

abbrev or_critical : Option TargetCriticality → Option TargetCriticality
or_critical none = some TargetCriticality.critical
or_critical (some c) = some c

-- The target as it is saved: the one that was found, or a new one, which has no criticality yet.
unfoldable pub default_target : NightlyConfig → Text → ℕ → Option BackupTarget → BackupTarget
unfolding fill_target blank_target or_text
default_target config id now none =
    record (fill_target config config.target_name (blank_target id now)) {
      criticality = some TargetCriticality.critical;
    }
default_target config id now (some t) =
    record (fill_target config (or_text (some t.name) config.target_name) t) {
      criticality = or_critical t.criticality;
    }

unfoldable pub blank_job : NightlyConfig → Text → Text → ℕ → BackupJob
blank_job config target_id id now = record {
  id = id;
  target_id = target_id;
  name = config.job_name;
  schedule_cron = [];
  schedule_policy = custom_cron;
  schedule_hour_utc = none;
  schedule_minute_utc = none;
  schedule_day_of_week = none;
  retention_full_count = 7;
  retention_approval_actor = none;
  retention_approval_reason = none;
  retention_approved_at = none;
  storage_prefix = none;
  enabled = true;
  last_run_at = none;
  created_at = now;
  updated_at = now;
}

abbrev or_blank : Option BackupJob → BackupJob → BackupJob
or_blank none b = b
or_blank (some j) b = j

unfoldable pub default_job :
    NightlyConfig → Text → Text → ℕ → Schedule → Option BackupJob → BackupJob
unfolding with_schedule blank_job max
default_job config target_id id now s found =
    record (with_schedule s (or_blank found (blank_job config target_id id now))) {
      target_id = target_id;
      name = config.job_name;
      retention_full_count = max config.retention_full_count default_retention_full_count;
      storage_prefix = some config.storage_prefix;
      enabled = true;
    }

abbrev pub nightly_schedule : NightlyConfig → SchedulePolicyInput
unfolding text
nightly_schedule config = record {
  schedule_cron = some config.schedule_cron;
  schedule_policy = some (text "custom_cron");
  schedule_hour_utc = none;
  schedule_minute_utc = none;
  schedule_day_of_week = none;
}

module _ (ext : External) where
  unfoldable pub ensure_target : NightlyConfig → Action BackupTarget
  unfolding is_default_target default_target store_target
  ensure_target config = do
    row ← gets (λ w.
        default_target config (ext.new_id w.db) (ext.now w)
          (find (is_default_target config) w.db.targets))
    store_target row

  unfoldable pub ensure_job : BackupTarget → NightlyConfig → Action BackupJob
  unfolding is_default_job default_job resolve_schedule_policy store_job
  ensure_job target config = do
    found ← gets (λ w. find (is_default_job config target.id) w.db.jobs)
    schedule ← lift (resolve_schedule_policy (nightly_schedule config))
    row ← gets (λ w. default_job config target.id (ext.new_id w.db) (ext.now w) schedule found)
    store_job ext row

  unfoldable pub ensure_enabled : NightlyConfig → Action (Option BackupJob)
  unfolding ensure_target ensure_job
  ensure_enabled config = do
    target ← ensure_target config
    job ← ensure_job target config
    pure (some job)

  unfoldable pub ensure_default_nightly_job : Action (Option BackupJob)
  ensure_default_nightly_job =
      let config = default_nightly_config ext.env in
      if config.enabled then ensure_enabled config else pure none
