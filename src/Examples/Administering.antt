-- ===== src/Examples/Administering.antt =====
-- Targets that are created, changed and removed, and two starts that ensure the nightly backup.
use backups_microservice.Prelude.{◌≤◌, ◌≡◌, refl, true, none, some, List, [], ◌∷◌, arith}
use backups_microservice.Js.{Text, text}
use backups_microservice.Entities.{BackupJob, custom_cron}
use backups_microservice.World.{World, returned}
use backups_microservice.Targets.{TargetDto}
use backups_microservice.Targets.SafeNames.{
  AllSafe, Operation, creates, updates, removes, perform_all, operations_keep_safe_names,
}
use backups_microservice.Nightly.{ensure_default_nightly_job}
use backups_microservice.Nightly.Restart.{restart_changes_nothing}
use backups_microservice.Examples.Fixtures.{ext, world_with}

abbrev blank : TargetDto
blank = record {
  name = some (text "billing");
  host = none;
  port = none;
  database_name = none;
  vault_secret_ref = none;
  service_owner = none;
  source_category = none;
  criticality = none;
  rpo_minutes = none;
  rto_minutes = none;
  restore_class = none;
  kubernetes_namespace = none;
  coverage_notes = none;
  enabled = none;
}

abbrev operations : List Operation
operations =
    creates blank (text "billing")
    ∷ creates blank (text "--version")
    ∷ updates (text "target") (record blank { database_name = some (text "orders_2") })
    ∷ removes (text "target")
    ∷ []

initial_targets_safe : AllSafe (world_with []).db.targets
unfolding text
initial_targets_safe = (omega arith, tt)

operations_keep_safe_names_example :
    AllSafe (perform_all ext (λ db id. none) operations (world_with [])).db.targets
operations_keep_safe_names_example =
    operations_keep_safe_names ext (λ db id. none) operations (world_with []) initial_targets_safe

abbrev pub nightly_job : BackupJob
nightly_job = record {
  id = text "r";
  target_id = text "r";
  name = text "Nightly PostgreSQL backup: backups";
  schedule_cron = text "0 2 * * *";
  schedule_policy = custom_cron;
  schedule_hour_utc = none;
  schedule_minute_utc = none;
  schedule_day_of_week = none;
  retention_full_count = 7;
  retention_approval_actor = none;
  retention_approval_reason = none;
  retention_approved_at = none;
  storage_prefix = some (text "s3://backups/backups");
  enabled = true;
  last_run_at = none;
  created_at = 1000;
  updated_at = 1000;
}

abbrev started : World
started = (ensure_default_nightly_job ext (world_with [])).1

restart_changes_nothing_example :
    (ensure_default_nightly_job ext started ≡ (returned (some nightly_job), started))
    × (7 ≤ nightly_job.retention_full_count)
    × (nightly_job.enabled ≡ true)
unfolding ensure_default_nightly_job backups_microservice.Nightly.default_nightly_config
    backups_microservice.Js.strip_end backups_microservice.Nightly.ensure_enabled
    backups_microservice.Schedule.assert_range backups_microservice.Schedule.resolve_as
    backups_microservice.Schedule.policy_of backups_microservice.Schedule.requested_policy
    backups_microservice.Schedule.resolve_custom
    backups_microservice.Schedule.validate_cron_expression backups_microservice.Js.split
    backups_microservice.Schedule.collapse backups_microservice.Schedule.is_blank
    backups_microservice.Schedule.cron_part
restart_changes_nothing_example =
    restart_changes_nothing ext (world_with []) started nightly_job refl
