-- ===== src/Examples/Approving.antt =====
-- Jobs that keep two backups, with an approval.
use backups_microservice.Prelude.{◌≡◌, refl, ◌≢◌, none, some, [], arith}
use backups_microservice.Js.{text}
use backups_microservice.Entities.{BackupJob, daily, custom_cron}
use backups_microservice.World.{World, returned}
use backups_microservice.Schedule.{resolve_schedule_policy}
use backups_microservice.Jobs.{JobDto, create_job, update_with, merged_schedule_input}
use backups_microservice.Jobs.Approval.{
  IsApproved, created_low_retention_approved, updated_low_retention_approved,
}
use backups_microservice.Jobs.Schedules.{preset_update_drops_cron}
use backups_microservice.Examples.Fixtures.{job, ext, world_with}

abbrev dto : JobDto
dto = record {
  name = none;
  schedule_cron = none;
  schedule_policy = none;
  schedule_hour_utc = none;
  schedule_minute_utc = none;
  schedule_day_of_week = none;
  retention_full_count = some 2;
  retention_approval_actor = some (text "ops");
  retention_approval_reason = some (text "storage is nearly full");
  storage_prefix = none;
  enabled = none;
}

abbrev w0 : World
w0 = world_with []

abbrev approved : BackupJob → BackupJob
approved j = record j {
  retention_full_count = 2;
  retention_approval_actor = some (text "ops");
  retention_approval_reason = some (text "storage is nearly full");
  retention_approved_at = some 1000;
}

abbrev created : BackupJob
created = record (approved job) {
  id = text "r";
  storage_prefix = none;
  created_at = 1000;
  updated_at = 1000;
}

abbrev w1 : World
w1 = (create_job ext dto (text "target") (text "nightly") (text "ops") w0).1

creates :
    create_job ext dto (text "target") (text "nightly") (text "ops") w0 ≡ (returned created, w1)
unfolding create_job text backups_microservice.Repositories.find_target
    backups_microservice.Js.text_eq backups_microservice.Jobs.check_source
    backups_microservice.Storage.is_postgres
    backups_microservice.Jobs.require_low_retention_approval backups_microservice.Js.is_empty
    backups_microservice.Js.trim backups_microservice.Js.strip_end
    backups_microservice.Js.strip_start backups_microservice.Js.is_space resolve_schedule_policy
    backups_microservice.Schedule.assert_range backups_microservice.Jobs.schedule_input
    backups_microservice.Schedule.resolve_as backups_microservice.Schedule.policy_of
    backups_microservice.Schedule.requested_policy backups_microservice.Js.truthy
    backups_microservice.Jobs.approval_event backups_microservice.Jobs.audit_creation
    backups_microservice.Jobs.missing_target backups_microservice.Jobs.new_job
    backups_microservice.Jobs.normalized backups_microservice.Jobs.policy_name
    backups_microservice.Jobs.store_job backups_microservice.Jobs.with_approval
    backups_microservice.Jobs.with_schedule backups_microservice.Js.decimal
    backups_microservice.Js.decimal_from backups_microservice.Js.split
    backups_microservice.Js.split_by backups_microservice.Js.text_or_empty
    backups_microservice.Repositories.audit_row backups_microservice.Repositories.or_null
    backups_microservice.Repositories.record_audit backups_microservice.Repositories.save_job
    backups_microservice.Schedule.collapse backups_microservice.Schedule.cron_part
    backups_microservice.Schedule.is_blank backups_microservice.Schedule.resolve_custom
    backups_microservice.Schedule.resolve_daily backups_microservice.Schedule.resolve_hourly
    backups_microservice.Schedule.resolve_weekly
    backups_microservice.Schedule.validate_cron_expression backups_microservice.Walg.or_text
creates = refl

created_low_retention_approved_example : IsApproved created
created_low_retention_approved_example =
    created_low_retention_approved ext (text "ops") dto (text "target") (text "nightly") created w0
      w1 creates (omega arith)

abbrev w2 : World
w2 = (update_with ext dto (text "ops") job w0).1

updates : update_with ext dto (text "ops") job w0 ≡ (returned (approved job), w2)
unfolding update_with text backups_microservice.Jobs.require_low_retention_approval
    backups_microservice.Js.is_empty backups_microservice.Js.trim backups_microservice.Js.strip_end
    backups_microservice.Js.strip_start backups_microservice.Jobs.or_truthy
    backups_microservice.Js.truthy backups_microservice.Js.is_space resolve_schedule_policy
    backups_microservice.Schedule.assert_range merged_schedule_input
    backups_microservice.Schedule.resolve_as backups_microservice.Schedule.policy_of
    backups_microservice.Js.text_eq backups_microservice.Schedule.requested_policy
    backups_microservice.Jobs.policy_name backups_microservice.Js.text_or_empty
    backups_microservice.Jobs.approval_time backups_microservice.Jobs.assign
    backups_microservice.Jobs.audit_update backups_microservice.Jobs.normalized
    backups_microservice.Jobs.store_job backups_microservice.Jobs.update_event
    backups_microservice.Jobs.with_approval backups_microservice.Jobs.with_schedule
    backups_microservice.Js.decimal backups_microservice.Js.decimal_from
    backups_microservice.Js.split backups_microservice.Js.split_by
    backups_microservice.Repositories.audit_row backups_microservice.Repositories.or_null
    backups_microservice.Repositories.record_audit backups_microservice.Repositories.save_job
    backups_microservice.Schedule.collapse backups_microservice.Schedule.cron_part
    backups_microservice.Schedule.is_blank backups_microservice.Schedule.resolve_custom
    backups_microservice.Schedule.resolve_daily backups_microservice.Schedule.resolve_hourly
    backups_microservice.Schedule.resolve_weekly
    backups_microservice.Schedule.validate_cron_expression backups_microservice.Walg.or_text
updates = refl

updated_low_retention_approved_example : IsApproved (approved job)
updated_low_retention_approved_example =
    updated_low_retention_approved ext (text "ops") dto job (approved job) w0 w2 updates
      (omega arith)

daily_custom : daily ≢ custom_cron
daily_custom e = cc

preset_update_drops_cron_example :
    resolve_schedule_policy
      (merged_schedule_input job (record dto { schedule_cron = some (text "0 4 * * *") }))
    ≡ resolve_schedule_policy (merged_schedule_input job dto)
preset_update_drops_cron_example =
    preset_update_drops_cron job dto (some (text "0 4 * * *")) refl daily_custom
