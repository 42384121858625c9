-- ===== src/Jobs/Schedules.antt =====
-- How `update` of src/jobs/jobs.service.ts treats the schedule of a job.
use backups_microservice.Prelude.{◌≡◌, refl, ◌≢◌, Option, none}
use backups_microservice.Js.{Text, text, truthy, text_or_empty, text_eq}
use backups_microservice.Entities.{
  BackupJob, SchedulePolicyType, hourly, daily, weekly, custom_cron,
}
use backups_microservice.Schedule.{
  resolve_schedule_policy, resolve_as, requested_policy, policy_of, resolve_daily, resolve_weekly,
}
use backups_microservice.Jobs.{JobDto, merged_schedule_input, policy_name}

-- An update that gives no policy to a job with an hourly, daily or weekly one resolves the same
-- schedule whatever cron expression it gives: the expression is dropped, and no error is reported.
pub preset_update_drops_cron :
    (job : BackupJob) (dto : JobDto) (cron : Option Text)
    → dto.schedule_policy ≡ none
    → job.schedule_policy ≢ custom_cron
    → resolve_schedule_policy (merged_schedule_input job (record dto { schedule_cron = cron }))
      ≡ resolve_schedule_policy (merged_schedule_input job dto)
unfolding resolve_schedule_policy merged_schedule_input requested_policy resolve_as resolve_daily
    resolve_weekly policy_of policy_name text truthy text_or_empty text_eq
preset_update_drops_cron job dto cron h ne = at_policy job.schedule_policy refl
  where
    at_policy :
        (p : SchedulePolicyType)
        → job.schedule_policy ≡ p
        → resolve_schedule_policy (merged_schedule_input job (record dto { schedule_cron = cron }))
          ≡ resolve_schedule_policy (merged_schedule_input job dto)
    at_policy hourly e = rw (h, e)
    at_policy daily e = rw (h, e)
    at_policy weekly e = rw (h, e)
    at_policy custom_cron e = absurd (ne e)
