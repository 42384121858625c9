-- ===== src/Examples/Scheduling.antt =====
-- A weekly schedule.
use backups_microservice.Prelude.{ℕ, ◌≡◌, refl, ◌≢◌, Option, none, some, pos}
use backups_microservice.Js.{text, decimal}
use backups_microservice.Errors.{ok}
use backups_microservice.Entities.{weekly, custom_cron}
use backups_microservice.Schedule.{
  Number, integer, SchedulePolicyInput, Schedule, resolve_schedule_policy, validate_cron_expression,
}
use backups_microservice.Schedule.Consistency.{IsAt, resolved_schedule_consistent}

abbrev input : SchedulePolicyInput
input = record {
  schedule_cron = none;
  schedule_policy = some (text "weekly");
  schedule_hour_utc = some (integer (pos 3));
  schedule_minute_utc = some (integer (pos 30));
  schedule_day_of_week = none;
}

abbrev schedule : Schedule
schedule = record {
  schedule_policy = weekly;
  schedule_cron = text "30 3 * * 0";
  schedule_hour_utc = some (integer (pos 3));
  schedule_minute_utc = some (integer (pos 30));
  schedule_day_of_week = some (integer (pos 0));
}

weekly_custom : weekly ≢ custom_cron
weekly_custom e = cc

resolves : resolve_schedule_policy input ≡ ok schedule
unfolding resolve_schedule_policy text backups_microservice.Schedule.assert_range
    backups_microservice.Schedule.resolve_as backups_microservice.Schedule.policy_of
    backups_microservice.Js.text_eq backups_microservice.Schedule.requested_policy
    backups_microservice.Js.truthy backups_microservice.Js.text_or_empty
    backups_microservice.Schedule.resolve_weekly decimal
resolves = refl

resolved_schedule_consistent_example :
    (minute : ℕ) × (hour : Option ℕ) × (day : Option ℕ) × IsAt minute hour day schedule
resolved_schedule_consistent_example =
    resolved_schedule_consistent input schedule resolves weekly_custom

-- Spaces between the fields are collapsed, and a letter in a field is refused.
collapses_spaces : validate_cron_expression (text " 0  2 * * 1-5 ") ≡ ok (text "0 2 * * 1-5")
unfolding validate_cron_expression text backups_microservice.Js.split
    backups_microservice.Schedule.collapse backups_microservice.Js.trim
    backups_microservice.Js.strip_end backups_microservice.Js.strip_start
    backups_microservice.Js.is_space backups_microservice.Schedule.is_blank
    backups_microservice.Schedule.cron_part backups_microservice.Js.is_empty
collapses_spaces = refl
