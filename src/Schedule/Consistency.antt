-- ===== src/Schedule/Consistency.antt =====
-- The fields and the cron expression that src/jobs/schedule-policy.ts resolves.
use backups_microservice.Prelude.{ℕ, ◌≤◌, ◌≡◌, ◌≢◌, Option, none, some, ◌++◌, arith, pos, negsuc}
use backups_microservice.Js.{Text, text, decimal}
use backups_microservice.Errors.{ok, chain_ok}
use backups_microservice.Entities.{SchedulePolicyType, hourly, daily, weekly, custom_cron}
use backups_microservice.Schedule.{
  Number, integer, not_integer, SchedulePolicyInput, Schedule, or_number, assert_range,
  resolve_hourly, resolve_daily, resolve_weekly, resolve_custom, resolve_as,
  resolve_schedule_policy, requested_policy, policy_of,
}

-- A field of a cron expression: its number, or a star for every value.
abbrev pub field : Option ℕ → Text
field none = text "*"
field (some n) = decimal n

abbrev pub stored : Option ℕ → Option Number
stored none = none
stored (some n) = some (integer (pos n))

abbrev pub InRange : Option ℕ → ℕ → Type 0
InRange none max = Unit
InRange (some n) max = n ≤ max

-- A schedule by its minute, hour and day.
pub record IsAt (minute : ℕ) (hour day : Option ℕ) (s : Schedule) : Type 0 where
  pub minute_in_range : minute ≤ 59
  pub hour_in_range : InRange hour 23
  pub day_in_range : InRange day 6
  pub cron :
      s.schedule_cron ≡ decimal minute ++ (text " " ++ (field hour ++ (text " * * " ++ field day)))
  pub minute_stored : s.schedule_minute_utc ≡ some (integer (pos minute))
  pub hour_stored : s.schedule_hour_utc ≡ stored hour
  pub day_stored : s.schedule_day_of_week ≡ stored day

assert_range-lt :
    (name : Text) (value : Number) (max : ℕ) {n : ℕ} → assert_range name value max ≡ ok n → n ≤ max
unfolding assert_range
assert_range-lt name not_integer max h = cc
assert_range-lt name (integer (negsuc k)) max h = cc
assert_range-lt name (integer (pos k)) max h = ground arith

hourly-IsAt :
    (minute : ℕ) {s : Schedule}
    → minute ≤ 59
    → resolve_hourly minute ≡ ok s
    → IsAt minute none none s
unfolding resolve_hourly text
hourly-IsAt minute m h = ground arith

daily-IsAt :
    (input : SchedulePolicyInput) (minute : ℕ) {s : Schedule}
    → minute ≤ 59
    → resolve_daily input minute ≡ ok s
    → (hour : ℕ) × IsAt minute (some hour) none s
unfolding resolve_daily text
daily-IsAt input minute m h =
    let (hour, checked, rest) =
      chain_ok (assert_range _ (or_number input.schedule_hour_utc 2) 23) _ h in
    let in_range = assert_range-lt _ _ 23 checked in (hour, ground arith)

weekly-IsAt :
    (input : SchedulePolicyInput) (minute : ℕ) {s : Schedule}
    → minute ≤ 59
    → resolve_weekly input minute ≡ ok s
    → (hour : ℕ) × (day : ℕ) × IsAt minute (some hour) (some day) s
unfolding resolve_weekly
weekly-IsAt input minute m h =
    let (hour, checked, rest) =
      chain_ok (assert_range _ (or_number input.schedule_hour_utc 2) 23) _ h in
    let (day, day_checked, last) =
      chain_ok (assert_range _ (or_number input.schedule_day_of_week 0) 6) _ rest in
    let hour_in_range = assert_range-lt _ _ 23 checked in
    let day_in_range = assert_range-lt _ _ 6 day_checked in (hour, day, ground arith)

custom_at :
    (input : SchedulePolicyInput) {s : Schedule}
    → resolve_custom input ≡ ok s
    → s.schedule_policy ≡ custom_cron
unfolding resolve_custom
custom_at input h = ground arith

resolve_as-IsAt :
    (input : SchedulePolicyInput) (minute : ℕ) (policy : Text) (p : Option SchedulePolicyType)
    {s : Schedule}
    → minute ≤ 59
    → resolve_as input minute policy p ≡ ok s
    → s.schedule_policy ≢ custom_cron
    → (hour : Option ℕ) × (day : Option ℕ) × IsAt minute hour day s
unfolding resolve_as
resolve_as-IsAt input minute policy none m h ne = cc
resolve_as-IsAt input minute policy (some hourly) m h ne = (none, none, hourly-IsAt minute m h)
resolve_as-IsAt input minute policy (some daily) m h ne =
    let (hour, at) = daily-IsAt input minute m h in (some hour, none, at)
resolve_as-IsAt input minute policy (some weekly) m h ne =
    let (hour, day, at) = weekly-IsAt input minute m h in (some hour, some day, at)
resolve_as-IsAt input minute policy (some custom_cron) m h ne = absurd (ne (custom_at input h))

-- A resolved schedule that is no custom expression has its minute, hour and day in range, and its
-- cron expression is the five fields of exactly the minute, hour and day that are stored with it,
-- with stars for those that are not.
pub resolved_schedule_consistent :
    (input : SchedulePolicyInput) (s : Schedule)
    → resolve_schedule_policy input ≡ ok s
    → s.schedule_policy ≢ custom_cron
    → (minute : ℕ) × (hour : Option ℕ) × (day : Option ℕ) × IsAt minute hour day s
unfolding resolve_schedule_policy
resolved_schedule_consistent input s h ne =
    let (minute, checked, rest) =
      chain_ok (assert_range _ (or_number input.schedule_minute_utc 0) 59) _ h in
    let (hour, day, at) =
      resolve_as-IsAt input minute (requested_policy input) (policy_of (requested_policy input))
        (assert_range-lt _ _ 59 checked) rest ne in
    (minute, hour, day, at)
