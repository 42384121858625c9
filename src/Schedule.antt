-- ===== src/Schedule.antt =====
-- Schedule policies and cron expressions: src/jobs/schedule-policy.ts.
pub mod Consistency
use backups_microservice.Prelude.{
  ℕ, Bool, true, false, ◌&&◌, ◌||◌, not, Option, none, some, List, [], ◌∷◌, ◌++◌, ◌==◌, leb, any,
  all, length, ℤ, pos, negsuc, if◌then◌else◌,
}
use backups_microservice.Js.{
  Text, text, text_eq, is_empty, is_space, trim, truthy, text_or_empty, split, decimal,
}
use backups_microservice.Errors.{Error, bad_request, Result, ok, err, ◌>>=◌, ◌>>◌, throw_if}
use backups_microservice.Entities.{SchedulePolicyType, hourly, daily, weekly, custom_cron}

-- A number of the request: an integer, or a fraction, a NaN or an infinity.
pub data Number : Type 0 where
  integer : ℤ → Number
  not_integer : Number

-- SchedulePolicyInput
pub record SchedulePolicyInput : Type 0 where
  pub schedule_cron : Option Text
  pub schedule_policy : Option Text
  pub schedule_hour_utc : Option Number
  pub schedule_minute_utc : Option Number
  pub schedule_day_of_week : Option Number

-- What `resolveSchedulePolicy` returns.
pub record Schedule : Type 0 where
  pub schedule_policy : SchedulePolicyType
  pub schedule_cron : Text
  pub schedule_hour_utc : Option Number
  pub schedule_minute_utc : Option Number
  pub schedule_day_of_week : Option Number

-- `value ?? fallback`
abbrev pub or_number : Option Number → ℕ → Number
or_number none d = integer (pos d)
or_number (some n) d = n

-- assertRange, whose least value is 0 in every call
unfoldable pub assert_range : Text → Number → ℕ → Result ℕ
assert_range name not_integer max =
    err (
      bad_request
        (name ++ (text " must be an integer between 0 and " ++ (decimal max ++ text "."))))
assert_range name (integer (negsuc n)) max =
    err (
      bad_request
        (name ++ (text " must be an integer between 0 and " ++ (decimal max ++ text "."))))
assert_range name (integer (pos n)) max =
    if leb n max
    then ok n
    else err (
        bad_request
          (name ++ (text " must be an integer between 0 and " ++ (decimal max ++ text "."))))

unfoldable pub is_blank : ℕ → Bool
is_blank c = c == b' '

-- `s.replace(/\s+/g, ' ')`; the flag says that the unit before was a space.
unfoldable pub collapse : Bool → Text → Text
collapse after [] = []
collapse after (c ∷ s) =
    let inside = collapse true s in
    let outside = collapse false s in
    if is_space c then (if after then inside else b' ' ∷ inside) else c ∷ outside

-- CRON_PART
unfoldable pub cron_part : Text → Bool
cron_part s =
    not (is_empty s)
    && all
        (λ c. (leb b'0' c && leb c b'9') || (c == b'*' || (c == b',' || (c == b'/' || c == b'-'))))
        s

unfoldable pub validate_cron_expression : Text → Result Text
validate_cron_expression cron =
    let normalized = collapse false (trim cron) in
    let parts = split is_blank normalized in
    if not (length parts == 5) || any (λ part. not (cron_part part)) parts
    then err (
        bad_request (
          text
            "schedule_cron must be a five-field cron expression using minute hour day month weekday."))
    else ok normalized

unfoldable pub policy_of : Text → Option SchedulePolicyType
policy_of s =
    if text_eq s (text "hourly")
    then some hourly
    else if text_eq s (text "daily")
    then some daily
    else if text_eq s (text "weekly")
    then some weekly
    else if text_eq s (text "custom_cron")
    then some custom_cron
    else none

-- The policy that is asked for, or the default.
unfoldable pub requested_policy : SchedulePolicyInput → Text
requested_policy input =
    if truthy input.schedule_policy
    then text_or_empty input.schedule_policy
    else if truthy input.schedule_cron
    then text "custom_cron"
    else text "daily"

unfoldable pub resolve_hourly : ℕ → Result Schedule
resolve_hourly minute = ok (record {
  schedule_policy = hourly;
  schedule_cron = decimal minute ++ text " * * * *";
  schedule_hour_utc = none;
  schedule_minute_utc = some (integer (pos minute));
  schedule_day_of_week = none;
})

unfoldable pub resolve_daily : SchedulePolicyInput → ℕ → Result Schedule
resolve_daily input minute = do
  hour ← assert_range (text "schedule_hour_utc") (or_number input.schedule_hour_utc 2) 23
  ok (record {
    schedule_policy = daily;
    schedule_cron = decimal minute ++ (text " " ++ (decimal hour ++ text " * * *"));
    schedule_hour_utc = some (integer (pos hour));
    schedule_minute_utc = some (integer (pos minute));
    schedule_day_of_week = none;
  })

unfoldable pub resolve_weekly : SchedulePolicyInput → ℕ → Result Schedule
resolve_weekly input minute = do
  hour ← assert_range (text "schedule_hour_utc") (or_number input.schedule_hour_utc 2) 23
  day ← assert_range (text "schedule_day_of_week") (or_number input.schedule_day_of_week 0) 6
  ok (record {
    schedule_policy = weekly;
    schedule_cron = decimal minute ++ (text " " ++ (decimal hour ++ (text " * * " ++ decimal day)));
    schedule_hour_utc = some (integer (pos hour));
    schedule_minute_utc = some (integer (pos minute));
    schedule_day_of_week = some (integer (pos day));
  })

-- The hour and the day of a cron expression are stored as they came.
unfoldable pub resolve_custom : SchedulePolicyInput → Result Schedule
resolve_custom input = do
  throw_if (not (truthy input.schedule_cron))
      (bad_request (text "schedule_cron is required for custom_cron schedule policy."))
  cron ← validate_cron_expression (text_or_empty input.schedule_cron)
  ok (record {
    schedule_policy = custom_cron;
    schedule_cron = cron;
    schedule_hour_utc = input.schedule_hour_utc;
    schedule_minute_utc = input.schedule_minute_utc;
    schedule_day_of_week = input.schedule_day_of_week;
  })

unfoldable pub resolve_as :
    SchedulePolicyInput → ℕ → Text → Option SchedulePolicyType → Result Schedule
resolve_as input minute policy (some hourly) = resolve_hourly minute
resolve_as input minute policy (some daily) = resolve_daily input minute
resolve_as input minute policy (some weekly) = resolve_weekly input minute
resolve_as input minute policy (some custom_cron) = resolve_custom input
resolve_as input minute policy none =
    err (bad_request (text "Unsupported schedule_policy: " ++ policy))

unfoldable pub resolve_schedule_policy : SchedulePolicyInput → Result Schedule
resolve_schedule_policy input = do
  minute ← assert_range (text "schedule_minute_utc") (or_number input.schedule_minute_utc 0) 59
  resolve_as input minute (requested_policy input) (policy_of (requested_policy input))
