-- ===== src/Examples/Registering.antt =====
-- A start that registers the nightly job and one that was stored before.
use backups_microservice.Prelude.{
  ◌≢◌, All, ◌++◌, ◌≡◌, refl, Bool, true, Option, none, some, List, [], ◌∷◌, arith, any,
  if◌then◌else◌, Bool-cases, false,
}
use backups_microservice.Js.{Text, text, text_eq}
use backups_microservice.Js.Laws.{eq_of_text_eq, text_eq_refl}
use backups_microservice.Errors.{plain}
use backups_microservice.World.{World, returned}
use backups_microservice.Jobs.{find_enabled}
use backups_microservice.Backup.Crons.{Cron, Scheduler, SchedulerLaws, on_module_init}
use backups_microservice.Backup.Registration.{DistinctIds, start_registers_enabled_jobs}
use backups_microservice.Entities.{BackupJob}
use backups_microservice.Nightly.{ensure_default_nightly_job}
use backups_microservice.Examples.Administering.{nightly_job}
use backups_microservice.Examples.Fixtures.{ext, world_with}

-- A registry that lists the cron jobs with their names.
abbrev Registry : Type 0
Registry = List (Text × Cron)

unfoldable cron_job : Text → Registry → Option Cron
unfolding text_eq
cron_job n [] = none
cron_job n ((m, c) ∷ r) = if text_eq n m then some c else cron_job n r

unfoldable without : Text → Registry → Registry
unfolding text_eq
without n [] = []
without n ((m, c) ∷ r) = let rest = without n r in if text_eq m n then rest else (m, c) ∷ rest

unfoldable is_taken : Text → Registry → Bool
unfolding text_eq
is_taken n r = any (λ e. text_eq e.0 n) r

abbrev scheduler : Scheduler Registry
scheduler = record {
  delete_cron_job = λ n r. if is_taken n r then some (without n r) else none;
  add_cron_job = λ n c r. if is_taken n r then none else some ((n, c) ∷ r);
  parses = λ s. true;
}

without_lookup :
    (n m : Text) (r : Registry)
    → cron_job m (without n r) ≡ (if text_eq m n then none else cron_job m r)
unfolding cron_job without
without_lookup n m [] = ground (arith, Bool-cases (text_eq m n))
without_lookup n m ((k, c) ∷ r) = ground (
  arith,
  without_lookup n m r,
  eq_of_text_eq k n,
  eq_of_text_eq m k,
  eq_of_text_eq m n,
  text_eq_refl m,
  text_eq_refl n,
  Bool-cases (text_eq m n),
  Bool-cases (text_eq m k),
  Bool-cases (text_eq k n),
)

missing_lookup : (n : Text) (r : Registry) → is_taken n r ≡ false → cron_job n r ≡ none
unfolding cron_job is_taken
missing_lookup n [] h = refl
missing_lookup n ((k, c) ∷ r) h = ground (
  arith,
  missing_lookup n r,
  eq_of_text_eq n k,
  text_eq_refl n,
  Bool-cases (text_eq k n),
  Bool-cases (text_eq n k),
)

taken_lookup : (n : Text) (r : Registry) → cron_job n r ≡ none → is_taken n r ≡ false
unfolding cron_job is_taken
taken_lookup n [] h = refl
taken_lookup n ((k, c) ∷ r) h = ground (
  arith,
  taken_lookup n r,
  eq_of_text_eq k n,
  text_eq_refl n,
  Bool-cases (text_eq k n),
  Bool-cases (text_eq n k),
)

laws : SchedulerLaws scheduler
unfolding cron_job
laws = record {
  cron_job = cron_job;
  missing = λ n r h. missing_lookup n r (ground (arith, Bool-cases (is_taken n r)));
  accepts = λ n c r h. ((n, c) ∷ r, rw (taken_lookup n r h) refl);
  removes = λ n m r r' h. ground (arith, without_lookup n m r, Bool-cases (is_taken n r));
  adds = λ n m c r r' h. ground (arith, Bool-cases (is_taken n r));
}

abbrev stored : World
stored = world_with []

abbrev started : World
started = (ensure_default_nightly_job ext stored).1

distinct_ids : DistinctIds started.db.jobs
unfolding ensure_default_nightly_job backups_microservice.Nightly.default_nightly_config
    backups_microservice.Js.strip_end backups_microservice.Nightly.ensure_enabled
    backups_microservice.Schedule.assert_range backups_microservice.Schedule.resolve_as
    backups_microservice.Schedule.policy_of backups_microservice.Schedule.requested_policy
    backups_microservice.Schedule.resolve_custom
    backups_microservice.Schedule.validate_cron_expression backups_microservice.Js.split
    backups_microservice.Schedule.collapse backups_microservice.Schedule.is_blank
    backups_microservice.Schedule.cron_part backups_microservice.Repositories.save_job
distinct_ids = (((λ e. cc), tt), (tt, tt))

start_registers_enabled_jobs_example :
    (r' : Registry) × (on_module_init scheduler ext (plain []) [] stored ≡ (returned r', started))
    × All
        (λ (j : BackupJob).
          j.enabled ≡ true
          → cron_job (text "backup-job-" ++ j.id) r'
            ≡ some (record { expression = j.schedule_cron; job_id = j.id }))
        started.db.jobs
    × ((m : Text)
        → All (λ (j : BackupJob). j.enabled ≡ true → m ≢ text "backup-job-" ++ j.id) started.db.jobs
        → cron_job m r' ≡ none)
unfolding ensure_default_nightly_job backups_microservice.Nightly.default_nightly_config
    backups_microservice.Js.strip_end backups_microservice.Nightly.ensure_enabled
    backups_microservice.Schedule.assert_range backups_microservice.Schedule.resolve_as
    backups_microservice.Schedule.policy_of backups_microservice.Schedule.requested_policy
    backups_microservice.Schedule.resolve_custom
    backups_microservice.Schedule.validate_cron_expression backups_microservice.Js.split
    backups_microservice.Schedule.collapse backups_microservice.Schedule.is_blank
    backups_microservice.Schedule.cron_part find_enabled backups_microservice.Repositories.save_job
    cron_job laws is_taken missing_lookup taken_lookup without without_lookup
    backups_microservice.Jobs.or_truthy backups_microservice.Jobs.store_job
    backups_microservice.Jobs.with_schedule backups_microservice.Js.decimal
    backups_microservice.Js.decimal_from backups_microservice.Js.digits_value
    backups_microservice.Js.is_digit backups_microservice.Js.is_empty
    backups_microservice.Js.is_space backups_microservice.Js.lower
    backups_microservice.Js.lower_units backups_microservice.Js.parse_positive
    backups_microservice.Js.split_by backups_microservice.Js.strip_start text text_eq
    backups_microservice.Js.text_or_empty backups_microservice.Js.to_lower_case
    backups_microservice.Js.trim backups_microservice.Js.truthy
    backups_microservice.Nightly.blank_job backups_microservice.Nightly.default_job
    backups_microservice.Nightly.default_target backups_microservice.Nightly.ensure_job
    backups_microservice.Nightly.ensure_target backups_microservice.Nightly.env_bool
    backups_microservice.Nightly.env_int backups_microservice.Nightly.env_string
    backups_microservice.Nightly.fill_target backups_microservice.Nightly.is_default_job
    backups_microservice.Nightly.is_default_target backups_microservice.Nightly.max
    backups_microservice.Schedule.resolve_daily backups_microservice.Schedule.resolve_hourly
    backups_microservice.Schedule.resolve_schedule_policy
    backups_microservice.Schedule.resolve_weekly backups_microservice.Targets.blank_target
    backups_microservice.Targets.save_target backups_microservice.Targets.store_target
    backups_microservice.Walg.or_text
start_registers_enabled_jobs_example =
    start_registers_enabled_jobs scheduler laws ext (plain []) [] (some nightly_job) stored started
      refl refl distinct_ids
