-- ===== src/Backup/Crons.antt =====
-- The cron jobs that a start registers, and what one does when it fires:
-- onModuleInit and registerCron of src/backup/backup.service.ts.
use backups_microservice.Prelude.{◌≡◌, Bool, Option, none, some, List, [], ◌∷◌, ◌++◌, if◌then◌else◌}
use backups_microservice.Js.{Text, text, text_eq}
use backups_microservice.Errors.{Error}
use backups_microservice.Entities.{BackupJob, TriggerType}
use backups_microservice.World.{External, Action, pure, gets, or_throw, catch, ◌>>=◌, ◌>>◌}
use backups_microservice.Jobs.{find_enabled}
use backups_microservice.Nightly.{ensure_default_nightly_job}
use backups_microservice.Backup.{execute_job}

-- `new CronJob(expression, ...)`, with the job that its callback executes.
pub record Cron : Type 0 where
  pub expression : Text
  pub job_id : Text

-- What `SchedulerRegistry` and `CronJob` do, on a registry of the type `R`. A call that throws is
-- `none`: `deleteCronJob` on a missing name, `addCronJob` on one that is taken, and the constructor
-- on an expression that does not parse.
pub record Scheduler (R : Type 0) : Type 0 where
  pub delete_cron_job : Text → R → Option R
  pub add_cron_job : Text → Cron → R → Option R
  pub parses : Text → Bool

-- The documented behaviour of the two calls: each changes the entry of its own name and no other,
-- and a name that is not taken can be added.
pub record SchedulerLaws {R : Type 0} (s : Scheduler R) : Type 0 where
  pub cron_job : Text → R → Option Cron
  pub missing : (n : Text) (r : R) → s.delete_cron_job n r ≡ none → cron_job n r ≡ none
  pub accepts :
      (n : Text) (c : Cron) (r : R)
      → cron_job n r ≡ none
      → (r' : R) × (s.add_cron_job n c r ≡ some r')
  pub removes :
      (n m : Text) (r r' : R)
      → s.delete_cron_job n r ≡ some r'
      → cron_job m r' ≡ (if text_eq m n then none else cron_job m r)
  pub adds :
      (n m : Text) (c : Cron) (r r' : R)
      → s.add_cron_job n c r ≡ some r'
      → cron_job m r' ≡ (if text_eq m n then some c else cron_job m r)

unfoldable pub cron_name : Text → Text
unfolding text
cron_name id = text "backup-job-" ++ id

unfoldable pub cron_of : BackupJob → Cron
cron_of job = record { expression = job.schedule_cron; job_id = job.id }

-- The callback of a cron job, which logs what the execution throws.
unfoldable pub fire : External → Cron → Action (Unit {0})
unfolding execute_job text
fire ext cron =
    catch (execute_job ext cron.job_id TriggerType.scheduler (text "scheduler") >> pure tt)
      (λ e. pure tt)

module _ {R : Type 0} (s : Scheduler R) where
  -- `try { deleteCronJob(name); } catch {}`
  abbrev pub kept : R → Option R → R
  kept r none = r
  kept r (some r') = r'

  unfoldable pub register_cron : BackupJob → R → Option R
  unfolding cron_name cron_of
  register_cron job r =
      let r' = kept r (s.delete_cron_job (cron_name job.id) r) in
      if s.parses job.schedule_cron
      then s.add_cron_job (cron_name job.id) (cron_of job) r'
      else none

  abbrev pub and_then : Option R → (R → Option R) → Option R
  and_then none f = none
  and_then (some r) f = f r

  unfoldable pub register_crons : List BackupJob → R → Option R
  unfolding register_cron
  register_crons [] r = some r
  register_crons (job ∷ jobs) r = and_then (register_cron job r) (register_crons jobs)

  -- What a start throws where a registration does is `refusal`.
  unfoldable pub on_module_init : External → Error → R → Action R
  unfolding ensure_default_nightly_job find_enabled register_crons
  on_module_init ext refusal r = do
    ensure_default_nightly_job ext
    jobs ← gets (λ w. find_enabled w.db.jobs)
    or_throw refusal (register_crons jobs r)
