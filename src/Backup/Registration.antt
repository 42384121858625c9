-- ===== src/Backup/Registration.antt =====
-- The registry that a start leaves: onModuleInit and registerCron of src/backup/backup.service.ts.
use backups_microservice.Prelude.{
  ◌≡◌, refl, ◌∙◌, ap, all, All, All-map, All-filter, All-of_filter, drop, ◌≢◌, inl, inr, &&_iff,
  true, false, Option, none, some, List, [], ◌∷◌, ◌++◌, arith, if◌then◌else◌, Bool-cases,
}
use backups_microservice.Js.{Text, text, text_eq}
use backups_microservice.Js.Laws.{text_eq_refl, eq_of_text_eq}
use backups_microservice.Errors.{Error}
use backups_microservice.Entities.{BackupJob}
use backups_microservice.World.{World, External, returned}
use backups_microservice.Jobs.{find_enabled}
use backups_microservice.Nightly.{ensure_default_nightly_job}
use backups_microservice.Backup.Crons.{
  Cron, Scheduler, SchedulerLaws, cron_name, cron_of, kept, and_then, register_cron, register_crons,
  on_module_init,
}

-- The cron job of a name, by the jobs alone: that of the last job with the name, or `before`.
unfoldable pub cron_for : Text → List BackupJob → Option Cron → Option Cron
unfolding text_eq cron_name cron_of
cron_for name [] before = before
cron_for name (job ∷ jobs) before =
    cron_for name jobs (if text_eq name (cron_name job.id) then some (cron_of job) else before)

-- The identifiers of the jobs, which are a primary key.
abbrev pub DistinctIds : List BackupJob → Type 0
DistinctIds [] = Unit {0}
DistinctIds (job ∷ jobs) = All (λ other. job.id ≢ other.id) jobs × DistinctIds jobs

text_eq-false : (a b : Text) → a ≢ b → text_eq a b ≡ false
text_eq-false a b n = elim (Bool-cases (text_eq a b)) [
  | inl same ↦ absurd (n (eq_of_text_eq a b same))
  | inr other ↦ other
]

cron_for_unnamed :
    (m : Text) (jobs : List BackupJob) (before : Option Cron)
    → All (λ (job : BackupJob). m ≢ cron_name job.id) jobs
    → cron_for m jobs before ≡ before
unfolding cron_for
cron_for_unnamed m [] before h = refl
cron_for_unnamed m (job ∷ jobs) before h =
    rw (text_eq-false m (cron_name job.id) (h.0)) (cron_for_unnamed m jobs before (h.1))

cron_name_injective : (a b : Text) → cron_name a ≡ cron_name b → a ≡ b
unfolding cron_name text
cron_name_injective a b e = ap (drop 11) e

cron_for_each :
    (jobs : List BackupJob)
    → DistinctIds jobs
    → All
        (λ (job : BackupJob).
          (before : Option Cron) → cron_for (cron_name job.id) jobs before ≡ some (cron_of job))
        jobs
unfolding cron_for
cron_for_each [] d = tt
cron_for_each (job ∷ jobs) d = (
  (λ before. rw (text_eq_refl (cron_name job.id)) (
      cron_for_unnamed (cron_name job.id) jobs (some (cron_of job))
        (All-map jobs (λ other n e. n (cron_name_injective job.id other.id e)) (d.0)))),
  All-map jobs (λ other h before. h _) (cron_for_each jobs (d.1)),
)

enabled-named :
    (m : Text) (jobs : List BackupJob)
    → All (λ (job : BackupJob). job.enabled ≡ true → m ≢ cron_name job.id) jobs
    → All (λ (job : BackupJob). m ≢ cron_name job.id) (find_enabled jobs)
unfolding find_enabled
enabled-named m [] h = tt
enabled-named m (job ∷ jobs) h = elim (Bool-cases job.enabled) [
  | inl on ↦ rw on (h.0 on, enabled-named m jobs (h.1))
  | inr off ↦ rw off (enabled-named m jobs (h.1))
]

DistinctIds-enabled : (jobs : List BackupJob) → DistinctIds jobs → DistinctIds (find_enabled jobs)
unfolding find_enabled
DistinctIds-enabled [] d = tt
DistinctIds-enabled (job ∷ jobs) d = elim (Bool-cases job.enabled) [
  | inl on ↦ rw on (
    All-filter (λ other. job.id ≢ other.id) (λ (j : BackupJob). j.enabled) jobs (d.0),
    DistinctIds-enabled jobs (d.1),
  )
  | inr off ↦ rw off (DistinctIds-enabled jobs (d.1))
]

module _ {R : Type 0} (s : Scheduler R) (laws : SchedulerLaws s) where
  kept_lookup :
      (n m : Text) (r : R) (deleted : Option R)
      → s.delete_cron_job n r ≡ deleted
      → text_eq m n ≡ false
      → laws.cron_job m (kept s r deleted) ≡ laws.cron_job m r
  kept_lookup n m r none h other = refl
  kept_lookup n m r (some r') h other = ground (arith, laws.removes n m r r' h)

  register_cron_lookup :
      (job : BackupJob) (m : Text) (r r' : R)
      → register_cron s job r ≡ some r'
      → laws.cron_job m r'
        ≡ (if text_eq m (cron_name job.id) then some (cron_of job) else laws.cron_job m r)
  unfolding register_cron
  register_cron_lookup job m r r' h =
      let n = cron_name job.id in
      ground (
        arith,
        laws.adds n m (cron_of job) (kept s r (s.delete_cron_job n r)) r',
        kept_lookup n m r (s.delete_cron_job n r) refl,
        Bool-cases (text_eq m n),
      )

  after_one :
      (job : BackupJob) (jobs : List BackupJob) (m : Text) (r r' : R) (one : Option R)
      → register_cron s job r ≡ one
      → and_then s one (register_crons s jobs) ≡ some r'
      → ((r1 : R)
          → register_crons s jobs r1 ≡ some r'
          → laws.cron_job m r' ≡ cron_for m jobs (laws.cron_job m r1))
      → laws.cron_job m r' ≡ cron_for m (job ∷ jobs) (laws.cron_job m r)
  unfolding cron_for
  after_one job jobs m r r' none e h rest = absurd (ground arith)
  after_one job jobs m r r' (some r1) e h rest =
      rest r1 h ∙ ap (cron_for m jobs) (register_cron_lookup job m r r1 e)

  register_crons_lookup :
      (jobs : List BackupJob) (m : Text) (r r' : R)
      → register_crons s jobs r ≡ some r'
      → laws.cron_job m r' ≡ cron_for m jobs (laws.cron_job m r)
  unfolding register_crons cron_for
  register_crons_lookup [] m r r' h = ground arith
  register_crons_lookup (job ∷ jobs) m r r' h =
      after_one job jobs m r r' (register_cron s job r) refl h
        (λ r1 h1. register_crons_lookup jobs m r1 r' h1)

  kept_missing :
      (n : Text) (r : R) (deleted : Option R)
      → s.delete_cron_job n r ≡ deleted
      → laws.cron_job n (kept s r deleted) ≡ none
  kept_missing n r none h = laws.missing n r h
  kept_missing n r (some r') h = ground (arith, laws.removes n n r r' h, text_eq_refl n)

  register_cron-returns :
      (job : BackupJob) (r : R)
      → s.parses job.schedule_cron ≡ true
      → (r' : R) × (register_cron s job r ≡ some r')
  unfolding register_cron
  register_cron-returns job r h =
      let n = cron_name job.id in
      let before = kept s r (s.delete_cron_job n r) in
      rw h (laws.accepts n (cron_of job) before (kept_missing n r (s.delete_cron_job n r) refl))

  register_crons-returns :
      (jobs : List BackupJob) (r : R)
      → all (λ (job : BackupJob). s.parses job.schedule_cron) jobs ≡ true
      → (r' : R) × (register_crons s jobs r ≡ some r')
  unfolding register_crons
  register_crons-returns [] r h = (r, refl)
  register_crons-returns (job ∷ jobs) r h =
      let (parsed, rest) = (&&_iff (s.parses job.schedule_cron) _).0 h in
      let (r1, e) = register_cron-returns job r parsed in rw e (register_crons-returns jobs r1 rest)

  -- Where the nightly bootstrap returns, the expressions of the enabled jobs that it leaves in the
  -- table all parse, and the identifiers of the jobs are distinct, the start returns. Each enabled job
  -- then has a cron job under backup-job- and its identifier, which has its expression and executes
  -- it, and every other name holds what the registry held before.
  pub start_registers_enabled_jobs :
      (ext : External) (refusal : Error) (r : R) (ensured : Option BackupJob) (w w' : World)
      → ensure_default_nightly_job ext w ≡ (returned ensured, w')
      → all (λ (job : BackupJob). s.parses job.schedule_cron) (find_enabled w'.db.jobs) ≡ true
      → DistinctIds w'.db.jobs
      → (r' : R) × (on_module_init s ext refusal r w ≡ (returned r', w'))
        × All
            (λ (job : BackupJob).
              job.enabled ≡ true
              → laws.cron_job (text "backup-job-" ++ job.id) r'
                ≡ some (record { expression = job.schedule_cron; job_id = job.id }))
            w'.db.jobs
        × ((m : Text)
            → All
                (λ (job : BackupJob). job.enabled ≡ true → m ≢ text "backup-job-" ++ job.id)
                w'.db.jobs
            → laws.cron_job m r' ≡ laws.cron_job m r)
  unfolding on_module_init cron_name cron_of find_enabled
  start_registers_enabled_jobs ext refusal r ensured w w' h parsed distinct =
      let jobs = find_enabled w'.db.jobs in
      let (r', e) = register_crons-returns jobs r parsed in
      (
        r',
        rw (h, e) refl,
        All-of_filter (λ job. laws.cron_job (cron_name job.id) r' ≡ some (cron_of job))
            (λ (job : BackupJob). job.enabled) w'.db.jobs
            (All-map jobs
              (λ job k.
                register_crons_lookup jobs (cron_name job.id) r r' e
                ∙ k (laws.cron_job (cron_name job.id) r))
              (cron_for_each jobs (DistinctIds-enabled w'.db.jobs distinct))),
        λ m n.
            register_crons_lookup jobs m r r' e
            ∙ cron_for_unnamed m jobs (laws.cron_job m r) (enabled-named m w'.db.jobs n),
      )
