-- ===== src/Nightly/Restart.antt =====
-- A second start after src/backup/nightly-backup-bootstrap.service.ts has run.
use backups_microservice.Prelude.{
  ℕ, ◌≤◌, ◌≡◌, refl, sym, ap₂, subst, ◌∙◌, Bool, true, false, Option, none, some, List, [], ◌∷◌,
  arith, find, Bool-cases, inl, inr,
}
use backups_microservice.Js.{Text, text_eq, truthy, text_or_empty}
use backups_microservice.Js.Laws.{text_eq_refl}
use backups_microservice.Walg.{or_text}
use backups_microservice.Errors.{Error, Result, ok, err}
use backups_microservice.Entities.{BackupTarget, BackupJob}
use backups_microservice.Schedule.{Schedule, resolve_schedule_policy}
use backups_microservice.Jobs.{with_schedule, store_job, or_truthy}
use backups_microservice.Repositories.{save_job}
use backups_microservice.Targets.{save_target, store_target, blank_target}
use backups_microservice.World.{World, External, Outcome, returned}
use backups_microservice.Nightly.{
  NightlyConfig, is_default_target, is_default_job, default_target, default_job, fill_target,
  nightly_schedule, ensure_target, ensure_job, ensure_enabled, max, ensure_default_nightly_job,
  default_nightly_config,
}

-- A row that is saved in the place of the one that a search finds, or as a new one, is what the
-- search finds then; and saving it again changes nothing.
module _ (p : BackupTarget → Bool) (t : BackupTarget) (fits : p t ≡ true) where
  find-save_target :
      (ts : List BackupTarget)
      → ((q : BackupTarget) → find p ts ≡ some q → text_eq q.id t.id ≡ true)
      → find p (save_target t ts) ≡ some t
  unfolding save_target
  find-save_target [] h = rw fits
  find-save_target (u ∷ ts) h = elim (Bool-cases (text_eq u.id t.id)) [
    | inl same ↦ rw (same, fits)
    | inr other ↦ elim (Bool-cases (p u)) [
      | inl hit ↦ absurd (ground (arith, h u, hit, other))
      | inr miss ↦ let rest = find-save_target ts (λ q e. h q (rw miss e)) in rw (other, miss) rest
    ]
  ]

save_target_twice :
    (t : BackupTarget) (ts : List BackupTarget)
    → save_target t (save_target t ts) ≡ save_target t ts
unfolding save_target
save_target_twice t [] = ground (arith, text_eq_refl t.id)
save_target_twice t (u ∷ ts) =
    ground (arith, text_eq_refl t.id, save_target_twice t ts, Bool-cases (text_eq u.id t.id))

module _ (config : NightlyConfig) where
  default_target_fits :
      (id : Text) (now : ℕ) (o : Option BackupTarget)
      → is_default_target config (default_target config id now o) ≡ true
  unfolding is_default_target default_target fill_target
  default_target_fits id now none =
      ground (arith, text_eq_refl config.host, text_eq_refl config.database_name)
  default_target_fits id now (some t) =
      ground (arith, text_eq_refl config.host, text_eq_refl config.database_name)

  default_target_twice :
      (id id' : Text) (now now' : ℕ) (o : Option BackupTarget)
      → default_target config id' now' (some (default_target config id now o))
        ≡ default_target config id now o
  unfolding default_target fill_target blank_target or_text or_truthy truthy text_or_empty
  default_target_twice id id' now now' none = ground arith
  default_target_twice id id' now now' (some t) = ground arith

default_target_id :
    (config : NightlyConfig) (id : Text) (now : ℕ) (o : Option BackupTarget) (q : BackupTarget)
    → o ≡ some q
    → text_eq q.id (default_target config id now o).id ≡ true
unfolding default_target fill_target
default_target_id config id now none q h = cc
default_target_id config id now (some t) q h = ground (arith, text_eq_refl q.id)

default_job_id :
    (config : NightlyConfig) (target_id : Text) (s : Schedule) (id : Text) (now : ℕ)
    (o : Option BackupJob) (q : BackupJob)
    → o ≡ some q
    → text_eq q.id (default_job config target_id id now s o).id ≡ true
unfolding default_job with_schedule
default_job_id config target_id s id now none q h = cc
default_job_id config target_id s id now (some j) q h = ground (arith, text_eq_refl q.id)

module _ (p : BackupJob → Bool) (j : BackupJob) (fits : p j ≡ true) where
  find-save_job :
      (js : List BackupJob)
      → ((q : BackupJob) → find p js ≡ some q → text_eq q.id j.id ≡ true)
      → find p (save_job j js) ≡ some j
  unfolding save_job
  find-save_job [] h = rw fits
  find-save_job (u ∷ js) h = elim (Bool-cases (text_eq u.id j.id)) [
    | inl same ↦ rw (same, fits)
    | inr other ↦ elim (Bool-cases (p u)) [
      | inl hit ↦ absurd (ground (arith, h u, hit, other))
      | inr miss ↦ let rest = find-save_job js (λ q e. h q (rw miss e)) in rw (other, miss) rest
    ]
  ]

save_job_twice : (j : BackupJob) (js : List BackupJob) → save_job j (save_job j js) ≡ save_job j js
unfolding save_job
save_job_twice j [] = ground (arith, text_eq_refl j.id)
save_job_twice j (u ∷ js) =
    ground (arith, text_eq_refl j.id, save_job_twice j js, Bool-cases (text_eq u.id j.id))

module _ (config : NightlyConfig) (target_id : Text) (s : Schedule) where
  default_job_fits :
      (id : Text) (now : ℕ) (o : Option BackupJob)
      → is_default_job config target_id (default_job config target_id id now s o) ≡ true
  unfolding is_default_job default_job
  default_job_fits id now o = ground (arith, text_eq_refl target_id, text_eq_refl config.job_name)

  default_job_twice :
      (id id' : Text) (now now' : ℕ) (o : Option BackupJob)
      → default_job config target_id id' now' s (some (default_job config target_id id now s o))
        ≡ default_job config target_id id now s o
  unfolding default_job with_schedule
  default_job_twice id id' now now' none = refl
  default_job_twice id id' now now' (some j) = refl

  default_job_retention :
      (id : Text) (now : ℕ) (o : Option BackupJob)
      → (7 ≤ (default_job config target_id id now s o).retention_full_count)
        × ((default_job config target_id id now s o).enabled ≡ true)
  unfolding default_job max
  default_job_retention id now o = ground arith

returned_parts :
    (j k : BackupJob) (v w : World)
    → ◌≡◌ {A = Outcome (Option BackupJob) × World} (returned (some j), v) (returned (some k), w)
    → (j ≡ k) × (v ≡ w)
returned_parts j k v w h = (cc, cc)

module _ (ext : External) (config : NightlyConfig) where
  target_row : World → BackupTarget
  target_row w =
      default_target config (ext.new_id w.db) (ext.now w)
        (find (is_default_target config) w.db.targets)

  after_target : World → World
  unfolding target_row
  after_target w = record w {
    db = record w.db { targets = save_target (target_row w) w.db.targets };
  }

  job_row : Schedule → Text → World → BackupJob
  job_row s target_id w =
      default_job config target_id (ext.new_id w.db) (ext.now w) s
        (find (is_default_job config target_id) w.db.jobs)

  after_job : Schedule → Text → World → World
  unfolding job_row
  after_job s target_id w = record w {
    db = record w.db { jobs = save_job (job_row s target_id w) w.db.jobs };
  }

  ensured :
      (s : Schedule) (w : World)
      → resolve_schedule_policy (nightly_schedule config) ≡ ok s
      → ensure_enabled ext config w ≡ (
        returned (some (job_row s (target_row w).id (after_target w))),
        after_job s (target_row w).id (after_target w),
      )
  unfolding ensure_enabled ensure_target ensure_job store_target store_job after_target after_job
      job_row target_row
  ensured s w h = rw h

  target_found :
      (w : World)
      → find (is_default_target config) (save_target (target_row w) w.db.targets)
        ≡ some (target_row w)
  unfolding target_row
  target_found w =
      find-save_target (is_default_target config) (target_row w)
        (default_target_fits config (ext.new_id w.db) (ext.now w) _) w.db.targets
        (λ q e. default_target_id config (ext.new_id w.db) (ext.now w) _ q e)

  job_found :
      (s : Schedule) (id : Text) (w : World)
      → find (is_default_job config id) (save_job (job_row s id w) w.db.jobs)
        ≡ some (job_row s id w)
  unfolding job_row
  job_found s id w =
      find-save_job (is_default_job config id) (job_row s id w)
        (default_job_fits config id s (ext.new_id w.db) (ext.now w) _) w.db.jobs
        (λ q e. default_job_id config id s (ext.new_id w.db) (ext.now w) _ q e)

  -- A state in which the target and the job are as an execution leaves them.
  record Settled (s : Schedule) (t : BackupTarget) (j : BackupJob) (w : World) : Type 0 where
    pub found_target : find (is_default_target config) w.db.targets ≡ some t
    pub same_target : (id : Text) (now : ℕ) → default_target config id now (some t) ≡ t
    pub saved_target : save_target t w.db.targets ≡ w.db.targets
    pub found_job : find (is_default_job config t.id) w.db.jobs ≡ some j
    pub same_job : (id : Text) (now : ℕ) → default_job config t.id id now s (some j) ≡ j
    pub saved_job : save_job j w.db.jobs ≡ w.db.jobs

  ensured-Settled :
      (s : Schedule) (w : World)
      → Settled s
          (target_row w)
          (job_row s (target_row w).id (after_target w))
          (after_job s (target_row w).id (after_target w))
  unfolding after_target after_job
  ensured-Settled s w = record {
    found_target = target_found w;
    same_target = λ id now. unfold target_row in default_target_twice config _ id _ now _;
    saved_target = save_target_twice (target_row w) w.db.targets;
    found_job = job_found s (target_row w).id (after_target w);
    same_job = λ id now. unfold job_row in default_job_twice config _ s _ id _ now _;
    saved_job = save_job_twice (job_row s (target_row w).id (after_target w)) w.db.jobs;
  }

  Settled-stays :
      (s : Schedule) (t : BackupTarget) (j : BackupJob) (w : World)
      → Settled s t j w
      → (job_row s (target_row w).id (after_target w) ≡ j)
        × (after_job s (target_row w).id (after_target w) ≡ w)
  unfolding target_row after_target job_row after_job
  Settled-stays s t j w h =
      rw
        (
          h.found_target,
          h.same_target (ext.new_id w.db) (ext.now w),
          h.saved_target,
          h.found_job,
          h.same_job (ext.new_id w.db) (ext.now w),
          h.saved_job,
        )
        (refl, refl)

  job_row_retention :
      (s : Schedule) (id : Text) (w : World)
      → (7 ≤ (job_row s id w).retention_full_count) × ((job_row s id w).enabled ≡ true)
  unfolding job_row
  job_row_retention s id w = default_job_retention config id s (ext.new_id w.db) (ext.now w) _

  abbrev IsRestartable : BackupJob → World → Type 0
  IsRestartable job w =
      (ensure_enabled ext config w ≡ (returned (some job), w))
      × (7 ≤ job.retention_full_count)
      × (job.enabled ≡ true)

  unscheduled :
      (e : Error) (w w' : World) (job : BackupJob)
      → resolve_schedule_policy (nightly_schedule config) ≡ err e
      → ensure_enabled ext config w ≡ (returned (some job), w')
      → ⊥
  unfolding ensure_enabled ensure_target ensure_job
  unscheduled e w w' job h k = absurd (ground (arith, h))

  restarted :
      (r : Result Schedule) (w w' : World) (job : BackupJob)
      → resolve_schedule_policy (nightly_schedule config) ≡ r
      → ensure_enabled ext config w ≡ (returned (some job), w')
      → IsRestartable job w'
  restarted (err e) w w' job h k = absurd (unscheduled e w w' job h k)
  restarted (ok s) w w' job h k =
      let t : BackupTarget = target_row w in
      let j : BackupJob = job_row s t.id (after_target w) in
      let v : World = after_job s t.id (after_target w) in
      let (same_job, same_world) = returned_parts j job v w' (sym (ensured s w h) ∙ k) in
      let (job_stays, world_stays) = Settled-stays s t j v (ensured-Settled s w) in
      let again : ensure_enabled ext config v ≡ (returned (some j), v) =
        ensured s v h
        ∙ ap₂ (λ (a : BackupJob) (u : World). (returned (some a), u)) job_stays world_stays in
      let (retained, enabled) = job_row_retention s t.id (after_target w) in
      subst (λ (u : World). IsRestartable job u) same_world
        (subst (λ (a : BackupJob). IsRestartable a v) same_job (again, retained, enabled))

enabled_run :
    (ext : External) (w : World)
    → (default_nightly_config ext.env).enabled ≡ true
    → ensure_default_nightly_job ext w ≡ ensure_enabled ext (default_nightly_config ext.env) w
unfolding ensure_default_nightly_job
enabled_run ext w h = rw h

disabled_run :
    (ext : External) (w : World)
    → (default_nightly_config ext.env).enabled ≡ false
    → ensure_default_nightly_job ext w ≡ (returned none, w)
unfolding ensure_default_nightly_job
disabled_run ext w h = rw h

-- Where a start ensures the nightly backup, it gives a job that is enabled and retains at least seven
-- backups, and the next start gives the same job and changes nothing.
pub restart_changes_nothing :
    (ext : External) (w w' : World) (job : BackupJob)
    → ensure_default_nightly_job ext w ≡ (returned (some job), w')
    → (ensure_default_nightly_job ext w' ≡ (returned (some job), w'))
      × (7 ≤ job.retention_full_count)
      × (job.enabled ≡ true)
restart_changes_nothing ext w w' job h =
    let config : NightlyConfig = default_nightly_config ext.env in
    elim (Bool-cases config.enabled) [
      | inl enabled ↦
          let (again, retained, on) =
            restarted ext config (resolve_schedule_policy (nightly_schedule config)) w w' job refl
              (sym (enabled_run ext w enabled) ∙ h) in
          (enabled_run ext w' enabled ∙ again, retained, on)
      | inr disabled ↦ absurd (other_outcome (sym (disabled_run ext w disabled) ∙ h))
    ]
  where
    other_outcome :
        ◌≡◌ {A = Outcome (Option BackupJob) × World} (returned none, w) (returned (some job), w')
        → ⊥
    other_outcome e = cc
