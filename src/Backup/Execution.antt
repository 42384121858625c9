-- ===== src/Backup/Execution.antt =====
-- What `executeJob` of src/backup/backup.service.ts leave.
use backups_microservice.Prelude.{
  ◌≡◌, refl, sym, subst, ◌∙◌, ◌⊎◌, inl, inr, true, Option, none, some, arith, ◌==◌, Bool-cases,
}
use backups_microservice.Js.{Text, text, strip_end, starts_with}
use backups_microservice.Errors.{Result, ok}
use backups_microservice.Entities.{BackupRun, BackupRunStatus, BackupJob, BackupTarget, TriggerType}
use backups_microservice.Storage.{
  is_slash, logical_backup_object_name, logical_backup_storage_path, logical_restore_location,
  assert_restorable_run,
}
use backups_microservice.Storage.RoundTrip.{restore_locates_backup}
use backups_microservice.Walg.{backup_push}
use backups_microservice.Walg.Pipeline.{WalgResult}
use backups_microservice.World.{
  World, WalgEnv, External, returned, proceed, Outcome, threw, unsettled,
}
use backups_microservice.Repositories.{find_job, find_target, save_run}
use backups_microservice.Backup.{
  load_job, new_run, audit_trigger, parameters, fail_execution, succeed_execution, fail_run,
  succeed_run, push, conclude, execute_job, mark_verification_pending, mark_verification_skipped,
}

module _ (ext : External) (job : BackupJob) where
  -- A run that has come to its end, by its status.
  pub record Succeeded (env : WalgEnv) (name : Text) (started ended : BackupRun) : Type 0 where
    pub status : ended.status ≡ BackupRunStatus.success
    pub same_id : ended.id ≡ started.id
    pub recorded : ended.storage_path ≡ some (logical_backup_storage_path env.walg_s3_prefix name)

  pub record HasFailed (started ended : BackupRun) : Type 0 where
    pub status : ended.status ≡ BackupRunStatus.failed
    pub same_path : ended.storage_path ≡ started.storage_path

  pub succeed_execution-Succeeded :
      (env : WalgEnv) (name : Text) (r d : BackupRun) (w w' : World)
      → succeed_execution ext job env name r w ≡ (returned d, w')
      → Succeeded env name r d
  unfolding succeed_execution succeed_run mark_verification_pending
  succeed_execution-Succeeded env name r d w w' h = ground arith

  pub fail_execution-HasFailed :
      (e reason : Text) (r d : BackupRun) (w w' : World)
      → fail_execution ext job e reason r w ≡ (returned d, w')
      → HasFailed r d
  unfolding fail_execution fail_run mark_verification_skipped
  fail_execution-HasFailed e reason r d w w' h = ground arith

  conclude_cases :
      (env : WalgEnv) (name : Text) (r d : BackupRun) (result : WalgResult) (w w' : World)
      → conclude ext job env name r result w ≡ (returned d, w')
      → Succeeded env name r d ⊎ HasFailed r d
  unfolding conclude
  conclude_cases env name r d result w w' h = elim (Bool-cases (result.exit_code == 0)) [
    | inl zero ↦
        let s =
          succeed_execution-Succeeded env name (record r { walg_output = some result.output }) d w
            w' (rw zero at h) in
        inl (record { status = s.status; same_id = s.same_id; recorded = s.recorded })
    | inr other ↦
        let f =
          fail_execution-HasFailed result.output _ (record r { walg_output = some result.output }) d
            w w' (rw other at h) in
        inr (record { status = f.status; same_path = f.same_path })
  ]

  pushed_cases :
      (env : WalgEnv) (name : Text) (r d : BackupRun) (o : Outcome WalgResult) (w w' : World)
      → proceed o (conclude ext job env name r) w ≡ (returned d, w')
      → Succeeded env name r d ⊎ HasFailed r d
  pushed_cases env name r d (returned result) w w' h = conclude_cases env name r d result w w' h
  pushed_cases env name r d (threw e) w w' h = ground arith
  pushed_cases env name r d unsettled w w' h = ground arith

  push_cases :
      (env : WalgEnv) (name : Text) (r d : BackupRun) (w w' : World)
      → push ext job r (ok (env, name)) w ≡ (returned d, w')
      → Succeeded env name r d ⊎ HasFailed r d
  unfolding push
  push_cases env name r d w w' h =
      let (o, w1) = backup_push ext env name w in pushed_cases env name r d o w1 w' h

-- The execution of a job, from its parameters on.
module _ (ext : External) (job : BackupJob) (trigger : TriggerType) (actor : Text) (w : World) where
  abbrev pub job_parameters : Result (WalgEnv × Text)
  job_parameters = parameters ext job (find_target job.target_id w.db.targets) (ext.new_id w.db)

  -- The world in which an execution starts its upload: the row of the run is saved, and a manual
  -- trigger is audited.
  abbrev pub begun : Outcome (Unit {0}) × World
  begun =
      let r = new_run ext job trigger w in
      audit_trigger ext trigger actor job r
        (record w { db = record w.db { runs = save_run r w.db.runs } })

  audited :
      (r d : BackupRun) (p : Result (WalgEnv × Text)) (o : Outcome (Unit {0})) (w1 w' : World)
      → proceed o (λ u. push ext job r p) w1 ≡ (returned d, w')
      → push ext job r p w1 ≡ (returned d, w')
  audited r d p (returned u) w1 w' h = h
  audited r d p (threw e) w1 w' h = absurd (ground arith)
  audited r d p unsettled w1 w' h = absurd (ground arith)

  pub execute_push :
      (job_id : Text) (d : BackupRun) (w' : World)
      → find_job job_id w.db.jobs ≡ some job
      → execute_job ext job_id trigger actor w ≡ (returned d, w')
      → push ext job (new_run ext job trigger w) job_parameters begun.1 ≡ (returned d, w')
  unfolding execute_job load_job
  execute_push job_id d w' found h =
      audited (new_run ext job trigger w) d job_parameters begun.0 begun.1 w'
        (unfold new_run in rw found at h)

  parameters_name :
      (target : Option BackupTarget) (run_id : Text) {env : WalgEnv} {name : Text}
      → parameters ext job target run_id ≡ ok (env, name)
      → logical_backup_object_name run_id ≡ ok name
  unfolding parameters
  parameters_name none run_id h = cc
  parameters_name (some t) run_id h = ground arith

  located-Succeeded :
      (env : WalgEnv) (name : Text) (d : BackupRun)
      → logical_backup_object_name (ext.new_id w.db) ≡ ok name
      → starts_with (text "s3://") (strip_end is_slash env.walg_s3_prefix) ≡ true
      → Succeeded ext job env name (new_run ext job trigger w) d
      → (logical_restore_location d
          ≡ ok (record {
            storage_prefix = strip_end is_slash env.walg_s3_prefix;
            object_name = name;
          }))
        × (assert_restorable_run d ≡ ok tt)
  unfolding assert_restorable_run new_run
  located-Succeeded env name d named s3 s = (
    restore_locates_backup d env.walg_s3_prefix name
        (subst (λ i. logical_backup_object_name i ≡ ok name) (sym s.same_id) named) s.recorded s3,
    rw (s.status) refl,
  )

  -- A run that an execution returns as successful can be restored: it passes the check of restorable
  -- runs, and a restore locates it at the prefix that the backup was written under, without its
  -- trailing slashes, and at the run's own object, where that prefix is an s3 one.
  pub successful_run_is_restorable :
      (job_id : Text) (env : WalgEnv) (name : Text) (d : BackupRun) (w' : World)
      → find_job job_id w.db.jobs ≡ some job
      → job_parameters ≡ ok (env, name)
      → starts_with (text "s3://") (strip_end is_slash env.walg_s3_prefix) ≡ true
      → execute_job ext job_id trigger actor w ≡ (returned d, w')
      → d.status ≡ BackupRunStatus.success
      → (logical_restore_location d
          ≡ ok (record {
            storage_prefix = strip_end is_slash env.walg_s3_prefix;
            object_name = name;
          }))
        × (assert_restorable_run d ≡ ok tt)
  successful_run_is_restorable job_id env name d w' found params s3 h succeeded =
      let pushed = execute_push job_id d w' found h in
      let named =
        parameters_name (find_target job.target_id w.db.targets) (ext.new_id w.db) params in
      elim (push_cases ext job env name (new_run ext job trigger w) d begun.1 w'
        (rw params at pushed)) [
          | inl s ↦ located-Succeeded env name d named s3 s
          | inr f ↦ absurd (failed_success (sym f.status ∙ succeeded))
        ]
    where
      failed_success : ¬ (BackupRunStatus.failed ≡ BackupRunStatus.success)
      failed_success e = cc
