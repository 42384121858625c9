-- ===== src/Backup/Ending.antt =====
-- How an execution of src/backup/backup.service.ts ends, and what it stores.
use backups_microservice.Prelude.{
  ◌≡◌, ◌≢◌, refl, sym, subst, ◌⊎◌, inl, inr, some, List, [], ◌∷◌, arith, ◌==◌, Bool-cases,
}
use backups_microservice.Js.{Text}
use backups_microservice.Js.Laws.{text_eq_refl}
use backups_microservice.Errors.{Error, message, Result, ok, err}
use backups_microservice.Entities.{BackupRun, BackupRunStatus, BackupJob, TriggerType}
use backups_microservice.Walg.{backup_push}
use backups_microservice.Walg.Pipeline.{WalgResult}
use backups_microservice.World.{
  World, WalgEnv, External, returned, proceed, Outcome, threw, unsettled, pure,
  verification_pending, backup_succeeded,
}
use backups_microservice.Repositories.{find_run, find_job, save_run, update_job}
use backups_microservice.Retention.{cleanup}
use backups_microservice.Backup.{
  new_run, fail_execution, succeed_execution, fail_run, succeed_run, push, conclude, execute_job,
  mark_job_run,
}
use backups_microservice.Backup.Execution.{
  succeed_execution-Succeeded, fail_execution-HasFailed, job_parameters, begun, execute_push,
}

module _ (ext : External) (job : BackupJob) where
  -- The row is in the table; what follows a success is the cleanup of the job.
  pub record StoredIn (ended : BackupRun) (w' : World) : Type 0 where
    pub stored : find_run ended.id w'.db.runs ≡ some ended

  pub record CleanedAfter (env : WalgEnv) (ended : BackupRun) (w' : World) : Type 0 where
    pub before : World
    pub stored : StoredIn ended before
    pub then_cleaned : w' ≡ (cleanup ext job env before).1

  find_run-save_run : (r : BackupRun) (rs : List BackupRun) → find_run r.id (save_run r rs) ≡ some r
  unfolding find_run save_run
  find_run-save_run r [] = ground (arith, text_eq_refl r.id)
  find_run-save_run r (s ∷ rs) = ground (arith, text_eq_refl r.id, find_run-save_run r rs)

  fail_execution-StoredIn :
      (e reason : Text) (r d : BackupRun) (w w' : World)
      → fail_execution ext job e reason r w ≡ (returned d, w')
      → StoredIn d w'
  unfolding fail_execution
  fail_execution-StoredIn e reason r d w w' h = record {
    stored = ground (arith, find_run-save_run (fail_run e reason (ext.now w) r) w.db.runs);
  }

  ended_after :
      (o : Outcome (Unit {0})) (done d : BackupRun) (w1 w' : World)
      → proceed o (λ u. pure done) w1 ≡ (returned d, w')
      → (done ≡ d) × (w1 ≡ w')
  ended_after (returned u) done d w1 w' h = ground arith
  ended_after (threw e) done d w1 w' h = absurd (ground arith)
  ended_after unsettled done d w1 w' h = absurd (ground arith)

  succeed_execution-CleanedAfter :
      (env : WalgEnv) (name : Text) (r d : BackupRun) (w w' : World)
      → succeed_execution ext job env name r w ≡ (returned d, w')
      → CleanedAfter env d w'
  unfolding succeed_execution
  succeed_execution-CleanedAfter env name r d w w' h =
      let done = succeed_run env name (ext.now w) r in
      let before : World = record w {
        db = record w.db {
          runs = save_run done w.db.runs;
          jobs = update_job job.id (mark_job_run (ext.now w)) w.db.jobs;
        };
        notices =
            verification_pending job.name done.id ∷ backup_succeeded job.name done.id ∷ w.notices;
      } in
      let (o, w1) = cleanup ext job env before in
      let (same, last) = ended_after o done d w1 w' h in
      record {
        before = before;
        stored = record {
          stored =
              subst (λ x. find_run x.id before.db.runs ≡ some x) same
                (find_run-save_run done w.db.runs);
        };
        then_cleaned = sym last;
      }

  -- A run whose upload exited with code 0 is successful, and its row was stored before the cleanup.
  pub record Uploaded (env : WalgEnv) (result : WalgResult) (d : BackupRun) (w' : World)
      : Type 0 where
    pub exited : result.exit_code ≡ 0
    pub status : d.status ≡ BackupRunStatus.success
    pub cleaned : CleanedAfter env d w'

  -- A run that has failed has the path that it started with, and its row is stored.
  pub record FailedIn (started d : BackupRun) (w' : World) : Type 0 where
    pub status : d.status ≡ BackupRunStatus.failed
    pub same_path : d.storage_path ≡ started.storage_path
    pub stored : StoredIn d w'

  failed_in :
      (e reason : Text) (r d : BackupRun) (w w' : World)
      → fail_execution ext job e reason r w ≡ (returned d, w')
      → FailedIn r d w'
  failed_in e reason r d w w' h =
      let f = fail_execution-HasFailed ext job e reason r d w w' h in
      record {
        status = f.status;
        same_path = f.same_path;
        stored = fail_execution-StoredIn e reason r d w w' h;
      }

  conclude_ends :
      (env : WalgEnv) (name : Text) (r d : BackupRun) (result : WalgResult) (w w' : World)
      → conclude ext job env name r result w ≡ (returned d, w')
      → Uploaded env result d w' ⊎ ((result.exit_code ≢ 0) × FailedIn r d w')
  unfolding conclude
  conclude_ends env name r d result w w' h = elim (Bool-cases (result.exit_code == 0)) [
    | inl zero ↦
        let done = record r { walg_output = some result.output } in
        let ended = rw zero at h in
        inl (record {
          exited = ground (arith, zero);
          status = (succeed_execution-Succeeded ext job env name done d w w' ended).status;
          cleaned = succeed_execution-CleanedAfter env name done d w w' ended;
        })
    | inr other ↦
        let f =
          failed_in result.output _ (record r { walg_output = some result.output }) d w w'
            (rw other at h) in
        inr (
          (λ e. ground (arith, other)),
          record { status = f.status; same_path = f.same_path; stored = f.stored },
        )
  ]

  -- How an upload ended, by what its processes gave.
  pub data EndedBy (env : WalgEnv) (name : Text) (r d : BackupRun) (w w' : World) : Type 0 where
    uploaded :
        (result : WalgResult)
        → (backup_push ext env name w).0 ≡ returned result
        → Uploaded env result d w'
        → EndedBy env name r d w w'
    upload_failed :
        (result : WalgResult)
        → (backup_push ext env name w).0 ≡ returned result
        → result.exit_code ≢ 0
        → FailedIn r d w'
        → EndedBy env name r d w w'

  pushed_ends :
      (env : WalgEnv) (name : Text) (r d : BackupRun) (o : Outcome WalgResult) (w w1 w' : World)
      → (backup_push ext env name w).0 ≡ o
      → proceed o (conclude ext job env name r) w1 ≡ (returned d, w')
      → EndedBy env name r d w w'
  pushed_ends env name r d (returned result) w w1 w' e h =
      elim (conclude_ends env name r d result w1 w' h) [
        | inl u ↦ uploaded result e u
        | inr (code, f) ↦ upload_failed result e code f
      ]
  pushed_ends env name r d (threw x) w w1 w' e h = absurd (ground arith)
  pushed_ends env name r d unsettled w w1 w' e h = absurd (ground arith)

  -- How an execution ended, from its parameters on: these may be refused before any process starts.
  pub data Ended (p : Result (WalgEnv × Text)) (r d : BackupRun) (w w' : World) : Type 0 where
    rejected : (e : Error) → p ≡ err e → FailedIn r d w' → Ended p r d w w'
    pushed :
        (env : WalgEnv) (name : Text)
        → p ≡ ok (env, name)
        → EndedBy env name r d w w'
        → Ended p r d w w'

  push_ends :
      (p : Result (WalgEnv × Text)) (r d : BackupRun) (w w' : World)
      → push ext job r p w ≡ (returned d, w')
      → Ended p r d w w'
  unfolding push
  push_ends (err e) r d w w' h = rejected e refl (failed_in (message e) _ r d w w' h)
  push_ends (ok (env, name)) r d w w' h =
      let (o, w1) = backup_push ext env name w in
      pushed env name refl (pushed_ends env name r d o w w1 w' refl h)

module _ (ext : External) (job : BackupJob) (trigger : TriggerType) (actor : Text) (w : World) where
  -- An execution that returns a run has ended it in one of three ways. Its parameters were refused, or
  -- its upload exited with another code than 0: then the run has failed, with the path of a new row,
  -- and its row is stored as it is returned. Or its upload exited with code 0: then the run is successful,
  -- its row was stored as it is returned, and the cleanup of the job came last.
  pub execution_ends :
      (job_id : Text) (d : BackupRun) (w' : World)
      → find_job job_id w.db.jobs ≡ some job
      → execute_job ext job_id trigger actor w ≡ (returned d, w')
      → Ended ext job
          (job_parameters ext job trigger actor w)
          (new_run ext job trigger w)
          d
          (begun ext job trigger actor w).1
          w'
  execution_ends job_id d w' found h =
      push_ends ext job (job_parameters ext job trigger actor w) (new_run ext job trigger w) d
        (begun ext job trigger actor w).1 w'
        (execute_push ext job trigger actor w job_id d w' found h)
