-- ===== src/Retention.antt =====
-- The retention cleanup: src/retention/retention.service.ts. Its log lines are left out.
pub mod Deletion
pub mod Spares
pub mod Cleanup
pub mod Anchor
use backups_microservice.Prelude.{
  ℕ, suc, ◌+◌, Bool, true, false, ◌&&◌, ◌||◌, not, Option, none, some, List, [], ◌∷◌, ◌++◌, any,
  filter, map, take, length, ltb, ◌==◌, if◌then◌else◌,
}
use backups_microservice.Js.{Text, text, text_eq, is_empty, trim, truthy, text_or_empty}
use backups_microservice.Errors.{Error, Result, ok, err}
use backups_microservice.Entities.{
  BackupRun, BackupRunStatus, VerificationStatus, BackupJob, RestoreRequest,
}
use backups_microservice.Storage.{
  is_success, logical_backup_object_name, logical_backup_storage_path,
}
use backups_microservice.Walg.{delete_logical_object, probe_logical_object}
use backups_microservice.Walg.Listing.{LogicalObjectProbe, present, absent, unprovable}
use backups_microservice.World.{
  Db, World, WalgEnv, External, Notice, retention_cleanup_succeeded, retention_cleanup_failed,
  Action, pure, gets, modify_db, notify, catch, ◌>>=◌, ◌>>◌,
}
use backups_microservice.Repositories.{find_run, pins, update_run}

pub data CandidateOutcome : Type 0 where
  deleted pinned failed : CandidateOutcome

abbrev pub is_verifying : VerificationStatus → Bool
is_verifying VerificationStatus.verifying = true
is_verifying _ = false

abbrev pub is_verified : VerificationStatus → Bool
is_verified VerificationStatus.verified = true
is_verified _ = false

-- `storagePath === expectedPath ? objectName : null`, within the `try`.
own_object : Text → Text → Result Text → Option Text
own_object prefix path (err e) = none
own_object prefix path (ok object_name) =
    if text_eq path (logical_backup_storage_path prefix object_name) then some object_name else none

object_at : Text → Text → Option Text → Option Text
unfolding own_object
object_at prefix run_id none = none
object_at prefix run_id (some path) =
    if is_empty (trim path)
    then none
    else own_object prefix path (logical_backup_object_name run_id)

-- deterministicObject, which uses the prefix of the environment
unfoldable pub deterministic_object : Text → BackupRun → Option Text
unfolding object_at
deterministic_object prefix run = object_at prefix run.id run.storage_path

has_id : Text → BackupRun → Bool
has_id id run = text_eq run.id id

-- pinnedRunIds: the runs being verified, and those that an active request refers to
unfoldable pub pinned_run_ids : List BackupRun → List RestoreRequest → List Text
unfolding has_id
pinned_run_ids runs requests =
    map (λ r. r.id) (filter (λ r. is_verifying r.verification_status) runs)
    ++ map (λ q. q.backup_run_id) (filter (λ q. any (λ r. pins r.id q) runs) requests)

unfoldable pub set_has : List Text → Text → Bool
set_has ids id = any (λ i. text_eq i id) ids

-- `fresh.storage_path !== run.storage_path`
unfoldable pub same_path : Option Text → Option Text → Bool
same_path none none = true
same_path (some a) (some b) = text_eq a b
same_path _ _ = false

unfoldable pub clear_path : BackupRun → BackupRun
clear_path r = record r { storage_path = none }

module _ (ext : External) where
  -- The deletion of deleteExpiredObject, once nothing holds the run.
  unfoldable pub delete_object : WalgEnv → BackupRun → Text → Action CandidateOutcome
  unfolding clear_path
  delete_object env run object_name = do
    result ← delete_logical_object ext env object_name
    (if result.exit_code == 0
        then (do
          modify_db (λ db. record db { runs = update_run run.id clear_path db.runs })
          pure deleted)
        else pure failed)

  unfoldable pub judge_fresh :
      WalgEnv → BackupRun → Text → Option BackupRun → Bool → Action CandidateOutcome
  judge_fresh env run object_name none referenced = pure failed
  judge_fresh env run object_name (some fresh) referenced =
      if not (same_path fresh.storage_path run.storage_path)
      then pure pinned
      else if is_verifying fresh.verification_status
      then pure pinned
      else if referenced
      then pure pinned
      else delete_object env run object_name

  -- deleteExpiredObject, on the tables that the transaction sees
  unfoldable pub delete_expired_object : WalgEnv → BackupRun → Text → Action CandidateOutcome
  unfolding judge_fresh delete_object
  delete_expired_object env run object_name = do
    db ← gets (λ w. w.db)
    judge_fresh env run object_name (find_run run.id db.runs) (any (pins run.id) db.requests)

-- The runs that `cleanup` loads: the successful ones of the job, the last started first.
abbrev started_before : BackupRun → BackupRun → Bool
started_before a b = ltb a.started_at b.started_at

unfoldable pub insert_by_start : BackupRun → List BackupRun → List BackupRun
insert_by_start r [] = r ∷ []
insert_by_start r (s ∷ runs) =
    if started_before r s then s ∷ insert_by_start r runs else r ∷ s ∷ runs

unfoldable pub by_start : List BackupRun → List BackupRun
unfolding insert_by_start
by_start [] = []
by_start (r ∷ runs) = insert_by_start r (by_start runs)

unfoldable pub successful_runs : Text → List BackupRun → List BackupRun
unfolding by_start
successful_runs job_id runs =
    by_start (filter (λ r. text_eq r.job_id job_id && is_success r.status) runs)

anchor_of : BackupRun → Option Text → Option (BackupRun × Text) → Option (BackupRun × Text)
anchor_of run none later = later
anchor_of run (some object_name) later = some (run, object_name)

-- The loop for `newestVerified` and `anchorObject`.
unfoldable pub newest_verified : Text → List BackupRun → Option (BackupRun × Text)
unfolding anchor_of
newest_verified prefix [] = none
newest_verified prefix (run ∷ runs) =
    let later = newest_verified prefix runs in
    if is_verified run.verification_status
    then anchor_of run (deterministic_object prefix run) later
    else later

unfoldable pub retained_ids : ℕ → BackupRun → List BackupRun → List Text
retained_ids retain anchor runs = anchor.id ∷ map (λ r. r.id) (take retain runs)

unfoldable pub candidates_of : List Text → List BackupRun → List BackupRun
unfolding set_has
candidates_of retained runs =
    filter (λ r. not (set_has retained r.id) && truthy r.storage_path) runs

-- The counters of the loop.
pub record Tally : Type 0 where
  pub failures : List Text
  pub deleted_count : ℕ
  pub pinned_count : ℕ

unfoldable pub count_outcome : Text → CandidateOutcome → Tally → Tally
count_outcome id deleted t = record t { deleted_count = t.deleted_count + 1 }
count_outcome id pinned t = record t { pinned_count = t.pinned_count + 1 }
count_outcome id failed t = record t { failures = t.failures ++ id ∷ [] }

abbrev pub anchor_present : LogicalObjectProbe → Bool
anchor_present (present n) = true
anchor_present absent = false
anchor_present unprovable = false

module _ (ext : External) where
  try_candidate : WalgEnv → BackupRun → Option Text → Action CandidateOutcome
  try_candidate env run none = pure failed
  try_candidate env run (some object_name) =
      catch
        (ext.with_backup_run_lock CandidateOutcome run.id
          (delete_expired_object ext env run object_name))
        (λ e. pure failed)

  -- One round of the loop over the candidates.
  unfoldable pub clean_candidate : WalgEnv → List Text → BackupRun → Action CandidateOutcome
  unfolding try_candidate
  clean_candidate env pinned_ids run =
      if set_has pinned_ids run.id
      then pure pinned
      else try_candidate env run (deterministic_object env.walg_s3_prefix run)

  unfoldable pub clean_candidates : WalgEnv → List Text → List BackupRun → Tally → Action Tally
  clean_candidates env pinned_ids [] t = pure t
  clean_candidates env pinned_ids (run ∷ runs) t = do
    outcome ← clean_candidate env pinned_ids run
    clean_candidates env pinned_ids runs (count_outcome run.id outcome t)

  report : Text → List Text → Action (Unit {0})
  report name [] = notify (retention_cleanup_succeeded name)
  report name (id ∷ failures) = notify (retention_cleanup_failed name)

  unfoldable pub clean_with_anchor :
      BackupJob → WalgEnv → List BackupRun → BackupRun → Text → Action (Unit {0})
  unfolding report
  clean_with_anchor job env runs anchor anchor_object = do
    probe ← probe_logical_object ext env anchor_object
    (if anchor_present probe
        then (do
          requests ← gets (λ w. w.db.requests)
          let retained = retained_ids job.retention_full_count anchor runs
          tally ←
              clean_candidates env (pinned_run_ids runs requests) (candidates_of retained runs)
                (record { failures = []; deleted_count = 0; pinned_count = 0 })
          report job.name tally.failures)
        else pure tt)

  pub with_anchor :
      BackupJob → WalgEnv → List BackupRun → Option (BackupRun × Text) → Action (Unit {0})
  unfolding clean_with_anchor
  with_anchor job env runs none = pure tt
  with_anchor job env runs (some (anchor, object_name)) =
      clean_with_anchor job env runs anchor object_name

  unfoldable pub cleanup : BackupJob → WalgEnv → Action (Unit {0})
  unfolding with_anchor
  cleanup job env = do
    all_runs ← gets (λ w. w.db.runs)
    let runs = successful_runs job.id all_runs
    with_anchor job env runs (newest_verified env.walg_s3_prefix runs)
