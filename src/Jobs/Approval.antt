-- ===== src/Jobs/Approval.antt =====
-- The approval that `create` and `update` of src/jobs/jobs.service.ts store with a job.
use backups_microservice.Prelude.{
  ℕ, ◌≤◌, ◌<◌, ◌≡◌, refl, sym, ap, subst, ◌∙◌, ◌≢◌, false, Option, none, some, [], ◌∷◌, arith,
  length,
}
use backups_microservice.Js.{Text, text, is_empty, trim}
use backups_microservice.Js.Trimming.{trim_idem}
use backups_microservice.Errors.{Result, ok, err, Error}
use backups_microservice.Entities.{BackupJob}
use backups_microservice.World.{World, External, returned, lift, or_throw, ◌>>=◌, Action}
use backups_microservice.Repositories.{find_target, record_audit}
use backups_microservice.Schedule.{Schedule, resolve_schedule_policy}
use backups_microservice.Jobs.{
  JobDto, normalized, require_low_retention_approval, with_approval, with_schedule, store_job,
  audit_creation, audit_update, create_job, update_with, new_job, or_default, or_truthy, assign,
  approval_time, check_source, missing_target, schedule_input, merged_schedule_input,
}

-- An approval as a job stores it.
pub record IsApproved (job : BackupJob) : Type 0 where
  pub actor : Text
  pub reason : Text
  pub approved_at : ℕ
  pub actor_stored : job.retention_approval_actor ≡ some actor
  pub reason_stored : job.retention_approval_reason ≡ some reason
  pub time_stored : job.retention_approved_at ≡ some approved_at
  pub actor_given : actor ≢ []
  pub reason_long : 12 ≤ length reason

nonempty : (s : Text) → is_empty s ≡ false → s ≢ []
unfolding is_empty
nonempty [] h e = cc
nonempty (c ∷ s) h e = cc

approval_given :
    (count : ℕ) (actor reason : Option Text)
    → require_low_retention_approval count actor reason ≡ ok tt
    → count < 3
    → (normalized actor ≢ []) × (12 ≤ length (normalized reason))
unfolding require_low_retention_approval
approval_given count actor reason h few = ground (arith, nonempty (normalized actor))

with_approval-IsApproved :
    (actor reason : Text) (at : ℕ) (job : BackupJob)
    → job.retention_full_count < 3
    → actor ≢ []
    → 12 ≤ length reason
    → IsApproved (with_approval actor reason at job)
unfolding with_approval
with_approval-IsApproved actor reason at job few given long = record {
  actor = actor;
  reason = reason;
  approved_at = at;
  actor_stored = ground arith;
  reason_stored = ground arith;
  time_stored = ground arith;
  actor_given = given;
  reason_long = long;
}

count-with_approval :
    (actor reason : Text) (at : ℕ) (job : BackupJob)
    → (with_approval actor reason at job).retention_full_count ≡ job.retention_full_count
unfolding with_approval
count-with_approval actor reason at job = ground arith

count-new_job :
    (ext : External) (dto : JobDto) (target_id name : Text) (s : Schedule) (w : World)
    → (new_job ext dto target_id name s w).retention_full_count
      ≡ or_default dto.retention_full_count 7
unfolding new_job with_schedule
count-new_job ext dto target_id name s w = refl

count-updated :
    (dto : JobDto) (job : BackupJob) (s : Schedule)
    → (with_schedule s (assign dto job)).retention_full_count
      ≡ or_default dto.retention_full_count job.retention_full_count
unfolding with_schedule assign
count-updated dto job s = refl

normalized_again : (o : Option Text) → normalized (some (normalized o)) ≡ normalized o
unfolding normalized trim backups_microservice.Js.strip_end backups_microservice.Js.strip_start
normalized_again none = refl
normalized_again (some s) = trim_idem s

module _ {A B : Type 0} where
  lift_returns :
      (r : Result A) (k : A → Action B) (w w' : World) {b : B}
      → (lift r >>= k) w ≡ (returned b, w')
      → (a : A) × (r ≡ ok a) × (k a w ≡ (returned b, w'))
  lift_returns (ok a) k w w' h = (a, refl, h)
  lift_returns (err e) k w w' h = ground arith

  or_throw_returns :
      (e : Error) (o : Option A) (k : A → Action B) (w w' : World) {b : B}
      → (or_throw e o >>= k) w ≡ (returned b, w')
      → (a : A) × (o ≡ some a) × (k a w ≡ (returned b, w'))
  or_throw_returns e (some a) k w w' h = (a, refl, h)
  or_throw_returns e none k w w' h = ground arith

module _ (ext : External) (actor : Text) where
  audit_creation-same :
      (saved job : BackupJob) (w w' : World)
      → audit_creation ext actor saved w ≡ (returned job, w')
      → saved ≡ job
  unfolding audit_creation record_audit
  audit_creation-same saved job w w' h = ground arith

  audit_update-same :
      (approval_actor : Text) (previous : ℕ) (saved job : BackupJob) (w w' : World)
      → audit_update ext actor approval_actor previous saved w ≡ (returned job, w')
      → saved ≡ job
  unfolding audit_update record_audit
  audit_update-same approval_actor previous saved job w w' h = ground arith

  stored-IsApproved :
      (count at : ℕ) (who why : Option Text) (base job : BackupJob)
      → require_low_retention_approval count who why ≡ ok tt
      → base.retention_full_count ≡ count
      → with_approval (normalized who) (normalized why) at base ≡ job
      → job.retention_full_count < 3
      → IsApproved job
  stored-IsApproved count at who why base job checked same stored few =
      let few' =
        subst (λ n. n < 3)
          (sym (ap (λ (j : BackupJob). j.retention_full_count) stored)
            ∙ (count-with_approval (normalized who) (normalized why) at base ∙ same))
          few in
      let (given, long) = approval_given count who why checked few' in
      subst (λ j. IsApproved j) stored
        (with_approval-IsApproved (normalized who) (normalized why) at base
          (subst (λ n. n < 3) (sym same) few') given long)

  -- A job that is created with fewer than three full backups to keep has an approval stored with it: an
  -- actor, a reason of at least twelve characters, and a time.
  pub created_low_retention_approved :
      (dto : JobDto) (target_id name : Text) (job : BackupJob) (w w' : World)
      → create_job ext dto target_id name actor w ≡ (returned job, w')
      → job.retention_full_count < 3
      → IsApproved job
  unfolding create_job store_job
  created_low_retention_approved dto target_id name job w w' h few =
      let (target, found, h1) =
        or_throw_returns (missing_target target_id) (find_target target_id w.db.targets) _ w w' h in
      let (u, postgres, h2) = lift_returns (check_source target) _ w w' h1 in
      let (v, checked, h3) =
        lift_returns
          (require_low_retention_approval (or_default dto.retention_full_count 7)
            dto.retention_approval_actor dto.retention_approval_reason)
          _ w w' h2 in
      let (s, resolved, h4) =
        lift_returns (resolve_schedule_policy (schedule_input dto)) _ w w' h3 in
      stored-IsApproved (or_default dto.retention_full_count 7) (ext.now w)
        dto.retention_approval_actor dto.retention_approval_reason
        (new_job ext dto target_id name s w) job checked (count-new_job ext dto target_id name s w)
        (audit_creation-same _ job _ w' h4) few

  -- A job that is updated to keep, or that keeps, fewer than three full backups has an approval stored
  -- with it after the update: an actor, a reason of at least twelve characters, and a time.
  pub updated_low_retention_approved :
      (dto : JobDto) (job saved : BackupJob) (w w' : World)
      → update_with ext dto actor job w ≡ (returned saved, w')
      → saved.retention_full_count < 3
      → IsApproved saved
  unfolding update_with store_job
  updated_low_retention_approved dto job saved w w' h few =
      let who = normalized (or_truthy dto.retention_approval_actor job.retention_approval_actor) in
      let why =
        normalized (or_truthy dto.retention_approval_reason job.retention_approval_reason) in
      let (u, checked, h1) =
        lift_returns
          (require_low_retention_approval
            (or_default dto.retention_full_count job.retention_full_count) (some who) (some why))
          _ w w' h in
      let (s, resolved, h2) =
        lift_returns (resolve_schedule_policy (merged_schedule_input job dto)) _ w w' h1 in
      stored-IsApproved (or_default dto.retention_full_count job.retention_full_count)
        (approval_time dto (ext.now w) job.retention_approved_at) (some who) (some why)
        (with_schedule s (assign dto job)) saved checked (count-updated dto job s)
        (rw
          (
            normalized_again (or_truthy dto.retention_approval_actor job.retention_approval_actor),
            normalized_again
                (or_truthy dto.retention_approval_reason job.retention_approval_reason),
          )
          (audit_update-same who job.retention_full_count _ saved _ w' h2))
        few
