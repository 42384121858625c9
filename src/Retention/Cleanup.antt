-- ===== src/Retention/Cleanup.antt =====
-- The removals of a whole `cleanup` of src/retention/retention.service.ts.
use backups_microservice.Prelude.{
  ℕ, ◌≡◌, refl, ◌⊎◌, inl, inr, ap, sym, subst, ◌∙◌, true, ◌||◌, Option, none, some, List, [], ◌∷◌,
  any, take, map, arith,
}
use backups_microservice.Js.{Text, text_eq}
use backups_microservice.Js.Laws.{text_eq_refl}
use backups_microservice.Errors.{ok}
use backups_microservice.Entities.{BackupRun, BackupJob}
use backups_microservice.Storage.{logical_backup_object_name}
use backups_microservice.World.{World, WalgEnv, External, LockRuns}
use backups_microservice.Retention.{
  newest_verified, retained_ids, set_has, successful_runs, with_anchor, cleanup,
}
use backups_microservice.Retention.Spares.{removed, clean_with_anchor-Keeps}

-- The runs that the cleanup of a job considers.
abbrev pub considered : BackupJob → World → List BackupRun
considered job w = successful_runs job.id w.db.runs

-- The run is one of the newest that the job retains, or the verified anchor.
abbrev pub IsRetained : BackupJob → WalgEnv → World → Text → Text → Type 0
IsRetained job env w id o =
    (any (λ r. text_eq r.id id) (take job.retention_full_count (considered job w)) ≡ true)
    ⊎ ((anchor : BackupRun) × (newest_verified env.walg_s3_prefix (considered job w)
          ≡ some (anchor, o))
        × (anchor.id ≡ id))

any-map_id :
    (id : Text) (rs : List BackupRun)
    → any (λ i. text_eq i id) (map (λ (r : BackupRun). r.id) rs) ≡ any (λ r. text_eq r.id id) rs
any-map_id id [] = refl
any-map_id id (r ∷ rs) = ap (λ b. text_eq r.id id || b) (any-map_id id rs)

retained_newest :
    (n : ℕ) (anchor : BackupRun) (rs : List BackupRun) (id : Text)
    → any (λ r. text_eq r.id id) (take n rs) ≡ true
    → set_has (retained_ids n anchor rs) id ≡ true
unfolding retained_ids set_has
retained_newest n anchor rs id h = ground (arith, any-map_id id (take n rs))

retained_anchor :
    (n : ℕ) (anchor : BackupRun) (rs : List BackupRun)
    → set_has (retained_ids n anchor rs) anchor.id ≡ true
unfolding retained_ids set_has
retained_anchor n anchor rs = ground (arith, text_eq_refl anchor.id)

abbrev anchor_id : Text → Option (BackupRun × Text) → Text
anchor_id id none = id
anchor_id id (some (a, o)) = a.id

module _ (ext : External) (lock : LockRuns ext) (job : BackupJob) (env : WalgEnv) where
  with_anchor-spares :
      (id o : Text) (w : World) (found : Option (BackupRun × Text))
      → newest_verified env.walg_s3_prefix (considered job w) ≡ found
      → IsRetained job env w id o
      → logical_backup_object_name id ≡ ok o
      → removed o (with_anchor ext job env (considered job w) found w).1 ≡ removed o w
  unfolding with_anchor
  with_anchor-spares id o w none e h named = refl
  with_anchor-spares id o w (some (anchor, x)) e h named =
      (clean_with_anchor-Keeps ext o (removed o w) lock job env (considered job w) anchor x id
          (kept h) named).at
        w refl
    where
      kept :
          IsRetained job env w id o
          → set_has (retained_ids job.retention_full_count anchor (considered job w)) id ≡ true
      kept (inl newest) =
          retained_newest job.retention_full_count anchor (considered job w) id newest
      kept (inr (a, found', same)) =
          subst
            (λ i.
              set_has (retained_ids job.retention_full_count anchor (considered job w)) i ≡ true)
            (ap (anchor_id id) (sym e ∙ found') ∙ same)
            (retained_anchor job.retention_full_count anchor (considered job w))

  -- A cleanup never hands wal-g the removal of an object of the newest runs that the job retains, nor
  -- of the verified anchor, whatever the tables are when a lock is granted.
  pub cleanup_spares_retained :
      (id o : Text) (w : World)
      → IsRetained job env w id o
      → logical_backup_object_name id ≡ ok o
      → removed o (cleanup ext job env w).1 ≡ removed o w
  unfolding cleanup
  cleanup_spares_retained id o w h named =
      with_anchor-spares id o w (newest_verified env.walg_s3_prefix (considered job w)) refl h named
