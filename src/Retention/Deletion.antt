-- ===== src/Retention/Deletion.antt =====
-- The branches of `deleteExpiredObject` of src/retention/retention.service.ts.
use backups_microservice.Prelude.{
  ◌≡◌, inl, inr, Bool, true, false, Option, none, some, [], ◌∷◌, any, arith, Bool-cases, refl, ◌⊎◌,
}
use backups_microservice.Js.{Text, text}
use backups_microservice.Entities.{BackupRun}
use backups_microservice.Walg.{delete_logical_object, reject_unsafe_object, run}
use backups_microservice.Storage.{is_logical_backup_object_name}
use backups_microservice.World.{World, WalgEnv, Command, wal_g, External, Outcome, returned}
use backups_microservice.Repositories.{find_run, pins, update_run}
use backups_microservice.Retention.{
  CandidateOutcome, deleted, pinned, failed, is_verifying, same_path, clear_path, delete_object,
  judge_fresh, delete_expired_object,
}

abbrev pub removal : WalgEnv → Text → Command
removal env object_name = wal_g env (text "st" ∷ text "rm" ∷ text "--glob" ∷ object_name ∷ [])

module _ (ext : External) (env : WalgEnv) (r : BackupRun) (object_name : Text) (w : World) where
  -- What must hold of the tables for a deletion.
  pub record Deletable : Type 0 where
    pub fresh : BackupRun
    pub found : find_run r.id w.db.runs ≡ some fresh
    pub path_unchanged : same_path fresh.storage_path r.storage_path ≡ true
    pub not_verifying : is_verifying fresh.verification_status ≡ false
    pub unreferenced : any (pins r.id) w.db.requests ≡ false
    pub own_name : is_logical_backup_object_name object_name ≡ true

  -- What an action that removes nothing leaves: the tables as they were, no process started, and an
  -- outcome that is no deletion.
  pub record SparedIn (o : Outcome CandidateOutcome) (w' : World) : Type 0 where
    pub same_tables : w'.db ≡ w.db
    pub same_commands : w'.commands ≡ w.commands
    pub declined : (o ≡ returned pinned) ⊎ (o ≡ returned failed)

  -- What a removal leaves: one command handed to wal-g, and the path cleared where it succeeded.
  pub record RemovedIn (o : Outcome CandidateOutcome) (w' : World) : Type 0 where
    pub one_removal : w'.commands ≡ removal env object_name ∷ w.commands
    pub path_cleared :
        ((o ≡ returned deleted)
          × (w'.db ≡ record w.db { runs = update_run r.id clear_path w.db.runs }))
        ⊎ ((o ≡ returned failed) × (w'.db ≡ w.db))

  delete_object_cases :
      SparedIn (delete_object ext env r object_name w).0 (delete_object ext env r object_name w).1
      ⊎ ((is_logical_backup_object_name object_name ≡ true)
          × RemovedIn
              (delete_object ext env r object_name w).0
              (delete_object ext env r object_name w).1)
  unfolding delete_object delete_logical_object reject_unsafe_object run
  delete_object_cases = elim (Bool-cases (is_logical_backup_object_name object_name)) [
    | inl named ↦ inr (ground (arith, named))
    | inr unnamed ↦ inl (ground (arith, unnamed))
  ]

  abbrev Judged : Option BackupRun → Bool → Type 0
  Judged found referenced =
      let (o, w') = judge_fresh ext env r object_name found referenced w in
      SparedIn o w'
      ⊎ ((fresh : BackupRun) × (found ≡ some fresh)
          × (same_path fresh.storage_path r.storage_path ≡ true)
          × (is_verifying fresh.verification_status ≡ false)
          × (referenced ≡ false)
          × (is_logical_backup_object_name object_name ≡ true)
          × RemovedIn o w')

  judge_fresh_cases : (found : Option BackupRun) (referenced : Bool) → Judged found referenced
  unfolding judge_fresh
  judge_fresh_cases none referenced = inl (ground arith)
  judge_fresh_cases (some fresh) true = inl (
      ground (
        arith,
        Bool-cases (is_verifying fresh.verification_status),
        Bool-cases (same_path fresh.storage_path r.storage_path),
      ))
  judge_fresh_cases (some fresh) false =
      elim (Bool-cases (same_path fresh.storage_path r.storage_path)) [
        | inr moved ↦ inl (ground (arith, moved))
        | inl same ↦ elim (Bool-cases (is_verifying fresh.verification_status)) [
          | inl busy ↦ inl (ground (arith, same, busy))
          | inr idle ↦
              rw (same, idle)
                (elim delete_object_cases [
                  | inl spared ↦ inl spared
                  | inr (named, removed) ↦ inr (fresh, refl, same, idle, refl, named, removed)
                ])
        ]
      ]

  -- The deletion of an object either hands wal-g nothing, leaves the tables as they were and gives no
  -- deletion; or it hands wal-g one removal of exactly that object, whose name passes the test of
  -- object names, and clears the run's path where the removal succeeds, and nothing else. The second
  -- happens only if the run's row is still there with the path that the scan saw, is not being
  -- verified, and no active restore request refers to it.
  pub deletion_guarded :
      SparedIn
        (delete_expired_object ext env r object_name w).0
        (delete_expired_object ext env r object_name w).1
      ⊎ (Deletable
          × RemovedIn
              (delete_expired_object ext env r object_name w).0
              (delete_expired_object ext env r object_name w).1)
  unfolding delete_expired_object
  deletion_guarded =
      elim (judge_fresh_cases (find_run r.id w.db.runs) (any (pins r.id) w.db.requests)) [
        | inl spared ↦ inl spared
        | inr (fresh, found, path, idle, free, named, removed) ↦ inr (
          record {
            fresh = fresh;
            found = found;
            path_unchanged = path;
            not_verifying = idle;
            unreferenced = free;
            own_name = named;
          },
          removed,
        )
      ]
