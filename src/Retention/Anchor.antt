-- ===== src/Retention/Anchor.antt =====
-- What the verified anchor of a `cleanup` of src/retention/retention.service.ts must be.
use backups_microservice.Prelude.{
  ◌≡◌, refl, ap, subst, ◌∙◌, ◌⊎◌, inl, inr, Bool, true, false, ◌&&◌, Option, none, some, List, [],
  ◌∷◌, ℕ, filter, arith, Bool-cases, All, All-map, &&_iff,
}
use mathlib.Core.List.{Mem, mem-cons_self, mem-cons_of_mem}
use backups_microservice.Js.{Text, text_eq}
use backups_microservice.Js.Laws.{eq_of_text_eq}
use backups_microservice.Errors.{ok}
use backups_microservice.Entities.{BackupRun, BackupRunStatus, VerificationStatus, BackupJob}
use backups_microservice.Storage.{
  is_success, is_logical_backup_object_name, logical_backup_object_name,
  logical_backup_storage_path,
}
use backups_microservice.Walg.{probe_logical_object, run}
use backups_microservice.Walg.Listing.{LogicalObjectProbe, present, absent, unprovable}
use backups_microservice.World.{World, WalgEnv, External, returned}
use backups_microservice.Retention.{
  is_verified, deterministic_object, started_before, insert_by_start, by_start, successful_runs,
  anchor_of, newest_verified, clean_with_anchor, with_anchor, cleanup, anchor_present,
}
use backups_microservice.Retention.Spares.{removed, deterministic_object_sound}

All-Mem : (rs : List BackupRun) → All (λ r. Mem r rs) rs
All-Mem [] = tt
All-Mem (r ∷ rs) = (mem-cons_self, All-map rs (λ s m. mem-cons_of_mem r m) (All-Mem rs))

All-passing :
    (Q : BackupRun → Type 0) (p : BackupRun → Bool) (rs : List BackupRun)
    → All Q rs
    → All (λ r. Q r × (p r ≡ true)) (filter p rs)
All-passing Q p [] h = tt
All-passing Q p (r ∷ rs) h = elim (Bool-cases (p r)) [
  | inl kept ↦ rw kept ((h.0, kept), All-passing Q p rs (h.1))
  | inr dropped ↦ rw dropped (All-passing Q p rs (h.1))
]

abbrev chosen_run : BackupRun → Option (BackupRun × Text) → BackupRun
chosen_run r none = r
chosen_run r (some (a, o)) = a

abbrev chosen_object : Text → Option (BackupRun × Text) → Text
chosen_object x none = x
chosen_object x (some (a, o)) = o

module _ (Q : BackupRun → Type 0) where
  All-insert : (r : BackupRun) (rs : List BackupRun) → Q r → All Q rs → All Q (insert_by_start r rs)
  unfolding insert_by_start
  All-insert r [] q h = (q, tt)
  All-insert r (s ∷ rs) q h = elim (Bool-cases (started_before r s)) [
    | inl earlier ↦ rw earlier (h.0, All-insert r rs q (h.1))
    | inr later ↦ rw later (q, h)
  ]

  All-by_start : (rs : List BackupRun) → All Q rs → All Q (by_start rs)
  unfolding by_start
  All-by_start [] h = tt
  All-by_start (r ∷ rs) h = All-insert r (by_start rs) (h.0) (All-by_start rs (h.1))

  -- A run that is chosen as the anchor, with its object.
  abbrev Chosen : Text → BackupRun → Text → Type 0
  Chosen prefix a o =
      Q a × (is_verified a.verification_status ≡ true) × (deterministic_object prefix a ≡ some o)

  newest_verified-Chosen :
      (prefix : Text) (rs : List BackupRun) (a : BackupRun) (o : Text)
      → All Q rs
      → newest_verified prefix rs ≡ some (a, o)
      → Chosen prefix a o
  unfolding newest_verified
  newest_verified-Chosen prefix [] a o h e = absurd (ground arith)
  newest_verified-Chosen prefix (r ∷ rs) a o h e =
      elim (Bool-cases (is_verified r.verification_status)) [
        | inr other ↦ newest_verified-Chosen prefix rs a o (h.1) (rw other at e)
        | inl verified ↦
            own (deterministic_object prefix r) verified refl
              (newest_verified-Chosen prefix rs a o (h.1)) (rw verified at e)
      ]
    where
      own :
          (found : Option Text)
          → is_verified r.verification_status ≡ true
          → deterministic_object prefix r ≡ found
          → (newest_verified prefix rs ≡ some (a, o) → Chosen prefix a o)
          → anchor_of r found (newest_verified prefix rs) ≡ some (a, o)
          → Chosen prefix a o
      own none v d later c = later c
      own (some x) v d later c =
          let same : r ≡ a = ap (chosen_run r) c in
          let object : x ≡ o = ap (chosen_object x) c in
          subst (λ y. Chosen prefix y o) same (h.0, v, d ∙ ap some object)

status_of_verified :
    (v : VerificationStatus) → is_verified v ≡ true → v ≡ VerificationStatus.verified
status_of_verified VerificationStatus.verified h = refl
status_of_verified VerificationStatus.unknown h = absurd (ground arith)
status_of_verified VerificationStatus.pending h = absurd (ground arith)
status_of_verified VerificationStatus.verifying h = absurd (ground arith)
status_of_verified VerificationStatus.failed h = absurd (ground arith)
status_of_verified VerificationStatus.skipped h = absurd (ground arith)

status_of_success : (v : BackupRunStatus) → is_success v ≡ true → v ≡ BackupRunStatus.success
status_of_success BackupRunStatus.success h = refl
status_of_success BackupRunStatus.running h = absurd (ground arith)
status_of_success BackupRunStatus.failed h = absurd (ground arith)
status_of_success BackupRunStatus.verifying h = absurd (ground arith)

module _ (ext : External) (job : BackupJob) (env : WalgEnv) (w : World) where
  -- A run that proves itself: it stands in the table as a successful run of the job, it is verified,
  -- its path is that of its own object, and the listing shows that object, with its size.
  pub record ProvenAnchor : Type 0 where
    pub anchor : BackupRun
    pub object_name : Text
    pub size : ℕ
    pub in_table : Mem anchor w.db.runs
    pub of_job : anchor.job_id ≡ job.id
    pub succeeded : anchor.status ≡ BackupRunStatus.success
    pub verified : anchor.verification_status ≡ VerificationStatus.verified
    pub own_name : logical_backup_object_name anchor.id ≡ ok object_name
    pub own_path :
        anchor.storage_path ≡ some (logical_backup_storage_path env.walg_s3_prefix object_name)
    pub listed : (probe_logical_object ext env object_name w).0 ≡ returned (present size)

  -- No object is removed, and the tables stay as they were.
  pub record DeferredIn (w' : World) : Type 0 where
    pub nothing_removed : (x : Text) → removed x w' ≡ removed x w
    pub same_tables : w'.db ≡ w.db

  probe_returns :
      (o : Text) → (p : LogicalObjectProbe) × ((probe_logical_object ext env o w).0 ≡ returned p)
  unfolding probe_logical_object run
  probe_returns o = elim (Bool-cases (is_logical_backup_object_name o)) [
    | inl named ↦ rw named (_, refl)
    | inr unnamed ↦ rw unnamed (_, refl)
  ]

  unproven_stops :
      (a : BackupRun) (o : Text) (rs : List BackupRun) (p : LogicalObjectProbe)
      → (probe_logical_object ext env o w).0 ≡ returned p
      → anchor_present p ≡ false
      → DeferredIn (clean_with_anchor ext job env rs a o w).1
  unfolding clean_with_anchor probe_logical_object run
  unproven_stops a o rs p h absent_object = record {
    nothing_removed = λ x. ground arith;
    same_tables = ground arith;
  }

  considered-All :
      All
        (λ r. (Mem r w.db.runs) × ((text_eq r.job_id job.id && is_success r.status) ≡ true))
        (successful_runs job.id w.db.runs)
  unfolding successful_runs
  considered-All =
      All-by_start _ _ (All-passing (λ r. Mem r w.db.runs) _ w.db.runs (All-Mem w.db.runs))

  with_anchor_cases :
      (found : Option (BackupRun × Text))
      → newest_verified env.walg_s3_prefix (successful_runs job.id w.db.runs) ≡ found
      → DeferredIn (with_anchor ext job env (successful_runs job.id w.db.runs) found w).1
        ⊎ ProvenAnchor
  unfolding with_anchor
  with_anchor_cases none e = inl (record { nothing_removed = λ x. refl; same_tables = refl })
  with_anchor_cases (some (a, o)) e = by_probe (probe_returns o).0 (probe_returns o).1
    where
      by_probe :
          (p : LogicalObjectProbe)
          → (probe_logical_object ext env o w).0 ≡ returned p
          → DeferredIn (clean_with_anchor ext job env (successful_runs job.id w.db.runs) a o w).1
            ⊎ ProvenAnchor
      by_probe absent h = inl (unproven_stops a o (successful_runs job.id w.db.runs) absent h refl)
      by_probe unprovable h =
          inl (unproven_stops a o (successful_runs job.id w.db.runs) unprovable h refl)
      by_probe (present n) h =
          let ((row, passes), verified, own) =
            newest_verified-Chosen _ env.walg_s3_prefix (successful_runs job.id w.db.runs) a o
              considered-All e in
          let (of_job, succeeded) = (&&_iff _ _).0 passes in
          let (named, at_path) = deterministic_object_sound env.walg_s3_prefix a own in
          inr (record {
            anchor = a;
            object_name = o;
            size = n;
            in_table = row;
            of_job = eq_of_text_eq a.job_id job.id of_job;
            succeeded = status_of_success a.status succeeded;
            verified = status_of_verified a.verification_status verified;
            own_name = named;
            own_path = at_path;
            listed = h;
          })

  -- Unless a run proves itself as the anchor, a cleanup hands wal-g no removal of any object and
  -- writes nothing to the tables: the run must stand in the table as a successful and verified run of
  -- the job, at the path of its own object, and the listing must show that object, with its size.
  pub unproven_anchor_defers : DeferredIn (cleanup ext job env w).1 ⊎ ProvenAnchor
  unfolding cleanup
  unproven_anchor_defers = with_anchor_cases _ refl
