-- ===== src/Retention/Spares.antt =====
-- The removals that the loop of `cleanup` (src/retention/retention.service.ts) hands to wal-g.
use backups_microservice.Prelude.{
  ◌≡◌, refl, subst, ap, ◌∙◌, Bool, true, false, ◌&&◌, not, Option, none, some, List, [], ◌∷◌, any,
  arith, Bool-cases, inl, inr,
}
use backups_microservice.Js.{Text, text, text_eq, is_empty, trim, truthy}
use backups_microservice.Js.Laws.{text_eq_iff, eq_of_text_eq}
use backups_microservice.Errors.{Result, ok, err}
use backups_microservice.Entities.{BackupRun, BackupJob}
use backups_microservice.Storage.{logical_backup_object_name, logical_backup_storage_path}
use backups_microservice.Storage.Names.{object_name-injective}
use backups_microservice.Walg.{
  delete_logical_object, probe_logical_object, reject_unsafe_object, run,
}
use backups_microservice.World.{World, WalgEnv, Command, wal_g, External, gets, LockRuns}
use backups_microservice.World.Keeps.{
  Keeps, Keeps-pure, Keeps-gets, Keeps-if, Keeps-bind, Keeps-catch, Keeps-lock,
}
use backups_microservice.Retention.{
  pinned, own_object, object_at, deterministic_object, judge_fresh, delete_object,
  delete_expired_object, retained_ids, candidates_of, set_has, try_candidate, clean_candidate,
  clean_candidates, clean_with_anchor, Tally, count_outcome, report, anchor_present, pinned_run_ids,
}

-- Whether a process is wal-g removing the object.
abbrev pub removes : Text → Command → Bool
removes o (wal_g env (a ∷ b ∷ c ∷ name ∷ [])) = text_eq b (text "rm") && text_eq name o
removes o _ = false

-- Whether wal-g has been told to remove the object.
abbrev pub removed : Text → World → Bool
removed o w = any (removes o) w.commands

-- The object of a run is its own: the name is the run's, and the run's path is the one of that name.
pub deterministic_object_sound :
    (prefix : Text) (r : BackupRun) {name : Text}
    → deterministic_object prefix r ≡ some name
    → (logical_backup_object_name r.id ≡ ok name)
      × (r.storage_path ≡ some (logical_backup_storage_path prefix name))
unfolding deterministic_object
deterministic_object_sound prefix r h = of_path r.storage_path refl h
  where
    of_name :
        (path : Text) (n : Result Text) {name : Text}
        → own_object prefix path n ≡ some name
        → (n ≡ ok name) × (path ≡ logical_backup_storage_path prefix name)
    of_name path (err e) h = cc
    of_name path (ok m) h = ground (arith, text_eq_iff path (logical_backup_storage_path prefix m))

    of_path :
        (p : Option Text)
        → r.storage_path ≡ p
        → {name : Text} → object_at prefix r.id p ≡ some name
        → (logical_backup_object_name r.id ≡ ok name)
          × (r.storage_path ≡ some (logical_backup_storage_path prefix name))
    of_path none e h = cc
    of_path (some path) e h = elim (Bool-cases (is_empty (trim path))) [
      | inl blank ↦ ground arith
      | inr full ↦
          let (named, at_path) = of_name path (logical_backup_object_name r.id) (rw full at h) in
          (named, e ∙ ap some at_path)
    ]

-- Whether the object has been removed stays as it is.
abbrev pub Same : Text → Bool → World → Type 0
Same o b w = removed o w ≡ b

module _ (ext : External) (o : Text) (b : Bool) where
  delete-Keeps :
      (env : WalgEnv) (name : Text)
      → text_eq name o ≡ false
      → Keeps (Same o b) (delete_logical_object ext env name)
  unfolding delete_logical_object reject_unsafe_object run
  delete-Keeps env name ne = record { at = λ w h. ground arith }

  probe-Keeps : (env : WalgEnv) (name : Text) → Keeps (Same o b) (probe_logical_object ext env name)
  unfolding probe_logical_object run
  probe-Keeps env name = record { at = λ w h. ground arith }

  delete_object-Keeps :
      (env : WalgEnv) (r : BackupRun) (name : Text)
      → text_eq name o ≡ false
      → Keeps (Same o b) (delete_object ext env r name)
  unfolding delete_object
  delete_object-Keeps env r name ne =
      Keeps-bind _ _ (delete-Keeps env name ne) (λ result. record { at = λ w h. ground arith })

  judge_fresh-Keeps :
      (env : WalgEnv) (r : BackupRun) (name : Text) (fresh : Option BackupRun) (referenced : Bool)
      → text_eq name o ≡ false
      → Keeps (Same o b) (judge_fresh ext env r name fresh referenced)
  unfolding judge_fresh
  judge_fresh-Keeps env r name none referenced ne = Keeps-pure _
  judge_fresh-Keeps env r name (some fresh) referenced ne = record {
    at = λ w h. ground (arith, (delete_object-Keeps env r name ne).at w h);
  }

  delete_expired-Keeps :
      (env : WalgEnv) (r : BackupRun) (name : Text)
      → text_eq name o ≡ false
      → Keeps (Same o b) (delete_expired_object ext env r name)
  delete_expired-Keeps env r name ne = record {
    at = λ w h. unfold delete_expired_object in ((judge_fresh-Keeps env r name _ _ ne).at w h);
  }

  try_candidate-Keeps :
      (lock : LockRuns ext) (env : WalgEnv) (r : BackupRun) (object : Option Text)
      → ((name : Text) → object ≡ some name → text_eq name o ≡ false)
      → Keeps (Same o b) (try_candidate ext env r object)
  unfolding try_candidate
  try_candidate-Keeps lock env r none ne = Keeps-pure _
  try_candidate-Keeps lock env r (some name) ne =
      Keeps-catch _ _
        (Keeps-lock (λ db w h. h) ext lock r.id _ (delete_expired-Keeps env r name (ne name refl)))
        (λ e. Keeps-pure _)

  clean_candidate-Keeps :
      (lock : LockRuns ext) (env : WalgEnv) (ids : List Text) (r : BackupRun)
      → ((name : Text)
          → deterministic_object env.walg_s3_prefix r ≡ some name
          → text_eq name o ≡ false)
      → Keeps (Same o b) (clean_candidate ext env ids r)
  unfolding clean_candidate
  clean_candidate-Keeps lock env ids r ne =
      Keeps-if (set_has ids r.id) _ _ (λ e. Keeps-pure pinned)
        (λ e. try_candidate-Keeps lock env r (deterministic_object env.walg_s3_prefix r) ne)

-- No candidate of the list has the object.
abbrev NoneHas : Text → Text → List BackupRun → Type 0
NoneHas prefix o [] = Unit
NoneHas prefix o (r ∷ rs) =
    ((name : Text) → deterministic_object prefix r ≡ some name → text_eq name o ≡ false)
    × NoneHas prefix o rs

module _ (ext : External) (o : Text) (b : Bool) where
  clean_candidates-Keeps :
      (lock : LockRuns ext) (env : WalgEnv) (ids : List Text) (rs : List BackupRun) (t : Tally)
      → NoneHas env.walg_s3_prefix o rs
      → Keeps (Same o b) (clean_candidates ext env ids rs t)
  unfolding clean_candidates
  clean_candidates-Keeps lock env ids [] t ne = Keeps-pure t
  clean_candidates-Keeps lock env ids (r ∷ rs) t ne =
      Keeps-bind (clean_candidate ext env ids r)
        (λ outcome. clean_candidates ext env ids rs (count_outcome r.id outcome t))
        (clean_candidate-Keeps ext o b lock env ids r ne.0)
        (λ outcome. clean_candidates-Keeps lock env ids rs (count_outcome r.id outcome t) ne.1)

  report-Keeps : (name : Text) (failures : List Text) → Keeps (Same o b) (report ext name failures)
  unfolding report
  report-Keeps name [] = record { at = λ w h. h }
  report-Keeps name (id ∷ failures) = record { at = λ w h. h }

-- A run that is not retained does not have the object of one that is.
other_object :
    (prefix o : Text) (kept : List Text) (id : Text) (r : BackupRun) (name : Text)
    → set_has kept id ≡ true
    → logical_backup_object_name id ≡ ok o
    → set_has kept r.id ≡ false
    → deterministic_object prefix r ≡ some name
    → text_eq name o ≡ false
other_object prefix o kept id r name h named other found = elim (Bool-cases (text_eq name o)) [
  | inr different ↦ different
  | inl same ↦
      let own : logical_backup_object_name r.id ≡ ok o =
        subst (λ n. logical_backup_object_name r.id ≡ ok n) (eq_of_text_eq name o same)
          (deterministic_object_sound prefix r found).0 in
      let e : r.id ≡ id = object_name-injective r.id id own named in cc (ap (set_has kept) e)
]

-- No candidate has the object of a retained run.
NoneHas-of_retained :
    (prefix o : Text) (kept : List Text) (id : Text) (rs : List BackupRun)
    → set_has kept id ≡ true
    → logical_backup_object_name id ≡ ok o
    → NoneHas prefix o (candidates_of kept rs)
unfolding candidates_of
NoneHas-of_retained prefix o kept id [] h named = tt
NoneHas-of_retained prefix o kept id (r ∷ rs) h named =
    elim (Bool-cases (not (set_has kept r.id) && truthy r.storage_path)) [
      | inr out ↦ rw out (NoneHas-of_retained prefix o kept id rs h named)
      | inl candidate ↦ rw candidate (
        (λ name found. other_object prefix o kept id r name h named (ground arith) found),
        NoneHas-of_retained prefix o kept id rs h named,
      )
    ]

module _ (ext : External) (o : Text) (b : Bool) where
  pub clean_with_anchor-Keeps :
      (lock : LockRuns ext) (job : BackupJob) (env : WalgEnv) (rs : List BackupRun)
      (anchor : BackupRun) (object_name : Text) (id : Text)
      → set_has (retained_ids job.retention_full_count anchor rs) id ≡ true
      → logical_backup_object_name id ≡ ok o
      → Keeps (Same o b) (clean_with_anchor ext job env rs anchor object_name)
  unfolding clean_with_anchor
  clean_with_anchor-Keeps lock job env rs anchor object_name id kept named =
      Keeps-bind (probe_logical_object ext env object_name) _ (probe-Keeps ext o b env object_name)
        (λ probe.
          Keeps-if (anchor_present probe) _ _
            (λ e. Keeps-bind (gets (λ w. w.db.requests)) _ (Keeps-gets _) (λ requests.
              Keeps-bind
                (clean_candidates ext env (pinned_run_ids rs requests) candidates zero_tally) _
                (clean_candidates-Keeps ext o b lock env (pinned_run_ids rs requests) candidates
                  zero_tally (NoneHas-of_retained env.walg_s3_prefix o _ id rs kept named))
                (λ tally. report-Keeps ext o b job.name tally.failures)))
            (λ e. Keeps-pure tt))
    where
      candidates : List BackupRun
      candidates = candidates_of (retained_ids job.retention_full_count anchor rs) rs

      zero_tally : Tally
      zero_tally = record { failures = []; deleted_count = 0; pinned_count = 0 }
