-- ===== src/Restore/Addressing.antt =====
-- The object that `runExecution` of src/restore/restore.service.ts hands to wal-g.
use backups_microservice.Prelude.{
  ◌≡◌, refl, sym, ap, ◌∙◌, true, false, Option, some, [], ◌∷◌, ◌++◌, arith,
}
use backups_microservice.Js.{Text, text, is_empty, truthy, text_or_empty}
use backups_microservice.Errors
use backups_microservice.Errors.{Error, Result, ok, err, chain_ok}
use backups_microservice.Entities.{BackupRun, BackupTarget}
use backups_microservice.DatabaseName.{assert_safe_database_name}
use backups_microservice.Storage.{
  LogicalRestoreLocation, location_of, assert_restorable_run, assert_postgres_restore_target,
  logical_restore_location, required_path, restore_object_name,
}
use backups_microservice.Storage.RoundTrip.{restore_location_sound}
use backups_microservice.Walg.{env_for, build_env}
use backups_microservice.World.{WalgEnv, External}
use backups_microservice.Restore.Pin.{validate_restore}

then_ok :
    (m : Result (Unit {0})) {A : Type 0} (k : Result A) {a : A}
    → Errors.◌>>◌ m k ≡ ok a
    → (m ≡ ok tt) × (k ≡ ok a)
then_ok (ok t) k h = (refl, h)
then_ok (err e) k h = cc

location_nonempty :
    (path name : Text) {loc : LogicalRestoreLocation}
    → location_of path name ≡ ok loc
    → is_empty loc.storage_prefix ≡ false
unfolding location_of
location_nonempty path name {loc} h = ground arith

restore_location_nonempty :
    (run : BackupRun) {loc : LogicalRestoreLocation}
    → logical_restore_location run ≡ ok loc
    → is_empty loc.storage_prefix ≡ false
unfolding logical_restore_location
restore_location_nonempty run h =
    let (path, _, rest) = chain_ok (required_path run.storage_path) _ h in
    let (name, _, located) = chain_ok (restore_object_name run.id) _ rest in
    location_nonempty path name located

truthy-nonempty : (s : Text) → is_empty s ≡ false → truthy (some s) ≡ true
unfolding is_empty truthy
truthy-nonempty [] h = cc
truthy-nonempty (c ∷ s) h = refl

prefix-env_for :
    (ext : External) (prefix : Text) (target : BackupTarget) (password name : Text)
    → is_empty prefix ≡ false
    → (env_for ext (some prefix) target password name).walg_s3_prefix ≡ prefix
unfolding env_for text_or_empty
prefix-env_for ext prefix target password name h = rw (truthy-nonempty prefix h)

safe_for_any_subject :
    (name subject subject' : Text) {n : Text}
    → assert_safe_database_name name subject ≡ ok n
    → assert_safe_database_name name subject' ≡ ok name
unfolding assert_safe_database_name
safe_for_any_subject name subject subject' h = ground arith

target_name_safe :
    (target : BackupTarget)
    → assert_postgres_restore_target target ≡ ok tt
    → (n : Text) × (assert_safe_database_name target.database_name (text "Restore target") ≡ ok n)
unfolding assert_postgres_restore_target
target_name_safe target h = ground arith

build_env-ok :
    (ext : External) (prefix : Option Text) (target : BackupTarget) (password : Text)
    → assert_safe_database_name target.database_name (text "Target") ≡ ok target.database_name
    → build_env ext prefix target password
      ≡ ok (env_for ext prefix target password target.database_name)
unfolding build_env
build_env-ok ext prefix target password h = rw h

-- For a run and a target that pass validation, the environment of the restore is built, its prefix,
-- a slash and the object's name are the path that the run recorded, and its database is the
-- target's.
pub restore_addresses_recorded_object :
    (ext : External) (run : BackupRun) (target : BackupTarget) (password : Text)
    (loc : LogicalRestoreLocation)
    → validate_restore run target ≡ ok loc
    → (env : WalgEnv) × (build_env ext (some loc.storage_prefix) target password ≡ ok env)
      × (run.storage_path ≡ some (env.walg_s3_prefix ++ (text "/" ++ loc.object_name)))
      × (env.pg_database ≡ target.database_name)
unfolding validate_restore
restore_addresses_recorded_object ext run target password loc h =
    let (_, rest) = then_ok _ _ h in
    let (_, rest') = then_ok (assert_restorable_run run) _ rest in
    let (target_ok, located) = then_ok (assert_postgres_restore_target target) _ rest' in
    let (n, named) = target_name_safe target target_ok in
    let prefix =
      prefix-env_for ext loc.storage_prefix target password target.database_name
        (restore_location_nonempty run located) in
    (
      env_for ext (some loc.storage_prefix) target password target.database_name,
      build_env-ok ext (some loc.storage_prefix) target password
          (safe_for_any_subject target.database_name _ _ named),
      (restore_location_sound run located).0
          ∙ ap (λ p. some (p ++ (text "/" ++ loc.object_name))) (sym prefix),
      unfold env_for in refl,
    )
