-- ===== src/Storage/RoundTrip.antt =====
-- The path that src/backup/walg-wrapper.service.ts writes and src/restore/restore-execution.ts reads.
use backups_microservice.Prelude.{
  ◌≡◌, refl, sym, ap, subst, ◌∙◌, true, false, [], ◌∷◌, ◌++◌, Option, none, some, arith, inl, inr,
  Bool-cases,
}
use backups_microservice.Js.{Text, text, is_empty, starts_with, ends_with, strip_end}
use backups_microservice.Js.Laws.{
  starts_with-append_left, ends_with-append, slice_before-append, append_of_ends_with,
}
use backups_microservice.Errors.{ok, chain_ok}
use backups_microservice.Entities.{BackupRun}
use backups_microservice.Storage.{
  LogicalRestoreLocation, logical_backup_object_name, logical_backup_storage_path, is_slash,
  location_of, restore_object_name, required_path, logical_restore_location,
  is_logical_backup_object_name,
}
use backups_microservice.Storage.Names.{strip_start-object_name, object_name_accepted}

s3-nonempty : (s : Text) → starts_with (text "s3://") s ≡ true → is_empty s ≡ false
unfolding starts_with text is_empty
s3-nonempty [] h = cc
s3-nonempty (c ∷ s) h = refl

required_path-some : (p : Text) → is_empty p ≡ false → required_path (some p) ≡ ok p
unfolding required_path is_empty
required_path-some [] h = cc
required_path-some (c ∷ p) h = refl

restore_object_name-ok :
    (run_id : Text) {name : Text}
    → logical_backup_object_name run_id ≡ ok name
    → restore_object_name run_id ≡ ok name
unfolding restore_object_name
restore_object_name-ok run_id h = rw (h, restore_object_name)

path_nonempty : (p name : Text) → is_empty (p ++ (text "/" ++ name)) ≡ false
unfolding is_empty text
path_nonempty [] name = refl
path_nonempty (c ∷ p) name = refl

location_of_path :
    (prefix name : Text)
    → starts_with (text "s3://") prefix ≡ true
    → location_of (prefix ++ (text "/" ++ name)) name
      ≡ ok (record { storage_prefix = prefix; object_name = name })
unfolding location_of
location_of_path prefix name h = rw (
  starts_with-append_left (text "s3://") prefix (text "/" ++ name) h,
  ends_with-append prefix (text "/" ++ name),
  slice_before-append prefix (text "/" ++ name),
  s3-nonempty prefix h,
)

-- A run whose recorded path is the one that a backup under `prefix` writes is located at that
-- prefix, without its trailing slashes, and at the run's own object, if the prefix is an s3 one.
pub restore_locates_backup :
    (run : BackupRun) (prefix name : Text)
    → logical_backup_object_name run.id ≡ ok name
    → run.storage_path ≡ some (logical_backup_storage_path prefix name)
    → starts_with (text "s3://") (strip_end is_slash prefix) ≡ true
    → logical_restore_location run
      ≡ ok (record { storage_prefix = strip_end is_slash prefix; object_name = name })
unfolding logical_restore_location logical_backup_storage_path
restore_locates_backup run prefix name named stored s3 =
    rw
      (
        stored,
        strip_start-object_name run.id named,
        required_path-some (strip_end is_slash prefix ++ (text "/" ++ name))
            (path_nonempty (strip_end is_slash prefix) name),
        restore_object_name-ok run.id named,
      )
      (location_of_path (strip_end is_slash prefix) name s3)

required_path_inv : (o : Option Text) {p : Text} → required_path o ≡ ok p → o ≡ some p
unfolding required_path
required_path_inv none h = cc
required_path_inv (some []) h = cc
required_path_inv (some (c ∷ s)) h = cc

restore_object_name_inv :
    (run_id : Text) {name : Text}
    → restore_object_name run_id ≡ ok name
    → logical_backup_object_name run_id ≡ ok name
unfolding restore_object_name
restore_object_name_inv run_id h = ground arith

location_of_inv :
    (path name : Text) {loc : LogicalRestoreLocation}
    → location_of path name ≡ ok loc
    → (loc.storage_prefix ++ (text "/" ++ loc.object_name) ≡ path) × (name ≡ loc.object_name)
unfolding location_of
location_of_inv path name {loc} h = elim (Bool-cases (ends_with (text "/" ++ name) path)) [
  | inl e ↦ let whole = append_of_ends_with (text "/" ++ name) path e in ground arith
  | inr e ↦ ground arith
]

-- A location that a restore reads from a run names the run's own object, which passes the test of
-- object names, and its prefix, a slash and that name are the recorded path.
pub restore_location_sound :
    (run : BackupRun) {loc : LogicalRestoreLocation}
    → logical_restore_location run ≡ ok loc
    → (run.storage_path ≡ some (loc.storage_prefix ++ (text "/" ++ loc.object_name)))
      × (logical_backup_object_name run.id ≡ ok loc.object_name)
      × (is_logical_backup_object_name loc.object_name ≡ true)
unfolding logical_restore_location
restore_location_sound run {loc} h =
    let (path, at_path, rest) = chain_ok (required_path run.storage_path) _ h in
    let (name, named, located) = chain_ok (restore_object_name run.id) _ rest in
    let (e, n) = location_of_inv path name located in
    let id_named =
      subst (λ x. logical_backup_object_name run.id ≡ ok x) n
        (restore_object_name_inv run.id named) in
    (
      required_path_inv run.storage_path at_path ∙ ap some (sym e),
      id_named,
      (object_name_accepted run.id id_named).2,
    )
