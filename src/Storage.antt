-- ===== src/Storage.antt =====
-- The names and paths of backup objects: the functions at the top of
-- src/backup/walg-wrapper.service.ts, and src/restore/restore-execution.ts.
pub mod Names
pub mod RoundTrip
use backups_microservice.Prelude.{
  ℕ, ◌-◌, Bool, true, false, ◌&&◌, ◌||◌, not, List, [], ◌∷◌, ◌++◌, Option, none, some, ◌==◌, leb,
  length, drop, if◌then◌else◌,
}
use backups_microservice.Js.{
  Text, text, text_eq, is_empty, starts_with, ends_with, slice_before, strip_start, strip_end,
  matches, truthy,
}
use backups_microservice.Errors.{Error, bad_request, plain, Result, ok, err, ◌>>=◌, ◌>>◌, throw_if}
use backups_microservice.Entities.{
  BackupRun, BackupRunStatus, BackupTarget, SourceCategory, postgres_database,
}
use backups_microservice.DatabaseName.{assert_safe_database_name}

abbrev pub Pattern : Type 0
Pattern = List (ℕ → Bool)

-- Classes under the flag `i`, where a letter stands for both its cases.
unfoldable pub hex : ℕ → Bool
hex c = (leb b'0' c && leb c b'9') || (leb b'a' c && leb c b'f') || (leb b'A' c && leb c b'F')

unfoldable pub version_digit : ℕ → Bool
version_digit c = leb b'1' c && leb c b'5'

unfoldable pub variant_digit : ℕ → Bool
variant_digit c = c == b'8' || c == b'9' || c == b'a' || c == b'b' || c == b'A' || c == b'B'

-- A letter or a mark of the pattern itself, `x` being in lower case.
unfoldable pub literal_i : ℕ → ℕ → Bool
literal_i x c = c == x || (leb b'a' x && leb x b'z' && c == x - 32)

unfoldable pub literals : Text → Pattern
literals [] = []
literals (x ∷ s) = literal_i x ∷ literals s

abbrev hex3 : Pattern → Pattern
hex3 rest = hex ∷ hex ∷ hex ∷ rest

abbrev hex4 : Pattern → Pattern
hex4 rest = hex ∷ hex3 rest

abbrev dash : Pattern → Pattern
dash rest = literal_i b'-' ∷ rest

-- UUID_SOURCE and UUID_PATTERN
unfoldable pub uuid_pattern : Pattern
uuid_pattern = hex4 (
    hex4 (
      dash (
        hex4 (
          dash
            (version_digit ∷ hex3 (dash (variant_digit ∷ hex3 (dash (hex4 (hex4 (hex4 [])))))))))))

-- LOGICAL_OBJECT_PATTERN
unfoldable pub logical_object_pattern : Pattern
logical_object_pattern = literals (text "logical/") ++ (uuid_pattern ++ literals (text ".dump"))

unfoldable pub logical_backup_object_name : Text → Result Text
logical_backup_object_name run_id =
    if matches uuid_pattern run_id
    then ok (text "logical/" ++ (run_id ++ text ".dump"))
    else err (plain (text "Invalid backup run ID for logical backup object."))

unfoldable pub is_logical_backup_object_name : Text → Bool
is_logical_backup_object_name object_name = matches logical_object_pattern object_name

unfoldable pub assert_logical_backup_object_name : Text → Result Text
assert_logical_backup_object_name object_name =
    if is_logical_backup_object_name object_name
    then ok object_name
    else err (plain (text "Refusing to address a non-deterministic logical backup object."))

unfoldable pub is_slash : ℕ → Bool
is_slash c = c == b'/'

unfoldable pub logical_backup_storage_path : Text → Text → Text
logical_backup_storage_path prefix object_name =
    strip_end is_slash prefix ++ (text "/" ++ strip_start is_slash object_name)

-- `s.includes('..')`
unfoldable pub has_dots : Text → Bool
has_dots [] = false
has_dots (c ∷ s) = (c == b'.' && starts_with (text ".") s) || has_dots s

unfoldable pub relative_storage_object : Text → Text → Result Text
relative_storage_object prefix storage_path =
    let expected_start = strip_end is_slash prefix ++ text "/" in
    let object_name = drop (length expected_start) storage_path in
    do
      throw_if (not (starts_with expected_start storage_path))
          (plain (text "Backup storage path is outside the configured job prefix."))
      throw_if (is_empty object_name || has_dots object_name)
          (plain (text "Backup storage object path is invalid."))
      ok object_name

-- LogicalRestoreLocation
pub record LogicalRestoreLocation : Type 0 where
  pub storage_prefix : Text
  pub object_name : Text

-- The part of `logicalRestoreLocation` below the computation of the object's name.
unfoldable pub location_of : Text → Text → Result LogicalRestoreLocation
location_of storage_path object_name =
    let suffix = text "/" ++ object_name in
    let storage_prefix = slice_before (length suffix) storage_path in
    do
      throw_if
          (not (starts_with (text "s3://") storage_path) || not (ends_with suffix storage_path))
          (bad_request
            (text "Backup run storage path does not match its deterministic logical object."))
      throw_if (is_empty storage_prefix)
          (bad_request (text "Backup run storage prefix is invalid."))
      ok (record { storage_prefix = storage_prefix; object_name = object_name })

-- The `try` around `logicalBackupObjectName`.
unfoldable pub restore_object_name : Text → Result Text
restore_object_name run_id = elim (logical_backup_object_name run_id) [
  | ok name ↦ ok name
  | err e ↦ err (bad_request (text "Backup run ID is invalid for logical restore."))
]

-- `if (!run.storage_path) throw`, which takes a missing and an empty path alike.
unfoldable pub required_path : Option Text → Result Text
required_path (some (c ∷ s)) = ok (c ∷ s)
required_path _ = err (bad_request (text "Backup run has no logical backup object path."))

unfoldable pub logical_restore_location : BackupRun → Result LogicalRestoreLocation
logical_restore_location run = do
  storage_path ← required_path run.storage_path
  object_name ← restore_object_name run.id
  location_of storage_path object_name

-- `target.source_category || SourceCategory.POSTGRES_DATABASE`
unfoldable pub is_postgres : Option SourceCategory → Bool
is_postgres none = true
is_postgres (some postgres_database) = true
is_postgres (some _) = false

unfoldable pub assert_postgres_restore_target : BackupTarget → Result (Unit {0})
assert_postgres_restore_target target = do
  throw_if (not (is_postgres target.source_category))
      (bad_request (text "Restore execution is only implemented for postgres_database targets."))
  throw_if (is_empty target.database_name)
      (bad_request (text "PostgreSQL restore target database is required."))
  assert_safe_database_name target.database_name (text "Restore target")
  ok tt

abbrev pub is_success : BackupRunStatus → Bool
is_success BackupRunStatus.success = true
is_success _ = false

unfoldable pub assert_restorable_run : BackupRun → Result (Unit {0})
assert_restorable_run run =
    throw_if (not (is_success run.status))
      (bad_request (text "Only successful backup runs can be restored."))
