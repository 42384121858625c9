-- ===== src/Examples/Storing.antt =====
-- Names of databases and objects, and a run that was backed up.
use backups_microservice.Prelude.{◌≡◌, refl, true, ◌++◌, none, some, ◌↔◌}
use backups_microservice.Js.{Text, text, matches, strip_end, strip_start, starts_with}
use backups_microservice.Errors.{ok}
use backups_microservice.DatabaseName.{database_name_violation}
use backups_microservice.DatabaseName.Safety.{IsSafeName, accepts_iff_safe}
use backups_microservice.Storage.{
  logical_backup_object_name, logical_backup_storage_path, logical_restore_location,
  is_logical_backup_object_name, uuid_pattern, is_slash, LogicalRestoreLocation, required_path,
  restore_object_name, location_of,
}
use backups_microservice.Storage.RoundTrip.{restore_locates_backup, restore_location_sound}
use backups_microservice.Examples.Fixtures.{old_id, old_object, old_run, prefix}

accepts_iff_safe_example :
    (database_name_violation (some (text "orders")) ≡ none) ↔ IsSafeName (text "orders")
accepts_iff_safe_example = accepts_iff_safe (text "orders")

abbrev location : LogicalRestoreLocation
location = record { storage_prefix = prefix; object_name = old_object }

named : logical_backup_object_name old_id ≡ ok old_object
unfolding logical_backup_object_name text matches uuid_pattern backups_microservice.Storage.hex
    backups_microservice.Storage.literal_i backups_microservice.Storage.version_digit
    backups_microservice.Storage.variant_digit
named = refl

restore_locates_backup_example :
    logical_restore_location old_run
    ≡ ok (record { storage_prefix = strip_end is_slash prefix; object_name = old_object })
unfolding logical_backup_storage_path text starts_with strip_end is_slash strip_start
restore_locates_backup_example = restore_locates_backup old_run prefix old_object named refl refl

restore_location_sound_example :
    (old_run.storage_path ≡ some (prefix ++ (text "/" ++ old_object)))
    × (logical_backup_object_name old_id ≡ ok old_object)
    × (is_logical_backup_object_name old_object ≡ true)
unfolding logical_restore_location text required_path restore_object_name logical_backup_object_name
    matches uuid_pattern backups_microservice.Storage.hex backups_microservice.Storage.literal_i
    backups_microservice.Storage.version_digit backups_microservice.Storage.variant_digit
    location_of starts_with backups_microservice.Js.ends_with backups_microservice.Js.is_empty
    backups_microservice.Js.slice_before
restore_location_sound_example = restore_location_sound old_run {loc = location} refl
