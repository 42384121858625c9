-- ===== src/Examples/Starting.antt =====
-- A start whose check finds both indexes.
use backups_microservice.Prelude.{refl, true, some, []}
use backups_microservice.Js.{Text, text, text_eq}
use backups_microservice.World.{World, returned, Action, modify_db}
use backups_microservice.Restore.Pin.{create, new_request}
use backups_microservice.Restore.Key.{restore_idempotency_key}
use backups_microservice.Readiness.{
  bool, str, num, CheckRow, Answer, rows, unverified, verify_restore_serialization, apply,
  alignment,
}
use backups_microservice.Readiness.Gate.{FoundBoth, started_accepts_only_if_found}
use backups_microservice.Examples.Fixtures.{ext, dto, world_with}

abbrev row : CheckRow
row = record {
  installed = bool true;
  idempotency_installed = str (text "t");
  duplicate_targets = some 0;
}

abbrev check : World → Answer
check w = rows (some row)

abbrev w : World
w = record (world_with []) { serialization = unverified }

-- The alignment installs the two indexes.
abbrev align : Action (Unit {0})
align = modify_db (λ db. record db { active_target_index = true; idempotency_index = true })

abbrev started : World
started = (apply ext check align w).1

abbrev accepted : World
accepted = (create ext dto (text "ops") started).1

started_accepts_only_if_found_example : FoundBoth (check (alignment ext check align w).1)
unfolding apply create backups_microservice.Restore.Pin.check_approval
    backups_microservice.Js.is_empty backups_microservice.Restore.Key.clean
    backups_microservice.Js.trim backups_microservice.Js.strip_end
    backups_microservice.Js.strip_start backups_microservice.Js.is_space
    backups_microservice.Restore.Pin.assert_restore_serialization_ready
    backups_microservice.Repositories.find_by_key backups_microservice.Repositories.load_run
    backups_microservice.Repositories.find_run backups_microservice.Repositories.load_target
    backups_microservice.Repositories.find_target backups_microservice.Restore.Pin.validate_restore
    backups_microservice.Restore.Pin.target_mismatch
    backups_microservice.DatabaseName.assert_safe_database_name
    backups_microservice.DatabaseName.database_name_pattern
    backups_microservice.DatabaseName.database_name_violation
    backups_microservice.DatabaseName.is_name_char backups_microservice.DatabaseName.is_word
    backups_microservice.DatabaseName.rejection backups_microservice.DatabaseName.violation_message
    backups_microservice.DatabaseName.whitespace_or_control backups_microservice.Js.decimal
    backups_microservice.Js.decimal_from backups_microservice.Js.ends_with
    backups_microservice.Js.field_eq backups_microservice.Js.includes
    backups_microservice.Js.matches backups_microservice.Js.slice_before
    backups_microservice.Js.starts_with text text_eq backups_microservice.Js.truthy alignment
    backups_microservice.Readiness.is_set backups_microservice.Readiness.observe
    backups_microservice.Readiness.state_of backups_microservice.Readiness.unready_reason
    verify_restore_serialization backups_microservice.Repositories.audit_row
    backups_microservice.Repositories.find_active backups_microservice.Repositories.insert_request
    backups_microservice.Repositories.is_active backups_microservice.Repositories.or_null
    backups_microservice.Repositories.record_audit backups_microservice.Repositories.violates_active
    backups_microservice.Repositories.violates_key backups_microservice.Restore.Key.json_array
    backups_microservice.Restore.Key.json_string backups_microservice.Restore.Key.key_payload
    backups_microservice.Restore.Key.restore_idempotency_key
    backups_microservice.Restore.Pin.assert_replay_matches
    backups_microservice.Restore.Pin.create_pin backups_microservice.Restore.Pin.create_pin_work
    backups_microservice.Restore.Pin.created_event backups_microservice.Restore.Pin.insert_pin
    backups_microservice.Restore.Pin.new_request backups_microservice.Restore.Pin.on_pin_error
    backups_microservice.Restore.Pin.replay_matches
    backups_microservice.Restore.Pin.replay_or_insert backups_microservice.Restore.Pin.set_add
    backups_microservice.Restore.Pin.start_execution
    backups_microservice.Storage.assert_postgres_restore_target
    backups_microservice.Storage.assert_restorable_run backups_microservice.Storage.hex
    backups_microservice.Storage.is_postgres backups_microservice.Storage.literal_i
    backups_microservice.Storage.location_of backups_microservice.Storage.logical_backup_object_name
    backups_microservice.Storage.logical_restore_location backups_microservice.Storage.required_path
    backups_microservice.Storage.restore_object_name backups_microservice.Storage.uuid_pattern
    backups_microservice.Storage.variant_digit backups_microservice.Storage.version_digit
started_accepts_only_if_found_example =
    started_accepts_only_if_found ext check align (λ v. refl) w started accepted (returned tt) refl
      refl dto (text "ops")
      (new_request ext dto (text "ops") (restore_idempotency_key ext.sha256_hex dto (text "ops"))
        started)
      refl
