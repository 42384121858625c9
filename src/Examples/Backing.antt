-- ===== src/Examples/Backing.antt =====
-- A backup job that is executed, and a run whose deletion is blocked.
use backups_microservice.Prelude.{◌≡◌, refl, ◌⊎◌, some, [], ◌++◌}
use backups_microservice.Js.{Text, text, strip_end}
use backups_microservice.Errors.{ok}
use backups_microservice.Entities.{BackupRun, TriggerType}
use backups_microservice.Storage.{is_slash, logical_restore_location, assert_restorable_run}
use backups_microservice.Walg.{env_for}
use backups_microservice.World.{World, WalgEnv, External, Outcome, returned}
use backups_microservice.Backup.{execute_job, new_run, succeed_run, parameters, remove}
use backups_microservice.Backup.Execution.{successful_run_is_restorable, job_parameters, begun}
use backups_microservice.Backup.Ending.{Ended, execution_ends}
use backups_microservice.Backup.Removal.{BlockedIn, RefusedIn, removal_only_audits}
use backups_microservice.Examples.Fixtures.{
  new_id, new_object, prefix, target, job, ext, world_with,
}

abbrev minting : External
minting = record ext { new_id = λ db. new_id }

abbrev w0 : World
w0 = record (world_with []) { db = record (world_with []).db { runs = [] } }

abbrev built : WalgEnv
built = env_for minting (some prefix) target [] (text "orders")

abbrev ended : BackupRun
ended = succeed_run built new_object 1000 (record (new_run minting job TriggerType.manual w0) {
  walg_output = some (text "logical_backup_object: " ++ (new_object ++ text "\n"));
})

abbrev w1 : World
w1 = (execute_job minting (text "job") TriggerType.manual (text "ops") w0).1

executes :
    execute_job minting (text "job") TriggerType.manual (text "ops") w0 ≡ (returned ended, w1)
unfolding execute_job text backups_microservice.Backup.load_job
    backups_microservice.Repositories.find_job backups_microservice.Js.text_eq
    backups_microservice.Backup.audit_trigger backups_microservice.Repositories.record_audit
    backups_microservice.Backup.push parameters backups_microservice.Repositories.find_target
    backups_microservice.Walg.build_env backups_microservice.DatabaseName.assert_safe_database_name
    backups_microservice.DatabaseName.database_name_violation backups_microservice.Js.is_empty
    backups_microservice.DatabaseName.whitespace_or_control backups_microservice.Js.starts_with
    backups_microservice.Js.includes backups_microservice.DatabaseName.database_name_pattern
    backups_microservice.Storage.uuid_pattern backups_microservice.DatabaseName.rejection
    backups_microservice.DatabaseName.violation_message backups_microservice.Js.decimal
    backups_microservice.Js.decimal_from backups_microservice.Js.text_or_empty
    backups_microservice.Js.truthy backups_microservice.Storage.hex
    backups_microservice.Storage.literal_i backups_microservice.Storage.variant_digit
    backups_microservice.Storage.version_digit env_for backups_microservice.Walg.or_text
    backups_microservice.Walg.storage_endpoint backups_microservice.Walg.strip_scheme
    backups_microservice.DatabaseName.is_word backups_microservice.DatabaseName.is_name_char
    backups_microservice.Storage.logical_backup_object_name backups_microservice.Js.matches new_run
    backups_microservice.Walg.backup_push backups_microservice.Walg.reject_unsafe_object
    backups_microservice.Storage.is_logical_backup_object_name
    backups_microservice.Storage.logical_object_pattern backups_microservice.Storage.literals
    backups_microservice.Walg.run_pair backups_microservice.Walg.Pipeline.run_piped_pair
    backups_microservice.Walg.Pipeline.run_events backups_microservice.Walg.Pipeline.step
    backups_microservice.Walg.Pipeline.finish backups_microservice.Walg.Pipeline.on_close
    backups_microservice.Walg.Pipeline.on_stream_end backups_microservice.Backup.conclude
    backups_microservice.Backup.fail_execution backups_microservice.Backup.fail_run
    backups_microservice.Backup.mark_job_run backups_microservice.Backup.mark_verification_pending
    backups_microservice.Backup.mark_verification_skipped
    backups_microservice.Backup.succeed_execution succeed_run
    backups_microservice.Backup.triggered_event backups_microservice.Errors.message
    backups_microservice.Js.is_space backups_microservice.Js.slice_last strip_end
    backups_microservice.Js.strip_start backups_microservice.Js.trim
    backups_microservice.Repositories.audit_row backups_microservice.Repositories.or_null
    backups_microservice.Repositories.save_run backups_microservice.Repositories.update_job
    backups_microservice.Retention.by_start backups_microservice.Retention.cleanup
    backups_microservice.Retention.deterministic_object
    backups_microservice.Retention.insert_by_start backups_microservice.Retention.newest_verified
    backups_microservice.Retention.successful_runs is_slash
    backups_microservice.Storage.logical_backup_storage_path
    backups_microservice.Walg.Pipeline.append backups_microservice.Walg.Pipeline.code_or_one
    backups_microservice.Walg.Pipeline.exit_code_of backups_microservice.Walg.Pipeline.fail_stream
    backups_microservice.Walg.Pipeline.on_spawn_failed backups_microservice.Walg.Pipeline.start
    backups_microservice.Walg.Pipeline.terminate
    backups_microservice.Walg.Pipeline.terminate_consumer
    backups_microservice.Walg.Pipeline.terminate_producer
    backups_microservice.Walg.delete_logical_object backups_microservice.Walg.discard_partial_object
    backups_microservice.Walg.run
executes = refl

execution_ends_example :
    Ended minting job
      (job_parameters minting job TriggerType.manual (text "ops") w0)
      (new_run minting job TriggerType.manual w0)
      ended
      (begun minting job TriggerType.manual (text "ops") w0).1
      w1
unfolding text backups_microservice.Repositories.find_job backups_microservice.Js.text_eq
execution_ends_example =
    execution_ends minting job TriggerType.manual (text "ops") w0 (text "job") ended w1 refl
      executes

successful_run_is_restorable_example :
    (logical_restore_location ended
      ≡ ok (record {
        storage_prefix = strip_end is_slash built.walg_s3_prefix;
        object_name = new_object;
      }))
    × (assert_restorable_run ended ≡ ok tt)
unfolding text backups_microservice.Repositories.find_job backups_microservice.Js.text_eq parameters
    backups_microservice.Repositories.find_target backups_microservice.Walg.build_env
    backups_microservice.DatabaseName.assert_safe_database_name
    backups_microservice.DatabaseName.database_name_violation backups_microservice.Js.is_empty
    backups_microservice.DatabaseName.whitespace_or_control backups_microservice.Js.starts_with
    backups_microservice.Js.includes backups_microservice.DatabaseName.database_name_pattern
    backups_microservice.DatabaseName.is_word backups_microservice.DatabaseName.is_name_char
    backups_microservice.Storage.logical_backup_object_name backups_microservice.Js.matches
    backups_microservice.Storage.uuid_pattern backups_microservice.DatabaseName.rejection
    backups_microservice.DatabaseName.violation_message backups_microservice.Js.decimal
    backups_microservice.Js.decimal_from backups_microservice.Js.text_or_empty
    backups_microservice.Js.truthy backups_microservice.Storage.hex
    backups_microservice.Storage.literal_i backups_microservice.Storage.variant_digit
    backups_microservice.Storage.version_digit env_for backups_microservice.Walg.or_text
    backups_microservice.Walg.storage_endpoint backups_microservice.Walg.strip_scheme strip_end
    is_slash succeed_run
successful_run_is_restorable_example =
    successful_run_is_restorable minting job TriggerType.manual (text "ops") w0 (text "job") built
      new_object ended w1 refl refl refl executes refl

abbrev blocked : Outcome Text × World
blocked = remove ext new_id (text "ops") (some (text "ops")) (some (text "old")) (world_with [])

removal_only_audits_example :
    BlockedIn ext new_id
      (text "ops")
      (some (text "ops"))
      (some (text "old"))
      (world_with [])
      blocked.0
      blocked.1
    ⊎ RefusedIn ext new_id
        (text "ops")
        (some (text "ops"))
        (some (text "old"))
        (world_with [])
        blocked.0
        blocked.1
removal_only_audits_example =
    removal_only_audits ext new_id (text "ops") (some (text "ops")) (some (text "old"))
      (world_with [])
