-- ===== src/Examples/Retaining.antt =====
-- A cleanup of a job that keeps one run, of two.
use backups_microservice.Prelude.{◌⊎◌, ◌≡◌, refl, inl, [], ◌∷◌, true}
use backups_microservice.Js.{Text, text}
use backups_microservice.Errors.{ok}
use backups_microservice.Storage.{logical_backup_object_name}
use backups_microservice.Walg.{run, probe_logical_object}
use backups_microservice.Walg.Listing.{absent}
use backups_microservice.World.{World, External, returned}
use backups_microservice.Entities.{RestoreStatus}
use backups_microservice.Retention.{
  deleted, pinned, cleanup, delete_expired_object, newest_verified,
}
use backups_microservice.Retention.Anchor.{DeferredIn, ProvenAnchor, unproven_anchor_defers}
use backups_microservice.Retention.Deletion.{Deletable, SparedIn, RemovedIn, deletion_guarded}
use backups_microservice.Retention.Spares.{removed}
use backups_microservice.Retention.Cleanup.{IsRetained, cleanup_spares_retained}
use backups_microservice.Examples.Fixtures.{
  new_id, old_object, new_object, old_run, new_run, job, env, ext, lock, world_with, request_of,
}

abbrev idle : World
idle = world_with []

-- The world in which wal-g lists nothing.
abbrev bare : External
bare = record ext { wal_g_result = λ n e args. record { exit_code = 0; output = [] } }

abbrev restoring : World
restoring = world_with (request_of RestoreStatus.pending ∷ [])

new_named : logical_backup_object_name new_id ≡ ok new_object
unfolding logical_backup_object_name text backups_microservice.Js.matches
    backups_microservice.Storage.uuid_pattern backups_microservice.Storage.hex
    backups_microservice.Storage.literal_i backups_microservice.Storage.version_digit
    backups_microservice.Storage.variant_digit
new_named = refl

new-IsRetained : IsRetained job env idle new_id new_object
unfolding text backups_microservice.Retention.successful_runs backups_microservice.Js.text_eq
new-IsRetained = inl refl

cleanup_spares_retained_example :
    removed new_object (cleanup ext job env idle).1 ≡ removed new_object idle
cleanup_spares_retained_example =
    cleanup_spares_retained ext lock job env new_id new_object idle new-IsRetained new_named

-- The same cleanup removes the older object.
older_removed : removed old_object (cleanup ext job env idle).1 ≡ true
unfolding cleanup text newest_verified backups_microservice.Retention.successful_runs
    backups_microservice.Js.text_eq backups_microservice.Retention.deterministic_object
    backups_microservice.Js.is_empty backups_microservice.Js.trim backups_microservice.Js.strip_end
    backups_microservice.Js.strip_start backups_microservice.Js.is_space logical_backup_object_name
    backups_microservice.Js.matches backups_microservice.Storage.uuid_pattern
    backups_microservice.Storage.hex backups_microservice.Storage.literal_i
    backups_microservice.Storage.version_digit backups_microservice.Storage.variant_digit
    backups_microservice.Storage.logical_backup_storage_path backups_microservice.Retention.by_start
    backups_microservice.Retention.insert_by_start backups_microservice.Storage.is_slash
    probe_logical_object backups_microservice.Storage.is_logical_backup_object_name
    backups_microservice.Storage.logical_object_pattern backups_microservice.Storage.literals run
    backups_microservice.Walg.Listing.judge_listing backups_microservice.Js.split
    backups_microservice.Walg.Listing.folder_and_leaf backups_microservice.Js.includes
    backups_microservice.Retention.clean_candidates backups_microservice.Retention.candidates_of
    backups_microservice.Retention.retained_ids backups_microservice.Js.truthy
    backups_microservice.Retention.clean_candidate backups_microservice.Retention.pinned_run_ids
    delete_expired_object backups_microservice.Repositories.find_run
    backups_microservice.Js.slice_before backups_microservice.Js.split_by
    backups_microservice.Repositories.is_active backups_microservice.Repositories.pins
    backups_microservice.Repositories.update_run backups_microservice.Retention.clear_path
    backups_microservice.Retention.count_outcome backups_microservice.Retention.delete_object
    backups_microservice.Retention.judge_fresh backups_microservice.Retention.same_path
    backups_microservice.Retention.set_has backups_microservice.Walg.Listing.columns
    backups_microservice.Walg.Listing.first_column backups_microservice.Walg.Listing.is_newline
    backups_microservice.Walg.Listing.is_object_row backups_microservice.Walg.Listing.last_column
    backups_microservice.Walg.Listing.object_rows backups_microservice.Walg.Listing.positive_number
    backups_microservice.Walg.Listing.second_column backups_microservice.Walg.delete_logical_object
    backups_microservice.Walg.reject_unsafe_object
older_removed = refl

abbrev after_deletion : World
after_deletion = (delete_expired_object ext env old_run old_object idle).1

deletes_old :
    delete_expired_object ext env old_run old_object idle ≡ (returned deleted, after_deletion)
unfolding delete_expired_object text backups_microservice.Repositories.find_run
    backups_microservice.Js.text_eq backups_microservice.Retention.same_path
    backups_microservice.Walg.delete_logical_object backups_microservice.Walg.reject_unsafe_object
    backups_microservice.Storage.is_logical_backup_object_name backups_microservice.Js.matches
    backups_microservice.Storage.logical_object_pattern backups_microservice.Storage.literals
    backups_microservice.Storage.literal_i backups_microservice.Storage.uuid_pattern
    backups_microservice.Storage.hex backups_microservice.Storage.version_digit
    backups_microservice.Storage.variant_digit run
deletes_old = refl

deletion_guarded_example :
    SparedIn ext env old_run old_object idle
      (delete_expired_object ext env old_run old_object idle).0
      after_deletion
    ⊎ (Deletable ext env old_run old_object idle
        × RemovedIn ext env old_run old_object idle
            (delete_expired_object ext env old_run old_object idle).0
            after_deletion)
deletion_guarded_example = deletion_guarded ext env old_run old_object idle

declines_pinned :
    delete_expired_object ext env new_run new_object restoring ≡ (returned pinned, restoring)
unfolding delete_expired_object text backups_microservice.Repositories.find_run
    backups_microservice.Js.text_eq backups_microservice.Retention.same_path
    backups_microservice.Repositories.pins backups_microservice.Repositories.is_active
declines_pinned = refl

unproven_anchor_defers_example :
    DeferredIn bare job env idle (cleanup bare job env idle).1 ⊎ ProvenAnchor bare job env idle
unproven_anchor_defers_example = unproven_anchor_defers bare job env idle
