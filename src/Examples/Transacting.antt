-- ===== src/Examples/Transacting.antt =====
-- A request that is pinned, claimed and ended by three transactions.
use backups_microservice.Prelude.{◌≡◌, refl, length, false, none, some, [], ◌∷◌, arith}
use backups_microservice.Js.{text, text_eq}
use backups_microservice.World.{World}
use backups_microservice.Entities.{RestoreRequest, RestoreStatus}
use backups_microservice.Repositories.{find_request, is_terminal}
use backups_microservice.Restore.Pin.{create_pin_work, insert_pin}
use backups_microservice.Restore.Key.{CreateRestoreDto}
use backups_microservice.Restore.Terminal.{completed, persist_work}
use backups_microservice.Restore.Execution.{claim_work}
use backups_microservice.Restore.Steps.{done, step, pins, inserts, claims, ends, transaction}
use backups_microservice.Restore.Serialization.{IsSerialized, one_active_per_target}
use backups_microservice.Restore.Lifecycle.{Lives, transactions_refine_life_cycle}
use backups_microservice.Restore.Finality.{terminal_is_final}
use backups_microservice.Examples.Fixtures.{
  ext, dto, target, new_run, world_with, request_of, unused_is_fresh,
}

abbrev w0 : World
w0 = world_with []

abbrev w1 : World
w1 = transaction (create_pin_work ext dto (text "ops") (text "key") target new_run) w0

-- A pin of another run, whose reads came before the first pin.
abbrev other_dto : CreateRestoreDto
other_dto = record dto {
  backup_run_id = text "other";
  approval_confirmed_backup_run_id = text "other";
}

abbrev late : World → World
late w =
    transaction
      (insert_pin ext other_dto (text "ops") (text "key2") target
        (record new_run { id = text "other" }) none)
      w

-- The index refuses it; without the index, the target has two active requests.
index_refuses : late w1 ≡ w1
unfolding create_pin_work insert_pin backups_microservice.Repositories.find_run
    backups_microservice.Repositories.insert_request text_eq
    backups_microservice.Repositories.record_audit text
    backups_microservice.Storage.assert_restorable_run
    backups_microservice.Restore.Pin.created_event
    backups_microservice.Storage.logical_restore_location
    backups_microservice.Restore.Pin.new_request backups_microservice.Storage.required_path
    backups_microservice.Storage.restore_object_name
    backups_microservice.Storage.logical_backup_object_name backups_microservice.Js.matches
    backups_microservice.Storage.uuid_pattern backups_microservice.Storage.hex
    backups_microservice.Storage.literal_i backups_microservice.Storage.version_digit
    backups_microservice.Storage.variant_digit backups_microservice.Storage.location_of
    backups_microservice.Js.starts_with backups_microservice.Js.ends_with
    backups_microservice.Js.field_eq backups_microservice.Js.is_empty
    backups_microservice.Js.is_space backups_microservice.Js.slice_before
    backups_microservice.Js.strip_end backups_microservice.Js.strip_start
    backups_microservice.Js.trim backups_microservice.Repositories.audit_row
    backups_microservice.Repositories.find_active backups_microservice.Repositories.find_by_key
    backups_microservice.Repositories.is_active backups_microservice.Repositories.or_null
    backups_microservice.Repositories.violates_active backups_microservice.Repositories.violates_key
    backups_microservice.Restore.Key.clean backups_microservice.Restore.Pin.assert_replay_matches
    backups_microservice.Restore.Pin.replay_matches
    backups_microservice.Restore.Pin.replay_or_insert
index_refuses = refl

unindexed_pins_twice :
    length (late (record w1 { db = record w1.db { active_target_index = false } })).db.requests ≡ 2
unfolding insert_pin backups_microservice.Repositories.insert_request create_pin_work
    backups_microservice.Repositories.find_run text_eq text
    backups_microservice.Storage.assert_restorable_run
    backups_microservice.Storage.logical_restore_location backups_microservice.Storage.required_path
    backups_microservice.Storage.restore_object_name
    backups_microservice.Storage.logical_backup_object_name backups_microservice.Js.matches
    backups_microservice.Storage.uuid_pattern backups_microservice.Storage.hex
    backups_microservice.Storage.literal_i backups_microservice.Storage.version_digit
    backups_microservice.Storage.variant_digit backups_microservice.Js.ends_with
    backups_microservice.Js.field_eq backups_microservice.Js.is_empty
    backups_microservice.Js.is_space backups_microservice.Js.slice_before
    backups_microservice.Js.starts_with backups_microservice.Js.strip_end
    backups_microservice.Js.strip_start backups_microservice.Js.trim
    backups_microservice.Repositories.audit_row backups_microservice.Repositories.find_active
    backups_microservice.Repositories.find_by_key backups_microservice.Repositories.is_active
    backups_microservice.Repositories.or_null backups_microservice.Repositories.record_audit
    backups_microservice.Repositories.violates_active backups_microservice.Repositories.violates_key
    backups_microservice.Restore.Key.clean backups_microservice.Restore.Pin.assert_replay_matches
    backups_microservice.Restore.Pin.created_event backups_microservice.Restore.Pin.new_request
    backups_microservice.Restore.Pin.replay_matches
    backups_microservice.Restore.Pin.replay_or_insert backups_microservice.Storage.location_of
unindexed_pins_twice = refl

abbrev w2 : World
w2 = transaction (claim_work (request_of RestoreStatus.pending) new_run 1000) (late w1)

abbrev w3 : World
w3 =
    transaction
      (persist_work ext (request_of RestoreStatus.running) new_run target completed none 2000) w2

one_active_per_target_example : IsSerialized (text "target") w3.db.requests
unfolding IsSerialized
one_active_per_target_example =
    one_active_per_target ext (text "target")
      (step (pins dto (text "ops") (text "key") target new_run w0) (
        step
          (inserts other_dto (text "ops") (text "key2") target
            (record new_run { id = text "other" }) w1)
          (step (claims (request_of RestoreStatus.pending) new_run 1000 (late w1)) (
            step (ends (request_of RestoreStatus.running) new_run target completed none 2000 w2)
              (done w3)))))
      refl (omega arith)

abbrev over : RestoreRequest
over = request_of RestoreStatus.completed

abbrev v0 : World
v0 = world_with (over ∷ [])

abbrev v1 : World
v1 = transaction (claim_work over new_run 1000) v0

abbrev v2 : World
v2 = transaction (create_pin_work ext dto (text "ops") (text "another") target new_run) v1

terminal_is_final_example : find_request (text "request") v2.db.requests ≡ some over
unfolding find_request text is_terminal text_eq
terminal_is_final_example =
    terminal_is_final ext (text "request") over refl unused_is_fresh
      (step (claims over new_run 1000 v0)
        (step (pins dto (text "ops") (text "another") target new_run v1) (done v2)))
      refl

abbrev waiting : RestoreRequest
waiting = request_of RestoreStatus.pending

abbrev u0 : World
u0 = world_with (waiting ∷ [])

abbrev u1 : World
u1 = transaction (claim_work waiting new_run 1000) u0

abbrev u2 : World
u2 =
    transaction
      (persist_work ext (request_of RestoreStatus.running) new_run target completed none 2000) u1

transactions_refine_life_cycle_example : Lives (text "request") RestoreStatus.pending u2.db.requests
unfolding find_request text_eq text
transactions_refine_life_cycle_example =
    transactions_refine_life_cycle ext (text "request") waiting unused_is_fresh
      (step (claims waiting new_run 1000 u0) (
        step (ends (request_of RestoreStatus.running) new_run target completed none 2000 u1)
          (done u2)))
      refl
