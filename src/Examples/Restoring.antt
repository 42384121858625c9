-- ===== src/Examples/Restoring.antt =====
-- Restores that are validated, claimed, ended and recovered.
use backups_microservice.Prelude.{
  ◌+◌, ◌≡◌, refl, ◌↔◌, inr, none, some, [], ◌∷◌, ◌++◌, true, false, length, filter, arith,
}
use backups_microservice.Js.{Text, text, trim}
use backups_microservice.Errors.{Error, ok}
use backups_microservice.Storage.{LogicalRestoreLocation}
use backups_microservice.Walg.{build_env}
use backups_microservice.World.{World, WalgEnv, returned, threw}
use backups_microservice.Entities.{RestoreRequest, RestoreStatus}
use backups_microservice.Repositories.{is_active, find_by_key, find_request}
use backups_microservice.Restore.Key.{CreateRestoreDto, restore_idempotency_key}
use backups_microservice.Restore.Pin.{validate_restore, check_approval, create}
use backups_microservice.Restore.Terminal.{completed, failed, persist_work}
use backups_microservice.Restore.Execution.{claim_work, execute_restore}
use backups_microservice.Restore.Steps.{step, done, claims, transaction}
use backups_microservice.Restore.Once.{claimed_once, terminal_once}
use backups_microservice.Restore.Approval.{
  IsApproved, SameSubmission, check_approval_iff, unready_or_unapproved_refused,
  resubmission_replays,
}
use backups_microservice.Restore.Addressing.{restore_addresses_recorded_object}
use backups_microservice.Restore.Claims.{Unclaimable, no_restore_without_claim}
use backups_microservice.Reconciliation.{Windows, Summary, redispatch, decide, reconcile}
use backups_microservice.Reconciliation.Decision.{Reason, decide_iff, summary_accounts_for_all}
use backups_microservice.Examples.Fixtures.{
  unused_is_fresh, new_run, new_object, prefix, target, dto, ext, lock, world_with, request_of,
}

abbrev waiting : RestoreRequest
waiting = request_of RestoreStatus.pending

abbrev underway : RestoreRequest
underway = request_of RestoreStatus.running

abbrev w0 : World
w0 = world_with (waiting ∷ [])

abbrev location : LogicalRestoreLocation
location = record { storage_prefix = prefix; object_name = new_object }

restore_addresses_recorded_object_example :
    (env : WalgEnv) × (build_env ext (some prefix) target (text "secret") ≡ ok env)
    × (new_run.storage_path ≡ some (env.walg_s3_prefix ++ (text "/" ++ new_object)))
    × (env.pg_database ≡ target.database_name)
unfolding validate_restore text backups_microservice.Restore.Pin.target_mismatch
    backups_microservice.Js.truthy backups_microservice.Js.field_eq
    backups_microservice.Storage.assert_restorable_run
    backups_microservice.Storage.assert_postgres_restore_target
    backups_microservice.Storage.is_postgres
    backups_microservice.DatabaseName.assert_safe_database_name
    backups_microservice.DatabaseName.database_name_violation
    backups_microservice.DatabaseName.whitespace_or_control backups_microservice.Js.starts_with
    backups_microservice.Js.includes backups_microservice.DatabaseName.database_name_pattern
    backups_microservice.DatabaseName.is_word backups_microservice.DatabaseName.is_name_char
    backups_microservice.Storage.logical_restore_location backups_microservice.Storage.required_path
    backups_microservice.Storage.restore_object_name backups_microservice.DatabaseName.rejection
    backups_microservice.DatabaseName.violation_message backups_microservice.Js.ends_with
    backups_microservice.Js.is_empty backups_microservice.Js.matches
    backups_microservice.Js.slice_before backups_microservice.Js.text_eq
    backups_microservice.Storage.hex backups_microservice.Storage.literal_i
    backups_microservice.Storage.location_of backups_microservice.Storage.logical_backup_object_name
    backups_microservice.Storage.uuid_pattern backups_microservice.Storage.variant_digit
    backups_microservice.Storage.version_digit
restore_addresses_recorded_object_example =
    restore_addresses_recorded_object ext new_run target (text "secret") location refl

abbrev w1 : World
w1 = (claim_work waiting new_run 1000 w0).1

claims_first : claim_work waiting new_run 1000 w0 ≡ (returned true, w1)
unfolding claim_work text backups_microservice.Js.text_eq
    backups_microservice.Repositories.is_pending
claims_first = refl

-- The stale copy of another caller tries to claim it in between.
abbrev w1' : World
w1' = transaction (claim_work waiting new_run 1500) w1

claimed_once_example : (claim_work waiting new_run 2000 w1').0 ≡ returned false
claimed_once_example =
    claimed_once ext unused_is_fresh waiting waiting new_run new_run 1000 2000 w0 w1 w1'
      claims_first (step (claims waiting new_run 1500 w1) (done w1')) refl

abbrev w2 : World
w2 = (persist_work ext underway new_run target completed none 3000 w1).1

ends_first : persist_work ext underway new_run target completed none 3000 w1 ≡ (returned true, w2)
unfolding persist_work claim_work text find_request backups_microservice.Js.text_eq
    backups_microservice.Repositories.is_pending backups_microservice.Repositories.is_terminal
    backups_microservice.Repositories.record_audit
ends_first = refl

abbrev w2' : World
w2' = transaction (claim_work waiting new_run 3500) w2

terminal_once_example :
    persist_work ext underway new_run target failed (some (text "stale")) 4000 w2'
    ≡ (returned false, w2')
terminal_once_example =
    terminal_once ext unused_is_fresh underway underway new_run new_run target target completed
      failed none (some (text "stale")) 3000 4000 w1 w2 w2' ends_first
      (step (claims waiting new_run 3500 w2) (done w2')) refl

check_approval_iff_example : (check_approval dto ≡ ok tt) ↔ IsApproved dto
check_approval_iff_example = check_approval_iff dto

abbrev unready : World
unready = record w0 {
  serialization = record {
    ready = false;
    reason = text "duplicates";
    checked_at = some 0;
    duplicate_targets = some 1;
  };
}

unready_or_unapproved_refused_example :
    (e : Error) × (create ext dto (text "ops") unready ≡ (threw e, unready))
unready_or_unapproved_refused_example =
    unready_or_unapproved_refused ext dto (text "ops") unready (inr refl)

approved : IsApproved dto
unfolding check_approval backups_microservice.Js.text_eq text backups_microservice.Js.is_empty
    backups_microservice.Restore.Key.clean trim backups_microservice.Js.strip_end
    backups_microservice.Js.strip_start backups_microservice.Js.is_space
approved = (check_approval_iff dto).0 passes
  where
    passes : check_approval dto ≡ ok tt
    passes = refl

resubmission_replays_example : create ext dto (text "ops") w0 ≡ (returned waiting, w0)
unfolding find_by_key restore_idempotency_key text backups_microservice.Restore.Pin.new_request trim
    backups_microservice.Js.strip_end backups_microservice.Js.strip_start
    backups_microservice.Js.is_space backups_microservice.Js.field_eq
    backups_microservice.Js.is_empty
resubmission_replays_example =
    resubmission_replays ext dto (text "ops") w0 w0 waiting approved refl refl same
  where
    same : SameSubmission ext dto (text "ops") (text "key") w0 waiting
    same = record {
      run = refl;
      target = refl;
      actor = refl;
      reason = refl;
      confirmed_run = refl;
      confirmed_target = refl;
      ticked = refl;
      requester = refl;
    }

abbrev busy : World
busy = world_with (underway ∷ [])

busy-Unclaimable :
    (q : RestoreRequest)
    → find_request (text "request") busy.db.requests ≡ some q
    → Unclaimable q.id (lock.grant q.backup_run_id busy.db)
unfolding find_request text backups_microservice.Restore.Execution.is_claimable
    backups_microservice.Js.text_eq backups_microservice.Repositories.is_pending
busy-Unclaimable q e = ground arith

no_restore_without_claim_example : (execute_restore ext (text "request") busy).1.commands ≡ []
no_restore_without_claim_example =
    no_restore_without_claim ext lock (text "request") busy busy-Unclaimable

abbrev windows : Windows
windows = record { adopt_after = 60000; abandon_after = 21600000; stale_after = 7200000 }

decide_iff_example :
    (decide windows 70000 false waiting ≡ redispatch)
    ↔ Reason windows 70000 false waiting redispatch
decide_iff_example = decide_iff windows 70000 false waiting redispatch

abbrev summary : Summary
summary = record { inspected = 1; redispatched = 1; abandoned = 0; interrupted = 0; skipped = 0 }

summary_accounts_for_all_example :
    (summary.inspected ≡ length (filter (λ q. is_active q.status) w0.db.requests))
    × (summary.redispatched + summary.abandoned + summary.interrupted + summary.skipped
        ≡ summary.inspected)
unfolding reconcile text backups_microservice.Reconciliation.reconcile_all is_active
    backups_microservice.Reconciliation.reconcile_one decide
    backups_microservice.Restore.Terminal.is_in_flight
    backups_microservice.Restore.Pin.start_execution
summary_accounts_for_all_example = summary_accounts_for_all ext 70000 w0 summary refl
