-- ===== src/Health/Verdict.antt =====
-- When src/health/health.controller.ts reports the service, and its restores, as ready.
use backups_microservice.Prelude.{◌≡◌, ◌↔◌, ◌||◌, Bool, true, false, Option, arith, Bool-cases, inr}
use backups_microservice.Js.{Text}
use backups_microservice.World.{World, External, RestoreSerializationState, threw}
use backups_microservice.Errors.{Error}
use backups_microservice.Restore.Key.{CreateRestoreDto}
use backups_microservice.Restore.Pin.{create}
use backups_microservice.Restore.Approval.{unready_or_unapproved_refused}
use backups_microservice.Health.{
  Ping, answered, rejected_with, readiness, restore_readiness, bucket_configured,
  endpoint_configured, prefix_configured, check_database, check_storage, report_of,
  check_restore_serialization,
}

-- What the service needs to be ready, whatever the state of its restores.
pub record IsUp (env : Text → Option Text) (is_initialized : Bool) (ping : Ping) : Type 0 where
  pub initialized : is_initialized ≡ true
  pub pinged : ping ≡ answered
  pub has_endpoint : endpoint_configured env ≡ true
  pub has_place : (prefix_configured env || bucket_configured env) ≡ true

IsUp-of_status :
    (env : Text → Option Text) (i : Bool) (ping : Ping) (state : RestoreSerializationState)
    → (readiness env i ping state).status_code ≡ 200
    → IsUp env i ping
unfolding readiness check_database check_storage report_of
IsUp-of_status env false ping state h = absurd (ground arith)
IsUp-of_status env true (rejected_with m) state h = absurd (ground arith)
IsUp-of_status env true answered state h = ground arith

status_of_IsUp :
    (env : Text → Option Text) (i : Bool) (ping : Ping) (state : RestoreSerializationState)
    → IsUp env i ping
    → (readiness env i ping state).status_code ≡ 200
unfolding readiness check_database check_storage report_of
status_of_IsUp env i ping state up = ground arith

-- The readiness probe answers with status 200 exactly when the database is connected and answers
-- and the storage has an endpoint and a prefix or a bucket, whatever the state of the restores.
pub ready_iff_IsUp :
    (env : Text → Option Text) (i : Bool) (ping : Ping) (state : RestoreSerializationState)
    → ((readiness env i ping state).status_code ≡ 200) ↔ IsUp env i ping
ready_iff_IsUp env i ping state = (IsUp-of_status env i ping state, status_of_IsUp env i ping state)

unready_of_status :
    (state : RestoreSerializationState)
    → (restore_readiness state).status_code ≡ 503
    → state.ready ≡ false
unfolding restore_readiness check_restore_serialization report_of
unready_of_status state h = ground (arith, Bool-cases state.ready)

-- While the probe of restores answers with status 503, every restore request is refused and changes
-- nothing.
pub probe-refuses_restores :
    (ext : External) (dto : CreateRestoreDto) (requested_by : Text) (w : World)
    → (restore_readiness w.serialization).status_code ≡ 503
    → (e : Error) × (create ext dto requested_by w ≡ (threw e, w))
probe-refuses_restores ext dto requested_by w h =
    unready_or_unapproved_refused ext dto requested_by w (inr (unready_of_status w.serialization h))
