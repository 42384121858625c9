-- ===== src/Health.antt =====
-- The readiness of the service: src/health/health.controller.ts.
pub mod Verdict
use backups_microservice.Prelude.{
  ℕ, Bool, true, false, not, ◌&&◌, ◌||◌, Option, none, some, List, [], ◌∷◌, if◌then◌else◌, map,
}
use backups_microservice.Js.{Text, text, truthy}
use backups_microservice.World.{RestoreSerializationState}
use backups_microservice.Redaction.Assignments.{redact_assignments}

pub data CheckStatus : Type 0 where
  ready not_ready degraded : CheckStatus

-- The details of a check: none, an error's text, the parts of the storage's configuration, or the
-- state of the serialization of restores.
pub data CheckDetails : Type 0 where
  no_details : CheckDetails
  error_text : Text → CheckDetails
  configured : (endpoint prefix bucket : Bool) → CheckDetails
  serialization : RestoreSerializationState → CheckDetails

pub record ReadinessCheck : Type 0 where
  pub status : CheckStatus
  pub message : Text
  pub details : CheckDetails

-- The body of a response, with its status code.
pub record ReadinessReport : Type 0 where
  pub status_code : ℕ
  pub success : Bool
  pub status : CheckStatus
  pub checks : List ReadinessCheck

-- What the query `SELECT 1` gives: an answer, or an error, with its message if it is an `Error`.
pub data Ping : Type 0 where
  answered : Ping
  rejected_with : Option Text → Ping

unfoldable pub sanitize_error : Option Text → Text
unfolding redact_assignments text
sanitize_error none = text "unknown error"
sanitize_error (some message) =
    redact_assignments (map text ("password" ∷ "token" ∷ "secret" ∷ "key" ∷ [])) message

unfoldable pub check_database : (is_initialized : Bool) → Ping → ReadinessCheck
unfolding sanitize_error text
check_database false ping = record {
  status = not_ready;
  message = text "Database connection is not initialized";
  details = no_details;
}
check_database true answered = record {
  status = ready;
  message = text "Database connection is ready";
  details = no_details;
}
check_database true (rejected_with message) = record {
  status = not_ready;
  message = text "Database connection is not ready";
  details = error_text (sanitize_error message);
}

module _ (env : Text → Option Text) where
  unfoldable pub bucket_configured : Bool
  unfolding truthy text
  bucket_configured =
      truthy (env (text "MINIO_BUCKET")) || truthy (env (text "MINIO_BACKUP_BUCKET"))

  unfoldable pub endpoint_configured : Bool
  unfolding truthy text
  endpoint_configured =
      truthy (env (text "WALG_S3_ENDPOINT"))
      || truthy (env (text "MINIO_ENDPOINT"))
      || truthy (env (text "MINIO_SERVICE_URL"))

  unfoldable pub prefix_configured : Bool
  unfolding truthy text
  prefix_configured = truthy (env (text "WALG_S3_PREFIX"))

  unfoldable pub check_storage : ReadinessCheck
  unfolding bucket_configured endpoint_configured prefix_configured text
  check_storage =
      if not endpoint_configured || (not prefix_configured && not bucket_configured)
      then record {
        status = not_ready;
        message = text "Storage configuration is incomplete";
        details = configured endpoint_configured prefix_configured bucket_configured;
      }
      else record {
        status = ready;
        message = text "Storage configuration is present";
        details = configured true prefix_configured bucket_configured;
      }

unfoldable pub check_restore_serialization : RestoreSerializationState → ReadinessCheck
check_restore_serialization state = record {
  status = if state.ready then ready else degraded;
  message = state.reason;
  details = serialization state;
}

abbrev pub is_ready : CheckStatus → Bool
is_ready ready = true
is_ready _ = false

-- A report that is not ready has the status SERVICE_UNAVAILABLE.
unfoldable pub report_of : Bool → List ReadinessCheck → ReadinessReport
report_of is_up checks = record {
  status_code = if is_up then 200 else 503;
  success = is_up;
  status = if is_up then ready else degraded;
  checks = checks;
}

unfoldable pub readiness :
    (env : Text → Option Text) (is_initialized : Bool)
    → Ping
    → RestoreSerializationState
    → ReadinessReport
unfolding check_database check_storage check_restore_serialization report_of
readiness env is_initialized ping state =
    let database = check_database is_initialized ping in
    let storage = check_storage env in
    report_of (is_ready database.status && is_ready storage.status)
      (database ∷ storage ∷ check_restore_serialization state ∷ [])

unfoldable pub restore_readiness : RestoreSerializationState → ReadinessReport
unfolding check_restore_serialization report_of
restore_readiness state =
    let check = check_restore_serialization state in report_of (is_ready check.status) (check ∷ [])
