-- ===== src/Notifications.antt =====
-- The notifications of src/notifications/notifications.service.ts.
pub mod Secrecy
use backups_microservice.Prelude.{
  Bool, ◌||◌, Option, none, some, List, [], ◌∷◌, ◌++◌, if◌then◌else◌, String, map,
}
use backups_microservice.Js.{Text, text, is_empty}
use backups_microservice.World.{
  Notice, backup_succeeded, backup_failed, verification_pending, restore_completed,
  verification_verified, restore_failed, verification_failed, retention_cleanup_succeeded,
  retention_cleanup_failed,
}
use backups_microservice.Walg.{or_text}
use backups_microservice.Redaction.{Fields, Redactor, matches_any, sanitize_fields}

-- SENSITIVE_KEY_PATTERN, whose optional separators are written out.
abbrev pub sensitive_words : List Text
unfolding text
sensitive_words = map text (
    "authorization" ∷ "token" ∷ "password" ∷ "secret" ∷ "accesskey" ∷ "access_key" ∷ "access-key"
    ∷ "privatekey" ∷ "private_key" ∷ "private-key" ∷ "credential" ∷ "vault" ∷ [])

unfoldable pub is_sensitive : Text → Bool
unfolding matches_any
is_sensitive k = matches_any sensitive_words k

-- Strings keep their value.
unfoldable pub by_key : Redactor
unfolding is_sensitive
by_key = record { sensitive = is_sensitive; of_text = λ s. s }

unfoldable pub sanitize_details : Option Fields → Option Fields
unfolding sanitize_fields by_key
sanitize_details none = none
sanitize_details (some details) = some (sanitize_fields by_key details)

-- NotificationPayload
pub record NotificationPayload : Type 0 where
  pub event : Text
  pub message : Text
  pub service : Text
  pub details : Option Fields

-- The request that is posted, with its Authorization header.
pub record Request : Type 0 where
  pub url : Text
  pub authorization : Text
  pub payload : NotificationPayload

-- What a call of `send` does: nothing where the service is not configured; else it posts a request,
-- and logs a warning where that fails.
pub data Delivery : Type 0 where
  skipped : Delivery
  posted : Request → Delivery
  warned : Request → Text → Delivery

abbrev pub after_post : Text → Request → Option Text → Delivery
unfolding text
after_post event request none = posted request
after_post event request (some error) =
    warned request (text "Failed to send notification event=" ++ event ++ text ": " ++ error)

-- BACKUP_NOTIFICATION_EVENTS
unfoldable pub event_of : Notice → Text
unfolding text
event_of (backup_succeeded name id) = text "backup.success"
event_of (backup_failed name id) = text "backup.failure"
event_of (verification_pending name id) = text "backup.verification.pending"
event_of (verification_verified name id) = text "backup.verification.verified"
event_of (verification_failed name id) = text "backup.verification.failed"
event_of (restore_completed name id) = text "restore.completed"
event_of (restore_failed name id) = text "restore.failed"
event_of (retention_cleanup_succeeded name) = text "retention.cleanup.success"
event_of (retention_cleanup_failed name) = text "retention.cleanup.failure"

unfoldable pub message_of : Notice → Text
unfolding text
message_of (backup_succeeded name id) = text "Backup successful: " ++ name
message_of (backup_failed name id) = text "Backup FAILED: " ++ name
message_of (verification_pending name id) = text "Restore verification pending: " ++ name
message_of (verification_verified name id) = text "Restore verification passed for target: " ++ name
message_of (verification_failed name id) = text "Restore verification FAILED for target: " ++ name
message_of (restore_completed name id) = text "Restore completed for target: " ++ name
message_of (restore_failed name id) = text "Restore FAILED for target: " ++ name
message_of (retention_cleanup_succeeded name) = text "Retention cleanup done for job: " ++ name
message_of (retention_cleanup_failed name) = text "Retention cleanup FAILED for job: " ++ name

-- `post` is the HTTP client: it gives the text of the error, where the request fails.
module _ (env : Text → Option Text) (post : Request → Option Text) where
  service_url : Text
  unfolding or_text text
  service_url =
      or_text (env (text "NOTIFICATIONS_SERVICE_URL"))
        (or_text (env (text "NOTIFICATION_SERVICE_URL")) [])

  service_token : Text
  unfolding or_text text
  service_token =
      or_text (env (text "NOTIFICATIONS_SERVICE_TOKEN"))
        (or_text (env (text "NOTIFICATION_SERVICE_TOKEN")) [])

  unfoldable pub notification : Text → Text → Option Fields → Request
  unfolding service_url service_token sanitize_details text
  notification event message details = record {
    url = service_url ++ text "/notify";
    authorization = text "Bearer " ++ service_token;
    payload = record {
      event = event;
      message = message;
      service = text "backups-microservice";
      details = sanitize_details details;
    };
  }

  unfoldable pub send : Text → Text → Option Fields → Delivery
  unfolding notification is_empty service_url service_token
  send event message details =
      let request = notification event message details in
      if is_empty service_url || is_empty service_token
      then skipped
      else after_post event request (post request)

  -- The method of the service that a notice is sent by, `backupSucceeded` and the others.
  unfoldable pub send_notice : Notice → Fields → Delivery
  unfolding send event_of message_of
  send_notice notice details = send (event_of notice) (message_of notice) (some details)
