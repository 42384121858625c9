-- ===== src/Examples/Redacting.antt =====
-- Details and metadata that hold secrets.
use backups_microservice.Prelude.{◌≡◌, refl, Option, none, some, [], ◌∷◌, ◌++◌, inr}
use backups_microservice.Js.{Text, text, text_eq}
use backups_microservice.Redaction.{num, str, arr, obj, nil, cons, Fields, end, field, redacted}
use backups_microservice.Redaction.Reading.{at, key, read, IsHidden}
use backups_microservice.Notifications.{Request, notification, by_key, is_sensitive}
use backups_microservice.Notifications.Secrecy.{delivered_secrets-IsHidden, delivered_rest_kept}
use backups_microservice.Logger.{
  OperationLogInput, error, redact_string, operation_payload, central_metadata,
}
use backups_microservice.Logger.Secrecy.{logged_secrets-IsHidden}

-- { jobs: [{ id: 'job', Vault-Token: { raw: 'hunter2' } }], count: 1 }
abbrev details : Fields
details =
    field (text "jobs")
      (arr (
        cons
          (obj (
            field (text "id") (str (text "job")) (
              field (text "Vault-Token") (obj (field (text "raw") (str (text "hunter2")) end))
                end)))
          nil))
      (field (text "count") (num (text "1")) end)

abbrev clean_details : Fields
clean_details =
    field (text "jobs")
      (arr (
        cons
          (obj
            (field (text "id") (str (text "job")) (field (text "Vault-Token") (str redacted) end)))
          nil))
      (field (text "count") (num (text "1")) end)

abbrev env : Text → Option Text
unfolding text_eq
env name = some (text "set")

abbrev post : Request → Option Text
post request = some (text "timeout")

abbrev sent : Request
sent = notification env post (text "backup.failure") (text "failed") (some details)

delivered_secrets-IsHidden_example : IsHidden (
    read
      ((key (text "jobs") ∷ at 0 ∷ []) ++ key (text "Vault-Token") ∷ key (text "raw") ∷ [])
      (obj clean_details))
unfolding backups_microservice.Notifications.Secrecy.request_of
    backups_microservice.Notifications.send backups_microservice.Js.truthy env
    backups_microservice.Js.text_or_empty
delivered_secrets-IsHidden_example =
    delivered_secrets-IsHidden env post (text "backup.failure") (text "failed") details sent refl
      clean_details refl (key (text "jobs") ∷ at 0 ∷ []) (text "Vault-Token")
      (key (text "raw") ∷ []) refl

redacted_message :
    redact_string (text "login PassWord=hunter2 at token= x")
    ≡ text "login PassWord=[redacted] at token= x"
unfolding text redact_string
redacted_message = refl

abbrev input : OperationLogInput
input = record {
  event = text "restore.failed";
  level = some error;
  message = text "failed";
  context = none;
  metadata = some details;
  trace = some (text "stack");
}

abbrev logged : Fields
logged =
    field (text "event") (str (text "restore.failed"))
      (field (text "trace") (str (text "stack")) clean_details)

logged_secrets-IsHidden_example : IsHidden (
    read
      ((key (text "jobs") ∷ at 0 ∷ []) ++ key (text "Vault-Token") ∷ key (text "raw") ∷ [])
      (obj logged))
unfolding central_metadata operation_payload
logged_secrets-IsHidden_example =
    logged_secrets-IsHidden (text "backups") (text "now") input logged (inr refl)
      (key (text "jobs") ∷ at 0 ∷ []) (text "Vault-Token") (key (text "raw") ∷ []) refl
