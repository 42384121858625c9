-- ===== src/Logger/Secrecy.antt =====
-- The metadata that shared/logger/logger.service.ts writes to its files and sends.
use backups_microservice.Prelude.{◌≡◌, sym, subst, true, some, List, ◌∷◌, ◌++◌, ◌⊎◌, inl, inr}
use backups_microservice.Js.{Text}
use backups_microservice.Redaction.{Fields, end, field, obj, sanitize_value}
use backups_microservice.Redaction.Reading.{Key, key, read, IsHidden, read-sanitize_sensitive}
use backups_microservice.Logger.{
  OperationLogInput, is_sensitive, by_key_and_value, sanitize_metadata, unless_empty,
  operation_fields, central_fields, operation_metadata, operation_payload, central_metadata,
}

unless_empty-some : (fs ms : Fields) → unless_empty fs ≡ some ms → ms ≡ fs
unfolding unless_empty
unless_empty-some end ms h = cc
unless_empty-some (field k v fs) ms h = cc

sanitized-IsHidden :
    (fs ms : Fields)
    → ms ≡ sanitize_metadata fs
    → (p : List Key) (k : Text) (q : List Key) → is_sensitive k ≡ true
    → IsHidden (read (p ++ key k ∷ q) (obj ms))
unfolding sanitize_metadata sanitize_value by_key_and_value
sanitized-IsHidden fs ms e p k q h =
    subst (λ f. IsHidden (read (p ++ key k ∷ q) (obj f))) (sym e)
      (read-sanitize_sensitive by_key_and_value p k q (obj fs) h)

-- In the metadata of every log entry, the one that is written to the files and the one that is sent
-- to the logging service, everything at and below a key that is sensitive reads as nothing or as the
-- redacted text, at whatever depth the key stands.
pub logged_secrets-IsHidden :
    (service timestamp : Text) (input : OperationLogInput) (ms : Fields)
    → ((operation_payload service timestamp input).metadata ≡ some ms)
      ⊎ (central_metadata (operation_payload service timestamp input) ≡ some ms)
    → (p : List Key) (k : Text) (q : List Key) → is_sensitive k ≡ true
    → IsHidden (read (p ++ key k ∷ q) (obj ms))
unfolding operation_payload operation_metadata central_metadata sanitize_metadata
logged_secrets-IsHidden service timestamp input ms (inl written) p k q h =
    sanitized-IsHidden (operation_fields input) ms (unless_empty-some _ ms written) p k q h
logged_secrets-IsHidden service timestamp input ms (inr sent) p k q h =
    sanitized-IsHidden (central_fields (operation_payload service timestamp input)) ms
      (unless_empty-some _ ms sent) p k q h
