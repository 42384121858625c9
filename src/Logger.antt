-- ===== src/Logger.antt =====
-- The redaction and the payloads of shared/logger/logger.service.ts.
pub mod Secrecy
use backups_microservice.Prelude.{
  ℕ, zero, suc, ◌-◌, ◌==◌, drop, Bool, true, false, not, ◌&&◌, Option, none, some, List, [], ◌∷◌,
  ◌++◌, if◌then◌else◌, map, length,
}
use backups_microservice.Js.{
  Text, text, text_eq, starts_with, is_space, lower_case, truthy, text_or_empty,
}
use backups_microservice.Walg.{or_text}
use backups_microservice.Redaction.{
  Value, undefined, num, str, Fields, end, field, Redactor, matches_any, sanitize_fields,
  is_undefined,
}
use backups_microservice.Redaction.Reading.{get}
use backups_microservice.Redaction.Assignments.{redact_assignments}

-- SENSITIVE_KEY_PATTERN, whose optional separators are written out.
abbrev pub sensitive_words : List Text
unfolding text
sensitive_words = map text (
    "authorization" ∷ "token" ∷ "password" ∷ "secret" ∷ "accesskey" ∷ "access_key" ∷ "access-key"
    ∷ "privatekey" ∷ "private_key" ∷ "private-key" ∷ "credential" ∷ "vault" ∷ "pgpassword"
    ∷ "aws_secret_access_key" ∷ [])

unfoldable pub is_sensitive : Text → Bool
unfolding matches_any
is_sensitive k = matches_any sensitive_words k

-- The words of SENSITIVE_VALUE_PATTERN.
abbrev pub assigned_words : List Text
unfolding text
assigned_words = map text (
    "password" ∷ "token" ∷ "secret" ∷ "authorization" ∷ "accesskey" ∷ "access_key" ∷ "access-key"
    ∷ [])

unfoldable pub redact_string : Text → Text
unfolding redact_assignments
redact_string s = redact_assignments assigned_words s

unfoldable pub by_key_and_value : Redactor
unfolding is_sensitive redact_string
by_key_and_value = record { sensitive = is_sensitive; of_text = redact_string }

unfoldable pub sanitize_metadata : Fields → Fields
unfolding sanitize_fields by_key_and_value
sanitize_metadata fs = sanitize_fields by_key_and_value fs

-- `{ ...a, ...b }`: an entry of `b` takes the place of the entry of `a` with its key.
unfoldable pub set_field : Text → Value → Fields → Fields
unfolding text_eq
set_field k v end = field k v end
set_field k v (field k' v' fs) =
    let rest = set_field k v fs in if text_eq k' k then field k v fs else field k' v' rest

unfoldable pub spread : Fields → Fields → Fields
unfolding set_field
spread a end = a
spread a (field k v fs) = spread (set_field k v a) fs

-- `...(value ? { key: value } : {})`
unfoldable pub optional_field : Text → Option Text → Fields → Fields
unfolding truthy text_or_empty
optional_field k v fs = if truthy v then field k (str (text_or_empty v)) fs else fs

abbrev pub or_no_fields : Option Fields → Fields
or_no_fields none = end
or_no_fields (some fs) = fs

-- `metadata && Object.keys(metadata).length > 0 ? { metadata } : {}`
unfoldable pub unless_empty : Fields → Option Fields
unless_empty end = none
unless_empty (field k v fs) = some (field k v fs)

pub data LogLevel : Type 0 where
  info warn error debug : LogLevel

-- OperationLogInput
pub record OperationLogInput : Type 0 where
  pub event : Text
  pub level : Option LogLevel
  pub message : Text
  pub context : Option Text
  pub metadata : Option Fields
  pub trace : Option Text

-- StructuredLogPayload, and the payload of the logging service, which holds no event.
pub record StructuredLogPayload : Type 0 where
  pub level : LogLevel
  pub message : Text
  pub service : Text
  pub event : Text
  pub timestamp : Text
  pub duration_ms : Option Text
  pub correlation_id : Option Text
  pub metadata : Option Fields

abbrev number_value : Value → Option Text
number_value (num n) = some n
number_value _ = none

abbrev string_value : Value → Option Text
string_value (str s) = some s
string_value _ = none

abbrev or_string : Option Text → Option Text → Option Text
or_string none b = b
or_string (some a) b = some a

abbrev non_empty : Option Text → Option Text
unfolding truthy
non_empty o = if truthy o then o else none

abbrev level_or_info : Option LogLevel → LogLevel
level_or_info none = info
level_or_info (some l) = l

unfoldable pub operation_fields : OperationLogInput → Fields
unfolding spread optional_field text
operation_fields input =
    spread
      (optional_field (text "context") input.context
        (optional_field (text "trace") input.trace end))
      (or_no_fields input.metadata)

unfoldable pub operation_metadata : OperationLogInput → Fields
unfolding sanitize_metadata operation_fields
operation_metadata input = sanitize_metadata (operation_fields input)

-- The payload of `operation`, at the time `timestamp`.
unfoldable pub operation_payload :
    (service timestamp : Text) → OperationLogInput → StructuredLogPayload
unfolding operation_metadata redact_string get unless_empty text
operation_payload service timestamp input =
    let metadata = operation_metadata input in
    record {
      level = level_or_info input.level;
      event = input.event;
      message = redact_string input.message;
      service = service;
      timestamp = timestamp;
      duration_ms = number_value (get (text "duration_ms") metadata);
      correlation_id = non_empty (
          or_string (string_value (get (text "correlation_id") metadata))
            (string_value (get (text "correlationId") metadata)));
      metadata = unless_empty metadata;
    }

unfoldable pub central_fields : StructuredLogPayload → Fields
unfolding spread optional_field text
central_fields payload =
    spread (optional_field (text "event") (some payload.event) end) (or_no_fields payload.metadata)

-- The metadata that is sent to the logging service.
unfoldable pub central_metadata : StructuredLogPayload → Option Fields
unfolding sanitize_metadata central_fields unless_empty
central_metadata payload = unless_empty (sanitize_metadata (central_fields payload))
