-- ===== src/DatabaseName.antt =====
-- The validator of database names: src/common/database-name.ts.
pub mod Safety
use backups_microservice.Prelude.{
  ℕ, Bool, true, false, ◌&&◌, ◌||◌, List, [], ◌∷◌, ◌++◌, Option, none, some, ◌==◌, leb, ltb, length,
  all, any, if◌then◌else◌,
}
use backups_microservice.Js.{Text, text, is_empty, starts_with, includes}
use backups_microservice.Errors.{Error, bad_request, Result, ok, err}

abbrev pub database_name_max_length : ℕ
database_name_max_length = 63

-- `[A-Za-z0-9_]`
unfoldable pub is_word : ℕ → Bool
is_word c =
    (leb b'A' c && leb c b'Z')
    || (leb b'a' c && leb c b'z')
    || (leb b'0' c && leb c b'9')
    || c == b'_'

-- `[A-Za-z0-9_$-]`
unfoldable pub is_name_char : ℕ → Bool
unfolding is_word
is_name_char c = is_word c || c == b'$' || c == b'-'

-- DATABASE_NAME_PATTERN
unfoldable pub database_name_pattern : Text → Bool
database_name_pattern [] = false
database_name_pattern (c ∷ s) = is_word c && all is_name_char s

-- WHITESPACE_OR_CONTROL
unfoldable pub whitespace_or_control : ℕ → Bool
whitespace_or_control c = leb c 0x20 || (leb 0x7f c && leb c 0x9f)

pub data Violation : Type 0 where
  not_a_string required too_long has_whitespace option_like key_value uri_or_path bad_character :
      Violation

-- databaseNameViolation; the argument is `none` for a value whose `typeof` is not `string`.
unfoldable pub database_name_violation : Option Text → Option Violation
database_name_violation none = some not_a_string
database_name_violation (some value) =
    if is_empty value
    then some required
    else if ltb database_name_max_length (length value)
    then some too_long
    else if any whitespace_or_control value
    then some has_whitespace
    else if starts_with (text "-") value
    then some option_like
    else if includes b'=' value
    then some key_value
    else if includes b':' value || includes b'/' value || includes b'\\' value
    then some uri_or_path
    else if database_name_pattern value
    then none
    else some bad_character

-- The messages that `databaseNameViolation` returns.
unfoldable pub violation_message : Violation → Text
violation_message not_a_string = text "database name must be a plain string"
violation_message required = text "database name is required"
violation_message too_long = text "database name must not exceed 63 characters"
violation_message has_whitespace =
    text "database name must not contain whitespace or control characters"
violation_message option_like = text "database name must not look like a command-line option"
violation_message key_value = text "database name must not contain connection key=value syntax"
violation_message uri_or_path =
    text "database name must not contain a connection URI or path separator"
violation_message bad_character =
    text "database name may only contain letters, digits, underscore, dollar or hyphen"

unfoldable pub is_safe_database_name : Option Text → Bool
unfolding database_name_violation
is_safe_database_name value = elim (database_name_violation value) [ none ↦ true | some v ↦ false ]

unfoldable pub rejection : Text → Option Violation → Text → Result Text
rejection subject none value = ok value
rejection subject (some v) value = err (
    bad_request
      (subject ++ (text " database name rejected: " ++ (violation_message v ++ text "."))))

-- assertSafeDatabaseName, whose callers hold a string
unfoldable pub assert_safe_database_name : Text → Text → Result Text
unfolding rejection
assert_safe_database_name value subject =
    rejection subject (database_name_violation (some value)) value
