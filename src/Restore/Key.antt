-- ===== src/Restore/Key.antt =====
-- `clean`, `restoreError` and `restoreIdempotencyKey` of src/restore/restore.service.ts, and the
-- request body of src/restore/dto/create-restore.dto.ts.
use backups_microservice.Prelude.{
  ℕ, ◌-◌, ◌+◌, Bool, false, ◌&&◌, ◌||◌, Option, none, some, List, [], ◌∷◌, ◌++◌, ◌==◌, leb, ltb,
  if◌then◌else◌,
}
use Prim.Native.Nat.{◌/◌, ◌%◌}
use backups_microservice.Js.{Text, text, is_empty, trim, slice_last}

-- CreateRestoreDto
pub record CreateRestoreDto : Type 0 where
  pub backup_run_id : Text
  pub target_id : Text
  pub approval_confirmed_backup_run_id : Text
  pub approval_confirmed_target_id : Text
  pub approval_actor : Text
  pub approval_reason : Text
  pub production_restore_approved : Bool
  pub idempotency_key : Option Text

unfoldable pub clean : Option Text → Text
clean none = []
clean (some s) = trim s

unfoldable pub restore_error : Text → Text
unfolding clean
restore_error output = slice_last 500 (
    if is_empty (clean (some output))
    then text "PostgreSQL restore failed without diagnostic output."
    else clean (some output))

-- JSON.stringify of a string: quotes, backslashes, controls and lone surrogates are escaped.
hex_digit : ℕ → ℕ
hex_digit d = if ltb d 10 then b'0' + d else b'a' + (d - 10)

unicode_escape : ℕ → Text
unfolding hex_digit
unicode_escape c =
    b'\\'
    ∷ b'u'
    ∷ hex_digit (c / 4096)
    ∷ hex_digit (c / 256 % 16)
    ∷ hex_digit (c / 16 % 16)
    ∷ hex_digit (c % 16)
    ∷ []

escape_unit : ℕ → Text
unfolding unicode_escape
escape_unit c =
    if c == b'"'
    then b'\\' ∷ b'"' ∷ []
    else if c == b'\\'
    then b'\\' ∷ b'\\' ∷ []
    else if c == 8
    then b'\\' ∷ b'b' ∷ []
    else if c == 12
    then b'\\' ∷ b'f' ∷ []
    else if c == 10
    then b'\\' ∷ b'n' ∷ []
    else if c == 13
    then b'\\' ∷ b'r' ∷ []
    else if c == 9
    then b'\\' ∷ b't' ∷ []
    else if ltb c 32 || (leb 0xd800 c && leb c 0xdfff)
    then unicode_escape c
    else c ∷ []

is_high : ℕ → Bool
is_high c = leb 0xd800 c && leb c 0xdbff

is_low : ℕ → Bool
is_low c = leb 0xdc00 c && leb c 0xdfff

next_is_low : Text → Bool
unfolding is_low
next_is_low [] = false
next_is_low (c ∷ s) = is_low c

-- The flag says that the unit ends a surrogate pair.
escape_from : Bool → Text → Text
unfolding escape_unit is_high next_is_low
escape_from paired [] = []
escape_from paired (c ∷ s) =
    let opens = is_high c && next_is_low s in
    (if paired || opens then c ∷ [] else escape_unit c) ++ escape_from opens s

unfoldable pub json_string : Text → Text
unfolding escape_from
json_string s = b'"' ∷ (escape_from false s ++ b'"' ∷ [])

json_rest : List Text → Text
unfolding json_string
json_rest [] = b']' ∷ []
json_rest (s ∷ ss) = b',' ∷ (json_string s ++ json_rest ss)

-- JSON.stringify of an array of strings.
unfoldable pub json_array : List Text → Text
unfolding json_rest
json_array [] = text "[]"
json_array (s ∷ ss) = b'[' ∷ (json_string s ++ json_rest ss)

unfoldable pub key_payload : CreateRestoreDto → Text → Text
unfolding json_array clean
key_payload dto requested_by = json_array (
    clean (some dto.backup_run_id)
    ∷ clean (some dto.target_id)
    ∷ clean (some dto.approval_actor)
    ∷ clean (some dto.approval_reason)
    ∷ clean (some requested_by)
    ∷ [])

unfoldable pub restore_idempotency_key : (Text → Text) → CreateRestoreDto → Text → Text
unfolding key_payload clean
restore_idempotency_key sha256_hex dto requested_by =
    if is_empty (clean dto.idempotency_key)
    then text "derived:" ++ sha256_hex (key_payload dto requested_by)
    else clean dto.idempotency_key
