-- ===== src/Redaction.antt =====
-- The redaction of values by their keys, which src/notifications/notifications.service.ts and
-- shared/logger/logger.service.ts each apply with their own pattern, and the patterns' matching.
pub mod Reading
pub mod Assignments
use backups_microservice.Prelude.{Bool, true, false, List, if◌then◌else◌, any}
use backups_microservice.Js.{Text, text, contains, lower_case}

-- The values of a details object. A number is held by its printed form; an object is its own
-- enumerable entries, in order.
mutual
  pub data Value : Type 0 where
    undefined null : Value
    bool : Bool → Value
    num : Text → Value
    str : Text → Value
    arr : Items → Value
    obj : Fields → Value

  pub data Items : Type 0 where
    nil : Items
    cons : Value → Items → Items

  pub data Fields : Type 0 where
    end : Fields
    field : Text → Value → Fields → Fields

-- What the two files differ in: the keys that are sensitive, and what becomes of a string.
pub record Redactor : Type 0 where
  pub sensitive : Text → Bool
  pub of_text : Text → Text

abbrev pub is_undefined : Value → Bool
is_undefined undefined = true
is_undefined _ = false

-- REDACTED
unfoldable pub redacted : Text
unfolding text
redacted = text "[redacted]"

unfoldable mutual
  pub sanitize_value : Redactor → Value → Value
  sanitize_value r undefined = undefined
  sanitize_value r null = null
  sanitize_value r (bool b) = bool b
  sanitize_value r (num n) = num n
  sanitize_value r (str s) = str (r.of_text s)
  sanitize_value r (arr xs) = arr (sanitize_items r xs)
  sanitize_value r (obj fs) = obj (sanitize_fields r fs)

  pub sanitize_items : Redactor → Items → Items
  sanitize_items r nil = nil
  sanitize_items r (cons v vs) = cons (sanitize_value r v) (sanitize_items r vs)

  pub sanitize_fields : Redactor → Fields → Fields
  sanitize_fields r end = end
  sanitize_fields r (field k v fs) =
      let v' = if r.sensitive k then str redacted else sanitize_value r v in
      let rest = sanitize_fields r fs in if is_undefined v then rest else field k v' rest

-- `/(w1|w2|…)/i.test(s)`, for words in lower case.
unfoldable pub matches_any : List Text → Text → Bool
unfolding contains lower_case
matches_any words s = any (λ w. contains w (lower_case s)) words
