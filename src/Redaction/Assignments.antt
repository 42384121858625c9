-- ===== src/Redaction/Assignments.antt =====
-- The redaction of assigned values in a text, which the logger (shared/logger/logger.service.ts) and
-- the health checks (src/health/health.controller.ts) each apply with their own words.
use backups_microservice.Prelude.{
  ℕ, zero, suc, ◌-◌, ◌==◌, drop, Bool, false, not, ◌&&◌, Option, none, some, List, [], ◌∷◌, ◌++◌,
  if◌then◌else◌, length,
}
use backups_microservice.Js.{Text, text, starts_with, is_space, lower_case}

-- `=` and at least one character that is no white space.
abbrev assigns : Text → Bool
unfolding is_space
assigns (c ∷ d ∷ s) = c == b'=' && not (is_space d)
assigns _ = false

-- The length of the word that a match of `(w1|w2|…)=([^\s]+)` at the start of `s` begins with.
unfoldable pub match_length : List Text → Text → Option ℕ
unfolding starts_with lower_case is_space
match_length [] s = none
match_length (w ∷ ws) s =
    let rest = match_length ws s in
    if starts_with w (lower_case s) && assigns (drop (length w) s) then some (length w) else rest

-- Where a replacement stands in the text: outside of a match, in its word with as many characters
-- left before the `=`, or in its value.
pub data Place : Type 0 where
  outside : Place
  in_word : ℕ → Place
  in_value : Place

-- What becomes of one character, with the place after it.
abbrev begin : Option ℕ → ℕ → Text × Place
begin none c = (c ∷ [], outside)
begin (some n) c = (c ∷ [], in_word (n - 1))

unfoldable pub replace_one : List Text → Place → ℕ → Text → Text × Place
unfolding match_length is_space text
replace_one words outside c s = begin (match_length words (c ∷ s)) c
replace_one words (in_word zero) c s = (text "=[redacted]", in_value)
replace_one words (in_word (suc n)) c s = (c ∷ [], in_word n)
replace_one words in_value c s = if is_space c then (c ∷ [], outside) else ([], in_value)

unfoldable pub replace_from : List Text → Place → Text → Text
unfolding replace_one
replace_from words p [] = []
replace_from words p (c ∷ s) =
    let (out, p') = replace_one words p c s in out ++ replace_from words p' s

-- `s.replace(/(w1|w2|…)=([^\s]+)/gi, '$1=[redacted]')`, for words in lower case.
unfoldable pub redact_assignments : List Text → Text → Text
unfolding replace_from
redact_assignments words s = replace_from words outside s
