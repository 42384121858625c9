-- ===== src/DatabaseName/Safety.antt =====
-- The names that src/common/database-name.ts accepts, stated apart from the validator.
use backups_microservice.Prelude.{
  ℕ, ◌≤◌, ◌<◌, ◌≡◌, refl, ◌≢◌, ◌↔◌, ◌⊎◌, true, false, [], ◌∷◌, none, some, arith, ◌==◌, length, all,
  any, &&_iff,
}
use backups_microservice.Js.{Text, text, is_empty, starts_with, includes}
use backups_microservice.DatabaseName.{
  is_word, is_name_char, database_name_pattern, whitespace_or_control, database_name_violation,
}

-- A character that PostgreSQL takes in a plain name, by its code.
abbrev pub IsWord : ℕ → Type 0
IsWord c = ((65 ≤ c) × (c ≤ 90)) ⊎ (((97 ≤ c) × (c ≤ 122)) ⊎ (((48 ≤ c) × (c ≤ 57)) ⊎ (c ≡ 95)))

abbrev pub AllNameChars : Text → Type 0
AllNameChars [] = Unit
AllNameChars (c ∷ s) = (IsWord c ⊎ ((c ≡ 36) ⊎ (c ≡ 45))) × AllNameChars s

-- One to 63 characters, a word character first, then word characters, dollars and hyphens.
abbrev pub IsSafeName : Text → Type 0
IsSafeName [] = ⊥
IsSafeName (c ∷ s) = IsWord c × (length s < 63) × AllNameChars s

is_word_iff : (c : ℕ) → (is_word c ≡ true) ↔ IsWord c
unfolding is_word
is_word_iff c = ground arith

is_name_char_iff : (c : ℕ) → (is_name_char c ≡ true) ↔ (IsWord c ⊎ ((c ≡ 36) ⊎ (c ≡ 45)))
unfolding is_name_char
is_name_char_iff c = ground arith

all-name_char→AllNameChars : (s : Text) → all is_name_char s ≡ true → AllNameChars s
all-name_char→AllNameChars [] h = tt
all-name_char→AllNameChars (c ∷ s) h =
    let (hc, hs) = (&&_iff (is_name_char c) (all is_name_char s)).0 h in
    ((is_name_char_iff c).0 hc, all-name_char→AllNameChars s hs)

AllNameChars→all-name_char : (s : Text) → AllNameChars s → all is_name_char s ≡ true
AllNameChars→all-name_char [] h = refl
AllNameChars→all-name_char (c ∷ s) h =
    (&&_iff (is_name_char c) (all is_name_char s)).1
      ((is_name_char_iff c).1 h.0, AllNameChars→all-name_char s h.1)

-- No character of a name is one that an earlier test of the validator looks for.
name_char_harmless :
    (c : ℕ)
    → is_name_char c ≡ true
    → (whitespace_or_control c ≡ false)
      × ((c == b'=') ≡ false)
      × ((c == b':') ≡ false)
      × ((c == b'/') ≡ false)
      × ((c == b'\\') ≡ false)
unfolding is_name_char whitespace_or_control
name_char_harmless c h = ground arith

name_chars_harmless :
    (s : Text)
    → all is_name_char s ≡ true
    → (any whitespace_or_control s ≡ false)
      × (includes b'=' s ≡ false)
      × (includes b':' s ≡ false)
      × (includes b'/' s ≡ false)
      × (includes b'\\' s ≡ false)
unfolding includes
name_chars_harmless [] h = (refl, refl, refl, refl, refl)
name_chars_harmless (c ∷ s) h =
    let (hc, hs) = (&&_iff (is_name_char c) (all is_name_char s)).0 h in
    ground (arith, name_char_harmless c hc, name_chars_harmless s hs)

word_is_name_char : (c : ℕ) → is_word c ≡ true → is_name_char c ≡ true
unfolding is_name_char
word_is_name_char c h = ground arith

word-no_dash : (c : ℕ) (s : Text) → is_word c ≡ true → starts_with (text "-") (c ∷ s) ≡ false
unfolding is_word starts_with text
word-no_dash c s h = ground arith

accepted_of_parts :
    (c : ℕ) (s : Text)
    → is_word c ≡ true
    → all is_name_char s ≡ true
    → length s < 63
    → database_name_violation (some (c ∷ s)) ≡ none
unfolding database_name_violation database_name_pattern is_empty
accepted_of_parts c s hc hs l = ground (
  arith,
  word-no_dash c s hc,
  name_chars_harmless (c ∷ s) ((&&_iff _ _).1 (word_is_name_char c hc, hs)),
)

parts_of_accepted :
    (c : ℕ) (s : Text)
    → database_name_violation (some (c ∷ s)) ≡ none
    → (is_word c ≡ true) × (all is_name_char s ≡ true) × (length s < 63)
unfolding database_name_violation database_name_pattern is_empty
parts_of_accepted c s h = ground arith

violation_empty : database_name_violation (some []) ≢ none
unfolding database_name_violation is_empty
violation_empty h = cc

-- The validator accepts exactly the texts that are safe names.
pub accepts_iff_safe :
    (value : Text) → (database_name_violation (some value) ≡ none) ↔ IsSafeName value
accepts_iff_safe [] = (λ h. violation_empty h, λ h. absurd h)
accepts_iff_safe (c ∷ s) = (λ h. safe (parts_of_accepted c s h), λ h. accepted h)
  where
    safe : (is_word c ≡ true) × (all is_name_char s ≡ true) × (length s < 63) → IsSafeName (c ∷ s)
    safe (hc, hs, l) = ((is_word_iff c).0 hc, l, all-name_char→AllNameChars s hs)

    accepted : IsSafeName (c ∷ s) → database_name_violation (some (c ∷ s)) ≡ none
    accepted (hc, l, hs) =
        accepted_of_parts c s ((is_word_iff c).1 hc) (AllNameChars→all-name_char s hs) l
