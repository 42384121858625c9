-- ===== src/Js.antt =====
-- The JavaScript string operations that the service uses, on lists of UTF-16 code units.
pub mod Laws
pub mod Trimming
use Prim.Native.Char.{code}
use Prim.Native.Nat.{◌/◌, ◌%◌}
use backups_microservice.Prelude.{
  ℕ, zero, suc, ◌-◌, ◌+◌, ◌*◌, String, ltb, Bool, true, false, ◌&&◌, ◌||◌, List, [], ◌∷◌, ◌++◌,
  Option, none, some, ◌==◌, leb, length, drop, take, any, if◌then◌else◌,
}

-- A string value: its UTF-16 code units.
abbrev pub Text : Type 0
Text = List ℕ

-- A literal of the source, whose characters are all in the basic plane.
unfoldable pub text : String → Text
text String.[] = []
text (String.◌∷◌ c s) = code c ∷ text s

-- `===` on strings.
unfoldable pub text_eq : Text → Text → Bool
text_eq [] [] = true
text_eq (a ∷ s) (b ∷ t) = a == b && text_eq s t
text_eq _ _ = false

unfoldable pub is_empty : Text → Bool
is_empty [] = true
is_empty _ = false

-- The test of an optional field in `===`, where a missing value equals no string.
unfoldable pub field_eq : Option Text → Text → Bool
unfolding text_eq
field_eq none s = false
field_eq (some t) s = text_eq t s

-- `haystack.startsWith(prefix)`, prefix first.
unfoldable pub starts_with : Text → Text → Bool
starts_with [] s = true
starts_with (a ∷ p) [] = false
starts_with (a ∷ p) (b ∷ s) = a == b && starts_with p s

-- `haystack.endsWith(suffix)`, suffix first.
unfoldable pub ends_with : Text → Text → Bool
unfolding text_eq
ends_with p s = leb (length p) (length s) && text_eq (drop (length s - length p) s) p

-- `s.slice(0, -n)`, for a positive `n`.
unfoldable pub slice_before : ℕ → Text → Text
slice_before n s = take (length s - n) s

-- `s.slice(-n)`, for a positive `n`.
unfoldable pub slice_last : ℕ → Text → Text
slice_last n s = drop (length s - n) s

-- `s.includes(c)` for a single code unit.
unfoldable pub includes : ℕ → Text → Bool
includes c s = any (λ x. x == c) s

-- `s.replace(/^c+/, '')` for a class of code units.
unfoldable pub strip_start : (ℕ → Bool) → Text → Text
strip_start p [] = []
strip_start p (c ∷ s) = let rest = strip_start p s in if p c then rest else c ∷ s

abbrev pub cons_unless : Bool → ℕ → Text → Text
cons_unless b c [] = if b then [] else c ∷ []
cons_unless b c (d ∷ s) = c ∷ d ∷ s

-- `s.replace(/c+$/, '')` for a class of code units.
unfoldable pub strip_end : (ℕ → Bool) → Text → Text
strip_end p [] = []
strip_end p (c ∷ s) = cons_unless (p c) c (strip_end p s)

-- The WhiteSpace and LineTerminator code units, which `trim` and `\s` take.
unfoldable pub is_space : ℕ → Bool
is_space c =
    (leb 9 c && leb c 13)
    || c == 32
    || c == 0xa0
    || c == 0x1680
    || (leb 0x2000 c && leb c 0x200a)
    || c == 0x2028
    || c == 0x2029
    || c == 0x202f
    || c == 0x205f
    || c == 0x3000
    || c == 0xfeff

unfoldable pub trim : Text → Text
trim s = strip_end is_space (strip_start is_space s)

-- A regular expression that is a row of classes between `^` and `$`.
unfoldable pub matches : List (ℕ → Bool) → Text → Bool
matches [] [] = true
matches (p ∷ ps) (c ∷ s) = p c && matches ps s
matches _ _ = false

-- `${a}` of a nullable field that is known to hold a string, and `a || ''`.
unfoldable pub text_or_empty : Option Text → Text
text_or_empty none = []
text_or_empty (some s) = s

-- The truth value of a nullable string: `null`, `undefined` and `''` are false.
unfoldable pub truthy : Option Text → Bool
unfolding is_empty
truthy none = false
truthy (some []) = false
truthy (some (c ∷ s)) = true

-- `String(n)` for a natural number: its decimal digits, on fuel.
unfoldable pub decimal_from : ℕ → ℕ → Text → Text
decimal_from zero n rest = rest
decimal_from (suc f) n rest =
    let more = decimal_from f (n / 10) ((b'0' + n % 10) ∷ rest) in
    if ltb n 10 then (b'0' + n) ∷ rest else more

unfoldable pub decimal : ℕ → Text
unfolding decimal_from
decimal n = decimal_from (suc n) n []

-- `s.split(c)` for a class of single code units: the first piece, and the others.
unfoldable pub split_by : (ℕ → Bool) → Text → Text × List Text
split_by p [] = ([], [])
split_by p (c ∷ s) = let (w, ws) = split_by p s in if p c then ([], w ∷ ws) else (c ∷ w, ws)

unfoldable pub split : (ℕ → Bool) → Text → List Text
unfolding split_by
split p s = let (w, ws) = split_by p s in w ∷ ws

-- One letter in lower case, as the flag `i` compares the letters of the patterns.
unfoldable pub lower : ℕ → ℕ
lower c = if leb b'A' c && leb c b'Z' then c + 32 else c

unfoldable pub lower_case : Text → Text
unfolding lower
lower_case [] = []
lower_case (c ∷ s) = lower c ∷ lower_case s

-- `s.includes(p)` for a text.
unfoldable pub contains : Text → Text → Bool
unfolding starts_with
contains p [] = starts_with p []
contains p (c ∷ s) = starts_with p (c ∷ s) || contains p s

-- `s.toLowerCase()`, for tests of words in ASCII: beside the letters of ASCII, the Kelvin sign and
-- the capital I with a dot are the ones whose small letters hold one of ASCII.
unfoldable pub lower_units : ℕ → Text
unfolding lower
lower_units c =
    if c == 0x212a then b'k' ∷ [] else if c == 0x130 then b'i' ∷ 0x307 ∷ [] else lower c ∷ []

unfoldable pub to_lower_case : Text → Text
unfolding lower_units
to_lower_case [] = []
to_lower_case (c ∷ s) = lower_units c ++ to_lower_case s

-- `Number.parseInt(s, 10)` where it is a positive number.
unfoldable pub is_digit : ℕ → Bool
is_digit c = leb b'0' c && leb c b'9'

unfoldable pub digits_value : ℕ → Text → ℕ
unfolding is_digit
digits_value n [] = n
digits_value n (c ∷ s) =
    let rest = digits_value (n * 10 + (c - b'0')) s in if is_digit c then rest else n

abbrev after_plus : Text → Text
after_plus [] = []
after_plus (c ∷ s) = if c == b'+' then s else c ∷ s

unfoldable pub parse_positive : Text → Option ℕ
unfolding digits_value strip_start is_space
parse_positive s =
    let n = digits_value 0 (after_plus (strip_start is_space s)) in if n == 0 then none else some n
