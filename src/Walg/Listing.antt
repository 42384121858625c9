-- ===== src/Walg/Listing.antt =====
-- `probeLogicalObject` of src/backup/walg-wrapper.service.ts, from the listing that wal-g printed.
use backups_microservice.Prelude.{
  ℕ, ◌-◌, ◌+◌, ◌*◌, Bool, ◌&&◌, not, Option, none, some, List, [], ◌∷◌, ◌==◌, leb, ltb, length,
  filter, map, if◌then◌else◌, all,
}
use Prim.Native.Nat.{◌^◌}
use backups_microservice.Js.{
  Text, text, text_eq, is_empty, is_space, trim, split, includes, slice_before,
}

pub data LogicalObjectProbe : Type 0 where
  present : ℕ → LogicalObjectProbe
  absent unprovable : LogicalObjectProbe

is_digit : ℕ → Bool
is_digit c = leb b'0' c && leb c b'9'

value_from : ℕ → Text → ℕ
value_from n [] = n
value_from n (c ∷ s) = value_from (n * 10 + (c - b'0')) s

-- From here on a decimal numeral rounds to `Infinity`.
abbrev number_limit : ℕ
number_limit = 2 ^ 1024 - 2 ^ 970

positive : ℕ → Option ℕ
positive n = if n == 0 then none else if ltb n number_limit then some n else none

-- `Number(s)`, kept if it is finite and positive. The parameter is for a text that is no plain
-- decimal numeral.
unfoldable pub positive_number : (Text → Option ℕ) → Text → Option ℕ
unfolding is_digit value_from positive
positive_number other s =
    if not (is_empty s) && all is_digit s then positive (value_from 0 s) else other s

unfoldable pub is_newline : ℕ → Bool
is_newline c = c == 10

-- `line.split(/\s+/)` of a trimmed line.
unfoldable pub columns : Text → List Text
columns line = filter (λ s. not (is_empty s)) (split is_space line)

unfoldable pub second_column : List Text → Text
second_column (a ∷ b ∷ rest) = b
second_column _ = []

unfoldable pub last_column : List Text → Text
last_column [] = []
last_column (a ∷ []) = a
last_column (a ∷ b ∷ rest) = last_column (b ∷ rest)

unfoldable pub first_column : List Text → Text
first_column [] = []
first_column (a ∷ rest) = a

unfoldable pub is_object_row : Text → List Text → Bool
unfolding first_column last_column
is_object_row leaf row =
    leb 3 (length row)
    && (text_eq (first_column row) (text "obj") && text_eq (last_column row) leaf)

unfoldable pub object_rows : Text → Text → List (List Text)
unfolding is_newline columns is_object_row
object_rows leaf output =
    filter (is_object_row leaf)
      (map columns (filter (λ s. not (is_empty s)) (map trim (split is_newline output))))

size_verdict : Option ℕ → LogicalObjectProbe
size_verdict none = unprovable
size_verdict (some n) = present n

judge_rows : (Text → Option ℕ) → List (List Text) → LogicalObjectProbe
unfolding size_verdict positive_number second_column
judge_rows other [] = absent
judge_rows other (row ∷ []) = size_verdict (positive_number other (second_column row))
judge_rows other (row ∷ row' ∷ rows) = unprovable

unfoldable pub judge_listing : (Text → Option ℕ) → Text → Text → LogicalObjectProbe
unfolding object_rows judge_rows
judge_listing other leaf output = judge_rows other (object_rows leaf output)

-- `objectName.slice(0, i)` and `objectName.slice(i + 1)` at the last slash.
at_last_slash : Text → Text × Text
at_last_slash [] = ([], [])
at_last_slash (c ∷ s) =
    let (f, l) = at_last_slash s in if includes b'/' s then (c ∷ f, l) else ([], s)

unfoldable pub folder_and_leaf : Text → Text × Text
unfolding at_last_slash
folder_and_leaf s = if includes b'/' s then at_last_slash s else (slice_before 1 s, s)
