-- ===== src/Authentication/Uri.antt =====
-- `decodeURIComponent`, which src/auth/jwt-roles.guard.ts applies to a cookie.
use backups_microservice.Prelude.{
  ℕ, zero, suc, not, ◌+◌, ◌-◌, ◌*◌, Bool, ◌&&◌, Option, none, some, List, [], ◌∷◌, ◌++◌, ◌==◌, leb,
  ltb, if◌then◌else◌,
}
use Prim.Native.Nat.{◌/◌, ◌%◌}
use backups_microservice.Js.{Text}

-- A code unit that stands for itself, or an escaped byte.
pub data Token : Type 0 where
  plain : ℕ → Token
  byte : ℕ → Token

hex_value : ℕ → Option ℕ
hex_value c =
    if leb b'0' c && leb c b'9'
    then some (c - b'0')
    else if leb b'a' c && leb c b'f'
    then some (c - b'a' + 10)
    else if leb b'A' c && leb c b'F'
    then some (c - b'A' + 10)
    else none

abbrev pair : Option ℕ → Option ℕ → Option Token
pair (some a) (some b) = some (byte (a * 16 + b))
pair _ _ = none

abbrev cons_token : {A : Type 0} → Option A → Option (List A) → Option (List A)
cons_token (some a) (some rest) = some (a ∷ rest)
cons_token _ _ = none

unfoldable pub tokens : Text → Option (List Token)
unfolding hex_value
tokens [] = some []
tokens (c ∷ []) = if c == b'%' then none else some (plain c ∷ [])
tokens (c ∷ d ∷ []) = if c == b'%' then none else cons_token (some (plain c)) (tokens (d ∷ []))
tokens (c ∷ d ∷ e ∷ s) =
    let escaped = cons_token (pair (hex_value d) (hex_value e)) (tokens s) in
    let literal = cons_token (some (plain c)) (tokens (d ∷ e ∷ s)) in
    if c == b'%' then escaped else literal

is_next : ℕ → Bool
is_next b = leb 0x80 b && leb b 0xbf

-- A code point above the basic plane, as two code units.
units_of : ℕ → Text
units_of n =
    if ltb n 0x10000
    then n ∷ []
    else (0xd800 + (n - 0x10000) / 0x400) ∷ (0xdc00 + (n - 0x10000) % 0x400) ∷ []

-- Between two code points, or in one: how many bytes are to come after the next one, its bits so
-- far, and the least code point of its form.
pub data Pending : Type 0 where
  ready : Pending
  awaiting : ℕ → ℕ → ℕ → Pending

lead : ℕ → Option (Text × Pending)
lead a =
    if ltb a 0x80
    then some (a ∷ [], ready)
    else if leb 0xc0 a && ltb a 0xe0
    then some ([], awaiting 0 (a - 0xc0) 0x80)
    else if leb 0xe0 a && ltb a 0xf0
    then some ([], awaiting 1 (a - 0xe0) 0x800)
    else if leb 0xf0 a && ltb a 0xf8
    then some ([], awaiting 2 (a - 0xf0) 0x10000)
    else none

-- The code point is complete: it must need its form, and be no surrogate.
follow : ℕ → ℕ → ℕ → Option (Text × Pending)
unfolding units_of
follow zero n least =
    if leb least n && leb n 0x10ffff && not (leb 0xd800 n && leb n 0xdfff)
    then some (units_of n, ready)
    else none
follow (suc more) n least = some ([], awaiting more n least)

advance : Pending → Token → Option (Text × Pending)
unfolding lead follow is_next
advance ready (plain c) = some (c ∷ [], ready)
advance ready (byte a) = lead a
advance (awaiting more n least) (plain c) = none
advance (awaiting more n least) (byte b) =
    if is_next b then follow more (n * 0x40 + (b - 0x80)) least else none

abbrev prepend : Text → Option Text → Option Text
prepend s none = none
prepend s (some t) = some (s ++ t)

abbrev continue : Option (Text × Pending) → (Pending → Option Text) → Option Text
continue none rest = none
continue (some (out, p)) rest = prepend out (rest p)

decode_from : Pending → List Token → Option Text
unfolding advance
decode_from ready [] = some []
decode_from (awaiting more n least) [] = none
decode_from p (t ∷ ts) = continue (advance p t) (λ q. decode_from q ts)

abbrev decode_all : Option (List Token) → Option Text
unfolding decode_from
decode_all none = none
decode_all (some ts) = decode_from ready ts

-- No text stands for a URIError.
unfoldable pub decode_uri_component : Text → Option Text
unfolding tokens decode_from
decode_uri_component s = decode_all (tokens s)
