-- ===== src/Errors.antt =====
-- What an operation throws, by the exception's class, with its message; and what it returns.
use backups_microservice.Prelude.{Bool, true, false, ◌≡◌, refl, arith, if◌then◌else◌}
use backups_microservice.Js.{Text}

-- BadRequestException, ConflictException, ServiceUnavailableException, NotFoundException, a plain
-- `Error`, and a violated unique index of the database, with its name.
pub data Error : Type 0 where
  bad_request conflict service_unavailable not_found plain : Text → Error
  unique_violation : Text → Error

-- `error.message`
unfoldable pub message : Error → Text
message (bad_request m) = m
message (conflict m) = m
message (service_unavailable m) = m
message (not_found m) = m
message (plain m) = m
message (unique_violation m) = m

pub data Result {ℓ} (A : Type ℓ) : Type ℓ where
  err : Error → Result A
  ok : A → Result A

module _ {κ ℓ} {B : Type κ} {A : Type ℓ} where
  infixl 5 ◌>>=◌ ◌>>◌
  -- A throw leaves out what follows it.
  abbrev pub ◌>>=◌ : Result A → (A → Result B) → Result B
  err e >>= rest = err e
  ok a >>= rest = rest a

  abbrev pub ◌>>◌ : Result A → Result B → Result B
  first >> second = first >>= λ _. second

  -- Where a chain has a value, its first part has one, and the rest gives the chain's from it.
  pub chain_ok :
      (first : Result A) (rest : A → Result B) {last : B}
      → (first >>= rest) ≡ ok last
      → (a : A) × (first ≡ ok a) × (rest a ≡ ok last)
  chain_ok (err e) rest h = cc
  chain_ok (ok a) rest h = (a, refl, h)

abbrev pub throw_if : Bool → Error → Result (Unit {0})
throw_if true e = err e
throw_if false e = ok tt

-- A guarded result that is `ok` passed its guard.
pub ok_of_if {ℓ} :
    {A : Type ℓ} (b : Bool) (e : Error) {x y : A}
    → (if b then ok x else err e) ≡ ok y
    → (b ≡ true) × (x ≡ y)
ok_of_if b e h = ground arith
