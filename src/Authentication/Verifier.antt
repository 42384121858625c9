-- ===== src/Authentication/Verifier.antt =====
-- The verification of tokens and the cache of keys in src/auth/jwt-verifier.ts.
use backups_microservice.Prelude.{
  ℕ, suc, ◌-◌, Bool, true, false, not, ◌||◌, Option, none, some, List, [], ◌∷◌, ◌++◌, ltb,
  if◌then◌else◌,
}
use backups_microservice.Js.{Text, text, text_eq, field_eq, truthy, text_or_empty}

-- The exceptions of the guard and of the verifier, with their messages.
pub data GuardError : Type 0 where
  unauthorized forbidden other_error : Text → GuardError

pub data AuthResult {ℓ} (A : Type ℓ) : Type ℓ where
  got : A → AuthResult A
  refused : GuardError → AuthResult A

-- JWKS_TTL_MS, and the age below which an unknown key fetches nothing.
abbrev pub jwks_ttl_ms : ℕ
jwks_ttl_ms = 300000

abbrev pub unknown_key_ms : ℕ
unknown_key_ms = 5000

pub record Jwk : Type 0 where
  pub kid : Option Text
  pub n : Text
  pub e : Text
  pub kty : Text

-- What the fetch of the key set gives: no response or no JSON, a status that is not ok, or keys.
pub data Fetched : Type 0 where
  no_response : Fetched
  http_status : ℕ → Fetched
  key_set : List Jwk → Fetched

-- The header of a decoded token.
pub record TokenHeader : Type 0 where
  pub alg : Option Text
  pub kid : Option Text

-- VerifiedPayload, whose roles are `none` where they are no array.
pub record VerifiedPayload : Type 0 where
  pub sub : Option Text
  pub email : Option Text
  pub roles : Option (List Text)

-- A key object is held as its exported text.
abbrev pub KeyObject : Type 0
KeyObject = Text

-- The libraries that the verifier calls: `jwt.decode`, `jwt.verify` with the algorithm RS256 and
-- `createPublicKey`, each with the text of its error; the clock, by how often it was read; and the
-- fetches, by how many there were before.
pub record Jwt : Type 0 where
  pub decode : Text → AuthResult (Option TokenHeader)
  pub verify : Text → KeyObject → AuthResult VerifiedPayload
  pub create_public_key : Jwk → Option KeyObject
  pub clock : ℕ → ℕ
  pub fetch : ℕ → Fetched

-- `cachedKeys` and `cachedAt`, with how often the clock was read and the key set fetched.
pub record KeyCache : Type 0 where
  pub keys : List (Text × KeyObject)
  pub cached_at : ℕ
  pub readings : ℕ
  pub fetches : ℕ

unfoldable pub find_key : Text → List (Text × KeyObject) → Option KeyObject
unfolding text_eq
find_key kid [] = none
find_key kid ((k, key) ∷ keys) =
    let rest = find_key kid keys in if text_eq k kid then some key else rest

-- `next.set(kid, key)`
unfoldable pub set_key : Text → KeyObject → List (Text × KeyObject) → List (Text × KeyObject)
unfolding text_eq
set_key kid key [] = (kid, key) ∷ []
set_key kid key ((k, v) ∷ keys) =
    let rest = set_key kid key keys in if text_eq k kid then (k, key) ∷ keys else (k, v) ∷ rest

module _ (jwt : Jwt) where
  -- The keys of a set, over those before it; `none` where the import of one of them throws.
  abbrev pub import_key :
      Option KeyObject → Text → List (Text × KeyObject) → Option (List (Text × KeyObject))
  import_key none kid keys = none
  import_key (some key) kid keys = some (set_key kid key keys)

  unfoldable pub import_keys :
      List Jwk → Option (List (Text × KeyObject)) → Option (List (Text × KeyObject))
  unfolding text_eq truthy set_key text_or_empty text
  import_keys [] keys = keys
  import_keys (k ∷ ks) none = none
  import_keys (k ∷ ks) (some keys) = import_keys ks (
      if not (text_eq k.kty (text "RSA")) || not (truthy k.kid)
      then some keys
      else import_key (jwt.create_public_key k) (text_or_empty k.kid) keys)

  -- `Date.now()`
  unfoldable pub read_clock : KeyCache → ℕ × KeyCache
  read_clock c = (jwt.clock c.readings, record c { readings = suc c.readings })

  abbrev pub install : Option (List (Text × KeyObject)) → KeyCache → KeyCache
  install none c = c
  install (some keys) c = let (now, c') = read_clock c in record c' { keys = keys; cached_at = now }

  abbrev pub receive : Fetched → KeyCache → KeyCache
  receive no_response c = c
  receive (http_status status) c = c
  receive (key_set ks) c = install (import_keys ks (some [])) c

  -- `refreshJwks().catch(() => undefined)`, with no refresh in flight.
  unfoldable pub refresh_jwks : KeyCache → KeyCache
  unfolding import_keys read_clock
  refresh_jwks c = receive (jwt.fetch c.fetches) (record c { fetches = suc c.fetches })

  abbrev pub is_empty_map : List (Text × KeyObject) → Bool
  is_empty_map [] = true
  is_empty_map (k ∷ keys) = false

  abbrev is_missing : Option KeyObject → Bool
  is_missing none = true
  is_missing (some key) = false

  unfoldable pub refresh_if : Bool → KeyCache → KeyCache
  unfolding refresh_jwks
  refresh_if true c = refresh_jwks c
  refresh_if false c = c

  unfoldable pub refresh_stale : KeyCache → KeyCache
  unfolding read_clock refresh_if
  refresh_stale c =
      let (now, c') = read_clock c in
      refresh_if (is_empty_map c'.keys || ltb jwks_ttl_ms (now - c'.cached_at)) c'

  -- The clock is read only where the key is missing.
  abbrev pub refresh_missing : Option KeyObject → KeyCache → KeyCache
  refresh_missing (some key) c = c
  refresh_missing none c =
      let (now, c') = read_clock c in refresh_if (ltb unknown_key_ms (now - c'.cached_at)) c'

  unfoldable pub refresh_unknown : Text → KeyCache → KeyCache
  unfolding find_key read_clock refresh_if
  refresh_unknown kid c = refresh_missing (find_key kid c.keys) c

  unfoldable pub public_key_for : Text → KeyCache → Option KeyObject × KeyCache
  unfolding refresh_stale refresh_unknown find_key
  public_key_for kid c =
      let c' = refresh_unknown kid (refresh_stale c) in (find_key kid c'.keys, c')

  -- A failed verification is reported with the text of its error.
  abbrev pub verification_of : AuthResult VerifiedPayload → AuthResult VerifiedPayload
  verification_of (got payload) = got payload
  verification_of (refused (unauthorized message)) = refused (unauthorized message)
  verification_of (refused (forbidden message)) = refused (unauthorized message)
  verification_of (refused (other_error message)) = refused (unauthorized message)

  abbrev pub check_signature : Text → Text → Option KeyObject → AuthResult VerifiedPayload
  check_signature token kid none = refused (unauthorized (text "No JWKS key for kid " ++ kid))
  check_signature token kid (some key) = verification_of (jwt.verify token key)

  unfoldable pub verify_rs256 :
      Text → Option Text → KeyCache → AuthResult VerifiedPayload × KeyCache
  unfolding public_key_for truthy text_or_empty text
  verify_rs256 token kid c =
      let (key, c') = public_key_for (text_or_empty kid) c in
      if truthy kid
      then (check_signature token (text_or_empty kid) key, c')
      else (refused (unauthorized (text "RS256 token has no kid")), c)

  unfoldable pub alg_of : Option TokenHeader → Option Text
  alg_of none = none
  alg_of (some header) = header.alg

  unfoldable pub kid_of : Option TokenHeader → Option Text
  kid_of none = none
  kid_of (some header) = header.kid

  abbrev or_none : Option Text → Text
  or_none none = text "none"
  or_none (some alg) = alg

  abbrev pub verify_decoded :
      Text → AuthResult (Option TokenHeader) → KeyCache → AuthResult VerifiedPayload × KeyCache
  verify_decoded token (refused e) c = (refused e, c)
  verify_decoded token (got decoded) c =
      if field_eq (alg_of decoded) (text "RS256") then verify_rs256 token (kid_of decoded) c else (
        refused (
            unauthorized (
              text "Unsupported token algorithm "
              ++ or_none (alg_of decoded)
              ++ text "; RS256 required")),
        c,
      )

  unfoldable pub verify_auth_token : Text → KeyCache → AuthResult VerifiedPayload × KeyCache
  unfolding verify_rs256 field_eq alg_of kid_of text
  verify_auth_token token c = verify_decoded token (jwt.decode token) c
