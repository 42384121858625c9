-- ===== src/Authentication/Fetches.antt =====
-- How often src/auth/jwt-verifier.ts fetches the key set for one request.
use backups_microservice.Prelude.{
  ℕ, suc, ltb, ◌||◌, ◌+◌, ◌≤◌, ◌-◌, ◌≡◌, refl, Bool, true, false, Option, none, some, List, [], ◌∷◌,
  arith, ap, Bool-cases, inl, inr, ◌⊎◌, ◌<◌,
}
use backups_microservice.Js.{Text, text, text_or_empty, truthy, field_eq}
use backups_microservice.Authentication.Verifier.{
  AuthResult, got, refused, Jwt, KeyObject, TokenHeader, KeyCache, Fetched, no_response,
  http_status, key_set, find_key, read_clock, kid_of, alg_of, refresh_jwks, refresh_if,
  refresh_stale, refresh_unknown, public_key_for, verify_rs256, verify_decoded, verify_auth_token,
  install, receive, import_keys, jwks_ttl_ms, unknown_key_ms, refresh_missing, is_empty_map,
}
use backups_microservice.Authentication.{
  Route, Headers, can_activate, admit_token, admit_bearer, admit_headers, token_of, read_cookie,
  admin_cookie, roles_or_none, has_roles, is_service_token,
}
use backups_microservice.Authentication.Authorization.{truthy-some, field_eq-some}

-- At most `n` fetches lie between two states of the cache.
record FetchesWithin (n : ℕ) (c c' : KeyCache) : Type 0 where
  pub least : c.fetches ≤ c'.fetches
  pub most : c'.fetches ≤ c.fetches + n

module _ (jwt : Jwt) where
  install_fetches :
      (keys : Option (List (Text × KeyObject))) (c : KeyCache)
      → (install jwt keys c).fetches ≡ c.fetches
  unfolding read_clock
  install_fetches none c = refl
  install_fetches (some keys) c = refl

  receive_fetches : (f : Fetched) (c : KeyCache) → (receive jwt f c).fetches ≡ c.fetches
  receive_fetches no_response c = refl
  receive_fetches (http_status status) c = refl
  receive_fetches (key_set ks) c = install_fetches (import_keys jwt ks (some [])) c

  refresh_if_within : (b : Bool) (c : KeyCache) → FetchesWithin 1 c (refresh_if jwt b c)
  unfolding refresh_if refresh_jwks
  refresh_if_within true c =
      omega (arith, receive_fetches (jwt.fetch c.fetches) (record c { fetches = suc c.fetches }))
  refresh_if_within false c = omega arith

  refresh_stale_within : (c : KeyCache) → FetchesWithin 1 c (refresh_stale jwt c)
  unfolding refresh_stale read_clock
  refresh_stale_within c =
      let (now, c') = read_clock jwt c in
      omega (
        arith,
        refresh_if_within (is_empty_map jwt c'.keys || ltb jwks_ttl_ms (now - c'.cached_at)) c',
      )

  refresh_missing_within :
      (key : Option KeyObject) (c : KeyCache) → FetchesWithin 1 c (refresh_missing jwt key c)
  unfolding read_clock
  refresh_missing_within (some key) c = omega arith
  refresh_missing_within none c =
      let (now, c') = read_clock jwt c in
      omega (arith, refresh_if_within (ltb unknown_key_ms (now - c'.cached_at)) c')

  public_key_for_within :
      (kid : Text) (c : KeyCache) → FetchesWithin 2 c (public_key_for jwt kid c).1
  unfolding public_key_for refresh_unknown
  public_key_for_within kid c =
      let c' = refresh_stale jwt c in
      omega (arith, refresh_stale_within c, refresh_missing_within (find_key kid c'.keys) c')

  -- The key set is missing, or older than its time to live.
  abbrev pub IsStale : KeyCache → Type 0
  IsStale c = (c.keys ≡ []) ⊎ (c.cached_at + jwks_ttl_ms < jwt.clock c.readings)

  -- The key is not in the set, which is older than five seconds at the next reading of the clock.
  abbrev pub IsUnknown : Text → KeyCache → Type 0
  IsUnknown kid c =
      (find_key kid c.keys ≡ none) × (c.cached_at + unknown_key_ms < jwt.clock (suc c.readings))

  -- Nothing is fetched; or at most two fetches are made, for a reason.
  abbrev pub FetchesFor : Type 0 → KeyCache → KeyCache → Type 0
  FetchesFor N c c' = (c'.fetches ≡ c.fetches) ⊎ ((c'.fetches ≤ c.fetches + 2) × N)

  refresh_cases :
      (c : KeyCache) → IsStale c ⊎ (refresh_stale jwt c ≡ record c { readings = suc c.readings })
  unfolding refresh_stale read_clock refresh_if
  refresh_cases c =
      elim (Bool-cases
        (is_empty_map jwt c.keys || ltb jwks_ttl_ms (jwt.clock c.readings - c.cached_at))) [
          | inr fresh ↦ inr (rw fresh refl)
          | inl stale ↦
              inl
                (of_keys c.keys refl (ground (arith, stale, Bool-cases (is_empty_map jwt c.keys))))
        ]
    where
      of_keys :
          (ks : List (Text × KeyObject))
          → c.keys ≡ ks
          → (is_empty_map jwt c.keys ≡ true)
            ⊎ (ltb jwks_ttl_ms (jwt.clock c.readings - c.cached_at) ≡ true)
          → IsStale c
      of_keys [] e h = inl e
      of_keys (k ∷ ks) e (inl empty) = absurd (ground (arith, ap (is_empty_map jwt) e, empty))
      of_keys (k ∷ ks) e (inr old) = inr (ground (arith, old))

  missing_for :
      (kid : Text) (key : Option KeyObject) (c : KeyCache)
      → find_key kid c.keys ≡ key
      → FetchesFor
          (IsUnknown kid c)
          c
          (refresh_missing jwt key (record c { readings = suc c.readings }))
  unfolding read_clock refresh_if
  missing_for kid (some key) c e = inl refl
  missing_for kid none c e =
      elim (Bool-cases (ltb unknown_key_ms (jwt.clock (suc c.readings) - c.cached_at))) [
        | inr young ↦ inl (rw young refl)
        | inl old ↦ inr (
          ground (arith, refresh_missing_within none (record c { readings = suc c.readings })),
          (e, ground (arith, old)),
        )
      ]

  public_key_for_cases :
      (kid : Text) (c : KeyCache)
      → FetchesFor (IsStale c ⊎ IsUnknown kid c) c (public_key_for jwt kid c).1
  unfolding public_key_for refresh_unknown
  public_key_for_cases kid c = elim (refresh_cases c) [
    | inl stale ↦ inr ((public_key_for_within kid c).most, inl stale)
    | inr fresh ↦ rw fresh (elim (missing_for kid (find_key kid c.keys) c refl) [
      | inl same ↦ inl same
      | inr (most, unknown) ↦ inr (most, inr unknown)
    ])
  ]

  -- A key is asked for that the cache cannot give.
  abbrev pub NeedsKey : Option Text → KeyCache → Type 0
  NeedsKey kid c = (k : Text) × (kid ≡ some k) × (IsStale c ⊎ IsUnknown k c)

  verify_rs256_cases :
      (token : Text) (kid : Option Text) (c : KeyCache)
      → FetchesFor (NeedsKey kid c) c (verify_rs256 jwt token kid c).1
  unfolding verify_rs256
  verify_rs256_cases token kid c = elim (Bool-cases (truthy kid)) [
    | inr missing ↦ inl (rw missing refl)
    | inl named ↦ rw named (elim (public_key_for_cases (text_or_empty kid) c) [
      | inl same ↦ inl same
      | inr (most, why) ↦ inr (most, (text_or_empty kid, truthy-some jwt kid named, why))
    ])
  ]

  -- The token names such a key, for the one algorithm that the verifier takes.
  abbrev pub NeedsKeys : Text → KeyCache → Type 0
  NeedsKeys token c =
      (header : TokenHeader) × (jwt.decode token ≡ got (some header))
      × (header.alg ≡ some (text "RS256"))
      × NeedsKey header.kid c

  verify_decoded_cases :
      (token : Text) (d : AuthResult (Option TokenHeader)) (c : KeyCache)
      → jwt.decode token ≡ d
      → FetchesFor (NeedsKeys token c) c (verify_decoded jwt token d c).1
  unfolding alg_of kid_of field_eq
  verify_decoded_cases token (refused e) c h = inl refl
  verify_decoded_cases token (got none) c h = inl refl
  verify_decoded_cases token (got (some header)) c h =
      elim (Bool-cases (field_eq header.alg (text "RS256"))) [
        | inr other ↦ inl (rw other refl)
        | inl rs256 ↦ rw rs256 (elim (verify_rs256_cases token header.kid c) [
          | inl same ↦ inl same
          | inr (most, why) ↦ inr (most, (header, h, field_eq-some jwt _ _ rs256, why))
        ])
      ]

  module _ (env : Text → Option Text) where
    admit_token_cases :
        (required : List Text) (token : Text) (c : KeyCache)
        → FetchesFor (NeedsKeys token c) c (admit_token jwt env required token c).1
    unfolding admit_token verify_auth_token
    admit_token_cases required token c = elim (Bool-cases (is_service_token jwt env token)) [
      | inl static ↦ inl (rw static refl)
      | inr other ↦ rw other (verify_decoded_cases token (jwt.decode token) c refl)
    ]

    -- The token that a request sends needs the key set.
    abbrev pub RequestNeedsKeys : Headers → KeyCache → Type 0
    RequestNeedsKeys headers c =
        (cookie : Option Text) × (token : Text) × (read_cookie headers.cookie admin_cookie
          ≡ got cookie)
        × (token_of headers.authorization cookie ≡ some token)
        × NeedsKeys token c

    admit_bearer_cases :
        (required : List Text) (headers : Headers) (cookie token : Option Text) (c : KeyCache)
        → read_cookie headers.cookie admin_cookie ≡ got cookie
        → token_of headers.authorization cookie ≡ token
        → FetchesFor (RequestNeedsKeys headers c) c (admit_bearer jwt env required token c).1
    admit_bearer_cases required headers cookie none c k t = inl refl
    admit_bearer_cases required headers cookie (some token) c k t =
        elim (admit_token_cases required token c) [
          | inl same ↦ inl same
          | inr (most, why) ↦ inr (most, (cookie, token, k, t, why))
        ]

    admit_headers_cases :
        (required : List Text) (headers : Headers) (cookie : AuthResult (Option Text))
        (c : KeyCache)
        → read_cookie headers.cookie admin_cookie ≡ cookie
        → FetchesFor
            (RequestNeedsKeys headers c)
            c
            (admit_headers jwt env required headers.authorization cookie c).1
    admit_headers_cases required headers (refused e) c k = inl refl
    admit_headers_cases required headers (got cookie) c k =
        admit_bearer_cases required headers cookie (token_of headers.authorization cookie) c k refl

    -- For one request, the guard fetches the key set only if the token that the request sends needs it:
    -- the token names the one algorithm that is taken and a key, and the set is missing or older than
    -- its time to live, or it does not hold the key and is older than five seconds. Then it fetches it
    -- at most twice; otherwise it does not fetch it.
    pub request_fetches_when_needed :
        (route : Route) (headers : Headers) (c : KeyCache)
        → FetchesFor (RequestNeedsKeys headers c) c (can_activate jwt env route headers c).1
    unfolding can_activate
    request_fetches_when_needed route headers c = elim (Bool-cases route.is_public) [
      | inl public ↦ inl (rw public refl)
      | inr guarded ↦ elim (Bool-cases (has_roles route.roles)) [
        | inr no_roles ↦ inl (rw (guarded, no_roles) refl)
        | inl some_roles ↦
            rw (guarded, some_roles)
              (admit_headers_cases (roles_or_none route.roles) headers
                (read_cookie headers.cookie admin_cookie) c refl)
      ]
    ]

  found_not_empty :
      (kid : Text) (key : KeyObject) (keys : List (Text × KeyObject))
      → find_key kid keys ≡ some key
      → is_empty_map jwt keys ≡ false
  unfolding find_key
  found_not_empty kid key [] h = cc
  found_not_empty kid key (k ∷ keys) h = refl

  stale_skipped :
      (kid : Text) (key : KeyObject) (c : KeyCache)
      → find_key kid c.keys ≡ some key
      → jwt.clock c.readings ≤ c.cached_at + jwks_ttl_ms
      → refresh_stale jwt c ≡ record c { readings = suc c.readings }
  unfolding refresh_stale read_clock refresh_if
  stale_skipped kid key c found fresh = ground (arith, found_not_empty kid key c.keys)

  -- A verification whose key is cached, with the set no older than its time to live, fetches
  -- nothing, and gives the cached key.
  pub fresh_key_is_served :
      (kid : Text) (key : KeyObject) (c : KeyCache)
      → find_key kid c.keys ≡ some key
      → jwt.clock c.readings ≤ c.cached_at + jwks_ttl_ms
      → ((public_key_for jwt kid c).0 ≡ some key)
        × ((public_key_for jwt kid c).1.fetches ≡ c.fetches)
  unfolding public_key_for refresh_unknown
  fresh_key_is_served kid key c found fresh =
      rw (stale_skipped kid key c found fresh) (ground arith)
