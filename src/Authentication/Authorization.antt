-- ===== src/Authentication/Authorization.antt =====
-- What src/auth/jwt-roles.guard.ts admits, and what src/auth/jwt-verifier.ts fetches for it.
use backups_microservice.Prelude.{
  ◌≡◌, refl, ap, sym, subst, &&_iff, ◌∙◌, true, Option, none, some, List, [], ◌∷◌, arith, any,
  Bool-cases, inl, inr,
}
use mathlib.Core.List.{Mem, mem-cons_self, mem-cons_of_mem}
use backups_microservice.Js.{Text, text, text_eq, field_eq, truthy, text_or_empty}
use backups_microservice.Js.Laws.{eq_of_text_eq}
use backups_microservice.Authentication.Verifier.{
  unauthorized, forbidden, other_error, AuthResult, got, refused, Jwt, VerifiedPayload, KeyObject,
  TokenHeader, KeyCache, find_key, verify_auth_token, verify_rs256, verify_decoded, verification_of,
  check_signature, public_key_for, alg_of, kid_of,
}
use backups_microservice.Authentication.{
  Route, Headers, User, admitted, can_activate, read_cookie, token_of, admin_cookie, admit_user,
  admit_token, admit_verified, admit_headers, admit_bearer, is_service_token, service_user, user_of,
  holds_some, has_roles, roles_or_none,
}

-- A verified payload, by the header of its token and the key of the cache that its signature was
-- checked with.
pub record Verified (jwt : Jwt) (token : Text) (payload : VerifiedPayload) (c : KeyCache)
    : Type 0 where
  pub header : TokenHeader
  pub kid : Text
  pub key : KeyObject
  pub decodes : jwt.decode token ≡ got (some header)
  pub is_rs256 : header.alg ≡ some (text "RS256")
  pub names_key : header.kid ≡ some kid
  pub holds_key : find_key kid c.keys ≡ some key
  pub verifies : jwt.verify token key ≡ got payload

module _ (jwt : Jwt) where
  rejected_got :
      (r : AuthResult VerifiedPayload) (payload : VerifiedPayload)
      → verification_of jwt r ≡ got payload
      → r ≡ got payload
  rejected_got (got p) payload h = h
  rejected_got (refused (unauthorized m)) payload h = cc
  rejected_got (refused (forbidden m)) payload h = cc
  rejected_got (refused (other_error m)) payload h = cc

  signature_checked :
      (token kid : Text) (k : Option KeyObject) (payload : VerifiedPayload)
      → check_signature jwt token kid k ≡ got payload
      → (key : KeyObject) × (k ≡ some key) × (jwt.verify token key ≡ got payload)
  signature_checked token kid none payload h = cc
  signature_checked token kid (some key) payload h = (key, refl, rejected_got _ payload h)

  pub truthy-some : (o : Option Text) → truthy o ≡ true → o ≡ some (text_or_empty o)
  unfolding truthy text_or_empty
  truthy-some none h = cc
  truthy-some (some s) h = refl

  pub field_eq-some : (o : Option Text) (s : Text) → field_eq o s ≡ true → o ≡ some s
  unfolding field_eq
  field_eq-some none s h = cc
  field_eq-some (some t) s h = ap some (eq_of_text_eq t s h)

  found_key :
      (kid : Text) (c : KeyCache)
      → (public_key_for jwt kid c).0 ≡ find_key kid (public_key_for jwt kid c).1.keys
  unfolding public_key_for
  found_key kid c = refl

  rs256-Verified :
      (token : Text) (header : TokenHeader) (c c' : KeyCache) (payload : VerifiedPayload)
      → jwt.decode token ≡ got (some header)
      → header.alg ≡ some (text "RS256")
      → verify_rs256 jwt token header.kid c ≡ (got payload, c')
      → Verified jwt token payload c'
  unfolding verify_rs256
  rs256-Verified token header c c' payload d a h = elim (Bool-cases (truthy header.kid)) [
    | inr missing ↦ absurd (ground (arith, missing))
    | inl named ↦
        let kid = text_or_empty header.kid in
        let same : (public_key_for jwt kid c).1 ≡ c' = ground (arith, named) in
        let checked : check_signature jwt token kid (public_key_for jwt kid c).0 ≡ got payload =
          ground (arith, named) in
        let (key, found, verifies) = signature_checked token kid _ payload checked in
        record {
          header = header;
          kid = kid;
          key = key;
          decodes = d;
          is_rs256 = a;
          names_key = truthy-some header.kid named;
          holds_key =
              subst (λ k. find_key kid k.keys ≡ some key) same (sym (found_key kid c) ∙ found);
          verifies = verifies;
        }
  ]

  pub token-Verified :
      (token : Text) (c c' : KeyCache) (payload : VerifiedPayload)
      → verify_auth_token jwt token c ≡ (got payload, c')
      → Verified jwt token payload c'
  unfolding verify_auth_token field_eq alg_of kid_of
  token-Verified token c c' payload h = decoded (jwt.decode token) refl h
    where
      decoded :
          (d : AuthResult (Option TokenHeader))
          → jwt.decode token ≡ d
          → verify_decoded jwt token d c ≡ (got payload, c')
          → Verified jwt token payload c'
      decoded (refused e) d h = cc
      decoded (got none) d h = absurd (ground arith)
      decoded (got (some header)) d h = elim (Bool-cases (field_eq header.alg (text "RS256"))) [
        | inl rs256 ↦
            rs256-Verified token header c c' payload d (field_eq-some _ _ rs256)
              (ground (arith, rs256))
        | inr other ↦ absurd (ground (arith, other))
      ]

-- How a request shows who sends it: by the static token of the service, or by a verified payload.
pub data IsAuthenticated (jwt : Jwt) (env : Text → Option Text) (headers : Headers) (c : KeyCache)
    (user : User) : Type 0 where
  by_service_token :
      (token : Text) (cookie : Option Text)
      → read_cookie headers.cookie admin_cookie ≡ got cookie
      → token_of headers.authorization cookie ≡ some token
      → env (text "SERVICE_TOKEN") ≡ some token
      → user ≡ service_user
      → IsAuthenticated jwt env headers c user
  by_verified_payload :
      (token : Text) (cookie : Option Text) (payload : VerifiedPayload)
      → read_cookie headers.cookie admin_cookie ≡ got cookie
      → token_of headers.authorization cookie ≡ some token
      → Verified jwt token payload c
      → user ≡ user_of payload
      → IsAuthenticated jwt env headers c user

role-Mem : (r : Text) (roles : List Text) → any (λ s. text_eq s r) roles ≡ true → Mem r roles
role-Mem r [] h = cc
role-Mem r (s ∷ roles) h = elim (Bool-cases (text_eq s r)) [
  | inl same ↦ subst (λ t. Mem t (s ∷ roles)) (eq_of_text_eq s r same) mem-cons_self
  | inr other ↦ mem-cons_of_mem s (role-Mem r roles (ground (arith, other)))
]

-- A role that two lists have in common.
abbrev pub ShareRole : List Text → List Text → Type 0
ShareRole required roles = (r : Text) × Mem r required × Mem r roles

pub holds_some-ShareRole :
    (required roles : List Text) → holds_some required roles ≡ true → ShareRole required roles
unfolding holds_some
holds_some-ShareRole [] roles h = cc
holds_some-ShareRole (r ∷ required) roles h = elim (Bool-cases (any (λ s. text_eq s r) roles)) [
  | inl held ↦ (r, mem-cons_self, role-Mem r roles held)
  | inr other ↦
      let (q, m, n) = holds_some-ShareRole required roles (ground (arith, other)) in
      (q, mem-cons_of_mem r m, n)
]

module _ (jwt : Jwt) (env : Text → Option Text) where
  admits :
      (required : List Text) (u user : User)
      → admit_user required u ≡ admitted user
      → (user ≡ u) × (holds_some required user.roles ≡ true)
  unfolding admit_user
  admits required u user h = ground arith

  pub token_of_service :
      (token : Text)
      → is_service_token jwt env token ≡ true
      → env (text "SERVICE_TOKEN") ≡ some token
  unfolding is_service_token
  token_of_service token h = field_eq-some jwt _ token ((&&_iff _ _).0 h).1

  verified-IsAuthenticated :
      (required : List Text) (token : Text) (cookie : Option Text) (headers : Headers)
      (c c' : KeyCache) (user : User) (r : AuthResult VerifiedPayload)
      → read_cookie headers.cookie admin_cookie ≡ got cookie
      → token_of headers.authorization cookie ≡ some token
      → verify_auth_token jwt token c ≡ (r, c')
      → admit_verified required r ≡ admitted user
      → (holds_some required user.roles ≡ true) × IsAuthenticated jwt env headers c' user
  verified-IsAuthenticated required token cookie headers c c' user (refused e) k t v a = cc
  verified-IsAuthenticated required token cookie headers c c' user (got payload) k t v a =
      let (same, granted) = admits required (user_of payload) user a in
      (
        granted,
        by_verified_payload token cookie payload k t (token-Verified jwt token c c' payload v) same,
      )

  token-IsAuthenticated :
      (required : List Text) (token : Text) (cookie : Option Text) (headers : Headers)
      (c c' : KeyCache) (user : User)
      → read_cookie headers.cookie admin_cookie ≡ got cookie
      → token_of headers.authorization cookie ≡ some token
      → admit_token jwt env required token c ≡ (admitted user, c')
      → (holds_some required user.roles ≡ true) × IsAuthenticated jwt env headers c' user
  unfolding admit_token
  token-IsAuthenticated required token cookie headers c c' user k t h =
      elim (Bool-cases (is_service_token jwt env token)) [
        | inl static ↦
            let (same, granted) = admits required service_user user (ground (arith, static)) in
            (granted, by_service_token token cookie k t (token_of_service token static) same)
        | inr other ↦
            verified-IsAuthenticated required token cookie headers c c' user
              (verify_auth_token jwt token c).0 k t (ground (arith, other)) (ground (arith, other))
      ]

  bearer-IsAuthenticated :
      (required : List Text) (headers : Headers) (c c' : KeyCache) (user : User)
      (cookie token : Option Text)
      → read_cookie headers.cookie admin_cookie ≡ got cookie
      → token_of headers.authorization cookie ≡ token
      → admit_bearer jwt env required token c ≡ (admitted user, c')
      → (holds_some required user.roles ≡ true) × IsAuthenticated jwt env headers c' user
  bearer-IsAuthenticated required headers c c' user cookie none k t h = absurd (ground arith)
  bearer-IsAuthenticated required headers c c' user cookie (some token) k t h =
      token-IsAuthenticated required token cookie headers c c' user k t h

  headers-IsAuthenticated :
      (required : List Text) (headers : Headers) (c c' : KeyCache) (user : User)
      (cookie : AuthResult (Option Text))
      → read_cookie headers.cookie admin_cookie ≡ cookie
      → admit_headers jwt env required headers.authorization cookie c ≡ (admitted user, c')
      → (holds_some required user.roles ≡ true) × IsAuthenticated jwt env headers c' user
  headers-IsAuthenticated required headers c c' user (refused e) k h = absurd (ground arith)
  headers-IsAuthenticated required headers c c' user (got cookie) k h =
      bearer-IsAuthenticated required headers c c' user cookie
        (token_of headers.authorization cookie) k refl h

  has_some_roles :
      (roles : Option (List Text)) → has_roles roles ≡ true → roles ≡ some (roles_or_none roles)
  has_some_roles none h = cc
  has_some_roles (some roles) h = refl

  guarded :
      (route : Route) (headers : Headers) (c c' : KeyCache) (user : User)
      → can_activate jwt env route headers c ≡ (admitted user, c')
      → (has_roles route.roles ≡ true)
        × (admit_headers jwt env
              (roles_or_none route.roles)
              headers.authorization
              (read_cookie headers.cookie admin_cookie)
              c
            ≡ (admitted user, c'))
  unfolding can_activate
  guarded route headers c c' user h = elim (Bool-cases (has_roles route.roles)) [
    | inl some_roles ↦ (some_roles, ground (arith, some_roles, Bool-cases route.is_public))
    | inr no_roles ↦ absurd (ground (arith, no_roles, Bool-cases route.is_public))
  ]

  -- A request that the guard admits to a route that is not public has a role that the route names,
  -- among the roles of its user; and this user is either the operator of the static service token,
  -- which the request carries, or that of a token signed with RS256, whose signature was verified
  -- with the cached key that its header names.
  pub admitted_has_role :
      (route : Route) (headers : Headers) (c c' : KeyCache) (user : User)
      → can_activate jwt env route headers c ≡ (admitted user, c')
      → (required : List Text) × (route.roles ≡ some required)
        × ShareRole required user.roles
        × IsAuthenticated jwt env headers c' user
  admitted_has_role route headers c c' user h =
      let (some_roles, judged) = guarded route headers c c' user h in
      let (shared, authenticated) =
        headers-IsAuthenticated (roles_or_none route.roles) headers c c' user _ refl judged in
      (
        roles_or_none route.roles,
        has_some_roles route.roles some_roles,
        holds_some-ShareRole _ user.roles shared,
        authenticated,
      )
