-- ===== src/Authentication.antt =====
-- The guard of src/auth/jwt-roles.guard.ts and the roles of src/auth/roles.constants.ts.
pub mod Uri
pub mod Verifier
pub mod Authorization
pub mod Fetches
use backups_microservice.Prelude.{
  ℕ, Bool, true, false, not, ◌&&◌, ◌||◌, Option, none, some, List, [], ◌∷◌, ◌++◌, ◌==◌, any, find,
  drop, length, if◌then◌else◌, map,
}
use backups_microservice.Js.{
  Text, text, text_eq, field_eq, truthy, text_or_empty, is_empty, starts_with, trim, split,
}
use backups_microservice.Authentication.Uri.{decode_uri_component}
use backups_microservice.Authentication.Verifier.{
  GuardError, unauthorized, forbidden, other_error, AuthResult, got, refused, Jwt, VerifiedPayload,
  KeyCache, verify_auth_token,
}

-- BACKUPS_READ_ROLES, BACKUPS_WRITE_ROLES and BACKUPS_ADMIN_ROLES
abbrev pub operator_role : Text
unfolding text
operator_role = text "internal:backups-microservice:operator"

abbrev pub backups_admin_roles : List Text
unfolding text
backups_admin_roles = text "global:superadmin" ∷ text "internal:backups-microservice:admin" ∷ []

abbrev pub backups_write_roles : List Text
backups_write_roles = backups_admin_roles ++ operator_role ∷ []

abbrev pub backups_read_roles : List Text
unfolding text
backups_read_roles = backups_write_roles ++ text "internal:backups-microservice:readonly" ∷ []

-- The metadata that the decorators leave on a route, and the headers of a request.
pub record Route : Type 0 where
  pub is_public : Bool
  pub roles : Option (List Text)

pub record Headers : Type 0 where
  pub authorization : Option Text
  pub cookie : Option Text

-- `request.user`
pub record User : Type 0 where
  pub sub : Option Text
  pub email : Option Text
  pub roles : List Text

pub data Admission : Type 0 where
  public_route : Admission
  admitted : User → Admission
  denied : GuardError → Admission

-- `requiredRoles.some((r) => roles.includes(r))`
unfoldable pub holds_some : List Text → List Text → Bool
unfolding text_eq
holds_some required roles = any (λ r. any (λ s. text_eq s r) roles) required

-- `s.slice(s.indexOf('=') + 1)`, which is all of `s` where it holds no `=`.
abbrev or_whole : Text → Option Text → Text
or_whole s none = s
or_whole s (some t) = t

unfoldable pub rest_after : ℕ → Text → Option Text
rest_after c [] = none
rest_after c (d ∷ s) = let rest = rest_after c s in if d == c then some s else rest

unfoldable pub after_equals : Text → Text
unfolding rest_after
after_equals s = or_whole s (rest_after b'=' s)

unfoldable pub admin_cookie : Text
unfolding text
admin_cookie = text "backups_admin_token"

-- A malformed escape is a URIError.
abbrev pub decoded : Option Text → AuthResult (Option Text)
decoded none = refused (other_error (text "URI malformed"))
decoded (some value) = got (some value)

abbrev pub cookie_value : Option Text → AuthResult (Option Text)
cookie_value none = got none
cookie_value (some part) = decoded (decode_uri_component (trim (after_equals part)))

unfoldable pub read_cookie : Option Text → Text → AuthResult (Option Text)
unfolding split trim starts_with text_or_empty truthy after_equals decode_uri_component text
read_cookie header name =
    if truthy header
    then cookie_value (
        find (λ part. starts_with (name ++ text "=") (trim part))
          (split (λ c. c == b';') (text_or_empty header)))
    else got none

-- `authHeader?.startsWith('Bearer ')`
unfoldable pub is_bearer : Option Text → Bool
unfolding starts_with text
is_bearer none = false
is_bearer (some header) = starts_with (text "Bearer ") header

-- The token of a request: that of the header, or else that of the cookie.
unfoldable pub token_of : Option Text → Option Text → Option Text
unfolding is_bearer truthy text_or_empty
token_of authorization cookie =
    if is_bearer authorization
    then some (drop 7 (text_or_empty authorization))
    else if truthy cookie
    then cookie
    else none

abbrev pub has_roles : Option (List Text) → Bool
has_roles none = false
has_roles (some []) = false
has_roles (some (r ∷ roles)) = true

abbrev pub roles_or_none : Option (List Text) → List Text
roles_or_none none = []
roles_or_none (some roles) = roles

-- The principal of the static service token.
unfoldable pub service_user : User
unfolding text
service_user = record {
  sub = some (text "service:backups-microservice");
  email = none;
  roles = operator_role ∷ [];
}

unfoldable pub user_of : VerifiedPayload → User
user_of payload = record {
  sub = payload.sub;
  email = payload.email;
  roles = roles_or_none payload.roles;
}

-- What is thrown that is neither Unauthorized nor Forbidden becomes `Invalid token`.
abbrev pub invalid_token : GuardError → GuardError
invalid_token (unauthorized message) = unauthorized message
invalid_token (forbidden message) = forbidden message
invalid_token (other_error message) = unauthorized (text "Invalid token")

-- A principal that has the roles of the route, or a refusal.
unfoldable pub admit_user : List Text → User → Admission
unfolding holds_some text
admit_user required user =
    if holds_some required user.roles
    then admitted user
    else denied (forbidden (text "Insufficient permissions"))

abbrev pub admit_verified : List Text → AuthResult VerifiedPayload → Admission
admit_verified required (got payload) = admit_user required (user_of payload)
admit_verified required (refused e) = denied (invalid_token e)

module _ (jwt : Jwt) (env : Text → Option Text) where
  unfoldable pub is_service_token : Text → Bool
  unfolding truthy field_eq text
  is_service_token token =
      truthy (env (text "SERVICE_TOKEN")) && field_eq (env (text "SERVICE_TOKEN")) token

  unfoldable pub admit_token : List Text → Text → KeyCache → Admission × KeyCache
  unfolding is_service_token admit_user service_user verify_auth_token user_of
  admit_token required token c =
      let (result, c') = verify_auth_token jwt token c in
      if is_service_token token
      then (admit_user required service_user, c)
      else (admit_verified required result, c')

  abbrev pub admit_bearer : List Text → Option Text → KeyCache → Admission × KeyCache
  admit_bearer required none c = (denied (unauthorized (text "Missing Authorization header")), c)
  admit_bearer required (some token) c = admit_token required token c

  abbrev pub admit_headers :
      List Text → Option Text → AuthResult (Option Text) → KeyCache → Admission × KeyCache
  admit_headers required authorization (refused e) c = (denied e, c)
  admit_headers required authorization (got cookie) c =
      admit_bearer required (token_of authorization cookie) c

  unfoldable pub can_activate : Route → Headers → KeyCache → Admission × KeyCache
  unfolding read_cookie token_of admit_token admin_cookie text
  can_activate route headers c =
      let judged =
        admit_headers (roles_or_none route.roles) headers.authorization
          (read_cookie headers.cookie admin_cookie) c in
      if route.is_public
      then (public_route, c)
      else if has_roles route.roles
      then judged
      else (denied (forbidden (text "Route is missing an authorization policy")), c)
