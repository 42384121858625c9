-- ===== src/Admin.antt =====
-- The gate of the admin pages, and the sign-in behind it: src/main.ts.
pub mod Gate
use backups_microservice.Prelude.{
  ℕ, Bool, true, false, not, ◌&&◌, ◌||◌, Option, none, some, List, [], ◌∷◌, ◌++◌, ◌==◌, any,
  if◌then◌else◌,
}
use backups_microservice.Js.{
  Text, text, text_eq, truthy, text_or_empty, is_empty, starts_with, trim, split,
}
use backups_microservice.Authentication.Uri.{decode_uri_component}
use backups_microservice.Authentication.Verifier.{
  AuthResult, got, refused, Jwt, VerifiedPayload, KeyCache, verify_auth_token,
}
use backups_microservice.Authentication.{
  backups_admin_roles, admin_cookie, holds_some, rest_after, roles_or_none, is_service_token,
}

-- The cookies of a header, the last one first; `none` is the URIError of a malformed escape.
abbrev pub Cookies : Type 0
Cookies = Option (List (Text × Text))

-- `s.slice(0, s.indexOf(c))`, where `s` holds `c`.
unfoldable pub until : ℕ → Text → Text
until c [] = []
until c (d ∷ s) = let rest = until c s in if d == c then [] else d ∷ rest

abbrev set_cookie : Text → Option Text → List (Text × Text) → Cookies
set_cookie key none cookies = none
set_cookie key (some value) cookies = some ((key, value) ∷ cookies)

abbrev add_part : Text → Option Text → List (Text × Text) → Cookies
add_part key none cookies = some cookies
add_part key (some value) cookies =
    if is_empty key
    then some cookies
    else set_cookie key (decode_uri_component (trim value)) cookies

abbrev after_part : Cookies → (List (Text × Text) → Cookies) → Cookies
after_part none rest = none
after_part (some cookies) rest = rest cookies

unfoldable pub parse_parts : List Text → List (Text × Text) → Cookies
unfolding trim until rest_after is_empty decode_uri_component
parse_parts [] cookies = some cookies
parse_parts (part ∷ parts) cookies =
    after_part (add_part (trim (until b'=' part)) (rest_after b'=' part) cookies)
      (parse_parts parts)

unfoldable pub parse_cookies : Option Text → Cookies
unfolding truthy text_or_empty split parse_parts
parse_cookies header =
    if truthy header
    then parse_parts (split (λ c. c == b';') (text_or_empty header)) []
    else some []

unfoldable pub get_cookie : Text → List (Text × Text) → Option Text
unfolding text_eq
get_cookie key [] = none
get_cookie key ((k, value) ∷ cookies) =
    let rest = get_cookie key cookies in if text_eq k key then some value else rest

abbrev index_pages : List Text
index_pages = text "/admin" ∷ text "/admin/" ∷ text "/admin/index.html" ∷ []

unfoldable pub is_one_of : List Text → Text → Bool
unfolding text_eq
is_one_of paths path = any (λ p. text_eq p path) paths

unfoldable pub is_index_page : Text → Bool
unfolding is_one_of text
is_index_page path = is_one_of index_pages path

unfoldable pub is_protected_admin_page : Text → Bool
unfolding is_one_of text
is_protected_admin_page path =
    is_one_of (index_pages ++ text "/admin/jobs.html" ∷ text "/admin/restore.html" ∷ []) path

unfoldable pub is_open_endpoint : Text → Bool
unfolding is_one_of text
is_open_endpoint path = is_one_of (text "/admin/session" ∷ text "/admin/logout" ∷ []) path

-- The paths that the controllers serve.
unfoldable pub is_api_path : Text → Bool
unfolding starts_with text
is_api_path path =
    any (λ prefix. starts_with prefix path)
      (text "/backups"
        ∷ text "/jobs"
        ∷ text "/targets"
        ∷ text "/restore"
        ∷ text "/dashboard"
        ∷ text "/health"
        ∷ text "/info"
        ∷ [])

abbrev has_admin_role : AuthResult VerifiedPayload → Bool
has_admin_role (got payload) = holds_some backups_admin_roles (roles_or_none payload.roles)
has_admin_role (refused e) = false

pub record PageRequest : Type 0 where
  pub path : Text
  pub original_url : Text
  pub cookie : Option Text

-- How a request is answered: with the file of a page, with a redirection to the sign-in that will
-- return to an address, by the controllers, by the files under web, or, where an error is thrown,
-- not at all. The address is held before it is encoded.
pub data PageAnswer : Type 0 where
  login_page index_page passed_on served_static no_answer : PageAnswer
  redirected : Text → PageAnswer

pub record PageResponse : Type 0 where
  pub answer : PageAnswer
  pub no_store : Bool
  pub clears_cookie : Bool

-- The body of a sign-in, and what the authentication service answers: nothing, or its status and
-- the token of its JSON.
pub record LoginReply : Type 0 where
  pub is_ok : Bool
  pub access_token : Option Text

-- The token of `signed_in` is set as the cookie, encoded.
pub data SessionReply : Type 0 where
  invalid_request invalid_credentials unavailable : SessionReply
  signed_in : Text → SessionReply

module _ (jwt : Jwt) (env : Text → Option Text) where
  unfoldable pub is_authorized_admin_token : Option Text → KeyCache → Bool × KeyCache
  unfolding truthy text_or_empty is_service_token verify_auth_token holds_some
  is_authorized_admin_token token c =
      let (result, c') = verify_auth_token jwt (text_or_empty token) c in
      if not (truthy token)
      then (false, c)
      else if is_service_token jwt env (text_or_empty token)
      then (true, c)
      else (has_admin_role result, c')

  -- What follows the test of the paths of the admin pages.
  unfoldable pub serve : Bool → Text → PageResponse
  unfolding is_api_path
  serve no_store path = record {
    answer = if is_api_path path then passed_on else served_static;
    no_store = no_store;
    clears_cookie = false;
  }

  abbrev guard_page : PageRequest → Bool → Cookies → KeyCache → PageResponse × KeyCache
  guard_page request no_store none c =
      (record { answer = no_answer; no_store = no_store; clears_cookie = false }, c)
  guard_page request no_store (some cookies) c =
      let (authorized, c') = is_authorized_admin_token (get_cookie admin_cookie cookies) c in
      if not authorized
      then (
        record {
          answer =
              redirected
                (if is_empty request.original_url then text "/admin" else request.original_url);
          no_store = true;
          clears_cookie = true;
        },
        c',
      )
      else if is_index_page request.path
      then (record { answer = index_page; no_store = true; clears_cookie = false }, c')
      else (serve true request.path, c')

  -- The middleware of `bootstrap`.
  unfoldable pub gate : PageRequest → KeyCache → PageResponse × KeyCache
  unfolding starts_with text text_eq is_open_endpoint is_protected_admin_page is_index_page
      parse_cookies get_cookie admin_cookie is_authorized_admin_token serve is_empty
  gate request c =
      let no_store = starts_with (text "/admin/") request.path in
      let guarded = guard_page request no_store (parse_cookies request.cookie) c in
      if text_eq request.path (text "/admin/login")
      then (record { answer = login_page; no_store = no_store; clears_cookie = false }, c)
      else if is_open_endpoint request.path
      then (record { answer = passed_on; no_store = no_store; clears_cookie = false }, c)
      else if is_protected_admin_page request.path
      then guarded
      else (serve no_store request.path, c)

  abbrev sign_in : Option LoginReply → KeyCache → SessionReply × KeyCache
  sign_in none c = (unavailable, c)
  sign_in (some reply) c =
      let (authorized, c') = is_authorized_admin_token reply.access_token c in
      if not reply.is_ok
      then (invalid_credentials, c)
      else if authorized
      then (signed_in (text_or_empty reply.access_token), c')
      else (invalid_credentials, c')

  -- `POST /admin/session`, where the authentication service answers with `login`.
  unfoldable pub session :
      Option Text
      → Option Text
      → (Text → Text → Option LoginReply)
      → KeyCache
      → SessionReply × KeyCache
  unfolding is_empty trim text_or_empty is_authorized_admin_token
  session email password login c =
      let address = trim (text_or_empty email) in
      let secret = text_or_empty password in
      let tried = sign_in (login address secret) c in
      if is_empty address || is_empty secret then (invalid_request, c) else tried
