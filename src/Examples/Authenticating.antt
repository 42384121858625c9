-- ===== src/Examples/Authenticating.antt =====
-- Requests that are admitted by a token of a cached key, and by the service token.
use backups_microservice.Prelude.{
  ◌+◌, ◌≡◌, refl, false, Option, none, some, List, [], ◌∷◌, if◌then◌else◌,
}
use backups_microservice.Js.{Text, text, text_eq}
use backups_microservice.Authentication.Verifier.{got, Jwt, VerifiedPayload, KeyCache, no_response}
use backups_microservice.Authentication.{
  Route, Headers, User, admitted, can_activate, backups_write_roles, operator_role, read_cookie,
  admin_cookie,
}
use backups_microservice.Authentication.Authorization.{
  ShareRole, IsAuthenticated, admitted_has_role,
}
use backups_microservice.Authentication.Fetches.{
  FetchesFor, RequestNeedsKeys, request_fetches_when_needed,
}

abbrev payload : VerifiedPayload
payload = record {
  sub = some (text "ops");
  email = none;
  roles = some (text "reader" ∷ operator_role ∷ []);
}

-- Every token names one key, and the key set cannot be fetched.
abbrev pub jwt : Jwt
jwt = record {
  decode = λ token. got (some (record { alg = some (text "RS256"); kid = some (text "k1") }));
  verify = λ token key. got payload;
  create_public_key = λ k. some k.n;
  clock = λ n. 1000000 + n;
  fetch = λ n. no_response;
}

abbrev pub env : Text → Option Text
env name = if text_eq name (text "SERVICE_TOKEN") then some (text "static") else none

abbrev route : Route
route = record { is_public = false; roles = some backups_write_roles }

abbrev headers : Headers
headers = record {
  authorization = none;
  cookie = some (text "theme=dark; backups_admin_token=a%2Eb");
}

abbrev pub cache : KeyCache
cache = record {
  keys = (text "k1", text "pem") ∷ [];
  cached_at = 900000;
  readings = 0;
  fetches = 3;
}

abbrev pub cache' : KeyCache
cache' = record cache { readings = 1 }

abbrev user : User
user = record { sub = some (text "ops"); email = none; roles = text "reader" ∷ operator_role ∷ [] }

cookie_is_decoded : read_cookie headers.cookie admin_cookie ≡ got (some (text "a.b"))
unfolding read_cookie admin_cookie backups_microservice.Js.strip_end
    backups_microservice.Js.strip_start backups_microservice.Js.is_space
cookie_is_decoded = refl

request_is_admitted : can_activate jwt env route headers cache ≡ (admitted user, cache')
unfolding can_activate backups_microservice.Js.strip_end backups_microservice.Js.strip_start
    backups_microservice.Js.is_space
request_is_admitted = refl

admitted_has_role_example :
    (required : List Text) × (route.roles ≡ some required)
    × ShareRole required user.roles
    × IsAuthenticated jwt env headers cache' user
unfolding can_activate backups_microservice.Js.strip_end backups_microservice.Js.strip_start
    backups_microservice.Js.is_space
admitted_has_role_example = admitted_has_role jwt env route headers cache cache' user refl

request_fetches_when_needed_example :
    FetchesFor jwt
      (RequestNeedsKeys jwt env headers (record cache { keys = [] }))
      (record cache { keys = [] })
      (can_activate jwt env route headers (record cache { keys = [] })).1
request_fetches_when_needed_example =
    request_fetches_when_needed jwt env route headers (record cache { keys = [] })
