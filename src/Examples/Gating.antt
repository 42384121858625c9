-- ===== src/Examples/Gating.antt =====
-- A request for the console's first page, with the cookie of an administrator.
use backups_microservice.Prelude.{◌≡◌, refl, true, false, none, some, List, [], ◌∷◌}
use backups_microservice.Js.{Text, text}
use backups_microservice.Authentication.Verifier.{got, Jwt}
use backups_microservice.Authentication.{admin_cookie}
use backups_microservice.Admin.{
  PageRequest, parse_cookies, get_cookie, gate, index_page, redirected, no_answer, served_static,
}
use backups_microservice.Admin.Gate.{IsAdministrator, admin_page_needs_admin}
use backups_microservice.Examples.Authenticating.{jwt, env, cache, cache'}

abbrev admin_jwt : Jwt
admin_jwt = record jwt {
  verify = λ token key. got (record {
    sub = some (text "ops");
    email = none;
    roles = some (text "global:superadmin" ∷ []);
  });
}

abbrev request : PageRequest
request = record {
  path = text "/admin/";
  original_url = text "/admin/?tab=jobs";
  cookie = some (text "theme=dark; backups_admin_token=a%2Eb");
}

without_cookie_redirected :
    (gate admin_jwt env (record request { cookie = none }) cache).0.answer
    ≡ redirected (text "/admin/?tab=jobs")
unfolding gate
without_cookie_redirected = refl

malformed_cookie_unanswered :
    (gate admin_jwt env (record request { cookie = some (text "a=%zz") }) cache).0.answer
    ≡ no_answer
unfolding gate backups_microservice.Js.strip_end backups_microservice.Js.strip_start
    backups_microservice.Js.is_space
malformed_cookie_unanswered = refl

-- An escaped path is none of the protected ones.
escaped_path_served :
    (gate admin_jwt env
      (record request { path = text "/admin/%69ndex.html"; cookie = none })
      cache).0.answer
    ≡ served_static
unfolding gate
escaped_path_served = refl

admin_page_needs_admin_example :
    (cs : List (Text × Text)) × (token : Text) × (parse_cookies request.cookie ≡ some cs)
    × (get_cookie admin_cookie cs ≡ some token)
    × IsAdministrator admin_jwt env token cache'
unfolding backups_microservice.Admin.is_protected_admin_page gate backups_microservice.Js.strip_end
    backups_microservice.Js.strip_start backups_microservice.Js.is_space
admin_page_needs_admin_example =
    admin_page_needs_admin admin_jwt env request cache cache'
      (record { answer = index_page; no_store = true; clears_cookie = false }) refl refl refl
