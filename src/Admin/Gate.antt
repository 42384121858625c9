-- ===== src/Admin/Gate.antt =====
-- Who is served the admin pages of src/main.ts.
use backups_microservice.Prelude.{
  ◌≡◌, refl, ap, sym, subst, ◌∙◌, Bool, true, false, ◌||◌, Option, none, some, List, arith,
  Bool-cases, inl, inr,
}
use backups_microservice.Js.{
  Text, text, text_eq, truthy, text_or_empty, trim, is_empty, starts_with,
}
use backups_microservice.Js.Laws.{eq_of_text_eq}
use backups_microservice.Authentication.Verifier.{
  AuthResult, got, refused, Jwt, VerifiedPayload, KeyCache, verify_auth_token,
}
use backups_microservice.Authentication.{
  backups_admin_roles, admin_cookie, roles_or_none, is_service_token,
}
use backups_microservice.Authentication.Authorization.{
  Verified, ShareRole, token-Verified, holds_some-ShareRole, token_of_service,
}
use backups_microservice.Admin.{
  PageAnswer, login_page, index_page, passed_on, served_static, no_answer, redirected, PageRequest,
  PageResponse, Cookies, parse_cookies, get_cookie, is_authorized_admin_token, has_admin_role,
  guard_page, gate, is_protected_admin_page, is_open_endpoint, is_one_of, is_index_page, LoginReply,
  signed_in, sign_in, session,
}

-- A token of an administrator: the static token of the service, or one that was verified and has a
-- role of an administrator.
pub data IsAdministrator (jwt : Jwt) (env : Text → Option Text) (token : Text) (c : KeyCache)
    : Type 0 where
  by_service_token : env (text "SERVICE_TOKEN") ≡ some token → IsAdministrator jwt env token c
  by_role :
      (payload : VerifiedPayload)
      → Verified jwt token payload c
      → ShareRole backups_admin_roles (roles_or_none payload.roles)
      → IsAdministrator jwt env token c

abbrev pub is_served : PageAnswer → Bool
is_served index_page = true
is_served served_static = true
is_served passed_on = true
is_served login_page = true
is_served no_answer = false
is_served (redirected url) = false

-- A path that is no protected page is not the path of one.
other_path :
    (path other : Text)
    → is_protected_admin_page other ≡ false
    → is_protected_admin_page path ≡ true
    → text_eq path other ≡ false
other_path path other n h = elim (Bool-cases (text_eq path other)) [
  | inr e ↦ e
  | inl e ↦ absurd (ground (arith, ap is_protected_admin_page (eq_of_text_eq path other e)))
]

other_start :
    (path other : Text)
    → is_protected_admin_page other ≡ false
    → is_protected_admin_page path ≡ true
    → text_eq other path ≡ false
other_start path other n h = elim (Bool-cases (text_eq other path)) [
  | inr e ↦ e
  | inl e ↦ absurd (ground (arith, ap is_protected_admin_page (eq_of_text_eq other path e)))
]

is_not_open : (path : Text) → is_protected_admin_page path ≡ true → is_open_endpoint path ≡ false
unfolding is_open_endpoint is_one_of is_protected_admin_page
is_not_open path h =
    rw
      (
        other_start path (text "/admin/session") refl h,
        other_start path (text "/admin/logout") refl h,
      )
      refl

module _ (jwt : Jwt) (env : Text → Option Text) where
  verified-IsAdministrator :
      (token : Text) (c c' : KeyCache) (r : AuthResult VerifiedPayload)
      → verify_auth_token jwt token c ≡ (r, c')
      → has_admin_role r ≡ true
      → IsAdministrator jwt env token c'
  verified-IsAdministrator token c c' (refused e) v h = cc
  verified-IsAdministrator token c c' (got payload) v h =
      by_role payload (token-Verified jwt token c c' payload v) (holds_some-ShareRole _ _ h)

  authorized-IsAdministrator :
      (token : Option Text) (c c' : KeyCache)
      → is_authorized_admin_token jwt env token c ≡ (true, c')
      → (t : Text) × (token ≡ some t) × IsAdministrator jwt env t c'
  unfolding is_authorized_admin_token
  authorized-IsAdministrator none c c' h = absurd (ground arith)
  authorized-IsAdministrator (some t) c c' h = elim (Bool-cases (truthy (some t))) [
    | inr empty ↦ absurd (ground (arith, empty))
    | inl given ↦ elim (Bool-cases (is_service_token jwt env t)) [
      | inl static ↦ (t, refl, by_service_token (token_of_service jwt env t static))
      | inr other ↦ (
        t,
        refl,
        verified-IsAdministrator t c c' (verify_auth_token jwt t c).0 (ground (arith, given, other))
            (ground (arith, given, other)),
      )
    ]
  ]

  -- The guard of one page.
  served-IsAdministrator :
      (request : PageRequest) (no_store : Bool) (cookies : Cookies) (c c' : KeyCache)
      (r : PageResponse)
      → guard_page jwt env request no_store cookies c ≡ (r, c')
      → is_served r.answer ≡ true
      → (cs : List (Text × Text)) × (token : Text) × (cookies ≡ some cs)
        × (get_cookie admin_cookie cs ≡ some token)
        × IsAdministrator jwt env token c'
  served-IsAdministrator request no_store none c c' r h served = absurd (ground arith)
  served-IsAdministrator request no_store (some cs) c c' r h served =
      let found = get_cookie admin_cookie cs in
      elim (Bool-cases (is_authorized_admin_token jwt env found c).0) [
        | inr refused_token ↦ absurd (ground (arith, refused_token))
        | inl authorized ↦
            let same : (is_authorized_admin_token jwt env found c).1 ≡ c' =
              ground (arith, authorized, Bool-cases (is_index_page request.path)) in
            let (token, e, admin) =
              authorized-IsAdministrator found c c' (λ i. (authorized i, same i)) in
            (cs, token, refl, e, admin)
      ]

  -- The middleware answers a request for a protected page by the guard.
  is_guarded :
      (request : PageRequest) (c : KeyCache)
      → is_protected_admin_page request.path ≡ true
      → (no_store : Bool) × (gate jwt env request c
          ≡ guard_page jwt env request no_store (parse_cookies request.cookie) c)
  unfolding gate
  is_guarded request c h = (
    starts_with (text "/admin/") request.path,
    rw (other_path request.path (text "/admin/login") refl h, is_not_open request.path h, h) refl,
  )

  -- Where the request of a protected page is answered with the page, the controllers or the files,
  -- and not by a redirection or an error, its cookie holds the token of an administrator: the static
  -- token of the service, or one that was verified and has a role of an administrator.
  pub admin_page_needs_admin :
      (request : PageRequest) (c c' : KeyCache) (r : PageResponse)
      → is_protected_admin_page request.path ≡ true
      → gate jwt env request c ≡ (r, c')
      → is_served r.answer ≡ true
      → (cs : List (Text × Text)) × (token : Text) × (parse_cookies request.cookie ≡ some cs)
        × (get_cookie admin_cookie cs ≡ some token)
        × IsAdministrator jwt env token c'
  admin_page_needs_admin request c c' r protected h served =
      let (no_store, e) = is_guarded request c protected in
      served-IsAdministrator request no_store (parse_cookies request.cookie) c c' r (sym e ∙ h)
        served

  signed-IsAdministrator :
      (reply : Option LoginReply) (c c' : KeyCache) (token : Text)
      → sign_in jwt env reply c ≡ (signed_in token, c')
      → IsAdministrator jwt env token c'
  unfolding text_or_empty
  signed-IsAdministrator none c c' token h = absurd (ground arith)
  signed-IsAdministrator (some reply) c c' token h =
      elim (Bool-cases (is_authorized_admin_token jwt env reply.access_token c).0) [
        | inr refused_token ↦ absurd (ground (arith, refused_token, Bool-cases reply.is_ok))
        | inl authorized ↦
            let same : (is_authorized_admin_token jwt env reply.access_token c).1 ≡ c' =
              ground (arith, authorized, Bool-cases reply.is_ok) in
            let given : text_or_empty reply.access_token ≡ token =
              ground (arith, authorized, Bool-cases reply.is_ok) in
            let (t, e, admin) =
              authorized-IsAdministrator reply.access_token c c' (λ i. (authorized i, same i)) in
            subst (λ u. IsAdministrator jwt env u c') (sym (ap text_or_empty e) ∙ given) admin
      ]

  -- A sign-in that succeeds sets the token of an administrator.
  session_signs_in_admin :
      (email password : Option Text) (login : Text → Text → Option LoginReply) (c c' : KeyCache)
      (token : Text)
      → session jwt env email password login c ≡ (signed_in token, c')
      → IsAdministrator jwt env token c'
  unfolding session
  session_signs_in_admin email password login c c' token h =
      let address = trim (text_or_empty email) in
      let secret = text_or_empty password in
      elim (Bool-cases (is_empty address || is_empty secret)) [
        | inl missing ↦ absurd (ground (arith, missing))
        | inr present ↦
            signed-IsAdministrator (login address secret) c c' token (ground (arith, present))
      ]
