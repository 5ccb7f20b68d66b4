-- ===== src/Admin/Server/Guards.antt =====
-- What the guards let through: nothing without a login, no change without the token.
use tflw_tests.Prelude.{
  all, arith, ◌∷◌, [], ◌∙◌, ◌≡◌, refl, ◌≢◌, inl, inr, Bool, true, false, not, ◌&&◌, none, List,
  Bool-cases, is_some, Text, codes, Map,
}
use tflw_tests.Admin.Client.{Sent, Backend}
use tflw_tests.Admin.Routes.{
  Route, Session, hardened, login, login_page, logout, redirect, requires_admin, verifies_csrf,
}
use tflw_tests.Admin.Handlers.{Platform}
use tflw_tests.Admin.Handlers.Reads.{OnlyGets, none-OnlyGets, act-OnlyGets}
use tflw_tests.Admin.Server.{
  Request, attach_csrf_token, csrf_holds, is_admin, log_out, serve_all, behind_login, require_auth,
  route_request, serve,
}

-- Every route but the fixture page, the login and the logout.
abbrev pub below_login : Route → Bool
below_login hardened = false
below_login login_page = false
below_login login = false
below_login logout = false
below_login _ = true

abbrev pub is_login : Route → Bool
is_login login = true
is_login _ = false

module _ (platform : Platform) (backend : Backend) where
  pub route_request-below :
      (s : Session) (r : Route) (form : Map Text) (sent : List Sent)
      → below_login r ≡ true
      → route_request platform backend s r form sent ≡ require_auth platform backend s r form sent
  unfolding route_request
  route_request-below s hardened form sent h = cc h
  route_request-below s login_page form sent h = cc h
  route_request-below s login form sent h = cc h
  route_request-below s logout form sent h = cc h
  route_request-below s _ form sent h = refl

  -- Without a user in the session, every route below the login answers with a redirect to it and
  -- asks nothing of the API.
  pub serve-anonymous :
      (fresh : Text) (request : Request) (s : Session) (sent : List Sent)
      → s.user ≡ none
      → below_login request.route ≡ true
      → ((serve platform backend fresh request s sent).response ≡ redirect (codes "/login"))
        × ((serve platform backend fresh request s sent).sent ≡ sent)
  unfolding serve require_auth attach_csrf_token is_some
  serve-anonymous fresh request s sent h k =
      rw (route_request-below (attach_csrf_token fresh s) request.route request.form sent k, h)
        (refl, refl)

module _ (platform : Platform) (backend : Backend) where
  -- The session of nobody: neither a user nor credentials.
  abbrev pub Nobody : Session → Type 0
  Nobody s = (s.user ≡ none) × (s.auth ≡ none)

  route_request-Nobody :
      (s : Session) (r : Route) (form : Map Text) (sent : List Sent)
      → is_login r ≡ false
      → Nobody s
      → ((route_request platform backend s r form sent).sent ≡ sent)
        × Nobody (route_request platform backend s r form sent).session
  unfolding route_request log_out require_auth is_some
  route_request-Nobody s hardened form sent n h = (refl, h)
  route_request-Nobody s login_page form sent n h = (refl, h)
  route_request-Nobody s login form sent n h = cc n
  route_request-Nobody s logout form sent n h = elim (Bool-cases (csrf_holds s form)) [
    | inl e ↦ rw (e, h.1) (refl, (refl, refl))
    | inr e ↦ rw e (refl, h)
  ]
  route_request-Nobody s r form sent n h =
      let out : is_some s.user ≡ false = rw h.0 refl in
      rw (route_request-below platform backend s r form sent refl, out) (refl, h)

  -- Whatever a browser asks for without a user and without a login, in however many requests, the
  -- API is asked nothing, and there is no user behind it.
  pub serve_all-anonymous :
      (requests : List (Text × Request)) (s : Session) (sent : List Sent)
      → all (λ x. not (is_login x.1.route)) requests ≡ true
      → s.user ≡ none
      → s.auth ≡ none
      → ((serve_all platform backend requests s sent).1 ≡ sent)
        × ((serve_all platform backend requests s sent).0.user ≡ none)
  unfolding serve_all serve attach_csrf_token
  serve_all-anonymous [] s sent n h k = (refl, h)
  serve_all-anonymous ((fresh, request) ∷ more) s sent n h k =
      let now =
        route_request platform backend (attach_csrf_token fresh s) request.route request.form
          sent in
      let (quiet, (user, auth)) =
        route_request-Nobody (attach_csrf_token fresh s) request.route request.form sent
          (ground arith) (h, k) in
      let (rest, nobody) = serve_all-anonymous more now.session now.sent (ground arith) user auth in
      (rest ∙ quiet, nobody)

module _ (platform : Platform) (backend : Backend) where
  behind_login-OnlyGets :
      (s : Session) (r : Route) (form : Map Text) (sent : List Sent)
      → csrf_holds s form ≡ false
      → OnlyGets sent (behind_login platform backend s r form sent).sent
  unfolding behind_login
  behind_login-OnlyGets s r form sent h =
      elim (Bool-cases (requires_admin r && not (is_admin platform backend s.user))) [
        | inl e ↦ rw e (none-OnlyGets sent)
        | inr e ↦ elim (Bool-cases (verifies_csrf r)) [
          | inl q ↦ rw (e, q, h) (none-OnlyGets sent)
          | inr q ↦ rw (e, q) (act-OnlyGets platform backend s.auth r form sent q)
        ]
      ]

  require_auth-OnlyGets :
      (s : Session) (r : Route) (form : Map Text) (sent : List Sent)
      → csrf_holds s form ≡ false
      → OnlyGets sent (require_auth platform backend s r form sent).sent
  unfolding require_auth
  require_auth-OnlyGets s r form sent h = elim (Bool-cases (is_some s.user)) [
    | inl e ↦ rw e (behind_login-OnlyGets s r form sent h)
    | inr e ↦ rw e (none-OnlyGets sent)
  ]

  route_request-OnlyGets :
      (s : Session) (r : Route) (form : Map Text) (sent : List Sent)
      → r ≢ login
      → csrf_holds s form ≡ false
      → OnlyGets sent (route_request platform backend s r form sent).sent
  unfolding route_request
  route_request-OnlyGets s hardened form sent n h = none-OnlyGets sent
  route_request-OnlyGets s login_page form sent n h = none-OnlyGets sent
  route_request-OnlyGets s login form sent n h = absurd (n refl)
  route_request-OnlyGets s logout form sent n h = rw h (none-OnlyGets sent)
  route_request-OnlyGets s r form sent n h =
      rw (route_request-below platform backend s r form sent refl)
        (require_auth-OnlyGets s r form sent h)

  -- A request that does not carry the token of the session, other than a login, sends the API
  -- nothing but GETs.
  pub serve-OnlyGets :
      (fresh : Text) (request : Request) (s : Session) (sent : List Sent)
      → request.route ≢ login
      → csrf_holds (attach_csrf_token fresh s) request.form ≡ false
      → OnlyGets sent (serve platform backend fresh request s sent).sent
  unfolding serve
  serve-OnlyGets fresh request s sent n h =
      route_request-OnlyGets (attach_csrf_token fresh s) request.route request.form sent n h
