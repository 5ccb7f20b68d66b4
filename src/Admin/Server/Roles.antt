-- ===== src/Admin/Server/Roles.antt =====
-- Whom the console lets in: the sessions of admins and agents only, whatever the API answers.
use tflw_tests.Prelude.{
  codes, ◌≡◌, refl, inl, inr, true, not, ◌&&◌, Option, none, some, List, [], ◌∷◌, Bool-cases,
  is_some, Text, Map,
}
use tflw_tests.Admin.Server.Guards.{route_request-below}
use tflw_tests.Admin.Client.{
  get, api_request, Auth, Sent, Backend, Reply, Result, returned, refused, crashed,
}
use tflw_tests.Admin.Routes.{
  Route, Session, User, hardened, login, login_page, logout, requires_admin, verifies_csrf,
}
use tflw_tests.Admin.Handlers.{Platform}
use tflw_tests.Admin.Server.{
  user_of, Request, attach_csrf_token, csrf_holds, is_staff, turn_away, admit, credentials,
  log_in_with, log_in, logged_out, log_out, is_admin, behind_login, require_auth, route_request,
  serve, serve_all,
}

-- The user is an admin or an agent, and the one whom the API named to the session's own credentials.
pub record IsStaff (backend : Backend) (user : User) (auth : Auth) : Type 0 where
  pub has_role : is_staff user.role ≡ true
  pub asked : List Sent
  pub profile : Reply
  pub named :
      (api_request backend (some auth) get (codes "/auth/profile") none asked).0 ≡ returned profile
  pub is_theirs : user ≡ user_of profile.json

abbrev pub StaffedBy : Backend → Option User → Option Auth → Type 0
StaffedBy backend none auth = Unit
StaffedBy backend (some user) none = ⊥
StaffedBy backend (some user) (some auth) = IsStaff backend user auth

abbrev pub Staffed : Backend → Session → Type 0
Staffed backend s = StaffedBy backend s.user s.auth

module _ (platform : Platform) (backend : Backend) where
  admit-Staffed :
      (s : Session) (auth : Auth) (asked : List Sent) (o : Result Reply) (sent : List Sent)
      → (api_request backend (some auth) get (codes "/auth/profile") none asked).0 ≡ o
      → Staffed backend s
      → Staffed backend (admit platform backend s auth (o, sent)).session
  unfolding admit turn_away
  admit-Staffed s auth asked (returned profile) sent q h = elim (Bool-cases profile.json.there) [
    | inr t ↦ rw t h
    | inl t ↦ elim (Bool-cases (is_staff (user_of profile.json).role)) [
      | inl e ↦
          rw (t, e)
            record { has_role = e; asked = asked; profile = profile; named = q; is_theirs = refl }
      | inr e ↦ rw (t, e) h
    ]
  ]
  admit-Staffed s auth asked (refused status problem) sent q h = h
  admit-Staffed s auth asked crashed sent q h = h

  log_in_with-Staffed :
      (s : Session) (o : Result Reply) (sent : List Sent)
      → Staffed backend s
      → Staffed backend (log_in_with platform backend s (o, sent)).session
  unfolding log_in_with
  log_in_with-Staffed s (returned answer) sent h = elim (Bool-cases answer.json.there) [
    | inl t ↦ rw t (admit-Staffed s (credentials platform backend answer) sent _ _ refl h)
    | inr t ↦ rw t h
  ]
  log_in_with-Staffed s (refused status problem) sent h = h
  log_in_with-Staffed s crashed sent h = h

  logged_out-Staffed :
      (s : Session) (o : Result Reply) (sent : List Sent)
      → Staffed backend s
      → Staffed backend (logged_out platform backend s (o, sent)).session
  unfolding logged_out
  logged_out-Staffed s (returned answer) sent h = tt
  logged_out-Staffed s (refused status problem) sent h = h
  logged_out-Staffed s crashed sent h = h

  log_out-Staffed :
      (s : Session) (auth : Option Auth) (sent : List Sent)
      → Staffed backend s
      → Staffed backend (log_out platform backend s auth sent).session
  unfolding log_out
  log_out-Staffed s none sent h = tt
  log_out-Staffed s (some auth) sent h = logged_out-Staffed s _ _ h

  require_auth-Staffed :
      (s : Session) (r : Route) (form : Map Text) (sent : List Sent)
      → Staffed backend s
      → Staffed backend (require_auth platform backend s r form sent).session
  unfolding require_auth behind_login
  require_auth-Staffed s r form sent h = elim (Bool-cases (is_some s.user)) [
    | inr e ↦ rw e h
    | inl e ↦ elim (Bool-cases (requires_admin r && not (is_admin platform backend s.user))) [
      | inl q ↦ rw (e, q) h
      | inr q ↦ elim (Bool-cases (verifies_csrf r && not (csrf_holds s form))) [
        | inl k ↦ rw (e, q, k) h
        | inr k ↦ rw (e, q, k) h
      ]
    ]
  ]

  route_request-Staffed :
      (s : Session) (r : Route) (form : Map Text) (sent : List Sent)
      → Staffed backend s
      → Staffed backend (route_request platform backend s r form sent).session
  unfolding route_request log_in
  route_request-Staffed s hardened form sent h = h
  route_request-Staffed s login_page form sent h = h
  route_request-Staffed s login form sent h = log_in_with-Staffed s _ _ h
  route_request-Staffed s logout form sent h = elim (Bool-cases (csrf_holds s form)) [
    | inl e ↦ rw e (log_out-Staffed s s.auth sent h)
    | inr e ↦ rw e h
  ]
  route_request-Staffed s r form sent h =
      rw (route_request-below platform backend s r form sent refl)
        (require_auth-Staffed s r form sent h)

  -- Whatever requests a browser makes and whatever the API answers to them, a session that begins
  -- without a user never holds one other than an admin or an agent whom the API named, as its
  -- profile, to the credentials that the session holds.
  pub serve_all-Staffed :
      (requests : List (Text × Request)) (s : Session) (sent : List Sent)
      → Staffed backend s
      → Staffed backend (serve_all platform backend requests s sent).0
  unfolding serve_all serve attach_csrf_token
  serve_all-Staffed [] s sent h = h
  serve_all-Staffed ((fresh, request) ∷ more) s sent h =
      serve_all-Staffed more _ _
        (route_request-Staffed (attach_csrf_token fresh s) request.route request.form sent h)
