-- ===== src/Admin/Server.antt =====
-- webV2/admin/src/server.js, middleware and routes/auth.js: the guards in front of the routes, the
-- login, and the page of an error.
pub mod Guards
pub mod Roles
pub mod Errors
mod Examples
use tflw_tests.Prelude.{
  any, ℕ, Bool, true, false, not, ◌&&◌, ◌||◌, Option, none, some, List, [], ◌∷◌, ◌++◌, ltb, leb,
  if◌then◌else◌, is_some, Text, codes, text_eq, Map, lookup,
}
use tflw_tests.Admin.Client.{
  get, post, Auth, Sent, Data, Backend, Reply, Result, returned, refused, crashed, api_request,
  extract_session_cookie,
}
use tflw_tests.Admin.Routes.{
  add_member, assign, categories, comment, coupon_form, create_coupon, create_org,
  delete_out_of_stock, delete_product, order_export, org, org_list, product, product_list,
  remove_member, rename_product, reply_review, set_role, ticket, ticket_action, ticket_list,
  update_org, Response, Route, Session, User, detail_of, hardened, login, login_page, logout, page,
  pair, redirect, requires_admin, verifies_csrf,
}
use tflw_tests.Admin.Handlers.{Platform, act}

pub record Request : Type 0 where
  pub route : Route
  pub form : Map Text

-- The routers that are mounted behind `requireAuth`, in order.
pub data Mount : Type 0 where
  at_root at_categories at_products at_tickets at_coupons at_orders at_orgs : Mount

abbrev pub mounts : List Mount
mounts = at_root ∷ at_categories ∷ at_products ∷ at_tickets ∷ at_coupons ∷ at_orders ∷ at_orgs ∷ []

abbrev pub is_categories : Route → Bool
is_categories categories = true
is_categories _ = false

abbrev pub is_products : Route → Bool
is_products product_list = true
is_products delete_out_of_stock = true
is_products (product id) = true
is_products (rename_product id) = true
is_products (delete_product id) = true
is_products (reply_review id review) = true
is_products _ = false

abbrev pub is_tickets : Route → Bool
is_tickets ticket_list = true
is_tickets (ticket id) = true
is_tickets (assign id) = true
is_tickets (comment id) = true
is_tickets (ticket_action a id) = true
is_tickets _ = false

abbrev pub is_coupons : Route → Bool
is_coupons coupon_form = true
is_coupons create_coupon = true
is_coupons _ = false

abbrev pub is_orders : Route → Bool
is_orders order_export = true
is_orders _ = false

abbrev pub is_orgs : Route → Bool
is_orgs org_list = true
is_orgs create_org = true
is_orgs (org id) = true
is_orgs (update_org id) = true
is_orgs (add_member id) = true
is_orgs (set_role id member) = true
is_orgs (remove_member id member) = true
is_orgs _ = false

-- Whether the path of a route begins with the path of a mount: every path begins with that of the
-- dashboard, which is mounted first, so that its guard stands in front of all the others.
abbrev pub is_under : Mount → Route → Bool
is_under at_root route = true
is_under at_categories route = is_categories route
is_under at_products route = is_products route
is_under at_tickets route = is_tickets route
is_under at_coupons route = is_coupons route
is_under at_orders route = is_orders route
is_under at_orgs route = is_orgs route

-- What the console did: its answer, the session after it, and all that it has asked of the API.
pub record Served : Type 0 where
  pub response : Response
  pub session : Session
  pub sent : List Sent

-- `attachCsrfToken`: a session without a token gets the fresh one.
pub with_token : Option Text → Text → Option Text
with_token none fresh = some fresh
with_token (some []) fresh = some fresh
with_token (some (c ∷ s)) fresh = some (c ∷ s)

unfoldable pub attach_csrf_token : Text → Session → Session
unfolding with_token
attach_csrf_token fresh s = record s { csrf = with_token s.csrf fresh }

-- `req.body?._csrf !== req.session.csrfToken`
pub same_token : Option Text → Option Text → Bool
same_token none none = true
same_token none (some t) = false
same_token (some s) none = false
same_token (some s) (some t) = text_eq s t

abbrev pub forbidden : Response
forbidden = page 403 (codes "error") (some (codes "Forbidden"))

unfoldable pub csrf_holds : Session → Map Text → Bool
unfolding same_token
csrf_holds s form = same_token (lookup (codes "_csrf") form) s.csrf

-- The status of the error page: the API's if it is an error's, else 502.
pub error_status : ℕ → ℕ
error_status status = if leb 400 status && ltb status 600 then status else 502

-- The error middleware of server.js.
unfoldable pub handle_error : Result Response → Response
unfolding error_status
handle_error (returned response) = response
handle_error (refused status problem) =
    page (error_status status) (codes "error") (detail_of problem)
handle_error crashed = page 500 (codes "error") (some (codes "Unexpected error"))

pub served : Session → Result Response × List Sent → Served
unfolding handle_error
served s outcome = record { response = handle_error outcome.0; session = s; sent = outcome.1 }

abbrev pub is_staff : Text → Bool
is_staff role = text_eq role (codes "admin") || text_eq role (codes "agent")

pub text_or : Option Text → Text
text_or none = []
text_or (some s) = s

-- The user of a profile; a field that is absent is read as empty.
pub user_of : Data → User
unfolding text_or
user_of profile = record {
  id = text_or (lookup (codes "id") profile.fields);
  name = text_or (lookup (codes "name") profile.fields);
  email = text_or (lookup (codes "email") profile.fields);
  role = text_or (lookup (codes "role") profile.fields);
}

-- After the logout of an account that is not let in.
pub then_page : Result Reply × List Sent → Result Response × List Sent
then_page (returned reply, sent) = (
  returned
      (page 403 (codes "login") (some (codes "This console is for admin/agent accounts only."))),
  sent,
)
then_page (refused status problem, sent) = (refused status problem, sent)
then_page (crashed, sent) = (crashed, sent)

module _ (platform : Platform) (backend : Backend) where
  -- Neither an admin nor an agent: logged out of the API again.
  pub turn_away : Session → Auth → List Sent → Served
  unfolding served
  turn_away s auth sent =
      served s
        (then_page (api_request backend (some auth) post (codes "/auth/session-logout") none sent))

  pub admit : Session → Auth → Result Reply × List Sent → Served
  unfolding turn_away served user_of
  admit s auth (returned profile, sent) =
      let user = user_of profile.json in
      if not profile.json.there
      then served s (crashed, sent)
      else if is_staff user.role
      then record {
        response = redirect (codes "/");
        session = record s { auth = some auth; user = some user };
        sent = sent;
      }
      else turn_away s auth sent
  admit s auth (refused status problem, sent) = served s (refused status problem, sent)
  admit s auth (crashed, sent) = served s (crashed, sent)

  pub credentials : Reply → Auth
  credentials reply = record {
    session_cookie = extract_session_cookie reply.set_cookie;
    csrf_token = lookup (codes "csrfToken") reply.json.fields;
  }

  pub log_in_with : Session → Result Reply × List Sent → Served
  unfolding admit credentials served
  log_in_with s (returned reply, sent) =
      let auth = credentials reply in
      if reply.json.there
      then admit s auth (api_request backend (some auth) get (codes "/auth/profile") none sent)
      else served s (crashed, sent)
  log_in_with s (refused status problem, sent) = record {
    response = page status (codes "login") (detail_of problem);
    session = s;
    sent = sent;
  }
  log_in_with s (crashed, sent) = served s (crashed, sent)

  pub log_in : Session → Map Text → List Sent → Served
  unfolding log_in_with
  log_in s form sent = log_in_with s (
      api_request backend none post (codes "/auth/session-login")
        (some (pair (codes "email") form ++ pair (codes "password") form)) sent)

  -- The session after `destroy`: a new one at the next request.
  abbrev pub no_session : Session
  no_session = record { csrf = none; user = none; auth = none }

  pub logged_out : Session → Result Reply × List Sent → Served
  unfolding served
  logged_out s (returned reply, sent) = record {
    response = redirect (codes "/login");
    session = no_session;
    sent = sent;
  }
  logged_out s (refused status problem, sent) = served s (refused status problem, sent)
  logged_out s (crashed, sent) = served s (crashed, sent)

  pub log_out : Session → Option Auth → List Sent → Served
  unfolding logged_out
  log_out s none sent = record {
    response = redirect (codes "/login");
    session = no_session;
    sent = sent;
  }
  log_out s (some auth) sent =
      logged_out s (api_request backend (some auth) post (codes "/auth/session-logout") none sent)

  pub is_admin : Option User → Bool
  is_admin none = false
  is_admin (some user) = text_eq user.role (codes "admin")

  -- The routers below `requireAuth`.
  pub behind_login : Session → Route → Map Text → List Sent → Served
  unfolding served
  behind_login s route form sent =
      if requires_admin route && not (is_admin s.user)
      then record { response = forbidden; session = s; sent = sent }
      else if verifies_csrf route && not (csrf_holds s form)
      then record { response = forbidden; session = s; sent = sent }
      else served s (act platform backend s.auth route form sent)

  -- The requests that pass `requireAuth` at one mount at least.
  pub require_auth : Session → Route → Map Text → List Sent → Served
  unfolding behind_login
  require_auth s route form sent =
      if not (any (λ m. is_under m route) mounts) || is_some s.user
      then behind_login s route form sent
      else record { response = redirect (codes "/login"); session = s; sent = sent }

  pub route_request : Session → Route → Map Text → List Sent → Served
  unfolding require_auth log_in log_out
  route_request s hardened form sent = record {
    response = page 200 (codes "error") (some (codes "Hardened page"));
    session = s;
    sent = sent;
  }
  route_request s login_page form sent = record {
    response = if is_some s.user then redirect (codes "/") else page 200 (codes "login") none;
    session = s;
    sent = sent;
  }
  route_request s login form sent = log_in s form sent
  route_request s logout form sent =
      if csrf_holds s form
      then log_out s s.auth sent
      else record { response = forbidden; session = s; sent = sent }
  route_request s route form sent = require_auth s route form sent

  -- One request of a browser, with the token that `randomUUID` would give it.
  unfoldable pub serve : Text → Request → Session → List Sent → Served
  unfolding route_request
  serve fresh request s sent =
      route_request (attach_csrf_token fresh s) request.route request.form sent

  -- A browser's requests in turn, each with its fresh token.
  pub serve_all : List (Text × Request) → Session → List Sent → Session × List Sent
  serve_all [] s sent = (s, sent)
  serve_all ((fresh, request) ∷ more) s sent =
      let now = serve fresh request s sent in serve_all more now.session now.sent
