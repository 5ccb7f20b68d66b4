-- ===== src/Admin/Server/Examples.antt =====
-- A console in front of an API that knows one agent, and the theorems at it.
use tflw_tests.Prelude.{
  ◌≡◌, refl, ap, Bool, true, false, none, some, [], ◌∷◌, is_some, Text, codes, text_eq, starts_with,
  lookup, decimal,
}
use tflw_tests.Admin.Client.{
  get, Data, answered, Backend, request_of, reply_of, api_request, extract_session_cookie,
}
use tflw_tests.Admin.Routes.{Session, delete_product, login}
use tflw_tests.Admin.Handlers.{Platform, product_path, bulk_delete}
use tflw_tests.Admin.Handlers.Reads.{OnlyGets}
use tflw_tests.Admin.Handlers.Bulk.{deletion_of, bulk_delete-sent}
use tflw_tests.Admin.Server.{Request, attach_csrf_token, csrf_holds, serve, serve_all}
use tflw_tests.Admin.Server.Guards.{is_login, serve_all-anonymous, serve-OnlyGets}
use tflw_tests.Admin.Server.Roles.{Staffed, serve_all-Staffed}

abbrev plain_platform : Platform
plain_platform = record {
  encode = λ params. [];
  page_number = λ o. codes "1";
  is_date = λ v. true;
  counted = decimal;
}

abbrev profile_of : Text → Data
profile_of role = record {
  there = true;
  fields = (codes "role", role) ∷ (codes "csrfToken", codes "t") ∷ [];
  items = [];
}

abbrev two_products : Data
two_products = record {
  there = true;
  fields = [];
  items = record { id = codes "a"; stock = 0 } ∷ record { id = codes "b"; stock = 7 } ∷ [];
}

-- Answers every request with the profile of that role, and a session.
abbrev api_for : Text → Backend
api_for role = λ sent request. answered 200 (profile_of role) (codes "session=s; Path=/" ∷ [])

abbrev shop : Backend
shop = λ sent request. answered 200 two_products []

abbrev new_browser : Session
new_browser = record { csrf = none; user = none; auth = none }

abbrev log_in_request : Request
log_in_request = record { route = login; form = (codes "email", codes "e") ∷ [] }

abbrev delete_request : Request
delete_request = record { route = delete_product (codes "a"); form = [] }

user_after : Session → Bool
user_after s = is_some s.user

agent_in :
    user_after
      (serve plain_platform
        (api_for (codes "agent"))
        (codes "n")
        log_in_request
        new_browser
        []).session
    ≡ true
unfolding user_after serve attach_csrf_token api_request lookup text_eq is_some
agent_in = refl

customer_out :
    user_after
      (serve plain_platform
        (api_for (codes "user"))
        (codes "n")
        log_in_request
        new_browser
        []).session
    ≡ false
unfolding user_after serve attach_csrf_token api_request lookup text_eq is_some
customer_out = refl

session_cookie_read :
    extract_session_cookie (codes "a=b" ∷ codes "session=s; Path=/" ∷ []) ≡ some (codes "s")
unfolding extract_session_cookie starts_with
session_cookie_read = refl

serve_all-Staffed_example :
    Staffed
      (api_for (codes "agent"))
      (serve_all plain_platform
        (api_for (codes "agent"))
        ((codes "n", log_in_request) ∷ [])
        new_browser
        []).0
serve_all-Staffed_example =
    serve_all-Staffed plain_platform (api_for (codes "agent")) ((codes "n", log_in_request) ∷ [])
      new_browser [] tt

serve_all-anonymous_example :
    ((serve_all plain_platform shop ((codes "n", delete_request) ∷ []) new_browser []).1 ≡ [])
    × ((serve_all plain_platform shop ((codes "n", delete_request) ∷ []) new_browser []).0.user
        ≡ none)
serve_all-anonymous_example =
    serve_all-anonymous plain_platform shop ((codes "n", delete_request) ∷ []) new_browser [] refl
      refl refl

abbrev agent_session : Session
agent_session = record {
  csrf = some (codes "n");
  user = some (record { id = []; name = []; email = []; role = codes "agent" });
  auth = some (record { session_cookie = some (codes "s"); csrf_token = some (codes "t") });
}

serve-OnlyGets_example :
    OnlyGets [] (serve plain_platform shop (codes "n") delete_request agent_session []).sent
unfolding csrf_holds lookup attach_csrf_token
serve-OnlyGets_example =
    serve-OnlyGets plain_platform shop (codes "n") delete_request agent_session []
      (λ e. cc (ap is_login e)) refl

bulk_delete-sent_example :
    (bulk_delete plain_platform shop agent_session.auth [] []).1
    ≡ request_of agent_session.auth get
        (product_path plain_platform shop agent_session.auth [] (codes "1"))
        none
      ∷ deletion_of plain_platform shop agent_session.auth (record { id = codes "a"; stock = 0 })
      ∷ []
unfolding reply_of
bulk_delete-sent_example =
    bulk_delete-sent plain_platform shop agent_session.auth [] []
      (record { json = two_products; set_cookie = [] }) refl
      (λ sent i. (record { json = two_products; set_cookie = [] }, refl))
