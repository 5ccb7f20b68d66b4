-- ===== src/Admin/Handlers.antt =====
-- webV2/admin/src/routes: what the routes behind the login ask of the API and answer with.
pub mod Reads
pub mod Bulk
use tflw_tests.Prelude.{
  ℕ, Bool, Option, none, some, List, [], ◌∷◌, ◌++◌, if◌then◌else◌, length, Text, codes, Map, lookup,
}
use tflw_tests.Admin.Client.{
  Method, get, post, patch, delete, Value, flag, Auth, Item, Backend, Reply, returned, crashed,
  Handler, ◌>>=◌, ◌>>◌, pure, api_request,
}
use tflw_tests.Admin.Routes.{
  Response, Route, action_name, add_member, as_date, as_number, assign, catching, categories,
  comment, coupon_form, create_coupon, create_org, dashboard, delete_out_of_stock, delete_product,
  detail_of, elsewhere, export, field, hardened, is_on, keep_param, login, login_page, logout,
  not_found, order_export, org, org_list, out_of_stock, page, page_size, pair, product,
  product_list, redirect, remove_member, rename_product, reply_review, set_role, slash, ticket,
  ticket_action, ticket_list, update_org, with_rest,
}

-- The parts of the language and of express that the routes use: URLSearchParams, `parseInt`, and
-- whether a text is a date.
pub record Platform : Type 0 where
  pub encode : Map Text → Text
  pub page_number : Option Text → Text
  pub is_date : Value → Bool
  pub counted : ℕ → Text

module _ (platform : Platform) (backend : Backend) (auth : Option Auth) where
  pub call : Method → Text → Option (Map Value) → Handler Reply
  call = api_request backend auth

  -- `Promise.all`: every page is asked for, and the first error, in their order, is the error of all.
  pub together : List Text → Handler Unit
  unfolding call
  together [] sent = (returned tt, sent)
  together (path ∷ paths) sent =
      let first = call get path none sent in with_rest first.0 (together paths first.1)

  pub get_then : Text → Response → Handler Response
  get_then path response = call get path none >> pure response

  pub delete_each : List Item → Handler Unit
  unfolding call
  delete_each [] = pure tt
  delete_each (i ∷ is) = call delete (slash (codes "/products") i.id) none >> delete_each is

  pub product_query : Map Text → Text → Text
  unfolding keep_param
  product_query params n = platform.encode (
      (codes "page", n)
      ∷ (codes "pageSize", page_size)
      ∷ keep_param (codes "categoryId") (lookup (codes "categoryId") params)
          (keep_param (codes "q") (lookup (codes "q") params) []))

  pub product_path : Map Text → Text → Text
  product_path params n = codes "/products?" ++ product_query params n

  pub after_bulk : Map Text → ℕ → Response
  unfolding keep_param
  after_bulk form n = redirect (
      codes "/products?"
      ++ platform.encode (
          keep_param (codes "q") (lookup (codes "q") form) (
            keep_param (codes "categoryId") (lookup (codes "categoryId") form)
              ((codes "deleted", platform.counted n) ∷ []))))

  pub delete_listed : Map Text → Reply → Handler Response
  unfolding delete_each out_of_stock after_bulk
  delete_listed form listed =
      let doomed = out_of_stock listed.json.items in
      delete_each doomed >> pure (after_bulk form (length doomed))

  pub bulk_delete : Map Text → Handler Response
  unfolding call delete_listed product_path
  bulk_delete form = call get (product_path form (codes "1")) none >>= delete_listed form

  abbrev pub orgs_path : Text
  orgs_path = codes "/orgs"

  pub show_org : Text → ℕ → Option Text → Handler Response
  unfolding together
  show_org id status error =
      together (slash orgs_path id ∷ (slash orgs_path id ++ codes "/memberships") ∷ [])
      >> pure (page status (codes "orgs/detail") error)

  pub list_orgs : ℕ → Option Text → Handler Response
  unfolding get_then
  list_orgs status error = get_then orgs_path (page status (codes "orgs/list") error)

  pub coupon_body : Map Text → Map Value
  unfolding field as_number as_date
  coupon_body form =
      (codes "code", field (codes "code") form)
      ∷ (codes "type", field (codes "type") form)
      ∷ (codes "value", as_number (field (codes "value") form))
      ∷ (codes "expiresAt", as_date (field (codes "expiresAt") form))
      ∷ (codes "minOrderAmount", as_number (field (codes "minOrderAmount") form))
      ∷ (codes "usageLimit", as_number (field (codes "usageLimit") form))
      ∷ []

  pub ticket_path : Text → Text → Text
  ticket_path id rest = slash (codes "/tickets") id ++ rest

  -- `slash` of a membership below its organisation.
  pub member_path : Text → Text → Text
  member_path id member = slash (slash orgs_path id ++ codes "/memberships") member

  pub then_redirect : Method → Text → Option (Map Value) → Text → Handler Response
  unfolding call
  then_redirect method path body back = call method path body >> pure (redirect back)

  pub create_coupon_with : Map Text → Handler Response
  unfolding call coupon_body
  create_coupon_with form =
      if platform.is_date (as_date (field (codes "expiresAt") form))
      then catching (call post (codes "/coupons") (some (coupon_body form)))
          (λ status problem. pure (page status (codes "coupons/form") (detail_of problem)))
          (λ created. pure (page 200 (codes "coupons/created") none))
      else (λ sent. (crashed, sent))

  pub create_org_with : Map Text → Handler Response
  unfolding call list_orgs
  create_org_with form =
      catching (call post orgs_path (some (pair (codes "name") form ++ pair (codes "plan") form)))
        (λ status problem. list_orgs status (detail_of problem))
        (λ created. pure (redirect orgs_path))

  pub add_member_with : Text → Map Text → Handler Response
  unfolding call show_org
  add_member_with id form =
      catching
        (call post (slash orgs_path id ++ codes "/memberships")
          (some (pair (codes "email") form ++ pair (codes "orgRole") form)))
        (λ status problem. show_org id status (detail_of problem))
        (λ created. pure (redirect (slash orgs_path id)))

  pub ticket_query : Map Text → Text
  unfolding keep_param
  ticket_query query = platform.encode (
      keep_param (codes "status") (lookup (codes "status") query) (
        keep_param (codes "slaBreached") (lookup (codes "slaBreached") query)
          (keep_param (codes "assignedTo") (lookup (codes "assignedTo") query) [])))

  pub comment_body : Map Text → Map Value
  comment_body form =
      pair (codes "text") form
      ++ (codes "isInternal", flag (is_on (lookup (codes "isInternal") form))) ∷ []

  -- The handler behind the guards, of the routes below requireAuth. `form` is the body of a form or
  -- the query of a page.
  pub act : Route → Map Text → Handler Response
  unfolding get_then together then_redirect bulk_delete create_coupon_with create_org_with
  act dashboard form = pure (page 200 (codes "dashboard") none)
  act categories form = get_then (codes "/categories/tree") (page 200 (codes "categories") none)
  act product_list form =
      together (
        product_path form (platform.page_number (lookup (codes "page") form))
        ∷ codes "/categories"
        ∷ [])
      >> pure (page 200 (codes "products/list") none)
  act (product id) form =
      together (
        slash (codes "/products") id
        ∷ (slash (codes "/products") id ++ codes "/reviews?limit=50")
        ∷ [])
      >> pure (page 200 (codes "products/detail") none)
  act (reply_review id review) form =
      then_redirect post (slash (codes "/reviews") review ++ codes "/reply")
        (some (pair (codes "replyText") form)) (slash (codes "/products") id)
  act (rename_product id) form =
      then_redirect patch (slash (codes "/products") id) (some (pair (codes "name") form))
        (slash (codes "/products") id)
  act (delete_product id) form =
      then_redirect delete (slash (codes "/products") id) none (codes "/products")
  act delete_out_of_stock form = bulk_delete form
  act ticket_list form =
      get_then (codes "/tickets?" ++ ticket_query form) (page 200 (codes "tickets/list") none)
  act (ticket id) form =
      together (
        ticket_path id []
        ∷ ticket_path id (codes "/comments")
        ∷ ticket_path id (codes "/history")
        ∷ [])
      >> pure (page 200 (codes "tickets/detail") none)
  act (assign id) form =
      then_redirect patch (ticket_path id (codes "/assign")) (some (pair (codes "assigneeId") form))
        (ticket_path id [])
  act (ticket_action a id) form =
      then_redirect post (ticket_path id (47 ∷ action_name a)) none (ticket_path id [])
  act (comment id) form =
      then_redirect post (ticket_path id (codes "/comments")) (some (comment_body form))
        (ticket_path id [])
  act coupon_form form = pure (page 200 (codes "coupons/form") none)
  act create_coupon form = create_coupon_with form
  act order_export form = get_then (codes "/orders/export") export
  act org_list form = list_orgs 200 none
  act create_org form = create_org_with form
  act (org id) form = show_org id 200 none
  act (update_org id) form =
      then_redirect patch (slash orgs_path id)
        (some (pair (codes "name") form ++ pair (codes "plan") form)) (slash orgs_path id)
  act (add_member id) form = add_member_with id form
  act (set_role id member) form =
      then_redirect patch (member_path id member) (some (pair (codes "orgRole") form))
        (slash orgs_path id)
  act (remove_member id member) form =
      then_redirect delete (member_path id member) none (slash orgs_path id)
  act hardened form = pure not_found
  act login_page form = pure not_found
  act login form = pure not_found
  act logout form = pure not_found
  act (elsewhere guarded) form = pure not_found
