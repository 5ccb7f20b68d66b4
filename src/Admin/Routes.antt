-- ===== src/Admin/Routes.antt =====
-- webV2/admin/src/routes: what each form and page of the console asks of the API.
use tflw_tests.Prelude.{
  ℕ, Bool, true, false, Option, none, some, List, [], ◌∷◌, ◌++◌, ◌==◌, filter, Text, codes, text_eq,
  Map, lookup,
}
use tflw_tests.Admin.Client.{
  Value, text, number, date, flag, undefined, Auth, Sent, Item, Data, Reply, Result, returned,
  refused, crashed, Handler,
}

pub record User : Type 0 where
  pub id : Text
  pub name : Text
  pub email : Text
  pub role : Text

-- The session of one browser.
pub record Session : Type 0 where
  pub csrf : Option Text
  pub user : Option User
  pub auth : Option Auth

pub data Action : Type 0 where
  claim start resolve : Action

-- Every path that a router names; `elsewhere` is any other, under a router that wants the role or not.
pub data Route : Type 0 where
  hardened login_page login logout dashboard categories product_list delete_out_of_stock : Route
  ticket_list coupon_form create_coupon order_export org_list create_org : Route
  product rename_product delete_product ticket assign comment org update_org add_member :
      Text → Route
  reply_review set_role remove_member : Text → Text → Route
  ticket_action : Action → Text → Route
  elsewhere : Bool → Route

-- The routes that are declared with `verifyCsrf`.
unfoldable pub verifies_csrf : Route → Bool
verifies_csrf logout = true
verifies_csrf delete_out_of_stock = true
verifies_csrf create_coupon = true
verifies_csrf create_org = true
verifies_csrf (rename_product id) = true
verifies_csrf (delete_product id) = true
verifies_csrf (assign id) = true
verifies_csrf (comment id) = true
verifies_csrf (update_org id) = true
verifies_csrf (add_member id) = true
verifies_csrf (reply_review id review) = true
verifies_csrf (set_role id member) = true
verifies_csrf (remove_member id member) = true
verifies_csrf (ticket_action a id) = true
verifies_csrf hardened = false
verifies_csrf login_page = false
verifies_csrf login = false
verifies_csrf dashboard = false
verifies_csrf categories = false
verifies_csrf product_list = false
verifies_csrf ticket_list = false
verifies_csrf coupon_form = false
verifies_csrf order_export = false
verifies_csrf org_list = false
verifies_csrf (product id) = false
verifies_csrf (ticket id) = false
verifies_csrf (org id) = false
verifies_csrf (elsewhere guarded) = false

-- The routers of coupons and organisations, behind `requireRole('admin')`.
unfoldable pub requires_admin : Route → Bool
requires_admin coupon_form = true
requires_admin create_coupon = true
requires_admin org_list = true
requires_admin create_org = true
requires_admin (org id) = true
requires_admin (update_org id) = true
requires_admin (add_member id) = true
requires_admin (set_role id member) = true
requires_admin (remove_member id member) = true
requires_admin (elsewhere guarded) = guarded
requires_admin hardened = false
requires_admin login_page = false
requires_admin login = false
requires_admin logout = false
requires_admin dashboard = false
requires_admin categories = false
requires_admin product_list = false
requires_admin delete_out_of_stock = false
requires_admin ticket_list = false
requires_admin order_export = false
requires_admin (product id) = false
requires_admin (rename_product id) = false
requires_admin (delete_product id) = false
requires_admin (ticket id) = false
requires_admin (assign id) = false
requires_admin (comment id) = false
requires_admin (reply_review id review) = false
requires_admin (ticket_action a id) = false

-- A page with its status, name and error, a redirect, or the export passed through.
pub data Response : Type 0 where
  page : ℕ → Text → Option Text → Response
  redirect : Text → Response
  export : Response
  not_found : Response

-- `undefined` for a field that the form does not have.
pub value_of : Option Text → Value
value_of none = undefined
value_of (some s) = text s

pub is_on : Option Text → Bool
is_on none = false
is_on (some s) = text_eq s (codes "on")

unfoldable pub field : Text → Map Text → Value
unfolding value_of
field name form = value_of (lookup name form)

pub pair : Text → Map Text → Map Value
unfolding field
pair name form = (name, field name form) ∷ []

-- The pairs of a query that `qs` keeps.
unfoldable pub keep_param : Text → Option Text → Map Text → Map Text
keep_param name none rest = rest
keep_param name (some []) rest = rest
keep_param name (some (c ∷ s)) rest = (name, c ∷ s) ∷ rest

abbrev pub page_size : Text
page_size = codes "15"

unfoldable pub out_of_stock : List Item → List Item
out_of_stock items = filter (λ i. i.stock == 0) items

pub action_name : Action → Text
action_name claim = codes "claim"
action_name start = codes "start"
action_name resolve = codes "resolve"

pub detail_of : Data → Option Text
detail_of problem = lookup (codes "detail") problem.fields

pub slash : Text → Text → Text
slash root id = root ++ 47 ∷ id

abbrev pub recover_with :
    {A : Type 0}
    → Result A × List Sent
    → (ℕ → Data → Handler Response)
    → (A → Handler Response)
    → Result Response × List Sent
recover_with (returned a, sent) recover next = next a sent
recover_with (refused status problem, sent) recover next = recover status problem sent
recover_with (crashed, sent) recover next = (crashed, sent)

-- The answer, or what a page shows for an ApiError; any other error is thrown again.
abbrev pub catching :
    {A : Type 0}
    → Handler A
    → (ℕ → Data → Handler Response)
    → (A → Handler Response)
    → Handler Response
catching h recover next sent = recover_with (h sent) recover next

-- `Promise.all` of two: both are sent, and the first error is the error of both.
abbrev pub first_error : Result Reply → Result Unit → Result Unit
first_error (returned r) rest = rest
first_error (refused status problem) rest = refused status problem
first_error crashed rest = crashed

abbrev pub with_rest : Result Reply → Result Unit × List Sent → Result Unit × List Sent
with_rest first rest = (first_error first rest.0, rest.1)

unfoldable pub as_number : Value → Value
as_number (text s) = number s
as_number (number s) = number s
as_number (date s) = date s
as_number (flag b) = flag b
as_number undefined = undefined

unfoldable pub as_date : Value → Value
as_date (text s) = date s
as_date (number s) = number s
as_date (date s) = date s
as_date (flag b) = flag b
as_date undefined = undefined
