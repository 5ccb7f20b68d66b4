-- ===== src/Admin/Handlers/Reads.antt =====
-- Which routes only read: those without `verifyCsrf` send nothing but GETs.
use mathlib.Core.List.{append_assoc, append-nil}
use tflw_tests.Prelude.{
  ◌≡◌, refl, sym, ap, ◌∙◌, Bool, true, false, Option, none, List, [], ◌∷◌, ◌++◌, arith, all, Text,
  codes, Map, lookup,
}
use tflw_tests.Admin.Client.{
  Method, get, post, patch, put, delete, Auth, Sent, Backend, Result, returned, refused, crashed,
  continue_with, ◌>>◌, pure, request_of, api_request,
}
use tflw_tests.Admin.Routes.{
  Response, Route, add_member, assign, categories, comment, coupon_form, create_coupon, create_org,
  dashboard, delete_out_of_stock, delete_product, elsewhere, hardened, login, login_page, logout,
  order_export, org, org_list, page, product, product_list, remove_member, rename_product,
  reply_review, set_role, slash, ticket, ticket_action, ticket_list, update_org, verifies_csrf,
}
use tflw_tests.Admin.Handlers.{
  Platform, call, together, get_then, product_path, show_org, list_orgs, ticket_path, act,
}

abbrev pub is_get : Method → Bool
is_get get = true
is_get post = false
is_get patch = false
is_get put = false
is_get delete = false

abbrev pub all_get : List Sent → Bool
all_get requests = all (λ r. is_get r.method) requests

-- The requests after a step are those before it and then only GETs.
abbrev pub OnlyGets : List Sent → List Sent → Type 0
OnlyGets before after = (extra : List Sent) × (after ≡ before ++ extra) × (all_get extra ≡ true)

pub none-OnlyGets : (sent : List Sent) → OnlyGets sent sent
none-OnlyGets sent = ([], sym (append-nil sent), refl)

all_get-append :
    (xs ys : List Sent) → all_get xs ≡ true → all_get ys ≡ true → all_get (xs ++ ys) ≡ true
all_get-append [] ys h k = k
all_get-append (x ∷ xs) ys h k = ground (arith, all_get-append xs ys)

join-OnlyGets : (a b c : List Sent) → OnlyGets a b → OnlyGets b c → OnlyGets a c
join-OnlyGets a b c (x, p, h) (y, q, k) =
    (x ++ y, q ∙ ap (λ l. l ++ y) p ∙ append_assoc a x y, all_get-append x y h k)

then-OnlyGets :
    {A : Type 0} (before : List Sent) (o : Result A × List Sent) (r : Response)
    → OnlyGets before o.1
    → OnlyGets before (continue_with o (λ a. pure r)).1
then-OnlyGets before (returned a, after) r h = h
then-OnlyGets before (refused status problem, after) r h = h
then-OnlyGets before (crashed, after) r h = h

module _ (platform : Platform) (backend : Backend) (auth : Option Auth) where
  call-OnlyGets :
      (path : Text) (sent : List Sent)
      → OnlyGets sent (call platform backend auth get path none sent).1
  unfolding call api_request
  call-OnlyGets path sent = (request_of auth get path none ∷ [], refl, refl)

  together-OnlyGets :
      (paths : List Text) (sent : List Sent)
      → OnlyGets sent (together platform backend auth paths sent).1
  unfolding together
  together-OnlyGets [] sent = none-OnlyGets sent
  together-OnlyGets (path ∷ paths) sent =
      let now : List Sent = (call platform backend auth get path none sent).1 in
      join-OnlyGets sent now _ (call-OnlyGets path sent) (together-OnlyGets paths now)

  get_then-OnlyGets :
      (path : Text) (r : Response) (sent : List Sent)
      → OnlyGets sent (get_then platform backend auth path r sent).1
  unfolding get_then
  get_then-OnlyGets path r sent =
      then-OnlyGets sent (call platform backend auth get path none sent) r (call-OnlyGets path sent)

  pages-OnlyGets :
      (paths : List Text) (r : Response) (sent : List Sent)
      → OnlyGets sent ((together platform backend auth paths >> pure r) sent).1
  pages-OnlyGets paths r sent =
      then-OnlyGets sent (together platform backend auth paths sent) r
        (together-OnlyGets paths sent)

  -- The handlers that are declared without `verifyCsrf` only read.
  pub act-OnlyGets :
      (r : Route) (form : Map Text) (sent : List Sent)
      → verifies_csrf r ≡ false
      → OnlyGets sent (act platform backend auth r form sent).1
  unfolding act verifies_csrf list_orgs show_org
  act-OnlyGets hardened form sent h = none-OnlyGets sent
  act-OnlyGets login_page form sent h = none-OnlyGets sent
  act-OnlyGets login form sent h = none-OnlyGets sent
  act-OnlyGets logout form sent h = cc h
  act-OnlyGets dashboard form sent h = none-OnlyGets sent
  act-OnlyGets categories form sent h = get_then-OnlyGets _ _ sent
  act-OnlyGets product_list form sent h =
      let list_path : Text =
        product_path platform backend auth form
          (platform.page_number (lookup (codes "page") form)) in
      pages-OnlyGets (list_path ∷ codes "/categories" ∷ []) (page 200 (codes "products/list") none)
        sent
  act-OnlyGets delete_out_of_stock form sent h = cc h
  act-OnlyGets ticket_list form sent h = get_then-OnlyGets _ _ sent
  act-OnlyGets coupon_form form sent h = none-OnlyGets sent
  act-OnlyGets create_coupon form sent h = cc h
  act-OnlyGets order_export form sent h = get_then-OnlyGets _ _ sent
  act-OnlyGets org_list form sent h = get_then-OnlyGets _ _ sent
  act-OnlyGets create_org form sent h = cc h
  act-OnlyGets (product id) form sent h =
      pages-OnlyGets
        (slash (codes "/products") id
          ∷ (slash (codes "/products") id ++ codes "/reviews?limit=50")
          ∷ [])
        (page 200 (codes "products/detail") none) sent
  act-OnlyGets (rename_product id) form sent h = cc h
  act-OnlyGets (delete_product id) form sent h = cc h
  act-OnlyGets (ticket id) form sent h =
      let at : Text → Text = ticket_path platform backend auth id in
      pages-OnlyGets (at [] ∷ at (codes "/comments") ∷ at (codes "/history") ∷ [])
        (page 200 (codes "tickets/detail") none) sent
  act-OnlyGets (assign id) form sent h = cc h
  act-OnlyGets (comment id) form sent h = cc h
  act-OnlyGets (org id) form sent h =
      pages-OnlyGets
        (slash (codes "/orgs") id ∷ (slash (codes "/orgs") id ++ codes "/memberships") ∷ [])
        (page 200 (codes "orgs/detail") none) sent
  act-OnlyGets (update_org id) form sent h = cc h
  act-OnlyGets (add_member id) form sent h = cc h
  act-OnlyGets (reply_review id member) form sent h = cc h
  act-OnlyGets (set_role id member) form sent h = cc h
  act-OnlyGets (remove_member id member) form sent h = cc h
  act-OnlyGets (ticket_action a id) form sent h = cc h
  act-OnlyGets (elsewhere guarded) form sent h = none-OnlyGets sent
