-- ===== src/Admin/Handlers/Bulk.antt =====
-- The bulk action of the product list: which products it deletes.
use mathlib.Core.List.{append_assoc, append-nil}
use tflw_tests.Prelude.{
  ◌≡◌, sym, ap, ◌∙◌, Option, none, List, [], ◌∷◌, ◌++◌, map, ◌==◌, filter, Text, codes, Map,
}
use tflw_tests.Admin.Client.{
  get, delete, Auth, Sent, Item, Backend, Reply, returned, request_of, reply_of, api_request,
}
use tflw_tests.Admin.Routes.{out_of_stock, slash}
use tflw_tests.Admin.Handlers.{
  Platform, call, delete_each, product_path, delete_listed, bulk_delete,
}

module _ (platform : Platform) (backend : Backend) (auth : Option Auth) where
  abbrev pub deletion_of : Item → Sent
  deletion_of i = request_of auth delete (slash (codes "/products") i.id) none

  -- The API answers every deletion with success.
  abbrev pub Deletes : Type 0
  Deletes =
      (sent : List Sent) (i : Item)
      → (r : Reply) × (reply_of (backend sent (deletion_of i)) ≡ returned r)

  delete_each-sent :
      (items : List Item) (sent : List Sent)
      → Deletes
      → delete_each platform backend auth items sent ≡ (returned tt, sent ++ map deletion_of items)
  unfolding delete_each call api_request
  delete_each-sent [] sent ok = ap (λ l. (returned tt, l)) (sym (append-nil sent))
  delete_each-sent (i ∷ is) sent ok =
      let (r, e) = ok sent i in
      rw e (
        delete_each-sent is (sent ++ deletion_of i ∷ []) ok
        ∙ ap (λ l. (returned tt, l)) (append_assoc sent (deletion_of i ∷ []) (map deletion_of is)))

  -- If the API answers the list of the page and every deletion, the bulk action sends the list
  -- request and then one deletion for each product of that page with no stock, in order, and no other.
  pub bulk_delete-sent :
      (form : Map Text) (sent : List Sent) (listed : Reply)
      → reply_of (
          backend sent
            (request_of auth get (product_path platform backend auth form (codes "1")) none))
        ≡ returned listed
      → Deletes
      → (bulk_delete platform backend auth form sent).1
        ≡ sent
          ++ request_of auth get (product_path platform backend auth form (codes "1")) none
            ∷ map deletion_of (filter (λ i. i.stock == 0) listed.json.items)
  unfolding bulk_delete delete_listed call api_request out_of_stock
  bulk_delete-sent form sent listed h ok =
      let first : Sent =
        request_of auth get (product_path platform backend auth form (codes "1")) none in
      let doomed : List Item = filter (λ i. i.stock == 0) listed.json.items in
      rw h (
        rw (delete_each-sent doomed (sent ++ first ∷ []) ok)
          (append_assoc sent (first ∷ []) (map deletion_of doomed)))
