-- ===== src/Shop/Orders/Effect.antt =====
-- What an order that is placed does to the shop, and that one that is not does nothing.
use tflw_tests.Prelude.{
  is_nil, text_eq→eq, arith, ℕ, ◌+◌, ◌≡◌, refl, sym, ap, ◌∙◌, subst, ◌⊎◌, inl, inr, true, false,
  Option, none, some, List, [], ◌∷◌, ◌++◌, map, Bool-cases, Option-cases, Text,
}
use tflw_tests.Shop.Tables.{Fault, done, find_one, find_one-holds, Attempt-cases}
use tflw_tests.Shop.Keys.{distinct}
use tflw_tests.Shop.Inventory.{ReservationItem, Depot, reserve}
use tflw_tests.Shop.Orders.{
  Network, lost, unanswered, answered, has_key, Order, Shop, Setting, CreateOrderResult, replay,
  product_key, take_items,
}
use tflw_tests.Shop.Orders.Create.{
  discount_part, Persisted, rejected, unique_violation, saved, key_taken, persist_order_atomically,
  client_reserve, reserve_inventory, create,
}
use tflw_tests.Shop.Orders.Stock.{
  ordered, held, are_positive, as_asked, at_price, take_items-IsTransacted,
}
use tflw_tests.Shop.Orders.Coupons.{Redeemed, done_inj, discount_part-Redeemed}
use tflw_tests.Shop.Orders.Answers.{replay-answer}

-- What is kept of the transaction.
pub record IsSaved (item_id : ℕ → ℕ) (items : List ReservationItem) (user_id : ℕ)
    (key : Option Text) (s : Shop) (order : Order) (after : Shop) : Type 0 where
  pub subtotal : ℕ
  pub taken : take_items item_id 0 items s.products ≡ done (order.items, subtotal, after.products)
  pub owner_kept : order.user_id ≡ user_id
  pub key_kept : order.idempotency_key ≡ key
  pub orders_grown : after.orders ≡ s.orders ++ order ∷ []
  pub redeemed : Redeemed s.coupons after.coupons
  pub depot_same : after.depot ≡ s.depot

abbrev IsPersisted : (ℕ → ℕ) → List ReservationItem → ℕ → Option Text → Shop → Persisted → Type 0
IsPersisted item_id items user_id key s (rejected fault) = Unit
IsPersisted item_id items user_id key s unique_violation = Unit
IsPersisted item_id items user_id key s (saved order after) =
    IsSaved item_id items user_id key s order after

persist-IsPersisted :
    (w : Setting) (user_id : ℕ) (items : List ReservationItem)
    (key coupon_code webhook_url : Option Text) (s : Shop)
    → IsPersisted w.item_id items user_id key s
        (persist_order_atomically w user_id items key coupon_code webhook_url s)
unfolding persist_order_atomically
persist-IsPersisted w user_id items key coupon_code webhook_url s =
    elim (Attempt-cases (take_items w.item_id 0 items s.products)) [
      | inl (fault, e) ↦ rw (e, IsPersisted, persist_order_atomically) tt
      | inr ((rows, subtotal, products), e) ↦
          elim (Attempt-cases (discount_part w coupon_code subtotal user_id s)) [
            | inl (fault, f) ↦ rw (e, f, IsPersisted, persist_order_atomically) tt
            | inr ((discount, coupons), f) ↦ elim (Bool-cases (key_taken key s.orders)) [
              | inl g ↦ rw (e, f, g, IsPersisted, persist_order_atomically) tt
              | inr g ↦
                  rw (e, f, g, IsPersisted, persist_order_atomically)
                    record {
                      subtotal = subtotal;
                      taken = e;
                      owner_kept = refl;
                      key_kept = refl;
                      orders_grown = refl;
                      redeemed =
                          discount_part-Redeemed w coupon_code subtotal user_id s discount coupons
                            f;
                      depot_same = refl;
                    }
            ]
          ]
    ]

Persisted-cases :
    (p : Persisted)
    → ((fault : Fault) × (p ≡ rejected fault))
      ⊎ ((p ≡ unique_violation) ⊎ ((o : Order) × (s : Shop) × (p ≡ saved o s)))
Persisted-cases (rejected fault) = inl (fault, refl)
Persisted-cases unique_violation = inr (inl refl)
Persisted-cases (saved o s) = inr (inr (o, s, refl))

-- The call to the inventory service changes the depot and the notifications alone.
pub record IsReserved (w : Setting) (id : ℕ) (items : List ReservationItem) (s after : Shop)
    : Type 0 where
  pub same_products : after.products ≡ s.products
  pub same_coupons : after.coupons ≡ s.coupons
  pub same_orders : after.orders ≡ s.orders
  pub depot_reserved : after.depot ≡ (client_reserve w id items s.depot).1

reserve_inventory-IsReserved :
    (w : Setting) (order : Order) (items : List ReservationItem) (user_id : ℕ) (s : Shop)
    → IsReserved w order.id items s (reserve_inventory w order items user_id s)
unfolding reserve_inventory
reserve_inventory-IsReserved w order items user_id s =
    elim (Option-cases (client_reserve w order.id items s.depot).0) [
      | inl e ↦
          rw (e, reserve_inventory)
            record {
              same_products = refl;
              same_coupons = refl;
              same_orders = refl;
              depot_reserved = refl;
            }
      | inr (r, e) ↦
          rw (e, reserve_inventory)
            record {
              same_products = refl;
              same_coupons = refl;
              same_orders = refl;
              depot_reserved = refl;
            }
    ]

-- An order made, or one found.
pub record IsMade (w : Setting) (user_id : ℕ) (items : List ReservationItem) (key : Option Text)
    (s : Shop) (order : Order) (after : Shop) : Type 0 where
  pub not_found_before : replay key user_id (some items) s ≡ done none
  pub middle : Shop
  pub is_saved : IsSaved w.item_id items user_id key s order middle
  pub is_reserved : IsReserved w order.id items middle after

pub create-cases :
    (w : Setting) (user_id : ℕ) (items : List ReservationItem)
    (key coupon_code webhook_url : Option Text) (s : Shop) (r : CreateOrderResult) (after : Shop)
    → create w user_id items key coupon_code webhook_url s ≡ done (r, after)
    → ((replay key user_id (some items) s ≡ done (some r)) × (after ≡ s))
      ⊎ ((r.created ≡ true) × IsMade w user_id items key s r.order after)
unfolding create
create-cases w user_id items key coupon_code webhook_url s r after h =
    elim (Attempt-cases (replay key user_id (some items) s)) [
      | inl (fault, e) ↦ cc (rw (e, create) at h)
      | inr (some found, e) ↦
          let g : (found, s) ≡ (r, after) = done_inj (rw (e, create) at h) in
          inl (e ∙ ap (λ x. done (some x.0)) g, sym (ap (λ x. x.1) g))
      | inr (none, e) ↦
          let known = persist-IsPersisted w user_id items key coupon_code webhook_url s in
          elim (Persisted-cases
            (persist_order_atomically w user_id items key coupon_code webhook_url s)) [
              | inl (fault, f) ↦ cc (rw (e, f, create) at h)
              | inr (inl f) ↦ cc (rw (e, f, create) at h)
              | inr (inr (order, middle, f)) ↦
                  let made : Shop = reserve_inventory w order items user_id middle in
                  let g = done_inj (rw (e, f, create) at h) in
                  let is_saved : IsSaved w.item_id items user_id key s order middle =
                    rw f at known in
                  inr (
                    subst (λ x. (x.0.created ≡ true) × IsMade w user_id items key s x.0.order x.1) g
                      (
                        refl,
                        record {
                          not_found_before = e;
                          middle = middle;
                          is_saved = is_saved;
                          is_reserved = reserve_inventory-IsReserved w order items user_id middle;
                        },
                      ))
            ]
    ]

-- What a created order has done to the shop.
pub record IsPlaced (w : Setting) (user_id : ℕ) (items : List ReservationItem) (s : Shop)
    (order : Order) (after : Shop) : Type 0 where
  pub stock_taken : (p : ℕ) → held p after.products + ordered p items ≡ held p s.products
  pub rows_asked : map as_asked order.items ≡ map (at_price s.products) items
  pub owned : order.user_id ≡ user_id
  pub order_added : after.orders ≡ s.orders ++ order ∷ []
  pub coupons_redeemed : Redeemed s.coupons after.coupons
  pub asked_once :
      (after.depot ≡ s.depot)
      ⊎ (after.depot ≡ (reserve w.backorder_id (some order.id) items s.depot).1)

client_reserve-once :
    (w : Setting) (id : ℕ) (items : List ReservationItem) (d : Depot)
    → ((client_reserve w id items d).1 ≡ d)
      ⊎ ((client_reserve w id items d).1 ≡ (reserve w.backorder_id (some id) items d).1)
unfolding client_reserve
client_reserve-once w id items d = go w.network refl
  where
    go :
        (n : Network)
        → w.network ≡ n
        → ((client_reserve w id items d).1 ≡ d)
          ⊎ ((client_reserve w id items d).1 ≡ (reserve w.backorder_id (some id) items d).1)
    go lost e = rw e (inl refl)
    go unanswered e = rw e (inr refl)
    go answered e = rw e (inr refl)

has_key-key : (k : Text) (o : Order) → has_key k o ≡ true → o.idempotency_key ≡ some k
has_key-key k o h = elim (Option-cases o.idempotency_key) [
  | inl e ↦ cc (rw e at h)
  | inr (j, e) ↦ e ∙ ap some (text_eq→eq j k (rw e at h))
]

-- The order that is answered stands under the key, which is not empty, and is the user's.
pub record IsFound (user_id : ℕ) (key : Option Text) (s : Shop) (order : Order) : Type 0 where
  pub used_key : Text
  pub asked : key ≡ some used_key
  pub not_empty : is_nil used_key ≡ false
  pub under_key : order.idempotency_key ≡ some used_key
  pub is_theirs : order.user_id ≡ user_id
  pub stored : find_one (has_key used_key) s.orders ≡ some order

pub find_one-IsFound :
    (user_id : ℕ) (k : Text) (s : Shop) (o : Order)
    → is_nil k ≡ false
    → find_one (has_key k) s.orders ≡ some o
    → o.user_id ≡ user_id
    → IsFound user_id (some k) s o
find_one-IsFound user_id k s o filled e theirs = record {
  used_key = k;
  asked = refl;
  not_empty = filled;
  under_key = has_key-key k o (find_one-holds (has_key k) s.orders o e);
  is_theirs = theirs;
  stored = e;
}

-- On products with different identifiers and quantities from 1, a request that succeeds either
-- created its order: the stock of every product is less by just what its items ask of it together,
-- the order stands behind the others with the items at the prices of the products, every coupon is as
-- it was or was redeemed once within its limit, and the depot is as it was, where the network lost
-- the request, or has had the reservation of the items once; or it has changed nothing at all and
-- answers with an order of the user that stands under the key, which is not empty.
pub create-IsPlaced :
    (w : Setting) (user_id : ℕ) (items : List ReservationItem)
    (key coupon_code webhook_url : Option Text) (s : Shop) (r : CreateOrderResult) (after : Shop)
    → distinct product_key s.products ≡ true
    → are_positive items ≡ true
    → create w user_id items key coupon_code webhook_url s ≡ done (r, after)
    → ((r.created ≡ true) × IsPlaced w user_id items s r.order after)
      ⊎ ((r.created ≡ false) × IsFound user_id key s r.order × (after ≡ s))
create-IsPlaced w user_id items key coupon_code webhook_url s r after d pos h =
    elim (create-cases w user_id items key coupon_code webhook_url s r after h) [
      | inl (found, same) ↦
          let (o, e, fits, (k, is_key, stands, filled)) =
            replay-answer key user_id items s r found in
          inr (
            ap (λ x. x.created) e,
            rw (e, is_key) (find_one-IsFound user_id k s o filled stands (ground arith)),
            same,
          )
      | inr (made, m) ↦
          let sold =
            rw m.is_saved.taken at (take_items-IsTransacted w.item_id 0 items s.products d pos) in
          inl (
            made,
            record {
              stock_taken = λ p. rw m.is_reserved.same_products (sold.stock_sold p);
              rows_asked = sold.rows_asked;
              owned = m.is_saved.owner_kept;
              order_added = m.is_reserved.same_orders ∙ m.is_saved.orders_grown;
              coupons_redeemed = rw m.is_reserved.same_coupons m.is_saved.redeemed;
              asked_once =
                  subst
                    (λ x.
                      (x ≡ s.depot)
                      ⊎ (x ≡ (reserve w.backorder_id (some r.order.id) items s.depot).1))
                    (sym (
                      m.is_reserved.depot_reserved
                      ∙ ap (λ x. (client_reserve w r.order.id items x).1) m.is_saved.depot_same))
                    (client_reserve-once w r.order.id items s.depot);
            },
          )
    ]
