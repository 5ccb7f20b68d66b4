-- ===== src/Shop/Orders/Create.antt =====
-- `create` of apiV2/src/orders/orders.service.ts: the transaction, and what follows its commit.
use tflw_tests.Prelude.{
  ℕ, ◌-◌, Bool, true, false, Option, none, some, List, [], ◌∷◌, ◌++◌, if◌then◌else◌, any, Text,
}
use tflw_tests.Shop.Tables.{Fault, server_error, Attempt, failed, done, and_then}
use tflw_tests.Shop.Orgs.{OrgMembership, get_for_user, org_of}
use tflw_tests.Shop.Inventory.{
  Depot, ReservationItem, ReservationItemResult, ReservationResult, reserve,
}
use tflw_tests.Shop.Orders.{
  pending, Order, Coupon, Notification, Shop, lost, unanswered, answered, Setting,
  CreateOrderResult, has_key, replay, take_items, apply_coupon,
}

-- `undefined` as a null column.
abbrev pub discount_part : Setting → Option Text → ℕ → ℕ → Shop → Attempt (Option ℕ × List Coupon)
discount_part w none subtotal user_id s = done (none, s.coupons)
discount_part w (some []) subtotal user_id s = done (none, s.coupons)
discount_part w (some (c ∷ code)) subtotal user_id s =
    and_then (apply_coupon w (c ∷ code) subtotal user_id s.memberships s.coupons)
      λ (discount, coupons). done (some discount, coupons)

-- What the transaction comes to. Any but `saved` rolls it back.
pub data Persisted : Type 0 where
  rejected : Fault → Persisted
  unique_violation : Persisted
  saved : Order → Shop → Persisted

-- The unique constraint of the key column, in which an empty text is a value like others.
abbrev pub key_taken : Option Text → List Order → Bool
key_taken none orders = false
key_taken (some k) orders = any (has_key k) orders

abbrev pub org_column : ℕ → List OrgMembership → Option ℕ
org_column user_id memberships = org_of (get_for_user user_id memberships)

unfoldable pub persist_order_atomically :
    Setting → ℕ → List ReservationItem → Option Text → Option Text → Option Text → Shop → Persisted
unfolding take_items apply_coupon and_then get_for_user org_of
persist_order_atomically w user_id items key coupon_code webhook_url s =
    elim (take_items w.item_id 0 items s.products) [
      | failed fault ↦ rejected fault
      | done (order_items, subtotal, products) ↦
          elim (discount_part w coupon_code subtotal user_id s) [
            | failed fault ↦ rejected fault
            | done (discount, coupons) ↦
                let order : Order = record {
                  id = w.order_id;
                  user_id = user_id;
                  status = pending;
                  idempotency_key = key;
                  coupon_code = coupon_code;
                  discount_amount = discount;
                  webhook_url = webhook_url;
                  org_id = org_column user_id s.memberships;
                  items = order_items;
                } in
                if key_taken key s.orders
                then unique_violation
                else saved order (record s {
                  products = products;
                  coupons = coupons;
                  orders = s.orders ++ order ∷ [];
                })
          ]
    ]

-- `reserve` of inventory-client.service.ts, which never throws.
unfoldable pub client_reserve :
    Setting → ℕ → List ReservationItem → Depot → Option ReservationResult × Depot
unfolding reserve
client_reserve w order_id items d =
    let (result, e) = reserve w.backorder_id (some order_id) items d in
    elim w.network [ lost ↦ (none, d) | unanswered ↦ (none, e) | answered ↦ (some result, e) ]

-- The notification of an item that is backordered.
abbrev pub backordered : ℕ → ℕ → ReservationItemResult → List Notification
backordered user_id order_id item = elim item.backorder_id [
  | none ↦ []
  | some backorder_id ↦
      record {
        user_id = user_id;
        order_id = order_id;
        product_id = item.product_id;
        quantity = item.requested_quantity - item.reserved_quantity;
        backorder_id = backorder_id;
      }
      ∷ []
]

abbrev pub backordered_all : ℕ → ℕ → List ReservationItemResult → List Notification
backordered_all user_id order_id [] = []
backordered_all user_id order_id (item ∷ items) =
    backordered user_id order_id item ++ backordered_all user_id order_id items

unfoldable pub reserve_inventory : Setting → Order → List ReservationItem → ℕ → Shop → Shop
unfolding client_reserve
reserve_inventory w order items user_id s =
    let (result, depot) = client_reserve w order.id items s.depot in
    elim result [
      | none ↦ record s { depot = depot }
      | some r ↦ record s {
        depot = depot;
        notifications = s.notifications ++ backordered_all user_id order.id r.items;
      }
    ]

-- A second look for the key, behind a unique violation.
abbrev pub replay_again :
    Option Text → ℕ → List ReservationItem → Shop → Attempt (CreateOrderResult × Shop)
replay_again key user_id items s = elim (replay key user_id (some items) s) [
  | failed fault ↦ failed fault
  | done none ↦ failed server_error
  | done (some r) ↦ done (r, s)
]

unfoldable pub create :
    Setting
    → ℕ
    → List ReservationItem
    → Option Text
    → Option Text
    → Option Text
    → Shop
    → Attempt (CreateOrderResult × Shop)
unfolding replay persist_order_atomically reserve_inventory
create w user_id items key coupon_code webhook_url s = elim (replay key user_id (some items) s) [
  | failed fault ↦ failed fault
  | done (some r) ↦ done (r, s)
  | done none ↦ elim (persist_order_atomically w user_id items key coupon_code webhook_url s) [
    | rejected fault ↦ failed fault
    | unique_violation ↦ replay_again key user_id items s
    | saved order after ↦
        done
          (record { order = order; created = true }, reserve_inventory w order items user_id after)
  ]
]
