-- ===== src/Shop/Orders.antt =====
-- apiV2/src/orders/orders.service.ts, with inventory-client.service.ts: orders, their items, stock,
-- coupons and idempotency keys. Money is a whole number of cents. A request is one step; what comes
-- from outside stands in the record `Setting`.
pub mod Create
pub mod Scoped
pub mod Stock
pub mod Coupons
pub mod Answers
pub mod Effect
pub mod Replay
mod Examples
use tflw_tests.Prelude.{
  ℕ, suc, ◌+◌, ◌-◌, ◌*◌, Bool, true, false, not, ◌&&◌, Option, none, some, List, [], ◌∷◌, ◌++◌, map,
  ltb, leb, ◌==◌, if◌then◌else◌, length, any, Text, codes, text_eq, decimal, sort,
}
use tflw_tests.Shop.Tables.{
  not_found, conflict, unprocessable, Attempt, done, and_then, unless, or_missing, find_one, update,
}
use tflw_tests.Shop.Keys.{keyed, keyed_and}
use tflw_tests.Shop.Orgs.{OrgMembership, of_user}
use tflw_tests.Shop.Inventory.{Depot, ReservationItem}

pub data OrderStatus : Type 0 where
  pending : OrderStatus
  processing : OrderStatus
  ready : OrderStatus
  order_fulfilled : OrderStatus
  order_cancelled : OrderStatus
  refunded : OrderStatus

pub record Product : Type 0 where
  pub id : ℕ
  pub name : Text
  pub price : ℕ
  pub stock : ℕ

pub record OrderItem : Type 0 where
  pub id : ℕ
  pub product_id : ℕ
  pub quantity : ℕ
  pub unit_price : ℕ

pub record Order : Type 0 where
  pub id : ℕ
  pub user_id : ℕ
  pub status : OrderStatus
  pub idempotency_key : Option Text
  pub coupon_code : Option Text
  pub discount_amount : Option ℕ
  pub webhook_url : Option Text
  pub org_id : Option ℕ
  pub items : List OrderItem

pub data CouponType : Type 0 where
  percent : CouponType
  fixed : CouponType

pub record Coupon : Type 0 where
  pub id : ℕ
  pub code : Text
  pub type : CouponType
  pub value : ℕ
  pub expires_at : ℕ
  pub min_order_amount : ℕ
  pub usage_limit : ℕ
  pub used_count : ℕ
  pub org_id : Option ℕ

-- STOCK_BACKORDERED
pub record Notification : Type 0 where
  pub user_id : ℕ
  pub order_id : ℕ
  pub product_id : ℕ
  pub quantity : ℕ
  pub backorder_id : ℕ

pub record Shop : Type 0 where
  pub products : List Product
  pub coupons : List Coupon
  pub orders : List Order
  pub memberships : List OrgMembership
  pub notifications : List Notification
  pub depot : Depot

-- What the call to the inventory service meets.
pub data Network : Type 0 where
  lost : Network
  unanswered : Network
  answered : Network

-- The clock, the identifiers that the databases generate, `(subtotal * value / 100).toFixed(2)` in
-- cents, and the network.
pub record Setting : Type 0 where
  pub now : ℕ
  pub order_id : ℕ
  pub item_id : ℕ → ℕ
  pub backorder_id : ℕ → ℕ
  pub percent_of : ℕ → ℕ → ℕ
  pub network : Network

pub record CreateOrderResult : Type 0 where
  pub order : Order
  pub created : Bool

-- A text that is there and not empty: `if (text)`.
abbrev pub truthy : Option Text → Bool
truthy none = false
truthy (some []) = false
truthy (some (c ∷ text)) = true

abbrev pub colon : Text
colon = codes ":"

abbrev pub item_key : ℕ → ℕ → Text
item_key product_id quantity = decimal product_id ++ (colon ++ decimal quantity)

-- `existingKeys.every((k, i) => k === requestedKeys[i])`, and no key is the same as a missing one.
abbrev pub every_same : List Text → List Text → Bool
every_same [] ks = true
every_same (j ∷ js) [] = false
every_same (j ∷ js) (k ∷ ks) = text_eq j k && every_same js ks

abbrev pub existing_keys : List OrderItem → List Text
existing_keys existing = map (λ i. item_key i.product_id i.quantity) existing

abbrev pub requested_keys : List ReservationItem → List Text
requested_keys requested = map (λ i. item_key i.product_id i.quantity) requested

unfoldable pub same_items : List OrderItem → List ReservationItem → Bool
unfolding sort
same_items existing requested =
    if length existing == length requested
    then every_same (sort (existing_keys existing)) (sort (requested_keys requested))
    else false

abbrev pub has_key : Text → Order → Bool
has_key k o = elim o.idempotency_key [ none ↦ false | some j ↦ text_eq j k ]

unfoldable pub replay_or_conflict :
    Order → ℕ → Option (List ReservationItem) → Attempt CreateOrderResult
unfolding same_items unless
replay_or_conflict existing user_id expected = unless (existing.user_id == user_id) conflict (
    unless (elim expected [ none ↦ true | some items ↦ same_items existing.items items ]) conflict
      (done (record { order = existing; created = false })))

-- `null` is `done none`.
unfoldable pub find_existing_by_idempotency_key :
    Text → ℕ → Option (List ReservationItem) → Shop → Attempt (Option CreateOrderResult)
unfolding find_one replay_or_conflict and_then
find_existing_by_idempotency_key k user_id expected s = elim (find_one (has_key k) s.orders) [
  | none ↦ done none
  | some existing ↦ and_then (replay_or_conflict existing user_id expected) λ r. done (some r)
]

-- The check before an order is made: only a key that is not empty is looked up.
unfoldable pub replay :
    Option Text → ℕ → Option (List ReservationItem) → Shop → Attempt (Option CreateOrderResult)
unfolding find_existing_by_idempotency_key
replay none user_id expected s = done none
replay (some k) user_id expected s =
    if truthy (some k) then find_existing_by_idempotency_key k user_id expected s else done none

abbrev pub product_key : Product → ℕ
product_key p = p.id

abbrev pub in_stock : ℕ → Product → Bool
in_stock quantity p = leb quantity p.stock

abbrev pub sell : ℕ → Product → Product
sell quantity p = record p { stock = p.stock - quantity }

-- The loop over the items, the number of items so far first: the rows of the order, the subtotal
-- and the products after it.
unfoldable pub take_items :
    (ℕ → ℕ) → ℕ → List ReservationItem → List Product → Attempt (List OrderItem × ℕ × List Product)
unfolding and_then or_missing unless find_one update
take_items item_id n [] products = done ([], 0, products)
take_items item_id n (item ∷ items) products =
    and_then (or_missing (find_one (keyed product_key item.product_id) products)) λ product.
      let q = keyed_and product_key item.product_id (in_stock item.quantity) in
      unless (any q products) conflict (
        and_then (take_items item_id (suc n) items (update q (sell item.quantity) products))
          λ (order_items, subtotal, after). done (
            record {
              id = item_id n;
              product_id = product.id;
              quantity = item.quantity;
              unit_price = product.price;
            }
                ∷ order_items,
            product.price * item.quantity + subtotal,
            after,
          ))

abbrev pub coupon_key : Coupon → ℕ
coupon_key c = c.id

abbrev pub has_uses : Coupon → Bool
has_uses c = ltb c.used_count c.usage_limit

abbrev pub redeem : Coupon → Coupon
redeem c = record c { used_count = suc c.used_count }

abbrev pub discount_of : (ℕ → ℕ → ℕ) → CouponType → ℕ → ℕ → ℕ
discount_of percent_of percent subtotal value = percent_of subtotal value
discount_of percent_of fixed subtotal value = value

-- A coupon of an organization is for its members only.
unfoldable pub may_redeem : Coupon → ℕ → List OrgMembership → Bool
unfolding find_one
may_redeem c user_id memberships = elim c.org_id [
  | none ↦ true
  | some org ↦ elim (find_one (of_user user_id) memberships) [
    | none ↦ false
    | some m ↦ m.org_id == org
  ]
]

-- The discount, and the coupons after it.
unfoldable pub apply_coupon :
    Setting → Text → ℕ → ℕ → List OrgMembership → List Coupon → Attempt (ℕ × List Coupon)
unfolding and_then or_missing unless find_one update may_redeem
apply_coupon w code subtotal user_id memberships coupons =
    and_then (or_missing (find_one (λ c. text_eq c.code code) coupons)) λ c.
      unless (may_redeem c user_id memberships) not_found (
        unless (not (ltb c.expires_at w.now)) unprocessable (
          unless (not (ltb subtotal c.min_order_amount)) unprocessable (
            unless (any (keyed_and coupon_key c.id has_uses) coupons) conflict (
              done (
                discount_of w.percent_of c.type subtotal c.value,
                update (keyed_and coupon_key c.id has_uses) redeem coupons,
              )))))
