-- ===== src/Shop/Orders/Examples.antt =====
-- A shop with two products and a coupon, and the theorems at it.
use tflw_tests.Prelude.{
  ◌+◌, ◌*◌, ◌/◌, ◌≡◌, refl, ◌⊎◌, true, false, none, some, List, [], ◌∷◌, codes, text_eq,
}
use tflw_tests.Shop.Tables.{conflict, server_error, failed, done}
use tflw_tests.Shop.Inventory.{ReservationItem}
use tflw_tests.Shop.Orders.{
  pending, Product, Order, percent, Coupon, Shop, answered, Setting, CreateOrderResult, take_items,
}
use tflw_tests.Shop.Orders.Create.{create}
use tflw_tests.Shop.Orders.Stock.{IsTransacted, take_items-IsTransacted}
use tflw_tests.Shop.Orders.Answers.{replayed}
use tflw_tests.Shop.Orders.Effect.{IsFound, IsPlaced, create-IsPlaced}

abbrev two_products : List Product
two_products =
    record { id = 1; name = codes "cup"; price = 250; stock = 5 }
    ∷ record { id = 2; name = codes "pot"; price = 1000; stock = 1 }
    ∷ []

abbrev ten_off : Coupon
ten_off = record {
  id = 30;
  code = codes "TEN";
  type = percent;
  value = 10;
  expires_at = 900;
  min_order_amount = 100;
  usage_limit = 1;
  used_count = 0;
  org_id = none;
}

abbrev small_shop : Shop
small_shop = record {
  products = two_products;
  coupons = ten_off ∷ [];
  orders = [];
  memberships = [];
  notifications = [];
  depot = record { warehouses = []; levels = []; restock_events = []; backorders = [] };
}

abbrev plain_setting : Setting
plain_setting = record {
  now = 500;
  order_id = 40;
  item_id = λ n. 50 + n;
  backorder_id = λ n. 60 + n;
  percent_of = λ subtotal value. (subtotal * value) / 100;
  network = answered;
}

abbrev cups_and_pot : List ReservationItem
cups_and_pot =
    record { product_id = 1; quantity = 2 }
    ∷ record { product_id = 2; quantity = 1 }
    ∷ record { product_id = 1; quantity = 3 }
    ∷ []

take_items-IsTransacted_example :
    IsTransacted cups_and_pot two_products (take_items (λ n. 50 + n) 0 cups_and_pot two_products)
take_items-IsTransacted_example =
    take_items-IsTransacted (λ n. 50 + n) 0 cups_and_pot two_products refl refl

-- One pot more than there is: the transaction fails.
two_pots :
    take_items (λ n. 50 + n) 0 (record { product_id = 2; quantity = 2 } ∷ []) two_products
    ≡ failed conflict
unfolding take_items
two_pots = refl

abbrev no_order : Order
no_order = record {
  id = 0;
  user_id = 0;
  status = pending;
  idempotency_key = none;
  coupon_code = none;
  discount_amount = none;
  webhook_url = none;
  org_id = none;
  items = [];
}

first_order : CreateOrderResult × Shop
first_order =
    elim (create plain_setting 9 cups_and_pot (some (codes "k1")) (some (codes "TEN")) none
      small_shop) [ failed fault ↦ (replayed no_order, small_shop) | done x ↦ x ]

first_order-done :
    create plain_setting 9 cups_and_pot (some (codes "k1")) (some (codes "TEN")) none small_shop
    ≡ done first_order
unfolding first_order create text_eq
first_order-done = refl

-- Its discount is a tenth of 22.50.
first_order-discount : first_order.0.order.discount_amount ≡ some 225
unfolding first_order create text_eq
first_order-discount = refl

create-IsPlaced_example :
    ((first_order.0.created ≡ true)
      × IsPlaced plain_setting 9 cups_and_pot small_shop first_order.0.order first_order.1)
    ⊎ ((first_order.0.created ≡ false)
        × IsFound 9 (some (codes "k1")) small_shop first_order.0.order
        × (first_order.1 ≡ small_shop))
create-IsPlaced_example =
    create-IsPlaced plain_setting 9 cups_and_pot (some (codes "k1")) (some (codes "TEN")) none
      small_shop first_order.0 first_order.1 refl refl first_order-done

-- Two orders under the empty key: the first is made, and the second meets the constraint.
abbrev one_cup : List ReservationItem
one_cup = record { product_id = 1; quantity = 1 } ∷ []

blank_order : CreateOrderResult × Shop
blank_order = elim (create plain_setting 9 one_cup (some []) none none small_shop) [
  | failed fault ↦ (replayed no_order, small_shop)
  | done x ↦ x
]

blank_key-server_error :
    create plain_setting 9 one_cup (some []) none none blank_order.1 ≡ failed server_error
unfolding blank_order create text_eq
blank_key-server_error = refl
