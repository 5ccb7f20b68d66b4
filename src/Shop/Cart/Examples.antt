-- ===== src/Shop/Cart/Examples.antt =====
-- A cart with two lines, and the theorem at it.
use tflw_tests.Prelude.{◌+◌, ◌*◌, ◌/◌, ◌≡◌, refl, ◌⊎◌, true, false, none, some, [], ◌∷◌, map, codes}
use tflw_tests.Shop.Orders.Effect.{IsFound}
use tflw_tests.Shop.Tables.{failed, done}
use tflw_tests.Shop.Orders.{pending, Shop, lost, Setting, CreateOrderResult}
use tflw_tests.Shop.Orders.Answers.{replayed}
use tflw_tests.Shop.Cart.{Store, checkout}
use tflw_tests.Shop.Cart.Checkout.{IsCheckedOut, checkout-IsCheckedOut}

abbrev quiet_shop : Shop
quiet_shop = record {
  products = record { id = 1; name = codes "cup"; price = 250; stock = 5 } ∷ [];
  coupons = [];
  orders = [];
  memberships = [];
  notifications = [];
  depot = record { warehouses = []; levels = []; restock_events = []; backorders = [] };
}

abbrev two_carts : Store
two_carts = record {
  shop = quiet_shop;
  carts = record { id = 80; user_id = 9 } ∷ record { id = 81; user_id = 8 } ∷ [];
  cart_items =
      record { id = 90; cart_id = 80; product_id = 1; quantity = 2 }
      ∷ record { id = 91; cart_id = 81; product_id = 1; quantity = 1 }
      ∷ [];
}

abbrev lost_setting : Setting
lost_setting = record {
  now = 500;
  order_id = 40;
  item_id = λ n. 50 + n;
  backorder_id = λ n. 60 + n;
  percent_of = λ subtotal value. (subtotal * value) / 100;
  network = lost;
}

abbrev no_result : CreateOrderResult
no_result = replayed (record {
  id = 0;
  user_id = 0;
  status = pending;
  idempotency_key = none;
  coupon_code = none;
  discount_amount = none;
  webhook_url = none;
  org_id = none;
  items = [];
})

first_checkout : CreateOrderResult × Store
first_checkout = elim (checkout lost_setting 9 none (some (codes "k")) two_carts) [
  | failed fault ↦ (no_result, two_carts)
  | done x ↦ x
]

first_checkout-done :
    checkout lost_setting 9 none (some (codes "k")) two_carts ≡ done first_checkout
unfolding first_checkout checkout
first_checkout-done = refl

-- The line of the other cart stays.
first_checkout-lines : map (λ i. i.id) first_checkout.1.cart_items ≡ 91 ∷ []
unfolding first_checkout checkout
first_checkout-lines = refl

checkout-IsCheckedOut_example :
    ((first_checkout.0.created ≡ true)
      × IsCheckedOut lost_setting 9 two_carts first_checkout.0 first_checkout.1)
    ⊎ ((first_checkout.0.created ≡ false)
        × IsFound 9 (some (codes "k")) two_carts.shop first_checkout.0.order
        × (first_checkout.1 ≡ two_carts))
checkout-IsCheckedOut_example =
    checkout-IsCheckedOut lost_setting 9 none (some (codes "k")) two_carts first_checkout.0
      first_checkout.1 refl refl first_checkout-done
