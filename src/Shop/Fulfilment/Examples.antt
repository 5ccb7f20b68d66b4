-- ===== src/Shop/Fulfilment/Examples.antt =====
-- An order that is fulfilled, returned and refunded, and the theorem at it.
use tflw_tests.Prelude.{◌≡◌, refl, true, none, [], ◌∷◌, map, codes}
use tflw_tests.Shop.Orgs.{admin, AuthedUser}
use tflw_tests.Shop.Orders.{pending, refunded, Order}
use tflw_tests.Shop.Fulfilment.{completed, Works}
use tflw_tests.Shop.Fulfilment.Lifecycle.{
  order_placed, fulfil_asked, delay_over, return_asked, return_decided, happen, Reached, opening,
  and_event, IsOrderly,
}
use tflw_tests.Shop.Fulfilment.Events.{Reached-IsOrderly}

abbrev no_works : Works
no_works = record {
  shop = record {
    products = [];
    coupons = [];
    orders = [];
    memberships = [];
    notifications = [];
    depot = record { warehouses = []; levels = []; restock_events = []; backorders = [] };
  };
  jobs = [];
  returns = [];
  tasks = [];
  notes = [];
}

abbrev cup_order : Order
cup_order = record {
  id = 4;
  user_id = 9;
  status = pending;
  idempotency_key = none;
  coupon_code = none;
  discount_amount = none;
  webhook_url = none;
  org_id = none;
  items = [];
}

abbrev root : AuthedUser
root = record { id = 1; role = admin }

fulfilled_works : Works
fulfilled_works = happen (delay_over 0) (
    happen (delay_over 0)
      (happen (fulfil_asked 60 4 root) (happen (order_placed cup_order) no_works)))

refunded_works : Works
refunded_works = happen (delay_over 0) (
    happen (return_decided 700 61 30 true none 1)
      (happen (return_asked 30 4 9 (codes "broken")) fulfilled_works))

fulfilled_works-Reached : Reached fulfilled_works
unfolding fulfilled_works
fulfilled_works-Reached =
    and_event (delay_over 0)
      (and_event (delay_over 0)
        (and_event (fulfil_asked 60 4 root)
          (and_event (order_placed cup_order) (opening no_works refl refl refl refl) (refl, refl))
          tt)
        tt)
      tt

refunded_works-Reached : Reached refunded_works
unfolding refunded_works fulfilled_works happen
refunded_works-Reached =
    and_event (delay_over 0)
      (and_event (return_decided 700 61 30 true none 1)
        (and_event (return_asked 30 4 9 (codes "broken")) fulfilled_works-Reached refl) tt)
      tt

Reached-IsOrderly_example : IsOrderly refunded_works
Reached-IsOrderly_example = Reached-IsOrderly refunded_works refunded_works-Reached

-- The order is refunded, and both of its jobs are completed.
refunded_status : map (λ o. o.status) refunded_works.shop.orders ≡ refunded ∷ []
unfolding refunded_works fulfilled_works happen
refunded_status = refl

refunded_jobs : map (λ j. j.status) refunded_works.jobs ≡ completed ∷ completed ∷ []
unfolding refunded_works fulfilled_works happen
refunded_jobs = refl
