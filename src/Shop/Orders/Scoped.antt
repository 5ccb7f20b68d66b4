-- ===== src/Shop/Orders/Scoped.antt =====
-- The reads of apiV2/src/orders/orders.service.ts by owner and organization, and the change of an
-- item. A list has the newest order first.
use tflw_tests.Prelude.{ℕ, ◌||◌, Option, none, some, List, reverse, ◌==◌, filter}
use tflw_tests.Shop.Tables.{
  forbidden, Attempt, failed, done, and_then, unless, or_missing, is_id, find_one, update,
}
use tflw_tests.Shop.Orgs.{is_admin_role, AuthedUser, get_for_user, is_owner_or_admin, manages_org}
use tflw_tests.Shop.Orders.{OrderItem, Order, Shop}

unfoldable pub find_one_scoped : ℕ → AuthedUser → Shop → Attempt Order
unfolding and_then or_missing find_one unless manages_org get_for_user
find_one_scoped id r s = and_then (or_missing (find_one (λ o. o.id == id) s.orders)) λ order.
    unless
      (is_admin_role r.role
        || (order.user_id == r.id)
        || manages_org (get_for_user r.id s.memberships) order.org_id)
      forbidden (done order)

pub find_own : ℕ → Shop → List Order
find_own user_id s = reverse (filter (λ o. o.user_id == user_id) s.orders)

pub find_all_for_org : AuthedUser → Shop → Attempt (List Order)
unfolding unless is_owner_or_admin get_for_user is_id
find_all_for_org r s = elim (get_for_user r.id s.memberships) [
  | none ↦ failed forbidden
  | some m ↦
      unless (is_owner_or_admin (some m)) forbidden
        (done (reverse (filter (λ o. is_id o.org_id m.org_id) s.orders)))
]

-- `if (dto.quantity !== undefined)`
pub with_quantity : Option ℕ → OrderItem → OrderItem
with_quantity none i = i
with_quantity (some quantity) i = record i { quantity = quantity }

pub update_item : ℕ → ℕ → Option ℕ → AuthedUser → Shop → Attempt (OrderItem × Shop)
unfolding and_then or_missing find_one update find_one_scoped with_quantity
update_item order_id item_id quantity r s = and_then (find_one_scoped order_id r s) λ order.
    and_then (or_missing (find_one (λ i. i.id == item_id) order.items)) λ item.
      let new : OrderItem = with_quantity quantity item in
      let kept : Order → Order =
        λ o. record o { items = update (λ i. i.id == item_id) (λ row. new) o.items } in
      done (new, record s { orders = update (λ o. o.id == order_id) kept s.orders })
