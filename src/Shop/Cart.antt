-- ===== src/Shop/Cart.antt =====
-- apiV2/src/cart/cart.service.ts: a user's cart and its checkout. A request is one step, so the
-- branches for a lost race to insert a row are not taken.
pub mod Checkout
mod Examples
use tflw_tests.Prelude.{
  ℕ, ◌+◌, Bool, not, ◌&&◌, Option, none, some, List, [], ◌∷◌, ◌++◌, map, ◌==◌, if◌then◌else◌,
  is_nil, filter, Text,
}
use tflw_tests.Shop.Tables.{
  not_found, unprocessable, Attempt, failed, done, and_then, unless, or_missing, find_one, update,
}
use tflw_tests.Shop.Keys.{keyed}
use tflw_tests.Shop.Inventory.{ReservationItem}
use tflw_tests.Shop.Orders.{Shop, Setting, CreateOrderResult, replay, product_key}
use tflw_tests.Shop.Orders.Create.{create}

pub record Cart : Type 0 where
  pub id : ℕ
  pub user_id : ℕ

pub record CartItem : Type 0 where
  pub id : ℕ
  pub cart_id : ℕ
  pub product_id : ℕ
  pub quantity : ℕ

pub record Store : Type 0 where
  pub shop : Shop
  pub carts : List Cart
  pub cart_items : List CartItem

pub record CartView : Type 0 where
  pub id : Option ℕ
  pub items : List CartItem

abbrev pub cart_of : ℕ → Cart → Bool
cart_of user_id c = c.user_id == user_id

abbrev pub in_cart : ℕ → CartItem → Bool
in_cart cart_id i = i.cart_id == cart_id

abbrev pub is_line : ℕ → ℕ → CartItem → Bool
is_line cart_id product_id i = in_cart cart_id i && (i.product_id == product_id)

unfoldable pub find_for_user : ℕ → Store → CartView
unfolding find_one
find_for_user user_id s = elim (find_one (cart_of user_id) s.carts) [
  | none ↦ record { id = none; items = [] }
  | some c ↦ record { id = some c.id; items = filter (in_cart c.id) s.cart_items }
]

-- The cart, and the table of carts after it: a new cart has the identifier given.
pub get_or_create_cart : ℕ → ℕ → List Cart → Cart × List Cart
unfolding find_one
get_or_create_cart id user_id carts =
    let fresh : Cart = record { id = id; user_id = user_id } in
    elim (find_one (cart_of user_id) carts) [
      | none ↦ (fresh, carts ++ fresh ∷ [])
      | some c ↦ (c, carts)
    ]

-- A line that is there grows, in place; else there is a new one.
pub add_line : ℕ → ℕ → ℕ → ℕ → List CartItem → CartItem × List CartItem
unfolding find_one update
add_line id cart_id product_id quantity items = elim (find_one (is_line cart_id product_id) items) [
  | some i ↦
      let grown : CartItem = record i { quantity = i.quantity + quantity } in
      (
        grown,
        update (λ row. row.id == i.id) (λ row. record row { quantity = row.quantity + quantity })
            items,
      )
  | none ↦
      let line : CartItem = record {
        id = id;
        cart_id = cart_id;
        product_id = product_id;
        quantity = quantity;
      } in
      (line, items ++ line ∷ [])
]

pub add_item : ℕ → ℕ → ℕ → ℕ → ℕ → Store → Attempt (CartItem × Store)
unfolding and_then or_missing find_one get_or_create_cart add_line
add_item cart_id item_id user_id product_id quantity s =
    and_then (or_missing (find_one (keyed product_key product_id) s.shop.products)) λ product.
      let (cart, carts) = get_or_create_cart cart_id user_id s.carts in
      let (line, items) = add_line item_id cart.id product_id quantity s.cart_items in
      done (line, record s { carts = carts; cart_items = items })

-- An item of another user's cart is not found.
pub find_own_item : ℕ → ℕ → Store → Attempt CartItem
unfolding or_missing find_one
find_own_item user_id item_id s = elim (find_one (cart_of user_id) s.carts) [
  | none ↦ failed not_found
  | some c ↦ or_missing (find_one (λ i. (i.id == item_id) && in_cart c.id i) s.cart_items)
]

pub update_item : ℕ → ℕ → ℕ → Store → Attempt (CartItem × Store)
unfolding and_then update find_own_item
update_item user_id item_id quantity s = and_then (find_own_item user_id item_id s) λ i.
    let new : CartItem = record i { quantity = quantity } in
    done (new, record s { cart_items = update (λ row. row.id == i.id) (λ row. new) s.cart_items })

pub remove_item : ℕ → ℕ → Store → Attempt Store
unfolding and_then find_own_item
remove_item user_id item_id s =
    and_then (find_own_item user_id item_id s)
      λ i. done (record s { cart_items = filter (λ row. not (row.id == i.id)) s.cart_items })

abbrev pub as_items : List CartItem → List ReservationItem
as_items lines = map (λ i. record { product_id = i.product_id; quantity = i.quantity }) lines

-- What is left of the lines behind an order.
abbrev pub clear : Bool → ℕ → List CartItem → List CartItem
clear created cart_id lines = if created then filter (λ i. not (in_cart cart_id i)) lines else lines

-- The checkout of a cart that is found.
unfoldable pub place_cart :
    Setting → ℕ → Option Text → Option Text → Cart → Store → Attempt (CreateOrderResult × Store)
unfolding and_then unless create
place_cart w user_id coupon_code key c s =
    let lines = filter (in_cart c.id) s.cart_items in
    unless (not (is_nil lines)) unprocessable (
      and_then (create w user_id (as_items lines) key coupon_code none s.shop) λ (r, shop).
        done (r, record s { shop = shop; cart_items = clear r.created c.id s.cart_items }))

unfoldable pub checkout :
    Setting → ℕ → Option Text → Option Text → Store → Attempt (CreateOrderResult × Store)
unfolding replay find_one place_cart
checkout w user_id coupon_code key s = elim (replay key user_id none s.shop) [
  | failed fault ↦ failed fault
  | done (some r) ↦ done (r, s)
  | done none ↦ elim (find_one (cart_of user_id) s.carts) [
    | none ↦ failed unprocessable
    | some c ↦ place_cart w user_id coupon_code key c s
  ]
]
