-- ===== src/Shop/Cart/Checkout.antt =====
-- What a checkout does to the shop and to the carts.
use tflw_tests.Prelude.{
  subst, ℕ, ◌≡◌, refl, sym, ap, ◌∙◌, ◌⊎◌, inl, inr, Bool, true, false, Option, none, some, List, [],
  ◌∷◌, arith, ltb, ◌==◌, if◌then◌else◌, eqb→eq, Bool-cases, Option-cases, some_inj, is_nil, all,
  filter, Text,
}
use tflw_tests.Shop.Tables.{done, and_then, unless, find_one, Attempt-cases}
use tflw_tests.Shop.Keys.{distinct}
use tflw_tests.Shop.Inventory.{ReservationItem}
use tflw_tests.Shop.Orders.{
  Shop, Setting, CreateOrderResult, has_key, replay_or_conflict, find_existing_by_idempotency_key,
  replay, product_key,
}
use tflw_tests.Shop.Orders.Create.{create}
use tflw_tests.Shop.Orders.Stock.{are_positive}
use tflw_tests.Shop.Orders.Coupons.{done_inj}
use tflw_tests.Shop.Orders.Effect.{IsFound, IsPlaced, create-IsPlaced, find_one-IsFound}
use tflw_tests.Shop.Orders.Answers.{replayed}
use tflw_tests.Shop.Cart.{
  Cart, CartItem, Store, cart_of, in_cart, as_items, clear, place_cart, checkout,
}

-- The cart has become the order, and no other cart has changed.
pub record IsCheckedOut (w : Setting) (user_id : ℕ) (s : Store) (r : CreateOrderResult)
    (after : Store) : Type 0 where
  pub cart : Cart
  pub cart_found : find_one (cart_of user_id) s.carts ≡ some cart
  pub cart_filled : is_nil (filter (in_cart cart.id) s.cart_items) ≡ false
  pub placed :
      IsPlaced w user_id
        (as_items (filter (in_cart cart.id) s.cart_items))
        s.shop
        r.order
        after.shop
  pub lines_left :
      (other : ℕ)
      → filter (in_cart other) after.cart_items
        ≡ (if cart.id == other then [] else filter (in_cart other) s.cart_items)
  pub carts_kept : after.carts ≡ s.carts

filter-cleared : (id : ℕ) (lines : List CartItem) → filter (in_cart id) (clear true id lines) ≡ []
filter-cleared id [] = refl
filter-cleared id (i ∷ is) = elim (Bool-cases (in_cart id i)) [
  | inl e ↦ rw e (filter-cleared id is)
  | inr e ↦ rw e (rw e (filter-cleared id is))
]

filter-others :
    (id other : ℕ) (lines : List CartItem)
    → (other == id) ≡ false
    → filter (in_cart other) (clear true id lines) ≡ filter (in_cart other) lines
filter-others id other [] h = refl
filter-others id other (i ∷ is) h = elim (Bool-cases (in_cart id i)) [
  | inl e ↦
      let off : in_cart other i ≡ false = ground (arith, h) in
      rw e (rw off (filter-others id other is h))
  | inr e ↦ rw e (rw (filter-others id other is h) refl)
]

cleared_lines :
    (id other : ℕ) (lines : List CartItem)
    → filter (in_cart other) (clear true id lines)
      ≡ (if id == other then [] else filter (in_cart other) lines)
cleared_lines id other lines = elim (Bool-cases (id == other)) [
  | inl e ↦ rw (e, sym (eqb→eq id other e)) (filter-cleared id lines)
  | inr e ↦ rw e (filter-others id other lines (ground arith))
]

place_cart-answer :
    (w : Setting) (user_id : ℕ) (coupon_code key : Option Text) (c : Cart) (s : Store)
    (r : CreateOrderResult) (after : Store)
    → place_cart w user_id coupon_code key c s ≡ done (r, after)
    → (is_nil (filter (in_cart c.id) s.cart_items) ≡ false)
      × (create w user_id
            (as_items (filter (in_cart c.id) s.cart_items))
            key
            coupon_code
            none
            s.shop
          ≡ done (r, after.shop))
      × (after.cart_items ≡ clear r.created c.id s.cart_items)
      × (after.carts ≡ s.carts)
unfolding place_cart and_then unless
place_cart-answer w user_id coupon_code key c s r after h =
    let lines : List CartItem = filter (in_cart c.id) s.cart_items in
    elim (Bool-cases (is_nil lines)) [
      | inl e ↦ cc (rw (e, place_cart) at h)
      | inr e ↦
          elim (Attempt-cases (create w user_id (as_items lines) key coupon_code none s.shop)) [
            | inl (fault, f) ↦ cc (rw (e, f, place_cart) at h)
            | inr ((q, shop), f) ↦
                let g = done_inj (rw (e, f, place_cart) at h) in
                (
                  e,
                  f ∙ ap (λ x. done (x.0, x.1.shop)) g,
                  sym (ap (λ x. x.1.cart_items) g)
                      ∙ ap (λ x. clear x.0.created c.id s.cart_items) g,
                  sym (ap (λ x. x.1.carts) g),
                )
          ]
    ]

-- A replay that compares no items answers with an order of the user under the key.
replay-bare :
    (key : Option Text) (user_id : ℕ) (s : Shop) (r : CreateOrderResult)
    → replay key user_id none s ≡ done (some r)
    → (r.created ≡ false) × IsFound user_id key s r.order
unfolding replay find_existing_by_idempotency_key replay_or_conflict and_then unless
replay-bare none user_id s r h = cc h
replay-bare (some []) user_id s r h = cc h
replay-bare (some (c ∷ k)) user_id s r h =
    elim (Option-cases (find_one (has_key (c ∷ k)) s.orders)) [
      | inl e ↦ cc (rw (replay, find_existing_by_idempotency_key, e) at h)
      | inr (o, e) ↦
          let g = rw (replay, find_existing_by_idempotency_key, e) at h in
          elim (Bool-cases (o.user_id == user_id)) [
            | inl f ↦
                let same : r ≡ replayed o = sym (some_inj (done_inj (rw f at g))) in
                (
                  ap (λ x. x.created) same,
                  rw same
                      (find_one-IsFound user_id (c ∷ k) s o refl e (eqb→eq o.user_id user_id f)),
                )
            | inr f ↦ cc (rw f at g)
          ]
    ]

are_positive-lines :
    (p : CartItem → Bool) (lines : List CartItem)
    → all (λ i. ltb 0 i.quantity) lines ≡ true
    → are_positive (as_items (filter p lines)) ≡ true
are_positive-lines p [] h = refl
are_positive-lines p (i ∷ is) h = ground (arith, are_positive-lines p is)

-- With quantities from 1 and products of different identifiers, a checkout that succeeds either has
-- turned the lines of the user's cart, of which there is one at least, into one new order, left that
-- cart empty and every other cart as it was, or has changed nothing at all and answers with an order
-- of the user that stands under the key, which is not empty.
pub checkout-IsCheckedOut :
    (w : Setting) (user_id : ℕ) (coupon_code key : Option Text) (s : Store) (r : CreateOrderResult)
    (after : Store)
    → distinct product_key s.shop.products ≡ true
    → all (λ i. ltb 0 i.quantity) s.cart_items ≡ true
    → checkout w user_id coupon_code key s ≡ done (r, after)
    → ((r.created ≡ true) × IsCheckedOut w user_id s r after)
      ⊎ ((r.created ≡ false) × IsFound user_id key s.shop r.order × (after ≡ s))
unfolding checkout
checkout-IsCheckedOut w user_id coupon_code key s r after d pos h =
    elim (Attempt-cases (replay key user_id none s.shop)) [
      | inl (fault, e) ↦ cc (rw (checkout, e) at h)
      | inr (some q, e) ↦
          let g = done_inj (rw (checkout, e) at h) in
          let (old, found) = replay-bare key user_id s.shop q e in
          inr (
            sym (ap (λ x. x.0.created) g) ∙ old,
            subst (λ x. IsFound user_id key s.shop x.0.order) g found,
            sym (ap (λ x. x.1) g),
          )
      | inr (none, e) ↦ elim (Option-cases (find_one (cart_of user_id) s.carts)) [
        | inl f ↦ cc (rw (checkout, e, f) at h)
        | inr (c, f) ↦
            let (filled, made, lines, carts) =
              place_cart-answer w user_id coupon_code key c s r after (rw (checkout, e, f) at h) in
            let items : List ReservationItem = as_items (filter (in_cart c.id) s.cart_items) in
            elim (create-IsPlaced w user_id items key coupon_code none s.shop r after.shop d
              (are_positive-lines (in_cart c.id) s.cart_items pos) made) [
                | inl (new, placed) ↦
                    let cleared = rw new at lines in
                    inl (
                      new,
                      record {
                        cart = c;
                        cart_found = f;
                        cart_filled = filled;
                        placed = placed;
                        lines_left = λ other. rw cleared (cleared_lines c.id other s.cart_items);
                        carts_kept = carts;
                      },
                    )
                | inr (old, found, same) ↦
                    let kept = rw old at lines in
                    inr (
                      old,
                      found,
                      λ i. record { shop = same i; carts = carts i; cart_items = kept i },
                    )
              ]
      ]
    ]
