-- ===== src/Shop/Orders/Stock.antt =====
-- The stock that an order takes.
use tflw_tests.Prelude.{
  ℕ, suc, ◌+◌, ◌*◌, ◌≤◌, ◌≡◌, refl, ap, ap₂, ◌∙◌, inl, inr, Bool, true, Option, none, some, List,
  [], ◌∷◌, map, arith, ltb, leb, ◌==◌, if◌then◌else◌, leb→le, le→leb, eqb→eq, eqb_refl, Bool-cases,
  Option-cases, all,
}
use tflw_tests.Shop.Tables.{
  Attempt, failed, done, and_then, unless, or_missing, find_one, update, find_one-holds,
  Attempt-cases,
}
use tflw_tests.Shop.Keys.{
  keyed, distinct, keyed_and, any-keyed_and, distinct-update, find_one-keyed-update,
}
use tflw_tests.Shop.Inventory.{ReservationItem}
use tflw_tests.Shop.Orders.{Product, OrderItem, product_key, in_stock, sell, take_items}

-- What the items ask for of a product, taken together.
abbrev pub ordered : ℕ → List ReservationItem → ℕ
ordered p [] = 0
ordered p (i ∷ is) = (if i.product_id == p then i.quantity else 0) + ordered p is

abbrev pub stock_or_zero : Option Product → ℕ
stock_or_zero none = 0
stock_or_zero (some x) = x.stock

abbrev pub price_or_zero : Option Product → ℕ
price_or_zero none = 0
price_or_zero (some x) = x.price

abbrev pub held : ℕ → List Product → ℕ
held p ps = stock_or_zero (find_one (keyed product_key p) ps)

abbrev pub price_of : ℕ → List Product → ℕ
price_of p ps = price_or_zero (find_one (keyed product_key p) ps)

abbrev pub worth : List ReservationItem → List Product → ℕ
worth [] ps = 0
worth (i ∷ is) ps = price_of i.product_id ps * i.quantity + worth is ps

-- The contract: the stock of every product covers what is asked of it.
abbrev pub Fits : List ReservationItem → List Product → Type 0
Fits items ps = (p : ℕ) → ordered p items ≤ held p ps

-- The DTO takes quantities from 1.
abbrev pub are_positive : List ReservationItem → Bool
are_positive items = all (λ i. ltb 0 i.quantity) items

abbrev pub as_asked : OrderItem → ℕ × ℕ × ℕ
as_asked row = (row.product_id, row.quantity, row.unit_price)

abbrev pub at_price : List Product → ReservationItem → ℕ × ℕ × ℕ
at_price ps i = (i.product_id, i.quantity, price_of i.product_id ps)

pub record IsSold (items : List ReservationItem) (ps : List Product) (rows : List OrderItem)
    (subtotal : ℕ) (after : List Product) : Type 0 where
  pub stock_sold : (p : ℕ) → held p after + ordered p items ≡ held p ps
  pub prices_kept : (p : ℕ) → price_of p after ≡ price_of p ps
  pub rows_asked : map as_asked rows ≡ map (at_price ps) items
  pub subtotal_worth : subtotal ≡ worth items ps
  pub keys_kept : distinct product_key after ≡ distinct product_key ps

abbrev pub IsTransacted :
    List ReservationItem → List Product → Attempt (List OrderItem × ℕ × List Product) → Type 0
IsTransacted items ps (failed fault) = ¬ Fits items ps
IsTransacted items ps (done (rows, subtotal, after)) = IsSold items ps rows subtotal after

-- One item.
module _ (k q : ℕ) (x : Product) (ps : List Product) where
  abbrev sold : List Product
  sold = update (keyed_and product_key k (in_stock q)) (sell q) ps

  held-sold :
      (j : ℕ)
      → find_one (keyed product_key k) ps ≡ some x
      → q ≤ x.stock
      → (held j sold + (if k == j then q else 0) ≡ held j ps) × (price_of j sold ≡ price_of j ps)
  held-sold j found enough =
      let row = find_one-keyed-update product_key j k (in_stock q) (sell q) ps λ y. refl in
      elim (Bool-cases (k == j)) [
        | inl e ↦
            let here : find_one (keyed product_key j) ps ≡ some x = rw (eqb→eq k j e) at found in
            rw (row, here) (rw (e, le→leb q x.stock enough) (ground arith, refl))
        | inr e ↦ elim (Option-cases (find_one (keyed product_key j) ps)) [
          | inl n ↦ rw (row, n) (rw e (refl, refl))
          | inr (y, n) ↦ rw (row, n) (rw e (omega arith, refl))
        ]
      ]

  distinct-sold : distinct product_key sold ≡ distinct product_key ps
  distinct-sold =
      distinct-update product_key (keyed_and product_key k (in_stock q)) (sell q) ps λ y. refl

worth-same :
    (items : List ReservationItem) (ps after : List Product)
    → ((p : ℕ) → price_of p after ≡ price_of p ps)
    → (worth items after ≡ worth items ps) × (map (at_price after) items ≡ map (at_price ps) items)
worth-same [] ps after h = (refl, refl)
worth-same (i ∷ is) ps after h =
    let (rest, rows) = worth-same is ps after h in
    (rw (h i.product_id, rest) refl, rw (h i.product_id, rows) refl)

-- On products with different identifiers and quantities from 1, the loop over the items succeeds
-- exactly if the stock of every product covers all that the items ask of it together; it then takes
-- just that, and the rows of the order are the items at the prices of the products, with their
-- worth as the subtotal.
pub take_items-IsTransacted :
    (item_id : ℕ → ℕ) (n : ℕ) (items : List ReservationItem) (ps : List Product)
    → distinct product_key ps ≡ true
    → are_positive items ≡ true
    → IsTransacted items ps (take_items item_id n items ps)
unfolding take_items and_then or_missing unless
take_items-IsTransacted item_id n [] ps d h = record {
  stock_sold = λ p. omega arith;
  prices_kept = λ p. refl;
  rows_asked = refl;
  subtotal_worth = refl;
  keys_kept = refl;
}
take_items-IsTransacted item_id n (i ∷ is) ps d h =
    let k : ℕ = i.product_id in
    let q : ℕ = i.quantity in
    elim (Option-cases (find_one (keyed product_key k) ps)) [
      | inl e ↦ rw e λ fits. let g = fits k in ground (arith, rw e at g, eqb_refl k)
      | inr (x, e) ↦
          let at_k : x.id ≡ k = eqb→eq x.id k (find_one-holds (keyed product_key k) ps x e) in
          let price : price_of k ps ≡ x.price = ap price_or_zero e in
          let able = any-keyed_and product_key k (in_stock q) x ps d e in
          elim (Bool-cases (leb q x.stock)) [
            | inr f ↦
                rw (e, able, f) λ fits. let g = fits k in ground (arith, rw e at g, eqb_refl k)
            | inl f ↦
                let u : List Product = sold k q x ps in
                let left : (j : ℕ) → held j u + (if k == j then q else 0) ≡ held j ps =
                  λ j. (held-sold k q x ps j e (leb→le q x.stock f)).0 in
                let same : (j : ℕ) → price_of j u ≡ price_of j ps =
                  λ j. (held-sold k q x ps j e (leb→le q x.stock f)).1 in
                let rest =
                  take_items-IsTransacted item_id (suc n) is u (distinct-sold k q x ps ∙ d)
                    (ground arith) in
                elim (Attempt-cases (take_items item_id (suc n) is u)) [
                  | inl (fault, r) ↦
                      let unfit = rw r at rest in
                      rw (e, able, f, r) λ fits. unfit λ p. ground (arith, fits p, left p)
                  | inr ((rows, subtotal, after), r) ↦
                      let t = rw r at rest in
                      let (value, lines) = worth-same is ps u same in
                      rw (e, able, f, r)
                        record {
                          stock_sold = λ p. ground (arith, t.stock_sold p, left p);
                          prices_kept = λ p. t.prices_kept p ∙ same p;
                          rows_asked = ap₂ ◌∷◌ (rw (at_k, price) refl) (t.rows_asked ∙ lines);
                          subtotal_worth = rw (price, t.subtotal_worth, value) refl;
                          keys_kept = t.keys_kept ∙ distinct-sold k q x ps;
                        }
                ]
          ]
    ]
