-- ===== src/Shop/Inventory/Drain.antt =====
-- What the loop of `reserveOneProduct` takes from rows that are as it read them.
use tflw_tests.Prelude.{
  ℕ, ◌+◌, ◌-◌, ◌≤◌, ◌≡◌, refl, sym, ◌∙◌, subst, inl, inr, true, false, some, List, [], ◌∷◌, arith,
  ◌==◌, eqb→eq, Bool-cases, any, All,
}
use tflw_tests.Shop.Tables.{find_one}
use tflw_tests.Shop.Inventory.{
  StockLevel, of_product, is_level, min, holds_enough, less, drain_one, drain,
}
use tflw_tests.Shop.Inventory.Levels.{
  distinct_ids, distinct_pairs, quantity_if, stock, total, less-IsRefill, any-of_product-update,
  distinct_ids-update, distinct_pairs-update, any-holds_enough, stock-less, find_one-less,
}

-- The row stands in the table as it was read, and is one of the product.
abbrev pub Held : ℕ → List StockLevel → StockLevel → Type 0
Held p table l = (find_one (is_level l.id) table ≡ some l) × (of_product p l ≡ true)

-- That much of the product is gone from the table, and nothing else has changed.
pub record IsTaken (p amount : ℕ) (table after : List StockLevel) : Type 0 where
  pub stock_taken : (j : ℕ) → stock j after + quantity_if (p == j) amount ≡ stock j table
  pub same_ids : distinct_ids after ≡ distinct_ids table
  pub same_pairs : distinct_pairs after ≡ distinct_pairs table
  pub same_products : (j : ℕ) → any (of_product j) after ≡ any (of_product j) table

nothing-IsTaken : (p : ℕ) (table : List StockLevel) → IsTaken p 0 table table
nothing-IsTaken p table = record {
  stock_taken = λ j. ground arith;
  same_ids = refl;
  same_pairs = refl;
  same_products = λ j. refl;
}

IsTaken-join :
    (p a b c : ℕ) (t u v : List StockLevel)
    → a + b ≡ c
    → IsTaken p a t u
    → IsTaken p b u v
    → IsTaken p c t v
IsTaken-join p a b c t u v sum h k = record {
  stock_taken = λ j. ground (arith, h.stock_taken j, k.stock_taken j);
  same_ids = k.same_ids ∙ h.same_ids;
  same_pairs = k.same_pairs ∙ h.same_pairs;
  same_products = λ j. k.same_products j ∙ h.same_products j;
}

-- One row: all that it has or all that remains.
drain_one-IsTaken :
    (p remaining : ℕ) (l : StockLevel) (table : List StockLevel)
    → distinct_ids table ≡ true
    → Held p table l
    → ((drain_one l (remaining, table)).0 ≡ remaining - l.quantity)
      × IsTaken p (min remaining l.quantity) table (drain_one l (remaining, table)).1
      × ((id : ℕ)
          → (l.id == id) ≡ false
          → find_one (is_level id) (drain_one l (remaining, table)).1
            ≡ find_one (is_level id) table)
unfolding drain_one
drain_one-IsTaken p remaining l table d (found, of_p) = elim (Bool-cases (remaining == 0)) [
  | inl e ↦
      let none_left : min remaining l.quantity ≡ 0 = ground arith in
      (rw e (ground arith), rw (none_left, e) (nothing-IsTaken p table), λ id off. rw e refl)
  | inr e ↦ elim (Bool-cases (min remaining l.quantity == 0)) [
    | inl z ↦
        let none_taken : min remaining l.quantity ≡ 0 = eqb→eq _ 0 z in
        (
          rw (e, z) (ground arith),
          rw (e, z, none_taken) (nothing-IsTaken p table),
          λ id off. rw (e, z) refl,
        )
    | inr z ↦
        let amount : ℕ = min remaining l.quantity in
        let enough : amount ≤ l.quantity = ground arith in
        let there = any-holds_enough amount l table found enough in
        let product : l.product_id ≡ p = eqb→eq l.product_id p of_p in
        let refill = less-IsRefill amount in
        let q = holds_enough l.id amount in
        (
          rw (e, z, there) (ground arith),
          rw (e, z, there)
              record {
                stock_taken = λ j. rw (sym product) (stock-less j amount l table d found enough);
                same_ids = distinct_ids-update q (less amount) refill table;
                same_pairs = distinct_pairs-update q (less amount) refill table;
                same_products = λ j. any-of_product-update q (less amount) refill j table;
              },
          λ id off. rw (e, z, there) (find_one-less id amount l table off),
        )
  ]
]

Held-drained :
    (p : ℕ) (l : StockLevel) (t u : List StockLevel) (ls : List StockLevel)
    → ((id : ℕ) → (l.id == id) ≡ false → find_one (is_level id) u ≡ find_one (is_level id) t)
    → any (is_level l.id) ls ≡ false
    → All (Held p t) ls
    → All (Held p u) ls
Held-drained p l t u [] same off h = tt
Held-drained p l t u (m ∷ ms) same off h =
    ((same m.id (ground arith) ∙ h.0.0, h.0.1), Held-drained p l t u ms same (ground arith) h.1)

-- The loop takes all that the rows have or all that is asked for.
pub drain-IsTaken :
    (p remaining : ℕ) (ls table : List StockLevel)
    → distinct_ids table ≡ true
    → distinct_ids ls ≡ true
    → All (Held p table) ls
    → ((drain ls (remaining, table)).0 ≡ remaining - total ls)
      × IsTaken p (min remaining (total ls)) table (drain ls (remaining, table)).1
unfolding drain
drain-IsTaken p remaining [] table d k h =
    (omega arith, subst (λ n. IsTaken p n table table) (ground arith) (nothing-IsTaken p table))
drain-IsTaken p remaining (l ∷ ls) table d k h =
    let (left, taken, same) = drain_one-IsTaken p remaining l table d h.0 in
    let u : List StockLevel = (drain_one l (remaining, table)).1 in
    let rest =
      drain-IsTaken p (drain_one l (remaining, table)).0 ls u (taken.same_ids ∙ d) (ground arith)
        (Held-drained p l table u ls same (ground arith) h.1) in
    (
      rest.0 ∙ ground (arith, left),
      IsTaken-join p _ _ _ table u _ (ground (arith, left)) taken rest.1,
    )
