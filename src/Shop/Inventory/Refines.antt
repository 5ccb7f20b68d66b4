-- ===== src/Shop/Inventory/Refines.antt =====
-- The inventory service keeps to its counters.
use tflw_tests.Prelude.{
  ℕ, ◌+◌, ◌-◌, ◌≡◌, refl, ap, ap₂, ◌∙◌, subst, fun_ext, inl, inr, Bool, true, false, ◌&&◌, Option,
  some, List, [], ◌∷◌, ◌++◌, map, arith, ltb, leb, ◌==◌, if◌then◌else◌, eqb→eq, Bool-cases, is_some,
  length, any, all, filter,
}
use tflw_tests.Shop.Inventory.{
  StockLevel, BackorderRequest, Depot, ReservationItem, ReservationItemResult, of_product,
  largest_first, min, drain, reserve_one_product, backorder, reserve_item, reserve_items, in_full,
  reserve,
}
use tflw_tests.Shop.Inventory.Levels.{distinct_ids, distinct_pairs, quantity_if, stock}
use tflw_tests.Shop.Inventory.Drain.{IsTaken, drain-IsTaken}
use tflw_tests.Shop.Inventory.Largest.{read-IsReading}
use tflw_tests.Shop.Inventory.Counters.{
  Book, granted, left_after, lend, put, lend_all, owed_of, left_of, view, IsKeyed,
}

-- One product: what is granted, and the counters of the table after it.
pub record IsLent (p wanted : ℕ) (table : List StockLevel) (got : ℕ) (after : List StockLevel)
    : Type 0 where
  pub got_granted : got ≡ granted wanted (left_of p table)
  pub left_lent :
      (j : ℕ)
      → left_of j after ≡ (if p == j then left_after wanted (left_of j table) else left_of j table)
  pub ids_kept : distinct_ids after ≡ distinct_ids table
  pub pairs_kept : distinct_pairs after ≡ distinct_pairs table

untracked-IsLent :
    (p wanted : ℕ) (table : List StockLevel)
    → any (of_product p) table ≡ false
    → IsLent p wanted table wanted table
untracked-IsLent p wanted table e = record {
  got_granted = rw e refl;
  left_lent = λ j. elim (Bool-cases (p == j)) [
    | inr k ↦ rw k refl
    | inl k ↦ rw k (rw (rw (eqb→eq p j k) at e) refl)
  ];
  ids_kept = refl;
  pairs_kept = refl;
}

taken-IsLent :
    (p wanted : ℕ) (table after : List StockLevel)
    → any (of_product p) table ≡ true
    → IsTaken p (min wanted (stock p table)) table after
    → IsLent p wanted table (wanted - (wanted - stock p table)) after
taken-IsLent p wanted table after e taken = record {
  got_granted = rw e (ground arith);
  left_lent = λ j.
      let sum = taken.stock_taken j in
      let here = taken.same_products j in
      elim (Bool-cases (p == j)) [
        | inr k ↦ rw (k, here) (ground (arith, rw k at sum))
        | inl k ↦
            let pj : p ≡ j = eqb→eq p j k in
            let tracked : any (of_product j) table ≡ true = rw pj at e in
            let exact : stock j after ≡ stock j table - wanted =
              ground (arith, rw (k, pj) at sum) in
            rw (k, here, tracked) (ap some exact)
      ];
  ids_kept = taken.same_ids;
  pairs_kept = taken.same_pairs;
}

reserve_one_product-IsLent :
    (p wanted : ℕ) (table : List StockLevel)
    → distinct_ids table ≡ true
    → IsLent p wanted table
        (reserve_one_product p wanted table).0
        (reserve_one_product p wanted table).1
unfolding reserve_one_product
reserve_one_product-IsLent p wanted table d =
    let r = read-IsReading p table d in
    elim (Bool-cases (any (of_product p) table)) [
      | inr e ↦ rw (r.rows_nil, e) (untracked-IsLent p wanted table e)
      | inl e ↦
          let rows : List StockLevel = largest_first (filter (of_product p) table) in
          let drained = drain-IsTaken p wanted rows table d r.rows_differ r.rows_held in
          rw (r.rows_nil, e)
            (rw (drained.0, r.rows_total)
              (taken-IsLent p wanted table (drain rows (wanted, table)).1 e (
                subst (λ n. IsTaken p (min wanted n) table (drain rows (wanted, table)).1)
                  r.rows_total drained.1)))
    ]

abbrev pub asked_and_got : ReservationItemResult → ℕ × ℕ
asked_and_got r = (r.requested_quantity, r.reserved_quantity)

abbrev pub is_met : ℕ × ℕ → Bool
is_met (asked, got) = leb asked got

pub owed_of-append :
    (p : ℕ) (bs cs : List BackorderRequest) → owed_of p (bs ++ cs) ≡ owed_of p bs + owed_of p cs
owed_of-append p [] cs = omega arith
owed_of-append p (b ∷ bs) cs = omega (arith, owed_of-append p bs cs)

-- A backorder is written exactly for what is not granted.
backorder-owed :
    (id p j : ℕ) (order_id : Option ℕ) (short : ℕ)
    → owed_of j (if ltb 0 short then backorder id p order_id short ∷ [] else [])
      ≡ quantity_if (p == j) short
unfolding backorder
backorder-owed id p j order_id short = elim (Bool-cases (ltb 0 short)) [
  | inl e ↦ rw e (ground arith)
  | inr e ↦ rw e (ground arith)
]

record IsServed (item : ReservationItem) (d : Depot) (r : ReservationItemResult) (e : Depot)
    : Type 0 where
  books_lent : view e ≡ put item.product_id (lend item.quantity) (view d)
  amounts : asked_and_got r ≡ (item.quantity, granted item.quantity (view d item.product_id).left)
  full : in_full r ≡ is_met (asked_and_got r)
  keyed : IsKeyed e

pub Book-eq :
    {a b : Option ℕ} {m n : ℕ}
    → a ≡ b
    → m ≡ n
    → Path Book (record { left = a; owed = m }) (record { left = b; owed = n })
Book-eq p q = λ i. record { left = p i; owed = q i }

reserve_item-IsServed :
    (new_id : ℕ → ℕ) (order_id : Option ℕ) (item : ReservationItem) (d : Depot)
    → IsKeyed d
    → IsServed item d
        (reserve_item new_id order_id item d).0
        (reserve_item new_id order_id item d).1
unfolding reserve_item is_some
reserve_item-IsServed new_id order_id item d known =
    let p : ℕ = item.product_id in
    let wanted : ℕ = item.quantity in
    let l = reserve_one_product-IsLent p wanted d.levels known.ids in
    let got : ℕ = (reserve_one_product p wanted d.levels).0 in
    let id : ℕ = new_id (length d.backorders) in
    let owed : List BackorderRequest =
      if ltb 0 (wanted - got) then backorder id p order_id (wanted - got) ∷ [] else [] in
    record {
      books_lent = fun_ext λ j.
          let left = l.left_lent j in
          let late = owed_of-append j d.backorders owed in
          let due = backorder-owed id p j order_id (wanted - got) in
          elim (Bool-cases (p == j)) [
            | inr k ↦ rw k (Book-eq (rw k at left) (ground (arith, late, due, k)))
            | inl k ↦
                let pj : p ≡ j = eqb→eq p j k in
                let share = rw pj at l.got_granted in
                rw k (Book-eq (rw k at left) (ground (arith, late, due, k, share)))
          ];
      amounts = rw (l.got_granted) refl;
      full = ground arith;
      keyed = record { ids = l.ids_kept ∙ known.ids; pairs = l.pairs_kept ∙ known.pairs };
    }

reserve_items-lends :
    (new_id : ℕ → ℕ) (order_id : Option ℕ) (items : List ReservationItem) (d : Depot)
    → IsKeyed d
    → let (results, e) = reserve_items new_id order_id items d in
      let (amounts, books) = lend_all items (view d) in
      (view e ≡ books)
      × (map asked_and_got results ≡ amounts)
      × (all in_full results ≡ all is_met amounts)
      × IsKeyed e
unfolding reserve_items lend_all
reserve_items-lends new_id order_id [] d known = (refl, refl, refl, known)
reserve_items-lends new_id order_id (item ∷ items) d known =
    let s = reserve_item-IsServed new_id order_id item d known in
    let e : Depot = (reserve_item new_id order_id item d).1 in
    let rest = reserve_items-lends new_id order_id items e s.keyed in
    let (books, amounts, full, keyed) = rw s.books_lent at rest in
    (books, ap₂ ◌∷◌ s.amounts amounts, ap₂ ◌&&◌ (s.full ∙ ap is_met s.amounts) full, keyed)

-- On a table with its keys, a reservation does to the stock and the backorders of every product what
-- lending its items in turn does to the counters: each item is granted what is left of its product,
-- all of it where the product has no row, and the rest is owed; the answer names these amounts, calls
-- the reservation full exactly if each was granted whole, and the keys stay.
pub reserve-lends :
    (new_id : ℕ → ℕ) (order_id : Option ℕ) (items : List ReservationItem) (d : Depot)
    → IsKeyed d
    → let (answer, e) = reserve new_id order_id items d in
      let (amounts, books) = lend_all items (view d) in
      (view e ≡ books)
      × (map asked_and_got answer.items ≡ amounts)
      × (answer.fully_reserved ≡ all is_met amounts)
      × IsKeyed e
unfolding reserve
reserve-lends = reserve_items-lends
