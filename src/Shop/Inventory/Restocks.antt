-- ===== src/Shop/Inventory/Restocks.antt =====
-- A restock event does to the rows what it does to the counters.
use tflw_tests.Prelude.{
  ◌<◌, ◌⊎◌, Bool, not, ◌||◌, leb, all, ℕ, ◌+◌, ◌≡◌, refl, ap, ◌∙◌, fun_ext, inl, inr, true, false,
  none, some, List, [], ◌∷◌, ◌++◌, arith, ◌==◌, if◌then◌else◌, eqb→eq, eqb_refl, Bool-cases, any,
  any-append,
}
use tflw_tests.Shop.Inventory.Counters.{refill, put, left_of, view, IsKeyed}
use tflw_tests.Shop.Inventory.Levels.{
  distinct_ids, distinct_pairs, quantity_if, stock, more-IsRefill, any-of_product-update,
  distinct_ids-update, distinct_pairs-update, update-none,
}
use tflw_tests.Shop.Inventory.{
  StockLevel, RestockEvent, Depot, of_product, is_level, at_warehouse, more, add_stock, stocked,
  has_room, max_int, is_warehouse, restock,
}
use tflw_tests.Shop.Tables.{
  Attempt, failed, done, unless, and_then, not_found, server_error, update,
}
use tflw_tests.Shop.Inventory.Refines.{Book-eq}

-- Rows added and rows refilled.
pub stock-append : (j : ℕ) (ls ms : List StockLevel) → stock j (ls ++ ms) ≡ stock j ls + stock j ms
stock-append j [] ms = omega arith
stock-append j (l ∷ ls) ms = omega (arith, stock-append j ls ms)

pub distinct_ids-append :
    (l : StockLevel) (ls : List StockLevel)
    → any (is_level l.id) ls ≡ false
    → distinct_ids ls ≡ true
    → distinct_ids (ls ++ l ∷ []) ≡ true
distinct_ids-append l [] off d = refl
distinct_ids-append l (m ∷ ms) off d =
    rw (any-append (is_level m.id) ms (l ∷ [])) (ground (arith, distinct_ids-append l ms))

pub distinct_pairs-append :
    (l : StockLevel) (ls : List StockLevel)
    → any (at_warehouse l.product_id l.warehouse_id) ls ≡ false
    → distinct_pairs ls ≡ true
    → distinct_pairs (ls ++ l ∷ []) ≡ true
distinct_pairs-append l [] off d = refl
distinct_pairs-append l (m ∷ ms) off d =
    rw (any-append (at_warehouse m.product_id m.warehouse_id) ms (l ∷ []))
      (ground (arith, distinct_pairs-append l ms))

pub stock-none : (j : ℕ) (ls : List StockLevel) → any (of_product j) ls ≡ false → stock j ls ≡ 0
stock-none j [] h = refl
stock-none j (l ∷ ls) h = ground (arith, stock-none j ls)

pub stock-more :
    (p w amount j : ℕ) (ls : List StockLevel)
    → distinct_pairs ls ≡ true
    → any (at_warehouse p w) ls ≡ true
    → (stock j (update (at_warehouse p w) (more amount) ls)
        ≡ stock j ls + quantity_if (p == j) amount)
      × (any (of_product p) ls ≡ true)
unfolding update
stock-more p w amount j [] d h = cc h
stock-more p w amount j (l ∷ ls) d h = elim (Bool-cases (at_warehouse p w l)) [
  | inl e ↦
      let at_p : l.product_id ≡ p = ground arith in
      let at_w : l.warehouse_id ≡ w = ground arith in
      let off : any (at_warehouse p w) ls ≡ false = ground (arith, rw (at_p, at_w) at d) in
      (
        rw (e, update-none (at_warehouse p w) (more amount) ls off) (rw at_p (ground arith)),
        rw at_p (ground (arith, eqb_refl p)),
      )
  | inr e ↦
      let rest = stock-more p w amount j ls (ground arith) (rw e at h) in
      (rw e (ground (arith, rest.0)), ground (arith, rest.1))
]

pub record IsRefilled (p amount : ℕ) (table after : List StockLevel) : Type 0 where
  left_refilled :
      (j : ℕ)
      → left_of j after ≡ (
          if p == j
          then some (elim (left_of j table) [ none ↦ amount | some left ↦ left + amount ])
          else left_of j table)
  ids_differ : distinct_ids after ≡ true
  pairs_differ : distinct_pairs after ≡ true

pub stocked-IsRefilled :
    (id p w amount : ℕ) (table : List StockLevel)
    → any (is_level id) table ≡ false
    → distinct_ids table ≡ true
    → distinct_pairs table ≡ true
    → IsRefilled p amount table (stocked id p w amount table)
unfolding update
stocked-IsRefilled id p w amount table fresh ids pairs =
    let q = at_warehouse p w in
    let row : StockLevel = record {
      id = id;
      product_id = p;
      warehouse_id = w;
      quantity = amount;
    } in
    elim (Bool-cases (any (at_warehouse p w) table)) [
      | inl e ↦ rw e record {
        left_refilled = λ j.
            let same = any-of_product-update q (more amount) (more-IsRefill amount) j table in
            let (sum, tracked) = stock-more p w amount j table pairs e in
            elim (Bool-cases (p == j)) [
              | inr k ↦ rw (k, same) (ground (arith, rw k at sum))
              | inl k ↦
                  let here : any (of_product j) table ≡ true = rw (eqb→eq p j k) at tracked in
                  rw (k, same, here) (ap some (sum ∙ rw k refl))
            ];
        ids_differ = distinct_ids-update q (more amount) (more-IsRefill amount) table ∙ ids;
        pairs_differ = distinct_pairs-update q (more amount) (more-IsRefill amount) table ∙ pairs;
      }
      | inr e ↦ rw e record {
        left_refilled = λ j.
            let more_rows = any-append (of_product j) table (row ∷ []) in
            let sum = stock-append j table (row ∷ []) in
            elim (Bool-cases (p == j)) [
              | inr k ↦ rw (k, more_rows, sum) (rw k (ground arith))
              | inl k ↦ elim (Bool-cases (any (of_product j) table)) [
                | inl t ↦ rw (k, more_rows, sum, t) (rw k (ap some (omega arith)))
                | inr t ↦
                    rw (k, more_rows, sum, t) (rw k (ap some (omega (arith, stock-none j table t))))
              ]
            ];
        ids_differ = distinct_ids-append row table fresh ids;
        pairs_differ = distinct_pairs-append row table e pairs;
      }
    ]

-- What is in one warehouse of one product.
abbrev pub stock_at : ℕ → ℕ → List StockLevel → ℕ
stock_at p w [] = 0
stock_at p w (l ∷ ls) = quantity_if (at_warehouse p w l) l.quantity + stock_at p w ls

abbrev pub in_range : List StockLevel → Bool
in_range levels = all (λ l. leb l.quantity max_int) levels

rows-overflow :
    (p w amount : ℕ) (ls : List StockLevel)
    → all (λ l. not (at_warehouse p w l) || leb (l.quantity + amount) max_int) ls ≡ false
    → max_int < stock_at p w ls + amount
rows-overflow p w amount [] h = cc h
rows-overflow p w amount (l ∷ ls) h =
    elim (Bool-cases (not (at_warehouse p w l) || leb (l.quantity + amount) max_int)) [
      | inl e ↦ let more = rows-overflow p w amount ls (rw e at h) in ground (arith, more)
      | inr e ↦ ground arith
    ]

has_room-overflow :
    (p w amount : ℕ) (ls : List StockLevel)
    → has_room p w amount ls ≡ false
    → max_int < stock_at p w ls + amount
has_room-overflow p w amount ls h = elim (Bool-cases (leb amount max_int)) [
  | inr e ↦ ground arith
  | inl e ↦ rows-overflow p w amount ls (rw e at h)
]

rows-in_range :
    (p w amount : ℕ) (ls : List StockLevel)
    → all (λ l. not (at_warehouse p w l) || leb (l.quantity + amount) max_int) ls ≡ true
    → in_range ls ≡ true
    → in_range (update (at_warehouse p w) (more amount) ls) ≡ true
unfolding update
rows-in_range p w amount [] h k = refl
rows-in_range p w amount (l ∷ ls) h k = elim (Bool-cases (at_warehouse p w l)) [
  | inl e ↦
      let more_rows = rows-in_range p w amount ls (ground arith) (ground arith) in
      rw (e, more_rows) (ground arith)
  | inr e ↦
      let more_rows = rows-in_range p w amount ls (ground arith) (ground arith) in
      rw (e, more_rows) (ground arith)
]

in_range-append :
    (l : StockLevel) (ls : List StockLevel)
    → leb l.quantity max_int ≡ true
    → in_range ls ≡ true
    → in_range (ls ++ l ∷ []) ≡ true
in_range-append l [] h k = ground arith
in_range-append l (m ∷ ms) h k = ground (arith, in_range-append l ms h)

stocked-in_range :
    (id p w amount : ℕ) (ls : List StockLevel)
    → has_room p w amount ls ≡ true
    → in_range ls ≡ true
    → in_range (stocked id p w amount ls) ≡ true
unfolding update
stocked-in_range id p w amount ls h k = elim (Bool-cases (any (at_warehouse p w) ls)) [
  | inl e ↦ rw e (rows-in_range p w amount ls (ground arith) k)
  | inr e ↦ rw e (in_range-append _ ls (ground arith) k)
]

abbrev pub event_of : ℕ → ℕ → ℕ → RestockEvent
event_of w p amount = record { product_id = p; warehouse_id = w; quantity = amount }

-- The depot with one more event: the counter of its product is refilled, and what is no row is as it
-- was.
pub record IsRefilledBy (w p amount : ℕ) (d e : Depot) : Type 0 where
  pub is_there : any (is_warehouse w) d.warehouses ≡ true
  pub refilled : view e ≡ put p (refill amount) (view d)
  pub keyed : IsKeyed e
  pub ranged : in_range e.levels ≡ true
  pub event_added : e.restock_events ≡ d.restock_events ++ event_of w p amount ∷ []
  pub same_warehouses : e.warehouses ≡ d.warehouses
  pub same_backorders : e.backorders ≡ d.backorders

-- What a restock event has done.
abbrev pub IsRestocked : ℕ → ℕ → ℕ → Depot → Attempt (RestockEvent × Depot) → Type 0
IsRestocked w p amount d (failed fault) =
    ((fault ≡ not_found) × (any (is_warehouse w) d.warehouses ≡ false))
    ⊎ ((fault ≡ server_error) × (max_int < stock_at p w d.levels + amount))
IsRestocked w p amount d (done (event, e)) =
    (event ≡ event_of w p amount) × IsRefilledBy w p amount d e

-- On a table with its keys and with quantities that an `int` column holds, a restock event with an
-- identifier that no row has refills the counter of its product by its quantity, whether or not the
-- product had a row, stands behind the other events, and leaves the other counters, the warehouses
-- and the backorders as they were; the keys and the range stay. It fails only where its warehouse is
-- not there, or where the product would be in the warehouse in a quantity that the column does not
-- hold.
pub restock-refills :
    (id warehouse_id product_id quantity : ℕ) (d : Depot)
    → IsKeyed d
    → in_range d.levels ≡ true
    → any (is_level id) d.levels ≡ false
    → IsRestocked warehouse_id product_id quantity d (restock id warehouse_id product_id quantity d)
unfolding restock unless add_stock and_then
restock-refills id warehouse_id product_id quantity d known range fresh =
    let r =
      stocked-IsRefilled id product_id warehouse_id quantity d.levels fresh known.ids known.pairs in
    elim (Bool-cases (any (is_warehouse warehouse_id) d.warehouses)) [
      | inr e ↦ rw e (inl (refl, e))
      | inl e ↦ elim (Bool-cases (has_room product_id warehouse_id quantity d.levels)) [
        | inr f ↦
            rw (e, f) (inr (refl, has_room-overflow product_id warehouse_id quantity d.levels f))
        | inl f ↦
            let ranged = stocked-in_range id product_id warehouse_id quantity d.levels f range in
            rw (e, f)
              (
                refl,
                record {
                  is_there = e;
                  refilled = fun_ext λ j.
                      let left = r.left_refilled j in
                      elim (Bool-cases (product_id == j)) [
                        | inr k ↦ rw k (Book-eq (rw k at left) refl)
                        | inl k ↦ rw k (Book-eq (rw k at left) refl)
                      ];
                  keyed = record { ids = r.ids_differ; pairs = r.pairs_differ };
                  ranged = ranged;
                  event_added = refl;
                  same_warehouses = refl;
                  same_backorders = refl;
                },
              )
      ]
    ]
