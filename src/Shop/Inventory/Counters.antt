-- ===== src/Shop/Inventory/Counters.antt =====
-- What the inventory service promises, without its warehouses and rows: one counter for a product,
-- and what is owed of it.
use tflw_tests.Prelude.{
  ℕ, ◌+◌, ◌-◌, ◌≡◌, true, Option, none, some, List, [], ◌∷◌, ◌==◌, if◌then◌else◌, any,
}
use tflw_tests.Shop.Inventory.{
  StockLevel, BackorderRequest, Depot, ReservationItem, of_product, min,
}
use tflw_tests.Shop.Inventory.Levels.{distinct_ids, distinct_pairs, quantity_if, stock}

-- `left` is `none` for a product that is not tracked.
pub record Book : Type 0 where
  pub left : Option ℕ
  pub owed : ℕ

abbrev pub granted : ℕ → Option ℕ → ℕ
granted wanted none = wanted
granted wanted (some left) = min wanted left

abbrev pub left_after : ℕ → Option ℕ → Option ℕ
left_after wanted none = none
left_after wanted (some left) = some (left - wanted)

abbrev pub lend : ℕ → Book → Book
lend wanted b = record {
  left = left_after wanted b.left;
  owed = b.owed + (wanted - granted wanted b.left);
}

abbrev pub refill : ℕ → Book → Book
refill amount b = record {
  left = some (elim b.left [ none ↦ amount | some left ↦ left + amount ]);
  owed = b.owed;
}

abbrev pub Counters : Type 0
Counters = ℕ → Book

abbrev pub put : ℕ → (Book → Book) → Counters → Counters
put p change books j = if p == j then change (books j) else books j

-- What is asked for and what is granted, and the counters after it.
unfoldable pub lend_all : List ReservationItem → Counters → List (ℕ × ℕ) × Counters
lend_all [] books = ([], books)
lend_all (item ∷ items) books =
    let (rest, after) = lend_all items (put item.product_id (lend item.quantity) books) in
    ((item.quantity, granted item.quantity (books item.product_id).left) ∷ rest, after)

abbrev pub owed_of : ℕ → List BackorderRequest → ℕ
owed_of p [] = 0
owed_of p (b ∷ bs) = quantity_if (b.product_id == p) b.quantity + owed_of p bs

-- The counters that a depot stands for.
abbrev pub left_of : ℕ → List StockLevel → Option ℕ
left_of p levels = if any (of_product p) levels then some (stock p levels) else none

abbrev pub view : Depot → Counters
view d p = record { left = left_of p d.levels; owed = owed_of p d.backorders }

-- The keys of the table: the identifiers, and the pairs of a product and a warehouse.
pub record IsKeyed (d : Depot) : Type 0 where
  pub ids : distinct_ids d.levels ≡ true
  pub pairs : distinct_pairs d.levels ≡ true
