-- ===== src/Shop/Inventory/Examples.antt =====
-- Two warehouses with one product, and the theorems at them.
use tflw_tests.Prelude.{◌+◌, ◌≡◌, refl, some, List, [], ◌∷◌, map, all, codes}
use tflw_tests.Shop.Inventory.{Depot, ReservationItem, reserve, restock}
use tflw_tests.Shop.Inventory.Counters.{lend_all, view, IsKeyed}
use tflw_tests.Shop.Inventory.Refines.{asked_and_got, is_met, reserve-lends}
use tflw_tests.Shop.Inventory.Restocks.{IsRestocked, restock-refills}

abbrev two_warehouses : Depot
two_warehouses = record {
  warehouses =
      record { id = 1; name = codes "north"; location = codes "n" }
      ∷ record { id = 2; name = codes "south"; location = codes "s" }
      ∷ [];
  levels =
      record { id = 21; product_id = 5; warehouse_id = 1; quantity = 3 }
      ∷ record { id = 22; product_id = 5; warehouse_id = 2; quantity = 4 }
      ∷ [];
  restock_events = [];
  backorders = [];
}

abbrev ten_and_one : List ReservationItem
ten_and_one =
    record { product_id = 5; quantity = 10 } ∷ record { product_id = 6; quantity = 1 } ∷ []

two_warehouses-IsKeyed : IsKeyed two_warehouses
two_warehouses-IsKeyed = record { ids = refl; pairs = refl }

reserve-lends_example :
    let (answer, e) = reserve (λ n. 90 + n) (some 8) ten_and_one two_warehouses in
    let (amounts, books) = lend_all ten_and_one (view two_warehouses) in
    (view e ≡ books)
    × (map asked_and_got answer.items ≡ amounts)
    × (answer.fully_reserved ≡ all is_met amounts)
    × IsKeyed e
reserve-lends_example =
    reserve-lends (λ n. 90 + n) (some 8) ten_and_one two_warehouses two_warehouses-IsKeyed

-- Seven of ten are there, and the product without a row is granted.
ten_and_one_amounts :
    map asked_and_got (reserve (λ n. 90 + n) (some 8) ten_and_one two_warehouses).0.items
    ≡ (10, 7) ∷ (1, 1) ∷ []
unfolding reserve
ten_and_one_amounts = refl

restock-refills_example : IsRestocked 1 5 6 two_warehouses (restock 23 1 5 6 two_warehouses)
restock-refills_example = restock-refills 23 1 5 6 two_warehouses two_warehouses-IsKeyed refl refl
