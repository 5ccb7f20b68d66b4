-- ===== src/Shop/Inventory.antt =====
-- inventory-service/src: the warehouses, the stock in them, reservations and backorders. A request is
-- one step; `new_id` gives the identifiers that the database generates, by their number so far. A
-- quantity is at least 1 by the DTOs, and a natural number here; the stock of a warehouse is an `int`
-- column, which a restock may overflow, and the quantity of a backorder is taken to fit its column.
pub mod Levels
pub mod Drain
pub mod Largest
pub mod Counters
pub mod Refines
pub mod Restocks
mod Examples
use tflw_tests.Prelude.{
  ℕ, ◌+◌, ◌-◌, Bool, not, ◌&&◌, ◌||◌, Option, none, some, List, [], ◌∷◌, ◌++◌, ltb, leb, ◌==◌,
  if◌then◌else◌, is_some, length, is_nil, any, all, filter, Text,
}
use tflw_tests.Shop.Tables.{
  not_found, server_error, Attempt, done, and_then, unless, or_missing, find_one, update,
}

pub record Warehouse : Type 0 where
  pub id : ℕ
  pub name : Text
  pub location : Text

pub record StockLevel : Type 0 where
  pub id : ℕ
  pub product_id : ℕ
  pub warehouse_id : ℕ
  pub quantity : ℕ

pub record RestockEvent : Type 0 where
  pub product_id : ℕ
  pub warehouse_id : ℕ
  pub quantity : ℕ

pub data BackorderStatus : Type 0 where
  open_ : BackorderStatus
  fulfilled : BackorderStatus
  cancelled : BackorderStatus

pub record BackorderRequest : Type 0 where
  pub id : ℕ
  pub product_id : ℕ
  pub order_id : Option ℕ
  pub quantity : ℕ
  pub status : BackorderStatus

pub record Depot : Type 0 where
  pub warehouses : List Warehouse
  pub levels : List StockLevel
  pub restock_events : List RestockEvent
  pub backorders : List BackorderRequest

pub record ReservationItem : Type 0 where
  pub product_id : ℕ
  pub quantity : ℕ

pub record ReservationItemResult : Type 0 where
  pub product_id : ℕ
  pub requested_quantity : ℕ
  pub reserved_quantity : ℕ
  pub backorder_id : Option ℕ

pub record ReservationResult : Type 0 where
  pub order_id : Option ℕ
  pub fully_reserved : Bool
  pub items : List ReservationItemResult

abbrev pub of_product : ℕ → StockLevel → Bool
of_product product_id l = l.product_id == product_id

abbrev pub is_level : ℕ → StockLevel → Bool
is_level id l = l.id == id

-- `order: { quantity: "DESC", id: "ASC" }`
abbrev pub before : StockLevel → StockLevel → Bool
before l m = ltb m.quantity l.quantity || (l.quantity == m.quantity) && leb l.id m.id

unfoldable pub place_level : StockLevel → List StockLevel → List StockLevel
place_level l [] = l ∷ []
place_level l (m ∷ ms) = let rest = place_level l ms in if before l m then l ∷ m ∷ ms else m ∷ rest

unfoldable pub largest_first : List StockLevel → List StockLevel
unfolding place_level
largest_first [] = []
largest_first (l ∷ ls) = place_level l (largest_first ls)

abbrev pub min : ℕ → ℕ → ℕ
min a b = if leb a b then a else b

-- `WHERE id = :id AND quantity >= :take`
abbrev pub holds_enough : ℕ → ℕ → StockLevel → Bool
holds_enough id amount l = is_level id l && leb amount l.quantity

abbrev pub less : ℕ → StockLevel → StockLevel
less amount l = record l { quantity = l.quantity - amount }

-- One pass of the loop: what remains to be taken, and the table. Nothing happens once nothing
-- remains, which is where the source leaves the loop.
unfoldable pub drain_one : StockLevel → ℕ × List StockLevel → ℕ × List StockLevel
unfolding update
drain_one l (remaining, table) =
    let amount = min remaining l.quantity in
    if remaining == 0
    then (remaining, table)
    else if amount == 0
    then (remaining, table)
    else if any (holds_enough l.id amount) table
    then (remaining - amount, update (holds_enough l.id amount) (less amount) table)
    else (remaining, table)

unfoldable pub drain : List StockLevel → ℕ × List StockLevel → ℕ × List StockLevel
unfolding drain_one
drain [] s = s
drain (l ∷ ls) s = drain ls (drain_one l s)

-- What is reserved, and the table after it. A product without a row is not tracked.
unfoldable pub reserve_one_product : ℕ → ℕ → List StockLevel → ℕ × List StockLevel
unfolding largest_first drain
reserve_one_product product_id quantity table =
    let levels = largest_first (filter (of_product product_id) table) in
    let (remaining, after) = drain levels (quantity, table) in
    if is_nil levels then (quantity, table) else (quantity - remaining, after)

-- `create` of backorders.service.ts
unfoldable pub backorder : ℕ → ℕ → Option ℕ → ℕ → BackorderRequest
backorder id product_id order_id quantity = record {
  id = id;
  product_id = product_id;
  order_id = order_id;
  quantity = quantity;
  status = open_;
}

unfoldable pub reserve_item :
    (ℕ → ℕ) → Option ℕ → ReservationItem → Depot → ReservationItemResult × Depot
unfolding reserve_one_product backorder
reserve_item new_id order_id item d =
    let (reserved, levels) = reserve_one_product item.product_id item.quantity d.levels in
    let shortfall = item.quantity - reserved in
    let id = new_id (length d.backorders) in
    let owed : List BackorderRequest =
      if ltb 0 shortfall then backorder id item.product_id order_id shortfall ∷ [] else [] in
    let backorder_id : Option ℕ = if ltb 0 shortfall then some id else none in
    (
      record {
        product_id = item.product_id;
        requested_quantity = item.quantity;
        reserved_quantity = reserved;
        backorder_id = backorder_id;
      },
      record d { levels = levels; backorders = d.backorders ++ owed },
    )

unfoldable pub reserve_items :
    (ℕ → ℕ) → Option ℕ → List ReservationItem → Depot → List ReservationItemResult × Depot
unfolding reserve_item
reserve_items new_id order_id [] d = ([], d)
reserve_items new_id order_id (item ∷ items) d =
    let (result, e) = reserve_item new_id order_id item d in
    let (results, f) = reserve_items new_id order_id items e in (result ∷ results, f)

abbrev pub in_full : ReservationItemResult → Bool
in_full result = not (is_some result.backorder_id)

unfoldable pub reserve :
    (ℕ → ℕ) → Option ℕ → List ReservationItem → Depot → ReservationResult × Depot
unfolding reserve_items is_some
reserve new_id order_id items d =
    let (results, e) = reserve_items new_id order_id items d in
    (record { order_id = order_id; fully_reserved = all in_full results; items = results }, e)

abbrev pub at_warehouse : ℕ → ℕ → StockLevel → Bool
at_warehouse product_id warehouse_id l =
    (l.product_id == product_id) && (l.warehouse_id == warehouse_id)

abbrev pub more : ℕ → StockLevel → StockLevel
more amount l = record l { quantity = l.quantity + amount }

-- The row of the pair grows, or is made with this identifier.
-- The largest value of an `int` column.
abbrev pub max_int : ℕ
max_int = 2147483647

-- Whether the row that the amount is added to, or the new row, can hold it.
abbrev pub has_room : ℕ → ℕ → ℕ → List StockLevel → Bool
has_room product_id warehouse_id quantity table =
    leb quantity max_int
    && all
        (λ l. not (at_warehouse product_id warehouse_id l) || leb (l.quantity + quantity) max_int)
        table

abbrev pub stocked : ℕ → ℕ → ℕ → ℕ → List StockLevel → List StockLevel
stocked id product_id warehouse_id quantity table =
    if any (at_warehouse product_id warehouse_id) table
    then update (at_warehouse product_id warehouse_id) (more quantity) table
    else table
      ++ record {
        id = id;
        product_id = product_id;
        warehouse_id = warehouse_id;
        quantity = quantity;
      }
        ∷ []

-- A value that the column does not hold is an error of the database.
unfoldable pub add_stock : ℕ → ℕ → ℕ → ℕ → List StockLevel → Attempt (List StockLevel)
unfolding unless update
add_stock id product_id warehouse_id quantity table =
    unless (has_room product_id warehouse_id quantity table) server_error
      (done (stocked id product_id warehouse_id quantity table))

abbrev pub is_warehouse : ℕ → Warehouse → Bool
is_warehouse id w = w.id == id

unfoldable pub restock : ℕ → ℕ → ℕ → ℕ → Depot → Attempt (RestockEvent × Depot)
unfolding unless add_stock and_then
restock id warehouse_id product_id quantity d =
    let event : RestockEvent = record {
      product_id = product_id;
      warehouse_id = warehouse_id;
      quantity = quantity;
    } in
    unless (any (is_warehouse warehouse_id) d.warehouses) not_found (
      and_then (add_stock id product_id warehouse_id quantity d.levels) λ levels.
        done (event, record d { levels = levels; restock_events = d.restock_events ++ event ∷ [] }))

pub set_status : ℕ → BackorderStatus → Depot → Attempt (BackorderRequest × Depot)
unfolding and_then or_missing find_one update
set_status id status d = and_then (or_missing (find_one (λ b. b.id == id) d.backorders)) λ b.
    let new : BackorderRequest = record b { status = status } in
    done (new, record d { backorders = update (λ row. row.id == id) (λ row. new) d.backorders })

pub create_warehouse : ℕ → Text → Text → Depot → Warehouse × Depot
create_warehouse id name location d =
    let w : Warehouse = record { id = id; name = name; location = location } in
    (w, record d { warehouses = d.warehouses ++ w ∷ [] })

-- A field that the request leaves out keeps its value.
pub or_else : Option Text → Text → Text
or_else none old = old
or_else (some new) old = new

pub update_warehouse : ℕ → Option Text → Option Text → Depot → Attempt (Warehouse × Depot)
unfolding and_then or_missing find_one update or_else
update_warehouse id name location d =
    and_then (or_missing (find_one (is_warehouse id) d.warehouses)) λ w.
      let new : Warehouse = record w {
        name = or_else name w.name;
        location = or_else location w.location;
      } in
      done (new, record d { warehouses = update (is_warehouse id) (λ row. new) d.warehouses })

-- The rows of a warehouse go with it.
pub remove_warehouse : ℕ → Depot → Attempt Depot
unfolding and_then or_missing find_one
remove_warehouse id d = and_then (or_missing (find_one (is_warehouse id) d.warehouses)) λ w.
    done (record d {
      warehouses = filter (λ row. not (is_warehouse id row)) d.warehouses;
      levels = filter (λ l. not (l.warehouse_id == id)) d.levels;
      restock_events = filter (λ e. not (e.warehouse_id == id)) d.restock_events;
    })
