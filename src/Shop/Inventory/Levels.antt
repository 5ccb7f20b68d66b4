-- ===== src/Shop/Inventory/Levels.antt =====
-- The stock of a product over the rows of the table, whose identifiers differ.
use tflw_tests.Prelude.{
  ℕ, ◌+◌, ◌≤◌, ◌≡◌, refl, ap, inl, inr, Bool, true, false, not, ◌&&◌, some, List, [], ◌∷◌, arith,
  ◌==◌, if◌then◌else◌, le→leb, Bool-cases, Option-cases, some_inj, any,
}
use tflw_tests.Shop.Tables.{find_one, update, find_one-holds, find_one-update}
use tflw_tests.Shop.Inventory.{
  StockLevel, of_product, is_level, holds_enough, less, at_warehouse, more,
}

-- No two rows have the same identifier.
abbrev pub distinct_ids : List StockLevel → Bool
distinct_ids [] = true
distinct_ids (l ∷ ls) = not (any (is_level l.id) ls) && distinct_ids ls

-- No two rows stand for the same product in the same warehouse.
abbrev pub distinct_pairs : List StockLevel → Bool
distinct_pairs [] = true
distinct_pairs (l ∷ ls) =
    not (any (at_warehouse l.product_id l.warehouse_id) ls) && distinct_pairs ls

abbrev pub quantity_if : Bool → ℕ → ℕ
quantity_if b n = if b then n else 0

-- All that the rows of a product hold.
abbrev pub stock : ℕ → List StockLevel → ℕ
stock p [] = 0
stock p (l ∷ ls) = quantity_if (of_product p l) l.quantity + stock p ls

abbrev pub total : List StockLevel → ℕ
total [] = 0
total (l ∷ ls) = l.quantity + total ls

-- A change of the quantities alone.
pub record IsRefill (f : StockLevel → StockLevel) : Type 0 where
  pub keeps_id : (l : StockLevel) → (f l).id ≡ l.id
  pub keeps_product : (l : StockLevel) → (f l).product_id ≡ l.product_id
  pub keeps_warehouse : (l : StockLevel) → (f l).warehouse_id ≡ l.warehouse_id

pub less-IsRefill : (amount : ℕ) → IsRefill (less amount)
less-IsRefill amount = record {
  keeps_id = λ l. refl;
  keeps_product = λ l. refl;
  keeps_warehouse = λ l. refl;
}

pub more-IsRefill : (amount : ℕ) → IsRefill (more amount)
more-IsRefill amount = record {
  keeps_id = λ l. refl;
  keeps_product = λ l. refl;
  keeps_warehouse = λ l. refl;
}

pub any-update :
    (p q : StockLevel → Bool) (f : StockLevel → StockLevel) (ls : List StockLevel)
    → ((l : StockLevel) → p (f l) ≡ p l)
    → any p (update q f ls) ≡ any p ls
unfolding update
any-update p q f [] h = refl
any-update p q f (l ∷ ls) h = elim (Bool-cases (q l)) [
  | inl e ↦ rw (e, h l, any-update p q f ls h) refl
  | inr e ↦ rw (e, any-update p q f ls h) refl
]

module _ (q : StockLevel → Bool) (f : StockLevel → StockLevel) (refill : IsRefill f) where
  pub any-is_level-update :
      (id : ℕ) (ls : List StockLevel) → any (is_level id) (update q f ls) ≡ any (is_level id) ls
  any-is_level-update id ls = any-update (is_level id) q f ls λ l. rw (refill.keeps_id l) refl

  pub any-of_product-update :
      (p : ℕ) (ls : List StockLevel) → any (of_product p) (update q f ls) ≡ any (of_product p) ls
  any-of_product-update p ls =
      any-update (of_product p) q f ls λ l. rw (refill.keeps_product l) refl

  pub any-at_warehouse-update :
      (p w : ℕ) (ls : List StockLevel)
      → any (at_warehouse p w) (update q f ls) ≡ any (at_warehouse p w) ls
  any-at_warehouse-update p w ls =
      any-update (at_warehouse p w) q f ls
        λ l. rw (refill.keeps_product l, refill.keeps_warehouse l) refl

  pub distinct_ids-update : (ls : List StockLevel) → distinct_ids (update q f ls) ≡ distinct_ids ls
  unfolding update
  distinct_ids-update [] = refl
  distinct_ids-update (l ∷ ls) = elim (Bool-cases (q l)) [
    | inl e ↦ rw (e, refill.keeps_id l, any-is_level-update l.id ls, distinct_ids-update ls) refl
    | inr e ↦ rw (e, any-is_level-update l.id ls, distinct_ids-update ls) refl
  ]

  pub distinct_pairs-update :
      (ls : List StockLevel) → distinct_pairs (update q f ls) ≡ distinct_pairs ls
  unfolding update
  distinct_pairs-update [] = refl
  distinct_pairs-update (l ∷ ls) = elim (Bool-cases (q l)) [
    | inl e ↦
        rw
          (
            e,
            refill.keeps_product l,
            refill.keeps_warehouse l,
            any-at_warehouse-update l.product_id l.warehouse_id ls,
            distinct_pairs-update ls,
          )
          refl
    | inr e ↦
        rw (e, any-at_warehouse-update l.product_id l.warehouse_id ls, distinct_pairs-update ls)
          refl
  ]

-- A change that no row meets changes nothing.
pub update-none :
    (q : StockLevel → Bool) (f : StockLevel → StockLevel) (ls : List StockLevel)
    → any q ls ≡ false
    → update q f ls ≡ ls
unfolding update
update-none q f [] h = refl
update-none q f (l ∷ ls) h = elim (Bool-cases (q l)) [
  | inl e ↦ cc (rw e at h)
  | inr e ↦ rw (e, update-none q f ls (rw e at h)) refl
]

any-holds_enough-none :
    (id amount : ℕ) (ls : List StockLevel)
    → any (is_level id) ls ≡ false
    → any (holds_enough id amount) ls ≡ false
any-holds_enough-none id amount [] h = refl
any-holds_enough-none id amount (l ∷ ls) h = ground (arith, any-holds_enough-none id amount ls)

-- The row that is found has enough: some row has.
pub any-holds_enough :
    (amount : ℕ) (l : StockLevel) (ls : List StockLevel)
    → find_one (is_level l.id) ls ≡ some l
    → amount ≤ l.quantity
    → any (holds_enough l.id amount) ls ≡ true
unfolding find_one
any-holds_enough amount l [] h k = cc h
any-holds_enough amount l (m ∷ ms) h k = elim (Bool-cases (is_level l.id m)) [
  | inl e ↦
      let same : m ≡ l = some_inj (rw e at h) in
      rw (e, ap (λ x. x.quantity) same, le→leb amount l.quantity k) refl
  | inr e ↦ rw (e, any-holds_enough amount l ms (rw e at h) k) refl
]

-- Taking from the row that is found takes that much from its product, and nothing from another.
pub stock-less :
    (p amount : ℕ) (l : StockLevel) (ls : List StockLevel)
    → distinct_ids ls ≡ true
    → find_one (is_level l.id) ls ≡ some l
    → amount ≤ l.quantity
    → stock p (update (holds_enough l.id amount) (less amount) ls)
        + quantity_if (of_product p l) amount
      ≡ stock p ls
unfolding find_one update
stock-less p amount l [] d h k = cc h
stock-less p amount l (m ∷ ms) d h k = elim (Bool-cases (is_level l.id m)) [
  | inl e ↦
      let same : m ≡ l = some_inj (rw e at h) in
      let id_of : m.id ≡ l.id = ap (λ x. x.id) same in
      let off : any (is_level l.id) ms ≡ false = ground (arith, rw id_of at d) in
      let rest =
        update-none (holds_enough l.id amount) (less amount) ms
          (any-holds_enough-none l.id amount ms off) in
      rw (e, rest) (rw same (rw (le→leb amount l.quantity k) (ground arith)))
  | inr e ↦ rw e (ground (arith, stock-less p amount l ms (ground arith) (rw e at h) k))
]

-- The others are found as before.
pub find_one-less :
    (id amount : ℕ) (l : StockLevel) (ls : List StockLevel)
    → (l.id == id) ≡ false
    → find_one (is_level id) (update (holds_enough l.id amount) (less amount) ls)
      ≡ find_one (is_level id) ls
find_one-less id amount l ls h =
    let row =
      find_one-update (is_level id) (holds_enough l.id amount) (less amount) ls λ x k. refl in
    elim (Option-cases (find_one (is_level id) ls)) [
      | inl e ↦ rw (row, e) refl
      | inr (x, e) ↦
          let at_id = find_one-holds (is_level id) ls x e in
          let off : holds_enough l.id amount x ≡ false = ground (arith, at_id, h) in
          rw (row, e) (rw off refl)
    ]
