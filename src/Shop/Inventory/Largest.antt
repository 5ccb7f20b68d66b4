-- ===== src/Shop/Inventory/Largest.antt =====
-- The rows of a product, largest first, are as the table holds them.
use tflw_tests.Prelude.{
  ℕ, ◌+◌, ◌≡◌, refl, ap, ◌∙◌, inl, inr, Bool, true, false, not, ◌||◌, some, List, [], ◌∷◌, arith,
  eqb_refl, Bool-cases, is_nil, any, filter, All,
}
use tflw_tests.Shop.Tables.{find_one}
use tflw_tests.Shop.Inventory.{StockLevel, of_product, is_level, before, place_level, largest_first}
use tflw_tests.Shop.Inventory.Levels.{distinct_ids, stock, total}
use tflw_tests.Shop.Inventory.Drain.{Held}

All-place_level :
    (P : StockLevel → Type 0) (l : StockLevel) (ls : List StockLevel)
    → P l
    → All P ls
    → All P (place_level l ls)
unfolding place_level
All-place_level P l [] h k = (h, tt)
All-place_level P l (m ∷ ms) h k = elim (Bool-cases (before l m)) [
  | inl e ↦ rw e (h, k)
  | inr e ↦ rw e (k.0, All-place_level P l ms h k.1)
]

All-largest_first :
    (P : StockLevel → Type 0) (ls : List StockLevel) → All P ls → All P (largest_first ls)
unfolding largest_first
All-largest_first P [] h = tt
All-largest_first P (l ∷ ls) h =
    All-place_level P l (largest_first ls) h.0 (All-largest_first P ls h.1)

any-place_level :
    (p : StockLevel → Bool) (l : StockLevel) (ls : List StockLevel)
    → any p (place_level l ls) ≡ (p l || any p ls)
unfolding place_level
any-place_level p l [] = refl
any-place_level p l (m ∷ ms) = elim (Bool-cases (before l m)) [
  | inl e ↦ rw e refl
  | inr e ↦ rw e (ground (arith, any-place_level p l ms))
]

any-largest_first :
    (p : StockLevel → Bool) (ls : List StockLevel) → any p (largest_first ls) ≡ any p ls
unfolding largest_first
any-largest_first p [] = refl
any-largest_first p (l ∷ ls) =
    any-place_level p l (largest_first ls) ∙ ap (p l ||◌) (any-largest_first p ls)

distinct_ids-place_level :
    (l : StockLevel) (ls : List StockLevel)
    → any (is_level l.id) ls ≡ false
    → distinct_ids ls ≡ true
    → distinct_ids (place_level l ls) ≡ true
unfolding place_level
distinct_ids-place_level l [] h k = refl
distinct_ids-place_level l (m ∷ ms) h k = elim (Bool-cases (before l m)) [
  | inl e ↦ rw e (ground arith)
  | inr e ↦
      rw (e, any-place_level (is_level m.id) l ms) (ground (arith, distinct_ids-place_level l ms))
]

distinct_ids-largest_first :
    (ls : List StockLevel) → distinct_ids ls ≡ true → distinct_ids (largest_first ls) ≡ true
unfolding largest_first
distinct_ids-largest_first [] h = refl
distinct_ids-largest_first (l ∷ ls) h =
    distinct_ids-place_level l (largest_first ls)
      (any-largest_first (is_level l.id) ls ∙ ground arith)
      (distinct_ids-largest_first ls (ground arith))

total-place_level :
    (l : StockLevel) (ls : List StockLevel) → total (place_level l ls) ≡ l.quantity + total ls
unfolding place_level
total-place_level l [] = refl
total-place_level l (m ∷ ms) = elim (Bool-cases (before l m)) [
  | inl e ↦ rw e refl
  | inr e ↦ rw e (omega (arith, total-place_level l ms))
]

total-largest_first : (ls : List StockLevel) → total (largest_first ls) ≡ total ls
unfolding largest_first
total-largest_first [] = refl
total-largest_first (l ∷ ls) =
    omega (arith, total-place_level l (largest_first ls), total-largest_first ls)

total-filter : (p : ℕ) (ls : List StockLevel) → total (filter (of_product p) ls) ≡ stock p ls
total-filter p [] = refl
total-filter p (l ∷ ls) = ground (arith, total-filter p ls)

any-filter-none :
    (p q : StockLevel → Bool) (ls : List StockLevel)
    → any p ls ≡ false
    → any p (filter q ls) ≡ false
any-filter-none p q [] h = refl
any-filter-none p q (l ∷ ls) h = ground (arith, any-filter-none p q ls)

distinct_ids-filter :
    (q : StockLevel → Bool) (ls : List StockLevel)
    → distinct_ids ls ≡ true
    → distinct_ids (filter q ls) ≡ true
distinct_ids-filter q [] h = refl
distinct_ids-filter q (l ∷ ls) h =
    ground (arith, distinct_ids-filter q ls, any-filter-none (is_level l.id) q ls)

is_nil-place_level : (l : StockLevel) (ls : List StockLevel) → is_nil (place_level l ls) ≡ false
unfolding place_level
is_nil-place_level l [] = refl
is_nil-place_level l (m ∷ ms) = elim (Bool-cases (before l m)) [
  | inl e ↦ rw e refl
  | inr e ↦ rw e refl
]

is_nil-largest_first : (ls : List StockLevel) → is_nil (largest_first ls) ≡ is_nil ls
unfolding largest_first
is_nil-largest_first [] = refl
is_nil-largest_first (l ∷ ls) = is_nil-place_level l (largest_first ls)

is_nil-filter :
    (q : StockLevel → Bool) (ls : List StockLevel) → is_nil (filter q ls) ≡ not (any q ls)
is_nil-filter q [] = refl
is_nil-filter q (l ∷ ls) = ground (arith, is_nil-filter q ls)

-- The rows are found by their identifiers.
found-cons :
    (m : StockLevel) (ls table : List StockLevel)
    → any (is_level m.id) ls ≡ false
    → All (λ l. find_one (is_level l.id) table ≡ some l) ls
    → All (λ l. find_one (is_level l.id) (m ∷ table) ≡ some l) ls
unfolding find_one
found-cons m [] table off h = tt
found-cons m (l ∷ ls) table off h =
    let other : is_level l.id m ≡ false = ground arith in
    (rw other h.0, found-cons m ls table (ground arith) h.1)

found_self :
    (ls : List StockLevel)
    → distinct_ids ls ≡ true
    → All (λ l. find_one (is_level l.id) ls ≡ some l) ls
found_self [] d = tt
found_self (l ∷ ls) d = (
  unfold find_one in rw (eqb_refl l.id) refl,
  found-cons l ls ls (ground arith) (found_self ls (ground arith)),
)

All-filter :
    (P : StockLevel → Type 0) (q : StockLevel → Bool) (ls : List StockLevel)
    → All P ls
    → All (λ l. P l × (q l ≡ true)) (filter q ls)
All-filter P q [] h = tt
All-filter P q (l ∷ ls) h = elim (Bool-cases (q l)) [
  | inl e ↦ rw e ((h.0, e), All-filter P q ls h.1)
  | inr e ↦ rw e (All-filter P q ls h.1)
]

-- The rows that the loop runs over, as it needs them.
pub record IsReading (p : ℕ) (table : List StockLevel) : Type 0 where
  pub rows_held : All (Held p table) (largest_first (filter (of_product p) table))
  pub rows_differ : distinct_ids (largest_first (filter (of_product p) table)) ≡ true
  pub rows_total : total (largest_first (filter (of_product p) table)) ≡ stock p table
  pub rows_nil :
      is_nil (largest_first (filter (of_product p) table)) ≡ not (any (of_product p) table)

pub read-IsReading :
    (p : ℕ) (table : List StockLevel) → distinct_ids table ≡ true → IsReading p table
read-IsReading p table d =
    let rows : List StockLevel = filter (of_product p) table in
    record {
      rows_held = All-largest_first (Held p table) rows (
          All-filter (λ l. find_one (is_level l.id) table ≡ some l) (of_product p) table
            (found_self table d));
      rows_differ = distinct_ids-largest_first rows (distinct_ids-filter (of_product p) table d);
      rows_total = total-largest_first rows ∙ total-filter p table;
      rows_nil = is_nil-largest_first rows ∙ is_nil-filter (of_product p) table;
    }
