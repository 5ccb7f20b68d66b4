-- ===== src/Shop/Keys.antt =====
-- Tables whose rows have different keys, for the updates that also look at other columns.
use tflw_tests.Prelude.{
  ℕ, ◌≡◌, refl, ap, inl, inr, Bool, true, false, not, ◌&&◌, none, some, List, [], ◌∷◌, ◌++◌, arith,
  ◌==◌, if◌then◌else◌, eqb→eq, eqb_refl, Bool-cases, Option-cases, some_inj, any, any-append,
}
use tflw_tests.Shop.Tables.{find_one, update, find_one-holds, find_one-update, any-false-find_one}

module _ {A : Type 0} (key : A → ℕ) where
  abbrev pub keyed : ℕ → A → Bool
  keyed k x = key x == k

  abbrev pub distinct : List A → Bool
  distinct [] = true
  distinct (x ∷ xs) = not (any (keyed (key x)) xs) && distinct xs

  -- `WHERE id = :id AND …`
  abbrev pub keyed_and : ℕ → (A → Bool) → A → Bool
  keyed_and k c x = keyed k x && c x

  any-keyed_and-none :
      (k : ℕ) (c : A → Bool) (xs : List A)
      → any (keyed k) xs ≡ false
      → any (keyed_and k c) xs ≡ false
  any-keyed_and-none k c [] h = refl
  any-keyed_and-none k c (x ∷ xs) h = ground (arith, any-keyed_and-none k c xs)

  -- A row is affected exactly if the one row of the key meets the rest of the condition.
  pub any-keyed_and :
      (k : ℕ) (c : A → Bool) (x : A) (xs : List A)
      → distinct xs ≡ true
      → find_one (keyed k) xs ≡ some x
      → any (keyed_and k c) xs ≡ c x
  unfolding find_one
  any-keyed_and k c x [] d h = cc h
  any-keyed_and k c x (y ∷ ys) d h = elim (Bool-cases (keyed k y)) [
    | inl e ↦
        let same : y ≡ x = some_inj (rw e at h) in
        let at_k : key y ≡ k = eqb→eq (key y) k e in
        let off : any (keyed k) ys ≡ false = ground (arith, rw at_k at d) in
        rw (e, any-keyed_and-none k c ys off, same) (ground arith)
    | inr e ↦ rw e (any-keyed_and k c x ys (ground arith) (rw e at h))
  ]

  any-keyed-update :
      (k : ℕ) (q : A → Bool) (f : A → A) (xs : List A)
      → ((x : A) → key (f x) ≡ key x)
      → any (keyed k) (update q f xs) ≡ any (keyed k) xs
  unfolding update
  any-keyed-update k q f [] keep = refl
  any-keyed-update k q f (x ∷ xs) keep = elim (Bool-cases (q x)) [
    | inl e ↦ rw (e, keep x, any-keyed-update k q f xs keep) refl
    | inr e ↦ rw (e, any-keyed-update k q f xs keep) refl
  ]

  pub distinct-update :
      (q : A → Bool) (f : A → A) (xs : List A)
      → ((x : A) → key (f x) ≡ key x)
      → distinct (update q f xs) ≡ distinct xs
  unfolding update
  distinct-update q f [] keep = refl
  distinct-update q f (x ∷ xs) keep = elim (Bool-cases (q x)) [
    | inl e ↦ rw (e, keep x, any-keyed-update (key x) q f xs keep, distinct-update q f xs keep) refl
    | inr e ↦ rw (e, any-keyed-update (key x) q f xs keep, distinct-update q f xs keep) refl
  ]

  -- The row of a key behind an update.
  pub find_one-keyed-update :
      (j k : ℕ) (c : A → Bool) (f : A → A) (xs : List A)
      → ((x : A) → key (f x) ≡ key x)
      → find_one (keyed j) (update (keyed_and k c) f xs) ≡ elim (find_one (keyed j) xs) [
        | none ↦ none
        | some x ↦ some (if (k == j) && c x then f x else x)
      ]
  find_one-keyed-update j k c f xs keep =
      let row = find_one-update (keyed j) (keyed_and k c) f xs λ x h. rw (keep x) refl in
      elim (Option-cases (find_one (keyed j) xs)) [
        | inl e ↦ rw (row, e) refl
        | inr (x, e) ↦
            let at_j : key x ≡ j = eqb→eq (key x) j (find_one-holds (keyed j) xs x e) in
            let flip : (key x == k) ≡ (k == j) = ground (arith, at_j) in rw (row, e) (rw flip refl)
      ]

  update-none-keyed :
      (k : ℕ) (f : A → A) (xs : List A) → any (keyed k) xs ≡ false → update (keyed k) f xs ≡ xs
  unfolding update
  update-none-keyed k f [] h = refl
  update-none-keyed k f (x ∷ xs) h = elim (Bool-cases (keyed k x)) [
    | inl e ↦ cc (rw e at h)
    | inr e ↦ rw (e, update-none-keyed k f xs (rw e at h)) refl
  ]

  -- To save a row that was read and changed is to change the row of its key.
  pub update-one :
      (k : ℕ) (f : A → A) (q : A) (xs : List A)
      → distinct xs ≡ true
      → find_one (keyed k) xs ≡ some q
      → update (keyed k) (λ x. f q) xs ≡ update (keyed k) f xs
  unfolding update find_one
  update-one k f q [] d h = refl
  update-one k f q (x ∷ xs) d h = elim (Bool-cases (keyed k x)) [
    | inl e ↦
        let same : x ≡ q = some_inj (rw e at h) in
        let at_k : key x ≡ k = eqb→eq (key x) k e in
        let off : any (keyed k) xs ≡ false = ground (arith, rw at_k at d) in
        rw (e, update-none-keyed k (λ y. f q) xs off, update-none-keyed k f xs off, same) refl
    | inr e ↦ rw e (ap (x ∷◌) (update-one k f q xs (ground arith) (rw e at h)))
  ]

  -- A row of the table is the one that is found under its key.
  pub find_one-key :
      (p : A → Bool) (q : A) (xs : List A)
      → distinct xs ≡ true
      → find_one p xs ≡ some q
      → find_one (keyed (key q)) xs ≡ some q
  unfolding find_one
  find_one-key p q [] d h = cc h
  find_one-key p q (x ∷ xs) d h = elim (Bool-cases (p x)) [
    | inl e ↦ let same : x ≡ q = some_inj (rw e at h) in rw (same) (rw (eqb_refl (key q)) refl)
    | inr e ↦
        let rest = find_one-key p q xs (ground arith) (rw e at h) in
        elim (Bool-cases (keyed (key q) x)) [
          | inr f ↦ rw f rest
          | inl f ↦
              let at_q : key x ≡ key q = eqb→eq (key x) (key q) f in
              let off : any (keyed (key q)) xs ≡ false = ground (arith, rw at_q at d) in
              cc (rest, any-false-find_one (keyed (key q)) xs off)
        ]
  ]

  pub distinct-append :
      (x : A) (xs : List A)
      → any (keyed (key x)) xs ≡ false
      → distinct xs ≡ true
      → distinct (xs ++ x ∷ []) ≡ true
  distinct-append x [] off d = refl
  distinct-append x (y ∷ ys) off d =
      rw (any-append (keyed (key y)) ys (x ∷ [])) (ground (arith, distinct-append x ys))
