-- ===== src/Shop/Tables.antt =====
-- What the services of the shop share: tables as lists of rows in the order of their creation, the
-- exceptions of a request, and identifiers, which are numbers here.
use tflw_tests.Prelude.{
  ℕ, ◌≡◌, refl, ap, ◌⊎◌, inl, inr, Bool, true, false, Option, none, some, List, [], ◌∷◌, ◌++◌,
  arith, ◌==◌, if◌then◌else◌, Bool-cases, some_inj, any,
}

-- The exceptions that a service throws.
pub data Fault : Type 0 where
  not_found : Fault
  forbidden : Fault
  conflict : Fault
  unprocessable : Fault
  server_error : Fault
  bad_request : Fault
  unauthorized : Fault

pub data Attempt {ℓ} (A : Type ℓ) : Type ℓ where
  failed : Fault → Attempt A
  done : A → Attempt A

unfoldable pub and_then {ℓ κ} : {A : Type ℓ} {B : Type κ} → Attempt A → (A → Attempt B) → Attempt B
and_then (failed fault) next = failed fault
and_then (done x) next = next x

-- `if (!ok) throw`
unfoldable pub unless {ℓ} : {A : Type ℓ} → Bool → Fault → Attempt A → Attempt A
unless true fault rest = rest
unless false fault rest = failed fault

-- `throw` for a row that is not there.
unfoldable pub or_missing {ℓ} : {A : Type ℓ} → Option A → Attempt A
or_missing none = failed not_found
or_missing (some x) = done x

-- A nullable column against an identifier.
unfoldable pub is_id : Option ℕ → ℕ → Bool
is_id none j = false
is_id (some i) j = i == j

module _ {ℓ} {A : Type ℓ} where
  -- `findOne` and `.find`
  unfoldable pub find_one : (A → Bool) → List A → Option A
  find_one p [] = none
  find_one p (x ∷ xs) = let rest = find_one p xs in if p x then some x else rest

  -- `UPDATE … SET … WHERE`
  unfoldable pub update : (A → Bool) → (A → A) → List A → List A
  update p f [] = []
  update p f (x ∷ xs) = let rest = update p f xs in if p x then f x ∷ rest else x ∷ rest

  pub find_one-append :
      (p : A → Bool) (xs ys : List A)
      → find_one p (xs ++ ys) ≡ elim (find_one p xs) [ none ↦ find_one p ys | some x ↦ some x ]
  unfolding find_one
  find_one-append p [] ys = refl
  find_one-append p (x ∷ xs) ys = elim (Bool-cases (p x)) [
    | inl e ↦ rw e refl
    | inr e ↦ rw e (find_one-append p xs ys)
  ]

  pub find_one-holds : (p : A → Bool) (xs : List A) (x : A) → find_one p xs ≡ some x → p x ≡ true
  unfolding find_one
  find_one-holds p [] x h = cc
  find_one-holds p (y ∷ xs) x h = elim (Bool-cases (p y)) [
    | inl e ↦ let same : y ≡ x = some_inj (rw e at h) in cc (ap p same)
    | inr e ↦ find_one-holds p xs x (rw e at h)
  ]

  -- A row that the changes neither enter nor leave is found as it is changed.
  pub find_one-update :
      (p q : A → Bool) (f : A → A) (xs : List A)
      → ((x : A) → q x ≡ true → p (f x) ≡ p x)
      → find_one p (update q f xs)
        ≡ elim (find_one p xs) [ none ↦ none | some x ↦ some (if q x then f x else x) ]
  unfolding find_one update
  find_one-update p q f [] keep = refl
  find_one-update p q f (x ∷ xs) keep = elim (Bool-cases (q x)) [
    | inl e ↦ elim (Bool-cases (p x)) [
      | inl d ↦ rw (e, keep x e, d) (rw e refl)
      | inr d ↦ rw (e, keep x e, d) (find_one-update p q f xs keep)
    ]
    | inr e ↦ elim (Bool-cases (p x)) [
      | inl d ↦ rw (e, d) (rw e refl)
      | inr d ↦ rw (e, d) (find_one-update p q f xs keep)
    ]
  ]

  pub any-false-find_one : (p : A → Bool) (xs : List A) → any p xs ≡ false → find_one p xs ≡ none
  unfolding find_one
  any-false-find_one p [] h = refl
  any-false-find_one p (x ∷ xs) h = ground (arith, any-false-find_one p xs)

  pub find_one-none-any : (p : A → Bool) (xs : List A) → find_one p xs ≡ none → any p xs ≡ false
  unfolding find_one
  find_one-none-any p [] h = refl
  find_one-none-any p (x ∷ xs) h = elim (Bool-cases (p x)) [
    | inl e ↦ cc (rw e at h)
    | inr e ↦ rw e (find_one-none-any p xs (rw e at h))
  ]

pub Attempt-cases {ℓ} :
    {A : Type ℓ} (a : Attempt A) → ((fault : Fault) × (a ≡ failed fault)) ⊎ ((x : A) × (a ≡ done x))
Attempt-cases (failed fault) = inl (fault, refl)
Attempt-cases (done x) = inr (x, refl)
