-- ===== src/Shop/Orders/Answers.antt =====
-- What a used key answers.
use tflw_tests.Prelude.{
  is_nil, ℕ, ◌≡◌, refl, sym, ◌∙◌, inl, inr, Bool, true, false, ◌&&◌, Option, none, some, List, [],
  ◌∷◌, ◌==◌, if◌then◌else◌, Bool-cases, Option-cases, some_inj, Text,
}
use tflw_tests.Shop.Inventory.{ReservationItem}
use tflw_tests.Shop.Orders.Coupons.{done_inj}
use tflw_tests.Shop.Orders.{
  Order, Shop, CreateOrderResult, same_items, has_key, replay_or_conflict,
  find_existing_by_idempotency_key, replay,
}
use tflw_tests.Shop.Tables.{conflict, failed, done, and_then, unless, find_one}

-- The one branch of a replay that succeeds.
abbrev pub replayed : Order → CreateOrderResult
replayed o = record { order = o; created = false }

abbrev pub is_replay : Order → ℕ → List ReservationItem → Bool
is_replay o user_id items = (o.user_id == user_id) && same_items o.items items

pub replay-found :
    (c : ℕ) (k : Text) (user_id : ℕ) (items : List ReservationItem) (s : Shop) (o : Order)
    → find_one (has_key (c ∷ k)) s.orders ≡ some o
    → replay (some (c ∷ k)) user_id (some items) s
      ≡ (if is_replay o user_id items then done (some (replayed o)) else failed conflict)
unfolding replay find_existing_by_idempotency_key and_then replay_or_conflict unless
replay-found c k user_id items s o e = elim (Bool-cases (o.user_id == user_id)) [
  | inl f ↦ elim (Bool-cases (same_items o.items items)) [
    | inl g ↦ rw (find_existing_by_idempotency_key, e) (rw (f, g) refl)
    | inr g ↦ rw (find_existing_by_idempotency_key, e) (rw (f, g) refl)
  ]
  | inr f ↦ rw (find_existing_by_idempotency_key, e) (rw f refl)
]

pub replay-none :
    (c : ℕ) (k : Text) (user_id : ℕ) (items : List ReservationItem) (s : Shop)
    → find_one (has_key (c ∷ k)) s.orders ≡ none
    → replay (some (c ∷ k)) user_id (some items) s ≡ done none
unfolding replay find_existing_by_idempotency_key
replay-none c k user_id items s e = rw (find_existing_by_idempotency_key, e) refl

-- A replay answers with an order that stands under the key, and has not created it.
pub replay-answer :
    (key : Option Text) (user_id : ℕ) (items : List ReservationItem) (s : Shop)
    (r : CreateOrderResult)
    → replay key user_id (some items) s ≡ done (some r)
    → (o : Order) × (r ≡ replayed o)
      × (is_replay o user_id items ≡ true)
      × ((k : Text) × (key ≡ some k)
          × (find_one (has_key k) s.orders ≡ some o)
          × (is_nil k ≡ false))
unfolding replay
replay-answer none user_id items s r h = cc h
replay-answer (some []) user_id items s r h = cc h
replay-answer (some (c ∷ k)) user_id items s r h =
    elim (Option-cases (find_one (has_key (c ∷ k)) s.orders)) [
      | inl e ↦ cc (h, replay-none c k user_id items s e)
      | inr (o, e) ↦
          let found = replay-found c k user_id items s o e in
          elim (Bool-cases (is_replay o user_id items)) [
            | inr f ↦ cc (h, rw f at found)
            | inl f ↦
                let same : done (some r) ≡ done (some (replayed o)) = sym h ∙ rw f at found in
                (o, some_inj (done_inj same), f, (c ∷ k, refl, e, refl))
          ]
    ]
