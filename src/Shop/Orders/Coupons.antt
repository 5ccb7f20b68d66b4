-- ===== src/Shop/Orders/Coupons.antt =====
-- What the discount of an order does to the coupons.
use tflw_tests.Prelude.{
  subst, ◌⊎◌, ◌≤◌, ℕ, ◌≡◌, refl, ap, inl, inr, Bool, true, false, not, Option, none, some, List, [],
  ◌∷◌, arith, ltb, Bool-cases, Option-cases, any, Text, text_eq,
}
use tflw_tests.Shop.Keys.{keyed_and}
use tflw_tests.Shop.Orders.Create.{discount_part}
use tflw_tests.Shop.Orders.{
  Coupon, Shop, Setting, coupon_key, has_uses, redeem, discount_of, may_redeem, apply_coupon,
}
use tflw_tests.Shop.Orgs.{OrgMembership}
use tflw_tests.Shop.Tables.{
  not_found, conflict, unprocessable, Attempt, done, and_then, unless, or_missing, find_one, update,
  Attempt-cases,
}

-- A coupon may be redeemed once, within its limit, and nothing else of it changes.
abbrev pub IsRedeemed : Coupon → Coupon → Type 0
IsRedeemed c d = (c ≡ d) ⊎ ((d ≡ redeem c) × (d.used_count ≤ d.usage_limit))

-- The same coupons in the same order, each as it was or redeemed.
abbrev pub Redeemed : List Coupon → List Coupon → Type 0
Redeemed [] [] = Unit
Redeemed [] (d ∷ ds) = ⊥
Redeemed (c ∷ cs) [] = ⊥
Redeemed (c ∷ cs) (d ∷ ds) = IsRedeemed c d × Redeemed cs ds

pub Redeemed-refl : (cs : List Coupon) → Redeemed cs cs
Redeemed-refl [] = tt
Redeemed-refl (c ∷ cs) = (inl refl, Redeemed-refl cs)

pub redeem-Redeemed :
    (id : ℕ) (coupons : List Coupon)
    → Redeemed coupons (update (keyed_and coupon_key id has_uses) redeem coupons)
unfolding update
redeem-Redeemed id [] = tt
redeem-Redeemed id (c ∷ cs) = elim (Bool-cases (keyed_and coupon_key id has_uses c)) [
  | inl e ↦ rw e (inr (refl, ground arith), redeem-Redeemed id cs)
  | inr e ↦ rw e (inl refl, redeem-Redeemed id cs)
]

pub checks-done :
    {A : Type 0} (a b c d : Bool) (x y : A)
    → unless a not_found
        (unless b unprocessable (unless c unprocessable (unless d conflict (done x))))
      ≡ done y
    → x ≡ y
unfolding unless
checks-done false b c d x y h = cc h
checks-done true false c d x y h = cc h
checks-done true true false d x y h = cc h
checks-done true true true false x y h = cc h
checks-done true true true true x y h = cc h

pub done_inj : {A : Type 0} {x y : A} → Path (Attempt A) (done x) (done y) → x ≡ y
done_inj h = cc h

pub apply_coupon-Redeemed :
    (w : Setting) (code : Text) (subtotal user_id : ℕ) (memberships : List OrgMembership)
    (coupons : List Coupon) (discount : ℕ) (after : List Coupon)
    → apply_coupon w code subtotal user_id memberships coupons ≡ done (discount, after)
    → Redeemed coupons after
unfolding apply_coupon and_then or_missing
apply_coupon-Redeemed w code subtotal user_id memberships coupons discount after h =
    elim (Option-cases (find_one (λ c. text_eq c.code code) coupons)) [
      | inl e ↦ cc (rw e at h)
      | inr (c, e) ↦
          let f =
            checks-done (may_redeem c user_id memberships) (not (ltb c.expires_at w.now))
              (not (ltb subtotal c.min_order_amount))
              (any (keyed_and coupon_key c.id has_uses) coupons)
              (
                discount_of w.percent_of c.type subtotal c.value,
                update (keyed_and coupon_key c.id has_uses) redeem coupons,
              )
              (discount, after) (rw e at h) in
          subst (Redeemed coupons) (ap (λ x. x.1) f) (redeem-Redeemed c.id coupons)
    ]

pub discount_part-Redeemed :
    (w : Setting) (code : Option Text) (subtotal user_id : ℕ) (s : Shop) (discount : Option ℕ)
    (after : List Coupon)
    → discount_part w code subtotal user_id s ≡ done (discount, after)
    → Redeemed s.coupons after
unfolding and_then
discount_part-Redeemed w none subtotal user_id s discount after h =
    subst (Redeemed s.coupons) (ap (λ x. x.1) (done_inj h)) (Redeemed-refl s.coupons)
discount_part-Redeemed w (some []) subtotal user_id s discount after h =
    subst (Redeemed s.coupons) (ap (λ x. x.1) (done_inj h)) (Redeemed-refl s.coupons)
discount_part-Redeemed w (some (c ∷ code)) subtotal user_id s discount after h =
    elim (Attempt-cases (apply_coupon w (c ∷ code) subtotal user_id s.memberships s.coupons)) [
      | inl (fault, e) ↦ cc (rw e at h)
      | inr ((amount, coupons), e) ↦
          subst (Redeemed s.coupons) (ap (λ x. x.1) (done_inj (rw e at h))) (
            apply_coupon-Redeemed w (c ∷ code) subtotal user_id s.memberships s.coupons amount
              coupons e)
    ]
