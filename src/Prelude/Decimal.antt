-- ===== src/Prelude/Decimal.antt =====
-- `String(n)` of a natural number, and the reading of decimal digits.
use Prim.Native.Nat.{ℕ, zero, suc, ◌+◌, ◌-◌, ◌*◌, ◌/◌, ◌%◌, ◌<◌}
use mathlib.Core.Path.{◌≡◌, refl, ◌∙◌, ap}
use mathlib.Core.Bool.{Bool, true, ◌&&◌}
use mathlib.Core.Option.{Option, none, some}
use mathlib.Core.List.{[], ◌∷◌}
use mathlib.Core.Logic.{◌≢◌, inl, inr}
use native.Mathlib.Omega.{arith}
use tflw_tests.Prelude.Tests.{ltb, leb, if◌then◌else◌, Bool-cases, ltb→lt}
use tflw_tests.Prelude.Lists.{all}
use tflw_tests.Prelude.Texts.{Text}

-- The digits of `n` in front of those that are written, with fuel for the divisions.
digits_from : ℕ → ℕ → Text → Text
digits_from zero n done = done
digits_from (suc fuel) n done =
    let more = digits_from fuel (n / 10) ((48 + n % 10) ∷ done) in
    if ltb n 10 then (48 + n) ∷ done else more

unfoldable pub decimal : ℕ → Text
unfolding digits_from
decimal n = digits_from (suc n) n []

abbrev pub is_digit : ℕ → Bool
is_digit c = leb 48 c && leb c 57

unfoldable pub read_digits : ℕ → Text → Option ℕ
read_digits n [] = some n
read_digits n (c ∷ s) =
    let more = read_digits (n * 10 + (c - 48)) s in if is_digit c then more else none

-- A text of digits, at least one, as a number.
unfoldable pub read_decimal : Text → Option ℕ
read_decimal [] = none
read_decimal (c ∷ s) = read_digits 0 (c ∷ s)

digit-IsDigit : (n : ℕ) → is_digit (48 + n % 10) ≡ true
digit-IsDigit n = ground arith

read-last : (n : ℕ) (done : Text) → read_digits (n / 10) ((48 + n % 10) ∷ done) ≡ read_digits n done
unfolding read_digits
read-last n done = rw digit-IsDigit (ap (λ m. read_digits m done) (omega arith))

read-single : (n : ℕ) (done : Text) → n < 10 → read_digits 0 ((48 + n) ∷ done) ≡ read_digits n done
unfolding read_digits
read-single n done h =
    let e : is_digit (48 + n) ≡ true = ground arith in
    rw e (ap (λ m. read_digits m done) (omega arith))

read-digits_from :
    (fuel n : ℕ) (done : Text)
    → n < fuel
    → read_digits 0 (digits_from fuel n done) ≡ read_digits n done
unfolding digits_from
read-digits_from zero n done h = elim h [ ]
read-digits_from (suc fuel) n done h = elim (Bool-cases (ltb n 10)) [
  | inl e ↦ rw e (read-single n done (ltb→lt n 10 e))
  | inr e ↦
      rw e (read-digits_from fuel (n / 10) ((48 + n % 10) ∷ done) (ground arith) ∙ read-last n done)
]

digits_from-ne-nil : (fuel n c : ℕ) (done : Text) → digits_from fuel n (c ∷ done) ≢ []
unfolding digits_from
digits_from-ne-nil zero n c done = λ h. cc
digits_from-ne-nil (suc fuel) n c done =
    ground (arith, digits_from-ne-nil fuel (n / 10) (48 + n % 10) (c ∷ done))

pub decimal-ne-nil : (n : ℕ) → decimal n ≢ []
unfolding decimal
decimal-ne-nil n = ground (arith, digits_from-ne-nil n (n / 10) (48 + n % 10) [])

read_decimal-digits : (s : Text) → s ≢ [] → read_decimal s ≡ read_digits 0 s
unfolding read_decimal
read_decimal-digits [] h = absurd (h refl)
read_decimal-digits (c ∷ s) h = refl

-- Reading what is printed gives the number back.
pub read_decimal-decimal : (n : ℕ) → read_decimal (decimal n) ≡ some n
read_decimal-decimal n =
    read_decimal-digits (decimal n) (decimal-ne-nil n)
    ∙ unfold decimal read_digits in read-digits_from (suc n) n [] (omega arith)

digits_from-IsDigit :
    (fuel n : ℕ) (done : Text)
    → all is_digit done ≡ true
    → all is_digit (digits_from fuel n done) ≡ true
unfolding digits_from
digits_from-IsDigit zero n done h = h
digits_from-IsDigit (suc fuel) n done h = elim (Bool-cases (ltb n 10)) [
  | inl e ↦ rw e (ground arith)
  | inr e ↦
      rw e (digits_from-IsDigit fuel (n / 10) ((48 + n % 10) ∷ done) (rw (digit-IsDigit n, h)))
]

-- Only digits are printed.
pub decimal-IsDigit : (n : ℕ) → all is_digit (decimal n) ≡ true
unfolding decimal
decimal-IsDigit n = digits_from-IsDigit (suc n) n [] refl
