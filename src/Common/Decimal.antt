-- ===== src/Common/Decimal.antt =====
-- The digits and the values of decimal numerals.
use Prim.Native.Nat.{ℕ, zero, suc, ◌+◌, ◌*◌, ◌/◌, ◌%◌, ◌-◌, ◌<◌, ◌≤◌}
use mathlib.Core.Path.{◌≡◌, refl, sym, ap, ◌∙◌}
use mathlib.Core.Logic.{inl, inr}
use mathlib.Core.List.{List, [], ◌∷◌, ◌++◌}
use native.Mathlib.Omega.{arith}
use socblitz.Common.Tests.{ltb, Bool-cases}
use socblitz.Common.Lists.{All, All-append}
use socblitz.Common.Stringify.{digits_on, decimal}

-- the number that digits stand for, behind the number in front of them
value_from : ℕ → List ℕ → ℕ
value_from acc [] = acc
value_from acc (c ∷ cs) = value_from (acc * 10 + (c - 48)) cs

value_from-append :
    (acc : ℕ) (xs ys : List ℕ) → value_from acc (xs ++ ys) ≡ value_from (value_from acc xs) ys
unfolding value_from
value_from-append acc [] ys = refl
value_from-append acc (x ∷ xs) ys = value_from-append (acc * 10 + (x - 48)) xs ys

value_from-last :
    (acc d : ℕ) (xs : List ℕ) → value_from acc (xs ++ (d + 48) ∷ []) ≡ value_from acc xs * 10 + d
unfolding value_from
value_from-last acc d xs = value_from-append acc xs ((d + 48) ∷ []) ∙ omega arith

value_from-digits_on : (f n : ℕ) → n < f → value_from 0 (digits_on f n) ≡ n
unfolding digits_on
value_from-digits_on zero n h = elim h [ ]
value_from-digits_on (suc f) n h = elim (Bool-cases (ltb n 10)) [
  | inl small ↦ rw small (unfold value_from in omega arith)
  | inr large ↦ rw large (
      value_from-last 0 (n % 10) (digits_on f (n / 10))
      ∙ ap (λ (t : ℕ). t * 10 + n % 10) (value_from-digits_on f (n / 10) (ground arith))
      ∙ omega arith)
]

-- Two numbers with the same numeral are the same.
pub decimal_injective : (m n : ℕ) → decimal m ≡ decimal n → m ≡ n
unfolding decimal
decimal_injective m n e =
    sym (value_from-digits_on (suc m) m (omega arith))
    ∙ ap (value_from 0) e
    ∙ value_from-digits_on (suc n) n (omega arith)

abbrev pub IsDigit : ℕ → Type 0
IsDigit c = (48 ≤ c) × (c < 58)

digits_on-All : (f n : ℕ) → All IsDigit (digits_on f n)
unfolding digits_on
digits_on-All zero n = tt
digits_on-All (suc f) n = elim (Bool-cases (ltb n 10)) [
  | inl small ↦ rw small ((omega arith, ground arith), tt)
  | inr large ↦
      rw large (All-append IsDigit _ _ (digits_on-All f (n / 10)) ((omega arith, omega arith), tt))
]

pub decimal-All_digits : (n : ℕ) → All IsDigit (decimal n)
unfolding decimal
decimal-All_digits n = digits_on-All (suc n) n
