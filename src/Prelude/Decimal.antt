-- ===== src/Prelude/Decimal.antt =====
-- `str(n)` of a natural number.
use Prim.Native.Nat.{ℕ, zero, suc, ◌+◌, ◌-◌, ◌*◌, ◌/◌, ◌%◌, ◌≤◌}
use mathlib.Core.List.{[], ◌∷◌}
use mathlib.Core.Logic.{inl, inr}
use mathlib.Core.Path.{◌≡◌, sym, ap, ◌∙◌}
use native.Mathlib.Omega.{arith}
use honeycow.Prelude.Str.{Text}
use honeycow.Prelude.Tests.{◌==◌, if◌then◌else◌, Bool-cases, ==_iff}

-- The digits of a number before those that are there, on fuel for the digits.
decimal_digits : ℕ → ℕ → Text → Text
decimal_digits zero n out = out
decimal_digits (suc fuel) n out =
    let rest = decimal_digits fuel (n / 10) ((b'0' + n % 10) ∷ out) in if n == 0 then out else rest

-- A number has at most as many digits as it is large.
unfoldable pub decimal : ℕ → Text
unfolding decimal_digits
decimal n = if n == 0 then b'0' ∷ [] else decimal_digits n n []

-- Reading digits behind a number.
unfoldable pub value_from : ℕ → Text → ℕ
value_from acc [] = acc
value_from acc (c ∷ s) = value_from (acc * 10 + (c - b'0')) s

decimal_digits-value :
    (fuel n : ℕ) (out : Text)
    → n ≤ fuel
    → value_from 0 (decimal_digits fuel n out) ≡ value_from n out
unfolding decimal_digits value_from
decimal_digits-value zero n out h = ap (λ m. value_from m out) (omega arith)
decimal_digits-value (suc fuel) n out h = elim (Bool-cases (n == 0)) [
  | inl e ↦ rw e (ap (λ m. value_from m out) (sym ((==_iff n 0).0 e)))
  | inr e ↦
      let split : n / 10 * 10 + (b'0' + n % 10 - b'0') ≡ n = omega arith in
      rw e (
        decimal_digits-value fuel (n / 10) ((b'0' + n % 10) ∷ out) (ground arith)
        ∙ ap (λ m. value_from m out) split)
]

-- The digits of a number read back as the number.
pub value-decimal : (n : ℕ) → value_from 0 (decimal n) ≡ n
unfolding decimal value_from
value-decimal n = elim (Bool-cases (n == 0)) [
  | inl e ↦ rw e (sym ((==_iff n 0).0 e))
  | inr e ↦ rw e (decimal_digits-value n n [] (omega arith))
]
