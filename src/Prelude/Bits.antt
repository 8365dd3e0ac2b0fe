-- ===== src/Prelude/Bits.antt =====
-- The binary digits of `bit_and`, `bit_or` and of clearing a mask, at every position.
use Prim.Native.Nat.{
  ℕ, zero, suc, ◌+◌, ◌-◌, ◌*◌, ◌/◌, ◌%◌, ◌≤◌, min, max, bit_and, bit_or, bit_xor, digits, differ,
  bit_and-bitwise, bit_or-bitwise, bit_xor-bitwise,
}
use mathlib.Core.Path.{◌≡◌, refl}
use native.Mathlib.Nat.{le_refl}
use native.Mathlib.Omega.{arith}

-- The digit of weight 2 ^ k.
abbrev pub bit : ℕ → ℕ → ℕ
bit zero a = a % 2
bit (suc k) a = bit k (a / 2)

-- `a & ~m` on Python's unbounded integers, for a natural `a`.
unfoldable pub clear_bits : ℕ → ℕ → ℕ
clear_bits a m = bit_xor a (bit_and a m)

pub bit-le-one : (k a : ℕ) → bit k a ≤ 1
bit-le-one zero a = omega arith
bit-le-one (suc k) a = bit-le-one k (a / 2)

pub bit-zero : (k : ℕ) → bit k 0 ≡ 0
bit-zero zero = refl
bit-zero (suc k) = bit-zero k

-- A native operation joins its numbers digit by digit with `join`, and goes on with `stop` where
-- the first number has run out.
module _ (stop : ℕ → ℕ) (join : ℕ → ℕ → ℕ) (digit : (x y : ℕ) → x ≤ 1 → y ≤ 1 → join x y ≤ 1)
    (stopped : (k b : ℕ) → bit k (stop b) ≡ join 0 (bit k b)) where
  run_out : (k b : ℕ) → bit k (stop b) ≡ join (bit k 0) (bit k b)
  run_out k b = rw (bit-zero k) (stopped k b)

  lowest : (x a b : ℕ) → (x * 2 + join (a % 2) (b % 2)) % 2 ≡ join (a % 2) (b % 2)
  lowest x a b = omega (arith, digit (a % 2) (b % 2) (omega arith) (omega arith))

  others : (x a b : ℕ) → (x * 2 + join (a % 2) (b % 2)) / 2 ≡ x
  others x a b = omega (arith, digit (a % 2) (b % 2) (omega arith) (omega arith))

  bit-digits :
      (rounds k a b : ℕ)
      → a ≤ rounds
      → bit k (digits stop join rounds a b) ≡ join (bit k a) (bit k b)
  bit-digits (suc rounds) zero (suc a) b enough = lowest _ (suc a) b
  bit-digits (suc rounds) (suc k) (suc a) b enough =
      rw (others (digits stop join rounds (suc a / 2) (b / 2)) (suc a) b)
        (bit-digits rounds k (suc a / 2) (b / 2) (omega arith))
  bit-digits (suc rounds) k zero b enough = run_out k b
  bit-digits zero k zero b enough = run_out k b
  bit-digits zero k (suc a) b enough = absurd (omega arith)

-- Digit by digit, `&` is the minimum.
pub bit-bit_and : (k a b : ℕ) → bit k (bit_and a b) ≡ min (bit k a) (bit k b)
bit-bit_and k a b = rw (bit_and-bitwise a b) (
    bit-digits (λ y. zero) min (λ x y p q. omega arith) (λ i y. rw (bit-zero i) (omega arith)) a k a
      b (le_refl a))

-- Digit by digit, `|` is the maximum.
pub bit-bit_or : (k a b : ℕ) → bit k (bit_or a b) ≡ max (bit k a) (bit k b)
bit-bit_or k a b =
    rw (bit_or-bitwise a b)
      (bit-digits (λ y. y) max (λ x y p q. omega arith) (λ i y. omega arith) a k a b (le_refl a))

differ-le-max : (x y : ℕ) → differ x y ≤ max x y
differ-le-max zero y = omega arith
differ-le-max (suc x) zero = omega arith
differ-le-max (suc x) (suc y) = omega (arith, differ-le-max x y)

bit-bit_xor : (k a b : ℕ) → bit k (bit_xor a b) ≡ differ (bit k a) (bit k b)
bit-bit_xor k a b = rw (bit_xor-bitwise a b) (
    bit-digits (λ y. y) differ (λ x y p q. omega (arith, differ-le-max x y)) (λ i y. refl) a k a b
      (le_refl a))

-- On digits, exclusive or with the common ones takes the mask's ones away.
differ-min : (x y : ℕ) → x ≤ 1 → differ x (min x y) ≡ x - y
differ-min zero y p = omega arith
differ-min (suc zero) zero p = refl
differ-min (suc zero) (suc y) p = let e : min 1 (suc y) ≡ 1 = omega arith in rw e (omega arith)
differ-min (suc (suc x)) y p = absurd (omega arith)

-- Clearing a mask clears the mask's digits and keeps the others.
pub bit-clear_bits : (k a m : ℕ) → bit k (clear_bits a m) ≡ bit k a - bit k m
unfolding clear_bits
bit-clear_bits k a m =
    rw (bit-bit_xor k a (bit_and a m), bit-bit_and k a m)
      (differ-min (bit k a) (bit k m) (bit-le-one k a))
