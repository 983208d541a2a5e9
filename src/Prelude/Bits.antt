-- ===== src/Prelude/Bits.antt =====
-- `bit_and`, `bit_or` and `bit_xor` at variables: one equation for the lowest digit of
-- each. The laws that follow are in the children.
pub mod Xor
pub mod Mask
use Prim.Native.Nat.{
  ℕ, zero, suc, ◌+◌, ◌*◌, ◌/◌, ◌%◌, ◌≤◌, ◌<◌, min, max, bit_and, bit_or, bit_xor, differ, digits,
  bitwise, bit_and-bitwise, bit_or-bitwise, bit_xor-bitwise,
}
use mathlib.Core.Path.{◌≡◌, refl, ap, sym, ◌∙◌}
use mathlib.Core.Bool.{Bool, true, ◌&&◌}
use native.Mathlib.Omega.{arith}
use native.Mathlib.Decide.{ℕ_discrete}

-- The operations are `bitwise`, which reads digits on fuel; here the fuel goes away, and the digit
-- rule `f` is one equation.
module _ (z : ℕ → ℕ) (f : ℕ → ℕ → ℕ) (rest : (y : ℕ) → z y ≡ z (y / 2) * 2 + f 0 (y % 2)) where
  deeper : (x y k : ℕ) → x ≤ k → digits z f (suc k) x y ≡ digits z f k x y
  deeper zero y zero _ = refl
  deeper zero y (suc k) _ = refl
  deeper (suc x) y zero le = absurd (omega arith)
  deeper (suc x) y (suc k) le = rw (deeper (suc x / 2) (y / 2) k (omega arith))

  enough : (x y k : ℕ) → x ≤ k → digits z f k x y ≡ bitwise z f x y
  enough zero y zero _ = refl
  enough (suc x) y zero le = absurd (omega arith)
  enough x y (suc k) le = elim (ℕ_discrete x (suc k)) [
    | yes e ↦ ap (λ (n : ℕ). digits z f n x y) (sym e)
    | no ne ↦ deeper x y k (omega arith) ∙ enough x y k (omega arith)
  ]

  lowest : (x y : ℕ) → bitwise z f x y ≡ bitwise z f (x / 2) (y / 2) * 2 + f (x % 2) (y % 2)
  lowest zero y = rest y
  lowest (suc x) y = omega (arith, enough (suc x / 2) (y / 2) x (omega arith))

pub bit_or_step : (a b : ℕ) → bit_or a b ≡ bit_or (a / 2) (b / 2) * 2 + max (a % 2) (b % 2)
bit_or_step a b = simp bit_or-bitwise (lowest (λ y. y) max (λ y. omega arith) a b)

pub bit_and_step : (a b : ℕ) → bit_and a b ≡ bit_and (a / 2) (b / 2) * 2 + min (a % 2) (b % 2)
bit_and_step a b = simp bit_and-bitwise (lowest (λ y. 0) min (λ y. omega arith) a b)

differ_digits : (x y : ℕ) → x < 2 → y < 2 → differ x y ≡ (x + y) % 2
differ_digits zero y p q = omega arith
differ_digits (suc x) zero p q = omega arith
differ_digits (suc zero) (suc zero) p q = refl
differ_digits (suc zero) (suc (suc y)) p q = absurd (omega arith)
differ_digits (suc (suc x)) (suc y) p q = absurd (omega arith)

pub bit_xor_step : (a b : ℕ) → bit_xor a b ≡ bit_xor (a / 2) (b / 2) * 2 + (a + b) % 2
bit_xor_step a b =
    let digit = differ_digits (a % 2) (b % 2) (omega arith) (omega arith) in
    simp bit_xor-bitwise (
      omega (
        arith,
        lowest (λ y. y) differ
            (λ y. omega (arith, differ_digits 0 (y % 2) (omega arith) (omega arith))) a b,
        digit,
      ))
