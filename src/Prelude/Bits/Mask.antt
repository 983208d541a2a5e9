-- ===== src/Prelude/Bits/Mask.antt =====
-- `&` with a mask of low bits, and `|` of disjoint fields, as arithmetic.
use Prim.Native.Nat.{ℕ, zero, suc, ◌+◌, ◌-◌, ◌*◌, ◌/◌, ◌%◌, ◌^◌, ◌≤◌, ◌<◌, bit_and, bit_or}
use mathlib.Core.Path.{◌≡◌, refl, ap}
use native.Mathlib.Omega.{arith}
use native.Mathlib.Nat.{le_refl, pow-suc, one-le-pow}
use multiplix.Prelude.Bits.{bit_and_step, bit_or_step}

pub bit_and-zero : (a : ℕ) → bit_and a 0 ≡ 0
bit_and-zero a = below a a (le_refl a)
  where
    below : (n c : ℕ) → c ≤ n → bit_and c 0 ≡ 0
    below zero zero h = refl
    below zero (suc c) h = absurd (omega arith)
    below (suc n) c h = omega (arith, bit_and_step c 0, below n (c / 2) (omega arith))

pub bit_or-zero : (a : ℕ) → bit_or a 0 ≡ a
bit_or-zero a = below a a (le_refl a)
  where
    below : (n c : ℕ) → c ≤ n → bit_or c 0 ≡ c
    below zero zero h = refl
    below zero (suc c) h = absurd (omega arith)
    below (suc n) c h = omega (arith, bit_or_step c 0, below n (c / 2) (omega arith))

pub bit_and-one : (a : ℕ) → bit_and a 1 ≡ a % 2
bit_and-one a = omega (arith, bit_and_step a 1, bit_and-zero (a / 2))

double_shift : (w hi : ℕ) → hi * 2 ^ suc w ≡ 2 * (hi * 2 ^ w)
double_shift w hi = omega (arith, pow-suc 2 w, ap (λ (t : ℕ). hi * t) (pow-suc 2 w))

-- Fields: `lo` of `w` bits below `hi`.
module _ (hi : ℕ) where
  pub bit_or_fields : (w lo : ℕ) → lo < 2 ^ w → bit_or (hi * 2 ^ w) lo ≡ hi * 2 ^ w + lo
  bit_or_fields zero zero h = omega (arith, bit_or-zero (hi * 2 ^ 0))
  bit_or_fields zero (suc lo) h = absurd (omega arith)
  bit_or_fields (suc w) lo h =
      let half : lo / 2 < 2 ^ w = omega (arith, pow-suc 2 w) in
      ground
        (arith, bit_or_fields w (lo / 2) half, double_shift w hi, bit_or_step (hi * 2 ^ suc w) lo)

  low_field : (w lo : ℕ) → lo < 2 ^ w → bit_and (hi * 2 ^ w + lo) (2 ^ w - 1) ≡ lo
  low_field zero lo h = omega (arith, bit_and-zero (hi * 2 ^ 0 + lo))
  low_field (suc w) lo h =
      let half : lo / 2 < 2 ^ w = omega (arith, pow-suc 2 w) in
      let step = bit_and_step (hi * 2 ^ suc w + lo) (2 ^ suc w - 1) in
      ground
        (arith, low_field w (lo / 2) half, double_shift w hi, one-le-pow w 2, pow-suc 2 w, step)

-- A mask of `w` ones keeps the remainder by `2 ^ w`.
pub bit_and_mask : (w a : ℕ) → bit_and a (2 ^ w - 1) ≡ a % 2 ^ w
bit_and_mask w a =
    let low : a % 2 ^ w < 2 ^ w = omega (arith, one-le-pow w 2) in
    ground (arith, low_field (a / 2 ^ w) w (a % 2 ^ w) low)
