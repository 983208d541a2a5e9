-- ===== src/Kernel/Math.antt =====
-- lib/core/math.d on 64-bit words.
pub mod Laws
use multiplix.Prelude.{
  ℕ, zero, suc, ◌+◌, ◌-◌, ◌*◌, ◌/◌, ◌%◌, ◌^◌, Option, none, some, bit_and, ltb, ◌==◌, if◌then◌else◌,
}

-- `while (x >>= 1) ++n;`. A word is 0 after 64 shifts.
unfoldable pub log2_loop : (rounds x n : ℕ) → ℕ
log2_loop zero x n = n
log2_loop (suc f) x n = let rest = log2_loop f (x / 2) (n + 1) in if x / 2 == 0 then n else rest

unfoldable pub log2ceil : ℕ → ℕ
log2ceil x = log2_loop 64 x 0

-- `while (power < x) power *= 2;`, `none` where the loop does not end: from 0 on it stays at 0, and
-- that is reached after 64 rounds.
unfoldable pub pow2_loop : (rounds x power : ℕ) → Option ℕ
pow2_loop zero x power = none
pow2_loop (suc f) x power =
    let rest = pow2_loop f x (power * 2 % 2 ^ 64) in if ltb power x then rest else some power

unfoldable pub pow2ceil : ℕ → Option ℕ
pow2ceil x = pow2_loop 65 x 1

-- `((~p) + 1) & (algn - 1)`
unfoldable pub align_off : (p algn : ℕ) → ℕ
align_off p algn = bit_and ((2 ^ 64 - 1 - p + 1) % 2 ^ 64) ((algn + (2 ^ 64 - 1)) % 2 ^ 64)
