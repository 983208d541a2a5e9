-- ===== src/Kernel/Math/Laws.antt =====
-- What the loops of lib/core/math.d compute.
use native.Mathlib.Decide.{ℕ_discrete}
use native.Mathlib.Nat.{pow-suc, one-le-pow, pow-le-pow_right}
use multiplix.Prelude.{
  ℕ, zero, suc, ◌+◌, ◌*◌, ◌/◌, ◌%◌, ◌^◌, ◌≤◌, ◌<◌, ◌≡◌, ◌∙◌, arith, Option, some, ltb, ltb→lt,
  Bool-cases, inl, inr,
}
use multiplix.Kernel.Math.{log2_loop, log2ceil, pow2_loop, pow2ceil}

log2_loop_lem : (f k x n : ℕ) → k < f → 2 ^ k ≤ x → x < 2 ^ suc k → log2_loop f x n ≡ n + k
unfolding log2_loop
log2_loop_lem zero k x n h lo hi = absurd (omega arith)
log2_loop_lem (suc f) zero x n h lo hi = ground arith
log2_loop_lem (suc f) (suc k) x n h lo hi =
    let ih =
      log2_loop_lem f k (x / 2) (n + 1) (omega arith) (omega (arith, pow-suc 2 k))
        (omega (arith, pow-suc 2 (suc k))) in
    ground (arith, one-le-pow k 2, pow-suc 2 k)

-- `log2ceil` of a 64-bit word is the place of its highest bit, so the name's rounding up does not
-- happen: for `2 ^ k <= x < 2 ^ (k + 1)` with `k < 64` it is `k`.
pub log2ceil_lem : (k x : ℕ) → k < 64 → 2 ^ k ≤ x → x < 2 ^ suc k → log2ceil x ≡ k
unfolding log2ceil
log2ceil_lem k x h lo hi = log2_loop_lem 64 k x 0 h lo hi ∙ omega arith

record Rounded (x : ℕ) (r : Option ℕ) : Type 0 where
  exponent : ℕ
  small : exponent ≤ 63
  returns : r ≡ some (2 ^ exponent)
  above : x ≤ 2 ^ exponent
  least : (j : ℕ) → j < exponent → 2 ^ j < x

pow2_loop-Rounded :
    (f i x : ℕ)
    → i ≤ 63
    → 63 < i + f
    → x ≤ 2 ^ 63
    → ((j : ℕ) → j < i → 2 ^ j < x)
    → Rounded x (pow2_loop f x (2 ^ i))
unfolding pow2_loop
pow2_loop-Rounded zero i x a b h low = absurd (omega arith)
pow2_loop-Rounded (suc f) i x a b h low = elim (Bool-cases (ltb (2 ^ i) x)) [
  | inr done ↦ record {
    exponent = i;
    small = a;
    returns = rw done;
    above = ground arith;
    least = low;
  }
  | inl more ↦
      let under : i < 63 = elim (ℕ_discrete i 63) [
        | yes e ↦ absurd (ground arith)
        | no ne ↦ omega arith
      ] in
      let low' : (j : ℕ) → j < suc i → 2 ^ j < x = λ j lt. elim (ℕ_discrete j i) [
        | yes e ↦ rw e (ltb→lt (2 ^ i) x more)
        | no ne ↦ low j (omega arith)
      ] in
      let double : 2 ^ i * 2 % 2 ^ 64 ≡ 2 ^ (suc i) =
        omega
          (arith, pow-suc 2 i, pow-le-pow_right {n = 2} (omega arith) {i = suc i} {j = 63} under) in
      let ih = pow2_loop-Rounded f (suc i) x (omega arith) (omega arith) h low' in
      record {
        exponent = ih.exponent;
        small = ih.small;
        returns = rw (more, double) ih.returns;
        above = ih.above;
        least = ih.least;
      }
]

-- For a word of at most `2 ^ 63`, `pow2ceil` returns a power of 2 that is at least the word, and a
-- smaller power of 2 is smaller than the word.
pub pow2ceil_lem :
    (x : ℕ)
    → x ≤ 2 ^ 63
    → (k : ℕ) × (k ≤ 63) × (pow2ceil x ≡ some (2 ^ k)) × (x ≤ 2 ^ k) × ((j : ℕ) → j < k → 2 ^ j < x)
unfolding pow2ceil
pow2ceil_lem x h =
    let r = pow2_loop-Rounded 65 0 x (omega arith) (omega arith) h (λ j lt. absurd (omega arith)) in
    (r.exponent, r.small, r.returns, r.above, r.least)
