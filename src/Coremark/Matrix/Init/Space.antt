-- ===== src/Coremark/Matrix/Init/Space.antt =====
-- The size of the matrices of coremark/core_matrix.c and the room that they take.
use mathlib.Core.Path.{subst}
use native.Mathlib.Nat.{mul-le-mul}
use multiplix.Prelude.{
  ℕ, zero, suc, ◌+◌, ◌-◌, ◌*◌, ◌%◌, ◌^◌, ◌≤◌, ◌<◌, ◌≡◌, ◌≢◌, ◌⊎◌, inl, inr, refl, sym, ◌∙◌, ap,
  arith, true, false, Option, some, ltb, ◌>>=◌, Bool-cases,
}
use multiplix.Coremark.Matrix.Init.{align_mem, size_loop, dimension}

big_square : (i : ℕ) → i * i < 2 ^ 28 → i < 2 ^ 14
big_square i h = elim (Bool-cases (ltb i (2 ^ 14))) [
  | inl e ↦ ground arith
  | inr e ↦
      let ge : 2 ^ 14 ≤ i = ground arith in
      absurd (omega (arith, h, mul-le-mul {n₁ = 2 ^ 14} {m₁ = 2 ^ 14} {n₂ = i} {m₂ = i} ge ge))
]

next_square : (i : ℕ) → (i + 1) * (i + 1) ≡ i * i + 2 * i + 1
next_square i = omega arith

square_le : (i : ℕ) → i ≤ i * i
square_le zero = omega arith
square_le (suc i) =
    omega (
      arith,
      mul-le-mul {n₁ = 1} {m₁ = suc i} {n₂ = suc i} {m₂ = suc i} (omega arith) (omega arith),
    )

-- The first `n` from `i` on with `8 * n * n` at least the block's size.
record Found (i blksize : ℕ) (result : Option ℕ) : Type 0 where
  n : ℕ
  returns : result ≡ some n
  enough : blksize ≤ 8 * (n * n)
  bound : n < 2 ^ 15
  least : (n ≡ i) ⊎ ((i < n) × (8 * ((n - 1) * (n - 1)) < blksize))

size_step :
    (f i j blksize : ℕ)
    → ltb j blksize ≡ true
    → size_loop (suc f) i j blksize
      ≡ size_loop f
          ((i + 1) % 2 ^ 32)
          ((i + 1) % 2 ^ 32 * ((i + 1) % 2 ^ 32) * 2 * 4 % 2 ^ 32)
          blksize
unfolding size_loop
size_step f i j blksize e = rw e refl

size_stop : (f i j blksize : ℕ) → ltb j blksize ≡ false → size_loop (suc f) i j blksize ≡ some i
unfolding size_loop
size_stop f i j blksize e = rw e refl

size_next :
    (f i blksize : ℕ)
    → i < 2 ^ 14
    → 8 * (i * i) < 2 ^ 31
    → size_loop f
        ((i + 1) % 2 ^ 32)
        ((i + 1) % 2 ^ 32 * ((i + 1) % 2 ^ 32) * 2 * 4 % 2 ^ 32)
        blksize
      ≡ size_loop f (i + 1) ((i + 1) * (i + 1) * 8) blksize
size_next f i blksize lt sq =
    let e : (i + 1) % 2 ^ 32 ≡ i + 1 = omega arith in
    let n = next_square i in
    let j : (i + 1) * (i + 1) * 2 * 4 % 2 ^ 32 ≡ (i + 1) * (i + 1) * 8 = omega arith in
    ap (λ (k : ℕ). size_loop f k (k * k * 2 * 4 % 2 ^ 32) blksize) e
    ∙ ap (λ (k : ℕ). size_loop f (i + 1) k blksize) j

further :
    (i blksize : ℕ) (r : Option ℕ)
    → 8 * (i * i) < blksize
    → Found (i + 1) blksize r
    → Found i blksize r
further i blksize r lt found = record {
  n = found.n;
  returns = found.returns;
  enough = found.enough;
  bound = found.bound;
  least = inr (elim found.least [
    | inl e ↦
        let back : found.n - 1 ≡ i = omega arith in
        (omega arith, omega (arith, lt, ap (λ (k : ℕ). k * k) back))
    | inr (more, below) ↦ (omega arith, below)
  ]);
}

size-Found :
    (f i blksize : ℕ)
    → blksize ≤ 2 ^ 31
    → i < 2 ^ 15
    → i ≤ blksize
    → blksize < f + i
    → Found i blksize (size_loop f i (i * i * 8) blksize)
size-Found zero i blksize small bound le fuel = absurd (omega arith)
size-Found (suc f) i blksize small bound le fuel = elim (Bool-cases (ltb (i * i * 8) blksize)) [
  | inr stop ↦ record {
    n = i;
    returns = size_stop f i (i * i * 8) blksize stop;
    enough = ground arith;
    bound = bound;
    least = inl refl;
  }
  | inl go ↦
      let lt : 8 * (i * i) < blksize = ground arith in
      let low = big_square i (omega arith) in
      let rest =
        size-Found f (i + 1) blksize small (omega arith) (omega (arith, square_le i))
          (omega arith) in
      further i blksize _ lt (
        subst (Found (i + 1) blksize)
          (sym (size_step f i (i * i * 8) blksize go ∙ size_next f i blksize low (omega arith)))
          rest)
]

-- `N` for a block of a size from 1 on: three matrices, of which C has cells of 4 bytes and the
-- others of 2, take less than the block, and one row and column more would not.
pub record Dimension (blksize : ℕ) : Type 0 where
  pub N : ℕ
  pub returns : dimension blksize ≡ some N
  pub fits : 8 * (N * N) < blksize
  pub most : blksize ≤ 8 * ((N + 1) * (N + 1))
  pub small : N < 2 ^ 15

pub Dimension-found : (blksize : ℕ) → 1 ≤ blksize → blksize ≤ 2 ^ 31 → Dimension blksize
unfolding dimension
Dimension-found blksize pos small =
    let found =
      size-Found (blksize + 1) 0 blksize small (omega arith) (omega arith) (omega arith) in
    let n = found.n in
    let some_n : n ≢ 0 = λ e. absurd (omega (arith, found.enough, ap (λ (k : ℕ). k * k) e)) in
    let back : n - 1 + 1 ≡ n = omega arith in
    record {
      N = n - 1;
      returns =
          ap (λ (o : Option ℕ). o >>= λ i. some ((i + (2 ^ 32 - 1)) % 2 ^ 32)) found.returns
          ∙ ap some (omega (arith, found.bound));
      fits = elim found.least [ inl e ↦ absurd (some_n e) | inr (more, below) ↦ below ];
      most = omega (arith, found.enough, ap (λ (k : ℕ). k * k) back);
      small = omega (arith, found.bound);
    }

pub align_mem-ge :
    (x : ℕ) → 1 ≤ x → x < 2 ^ 63 → (x ≤ align_mem x) × (align_mem x < x + 4) × (align_mem x % 4 ≡ 0)
unfolding align_mem
align_mem-ge x pos lt = omega arith

pub align_mem_same : (x : ℕ) → 1 ≤ x → x < 2 ^ 63 → x % 4 ≡ 0 → align_mem x ≡ x
unfolding align_mem
align_mem_same x pos lt e = omega arith

pub align_mem_lem : (x : ℕ) → 1 ≤ x → x < 2 ^ 63 → align_mem x ≡ x + (4 - x % 4) % 4
unfolding align_mem
align_mem_lem x pos lt = omega arith
