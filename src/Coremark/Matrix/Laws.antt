-- ===== src/Coremark/Matrix/Laws.antt =====
-- What coremark/core_matrix.c computes.
use native.Mathlib.Nat.{mul-le-mul}
use multiplix.Prelude.{
  ℕ, zero, suc, ◌+◌, ◌*◌, ◌%◌, ◌^◌, ◌≤◌, ◌<◌, ◌≡◌, refl, sym, ◌∙◌, ap, arith, List, [], ◌∷◌, get_or,
  set, length, ltb, Bool-cases, inl, inr, set_outside, get_or-set_self,
}
use multiplix.Prelude.Loops.{for_each, for_each_ext, rows, rows_at, rows-outside}
use multiplix.Coremark.Matrix.{index, matrix_test, matrix_mul_matrix, product, add_to}
use multiplix.Coremark.Matrix.Restored.{restored}

-- For a matrix of 16-bit values that has its `N * N` cells and a 16-bit constant, `matrix_test`
-- leaves matrix A as it was, as its comment says.
pub matrix_test-restores :
    (N : ℕ) (C A B : List ℕ) (val : ℕ)
    → ((p : ℕ) → get_or A p 0 < 2 ^ 16)
    → val < 2 ^ 16
    → N * N ≤ length A
    → (matrix_test N C A B val).2 ≡ A
unfolding matrix_test
matrix_test-restores N C A B val sixteen small fits = restored N A val sixteen small

-- The sum of `t` at `k`, `k + 1` and so on, `n` terms.
abbrev pub sum : (n k : ℕ) → (ℕ → ℕ) → ℕ
sum zero k t = 0
sum (suc n) k t = t k + sum n (suc k) t

set-set : (C : List ℕ) (p v w : ℕ) → set (set C p v) p w ≡ set C p w
set-set [] p v w = refl
set-set (c ∷ C) zero v w = refl
set-set (c ∷ C) (suc p) v w = ap (◌∷◌ c) (set-set C p v w)

accumulate :
    (n k p v : ℕ) (t : ℕ → ℕ) (C : List ℕ)
    → p < length C
    → v < 2 ^ 32
    → for_each n k (λ k C. add_to p (t k) C) (set C p v) ≡ set C p ((v + sum n k t) % 2 ^ 32)
unfolding for_each
accumulate zero k p v t C lt small = ap (set C p) (omega arith)
accumulate (suc n) k p v t C lt small =
    let value = get_or-set_self C p v 0 lt in
    let w : ℕ = (v + t k) % 2 ^ 32 in
    let step : add_to p (t k) (set C p v) ≡ set C p w =
      ap (λ (z : ℕ). set (set C p v) p ((z + t k) % 2 ^ 32)) value ∙ set-set C p v w in
    ap (for_each n (suc k) (λ k C. add_to p (t k) C)) step
    ∙ accumulate n (suc k) p w t C lt (omega arith)
    ∙ ap (set C p) (omega arith)

accumulate-outside :
    (n k p : ℕ) (t : ℕ → ℕ) (C : List ℕ)
    → length C ≤ p
    → for_each n k (λ k C. add_to p (t k) C) C ≡ C
unfolding for_each
accumulate-outside zero k p t C le = refl
accumulate-outside (suc n) k p t C le =
    ap (for_each n (suc k) (λ k C. add_to p (t k) C))
      (set_outside C p ((get_or C p 0 + t k) % 2 ^ 32) le)
    ∙ accumulate-outside n (suc k) p t C le

cell_sum :
    (n p : ℕ) (t : ℕ → ℕ) (C : List ℕ)
    → for_each n 0 (λ k C. add_to p (t k) C) (set C p 0) ≡ set C p (sum n 0 t % 2 ^ 32)
cell_sum n p t C = elim (Bool-cases (ltb p (length C))) [
  | inl inside ↦ accumulate n 0 p 0 t C (ground arith) (omega arith) ∙ ap (set C p) (omega arith)
  | inr outside ↦
      let same = set_outside C p 0 (ground arith) in
      ap (for_each n 0 (λ k C. add_to p (t k) C)) same
      ∙ accumulate-outside n 0 p t C (ground arith)
      ∙ sym (set_outside C p (sum n 0 t % 2 ^ 32) (ground arith))
]

index_inside : (N i j : ℕ) → N ≤ 65536 → i < N → j < N → index N i j ≡ i * N + j
index_inside N i j small row column =
    let next : suc i * N ≡ i * N + N = omega arith in
    omega
      (arith, next, mul-le-mul {n₁ = suc i} {m₁ = N} {n₂ = 65536} {m₂ = 65536} (omega arith) small)

-- The three loops of the product, without the wrap-around of the indices.
product-rows :
    (N : ℕ) (C A B : List ℕ)
    → N ≤ 65536
    → matrix_mul_matrix N C A B
      ≡ rows N N 0
          (λ i j old.
            sum N 0 (λ k. product (get_or A (i * N + k) 0) (get_or B (k * N + j) 0)) % 2 ^ 32)
          C
unfolding matrix_mul_matrix
product-rows N C A B small =
    for_each_ext N 0 _ _
      (λ i C lo row.
        for_each_ext N 0 _ _
          (λ j C lo' column.
            ap
              (λ q.
                for_each N 0
                  (λ k C.
                    add_to q (product (get_or A (index N i k) 0) (get_or B (index N k j) 0)) C)
                  (set C q 0))
              (index_inside N i j small (omega arith) (omega arith))
            ∙ for_each_ext N 0 _ _
                (λ k C lo inner t.
                  add_to (i * N + j)
                    (product (get_or A (index_inside N i k small (omega arith) (omega arith) t) 0)
                      (get_or B (index_inside N k j small (omega arith) (omega arith) t) 0))
                    C)
                (set C (i * N + j) 0)
            ∙ cell_sum N (i * N + j)
                (λ k. product (get_or A (i * N + k) 0) (get_or B (k * N + j) 0)) C)
          C)
      C

-- With room for the result and `N` at most 65536, so that no index wraps, cell (i, j) of
-- `matrix_mul_matrix` is the sum over `k` of the products of cell (i, k) of A and cell (k, j) of B,
-- modulo `2 ^ 32`, and what follows the result in memory is unchanged.
pub matrix_mul_matrix_lem :
    (N : ℕ) (C A B : List ℕ)
    → N ≤ 65536
    → N * N ≤ length C
    → ((i j : ℕ)
        → i < N
        → j < N
        → get_or (matrix_mul_matrix N C A B) (i * N + j) 0
          ≡ sum N 0 (λ k. product (get_or A (i * N + k) 0) (get_or B (k * N + j) 0)) % 2 ^ 32)
      × ((p : ℕ) → N * N ≤ p → get_or (matrix_mul_matrix N C A B) p 0 ≡ get_or C p 0)
matrix_mul_matrix_lem N C A B small fits =
    let f = λ (i j old : ℕ).
      sum N 0 (λ k. product (get_or A (i * N + k) 0) (get_or B (k * N + j) 0)) % 2 ^ 32 in
    let body = product-rows N C A B small in
    let all : (0 + N) * N ≡ N * N = omega arith in
    (
      λ i j hi hj.
          ap (λ (c : List ℕ). get_or c (i * N + j) 0) body
          ∙ rows_at N N 0 f C i j (omega arith) (omega arith) hj (omega (arith, all)),
      λ p h.
          ap (λ (c : List ℕ). get_or c p 0) body
          ∙ rows-outside N N 0 f C p (inr (omega (arith, all))),
    )
