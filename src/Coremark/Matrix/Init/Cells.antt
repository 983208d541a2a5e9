-- ===== src/Coremark/Matrix/Init/Cells.antt =====
-- The cells that `core_init_matrix` of coremark/core_matrix.c fills in.
use mathlib.Core.Path.{subst}
use native.Mathlib.Decide.{ℕ_discrete}
use native.Mathlib.Nat.{mul-le-mul, le_refl}
use multiplix.Prelude.{
  ℕ, zero, suc, ◌+◌, ◌*◌, ◌%◌, ◌^◌, ◌≤◌, ◌<◌, ◌≡◌, ◌≢◌, ◌⊎◌, sym, ◌∙◌, ap, arith, List, length, set,
  get_or, length-set, get_or-set_self, get_or-set_ne,
}
use multiplix.Prelude.Loops.{for_each, for_each_invariant}
use multiplix.Coremark.Matrix.Init.{remainder, area, fill_cell, fill_cells, Fill}
use multiplix.Coremark.Matrix.{index}

-- The seed after `c` cells, and the cells at `c` of B and A.
abbrev pub seed_at : (seed c : ℕ) → ℕ
seed_at seed zero = seed
seed_at seed (suc c) = remainder (suc c * seed_at seed c % 2 ^ 32)

abbrev pub b_at : (seed c : ℕ) → ℕ
b_at seed c = (seed_at seed (suc c) + (c + 1)) % 2 ^ 16

abbrev pub a_at : (seed c : ℕ) → ℕ
a_at seed c = (b_at seed c + (c + 1)) % 2 ^ 8

-- The first `c` cells of both matrices are filled, and the others are as they were.
pub record Filled (seed offset : ℕ) (old : List ℕ) (c : ℕ) (s : Fill) : Type 0 where
  pub order : s.order ≡ c + 1
  pub next : s.seed ≡ seed_at seed c
  pub size : length s.cells ≡ length old
  pub filled :
      (p : ℕ)
      → p < c
      → (get_or s.cells p 0 ≡ a_at seed p) × (get_or s.cells (offset + p) 0 ≡ b_at seed p)
  pub others :
      (p : ℕ) → c ≤ p → (p < offset) ⊎ (offset + c ≤ p) → get_or s.cells p 0 ≡ get_or old p 0

cell_values :
    (seed offset c : ℕ) (old : List ℕ) (s : Fill)
    → c + 2 < 2 ^ 32
    → Filled seed offset old c s
    → ((fill_cell offset c s).seed ≡ seed_at seed (suc c))
      × ((fill_cell offset c s).order ≡ suc c + 1)
      × ((fill_cell offset c s).cells
          ≡ set (set s.cells (offset + c) (b_at seed c)) c (a_at seed c))
unfolding fill_cell
cell_values seed offset c old s small f =
    let e : s.order ≡ suc c = omega (arith, f.order) in
    let one : remainder (s.order * s.seed % 2 ^ 32) ≡ seed_at seed (suc c) =
      ap (λ (k : ℕ). remainder (k * s.seed % 2 ^ 32)) e
      ∙ ap (λ (k : ℕ). remainder (suc c * k % 2 ^ 32)) f.next in
    let b : (remainder (s.order * s.seed % 2 ^ 32) + s.order) % 2 ^ 16 ≡ b_at seed c =
      ap (λ (k : ℕ). (k + s.order) % 2 ^ 16) one
      ∙ ap (λ (k : ℕ). (seed_at seed (suc c) + k) % 2 ^ 16) f.order in
    let a : (b_at seed c + s.order) % 2 ^ 16 % 2 ^ 8 ≡ a_at seed c =
      ap (λ (k : ℕ). (b_at seed c + k) % 2 ^ 16 % 2 ^ 8) f.order ∙ omega arith in
    (
      one,
      omega (arith, f.order),
      ap (λ (k : ℕ). set (set s.cells (offset + c) k) c ((k + s.order) % 2 ^ 16 % 2 ^ 8)) b
          ∙ ap (set (set s.cells (offset + c) (b_at seed c)) c) a,
    )

-- Two cells written one after the other.
module _ (xs : List ℕ) (q b c a : ℕ) (ne : c ≢ q) where
  second : c < length xs → get_or (set (set xs q b) c a) c 0 ≡ a
  second lt = get_or-set_self (set xs q b) c a 0 (omega (arith, length-set xs q b))

  first : q < length xs → get_or (set (set xs q b) c a) q 0 ≡ b
  first lt = get_or-set_ne (set xs q b) c q a 0 ne ∙ get_or-set_self xs q b 0 lt

  neither : (p : ℕ) → p ≢ c → p ≢ q → get_or (set (set xs q b) c a) p 0 ≡ get_or xs p 0
  neither p away away' =
      get_or-set_ne (set xs q b) c p a 0 (λ e. away (sym e))
      ∙ get_or-set_ne xs q p b 0 (λ e. away' (sym e))

step-Filled :
    (seed offset c : ℕ) (old : List ℕ) (s : Fill)
    → c + 2 < 2 ^ 32
    → c < offset
    → offset + offset ≤ length old
    → Filled seed offset old c s
    → Filled seed offset old (suc c) (fill_cell offset c s)
step-Filled seed offset c old s small lt room f =
    let (next, order, e) = cell_values seed offset c old s small f in
    let q = offset + c in
    let a = a_at seed c in
    let b = b_at seed c in
    let ne : c ≢ q = λ z. absurd (omega arith) in
    let at : (p : ℕ)
        → get_or (fill_cell offset c s).cells p 0 ≡ get_or (set (set s.cells q b) c a) p 0 =
      λ p. ap (λ (z : List ℕ). get_or z p 0) e in
    record {
      order = order;
      next = next;
      size = ap length e ∙ length-set (set s.cells q b) c a ∙ length-set s.cells q b ∙ f.size;
      filled = λ p h. elim (ℕ_discrete p c) [
        | yes same ↦ rw same (
          at c ∙ second s.cells q b c a ne (omega (arith, f.size)),
          at q ∙ first s.cells q b c a ne (omega (arith, f.size)),
        )
        | no away ↦
            let (old_a, old_b) = f.filled p (omega arith) in
            (
              at p ∙ neither s.cells q b c a ne p away (λ z. absurd (omega arith)) ∙ old_a,
              at (offset + p)
                  ∙ neither s.cells q b c a ne (offset + p) (λ z. absurd (omega arith))
                      (λ z. away (omega arith))
                  ∙ old_b,
            )
      ];
      others = λ p h out.
          at p
          ∙ neither s.cells q b c a ne p (λ z. absurd (omega arith)) (λ z. ground (arith, out))
          ∙ f.others p (omega arith) (ground (arith, out));
    }

row_end : (N i : ℕ) → suc i * N ≡ i * N + N
row_end N i = omega arith

row_inside : (N i : ℕ) → i < N → i * N + N ≤ N * N
row_inside N i lt =
    omega (arith, row_end N i, mul-le-mul {n₁ = suc i} {m₁ = N} {n₂ = N} {m₂ = N} lt (le_refl N))

pub fill_all :
    (seed N : ℕ) (old : List ℕ) (s : Fill)
    → N * N + 2 < 2 ^ 32
    → N * N + N * N ≤ length old
    → Filled seed (N * N) old 0 s
    → Filled seed (N * N) old (N * N) (fill_cells N s)
unfolding fill_cells
fill_all seed N old s small room f =
    let offset : area N ≡ N * N = omega arith in
    subst (λ (k : ℕ). Filled seed (N * N) old k (fill_cells N s))
      (ap (λ (k : ℕ). k * N) (let e : 0 + N ≡ N = omega arith in e))
      (for_each_invariant (λ i t. Filled seed (N * N) old (i * N) t) N 0
        (λ i t. for_each N 0 (λ j t. fill_cell (area N) (index N i j) t) t)
        (λ i t lo hi h.
          subst
            (λ (k : ℕ).
              Filled seed (N * N) old k
                (for_each N 0 (λ j t. fill_cell (area N) (index N i j) t) t))
            (sym (row_end N i ∙ omega arith))
            (for_each_invariant (λ j t. Filled seed (N * N) old (i * N + j) t) N 0
              (λ j t. fill_cell (area N) (index N i j) t)
              (λ j t lo' hi' h'.
                let inside = row_inside N i (omega arith) in
                let at : index N i j ≡ i * N + j = omega arith in
                subst (λ (k : ℕ). Filled seed (N * N) old k (fill_cell (area N) (index N i j) t))
                  (omega arith)
                  (subst
                    (λ (k : ℕ). Filled seed (N * N) old (suc (i * N + j)) (fill_cell (area N) k t))
                    (sym at)
                    (subst
                      (λ (k : ℕ).
                        Filled seed (N * N) old (suc (i * N + j)) (fill_cell k (i * N + j) t))
                      (sym offset)
                      (step-Filled seed (N * N) (i * N + j) old t (omega arith) (omega arith) room
                        h'))))
              t (subst (λ (k : ℕ). Filled seed (N * N) old k t) (omega arith) h)))
        s (subst (λ (k : ℕ). Filled seed (N * N) old k s) (omega arith) f))
