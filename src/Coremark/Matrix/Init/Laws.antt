-- ===== src/Coremark/Matrix/Init/Laws.antt =====
-- What `core_init_matrix` of coremark/core_matrix.c makes of its block.
use multiplix.Prelude.{
  ℕ, ◌+◌, ◌-◌, ◌*◌, ◌%◌, ◌^◌, ◌≤◌, ◌<◌, ◌≡◌, inr, refl, ◌∙◌, ap, arith, Option, some, List, ◌==◌,
  if◌then◌else◌, length, get_or,
}
use multiplix.Coremark.Matrix.Init.{align_mem, core_init_matrix, MatParams, area, fill_cells, Fill}
use multiplix.Coremark.Matrix.Init.Space.{
  Dimension-found, align_mem-ge, align_mem_same, align_mem_lem,
}
use multiplix.Coremark.Matrix.Init.Cells.{a_at, b_at, fill_all}

-- The seed with which the loops start.
abbrev pub first_seed : ℕ → ℕ
first_seed seed = if seed == 0 then 1 else seed

-- What `core_init_matrix` returns.
pub record Initialised (blksize memblk seed : ℕ) (cells : List ℕ) (result : Option MatParams)
    : Type 0 where
  pub p : MatParams
  pub returns : result ≡ some p
  pub fits : 8 * (p.N * p.N) < blksize
  pub most : blksize ≤ 8 * ((p.N + 1) * (p.N + 1))
  pub filled :
      (c : ℕ)
      → c < p.N * p.N
      → (get_or p.cells c 0 ≡ a_at (first_seed seed) c)
        × (get_or p.cells (p.N * p.N + c) 0 ≡ b_at (first_seed seed) c)
  pub behind : (c : ℕ) → p.N * p.N + p.N * p.N ≤ c → get_or p.cells c 0 ≡ get_or cells c 0
  pub size : length p.cells ≡ length cells
  pub starts : p.A ≡ align_mem memblk
  pub after_A : p.B ≡ (p.A + p.N * p.N * 2) % 2 ^ 64
  pub after_B : p.C ≡ align_mem ((p.B + p.N * p.N * 2) % 2 ^ 64)

-- For a block of 1 to 2^31 bytes `core_init_matrix` returns. Its `N` is the largest for which three
-- matrices of N * N cells take less than the block. Matrix A is the first N * N cells of 16 bits
-- from the aligned start on and matrix B the next N * N. Cell `c` of B, in the order of the rows,
-- is the low 16 bits of the seed after `c + 1` steps plus `c + 1`; cell `c` of A is the low 8 bits
-- of that plus `c + 1`; a step multiplies the seed by the number of the cell and takes the
-- remainder by 65536, and a seed of 0 counts as 1. The cells behind B are as before.
pub core_init_matrix-Initialised :
    (blksize memblk seed : ℕ) (cells : List ℕ)
    → 1 ≤ blksize
    → blksize ≤ 2 ^ 31
    → blksize ≤ 4 * length cells
    → Initialised blksize memblk seed cells (core_init_matrix blksize memblk seed cells)
unfolding core_init_matrix
core_init_matrix-Initialised blksize memblk seed cells pos small room =
    let d = Dimension-found blksize pos small in
    let start : Fill = record { seed = first_seed seed; order = 1; cells = cells } in
    let f =
      fill_all (first_seed seed) d.N cells start (omega (arith, d.fits)) (omega (arith, d.fits))
        record {
          order = refl;
          next = refl;
          size = refl;
          filled = λ p h. elim h [ ];
          others = λ p h out. refl;
        } in
    let A = align_mem memblk in
    let whole : area d.N ≡ d.N * d.N = omega (arith, d.fits) in
    let B = (A + area d.N * 2) % 2 ^ 64 in
    let s = fill_cells d.N start in
    let p : MatParams = record {
      N = d.N;
      A = A;
      B = B;
      C = align_mem ((B + area d.N * 2) % 2 ^ 64);
      cells = s.cells;
    } in
    record {
      p = p;
      returns = rw (d.returns) refl;
      fits = d.fits;
      most = d.most;
      filled = f.filled;
      behind = λ c h. f.others c (omega arith) (inr h);
      size = f.size;
      starts = refl;
      after_A = ap (λ (k : ℕ). (A + k * 2) % 2 ^ 64) whole;
      after_B = ap (λ (k : ℕ). align_mem ((B + k * 2) % 2 ^ 64)) whole;
    }

-- Where the three matrices lie.
pub record Space (blksize memblk : ℕ) (p : MatParams) : Type 0 where
  pub start : p.A ≡ memblk + (4 - memblk % 4) % 4
  pub a_b : p.A + 2 * (p.N * p.N) ≤ p.B
  pub b_c : p.B + 2 * (p.N * p.N) ≤ p.C
  pub aligned : p.C % 4 ≡ 0
  pub end : p.C + 4 * (p.N * p.N) < p.A + blksize

-- For a block of 1 to 2^31 bytes that does not start at null and lies below 2^62, the matrices that
-- `core_init_matrix` returns lie one behind the other without overlap; A starts at the first
-- multiple of 4 from the block's start on, C is aligned to 4 bytes too, and C ends before the end
-- of a block of that size at A. So the matrices lie in the block if it is aligned, and pass its end
-- by less than its misalignment else.
pub core_init_matrix-Space :
    (blksize memblk seed : ℕ) (cells : List ℕ)
    → 1 ≤ blksize
    → blksize ≤ 2 ^ 31
    → 1 ≤ memblk
    → memblk < 2 ^ 62
    → (p : MatParams) × (core_init_matrix blksize memblk seed cells ≡ some p)
      × Space blksize memblk p
unfolding core_init_matrix
core_init_matrix-Space blksize memblk seed cells pos small some_block low =
    let d = Dimension-found blksize pos small in
    let (ge, near, four) = align_mem-ge memblk some_block (omega arith) in
    let A = align_mem memblk in
    let B = (A + area d.N * 2) % 2 ^ 64 in
    let eB : B ≡ A + d.N * d.N * 2 = omega (arith, d.fits) in
    let eC : (B + area d.N * 2) % 2 ^ 64 ≡ A + 4 * (d.N * d.N) = omega (arith, d.fits) in
    let C : align_mem ((B + area d.N * 2) % 2 ^ 64) ≡ A + 4 * (d.N * d.N) =
      ap align_mem eC
      ∙ align_mem_same (A + 4 * (d.N * d.N)) (omega arith) (omega (arith, d.fits)) (omega arith) in
    let s = fill_cells d.N (record { seed = first_seed seed; order = 1; cells = cells }) in
    (
      record {
        N = d.N;
        A = A;
        B = B;
        C = align_mem ((B + area d.N * 2) % 2 ^ 64);
        cells = s.cells;
      },
      rw (d.returns) refl,
      record {
        start = align_mem_lem memblk some_block (omega arith);
        a_b = omega arith;
        b_c = omega arith;
        aligned = omega arith;
        end = omega (arith, d.fits);
      },
    )
