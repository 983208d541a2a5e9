-- ===== src/Coremark/Matrix/Init.antt =====
-- coremark/core_matrix.c: `core_init_matrix`. An `ee_u32` or `ee_s32` is its 32-bit pattern, a
-- pointer its 64-bit address.
pub mod Space
pub mod Cells
pub mod Laws
use multiplix.Prelude.{
  ℕ, zero, suc, ◌+◌, ◌-◌, ◌*◌, ◌/◌, ◌%◌, ◌^◌, Bool, true, false, Option, none, some, List, ltb,
  ◌==◌, if◌then◌else◌, set, ◌>>=◌,
}
use multiplix.Prelude.Loops.{for_each}
use multiplix.Coremark.Matrix.{index}

-- `align_mem` of coremark/multiplix/core_portme.h.
pub align_mem : ℕ → ℕ
align_mem x = (4 + (x + (2 ^ 64 - 1)) % 2 ^ 64 / 4 * 4) % 2 ^ 64

-- `x % 65536` of an `ee_s32`, whose result has the sign of `x`.
pub remainder : ℕ → ℕ
remainder x = if ltb x (2 ^ 31) then x % 65536 else (2 ^ 32 - (2 ^ 32 - x) % 65536) % 2 ^ 32

-- `while (j < blksize)`: `i` after it. `none` is out of fuel.
pub size_loop : (fuel i j blksize : ℕ) → Option ℕ
size_loop zero i j blksize = none
size_loop (suc f) i j blksize =
    let i' = (i + 1) % 2 ^ 32 in
    let rest = size_loop f i' (i' * i' * 2 * 4 % 2 ^ 32) blksize in
    if ltb j blksize then rest else some i

-- `N`; the loop ends before `i` reaches `blksize`.
unfoldable pub dimension : (blksize : ℕ) → Option ℕ
unfolding size_loop
dimension blksize = size_loop (blksize + 1) 0 0 blksize >>= λ i. some ((i + (2 ^ 32 - 1)) % 2 ^ 32)

-- The variables of the loops that fill A and B, with the cells from A on. B is `N * N` cells
-- behind A.
pub record Fill : Type 0 where
  pub seed : ℕ
  pub order : ℕ
  pub cells : List ℕ

-- `N * N` of `ee_u32`.
abbrev pub area : ℕ → ℕ
area N = N * N % 2 ^ 32

-- The body of both loops, for the cell at `at`, with B `offset` cells behind A.
pub fill_cell : (offset at : ℕ) → Fill → Fill
unfolding remainder
fill_cell offset at s =
    let seed = remainder (s.order * s.seed % 2 ^ 32) in
    let val = (seed + s.order) % 2 ^ 16 in
    let cells = set s.cells (offset + at) val in
    record {
      seed = seed;
      order = (s.order + 1) % 2 ^ 32;
      cells = set cells at ((val + s.order) % 2 ^ 16 % 2 ^ 8);
    }

pub fill_cells : (N : ℕ) → Fill → Fill
unfolding fill_cell for_each
fill_cells N s = for_each N 0 (λ i s. for_each N 0 (λ j s. fill_cell (area N) (index N i j) s) s) s

-- `mat_params`, with the cells from A on.
pub record MatParams : Type 0 where
  pub N : ℕ
  pub A : ℕ
  pub B : ℕ
  pub C : ℕ
  pub cells : List ℕ

-- `cells` are the cells of 16 bits from A on before, which B and C are in too.
unfoldable pub core_init_matrix : (blksize memblk seed : ℕ) → (cells : List ℕ) → Option MatParams
unfolding dimension align_mem fill_cells
core_init_matrix blksize memblk seed cells = do
  N ← dimension blksize
  let A = align_mem memblk
  let B = (A + area N * 2) % 2 ^ 64
  let s = fill_cells N (record { seed = if seed == 0 then 1 else seed; order = 1; cells = cells })
  some (record { N = N; A = A; B = B; C = align_mem ((B + area N * 2) % 2 ^ 64); cells = s.cells })
