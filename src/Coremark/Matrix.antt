-- ===== src/Coremark/Matrix.antt =====
-- coremark/core_matrix.c. A `MATDAT` is the 16-bit pattern of an `ee_s16` and a `MATRES` the 32-bit
-- pattern of an `ee_s32`, whose arithmetic wraps. A matrix is the list of its cells from its
-- pointer on; an index past the list reads 0 and writes nothing.
pub mod Restored
pub mod Laws
pub mod Init
use multiplix.Prelude.{
  ℕ, zero, suc, ◌+◌, ◌-◌, ◌*◌, ◌/◌, ◌%◌, ◌^◌, Bool, List, get_or, set, bit_or, ltb, if◌then◌else◌,
}
use multiplix.Prelude.Loops.{for_each}
use multiplix.Coremark.Crc.{crc16}

-- `(MATRES)x` of a `MATDAT`.
pub extend : ℕ → ℕ
extend x = if ltb x (2 ^ 15) then x else x + (2 ^ 32 - 2 ^ 16)

-- `x < y` of two `MATRES`.
pub less : ℕ → ℕ → Bool
less x y = ltb ((x + 2 ^ 31) % 2 ^ 32) ((y + 2 ^ 31) % 2 ^ 32)

-- The product of two `MATDAT` as a `MATRES`.
unfoldable pub product : ℕ → ℕ → ℕ
unfolding extend
product x y = extend x * extend y % 2 ^ 32

abbrev pub matrix_big : ℕ → ℕ
matrix_big x = bit_or 0xf000 x

abbrev pub bit_extract : (x from to : ℕ) → ℕ
bit_extract x from to = x / 2 ^ from % 2 ^ to

-- `-val` as a `MATDAT`.
abbrev pub negate : ℕ → ℕ
negate val = (2 ^ 16 - val) % 2 ^ 16

-- `i * N + j` of `ee_u32`.
abbrev pub index : (N i j : ℕ) → ℕ
index N i j = (i * N + j) % 2 ^ 32

unfoldable pub matrix_add_const : (N : ℕ) → List ℕ → (val : ℕ) → List ℕ
matrix_add_const N A val =
    for_each N 0
      (λ i A.
        for_each N 0 (λ j A. set A (index N i j) ((get_or A (index N i j) 0 + val) % 2 ^ 16)) A)
      A

unfoldable pub matrix_mul_const : (N : ℕ) → (C A : List ℕ) → (val : ℕ) → List ℕ
matrix_mul_const N C A val =
    for_each N 0
      (λ i C. for_each N 0 (λ j C. set C (index N i j) (product (get_or A (index N i j) 0) val)) C)
      C

-- `C[p] += v`
abbrev pub add_to : (p v : ℕ) → List ℕ → List ℕ
add_to p v C = set C p ((get_or C p 0 + v) % 2 ^ 32)

unfoldable pub matrix_mul_vect : (N : ℕ) → (C A B : List ℕ) → List ℕ
matrix_mul_vect N C A B =
    for_each N 0
      (λ i C.
        for_each N 0 (λ j C. add_to i (product (get_or A (index N i j) 0) (get_or B j 0)) C)
          (set C i 0))
      C

unfoldable pub matrix_mul_matrix : (N : ℕ) → (C A B : List ℕ) → List ℕ
matrix_mul_matrix N C A B =
    for_each N 0
      (λ i C.
        for_each N 0
          (λ j C.
            for_each N 0
              (λ k C.
                add_to (index N i j) (product (get_or A (index N i k) 0) (get_or B (index N k j) 0))
                  C)
              (set C (index N i j) 0))
          C)
      C

-- `bit_extract(tmp, 2, 4) * bit_extract(tmp, 5, 7)`
abbrev pub extracted : ℕ → ℕ
extracted tmp = bit_extract tmp 2 4 * bit_extract tmp 5 7

unfoldable pub matrix_mul_matrix_bitextract : (N : ℕ) → (C A B : List ℕ) → List ℕ
matrix_mul_matrix_bitextract N C A B =
    for_each N 0
      (λ i C.
        for_each N 0
          (λ j C.
            for_each N 0
              (λ k C.
                add_to (index N i j)
                  (extracted (product (get_or A (index N i k) 0) (get_or B (index N k j) 0))) C)
              (set C (index N i j) 0))
          C)
      C

-- The variables of `matrix_sum`.
pub record Sum : Type 0 where
  pub tmp : ℕ
  pub prev : ℕ
  pub ret : ℕ

pub sum_cell : (clipval cur : ℕ) → Sum → Sum
sum_cell clipval cur s =
    let tmp = (s.tmp + cur) % 2 ^ 32 in
    if less (extend clipval) tmp
    then record { tmp = 0; prev = cur; ret = (s.ret + 10) % 2 ^ 16 }
    else record {
      tmp = tmp;
      prev = cur;
      ret = (s.ret + (if less s.prev cur then 1 else 0)) % 2 ^ 16;
    }

unfoldable pub matrix_sum : (N : ℕ) → List ℕ → (clipval : ℕ) → ℕ
matrix_sum N C clipval =
    (for_each N 0 (λ i s. for_each N 0 (λ j s. sum_cell clipval (get_or C (index N i j) 0) s) s)
      (record { tmp = 0; prev = 0; ret = 0 })).ret

-- The CRC with `C` and `A` afterwards.
unfoldable pub matrix_test : (N : ℕ) → (C A B : List ℕ) → (val : ℕ) → ℕ × List ℕ × List ℕ
matrix_test N C A B val =
    let clipval = matrix_big val in
    let A1 = matrix_add_const N A val in
    let C1 = matrix_mul_const N C A1 val in
    let crc1 = crc16 (matrix_sum N C1 clipval) 0 in
    let C2 = matrix_mul_vect N C1 A1 B in
    let crc2 = crc16 (matrix_sum N C2 clipval) crc1 in
    let C3 = matrix_mul_matrix N C2 A1 B in
    let crc3 = crc16 (matrix_sum N C3 clipval) crc2 in
    let C4 = matrix_mul_matrix_bitextract N C3 A1 B in
    let crc4 = crc16 (matrix_sum N C4 clipval) crc3 in
    (crc4, C4, matrix_add_const N A1 (negate val))

unfoldable pub core_bench_matrix : (N : ℕ) → (C A B : List ℕ) → (seed crc : ℕ) → ℕ × List ℕ × List ℕ
core_bench_matrix N C A B seed crc = let r = matrix_test N C A B seed in (crc16 r.0 crc, r.1, r.2)
