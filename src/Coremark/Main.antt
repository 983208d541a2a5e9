-- ===== src/Coremark/Main.antt =====
-- coremark/core_main.c, coremark/core_util.c and coremark/multiplix/core_portme.c: the run of the
-- benchmark and its verdict, on one context with static memory and without floating point. The
-- clock, its frequency and the sizes of the types are parameters: they are the target's.
pub mod Report
use multiplix.Prelude.{
  drop, ℕ, zero, suc, ◌+◌, ◌-◌, ◌*◌, ◌/◌, ◌%◌, ◌^◌, Bool, true, false, ◌&&◌, ◌||◌, Option, none,
  some, List, [], ◌∷◌, ltb, leb, ◌==◌, not, if◌then◌else◌, bit_and, bit_or, get_or, ◌>>=◌,
}
use multiplix.Coremark.Crc.{crc16, crcu16}
use multiplix.Coremark.State.Init.{core_init_state}
use multiplix.Coremark.Matrix.Init.{core_init_matrix, MatParams, area}
use multiplix.Coremark.ListJoin.{Memory}
use multiplix.Coremark.ListJoin.Bench.{Results, core_bench_list}
use multiplix.Coremark.ListJoin.Init.{core_list_init}

-- The loop of `iterate`: the iterations that are left, from `i` on.
pub iterate_loop : (iterations i fuel info : ℕ) → Results → Memory → Option (Results × Memory)
unfolding core_bench_list
iterate_loop zero i fuel info res m = some (res, m)
iterate_loop (suc n) i fuel info res m = do
  (crc, res1, m1) ← core_bench_list fuel info 1 res m
  let res2 = record res1 { crc = crcu16 crc res1.crc }
  (crc', res3, m2) ← core_bench_list fuel info 0xffff res2 m1
  let res4 = record res3 { crc = crcu16 crc' res3.crc }
  iterate_loop n (i + 1) fuel info
      (record res4 { crclist = if i == 0 then res4.crc else res4.crclist }) m2

unfoldable pub iterate : (fuel info : ℕ) → Results → Memory → Option (Results × Memory)
unfolding iterate_loop
iterate fuel info res m =
    iterate_loop res.iterations 0 fuel info
      (record res { crc = 0; crclist = 0; crcmatrix = 0; crcstate = 0 }) m

-- `seed1_volatile` to `seed5_volatile`.
pub record Seeds : Type 0 where
  pub seed1_volatile : ℕ
  pub seed2_volatile : ℕ
  pub seed3_volatile : ℕ
  pub seed4_volatile : ℕ
  pub seed5_volatile : ℕ

pub get_seed_32 : Seeds → ℕ → ℕ
get_seed_32 s i =
    if i == 1
    then s.seed1_volatile
    else if i == 2
    then s.seed2_volatile
    else if i == 3
    then s.seed3_volatile
    else if i == 4
    then s.seed4_volatile
    else if i == 5
    then s.seed5_volatile
    else 0

-- The seeds of a run.
pub record Inputs : Type 0 where
  pub seed1 : ℕ
  pub seed2 : ℕ
  pub seed3 : ℕ
  pub iterations : ℕ
  pub execs : ℕ

pub read_seeds : Seeds → Inputs
unfolding get_seed_32
read_seeds s = record {
  seed1 = get_seed_32 s 1 % 2 ^ 16;
  seed2 = get_seed_32 s 2 % 2 ^ 16;
  seed3 = get_seed_32 s 3 % 2 ^ 16;
  iterations = get_seed_32 s 4;
  execs = if get_seed_32 s 5 == 0 then 7 else get_seed_32 s 5;
}

-- `seed1 == a` with the other two zero.
pub only_seed1 : (a : ℕ) → Inputs → Bool
only_seed1 a i = i.seed1 == a && (i.seed2 == 0 && i.seed3 == 0)

-- The defaults for a performance and a validation run.
pub default_seeds : Inputs → Inputs
unfolding only_seed1
default_seeds i =
    let i1 = if only_seed1 0 i then record i { seed1 = 0; seed2 = 0; seed3 = 0x66 } else i in
    if only_seed1 1 i1 then record i1 { seed1 = 0x3415; seed2 = 0x3415; seed3 = 0x66 } else i1

-- Whether `execs` has the bit of an algorithm: 0 is the list, 1 the matrix, 2 the state machine.
pub executes : (execs i : ℕ) → Bool
executes execs i = execs / 2 ^ i % 2 == 1

pub num_algorithms : (execs : ℕ) → ℕ
unfolding executes
num_algorithms execs =
    (if executes execs 0 then 1 else 0)
    + (if executes execs 1 then 1 else 0)
    + (if executes execs 2 then 1 else 0)

-- The data that an algorithm gets, of `TOTAL_DATA_SIZE` bytes; `none` divides by zero.
pub data_size : (total execs : ℕ) → Option ℕ
unfolding num_algorithms
data_size total execs = let n = num_algorithms execs in if n == 0 then none else some (total / n)

-- `memblock[i + 1]`, behind the blocks of the algorithms before it.
pub memblock_of : (memblk size execs i : ℕ) → ℕ
unfolding executes
memblock_of memblk size execs zero = memblk
memblock_of memblk size execs (suc i) =
    memblock_of memblk size execs i + (if executes execs i then size else 0)

-- `(ee_s32)seed1 | (((ee_s32)seed2) << 16)`
pub matrix_seed : (seed1 seed2 : ℕ) → ℕ
matrix_seed seed1 seed2 =
    bit_or (if ltb seed1 (2 ^ 15) then seed1 else seed1 + (2 ^ 32 - 2 ^ 16))
      (seed2 * 2 ^ 16 % 2 ^ 32)

-- The three inits; `res` comes with the memory of the matrices and of the state machine.
pub init_list : (fuel info memblk : ℕ) → Results → Memory → Option (Results × Memory)
unfolding core_list_init executes memblock_of
init_list fuel info memblk res m =
    if executes res.execs 0
    then (core_list_init fuel info res.size (memblock_of memblk res.size res.execs 0) res.seed1 m
        >>= λ r. some (record res { list = r.0 }, r.1))
    else some (res, m)

-- `res.A` is the memory from A on before; B begins behind the cells of A.
pub init_matrix : (memblk : ℕ) → Results → Option Results
unfolding core_init_matrix executes memblock_of
init_matrix memblk res =
    if executes res.execs 1
    then (core_init_matrix res.size (memblock_of memblk res.size res.execs 1)
          (matrix_seed res.seed1 res.seed2) res.A
        >>= λ p. some (record res { N = p.N; A = p.cells; B = drop (area p.N) p.cells }))
    else some res

pub init_state : Results → Option Results
unfolding core_init_state executes
init_state res =
    if executes res.execs 2
    then (core_init_state res.size res.seed1 res.state >>= λ s. some (record res { state = s }))
    else some res

-- A reading of the clock is the next of its values. `get_time` of two readings, in seconds.
abbrev pub Clock : Type 0
Clock = ℕ → ℕ

pub time_in_secs : (freq ticks : ℕ) → ℕ
time_in_secs freq ticks = ticks / freq

pub get_time : Clock → (start : ℕ) → ℕ
get_time clock start = (clock (start + 1) + (2 ^ 32 - clock start)) % 2 ^ 32

-- `while (secs_passed < 1)` from the clock's reading `at` on: the iterations ten times as many in
-- each round, and the seconds of the last.
pub measure_loop :
    (rounds : ℕ)
    → Clock
    → (freq at fuel info : ℕ) → Results
    → Memory
    → Option (ℕ × ℕ × Results × Memory)
unfolding iterate time_in_secs get_time
measure_loop zero clock freq at fuel info res m = none
measure_loop (suc n) clock freq at fuel info res m =
    iterate fuel info (record res { iterations = res.iterations * 10 % 2 ^ 32 }) m >>= λ r.
    let secs = time_in_secs freq (get_time clock at) in
    elim (ltb secs 1) [
      | true ↦ measure_loop n clock freq (at + 2) fuel info r.0 r.1
      | false ↦ some (secs, at + 2, r.0, r.1)
    ]

pub set_iterations :
    (rounds : ℕ) → Clock → (freq fuel info : ℕ) → Results → Memory → Option (ℕ × Results × Memory)
unfolding measure_loop
set_iterations rounds clock freq fuel info res m = elim (res.iterations == 0) [
  | false ↦ some (0, res, m)
  | true ↦ measure_loop rounds clock freq 0 fuel info (record res { iterations = 1 }) m >>= λ r.
      let divisor = if r.0 == 0 then 1 else r.0 in
      some (r.1, record r.2 { iterations = r.2.iterations * (1 + 10 / divisor) % 2 ^ 32 }, r.3)
]
