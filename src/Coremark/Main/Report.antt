-- ===== src/Coremark/Main/Report.antt =====
-- coremark/core_main.c and coremark/core_util.c: the check of the results, and `coremark_main`.
-- What is printed is reduced to the last line, the verdict.
pub mod Valid
use multiplix.Prelude.{
  ℕ, zero, suc, ◌+◌, ◌-◌, ◌*◌, ◌/◌, ◌%◌, ◌^◌, Bool, true, false, ◌&&◌, ◌||◌, Option, none, some,
  List, [], ◌∷◌, ltb, leb, ◌==◌, not, if◌then◌else◌, get_or, ◌>>=◌,
}
use multiplix.Coremark.Crc.{crc16}
use multiplix.Coremark.ListJoin.{Memory}
use multiplix.Coremark.ListJoin.Bench.{Results}
use multiplix.Coremark.Main.{
  iterate, Seeds, read_seeds, default_seeds, executes, data_size, init_list, init_matrix,
  init_state, Clock, time_in_secs, get_time, set_iterations,
}

abbrev pub list_known_crc : List ℕ
list_known_crc = 0xd4b0 ∷ 0x3340 ∷ 0x6a79 ∷ 0xe714 ∷ 0xe3c1 ∷ []

abbrev pub matrix_known_crc : List ℕ
matrix_known_crc = 0xbe52 ∷ 0x1199 ∷ 0x5608 ∷ 0x1fd7 ∷ 0x0747 ∷ []

abbrev pub state_known_crc : List ℕ
state_known_crc = 0x5e47 ∷ 0x39bf ∷ 0xe5a4 ∷ 0x8e3a ∷ 0x8d84 ∷ []

unfoldable pub seedcrc : Results → ℕ
unfolding crc16
seedcrc res = crc16 (res.size % 2 ^ 16) (crc16 res.seed3 (crc16 res.seed2 (crc16 res.seed1 0)))

-- `known_id`, where it is not -1.
unfoldable pub known_id : (seedcrc : ℕ) → Option ℕ
known_id crc =
    if crc == 0x8a02
    then some 0
    else if crc == 0x7b05
    then some 1
    else if crc == 0x4eaf
    then some 2
    else if crc == 0xe9f5
    then some 3
    else if crc == 0x18f2
    then some 4
    else none

-- 1 where an algorithm that ran has another CRC than the known one.
pub mismatch : (execs i crc known : ℕ) → ℕ
unfolding executes
mismatch execs i crc known = if executes execs i && not (crc == known) then 1 else 0

-- `err`
pub err_of : (known : ℕ) → Results → ℕ
unfolding mismatch
err_of k res =
    mismatch res.execs 0 res.crclist (get_or list_known_crc k 0)
    + mismatch res.execs 1 res.crcmatrix (get_or matrix_known_crc k 0)
    + mismatch res.execs 2 res.crcstate (get_or state_known_crc k 0)

-- `sizeof` of the types, the last that of a pointer.
pub record Sizes : Type 0 where
  pub ee_u8 : ℕ
  pub ee_u16 : ℕ
  pub ee_s16 : ℕ
  pub ee_s32 : ℕ
  pub ee_u32 : ℕ
  pub ee_ptr_int : ℕ
  pub pointer : ℕ

unfoldable pub check_data_types : Sizes → ℕ
check_data_types z =
    (if z.ee_u8 == 1 then 0 else 1)
    + (if z.ee_u16 == 2 then 0 else 1)
    + (if z.ee_s16 == 2 then 0 else 1)
    + (if z.ee_s32 == 4 then 0 else 1)
    + (if z.ee_u32 == 4 then 0 else 1)
    + (if z.ee_ptr_int == z.pointer then 0 else 1)

-- `total_errors`, an `ee_s16`: -1 where the seeds are not known.
pub total_errors : (known : Option ℕ) → Results → (types secs : ℕ) → ℕ
unfolding err_of
total_errors none res types secs = (0xffff + types + (if ltb secs 10 then 1 else 0)) % 2 ^ 16
total_errors (some k) res types secs =
    (err_of k res + types + (if ltb secs 10 then 1 else 0)) % 2 ^ 16

pub data Verdict : Type 0 where
  validated errors_detected cannot_validate : Verdict

pub verdict : (total_errors : ℕ) → Verdict
verdict e =
    if e == 0 then validated else if ltb e (2 ^ 15) then errors_detected else cannot_validate

-- The verdict on results, with the seconds that the run took.
unfoldable pub report : Sizes → (secs : ℕ) → Results → Verdict
unfolding seedcrc known_id total_errors verdict check_data_types
report z secs res = verdict (total_errors (known_id (seedcrc res)) res (check_data_types z) secs)

-- What the target gives: the clock with its frequency, the types, the memory's size and address,
-- the address of the local `info`, and the fuel of the loops over lists and of the measuring loop.
pub record Target : Type 0 where
  pub clock : Clock
  pub freq : ℕ
  pub sizes : Sizes
  pub total : ℕ
  pub memblk : ℕ
  pub info : ℕ
  pub fuel : ℕ
  pub measure_rounds : ℕ

-- The results before the inits; the memory of the matrices and of the state machine holds `A`, `B`,
-- `C` and `state`.
pub fresh_results : Seeds → (size : ℕ) → (A B C state : List ℕ) → Results
unfolding default_seeds read_seeds
fresh_results s size A B C state =
    let i = default_seeds (read_seeds s) in
    record {
      seed1 = i.seed1;
      seed2 = i.seed2;
      seed3 = i.seed3;
      size = size;
      iterations = i.iterations;
      execs = i.execs;
      list = 0;
      N = 0;
      A = A;
      B = B;
      C = C;
      state = state;
      crc = 0;
      crclist = 0;
      crcmatrix = 0;
      crcstate = 0;
    }

unfoldable pub coremark_main :
    Target → Seeds → (A B C state : List ℕ) → Memory → Option (Verdict × Results × Memory)
unfolding fresh_results data_size init_list init_matrix init_state set_iterations iterate report
coremark_main t s A B C state m = do
  let i = default_seeds (read_seeds s)
  size ← data_size t.total i.execs
  (res1, m1) ← init_list t.fuel t.info t.memblk (fresh_results s size A B C state) m
  res2 ← init_matrix t.memblk res1
  res3 ← init_state res2
  (at, res4, m2) ← set_iterations t.measure_rounds t.clock t.freq t.fuel t.info res3 m1
  (res5, m3) ← iterate t.fuel t.info res4 m2
  let secs = time_in_secs t.freq (get_time t.clock at)
  some (report t.sizes secs res5, res5, m3)
