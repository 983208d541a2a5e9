-- ===== src/Coremark/ListJoin/Bench.antt =====
-- coremark/core_list_join.c: `calc_func`, the list benchmark and the list that it works on. The
-- matrices and the block of the state machine lie apart from the list. `none` is out of fuel, or
-- undefined behaviour of a benchmark.
use multiplix.Prelude.{
  ℕ, zero, suc, ◌+◌, ◌-◌, ◌*◌, ◌/◌, ◌%◌, ◌^◌, Bool, true, false, ◌&&◌, Option, none, some, List,
  ltb, leb, ◌==◌, not, if◌then◌else◌, bit_and, bit_or, ◌>>=◌,
}
use multiplix.Coremark.Crc.{crc16, crcu16}
use multiplix.Coremark.State.{core_bench_state}
use multiplix.Coremark.Matrix.{core_bench_matrix}
use multiplix.Coremark.ListJoin.{
  Memory, put, set_next, set_data16, core_list_remove, core_list_undo_remove, core_list_find,
  core_list_reverse,
}
use multiplix.Coremark.ListJoin.Sort.{ListCmp, cmp_idx, core_list_mergesort}

-- `core_results`, with the contents of the matrices and of `memblock[3]`.
pub record Results : Type 0 where
  pub seed1 : ℕ
  pub seed2 : ℕ
  pub seed3 : ℕ
  pub size : ℕ
  pub iterations : ℕ
  pub execs : ℕ
  pub list : ℕ
  pub N : ℕ
  pub A : List ℕ
  pub B : List ℕ
  pub C : List ℕ
  pub state : List ℕ
  pub crc : ℕ
  pub crclist : ℕ
  pub crcmatrix : ℕ
  pub crcstate : ℕ

-- Bits 3 to 6, twice.
abbrev pub dtype_of : ℕ → ℕ
dtype_of data16 = let d = data16 / 8 % 16 in bit_or d (d * 16)

pub run_state : (dtype : ℕ) → Results → Option (ℕ × Results)
run_state dtype res = do
  (retval, state) ←
      core_bench_state res.size res.state res.seed1 res.seed2
        (if ltb dtype 0x22 then 0x22 else dtype) res.crc
  some (
    retval,
    record res { state = state; crcstate = if res.crcstate == 0 then retval else res.crcstate },
  )

pub run_matrix : (dtype : ℕ) → Results → ℕ × Results
run_matrix dtype res =
    let r = core_bench_matrix res.N res.C res.A res.B dtype res.crc in
    (
      r.0,
      record res {
        C = r.1;
        A = r.2;
        crcmatrix = if res.crcmatrix == 0 then r.0 else res.crcmatrix;
      },
    )

-- The switch on the function of the item.
pub run_func : (data16 : ℕ) → Results → Option (ℕ × Results)
run_func data16 res =
    if data16 % 8 == 0
    then run_state (dtype_of data16) res
    else if data16 % 8 == 1
    then some (run_matrix (dtype_of data16) res)
    else some (data16, res)

-- The result, with bit 7 of the item set and the result in its lower bits.
unfoldable pub calc_func : (pdata : ℕ) → Results → Memory → Option (ℕ × Results × Memory)
unfolding run_func run_state run_matrix
calc_func pdata res m =
    let data16 = m.data16 pdata in
    elim (data16 / 2 ^ 7 % 2 == 1) [
      | true ↦ some (bit_and data16 0x007f, res, m)
      | false ↦ run_func data16 res >>= λ r.
          let retval = bit_and r.0 0x007f in
          some (
            retval,
            record r.1 { crc = crcu16 r.0 r.1.crc },
            set_data16 pdata (bit_or (bit_or (bit_and data16 0xff00) 0x0080) retval) m,
          )
    ]

-- The values are not negative, and a null `res` is undefined.
unfoldable pub cmp_complex : ListCmp (Option Results)
unfolding calc_func
cmp_complex a b none m = none
cmp_complex a b (some res) m = do
  (val1, res1, m1) ← calc_func a res m
  (val2, res2, m2) ← calc_func b res1 m1
  some (leb val1 val2, some res2, m2)

-- The variables of the loop that finds items.
pub record Finds : Type 0 where
  pub list : ℕ
  pub retval : ℕ
  pub found : ℕ
  pub missed : ℕ

-- `core_list_find` did not find the item.
pub find_miss : Finds → Memory → Finds
find_miss s m = record s {
  missed = (s.missed + 1) % 2 ^ 16;
  retval = (s.retval + m.data16 (m.info (m.next s.list)) / 2 ^ 8 % 2) % 2 ^ 16;
}

-- It found `item`, and the item after it goes behind the head of the list.
pub find_hit : (item : ℕ) → Finds → Memory → Finds × Memory
find_hit item s m =
    let data16 = m.data16 (m.info item) in
    let s' = record s {
      found = (s.found + 1) % 2 ^ 16;
      retval = if data16 % 2 == 1 then (s.retval + data16 / 2 ^ 9 % 2) % 2 ^ 16 else s.retval;
    } in
    let finder = m.next item in
    let m1 = set_next item (m.next finder) m in
    let m2 = set_next finder (m1.next s.list) m1 in
    (s', (if finder == 0 then m else set_next s.list finder m2))

-- One round; `info` is the address of the local variable.
pub find_round : (fuel info i : ℕ) → Finds → Memory → Option (Finds × Memory)
unfolding find_miss find_hit
find_round fuel info i s m = do
  let m1 = set_data16 info (i % 2 ^ 8) m
  this_find ← core_list_find fuel s.list info m1
  (list, m2) ← core_list_reverse fuel s.list m1
  let s1 = record s { list = list }
  let r = if this_find == 0 then (find_miss s1 m2, m2) else find_hit this_find s1 m2
  let idx = r.1.idx info
  some (
    r.0,
    (if ltb idx (2 ^ 15) then record r.1 { idx = put r.1.idx info ((idx + 1) % 2 ^ 16) } else r.1),
  )

-- The rounds that are left, from `i` on.
pub find_rounds : (rounds fuel info i : ℕ) → Finds → Memory → Option (Finds × Memory)
unfolding find_round
find_rounds zero fuel info i s m = some (s, m)
find_rounds (suc n) fuel info i s m =
    find_round fuel info i s m >>= λ r. find_rounds n fuel info (i + 1) r.0 r.1

-- `while (finder)`: a CRC of the data of `list`, for each item from `finder` on.
pub crc_loop : (fuel finder list retval : ℕ) → Memory → Option ℕ
crc_loop zero finder list retval m = none
crc_loop (suc f) finder list retval m =
    let rest = crc_loop f (m.next finder) list (crc16 (m.data16 (m.info list)) retval) m in
    if finder == 0 then some retval else rest

-- `finder_idx > 0`
abbrev pub is_positive : ℕ → Bool
is_positive x = not (x == 0) && ltb x (2 ^ 15)

abbrev pub no_results : Option Results
no_results = none

-- The sort by content, on the side of the first call.
pub sort_content : (fuel finder_idx list : ℕ) → Results → Memory → Option (ℕ × Results × Memory)
unfolding cmp_complex core_list_mergesort
sort_content fuel finder_idx list res m =
    if is_positive finder_idx
    then (core_list_mergesort cmp_complex fuel list (some res) m >>= λ r. elim r.1 [
      | none ↦ none
      | some res' ↦ some (r.0, res', r.2)
    ])
    else some (list, res, m)

-- The result of the benchmark, and what it leaves.
unfoldable pub core_bench_list :
    (fuel info finder_idx : ℕ) → Results → Memory → Option (ℕ × Results × Memory)
unfolding find_rounds crc_loop sort_content
core_bench_list fuel info finder_idx res m = do
  let m0 = record m { data16 = put m.data16 info 0; idx = put m.idx info finder_idx }
  (s, m1) ←
      find_rounds (if ltb res.seed3 (2 ^ 15) then res.seed3 else 0) fuel info 0
        (record { list = res.list; retval = 0; found = 0; missed = 0 }) m0
  let retval = (s.retval + (s.found * 4 + (2 ^ 16 - s.missed))) % 2 ^ 16
  (list, res1, m2) ← sort_content fuel finder_idx s.list res m1
  (remover, m3) ← core_list_remove (m2.next list) m2
  finder ← core_list_find fuel list info m3
  retval1 ← crc_loop fuel (if finder == 0 then m3.next list else finder) list retval m3
  (remover', m4) ← core_list_undo_remove remover (m3.next list) m3
  (list', res2, m5) ← core_list_mergesort cmp_idx fuel list no_results m4
  retval2 ← crc_loop fuel (m5.next list') list' retval1 m5
  some (retval2, res1, m5)
