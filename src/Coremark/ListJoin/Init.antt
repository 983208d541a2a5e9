-- ===== src/Coremark/ListJoin/Init.antt =====
-- coremark/core_list_join.c: `core_list_init`.
use multiplix.Prelude.{
  ℕ, zero, suc, ◌+◌, ◌-◌, ◌*◌, ◌/◌, ◌%◌, ◌^◌, Option, none, some, ltb, ◌==◌, if◌then◌else◌, bit_and,
  bit_or, bit_xor, ◌>>=◌,
}
use multiplix.Coremark.ListJoin.{
  Memory, Blocks, put, set_next, set_info, set_data16, core_list_insert_new,
}
use multiplix.Coremark.ListJoin.Sort.{cmp_idx, core_list_mergesort}
use multiplix.Coremark.ListJoin.Bench.{no_results}

-- `size`, in an `ee_u32`.
pub list_size : (blksize : ℕ) → ℕ
list_size blksize = (blksize / 20 + (2 ^ 32 - 2)) % 2 ^ 32

-- `info.data16` for item `i`.
pub item_data : (seed i : ℕ) → ℕ
item_data seed i =
    let datpat = bit_xor (seed % 16) (i % 16) in
    let dat = bit_or (datpat * 8) (i % 8) in bit_or (dat * 2 ^ 8) dat

-- Inserts `rounds` items, from item `i` on; `info` is the address of the local variable.
pub insert_loop :
    (rounds i seed list info memblock_end datablock_end : ℕ) → Blocks → Memory → Blocks × Memory
unfolding core_list_insert_new item_data
insert_loop zero i seed list info memblock_end datablock_end b m = (b, m)
insert_loop (suc n) i seed list info memblock_end datablock_end b m =
    let r =
      core_list_insert_new list info memblock_end datablock_end b
        (set_data16 info (item_data seed i) m) in
    insert_loop n (i + 1) seed list info memblock_end datablock_end r.1 r.2

-- `finder->info->idx` of the item with number `i`.
pub item_idx : (size seed i : ℕ) → ℕ
item_idx size seed i =
    if ltb i (size / 5)
    then i % 2 ^ 16
    else (let pat = bit_xor (i % 2 ^ 16) seed in bit_and 0x3fff (bit_or ((i + 1) % 8 * 2 ^ 8) pat))

-- `while (finder->next != NULL)`
pub index_loop : (fuel size seed i finder : ℕ) → Memory → Option Memory
unfolding item_idx
index_loop zero size seed i finder m = none
index_loop (suc f) size seed i finder m =
    let rest =
      index_loop f size seed ((i + 1) % 2 ^ 32) (m.next finder)
        (record m { idx = put m.idx (m.info finder) (item_idx size seed i) }) in
    if m.next finder == 0 then some m else rest

-- The head of the list, and memory.
unfoldable pub core_list_init : (fuel info blksize memblock seed : ℕ) → Memory → Option (ℕ × Memory)
unfolding insert_loop index_loop core_list_mergesort
core_list_init fuel info blksize memblock seed m = do
  let size = list_size blksize
  let memblock_end = memblock + size * 16
  let datablock_end = memblock_end + size * 4
  let m1 = set_info memblock memblock_end (set_next memblock 0 m)
  let m2 = record m1 {
    data16 = put (put m1.data16 memblock_end 0x8080) info 0xffff;
    idx = put (put m1.idx memblock_end 0) info 0x7fff;
  }
  let tail =
      core_list_insert_new memblock info memblock_end datablock_end
        (record { memblock = memblock + 16; datablock = memblock_end + 4 }) m2
  let (b, m3) = insert_loop size 0 seed memblock info memblock_end datablock_end tail.1 tail.2
  m4 ← index_loop fuel size seed 1 (m3.next memblock) m3
  (list, res, m5) ← core_list_mergesort cmp_idx fuel memblock no_results m4
  some (list, m5)
