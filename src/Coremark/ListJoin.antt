-- ===== src/Coremark/ListJoin.antt =====
-- coremark/core_list_join.c: the list operations on the memory that the cells and their data lie
-- in. Pointers are addresses, NULL is 0, and an `ee_s16` is its 16-bit pattern.
pub mod Laws
pub mod Sort
pub mod Bench
pub mod Init
pub mod Find
use multiplix.Prelude.{
  ℕ, zero, suc, ◌+◌, ◌-◌, ◌*◌, ◌/◌, ◌%◌, ◌^◌, Bool, true, false, ◌&&◌, ◌||◌, Option, none, some,
  ltb, leb, ◌==◌, not, if◌then◌else◌, bit_and, bit_or,
}

-- The fields `next` and `info` of the `list_head`s, and `data16` and `idx` of the `list_data`.
pub record Memory : Type 0 where
  pub next : ℕ → ℕ
  pub info : ℕ → ℕ
  pub data16 : ℕ → ℕ
  pub idx : ℕ → ℕ

abbrev pub put : (ℕ → ℕ) → ℕ → ℕ → ℕ → ℕ
put f a v x = if x == a then v else f x

abbrev pub set_next : ℕ → ℕ → Memory → Memory
set_next p v m = record m { next = put m.next p v }

abbrev pub set_info : ℕ → ℕ → Memory → Memory
set_info p v m = record m { info = put m.info p v }

abbrev pub set_data16 : ℕ → ℕ → Memory → Memory
set_data16 p v m = record m { data16 = put m.data16 p v }

unfoldable pub copy_info : (to from : ℕ) → Memory → Memory
copy_info to from m = record m {
  data16 = put m.data16 to (m.data16 from);
  idx = put m.idx to (m.idx from);
}

-- `*memblock` and `*datablock`; the sizes of a `list_head` and a `list_data` are 16 and 4.
pub record Blocks : Type 0 where
  pub memblock : ℕ
  pub datablock : ℕ

-- The new item or NULL.
unfoldable pub core_list_insert_new :
    (insert_point info memblock_end datablock_end : ℕ) → Blocks → Memory → ℕ × Blocks × Memory
core_list_insert_new insert_point info memblock_end datablock_end b m =
    if leb memblock_end (b.memblock + 16)
    then (0, b, m)
    else if leb datablock_end (b.datablock + 4)
    then (0, b, m)
    else let newitem = b.memblock in
      let m1 = set_next newitem (m.next insert_point) m in
      let m2 = set_next insert_point newitem m1 in
      let m3 = set_info newitem b.datablock m2 in
      (
        newitem,
        record { memblock = b.memblock + 16; datablock = b.datablock + 4 },
        copy_info (m3.info newitem) info m3,
      )

-- The removed item, which holds the data of `item`.
abbrev pub unlink : (item ret : ℕ) → Memory → Memory
unlink item ret m =
    let tmp = m.info item in
    let m1 = set_info item (m.info ret) m in
    let m2 = set_info ret tmp m1 in
    let m3 = set_next item (m2.next (m2.next item)) m2 in set_next ret 0 m3

-- `none` is a null pointer that is read or written through, here and below.
unfoldable pub core_list_remove : (item : ℕ) → Memory → Option (ℕ × Memory)
core_list_remove item m =
    if item == 0 || m.next item == 0 then none else some (m.next item, unlink item (m.next item) m)

abbrev pub link_back : (item_removed item_modified : ℕ) → Memory → Memory
link_back item_removed item_modified m =
    let tmp = m.info item_removed in
    let m1 = set_info item_removed (m.info item_modified) m in
    let m2 = set_info item_modified tmp m1 in
    let m3 = set_next item_removed (m2.next item_modified) m2 in
    set_next item_modified item_removed m3

unfoldable pub core_list_undo_remove :
    (item_removed item_modified : ℕ) → Memory → Option (ℕ × Memory)
core_list_undo_remove item_removed item_modified m =
    if item_removed == 0 || item_modified == 0
    then none
    else some (item_removed, link_back item_removed item_modified m)

-- Both loops of `core_list_find`, by the test that ends them. `none` is out of fuel.
pub find_from : (fuel : ℕ) → (found : ℕ → Bool) → (list : ℕ) → Memory → Option ℕ
find_from zero found list m = none
find_from (suc f) found list m =
    let rest = find_from f found (m.next list) m in
    if list == 0 then some 0 else if found (m.info list) then some list else rest

-- `info->idx >= 0` is a pattern below `2 ^ 15`.
unfoldable pub core_list_find : (fuel list info : ℕ) → Memory → Option ℕ
core_list_find fuel list info m =
    if ltb (m.idx info) (2 ^ 15)
    then find_from fuel (λ d. m.idx d == m.idx info) list m
    else find_from fuel (λ d. m.data16 d % 2 ^ 8 == m.data16 info) list m

pub reverse_loop : (fuel : ℕ) → (list next : ℕ) → Memory → Option (ℕ × Memory)
reverse_loop zero list next m = none
reverse_loop (suc f) list next m =
    let rest = reverse_loop f (m.next list) list (set_next list next m) in
    if list == 0 then some (next, m) else rest

unfoldable pub core_list_reverse : (fuel list : ℕ) → Memory → Option (ℕ × Memory)
core_list_reverse fuel list m = reverse_loop fuel list 0 m
