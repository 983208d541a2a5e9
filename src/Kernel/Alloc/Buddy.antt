-- ===== src/Kernel/Alloc/Buddy.antt =====
-- src/plix/alloc/buddy.d: the buddy allocator, with the links of its free lists in the free blocks
-- themselves. Pointers are addresses, and null is 0.
pub mod Chain
pub mod Cover
pub mod State
pub mod Insert
pub mod Take
pub mod Halves
pub mod Allocate
pub mod Dealloc
pub mod Order
pub mod Laws
pub mod Cycle
use multiplix.Prelude.{
  ℕ, zero, suc, ◌+◌, ◌-◌, ◌*◌, ◌/◌, ◌%◌, ◌^◌, Bool, true, false, Option, none, some, List, [], ◌∷◌,
  length, get_or, set, bit_xor, ltb, leb, ◌==◌, if◌then◌else◌, min, max,
}
use multiplix.Kernel.Math.{log2ceil, pow2ceil}

-- `next` is the field `next` of the `FreeBlock` at each address, which takes the 8 bytes from there
-- on: links of blocks of 8 bytes or more do not overlap. `N` is the number of free lists.
pub record BuddyAlloc : Type 0 where
  pub heap : ℕ
  pub heap_length : ℕ
  pub free_lists : List ℕ
  pub min_block_size : ℕ
  pub min_block_size_log2 : ℕ
  pub next : ℕ → ℕ

-- `N - 1`
abbrev pub last : BuddyAlloc → ℕ
last b = length b.free_lists - 1

-- Writes a `FreeBlock`.
abbrev pub poke : (ℕ → ℕ) → ℕ → ℕ → ℕ → ℕ
poke next a v x = if x == a then v else next x

unfoldable pub initialize : (heap heap_length : ℕ) → BuddyAlloc → BuddyAlloc
initialize heap heap_length b =
    let min_size = heap_length / 2 ^ last b in
    record {
      heap = heap;
      heap_length = heap_length;
      free_lists = set b.free_lists (last b) heap;
      min_block_size = min_size;
      min_block_size_log2 = log2ceil min_size;
      next = b.next;
    }

-- `none` is a failed assertion or a loop that does not end, `some none` is the result `false`, and
-- `some (some size)` is `true` with the new `size`.
unfoldable pub allocation_size : BuddyAlloc → (size align_ : ℕ) → Option (Option ℕ)
allocation_size b size align_ =
    if leb align_ 4096
    then elim (pow2ceil (max (if ltb size align_ then align_ else size) b.min_block_size)) [
      | none ↦ none
      | some s ↦ some (if ltb b.heap_length s then none else some s)
    ]
    else none

unfoldable pub allocation_order : BuddyAlloc → (size align_ : ℕ) → Option (Option ℕ)
allocation_order b size align_ = elim (allocation_size b size align_) [
  | none ↦ none
  | some none ↦ some none
  | some (some s) ↦ some (some (log2ceil s - b.min_block_size_log2))
]

-- `1 << n` is a shift of a 32-bit `int`, which is then extended with its sign.
unfoldable pub order_size : BuddyAlloc → ℕ → ℕ
order_size b order =
    let bits = 2 ^ (b.min_block_size_log2 + order) % 2 ^ 32 in
    if ltb bits (2 ^ 31) then bits else bits + (2 ^ 64 - 2 ^ 32)

unfoldable pub free_list_pop : ℕ → BuddyAlloc → ℕ × BuddyAlloc
free_list_pop order b =
    let fb = get_or b.free_lists order 0 in
    if fb == 0 then (0, b) else (
      fb,
      record b { free_lists = set b.free_lists order (if order == last b then 0 else b.next fb) },
    )

unfoldable pub free_list_insert : (order block : ℕ) → BuddyAlloc → BuddyAlloc
free_list_insert order block b = record b {
  next = poke b.next block (get_or b.free_lists order 0);
  free_lists = set b.free_lists order block;
}

-- What `checking` points to: a head, or the `next` field of a block.
pub data Cell : Type 0 where
  head next_of : ℕ → Cell

abbrev pub read : BuddyAlloc → Cell → ℕ
read b (head order) = get_or b.free_lists order 0
read b (next_of block) = b.next block

abbrev pub write : Cell → ℕ → BuddyAlloc → BuddyAlloc
write (head order) v b = record b { free_lists = set b.free_lists order v }
write (next_of block) v b = record b { next = poke b.next block v }

-- `none` when the loop is out of fuel.
unfoldable pub remove_loop :
    (fuel : ℕ) → Cell → (block : ℕ) → BuddyAlloc → Option (Bool × BuddyAlloc)
remove_loop zero checking block b = none
remove_loop (suc f) checking block b =
    let rest = remove_loop f (next_of (read b checking)) block b in
    if read b checking == 0
    then some (false, b)
    else if read b checking == block
    then some (true, write checking (b.next block) b)
    else rest

-- One round for each byte of the heap and one more: a list has no more blocks than the heap bytes.
unfoldable pub free_list_remove : (order block : ℕ) → BuddyAlloc → Option (Bool × BuddyAlloc)
free_list_remove order block b = remove_loop (suc b.heap_length) (head order) block b

-- The loop with `order - order_needed` rounds left.
unfoldable pub split_loop : (rounds : ℕ) → (block size order : ℕ) → BuddyAlloc → BuddyAlloc
split_loop zero block size order b = b
split_loop (suc n) block size order b =
    split_loop n block (size / 2) (order - 1) (free_list_insert (order - 1) (block + size / 2) b)

unfoldable pub split_free_block : (block order order_needed : ℕ) → BuddyAlloc → BuddyAlloc
split_free_block block order order_needed b =
    split_loop (order - order_needed) block (order_size b order) order b

-- 0 where there is no buddy; `none` where the assertion fails.
unfoldable pub buddy : BuddyAlloc → (order block : ℕ) → Option ℕ
buddy b order block =
    if leb b.heap block
    then some (
        if leb b.heap_length (order_size b order)
        then 0
        else b.heap + bit_xor (block - b.heap) (order_size b order))
    else none

abbrev pub alignment : ℕ → ℕ
alignment size = if leb 4096 size then 4096 else 16

-- `foreach (order; order_needed .. free_lists.length)` of `allocate`, with the orders that are left.
unfoldable pub find_loop : (rounds order order_needed : ℕ) → BuddyAlloc → ℕ × BuddyAlloc
find_loop zero order order_needed b = (0, b)
find_loop (suc n) order order_needed b =
    let popped = free_list_pop order b in
    let rest = find_loop n (suc order) order_needed popped.1 in
    if popped.0 == 0 then rest else (
      popped.0,
      if ltb order_needed order
          then split_free_block popped.0 order order_needed popped.1
          else popped.1,
    )

unfoldable pub allocate : (size align_ : ℕ) → BuddyAlloc → Option (ℕ × BuddyAlloc)
allocate size align_ b = elim (allocation_order b size align_) [
  | none ↦ none
  | some none ↦ some (0, b)
  | some (some order) ↦ some (find_loop (length b.free_lists - order) order order b)
]

-- `alloc`: the slice is the address that comes back with `size`.
unfoldable pub alloc : ℕ → BuddyAlloc → Option (ℕ × BuddyAlloc)
alloc size b = allocate size (alignment size) b

-- `foreach (order; initial_order .. free_lists.length)` of `dealloc`, with the orders that are left.
unfoldable pub merge_loop : (rounds order block : ℕ) → BuddyAlloc → Option BuddyAlloc
merge_loop zero order block b = some b
merge_loop (suc n) order block b = elim (buddy b order block) [
  | none ↦ none
  | some bud ↦ elim (if bud == 0 then some (false, b) else free_list_remove order bud b) [
    | none ↦ none
    | some (true, b') ↦ merge_loop n (suc order) (min block bud) b'
    | some (false, b') ↦ some (free_list_insert order block b')
  ]
]

-- `ensure` fails where there is no order for the size.
unfoldable pub dealloc : (ptr size align_ : ℕ) → BuddyAlloc → Option BuddyAlloc
dealloc ptr size align_ b = elim (allocation_order b size align_) [
  | none ↦ none
  | some none ↦ none
  | some (some order) ↦ merge_loop (length b.free_lists - order) order ptr b
]

unfoldable pub free : (ptr size : ℕ) → BuddyAlloc → Option BuddyAlloc
free ptr size b = dealloc ptr size (alignment size) b
