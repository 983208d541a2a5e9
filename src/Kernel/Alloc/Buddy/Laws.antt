-- ===== src/Kernel/Alloc/Buddy/Laws.antt =====
-- `initialize`, `alloc` and `free` of src/plix/alloc/buddy.d.
use native.Mathlib.Nat.{le_refl, pow-le-pow_right}
use native.Mathlib.Decide.{ℕ_discrete}
use multiplix.Prelude.{
  ℕ, ◌+◌, ◌-◌, ◌^◌, ◌≤◌, ◌<◌, ◌≡◌, ◌≢◌, ◌⊎◌, refl, ◌∙◌, ap, arith, some, none, List, [], length,
  get_or, leb, ltb, Bool-cases, inl, inr,
}
use multiplix.Kernel.Alloc.Buddy.{
  BuddyAlloc, last, allocation_order, find_loop, merge_loop, allocate, alloc, alignment, dealloc,
  free,
}
use multiplix.Kernel.Alloc.Buddy.Cover.{covered-le}
use multiplix.Kernel.Alloc.Buddy.Chain.{Chain-links}
use multiplix.Kernel.Alloc.Buddy.State.{bytes, free_at, IsHeap}
use multiplix.Kernel.Alloc.Buddy.Insert.{IsBlock}
use multiplix.Kernel.Alloc.Buddy.Allocate.{Given, find_loop-Found}
use multiplix.Kernel.Alloc.Buddy.Dealloc.{Returned, merge_loop-Returned}
use multiplix.Kernel.Alloc.Buddy.Order.{wanted, allocation_order-Ordered}

-- What `alloc` did for a request that wants `n` bytes: it gave out a block of the least order that
-- holds them, or there is no such block and nothing has changed.
abbrev pub Served : (n : ℕ) → BuddyAlloc → List (List ℕ) → ℕ × BuddyAlloc → Type 0
Served n b ls r =
    ((r.0 ≡ 0)
      × (r.1 ≡ b)
      × ((j : ℕ) → j < length b.free_lists → n ≤ bytes b j → get_or ls j [] ≡ []))
    ⊎ ((r.0 ≢ 0)
        × ((o : ℕ) × Given o r.0 b ls r.1 × (n ≤ bytes b o) × ((j : ℕ) → j < o → bytes b j < n)))

bytes_mono : (b : BuddyAlloc) (j i : ℕ) → j ≤ i → bytes b j ≤ bytes b i
bytes_mono b j i h =
    pow-le-pow_right {n = 2} (omega arith) {i = b.min_block_size_log2 + j}
      {j = b.min_block_size_log2 + i} (omega arith)

allocate-none :
    (b : BuddyAlloc) (size align_ : ℕ)
    → allocation_order b size align_ ≡ some none
    → allocate size align_ b ≡ some (0, b)
unfolding allocate
allocate-none b size align_ e = rw (e, allocate) refl

allocate-some :
    (b : BuddyAlloc) (size align_ o : ℕ)
    → allocation_order b size align_ ≡ some (some o)
    → allocate size align_ b ≡ some (find_loop (length b.free_lists - o) o o b)
unfolding allocate
allocate-some b size align_ o e = rw (e, allocate) refl

alignment-le : (size : ℕ) → alignment size ≤ 4096
alignment-le size = ground arith

-- On a well-formed heap, for a size of at most `2 ^ 63` bytes, `alloc` returns. Either the address
-- is null, the state is as before and every free list whose blocks would hold the size, its
-- alignment and the least block is empty; or the address is that of a block of the least order
-- that holds them, the heap is well formed again, the block starts at a multiple of its size from
-- the heap's start, and of the bytes that were free before exactly the block's are free no longer.
pub alloc-Served :
    (size : ℕ) (b : BuddyAlloc) (ls : List (List ℕ))
    → IsHeap b ls
    → size ≤ 2 ^ 63
    → (r : ℕ × BuddyAlloc) × (alloc size b ≡ some r)
      × Served (wanted b size (alignment size)) b ls r
unfolding alloc
alloc-Served size b ls w fits =
    elim (allocation_order-Ordered b ls size (alignment size) w (alignment-le size) fits) [
      | inl (e, short) ↦ (
        (0, b),
        allocate-none b size (alignment size) e,
        inl (
          refl,
          refl,
          λ j lt holds.
              absurd (omega (arith, short, w.whole, bytes_mono b j (last b) (omega arith))),
        ),
      )
      | inr (o, e, lt, holds, least) ↦ (
        find_loop (length b.free_lists - o) o o b,
        allocate-some b size (alignment size) o e,
        elim (find_loop-Found (length b.free_lists - o) o o b ls w (le_refl o) (omega arith)) [
          | inl (z, same, none_left) ↦ inl (
            z,
            same,
            λ j below enough. elim (Bool-cases (leb o j)) [
              | inl above ↦ none_left j (ground arith) below
              | inr under ↦ absurd (omega (arith, least j (ground arith)))
            ],
          )
          | inr (ne, given) ↦ inr (ne, (o, given, holds, least))
        ],
      )
    ]

-- The least order for a request is the one that `free` computes again.
same_order :
    (b : BuddyAlloc) (ls : List (List ℕ)) (size o : ℕ)
    → IsHeap b ls
    → size ≤ 2 ^ 63
    → o < length b.free_lists
    → wanted b size (alignment size) ≤ bytes b o
    → ((j : ℕ) → j < o → bytes b j < wanted b size (alignment size))
    → allocation_order b size (alignment size) ≡ some (some o)
same_order b ls size o w fits lt holds least =
    elim (allocation_order-Ordered b ls size (alignment size) w (alignment-le size) fits) [
      | inl (e, short) ↦
          absurd (omega (arith, short, w.whole, bytes_mono b o (last b) (omega arith)))
      | inr (o', e, lt', holds', least') ↦
          let eq : o' ≡ o = elim (ℕ_discrete o' o) [
            | yes same ↦ same
            | no ne ↦ elim (Bool-cases (ltb o' o)) [
              | inl under ↦ absurd (omega (arith, least o' (ground arith)))
              | inr over ↦ absurd (omega (arith, least' o (ground arith)))
            ]
          ] in
          e ∙ ap (λ (z : ℕ). some (some z)) eq
    ]

dealloc_runs :
    (ptr size align_ o : ℕ) (b : BuddyAlloc)
    → allocation_order b size align_ ≡ some (some o)
    → dealloc ptr size align_ b ≡ merge_loop (length b.free_lists - o) o ptr b
unfolding dealloc
dealloc_runs ptr size align_ o b e = rw (e, dealloc) refl

-- On a well-formed heap whose blocks have room for a link of 8 bytes, for a block of the least
-- order that holds the size, its alignment and the least block, no byte of which is free and which
-- lies in the heap, `free` ends; the heap is well formed again, and the free bytes are those that were free before and the block's.
pub free-Returned :
    (ptr size o : ℕ) (b : BuddyAlloc) (ls : List (List ℕ))
    → IsHeap b ls
    → 3 ≤ b.min_block_size_log2
    → IsBlock b ls o ptr
    → size ≤ 2 ^ 63
    → wanted b size (alignment size) ≤ bytes b o
    → ((j : ℕ) → j < o → bytes b j < wanted b size (alignment size))
    → (b' : BuddyAlloc) × (free ptr size b ≡ some b') × Returned o ptr b ls b'
unfolding free
free-Returned ptr size o b ls w room k fits holds least =
    let order = same_order b ls size o w fits k.order holds least in
    let (b', run, r) =
      merge_loop-Returned (length b.free_lists - o) o ptr b ls w k (omega (arith, k.order)) in
    (b', dealloc_runs ptr size (alignment size) o b order ∙ run, r)

link_fits : (b : BuddyAlloc) (o : ℕ) → 3 ≤ b.min_block_size_log2 → 8 ≤ bytes b o
link_fits b o room =
    pow-le-pow_right {n = 2} (omega arith) {i = 3} {j = b.min_block_size_log2 + o} (omega arith)

-- The program may write to memory that is not free.
pub IsHeap-memory :
    (b : BuddyAlloc) (ls : List (List ℕ)) (memory : ℕ → ℕ)
    → IsHeap b ls
    → 3 ≤ b.min_block_size_log2
    → ((x : ℕ) → ((i : ℕ) → i < 8 → free_at b ls (x + i) ≢ 0) → memory x ≡ b.next x)
    → IsHeap (record b { next = memory }) ls
IsHeap-memory b ls memory w room same = record {
  lists = w.lists;
  some_list = w.some_list;
  chains = λ o below.
      Chain-links (bytes b o) b.next memory (get_or b.free_lists o 0) (get_or ls o [])
        (link_fits b o room)
        (λ x c. same x (λ i lt.
          omega (
            arith,
            c i lt,
            covered-le b.min_block_size_log2 ls o (x + i) (omega (arith, w.lists)),
          )))
        (w.chains o below);
  top = w.top;
  aligned = w.aligned;
  once = w.once;
  within = w.within;
  smallest = w.smallest;
  whole = w.whole;
  shift = w.shift;
  base = w.base;
}
