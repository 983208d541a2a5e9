-- ===== src/Kernel/Alloc/Buddy/State.antt =====
-- The well-formed states of src/plix/alloc/buddy.d, and a change of one free list.
use native.Mathlib.Nat.{one-le-pow}
use native.Mathlib.Decide.{ℕ_discrete}
use multiplix.Prelude.{
  ℕ, ◌+◌, ◌*◌, ◌^◌, ◌≤◌, ◌<◌, ◌≡◌, ◌≢◌, sym, ◌∙◌, arith, List, [], ◌∷◌, length, get_or, set,
  get_or-set_self, get_or-set_ne, length-set,
}
use multiplix.Kernel.Alloc.Buddy.{BuddyAlloc, last}
use multiplix.Kernel.Alloc.Buddy.Cover.{covered, cover, covered-le, blocks-le}
use multiplix.Kernel.Alloc.Buddy.Chain.{Chain, Chain-same}

-- The last list has the whole heap or nothing. The link of that block is never written.
abbrev pub Top : ℕ → List ℕ → Type 0
Top p [] = p ≡ 0
Top p (x ∷ []) = (p ≡ x) × (x ≢ 0)
Top p (x ∷ y ∷ l) = p ≢ p

-- The blocks start at multiples of their size from the heap's start.
abbrev pub Aligned : (heap s : ℕ) → List ℕ → Type 0
Aligned heap s [] = Unit {0}
Aligned heap s (x ∷ l) = ((q : ℕ) × (x ≡ heap + q * s)) × Aligned heap s l

-- The bytes of a block of order `o`.
abbrev pub bytes : BuddyAlloc → ℕ → ℕ
bytes b o = 2 ^ (b.min_block_size_log2 + o)

abbrev pub free_at : BuddyAlloc → List (List ℕ) → ℕ → ℕ
free_at b ls x = cover b.min_block_size_log2 ls x

abbrev pub Within : BuddyAlloc → ℕ → Type 0
Within b x = (b.heap ≤ x) × (x < b.heap + b.heap_length)

-- `ls` holds the blocks of each free list. The heap has the size of the last order, which a 32-bit
-- `int` holds; no byte is in two free blocks, and the free blocks lie in the heap.
pub record IsHeap (b : BuddyAlloc) (ls : List (List ℕ)) : Type 0 where
  pub lists : length ls ≡ length b.free_lists
  pub some_list : 0 < length b.free_lists
  pub chains : (o : ℕ) → o < last b → Chain b.next (get_or b.free_lists o 0) (get_or ls o [])
  pub top : Top (get_or b.free_lists (last b) 0) (get_or ls (last b) [])
  pub aligned : (o : ℕ) → o < length b.free_lists → Aligned b.heap (bytes b o) (get_or ls o [])
  pub once : (x : ℕ) → free_at b ls x ≤ 1
  pub within : (x : ℕ) → free_at b ls x ≢ 0 → Within b x
  pub smallest : b.min_block_size ≡ bytes b 0
  pub whole : b.heap_length ≡ bytes b (last b)
  pub shift : b.min_block_size_log2 + last b < 31
  pub base : 0 < b.heap

pub bytes_pos : (b : BuddyAlloc) (o : ℕ) → 0 < bytes b o
bytes_pos b o = one-le-pow (b.min_block_size_log2 + o) 2 (omega arith)

-- A free list has no more blocks than the heap has bytes.
pub list_length :
    (b : BuddyAlloc) (ls : List (List ℕ)) (o : ℕ)
    → IsHeap b ls
    → o < length b.free_lists
    → length (get_or ls o []) ≤ b.heap_length
list_length b ls o w lt =
    let le = λ (x : ℕ). covered-le b.min_block_size_log2 ls o x (omega (arith, w.lists)) in
    blocks-le b.heap b.heap_length (bytes b o) (get_or ls o []) (bytes_pos b o)
      (λ x. omega (arith, le x, w.once x)) (λ x c. w.within x (omega (arith, le x)))

module _ (b : BuddyAlloc) (ls : List (List ℕ)) (o : ℕ) (l heads' : List ℕ) (next' : ℕ → ℕ)
    (w : IsHeap b ls) (lt : o < length b.free_lists) (size : length heads' ≡ length b.free_lists)
    (heads : (j : ℕ) → j ≢ o → get_or heads' j 0 ≡ get_or b.free_lists j 0)
    (links : (j x : ℕ)
      → j ≢ o
      → j < length b.free_lists
      → covered (bytes b j) (get_or ls j []) x ≢ 0
      → next' x ≡ b.next x)
    (chain : o < last b → Chain next' (get_or heads' o 0) l)
    (top : o ≡ last b → Top (get_or heads' o 0) l) (aligned : Aligned b.heap (bytes b o) l)
    (once : (x : ℕ) → free_at b (set ls o l) x ≤ 1)
    (within : (x : ℕ) → free_at b (set ls o l) x ≢ 0 → Within b x) where
  here : get_or (set ls o l) o [] ≡ l
  here = get_or-set_self ls o l [] (omega (arith, w.lists))

  away : (j : ℕ) → j ≢ o → get_or (set ls o l) j [] ≡ get_or ls j []
  away j ne = get_or-set_ne ls o j l [] (λ e. ne (sym e))

  chains' : (j : ℕ) → j < last b → Chain next' (get_or heads' j 0) (get_or (set ls o l) j [])
  chains' j below = elim (ℕ_discrete j o) [
    | yes e ↦ rw (e, here) (chain (omega arith))
    | no ne ↦
        rw (heads j ne, away j ne)
          (Chain-same (bytes b j) b.next next' (get_or b.free_lists j 0) (get_or ls j [])
            (bytes_pos b j) (λ x c. links j x ne (omega arith) c) (w.chains j below))
  ]

  top' : Top (get_or heads' (last b) 0) (get_or (set ls o l) (last b) [])
  top' = elim (ℕ_discrete (last b) o) [
    | yes e ↦ rw (e, here) (top (sym e))
    | no ne ↦ rw (heads (last b) ne, away (last b) ne) w.top
  ]

  aligned' :
      (j : ℕ) → j < length b.free_lists → Aligned b.heap (bytes b j) (get_or (set ls o l) j [])
  aligned' j below = elim (ℕ_discrete j o) [
    | yes e ↦ rw (e, here) aligned
    | no ne ↦ rw (away j ne) (w.aligned j below)
  ]

  -- One list and its head have changed.
  pub IsHeap-change : IsHeap (record b { free_lists = heads'; next = next' }) (set ls o l)
  IsHeap-change = record {
    lists = length-set ls o l ∙ w.lists ∙ sym size;
    some_list = omega (arith, size, w.some_list);
    chains = rw size chains';
    top = rw size top';
    aligned = rw size aligned';
    once = once;
    within = within;
    smallest = w.smallest;
    whole = rw size w.whole;
    shift = omega (arith, size, w.shift);
    base = w.base;
  }
