-- ===== src/Kernel/Alloc/Buddy/Allocate.antt =====
-- The loops of `allocate` of src/plix/alloc/buddy.d: the search for a block, and its splitting.
use mathlib.Core.Path.{subst}
use native.Mathlib.Decide.{ℕ_discrete}
use multiplix.Prelude.{
  ℕ, zero, suc, ◌+◌, ◌-◌, ◌*◌, ◌/◌, ◌≤◌, ◌<◌, ◌≡◌, ◌≢◌, ◌⊎◌, refl, sym, ◌∙◌, ap, arith, true, false,
  List, [], length, get_or, ltb, ◌==◌, if◌then◌else◌, inl, inr,
}
use multiplix.Kernel.Alloc.Buddy.{
  BuddyAlloc, free_list_insert, free_list_pop, split_loop, split_free_block, find_loop,
}
use multiplix.Kernel.Alloc.Buddy.Cover.{inside}
use multiplix.Kernel.Alloc.Buddy.State.{bytes, free_at, IsHeap}
use multiplix.Kernel.Alloc.Buddy.Insert.{IsBlock}
use multiplix.Kernel.Alloc.Buddy.Take.{Taken, pop-Popped}
use multiplix.Kernel.Alloc.Buddy.Halves.{order_size_lem, bytes-suc, bytes-halves}
use multiplix.Kernel.Alloc.Buddy.Dealloc.{Returned, inserted}

-- The heap after the block `a` of order `o`, free before, has been given out.
pub record Given (o a : ℕ) (b : BuddyAlloc) (ls : List (List ℕ)) (b' : BuddyAlloc) : Type 0 where
  pub left : List (List ℕ)
  pub heap : IsHeap b' left
  pub order : o < length b.free_lists
  pub start : (q : ℕ) × (a ≡ b.heap + q * bytes b o)
  pub count : (x : ℕ) → free_at b left x + inside (bytes b o) a x ≡ free_at b ls x
  pub rest : record b' { free_lists = b.free_lists; next = b.next } ≡ b
  pub size : length b'.free_lists ≡ length b.free_lists

-- One half of a block that is not free is given back.
module _ (o a : ℕ) (b : BuddyAlloc) (ls : List (List ℕ)) (w : IsHeap b ls)
    (k : IsBlock b ls (suc o) a) where
  upper_start : (q : ℕ) × (a + bytes b o ≡ b.heap + q * bytes b o)
  upper_start =
      let q : ℕ = k.start.0 in
      (q + q + 1, omega (arith, k.start.1, ap (λ (t : ℕ). q * t) (bytes-suc b o)))

  lower_start : (q : ℕ) × (a ≡ b.heap + q * bytes b o)
  lower_start =
      let q : ℕ = k.start.0 in
      (q + q, omega (arith, k.start.1, ap (λ (t : ℕ). q * t) (bytes-suc b o)))

  upper : IsBlock b ls o (a + bytes b o)
  upper = record {
    order = omega (arith, k.order);
    start = upper_start;
    apart = λ x. omega (arith, k.apart x, bytes-halves b o a x);
    in_heap = λ x h. k.in_heap x (omega (arith, bytes-halves b o a x));
  }

  lower :
      (b' : BuddyAlloc) (r : Returned o (a + bytes b o) b ls b')
      → IsBlock (record b { free_lists = b'.free_lists; next = b'.next }) r.left o a
  lower b' r = record {
    order = omega (arith, k.order, r.size);
    start = lower_start;
    apart = λ x. omega (arith, k.apart x, r.count x, bytes-halves b o a x);
    in_heap = λ x h. k.in_heap x (omega (arith, bytes-halves b o a x));
  }

-- After the loop the block's upper parts are free, and the `2 ^ n`-th part at its start is not.
record Split (n o a : ℕ) (b : BuddyAlloc) (ls : List (List ℕ)) (b' : BuddyAlloc) : Type 0 where
  left : List (List ℕ)
  heap : IsHeap b' left
  start : (q : ℕ) × (a ≡ b.heap + q * bytes b (o - n))
  count :
      (x : ℕ)
      → free_at b left x + inside (bytes b (o - n)) a x ≡ free_at b ls x + inside (bytes b o) a x
  rest : record b' { free_lists = b.free_lists; next = b.next } ≡ b
  size : length b'.free_lists ≡ length b.free_lists

split_loop-Split :
    (n o a : ℕ) (b : BuddyAlloc) (ls : List (List ℕ))
    → IsHeap b ls
    → IsBlock b ls o a
    → n ≤ o
    → Split n o a b ls (split_loop n a (bytes b o) o b)
unfolding split_loop
split_loop-Split zero o a b ls w k le =
    let e : o - 0 ≡ o = omega arith in
    record {
      left = ls;
      heap = w;
      start = rw e k.start;
      count = λ x. rw e refl;
      rest = refl;
      size = refl;
    }
split_loop-Split (suc n) zero a b ls w k le = absurd (omega arith)
split_loop-Split (suc n) (suc o) a b ls w k le =
    let half : bytes b (suc o) / 2 ≡ bytes b o = omega (arith, bytes-suc b o) in
    let down : suc o - 1 ≡ o = omega arith in
    let b1 = free_list_insert o (a + bytes b o) b in
    let r = inserted o (a + bytes b o) b ls w (upper o a b ls w k) in
    let b2 : BuddyAlloc = record b { free_lists = b1.free_lists; next = b1.next } in
    let same : b1 ≡ b2 = λ i. record (r.rest i) { free_lists = b1.free_lists; next = b1.next } in
    let heap = subst (λ z. IsHeap z r.left) same r.heap in
    let ih = split_loop-Split n o a b2 r.left heap (lower o a b ls w k b1 r) (omega arith) in
    let exponent : suc o - suc n ≡ o - n = omega arith in
    let start = subst (λ e. (q : ℕ) × (a ≡ b.heap + q * bytes b e)) (sym exponent) ih.start in
    let count =
      subst
        (λ e.
          (x : ℕ)
          → free_at b ih.left x + inside (bytes b e) a x
            ≡ free_at b r.left x + inside (bytes b o) a x)
        (sym exponent) ih.count in
    rw (half, down, same)
      record {
        left = ih.left;
        heap = ih.heap;
        start = start;
        count = λ x. omega (arith, count x, r.count x, bytes-halves b o a x);
        rest = λ i. record (ih.rest i) { free_lists = b.free_lists; next = b.next };
        size = ih.size ∙ r.size;
      }

-- What the search finds: no block, with the state as before, or a block.
abbrev pub Found : (o needed : ℕ) → BuddyAlloc → List (List ℕ) → ℕ × BuddyAlloc → Type 0
Found o needed b ls r =
    ((r.0 ≡ 0) × (r.1 ≡ b) × ((j : ℕ) → o ≤ j → j < length b.free_lists → get_or ls j [] ≡ []))
    ⊎ ((r.0 ≢ 0) × Given needed r.0 b ls r.1)

module _ (o needed : ℕ) (b : BuddyAlloc) (ls : List (List ℕ)) (w : IsHeap b ls)
    (lt : o < length b.free_lists) (le : needed ≤ o) (a : ℕ) (b1 : BuddyAlloc)
    (t : Taken o a b ls b1) where
  abbrev b2 : BuddyAlloc
  b2 = record b { free_lists = b1.free_lists; next = b1.next }

  same : b1 ≡ b2
  same = λ i. record (t.rest i) { free_lists = b1.free_lists; next = b1.next }

  heap : IsHeap b2 t.left
  heap = subst (λ z. IsHeap z t.left) same t.heap

  block : IsBlock b2 t.left o a
  block = record {
    order = omega (arith, t.size);
    start = t.start;
    apart = λ x. omega (arith, t.count x, w.once x);
    in_heap = λ x h. w.within x (omega (arith, t.count x));
  }

  -- The block that was popped is cut to the order that is needed.
  cut : Given needed a b ls (if ltb needed o then split_free_block a o needed b1 else b1)
  unfolding split_free_block
  cut = elim (ℕ_discrete needed o) [
    | yes e ↦
        let no : ltb needed o ≡ false = ground arith in
        rw (no) record {
          left = t.left;
          heap = t.heap;
          order = omega arith;
          start = rw e t.start;
          count = rw e t.count;
          rest = t.rest;
          size = t.size;
        }
    | no ne ↦
        let yes' : ltb needed o ≡ true = ground arith in
        let size = order_size_lem b2 o (omega (arith, heap.shift, t.size, lt)) in
        let s = split_loop-Split (o - needed) o a b2 t.left heap block (omega arith) in
        let exponent : o - (o - needed) ≡ needed = omega arith in
        let start = subst (λ n. (q : ℕ) × (a ≡ b.heap + q * bytes b n)) exponent s.start in
        let count =
          subst
            (λ n.
              (x : ℕ)
              → free_at b s.left x + inside (bytes b n) a x
                ≡ free_at b t.left x + inside (bytes b o) a x)
            exponent s.count in
        rw (yes', same, size)
          record {
            left = s.left;
            heap = s.heap;
            order = omega arith;
            start = start;
            count = λ x. omega (arith, count x, t.count x);
            rest = λ i. record (s.rest i) { free_lists = b.free_lists; next = b.next };
            size = s.size ∙ t.size;
          }
  ]

pub find_loop-Found :
    (n o needed : ℕ) (b : BuddyAlloc) (ls : List (List ℕ))
    → IsHeap b ls
    → needed ≤ o
    → o + n ≡ length b.free_lists
    → Found o needed b ls (find_loop n o needed b)
unfolding find_loop
find_loop-Found zero o needed b ls w le end = inl (refl, refl, λ j h lt. absurd (omega arith))
find_loop-Found (suc n) o needed b ls w le end = elim (pop-Popped o b ls w (omega arith)) [
  | inl (z, e, none_here) ↦
      elim (find_loop-Found n (suc o) needed b ls w (omega arith) (omega arith)) [
        | inl (z', e', none_above) ↦
            rw (z, e)
              (inl (
                z',
                e',
                λ j h lt. elim (ℕ_discrete j o) [
                  | yes at ↦ rw at none_here
                  | no ne ↦ none_above j (omega arith) lt
                ],
              ))
        | inr given ↦ rw (z, e) (inr given)
      ]
  | inr (ne, t) ↦
      let p = free_list_pop o b in
      let some_block : (p.0 == 0) ≡ false = ground arith in
      rw some_block (inr (ne, cut o needed b ls w (omega arith) le p.0 p.1 t))
]
