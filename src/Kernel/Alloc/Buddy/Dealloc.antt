-- ===== src/Kernel/Alloc/Buddy/Dealloc.antt =====
-- The loop of `dealloc` of src/plix/alloc/buddy.d.
use mathlib.Core.Path.{subst}
use native.Mathlib.Decide.{ℕ_discrete}
use multiplix.Prelude.{
  ℕ, zero, suc, ◌+◌, ◌≤◌, ◌<◌, ◌≡◌, refl, ◌∙◌, ap, arith, true, false, some, List, length, leb,
  ◌==◌, inl, inr, length-set, min,
}
use multiplix.Kernel.Alloc.Buddy.{BuddyAlloc, last, free_list_insert, buddy, merge_loop}
use multiplix.Kernel.Alloc.Buddy.Cover.{inside}
use multiplix.Kernel.Alloc.Buddy.State.{bytes, free_at, IsHeap}
use multiplix.Kernel.Alloc.Buddy.Insert.{
  IsBlock, IsBlock-free, pushed, pushed-free_at, insert-IsHeap,
}
use multiplix.Kernel.Alloc.Buddy.Take.{remove-Taken}
use multiplix.Kernel.Alloc.Buddy.Halves.{order_size_lem, Pair, pair}

-- The bytes of the block `a` of order `o` have become free, and no others.
pub record Returned (o a : ℕ) (b : BuddyAlloc) (ls : List (List ℕ)) (b' : BuddyAlloc) : Type 0 where
  pub left : List (List ℕ)
  pub heap : IsHeap b' left
  pub count : (x : ℕ) → free_at b left x ≡ free_at b ls x + inside (bytes b o) a x
  pub rest : record b' { free_lists = b.free_lists; next = b.next } ≡ b
  pub size : length b'.free_lists ≡ length b.free_lists

pub inserted :
    (o a : ℕ) (b : BuddyAlloc) (ls : List (List ℕ))
    → IsHeap b ls
    → IsBlock b ls o a
    → Returned o a b ls (free_list_insert o a b)
unfolding free_list_insert
inserted o a b ls w k = record {
  left = pushed b ls o a w k;
  heap = insert-IsHeap b ls o a w k;
  count = pushed-free_at b ls o a w k;
  rest = refl;
  size = length-set b.free_lists o a;
}

whole_buddy :
    (b : BuddyAlloc) (ls : List (List ℕ)) (a : ℕ)
    → IsHeap b ls
    → b.heap ≤ a
    → buddy b (last b) a ≡ some 0
unfolding buddy
whole_buddy b ls a w above =
    let size = order_size_lem b (last b) w.shift in
    let yes' : leb b.heap_length (bytes b (last b)) ≡ true = ground (arith, w.whole) in
    let in_heap : leb b.heap a ≡ true = ground arith in rw (in_heap, size, yes') refl

-- The block that a block and its buddy make, once the buddy is out of its list.
module _ (o a : ℕ) (b : BuddyAlloc) (ls left : List (List ℕ)) (heads' : List ℕ) (next' : ℕ → ℕ)
    (w : IsHeap b ls) (k : IsBlock b ls o a) (p : Pair b o a) (below : o < last b)
    (size : length heads' ≡ length b.free_lists)
    (count : (x : ℕ) → free_at b left x + inside (bytes b o) p.bud x ≡ free_at b ls x) where
  merged : IsBlock (record b { free_lists = heads'; next = next' }) left (suc o) (min a p.bud)
  merged = record {
    order = omega (arith, size);
    start = p.start;
    apart = λ x. omega (arith, p.halves x, count x, k.apart x);
    in_heap = λ x some_byte. elim (ℕ_discrete (inside (bytes b o) a x) 0) [
      | no own ↦ k.in_heap x own
      | yes none_own ↦ w.within x (omega (arith, p.halves x, count x))
    ];
  }

  -- What is returned as one block of the next order is the block alone.
  returned :
      (b' : BuddyAlloc)
      → Returned (suc o) (min a p.bud) (record b { free_lists = heads'; next = next' }) left b'
      → Returned o a b ls b'
  returned b' r = record {
    left = r.left;
    heap = r.heap;
    count = λ x. omega (arith, r.count x, p.halves x, count x);
    rest = λ i. record (r.rest i) { free_lists = b.free_lists; next = b.next };
    size = r.size ∙ size;
  }

-- The loop ends and returns the block.
pub merge_loop-Returned :
    (n o a : ℕ) (b : BuddyAlloc) (ls : List (List ℕ))
    → IsHeap b ls
    → IsBlock b ls o a
    → o + n ≡ length b.free_lists
    → (b' : BuddyAlloc) × (merge_loop n o a b ≡ some b') × Returned o a b ls b'
unfolding merge_loop
merge_loop-Returned zero o a b ls w k left = absurd (omega (arith, k.order))
merge_loop-Returned (suc n) o a b ls w k left = elim (ℕ_discrete o (last b)) [
  | yes e ↦
      let none_there : buddy b o a ≡ some 0 =
        rw e (whole_buddy b ls a w (IsBlock-free b ls o a k).1.0) in
      (free_list_insert o a b, rw (none_there, merge_loop) refl, inserted o a b ls w k)
  | no ne ↦
      let below : o < last b = omega (arith, k.order) in
      let p = pair b ls o a w k below in
      let some_buddy : (p.bud == 0) ≡ false = ground (arith, p.not_null) in
      elim (remove-Taken o b ls w k.order p.bud below) [
        | inl missing ↦ (
          free_list_insert o a b,
          rw (p.returns, some_buddy, missing, merge_loop) refl,
          inserted o a b ls w k,
        )
        | inr (b1, e, t) ↦
            let b2 : BuddyAlloc = record b { free_lists = b1.free_lists; next = b1.next } in
            let same : b1 ≡ b2 =
              λ i. record (t.rest i) { free_lists = b1.free_lists; next = b1.next } in
            let heap = subst (λ z. IsHeap z t.left) same t.heap in
            let (b', run, r) =
              merge_loop-Returned n (suc o) (min a p.bud) b2 t.left heap
                (merged o a b ls t.left b1.free_lists b1.next w k p below t.size t.count)
                (omega (arith, t.size)) in
            (
              b',
              rw (p.returns, some_buddy, e, merge_loop)
                  (ap (merge_loop n (suc o) (min a p.bud)) same ∙ run),
              returned o a b ls t.left b1.free_lists b1.next w k p below t.size t.count b' r,
            )
      ]
]
