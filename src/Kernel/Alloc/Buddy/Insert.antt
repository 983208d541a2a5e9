-- ===== src/Kernel/Alloc/Buddy/Insert.antt =====
-- `free_list_insert` of src/plix/alloc/buddy.d.
use mathlib.Core.Path.{subst}
use native.Mathlib.Decide.{ℕ_discrete}
use multiplix.Prelude.{
  ℕ, zero, suc, ◌+◌, ◌*◌, ◌≤◌, ◌<◌, ◌≡◌, ◌≢◌, refl, sym, ◌∙◌, ap, arith, List, [], ◌∷◌, length,
  get_or, set, get_or-set_self, get_or-set_ne, length-set,
}
use multiplix.Kernel.Alloc.Buddy.{BuddyAlloc, last, poke, free_list_insert}
use multiplix.Kernel.Alloc.Buddy.Cover.{inside, covered, inside_self, cover-set, covered-le}
use multiplix.Kernel.Alloc.Buddy.Chain.{Chain, Chain-poke}
use multiplix.Kernel.Alloc.Buddy.State.{
  bytes, bytes_pos, free_at, Within, Aligned, IsHeap, IsHeap-change,
}

-- A block of order `o` that may be added: no byte of it is free, and it lies in the heap.
pub record IsBlock (b : BuddyAlloc) (ls : List (List ℕ)) (o a : ℕ) : Type 0 where
  pub order : o < length b.free_lists
  pub start : (q : ℕ) × (a ≡ b.heap + q * bytes b o)
  pub apart : (x : ℕ) → free_at b ls x + inside (bytes b o) a x ≤ 1
  pub in_heap : (x : ℕ) → inside (bytes b o) a x ≢ 0 → Within b x

small_multiple : (q s : ℕ) → q * s < s → q ≡ 0
small_multiple zero s h = refl
small_multiple (suc q) s h = absurd (omega (arith, suc_mul q s))
  where
    suc_mul : (q s : ℕ) → suc q * s ≡ q * s + s
    suc_mul q s = omega arith

-- A block of the last order is the whole heap.
whole_block :
    (b : BuddyAlloc) (ls : List (List ℕ)) (a q : ℕ)
    → IsHeap b ls
    → a ≡ b.heap + q * bytes b (last b)
    → Within b a
    → a ≡ b.heap
whole_block b ls a q w e (lo, hi) =
    let zero_q = small_multiple q (bytes b (last b)) (omega (arith, w.whole)) in
    rw (e, zero_q) (omega arith)

-- The first block of a list is free.
pub first-free :
    (b : BuddyAlloc) (ls : List (List ℕ)) (o x : ℕ) (l : List ℕ)
    → IsHeap b ls
    → o < length b.free_lists
    → get_or ls o [] ≡ x ∷ l
    → 1 ≤ free_at b ls x
first-free b ls o x l w lt e =
    let own : covered (bytes b o) (get_or ls o []) x ≡ covered (bytes b o) (x ∷ l) x =
      ap (λ (k : List ℕ). covered (bytes b o) k x) e in
    omega (
      arith,
      own,
      inside_self (bytes b o) x (bytes_pos b o),
      covered-le b.min_block_size_log2 ls o x (omega (arith, w.lists)),
    )

pub IsBlock-free :
    (b : BuddyAlloc) (ls : List (List ℕ)) (o a : ℕ)
    → IsBlock b ls o a
    → (free_at b ls a ≡ 0) × Within b a
IsBlock-free b ls o a k =
    let one = inside_self (bytes b o) a (bytes_pos b o) in
    (omega (arith, one, k.apart a), k.in_heap a (omega (arith, one)))

pub top_empty :
    (b : BuddyAlloc) (ls : List (List ℕ)) (a : ℕ)
    → IsHeap b ls
    → IsBlock b ls (last b) a
    → get_or ls (last b) [] ≡ []
top_empty b ls a w k = go (get_or ls (last b) []) refl
  where
    go : (l : List ℕ) → get_or ls (last b) [] ≡ l → get_or ls (last b) [] ≡ []
    go [] e = e
    go (x ∷ l) e =
        let taken = first-free b ls (last b) x l w k.order e in
        let start : Aligned b.heap (bytes b (last b)) (x ∷ l) =
          subst (Aligned b.heap (bytes b (last b))) e (w.aligned (last b) k.order) in
        let same : x ≡ b.heap =
          whole_block b ls x start.0.0 w start.0.1 (w.within x (omega (arith, taken))) in
        let (alone, inside_heap) = IsBlock-free b ls (last b) a k in
        let own : a ≡ b.heap = whole_block b ls a k.start.0 w k.start.1 inside_heap in
        absurd (ground (arith, ap (λ (z : ℕ). free_at b ls z) (same ∙ sym own), taken, alone))

module _ (b : BuddyAlloc) (ls : List (List ℕ)) (o a : ℕ) (w : IsHeap b ls)
    (k : IsBlock b ls o a) where
  abbrev pub pushed : List (List ℕ)
  pushed = set ls o (a ∷ get_or ls o [])

  pub pushed-free_at : (x : ℕ) → free_at b pushed x ≡ free_at b ls x + inside (bytes b o) a x
  pushed-free_at x = omega (
    arith,
    cover-set b.min_block_size_log2 ls o (a ∷ get_or ls o []) x (omega (arith, w.lists, k.order)),
  )

  value : get_or (set b.free_lists o a) o 0 ≡ a
  value = get_or-set_self b.free_lists o a 0 k.order

  not_null : a ≢ 0
  not_null e = omega (arith, (IsBlock-free b ls o a k).1.0, w.base)

  own-Chain :
      o < last b
      → Chain
          (poke b.next a (get_or b.free_lists o 0))
          (get_or (set b.free_lists o a) o 0)
          (a ∷ get_or ls o [])
  own-Chain below =
      let free = (IsBlock-free b ls o a k).0 in
      let link : poke b.next a (get_or b.free_lists o 0) a ≡ get_or b.free_lists o 0 =
        ground arith in
      let bound = covered-le b.min_block_size_log2 ls o a (omega (arith, w.lists, k.order)) in
      (
        value,
        not_null,
        rw link (
            Chain-poke (bytes b o) b.next a (get_or b.free_lists o 0) (get_or b.free_lists o 0)
              (get_or ls o []) (bytes_pos b o) (omega (arith, bound, free)) (w.chains o below)),
      )

  pub insert-IsHeap : IsHeap (free_list_insert o a b) pushed
  unfolding free_list_insert
  insert-IsHeap =
      let free = (IsBlock-free b ls o a k).0 in
      IsHeap-change b ls o (a ∷ get_or ls o []) (set b.free_lists o a)
        (poke b.next a (get_or b.free_lists o 0)) w k.order (length-set b.free_lists o a)
        (λ j ne. get_or-set_ne b.free_lists o j a 0 (λ e. ne (sym e)))
        (λ j x ne lt c. elim (ℕ_discrete x a) [
          | yes e ↦ absurd (
              omega (
                arith,
                free,
                ap (λ (z : ℕ). free_at b ls z) e,
                covered-le b.min_block_size_log2 ls j x (omega (arith, w.lists)),
              ))
          | no away ↦ ground arith
        ])
        own-Chain
        (λ e.
          rw (value, e, top_empty b ls a w (subst (λ n. IsBlock b ls n a) e k)) (refl, not_null))
        (k.start, w.aligned o k.order) (λ x. omega (arith, pushed-free_at x, k.apart x))
        (λ x some_free. elim (ℕ_discrete (inside (bytes b o) a x) 0) [
          | yes none_here ↦ w.within x (omega (arith, pushed-free_at x))
          | no here ↦ k.in_heap x here
        ])
