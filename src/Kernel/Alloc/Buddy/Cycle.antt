-- ===== src/Kernel/Alloc/Buddy/Cycle.antt =====
-- src/plix/alloc/buddy.d over time: the heap as `initialize` leaves it, and a block that is given
-- out, written to and given back.
use mathlib.Core.Path.{subst}
use native.Mathlib.Nat.{one-le-pow, pow-suc, mul-div_cancel}
use native.Mathlib.Decide.{ℕ_discrete}
use multiplix.Prelude.{
  ℕ, zero, suc, ◌+◌, ◌-◌, ◌*◌, ◌/◌, ◌^◌, ◌≤◌, ◌<◌, ◌≡◌, ◌≢◌, refl, sym, ◌∙◌, ap, arith, Option,
  some, none, List, [], ◌∷◌, length, get_or, set, inl, inr, replicate, length-replicate, length-set,
  get_or-replicate, get_or-set_self, get_or-set_ne,
}
use multiplix.Kernel.Alloc.Buddy.{BuddyAlloc, last, initialize, alloc, alignment, free}
use multiplix.Kernel.Math.{log2ceil}
use multiplix.Kernel.Math.Laws.{log2ceil_lem}
use multiplix.Kernel.Alloc.Buddy.Cover.{inside, cover, covered, cover-set}
use multiplix.Kernel.Alloc.Buddy.State.{bytes, free_at, IsHeap, Top}
use multiplix.Kernel.Alloc.Buddy.Insert.{IsBlock}
use multiplix.Kernel.Alloc.Buddy.Allocate.{Given}
use multiplix.Kernel.Alloc.Buddy.Order.{wanted}
use multiplix.Kernel.Alloc.Buddy.Laws.{Served, alloc-Served, free-Returned, IsHeap-memory}

module _ (size p o : ℕ) (b b1 : BuddyAlloc) (ls : List (List ℕ)) (memory : ℕ → ℕ) (w : IsHeap b ls)
    (fits : size ≤ 2 ^ 63) (g : Given o p b ls b1)
    (holds : wanted b size (alignment size) ≤ bytes b o)
    (least : (j : ℕ) → j < o → bytes b j < wanted b size (alignment size))
    (room : 3 ≤ b.min_block_size_log2)
    (writes : (x : ℕ) → ((i : ℕ) → i < 8 → inside size p (x + i) ≡ 0) → memory x ≡ b1.next x) where
  abbrev b2 : BuddyAlloc
  b2 = record b { free_lists = b1.free_lists; next = memory }

  heap : IsHeap b2 g.left
  heap =
      let same : b1 ≡ record b { free_lists = b1.free_lists; next = b1.next } =
        λ i. record (g.rest i) { free_lists = b1.free_lists; next = b1.next } in
      let before = subst (λ z. IsHeap z g.left) same g.heap in
      let large : size ≤ bytes b o = ground arith in
      IsHeap-memory (record b { free_lists = b1.free_lists; next = b1.next }) g.left memory before
        room
        (λ x some_free.
          writes x (λ i lt. ground (arith, g.count (x + i), w.once (x + i), some_free i lt, large)))

  block : IsBlock b2 g.left o p
  block = record {
    order = omega (arith, g.order, g.size);
    start = g.start;
    apart = λ x. omega (arith, g.count x, w.once x);
    in_heap = λ x h. w.within x (omega (arith, g.count x));
  }

  given_back :
      (b' : BuddyAlloc) × (left : List (List ℕ)) × (free p size (record b1 { next = memory })
        ≡ some b')
      × IsHeap b' left
      × ((x : ℕ) → free_at b left x ≡ free_at b ls x)
  given_back =
      let same : record b1 { next = memory } ≡ b2 =
        λ i. record (g.rest i) { free_lists = b1.free_lists; next = memory } in
      let (b', run, r) = free-Returned p size o b2 g.left heap room block fits holds least in
      (b', r.left, ap (free p size) same ∙ run, r.heap, λ x. omega (arith, r.count x, g.count x))

-- On a well-formed heap whose blocks have room for a link of 8 bytes, let `alloc` return a block for a size of at most `2 ^ 63` bytes, and let
-- the program write to the block's first `size` bytes what it likes, so that the links that share
-- no byte with them stay. Then `free` of the block ends,
-- the heap is well formed, and the same bytes are free as before `alloc`.
pub alloc-free :
    (size p : ℕ) (b b1 : BuddyAlloc) (ls : List (List ℕ)) (memory : ℕ → ℕ)
    → IsHeap b ls
    → 3 ≤ b.min_block_size_log2
    → size ≤ 2 ^ 63
    → alloc size b ≡ some (p, b1)
    → p ≢ 0
    → ((x : ℕ) → ((i : ℕ) → i < 8 → inside size p (x + i) ≡ 0) → memory x ≡ b1.next x)
    → (b' : BuddyAlloc) × (left : List (List ℕ)) × (free p size (record b1 { next = memory })
        ≡ some b')
      × IsHeap b' left
      × ((x : ℕ) → free_at b left x ≡ free_at b ls x)
alloc-free size p b b1 ls memory w room fits run ne writes =
    let (r, run', served) = alloc-Served size b ls w fits in
    let same : r ≡ (p, b1) =
      ap (λ (z : Option (ℕ × BuddyAlloc)). elim z [ none ↦ (0, b) | some q ↦ q ])
        (sym run' ∙ run) in
    elim (subst (Served (wanted b size (alignment size)) b ls) same served) [
      | inl (z, unchanged, empty) ↦ absurd (ne z)
      | inr (some_block, (o, g, holds, least)) ↦
          given_back size p o b b1 ls memory w fits g holds least room writes
    ]

no_cover : (m n x : ℕ) → cover m (replicate n []) x ≡ 0
no_cover m zero x = refl
no_cover m (suc n) x = omega (arith, no_cover (suc m) n x)

pow_add : (m n : ℕ) → 2 ^ (m + n) ≡ 2 ^ m * 2 ^ n
pow_add m zero = let e : m + 0 ≡ m = omega arith in ap (λ (k : ℕ). 2 ^ k) e ∙ omega arith
pow_add m (suc n) =
    let e : m + suc n ≡ suc (m + n) = omega arith in
    ap (λ (k : ℕ). 2 ^ k) e
    ∙ omega (arith, pow-suc 2 (m + n), pow_add m n, ap (λ (t : ℕ). 2 ^ m * t) (pow-suc 2 n))

module _ (m n heap : ℕ) (next : ℕ → ℕ) (lt : m + n < 31) (pos : 0 < heap) where
  abbrev pub fresh : BuddyAlloc
  fresh = record {
    heap = heap;
    heap_length = 2 ^ (m + n);
    free_lists = set (replicate (suc n) 0) n heap;
    min_block_size = 2 ^ m;
    min_block_size_log2 = m;
    next = next;
  }

  abbrev pub one_block : List (List ℕ)
  one_block = set (replicate (suc n) []) n (heap ∷ [])

  n_last : last fresh ≡ n
  n_last =
      omega
        (arith, length-set (replicate {A = ℕ} (suc n) 0) n heap, length-replicate {A = ℕ} (suc n) 0)

  own : get_or one_block n [] ≡ heap ∷ []
  own =
      get_or-set_self (replicate (suc n) []) n (heap ∷ []) []
        (omega (arith, length-replicate {A = List ℕ} (suc n) []))

  other : (o : ℕ) → o ≢ n → get_or one_block o [] ≡ []
  other o ne =
      get_or-set_ne (replicate (suc n) []) n o (heap ∷ []) [] (λ q. ne (sym q))
      ∙ get_or-replicate (suc n) o []

  all_free : (x : ℕ) → free_at fresh one_block x ≡ inside (2 ^ (m + n)) heap x
  all_free x = omega (
    arith,
    cover-set m (replicate (suc n) []) n (heap ∷ []) x
        (omega (arith, length-replicate {A = List ℕ} (suc n) [])),
    no_cover m (suc n) x,
    ap (λ (l : List ℕ). covered (2 ^ (m + n)) l x) (get_or-replicate {A = List ℕ} (suc n) n []),
  )

  pub fresh-IsHeap : IsHeap fresh one_block
  fresh-IsHeap = record {
    lists =
        length-set (replicate (suc n) []) n (heap ∷ [])
        ∙ length-replicate {A = List ℕ} (suc n) []
        ∙ sym
            (length-set (replicate {A = ℕ} (suc n) 0) n heap ∙ length-replicate {A = ℕ} (suc n) 0);
    some_list = omega (
      arith,
      length-set (replicate {A = ℕ} (suc n) 0) n heap,
      length-replicate {A = ℕ} (suc n) 0,
    );
    chains = λ o below.
        let away : o ≢ n = λ q. absurd (omega (arith, n_last)) in
        let null : get_or (set (replicate (suc n) 0) n heap) o 0 ≡ 0 =
          get_or-set_ne (replicate (suc n) 0) n o heap 0 (λ q. away (sym q))
          ∙ get_or-replicate (suc n) o 0 in
        rw (other o away) null;
    top =
        subst (λ k. Top (get_or fresh.free_lists k 0) (get_or one_block k [])) (sym n_last)
          (rw own (
            get_or-set_self (replicate (suc n) 0) n heap 0
                (omega (arith, length-replicate {A = ℕ} (suc n) 0)),
            λ z. omega arith,
          ));
    aligned = λ o below. elim (ℕ_discrete o n) [
      | yes at ↦ rw (at, own) ((0, omega arith), tt)
      | no away ↦ rw (other o away) tt
    ];
    once = λ x. ground (arith, all_free x);
    within = λ x h. ground (arith, all_free x);
    smallest = ap (λ (k : ℕ). 2 ^ k) (omega arith);
    whole = ap (λ (k : ℕ). 2 ^ (m + k)) (sym n_last);
    shift = omega (arith, n_last);
    base = pos;
  }

-- For a heap of `2 ^ (m + N - 1)` bytes with `m + N - 1 < 31` that does not start at null, and `N`
-- free lists that are all empty, `initialize` makes a well-formed heap, whatever the memory holds:
-- the last list holds the whole heap, and every byte of the heap is free.
pub initialize-IsHeap :
    (m n heap : ℕ) (b : BuddyAlloc)
    → m + n < 31
    → 0 < heap
    → b.free_lists ≡ replicate (suc n) 0
    → (ls : List (List ℕ)) × IsHeap (initialize heap (2 ^ (m + n)) b) ls
      × ((x : ℕ) → free_at (initialize heap (2 ^ (m + n)) b) ls x ≡ inside (2 ^ (m + n)) heap x)
unfolding initialize
initialize-IsHeap m n heap b lt pos e =
    let at : length b.free_lists - 1 ≡ n =
      omega (arith, ap (λ (l : List ℕ). length l) e, length-replicate {A = ℕ} (suc n) 0) in
    let least : 2 ^ (m + n) / 2 ^ n ≡ 2 ^ m =
      ap (λ (t : ℕ). t / 2 ^ n) (pow_add m n)
      ∙ mul-div_cancel (2 ^ m) (one-le-pow n 2 (omega arith)) in
    let log : log2ceil (2 ^ m) ≡ m =
      log2ceil_lem m (2 ^ m) (omega arith) (omega arith)
        (omega (arith, pow-suc 2 m, one-le-pow m 2)) in
    rw (at, least, log, e)
      (
        one_block m n heap b.next lt pos,
        fresh-IsHeap m n heap b.next lt pos,
        all_free m n heap b.next lt pos,
      )
