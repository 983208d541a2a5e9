-- ===== src/Kernel/Alloc/Buddy/Take.antt =====
-- `free_list_pop` and `free_list_remove` of src/plix/alloc/buddy.d.
use mathlib.Core.Path.{subst}
use native.Mathlib.Decide.{ℕ_discrete}
use multiplix.Prelude.{
  ℕ, suc, ◌+◌, ◌*◌, ◌<◌, ◌≡◌, ◌≢◌, ◌⊎◌, refl, sym, ◌∙◌, ap, arith, true, false, some, List, [], ◌∷◌,
  length, get_or, set, ◌==◌, if◌then◌else◌, Bool-cases, inl, inr, get_or-set_self, get_or-set_ne,
  length-set,
}
use multiplix.Kernel.Alloc.Buddy.{BuddyAlloc, last, head, write, free_list_pop, free_list_remove}
use multiplix.Kernel.Alloc.Buddy.Cover.{inside, covered, cover-set, covered-le, covered-two}
use multiplix.Kernel.Alloc.Buddy.State.{list_length}
use multiplix.Kernel.Alloc.Buddy.Chain.{
  Chain, has, without, cell_of, remove_loop_lem, covered-without, write-Removed,
}
use multiplix.Kernel.Alloc.Buddy.State.{
  Top, Aligned, bytes, bytes_pos, free_at, IsHeap, IsHeap-change,
}

-- The list `l` of order `o` has become `l'`, and the block `a` is free no longer.
pub record Taken (o a : ℕ) (b : BuddyAlloc) (ls : List (List ℕ)) (b' : BuddyAlloc) : Type 0 where
  pub left : List (List ℕ)
  pub heap : IsHeap b' left
  pub start : (q : ℕ) × (a ≡ b.heap + q * bytes b o)
  pub count : (x : ℕ) → free_at b left x + inside (bytes b o) a x ≡ free_at b ls x
  pub rest : record b' { free_lists = b.free_lists; next = b.next } ≡ b
  pub size : length b'.free_lists ≡ length b.free_lists

abbrev Popped : ℕ → BuddyAlloc → List (List ℕ) → ℕ × BuddyAlloc → Type 0
Popped o b ls r =
    ((r.0 ≡ 0) × (r.1 ≡ b) × (get_or ls o [] ≡ [])) ⊎ ((r.0 ≢ 0) × Taken o r.0 b ls r.1)

-- A list with its first block `p`.
record Front (o p : ℕ) (b : BuddyAlloc) (ls : List (List ℕ)) : Type 0 where
  rest : List ℕ
  not_null : p ≢ 0
  list : get_or ls o [] ≡ p ∷ rest
  chain : o < last b → Chain b.next (b.next p) rest
  only : o ≡ last b → rest ≡ []

Top-first : (p x : ℕ) (l : List ℕ) → Top p (x ∷ l) → (p ≡ x) × (x ≢ 0) × (l ≡ [])
Top-first p x [] (e, ne) = (e, ne, refl)
Top-first p x (y ∷ l) h = absurd (h refl)

front :
    (o p : ℕ) (b : BuddyAlloc) (ls : List (List ℕ)) (l : List ℕ)
    → o < length b.free_lists
    → get_or ls o [] ≡ l
    → (o < last b → Chain b.next p l)
    → (o ≡ last b → Top p l)
    → ((p ≡ 0) × (get_or ls o [] ≡ [])) ⊎ Front o p b ls
front o p b ls [] lt e chain top = elim (ℕ_discrete o (last b)) [
  | yes at ↦ inl (top at, e)
  | no ne ↦ inl (chain (omega arith), e)
]
front o p b ls (x ∷ l) lt e chain top =
    let (same, ne) : (p ≡ x) × (x ≢ 0) = elim (ℕ_discrete o (last b)) [
      | yes at ↦ let t = Top-first p x l (top at) in (t.0, t.1)
      | no away ↦ let c = chain (omega arith) in (c.0, c.1)
    ] in
    inr record {
      rest = l;
      not_null = λ z. ne (sym same ∙ z);
      list = e ∙ ap (λ (z : ℕ). z ∷ l) (sym same);
      chain = λ below. rw same ((chain below).2);
      only = λ at. (Top-first p x l (top at)).2;
    }

module _ (o : ℕ) (b : BuddyAlloc) (ls : List (List ℕ)) (w : IsHeap b ls)
    (lt : o < length b.free_lists) where
  -- A list that has become shorter covers less.
  count_set :
      (a : ℕ) (l : List ℕ)
      → ((x : ℕ)
          → covered (bytes b o) l x + inside (bytes b o) a x
            ≡ covered (bytes b o) (get_or ls o []) x)
      → (x : ℕ) → free_at b (set ls o l) x + inside (bytes b o) a x ≡ free_at b ls x
  count_set a l same x =
      omega (arith, same x, cover-set b.min_block_size_log2 ls o l x (omega (arith, w.lists)))

  abbrev p : ℕ
  p = get_or b.free_lists o 0

  popped :
      (f : Front o p b ls)
      → Taken o p b ls
          (record b { free_lists = set b.free_lists o (if o == last b then 0 else b.next p) })
  popped f =
      let own : (x : ℕ)
          → covered (bytes b o) (get_or ls o []) x
            ≡ inside (bytes b o) p x + covered (bytes b o) f.rest x =
        λ x. ap (λ (k : List ℕ). covered (bytes b o) k x) f.list in
      let count = count_set p f.rest (λ x. omega (arith, own x)) in
      let aligned : Aligned b.heap (bytes b o) (p ∷ f.rest) =
        subst (Aligned b.heap (bytes b o)) f.list (w.aligned o lt) in
      let v = if o == last b then 0 else b.next p in
      let value : get_or (set b.free_lists o v) o 0 ≡ v = get_or-set_self b.free_lists o v 0 lt in
      record {
        left = set ls o f.rest;
        heap =
            IsHeap-change b ls o f.rest (set b.free_lists o v) b.next w lt
              (length-set b.free_lists o v)
              (λ j ne. get_or-set_ne b.free_lists o j v 0 (λ e. ne (sym e)))
              (λ j x ne below c. refl)
              (λ below.
                let no : (o == last b) ≡ false = ground arith in rw (value, no) (f.chain below))
              (λ e.
                let yes' : (o == last b) ≡ true = ground arith in rw (value, yes', f.only e) refl)
              aligned.1 (λ x. omega (arith, count x, w.once x))
              (λ x some_free. w.within x (omega (arith, count x)));
        start = aligned.0;
        count = count;
        rest = refl;
        size = length-set b.free_lists o v;
      }

  -- `free_list_pop` on a well-formed heap.
  pub pop-Popped : Popped o b ls (free_list_pop o b)
  unfolding free_list_pop
  pop-Popped =
      elim (front o p b ls (get_or ls o []) lt refl (w.chains o)
        (λ e. subst (λ n. Top (get_or b.free_lists n 0) (get_or ls n [])) (sym e) w.top)) [
          | inl (z, e) ↦ rw z (inl (refl, refl, e))
          | inr f ↦
              let some_block : (p == 0) ≡ false = ground (arith, f.not_null) in
              rw some_block (inr (f.not_null, popped f))
        ]

  element :
      (a : ℕ) (l : List ℕ)
      → has a l ≡ true
      → Aligned b.heap (bytes b o) l
      → ((q : ℕ) × (a ≡ b.heap + q * bytes b o)) × Aligned b.heap (bytes b o) (without a l)
  element a [] h al = absurd (ground arith)
  element a (x ∷ l) h ((q, e), al) = elim (Bool-cases (x == a)) [
    | inl here ↦ let same : x ≡ a = ground arith in rw here ((q, sym same ∙ e), al)
    | inr later ↦ let ih = element a l (ground arith) al in rw later (ih.0, ((q, e), ih.1))
  ]

  -- Below the last order, `free_list_remove` takes the
  -- block out of the list if it is there, and changes nothing if it is not.
  pub remove-Taken :
      (a : ℕ)
      → o < last b
      → (free_list_remove o a b ≡ some (false, b))
        ⊎ ((b' : BuddyAlloc) × (free_list_remove o a b ≡ some (true, b')) × Taken o a b ls b')
  unfolding free_list_remove
  remove-Taken a below =
      let xs = get_or ls o [] in
      let runs =
        remove_loop_lem (suc b.heap_length) (head o) a b xs (omega (arith, list_length b ls o w lt))
          (w.chains o below) in
      elim (Bool-cases (has a xs)) [
        | inr missing ↦ inl (runs ∙ rw missing refl)
        | inl found ↦
            let b' = write (cell_of (head o) a xs) (b.next a) b in
            let r =
              write-Removed (bytes b o) o a xs b (bytes_pos b o) lt (w.chains o below) found (λ z.
                omega (
                  arith,
                  covered-le b.min_block_size_log2 ls o z (omega (arith, w.lists)),
                  w.once z,
                )) in
            let el = element a xs found (w.aligned o lt) in
            let count =
              count_set a (without a xs) (λ x. covered-without (bytes b o) a xs x found) in
            let same : b' ≡ record b { free_lists = b'.free_lists; next = b'.next } =
              λ i. record (r.rest i) { free_lists = b'.free_lists; next = b'.next } in
            inr (
              b',
              runs ∙ rw found refl,
              record {
                left = set ls o (without a xs);
                heap =
                    subst (λ z. IsHeap z (set ls o (without a xs))) (sym same)
                      (IsHeap-change b ls o (without a xs) b'.free_lists b'.next w lt r.size r.heads
                        (λ j x ne inside_list c. r.links x (
                          omega (
                            arith,
                            covered-two b.min_block_size_log2 ls o j x (omega (arith, w.lists))
                                (omega (arith, w.lists)) (λ e. ne (sym e)),
                            w.once x,
                          )))
                        (λ lower. r.chain) (λ e. absurd (omega arith)) el.1
                        (λ x. omega (arith, count x, w.once x))
                        (λ x some_free. w.within x (omega (arith, count x))));
                start = el.0;
                count = count;
                rest = r.rest;
                size = r.size;
              },
            )
      ]
