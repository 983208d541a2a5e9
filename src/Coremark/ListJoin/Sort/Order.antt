-- ===== src/Coremark/ListJoin/Sort/Order.antt =====
-- The merge sort of coremark/core_list_join.c whole: the loop over `insize`.
use mathlib.Core.Path.{subst}
use multiplix.Prelude.{
  ℕ, zero, suc, ◌+◌, ◌*◌, ◌^◌, ◌≤◌, ◌<◌, List, [], ◌∷◌, ◌++◌, length, length-append, true, false,
  ◌≡◌, ◌≢◌, refl, sym, ◌∙◌, ap, arith, ◌==◌, leb, ltb, Bool-cases, inl, inr, Option, some, ◌>>=◌,
}
use multiplix.Coremark.ListJoin.{Memory, put, set_next}
use multiplix.Coremark.ListJoin.Laws.{Linked, count, reversed}
use multiplix.Coremark.ListJoin.Sort.{ListCmp, pass_loop, sort_loop, core_list_mergesort}
use multiplix.Coremark.ListJoin.Sort.Merging.{Sorted, count-reversed}
use multiplix.Coremark.ListJoin.Sort.Chains.{head, Emitted, Emitted-put, Emitted-Linked}
use multiplix.Coremark.ListJoin.Sort.Chunks.{
  concat, Chunked, AllSorted, pass, singles, append-nil, reversed-reversed, Chunked-chunk,
  Chunked-pass, AllSorted-pass, count-pass, length-concat-pass, length-pass, singles-Chunked,
  singles-AllSorted, concat-singles, length-singles,
}
use multiplix.Coremark.ListJoin.Sort.Rounds.{Compares}
use multiplix.Coremark.ListJoin.Sort.Moves.{Apart}
use multiplix.Coremark.ListJoin.Sort.Passes.{pass_loop-Passed}

-- The whole list after a pass, once its last cell is ended by a null link.
ended :
    (next : ℕ → ℕ) (list tail : ℕ) (xs r : List ℕ)
    → r ≡ reversed xs []
    → 0 < length r
    → ((a : ℕ) → count a r ≤ 1)
    → count 0 r ≡ 0
    → Emitted next list r
    → tail ≡ head r
    → (tail ≢ 0) × Linked (put next tail 0) list xs
ended next list tail xs [] e some_there once no_null h at = absurd (omega arith)
ended next list tail xs (x ∷ r) e some_there once no_null h at =
    let closed : put next tail 0 x ≡ 0 = ground arith in
    let still : Emitted (put next tail 0) list (x ∷ r) =
      subst (λ a. Emitted (put next a 0) list (x ∷ r)) (sym at)
        (Emitted-put next x 0 list x r (ground (arith, once x)) h) in
    let whole : reversed (x ∷ r) [] ≡ xs =
      ap (λ a. reversed a []) e ∙ reversed-reversed xs [] [] ∙ append-nil xs in
    (
      (λ z. absurd (ground arith)),
      subst (λ a. Linked (put next tail 0) list a) whole
          (Emitted-Linked (put next tail 0) list 0 x r [] no_null closed still refl),
    )

length-reversed : (xs ys : List ℕ) → length (reversed xs ys) ≡ length xs + length ys
length-reversed [] ys = omega arith
length-reversed (x ∷ xs) ys = omega (arith, length-reversed xs (x ∷ ys))

-- A list that has more than one part has more cells than its first part.
Chunked-longer :
    (n : ℕ) (cs : List (List ℕ)) → 0 < n → Chunked n cs → 1 < length cs → n < length (concat cs)
Chunked-longer n [] pos h lt = absurd (omega arith)
Chunked-longer n (c ∷ []) pos h lt = absurd (omega arith)
Chunked-longer n (c ∷ d ∷ cs) pos (e, h) lt = omega (
  arith,
  (Chunked-chunk n d cs pos h).0,
  length-append c (d ++ concat cs),
  length-append d (concat cs),
)

module _ {R : Type 0} (cmp : ListCmp R) (k : ℕ → ℕ) (Inv : R → Memory → Type 0)
    (by : Compares cmp k Inv) where
  -- What the sort returns for the cells `xs`.
  abbrev pub Sorts : List ℕ → Option (ℕ × R × Memory) → Type 0
  Sorts xs out =
      (list : ℕ) × (res : R) × (m : Memory) × (ys : List ℕ) × (out ≡ some (list, res, m))
      × Linked m.next list ys
      × Sorted k ys
      × ((a : ℕ) → count a ys ≡ count a xs)
      × Inv res m

  last_pass :
      (cs : List (List ℕ)) (n : ℕ)
      → leb (length cs) 1 ≡ true
      → AllSorted k cs
      → Sorted k (concat cs)
  last_pass [] n le h = tt
  last_pass (c ∷ []) n le (h, t) = rw (append-nil c) h
  last_pass (c ∷ d ∷ cs) n le h = absurd (ground arith)

  module _ (f n list list' tail nmerges : ℕ) (res res' : R) (m m' : Memory)
      (run : pass_loop cmp (suc f) n 0 list 0 0 res m ≡ some (nmerges, list', tail, res', m'))
      (there : (tail == 0) ≡ false) where
    sort_loop_last :
        leb nmerges 1 ≡ true
        → sort_loop cmp (suc f) n list res m ≡ some (list', res', set_next tail 0 m')
    unfolding sort_loop
    sort_loop_last last = rw (run, ◌>>=◌, there, last) refl

    sort_loop_next :
        leb nmerges 1 ≡ false
        → ltb (n * 2) (2 ^ 31) ≡ true
        → sort_loop cmp (suc f) n list res m
          ≡ sort_loop cmp f (n * 2) list' res' (set_next tail 0 m')
    unfolding sort_loop
    sort_loop_next more small = rw (run, sort_loop, ◌>>=◌, there, more, small) refl

  sort_loop-Sorts :
      (f n : ℕ) (cs : List (List ℕ)) (list : ℕ) (res : R) (m : Memory)
      → length (concat cs) + length cs < f
      → 0 < length (concat cs)
      → length (concat cs) < 2 ^ 30
      → 0 < n
      → Chunked n cs
      → AllSorted k cs
      → Apart [] [] (concat cs)
      → Linked m.next list (concat cs)
      → Inv res m
      → Sorts (concat cs) (sort_loop cmp f n list res m)
  sort_loop-Sorts zero n cs list res m lt some_there few pos chunks sorted apart linked inv =
      absurd (omega arith)
  sort_loop-Sorts (suc f) n cs list res m lt some_there few pos chunks sorted apart linked inv =
      let xs = concat (pass k cs) in
      let (list', tail, res', m', run, out, at, inv') =
        pass_loop-Passed cmp k Inv by (suc f) n 0 [] cs list 0 0 res m (omega arith) pos chunks
          apart tt refl linked inv in
      let same : (a : ℕ) → count a xs ≡ count a (concat cs) = λ a. count-pass k a cs in
      let size : length xs ≡ length (concat cs) = length-concat-pass k cs in
      let no_more : 0 + length (pass k cs) ≡ length (pass k cs) = omega arith in
      let run' = run ∙ ap (λ a. some (a, list', tail, res', m')) no_more in
      let half = length-pass k cs in
      let (tail_there, linked') =
        ended m'.next list' tail xs (reversed xs []) refl
          (omega (arith, length-reversed xs [], size))
          (λ a. omega (arith, count-reversed a xs [], same a, apart.once a))
          (omega (arith, count-reversed 0 xs [], same 0, apart.no_null)) out at in
      let m1 = set_next tail 0 m' in
      let inv1 = by.keep res' m' m1.next inv' in
      let z : (tail == 0) ≡ false = ground arith in
      let sorted' = AllSorted-pass k cs sorted in
      elim (Bool-cases (leb (length (pass k cs)) 1)) [
        | inl done ↦ (
          list',
          res',
          m1,
          xs,
          sort_loop_last f n list list' tail (length (pass k cs)) res res' m m' run' z done,
          linked',
          last_pass (pass k cs) n done sorted',
          same,
          inv1,
        )
        | inr more ↦
            let many : 1 < length (pass k cs) = ground arith in
            let small : ltb (n * 2) (2 ^ 31) ≡ true =
              ground (arith, Chunked-longer n cs pos chunks (omega arith)) in
            let (list2, res2, m2, ys, run2, linked2, sorted2, same2, inv2) =
              sort_loop-Sorts f (n * 2) (pass k cs) list' res' m1 (omega (arith, size))
                (omega (arith, size)) (omega (arith, size)) (omega arith)
                (Chunked-pass k n cs pos chunks) sorted'
                (record {
                  once = λ a. omega (arith, same a, apart.once a);
                  no_null = omega (arith, same 0, apart.no_null);
                })
                linked' inv1 in
            (
              list2,
              res2,
              m2,
              ys,
              sort_loop_next f n list list' tail (length (pass k cs)) res res' m m' run' z more
                    small
                  ∙ run2,
              linked2,
              sorted2,
              (λ a. same2 a ∙ same a),
              inv2,
            )
      ]

  -- For a list of 1 to 2 ^ 30 - 1 distinct cells and more fuel than twice their number, the sort
  -- by a comparison that goes by the keys `k` returns a list of the same cells in the order of
  -- their keys.
  pub core_list_mergesort-Sorts :
      (fuel : ℕ) (xs : List ℕ) (list : ℕ) (res : R) (m : Memory)
      → length xs * 2 < fuel
      → 0 < length xs
      → length xs < 2 ^ 30
      → ((a : ℕ) → count a xs ≤ 1)
      → count 0 xs ≡ 0
      → Linked m.next list xs
      → Inv res m
      → Sorts xs (core_list_mergesort cmp fuel list res m)
  unfolding core_list_mergesort
  core_list_mergesort-Sorts fuel xs list res m lt some_there few once no_null linked inv =
      let e = concat-singles xs in
      let size = length-singles xs in
      let len : length (concat (singles xs)) ≡ length xs = ap length e in
      subst (λ a. Sorts a (sort_loop cmp fuel 1 list res m)) e
        (sort_loop-Sorts fuel 1 (singles xs) list res m (omega arith) (omega arith) (omega arith)
          (omega arith) (singles-Chunked xs) (singles-AllSorted k xs)
          (record {
            once = λ a. omega (arith, once a, ap (count a) e);
            no_null = omega (arith, no_null, ap (count 0) e);
          })
          (subst (λ a. Linked m.next list a) (sym e) linked) inv)
