-- ===== src/Coremark/ListJoin/Sort/Passes.antt =====
-- One pass of the merge sort of coremark/core_list_join.c over the parts of the list.
use mathlib.Core.Path.{subst}
use multiplix.Prelude.{
  ℕ, zero, suc, ◌+◌, ◌≤◌, ◌<◌, List, [], ◌∷◌, ◌++◌, length, length-append, true, false, ◌≡◌, ◌⊎◌,
  refl, sym, ◌∙◌, ap, arith, ◌==◌, inl, inr, Option, some,
}
use multiplix.Coremark.ListJoin.{Memory}
use multiplix.Coremark.ListJoin.Laws.{Linked, count, reversed}
use multiplix.Coremark.ListJoin.Sort.{ListCmp, Merge, step_along, pass_loop}
use multiplix.Coremark.ListJoin.Sort.Merging.{
  merge, merge-nil, count-append, count-reversed, count-merge,
}
use multiplix.Coremark.ListJoin.Sort.Chains.{head, Emitted}
use multiplix.Coremark.ListJoin.Sort.Chunks.{
  concat, Chunked, pass, Chunked-chunk, Chunked-full, Chunked-tail, append-nil, reversed-append,
}
use multiplix.Coremark.ListJoin.Sort.Rounds.{Compares, merge_rounds-Merged}
use multiplix.Coremark.ListJoin.Sort.Moves.{Apart}
use multiplix.Coremark.ListJoin.Sort.Along.{step_along-Along}

Apart-split : (r c d : List ℕ) → Apart r [] (c ++ d) → Apart r c d
Apart-split r c d h = record {
  once = λ a. omega (arith, h.once a, count-append a c d);
  no_null = omega (arith, h.no_null, count-append 0 c d);
}

module _ {R : Type 0} (cmp : ListCmp R) (k : ℕ → ℕ) (Inv : R → Memory → Type 0)
    (by : Compares cmp k Inv) where
  Apart-merged :
      (r c d rest : List ℕ)
      → Apart r [] (c ++ (d ++ rest))
      → Apart (reversed (merge k c d) r) [] rest
  Apart-merged r c d rest h =
      let same : (a : ℕ)
          → count a (reversed (merge k c d) r) + count a rest
            ≡ count a r + count a (c ++ (d ++ rest)) =
        λ a. omega (
          arith,
          count-reversed a (merge k c d) r,
          count-merge k a c d,
          count-append a c (d ++ rest),
          count-append a d rest,
        ) in
      record {
        once = λ a. omega (arith, h.once a, same a);
        no_null = omega (arith, h.no_null, same 0);
      }

  -- What is left to do after the turn for `c` and `d`.
  abbrev Turned : (f n nmerges : ℕ) (r c d rest : List ℕ) → Option (ℕ × ℕ × ℕ × R × Memory) → Type 0
  Turned f n nmerges r c d rest out =
      (s : Merge) × (res : R) × (m : Memory) × (out
        ≡ pass_loop cmp f n nmerges s.q s.list s.tail res m)
      × Emitted m.next s.list (reversed (merge k c d) r)
      × (s.tail ≡ head (reversed (merge k c d) r))
      × Linked m.next s.q rest
      × Inv res m

  turn :
      (f n nmerges x : ℕ) (r c d rest : List ℕ) (p list tail : ℕ) (res : R) (m : Memory)
      → suc (length c) + length d < suc f
      → (suc (length c) ≡ n) ⊎ ((d ++ rest ≡ []) × (suc (length c) ≤ n))
      → length d ≤ n
      → (rest ≡ []) ⊎ (length d ≡ n)
      → Apart r [] (x ∷ c ++ (d ++ rest))
      → Emitted m.next list r
      → tail ≡ head r
      → Linked m.next p (x ∷ c ++ (d ++ rest))
      → Inv res m
      → Turned f n
          (suc nmerges)
          r
          (x ∷ c)
          d
          rest
          (pass_loop cmp (suc f) n nmerges p list tail res m)
  unfolding pass_loop
  turn f n nmerges x r c d rest p list tail res m lt full dsize whole apart out at linked inv =
      let (here, ne, past) = linked in
      let z : (p == 0) ≡ false = ground arith in
      let (size, run, behind) = step_along-Along n 0 p x c (d ++ rest) m full linked in
      let along = step_along n 0 p m in
      let s : Merge = record {
        p = p;
        psize = along.0;
        q = along.1;
        qsize = n;
        list = list;
        tail = tail;
      } in
      let (s', res', m', e, out', at', past', inv') =
        merge_rounds-Merged cmp k Inv by (suc f) r (x ∷ c) d rest lt
          (Apart-split r (x ∷ c) (d ++ rest) apart) s res m
          (record {
            out = out;
            tail = at;
            from = run;
            behind = behind;
            psize = omega (arith, size);
            qsize = dsize;
            whole = whole;
          })
          inv in
      (s', res', m', rw (z, e, pass_loop) refl, out', at', past', inv')

  -- What the pass returns.
  abbrev pub Passed :
      (nmerges : ℕ) (r : List ℕ) (cs : List (List ℕ)) → Option (ℕ × ℕ × ℕ × R × Memory) → Type 0
  Passed nmerges r cs out =
      (list : ℕ) × (tail : ℕ) × (res : R) × (m : Memory) × (out
        ≡ some (nmerges + length (pass k cs), list, tail, res, m))
      × Emitted m.next list (reversed (concat (pass k cs)) r)
      × (tail ≡ head (reversed (concat (pass k cs)) r))
      × Inv res m

  pub pass_loop-Passed :
      (f n nmerges : ℕ) (r : List ℕ) (cs : List (List ℕ)) (p list tail : ℕ) (res : R) (m : Memory)
      → length (concat cs) < f
      → 0 < n
      → Chunked n cs
      → Apart r [] (concat cs)
      → Emitted m.next list r
      → tail ≡ head r
      → Linked m.next p (concat cs)
      → Inv res m
      → Passed nmerges r cs (pass_loop cmp f n nmerges p list tail res m)
  unfolding pass_loop
  pass_loop-Passed zero n nmerges r cs p list tail res m lt pos chunks apart out at linked inv =
      absurd (omega arith)
  pass_loop-Passed (suc f) n nmerges r [] p list tail res m lt pos chunks apart out at linked inv =
      let z : (p == 0) ≡ true = ground arith in
      (
        list,
        tail,
        res,
        m,
        rw (z, pass_loop) (ap (λ a. some (a, list, tail, res, m)) (omega arith)),
        out,
        at,
        inv,
      )
  pass_loop-Passed (suc f) n nmerges r ([] ∷ cs) p list tail res m lt pos chunks apart out at linked
        inv =
      absurd (ground (arith, Chunked-chunk n [] cs pos chunks))
  pass_loop-Passed (suc f) n nmerges r ((x ∷ c) ∷ []) p list tail res m lt pos chunks apart out at
        linked inv =
      let (s, res1, m1, e, out1, at1, linked1, inv1) =
        turn f n nmerges x r c [] [] p list tail res m (omega (arith, length-append c []))
          (inr (refl, chunks.1)) (omega arith) (inl refl) apart out at linked inv in
      let (list', tail', res', m', run, out', at', inv') =
        pass_loop-Passed f n (suc nmerges) (reversed (merge k (x ∷ c) []) r) [] s.q s.list s.tail
          res1 m1 (omega (arith, length-append c [])) pos tt (Apart-merged r (x ∷ c) [] [] apart)
          out1 at1 linked1 inv1 in
      let same : reversed (merge k (x ∷ c) []) r ≡ reversed (x ∷ c ++ []) r =
        ap (λ a. reversed a r) (merge-nil k (x ∷ c) ∙ sym (append-nil (x ∷ c))) in
      (
        list',
        tail',
        res',
        m',
        e ∙ run ∙ ap (λ a. some (a, list', tail', res', m')) (omega arith),
        subst (λ a. Emitted m'.next list' a) same out',
        subst (λ a. tail' ≡ head a) same at',
        inv',
      )
  pass_loop-Passed (suc f) n nmerges r ((x ∷ c) ∷ d ∷ cs) p list tail res m lt pos chunks apart out
        at linked inv =
      let (of_d, few) = Chunked-chunk n d cs pos chunks.1 in
      let size = length-append c (d ++ concat cs) in
      let size_d = length-append d (concat cs) in
      let (s, res1, m1, e, out1, at1, linked1, inv1) =
        turn f n nmerges x r c d (concat cs) p list tail res m (omega arith) (inl chunks.0) few
          (Chunked-full n d cs chunks.1) apart out at linked inv in
      let (list', tail', res', m', run, out', at', inv') =
        pass_loop-Passed f n (suc nmerges) (reversed (merge k (x ∷ c) d) r) cs s.q s.list s.tail
          res1 m1 (omega arith) pos (Chunked-tail n d cs chunks.1)
          (Apart-merged r (x ∷ c) d (concat cs) apart) out1 at1 linked1 inv1 in
      let same = reversed-append (merge k (x ∷ c) d) (concat (pass k cs)) r in
      (
        list',
        tail',
        res',
        m',
        e ∙ run ∙ ap (λ a. some (a, list', tail', res', m')) (omega arith),
        subst (λ a. Emitted m'.next list' a) (sym same) out',
        subst (λ a. tail' ≡ head a) (sym same) at',
        inv',
      )
