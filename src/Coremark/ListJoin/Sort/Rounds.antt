-- ===== src/Coremark/ListJoin/Sort/Rounds.antt =====
-- The merging loop of coremark/core_list_join.c against `merge`.
use mathlib.Core.Path.{subst}
use multiplix.Prelude.{
  ℕ, zero, suc, ◌+◌, ◌<◌, List, [], ◌∷◌, ◌++◌, length, Bool, true, false, ◌≡◌, refl, sym, ◌∙◌, ap,
  arith, ◌==◌, leb, not, ◌&&◌, ◌||◌, if◌then◌else◌, Bool-cases, inl, inr, Option, some,
}
use multiplix.Coremark.ListJoin.{Memory}
use multiplix.Coremark.ListJoin.Laws.{Linked, reversed}
use multiplix.Coremark.ListJoin.Sort.{ListCmp, Merge, from_p, from_q, merge_rounds}
use multiplix.Coremark.ListJoin.Sort.Merging.{merge, merge-nil, merge_left, merge_right}
use multiplix.Coremark.ListJoin.Sort.Chains.{head, Emitted, linked_to}
use multiplix.Coremark.ListJoin.Sort.Moves.{
  At, Apart, Apart-p, Apart-q, after_p, after_q, from_p-At, from_q-At,
}
use multiplix.Coremark.ListJoin.Sort.Turns.{round, step_q, step_p, step_cmp}

-- A comparison that goes by the keys `k` of the cells and changes no link, as long as `Inv` holds.
pub record Compares {R : Type 0} (cmp : ListCmp R) (k : ℕ → ℕ) (Inv : R → Memory → Type 0)
    : Type 0 where
  pub compare :
      (x y : ℕ) (res : R) (m : Memory)
      → Inv res m
      → (res' : R) × (m' : Memory) × (cmp (m.info x) (m.info y) res m
          ≡ some (leb (k x) (k y), res', m'))
        × (m'.next ≡ m.next)
        × Inv res' m'
  pub keep : (res : R) (m : Memory) (next : ℕ → ℕ) → Inv res m → Inv res (record m { next = next })

module _ {R : Type 0} (cmp : ListCmp R) (k : ℕ → ℕ) (Inv : R → Memory → Type 0)
    (by : Compares cmp k Inv) where
  -- What the loop returns.
  abbrev pub Merged : (ps qs r rest : List ℕ) → Option (Merge × R × Memory) → Type 0
  Merged ps qs r rest out =
      (s' : Merge) × (res' : R) × (m' : Memory) × (out ≡ some (s', res', m'))
      × Emitted m'.next s'.list (reversed (merge k ps qs) r)
      × (s'.tail ≡ head (reversed (merge k ps qs) r))
      × Linked m'.next s'.q rest
      × Inv res' m'

  Loop : ℕ → (r ps qs rest : List ℕ) → Type 0
  Loop f r ps qs rest =
      (s : Merge) (res : R) (m : Memory)
      → At s m.next r ps qs rest
      → Inv res m
      → Merged ps qs r rest (merge_rounds cmp f s res m)

  Loop-end : (f : ℕ) (r rest : List ℕ) → Loop (suc f) r [] [] rest
  unfolding Loop merge_rounds merge
  Loop-end f r rest s res m at inv =
      let a : (s.psize == 0) ≡ true = ground (arith, at.psize) in
      let b : (not (s.qsize == 0) && not (s.q == 0)) ≡ false = elim at.whole [
        | inl e ↦
            let c : s.q ≡ 0 = subst (λ (z : List ℕ). Linked m.next s.q z) e at.behind in
            ground arith
        | inr e ↦ ground arith
      ] in
      (s, res, m, rw (a, b, merge_rounds) refl, at.out, at.tail, at.behind, inv)

  Loop-q :
      (f : ℕ) (r qs rest : List ℕ) (y : ℕ)
      → Apart r [] (y ∷ qs ++ rest)
      → Loop f (y ∷ r) [] qs rest
      → Loop (suc f) r [] (y ∷ qs) rest
  unfolding Loop merge
  Loop-q f r qs rest y apart ih s res m at inv =
      let (e, next) = from_q-At s m r [] qs rest y apart at in
      let (here, ne, behind) = at.behind in
      let (s', res', m', run, out, tail, past, inv') =
        ih (after_q r s m) res (record m { next = linked_to r s.q m.next }) next
          (by.keep res m (linked_to r s.q m.next) inv) in
      (
        s',
        res',
        m',
        round cmp f s res m ((from_q s m).0, res, (from_q s m).1)
              (ground (arith, at.psize, at.qsize)) (step_q cmp s res m (ground (arith, at.psize)))
            ∙ ap (λ (z : Merge × Memory). merge_rounds cmp f z.0 res z.1) e
            ∙ run,
        out,
        tail,
        past,
        inv',
      )

  Loop-p :
      (f : ℕ) (r ps rest : List ℕ) (x : ℕ)
      → Apart r (x ∷ ps) rest
      → Loop f (x ∷ r) ps [] rest
      → Loop (suc f) r (x ∷ ps) [] rest
  unfolding Loop merge
  Loop-p f r ps rest x apart ih s res m at inv =
      let (e, next) = from_p-At s m r ps [] rest x apart at in
      let (s', res', m', run, out, tail, past, inv') =
        ih (after_p r s m) res (record m { next = linked_to r s.p m.next }) next
          (by.keep res m (linked_to r s.p m.next) inv) in
      let stop : ((s.qsize == 0) || (s.q == 0)) ≡ true = elim at.whole [
        | inl none_left ↦
            let c : s.q ≡ 0 = subst (λ (z : List ℕ). Linked m.next s.q z) none_left at.behind in
            ground arith
        | inr all_taken ↦ ground arith
      ] in
      (
        s',
        res',
        m',
        round cmp f s res m ((from_p s m).0, res, (from_p s m).1) (ground (arith, at.psize))
              (step_p cmp s res m (ground (arith, at.psize)) stop)
            ∙ ap (λ (z : Merge × Memory). merge_rounds cmp f z.0 res z.1) e
            ∙ run,
        rw (sym (merge-nil k ps)) out,
        rw (sym (merge-nil k ps)) tail,
        past,
        inv',
      )

  Loop-cmp :
      (f : ℕ) (r ps qs rest : List ℕ) (x y : ℕ)
      → Apart r (x ∷ ps) (y ∷ qs ++ rest)
      → Loop f (x ∷ r) ps (y ∷ qs) rest
      → Loop f (y ∷ r) (x ∷ ps) qs rest
      → Loop (suc f) r (x ∷ ps) (y ∷ qs) rest
  unfolding Loop
  Loop-cmp f r ps qs rest x y apart ih_p ih_q s res m at inv =
      let (at_p, from) = at.from in
      let (at_q, ne, behind) = at.behind in
      let (res1, m1, c, links, inv1) = by.compare s.p s.q res m inv in
      let at1 : At s m1.next r (x ∷ ps) (y ∷ qs) rest =
        subst (λ next. At s next r (x ∷ ps) (y ∷ qs) rest) (sym links) at in
      let same : leb (k s.p) (k s.q) ≡ leb (k x) (k y) = λ i. leb (k (at_p i)) (k (at_q i)) in
      let step : (first : Bool)
          → leb (k s.p) (k s.q) ≡ first
          → merge_rounds cmp (suc f) s res m ≡ (
              let z = if first then from_p s m1 else from_q s m1 in
              merge_rounds cmp f z.0 res1 z.1) =
        λ first e.
          let z = if first then from_p s m1 else from_q s m1 in
          round cmp f s res m (z.0, res1, z.1) (ground (arith, at.psize))
            (step_cmp cmp s res res1 m m1 first (ground (arith, at.psize))
              (ground (arith, at.qsize)) (c ∙ ap (λ b. some (b, res1, m1)) e)) in
      elim (Bool-cases (leb (k s.p) (k s.q))) [
        | inl e ↦
            let (e1, next) = from_p-At s m1 r ps (y ∷ qs) rest x apart at1 in
            let (s', res', m', run, out, tail, past, inv') =
              ih_p (after_p r s m1) res1 (record m1 { next = linked_to r s.p m1.next }) next
                (by.keep res1 m1 (linked_to r s.p m1.next) inv1) in
            let le = merge_left k x y ps qs (sym same ∙ e) in
            (
              s',
              res',
              m',
              step true e ∙ ap (λ (z : Merge × Memory). merge_rounds cmp f z.0 res1 z.1) e1 ∙ run,
              rw le out,
              rw le tail,
              past,
              inv',
            )
        | inr e ↦
            let (e1, next) = from_q-At s m1 r (x ∷ ps) qs rest y apart at1 in
            let (s', res', m', run, out, tail, past, inv') =
              ih_q (after_q r s m1) res1 (record m1 { next = linked_to r s.q m1.next }) next
                (by.keep res1 m1 (linked_to r s.q m1.next) inv1) in
            let gt = merge_right k x y ps qs (sym same ∙ e) in
            (
              s',
              res',
              m',
              step false e ∙ ap (λ (z : Merge × Memory). merge_rounds cmp f z.0 res1 z.1) e1 ∙ run,
              rw gt out,
              rw gt tail,
              past,
              inv',
            )
      ]

  -- With a round for each cell and one more the loop ends, and what it appends to the list is what
  -- merging gives.
  pub merge_rounds-Merged :
      (f : ℕ) (r ps qs rest : List ℕ)
      → length ps + length qs < f
      → Apart r ps (qs ++ rest)
      → (s : Merge) (res : R) (m : Memory) → At s m.next r ps qs rest
      → Inv res m
      → Merged ps qs r rest (merge_rounds cmp f s res m)
  unfolding Loop
  merge_rounds-Merged zero r ps qs rest lt apart = absurd (omega arith)
  merge_rounds-Merged (suc f) r [] [] rest lt apart = Loop-end f r rest
  merge_rounds-Merged (suc f) r [] (y ∷ qs) rest lt apart =
      Loop-q f r qs rest y apart
        (merge_rounds-Merged f (y ∷ r) [] qs rest (omega arith) (Apart-q r [] (qs ++ rest) y apart))
  merge_rounds-Merged (suc f) r (x ∷ ps) [] rest lt apart =
      Loop-p f r ps rest x apart
        (merge_rounds-Merged f (x ∷ r) ps [] rest (omega arith) (Apart-p r ps rest x apart))
  merge_rounds-Merged (suc f) r (x ∷ ps) (y ∷ qs) rest lt apart =
      Loop-cmp f r ps qs rest x y apart
        (merge_rounds-Merged f (x ∷ r) ps (y ∷ qs) rest (omega arith)
          (Apart-p r ps (y ∷ qs ++ rest) x apart))
        (merge_rounds-Merged f (y ∷ r) (x ∷ ps) qs rest (omega arith)
          (Apart-q r (x ∷ ps) (qs ++ rest) y apart))
