-- ===== src/Coremark/ListJoin/Sort/Merging.antt =====
-- Merging sorted lists, as a specification of `core_list_mergesort` of coremark/core_list_join.c.
use multiplix.Prelude.{
  ℕ, ◌+◌, ◌≤◌, List, [], ◌∷◌, ◌++◌, length, true, false, ◌≡◌, refl, ◌∙◌, ap, arith, leb, Bool-cases,
  inl, inr,
}
use multiplix.Coremark.ListJoin.Laws.{count, reversed}

pub count-append :
    (cell : ℕ) (ps qs : List ℕ) → count cell ps + count cell qs ≡ count cell (ps ++ qs)
count-append cell [] qs = omega arith
count-append cell (p ∷ ps) qs = omega (arith, count-append cell ps qs)

pub count-reversed : (a : ℕ) (ps qs : List ℕ) → count a (reversed ps qs) ≡ count a ps + count a qs
count-reversed a [] qs = omega arith
count-reversed a (p ∷ ps) qs = omega (arith, count-reversed a ps (p ∷ qs))

-- The cells are ordered by the keys `k`.
module _ (k : ℕ → ℕ) where
  -- The first of two equal keys is that of the first list.
  unfoldable pub merge : List ℕ → List ℕ → List ℕ
  merge [] qs = qs
  merge (p ∷ ps) [] = p ∷ ps
  merge (p ∷ ps) (q ∷ qs) = elim (leb (k p) (k q)) [
    | true ↦ p ∷ merge ps (q ∷ qs)
    | false ↦ q ∷ merge (p ∷ ps) qs
  ]

  -- No key is below `b`.
  abbrev pub Above : ℕ → List ℕ → Type 0
  Above b [] = Unit {0}
  Above b (p ∷ ps) = (b ≤ k p) × Above b ps

  abbrev pub Sorted : List ℕ → Type 0
  Sorted [] = Unit {0}
  Sorted (p ∷ ps) = Above (k p) ps × Sorted ps

  Above-weaken : (b c : ℕ) (ps : List ℕ) → c ≤ b → Above b ps → Above c ps
  Above-weaken b c [] le h = tt
  Above-weaken b c (p ∷ ps) le (h, hs) = (omega arith, Above-weaken b c ps le hs)

  pub merge-nil : (ps : List ℕ) → merge ps [] ≡ ps
  unfolding merge
  merge-nil [] = refl
  merge-nil (p ∷ ps) = refl

  pub merge_left :
      (p q : ℕ) (ps qs : List ℕ)
      → leb (k p) (k q) ≡ true
      → merge (p ∷ ps) (q ∷ qs) ≡ p ∷ merge ps (q ∷ qs)
  unfolding merge
  merge_left p q ps qs e = rw (e, merge) refl

  pub merge_right :
      (p q : ℕ) (ps qs : List ℕ)
      → leb (k p) (k q) ≡ false
      → merge (p ∷ ps) (q ∷ qs) ≡ q ∷ merge (p ∷ ps) qs
  unfolding merge
  merge_right p q ps qs e = rw (e, merge) refl

  pub count-merge : (a : ℕ) (ps qs : List ℕ) → count a (merge ps qs) ≡ count a ps + count a qs
  unfolding merge
  count-merge a [] qs = omega arith
  count-merge a (p ∷ ps) [] = omega arith
  count-merge a (p ∷ ps) (q ∷ qs) = elim (Bool-cases (leb (k p) (k q))) [
    | inl e ↦ ap (count a) (merge_left p q ps qs e) ∙ omega (arith, count-merge a ps (q ∷ qs))
    | inr e ↦ ap (count a) (merge_right p q ps qs e) ∙ omega (arith, count-merge a (p ∷ ps) qs)
  ]

  pub length-merge : (ps qs : List ℕ) → length (merge ps qs) ≡ length ps + length qs
  unfolding merge
  length-merge [] qs = omega arith
  length-merge (p ∷ ps) [] = omega arith
  length-merge (p ∷ ps) (q ∷ qs) = elim (Bool-cases (leb (k p) (k q))) [
    | inl e ↦ ap length (merge_left p q ps qs e) ∙ omega (arith, length-merge ps (q ∷ qs))
    | inr e ↦ ap length (merge_right p q ps qs e) ∙ omega (arith, length-merge (p ∷ ps) qs)
  ]

  merge-Above : (b : ℕ) (ps qs : List ℕ) → Above b ps → Above b qs → Above b (merge ps qs)
  unfolding merge
  merge-Above b [] qs h h' = h'
  merge-Above b (p ∷ ps) [] h h' = h
  merge-Above b (p ∷ ps) (q ∷ qs) (hx, h) (hy, h') = elim (Bool-cases (leb (k p) (k q))) [
    | inl e ↦ rw (merge_left p q ps qs e) (hx, merge-Above b ps (q ∷ qs) h (hy, h'))
    | inr e ↦ rw (merge_right p q ps qs e) (hy, merge-Above b (p ∷ ps) qs (hx, h) h')
  ]

  pub merge-Sorted : (ps qs : List ℕ) → Sorted ps → Sorted qs → Sorted (merge ps qs)
  unfolding merge
  merge-Sorted [] qs h h' = h'
  merge-Sorted (p ∷ ps) [] h h' = h
  merge-Sorted (p ∷ ps) (q ∷ qs) (hx, h) (hy, h') = elim (Bool-cases (leb (k p) (k q))) [
    | inl e ↦
        let le : k p ≤ k q = ground arith in
        rw (merge_left p q ps qs e) (
          merge-Above (k p) ps (q ∷ qs) hx (le, Above-weaken (k q) (k p) qs le hy),
          merge-Sorted ps (q ∷ qs) h (hy, h'),
        )
    | inr e ↦
        let le : k q ≤ k p = ground arith in
        rw (merge_right p q ps qs e) (
          merge-Above (k q) (p ∷ ps) qs (le, Above-weaken (k p) (k q) ps le hx) hy,
          merge-Sorted (p ∷ ps) qs (hx, h) h',
        )
  ]
