-- ===== src/Coremark/ListJoin/Sort/Chunks.antt =====
-- The sorted parts that a list falls into between two passes of coremark/core_list_join.c.
use multiplix.Prelude.{
  ℕ, ◌+◌, ◌*◌, ◌≤◌, ◌<◌, List, [], ◌∷◌, ◌++◌, length, length-append, ◌≡◌, ◌⊎◌, inl, inr, refl, ap,
  arith,
}
use multiplix.Coremark.ListJoin.Laws.{count, reversed}
use multiplix.Coremark.ListJoin.Sort.Merging.{
  merge, Sorted, merge-Sorted, count-merge, length-merge, count-append,
}

abbrev pub concat : List (List ℕ) → List ℕ
concat [] = []
concat (c ∷ cs) = c ++ concat cs

-- All parts but the last have `n` cells; the last one has at most so many, and one at least.
abbrev pub Chunked : ℕ → List (List ℕ) → Type 0
Chunked n [] = Unit {0}
Chunked n (c ∷ []) = (0 < length c) × (length c ≤ n)
Chunked n (c ∷ d ∷ cs) = (length c ≡ n) × Chunked n (d ∷ cs)

-- The parts after a pass.
abbrev pub pass : (ℕ → ℕ) → List (List ℕ) → List (List ℕ)
pass k [] = []
pass k (c ∷ []) = c ∷ []
pass k (c ∷ d ∷ cs) = merge k c d ∷ pass k cs

abbrev pub AllSorted : (ℕ → ℕ) → List (List ℕ) → Type 0
AllSorted k [] = Unit {0}
AllSorted k (c ∷ cs) = Sorted k c × AllSorted k cs

abbrev pub singles : List ℕ → List (List ℕ)
singles [] = []
singles (x ∷ xs) = (x ∷ []) ∷ singles xs

pub append-nil : (xs : List ℕ) → xs ++ [] ≡ xs
append-nil [] = refl
append-nil (x ∷ xs) = ap (λ ys. x ∷ ys) (append-nil xs)

pub reversed-append : (xs ys zs : List ℕ) → reversed (xs ++ ys) zs ≡ reversed ys (reversed xs zs)
reversed-append [] ys zs = refl
reversed-append (x ∷ xs) ys zs = reversed-append xs ys (x ∷ zs)

pub reversed-reversed : (xs ys zs : List ℕ) → reversed (reversed xs ys) zs ≡ reversed ys (xs ++ zs)
reversed-reversed [] ys zs = refl
reversed-reversed (x ∷ xs) ys zs = reversed-reversed xs (x ∷ ys) zs

pub Chunked-chunk :
    (n : ℕ) (c : List ℕ) (cs : List (List ℕ))
    → 0 < n
    → Chunked n (c ∷ cs)
    → (0 < length c) × (length c ≤ n)
Chunked-chunk n c [] pos h = h
Chunked-chunk n c (d ∷ cs) pos (e, h) = (omega arith, omega arith)

pub Chunked-tail : (n : ℕ) (c : List ℕ) (cs : List (List ℕ)) → Chunked n (c ∷ cs) → Chunked n cs
Chunked-tail n c [] h = tt
Chunked-tail n c (d ∷ cs) (e, h) = h

pub Chunked-full :
    (n : ℕ) (c : List ℕ) (cs : List (List ℕ))
    → Chunked n (c ∷ cs)
    → (concat cs ≡ []) ⊎ (length c ≡ n)
Chunked-full n c [] h = inl refl
Chunked-full n c (d ∷ cs) (e, h) = inr e

pub Chunked-pass :
    (k : ℕ → ℕ) (n : ℕ) (cs : List (List ℕ)) → 0 < n → Chunked n cs → Chunked (n * 2) (pass k cs)
Chunked-pass k n [] pos h = tt
Chunked-pass k n (c ∷ []) pos (some_there, le) = (some_there, omega arith)
Chunked-pass k n (c ∷ d ∷ []) pos (e, (some_there, le)) =
    (omega (arith, length-merge k c d), omega (arith, length-merge k c d))
Chunked-pass k n (c ∷ d ∷ e ∷ []) pos (le, (le', h)) =
    (omega (arith, length-merge k c d), Chunked-pass k n (e ∷ []) pos h)
Chunked-pass k n (c ∷ d ∷ e ∷ e' ∷ cs) pos (le, (le', h)) =
    (omega (arith, length-merge k c d), Chunked-pass k n (e ∷ e' ∷ cs) pos h)

pub AllSorted-pass : (k : ℕ → ℕ) (cs : List (List ℕ)) → AllSorted k cs → AllSorted k (pass k cs)
AllSorted-pass k [] h = h
AllSorted-pass k (c ∷ []) h = h
AllSorted-pass k (c ∷ d ∷ cs) (hc, (hd, h)) = (merge-Sorted k c d hc hd, AllSorted-pass k cs h)

pub count-pass :
    (k : ℕ → ℕ) (a : ℕ) (cs : List (List ℕ)) → count a (concat (pass k cs)) ≡ count a (concat cs)
count-pass k a [] = refl
count-pass k a (c ∷ []) = refl
count-pass k a (c ∷ d ∷ cs) = omega (
  arith,
  count-append a (merge k c d) (concat (pass k cs)),
  count-merge k a c d,
  count-pass k a cs,
  count-append a c (d ++ concat cs),
  count-append a d (concat cs),
)

pub length-concat-pass :
    (k : ℕ → ℕ) (cs : List (List ℕ)) → length (concat (pass k cs)) ≡ length (concat cs)
length-concat-pass k [] = refl
length-concat-pass k (c ∷ []) = refl
length-concat-pass k (c ∷ d ∷ cs) = omega (
  arith,
  length-append (merge k c d) (concat (pass k cs)),
  length-merge k c d,
  length-concat-pass k cs,
  length-append c (d ++ concat cs),
  length-append d (concat cs),
)

-- A pass leaves no more than half of the parts, rounded up.
pub length-pass : (k : ℕ → ℕ) (cs : List (List ℕ)) → length (pass k cs) * 2 ≤ length cs + 1
length-pass k [] = omega arith
length-pass k (c ∷ []) = omega arith
length-pass k (c ∷ d ∷ cs) = omega (arith, length-pass k cs)

pub singles-Chunked : (xs : List ℕ) → Chunked 1 (singles xs)
singles-Chunked [] = tt
singles-Chunked (x ∷ []) = (omega arith, omega arith)
singles-Chunked (x ∷ y ∷ xs) = (refl, singles-Chunked (y ∷ xs))

pub singles-AllSorted : (k : ℕ → ℕ) (xs : List ℕ) → AllSorted k (singles xs)
singles-AllSorted k [] = tt
singles-AllSorted k (x ∷ xs) = ((tt, tt), singles-AllSorted k xs)

pub concat-singles : (xs : List ℕ) → concat (singles xs) ≡ xs
concat-singles [] = refl
concat-singles (x ∷ xs) = ap (λ ys. x ∷ ys) (concat-singles xs)

pub length-singles : (xs : List ℕ) → length (singles xs) ≡ length xs
length-singles [] = refl
length-singles (x ∷ xs) = omega (arith, length-singles xs)
