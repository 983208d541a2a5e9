-- ===== src/Coremark/ListJoin/Find.antt =====
-- What `core_list_find` of coremark/core_list_join.c returns.
use mathlib.Core.Path.{subst}
use multiplix.Prelude.{
  ℕ, zero, suc, ◌%◌, ◌^◌, ◌<◌, List, [], ◌∷◌, ◌++◌, length, Bool, true, false, ◌≡◌, ◌≢◌, ◌⊎◌, refl,
  sym, ap, arith, ◌==◌, ltb, if◌then◌else◌, Bool-cases, inl, inr, some,
}
use multiplix.Coremark.ListJoin.{Memory, find_from, core_list_find}
use multiplix.Coremark.ListJoin.Laws.{Linked}

abbrev pub NoneOf : (ℕ → Bool) → List ℕ → Type 0
NoneOf found [] = Unit {0}
NoneOf found (x ∷ xs) = (found x ≡ false) × NoneOf found xs

-- NULL where no cell is found, and otherwise the first that is.
abbrev pub First : (ℕ → Bool) → List ℕ → ℕ → Type 0
First found xs a =
    ((a ≡ 0) × NoneOf found xs)
    ⊎ ((before : List ℕ) × (after : List ℕ) × (xs ≡ before ++ a ∷ after)
        × NoneOf found before
        × (found a ≡ true)
        × (a ≢ 0))

-- A cell with the `idx` of `info`, or, where that is negative, one whose data's low byte is the
-- `data16` of `info`.
abbrev pub wanted : (info : ℕ) → Memory → ℕ → Bool
wanted info m x =
    if ltb (m.idx info) (2 ^ 15)
    then m.idx (m.info x) == m.idx info
    else m.data16 (m.info x) % 2 ^ 8 == m.data16 info

First-skip :
    (found : ℕ → Bool) (x : ℕ) (xs : List ℕ) (a : ℕ)
    → found x ≡ false
    → First found xs a
    → First found (x ∷ xs) a
First-skip found x xs a miss (inl (null, none_there)) = inl (null, (miss, none_there))
First-skip found x xs a miss (inr (before, after, e, earlier, hit, ne)) =
    inr (x ∷ before, after, ap (λ zs. x ∷ zs) e, (miss, earlier), hit, ne)

find_from-First :
    (f : ℕ) (found : ℕ → Bool) (list : ℕ) (m : Memory) (xs : List ℕ)
    → length xs < f
    → Linked m.next list xs
    → (a : ℕ) × (find_from f found list m ≡ some a) × First (λ x. found (m.info x)) xs a
unfolding find_from
find_from-First zero found list m xs lt linked = absurd (omega arith)
find_from-First (suc f) found list m [] lt linked =
    let z : (list == 0) ≡ true = ground arith in (0, rw z refl, inl (refl, tt))
find_from-First (suc f) found list m (x ∷ xs) lt (e, ne, linked) =
    let z : (list == 0) ≡ false = ground arith in
    elim (Bool-cases (found (m.info x))) [
      | inl hit ↦ (x, rw (z, e, hit) refl, inr ([], xs, refl, tt, hit, ne))
      | inr miss ↦
          let (a, run, first) = find_from-First f found (m.next x) m xs (omega arith) linked in
          (a, rw (z, e, miss) run, First-skip (λ y. found (m.info y)) x xs a miss first)
    ]

-- The test, with the branch that is taken.
same_test :
    (info : ℕ) (m : Memory) (b : Bool)
    → ltb (m.idx info) (2 ^ 15) ≡ b
    → (λ x.
        if b then m.idx (m.info x) == m.idx info else m.data16 (m.info x) % 2 ^ 8 == m.data16 info)
      ≡ wanted info m
same_test info m b e = λ i x.
    if (sym e) i
    then m.idx (m.info x) == m.idx info
    else m.data16 (m.info x) % 2 ^ 8 == m.data16 info

-- With more fuel than the list has cells, `core_list_find` ends and returns the first cell with
-- the `idx` of `info` or, where that is negative, the first whose data's low byte is the `data16`
-- of `info`; it returns NULL where there is none.
pub core_list_find-First :
    (fuel list info : ℕ) (m : Memory) (xs : List ℕ)
    → length xs < fuel
    → Linked m.next list xs
    → (a : ℕ) × (core_list_find fuel list info m ≡ some a) × First (wanted info m) xs a
unfolding core_list_find
core_list_find-First fuel list info m xs lt linked = elim (Bool-cases (ltb (m.idx info) (2 ^ 15))) [
  | inl by_idx ↦
      let (a, run, first) = find_from-First fuel (λ d. m.idx d == m.idx info) list m xs lt linked in
      (a, rw by_idx run, subst (λ p. First p xs a) (same_test info m true by_idx) first)
  | inr by_data ↦
      let (a, run, first) =
        find_from-First fuel (λ d. m.data16 d % 2 ^ 8 == m.data16 info) list m xs lt linked in
      (a, rw by_data run, subst (λ p. First p xs a) (same_test info m false by_data) first)
]
