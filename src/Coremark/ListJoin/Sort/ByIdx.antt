-- ===== src/Coremark/ListJoin/Sort/ByIdx.antt =====
-- The merge sort of coremark/core_list_join.c by `idx`.
use mathlib.Core.Path.{subst}
use multiplix.Prelude.{
  ℕ, ◌+◌, ◌*◌, ◌%◌, ◌^◌, ◌≤◌, ◌<◌, List, length, ◌≡◌, refl, sym, ◌∙◌, leb, Option, some, none,
}
use multiplix.Coremark.ListJoin.{Memory, set_data16}
use multiplix.Coremark.ListJoin.Laws.{Linked, count}
use multiplix.Coremark.ListJoin.Sort.{regenerate, cmp_idx, core_list_mergesort}
use multiplix.Coremark.ListJoin.Sort.Merging.{Sorted}
use multiplix.Coremark.ListJoin.Sort.Rounds.{Compares}
use multiplix.Coremark.ListJoin.Sort.Order.{core_list_mergesort-Sorts}

-- The key of a cell: the `idx` of its data as an integer with a sign, shifted to be above zero.
abbrev pub idx_key : Memory → ℕ → ℕ
idx_key m x = (m.idx (m.info x) + 2 ^ 15) % 2 ^ 16

abbrev pub SameIdx : {R : Type 0} → Memory → R → Memory → Type 0
SameIdx m0 res m = (m.info ≡ m0.info) × (m.idx ≡ m0.idx)

cmp_idx_lem :
    {R : Type 0} (res : Option R) (x y : ℕ) (m : Memory)
    → (m' : Memory) × (cmp_idx x y res m
        ≡ some (leb ((m.idx x + 2 ^ 15) % 2 ^ 16) ((m.idx y + 2 ^ 15) % 2 ^ 16), res, m'))
      × (m'.next ≡ m.next)
      × (m'.info ≡ m.info)
      × (m'.idx ≡ m.idx)
unfolding cmp_idx
cmp_idx_lem none x y m = (
  let m1 = set_data16 x (regenerate (m.data16 x)) m in set_data16 y (regenerate (m1.data16 y)) m1,
  refl,
  refl,
  refl,
  refl,
)
cmp_idx_lem (some r) x y m = (m, refl, refl, refl, refl)

cmp_idx-Compares :
    {R : Type 0} → (m0 : Memory) → Compares (cmp_idx {R = R}) (idx_key m0) (SameIdx m0)
cmp_idx-Compares {R} m0 = record {
  compare = λ x y res m inv.
      let (m', run, links, infos, idxs) = cmp_idx_lem res (m.info x) (m.info y) m in
      let key : (a : ℕ) → (m.idx (m.info a) + 2 ^ 15) % 2 ^ 16 ≡ idx_key m0 a =
        λ a i. (inv.1 i (inv.0 i a) + 2 ^ 15) % 2 ^ 16 in
      (
        res,
        m',
        run ∙ (λ i. some (leb (key x i) (key y i), res, m')),
        links,
        (infos ∙ inv.0, idxs ∙ inv.1),
      );
  keep = λ res m next inv. inv;
}

-- What the sort by `idx` returns for the cells `xs` of the memory `m0`.
abbrev pub SortedByIdx : {R : Type 0} → Memory → List ℕ → Option (ℕ × Option R × Memory) → Type 0
SortedByIdx {R} m0 xs out =
    (list : ℕ) × (res : Option R) × (m : Memory) × (ys : List ℕ) × (out ≡ some (list, res, m))
    × Linked m.next list ys
    × Sorted (idx_key m) ys
    × ((a : ℕ) → count a ys ≡ count a xs)
    × (m.info ≡ m0.info)
    × (m.idx ≡ m0.idx)

-- For a list of 1 to `2 ^ 30 - 1` distinct cells and more fuel than twice their number,
-- `core_list_mergesort` by `cmp_idx` returns a list of the same cells in which no `idx`, read as
-- an `ee_s16`, is below one before it; no cell has got other data, and no `idx` has changed.
pub core_list_mergesort-SortedByIdx :
    {R : Type 0}
    → (fuel : ℕ) (xs : List ℕ) (list : ℕ) (res : Option R) (m : Memory) → length xs * 2 < fuel
    → 0 < length xs
    → length xs < 2 ^ 30
    → ((a : ℕ) → count a xs ≤ 1)
    → count 0 xs ≡ 0
    → Linked m.next list xs
    → SortedByIdx m xs (core_list_mergesort cmp_idx fuel list res m)
core_list_mergesort-SortedByIdx {R} fuel xs list res m lt some_there few once no_null linked =
    let (list', res', m', ys, run, linked', sorted, same, inv) =
      core_list_mergesort-Sorts cmp_idx (idx_key m) (SameIdx m) (cmp_idx-Compares m) fuel xs list
        res m lt some_there few once no_null linked (refl, refl) in
    let key : idx_key m ≡ idx_key m' = λ i x. ((sym inv.1) i ((sym inv.0) i x) + 2 ^ 15) % 2 ^ 16 in
    (list', res', m', ys, run, linked', subst (λ k. Sorted k ys) key sorted, same, inv.0, inv.1)
