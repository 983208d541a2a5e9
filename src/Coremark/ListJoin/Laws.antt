-- ===== src/Coremark/ListJoin/Laws.antt =====
-- What the list operations of coremark/core_list_join.c do to the memory.
use mathlib.Core.Path.{fun_ext}
use native.Mathlib.Decide.{ℕ_discrete}
use multiplix.Prelude.{
  ℕ, zero, suc, ◌+◌, ◌≤◌, ◌<◌, List, [], ◌∷◌, length, Option, some, true, false, ◌≡◌, ◌≢◌, refl,
  arith, ◌==◌, ◌∙◌, ap, ◌||◌, ◌>>=◌, none, if◌then◌else◌,
}
use multiplix.Coremark.ListJoin.{
  Memory, put, set_next, reverse_loop, core_list_reverse, core_list_remove, core_list_undo_remove,
  unlink, link_back,
}

module _ (item : ℕ) (m : Memory) (ne : m.next item ≢ item) where
  abbrev after : Memory
  after = link_back (m.next item) item (unlink item (m.next item) m)

  nexts : (x : ℕ) → after.next x ≡ m.next x
  nexts x = elim (ℕ_discrete x item) [
    | yes e ↦ ground arith
    | no away ↦ elim (ℕ_discrete x (m.next item)) [ yes e ↦ ground arith | no other ↦ ground arith ]
  ]

  infos : (x : ℕ) → after.info x ≡ m.info x
  infos x = elim (ℕ_discrete x item) [
    | yes e ↦ ground arith
    | no away ↦ elim (ℕ_discrete x (m.next item)) [ yes e ↦ ground arith | no other ↦ ground arith ]
  ]

-- Where an item has a successor other than itself, and neither is null, `core_list_undo_remove` of
-- what `core_list_remove` returned and the item puts the memory back as it was, and returns the
-- item's successor.
pub remove-undo_remove :
    (item : ℕ) (m : Memory)
    → item ≢ 0
    → m.next item ≢ 0
    → m.next item ≢ item
    → (core_list_remove item m >>= λ r. core_list_undo_remove r.0 item r.1) ≡ some (m.next item, m)
unfolding core_list_undo_remove core_list_remove
remove-undo_remove item m there next_there ne =
    let m1 = unlink item (m.next item) m in
    let undo : Option (ℕ × Memory) → Option (ℕ × Memory) =
      λ o. o >>= λ r. core_list_undo_remove r.0 item r.1 in
    let here : (item == 0 || m.next item == 0) ≡ false = ground arith in
    let back : (m.next item == 0 || item == 0) ≡ false = ground arith in
    let same : link_back (m.next item) item (unlink item (m.next item) m) ≡ m = λ i. record {
      next = fun_ext (nexts item m ne) i;
      info = fun_ext (infos item m ne) i;
      data16 = m.data16;
      idx = m.idx;
    } in
    ap (λ b. undo (if b then none else some (m.next item, m1))) here
    ∙ ap (λ b. if b then none else some (m.next item, link_back (m.next item) item m1)) back
    ∙ ap (λ z. some (m.next item, z)) same

-- The items that the links reach from `p`.
abbrev pub Linked : (ℕ → ℕ) → ℕ → List ℕ → Type 0
Linked next p [] = p ≡ 0
Linked next p (x ∷ xs) = (p ≡ x) × (x ≢ 0) × Linked next (next x) xs

abbrev pub count : ℕ → List ℕ → ℕ
count a [] = 0
count a (x ∷ xs) = (if x == a then 1 else 0) + count a xs

-- `xs` backwards, then `ys`.
abbrev pub reversed : List ℕ → List ℕ → List ℕ
reversed [] ys = ys
reversed (x ∷ xs) ys = reversed xs (x ∷ ys)

pub Linked-put :
    (next : ℕ → ℕ) (a v p : ℕ) (xs : List ℕ)
    → count a xs ≡ 0
    → Linked next p xs
    → Linked (put next a v) p xs
Linked-put next a v p [] none_there h = h
Linked-put next a v p (x ∷ xs) none_there (e, ne, h) =
    let apart : (x == a) ≡ false = ground arith in
    (e, ne, rw apart (Linked-put next a v (next x) xs (omega arith) h))

-- What the loop returns.
abbrev pub Reversed : List ℕ → List ℕ → Memory → Option (ℕ × Memory) → Type 0
Reversed xs ys m r =
    (list : ℕ) × (m' : Memory) × (r ≡ some (list, m'))
    × Linked m'.next list (reversed xs ys)
    × (record m' { next = m.next } ≡ m)

reverse_loop-Reversed :
    (f list next : ℕ) (m : Memory) (xs ys : List ℕ)
    → length xs < f
    → Linked m.next list xs
    → Linked m.next next ys
    → ((a : ℕ) → count a xs + count a ys ≤ 1)
    → Reversed xs ys m (reverse_loop f list next m)
unfolding reverse_loop
reverse_loop-Reversed zero list next m xs ys lt front back once = absurd (omega arith)
reverse_loop-Reversed (suc f) list next m [] ys lt front back once =
    let done : (list == 0) ≡ true = ground arith in (next, m, rw done refl, back, refl)
reverse_loop-Reversed (suc f) list next m (x ∷ xs) ys lt (e, ne, front) back once =
    let more : (list == 0) ≡ false = ground arith in
    let only = once x in
    let m1 = set_next x next m in
    let link : put m.next x next x ≡ next = ground arith in
    let ahead = Linked-put m.next x next (m.next x) xs (ground arith) front in
    let behind : Linked m1.next x (x ∷ ys) =
      (refl, ne, rw link (Linked-put m.next x next next ys (ground arith) back)) in
    let (list', m', run, linked, rest) =
      reverse_loop-Reversed f (m.next x) x m1 xs (x ∷ ys) (omega arith) ahead behind
        (λ a. omega (arith, once a)) in
    (list', m', rw (more, e) run, linked, λ i. record (rest i) { next = m.next })

-- For a list of distinct items and more fuel than it has items, `core_list_reverse` ends and
-- returns the list of the same items backwards; nothing but the links between cells has changed.
pub core_list_reverse-Reversed :
    (fuel list : ℕ) (m : Memory) (xs : List ℕ)
    → length xs < fuel
    → Linked m.next list xs
    → ((a : ℕ) → count a xs ≤ 1)
    → Reversed xs [] m (core_list_reverse fuel list m)
unfolding core_list_reverse
core_list_reverse-Reversed fuel list m xs lt linked once =
    reverse_loop-Reversed fuel list 0 m xs [] lt linked refl (λ a. omega (arith, once a))
