-- ===== src/Coremark/ListJoin/Sort/Along.antt =====
-- The steps along the list of the merge sort of coremark/core_list_join.c.
use mathlib.Core.Path.{subst}
use multiplix.Prelude.{
  ℕ, zero, suc, ◌+◌, ◌≤◌, List, [], ◌∷◌, ◌++◌, length, false, ◌≡◌, ◌⊎◌, sym, ◌∙◌, arith, ◌==◌,
  Bool-cases, inl, inr,
}
use multiplix.Coremark.ListJoin.{Memory}
use multiplix.Coremark.ListJoin.Laws.{Linked}
use multiplix.Coremark.ListJoin.Sort.{step_along}
use multiplix.Coremark.ListJoin.Sort.Chains.{Run}

-- `psize` and `q` after the steps along the cells `c`, which `rest` follows.
abbrev Along : (next : ℕ → ℕ) (psize q : ℕ) (c rest : List ℕ) → ℕ × ℕ → Type 0
Along next psize q c rest r = (r.0 ≡ psize + length c) × Run next q c × Linked next r.1 rest

pub step_along-Along :
    (n psize q x : ℕ) (c rest : List ℕ) (m : Memory)
    → (suc (length c) ≡ n) ⊎ ((rest ≡ []) × (suc (length c) ≤ n))
    → Linked m.next q (x ∷ c ++ rest)
    → Along m.next psize q (x ∷ c) rest (step_along n psize q m)
unfolding step_along
step_along-Along zero psize q x c rest m full (e, ne, h) = elim full [
  | inl z ↦ absurd (omega arith)
  | inr (w, z) ↦ absurd (omega arith)
]
step_along-Along (suc n) psize q x [] rest m full (e, ne, h) =
    let at : Linked m.next (m.next q) rest = rw e h in
    elim (Bool-cases (m.next q == 0)) [
      | inl z ↦
          let null : m.next q ≡ 0 = ground arith in
          rw z (omega arith, (e, tt), subst (λ a. Linked m.next a rest) null at)
      | inr z ↦ elim full [
        | inl all ↦
            let none_left : n ≡ 0 = omega arith in rw (z, none_left) (omega arith, (e, tt), at)
        | inr (no_rest, le) ↦
            absurd (ground (arith, subst (λ (w : List ℕ). Linked m.next (m.next q) w) no_rest at))
      ]
    ]
step_along-Along (suc n) psize q x (y ∷ c) rest m full (e, ne, h) =
    let at : Linked m.next (m.next q) (y ∷ c ++ rest) = rw e h in
    let z : (m.next q == 0) ≡ false = (let (here, some_there, past) = at in ground arith) in
    let fewer : (suc (length c) ≡ n) ⊎ ((rest ≡ []) × (suc (length c) ≤ n)) = elim full [
      | inl all ↦ inl (omega arith)
      | inr (no_rest, le) ↦ inr (no_rest, omega arith)
    ] in
    let (size, run, behind) = step_along-Along n (suc psize) (m.next q) y c rest m fewer at in
    rw z (size ∙ omega arith, (e, rw (sym e) run), behind)
