-- ===== src/Prelude/Loops.antt =====
-- Counting loops over arrays.
use Prim.Native.Nat.{ℕ, zero, suc, ◌+◌, ◌-◌, ◌*◌, ◌≤◌, ◌<◌}
use mathlib.Core.Path.{◌≡◌, refl, ◌∙◌, ap, subst}
use mathlib.Core.Logic.{◌⊎◌, inl, inr}
use mathlib.Core.List.{List}
use native.Mathlib.Omega.{arith}
use native.Mathlib.Decide.{ℕ_discrete}
use multiplix.Prelude.Lists.{length, get_or, set, length-set, get_or-set_self, get_or-set_ne}

-- `for(k = …; k < …; k++)` from `k` on, with the number of rounds.
unfoldable pub for_each {ℓ} : {S : Type ℓ} → (rounds k : ℕ) → (ℕ → S → S) → S → S
for_each zero k body s = s
for_each (suc n) k body s = for_each n (suc k) body (body k s)

-- A loop that computes the cells from `c` on, each from its index and its old value.
abbrev pub cells : (c n j : ℕ) → (ℕ → ℕ → ℕ) → List ℕ → List ℕ
cells c n j f a = for_each n j (λ j a. set a (c + j) (f j (get_or a (c + j) 0))) a

pub length-cells : (c n j : ℕ) (f : ℕ → ℕ → ℕ) (a : List ℕ) → length (cells c n j f a) ≡ length a
unfolding for_each
length-cells c zero j f a = refl
length-cells c (suc n) j f a =
    length-cells c n (suc j) f (set a (c + j) (f j (get_or a (c + j) 0)))
    ∙ length-set a (c + j) (f j (get_or a (c + j) 0))

pub cells-outside :
    (c n j : ℕ) (f : ℕ → ℕ → ℕ) (a : List ℕ) (p : ℕ)
    → (p < c + j) ⊎ (c + j + n ≤ p)
    → get_or (cells c n j f a) p 0 ≡ get_or a p 0
unfolding for_each
cells-outside c zero j f a p out = refl
cells-outside c (suc n) j f a p out =
    let a' = set a (c + j) (f j (get_or a (c + j) 0)) in
    cells-outside c n (suc j) f a' p (ground (arith, out))
    ∙ get_or-set_ne a (c + j) p (f j (get_or a (c + j) 0)) 0 (ground (arith, out))

pub cells_at :
    (c n j : ℕ) (f : ℕ → ℕ → ℕ) (a : List ℕ) (i : ℕ)
    → j ≤ i
    → i < j + n
    → c + j + n ≤ length a
    → get_or (cells c n j f a) (c + i) 0 ≡ f i (get_or a (c + i) 0)
unfolding for_each
cells_at c zero j f a i lo hi fits = absurd (omega arith)
cells_at c (suc n) j f a i lo hi fits =
    let v = f j (get_or a (c + j) 0) in
    let a' = set a (c + j) v in
    elim (ℕ_discrete i j) [
      | yes e ↦ rw e (
          cells-outside c n (suc j) f a' (c + j) (inl (omega arith))
          ∙ get_or-set_self a (c + j) v 0 (omega arith))
      | no ne ↦
          cells_at c n (suc j) f a' i (omega arith) (omega arith)
            (omega (arith, length-set a (c + j) v))
          ∙ ap (f i) (get_or-set_ne a (c + j) (c + i) v 0 (λ e. ne (omega arith)))
    ]

-- Rows of `w` cells, one after the other.
abbrev pub rows : (w n i : ℕ) → (ℕ → ℕ → ℕ → ℕ) → List ℕ → List ℕ
rows w n i f a = for_each n i (λ i a. cells (i * w) w 0 (f i) a) a

pub length-rows : (w n i : ℕ) (f : ℕ → ℕ → ℕ → ℕ) (a : List ℕ) → length (rows w n i f a) ≡ length a
unfolding for_each
length-rows w zero i f a = refl
length-rows w (suc n) i f a =
    length-rows w n (suc i) f (cells (i * w) w 0 (f i) a) ∙ length-cells (i * w) w 0 (f i) a

next_row : (w i : ℕ) → suc i * w ≡ i * w + w
next_row w i = omega arith

later_row : (w i d : ℕ) → i * w ≤ (i + d) * w
later_row w i d = omega arith

pub rows-outside :
    (w n i : ℕ) (f : ℕ → ℕ → ℕ → ℕ) (a : List ℕ) (p : ℕ)
    → (p < i * w) ⊎ ((i + n) * w ≤ p)
    → get_or (rows w n i f a) p 0 ≡ get_or a p 0
unfolding for_each
rows-outside w zero i f a p out = refl
rows-outside w (suc n) i f a p out =
    let e : i + suc n ≡ suc i + n = omega arith in
    let up : (i + suc n) * w ≡ (suc i + n) * w = ap (λ (t : ℕ). t * w) e in
    let more = later_row w (suc i) n in
    rows-outside w n (suc i) f (cells (i * w) w 0 (f i) a) p (ground (arith, out, up, next_row w i))
    ∙ cells-outside (i * w) w 0 (f i) a p (ground (arith, out, up, more, next_row w i))

pub rows_at :
    (w n k : ℕ) (f : ℕ → ℕ → ℕ → ℕ) (a : List ℕ) (i j : ℕ)
    → k ≤ i
    → i < k + n
    → j < w
    → (k + n) * w ≤ length a
    → get_or (rows w n k f a) (i * w + j) 0 ≡ f i j (get_or a (i * w + j) 0)
unfolding for_each
rows_at w zero k f a i j lo hi below fits = absurd (omega arith)
rows_at w (suc n) k f a i j lo hi below fits =
    let a' = cells (k * w) w 0 (f k) a in
    let e : k + suc n ≡ suc k + n = omega arith in
    let up : (k + suc n) * w ≡ (suc k + n) * w = ap (λ (t : ℕ). t * w) e in
    let more = later_row w (suc k) n in
    elim (ℕ_discrete i k) [
      | yes same ↦ rw same (
          rows-outside w n (suc k) f a' (k * w + j) (inl (omega (arith, next_row w k)))
          ∙ cells_at (k * w) w 0 (f k) a j (omega arith) (omega arith)
              (omega (arith, up, more, next_row w k)))
      | no ne ↦
          let gap : suc k + (i - suc k) ≡ i = omega arith in
          let beyond : suc k * w ≤ i * w =
            omega (arith, later_row w (suc k) (i - suc k), ap (λ (t : ℕ). t * w) gap) in
          rows_at w n (suc k) f a' i j (omega arith) (omega arith) below
            (omega (arith, up, length-cells (k * w) w 0 (f k) a))
          ∙ ap (f i j) (
              cells-outside (k * w) w 0 (f k) a (i * w + j)
                (inr (omega (arith, beyond, next_row w k))))
    ]

-- What each round keeps holds after the loop.
pub for_each_invariant {ℓ κ} :
    {S : Type ℓ} (P : ℕ → S → Type κ) (n k : ℕ) (body : ℕ → S → S)
    → ((i : ℕ) (s : S) → k ≤ i → i < k + n → P i s → P (suc i) (body i s))
    → (s : S) → P k s
    → P (k + n) (for_each n k body s)
unfolding for_each
for_each_invariant P zero k body step s h = subst (λ (i : ℕ). P i s) (omega arith) h
for_each_invariant P (suc n) k body step s h =
    let e : suc k + n ≡ k + suc n = omega arith in
    subst (λ (i : ℕ). P i (for_each n (suc k) body (body k s))) e
      (for_each_invariant P n (suc k) body (λ i t lo hi. step i t (omega arith) (omega arith))
        (body k s) (step k s (omega arith) (omega arith) h))

-- Two loops whose rounds agree.
pub for_each_ext {ℓ} :
    {S : Type ℓ} (n k : ℕ) (f g : ℕ → S → S)
    → ((i : ℕ) (s : S) → k ≤ i → i < k + n → f i s ≡ g i s)
    → (s : S) → for_each n k f s ≡ for_each n k g s
unfolding for_each
for_each_ext zero k f g same s = refl
for_each_ext (suc n) k f g same s =
    ap (for_each n (suc k) f) (same k s (omega arith) (omega arith))
    ∙ for_each_ext n (suc k) f g (λ i t lo hi. same i t (omega arith) (omega arith)) (g k s)

-- A relation between the states of two loops that every round keeps.
pub for_each_relate {ℓ κ μ} :
    {S : Type ℓ} {T : Type κ} (R : S → T → Type μ) (n k : ℕ) (f : ℕ → S → S) (g : ℕ → T → T)
    → ((i : ℕ) (s : S) (t : T) → R s t → R (f i s) (g i t))
    → (s : S) (t : T) → R s t
    → R (for_each n k f s) (for_each n k g t)
unfolding for_each
for_each_relate R zero k f g step s t h = h
for_each_relate R (suc n) k f g step s t h =
    for_each_relate R n (suc k) f g step (f k s) (g k t) (step k s t h)
