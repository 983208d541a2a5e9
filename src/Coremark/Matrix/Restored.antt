-- ===== src/Coremark/Matrix/Restored.antt =====
-- Adding a constant to a matrix of coremark/core_matrix.c and taking it away again.
use multiplix.Prelude.{
  ℕ, ◌+◌, ◌*◌, ◌%◌, ◌^◌, ◌<◌, ◌≡◌, refl, ◌∙◌, ap, arith, List, get_or, set, length, get_or_ext,
  ◌==◌, if◌then◌else◌, ◌≢◌, length-set, get_or-set_ne, Bool-cases, inl, inr, get_or-set_self,
}
use multiplix.Prelude.Loops.{for_each, for_each_relate, for_each_invariant}
use multiplix.Coremark.Matrix.{matrix_add_const, negate, index}

abbrev pub Sixteen : List ℕ → Type 0
Sixteen A = (p : ℕ) → get_or A p 0 < 2 ^ 16

-- How often the loops over a matrix come to cell `p`.
abbrev visits : (N p : ℕ) → ℕ
visits N p = for_each N 0 (λ i c. for_each N 0 (λ j c. c + (if index N i j == p then 1 else 0)) c) 0

-- Cell `p` after `c` additions of `v`.
abbrev Added : (A : List ℕ) (p v : ℕ) → List ℕ → ℕ → Type 0
Added A p v t c = (length t ≡ length A) × (get_or t p 0 ≡ (get_or A p 0 + c * v) % 2 ^ 16)

step-Added :
    (A : List ℕ) (p v q c : ℕ) (t : List ℕ)
    → p < length A
    → Added A p v t c
    → Added A p v (set t q ((get_or t q 0 + v) % 2 ^ 16)) (c + (if q == p then 1 else 0))
step-Added A p v q c t lt (size, value) =
    let w = (get_or t q 0 + v) % 2 ^ 16 in
    let size' = length-set t q w ∙ size in
    elim (Bool-cases (q == p)) [
      | inl hit ↦
          let same : q ≡ p = ground arith in
          let here : get_or (set t p ((get_or t p 0 + v) % 2 ^ 16)) p 0
              ≡ (get_or t p 0 + v) % 2 ^ 16 =
            get_or-set_self t p ((get_or t p 0 + v) % 2 ^ 16) 0 (omega arith) in
          let next : (c + 1) * v ≡ c * v + v = omega arith in
          rw hit (
            size',
            ap (λ (k : ℕ). get_or (set t k ((get_or t k 0 + v) % 2 ^ 16)) p 0) same
                ∙ here
                ∙ omega (arith, value, next),
          )
      | inr miss ↦
          let away : q ≢ p = ground arith in
          let stay : c + 0 ≡ c = omega arith in
          rw (miss, stay) (size', get_or-set_ne t q p w 0 away ∙ value)
    ]

matrix_add_const-Added :
    (N : ℕ) (A : List ℕ) (p v : ℕ)
    → p < length A
    → get_or A p 0 < 2 ^ 16
    → Added A p v (matrix_add_const N A v) (visits N p)
unfolding matrix_add_const
matrix_add_const-Added N A p v lt small =
    for_each_relate (Added A p v) N 0
      (λ i A. for_each N 0 (λ j A. set A (index N i j) ((get_or A (index N i j) 0 + v) % 2 ^ 16)) A)
      (λ i c. for_each N 0 (λ j c. c + (if index N i j == p then 1 else 0)) c)
      (λ i t c h.
        for_each_relate (Added A p v) N 0
          (λ j A. set A (index N i j) ((get_or A (index N i j) 0 + v) % 2 ^ 16))
          (λ j c. c + (if index N i j == p then 1 else 0))
          (λ j t c h. step-Added A p v (index N i j) c t lt h) t c h)
      A 0 (refl, omega arith)

-- A constant and its negation, as often as one likes.
cancels : (a c v : ℕ) → a < 2 ^ 16 → v < 2 ^ 16 → ((a + c * v) % 2 ^ 16 + c * negate v) % 2 ^ 16 ≡ a
cancels a c v small lt = elim (Bool-cases (v == 0)) [
  | inl z ↦
      let none_added : v ≡ 0 = ground arith in
      let no_product : c * v ≡ 0 = ap (λ (k : ℕ). c * k) none_added ∙ omega arith in
      let negated : negate v ≡ 0 = ground arith in
      let no_product' : c * negate v ≡ 0 = ap (λ (k : ℕ). c * k) negated ∙ omega arith in
      omega (arith, no_product, no_product')
  | inr some_added ↦
      let pos : 0 < v = ground arith in
      let whole : v + negate v ≡ 2 ^ 16 = omega arith in
      let split : c * (v + negate v) ≡ c * v + c * negate v = omega arith in
      let all : c * (v + negate v) ≡ c * 2 ^ 16 = ap (λ (k : ℕ). c * k) whole in
      omega (arith, split, all)
]

length-matrix_add_const : (N : ℕ) (A : List ℕ) (v : ℕ) → length (matrix_add_const N A v) ≡ length A
unfolding matrix_add_const
length-matrix_add_const N A v =
    for_each_invariant (λ i t. length t ≡ length A) N 0
      (λ i A. for_each N 0 (λ j A. set A (index N i j) ((get_or A (index N i j) 0 + v) % 2 ^ 16)) A)
      (λ i t lo hi h.
        for_each_invariant (λ j t. length t ≡ length A) N 0
          (λ j A. set A (index N i j) ((get_or A (index N i j) 0 + v) % 2 ^ 16))
          (λ j t lo hi h. length-set t (index N i j) ((get_or t (index N i j) 0 + v) % 2 ^ 16) ∙ h)
          t h)
      A refl

pub restored :
    (N : ℕ) (A : List ℕ) (val : ℕ)
    → Sixteen A
    → val < 2 ^ 16
    → matrix_add_const N (matrix_add_const N A val) (negate val) ≡ A
restored N A val sixteen small =
    let once = matrix_add_const N A val in
    let same = length-matrix_add_const N A val in
    let twice = matrix_add_const N once (negate val) in
    get_or_ext 0 twice A (length-matrix_add_const N once (negate val) ∙ same) (λ p h.
      let below : p < length A = omega (arith, same, length-matrix_add_const N once (negate val)) in
      let (size, value) = matrix_add_const-Added N A p val below (sixteen p) in
      let (size', value') =
        matrix_add_const-Added N once p (negate val) (omega (arith, same)) (omega (arith, value)) in
      value' ∙ omega (arith, value, cancels (get_or A p 0) (visits N p) val (sixteen p) small))
