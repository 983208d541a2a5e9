-- ===== src/Kernel/Schedule/Links.antt =====
-- The doubly linked list that a queue of src/plix/schedule.d is.
use mathlib.Core.Path.{subst}
use native.Mathlib.Decide.{ℕ_discrete}
use multiplix.Prelude.{
  ℕ, ◌+◌, ◌^◌, ◌≤◌, ◌<◌, ◌≡◌, ◌≢◌, ◌⊎◌, inl, inr, refl, sym, ◌∙◌, ap, arith, true, false, List, [],
  ◌∷◌, length, ◌==◌, if◌then◌else◌, Bool-cases,
}
use multiplix.Kernel.Schedule.{Procs, Queue, put}

abbrev pub count : ℕ → List ℕ → ℕ
count a [] = 0
count a (x ∷ xs) = (if x == a then 1 else 0) + count a xs

abbrev pub without : ℕ → List ℕ → List ℕ
without a [] = []
without a (x ∷ xs) = if x == a then xs else x ∷ without a xs

-- The processes from `p` on, the first of which has `before` in front of it.
abbrev pub Linked : (next prev : ℕ → ℕ) → (before p : ℕ) → List ℕ → Type 0
Linked next prev before p [] = p ≡ 0
Linked next prev before p (x ∷ xs) =
    (p ≡ x) × (x ≢ 0) × (prev x ≡ before) × Linked next prev x (next x) xs

-- The last process, or `d`.
abbrev pub last : ℕ → List ℕ → ℕ
last d [] = d
last d (x ∷ xs) = last x xs

-- A queue holds the processes `xs` from front to back, each once.
pub record IsQueue (q : Queue) (m : Procs) (xs : List ℕ) : Type 0 where
  pub links : Linked m.next m.prev 0 q.front xs
  pub back : q.back ≡ last 0 xs
  pub size : q.size ≡ length xs
  pub once : (a : ℕ) → count a xs ≤ 1
  pub small : length xs < 2 ^ 64

-- Writes to the links of processes outside the list.
pub Linked-same :
    (next prev next' prev' : ℕ → ℕ) (before p : ℕ) (xs : List ℕ)
    → ((x : ℕ) → count x xs ≢ 0 → (next' x ≡ next x) × (prev' x ≡ prev x))
    → Linked next prev before p xs
    → Linked next' prev' before p xs
Linked-same next prev next' prev' before p [] same h = h
Linked-same next prev next' prev' before p (x ∷ xs) same (e, ne, back, h) =
    let here = same x (ground arith) in
    (
      e,
      ne,
      here.1 ∙ back,
      rw (here.0) (Linked-same next prev next' prev' x (next x) xs (λ y c. same y (omega arith)) h),
    )

-- Where a process of the list has its links.
pub record Place (next prev : ℕ → ℕ) (before p a : ℕ) (xs : List ℕ) : Type 0 where
  pub front : (p ≡ a) → prev a ≡ before
  pub inner : (p ≢ a) → 1 ≤ count (prev a) xs
  pub after : (next a ≡ 0) ⊎ (1 ≤ count (next a) xs)

first_after :
    (next prev : ℕ → ℕ) (x : ℕ) (ys : List ℕ)
    → Linked next prev x (next x) ys
    → (next x ≡ 0) ⊎ (1 ≤ count (next x) (x ∷ ys))
first_after next prev x [] z = inl z
first_after next prev x (y ∷ ys) (e, _, _, _) = inr (ground arith)

pub place :
    (next prev : ℕ → ℕ) (before p a : ℕ) (xs : List ℕ)
    → Linked next prev before p xs
    → 1 ≤ count a xs
    → Place next prev before p a xs
place next prev before p a [] h c = absurd (omega arith)
place next prev before p a (x ∷ xs) (e, ne, back, h) c = elim (ℕ_discrete x a) [
  | yes same ↦ record {
    front = λ q. ap prev (sym same) ∙ back;
    inner = λ q. absurd (q (e ∙ same));
    after =
        subst (λ z. (next z ≡ 0) ⊎ (1 ≤ count (next z) (x ∷ xs))) same
          (first_after next prev x xs h);
  }
  | no away ↦
      let ih = place next prev x (next x) a xs h (ground arith) in
      record {
        front = λ q. absurd (away (sym e ∙ q));
        inner = λ q. elim (ℕ_discrete (next x) a) [
          | yes at ↦ ground (arith, ih.front at)
          | no ne' ↦ omega (arith, ih.inner ne')
        ];
        after = ground (arith, ih.after);
      }
]

module _ (next prev : ℕ → ℕ) (a : ℕ) where
  -- The links after `a` has been taken out.
  abbrev pub next' : ℕ → ℕ
  next' = if prev a == 0 then next else put next (prev a) (next a)

  abbrev pub prev' : ℕ → ℕ
  prev' = if next a == 0 then prev else put prev (next a) (prev a)

  pub next'_ne : (x : ℕ) → x ≢ prev a → next' x ≡ next x
  next'_ne x ne = elim (Bool-cases (prev a == 0)) [
    | inl none_before ↦ rw none_before refl
    | inr some_before ↦
        let away : (x == prev a) ≡ false = ground arith in rw (some_before, away) refl
  ]

  pub prev'_ne : (x : ℕ) → x ≢ next a → prev' x ≡ prev x
  prev'_ne x ne = elim (Bool-cases (next a == 0)) [
    | inl none_after ↦ rw none_after refl
    | inr some_after ↦ let away : (x == next a) ≡ false = ground arith in rw (some_after, away) refl
  ]

  next'_at : (x : ℕ) → x ≡ prev a → x ≢ 0 → next' x ≡ next a
  next'_at x e ne =
      let some_before : (prev a == 0) ≡ false = ground arith in
      let here : (x == prev a) ≡ true = ground arith in rw (some_before, here) refl

  prev'_at : (x : ℕ) → x ≡ next a → x ≢ 0 → prev' x ≡ prev a
  prev'_at x e ne =
      let some_after : (next a == 0) ≡ false = ground arith in
      let here : (x == next a) ≡ true = ground arith in rw (some_after, here) refl

  -- The list behind `a`, which is the first.
  behind :
      (before : ℕ) (xs : List ℕ)
      → prev a ≡ before
      → Linked next prev a (next a) xs
      → ((z : ℕ) → count z xs ≤ 1)
      → count before xs ≡ 0
      → Linked next' prev' before (next a) xs
  behind before [] e h once out = h
  behind before (y ∷ ys) e (at, ne, back, h) once out =
      let apart : y ≢ prev a = λ q. absurd (ground (arith, q ∙ e)) in
      let same : next' y ≡ next y = next'_ne y apart in
      (
        at,
        ne,
        prev'_at y (sym at) ne ∙ e,
        rw same (
            Linked-same next prev next' prev' y (next y) ys
              (λ x c. (
                next'_ne x (λ q. absurd (ground (arith, q ∙ e))),
                prev'_ne x (λ q. absurd (ground (arith, once y, q ∙ at))),
              ))
              h),
      )

  pub unlinked :
      (before p : ℕ) (xs : List ℕ)
      → Linked next prev before p xs
      → 1 ≤ count a xs
      → ((z : ℕ) → count z xs ≤ 1)
      → count before xs ≡ 0
      → Linked next' prev' before (if p == a then next a else p) (without a xs)
  unlinked before p [] h c once out = absurd (omega arith)
  unlinked before p (x ∷ xs) (e, ne, back, h) c once out = elim (Bool-cases (x == a)) [
    | inl here ↦
        let same : x ≡ a = ground arith in
        let first : (p == a) ≡ true = ground arith in
        rw (here, first)
          (behind before xs (ap prev (sym same) ∙ back)
            (subst (λ z. Linked next prev z (next z) xs) same h) (λ z. omega (arith, once z))
            (omega arith))
    | inr later ↦
        let not_first : (p == a) ≡ false = ground arith in
        let alone : count x xs ≡ 0 = ground (arith, once x) in
        let there : 1 ≤ count a xs = ground arith in
        let at = place next prev x (next x) a xs h there in
        let ih = unlinked x (next x) xs h there (λ z. omega (arith, once z)) alone in
        let back' : prev' x ≡ prev x = prev'_ne x (λ q. elim at.after [
          | inl z ↦ ne (q ∙ z)
          | inr c' ↦ absurd (omega (arith, ap (λ (z : ℕ). count z xs) q, alone))
        ]) in
        let step : next' x ≡ (if next x == a then next a else next x) =
          elim (ℕ_discrete (next x) a) [
            | yes e' ↦
                let t : (next x == a) ≡ true = ground arith in
                rw t (next'_at x (sym (at.front e')) ne)
            | no ne' ↦
                let t : (next x == a) ≡ false = ground arith in
                rw t (
                  next'_ne x (λ q.
                    absurd (omega (arith, at.inner ne', ap (λ (z : ℕ). count z xs) q, alone))))
          ] in
        rw (later, not_first) (e, ne, back' ∙ back, rw step ih)
  ]

  -- The last process after `a` has been taken out.
  pub last-without :
      (before p : ℕ) (xs : List ℕ)
      → Linked next prev before p xs
      → 1 ≤ count a xs
      → ((z : ℕ) → count z xs ≤ 1)
      → last before (without a xs) ≡ (if next a == 0 then prev a else last before xs)
  last-without before p [] h c once = absurd (omega arith)
  last-without before p (x ∷ xs) (e, ne, back, h) c once = elim (Bool-cases (x == a)) [
    | inl here ↦
        let same : x ≡ a = ground arith in
        rw here (
          ends before xs (ap prev (sym same) ∙ back)
            (subst (λ z. Linked next prev z (next z) xs) same h) x)
    | inr later ↦
        rw later (last-without x (next x) xs h (ground arith) (λ z. omega (arith, once z)))
  ]
    where
      ends :
          (before : ℕ) (ys : List ℕ)
          → prev a ≡ before
          → Linked next prev a (next a) ys
          → (x : ℕ) → last before ys ≡ (if next a == 0 then prev a else last x ys)
      ends before [] e' z x = let t : (next a == 0) ≡ true = ground arith in rw t (sym e')
      ends before (y ∷ ys) e' (z, n, _, _) x =
          let t : (next a == 0) ≡ false = ground arith in rw t refl

pub length-without : (a : ℕ) (xs : List ℕ) → 1 ≤ count a xs → length (without a xs) + 1 ≡ length xs
length-without a [] c = absurd (omega arith)
length-without a (x ∷ xs) c = elim (Bool-cases (x == a)) [
  | inl here ↦ rw here (omega arith)
  | inr later ↦ rw later (omega (arith, length-without a xs (ground arith)))
]

pub count-without : (a z : ℕ) (xs : List ℕ) → count z (without a xs) ≤ count z xs
count-without a z [] = omega arith
count-without a z (x ∷ xs) = elim (Bool-cases (x == a)) [
  | inl here ↦ rw here (omega arith)
  | inr later ↦ rw later (omega (arith, count-without a z xs))
]

pub null_count :
    (next prev : ℕ → ℕ) (before p : ℕ) (xs : List ℕ) → Linked next prev before p xs → count 0 xs ≡ 0
null_count next prev before p [] h = refl
null_count next prev before p (x ∷ xs) (e, ne, back, h) =
    ground (arith, null_count next prev x (next x) xs h)
