-- ===== src/Kernel/Schedule/Laws.antt =====
-- The operations of a queue of src/plix/schedule.d.
use mathlib.Core.Path.{subst}
use native.Mathlib.Decide.{ℕ_discrete}
use multiplix.Prelude.{
  ℕ, ◌+◌, ◌-◌, ◌%◌, ◌^◌, ◌≤◌, ◌<◌, ◌≡◌, ◌≢◌, ◌⊎◌, inl, inr, refl, sym, ◌∙◌, ap, arith, true, false,
  List, [], ◌∷◌, ◌++◌, length, ◌==◌, if◌then◌else◌, Bool-cases,
}
use multiplix.Kernel.Schedule.{
  Procs, Queue, put, push_front, unlink_next, unlink_prev, remove, pop_back,
}
use multiplix.Kernel.Schedule.Links.{
  count, without, Linked-same, last, IsQueue, place, next', prev', Linked-same, unlinked,
  last-without, length-without, count-without, null_count,
}

-- `remove` as one step.
pub removed :
    (p : ℕ) (q : Queue) (m : Procs)
    → remove p q m ≡ (
      record {
        front = if m.prev p == 0 then m.next p else q.front;
        back = if m.next p == 0 then m.prev p else q.back;
        size = (q.size + (2 ^ 64 - 1)) % 2 ^ 64;
      },
      record m { next = next' m.next m.prev p; prev = prev' m.next m.prev p },
    )
unfolding remove unlink_next unlink_prev
removed p q m =
    let kept : put m.prev (m.next p) (m.prev p) p ≡ m.prev p = elim (Bool-cases (p == m.next p)) [
      | inl itself ↦ rw itself refl
      | inr other ↦ rw other refl
    ] in
    elim (Bool-cases (m.next p == 0)) [
      | inl last_one ↦ elim (Bool-cases (m.prev p == 0)) [
        | inl alone ↦ rw (last_one, alone) refl
        | inr behind ↦ rw (last_one, behind) refl
      ]
      | inr more ↦ elim (Bool-cases (m.prev p == 0)) [
        | inl first ↦ rw (more, kept, first) refl
        | inr behind ↦ rw (more, kept, behind) refl
      ]
    ]

-- Pushing a process that is not in the queue, and not null, onto a queue of fewer than `2 ^ 64 - 1`
-- processes puts it in front of the others.
pub push_front-IsQueue :
    (p : ℕ) (q : Queue) (m : Procs) (xs : List ℕ)
    → IsQueue q m xs
    → p ≢ 0
    → count p xs ≡ 0
    → length xs + 1 < 2 ^ 64
    → IsQueue (push_front p q m).0 (push_front p q m).1 (p ∷ xs)
unfolding push_front
push_front-IsQueue p q m [] w ne out lt =
    let none_yet : (q.front == 0) ≡ true = ground (arith, w.links) in
    let next : put m.next p q.front p ≡ q.front = ground arith in
    let prev : put m.prev p 0 p ≡ 0 = ground arith in
    rw none_yet record {
      links = (refl, ne, prev, next ∙ w.links);
      back = refl;
      size = omega (arith, w.size);
      once = λ a. ground arith;
      small = omega arith;
    }
push_front-IsQueue p q m (x ∷ xs) w ne out lt =
    let (at, some_one, back, rest) = w.links in
    let some_front : (q.front == 0) ≡ false = ground arith in
    let away : p ≢ q.front = λ e. absurd (ground arith) in
    let next : put m.next p q.front p ≡ q.front = ground arith in
    let prev : put (put m.prev p 0) q.front p p ≡ 0 = ground arith in
    let there : put (put m.prev p 0) q.front p x ≡ p = ground arith in
    let beyond : put m.next p q.front x ≡ m.next x = ground arith in
    let tail =
      Linked-same m.next m.prev (put m.next p q.front) (put (put m.prev p 0) q.front p) x (m.next x)
        xs (λ y c. (ground arith, ground (arith, w.once x))) rest in
    rw some_front record {
      links = (refl, ne, prev, (next ∙ at, some_one, there, rw beyond tail));
      back = w.back;
      size = omega (arith, w.size);
      once = λ a. ground (arith, w.once a);
      small = omega arith;
    }

-- Removing a process of a well-formed queue leaves a well-formed queue of the others, in their
-- order.
pub remove-IsQueue :
    (p : ℕ) (q : Queue) (m : Procs) (xs : List ℕ)
    → IsQueue q m xs
    → 1 ≤ count p xs
    → IsQueue (remove p q m).0 (remove p q m).1 (without p xs)
remove-IsQueue p q m xs w c =
    let null = null_count m.next m.prev 0 q.front xs w.links in
    let at = place m.next m.prev 0 q.front p xs w.links c in
    let front : (if m.prev p == 0 then m.next p else q.front)
        ≡ (if q.front == p then m.next p else q.front) =
      elim (ℕ_discrete q.front p) [
        | yes e ↦
            let z : (m.prev p == 0) ≡ true = ground (arith, at.front e) in
            let t : (q.front == p) ≡ true = ground arith in rw (z, t) refl
        | no ne ↦
            let z : (m.prev p == 0) ≡ false =
              ground
                (arith, at.inner ne, null, ap (λ (y : ℕ). count y xs) {x = m.prev p} {y = 0}) in
            let t : (q.front == p) ≡ false = ground arith in rw (z, t) refl
      ] in
    let links = unlinked m.next m.prev p 0 q.front xs w.links c w.once null in
    let shorter = length-without p xs c in
    rw (removed p q m) record {
      links = rw front links;
      back =
          ap (λ (z : ℕ). if m.next p == 0 then m.prev p else z) w.back
          ∙ sym (last-without m.next m.prev p 0 q.front xs w.links c w.once);
      size = omega (arith, w.size, w.small, shorter);
      once = λ a. omega (arith, w.once a, count-without p a xs);
      small = omega (arith, w.small, shorter);
    }

last-append : (d p : ℕ) (ys : List ℕ) → last d (ys ++ p ∷ []) ≡ p
last-append d p [] = refl
last-append d p (y ∷ ys) = last-append y p ys

count-append :
    (a p : ℕ) (ys : List ℕ) → count a (ys ++ p ∷ []) ≡ count a ys + (if p == a then 1 else 0)
count-append a p [] = omega arith
count-append a p (y ∷ ys) = omega (arith, count-append a p ys)

without-append : (p : ℕ) (ys : List ℕ) → count p ys ≡ 0 → without p (ys ++ p ∷ []) ≡ ys
without-append p [] out = let t : (p == p) ≡ true = ground arith in rw t refl
without-append p (y ∷ ys) out =
    let t : (y == p) ≡ false = ground arith in rw t (ap (◌∷◌ y) (without-append p ys (omega arith)))

-- What `pop_back` did: nothing, from an empty queue, or it took the process at the back.
abbrev pub Popped : Queue → Procs → List ℕ → ℕ × Queue × Procs → Type 0
Popped q m xs r =
    ((xs ≡ []) × (r ≡ (0, q, m))) ⊎ ((ys : List ℕ) × (xs ≡ ys ++ r.0 ∷ []) × IsQueue r.1 r.2 ys)

snoc_cases : (xs : List ℕ) → (xs ≡ []) ⊎ ((ys : List ℕ) × (p : ℕ) × (xs ≡ ys ++ p ∷ []))
snoc_cases [] = inl refl
snoc_cases (x ∷ xs) = elim (snoc_cases xs) [
  | inl e ↦ inr ([], x, ap (◌∷◌ x) e)
  | inr (ys, p, e) ↦ inr (x ∷ ys, p, ap (◌∷◌ x) e)
]

pop_some :
    (q : Queue) (m : Procs) (p : ℕ) (ys : List ℕ)
    → IsQueue q m (ys ++ p ∷ [])
    → (pop_back q m ≡ (p, (remove p q m).0, (remove p q m).1))
      × IsQueue (remove p q m).0 (remove p q m).1 ys
unfolding pop_back
pop_some q m p ys w =
    let self : (p == p) ≡ true = ground arith in
    let here : count p (ys ++ p ∷ []) ≡ count p ys + 1 = count-append p p ys ∙ rw self refl in
    let at : q.back ≡ p = w.back ∙ last-append 0 p ys in
    let null = null_count m.next m.prev 0 q.front (ys ++ p ∷ []) w.links in
    let some_last : (p == 0) ≡ false =
      ground (arith, here, null, ap (λ (z : ℕ). count z (ys ++ p ∷ [])) {x = p} {y = 0}) in
    let rest = remove-IsQueue p q m (ys ++ p ∷ []) w (omega (arith, here)) in
    (
      rw (at, some_last) refl,
      subst (λ zs. IsQueue (remove p q m).0 (remove p q m).1 zs)
          (without-append p ys (omega (arith, here, w.once p))) rest,
    )

pop_none : (q : Queue) (m : Procs) → IsQueue q m [] → pop_back q m ≡ (0, q, m)
unfolding pop_back
pop_none q m w = let t : (q.back == 0) ≡ true = ground (arith, w.back) in rw t refl

-- From a well-formed queue without processes `pop_back` takes nothing and leaves the state as it is; from any other it
-- takes the process at the back, the one that was pushed first of those that are left, and leaves
-- the others in their order.
pub pop_back-Popped :
    (q : Queue) (m : Procs) (xs : List ℕ) → IsQueue q m xs → Popped q m xs (pop_back q m)
pop_back-Popped q m xs w = elim (snoc_cases xs) [
  | inl e ↦ inl (e, pop_none q m (subst (IsQueue q m) e w))
  | inr (ys, p, e) ↦
      let (run, rest) = pop_some q m p ys (subst (IsQueue q m) e w) in rw run (inr (ys, e, rest))
]
