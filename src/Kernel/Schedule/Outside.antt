-- ===== src/Kernel/Schedule/Outside.antt =====
-- What the operations of a queue of src/plix/schedule.d do outside the queue.
use native.Mathlib.Decide.{ℕ_discrete}
use multiplix.Prelude.{ℕ, ◌≤◌, ◌≡◌, ◌≢◌, inl, inr, ◌∙◌, ap, arith, List, ◌==◌, Bool-cases}
use multiplix.Kernel.Schedule.{Procs, Queue, push_front, remove}
use multiplix.Kernel.Schedule.Links.{
  count, Linked-same, IsQueue, place, next'_ne, prev'_ne, Linked-same,
}
use multiplix.Kernel.Schedule.Laws.{removed}

-- `remove` writes to no process outside the queue, but for null.
pub remove-outside :
    (p : ℕ) (q : Queue) (m : Procs) (xs : List ℕ) (x : ℕ)
    → IsQueue q m xs
    → 1 ≤ count p xs
    → x ≢ 0
    → count x xs ≡ 0
    → ((remove p q m).1.next x ≡ m.next x) × ((remove p q m).1.prev x ≡ m.prev x)
remove-outside p q m xs x w c some_one out =
    let at = place m.next m.prev 0 q.front p xs w.links c in
    let before : x ≢ m.prev p = λ e. elim (ℕ_discrete q.front p) [
      | yes f ↦ some_one (e ∙ at.front f)
      | no ne ↦ absurd (omega (arith, at.inner ne, ap (λ (z : ℕ). count z xs) e))
    ] in
    let after : x ≢ m.next p = λ e. elim at.after [
      | inl z ↦ some_one (e ∙ z)
      | inr inside ↦ absurd (omega (arith, ap (λ (z : ℕ). count z xs) e))
    ] in
    rw (removed p q m) (next'_ne m.next m.prev p x before, prev'_ne m.next m.prev p x after)

-- Writes outside a queue leave it as it is.
pub IsQueue-same :
    (q : Queue) (m m' : Procs) (xs : List ℕ)
    → IsQueue q m xs
    → ((x : ℕ) → count x xs ≢ 0 → (m'.next x ≡ m.next x) × (m'.prev x ≡ m.prev x))
    → IsQueue q m' xs
IsQueue-same q m m' xs w same = record {
  links = Linked-same m.next m.prev m'.next m'.prev 0 q.front xs same w.links;
  back = w.back;
  size = w.size;
  once = w.once;
  small = w.small;
}

pub push_outside :
    (p : ℕ) (q : Queue) (m : Procs) (x : ℕ)
    → x ≢ p
    → x ≢ q.front
    → ((push_front p q m).1.next x ≡ m.next x) × ((push_front p q m).1.prev x ≡ m.prev x)
unfolding push_front
push_outside p q m x ne ne' = elim (Bool-cases (q.front == 0)) [
  | inl e ↦ rw e (ground arith, ground arith)
  | inr e ↦ rw e (ground arith, ground arith)
]
