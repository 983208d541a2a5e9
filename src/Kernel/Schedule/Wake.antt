-- ===== src/Kernel/Schedule/Wake.antt =====
-- `wake` of src/plix/schedule.d.
use multiplix.Prelude.{
  ℕ, ◌+◌, ◌^◌, ◌≤◌, ◌<◌, ◌≡◌, ◌≢◌, ◌⊎◌, inl, inr, refl, ◌∙◌, ap, arith, true, Option, some, List,
  [], ◌∷◌, length, ◌==◌, Bool-cases,
}
use multiplix.Kernel.Schedule.{
  Procs, Queue, ProcState, runnable, blocked, put, push_front, remove, wake,
}
use multiplix.Kernel.Schedule.Links.{count, without, Linked, IsQueue, null_count, count-without}
use multiplix.Kernel.Schedule.Outside.{remove-outside, IsQueue-same, push_outside}
use multiplix.Kernel.Schedule.Laws.{push_front-IsQueue, remove-IsQueue}

count-without_self :
    (a : ℕ) (xs : List ℕ) → 1 ≤ count a xs → count a (without a xs) + 1 ≡ count a xs
count-without_self a [] c = absurd (omega arith)
count-without_self a (x ∷ xs) c = elim (Bool-cases (x == a)) [
  | inl here ↦ rw here (omega arith)
  | inr later ↦ rw (later, later) (omega (arith, count-without_self a xs (ground arith)))
]

front_count :
    (next prev : ℕ → ℕ) (before p : ℕ) (xs : List ℕ)
    → Linked next prev before p xs
    → (p ≡ 0) ⊎ (1 ≤ count p xs)
front_count next prev before p [] h = inl h
front_count next prev before p (x ∷ xs) (e, ne, back, h) = inr (ground arith)

-- What `wake` leaves behind.
pub record Woken (p : ℕ) (xs rs : List ℕ) (r : Option (Queue × Queue × Procs)) : Type 0 where
  pub queue : Queue
  pub runq : Queue
  pub procs : Procs
  pub returns : r ≡ some (queue, runq, procs)
  pub waiting : IsQueue queue procs (without p xs)
  pub running : IsQueue runq procs (p ∷ rs)
  pub state : procs.state p ≡ runnable

wake_runs :
    (p : ℕ) (q runq : Queue) (m : Procs)
    → m.state p ≡ blocked
    → wake p q runq m
      ≡ some (
        (remove p q m).0,
        (push_front p runq (record (remove p q m).1 { state = put m.state p runnable })).0,
        (push_front p runq (record (remove p q m).1 { state = put m.state p runnable })).1,
      )
unfolding wake
wake_runs p q runq m e = rw e refl

push_state : (p : ℕ) (q : Queue) (m : Procs) → (push_front p q m).1.state ≡ m.state
unfolding push_front
push_state p q m = elim (Bool-cases (q.front == 0)) [ inl e ↦ rw e refl | inr e ↦ rw e refl ]

-- Let a process wait, blocked, in a well-formed queue, let the run queue be well-formed with
-- fewer than 2^64 - 1 processes, and let no process be twice in the two together. Then `wake`
-- returns: the queue has the others in their order, the run queue has the process in front of
-- those it had, both well-formed, and the process is runnable.
pub wake-Woken :
    (p : ℕ) (q runq : Queue) (m : Procs) (xs rs : List ℕ)
    → IsQueue q m xs
    → IsQueue runq m rs
    → 1 ≤ count p xs
    → m.state p ≡ blocked
    → ((a : ℕ) → count a xs + count a rs ≤ 1)
    → length rs + 1 < 2 ^ 64
    → Woken p xs rs (wake p q runq m)
wake-Woken p q runq m xs rs w v c waits apart lt =
    let m2 : Procs = record (remove p q m).1 { state = put m.state p runnable } in
    let null = null_count m.next m.prev 0 q.front xs w.links in
    let null' = null_count m.next m.prev 0 runq.front rs v.links in
    let some_p : p ≢ 0 = λ e. absurd (omega (arith, null, ap (λ (z : ℕ). count z xs) e)) in
    let rest =
      IsQueue-same (remove p q m).0 (remove p q m).1 m2 (without p xs) (remove-IsQueue p q m xs w c)
        (λ x h. (refl, refl)) in
    let run = IsQueue-same runq m m2 rs v (λ x h.
      remove-outside p q m xs x w c (λ e. absurd (h (ap (λ (z : ℕ). count z rs) e ∙ null')))
        (omega (arith, apart x))) in
    let out : count p rs ≡ 0 = omega (arith, apart p) in
    let pushed = push_front-IsQueue p runq m2 rs run some_p out lt in
    let gone = count-without_self p xs c in
    let front = front_count m.next m.prev 0 runq.front rs v.links in
    record {
      queue = (remove p q m).0;
      runq = (push_front p runq m2).0;
      procs = (push_front p runq m2).1;
      returns = wake_runs p q runq m waits;
      waiting =
          IsQueue-same (remove p q m).0 m2 (push_front p runq m2).1 (without p xs) rest (λ x h.
            push_outside p runq m2 x
              (λ e.
                absurd (omega (arith, h, gone, w.once p, ap (λ (z : ℕ). count z (without p xs)) e)))
              (λ e. elim front [
                | inl z ↦ absurd (
                    omega
                      (arith, h, count-without p x xs, null, ap (λ (y : ℕ). count y xs) (e ∙ z)))
                | inr f ↦ absurd (
                    omega
                      (arith, h, count-without p x xs, apart x, ap (λ (y : ℕ). count y rs) e, f))
              ]));
      running = pushed;
      state =
          ap (λ (f : ℕ → ProcState). f p) (push_state p runq m2)
          ∙ (let t : (p == p) ≡ true = ground arith in rw t refl);
    }
