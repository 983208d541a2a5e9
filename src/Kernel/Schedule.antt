-- ===== src/Kernel/Schedule.antt =====
-- src/plix/schedule.d: the queues of processes, linked through the processes. Pointers are
-- addresses, and null is 0.
pub mod Outside
pub mod Links
pub mod Laws
pub mod Wake
use multiplix.Prelude.{
  ℕ, zero, suc, ◌+◌, ◌-◌, ◌*◌, ◌%◌, ◌^◌, Bool, true, false, Option, none, some, ◌==◌, if◌then◌else◌,
}

-- `ProcState` of src/plix/proc.d.
pub data ProcState : Type 0 where
  runnable blocked exited : ProcState

-- The fields of the processes that the scheduler uses.
pub record Procs : Type 0 where
  pub next : ℕ → ℕ
  pub prev : ℕ → ℕ
  pub state : ℕ → ProcState

pub record Queue : Type 0 where
  pub front : ℕ
  pub back : ℕ
  pub size : ℕ

abbrev pub put {ℓ} : {A : Type ℓ} → (ℕ → A) → ℕ → A → ℕ → A
put f p v x = if x == p then v else f x

unfoldable pub push_front : ℕ → Queue → Procs → Queue × Procs
push_front p q m =
    let next = put m.next p q.front in
    let prev = put m.prev p 0 in
    if q.front == 0
    then (
      record { front = p; back = p; size = (q.size + 1) % 2 ^ 64 },
      record m { next = next; prev = prev },
    )
    else (
      record { front = p; back = q.back; size = (q.size + 1) % 2 ^ 64 },
      record m { next = next; prev = put prev q.front p },
    )

-- The first `if` of `remove`, and the second, which reads `p` after it.
unfoldable pub unlink_next : ℕ → Queue → Procs → Queue × Procs
unlink_next p q m =
    if m.next p == 0
    then (record q { back = m.prev p }, m)
    else (q, record m { prev = put m.prev (m.next p) (m.prev p) })

unfoldable pub unlink_prev : ℕ → Queue → Procs → Queue × Procs
unlink_prev p q m =
    if m.prev p == 0
    then (record q { front = m.next p }, m)
    else (q, record m { next = put m.next (m.prev p) (m.next p) })

unfoldable pub remove : ℕ → Queue → Procs → Queue × Procs
remove p q m =
    let first = unlink_next p q m in
    let second = unlink_prev p first.0 first.1 in
    (record second.0 { size = (second.0.size + (2 ^ 64 - 1)) % 2 ^ 64 }, second.1)

-- The process, or null where the queue is empty.
unfoldable pub pop_back : Queue → Procs → ℕ × Queue × Procs
pop_back q m = if q.back == 0 then (0, q, m) else (let r = remove q.back q m in (q.back, r.0, r.1))

abbrev is_blocked : ProcState → Bool
is_blocked blocked = true
is_blocked _ = false

-- `wake` on a queue other than `runq`, which is returned after the queue; `none` where the
-- assertion fails.
unfoldable pub wake : ℕ → (q runq : Queue) → Procs → Option (Queue × Queue × Procs)
wake p q runq m =
    if is_blocked (m.state p)
    then (let r = remove p q m in
        let pushed = push_front p runq (record r.1 { state = put m.state p runnable }) in
        some (r.0, pushed.0, pushed.1))
    else none
