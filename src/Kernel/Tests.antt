-- ===== src/Kernel/Tests.antt =====
-- Runs of the model of the kernel on small inputs.
use multiplix.Prelude.{
  ℕ, zero, suc, ◌^◌, ◌≤◌, ◌<◌, ◌≡◌, refl, arith, some, List, [], ◌∷◌, get_or, replicate,
}
use multiplix.Kernel.Schedule.{Procs, Queue, runnable, blocked, push_front, remove, pop_back, wake}
use multiplix.Kernel.Schedule.Wake.{Woken, wake-Woken}
use multiplix.Kernel.Schedule.Links.{IsQueue}
use multiplix.Kernel.Schedule.Laws.{push_front-IsQueue, remove-IsQueue, Popped, pop_back-Popped}
use multiplix.Kernel.Math.{log2ceil, log2_loop, pow2ceil, pow2_loop}
use multiplix.Kernel.Math.Laws.{log2ceil_lem, pow2ceil_lem}
use multiplix.Kernel.Alloc.Buddy.{
  BuddyAlloc, poke, initialize, alloc, allocate, allocation_order, allocation_size, find_loop,
  free_list_pop, split_free_block, split_loop, free_list_insert, order_size, free,
}
use multiplix.Kernel.Alloc.Buddy.Cover.{inside}
use multiplix.Kernel.Alloc.Buddy.State.{bytes, free_at, IsHeap, Aligned}
use multiplix.Kernel.Alloc.Buddy.Dealloc.{Returned}
use multiplix.Kernel.Alloc.Buddy.Laws.{Served, alloc-Served, free-Returned}
use multiplix.Kernel.Alloc.Buddy.Cycle.{
  alloc-free, initialize-IsHeap, fresh, one_block, fresh-IsHeap,
}

log2ceil_lem_example : log2ceil 5 ≡ 2
log2ceil_lem_example = log2ceil_lem 2 5 (omega arith) (omega arith) (omega arith)

pow2ceil_lem_example :
    (k : ℕ) × (k ≤ 63) × (pow2ceil 5 ≡ some (2 ^ k)) × (5 ≤ 2 ^ k) × ((j : ℕ) → j < k → 2 ^ j < 5)
pow2ceil_lem_example = pow2ceil_lem 5 (omega arith)

-- The kernel's own: 17 lists for 512 MB.
abbrev kernel : BuddyAlloc
kernel = record {
  heap = 0;
  heap_length = 0;
  free_lists = replicate 17 0;
  min_block_size = 0;
  min_block_size_log2 = 0;
  next = λ x. 0;
}

initialize-IsHeap_example :
    (ls : List (List ℕ)) × IsHeap (initialize 0xffffffc080300000 (2 ^ 29) kernel) ls
    × ((x : ℕ)
        → free_at (initialize 0xffffffc080300000 (2 ^ 29) kernel) ls x
          ≡ inside (2 ^ 29) 0xffffffc080300000 x)
initialize-IsHeap_example =
    initialize-IsHeap 13 16 0xffffffc080300000 kernel (omega arith) (omega arith) refl

-- A heap of four blocks of 16 bytes.
abbrev small : BuddyAlloc
small = fresh 4 2 4096 (λ x. 9) (omega arith) (omega arith)

abbrev small_lists : List (List ℕ)
small_lists = one_block 4 2 4096 (λ x. 9) (omega arith) (omega arith)

alloc-Served_example :
    (r : ℕ × BuddyAlloc) × (alloc 10 small ≡ some r) × Served 16 small small_lists r
alloc-Served_example =
    alloc-Served 10 small small_lists (fresh-IsHeap 4 2 4096 (λ x. 9) (omega arith) (omega arith))
      (omega arith)

abbrev after : BuddyAlloc
after = record small {
  free_lists = 4112 ∷ 4128 ∷ 0 ∷ [];
  next = poke (poke (λ x. 9) 4128 0) 4112 0;
}

alloc_runs : alloc 10 small ≡ some (4096, after)
unfolding alloc allocate allocation_order allocation_size pow2ceil pow2_loop log2ceil log2_loop
    find_loop free_list_pop split_free_block split_loop free_list_insert order_size
alloc_runs = refl

alloc-free_example :
    (b' : BuddyAlloc) × (left : List (List ℕ)) × (free 4096 10
        (record after { next = poke after.next 4096 7 })
      ≡ some b')
    × IsHeap b' left
    × ((x : ℕ) → free_at small left x ≡ free_at small small_lists x)
alloc-free_example =
    alloc-free 10 4096 small after small_lists (poke after.next 4096 7)
      (fresh-IsHeap 4 2 4096 (λ x. 9) (omega arith) (omega arith)) (omega arith) (omega arith)
      alloc_runs (omega arith) (λ x out. ground (arith, out 0 (omega arith)))

-- A heap of two blocks of 16 bytes, the second of which is free.
abbrev half : BuddyAlloc
half = record {
  heap = 4096;
  heap_length = 32;
  free_lists = 4112 ∷ 0 ∷ [];
  min_block_size = 16;
  min_block_size_log2 = 4;
  next = λ x. 0;
}

abbrev half_lists : List (List ℕ)
half_lists = (4112 ∷ []) ∷ [] ∷ []

half-Aligned : (o : ℕ) → o < 2 → Aligned 4096 (bytes half o) (get_or half_lists o [])
half-Aligned zero lt = ((1, refl), tt)
half-Aligned (suc zero) lt = tt
half-Aligned (suc (suc o)) lt = absurd (omega arith)

half-IsHeap : IsHeap half half_lists
half-IsHeap = record {
  lists = refl;
  some_list = omega arith;
  chains = λ o below. let first : o ≡ 0 = omega arith in rw first (refl, (λ e. omega arith), refl);
  top = refl;
  aligned = half-Aligned;
  once = λ x. ground arith;
  within = λ x h. ground arith;
  smallest = refl;
  whole = refl;
  shift = omega arith;
  base = omega arith;
}

free-Returned_example :
    (b' : BuddyAlloc) × (free 4096 10 half ≡ some b') × Returned 0 4096 half half_lists b'
free-Returned_example =
    free-Returned 4096 10 0 half half_lists half-IsHeap (omega arith)
      record {
        order = omega arith;
        start = (0, refl);
        apart = λ x. ground arith;
        in_heap = λ x h. ground arith;
      }
      (omega arith) (omega arith) (λ j lt. absurd (omega arith))

-- The process at 7, alone in the run queue.
abbrev procs : Procs
procs = record { next = λ p. 0; prev = λ p. 0; state = λ p. runnable }

abbrev one : Queue
one = record { front = 7; back = 7; size = 1 }

one-IsQueue : IsQueue one procs (7 ∷ [])
one-IsQueue = record {
  links = (refl, (λ e. omega arith), refl, refl);
  back = refl;
  size = refl;
  once = λ a. ground arith;
  small = omega arith;
}

push_front-IsQueue_example :
    IsQueue (push_front 9 one procs).0 (push_front 9 one procs).1 (9 ∷ 7 ∷ [])
push_front-IsQueue_example =
    push_front-IsQueue 9 one procs (7 ∷ []) one-IsQueue (omega arith) refl (omega arith)

remove-IsQueue_example : IsQueue (remove 7 one procs).0 (remove 7 one procs).1 []
remove-IsQueue_example = remove-IsQueue 7 one procs (7 ∷ []) one-IsQueue (omega arith)

pop_back-Popped_example : Popped one procs (7 ∷ []) (pop_back one procs)
pop_back-Popped_example = pop_back-Popped one procs (7 ∷ []) one-IsQueue

-- The process at 7 waits, and nothing runs.
abbrev asleep : Procs
asleep = record { next = λ p. 0; prev = λ p. 0; state = λ p. blocked }

abbrev waiting : Queue
waiting = record { front = 7; back = 7; size = 1 }

abbrev nobody : Queue
nobody = record { front = 0; back = 0; size = 0 }

waiting-IsQueue : IsQueue waiting asleep (7 ∷ [])
waiting-IsQueue = record {
  links = (refl, (λ e. omega arith), refl, refl);
  back = refl;
  size = refl;
  once = λ a. ground arith;
  small = omega arith;
}

nobody-IsQueue : IsQueue nobody asleep []
nobody-IsQueue = record {
  links = refl;
  back = refl;
  size = refl;
  once = λ a. omega arith;
  small = omega arith;
}

wake-Woken_example : Woken 7 (7 ∷ []) [] (wake 7 waiting nobody asleep)
wake-Woken_example =
    wake-Woken 7 waiting nobody asleep (7 ∷ []) [] waiting-IsQueue nobody-IsQueue (omega arith) refl
      (λ a. ground arith) (omega arith)
