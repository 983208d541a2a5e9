-- ===== src/Kernel/Alloc/Buddy/Order.antt =====
-- The rounding of sizes in src/plix/alloc/buddy.d.
use native.Mathlib.Nat.{pow-suc, pow-le-pow_right, one-le-pow}
use multiplix.Prelude.{
  ℕ, suc, ◌+◌, ◌-◌, ◌^◌, ◌≤◌, ◌<◌, ◌≡◌, ◌⊎◌, refl, ◌∙◌, ap, arith, true, false, Option, some, none,
  List, length, leb, ltb, if◌then◌else◌, Bool-cases, inl, inr, max,
}
use multiplix.Kernel.Math.{log2ceil, pow2ceil}
use multiplix.Kernel.Math.Laws.{log2ceil_lem, pow2ceil_lem}
use multiplix.Kernel.Alloc.Buddy.{BuddyAlloc, last, allocation_size, allocation_order}
use multiplix.Kernel.Alloc.Buddy.State.{bytes, IsHeap}

-- The least that a block for this request must hold.
abbrev pub wanted : BuddyAlloc → (size align_ : ℕ) → ℕ
wanted b size align_ = max (if ltb size align_ then align_ else size) b.min_block_size

-- The order for a request: none where the heap is too small, or the least order that is large
-- enough.
abbrev pub Ordered : BuddyAlloc → (size align_ : ℕ) → Option (Option ℕ) → Type 0
Ordered b size align_ r =
    ((r ≡ some none) × (b.heap_length < wanted b size align_))
    ⊎ ((o : ℕ) × (r ≡ some (some o))
        × (o < length b.free_lists)
        × (wanted b size align_ ≤ bytes b o)
        × ((j : ℕ) → j < o → bytes b j < wanted b size align_))

size_runs :
    (b : BuddyAlloc) (size align_ s : ℕ)
    → align_ ≤ 4096
    → pow2ceil (wanted b size align_) ≡ some s
    → allocation_size b size align_ ≡ some (if ltb b.heap_length s then none else some s)
unfolding allocation_size
size_runs b size align_ s small run =
    let aligned : leb align_ 4096 ≡ true = ground arith in rw (aligned, run) refl

order_runs :
    (b : BuddyAlloc) (size align_ : ℕ) (r : Option ℕ)
    → allocation_size b size align_ ≡ some r
    → allocation_order b size align_
      ≡ (elim r [ none ↦ some none | some s ↦ some (some (log2ceil s - b.min_block_size_log2)) ])
unfolding allocation_order
order_runs b size align_ none e = rw (e, allocation_order) refl
order_runs b size align_ (some s) e = rw (e, allocation_order) refl

pub allocation_order-Ordered :
    (b : BuddyAlloc) (ls : List (List ℕ)) (size align_ : ℕ)
    → IsHeap b ls
    → align_ ≤ 4096
    → size ≤ 2 ^ 63
    → Ordered b size align_ (allocation_order b size align_)
allocation_order-Ordered b ls size align_ w small fits =
    let m : ℕ = b.min_block_size_log2 in
    let least_block : bytes b 0 ≤ 2 ^ 30 =
      pow-le-pow_right {n = 2} (omega arith) {i = m + 0} {j = 30} (omega (arith, w.shift)) in
    let want : ℕ = wanted b size align_ in
    let want_fits : want ≤ 2 ^ 63 = ground (arith, w.smallest, least_block) in
    let (k, word, run, above, least) = pow2ceil_lem want want_fits in
    let runs =
      order_runs b size align_ (if ltb b.heap_length (2 ^ k) then none else some (2 ^ k))
        (size_runs b size align_ (2 ^ k) small run) in
    elim (Bool-cases (ltb (m + last b) k)) [
      | inl beyond ↦
          let short : 2 ^ (m + last b) < want = least (m + last b) (ground arith) in
          let over : ltb b.heap_length (2 ^ k) ≡ true = ground (arith, w.whole) in
          inl (runs ∙ rw over refl, omega (arith, w.whole))
      | inr reach ↦
          let within : 2 ^ k ≤ 2 ^ (m + last b) =
            pow-le-pow_right {n = 2} (omega arith) {i = k} {j = m + last b} (ground arith) in
          let fits_heap : ltb b.heap_length (2 ^ k) ≡ false = ground (arith, w.whole) in
          let log : log2ceil (2 ^ k) ≡ k =
            log2ceil_lem k (2 ^ k) (omega arith) (omega arith)
              (omega (arith, pow-suc 2 k, one-le-pow k 2)) in
          let floor : m ≤ k = elim (Bool-cases (ltb k m)) [
            | inr le ↦ ground arith
            | inl under ↦
                let step : 2 ^ suc k ≤ 2 ^ (m + 0) =
                  pow-le-pow_right {n = 2} (omega arith) {i = suc k} {j = m + 0} (ground arith) in
                absurd (omega (arith, step, pow-suc 2 k, one-le-pow k 2, w.smallest, above))
          ] in
          let exponent : m + (k - m) ≡ k = omega arith in
          let size_is : bytes b (k - m) ≡ 2 ^ k = ap (λ (e : ℕ). 2 ^ e) exponent in
          inr (
            k - m,
            runs ∙ rw (fits_heap, log) refl,
            ground (arith, w.some_list),
            omega (arith, size_is),
            λ j lt. least (m + j) (omega arith),
          )
    ]
