-- ===== src/Kernel/Alloc/Buddy/Halves.antt =====
-- Sizes and buddies in src/plix/alloc/buddy.d: two buddies are the halves of a block of the next
-- order.
use native.Mathlib.Decide.{ℕ_discrete}
use native.Mathlib.Nat.{pow-suc, one-le-pow, pow-le-pow_right}
use multiplix.Prelude.{
  ℕ, suc, ◌+◌, ◌-◌, ◌*◌, ◌/◌, ◌%◌, ◌^◌, ◌≤◌, ◌<◌, ◌≡◌, ◌≢◌, ◌⊎◌, refl, sym, ◌∙◌, ap, arith, true,
  false, some, List, leb, inl, inr, bit_xor, min,
}
use multiplix.Prelude.Bits.Xor.{bit_xor_fields, bit_xor_comm, bit_xor_cancel}
use multiplix.Kernel.Alloc.Buddy.{BuddyAlloc, last, order_size, buddy}
use multiplix.Kernel.Alloc.Buddy.Cover.{inside}
use multiplix.Kernel.Alloc.Buddy.State.{bytes, bytes_pos, IsHeap}
use multiplix.Kernel.Alloc.Buddy.Insert.{IsBlock, IsBlock-free}

pub bytes-suc : (b : BuddyAlloc) (k : ℕ) → bytes b (suc k) ≡ bytes b k + bytes b k
bytes-suc b k =
    let e : b.min_block_size_log2 + suc k ≡ suc (b.min_block_size_log2 + k) = omega arith in
    rw e (omega (arith, pow-suc 2 (b.min_block_size_log2 + k)))

pub bytes-halves :
    (b : BuddyAlloc) (k a x : ℕ)
    → inside (bytes b (suc k)) a x ≡ inside (bytes b k) a x + inside (bytes b k) (a + bytes b k) x
bytes-halves b k a x = ground (arith, bytes-suc b k)

-- Below 31 bits the shift of an `int` gives the size.
pub order_size_lem :
    (b : BuddyAlloc) (o : ℕ) → b.min_block_size_log2 + o < 31 → order_size b o ≡ bytes b o
unfolding order_size
order_size_lem b o lt =
    let small : bytes b o ≤ 2 ^ 30 =
      pow-le-pow_right {n = 2} (omega arith) {i = b.min_block_size_log2 + o} {j = 30}
        (omega arith) in
    ground (arith, small)

xor_even : (h k : ℕ) → bit_xor (h * 2 ^ suc k) (2 ^ k) ≡ h * 2 ^ suc k + 2 ^ k
xor_even h k =
    bit_xor_comm (h * 2 ^ suc k) (2 ^ k)
    ∙ bit_xor_fields (suc k) (2 ^ k) h (omega (arith, pow-suc 2 k, one-le-pow k 2))
    ∙ omega arith

xor_odd : (h k : ℕ) → bit_xor (h * 2 ^ suc k + 2 ^ k) (2 ^ k) ≡ h * 2 ^ suc k
xor_odd h k =
    ap (λ (t : ℕ). bit_xor t (2 ^ k)) (sym (xor_even h k)) ∙ bit_xor_cancel (h * 2 ^ suc k) (2 ^ k)

parity : (q s : ℕ) → (q * s ≡ q / 2 * (s + s)) ⊎ (q * s ≡ q / 2 * (s + s) + s)
parity q s = elim (ℕ_discrete (q % 2) 0) [
  | yes e ↦
      let even : q ≡ q / 2 + q / 2 = omega arith in inl (ap (λ (t : ℕ). t * s) even ∙ omega arith)
  | no ne ↦
      let odd : q ≡ q / 2 + q / 2 + 1 = omega arith in inr (ap (λ (t : ℕ). t * s) odd ∙ omega arith)
]

-- The buddy of a block, and the block that the two make.
pub record Pair (b : BuddyAlloc) (o block : ℕ) : Type 0 where
  pub bud : ℕ
  pub returns : buddy b o block ≡ some bud
  pub not_null : bud ≢ 0
  pub start : (h : ℕ) × (min block bud ≡ b.heap + h * bytes b (suc o))
  pub halves :
      (x : ℕ)
      → inside (bytes b (suc o)) (min block bud) x
        ≡ inside (bytes b o) block x + inside (bytes b o) bud x

module _ (b : BuddyAlloc) (ls : List (List ℕ)) (o block : ℕ) (w : IsHeap b ls)
    (k : IsBlock b ls o block) (below : o < last b) where
  abbrev h : ℕ
  h = k.start.0 / 2

  larger : bytes b o < b.heap_length
  larger =
      let some_bytes = bytes_pos b o in
      let up : bytes b (suc o) ≤ bytes b (last b) =
        pow-le-pow_right {n = 2} (omega arith) {i = b.min_block_size_log2 + suc o}
          {j = b.min_block_size_log2 + last b} (omega arith) in
      omega (arith, w.whole, bytes-suc b o)

  returns : buddy b o block ≡ some (b.heap + bit_xor (block - b.heap) (bytes b o))
  unfolding buddy
  returns =
      let size = order_size_lem b o (omega (arith, w.shift)) in
      let above : leb b.heap block ≡ true = ground (arith, (IsBlock-free b ls o block k).1) in
      let no : leb b.heap_length (bytes b o) ≡ false = ground (arith, larger) in
      rw (above, size, no) refl

  double : h * 2 ^ suc (b.min_block_size_log2 + o) ≡ h * (bytes b o + bytes b o)
  double = ap (λ (t : ℕ). h * t) (omega (arith, pow-suc 2 (b.min_block_size_log2 + o)))

  next_size : h * bytes b (suc o) ≡ h * (bytes b o + bytes b o)
  next_size = ap (λ (t : ℕ). h * t) (bytes-suc b o)

  pub pair : Pair b o block
  pair =
      let off : block - b.heap ≡ k.start.0 * bytes b o = omega (arith, k.start.1) in
      let some_bytes = bytes_pos b o in
      elim (parity k.start.0 (bytes b o)) [
        | inl even ↦
            let from : block - b.heap ≡ h * 2 ^ suc (b.min_block_size_log2 + o) =
              omega (arith, off, even, double) in
            let bud : b.heap + bit_xor (block - b.heap) (bytes b o) ≡ block + bytes b o =
              ap (λ (t : ℕ). b.heap + bit_xor t (bytes b o)) from
              ∙ omega (arith, xor_even h (b.min_block_size_log2 + o), double, even, k.start.1) in
            let low : min block (block + bytes b o) ≡ block = omega arith in
            record {
              bud = block + bytes b o;
              returns = returns ∙ ap some bud;
              not_null = omega arith;
              start = (h, low ∙ k.start.1 ∙ omega (arith, even, next_size));
              halves = λ x. rw low (bytes-halves b o block x);
            }
        | inr odd ↦
            let from : block - b.heap ≡ h * 2 ^ suc (b.min_block_size_log2 + o) + bytes b o =
              omega (arith, off, odd, double) in
            let bud : b.heap + bit_xor (block - b.heap) (bytes b o) ≡ b.heap + h * bytes b (suc o) =
              ap (λ (t : ℕ). b.heap + bit_xor t (bytes b o)) from
              ∙ omega (arith, xor_odd h (b.min_block_size_log2 + o), double, next_size) in
            let low : min block (b.heap + h * bytes b (suc o)) ≡ b.heap + h * bytes b (suc o) =
              omega (arith, odd, next_size, k.start.1) in
            let up : b.heap + h * bytes b (suc o) + bytes b o ≡ block =
              omega (arith, odd, next_size, k.start.1) in
            record {
              bud = b.heap + h * bytes b (suc o);
              returns = returns ∙ ap some bud;
              not_null = omega (arith, w.base);
              start = (h, low);
              halves = λ x. rw low (
                  bytes-halves b o (b.heap + h * bytes b (suc o)) x
                  ∙ omega (arith, ap (λ (t : ℕ). inside (bytes b o) t x) up));
            }
      ]
