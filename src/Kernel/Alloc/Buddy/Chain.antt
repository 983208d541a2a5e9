-- ===== src/Kernel/Alloc/Buddy/Chain.antt =====
-- One free list of src/plix/alloc/buddy.d: the list that the links form, and the unlinking of a
-- block.
use multiplix.Prelude.{
  ℕ, zero, suc, ◌+◌, ◌≤◌, ◌<◌, ◌≡◌, ◌≢◌, refl, sym, arith, Bool, true, false, some, List, [], ◌∷◌,
  length, get_or, ◌⊎◌, get_or-set_self, get_or-set_ne, length-set, ◌==◌, if◌then◌else◌, Bool-cases,
  inl, inr,
}
use multiplix.Kernel.Alloc.Buddy.{BuddyAlloc, poke, Cell, head, next_of, read, write, remove_loop}
use multiplix.Kernel.Alloc.Buddy.Cover.{inside, covered}

-- The blocks that the links reach from `p`.
abbrev pub Chain : (ℕ → ℕ) → ℕ → List ℕ → Type 0
Chain next p [] = p ≡ 0
Chain next p (x ∷ xs) = (p ≡ x) × (x ≢ 0) × Chain next (next x) xs

-- A write to a byte that no block of the list covers leaves the list alone.
pub Chain-poke :
    (s : ℕ) (next : ℕ → ℕ) (a v p : ℕ) (xs : List ℕ)
    → 0 < s
    → covered s xs a ≡ 0
    → Chain next p xs
    → Chain (poke next a v) p xs
Chain-poke s next a v p [] pos free c = c
Chain-poke s next a v p (x ∷ xs) pos free (e, ne, c) =
    let apart : (x == a) ≡ false = ground arith in
    (e, ne, rw apart (Chain-poke s next a v (next x) xs pos (omega arith) c))

-- Two memories that agree on the blocks of the list.
pub Chain-same :
    (s : ℕ) (next next' : ℕ → ℕ) (p : ℕ) (xs : List ℕ)
    → 0 < s
    → ((x : ℕ) → covered s xs x ≢ 0 → next' x ≡ next x)
    → Chain next p xs
    → Chain next' p xs
Chain-same s next next' p [] pos same c = c
Chain-same s next next' p (x ∷ xs) pos same (e, ne, c) =
    let here : next' x ≡ next x = same x (ground arith) in
    (e, ne, rw here (Chain-same s next next' (next x) xs pos (λ y h. same y (omega arith)) c))

-- Two memories that agree on the links of 8 bytes that lie in blocks of the list, whose blocks have
-- room for a link.
pub Chain-links :
    (s : ℕ) (next next' : ℕ → ℕ) (p : ℕ) (xs : List ℕ)
    → 8 ≤ s
    → ((x : ℕ) → ((i : ℕ) → i < 8 → covered s xs (x + i) ≢ 0) → next' x ≡ next x)
    → Chain next p xs
    → Chain next' p xs
Chain-links s next next' p [] room same c = c
Chain-links s next next' p (x ∷ xs) room same (e, ne, c) =
    let here : next' x ≡ next x = same x (λ i lt. ground arith) in
    (
      e,
      ne,
      rw here (
          Chain-links s next next' (next x) xs room (λ y h. same y (λ i lt. omega (arith, h i lt)))
            c),
    )

abbrev pub has : ℕ → List ℕ → Bool
has a [] = false
has a (x ∷ xs) = if x == a then true else has a xs

abbrev pub without : ℕ → List ℕ → List ℕ
without a [] = []
without a (x ∷ xs) = if x == a then xs else x ∷ without a xs

-- The cell that links to a block, from the cell that links to the first.
abbrev pub cell_of : Cell → ℕ → List ℕ → Cell
cell_of c a [] = c
cell_of c a (x ∷ xs) = if x == a then c else cell_of (next_of x) a xs

-- With more fuel than the list has blocks, the loop finds the block's cell, or ends without it.
pub remove_loop_lem :
    (f : ℕ) (c : Cell) (a : ℕ) (b : BuddyAlloc) (xs : List ℕ)
    → length xs < f
    → Chain b.next (read b c) xs
    → remove_loop f c a b
      ≡ some (if has a xs then (true, write (cell_of c a xs) (b.next a) b) else (false, b))
unfolding remove_loop
remove_loop_lem zero c a b xs h chain = absurd (omega arith)
remove_loop_lem (suc f) c a b [] h chain = rw chain refl
remove_loop_lem (suc f) c a b (x ∷ xs) h (e, ne, chain) =
    let ih = remove_loop_lem f (next_of x) a b xs (omega arith) chain in
    let some_block : (x == 0) ≡ false = ground arith in
    elim (Bool-cases (x == a)) [
      | inl here ↦ rw (e, some_block, here) refl
      | inr later ↦ rw (e, some_block, later) ih
    ]

pub covered-without :
    (s a : ℕ) (xs : List ℕ) (x : ℕ)
    → has a xs ≡ true
    → covered s (without a xs) x + inside s a x ≡ covered s xs x
covered-without s a [] x h = absurd (ground arith)
covered-without s a (y ∷ xs) x h = elim (Bool-cases (y == a)) [
  | inl here ↦ let e : y ≡ a = ground arith in rw (here, e) (omega arith)
  | inr later ↦ rw later (omega (arith, covered-without s a xs x (ground arith)))
]

-- The unlinking writes one link: that of `y`, or of a block of the list.
record Unlinked (s : ℕ) (next : ℕ → ℕ) (y a : ℕ) (xs : List ℕ) : Type 0 where
  at : ℕ
  cell : cell_of (next_of y) a xs ≡ next_of at
  near : (at ≡ y) ⊎ (1 ≤ covered s xs at)
  chain : Chain (poke next at (next a)) (poke next at (next a) y) (without a xs)

unlink :
    (s : ℕ) (next : ℕ → ℕ) (y a : ℕ) (xs : List ℕ)
    → 0 < s
    → Chain next (next y) xs
    → has a xs ≡ true
    → covered s xs y ≡ 0
    → ((z : ℕ) → covered s xs z ≤ 1)
    → Unlinked s next y a xs
unlink s next y a [] pos chain h free once = absurd (ground arith)
unlink s next y a (x ∷ xs) pos (e, ne, chain) h free once = elim (Bool-cases (x == a)) [
  | inl here ↦
      let same : x ≡ a = ground arith in
      let kept : Chain (poke next y (next a)) (next x) xs =
        Chain-poke s next y (next a) (next x) xs pos (omega arith) chain in
      let value : poke next y (next a) y ≡ next x = ground arith in
      record { at = y; cell = rw here refl; near = inl refl; chain = rw (here, value) kept }
  | inr later ↦
      let alone : covered s xs x ≡ 0 = ground (arith, once x) in
      let ih = unlink s next x a xs pos chain (ground arith) alone (λ z. omega (arith, once z)) in
      let apart : (y == ih.at) ≡ false = ground (arith, ih.near) in
      record {
        at = ih.at;
        cell = rw later ih.cell;
        near = inr (ground (arith, ih.near));
        chain = rw (later, apart) (e, ne, ih.chain);
      }
]

-- What `free_list_remove` does to the state when it finds the block `a` in the list `xs` of
-- `order`.
pub record Removed (s order a : ℕ) (xs : List ℕ) (b b' : BuddyAlloc) : Type 0 where
  pub chain : Chain b'.next (get_or b'.free_lists order 0) (without a xs)
  pub heads : (j : ℕ) → j ≢ order → get_or b'.free_lists j 0 ≡ get_or b.free_lists j 0
  pub size : length b'.free_lists ≡ length b.free_lists
  pub links : (z : ℕ) → covered s xs z ≡ 0 → b'.next z ≡ b.next z
  pub rest : record b' { free_lists = b.free_lists; next = b.next } ≡ b

pub write-Removed :
    (s order a : ℕ) (xs : List ℕ) (b : BuddyAlloc)
    → 0 < s
    → order < length b.free_lists
    → Chain b.next (get_or b.free_lists order 0) xs
    → has a xs ≡ true
    → ((z : ℕ) → covered s xs z ≤ 1)
    → Removed s order a xs b (write (cell_of (head order) a xs) (b.next a) b)
write-Removed s order a [] b pos lt chain h once = absurd (ground arith)
write-Removed s order a (x ∷ xs) b pos lt (e, ne, chain) h once = elim (Bool-cases (x == a)) [
  | inl here ↦
      let same : x ≡ a = ground arith in
      rw (here) record {
        chain = rw (here, get_or-set_self b.free_lists order (b.next a) 0 lt, sym same) chain;
        heads = λ j ne'. get_or-set_ne b.free_lists order j (b.next a) 0 (λ q. ne' (sym q));
        size = length-set b.free_lists order (b.next a);
        links = λ z free. refl;
        rest = refl;
      }
  | inr later ↦
      let alone : covered s xs x ≡ 0 = ground (arith, once x) in
      let u = unlink s b.next x a xs pos chain (ground arith) alone (λ z. omega (arith, once z)) in
      rw (later, u.cell)
        record {
          chain = rw later (e, ne, u.chain);
          heads = λ j ne'. refl;
          size = refl;
          links = λ z free. ground (arith, u.near);
          rest = refl;
        }
]
