-- ===== src/Mkfs/Main/Bitmap.antt =====
-- The bitmap that `balloc` of tools/mkfs/mkfs.c writes.
use multiplix.Prelude.{
  ℕ, zero, suc, ◌+◌, ◌-◌, ◌*◌, ◌/◌, ◌%◌, ◌^◌, ◌≤◌, ◌<◌, ◌≡◌, ◌≢◌, refl, sym, ◌∙◌, ap, arith, length,
  get_or, set, bit_or, ltb, leb, if◌then◌else◌, get_or-set_self, get_or-set_ne, length-set,
  length-replicate, get_or-replicate, Bool-cases, inl, inr, true, false,
}
use native.Mathlib.Decide.{ℕ_discrete}
use multiplix.Mkfs.Disk.{Mkfs, Block, zeroes, ok, wsect-set}
use multiplix.Mkfs.Main.{mark_loop, balloc, bmapstart}

-- The byte `q` of a bitmap whose first `used` bits are ones.
abbrev pub ones : (used q : ℕ) → ℕ
ones used q = if leb (q * 8 + 8) used then 255 else 2 ^ (used - q * 8) - 1

-- One more bit in a byte.
bit_or-next : (r : ℕ) → r < 8 → bit_or (2 ^ r - 1) (2 ^ r) ≡ 2 ^ suc r - 1
bit_or-next zero h = refl
bit_or-next (suc zero) h = refl
bit_or-next (suc (suc zero)) h = refl
bit_or-next (suc (suc (suc zero))) h = refl
bit_or-next (suc (suc (suc (suc zero)))) h = refl
bit_or-next (suc (suc (suc (suc (suc zero))))) h = refl
bit_or-next (suc (suc (suc (suc (suc (suc zero)))))) h = refl
bit_or-next (suc (suc (suc (suc (suc (suc (suc zero))))))) h = refl
bit_or-next (suc (suc (suc (suc (suc (suc (suc (suc r)))))))) h = absurd (omega arith)

ones_next : (i : ℕ) → bit_or (ones i (i / 8)) (2 ^ (i % 8)) ≡ ones (suc i) (i / 8)
ones_next i =
    let part : leb (i / 8 * 8 + 8) i ≡ false = ground arith in
    let at : i - i / 8 * 8 ≡ i % 8 = omega arith in
    let after : suc i - i / 8 * 8 ≡ suc (i % 8) = omega arith in
    let full : 2 ^ suc (i % 8) - 1
        ≡ (if leb (i / 8 * 8 + 8) (suc i) then 255 else 2 ^ suc (i % 8) - 1) =
      elim (ℕ_discrete (i % 8) 7) [
        | yes e ↦ let yes' : leb (i / 8 * 8 + 8) (suc i) ≡ true = ground arith in rw (yes', e) refl
        | no ne ↦ let no' : leb (i / 8 * 8 + 8) (suc i) ≡ false = ground arith in rw no' refl
      ] in
    rw (part, at, after) (bit_or-next (i % 8) (omega arith) ∙ full)

ones_other : (i q : ℕ) → q ≢ i / 8 → ones (suc i) q ≡ ones i q
ones_other i q ne = elim (Bool-cases (ltb q (i / 8))) [
  | inl below ↦
      let old : leb (q * 8 + 8) i ≡ true = ground arith in
      let new : leb (q * 8 + 8) (suc i) ≡ true = ground arith in rw (old, new) refl
  | inr above ↦
      let old : leb (q * 8 + 8) i ≡ false = ground arith in
      let new : leb (q * 8 + 8) (suc i) ≡ false = ground arith in
      let none_old : i - q * 8 ≡ 0 = ground arith in
      let none_new : suc i - q * 8 ≡ 0 = ground arith in rw (old, new, none_old, none_new) refl
]

-- A block whose first `i` bits are ones.
record IsMarked (i : ℕ) (buf : Block) : Type 0 where
  size : length buf ≡ 1024
  bytes : (q : ℕ) → get_or buf q 0 ≡ (if ltb q 1024 then ones i q else 0)

mark-IsMarked :
    (i : ℕ) (buf : Block)
    → i < 8192
    → IsMarked i buf
    → IsMarked (suc i) (set buf (i / 8) (bit_or (get_or buf (i / 8) 0) (2 ^ (i % 8))))
mark-IsMarked i buf lt m =
    let v : ℕ = bit_or (get_or buf (i / 8) 0) (2 ^ (i % 8)) in
    let inside : ltb (i / 8) 1024 ≡ true = ground arith in
    let old : get_or buf (i / 8) 0 ≡ ones i (i / 8) = m.bytes (i / 8) ∙ rw inside refl in
    let value : v ≡ ones (suc i) (i / 8) =
      ap (λ (t : ℕ). bit_or t (2 ^ (i % 8))) old ∙ ones_next i in
    record {
      size = length-set buf (i / 8) v ∙ m.size;
      bytes = λ q. elim (ℕ_discrete q (i / 8)) [
        | yes e ↦ rw (e, inside) (get_or-set_self buf (i / 8) v 0 (omega (arith, m.size)) ∙ value)
        | no ne ↦
            get_or-set_ne buf (i / 8) q v 0 (λ e. ne (sym e))
            ∙ m.bytes q
            ∙ ap (λ (t : ℕ). if ltb q 1024 then t else 0) (sym (ones_other i q ne))
      ];
    }

mark_loop-IsMarked :
    (n i : ℕ) (buf : Block) → i + n ≤ 8192 → IsMarked i buf → IsMarked (i + n) (mark_loop n i buf)
unfolding mark_loop
mark_loop-IsMarked zero i buf le m = let e : i + 0 ≡ i = omega arith in rw e m
mark_loop-IsMarked (suc n) i buf le m =
    let e : i + suc n ≡ suc i + n = omega arith in
    rw e (
      mark_loop-IsMarked n (suc i) (set buf (i / 8) (bit_or (get_or buf (i / 8) 0) (2 ^ (i % 8))))
        (omega arith) (mark-IsMarked i buf (omega arith) m))

zeroes-IsMarked : IsMarked 0 zeroes
zeroes-IsMarked = record {
  size = length-replicate {A = ℕ} 1024 0;
  bytes = λ q.
      let part : leb (q * 8 + 8) 0 ≡ false = ground arith in
      let none_yet : 0 - q * 8 ≡ 0 = omega arith in
      get_or-replicate 1024 q 0 ∙ rw (part, none_yet) (ground arith);
}

-- For fewer than 8192 blocks and a disk that has the bitmap's sector, `balloc` succeeds; then that
-- sector holds a block whose first `used` bits, from the low bit of the first byte on, are ones and
-- whose other bits are zero, and every other sector and the counters are as before.
pub balloc_lem :
    (used : ℕ) (s : Mkfs)
    → used < 8192
    → bmapstart < length s.disk
    → (b : Block) × (balloc used s ≡ ok tt (record s { disk = set s.disk bmapstart b }))
      × (length b ≡ 1024)
      × ((q : ℕ) → q < 1024 → get_or b q 0 ≡ ones used q)
unfolding balloc
balloc_lem used s lt there =
    let b = mark_loop used 0 zeroes in
    let m = mark_loop-IsMarked used 0 zeroes (omega arith) zeroes-IsMarked in
    let few : ltb used 8192 ≡ true = ground arith in
    (
      b,
      rw few (wsect-set bmapstart b s (omega arith) there),
      m.size,
      λ q below.
          let inside : ltb q 1024 ≡ true = ground arith in
          m.bytes q ∙ rw inside (ap (λ (t : ℕ). ones t q) (omega arith)),
    )
