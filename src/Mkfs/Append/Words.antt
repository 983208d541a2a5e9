-- ===== src/Mkfs/Append/Words.antt =====
-- Words in the indirect block of a file, as tools/mkfs/mkfs.c reads and writes them.
use multiplix.Prelude.{
  ℕ, ◌+◌, ◌-◌, ◌*◌, ◌^◌, ◌≤◌, ◌<◌, ◌≡◌, inl, inr, ◌∙◌, arith, get_or, length, ◌==◌, if◌then◌else◌,
  Bool-cases, get_or-replicate, get_or-drop, drop, ==_iff, ge→ltb, lt→ltb,
}
use multiplix.Mkfs.Bytes.{little, store32}
use multiplix.Mkfs.Bytes.Laws.{get_or-splice, length-splice}
use multiplix.Mkfs.Disk.{Block, zeroes}
use multiplix.Mkfs.Append.{word_at, set_word}

pub word_at-zeroes : (j : ℕ) → word_at zeroes j ≡ 0
word_at-zeroes j =
    let at = λ (i : ℕ). get_or-drop 0 (j * 4) zeroes i ∙ get_or-replicate 1024 (j * 4 + i) 0 in
    omega (arith, at 0, at 1, at 2, at 3)

byte-set_word :
    (b : Block) (j w i n : ℕ)
    → j * 4 + 4 ≤ length b
    → n < 4
    → get_or (drop (i * 4) (set_word b j w)) n 0
      ≡ (if i == j then get_or (store32 little w) n 0 else get_or (drop (i * 4) b) n 0)
byte-set_word b j w i n fits lt =
    let new = get_or-drop 0 (i * 4) (set_word b j w) n in
    let old = get_or-drop 0 (i * 4) b n in
    let byte = get_or-splice (j * 4) (store32 little w) b (i * 4 + n) fits in
    new ∙ byte ∙ elim (Bool-cases (i == j)) [
      | inl same ↦
          let e : i ≡ j = (==_iff i j).0 same in
          let off : i * 4 + n - j * 4 ≡ n = omega arith in
          rw (
            same,
            off,
            ge→ltb (i * 4 + n) (j * 4) (omega arith),
            lt→ltb (i * 4 + n) (j * 4 + 4) (omega arith),
          )
      | inr other ↦ rw (other, old) (ground arith)
    ]

pub word_at-set_word :
    (b : Block) (j w i : ℕ)
    → j * 4 + 4 ≤ length b
    → w < 2 ^ 32
    → word_at (set_word b j w) i ≡ (if i == j then w else word_at b i)
word_at-set_word b j w i fits small = elim (Bool-cases (i == j)) [
  | inl same ↦
      let at : (n : ℕ)
          → n < 4
          → get_or (drop (i * 4) (set_word b j w)) n 0 ≡ get_or (store32 little w) n 0 =
        λ n lt. byte-set_word b j w i n fits lt ∙ rw same in
      rw same (
        omega
          (arith, at 0 (omega arith), at 1 (omega arith), at 2 (omega arith), at 3 (omega arith)))
  | inr other ↦
      let at : (n : ℕ)
          → n < 4
          → get_or (drop (i * 4) (set_word b j w)) n 0 ≡ get_or (drop (i * 4) b) n 0 =
        λ n lt. byte-set_word b j w i n fits lt ∙ rw other in
      rw other (
        omega
          (arith, at 0 (omega arith), at 1 (omega arith), at 2 (omega arith), at 3 (omega arith)))
]

pub length-set_word :
    (b : Block) (j w : ℕ) → j * 4 + 4 ≤ length b → length (set_word b j w) ≡ length b
length-set_word b j w fits = length-splice (j * 4) (store32 little w) b fits
