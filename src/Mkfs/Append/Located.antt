-- ===== src/Mkfs/Append/Located.antt =====
-- What it is for `iappend` (tools/mkfs/mkfs.c) to find the sector of a file's block, and that the
-- step through the indirect block does.
use multiplix.Prelude.{
  ℕ, ◌+◌, ◌-◌, ◌*◌, ◌^◌, ◌≤◌, ◌<◌, ◌≡◌, ◌≢◌, inl, inr, refl, sym, ◌∙◌, ap, arith, set, length, ltb,
  ◌==◌, if◌then◌else◌, Bool-cases, get_or-set_self, get_or-set_ne, length-set, some, get_elem?,
  get_elem?-set_self, get_elem?-set_ne, get_elem?-get_or, [], true, false, set_outside, List,
}
use native.Mathlib.Decide.{ℕ_discrete}
use multiplix.Mkfs.Bytes.{little, xint}
use multiplix.Mkfs.Bytes.Laws.{xint-little}
use multiplix.Mkfs.Disk.{Mkfs, Block, ok, pure, ◌>>◌, wsect, >>=-ok, wsect-set}
use multiplix.Mkfs.Inode.{Dinode, ndirect}
use multiplix.Mkfs.Inode.Laws.{IsImage}
use multiplix.Mkfs.Append.{maxfile, addr, word_at, set_word, take_block, ensure_word}
use multiplix.Mkfs.Append.Map.{sector, block_addr, IsMap-extend, IsFile}
use multiplix.Mkfs.Append.Words.{word_at-set_word, length-set_word}
use multiplix.Mkfs.Append.Ensure.{Kept, taken, taken-ok, refl-Kept}

pub IsImage-set :
    (disk : List Block) (sec : ℕ) (b : Block)
    → IsImage disk
    → length b ≡ 1024
    → IsImage (set disk sec b)
IsImage-set disk sec b im full i c e = elim (ℕ_discrete i sec) [
  | no away ↦ im i c (sym (get_elem?-set_ne disk b (λ x. away (sym x))) ∙ e)
  | yes same ↦ elim (Bool-cases (ltb sec (length disk))) [
    | inl inside ↦
        let here : some c ≡ some b =
          sym e
          ∙ ap (get_elem? (set disk sec b)) same
          ∙ get_elem?-set_self disk sec b (ground arith) in
        let eq : c ≡ b = cc in ap (λ (x : Block). length x) eq ∙ full
    | inr outside ↦ im i c (rw (set_outside disk sec b (ground arith)) at e)
  ]
]

-- A block for the indirect block, if there is none.
abbrev pub root_cost : Dinode → ℕ
root_cost d = if addr d ndirect == 0 then 1 else 0

-- The block `fbn` of the file has a sector `x`, an old one or a new one, and nothing else of the
-- file has changed.
pub record Located (fbn : ℕ) (d : Dinode) (s : Mkfs) (d' : Dinode) (x : ℕ) (s' : Mkfs)
    : Type 0 where
  pub kept : Kept d s d' s'
  pub cost : s'.freeblock + root_cost d' ≤ s.freeblock + 1 + root_cost d
  pub here : block_addr s'.disk d' fbn ≡ x
  pub used : x ≢ 0
  pub old : block_addr s.disk d fbn ≢ 0 → x ≡ block_addr s.disk d fbn
  pub new : block_addr s.disk d fbn ≡ 0 → s.freeblock ≤ x
  pub others : (k : ℕ) → k < maxfile → k ≢ fbn → block_addr s'.disk d' k ≡ block_addr s.disk d k

module _ (d : Dinode) (s : Mkfs) (f : IsFile s.disk s.freeblock d) (j : ℕ)
    (room : s.freeblock < length s.disk) (few : length s.disk ≤ 2 ^ 22) (in_block : j < 256)
    (rooted : addr d ndirect ≢ 0) where
  abbrev root : ℕ
  root = addr d ndirect

  abbrev indirect : Block
  indirect = sector s.disk root

  abbrev grown : Block
  grown = set_word indirect j (xint little s.freeblock)

  abbrev after : Mkfs
  after = record s { disk = set s.disk root grown; freeblock = s.freeblock + 1 }

  root-lt : root < length s.disk
  root-lt = omega (arith, f.map.root_bound rooted)

  fits : j * 4 + 4 ≤ length indirect
  fits = omega (arith, f.blocks root indirect (get_elem?-get_or s.disk root [] root-lt))

  free-small : s.freeblock < 2 ^ 32
  free-small = omega (arith, f.small)

  word-grown : (i : ℕ) → word_at grown i ≡ (if i == j then s.freeblock else word_at indirect i)
  word-grown i =
      word_at-set_word indirect j (xint little s.freeblock) i fits
        (omega (arith, xint-little s.freeblock free-small))
      ∙ ap (λ (t : ℕ). if i == j then t else word_at indirect i)
          (xint-little s.freeblock free-small)

  sector-root : sector (set s.disk root grown) root ≡ grown
  sector-root = get_or-set_self s.disk root grown [] root-lt

  map-grown :
      (k : ℕ)
      → block_addr (set s.disk root grown) d k
        ≡ (if k == j + 12 then s.freeblock else block_addr s.disk d k)
  map-grown k = rw sector-root (ground (arith, word-grown (k - 12)))

  after-IsFile : word_at indirect j ≡ 0 → IsFile after.disk after.freeblock d
  after-IsFile empty = record {
    map = IsMap-extend (j + 12) f.map (ground arith) (λ k below. map-grown k);
    words = λ ne i. rw sector-root (ground (arith, word-grown i, f.words ne i));
    fresh = λ sec h below.
        get_or-set_ne s.disk root sec grown [] (omega (arith, f.map.root_bound rooted))
        ∙ f.fresh sec (omega arith) (omega (arith, length-set s.disk root grown));
    blocks = IsImage-set s.disk root grown f.blocks (
        length-set_word indirect j (xint little s.freeblock) fits
        ∙ f.blocks root indirect (get_elem?-get_or s.disk root [] root-lt));
    inode = f.inode;
    small = omega (arith, length-set s.disk root grown, f.small);
  }

  ensure_word-old : word_at indirect j ≢ 0 → ensure_word root indirect j s ≡ ok indirect s
  unfolding ensure_word
  ensure_word-old ne = let test : (word_at indirect j == 0) ≡ false = ground arith in rw test

  ensure_word-new : word_at indirect j ≡ 0 → ensure_word root indirect j s ≡ ok grown after
  unfolding ensure_word
  ensure_word-new e =
      let test : (word_at indirect j == 0) ≡ true = ground arith in
      rw test (
        >>=-ok take_block
          (λ a.
            wsect root (set_word indirect j (xint little a))
            >> pure (set_word indirect j (xint little a)))
          s (taken-ok s (omega (arith, f.small)))
        ∙ >>=-ok (wsect root grown) (λ _. pure grown) (taken s)
            (wsect-set root grown (taken s) (omega (arith, root-lt)) root-lt))

  -- The word of the indirect block, once it is there.
  pub ensure_word-Located :
      (indirect' : Block) × (s' : Mkfs) × (ensure_word root indirect j s ≡ ok indirect' s')
      × Located (j + 12) d s d (xint little (word_at indirect' j)) s'
      × (s'.freeblock ≤ s.freeblock + 1)
  ensure_word-Located = elim (ℕ_discrete (word_at indirect j) 0) [
    | no ne ↦
        let value = xint-little (word_at indirect j) (f.words rooted j) in
        (
          indirect,
          s,
          ensure_word-old ne,
          record {
            kept = refl-Kept d s f;
            cost = omega arith;
            here = ground (arith, value);
            used = λ e. ne (sym value ∙ e);
            old = λ _. ground (arith, value);
            new = λ e. absurd (ne (ground arith));
            others = λ k below away. refl;
          },
          omega arith,
        )
    | yes e ↦
        let value : xint little (word_at grown j) ≡ s.freeblock =
          ap (xint little) (word-grown j ∙ ground arith) ∙ xint-little s.freeblock free-small in
        (
          grown,
          after,
          ensure_word-new e,
          record {
            kept = record {
              file = after-IsFile e;
              sectors = λ sec h ne. get_or-set_ne s.disk root sec grown [] (λ x. ne (sym x));
              root = inl refl;
              grow = omega arith;
              length = length-set s.disk root grown;
              inodes = refl;
              rest = refl;
            };
            cost = omega arith;
            here = map-grown (j + 12) ∙ ground (arith, value);
            used = λ z. absurd (omega (arith, value, f.map.start, z));
            old = λ ne. absurd (ne (ground arith));
            new = λ _. omega (arith, value);
            others = λ k below away. map-grown k ∙ ground arith;
          },
          omega arith,
        )
  ]
