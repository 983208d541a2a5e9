-- ===== src/Mkfs/Inode/Laws.antt =====
-- Inodes on the disk of tools/mkfs/mkfs.c do not disturb one another.
use mathlib.Core.Path.{subst}
use native.Mathlib.Decide.{ℕ_discrete}
use multiplix.Prelude.{
  ◌^◌, ℕ, zero, suc, ◌+◌, ◌≤◌, ◌<◌, ◌≡◌, ◌≢◌, ◌⊎◌, refl, sym, ap, ◌∙◌, List, [], ◌∷◌, ◌++◌, arith,
  drop, take, length, get_or, get_elem?, set, Option, none, some, get_or-drop, length-take,
  length-set, get_elem?-set_self, get_elem?-set_ne,
}
use multiplix.Mkfs.Bytes.{splice}
use multiplix.Mkfs.Bytes.Laws.{get_or-splice, length-splice}
use multiplix.Mkfs.Disk.{
  sector_at_same, Result, stop, died, Mkfs, Block, ok, rsect, wsect, >>=-ok, rsect-some, wsect-set,
}
use multiplix.Mkfs.Inode.{Dinode, image, view, iblock, slot, rinode, winode}
use multiplix.Mkfs.Inode.View.{IsDinode, view_ext, view-image, length-image}

-- The image file: every sector holds a block's bytes.
abbrev pub IsImage : List Block → Type 0
IsImage disk = (sec : ℕ) (b : Block) → get_elem? disk sec ≡ some b → length b ≡ 1024

-- The inode that the disk holds under a number.
abbrev pub inode_at : List Block → ℕ → Option Dinode
inode_at disk inum = elim (get_elem? disk (iblock inum)) [
  | none ↦ none
  | some b ↦ some (view (drop (slot inum) b))
]

pub rinode-inode_at :
    (inum : ℕ) (s : Mkfs) (d : Dinode)
    → iblock inum < 2 ^ 22
    → inode_at s.disk inum ≡ some d
    → rinode inum s ≡ ok d s
unfolding rinode rsect
rinode-inode_at inum s d low e =
    let there : ℕ → Result Dinode = λ k. elim (get_elem? s.disk k) [
      | none ↦ stop died
      | some b ↦ ok (view (drop (slot inum) b)) s
    ] in
    ground (arith, ap there (sector_at_same (iblock inum) low))

drop-append : (xs ys : List ℕ) → drop (length xs) (xs ++ ys) ≡ ys
drop-append [] ys = refl
drop-append (x ∷ xs) ys = drop-append xs ys

drop-splice_self :
    (off : ℕ) (p buf : List ℕ)
    → off + length p ≤ length buf
    → drop off (splice off p buf) ≡ p ++ drop (off + length p) buf
drop-splice_self off p buf h =
    let e : length (take off buf) ≡ off = omega (arith, length-take off buf) in
    subst (λ n. drop n (splice off p buf) ≡ p ++ drop (off + length p) buf) e
      (drop-append (take off buf) (p ++ drop (off + length p) buf))

view-splice_self :
    (off : ℕ) (d : Dinode) (buf : Block)
    → IsDinode d
    → off + 64 ≤ length buf
    → view (drop off (splice off (image d) buf)) ≡ d
view-splice_self off d buf v h =
    ap view (drop-splice_self off (image d) buf (omega (arith, length-image d v)))
    ∙ view-image d (drop (off + length (image d)) buf) v

view-splice_ne :
    (off other : ℕ) (d : Dinode) (buf : Block)
    → IsDinode d
    → off + 64 ≤ length buf
    → (off + 64 ≤ other) ⊎ (other + 64 ≤ off)
    → view (drop other (splice off (image d) buf)) ≡ view (drop other buf)
view-splice_ne off other d buf v h apart =
    view_ext (drop other (splice off (image d) buf)) (drop other buf) λ i lt.
      get_or-drop 0 other (splice off (image d) buf) i
      ∙ same (other + i) (ground arith)
      ∙ sym (get_or-drop 0 other buf i)
  where
    same :
        (i : ℕ)
        → (i < off) ⊎ (off + 64 ≤ i)
        → get_or (splice off (image d) buf) i 0 ≡ get_or buf i 0
    same i out =
        let fits : off + length (image d) ≤ length buf = omega (arith, length-image d v) in
        let whole = length-image d v in get_or-splice off (image d) buf i fits ∙ ground arith

-- What `winode` does to the disk.
pub record Written (inum : ℕ) (d : Dinode) (s s' : Mkfs) : Type 0 where
  pub stored : inode_at s'.disk inum ≡ some d
  pub others : (j : ℕ) → j ≢ inum → inode_at s'.disk j ≡ inode_at s.disk j
  pub sectors : (sec : ℕ) → sec ≢ iblock inum → get_elem? s'.disk sec ≡ get_elem? s.disk sec
  pub size : length s'.disk ≡ length s.disk
  pub blocks : IsImage s'.disk
  pub inodes : s'.freeinode ≡ s.freeinode
  pub free : s'.freeblock ≡ s.freeblock

get_elem?-some {ℓ} :
    {A : Type ℓ} (xs : List A) (i : ℕ) → i < length xs → (a : A) × (get_elem? xs i ≡ some a)
get_elem?-some [] i h = absurd (omega arith)
get_elem?-some (x ∷ xs) zero h = (x, refl)
get_elem?-some (x ∷ xs) (suc i) h = get_elem?-some xs i (omega arith)

inode_at-some :
    (disk : List Block) (inum : ℕ) (b : Block)
    → get_elem? disk (iblock inum) ≡ some b
    → inode_at disk inum ≡ some (view (drop (slot inum) b))
inode_at-some disk inum b e = rw (e, inode_at)

pub inode_at-sector :
    (disk disk' : List Block) (inum : ℕ)
    → get_elem? disk' (iblock inum) ≡ get_elem? disk (iblock inum)
    → inode_at disk' inum ≡ inode_at disk inum
inode_at-sector disk disk' inum e = rw (e, inode_at)

module _ (inum : ℕ) (d : Dinode) (s : Mkfs) (buf : Block)
    (found : get_elem? s.disk (iblock inum) ≡ some buf) (im : IsImage s.disk) (v : IsDinode d)
    (lt : iblock inum < length s.disk) (low : iblock inum < 2 ^ 22) where
  abbrev buf' : Block
  buf' = splice (slot inum) (image d) buf

  abbrev disk' : List Block
  disk' = set s.disk (iblock inum) buf'

  fits : slot inum + 64 ≤ length buf
  fits = omega (arith, im (iblock inum) buf found)

  there : get_elem? disk' (iblock inum) ≡ some buf'
  there = get_elem?-set_self s.disk (iblock inum) buf' lt

  elsewhere : (sec : ℕ) → sec ≢ iblock inum → get_elem? disk' sec ≡ get_elem? s.disk sec
  elsewhere sec ne = get_elem?-set_ne s.disk buf' (λ e. ne (sym e))

  runs : winode inum d s ≡ ok tt (record s { disk = disk' })
  unfolding winode
  runs =
      >>=-ok (rsect (iblock inum)) (λ b. wsect (iblock inum) (splice (slot inum) (image d) b)) s
        (rsect-some (iblock inum) s buf low found)
      ∙ wsect-set (iblock inum) buf' s low lt

  others : (j : ℕ) → j ≢ inum → inode_at disk' j ≡ inode_at s.disk j
  others j ne = elim (ℕ_discrete (iblock j) (iblock inum)) [
    | no away ↦ inode_at-sector s.disk disk' j (elsewhere (iblock j) away)
    | yes same ↦
        let old = inode_at-some s.disk j buf (ap (get_elem? s.disk) same ∙ found) in
        let new = inode_at-some disk' j buf' (ap (get_elem? disk') same ∙ there) in
        new ∙ ap some (view-splice_ne (slot inum) (slot j) d buf v fits (omega arith)) ∙ sym old
  ]

  blocks : IsImage disk'
  blocks sec b e = elim (ℕ_discrete sec (iblock inum)) [
    | no away ↦ im sec b (sym (elsewhere sec away) ∙ e)
    | yes same ↦
        let here : some b ≡ some buf' = sym e ∙ ap (get_elem? disk') same ∙ there in
        let eq : b ≡ buf' = cc in
        ap (λ (x : Block). length x) eq
        ∙ length-splice (slot inum) (image d) buf (omega (arith, length-image d v, fits))
        ∙ im (iblock inum) buf found
  ]

  written : Written inum d s (record s { disk = disk' })
  written = record {
    stored =
        inode_at-some disk' inum buf' there ∙ ap some (view-splice_self (slot inum) d buf v fits);
    others = others;
    sectors = elsewhere;
    size = length-set s.disk (iblock inum) buf';
    blocks = blocks;
    inodes = refl;
    free = refl;
  }

-- On an image whose sectors are whole, with the inode's sector inside the file and below 2^22, from
-- where its offset in bytes no longer fits a `uint`, and an inode whose fields fit their types, `winode` succeeds; then the disk holds the inode under its number, every
-- other inode and every other sector is as before, the file keeps its size and its whole sectors,
-- and the two counters are unchanged.
pub winode-Written :
    (inum : ℕ) (d : Dinode) (s : Mkfs)
    → IsImage s.disk
    → IsDinode d
    → iblock inum < length s.disk
    → iblock inum < 2 ^ 22
    → (s' : Mkfs) × (winode inum d s ≡ ok tt s') × Written inum d s s'
winode-Written inum d s im v lt low =
    let found = get_elem?-some s.disk (iblock inum) lt in
    (
      record s { disk = disk' inum d s found.0 found.1 im v lt low },
      runs inum d s found.0 found.1 im v lt low,
      written inum d s found.0 found.1 im v lt low,
    )
