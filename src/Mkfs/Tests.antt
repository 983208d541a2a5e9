-- ===== src/Mkfs/Tests.antt =====
-- Runs of the model of tools/mkfs/mkfs.c on a blank disk of FSSIZE sectors.
use multiplix.Prelude.{
  ℕ, zero, suc, ◌+◌, ◌≤◌, ◌<◌, ◌≡◌, refl, ◌∙◌, sym, arith, List, [], ◌∷◌, length, ap, none, set,
  length-replicate, replicate, get_or, some, Option,
}
use multiplix.Mkfs.Main.{balloc, bmapstart, dirent, skip_underscore, short_name, superblock}
use multiplix.Mkfs.Main.Bitmap.{ones, balloc_lem}
use multiplix.Mkfs.Bytes.{big, little, store16, store32, xshort, xint}
use multiplix.Mkfs.Bytes.Laws.{xint_lem, xshort_lem}
use multiplix.Mkfs.Disk.{Mkfs, Block, zeroes, ok}
use multiplix.Mkfs.Inode.{Dinode, no_dinode, winode, ialloc}
use multiplix.Mkfs.Inode.View.{IsDinode}
use multiplix.Mkfs.Inode.Laws.{IsImage, Written, winode-Written}
use multiplix.Mkfs.Append.{iappend}
use multiplix.Mkfs.Append.Map.{IsFile}
use multiplix.Mkfs.Append.Fresh.{
  Allocated, ialloc-Allocated, empty-IsFile, IsEmpty, fields-IsDinode, no_addrs,
}
use multiplix.Mkfs.Append.Located.{root_cost}
use multiplix.Mkfs.Append.Loop.{touched}
use multiplix.Mkfs.Append.Laws.{Grown, iappend-Grown}

xint_lem_example :
    (store32 big (xint big 0x12345678) ≡ store32 little 0x12345678)
    × (xint big (xint big 0x12345678) ≡ 0x12345678)
xint_lem_example = xint_lem big 0x12345678 (omega arith)

xshort_lem_example :
    (store16 big (xshort big 0x1234) ≡ store16 little 0x1234)
    × (xshort big (xshort big 0x1234) ≡ 0x1234)
xshort_lem_example = xshort_lem big 0x1234 (omega arith)

abbrev blank : Mkfs
blank = record { disk = replicate 100 zeroes; freeinode = 1; freeblock = 46 }

blank-sector : (n i : ℕ) → i < n → get_or (replicate n zeroes) i [] ≡ zeroes
blank-sector zero i lt = absurd (omega arith)
blank-sector (suc n) zero lt = refl
blank-sector (suc n) (suc i) lt = blank-sector n i (omega arith)

blank-IsImage : (n : ℕ) → IsImage (replicate n zeroes)
blank-IsImage zero i b e = ground arith
blank-IsImage (suc n) zero b e =
    ap (λ (o : Option Block). elim o [ none ↦ 0 | some x ↦ length x ]) (sym e)
    ∙ length-replicate {A = ℕ} 1024 0
blank-IsImage (suc n) (suc i) b e = blank-IsImage n i b e

abbrev directory : Dinode
directory = record no_dinode { type = 1; nlink = 1 }

winode-Written_example :
    (s' : Mkfs) × (winode 17 directory blank ≡ ok tt s') × Written 17 directory blank s'
winode-Written_example =
    winode-Written 17 directory blank (blank-IsImage 100) (fields-IsDinode 1 (omega arith))
      (omega arith) (omega arith)

ialloc-Allocated_example : (s' : Mkfs) × (ialloc 1 blank ≡ ok 1 s') × Allocated 1 blank s'
ialloc-Allocated_example =
    ialloc-Allocated 1 blank (omega arith) (omega arith) (omega arith) (omega arith) (omega arith)
      (blank-IsImage 100) (λ sec le lt. blank-sector 100 sec lt)

-- The inodes of a blank disk are all zero.
no_dinode-IsDinode : IsDinode no_dinode
no_dinode-IsDinode = record {
  type = omega arith;
  major = omega arith;
  minor = omega arith;
  nlink = omega arith;
  size = omega arith;
  count = refl;
  addrs = ground arith;
}

no_dinode-IsEmpty : IsEmpty no_dinode
no_dinode-IsEmpty = no_addrs 0

no_dinode-IsFile : IsFile blank.disk 46 no_dinode
no_dinode-IsFile =
    empty-IsFile blank.disk 46 no_dinode (omega arith) (blank-IsImage 100) no_dinode-IsDinode
      (omega arith) (λ sec le lt. blank-sector 100 sec lt) no_dinode-IsEmpty

abbrev hi : List ℕ
hi = b'h' ∷ b'i' ∷ []

room : 46 + touched 0 2 + root_cost no_dinode + 1 ≤ 100
unfolding xint
room = omega arith

iappend-Grown_example :
    (s' : Mkfs) × (iappend 1 hi blank ≡ ok tt s') × Grown 1 hi no_dinode blank s'
iappend-Grown_example =
    iappend-Grown 1 hi no_dinode blank (omega arith) refl no_dinode-IsFile
      (λ k lt before. absurd (omega arith)) (omega arith) room (omega arith)

balloc_lem_example :
    (b : Block) × (balloc 51 blank ≡ ok tt (record blank { disk = set blank.disk bmapstart b }))
    × (length b ≡ 1024)
    × ((q : ℕ) → q < 1024 → get_or b q 0 ≡ ones 51 q)
balloc_lem_example = balloc_lem 51 blank (omega arith) (omega arith)

-- "user/_sh" becomes the entry "sh".
entry_test :
    dirent 2
      (skip_underscore (short_name (b'u' ∷ b's' ∷ b'e' ∷ b'r' ∷ b'/' ∷ b'_' ∷ b's' ∷ b'h' ∷ [])))
    ≡ 2 ∷ 0 ∷ b's' ∷ b'h' ∷ replicate 12 0
unfolding xshort
entry_test = refl

superblock_test :
    superblock
    ≡ 0x40 ∷ 0x30 ∷ 0x20 ∷ 0x10 ∷ 100 ∷ 0 ∷ 0 ∷ 0 ∷ 54 ∷ 0 ∷ 0 ∷ 0 ∷ 200 ∷ 0 ∷ 0 ∷ 0 ∷ 30 ∷ 0 ∷ 0
      ∷ 0 ∷ 2 ∷ 0 ∷ 0 ∷ 0 ∷ 32 ∷ 0 ∷ 0 ∷ 0 ∷ 45 ∷ 0 ∷ 0 ∷ 0 ∷ []
unfolding xint
superblock_test = refl
