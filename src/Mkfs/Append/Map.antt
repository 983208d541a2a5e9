-- ===== src/Mkfs/Append/Map.antt =====
-- The map from a file's blocks to sectors in tools/mkfs/mkfs.c: what a well-formed map is, and the
-- two ways in which it is extended.
use multiplix.Prelude.{
  ℕ, zero, suc, ◌+◌, ◌-◌, ◌^◌, ◌≤◌, ◌<◌, ◌≡◌, ◌≢◌, inl, inr, ◌∙◌, ap, arith, List, get_or, set,
  length, ltb, ◌==◌, if◌then◌else◌, Bool-cases, get_or-set_self, get_or-set_ne, length-set, [], ◌∷◌,
}
use multiplix.Mkfs.Bytes.{little, xint}
use multiplix.Mkfs.Bytes.Laws.{AllBelow, xint-little}
use multiplix.Mkfs.Disk.{Block, zeroes}
use multiplix.Mkfs.Inode.{Dinode, ndirect}
use multiplix.Mkfs.Inode.View.{IsDinode}
use multiplix.Mkfs.Inode.Laws.{IsImage}
use multiplix.Mkfs.Append.{maxfile, addr, set_addr, word_at}

-- Where the data blocks of an image begin: `nmeta`.
abbrev pub nmeta : ℕ
nmeta = 46

abbrev pub sector : List Block → ℕ → Block
sector disk sec = get_or disk sec []

-- The sector of block `k` of a file, 0 where none is allocated yet.
abbrev pub block_addr : List Block → Dinode → ℕ → ℕ
block_addr disk d k =
    if ltb k ndirect
    then addr d k
    else if addr d ndirect == 0
    then 0
    else word_at (sector disk (addr d ndirect)) (k - ndirect)

-- A map `m` with its indirect block at `root`, all below the next free block: no two blocks share
-- a sector, and none is the indirect block.
pub record IsMap (m : ℕ → ℕ) (root free : ℕ) : Type 0 where
  pub start : nmeta ≤ free
  pub bound : (k : ℕ) → k < maxfile → m k ≢ 0 → (nmeta ≤ m k) × (m k < free)
  pub root_bound : root ≢ 0 → (nmeta ≤ root) × (root < free)
  pub distinct : (k j : ℕ) → k < maxfile → j < maxfile → m k ≢ 0 → m k ≡ m j → k ≡ j
  pub apart : (k : ℕ) → k < maxfile → m k ≢ 0 → m k ≢ root

-- Block `b` gets the next free block.
pub IsMap-extend :
    {m m' : ℕ → ℕ} {root free : ℕ} (b : ℕ)
    → IsMap m root free
    → m b ≡ 0
    → ((k : ℕ) → k < maxfile → m' k ≡ (if k == b then free else m k))
    → IsMap m' root (free + 1)
IsMap-extend {m} {m'} {root} {free} b v none_yet e = record {
  start = omega (arith, v.start);
  bound = λ k lt ne. ground (arith, e k lt, v.bound k lt, v.start);
  root_bound = λ ne. omega (arith, v.root_bound ne);
  distinct = λ k j lt lt' ne same.
      ground (arith, e k lt, e j lt', v.bound k lt, v.bound j lt', v.distinct k j lt lt');
  apart = λ k lt ne. ground (arith, e k lt, v.apart k lt, v.root_bound);
}

-- The indirect block gets the next free block, and holds nothing yet.
pub IsMap-root :
    {m m' : ℕ → ℕ} {free : ℕ}
    → IsMap m 0 free
    → ((k : ℕ) → k < maxfile → m' k ≡ m k)
    → IsMap m' free (free + 1)
IsMap-root {m} {m'} {free} v e = record {
  start = omega (arith, v.start);
  bound = λ k lt ne. ground (arith, e k lt, v.bound k lt);
  root_bound = λ ne. omega (arith, v.start);
  distinct = λ k j lt lt' ne same. ground (arith, e k lt, e j lt', v.distinct k j lt lt');
  apart = λ k lt ne. ground (arith, e k lt, v.bound k lt);
}

-- A file on a disk that `mkfs` is building: its map is well formed, every sector from the next free
-- block on is still zero, and the indirect block holds 32-bit words.
pub record IsFile (disk : List Block) (free : ℕ) (d : Dinode) : Type 0 where
  pub map : IsMap (block_addr disk d) (addr d ndirect) free
  pub words : addr d ndirect ≢ 0 → (j : ℕ) → word_at (sector disk (addr d ndirect)) j < 2 ^ 32
  pub fresh : (sec : ℕ) → free ≤ sec → sec < length disk → sector disk sec ≡ zeroes
  pub blocks : IsImage disk
  pub inode : IsDinode d
  pub small : length disk < 2 ^ 32

AllBelow-set : (n : ℕ) (xs : List ℕ) (i v : ℕ) → AllBelow n xs → v < n → AllBelow n (set xs i v)
AllBelow-set n [] i v h lt = h
AllBelow-set n (x ∷ xs) zero v h lt = (lt, h.1)
AllBelow-set n (x ∷ xs) (suc i) v h lt = (h.0, AllBelow-set n xs i v h.1 lt)

pub set_addr-IsDinode : (d : Dinode) (k a : ℕ) → IsDinode d → a < 2 ^ 32 → IsDinode (set_addr d k a)
set_addr-IsDinode d k a v lt = record {
  type = v.type;
  major = v.major;
  minor = v.minor;
  nlink = v.nlink;
  size = v.size;
  count = length-set d.addrs k (xint little a) ∙ v.count;
  addrs = AllBelow-set (2 ^ 32) d.addrs k (xint little a) v.addrs (omega (arith, xint-little a lt));
}

pub addr-set_addr :
    (d : Dinode) (b a k : ℕ)
    → IsDinode d
    → b < 13
    → a < 2 ^ 32
    → addr (set_addr d b a) k ≡ (if k == b then a else addr d k)
addr-set_addr d b a k v lt small =
    let value : xint little (xint little a) ≡ a =
      ap (xint little) (xint-little a small) ∙ xint-little a small in
    elim (Bool-cases (k == b)) [
      | inl same ↦
          let e : k ≡ b = ground arith in
          rw (same, e)
            (ap (xint little) (get_or-set_self d.addrs b (xint little a) 0 (omega (arith, v.count)))
              ∙ value)
      | inr other ↦
          rw other (ap (xint little) (get_or-set_ne d.addrs b k (xint little a) 0 (ground arith)))
    ]

-- A new direct address changes the map at its block alone.
pub block_addr-set_addr :
    (disk : List Block) (d : Dinode) (b a k : ℕ)
    → IsDinode d
    → b < ndirect
    → a < 2 ^ 32
    → block_addr disk (set_addr d b a) k ≡ (if k == b then a else block_addr disk d k)
block_addr-set_addr disk d b a k v lt small =
    let root : addr (set_addr d b a) ndirect ≡ addr d ndirect =
      addr-set_addr d b a ndirect v (omega arith) small ∙ ground arith in
    let here = addr-set_addr d b a k v (omega arith) small in rw (root, here) (ground arith)
