-- ===== src/Mkfs/Append/Fresh.antt =====
-- A new file of tools/mkfs/mkfs.c, as `ialloc` leaves it: no block is allocated yet.
use multiplix.Prelude.{
  ℕ, ◌+◌, ◌^◌, ◌≤◌, ◌<◌, ◌≡◌, ◌≢◌, refl, ◌∙◌, ap, arith, List, [], length, get_or-replicate, some,
  get_or_of_get_elem?, ◌%◌,
}
use multiplix.Mkfs.Bytes.{little, xint}
use multiplix.Mkfs.Bytes.Laws.{xint-little, xshort-little}
use multiplix.Mkfs.Disk.{Mkfs, Block, zeroes, ok, pure, ◌>>=◌, >>=-ok}
use multiplix.Mkfs.Inode.{Dinode, ndirect, no_dinode, winode, ialloc}
use multiplix.Mkfs.Inode.View.{IsDinode}
use multiplix.Mkfs.Inode.Laws.{IsImage, inode_at, winode-Written}
use multiplix.Mkfs.Append.{addr}
use multiplix.Mkfs.Append.Map.{nmeta, sector, block_addr, IsFile}

-- An inode without addresses.
abbrev pub IsEmpty : Dinode → Type 0
IsEmpty d = (k : ℕ) → addr d k ≡ 0

pub block_addr-empty :
    (disk : List Block) (d : Dinode) (k : ℕ) → IsEmpty d → block_addr disk d k ≡ 0
block_addr-empty disk d k e = ground (arith, e k, e ndirect)

pub empty-IsFile :
    (disk : List Block) (free : ℕ) (d : Dinode)
    → nmeta ≤ free
    → IsImage disk
    → IsDinode d
    → length disk < 2 ^ 32
    → ((sec : ℕ) → free ≤ sec → sec < length disk → sector disk sec ≡ zeroes)
    → IsEmpty d
    → IsFile disk free d
empty-IsFile disk free d start im v small fresh e =
    let none_yet = λ (k : ℕ). block_addr-empty disk d k e in
    record {
      map = record {
        start = start;
        bound = λ k lt ne. absurd (ne (none_yet k));
        root_bound = λ ne. absurd (ne (e ndirect));
        distinct = λ k j lt lt' ne same. absurd (ne (none_yet k));
        apart = λ k lt ne. absurd (ne (none_yet k));
      };
      words = λ ne. absurd (ne (e ndirect));
      fresh = fresh;
      blocks = im;
      inode = v;
      small = small;
    }

-- What `ialloc` leaves behind.
pub record Allocated (type : ℕ) (s s' : Mkfs) : Type 0 where
  pub inode : Dinode
  pub stored : inode_at s'.disk s.freeinode ≡ some inode
  pub fields : inode ≡ record no_dinode { type = type; nlink = 1 }
  pub file : IsFile s'.disk s'.freeblock inode
  pub others : (j : ℕ) → j ≢ s.freeinode → inode_at s'.disk j ≡ inode_at s.disk j
  pub sectors : (sec : ℕ) → nmeta ≤ sec → sector s'.disk sec ≡ sector s.disk sec
  pub size : length s'.disk ≡ length s.disk
  pub next : s'.freeinode ≡ s.freeinode + 1
  pub free : s'.freeblock ≡ s.freeblock

pub no_addrs : (type : ℕ) → IsEmpty (record no_dinode { type = type; nlink = 1 })
unfolding xint
no_addrs type k = ap (λ (a : ℕ). xint little a) (get_or-replicate 13 k 0)

pub fields-IsDinode :
    (type : ℕ) → type < 2 ^ 16 → IsDinode (record no_dinode { type = type; nlink = 1 })
fields-IsDinode type lt = record {
  type = lt;
  major = omega arith;
  minor = omega arith;
  nlink = omega arith;
  size = omega arith;
  count = refl;
  addrs = ground arith;
}

ialloc-runs :
    (type : ℕ) (s s' : Mkfs)
    → type < 2 ^ 16
    → winode s.freeinode
        (record no_dinode { type = type; nlink = 1 })
        (record s { freeinode = (s.freeinode + 1) % 2 ^ 32 })
      ≡ ok tt s'
    → ialloc type s ≡ ok s.freeinode s'
unfolding ialloc
ialloc-runs type s s' lt e =
    let t : Mkfs = record s { freeinode = (s.freeinode + 1) % 2 ^ 32 } in
    let put = winode s.freeinode in
    ap (λ (d : Dinode). (put d >>= λ _. pure s.freeinode) t)
      (λ i. record no_dinode {
        type = xshort-little type lt i;
        nlink = xshort-little 1 (omega arith) i;
        size = xint-little 0 (omega arith) i;
      })
    ∙ >>=-ok (put (record no_dinode { type = type; nlink = 1 })) (λ _. pure s.freeinode) t e

-- On an image whose sectors are whole, with the sectors from the next free block on still zero, a
-- type of 16 bits, a number below 224, whose place lies before the data sectors, and the disk
-- reaching up to them,
-- `ialloc` returns the next free number and leaves under it an inode with that type, one link, no
-- bytes and no blocks, which is a well-formed file. Every other inode and every data sector is
-- unchanged, the next free number goes up by one, and the next free block stays.
pub ialloc-Allocated :
    (type : ℕ) (s : Mkfs)
    → type < 2 ^ 16
    → s.freeinode < 224
    → nmeta ≤ s.freeblock
    → nmeta ≤ length s.disk
    → length s.disk < 2 ^ 32
    → IsImage s.disk
    → ((sec : ℕ) → s.freeblock ≤ sec → sec < length s.disk → sector s.disk sec ≡ zeroes)
    → (s' : Mkfs) × (ialloc type s ≡ ok s.freeinode s') × Allocated type s s'
ialloc-Allocated type s lt inum start long small im fresh =
    let d : Dinode = record no_dinode { type = type; nlink = 1 } in
    let t : Mkfs = record s { freeinode = (s.freeinode + 1) % 2 ^ 32 } in
    let v = fields-IsDinode type lt in
    let (s', run, w) = winode-Written s.freeinode d t im v (omega arith) (omega arith) in
    let same : (sec : ℕ) → nmeta ≤ sec → sector s'.disk sec ≡ sector s.disk sec = λ sec le.
      get_or_of_get_elem? [] s'.disk s.disk sec (w.sectors sec (λ e. absurd (omega arith))) in
    (
      s',
      ialloc-runs type s s' lt run,
      record {
        inode = d;
        stored = w.stored;
        fields = refl;
        file =
            empty-IsFile s'.disk s'.freeblock d (omega (arith, w.free)) w.blocks v
              (omega (arith, w.size))
              (λ sec le below.
                same sec (omega (arith, w.free))
                ∙ fresh sec (omega (arith, w.free)) (omega (arith, w.size)))
              (no_addrs type);
        others = w.others;
        sectors = same;
        size = w.size;
        next = omega (arith, w.inodes);
        free = w.free;
      },
    )
