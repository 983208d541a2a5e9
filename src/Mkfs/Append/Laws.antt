-- ===== src/Mkfs/Append/Laws.antt =====
-- `iappend` of tools/mkfs/mkfs.c as a whole.
use mathlib.Core.Path.{fun_ext}
use multiplix.Prelude.{
  ℕ, ◌+◌, ◌*◌, ◌/◌, ◌%◌, ◌^◌, ◌≤◌, ◌<◌, ◌≡◌, ◌≢◌, refl, sym, ◌∙◌, ap, arith, List, [], get_or,
  length, get_or_of_get_elem?, get_elem?_of_get_or, some,
}
use native.Mathlib.Nat.{le_refl}
use native.Mathlib.Decide.{ℕ_discrete}
use multiplix.Mkfs.Bytes.{little, xint}
use multiplix.Mkfs.Bytes.Laws.{xint-little}
use multiplix.Mkfs.Disk.{Mkfs, Block, ok, >>=-ok, ◌>>=◌}
use multiplix.Mkfs.Inode.{Dinode, ndirect, rinode, winode, iblock}
use multiplix.Mkfs.Inode.View.{IsDinode}
use multiplix.Mkfs.Inode.Laws.{
  IsImage, inode_at, inode_at-sector, rinode-inode_at, Written, winode-Written,
}
use multiplix.Mkfs.Append.{maxfile, addr, append_loop, iappend}
use multiplix.Mkfs.Append.Map.{nmeta, sector, block_addr, IsFile}
use multiplix.Mkfs.Append.Located.{root_cost}
use multiplix.Mkfs.Append.Round.{byte_of, IsMapped, Appended}
use multiplix.Mkfs.Append.Loop.{touched, append_loop-Appended}

-- Another disk with the same data blocks, as after a write to an inode.
module _ (disk disk' : List Block) (free : ℕ) (d d' : Dinode) (f : IsFile disk free d)
    (same : (sec : ℕ) → nmeta ≤ sec → sector disk' sec ≡ sector disk sec)
    (size : length disk' ≡ length disk) (im : IsImage disk') (inode : IsDinode d')
    (addrs : d'.addrs ≡ d.addrs) where
  addr_same : (k : ℕ) → addr d' k ≡ addr d k
  addr_same k = ap (λ (a : List ℕ). xint little (get_or a k 0)) addrs

  root_sector : addr d ndirect ≢ 0 → sector disk' (addr d ndirect) ≡ sector disk (addr d ndirect)
  root_sector ne = same (addr d ndirect) (omega (arith, f.map.root_bound ne))

  pub block_addr_same : (k : ℕ) → block_addr disk' d' k ≡ block_addr disk d k
  block_addr_same k =
      rw (addr_same k, addr_same ndirect)
        (elim (ℕ_discrete (addr d ndirect) 0) [
          | yes e ↦ ground arith
          | no ne ↦ rw (root_sector ne)
        ])

  pub transfer-IsFile : IsFile disk' free d'
  transfer-IsFile = record {
    map = rw (addr_same ndirect, fun_ext block_addr_same) f.map;
    words = rw (addr_same ndirect) (λ ne. rw (root_sector ne) (f.words ne));
    fresh = λ sec h lt. same sec (omega (arith, f.map.start)) ∙ f.fresh sec h (omega (arith, size));
    blocks = im;
    inode = inode;
    small = omega (arith, size, f.small);
  }

  pub byte_of_same :
      (i : ℕ)
      → i / 1024 < maxfile
      → block_addr disk d (i / 1024) ≢ 0
      → byte_of disk' d' i ≡ byte_of disk d i
  byte_of_same i lt ne =
      ap (λ (a : ℕ). get_or (sector disk' a) (i % 1024) 0) (block_addr_same (i / 1024))
      ∙ ap (λ (b : Block). get_or b (i % 1024) 0)
          (same (block_addr disk d (i / 1024)) (omega (arith, f.map.bound (i / 1024) lt ne)))

-- The file under `inum` has grown from the inode `d` by `added`.
pub record Grown (inum : ℕ) (added : List ℕ) (d : Dinode) (s s' : Mkfs) : Type 0 where
  pub inode : Dinode
  pub stored : inode_at s'.disk inum ≡ some inode
  pub size : inode.size ≡ d.size + length added
  pub rest : record inode { addrs = d.addrs; size = d.size } ≡ d
  pub file : IsFile s'.disk s'.freeblock inode
  pub mapped : IsMapped s'.disk inode inode.size
  pub before : (i : ℕ) → i < d.size → byte_of s'.disk inode i ≡ byte_of s.disk d i
  pub text : (i : ℕ) → i < length added → byte_of s'.disk inode (d.size + i) ≡ get_or added i 0
  pub others : (j : ℕ) → j < 224 → j ≢ inum → inode_at s'.disk j ≡ inode_at s.disk j
  pub sectors :
      (sec : ℕ)
      → nmeta ≤ sec
      → sec < s.freeblock
      → sec ≢ addr d ndirect
      → ((k : ℕ) → k < maxfile → sec ≢ block_addr s.disk d k)
      → sector s'.disk sec ≡ sector s.disk sec
  pub grow : s.freeblock ≤ s'.freeblock
  pub inodes : s'.freeinode ≡ s.freeinode

-- The inodes' sectors belong to no file.
inode_sector :
    (d : Dinode) (s s' : Mkfs) (off : ℕ) (added : List ℕ) (d' : Dinode)
    → IsFile s.disk s.freeblock d
    → Appended off added d s d' s'
    → (j : ℕ) → j < 224
    → inode_at s'.disk j ≡ inode_at s.disk j
inode_sector d s s' off added d' f a j lt = inode_at-sector s.disk s'.disk j (
    get_elem?_of_get_or [] s'.disk s.disk (iblock j) a.size (
      a.sectors (iblock j) (omega (arith, f.map.start))
        (λ e. let b = f.map.root_bound (λ z. omega arith) in omega (arith, b))
        (λ k below e. let b = f.map.bound k below (λ z. omega arith) in omega (arith, b))))

iappend-runs :
    (inum : ℕ) (added : List ℕ) (d : Dinode) (s : Mkfs) (d' : Dinode) (off : ℕ) (s' s'' : Mkfs)
    → rinode inum s ≡ ok d s
    → append_loop (length added) d (xint little d.size) added s ≡ ok (d', off) s'
    → winode inum (record d' { size = xint little off }) s' ≡ ok tt s''
    → iappend inum added s ≡ ok tt s''
unfolding iappend
iappend-runs inum added d s d' off s' s'' e e' e'' =
    let last = λ (r : Dinode × ℕ). winode inum (record r.0 { size = xint little r.1 }) in
    let loop = λ (c : Dinode). append_loop (length added) c (xint little c.size) added in
    >>=-ok (rinode inum) (λ c. loop c >>= last) s e ∙ >>=-ok (loop d) last s e' ∙ e''

sized-IsDinode : (d : Dinode) (n : ℕ) → IsDinode d → n < 2 ^ 32 → IsDinode (record d { size = n })
sized-IsDinode d n v lt = record {
  type = v.type;
  major = v.major;
  minor = v.minor;
  nlink = v.nlink;
  size = lt;
  count = v.count;
  addrs = v.addrs;
}

-- The write of the inode at the end keeps what the loop did.
grown :
    (inum : ℕ) (added : List ℕ) (d : Dinode) (s : Mkfs) (d' : Dinode) (n : ℕ) (s' s'' : Mkfs)
    → inum < 224
    → d.size + length added ≡ n
    → n ≤ maxfile * 1024
    → IsFile s.disk s.freeblock d
    → Appended d.size added d s d' s'
    → Written inum (record d' { size = n }) s' s''
    → Grown inum added d s s''
grown inum added d s d' n s' s'' lt size bound f a w =
    let sized : Dinode = record d' { size = n } in
    let same : (sec : ℕ) → nmeta ≤ sec → sector s''.disk sec ≡ sector s'.disk sec = λ sec le.
      get_or_of_get_elem? [] s''.disk s'.disk sec (w.sectors sec (λ e. absurd (omega arith))) in
    let v = sized-IsDinode d' n a.file.inode (omega arith) in
    let free = s'.freeblock in
    let byte : (i : ℕ) → i < n → byte_of s''.disk sized i ≡ byte_of s'.disk d' i = λ i below.
      byte_of_same s'.disk s''.disk free d' sized a.file same w.size w.blocks v refl i (omega arith)
        (a.mapped (i / 1024) (omega arith) (omega arith)) in
    let map = block_addr_same s'.disk s''.disk free d' sized a.file same w.size w.blocks v refl in
    let file = transfer-IsFile s'.disk s''.disk free d' sized a.file same w.size w.blocks v refl in
    record {
      inode = sized;
      stored = w.stored;
      size = sym size;
      rest = ap (λ (z : Dinode). record z { size = d.size }) a.rest;
      file = rw w.free file;
      mapped = λ k below reach z. a.mapped k below (omega arith) (sym (map k) ∙ z);
      before = λ i below. byte i (omega arith) ∙ a.before i below;
      text = λ i below. byte (d.size + i) (omega arith) ∙ a.text i below;
      others = λ j below ne. w.others j ne ∙ inode_sector d s s' d.size added d' f a j below;
      sectors = λ sec le below ne out. same sec le ∙ a.sectors sec below ne out;
      grow = omega (arith, a.grow, w.free);
      inodes = w.inodes ∙ a.inodes;
    }

-- Let the disk, of at most 2^22 sectors, hold a well-formed file under `inum`, a number below 224,
-- whose blocks are mapped as far as its size reaches, and let the data keep the file within MAXFILE blocks and the disk have room for every
-- block that the data reaches, an indirect block if there is none yet, and one block more. Then
-- `iappend` returns, and afterwards the disk holds under `inum` an inode that differs in its size
-- and addresses alone, the size is the old one plus the length of the data, every old byte of the
-- file is unchanged, the bytes after them are the data, the file is well formed and mapped as
-- before, every other inode below 224 is unchanged, and so is every data sector in use that was not the
-- file's.
pub iappend-Grown :
    (inum : ℕ) (added : List ℕ) (d : Dinode) (s : Mkfs)
    → inum < 224
    → inode_at s.disk inum ≡ some d
    → IsFile s.disk s.freeblock d
    → IsMapped s.disk d d.size
    → d.size + length added ≤ maxfile * 1024
    → s.freeblock + touched d.size (length added) + root_cost d + 1 ≤ length s.disk
    → length s.disk ≤ 2 ^ 22
    → (s' : Mkfs) × (iappend inum added s ≡ ok tt s') × Grown inum added d s s'
iappend-Grown inum added d s lt stored f mapped bound room few =
    let start : xint little d.size ≡ d.size = xint-little d.size f.inode.size in
    let (d', s', run, a) =
      append_loop-Appended (length added) d d.size added s (le_refl _) bound f mapped room few in
    let n : ℕ = d.size + length added in
    let end : xint little n ≡ n = xint-little n (omega arith) in
    let (s'', write, w) =
      winode-Written inum (record d' { size = n }) s' a.file.blocks
        (sized-IsDinode d' n a.file.inode (omega arith)) (omega (arith, a.size, f.map.start))
        (omega arith) in
    (
      s'',
      iappend-runs inum added d s d' n s' s'' (rinode-inode_at inum s d (omega arith) stored)
          (ap (λ (o : ℕ). append_loop (length added) d o added s) start ∙ run)
          (ap (λ (o : ℕ). winode inum (record d' { size = o }) s') end ∙ write),
      grown inum added d s d' n s' s'' lt refl bound f a w,
    )
