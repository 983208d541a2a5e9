-- ===== src/Mkfs/Append/Round.antt =====
-- One round of the loop of `iappend` (tools/mkfs/mkfs.c), and what it does to the file's bytes.
use mathlib.Core.Path.{fun_ext}
use native.Mathlib.Decide.{ℕ_discrete}
use multiplix.Prelude.{
  ◌^◌, ℕ, ◌+◌, ◌-◌, ◌*◌, ◌/◌, ◌%◌, ◌≤◌, ◌<◌, ◌≡◌, ◌≢◌, ◌⊎◌, inl, inr, sym, ◌∙◌, ap, arith, List, [],
  get_or, set, length, ltb, if◌then◌else◌, get_or-set_self, get_or-set_ne, length-set,
  get_elem?-get_or, lt→ltb, ge→ltb, Bool,
}
use multiplix.Mkfs.Bytes.{splice}
use multiplix.Mkfs.Bytes.Laws.{get_or-splice, length-splice}
use multiplix.Mkfs.Disk.{Mkfs, Block, ok, rsect, wsect, >>=-ok, wsect-set}
use multiplix.Mkfs.Inode.{Dinode, ndirect}
use multiplix.Mkfs.Append.{maxfile, addr, write_part}
use multiplix.Mkfs.Append.Map.{nmeta, sector, block_addr, IsFile}
use multiplix.Mkfs.Append.Ensure.{rsect-sector}
use multiplix.Mkfs.Append.Located.{Located, IsImage-set}

-- Byte `i` of a file.
abbrev pub byte_of : List Block → Dinode → ℕ → ℕ
byte_of disk d i = get_or (sector disk (block_addr disk d (i / 1024))) (i % 1024) 0

-- Every block that the first `off` bytes of the file reach has a sector.
abbrev pub IsMapped : List Block → Dinode → ℕ → Type 0
IsMapped disk d off = (k : ℕ) → k < maxfile → k * 1024 < off → block_addr disk d k ≢ 0

-- The file has grown from `off` bytes by `added`, and nothing else on the disk has changed.
pub record Appended (off : ℕ) (added : List ℕ) (d : Dinode) (s : Mkfs) (d' : Dinode) (s' : Mkfs)
    : Type 0 where
  pub file : IsFile s'.disk s'.freeblock d'
  pub mapped : IsMapped s'.disk d' (off + length added)
  pub before : (i : ℕ) → i < off → byte_of s'.disk d' i ≡ byte_of s.disk d i
  pub text : (i : ℕ) → i < length added → byte_of s'.disk d' (off + i) ≡ get_or added i 0
  pub sectors :
      (sec : ℕ)
      → sec < s.freeblock
      → sec ≢ addr d ndirect
      → ((k : ℕ) → k < maxfile → sec ≢ block_addr s.disk d k)
      → sector s'.disk sec ≡ sector s.disk sec
  pub addrs :
      (k : ℕ)
      → k < maxfile
      → (block_addr s'.disk d' k ≡ block_addr s.disk d k) ⊎ (s.freeblock ≤ block_addr s'.disk d' k)
  pub root : (addr d' ndirect ≡ addr d ndirect) ⊎ (s.freeblock ≤ addr d' ndirect)
  pub grow : s.freeblock ≤ s'.freeblock
  pub size : length s'.disk ≡ length s.disk
  pub inodes : s'.freeinode ≡ s.freeinode
  pub rest : record d' { addrs = d.addrs } ≡ d

-- The disk after a part is written to the block's sector.
abbrev pub after_round : (off : ℕ) → List ℕ → Mkfs → ℕ → Mkfs
after_round off part s' x = record s' {
  disk = set s'.disk x (splice (off % 1024) part (sector s'.disk x));
}

-- A part that fits its block, written to the block's sector.
module _ (off : ℕ) (part : List ℕ) (d d' : Dinode) (s s' : Mkfs) (x : ℕ)
    (f : IsFile s.disk s.freeblock d) (l : Located (off / 1024) d s d' x s')
    (fits : off % 1024 + length part ≤ 1024) (inside : off / 1024 < maxfile)
    (room : s'.freeblock < length s.disk) (few : length s.disk ≤ 2 ^ 22)
    (mapped : IsMapped s.disk d off) where
  abbrev old : Block
  old = sector s'.disk x

  abbrev new : Block
  new = splice (off % 1024) part old

  abbrev disk' : List Block
  disk' = set s'.disk x new

  x-bound : (nmeta ≤ x) × (x < s'.freeblock)
  x-bound =
      let b = l.kept.file.map.bound (off / 1024) inside (λ z. l.used (sym l.here ∙ z)) in
      omega (arith, b, l.here)

  x-lt : x < length s'.disk
  x-lt = omega (arith, x-bound, l.kept.length)

  x-ne-root : x ≢ addr d' ndirect
  x-ne-root e =
      l.kept.file.map.apart (off / 1024) inside (λ z. l.used (sym l.here ∙ z)) (l.here ∙ e)

  old-full : length old ≡ 1024
  old-full = l.kept.file.blocks x old (get_elem?-get_or s'.disk x [] x-lt)

  sector-x : sector disk' x ≡ new
  sector-x = get_or-set_self s'.disk x new [] x-lt

  sector-ne : (sec : ℕ) → sec ≢ x → sector disk' sec ≡ sector s'.disk sec
  sector-ne sec ne = get_or-set_ne s'.disk x sec new [] (λ e. ne (sym e))

  map_same : (k : ℕ) → block_addr disk' d' k ≡ block_addr s'.disk d' k
  map_same k = rw (sector-ne (addr d' ndirect) (λ e. x-ne-root (sym e)))

  after-IsFile : IsFile disk' s'.freeblock d'
  after-IsFile =
      let f' = l.kept.file in
      record {
        map = rw (fun_ext map_same) f'.map;
        words = λ ne. rw (sector-ne (addr d' ndirect) (λ e. x-ne-root (sym e))) (f'.words ne);
        fresh = λ sec h below.
            sector-ne sec (omega (arith, x-bound))
            ∙ f'.fresh sec h (omega (arith, length-set s'.disk x new));
        blocks =
            IsImage-set s'.disk x new f'.blocks
              (length-splice (off % 1024) part old (omega (arith, old-full)) ∙ old-full);
        inode = f'.inode;
        small = omega (arith, length-set s'.disk x new, f'.small);
      }

  -- An old sector of the file's data is not touched by `locate`.
  data_sector :
      (k : ℕ)
      → k < maxfile
      → block_addr s.disk d k ≢ 0
      → sector s'.disk (block_addr s.disk d k) ≡ sector s.disk (block_addr s.disk d k)
  data_sector k lt ne =
      l.kept.sectors (block_addr s.disk d k) ((f.map.bound k lt ne).1) (f.map.apart k lt ne)

  new-byte :
      (i : ℕ)
      → get_or new i 0 ≡ (
          if ltb i (off % 1024)
          then get_or old i 0
          else if ltb i (off % 1024 + length part)
          then get_or part (i - off % 1024) 0
          else get_or old i 0)
  new-byte i = get_or-splice (off % 1024) part old i (omega (arith, old-full))

  byte_before : (i : ℕ) → i < off → byte_of disk' d' i ≡ byte_of s.disk d i
  byte_before i lt =
      let k = i / 1024 in
      let below : k < maxfile = omega arith in
      let there : block_addr s.disk d k ≢ 0 = mapped k below (omega arith) in
      elim (ℕ_discrete k (off / 1024)) [
        | yes same ↦
            let a : block_addr disk' d' k ≡ x =
              map_same k ∙ ap (block_addr s'.disk d') same ∙ l.here in
            let a' : x ≡ block_addr s.disk d k =
              l.old (λ z. there (ap (block_addr s.disk d) same ∙ z))
              ∙ ap (block_addr s.disk d) (sym same) in
            ap (λ (t : ℕ). get_or (sector disk' t) (i % 1024) 0) a
            ∙ ap (λ (b : Block). get_or b (i % 1024) 0) sector-x
            ∙ new-byte (i % 1024)
            ∙ ap
                (λ (b : Bool).
                  if b
                  then get_or old (i % 1024) 0
                  else (if ltb (i % 1024) (off % 1024 + length part)
                      then get_or part (i % 1024 - off % 1024) 0
                      else get_or old (i % 1024) 0))
                (lt→ltb (i % 1024) (off % 1024) (omega arith))
            ∙ ap (λ (t : ℕ). get_or (sector s'.disk t) (i % 1024) 0) a'
            ∙ ap (λ (b : Block). get_or b (i % 1024) 0) (data_sector k below there)
        | no away ↦
            let kept : block_addr s'.disk d' k ≡ block_addr s.disk d k = l.others k below away in
            let apart : block_addr s.disk d k ≢ x = λ e. away (
              l.kept.file.map.distinct k (off / 1024) below inside (λ z. there (sym kept ∙ z))
                (kept ∙ e ∙ sym l.here)) in
            ap (λ (t : ℕ). get_or (sector disk' t) (i % 1024) 0) (map_same k ∙ kept)
            ∙ ap (λ (b : Block). get_or b (i % 1024) 0)
                (sector-ne (block_addr s.disk d k) apart ∙ data_sector k below there)
      ]

  byte_added : (i : ℕ) → i < length part → byte_of disk' d' (off + i) ≡ get_or part i 0
  byte_added i lt =
      let k : (off + i) / 1024 ≡ off / 1024 = omega arith in
      let r : (off + i) % 1024 ≡ off % 1024 + i = omega arith in
      let b : off % 1024 + i - off % 1024 ≡ i = omega arith in
      ap (λ (t : ℕ). get_or (sector disk' (block_addr disk' d' t)) ((off + i) % 1024) 0) k
      ∙ ap (λ (t : ℕ). get_or (sector disk' t) ((off + i) % 1024) 0)
          (map_same (off / 1024) ∙ l.here)
      ∙ ap (λ (c : Block). get_or c ((off + i) % 1024) 0) sector-x
      ∙ ap (λ (t : ℕ). get_or new t 0) r
      ∙ new-byte (off % 1024 + i)
      ∙ rw (
        ge→ltb (off % 1024 + i) (off % 1024) (omega arith),
        lt→ltb (off % 1024 + i) (off % 1024 + length part) (omega arith),
        b,
      )

  IsMapped-after : IsMapped disk' d' (off + length part)
  IsMapped-after k lt reach = elim (ℕ_discrete k (off / 1024)) [
    | yes same ↦
        λ z. l.used (sym l.here ∙ ap (block_addr s'.disk d') (sym same) ∙ sym (map_same k) ∙ z)
    | no away ↦ λ z. mapped k lt (omega arith) (sym (l.others k lt away) ∙ sym (map_same k) ∙ z)
  ]

  addrs_after :
      (k : ℕ)
      → k < maxfile
      → (block_addr disk' d' k ≡ block_addr s.disk d k) ⊎ (s.freeblock ≤ block_addr disk' d' k)
  addrs_after k lt = elim (ℕ_discrete k (off / 1024)) [
    | no away ↦ inl (map_same k ∙ l.others k lt away)
    | yes same ↦
        let a : block_addr disk' d' k ≡ x = map_same k ∙ ap (block_addr s'.disk d') same ∙ l.here in
        elim (ℕ_discrete (block_addr s.disk d (off / 1024)) 0) [
          | yes z ↦ inr (omega (arith, l.new z, a))
          | no ne ↦ inl (a ∙ l.old ne ∙ ap (block_addr s.disk d) (sym same))
        ]
  ]

  x-origin : (x ≡ block_addr s.disk d (off / 1024)) ⊎ (s.freeblock ≤ x)
  x-origin = elim (ℕ_discrete (block_addr s.disk d (off / 1024)) 0) [
    | yes z ↦ inr (l.new z)
    | no ne ↦ inl (l.old ne)
  ]

  pub round-Appended : Appended off part d s d' (record s' { disk = disk' })
  round-Appended = record {
    file = after-IsFile;
    mapped = IsMapped-after;
    before = byte_before;
    text = byte_added;
    sectors = λ sec lt ne out.
        sector-ne sec (ground (arith, x-origin, out (off / 1024) inside))
        ∙ l.kept.sectors sec lt ne;
    addrs = addrs_after;
    root = l.kept.root;
    grow = l.kept.grow;
    size = length-set s'.disk x new ∙ l.kept.length;
    inodes = l.kept.inodes;
    rest = l.kept.rest;
  }

  pub write_part-ok : write_part x (off % 1024) part s' ≡ ok tt (record s' { disk = disk' })
  unfolding write_part
  write_part-ok =
      >>=-ok (rsect x) (λ b. wsect x (splice (off % 1024) part b)) s'
        (rsect-sector x s' x-lt (omega (arith, l.kept.length)))
      ∙ wsect-set x new s' (omega (arith, x-lt, l.kept.length)) x-lt
