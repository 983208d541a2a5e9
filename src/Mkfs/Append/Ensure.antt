-- ===== src/Mkfs/Append/Ensure.antt =====
-- Allocating a direct address or the indirect block in `iappend` of tools/mkfs/mkfs.c.
use mathlib.Core.Path.{subst}
use native.Mathlib.Nat.{le_refl}
use multiplix.Prelude.{
  ℕ, ◌+◌, ◌-◌, ◌%◌, ◌^◌, ◌≤◌, ◌<◌, ◌≡◌, ◌≢◌, ◌⊎◌, inl, inr, refl, sym, ◌∙◌, ap, arith, length, ◌==◌,
  get_elem?-get_or, [], true, false,
}
use native.Mathlib.Decide.{ℕ_discrete}
use multiplix.Mkfs.Disk.{Mkfs, Block, ok, pure, rsect, >>=-ok, rsect-some}
use multiplix.Mkfs.Inode.{Dinode, ndirect}
use multiplix.Mkfs.Append.{maxfile, addr, set_addr, word_at, take_block, ensure_addr}
use multiplix.Mkfs.Append.Map.{
  sector, block_addr, IsMap, IsMap-extend, IsMap-root, IsFile, set_addr-IsDinode, addr-set_addr,
  block_addr-set_addr,
}
use multiplix.Mkfs.Append.Words.{word_at-zeroes}

pub rsect-sector :
    (sec : ℕ) (s : Mkfs)
    → sec < length s.disk
    → length s.disk ≤ 2 ^ 22
    → rsect sec s ≡ ok (sector s.disk sec) s
rsect-sector sec s lt few =
    rsect-some sec s (sector s.disk sec) (omega arith) (get_elem?-get_or s.disk sec [] lt)

-- What `locate` and its parts keep of the file, whatever the case.
pub record Kept (d : Dinode) (s : Mkfs) (d' : Dinode) (s' : Mkfs) : Type 0 where
  pub file : IsFile s'.disk s'.freeblock d'
  pub sectors :
      (sec : ℕ) → sec < s.freeblock → sec ≢ addr d ndirect → sector s'.disk sec ≡ sector s.disk sec
  pub root : (addr d' ndirect ≡ addr d ndirect) ⊎ (s.freeblock ≤ addr d' ndirect)
  pub grow : s.freeblock ≤ s'.freeblock
  pub length : length s'.disk ≡ length s.disk
  pub inodes : s'.freeinode ≡ s.freeinode
  pub rest : record d' { addrs = d.addrs } ≡ d

-- The address of the indirect block, or of a direct block, is there afterwards.
pub record Ensured (k : ℕ) (d : Dinode) (s : Mkfs) (d' : Dinode) (s' : Mkfs) : Type 0 where
  pub kept : Kept d s d' s'
  pub cost : s'.freeblock ≤ s.freeblock + 1
  pub free : addr d k ≢ 0 → s'.freeblock ≡ s.freeblock
  pub used : addr d' k ≢ 0
  pub top : k ≢ ndirect → addr d' ndirect ≡ addr d ndirect
  pub disk : s'.disk ≡ s.disk
  pub old : addr d k ≢ 0 → addr d' k ≡ addr d k
  pub new : addr d k ≡ 0 → s.freeblock ≤ addr d' k
  pub others : (j : ℕ) → j < maxfile → j ≢ k → block_addr s'.disk d' j ≡ block_addr s.disk d j

pub refl-Kept : (d : Dinode) (s : Mkfs) → IsFile s.disk s.freeblock d → Kept d s d s
refl-Kept d s f = record {
  file = f;
  sectors = λ sec lt ne. refl;
  root = inl refl;
  grow = le_refl _;
  length = refl;
  inodes = refl;
  rest = refl;
}

abbrev pub taken : Mkfs → Mkfs
taken s = record s { freeblock = s.freeblock + 1 }

-- An inode with a new address is a file of the disk again, if its map and words are in order.
new_addr-Kept :
    (k : ℕ) (d : Dinode) (s : Mkfs)
    → IsFile s.disk s.freeblock d
    → s.freeblock < length s.disk
    → IsMap
        (block_addr s.disk (set_addr d k s.freeblock))
        (addr (set_addr d k s.freeblock) ndirect)
        (s.freeblock + 1)
    → (addr (set_addr d k s.freeblock) ndirect ≢ 0
        → (j : ℕ) → word_at (sector s.disk (addr (set_addr d k s.freeblock) ndirect)) j < 2 ^ 32)
    → (addr (set_addr d k s.freeblock) ndirect ≡ addr d ndirect)
      ⊎ (s.freeblock ≤ addr (set_addr d k s.freeblock) ndirect)
    → Kept d s (set_addr d k s.freeblock) (taken s)
new_addr-Kept k d s f room map words root = record {
  file = record {
    map = map;
    words = words;
    fresh = λ sec h below. f.fresh sec (omega arith) below;
    blocks = f.blocks;
    inode = set_addr-IsDinode d k s.freeblock f.inode (omega (arith, f.small));
    small = f.small;
  };
  sectors = λ sec h ne. refl;
  root = root;
  grow = omega arith;
  length = refl;
  inodes = refl;
  rest = refl;
}

pub taken-ok : (s : Mkfs) → s.freeblock + 1 < 2 ^ 32 → take_block s ≡ ok s.freeblock (taken s)
unfolding take_block
taken-ok s h = let e : (s.freeblock + 1) % 2 ^ 32 ≡ s.freeblock + 1 = omega arith in rw e

ensure_addr-new :
    (d : Dinode) (k : ℕ) (s : Mkfs)
    → addr d k ≡ 0
    → s.freeblock + 1 < 2 ^ 32
    → ensure_addr d k s ≡ ok (set_addr d k s.freeblock) (taken s)
unfolding ensure_addr
ensure_addr-new d k s e h =
    let test : (addr d k == 0) ≡ true = ground arith in
    rw test (>>=-ok take_block (λ a. pure (set_addr d k a)) s (taken-ok s h))

ensure_addr-old : (d : Dinode) (k : ℕ) (s : Mkfs) → addr d k ≢ 0 → ensure_addr d k s ≡ ok d s
unfolding ensure_addr
ensure_addr-old d k s ne = let test : (addr d k == 0) ≡ false = ground arith in rw test

module _ (d : Dinode) (s : Mkfs) (f : IsFile s.disk s.freeblock d)
    (room : s.freeblock < length s.disk) where
  small : s.freeblock < 2 ^ 32
  small = omega (arith, f.small)

  own : (k : ℕ) → k < 13 → addr (set_addr d k s.freeblock) k ≡ s.freeblock
  own k lt = addr-set_addr d k s.freeblock k f.inode lt small ∙ ground arith

  old_address : (k : ℕ) → addr d k ≢ 0 → Ensured k d s d s
  old_address k ne = record {
    kept = refl-Kept d s f;
    cost = omega arith;
    free = λ _. refl;
    used = ne;
    top = λ _. refl;
    disk = refl;
    old = λ _. refl;
    new = λ e. absurd (ne e);
    others = λ j lt away. refl;
  }

  -- A direct address.
  pub ensure_addr-direct :
      (k : ℕ)
      → k < ndirect
      → (d' : Dinode) × (s' : Mkfs) × (ensure_addr d k s ≡ ok d' s') × Ensured k d s d' s'
  ensure_addr-direct k lt = elim (ℕ_discrete (addr d k) 0) [
    | no ne ↦ (d, s, ensure_addr-old d k s ne, old_address k ne)
    | yes e ↦
        let free = s.freeblock in
        let root : addr (set_addr d k free) ndirect ≡ addr d ndirect =
          addr-set_addr d k free ndirect f.inode (omega arith) small ∙ ground arith in
        let none_yet : block_addr s.disk d k ≡ 0 = ground arith in
        let map =
          IsMap-extend k f.map none_yet
            (λ j below. block_addr-set_addr s.disk d k free j f.inode lt small) in
        (
          set_addr d k free,
          taken s,
          ensure_addr-new d k s e (omega (arith, f.small)),
          record {
            kept =
                new_addr-Kept k d s f room
                  (subst (λ r. IsMap (block_addr s.disk (set_addr d k free)) r (free + 1))
                    (sym root) map)
                  (rw root f.words) (inl root);
            cost = le_refl _;
            free = λ ne. absurd (ne e);
            top = λ _. root;
            used = λ z. absurd (omega (arith, own k (omega arith), f.map.start, z));
            disk = refl;
            old = λ ne. absurd (ne e);
            new = λ _. omega (arith, own k (omega arith));
            others =
                λ j below ne. block_addr-set_addr s.disk d k free j f.inode lt small ∙ ground arith;
          },
        )
  ]

  root_same :
      addr d ndirect ≡ 0
      → (k : ℕ) → block_addr s.disk (set_addr d ndirect s.freeblock) k ≡ block_addr s.disk d k
  root_same e k =
      let empty : word_at (sector s.disk s.freeblock) (k - 12) ≡ 0 =
        ap (λ (b : Block). word_at b (k - 12)) (f.fresh s.freeblock (le_refl _) room)
        ∙ word_at-zeroes (k - 12) in
      let here = addr-set_addr d ndirect s.freeblock k f.inode (omega arith) small in
      let top : addr (set_addr d ndirect s.freeblock) ndirect ≡ s.freeblock =
        own ndirect (omega arith) in
      rw (here, top) (ground (arith, empty))

  -- The address of the indirect block: every block of the file keeps its sector.
  pub ensure_addr-root :
      (d' : Dinode) × (s' : Mkfs) × (ensure_addr d ndirect s ≡ ok d' s')
      × Ensured ndirect d s d' s'
      × ((k : ℕ) → block_addr s'.disk d' k ≡ block_addr s.disk d k)
  ensure_addr-root = elim (ℕ_discrete (addr d ndirect) 0) [
    | no ne ↦ (d, s, ensure_addr-old d ndirect s ne, old_address ndirect ne, λ k. refl)
    | yes e ↦
        let free = s.freeblock in
        let top : addr (set_addr d ndirect free) ndirect ≡ free = own ndirect (omega arith) in
        let map =
          IsMap-root (subst (λ r. IsMap (block_addr s.disk d) r free) e f.map)
            (λ k below. root_same e k) in
        let empty = λ (j : ℕ).
          ap (λ (b : Block). word_at b j) (ap (sector s.disk) top ∙ f.fresh free (le_refl _) room)
          ∙ word_at-zeroes j in
        (
          set_addr d ndirect free,
          taken s,
          ensure_addr-new d ndirect s e (omega (arith, f.small)),
          record {
            kept =
                new_addr-Kept ndirect d s f room
                  (subst (λ r. IsMap (block_addr s.disk (set_addr d ndirect free)) r (free + 1))
                    (sym top) map)
                  (λ ne j. omega (arith, empty j)) (inr (omega (arith, top)));
            cost = le_refl _;
            free = λ ne. absurd (ne e);
            top = λ ne. absurd (ne refl);
            used = λ z. absurd (omega (arith, top, f.map.start, z));
            disk = refl;
            old = λ ne. absurd (ne e);
            new = λ _. omega (arith, top);
            others = λ k below ne. root_same e k;
          },
          root_same e,
        )
  ]
