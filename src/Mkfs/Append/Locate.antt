-- ===== src/Mkfs/Append/Locate.antt =====
-- `locate` of `iappend` (tools/mkfs/mkfs.c) finds the sector of a file's block or allocates it.
use mathlib.Core.Path.{subst}
use multiplix.Prelude.{
  ◌^◌, ℕ, ◌+◌, ◌-◌, ◌≤◌, ◌<◌, ◌≡◌, inl, inr, sym, ◌∙◌, ap, arith, length, ltb, Bool-cases, true,
  false, List,
}
use multiplix.Mkfs.Bytes.{little, xint}
use multiplix.Mkfs.Disk.{Mkfs, Block, ok, pure, ◌>>=◌, rsect, >>=-ok}
use multiplix.Mkfs.Inode.{Dinode, ndirect}
use multiplix.Mkfs.Append.{maxfile, addr, word_at, ensure_addr, ensure_word, locate}
use multiplix.Mkfs.Append.Map.{sector, block_addr, IsFile}
use multiplix.Mkfs.Append.Ensure.{Ensured, rsect-sector, ensure_addr-direct, ensure_addr-root}
use multiplix.Mkfs.Append.Located.{Located, ensure_word-Located}

locate-direct :
    (fbn : ℕ) (d : Dinode) (s : Mkfs) (d' : Dinode) (s' : Mkfs)
    → fbn < ndirect
    → ensure_addr d fbn s ≡ ok d' s'
    → locate fbn d s ≡ ok (d', addr d' fbn) s'
unfolding locate
locate-direct fbn d s d' s' lt e =
    let test : ltb fbn ndirect ≡ true = ground arith in
    rw test (>>=-ok (ensure_addr d fbn) (λ c. pure (c, addr c fbn)) s e)

locate-indirect :
    (fbn : ℕ) (d : Dinode) (s : Mkfs) (d' : Dinode) (b b' : Block) (s' s'' : Mkfs)
    → ndirect ≤ fbn
    → ensure_addr d ndirect s ≡ ok d' s'
    → rsect (addr d' ndirect) s' ≡ ok b s'
    → ensure_word (addr d' ndirect) b (fbn - ndirect) s' ≡ ok b' s''
    → locate fbn d s ≡ ok (d', xint little (word_at b' (fbn - ndirect))) s''
unfolding locate
locate-indirect fbn d s d' b b' s' s'' le e e' e'' =
    let test : ltb fbn ndirect ≡ false = ground arith in
    let last = λ (c : Dinode) (i : Block). pure (c, xint little (word_at i (fbn - ndirect))) in
    let word =
      λ (c : Dinode) (i : Block). ensure_word (addr c ndirect) i (fbn - ndirect) >>= last c in
    rw test (
      >>=-ok (ensure_addr d ndirect) (λ c. rsect (addr c ndirect) >>= word c) s e
      ∙ >>=-ok (rsect (addr d' ndirect)) (word d') s' e'
      ∙ >>=-ok (ensure_word (addr d' ndirect) b (fbn - ndirect)) (last d') s' e'')

-- Two steps in a row, the first of which keeps every block of the file.
then_Located :
    {fbn x : ℕ} {d d' : Dinode} {s s' s'' : Mkfs}
    → Ensured ndirect d s d' s'
    → ((k : ℕ) → block_addr s'.disk d' k ≡ block_addr s.disk d k)
    → fbn < maxfile
    → Located fbn d' s' d' x s''
    → s''.freeblock ≤ s'.freeblock + 1
    → Located fbn d s d' x s''
then_Located {fbn} e same lt l cost = record {
  kept = record {
    file = l.kept.file;
    sectors = λ sec h ne.
        l.kept.sectors sec (omega (arith, e.kept.grow)) (ground (arith, e.kept.root))
        ∙ ap (λ (k : List Block). sector k sec) e.disk;
    root = e.kept.root;
    grow = omega (arith, e.kept.grow, l.kept.grow);
    length = l.kept.length ∙ e.kept.length;
    inodes = l.kept.inodes ∙ e.kept.inodes;
    rest = e.kept.rest;
  };
  cost = ground (arith, e.cost, e.free, e.used, cost);
  here = l.here;
  used = l.used;
  old = λ ne. l.old (λ z. ne (sym (same fbn) ∙ z)) ∙ same fbn;
  new = λ z. omega (arith, l.new (same fbn ∙ z), e.kept.grow);
  others = λ k below ne. l.others k below ne ∙ same k;
}

-- With two free blocks left, `locate` finds or allocates the sector of any block of the file.
pub locate-Located :
    (fbn : ℕ) (d : Dinode) (s : Mkfs)
    → IsFile s.disk s.freeblock d
    → s.freeblock + 1 < length s.disk
    → length s.disk ≤ 2 ^ 22
    → fbn < maxfile
    → (d' : Dinode) × (x : ℕ) × (s' : Mkfs) × (locate fbn d s ≡ ok (d', x) s')
      × Located fbn d s d' x s'
locate-Located fbn d s f room few lt = elim (Bool-cases (ltb fbn ndirect)) [
  | inl direct ↦
      let (d', s', run, e) = ensure_addr-direct d s f (omega arith) fbn (ground arith) in
      let root : addr d' ndirect ≡ addr d ndirect = e.top (ground arith) in
      (
        d',
        addr d' fbn,
        s',
        locate-direct fbn d s d' s' (ground arith) run,
        record {
          kept = e.kept;
          cost = ground (arith, e.cost, root);
          here = ground arith;
          used = e.used;
          old = λ ne. e.old (ground arith) ∙ ground arith;
          new = λ z. e.new (ground arith);
          others = e.others;
        },
      )
  | inr indirect ↦
      let (d', s', run, e, same) = ensure_addr-root d s f (omega arith) in
      let len : length s'.disk ≡ length s.disk = e.kept.length in
      let low = e.kept.file.map.root_bound e.used in
      let (b', s'', run', l, cost) =
        ensure_word-Located d' s' e.kept.file (fbn - 12) (omega (arith, e.cost)) (omega arith)
          (omega arith) e.used in
      let top : fbn - 12 + 12 ≡ fbn = ground arith in
      (
        d',
        xint little (word_at b' (fbn - 12)),
        s'',
        locate-indirect fbn d s d' (sector s'.disk (addr d' ndirect)) b' s' s'' (ground arith) run
            (rsect-sector (addr d' ndirect) s' (omega (arith, e.cost)) (omega arith)) run',
        then_Located e same lt
            (subst (λ k. Located k d' s' d' (xint little (word_at b' (fbn - 12))) s'') top l) cost,
      )
]
