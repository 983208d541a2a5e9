-- ===== src/Mkfs/Append/Loop.antt =====
-- `iappend` of tools/mkfs/mkfs.c: with room on the disk it returns, and the file has grown by
-- exactly the data.
use mathlib.Core.Path.{subst}
use native.Mathlib.Nat.{le_refl}
use multiplix.Prelude.{
  ℕ, zero, suc, ◌+◌, ◌-◌, ◌*◌, ◌/◌, ◌%◌, ◌^◌, ◌≤◌, ◌<◌, ◌≡◌, inl, inr, refl, sym, ◌∙◌, ap, arith,
  List, [], ◌∷◌, ◌++◌, length, ltb, if◌then◌else◌, Bool-cases, length-append, get_or-append, take,
  drop, length-take, length-drop, take-append-drop, ◌==◌, lt→ltb, ltb→lt, ltb→ge,
}
use multiplix.Mkfs.Disk.{Mkfs, ok, ◌>>◌, >>=-ok}
use multiplix.Mkfs.Inode.{Dinode}
use multiplix.Mkfs.Append.{maxfile, locate, write_part, part_size, append_loop}
use multiplix.Mkfs.Append.Map.{IsFile}
use multiplix.Mkfs.Append.Located.{root_cost}
use multiplix.Mkfs.Append.Locate.{locate-Located}
use multiplix.Mkfs.Append.Round.{
  byte_of, IsMapped, Appended, round-Appended, after_round, write_part-ok,
}

refl-Appended :
    (off : ℕ) (d : Dinode) (s : Mkfs)
    → IsFile s.disk s.freeblock d
    → IsMapped s.disk d off
    → Appended off [] d s d s
refl-Appended off d s f m = record {
  file = f;
  mapped = λ k lt reach. m k lt (omega arith);
  before = λ i lt. refl;
  text = λ i lt. absurd (omega arith);
  sectors = λ sec lt ne out. refl;
  addrs = λ k lt. inl refl;
  root = inl refl;
  grow = le_refl _;
  size = refl;
  inodes = refl;
  rest = refl;
}

trans-Appended :
    {off : ℕ} {p q : List ℕ} {d e g : Dinode} {s t u : Mkfs}
    → Appended off p d s e t
    → Appended (off + length p) q e t g u
    → Appended off (p ++ q) d s g u
trans-Appended {off} {p} {q} {d} {e} {g} {s} {t} {u} a b = record {
  file = b.file;
  mapped = λ k lt reach. b.mapped k lt (omega (arith, length-append p q));
  before = λ i lt. b.before i (omega arith) ∙ a.before i lt;
  text = λ i lt. elim (Bool-cases (ltb i (length p))) [
    | inl first ↦
        b.before (off + i) (ground arith)
        ∙ a.text i (ground arith)
        ∙ sym (get_or-append 0 p q i ∙ rw first)
    | inr second ↦
        let split : off + i ≡ off + length p + (i - length p) = ground arith in
        ap (byte_of u.disk g) split
        ∙ b.text (i - length p) (ground (arith, length-append p q))
        ∙ sym (get_or-append 0 p q i ∙ rw second)
  ];
  sectors = λ sec lt ne out.
      b.sectors sec (omega (arith, a.grow)) (ground (arith, a.root))
        (λ k below. ground (arith, a.addrs k below, out k below))
      ∙ a.sectors sec lt ne out;
  addrs = λ k lt. ground (arith, a.addrs k lt, b.addrs k lt, a.grow);
  root = ground (arith, a.root, b.root, a.grow);
  grow = omega (arith, a.grow, b.grow);
  size = b.size ∙ a.size;
  inodes = b.inodes ∙ a.inodes;
  rest = ap (λ (z : Dinode). record z { addrs = d.addrs }) b.rest ∙ a.rest;
}

-- The number of blocks that `n` bytes from `off` on reach.
abbrev pub touched : (off n : ℕ) → ℕ
touched off n = if n == 0 then 0 else (off % 1024 + n + 1023) / 1024

touched_pos : (off n : ℕ) → 0 < n → touched off n ≡ (off % 1024 + n + 1023) / 1024
touched_pos off n h = ground arith

touched-le : (off n : ℕ) → touched off n ≤ (off % 1024 + n + 1023) / 1024
touched-le off n = ground arith

-- A round is done with one block.
touched_round :
    (off n : ℕ) → 0 < n → touched (off + part_size n off) (n - part_size n off) + 1 ≤ touched off n
touched_round off n h = elim (Bool-cases (ltb (part_size n off) n)) [
  | inl more ↦
      let m : part_size n off < n = ltb→lt _ _ more in
      omega (
        arith,
        touched_pos off n h,
        touched_pos (off + part_size n off) (n - part_size n off) (omega arith),
      )
  | inr last ↦
      let e : n - part_size n off ≡ 0 = omega (arith, ltb→ge _ _ last) in
      rw e (omega (arith, touched_pos off n h))
]

-- The room that is left for the other rounds.
room_after :
    (off n n1 done left free free' r r' len len' : ℕ)
    → done ≡ n1
    → left ≡ n - n1
    → touched (off + n1) (n - n1) + 1 ≤ touched off n
    → free' + r' ≤ free + 1 + r
    → free + touched off n + r + 1 ≤ len
    → len' ≡ len
    → free' + touched (off + done) left + r' + 1 ≤ len'
room_after off n n1 done left free free' r r' len len' e e' cost l room size =
    let t : touched (off + done) left ≡ touched (off + n1) (n - n1) = rw (e, e') in omega (arith, t)

-- A round that succeeds is followed by the rest of the loop.
append_loop-suc :
    (f : ℕ) (d : Dinode) (off b : ℕ) (p : List ℕ) (s : Mkfs) (d' : Dinode) (x : ℕ) (s' s'' : Mkfs)
    → off / 1024 < maxfile
    → locate (off / 1024) d s ≡ ok (d', x) s'
    → write_part x (off % 1024) (take (part_size (length (b ∷ p)) off) (b ∷ p)) s' ≡ ok tt s''
    → append_loop (suc f) d off (b ∷ p) s
      ≡ append_loop f d'
          ((off + part_size (length (b ∷ p)) off) % 2 ^ 32)
          (drop (part_size (length (b ∷ p)) off) (b ∷ p))
          s''
unfolding append_loop
append_loop-suc f d off b p s d' x s' s'' lt e e' =
    let n1 : ℕ = part_size (length (b ∷ p)) off in
    let again = λ (c : Dinode). append_loop f c ((off + n1) % 2 ^ 32) (drop n1 (b ∷ p)) in
    let in_block : off - off / 1024 * 1024 ≡ off % 1024 = omega arith in
    let tail =
      λ (r : Dinode × ℕ). write_part r.1 (off - off / 1024 * 1024) (take n1 (b ∷ p)) >> again r.0 in
    rw (lt→ltb (off / 1024) maxfile lt) (
      >>=-ok (locate (off / 1024) d) tail s e
      ∙ >>=-ok (write_part x (off - off / 1024 * 1024) (take n1 (b ∷ p))) (λ _. again d') s'
          (ap (λ (o : ℕ). write_part x o (take n1 (b ∷ p)) s') in_block ∙ e'))

-- With a round for each byte, the file within its largest size, and room for every block that the
-- data reaches, a new indirect block and one block more, the loop writes all the data.
pub append_loop-Appended :
    (f : ℕ) (d : Dinode) (off : ℕ) (p : List ℕ) (s : Mkfs)
    → length p ≤ f
    → off + length p ≤ maxfile * 1024
    → IsFile s.disk s.freeblock d
    → IsMapped s.disk d off
    → s.freeblock + touched off (length p) + root_cost d + 1 ≤ length s.disk
    → length s.disk ≤ 2 ^ 22
    → (d' : Dinode) × (s' : Mkfs) × (append_loop f d off p s ≡ ok (d', off + length p) s')
      × Appended off p d s d' s'
unfolding append_loop
append_loop-Appended zero d off [] s enough bound file mapped room few =
    (d, s, ap (λ (o : ℕ). ok (d, o) s) (omega arith), refl-Appended off d s file mapped)
append_loop-Appended (suc f) d off [] s enough bound file mapped room few =
    (d, s, ap (λ (o : ℕ). ok (d, o) s) (omega arith), refl-Appended off d s file mapped)
append_loop-Appended zero d off (b ∷ p) s enough bound file mapped room few = absurd (omega arith)
append_loop-Appended (suc f) d off (b ∷ p) s enough bound file mapped room few =
    let text : List ℕ = b ∷ p in
    let n1 : ℕ = part_size (length text) off in
    let part : List ℕ = take n1 text in
    let later : List ℕ = drop n1 text in
    let n1-pos : 0 < n1 = omega arith in
    let n1-le : n1 ≤ length text = omega arith in
    let part-length : length part ≡ n1 = omega (arith, length-take n1 text) in
    let later-length : length later ≡ length text - n1 = length-drop n1 text in
    let cost = touched_round off (length text) (omega arith) in
    let inside : off / 1024 < maxfile = omega arith in
    let (d', x, s', run, l) =
      locate-Located (off / 1024) d s file (omega (arith, cost)) few inside in
    let fits : off % 1024 + length part ≤ 1024 = omega arith in
    let spare : s'.freeblock < length s.disk = omega (arith, l.cost, cost) in
    let s'' : Mkfs = after_round off part s' x in
    let one : Appended off part d s d' s'' =
      round-Appended off part d d' s s' x file l fits inside spare few mapped in
    let step : (off + n1) % 2 ^ 32 ≡ off + length part = omega arith in
    let (g, t, rest, two) =
      append_loop-Appended f d' (off + length part) later s'' (omega arith) (omega arith) one.file
        one.mapped
        (room_after off (length text) n1 (length part) (length later) s.freeblock s''.freeblock
          (root_cost d) (root_cost d') (length s.disk) (length s''.disk) part-length later-length
          cost l.cost room one.size)
        (omega (arith, one.size)) in
    let end : off + length part + length later ≡ off + length text = omega arith in
    (
      g,
      t,
      append_loop-suc f d off b p s d' x s' s'' inside run
            (write_part-ok off part d d' s s' x file l fits inside spare few mapped)
          ∙ ap (λ (o : ℕ). append_loop f d' o later s'') step
          ∙ rest
          ∙ ap (λ (o : ℕ). ok (g, o) t) end,
      subst (λ (z : List ℕ). Appended off z d s g t) (take-append-drop n1 text)
          (trans-Appended one two),
    )
