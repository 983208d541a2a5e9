-- ===== src/Mkfs/Append.antt =====
-- `iappend` of tools/mkfs/mkfs.c: data goes to the end of a file, block by block, each block found
-- or allocated through the inode's 12 direct addresses and its indirect block.
pub mod Located
pub mod Map
pub mod Words
pub mod Ensure
pub mod Fresh
pub mod Locate
pub mod Round
pub mod Loop
pub mod Laws
use multiplix.Prelude.{
  ℕ, zero, suc, ◌+◌, ◌-◌, ◌*◌, ◌/◌, ◌%◌, ◌^◌, List, [], ◌∷◌, drop, take, length, get_or, set, ltb,
  ◌==◌, if◌then◌else◌, min,
}
use multiplix.Mkfs.Bytes.{little, load32, store32, splice, xint}
use multiplix.Mkfs.Disk.{
  Mkfs, Block, bsize, M, Result, ok, stop, Stop, out_of_fuel, assert, pure, ◌>>=◌, ◌>>◌, rsect,
  wsect,
}
use multiplix.Mkfs.Inode.{Dinode, ndirect, rinode, winode}

-- `MAXFILE`: NDIRECT and the 256 words of the indirect block.
abbrev pub maxfile : ℕ
maxfile = 268

-- `indirect[j]`, as read from the sector.
abbrev pub word_at : Block → ℕ → ℕ
word_at b j = load32 little (drop (j * 4) b)

abbrev pub set_word : Block → ℕ → ℕ → Block
set_word b j w = splice (j * 4) (store32 little w) b

-- `xint(din.addrs[k])`
abbrev pub addr : Dinode → ℕ → ℕ
addr d k = xint little (get_or d.addrs k 0)

abbrev pub set_addr : Dinode → ℕ → ℕ → Dinode
set_addr d k a = record d { addrs = set d.addrs k (xint little a) }

-- `freeblock++`
unfoldable pub take_block : M ℕ
take_block s = ok s.freeblock (record s { freeblock = (s.freeblock + 1) % 2 ^ 32 })

-- `if(xint(din.addrs[k]) == 0) din.addrs[k] = xint(freeblock++);`
unfoldable pub ensure_addr : Dinode → ℕ → M Dinode
unfolding take_block
ensure_addr d k = if addr d k == 0 then (do a ← take_block; pure (set_addr d k a)) else pure d

-- `if(indirect[j] == 0){ indirect[j] = xint(freeblock++); wsect(…); }`, with `indirect` afterwards.
unfoldable pub ensure_word : (sec : ℕ) → Block → ℕ → M Block
unfolding take_block wsect
ensure_word sec indirect j =
    if word_at indirect j == 0
    then (do
      a ← take_block
      wsect sec (set_word indirect j (xint little a))
      pure (set_word indirect j (xint little a)))
    else pure indirect

-- The inode and `x`, the sector of the file's block `fbn`.
unfoldable pub locate : ℕ → Dinode → M (Dinode × ℕ)
locate fbn d = if ltb fbn ndirect then (do d' ← ensure_addr d fbn; pure (d', addr d' fbn)) else do
  d' ← ensure_addr d ndirect
  indirect ← rsect (addr d' ndirect)
  indirect' ← ensure_word (addr d' ndirect) indirect (fbn - ndirect)
  pure (d', xint little (word_at indirect' (fbn - ndirect)))

-- `rsect(x, buf); bcopy(p, buf + off - (fbn * BSIZE), n1); wsect(x, buf);`
unfoldable pub write_part : (x off : ℕ) → List ℕ → M (Unit {0})
write_part x off part = do buf ← rsect x; wsect x (splice off part buf)

-- `n1`
abbrev pub part_size : (n off : ℕ) → ℕ
part_size n off = min n ((off / bsize + 1) * bsize - off)

-- The `while(n > 0)` loop, with `p[0 .. n)` still to be written. Each round writes a byte or more,
-- so as many rounds as there are bytes suffice.
pub append_loop : ℕ → Dinode → ℕ → List ℕ → M (Dinode × ℕ)
append_loop f d off [] = pure (d, off)
append_loop zero d off (b ∷ p) = λ _. stop out_of_fuel
append_loop (suc f) d off (b ∷ p) = do
  let fbn = off / bsize
  let n1 = part_size (length (b ∷ p)) off
  assert (ltb fbn maxfile)
  (d', x) ← locate fbn d
  write_part x (off - fbn * bsize) (take n1 (b ∷ p))
  append_loop f d' ((off + n1) % 2 ^ 32) (drop n1 (b ∷ p))

unfoldable pub iappend : (inum : ℕ) → List ℕ → M (Unit {0})
unfolding rinode append_loop locate write_part winode xint ensure_addr ensure_word rsect wsect
iappend inum xp = do
  din ← rinode inum
  (din', off) ← append_loop (length xp) din (xint little din.size) xp
  winode inum (record din' { size = xint little off })
