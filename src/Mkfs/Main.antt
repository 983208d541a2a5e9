-- ===== src/Mkfs/Main.antt =====
-- `balloc` and `main` of tools/mkfs/mkfs.c.
pub mod Bitmap
use multiplix.Prelude.{
  ℕ, zero, suc, ◌+◌, ◌-◌, ◌*◌, ◌/◌, ◌%◌, ◌^◌, Bool, true, false, ◌&&◌, Option, none, some, List, [],
  ◌∷◌, ◌++◌, drop, take, length, get_or, set, replicate, bit_or, ltb, ◌==◌, if◌then◌else◌,
}
use multiplix.Mkfs.Bytes.{little, store16, store32, splice, xshort, xint}
use multiplix.Mkfs.Disk.{
  Mkfs, Block, bsize, zeroes, M, Result, ok, stop, Stop, died, usage, assert, pure, ◌>>=◌, ◌>>◌,
  wsect,
}
use multiplix.Mkfs.Inode.{Dinode, inodestart, rinode, winode, ialloc}
use multiplix.Mkfs.Append.{iappend}

-- `FSSIZE`, `NINODES`, `LOGSIZE`, `ninodeblocks`, `nbitmap`
abbrev pub fssize : ℕ
fssize = 100

abbrev pub ninodes : ℕ
ninodes = 200

abbrev pub nlog : ℕ
nlog = 30

abbrev pub ninodeblocks : ℕ
ninodeblocks = ninodes / 16 + 1

abbrev pub nbitmap : ℕ
nbitmap = fssize / (bsize * 8) + 1

abbrev pub meta_blocks : ℕ
meta_blocks = 2 + nlog + ninodeblocks + nbitmap

-- `sb.bmapstart`
abbrev pub bmapstart : ℕ
bmapstart = 2 + nlog + ninodeblocks

-- `for(i = 0; i < used; i++)` of `balloc`, from `i` on with the rounds that are left.
pub mark_loop : (rounds i : ℕ) → Block → Block
mark_loop zero i buf = buf
mark_loop (suc n) i buf =
    mark_loop n (suc i) (set buf (i / 8) (bit_or (get_or buf (i / 8) 0) (2 ^ (i % 8))))

unfoldable pub balloc : (used : ℕ) → M (Unit {0})
unfolding mark_loop wsect
balloc used = assert (ltb used (bsize * 8)) >> wsect bmapstart (mark_loop used 0 zeroes)

-- The bytes of `sb`. `magic` is stored as the host stores it, the others through `xint`.
abbrev pub superblock : List ℕ
superblock =
    store32 little 0x10203040
    ++ (store32 little (xint little fssize)
        ++ (store32 little (xint little (fssize - meta_blocks))
            ++ (store32 little (xint little ninodes)
                ++ (store32 little (xint little nlog)
                    ++ (store32 little (xint little 2)
                        ++ (store32 little (xint little inodestart)
                            ++ store32 little (xint little bmapstart)))))))

-- `for(i = 0; i < FSSIZE; i++) wsect(i, zeroes);`
pub clear_loop : (rounds i : ℕ) → M (Unit {0})
clear_loop zero i = pure tt
clear_loop (suc n) i = wsect i zeroes >> clear_loop n (suc i)

-- `strncpy(de.name, name, DIRSIZ)` into a zeroed field.
abbrev pub name_field : List ℕ → List ℕ
name_field name = take 14 (name ++ replicate 14 0)

abbrev pub dirent : ℕ → List ℕ → List ℕ
dirent inum name = store16 little (xshort little inum) ++ name_field name

abbrev pub starts_with : List ℕ → List ℕ → Bool
starts_with [] s = true
starts_with (p ∷ ps) [] = false
starts_with (p ∷ ps) (c ∷ cs) = (p == c) && starts_with ps cs

-- Without "user/" in front.
abbrev pub short_name : List ℕ → List ℕ
short_name path =
    if starts_with (b'u' ∷ b's' ∷ b'e' ∷ b'r' ∷ b'/' ∷ []) path then drop 5 path else path

-- `index(shortname, '/') == 0`
abbrev pub no_slash : List ℕ → Bool
no_slash [] = true
no_slash (c ∷ cs) = if c == b'/' then false else no_slash cs

abbrev pub skip_underscore : List ℕ → List ℕ
skip_underscore [] = []
skip_underscore (c ∷ cs) = if c == b'_' then cs else c ∷ cs

-- An argument, as its path and what each `read` of the open file returns; `none` where the file
-- does not open.
pub record Source : Type 0 where
  pub path : List ℕ
  pub reads : Option (List (List ℕ))

-- `while((cc = read(fd, buf, sizeof(buf))) > 0) iappend(inum, buf, cc);`
pub copy_loop : ℕ → List (List ℕ) → M (Unit {0})
copy_loop inum [] = pure tt
copy_loop inum (buf ∷ reads) = iappend inum buf >> copy_loop inum reads

abbrev pub opened : Option (List (List ℕ)) → M (List (List ℕ))
opened none s = stop died
opened (some reads) s = ok reads s

unfoldable pub add_file : (rootino : ℕ) → Source → M (Unit {0})
unfolding copy_loop ialloc iappend
add_file rootino f = do
  assert (no_slash (short_name f.path))
  reads ← opened f.reads
  inum ← ialloc 2
  iappend rootino (dirent inum (skip_underscore (short_name f.path)))
  copy_loop inum reads

pub add_files : (rootino : ℕ) → List Source → M (Unit {0})
add_files rootino [] = pure tt
add_files rootino (f ∷ fs) = add_file rootino f >> add_files rootino fs

-- `off = ((off/BSIZE) + 1) * BSIZE`
unfoldable pub fix_root : ℕ → M (Unit {0})
unfolding rinode winode
fix_root rootino = do
  din ← rinode rootino
  winode rootino
      (record din { size = xint little ((xint little din.size / bsize + 1) * bsize % 2 ^ 32) })

abbrev pub set_freeblock : ℕ → M (Unit {0})
set_freeblock n s = ok tt (record s { freeblock = n })

abbrev pub next_free : M ℕ
next_free s = ok s.freeblock s

-- `args` are the arguments after the image's name, which is there; `truncated` is whether the
-- image opens. The disk is empty before.
unfoldable pub build : List Source → M (Unit {0})
unfolding clear_loop wsect ialloc iappend add_files fix_root balloc
build args = do
  set_freeblock meta_blocks
  clear_loop fssize 0
  wsect 1 (splice 0 superblock zeroes)
  rootino ← ialloc 1
  assert (rootino == 1)
  iappend rootino (dirent rootino (b'.' ∷ []))
  iappend rootino (dirent rootino (b'.' ∷ b'.' ∷ []))
  add_files rootino args
  fix_root rootino
  used ← next_free
  balloc used

abbrev pub blank : Mkfs
blank = record { disk = []; freeinode = 1; freeblock = 0 }

-- `argv` without the program's name: `none` where there is no image, and the image does not open
-- where its flag is false.
unfoldable pub main : Option (Bool × List Source) → Result (Unit {0})
unfolding build
main none = stop usage
main (some (false, args)) = stop died
main (some (true, args)) = build args blank
