-- ===== src/Mkfs/Inode.antt =====
-- `struct dinode` and its place on the disk: `rinode`, `winode` and `ialloc` of
-- tools/mkfs/mkfs.c.
pub mod View
pub mod Laws
use multiplix.Prelude.{
  ℕ, zero, suc, ◌+◌, ◌*◌, ◌/◌, ◌%◌, ◌^◌, List, [], ◌∷◌, ◌++◌, replicate, drop, take, length,
}
use multiplix.Mkfs.Bytes.{
  little, load16, load32, store16, store32, load_words, store_words, splice, xshort, xint,
}
use multiplix.Mkfs.Disk.{Mkfs, Block, M, ok, pure, ◌>>=◌, ◌>>◌, rsect, wsect}

-- `NDIRECT`, `sizeof(struct dinode)` and `IPB`
abbrev pub ndirect : ℕ
ndirect = 12

abbrev pub dinode_size : ℕ
dinode_size = 64

abbrev pub ipb : ℕ
ipb = 16

-- The fields hold native integers, as in memory: the program converts them itself.
pub record Dinode : Type 0 where
  pub type : ℕ
  pub major : ℕ
  pub minor : ℕ
  pub nlink : ℕ
  pub size : ℕ
  pub addrs : List ℕ

abbrev pub image : Dinode → List ℕ
image d =
    store16 little d.type
    ++ (store16 little d.major
        ++ (store16 little d.minor
            ++ (store16 little d.nlink ++ (store32 little d.size ++ store_words little d.addrs))))

abbrev pub view : List ℕ → Dinode
view bytes = record {
  type = load16 little bytes;
  major = load16 little (drop 2 bytes);
  minor = load16 little (drop 4 bytes);
  nlink = load16 little (drop 6 bytes);
  size = load32 little (drop 8 bytes);
  addrs = load_words little (ndirect + 1) (drop 12 bytes);
}

-- `sb.inodestart`: 2 sectors and the log, 30 blocks, stand before the inodes.
abbrev pub inodestart : ℕ
inodestart = 32

-- `IBLOCK`
abbrev pub iblock : ℕ → ℕ
iblock inum = inum / ipb + inodestart

abbrev pub slot : ℕ → ℕ
slot inum = inum % ipb * dinode_size

unfoldable pub rinode : ℕ → M Dinode
unfolding rsect
rinode inum = do buf ← rsect (iblock inum); pure (view (drop (slot inum) buf))

unfoldable pub winode : ℕ → Dinode → M (Unit {0})
unfolding rsect wsect
winode inum d = do buf ← rsect (iblock inum); wsect (iblock inum) (splice (slot inum) (image d) buf)

-- `freeinode++`
abbrev pub take_inum : M ℕ
take_inum s = ok s.freeinode (record s { freeinode = (s.freeinode + 1) % 2 ^ 32 })

-- `bzero(&din, sizeof(din))`
abbrev pub no_dinode : Dinode
no_dinode = record {
  type = 0;
  major = 0;
  minor = 0;
  nlink = 0;
  size = 0;
  addrs = replicate (ndirect + 1) 0;
}

unfoldable pub ialloc : ℕ → M ℕ
unfolding winode xshort xint
ialloc type = do
  inum ← take_inum
  winode inum (record no_dinode {
    type = xshort little type;
    nlink = xshort little 1;
    size = xint little 0;
  })
  pure inum
