-- ===== src/Mkfs/Bytes/Laws.antt =====
-- `xshort` and `xint` of tools/mkfs/mkfs.c, and words in memory.
use multiplix.Prelude.{ℕ, ◌^◌, ◌<◌, ◌≡◌, refl, arith, List, [], ◌∷◌, ◌++◌, drop, length}
use multiplix.Prelude.{
  ◌≤◌, ◌-◌, ◌+◌, ltb, if◌then◌else◌, get_or, take, get_or-append, get_or-take, get_or-drop,
  length-append, length-take, length-drop,
}
use mathlib.Core.Path.{ap₂}
use multiplix.Mkfs.Bytes.{
  ByteOrder, little, big, load16, load32, store16, store32, xshort, xint, load_words, store_words,
  splice,
}

-- On a host of either byte order, a 32-bit value converted by `xint` lies in memory with its low
-- byte first, and converting what is read back gives the value again.
pub xint_lem :
    (order : ByteOrder) (x : ℕ)
    → x < 2 ^ 32
    → (store32 order (xint order x) ≡ store32 little x) × (xint order (xint order x) ≡ x)
unfolding xint
xint_lem little x h = (
  ap₂ ◌∷◌ (omega arith)
      (ap₂ ◌∷◌ (omega arith) (ap₂ ◌∷◌ (omega arith) (ap₂ ◌∷◌ (omega arith) refl))),
  omega arith,
)
xint_lem big x h = (
  ap₂ ◌∷◌ (omega arith)
      (ap₂ ◌∷◌ (omega arith) (ap₂ ◌∷◌ (omega arith) (ap₂ ◌∷◌ (omega arith) refl))),
  omega arith,
)

-- On a host of either byte order, a 16-bit value converted by `xshort` lies in memory with its low
-- byte first, and converting what is read back gives the value again.
pub xshort_lem :
    (order : ByteOrder) (x : ℕ)
    → x < 2 ^ 16
    → (store16 order (xshort order x) ≡ store16 little x) × (xshort order (xshort order x) ≡ x)
unfolding xshort
xshort_lem little x h = (ap₂ ◌∷◌ (omega arith) (ap₂ ◌∷◌ (omega arith) refl), omega arith)
xshort_lem big x h = (ap₂ ◌∷◌ (omega arith) (ap₂ ◌∷◌ (omega arith) refl), omega arith)

pub xint-little : (x : ℕ) → x < 2 ^ 32 → xint little x ≡ x
unfolding xint
xint-little x h = omega arith

pub xshort-little : (x : ℕ) → x < 2 ^ 16 → xshort little x ≡ x
unfolding xshort
xshort-little x h = omega arith

pub load16-store16 :
    (x : ℕ) (rest : List ℕ) → x < 2 ^ 16 → load16 little (store16 little x ++ rest) ≡ x
load16-store16 x rest h = omega arith

pub load32-store32 :
    (x : ℕ) (rest : List ℕ) → x < 2 ^ 32 → load32 little (store32 little x ++ rest) ≡ x
load32-store32 x rest h = omega arith

abbrev pub AllBelow : ℕ → List ℕ → Type 0
AllBelow n [] = Unit {0}
AllBelow n (x ∷ xs) = (x < n) × AllBelow n xs

pub load_words-store_words :
    (ws rest : List ℕ)
    → AllBelow (2 ^ 32) ws
    → load_words little (length ws) (store_words little ws ++ rest) ≡ ws
load_words-store_words [] rest h = refl
load_words-store_words (w ∷ ws) rest h =
    ap₂ ◌∷◌ (load32-store32 w (store_words little ws ++ rest) h.0)
      (load_words-store_words ws rest h.1)

pub get_or-splice :
    (off : ℕ) (p buf : List ℕ) (i : ℕ)
    → off + length p ≤ length buf
    → get_or (splice off p buf) i 0 ≡ (
        if ltb i off
        then get_or buf i 0
        else if ltb i (off + length p)
        then get_or p (i - off) 0
        else get_or buf i 0)
get_or-splice off p buf i h = ground (
  arith,
  get_or-append 0 (take off buf) (p ++ drop (off + length p) buf) i,
  get_or-append 0 p (drop (off + length p) buf) (i - length (take off buf)),
  length-take off buf,
  get_or-take 0 off buf i,
  get_or-drop 0 (off + length p) buf (i - length (take off buf) - length p),
)

pub length-splice :
    (off : ℕ) (p buf : List ℕ)
    → off + length p ≤ length buf
    → length (splice off p buf) ≡ length buf
length-splice off p buf h = omega (
  arith,
  length-append (take off buf) (p ++ drop (off + length p) buf),
  length-append p (drop (off + length p) buf),
  length-take off buf,
  length-drop (off + length p) buf,
)
