-- ===== src/Mkfs/Inode/View.antt =====
-- What an inode of tools/mkfs/mkfs.c reads from memory, and how it is laid out there.
use mathlib.Core.Path.{ap₂, subst}
use multiplix.Prelude.{
  ℕ, zero, suc, ◌+◌, ◌*◌, ◌^◌, ◌≤◌, ◌<◌, ◌≡◌, refl, sym, ◌∙◌, List, [], ◌∷◌, ◌++◌, arith, drop,
  length, get_or, get_or-drop,
}
use multiplix.Mkfs.Bytes.{little, load16, load32, load_words, store_words}
use multiplix.Mkfs.Bytes.Laws.{AllBelow, load_words-store_words, load16-store16, load32-store32}
use multiplix.Mkfs.Inode.{Dinode, image, view}

-- Two memories with the same bytes, as far as an inode reaches.
abbrev SameBytes : ℕ → List ℕ → List ℕ → Type 0
SameBytes n xs ys = (i : ℕ) → i < n → get_or xs i 0 ≡ get_or ys i 0

drop-SameBytes :
    (k n : ℕ) (xs ys : List ℕ) → SameBytes (k + n) xs ys → SameBytes n (drop k xs) (drop k ys)
drop-SameBytes k n xs ys h i lt =
    get_or-drop 0 k xs i ∙ h (k + i) (omega arith) ∙ sym (get_or-drop 0 k ys i)

load32_ext : (xs ys : List ℕ) → SameBytes 4 xs ys → load32 little xs ≡ load32 little ys
load32_ext xs ys h =
    omega (arith, h 0 (omega arith), h 1 (omega arith), h 2 (omega arith), h 3 (omega arith))

load16_ext : (xs ys : List ℕ) → SameBytes 2 xs ys → load16 little xs ≡ load16 little ys
load16_ext xs ys h = omega (arith, h 0 (omega arith), h 1 (omega arith))

load_words_ext :
    (n : ℕ) (xs ys : List ℕ)
    → SameBytes (n * 4) xs ys
    → load_words little n xs ≡ load_words little n ys
load_words_ext zero xs ys h = refl
load_words_ext (suc n) xs ys h = ap₂ ◌∷◌ (load32_ext xs ys (λ i lt. h i (omega arith))) (
    load_words_ext n (drop 4 xs) (drop 4 ys)
      (drop-SameBytes 4 (n * 4) xs ys (λ i lt. h i (omega arith))))

pub view_ext : (xs ys : List ℕ) → SameBytes 64 xs ys → view xs ≡ view ys
view_ext xs ys h =
    let at =
      λ (k n : ℕ) (fits : k + n ≤ 64). drop-SameBytes k n xs ys (λ i lt. h i (omega arith)) in
    λ i. record {
      type = load16_ext xs ys (λ j lt. h j (omega arith)) i;
      major = load16_ext (drop 2 xs) (drop 2 ys) (at 2 2 (omega arith)) i;
      minor = load16_ext (drop 4 xs) (drop 4 ys) (at 4 2 (omega arith)) i;
      nlink = load16_ext (drop 6 xs) (drop 6 ys) (at 6 2 (omega arith)) i;
      size = load32_ext (drop 8 xs) (drop 8 ys) (at 8 4 (omega arith)) i;
      addrs = load_words_ext 13 (drop 12 xs) (drop 12 ys) (at 12 52 (omega arith)) i;
    }

-- A `struct dinode`: the fields fit their types, and there are 13 addresses.
pub record IsDinode (d : Dinode) : Type 0 where
  pub type : d.type < 2 ^ 16
  pub major : d.major < 2 ^ 16
  pub minor : d.minor < 2 ^ 16
  pub nlink : d.nlink < 2 ^ 16
  pub size : d.size < 2 ^ 32
  pub count : length d.addrs ≡ 13
  pub addrs : AllBelow (2 ^ 32) d.addrs

pub view-image : (d : Dinode) (rest : List ℕ) → IsDinode d → view (image d ++ rest) ≡ d
view-image d rest v = λ i. record {
  type = load16-store16 d.type [] v.type i;
  major = load16-store16 d.major [] v.major i;
  minor = load16-store16 d.minor [] v.minor i;
  nlink = load16-store16 d.nlink [] v.nlink i;
  size = load32-store32 d.size [] v.size i;
  addrs = words i;
}
  where
    words : load_words little 13 (store_words little d.addrs ++ rest) ≡ d.addrs
    words =
        subst (λ n. load_words little n (store_words little d.addrs ++ rest) ≡ d.addrs) v.count
          (load_words-store_words d.addrs rest v.addrs)

length-store_words : (ws : List ℕ) → length (store_words little ws) ≡ length ws * 4
length-store_words [] = refl
length-store_words (w ∷ ws) = omega (arith, length-store_words ws)

pub length-image : (d : Dinode) → IsDinode d → length (image d) ≡ 64
length-image d v = omega (arith, length-store_words d.addrs, v.count)
