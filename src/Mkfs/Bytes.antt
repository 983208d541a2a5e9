-- ===== src/Mkfs/Bytes.antt =====
-- Integers in memory, for either byte order of the host, and `xshort` and `xint` of
-- tools/mkfs/mkfs.c.
pub mod Laws
use multiplix.Prelude.{
  ℕ, zero, suc, ◌+◌, ◌*◌, ◌/◌, ◌%◌, ◌^◌, List, [], ◌∷◌, ◌++◌, drop, take, length, get_or,
}

pub data ByteOrder : Type 0 where
  little big : ByteOrder

-- The native integer whose bytes in memory are these.
abbrev pub load16 : ByteOrder → List ℕ → ℕ
load16 little m = get_or m 0 0 + get_or m 1 0 * 2 ^ 8
load16 big m = get_or m 1 0 + get_or m 0 0 * 2 ^ 8

abbrev pub load32 : ByteOrder → List ℕ → ℕ
load32 little m =
    get_or m 0 0 + get_or m 1 0 * 2 ^ 8 + get_or m 2 0 * 2 ^ 16 + get_or m 3 0 * 2 ^ 24
load32 big m = get_or m 3 0 + get_or m 2 0 * 2 ^ 8 + get_or m 1 0 * 2 ^ 16 + get_or m 0 0 * 2 ^ 24

-- The bytes in memory of a native integer.
abbrev pub store16 : ByteOrder → ℕ → List ℕ
store16 little x = x % 2 ^ 8 ∷ x / 2 ^ 8 % 2 ^ 8 ∷ []
store16 big x = x / 2 ^ 8 % 2 ^ 8 ∷ x % 2 ^ 8 ∷ []

abbrev pub store32 : ByteOrder → ℕ → List ℕ
store32 little x = x % 2 ^ 8 ∷ x / 2 ^ 8 % 2 ^ 8 ∷ x / 2 ^ 16 % 2 ^ 8 ∷ x / 2 ^ 24 % 2 ^ 8 ∷ []
store32 big x = x / 2 ^ 24 % 2 ^ 8 ∷ x / 2 ^ 16 % 2 ^ 8 ∷ x / 2 ^ 8 % 2 ^ 8 ∷ x % 2 ^ 8 ∷ []

-- `y` is written through `a`, byte by byte, and read as an integer.
unfoldable pub xshort : ByteOrder → ℕ → ℕ
xshort order x = load16 order (x % 2 ^ 8 ∷ x / 2 ^ 8 % 2 ^ 8 ∷ [])

unfoldable pub xint : ByteOrder → ℕ → ℕ
xint order x =
    load32 order (x % 2 ^ 8 ∷ x / 2 ^ 8 % 2 ^ 8 ∷ x / 2 ^ 16 % 2 ^ 8 ∷ x / 2 ^ 24 % 2 ^ 8 ∷ [])

-- `n` words of 32 bits, one after the other.
abbrev pub load_words : ByteOrder → ℕ → List ℕ → List ℕ
load_words order zero bytes = []
load_words order (suc n) bytes = load32 order bytes ∷ load_words order n (drop 4 bytes)

abbrev pub store_words : ByteOrder → List ℕ → List ℕ
store_words order [] = []
store_words order (w ∷ ws) = store32 order w ++ store_words order ws

-- `bcopy(p, buf + off, n)`: the bytes `p` over those of `buf` from `off` on.
abbrev pub splice : ℕ → List ℕ → List ℕ → List ℕ
splice off p buf = take off buf ++ (p ++ drop (off + length p) buf)
