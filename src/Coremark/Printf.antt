-- ===== src/Coremark/Printf.antt =====
-- coremark/multiplix/ee_printf.c: the conversions of numbers and addresses. An `int` is its 32-bit
-- pattern and a `long` its 64-bit pattern. What a function writes from `str` on is the list of the
-- bytes; a string is the list of its bytes before the terminating 0, none of which is 0.
pub mod Fields
pub mod Format
pub mod Digits
pub mod Width
pub mod Laws
use multiplix.Prelude.{
  ℕ, zero, suc, ◌+◌, ◌-◌, ◌*◌, ◌/◌, ◌%◌, ◌^◌, Bool, true, false, ◌&&◌, ◌||◌, Option, none, some,
  List, [], ◌∷◌, ◌++◌, ltb, leb, ◌==◌, not, if◌then◌else◌, length, get_elem?, replicate, ◌>>=◌,
}

-- The bits of `type` and `flags`.
pub record Flags : Type 0 where
  pub zeropad : Bool
  pub sign : Bool
  pub plus : Bool
  pub space : Bool
  pub left : Bool
  pub hex_prep : Bool
  pub uppercase : Bool

-- `is_digit`
unfoldable pub is_digit : ℕ → Bool
is_digit c = leb b'0' c && leb c b'9'

-- The entry of `digits` or `upper_digits`: the digits, then the letters in order.
unfoldable pub digit : Bool → ℕ → ℕ
digit upper d = if ltb d 10 then b'0' + d else if upper then b'A' + (d - 10) else b'a' + (d - 10)

-- `x - y` of two `int`s.
abbrev pub sub : ℕ → ℕ → ℕ
sub x y = (x + (2 ^ 32 - y)) % 2 ^ 32

-- `x < y` of two `int`s.
abbrev pub int_less : ℕ → ℕ → Bool
int_less x y = ltb ((x + 2 ^ 31) % 2 ^ 32) ((y + 2 ^ 31) % 2 ^ 32)

-- The bytes that `while (size-- > 0) *str++ = c;` writes, and `size` after it.
abbrev pub fill : (size c : ℕ) → List ℕ
fill size c = if int_less 0 size then replicate size c else []

abbrev pub drained : ℕ → ℕ
drained size = if int_less 0 size then 2 ^ 32 - 1 else sub size 1

-- The same for `while (len < size--) *str++ = ' ';`.
abbrev pub fill_from : (len size : ℕ) → List ℕ
fill_from len size = if int_less len size then replicate (size - len) b' ' else []

abbrev pub drained_to : (len size : ℕ) → ℕ
drained_to len size = if int_less len size then sub len 1 else sub size 1

-- At most `count` bytes.
pub strnlen : List ℕ → (count : ℕ) → ℕ
strnlen [] count = 0
strnlen (c ∷ s) zero = 0
strnlen (c ∷ s) (suc count) = suc (strnlen s count)

-- The loop of `skip_atoi` from `i` on: the number and what follows the digits.
unfoldable pub atoi_loop : ℕ → List ℕ → ℕ × List ℕ
unfolding is_digit
atoi_loop i [] = (i, [])
atoi_loop i (c ∷ s) =
    let rest = atoi_loop ((i * 10 + c + (2 ^ 32 - b'0')) % 2 ^ 32) s in
    if is_digit c then rest else (i, c ∷ s)

unfoldable pub skip_atoi : List ℕ → ℕ × List ℕ
unfolding atoi_loop
skip_atoi s = atoi_loop 0 s

-- `while (num != 0)`: the bytes of `tmp`, the last digit first. A `long` has 64 bits, so it is 0
-- after 64 rounds.
unfoldable pub tmp_loop : (rounds : ℕ) → Bool → (base num : ℕ) → List ℕ
unfolding digit
tmp_loop zero upper base num = []
tmp_loop (suc n) upper base num =
    let rest = tmp_loop n upper base (num / base) in
    if num == 0 then [] else digit upper (num % base) ∷ rest

unfoldable pub tmp_digits : Bool → (base num : ℕ) → List ℕ
tmp_digits upper base num = if num == 0 then b'0' ∷ [] else tmp_loop 64 upper base num

unfoldable pub reversed_onto : List ℕ → List ℕ → List ℕ
reversed_onto [] out = out
reversed_onto (c ∷ s) out = reversed_onto s (c ∷ out)

abbrev pub is_negative : ℕ → Bool
is_negative num = leb (2 ^ 63) num

-- `sign` as the bytes that it puts out.
unfoldable pub sign_bytes : Flags → ℕ → List ℕ
sign_bytes f num =
    if f.sign
    then if is_negative num
      then b'-' ∷ []
      else if f.plus
      then b'+' ∷ []
      else if f.space
      then b' ' ∷ []
      else []
    else []

-- What `num` is after its sign.
unfoldable pub magnitude : Flags → ℕ → ℕ
magnitude f num = if f.sign && is_negative num then 2 ^ 64 - num else num

-- The bytes of `0x` or `0`.
unfoldable pub prefix_bytes : Flags → (base : ℕ) → List ℕ
prefix_bytes f base =
    if f.hex_prep
    then if base == 8 then b'0' ∷ [] else if base == 16 then b'0' ∷ b'x' ∷ [] else []
    else []

-- The five loops after `size -= precision`, without those of the digits: `left` and `zeropad` say
-- which of the three loops over `size` write blanks, zeros or nothing.
unfoldable pub arrange : (left zeropad : Bool) → (sign prefix body : List ℕ) → (size : ℕ) → List ℕ
arrange true zeropad sign prefix body size = sign ++ (prefix ++ (body ++ fill size b' '))
arrange false true sign prefix body size =
    sign ++ (prefix ++ (fill size b'0' ++ (body ++ fill (drained size) b' ')))
arrange false false sign prefix body size =
    fill size b' '
    ++ (sign
        ++ (prefix ++ (fill (drained size) b' ' ++ (body ++ fill (drained (drained size)) b' '))))

-- `number` after the digits are in `tmp`, with the `size` that sign and prefix leave.
unfoldable pub layout : Flags → (sign prefix digits : List ℕ) → (size precision : ℕ) → List ℕ
unfolding reversed_onto arrange
layout f sign prefix digits size precision =
    let precision' = if int_less precision (length digits) then length digits else precision in
    arrange f.left f.zeropad sign prefix
      (replicate (precision' - length digits) b'0' ++ reversed_onto digits []) (sub size precision')

-- `none` is the null pointer, for a base out of range.
unfoldable pub number : (num base size precision : ℕ) → Flags → Option (List ℕ)
unfolding layout sign_bytes prefix_bytes magnitude tmp_digits tmp_loop
number num base size precision f =
    if ltb base 2 || ltb 36 base
    then none
    else let sign = sign_bytes f num in
      let prefix = prefix_bytes f base in
      some (
        layout f sign prefix (tmp_digits f.uppercase base (magnitude f num))
          (sub (sub size (length sign)) (length prefix)) precision)

-- The rounds `i` to 6 of the loop of `eaddr`; `none` reads past the address.
pub eaddr_loop : (rounds i : ℕ) → Bool → List ℕ → Option (List ℕ)
unfolding digit
eaddr_loop zero i upper addr = some []
eaddr_loop (suc n) i upper [] = none
eaddr_loop (suc n) i upper (a ∷ addr) = do
  rest ← eaddr_loop n (i + 1) upper addr
  some (
      (if i == 0 then [] else b':' ∷ [])
      ++ digit upper (a / 2 ^ 4) ∷ digit upper (a % 2 ^ 4) ∷ rest)

-- `tmp` with its padding on one side.
abbrev pub padded : Flags → (tmp : List ℕ) → (size : ℕ) → List ℕ
padded f tmp size =
    let len = length tmp in
    let size1 = if f.left then size else drained_to len size in
    (if f.left then [] else fill_from len size) ++ (tmp ++ fill_from len size1)

unfoldable pub eaddr : List ℕ → (size : ℕ) → Flags → Option (List ℕ)
unfolding eaddr_loop
eaddr addr size f = do tmp ← eaddr_loop 6 0 f.uppercase addr; some (padded f tmp size)

-- The digits of one byte of an IP address.
pub byte_digits : ℕ → List ℕ
unfolding digit
byte_digits n =
    if n == 0
    then digit false 0 ∷ []
    else if leb 100 n
    then digit false (n / 100) ∷ digit false (n % 100 / 10) ∷ digit false (n % 100 % 10) ∷ []
    else if leb 10 n
    then digit false (n / 10) ∷ digit false (n % 10) ∷ []
    else digit false n ∷ []

pub iaddr_loop : (rounds i : ℕ) → List ℕ → Option (List ℕ)
unfolding byte_digits
iaddr_loop zero i addr = some []
iaddr_loop (suc n) i [] = none
iaddr_loop (suc n) i (a ∷ addr) = do
  rest ← iaddr_loop n (i + 1) addr
  some ((if i == 0 then [] else b'.' ∷ []) ++ (byte_digits a ++ rest))

unfoldable pub iaddr : List ℕ → (size : ℕ) → Flags → Option (List ℕ)
unfolding iaddr_loop
iaddr addr size f = do tmp ← iaddr_loop 4 0 addr; some (padded f tmp size)
