-- ===== src/Coremark/Parseval.antt =====
-- coremark/core_util.c: `parseval` and `get_seed_args`, which read the seeds from the arguments. A
-- string is the list of its bytes before the terminating 0; an `ee_s32` is its 32-bit pattern.
pub mod Laws
use multiplix.Prelude.{
  ℕ, zero, suc, ◌+◌, ◌-◌, ◌*◌, ◌%◌, ◌^◌, Bool, true, false, ◌&&◌, ◌||◌, Option, none, some, List,
  [], ◌∷◌, ltb, leb, ◌==◌, if◌then◌else◌, get_or,
}
use multiplix.Coremark.Printf.{is_digit}

-- The test of the first loop, and `digit`.
pub is_hex : ℕ → Bool
unfolding is_digit
is_hex c = is_digit c || (leb b'a' c && leb c b'f')

pub hex_digit : ℕ → ℕ
hex_digit c = let digit = c - b'0' in if ltb 9 digit then 10 + c - b'a' else digit

-- Both loops: `retval` and what follows the digits.
pub hex_loop : ℕ → List ℕ → ℕ × List ℕ
unfolding is_hex hex_digit
hex_loop retval [] = (retval, [])
hex_loop retval (c ∷ s) =
    let rest = hex_loop ((retval * 16 % 2 ^ 32 + hex_digit c) % 2 ^ 32) s in
    if is_hex c then rest else (retval, c ∷ s)

pub dec_loop : ℕ → List ℕ → ℕ × List ℕ
unfolding is_digit
dec_loop retval [] = (retval, [])
dec_loop retval (c ∷ s) =
    let rest = dec_loop ((retval * 10 % 2 ^ 32 + (c - b'0')) % 2 ^ 32) s in
    if is_digit c then rest else (retval, c ∷ s)

-- Whether the string begins with `0x`, and what follows.
pub hex_mode : List ℕ → Bool × List ℕ
hex_mode [] = (false, [])
hex_mode (c ∷ []) = (false, c ∷ [])
hex_mode (c ∷ d ∷ s) = if c == b'0' && d == b'x' then (true, s) else (false, c ∷ d ∷ s)

-- The factor that the character behind the digits stands for.
pub qualifier : List ℕ → ℕ
qualifier [] = 1
qualifier (c ∷ s) = if c == b'K' then 1024 else if c == b'M' then 1024 * 1024 else 1

-- The number, without its sign.
pub parse_magnitude : List ℕ → ℕ
unfolding hex_mode hex_loop dec_loop qualifier
parse_magnitude s =
    let mode = hex_mode s in
    let r = if mode.0 then hex_loop 0 mode.1 else dec_loop 0 mode.1 in r.0 * qualifier r.1 % 2 ^ 32

unfoldable pub parseval : List ℕ → ℕ
unfolding parse_magnitude
parseval [] = parse_magnitude []
parseval (c ∷ s) =
    if c == b'-' then (2 ^ 32 - parse_magnitude s) % 2 ^ 32 else parse_magnitude (c ∷ s)

-- Argument `i`, or 0.
unfoldable pub get_seed_args : (i : ℕ) → (argv : List (List ℕ)) → ℕ
get_seed_args zero [] = 0
get_seed_args zero (s ∷ argv) = parseval s
get_seed_args (suc i) [] = 0
get_seed_args (suc i) (s ∷ argv) = get_seed_args i argv
