-- ===== src/Coremark/State/Init.antt =====
-- coremark/core_state.c: `core_init_state`, which fills the block with tokens. The memory from `p`
-- on is a list of bytes; `none` is a write past it, or a loop that is out of fuel.
pub mod Tokens
pub mod Block
use multiplix.Prelude.{
  ℕ, zero, suc, ◌+◌, ◌-◌, ◌/◌, ◌%◌, ◌^◌, Bool, true, false, ◌||◌, Option, none, some, List, [], ◌∷◌,
  ltb, leb, ◌==◌, if◌then◌else◌, length, set, ◌>>=◌,
}

pub intpat : ℕ → List ℕ
intpat i =
    if i == 0
    then b'5' ∷ b'0' ∷ b'1' ∷ b'2' ∷ []
    else if i == 1
    then b'1' ∷ b'2' ∷ b'3' ∷ b'4' ∷ []
    else if i == 2
    then b'-' ∷ b'8' ∷ b'7' ∷ b'4' ∷ []
    else b'+' ∷ b'1' ∷ b'2' ∷ b'2' ∷ []

pub floatpat : ℕ → List ℕ
floatpat i =
    if i == 0
    then b'3' ∷ b'5' ∷ b'.' ∷ b'5' ∷ b'4' ∷ b'4' ∷ b'0' ∷ b'0' ∷ []
    else if i == 1
    then b'.' ∷ b'1' ∷ b'2' ∷ b'3' ∷ b'4' ∷ b'5' ∷ b'0' ∷ b'0' ∷ []
    else if i == 2
    then b'-' ∷ b'1' ∷ b'1' ∷ b'0' ∷ b'.' ∷ b'7' ∷ b'0' ∷ b'0' ∷ []
    else b'+' ∷ b'0' ∷ b'.' ∷ b'6' ∷ b'4' ∷ b'4' ∷ b'0' ∷ b'0' ∷ []

pub scipat : ℕ → List ℕ
scipat i =
    if i == 0
    then b'5' ∷ b'.' ∷ b'5' ∷ b'0' ∷ b'0' ∷ b'e' ∷ b'+' ∷ b'3' ∷ []
    else if i == 1
    then b'-' ∷ b'.' ∷ b'1' ∷ b'2' ∷ b'3' ∷ b'e' ∷ b'-' ∷ b'2' ∷ []
    else if i == 2
    then b'-' ∷ b'8' ∷ b'7' ∷ b'e' ∷ b'+' ∷ b'8' ∷ b'3' ∷ b'2' ∷ []
    else b'+' ∷ b'0' ∷ b'.' ∷ b'6' ∷ b'e' ∷ b'-' ∷ b'1' ∷ b'2' ∷ []

pub errpat : ℕ → List ℕ
errpat i =
    if i == 0
    then b'T' ∷ b'0' ∷ b'.' ∷ b'3' ∷ b'e' ∷ b'-' ∷ b'1' ∷ b'F' ∷ []
    else if i == 1
    then b'-' ∷ b'T' ∷ b'.' ∷ b'T' ∷ b'+' ∷ b'+' ∷ b'T' ∷ b'q' ∷ []
    else if i == 2
    then b'1' ∷ b'T' ∷ b'3' ∷ b'.' ∷ b'4' ∷ b'e' ∷ b'4' ∷ b'z' ∷ []
    else b'3' ∷ b'4' ∷ b'.' ∷ b'0' ∷ b'e' ∷ b'-' ∷ b'T' ∷ b'^' ∷ []

-- `buf` after the switch on `seed & 0x7`; `next` is its length.
pub pattern_of : (seed : ℕ) → List ℕ
unfolding intpat floatpat scipat errpat
pattern_of seed =
    let kind = seed % 8 in
    let i = seed / 8 % 4 in
    if ltb kind 3
    then intpat i
    else if ltb kind 5
    then floatpat i
    else if ltb kind 7
    then scipat i
    else errpat i

pub store : List ℕ → (at v : ℕ) → Option (List ℕ)
store mem at v = if ltb at (length mem) then some (set mem at v) else none

-- `for (i = 0; i < next; i++)`
pub store_all : (bytes : List ℕ) → (at : ℕ) → List ℕ → Option (List ℕ)
unfolding store
store_all [] at mem = some mem
store_all (b ∷ bytes) at mem = store mem at b >>= store_all bytes (at + 1)

-- `total` and the memory after the `if (next > 0)`.
pub put_token : (buf : List ℕ) → (total : ℕ) → List ℕ → Option (ℕ × List ℕ)
unfolding store_all store
put_token [] total mem = some (total, mem)
put_token (b ∷ buf) total mem = do
  mem1 ← store_all (b ∷ buf) total mem
  mem2 ← store mem1 (total + length (b ∷ buf)) b','
  some ((total + length (b ∷ buf) + 1) % 2 ^ 32, mem2)

-- The first loop, with `size` lowered by one.
pub token_loop : (fuel size total : ℕ) → (buf : List ℕ) → (seed : ℕ) → List ℕ → Option (ℕ × List ℕ)
unfolding put_token pattern_of
token_loop zero size total buf seed mem = none
token_loop (suc f) size total buf seed mem = elim (ltb ((total + length buf + 1) % 2 ^ 32) size) [
  | false ↦ some (total, mem)
  | true ↦ put_token buf total mem >>= λ r.
      token_loop f size r.0 (pattern_of ((seed + 1) % 2 ^ 16)) ((seed + 1) % 2 ^ 16) r.1
]

-- `while (total < size)`
pub zero_loop : (rounds total : ℕ) → List ℕ → Option (List ℕ)
unfolding store
zero_loop zero total mem = some mem
zero_loop (suc n) total mem = store mem total 0 >>= zero_loop n (total + 1)

-- Each round of the first loop but the first writes a token, so that there are fewer rounds than
-- the memory has bytes, and two.
unfoldable pub core_init_state : (size seed : ℕ) → List ℕ → Option (List ℕ)
unfolding token_loop zero_loop
core_init_state size seed mem = do
  (total, mem1) ← token_loop (length mem + 2) ((size + (2 ^ 32 - 1)) % 2 ^ 32) 0 [] seed mem
  zero_loop (size - total) total mem1
