-- ===== src/Coremark/State.antt =====
-- coremark/core_state.c: the state machine that classifies comma-separated tokens, and its
-- benchmark. A pointer into the input block is the list of the bytes from there to the block's
-- end; `none` is a read or write outside the block, or a loop that is out of fuel.
pub mod Progress
pub mod Laws
pub mod Corrupt
pub mod Init
use multiplix.Prelude.{
  ℕ, zero, suc, ◌+◌, ◌%◌, ◌/◌, ◌^◌, Bool, true, false, ◌&&◌, ◌||◌, Option, none, some, List, [],
  ◌∷◌, bit_and, bit_xor, ltb, leb, ◌==◌, if◌then◌else◌, length, get_elem?, get_or, set, replicate,
  not, ◌>>=◌,
}
use multiplix.Coremark.Crc.{crcu32}

-- `enum CORE_STATE`
pub data CoreState : Type 0 where
  start invalid s1 s2 int float exponent scientific : CoreState

-- The value of each in the enumeration, by which the counters are indexed.
abbrev pub index : CoreState → ℕ
index start = 0
index invalid = 1
index s1 = 2
index s2 = 3
index int = 4
index float = 5
index exponent = 6
index scientific = 7

abbrev pub is_invalid : CoreState → Bool
is_invalid invalid = true
is_invalid _ = false

-- `ee_u32 counts[NUM_CORE_STATES]`
abbrev pub Counts : Type 0
Counts = List ℕ

abbrev pub no_counts : Counts
no_counts = replicate 8 0

pub bump : CoreState → Counts → Counts
bump s c = set c (index s) ((get_or c (index s) 0 + 1) % 2 ^ 32)

-- C's `&` of the two comparisons, which are 0 or 1.
pub ee_isdigit : ℕ → Bool
ee_isdigit c = leb b'0' c && leb c b'9'

abbrev pub is_sign : ℕ → Bool
is_sign c = c == b'+' || c == b'-'

abbrev pub is_exp : ℕ → Bool
is_exp c = c == b'E' || c == b'e'

-- The switch of `core_state_transition` on one symbol.
pub step : CoreState → ℕ → Counts → CoreState × Counts
step start b c =
    if ee_isdigit b
    then (int, bump start c)
    else if is_sign b
    then (s1, bump start c)
    else if b == b'.'
    then (float, bump start c)
    else (invalid, bump start (bump invalid c))
step s1 b c =
    if ee_isdigit b
    then (int, bump s1 c)
    else if b == b'.'
    then (float, bump s1 c)
    else (invalid, bump s1 c)
step int b c =
    if b == b'.'
    then (float, bump int c)
    else if not (ee_isdigit b)
    then (invalid, bump int c)
    else (int, c)
step float b c =
    if is_exp b
    then (s2, bump float c)
    else if not (ee_isdigit b)
    then (invalid, bump float c)
    else (float, c)
step s2 b c = if is_sign b then (exponent, bump s2 c) else (invalid, bump s2 c)
step exponent b c =
    if ee_isdigit b then (scientific, bump exponent c) else (invalid, bump exponent c)
step scientific b c = if not (ee_isdigit b) then (invalid, bump invalid c) else (scientific, c)
step invalid b c = (invalid, c)

-- The `for` loop of `core_state_transition` in a state, with its three ways out: the end of the
-- string or the invalid state, a comma, which is consumed, and a read past the block.
pub scan : CoreState → List ℕ → Counts → Option (CoreState × List ℕ × Counts)
scan s [] c = none
scan s (b ∷ str) c =
    let next = scan (step s b c).0 str (step s b c).1 in
    if b == 0 || is_invalid s
    then some (s, b ∷ str, c)
    else if b == b','
    then some (s, str, c)
    else next

-- Returns the state, the new `*instr`, and the counters.
unfoldable pub core_state_transition : List ℕ → Counts → Option (CoreState × List ℕ × Counts)
unfolding scan step bump ee_isdigit
core_state_transition instr c = scan start instr c

-- `while (*p != 0)` of `core_bench_state`: one transition a round, counted by its final state.
pub classify_all : ℕ → List ℕ → Counts → Counts → Option (Counts × Counts)
classify_all zero p final track = none
classify_all (suc f) [] final track = none
classify_all (suc f) (b ∷ p) final track =
    if b == 0 then some (final, track) else elim (core_state_transition (b ∷ p) track) [
      | none ↦ none
      | some (s, p', track') ↦ classify_all f p' (bump s final) track'
    ]

-- The loop that xors `(ee_u8)seed` into every `stride`-th byte of the block that is no comma, from
-- byte `p` on.
pub corrupt : ℕ → (stride seed blksize : ℕ) → ℕ → List ℕ → Option (List ℕ)
corrupt zero stride seed blksize p mem = none
corrupt (suc f) stride seed blksize p mem =
    if ltb p blksize
    then elim (get_elem? mem p) [
      | none ↦ none
      | some b ↦
          corrupt f stride seed blksize (p + stride)
            (if b == b',' then mem else set mem p (bit_xor b (seed % 256)))
    ]
    else some mem

-- The last loop: both counters of each state enter the CRC.
pub crc_counts : ℕ → ℕ → Counts → Counts → ℕ → ℕ
crc_counts zero i final track crc = crc
crc_counts (suc n) i final track crc =
    crc_counts n (i + 1) final track (crcu32 (get_or track i 0) (crcu32 (get_or final i 0) crc))

-- The CRC and the block afterwards. Each loop gets one round for each byte of the block and one
-- more.
unfoldable pub core_bench_state :
    (blksize : ℕ) → List ℕ → (seed1 seed2 stride crc : ℕ) → Option (ℕ × List ℕ)
unfolding classify_all core_state_transition bump corrupt crc_counts crcu32
core_bench_state blksize mem seed1 seed2 stride crc = do
  (final, track) ← classify_all (length mem + 1) mem no_counts no_counts
  mem1 ← corrupt (blksize + 1) stride seed1 blksize 0 mem
  (final', track') ← classify_all (length mem1 + 1) mem1 final track
  mem2 ← corrupt (blksize + 1) stride seed2 blksize 0 mem1
  some (crc_counts 8 0 final' track' crc, mem2)
