-- ===== src/Coremark/Crc/Laws.antt =====
-- What the CRC of coremark/core_util.c computes, and what it detects.
use multiplix.Prelude.{ℕ, ◌*◌, ◌/◌, ◌%◌, ◌^◌, ◌<◌, bit_xor, ◌≡◌, ◌≢◌, ap, ◌∙◌, sym, arith}
use multiplix.Prelude.Bits.Xor.{
  bit_xor-lt, bit_xor_assoc, bit_xor_cancel, bit_xor_comm, bit_xor_fields,
}
use multiplix.Coremark.Crc.{crcu8, crcu16}
use multiplix.Coremark.Crc.Register.{
  shifts, shifts-lt, shifts-xor, shifts_inj, shifts-high, crcu8-shifts,
}

split_xor : (c : ℕ) → bit_xor (c % 256) (c / 256 * 256) ≡ c
split_xor c = bit_xor_fields 8 (c % 256) (c / 256) (omega arith) ∙ omega arith

shifts_table : (c : ℕ) → shifts 8 c ≡ bit_xor (shifts 8 (c % 256)) (c / 256)
shifts_table c =
    ap (shifts 8) (sym (split_xor c))
    ∙ shifts-xor 8 (c % 256) (c / 256 * 256)
    ∙ ap (λ (t : ℕ). bit_xor (shifts 8 (c % 256)) t) (shifts-high 8 (c / 256))

-- For a byte `dat` and a 16-bit `crc`, the eight rounds of `crcu8` give what the table-driven
-- form of the checksum gives: the table's entry for the low byte of `crc ^ dat`, where entry `e`
-- is eight steps of the 0xa001 shift register from `e`, added to the high byte of `crc ^ dat`.
-- The result is again a 16-bit value.
pub crcu8-table :
    (dat crc : ℕ)
    → dat < 256
    → crc < 2 ^ 16
    → (crcu8 dat crc ≡ bit_xor (shifts 8 (bit_xor crc dat % 256)) (bit_xor crc dat / 256))
      × (crcu8 dat crc < 2 ^ 16)
crcu8-table dat crc h k = (
  crcu8-shifts dat crc h k ∙ shifts_table (bit_xor crc dat),
  rw (crcu8-shifts dat crc h k)
      (shifts-lt 8 (bit_xor crc dat) (bit_xor-lt 16 crc dat k (omega arith))),
)

crcu8-lt : (dat crc : ℕ) → dat < 256 → crc < 2 ^ 16 → crcu8 dat crc < 2 ^ 16
crcu8-lt dat crc h k = (crcu8-table dat crc h k).1

-- A 16-bit word enters the register whole: sixteen steps from its sum with the CRC.
pub crcu16-shifts :
    (v crc : ℕ) → v < 2 ^ 16 → crc < 2 ^ 16 → crcu16 v crc ≡ shifts 8 (shifts 8 (bit_xor crc v))
unfolding crcu16
crcu16-shifts v crc h k =
    let lo : ℕ = v % 256 in
    let hi : ℕ = v / 256 in
    let mid : hi % 256 ≡ hi = omega arith in
    let first = crcu8-shifts lo crc (omega arith) k in
    rw (mid) (
      crcu8-shifts hi (crcu8 lo crc) (omega arith) (crcu8-lt lo crc (omega arith) k)
      ∙ ap (λ (t : ℕ). shifts 8 (bit_xor t hi)) first
      ∙ ap (λ (t : ℕ). shifts 8 (bit_xor (shifts 8 (bit_xor crc lo)) t)) (sym (shifts-high 8 hi))
      ∙ ap (shifts 8) (sym (shifts-xor 8 (bit_xor crc lo) (hi * 256)))
      ∙ ap (λ (t : ℕ). shifts 8 (shifts 8 t))
          (bit_xor_assoc crc lo (hi * 256) ∙ ap (λ (t : ℕ). bit_xor crc t) (split_xor v)))

crcu16_inj :
    (v w crc : ℕ) → v < 2 ^ 16 → w < 2 ^ 16 → crc < 2 ^ 16 → crcu16 v crc ≡ crcu16 w crc → v ≡ w
crcu16_inj v w crc h k c e =
    let v' : ℕ = bit_xor crc v in
    let w' : ℕ = bit_xor crc w in
    let v'-lt : v' < 2 ^ 16 = bit_xor-lt 16 crc v c h in
    let w'-lt : w' < 2 ^ 16 = bit_xor-lt 16 crc w c k in
    let once : shifts 8 v' ≡ shifts 8 w' =
      shifts_inj 8 (shifts 8 v') (shifts 8 w') (shifts-lt 8 v' v'-lt) (shifts-lt 8 w' w'-lt)
        (sym (crcu16-shifts v crc h c) ∙ e ∙ crcu16-shifts w crc k c) in
    let same : v' ≡ w' = shifts_inj 8 v' w' v'-lt w'-lt once in
    sym (bit_xor_cancel v crc)
    ∙ ap (λ (t : ℕ). bit_xor t crc) (bit_xor_comm v crc ∙ same ∙ bit_xor_comm crc w)
    ∙ bit_xor_cancel w crc

-- Two different 16-bit words never get the same CRC from the same 16-bit start: a change within
-- one word of the input always shows.
pub crcu16-detects :
    (v w crc : ℕ) → v < 2 ^ 16 → w < 2 ^ 16 → crc < 2 ^ 16 → v ≢ w → crcu16 v crc ≢ crcu16 w crc
crcu16-detects v w crc h k c ne e = ne (crcu16_inj v w crc h k c e)
