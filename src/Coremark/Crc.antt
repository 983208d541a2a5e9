-- ===== src/Coremark/Crc.antt =====
-- coremark/core_util.c: the 16-bit CRC. An `ee_u8`, `ee_u16` or `ee_u32` is a number below its
-- modulus; an `ee_s16` is its bit pattern.
pub mod Register
pub mod Laws
use multiplix.Prelude.{ℕ, zero, suc, ◌/◌, ◌%◌, bit_and, bit_or, bit_xor, ◌==◌, if◌then◌else◌}

-- `x16` of one round.
pub feedback : ℕ → ℕ → ℕ
feedback dat crc = bit_xor (bit_and dat 1) (bit_and (crc % 256) 1)

-- What one round does to `crc`.
pub crc_round : ℕ → ℕ → ℕ
crc_round dat crc =
    if feedback dat crc == 1
    then bit_or (bit_xor crc 0x4002 / 2) 0x8000
    else bit_and (crc / 2) 0x7fff

-- The loop of `crcu8`, with the rounds that are left.
pub rounds : ℕ → ℕ → ℕ → ℕ
unfolding crc_round feedback
rounds zero dat crc = crc
rounds (suc n) dat crc = rounds n (dat / 2) (crc_round dat crc)

unfoldable pub crcu8 : ℕ → ℕ → ℕ
unfolding rounds
crcu8 dat crc = rounds 8 dat crc

unfoldable pub crcu16 : ℕ → ℕ → ℕ
unfolding crcu8
crcu16 newval crc = crcu8 (newval / 256 % 256) (crcu8 (newval % 256) crc)

unfoldable pub crc16 : ℕ → ℕ → ℕ
unfolding crcu16
crc16 newval crc = crcu16 newval crc

unfoldable pub crcu32 : ℕ → ℕ → ℕ
unfolding crc16
crcu32 newval crc = crc16 (newval / 65536 % 65536) (crc16 (newval % 65536) crc)
