-- ===== src/Coremark/Crc/Register.antt =====
-- The bit loop of `crcu8` as the textbook shift register for the polynomial 0xa001, which is
-- linear and loses nothing.
use native.Mathlib.Nat.{pow-suc}
use multiplix.Prelude.{
  ℕ, zero, suc, ◌+◌, ◌*◌, ◌/◌, ◌%◌, ◌^◌, ◌<◌, bit_and, bit_or, bit_xor, ◌≡◌, refl, ap, ◌∙◌, sym,
  arith, ◌==◌, Bool-cases, inl, inr, ==_iff,
}
use multiplix.Prelude.Bits.{bit_or_step, bit_xor_step}
use multiplix.Prelude.Bits.Mask.{bit_and-one, bit_and_mask}
use multiplix.Prelude.Bits.Xor.{
  bit_xor-half, bit_xor-low, bit_xor-lt, bit_xor_assoc, bit_xor_cancel, bit_xor_comm, bit_xor-zero,
  bit_xor_self, zero-bit_xor,
}
use multiplix.Coremark.Crc.{feedback, crc_round, rounds, crcu8}

-- One step of the register: shift right, and add the polynomial if a one fell out.
unfoldable pub shift : ℕ → ℕ
shift c = bit_xor (c / 2) (c % 2 * 0xa001)

unfoldable pub shifts : ℕ → ℕ → ℕ
unfolding shift
shifts zero c = c
shifts (suc n) c = shifts n (shift c)

bit_or_top : (k y : ℕ) → y < 2 ^ k → bit_or y (2 ^ k) ≡ y + 2 ^ k
bit_or_top zero zero h = refl
bit_or_top zero (suc y) h = absurd (omega arith)
bit_or_top (suc k) y h = ground (
  arith,
  pow-suc 2 k,
  bit_or_step y (2 ^ suc k),
  bit_or_top k (y / 2) (omega (arith, pow-suc 2 k)),
)

bit_xor_top : (k y : ℕ) → y < 2 ^ k → bit_xor y (2 ^ k) ≡ y + 2 ^ k
bit_xor_top zero zero h = refl
bit_xor_top zero (suc y) h = absurd (omega arith)
bit_xor_top (suc k) y h = ground (
  arith,
  pow-suc 2 k,
  bit_xor_step y (2 ^ suc k),
  bit_xor_top k (y / 2) (omega (arith, pow-suc 2 k)),
)

pub shift-lt : (c : ℕ) → c < 2 ^ 16 → shift c < 2 ^ 16
unfolding shift
shift-lt c h = bit_xor-lt 16 (c / 2) (c % 2 * 0xa001) (omega arith) (omega arith)

pub shifts-lt : (n c : ℕ) → c < 2 ^ 16 → shifts n c < 2 ^ 16
unfolding shifts
shifts-lt zero c h = h
shifts-lt (suc n) c h = shifts-lt n (shift c) (shift-lt c h)

feedback-low : (dat crc : ℕ) → feedback dat crc ≡ bit_xor crc dat % 2
unfolding feedback
feedback-low dat crc =
    rw (bit_and-one, bit_and-one)
      (omega (
        arith,
        bit_xor-low crc dat,
        bit_xor-low (dat % 2) (crc % 256 % 2),
        bit_xor-lt 1 (dat % 2) (crc % 256 % 2) (omega arith) (omega arith),
      ))

round_odd :
    (crc : ℕ) → crc < 2 ^ 16 → bit_or (bit_xor crc 0x4002 / 2) 0x8000 ≡ bit_xor (crc / 2) 0xa001
round_odd crc h =
    let low = bit_xor-lt 15 (crc / 2) 0x2001 (omega arith) (omega arith) in
    rw (bit_xor-half) (
      bit_or_top 15 (bit_xor (crc / 2) 0x2001) low
      ∙ sym (bit_xor_top 15 (bit_xor (crc / 2) 0x2001) low)
      ∙ bit_xor_assoc (crc / 2) 0x2001 0x8000)

round_even : (crc : ℕ) → crc < 2 ^ 16 → bit_and (crc / 2) 0x7fff ≡ crc / 2
round_even crc h = bit_and_mask 15 (crc / 2) ∙ omega arith

round_lem :
    (dat crc : ℕ)
    → crc < 2 ^ 16
    → crc_round dat crc ≡ bit_xor (crc / 2) (bit_xor crc dat % 2 * 0xa001)
unfolding crc_round
round_lem dat crc h = elim (Bool-cases (feedback dat crc == 1)) [
  | inl odd ↦
      let one : bit_xor crc dat % 2 ≡ 1 = omega (arith, feedback-low dat crc, (==_iff _ _).0 odd) in
      rw (odd, one) (round_odd crc h)
  | inr even ↦
      let zero : bit_xor crc dat % 2 ≡ 0 = ground (arith, feedback-low dat crc) in
      rw (even, zero) (round_even crc h ∙ sym (bit_xor-zero _))
]

crc_round-lt : (dat crc : ℕ) → crc < 2 ^ 16 → crc_round dat crc < 2 ^ 16
crc_round-lt dat crc h =
    rw (round_lem dat crc h)
      (bit_xor-lt 16 (crc / 2) (bit_xor crc dat % 2 * 0xa001) (omega arith) (omega arith))

xor_swap : (a b c : ℕ) → bit_xor (bit_xor a b) c ≡ bit_xor (bit_xor a c) b
xor_swap a b c =
    bit_xor_assoc a b c ∙ ap (λ (t : ℕ). bit_xor a t) (bit_xor_comm b c) ∙ sym (bit_xor_assoc a c b)

-- The data bits may be added to the register before the rounds instead of one by one.
crc_round-shift :
    (dat crc : ℕ) → crc < 2 ^ 16 → bit_xor (crc_round dat crc) (dat / 2) ≡ shift (bit_xor crc dat)
unfolding shift
crc_round-shift dat crc h =
    rw (round_lem dat crc h, bit_xor-half crc dat)
      (xor_swap (crc / 2) (bit_xor crc dat % 2 * 0xa001) (dat / 2))

rounds-shifts :
    (n dat crc : ℕ) → dat < 2 ^ n → crc < 2 ^ 16 → rounds n dat crc ≡ shifts n (bit_xor crc dat)
unfolding rounds shifts
rounds-shifts zero zero crc h k = sym (bit_xor-zero crc)
rounds-shifts zero (suc dat) crc h k = absurd (omega arith)
rounds-shifts (suc n) dat crc h k =
    rounds-shifts n (dat / 2) (crc_round dat crc) (omega (arith, pow-suc 2 n))
      (crc_round-lt dat crc k)
    ∙ ap (shifts n) (crc_round-shift dat crc k)

-- The loop of `crcu8` is eight steps of the register from the sum of the byte and the CRC.
pub crcu8-shifts :
    (dat crc : ℕ) → dat < 256 → crc < 2 ^ 16 → crcu8 dat crc ≡ shifts 8 (bit_xor crc dat)
unfolding crcu8
crcu8-shifts dat crc h k = rounds-shifts 8 dat crc h k

pub bit_xor_eq : (a b : ℕ) → bit_xor a b ≡ 0 → a ≡ b
bit_xor_eq a b e = sym (bit_xor_cancel a b) ∙ ap (λ (t : ℕ). bit_xor t b) e ∙ zero-bit_xor b

poly_xor : (x y : ℕ) → x < 2 → y < 2 → (x + y) % 2 * 0xa001 ≡ bit_xor (x * 0xa001) (y * 0xa001)
poly_xor zero y h k = rw (zero-bit_xor) (omega arith)
poly_xor (suc zero) zero h k = refl
poly_xor (suc zero) (suc zero) h k = refl
poly_xor (suc zero) (suc (suc y)) h k = absurd (omega arith)
poly_xor (suc (suc x)) y h k = absurd (omega arith)

xor_regroup :
    (a b c d : ℕ) → bit_xor (bit_xor a b) (bit_xor c d) ≡ bit_xor (bit_xor a c) (bit_xor b d)
xor_regroup a b c d =
    sym (bit_xor_assoc (bit_xor a b) c d)
    ∙ ap (λ (t : ℕ). bit_xor t d) (xor_swap a b c)
    ∙ bit_xor_assoc (bit_xor a c) b d

shift-xor : (a b : ℕ) → shift (bit_xor a b) ≡ bit_xor (shift a) (shift b)
unfolding shift
shift-xor a b =
    rw (bit_xor-half a b, bit_xor-low a b)
      (ap (λ (t : ℕ). bit_xor (bit_xor (a / 2) (b / 2)) t)
          (ap (λ (t : ℕ). t * 0xa001) (omega arith)
            ∙ poly_xor (a % 2) (b % 2) (omega arith) (omega arith))
        ∙ xor_regroup (a / 2) (b / 2) (a % 2 * 0xa001) (b % 2 * 0xa001))

pub shifts-xor : (n a b : ℕ) → shifts n (bit_xor a b) ≡ bit_xor (shifts n a) (shifts n b)
unfolding shifts
shifts-xor zero a b = refl
shifts-xor (suc n) a b = ap (shifts n) (shift-xor a b) ∙ shifts-xor n (shift a) (shift b)

shift-eq_zero : (c : ℕ) → shift c ≡ 0 → c < 2 ^ 16 → c ≡ 0
unfolding shift
shift-eq_zero c e h = omega (arith, bit_xor_eq (c / 2) (c % 2 * 0xa001) e)

shifts-eq_zero : (n c : ℕ) → shifts n c ≡ 0 → c < 2 ^ 16 → c ≡ 0
unfolding shifts
shifts-eq_zero zero c e h = e
shifts-eq_zero (suc n) c e h = shift-eq_zero c (shifts-eq_zero n (shift c) e (shift-lt c h)) h

-- The register loses nothing: different contents stay different.
pub shifts_inj : (n a b : ℕ) → a < 2 ^ 16 → b < 2 ^ 16 → shifts n a ≡ shifts n b → a ≡ b
shifts_inj n a b h k e = bit_xor_eq a b (
    shifts-eq_zero n (bit_xor a b)
      (shifts-xor n a b ∙ ap (λ (t : ℕ). bit_xor t (shifts n b)) e ∙ bit_xor_self (shifts n b))
      (bit_xor-lt 16 a b h k))

shift-double : (m : ℕ) → shift (m * 2) ≡ m
unfolding shift
shift-double m =
    let even : m * 2 % 2 * 0xa001 ≡ 0 = omega arith in
    let half : m * 2 / 2 ≡ m = omega arith in rw (even, half) (bit_xor-zero m)

pub shifts-high : (n m : ℕ) → shifts n (m * 2 ^ n) ≡ m
unfolding shifts
shifts-high zero m = omega arith
shifts-high (suc n) m =
    let outer : m * 2 ^ suc n ≡ m * 2 ^ n * 2 =
      omega (arith, ap (λ (t : ℕ). m * t) (pow-suc 2 n)) in
    ap (shifts n) (ap shift outer ∙ shift-double (m * 2 ^ n)) ∙ shifts-high n m
