-- ===== src/Coremark/Parseval/Laws.antt =====
-- Numbers that `number` of coremark/multiplix/ee_printf.c prints, read by `parseval`.
use multiplix.Prelude.{
  ℕ, zero, suc, ◌+◌, ◌-◌, ◌*◌, ◌/◌, ◌%◌, ◌^◌, ◌≤◌, ◌<◌, ◌≡◌, inl, inr, refl, ◌∙◌, ap, arith, Bool,
  true, false, some, List, [], ◌∷◌, ◌++◌, ◌==◌, ◌&&◌, Bool-cases,
}
use multiplix.Coremark.Printf.{
  Flags, is_digit, digit, reversed_onto, tmp_digits, tmp_loop, atoi_loop, number, sign_bytes,
  prefix_bytes, magnitude, is_negative,
}
use multiplix.Coremark.Printf.Laws.{atoi-tmp_digits, atoi-Stops, is_digit-digit, number_unpadded}
use multiplix.Coremark.Parseval.{
  is_hex, hex_digit, hex_loop, dec_loop, hex_mode, qualifier, parse_magnitude, parseval,
}

dec-atoi : (i : ℕ) (s : List ℕ) → dec_loop i s ≡ atoi_loop i s
unfolding dec_loop atoi_loop
dec-atoi i [] = refl
dec-atoi i (c ∷ s) = elim (Bool-cases (is_digit c)) [
  | inl e ↦
      let low : b'0' ≤ c = unfold is_digit in ground arith in
      rw e (
        dec-atoi ((i * 10 % 2 ^ 32 + (c - b'0')) % 2 ^ 32) s
        ∙ ap (λ (z : ℕ). atoi_loop z s) (omega arith))
  | inr e ↦ rw e refl
]

hex_step :
    (i d : ℕ) (s : List ℕ)
    → d < 16
    → hex_loop i (digit false d ∷ s) ≡ hex_loop ((i * 16 + d) % 2 ^ 32) s
unfolding hex_loop
hex_step i d s h =
    let one : is_hex (digit false d) ≡ true = unfold is_hex digit is_digit in ground arith in
    let two : hex_digit (digit false d) ≡ d = unfold hex_digit digit in ground arith in
    rw one (rw two (ap (λ (z : ℕ). hex_loop z s) (omega arith)))

hex-tmp_loop :
    (n num : ℕ) (out : List ℕ)
    → num < 2 ^ n
    → hex_loop 0 (reversed_onto (tmp_loop n false 16 num) out) ≡ hex_loop (num % 2 ^ 32) out
unfolding tmp_loop reversed_onto
hex-tmp_loop zero num out lt = ap (λ (z : ℕ). hex_loop z out) (omega arith)
hex-tmp_loop (suc n) num out lt = elim (Bool-cases (num == 0)) [
  | inl e ↦ rw e (ap (λ (z : ℕ). hex_loop z out) (ground arith))
  | inr ne ↦ rw ne (
      hex-tmp_loop n (num / 16) (digit false (num % 16) ∷ out) (omega arith)
      ∙ hex_step (num / 16 % 2 ^ 32) (num % 16) out (omega arith)
      ∙ ap (λ (z : ℕ). hex_loop z out) (omega arith))
]

hex-tmp_digits :
    (num : ℕ)
    → num < 2 ^ 64
    → hex_loop 0 (reversed_onto (tmp_digits false 16 num) []) ≡ (num % 2 ^ 32, [])
unfolding tmp_digits reversed_onto hex_loop
hex-tmp_digits num lt = elim (Bool-cases (num == 0)) [
  | inl e ↦ rw e (ap (λ (z : ℕ). (z, [])) (ground arith))
  | inr e ↦ rw e (hex-tmp_loop 64 num [] lt)
]

-- Decimal digits.
abbrev AllDigits : List ℕ → Type 0
AllDigits [] = Unit {0}
AllDigits (c ∷ s) = (is_digit c ≡ true) × AllDigits s

loop-AllDigits :
    (n : ℕ) (u : Bool) (num : ℕ) (out : List ℕ)
    → AllDigits out
    → AllDigits (reversed_onto (tmp_loop n u 10 num) out)
unfolding tmp_loop reversed_onto
loop-AllDigits zero u num out h = h
loop-AllDigits (suc n) u num out h = elim (Bool-cases (num == 0)) [
  | inl e ↦ rw e h
  | inr ne ↦ rw ne (
      loop-AllDigits n u (num / 10) (digit u (num % 10) ∷ out)
        (is_digit-digit u (num % 10) (omega arith), h))
]

tmp_digits-AllDigits : (u : Bool) (num : ℕ) → AllDigits (reversed_onto (tmp_digits u 10 num) [])
unfolding tmp_digits reversed_onto
tmp_digits-AllDigits u num = elim (Bool-cases (num == 0)) [
  | inl e ↦ rw e (unfold is_digit in (refl, tt))
  | inr e ↦ rw e (loop-AllDigits 64 u num [] tt)
]

no_hex : (s : List ℕ) → AllDigits s → hex_mode s ≡ (false, s)
unfolding hex_mode
no_hex [] h = refl
no_hex (c ∷ []) h = refl
no_hex (c ∷ d ∷ s) (hc, (hd, h)) =
    let e : (c == b'0' && d == b'x') ≡ false = unfold is_digit in ground arith in rw e refl

no_minus : (s : List ℕ) → AllDigits s → parseval s ≡ parse_magnitude s
unfolding parseval
no_minus [] h = refl
no_minus (c ∷ s) (hc, h) =
    let e : (c == b'-') ≡ false = unfold is_digit in ground arith in rw e refl

magnitude_read :
    (u : Bool) (num : ℕ)
    → num < 2 ^ 64
    → parse_magnitude (reversed_onto (tmp_digits u 10 num) []) ≡ num % 2 ^ 32
unfolding parse_magnitude qualifier
magnitude_read u num lt =
    let s = reversed_onto (tmp_digits u 10 num) [] in
    let read : dec_loop 0 s ≡ (num % 2 ^ 32, []) =
      dec-atoi 0 s ∙ atoi-tmp_digits u num [] lt ∙ atoi-Stops (num % 2 ^ 32) [] tt in
    rw (no_hex s (tmp_digits-AllDigits u num)) (rw read (omega arith))

-- A `long` that `number` prints in base 10 with its sign, without width, precision, plus, blank or
-- prefix, is read by `parseval` as its low 32 bits.
pub parseval-number :
    (num : ℕ) (f : Flags)
    → num < 2 ^ 64
    → f.sign ≡ true
    → f.plus ≡ false
    → f.space ≡ false
    → f.hex_prep ≡ false
    → (out : List ℕ) × (number num 10 (2 ^ 32 - 1) (2 ^ 32 - 1) f ≡ some out)
      × (parseval out ≡ num % 2 ^ 32)
parseval-number num f lt sign plus space hex =
    let no_prefix : prefix_bytes f 10 ≡ [] = unfold prefix_bytes in rw hex refl in
    let printed = number_unpadded num 10 f (omega arith) (omega arith) in
    elim (Bool-cases (is_negative num)) [
      | inl e ↦
          let minus : sign_bytes f num ≡ b'-' ∷ [] = unfold sign_bytes in rw sign (rw e refl) in
          let m : magnitude f num ≡ 2 ^ 64 - num = unfold magnitude in rw sign (rw e refl) in
          let big : 2 ^ 63 ≤ num = ground arith in
          let s = reversed_onto (tmp_digits f.uppercase 10 (2 ^ 64 - num)) [] in
          (
            b'-' ∷ s,
            rw minus at (rw no_prefix at (rw m at printed)),
            (unfold parseval in
                ap (λ (k : ℕ). (2 ^ 32 - k) % 2 ^ 32)
                  (magnitude_read f.uppercase (2 ^ 64 - num) (omega arith))
                ∙ omega arith),
          )
      | inr e ↦
          let none_out : sign_bytes f num ≡ [] =
            unfold sign_bytes in rw sign (rw e (rw plus (rw space refl))) in
          let m : magnitude f num ≡ num = unfold magnitude in rw sign (rw e refl) in
          let s = reversed_onto (tmp_digits f.uppercase 10 num) [] in
          (
            s,
            rw none_out at (rw no_prefix at (rw m at printed)),
            no_minus s (tmp_digits-AllDigits f.uppercase num) ∙ magnitude_read f.uppercase num lt,
          )
    ]

-- A `long` that `number` prints in base 16 with small letters and the prefix `0x`, without sign,
-- width or precision, is read by `parseval` as its low 32 bits.
pub parseval_hex :
    (num : ℕ) (f : Flags)
    → num < 2 ^ 64
    → f.sign ≡ false
    → f.uppercase ≡ false
    → f.hex_prep ≡ true
    → (out : List ℕ) × (number num 16 (2 ^ 32 - 1) (2 ^ 32 - 1) f ≡ some out)
      × (parseval out ≡ num % 2 ^ 32)
parseval_hex num f lt sign small hex =
    let with_prefix : prefix_bytes f 16 ≡ b'0' ∷ b'x' ∷ [] = unfold prefix_bytes in rw hex refl in
    let no_sign : sign_bytes f num ≡ [] = unfold sign_bytes in rw sign refl in
    let m : magnitude f num ≡ num = unfold magnitude in rw sign refl in
    let printed = number_unpadded num 16 f (omega arith) (omega arith) in
    let s = reversed_onto (tmp_digits false 16 num) [] in
    (
      b'0' ∷ b'x' ∷ s,
      printed
          ∙ ap some (
              ap
                (λ (z : List ℕ).
                  z
                  ++ (prefix_bytes f 16
                      ++ reversed_onto (tmp_digits f.uppercase 16 (magnitude f num)) []))
                no_sign
              ∙ ap
                  (λ (z : List ℕ).
                    z ++ reversed_onto (tmp_digits f.uppercase 16 (magnitude f num)) [])
                  with_prefix
              ∙ ap
                  (λ (u : Bool). b'0' ∷ b'x' ∷ reversed_onto (tmp_digits u 16 (magnitude f num)) [])
                  small
              ∙ ap (λ (k : ℕ). b'0' ∷ b'x' ∷ reversed_onto (tmp_digits false 16 k) []) m),
      (unfold parseval parse_magnitude hex_mode qualifier in
          rw (hex-tmp_digits num lt) (omega arith)),
    )
