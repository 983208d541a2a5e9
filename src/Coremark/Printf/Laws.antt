-- ===== src/Coremark/Printf/Laws.antt =====
-- Numbers printed by `number` of coremark/multiplix/ee_printf.c and read again.
use mathlib.Core.List.{append_assoc}
use multiplix.Prelude.{
  ℕ, zero, suc, ◌+◌, ◌-◌, ◌*◌, ◌/◌, ◌%◌, ◌^◌, ◌≤◌, ◌<◌, ◌≡◌, inl, inr, refl, sym, ◌∙◌, ap, arith,
  Bool, true, false, some, List, [], ◌∷◌, ◌++◌, ◌==◌, if◌then◌else◌, length, replicate, Bool-cases,
}
use multiplix.Coremark.Printf.{
  Flags, int_less, sub, fill, drained, reversed_onto, layout, arrange, number, sign_bytes,
  prefix_bytes, magnitude, tmp_digits, tmp_loop, digit, is_digit, atoi_loop, skip_atoi,
}
use multiplix.Coremark.Printf.Digits.{value, reversed_onto-append, loop_value}
use multiplix.Coremark.Printf.Width.{
  wanted, Moderate, Left, sub-Left, length-tmp_digits, digits_width, raised, base_in_range,
  fits_word, modest, sign_small, prefix_small, sub-sub,
}

-- The digits that `number` finds for a 64-bit number spell it in the base, with the first digit in
-- front, in either case of letters.
pub tmp_digits-value :
    (upper : Bool) (base num : ℕ)
    → 2 ≤ base
    → base ≤ 36
    → num < 2 ^ 64
    → value base 0 (reversed_onto (tmp_digits upper base num) []) ≡ num
unfolding tmp_digits reversed_onto
tmp_digits-value upper base num lo hi lt = elim (Bool-cases (num == 0)) [
  | inl e ↦ rw e (ground arith)
  | inr e ↦ rw e (loop_value 64 upper base num [] lo hi lt)
]

-- What follows digits.
abbrev pub Stops : List ℕ → Type 0
Stops [] = Unit {0}
Stops (c ∷ s) = is_digit c ≡ false

pub atoi-Stops : (i : ℕ) (s : List ℕ) → Stops s → atoi_loop i s ≡ (i, s)
unfolding atoi_loop
atoi-Stops i [] h = refl
atoi-Stops i (c ∷ s) h = rw h refl

pub is_digit-digit : (u : Bool) (d : ℕ) → d < 10 → is_digit (digit u d) ≡ true
unfolding is_digit digit
is_digit-digit u d h = ground arith

digit_low : (u : Bool) (d : ℕ) → d < 10 → digit u d ≡ b'0' + d
unfolding digit
digit_low u d h = ground arith

atoi_digit :
    (u : Bool) (i d : ℕ) (s : List ℕ)
    → d < 10
    → atoi_loop i (digit u d ∷ s) ≡ atoi_loop ((i * 10 + d) % 2 ^ 32) s
unfolding atoi_loop
atoi_digit u i d s h =
    rw (is_digit-digit u d h) (rw (digit_low u d h) (ap (λ (z : ℕ). atoi_loop z s) (omega arith)))

atoi-loop :
    (n : ℕ) (upper : Bool) (num : ℕ) (out : List ℕ)
    → num < 2 ^ n
    → atoi_loop 0 (reversed_onto (tmp_loop n upper 10 num) out) ≡ atoi_loop (num % 2 ^ 32) out
unfolding tmp_loop reversed_onto
atoi-loop zero upper num out lt = ap (λ (z : ℕ). atoi_loop z out) (omega arith)
atoi-loop (suc n) upper num out lt = elim (Bool-cases (num == 0)) [
  | inl e ↦ rw e (ap (λ (z : ℕ). atoi_loop z out) (ground arith))
  | inr ne ↦ rw ne (
      atoi-loop n upper (num / 10) (digit upper (num % 10) ∷ out) (omega arith)
      ∙ atoi_digit upper (num / 10 % 2 ^ 32) (num % 10) out (omega arith)
      ∙ ap (λ (z : ℕ). atoi_loop z out) (omega arith))
]

pub atoi-tmp_digits :
    (upper : Bool) (num : ℕ) (out : List ℕ)
    → num < 2 ^ 64
    → atoi_loop 0 (reversed_onto (tmp_digits upper 10 num) out) ≡ atoi_loop (num % 2 ^ 32) out
unfolding tmp_digits reversed_onto
atoi-tmp_digits upper num out lt = elim (Bool-cases (num == 0)) [
  | inl e ↦ rw e (
      ap (λ (c : ℕ). atoi_loop 0 (c ∷ out)) (sym (digit_low upper 0 (omega arith)))
      ∙ atoi_digit upper 0 0 out (omega arith)
      ∙ ap (λ (z : ℕ). atoi_loop z out) (ground arith))
  | inr e ↦ rw e (atoi-loop 64 upper num out lt)
]

zeros : (k : ℕ) (s : List ℕ) → atoi_loop 0 (replicate k b'0' ++ s) ≡ atoi_loop 0 s
unfolding atoi_loop is_digit
zeros zero s = refl
zeros (suc k) s = zeros k s

fill_nothing : (size c : ℕ) → wanted size ≡ 0 → fill size c ≡ []
fill_nothing size c e = ground arith

append_nil : (s : List ℕ) → s ++ [] ≡ s
append_nil [] = refl
append_nil (c ∷ s) = ap (◌∷◌ c) (append_nil s)

arrange_unpadded :
    (left zeropad : Bool) (sign prefix body : List ℕ) (size n rest : ℕ)
    → wanted size ≡ 0
    → Left size n rest
    → arrange left zeropad sign prefix body rest ≡ sign ++ (prefix ++ body)
unfolding arrange
arrange_unpadded true z sign prefix body size n rest e l =
    rw (fill_nothing rest b' ' (omega (arith, l.now))) (rw (append_nil body) refl)
arrange_unpadded false true sign prefix body size n rest e l =
    rw (fill_nothing rest b'0' (omega (arith, l.now)))
      (rw (fill_nothing (drained rest) b' ' l.once) (rw (append_nil body) refl))
arrange_unpadded false false sign prefix body size n rest e l =
    rw (fill_nothing rest b' ' (omega (arith, l.now))) (
      rw (fill_nothing (drained rest) b' ' l.once)
        (rw (fill_nothing (drained (drained rest)) b' ' l.twice) (rw (append_nil body) refl)))

-- `number` in base 10 of a number that is taken without a sign and with no width: the precision
-- puts zeros before the digits.
pub number_plain :
    (num precision : ℕ) (f : Flags)
    → Moderate precision
    → f.sign ≡ false
    → (k : ℕ) × (number num 10 (2 ^ 32 - 1) precision f
        ≡ some (replicate k b'0' ++ reversed_onto (tmp_digits f.uppercase 10 num) []))
unfolding number layout
number_plain num precision f prec plain =
    let no_sign : sign_bytes f num ≡ [] = unfold sign_bytes in rw plain refl in
    let no_prefix : prefix_bytes f 10 ≡ [] = unfold prefix_bytes in ground arith in
    let same : magnitude f num ≡ num = unfold magnitude in rw plain refl in
    let digits = tmp_digits f.uppercase 10 num in
    let short = length-tmp_digits f.uppercase 10 num in
    let small = modest precision prec in
    let w = digits_width digits precision in
    let e = raised (length digits) precision (omega arith) (fits_word precision prec) in
    let left = sub-Left (2 ^ 32 - 1) w (inr (omega arith)) (omega arith) in
    (
      w - length digits,
      rw no_sign (
          rw no_prefix (
            rw same (
              rw e (
                ap some (
                  arrange_unpadded f.left f.zeropad [] []
                    (replicate (w - length digits) b'0' ++ reversed_onto digits []) (2 ^ 32 - 1) w
                    (sub (2 ^ 32 - 1) w) refl left))))),
    )

pub read_back :
    (k : ℕ) (upper : Bool) (num : ℕ) (rest : List ℕ)
    → num < 2 ^ 64
    → Stops rest
    → skip_atoi ((replicate k b'0' ++ reversed_onto (tmp_digits upper 10 num) []) ++ rest)
      ≡ (num % 2 ^ 32, rest)
unfolding skip_atoi
read_back k upper num rest lt h =
    ap (atoi_loop 0)
      (append_assoc (replicate k b'0') (reversed_onto (tmp_digits upper 10 num) []) rest)
    ∙ zeros k (reversed_onto (tmp_digits upper 10 num) [] ++ rest)
    ∙ ap (atoi_loop 0) (reversed_onto-append (tmp_digits upper 10 num) [] rest)
    ∙ atoi-tmp_digits upper num rest lt
    ∙ atoi-Stops (num % 2 ^ 32) rest h

-- `number` with neither width nor precision.
pub number_unpadded :
    (num base : ℕ) (f : Flags)
    → 2 ≤ base
    → base ≤ 36
    → number num base (2 ^ 32 - 1) (2 ^ 32 - 1) f
      ≡ some (
          sign_bytes f num
          ++ (prefix_bytes f base
              ++ reversed_onto (tmp_digits f.uppercase base (magnitude f num)) []))
unfolding number layout
number_unpadded num base f lo hi =
    let sign = sign_bytes f num in
    let prefix = prefix_bytes f base in
    let digits = tmp_digits f.uppercase base (magnitude f num) in
    let n = length digits in
    let short = length-tmp_digits f.uppercase base (magnitude f num) in
    let s_small = sign_small f num in
    let p_small = prefix_small f base in
    let size' = sub (sub (2 ^ 32 - 1) (length sign)) (length prefix) in
    let e : (if int_less (2 ^ 32 - 1) n then n else 2 ^ 32 - 1) ≡ n =
      raised n (2 ^ 32 - 1) (omega arith) (omega arith) ∙ omega arith in
    let left =
      sub-Left (2 ^ 32 - 1) (length sign + length prefix + n) (inr (omega arith)) (omega arith) in
    let here =
      sub-sub (2 ^ 32 - 1) (length sign) (length prefix) n (omega arith) s_small p_small
        (omega arith) in
    let none_before : replicate {A = ℕ} (n - n) b'0' ≡ [] =
      ap (λ (k : ℕ). replicate {A = ℕ} k b'0') (let z : n - n ≡ 0 = omega arith in z) in
    rw (base_in_range base lo hi) (
      rw e (
        rw none_before (
          rw here (
            ap some (
              arrange_unpadded f.left f.zeropad sign prefix (reversed_onto digits []) (2 ^ 32 - 1)
                (length sign + length prefix + n)
                (sub (2 ^ 32 - 1) (length sign + length prefix + n)) refl left)))))
