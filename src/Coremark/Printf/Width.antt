-- ===== src/Coremark/Printf/Width.antt =====
-- How wide the output of `number` of coremark/multiplix/ee_printf.c is.
use multiplix.Prelude.{
  ℕ, zero, suc, ◌+◌, ◌-◌, ◌/◌, ◌^◌, ◌≤◌, ◌<◌, ◌≡◌, ◌⊎◌, inl, inr, refl, ◌∙◌, ap, arith, Bool, true,
  false, ◌||◌, some, List, [], ◌++◌, ltb, ◌==◌, if◌then◌else◌, length, replicate, length-append,
  length-replicate, max, Bool-cases,
}
use multiplix.Coremark.Printf.{
  Flags, int_less, sub, fill, drained, reversed_onto, layout, arrange, number, sign_bytes,
  prefix_bytes, magnitude, tmp_digits, tmp_loop,
}
use multiplix.Coremark.Printf.Digits.{length-reversed_onto}

-- What a width or a precision asks for: a negative one asks for nothing.
abbrev pub wanted : ℕ → ℕ
wanted x = if int_less 0 x then x else 0

-- An `int` of a size that widths and precisions have.
abbrev pub Moderate : ℕ → Type 0
Moderate x = (x < 2 ^ 29) ⊎ ((2 ^ 32 - 2 ^ 29 ≤ x) × (x < 2 ^ 32))

length-fill : (size c : ℕ) → length (fill size c) ≡ wanted size
length-fill size c = elim (Bool-cases (int_less 0 size)) [
  | inl e ↦ rw e (length-replicate size c)
  | inr e ↦ rw e refl
]

-- `size` int_less what has been written, and what the loops leave of it.
pub record Left (size n rest : ℕ) : Type 0 where
  pub now : wanted rest ≡ wanted size - n
  pub once : wanted (drained rest) ≡ 0
  pub twice : wanted (drained (drained rest)) ≡ 0

pub sub-Left : (size n : ℕ) → Moderate size → n < 2 ^ 30 → Left size n (sub size n)
sub-Left size n (inl h) lt = record {
  now = ground arith;
  once = ground arith;
  twice = ground arith;
}
sub-Left size n (inr h) lt = record {
  now = ground arith;
  once = ground arith;
  twice = ground arith;
}

-- The digits and what the precision puts before them.
abbrev pub digits_width : List ℕ → ℕ → ℕ
digits_width digits precision = max (length digits) (wanted precision)

pub raised :
    (n precision : ℕ)
    → n < 2 ^ 31
    → precision < 2 ^ 32
    → (if int_less precision n then n else precision) ≡ max n (wanted precision)
raised n precision lt fits = ground arith

length-arrange :
    (left zeropad : Bool) (sign prefix body : List ℕ) (size rest n : ℕ)
    → Left size n rest
    → length (arrange left zeropad sign prefix body rest)
      ≡ length sign + (length prefix + length body) + (wanted size - n)
unfolding arrange
length-arrange true z sign prefix body size rest n l =
    omega (arith, l.now, length-append {0}, length-fill)
length-arrange false true sign prefix body size rest n l =
    omega (arith, l.now, l.once, length-append {0}, length-fill)
length-arrange false false sign prefix body size rest n l =
    omega (arith, l.now, l.once, l.twice, length-append {0}, length-fill)

pub length_body :
    (n : ℕ) (digits : List ℕ)
    → length digits ≤ n
    → length (replicate (n - length digits) b'0' ++ reversed_onto digits []) ≡ n
length_body n digits le =
    omega (arith, length-append {0}, length-replicate {0}, length-reversed_onto)

length-layout :
    (f : Flags) (sign prefix digits : List ℕ) (size size' precision n : ℕ)
    → length digits < 2 ^ 29
    → precision < 2 ^ 32
    → Left size n (sub size' (digits_width digits precision))
    → length (layout f sign prefix digits size' precision)
      ≡ length sign + (length prefix + digits_width digits precision) + (wanted size - n)
unfolding layout
length-layout f sign prefix digits size size' precision n lt fits l =
    let w = digits_width digits precision in
    let e = raised (length digits) precision (omega arith) fits in
    rw e (
      length-arrange f.left f.zeropad sign prefix
        (replicate (w - length digits) b'0' ++ reversed_onto digits []) size (sub size' w) n l
      ∙ ap (λ (z : ℕ). length sign + (length prefix + z) + (wanted size - n))
          (length_body w digits (omega arith)))

length-tmp_loop : (n : ℕ) (upper : Bool) (base num : ℕ) → length (tmp_loop n upper base num) ≤ n
unfolding tmp_loop
length-tmp_loop zero upper base num = omega arith
length-tmp_loop (suc n) upper base num = ground (arith, length-tmp_loop n upper base (num / base))

-- The digits fit `tmp[66]`.
pub length-tmp_digits : (upper : Bool) (base num : ℕ) → length (tmp_digits upper base num) ≤ 64
unfolding tmp_digits
length-tmp_digits upper base num = elim (Bool-cases (num == 0)) [
  | inl e ↦ rw e (omega arith)
  | inr e ↦ rw e (length-tmp_loop 64 upper base num)
]

pub sign_small : (f : Flags) (num : ℕ) → length (sign_bytes f num) ≤ 1
unfolding sign_bytes
sign_small f num = ground arith

pub prefix_small : (f : Flags) (base : ℕ) → length (prefix_bytes f base) ≤ 2
unfolding prefix_bytes
prefix_small f base = ground arith

pub sub-sub :
    (size s p w : ℕ)
    → size < 2 ^ 32
    → s ≤ 1
    → p ≤ 2
    → w < 2 ^ 29
    → sub (sub (sub size s) p) w ≡ sub size (s + p + w)
sub-sub size s p w fits hs hp hw = omega arith

-- The bytes that the number needs.
abbrev pub needed : (num base precision : ℕ) → Flags → ℕ
needed num base precision f =
    length (sign_bytes f num)
    + length (prefix_bytes f base)
    + digits_width (tmp_digits f.uppercase base (magnitude f num)) precision

pub fits_word : (x : ℕ) → Moderate x → x < 2 ^ 32
fits_word x (inl h) = omega arith
fits_word x (inr h) = omega arith

pub modest : (x : ℕ) → Moderate x → wanted x < 2 ^ 29
modest x (inl h) = ground arith
modest x (inr h) = ground arith

pub base_in_range : (base : ℕ) → 2 ≤ base → base ≤ 36 → (ltb base 2 || ltb 36 base) ≡ false
base_in_range base lo hi = ground arith

-- For a base from 2 to 36, and a width and a precision of int_less than 2^29 in absolute value,
-- `number` writes exactly as many bytes as the larger of the width and what the number needs: its
-- sign, its prefix, and its digits or the precision if that is more; a negative width or precision
-- counts as 0.
pub length-number :
    (num base size precision : ℕ) (f : Flags)
    → 2 ≤ base
    → base ≤ 36
    → Moderate size
    → Moderate precision
    → (out : List ℕ) × (number num base size precision f ≡ some out)
      × (length out ≡ max (wanted size) (needed num base precision f))
unfolding number
length-number num base size precision f lo hi width prec =
    let sign = sign_bytes f num in
    let prefix = prefix_bytes f base in
    let digits = tmp_digits f.uppercase base (magnitude f num) in
    let w = digits_width digits precision in
    let short = length-tmp_digits f.uppercase base (magnitude f num) in
    let small = modest precision prec in
    let s_small = sign_small f num in
    let p_small = prefix_small f base in
    let size' = sub (sub size (length sign)) (length prefix) in
    let left = sub-Left size (length sign + length prefix + w) width (omega arith) in
    let e =
      sub-sub size (length sign) (length prefix) w (fits_word size width) s_small p_small
        (omega arith) in
    (
      layout f sign prefix digits size' precision,
      rw (base_in_range base lo hi) refl,
      length-layout f sign prefix digits size size' precision (length sign + length prefix + w)
            (omega arith) (fits_word precision prec) (rw e left)
          ∙ omega arith,
    )
