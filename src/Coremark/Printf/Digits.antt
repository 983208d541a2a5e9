-- ===== src/Coremark/Printf/Digits.antt =====
-- The digits that `number` of coremark/multiplix/ee_printf.c puts into `tmp`.
use native.Mathlib.Nat.{div-add-mod', div-lt_iff_lt-mul, mod-lt}
use multiplix.Prelude.{
  ℕ, zero, suc, ◌+◌, ◌-◌, ◌*◌, ◌/◌, ◌%◌, ◌^◌, ◌≤◌, ◌<◌, ◌≡◌, refl, ◌∙◌, ap, arith, Bool, true,
  false, List, [], ◌∷◌, ◌++◌, leb, ◌==◌, if◌then◌else◌, length, Bool-cases, inl, inr,
}
use multiplix.Coremark.Printf.{digit, tmp_loop, reversed_onto}

-- The value of a digit in either case, and of digits behind `acc`.
abbrev pub digit_value : ℕ → ℕ
digit_value c = if leb c b'9' then c - b'0' else if leb b'a' c then c - b'a' + 10 else c - b'A' + 10

abbrev pub value : (base acc : ℕ) → List ℕ → ℕ
value base acc [] = acc
value base acc (c ∷ s) = value base (acc * base + digit_value c) s

digit_value-digit : (upper : Bool) (d : ℕ) → d < 36 → digit_value (digit upper d) ≡ d
unfolding digit
digit_value-digit true d h = ground arith
digit_value-digit false d h = ground arith

pub length-reversed_onto : (s out : List ℕ) → length (reversed_onto s out) ≡ length s + length out
unfolding reversed_onto
length-reversed_onto [] out = omega arith
length-reversed_onto (c ∷ s) out = omega (arith, length-reversed_onto s (c ∷ out))

pub reversed_onto-append :
    (s out rest : List ℕ) → reversed_onto s out ++ rest ≡ reversed_onto s (out ++ rest)
unfolding reversed_onto
reversed_onto-append [] out rest = refl
reversed_onto-append (c ∷ s) out rest = reversed_onto-append s (c ∷ out) rest

div_below : (base num n : ℕ) → 2 ≤ base → num < 2 * n → num / base < n
div_below base num n h lt =
    grind (arith, div-lt_iff_lt-mul {k = base} {x = num} {y = n} (omega arith))

double : (n : ℕ) → 2 ^ suc n ≡ 2 * 2 ^ n
double n = omega arith

pub loop_value :
    (n : ℕ) (upper : Bool) (base num : ℕ) (out : List ℕ)
    → 2 ≤ base
    → base ≤ 36
    → num < 2 ^ n
    → value base 0 (reversed_onto (tmp_loop n upper base num) out) ≡ value base num out
unfolding tmp_loop reversed_onto
loop_value zero upper base num out lo hi lt = ap (λ (z : ℕ). value base z out) (omega arith)
loop_value (suc n) upper base num out lo hi lt = elim (Bool-cases (num == 0)) [
  | inl e ↦ rw e (ap (λ (z : ℕ). value base z out) (ground arith))
  | inr ne ↦ rw ne (
      loop_value n upper base (num / base) (digit upper (num % base) ∷ out) lo hi
        (div_below base num (2 ^ n) lo (omega (arith, double n)))
      ∙ ap (λ (z : ℕ). value base z out)
          (ap (λ (z : ℕ). num / base * base + z)
              (digit_value-digit upper (num % base)
                (omega (arith, mod-lt num {m = base} (omega arith))))
            ∙ div-add-mod' num base))
]
