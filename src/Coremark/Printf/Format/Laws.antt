-- ===== src/Coremark/Printf/Format/Laws.antt =====
-- What `ee_vsprintf` of coremark/multiplix/ee_printf.c writes.
use mathlib.Core.List.{append_assoc}
use multiplix.Prelude.{
  ℕ, zero, suc, ◌%◌, ◌^◌, ◌≤◌, ◌<◌, ◌≡◌, inl, inr, refl, sym, ◌∙◌, ap, arith, false, Option, some,
  none, List, [], ◌∷◌, ◌++◌, ◌==◌, replicate, length, Bool-cases, ◌>>=◌,
}
use multiplix.Coremark.Printf.{skip_atoi, number, reversed_onto, tmp_digits}
use multiplix.Coremark.Printf.Laws.{Stops, number_plain, read_back}
use multiplix.Coremark.Printf.Fields.{Arg, no_flags, minus_one}
use multiplix.Coremark.Printf.Format.{
  Outcome, written, undefined, out_of_fuel, after, resume, directive, format_loop, ee_vsprintf,
}
use multiplix.Coremark.Printf.Format.Progress.{Leaves, directive_rest}

-- Text without a directive.
abbrev pub Plain : List ℕ → Type 0
Plain [] = Unit {0}
Plain (c ∷ s) = ((c == b'%') ≡ false) × Plain s

after_nil : (o : Outcome) → after [] o ≡ o
after_nil (written s) = refl
after_nil undefined = refl
after_nil out_of_fuel = refl

after_append : (a b : List ℕ) (o : Outcome) → after a (after b o) ≡ after (a ++ b) o
after_append a b (written s) = ap written (sym (append_assoc a b s))
after_append a b undefined = refl
after_append a b out_of_fuel = refl

-- Text in which no directive begins is copied to the output, and the rest of the format goes on
-- with the same arguments.
pub ee_vsprintf-append :
    (a b : List ℕ) (args : List Arg)
    → Plain a
    → ee_vsprintf (a ++ b) args ≡ after a (ee_vsprintf b args)
unfolding ee_vsprintf
ee_vsprintf-append [] b args h = sym (after_nil (ee_vsprintf b args))
ee_vsprintf-append (c ∷ a) b args (e, h) =
    rw (e, format_loop)
      (ap (after (c ∷ [])) (ee_vsprintf-append a b args h)
        ∙ after_append (c ∷ []) a (ee_vsprintf b args))

resume_more :
    (n m : ℕ) (o : Option (List ℕ × List ℕ × List Arg))
    → Leaves m o
    → ((fmt : List ℕ) (args : List Arg)
        → length fmt ≤ m
        → format_loop n fmt args ≡ format_loop (suc n) fmt args)
    → resume (format_loop n) o ≡ resume (format_loop (suc n)) o
resume_more n m none l h = refl
resume_more n m (some (out, fmt, args)) l h = ap (after out) (h fmt args l)

-- More fuel than enough changes nothing.
format_more :
    (n : ℕ) (fmt : List ℕ) (args : List Arg)
    → length fmt < n
    → format_loop n fmt args ≡ format_loop (suc n) fmt args
unfolding format_loop
format_more zero fmt args h = absurd (omega arith)
format_more (suc n) [] args h = refl
format_more (suc n) (c ∷ fmt) args h = elim (Bool-cases (c == b'%')) [
  | inr e ↦ rw (e, format_loop) (ap (after (c ∷ [])) (format_more n fmt args (omega arith)))
  | inl e ↦
      rw (e, format_loop)
        (resume_more n (length fmt) (directive fmt args) (directive_rest fmt args)
          (λ fmt' args' le. format_more n fmt' args' (omega arith)))
]

u_directive :
    (b : List ℕ) (x : Arg) (args : List Arg)
    → directive (b'u' ∷ b) (x ∷ args)
      ≡ (number (x.slot % 2 ^ 32) 10 minus_one minus_one no_flags >>= λ out. some (out, b, args))
unfolding directive
u_directive b x args = refl

-- A number printed by `%u` behind text without directives is read back by `skip_atoi` as its low 32
-- bits, where what the rest of the format prints does not begin with a digit; `skip_atoi` stops
-- there, and text and rest are printed as they are without the number.
pub ee_vsprintf-skip_atoi :
    (a b : List ℕ) (x : Arg) (args : List Arg) (r : List ℕ)
    → Plain a
    → ee_vsprintf b args ≡ written r
    → Stops r
    → (s : List ℕ) × (ee_vsprintf (a ++ b'%' ∷ b'u' ∷ b) (x ∷ args) ≡ written (a ++ s))
      × (skip_atoi s ≡ (x.slot % 2 ^ 32, r))
unfolding ee_vsprintf format_loop
ee_vsprintf-skip_atoi a b x args r plain rest stops =
    let num = x.slot % 2 ^ 32 in
    let (k, printed) = number_plain num minus_one no_flags (inr (omega arith)) refl in
    let text = replicate k b'0' ++ reversed_onto (tmp_digits false 10 num) [] in
    let step : directive (b'u' ∷ b) (x ∷ args) ≡ some (text, b, args) =
      u_directive b x args
      ∙ ap (λ (o : Option (List ℕ)). o >>= λ out. some (out, b, args)) printed in
    let more = format_more (suc (length b)) b args (omega arith) in
    (
      text ++ r,
      ee_vsprintf-append a (b'%' ∷ b'u' ∷ b) (x ∷ args) plain
          ∙ ap (after a) (
              ap (resume (format_loop (suc (suc (length b))))) step
              ∙ ap (after text) (sym more ∙ rest)),
      read_back k false num r (omega arith) stops ∙ ap (λ (z : ℕ). (z, r)) (omega arith),
    )
