-- ===== src/Coremark/Printf/Format/Progress.antt =====
-- The loop over the format in `ee_vsprintf` of coremark/multiplix/ee_printf.c goes on.
use multiplix.Prelude.{
  ℕ, zero, suc, ◌+◌, ◌-◌, ◌*◌, ◌%◌, ◌^◌, ◌≤◌, ◌<◌, ◌≢◌, inl, inr, refl, arith, Bool, true, false,
  Option, some, none, List, [], ◌∷◌, ◌==◌, if◌then◌else◌, length, Bool-cases, ◌>>=◌,
}
use multiplix.Coremark.Printf.{Flags, is_digit, atoi_loop, skip_atoi}
use multiplix.Coremark.Printf.Fields.{
  Arg, Field, is_flag, add_flag, parse_flags, get_field_width, precision_of, get_precision,
  get_qualifier, va_arg, no_flags,
}
use multiplix.Coremark.Printf.Format.{
  Directive, Outcome, written, undefined, out_of_fuel, after, resume, convert, directive,
  format_loop, ee_vsprintf,
}

pub flags_rest : (fmt : List ℕ) (f : Flags) → length (parse_flags fmt f).1 ≤ length fmt
unfolding parse_flags
flags_rest [] f = omega arith
flags_rest (c ∷ fmt) f = elim (Bool-cases (is_flag c)) [
  | inl e ↦ rw e (omega (arith, flags_rest fmt (add_flag c f)))
  | inr e ↦ rw e (omega arith)
]

pub atoi_rest : (i : ℕ) (s : List ℕ) → length (atoi_loop i s).1 ≤ length s
unfolding atoi_loop
atoi_rest i [] = omega arith
atoi_rest i (c ∷ s) = elim (Bool-cases (is_digit c)) [
  | inl e ↦ rw e (omega (arith, atoi_rest ((i * 10 + c + (2 ^ 32 - b'0')) % 2 ^ 32) s))
  | inr e ↦ rw e (omega arith)
]

-- The format that a field leaves is no longer than `n`.
abbrev Within : ℕ → Option Field → Type 0
Within n none = Unit {0}
Within n (some r) = length r.fmt ≤ n

arg-Within :
    (n : ℕ) (args : List Arg) (k : Arg × List Arg → Option Field)
    → ((r : Arg × List Arg) → Within n (k r))
    → Within n (va_arg args >>= k)
unfolding va_arg
arg-Within n [] k h = tt
arg-Within n (a ∷ args) k h = h (a, args)

if_Within :
    (n : ℕ) (b : Bool) (r s : Option Field)
    → Within n r
    → Within n s
    → Within n (if b then r else s)
if_Within n true r s h h' = h
if_Within n false r s h h' = h'

width_rest :
    (f : Flags) (fmt : List ℕ) (args : List Arg) → Within (length fmt) (get_field_width f fmt args)
unfolding get_field_width skip_atoi
width_rest f [] args = omega arith
width_rest f (c ∷ fmt) args =
    if_Within (suc (length fmt)) (is_digit c) _ _ (atoi_rest 0 (c ∷ fmt)) (
      if_Within (suc (length fmt)) (c == b'*') _ _
        (arg-Within (suc (length fmt)) args _ (λ r. omega arith)) (omega arith))

precision_rest :
    (f : Flags) (fmt : List ℕ) (args : List Arg) → Within (length fmt) (precision_of f fmt args)
unfolding precision_of skip_atoi
precision_rest f [] args = omega arith
precision_rest f (c ∷ fmt) args =
    if_Within (suc (length fmt)) (is_digit c) _ _ (atoi_rest 0 (c ∷ fmt)) (
      if_Within (suc (length fmt)) (c == b'*') _ _
        (arg-Within (suc (length fmt)) args _ (λ r. omega arith)) (omega arith))

raise-Within :
    (n : ℕ) (o : Option Field) (g : Field → ℕ)
    → Within n o
    → Within (suc n) (o >>= λ r. some (record r { value = g r }))
raise-Within n none g h = tt
raise-Within n (some r) g h = omega (arith, h)

get_precision_rest :
    (f : Flags) (fmt : List ℕ) (args : List Arg) → Within (length fmt) (get_precision f fmt args)
unfolding get_precision
get_precision_rest f [] args = omega arith
get_precision_rest f (c ∷ fmt) args =
    if_Within (suc (length fmt)) (c == b'.') _ _
      (raise-Within (length fmt) (precision_of f fmt args) _ (precision_rest f fmt args))
      (omega arith)

pub qualifier_rest : (fmt : List ℕ) → length (get_qualifier fmt).1 ≤ length fmt
unfolding get_qualifier
qualifier_rest [] = omega arith
qualifier_rest (c ∷ fmt) = ground arith

-- What a directive leaves.
abbrev pub Leaves : ℕ → Option (List ℕ × List ℕ × List Arg) → Type 0
Leaves n none = Unit {0}
Leaves n (some (out, fmt, args)) = length fmt ≤ n

Leaves-field :
    (n : ℕ) (o : Option Field) (k : Field → Option (List ℕ × List ℕ × List Arg))
    → Within n o
    → ((r : Field) → length r.fmt ≤ n → Leaves n (k r))
    → Leaves n (o >>= k)
Leaves-field n none k h step = tt
Leaves-field n (some r) k h step = step r h

Leaves-rest :
    (n : ℕ) (o : Option (List ℕ × List Arg)) (fmt : List ℕ)
    → length fmt ≤ n
    → Leaves n (o >>= λ r. some (r.0, fmt, r.1))
Leaves-rest n none fmt h = tt
Leaves-rest n (some r) fmt h = h

Within-le : (n m : ℕ) (o : Option Field) → n ≤ m → Within n o → Within m o
Within-le n m none le h = tt
Within-le n m (some r) le h = omega (arith, h)

finish :
    (n : ℕ) (d : Directive) (args : List Arg) (fmt : List ℕ)
    → length fmt ≤ n
    → Leaves n (elim fmt [
      | [] ↦ some (b'%' ∷ [], [], args)
      | c ∷ fmt3 ↦ convert d c args >>= λ r. some (r.0, fmt3, r.1)
    ])
finish n d args [] h = omega arith
finish n d args (c ∷ fmt) h = Leaves-rest n (convert d c args) fmt (omega arith)

pub directive_rest : (fmt : List ℕ) (args : List Arg) → Leaves (length fmt) (directive fmt args)
unfolding directive
directive_rest fmt args =
    let n = length fmt in
    let flags = parse_flags fmt no_flags in
    let e = flags_rest fmt no_flags in
    Leaves-field n (get_field_width flags.0 flags.1 args) _
      (Within-le (length flags.1) n (get_field_width flags.0 flags.1 args) e
        (width_rest flags.0 flags.1 args))
      (λ w hw.
        Leaves-field n (get_precision w.flags w.fmt w.args) _
          (Within-le (length w.fmt) n (get_precision w.flags w.fmt w.args) hw
            (get_precision_rest w.flags w.fmt w.args))
          (λ p hp.
            finish n
              (record {
                flags = p.flags;
                field_width = w.value;
                precision = p.value;
                long = (get_qualifier p.fmt).0;
              })
              p.args (get_qualifier p.fmt).1 (omega (arith, hp, qualifier_rest p.fmt))))

pub after_fuel : (out : List ℕ) (o : Outcome) → o ≢ out_of_fuel → after out o ≢ out_of_fuel
after_fuel out (written s) h = cc
after_fuel out undefined h = cc
after_fuel out out_of_fuel h = absurd (h refl)

resume_total :
    (n m : ℕ) (o : Option (List ℕ × List ℕ × List Arg))
    → Leaves m o
    → ((fmt : List ℕ) (args : List Arg) → length fmt ≤ m → format_loop n fmt args ≢ out_of_fuel)
    → resume (format_loop n) o ≢ out_of_fuel
resume_total n m none l h = cc
resume_total n m (some (out, fmt, args)) l h =
    after_fuel out (format_loop n fmt args) (h fmt args l)

pub format_total :
    (n : ℕ) (fmt : List ℕ) (args : List Arg) → length fmt < n → format_loop n fmt args ≢ out_of_fuel
unfolding format_loop
format_total zero fmt args h = absurd (omega arith)
format_total (suc n) [] args h = cc
format_total (suc n) (c ∷ fmt) args h = elim (Bool-cases (c == b'%')) [
  | inr e ↦
      rw (e, format_loop)
        (after_fuel (c ∷ []) (format_loop n fmt args) (format_total n fmt args (omega arith)))
  | inl e ↦
      rw (e, format_loop)
        (resume_total n (length fmt) (directive fmt args) (directive_rest fmt args)
          (λ fmt' args' le. format_total n fmt' args' (omega arith)))
]

-- `ee_vsprintf` ends on every format, whatever the arguments: the rounds of the loop, one for
-- each byte of the format and one more, do not run out.
pub ee_vsprintf-total : (fmt : List ℕ) (args : List Arg) → ee_vsprintf fmt args ≢ out_of_fuel
unfolding ee_vsprintf
ee_vsprintf-total fmt args = format_total (suc (length fmt)) fmt args (omega arith)
