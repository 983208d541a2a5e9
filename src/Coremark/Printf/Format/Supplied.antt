-- ===== src/Coremark/Printf/Format/Supplied.antt =====
-- The fields and conversions of coremark/multiplix/ee_printf.c where the arguments suffice.
use multiplix.Prelude.{
  ℕ, zero, suc, ◌+◌, ◌-◌, ◌^◌, ◌≤◌, ◌≡◌, ◌⊎◌, ltb, inl, inr, refl, arith, Bool, true, false, Option,
  some, none, List, [], ◌∷◌, ◌==◌, ◌||◌, if◌then◌else◌, length, Bool-cases, ◌>>=◌,
}
use multiplix.Coremark.Printf.{
  Flags, is_digit, skip_atoi, number, eaddr, eaddr_loop, iaddr, iaddr_loop,
}
use multiplix.Coremark.Printf.Fields.{
  Arg, Field, get_field_width, precision_of, get_precision, va_arg,
}
use multiplix.Coremark.Printf.Format.{
  Directive, with_flags, convert, put_number, put_address, put_pointer,
}
use multiplix.Coremark.Printf.Format.Progress.{atoi_rest}

-- What every argument points to has the 6 bytes of an address.
abbrev pub AllAddresses : List Arg → Type 0
AllAddresses [] = Unit {0}
AllAddresses (a ∷ args) = (6 ≤ length a.bytes) × AllAddresses args

-- An argument for each byte of the format.
abbrev pub Enough : List ℕ → List Arg → Type 0
Enough fmt args = (length fmt ≤ length args) × AllAddresses args

abbrev pub FieldGoes : Option Field → Type 0
FieldGoes none = 1 ≤ 0
FieldGoes (some r) = Enough r.fmt r.args

if_FieldGoes :
    (b : Bool) (r s : Option Field) → FieldGoes r → FieldGoes s → FieldGoes (if b then r else s)
if_FieldGoes true r s h h' = h
if_FieldGoes false r s h h' = h'

pub width_goes :
    (f : Flags) (fmt : List ℕ) (args : List Arg)
    → Enough fmt args
    → FieldGoes (get_field_width f fmt args)
unfolding get_field_width skip_atoi va_arg
width_goes f [] args h = h
width_goes f (c ∷ fmt) [] (le, h) = absurd (omega arith)
width_goes f (c ∷ fmt) (a ∷ args) (le, (long, h)) =
    if_FieldGoes (is_digit c) _ _ (omega (arith, atoi_rest 0 (c ∷ fmt)), (long, h))
      (if_FieldGoes (c == b'*') _ _ (omega arith, h) (le, (long, h)))

precision_goes :
    (f : Flags) (fmt : List ℕ) (args : List Arg)
    → Enough fmt args
    → FieldGoes (precision_of f fmt args)
unfolding precision_of skip_atoi va_arg
precision_goes f [] args h = h
precision_goes f (c ∷ fmt) [] (le, h) = absurd (omega arith)
precision_goes f (c ∷ fmt) (a ∷ args) (le, (long, h)) =
    if_FieldGoes (is_digit c) _ _ (omega (arith, atoi_rest 0 (c ∷ fmt)), (long, h))
      (if_FieldGoes (c == b'*') _ _ (omega arith, h) (le, (long, h)))

raise_goes :
    (o : Option Field) (g : Field → ℕ)
    → FieldGoes o
    → FieldGoes (o >>= λ r. some (record r { value = g r }))
raise_goes none g h = absurd (omega arith)
raise_goes (some r) g h = h

pub get_precision_goes :
    (f : Flags) (fmt : List ℕ) (args : List Arg)
    → Enough fmt args
    → FieldGoes (get_precision f fmt args)
unfolding get_precision
get_precision_goes f [] args h = h
get_precision_goes f (c ∷ fmt) args (le, h) =
    if_FieldGoes (c == b'.') _ _
      (raise_goes (precision_of f fmt args) _ (precision_goes f fmt args (omega arith, h))) (le, h)

-- What a conversion leaves of the arguments.
abbrev pub Converts : (a : Arg) (args : List Arg) → Option (List ℕ × List Arg) → Type 0
Converts a args none = 1 ≤ 0
Converts a args (some (out, left)) = (left ≡ args) ⊎ (left ≡ a ∷ args)

if_Converts :
    (a : Arg) (args : List Arg) (b : Bool) (r s : Option (List ℕ × List Arg))
    → Converts a args r
    → Converts a args s
    → Converts a args (if b then r else s)
if_Converts a args true r s h h' = h
if_Converts a args false r s h h' = h'

-- A conversion that takes one argument and writes a text.
takes_one :
    (a : Arg) (args : List Arg) (o : Option (List ℕ))
    → (out : List ℕ) × (o ≡ some out)
    → Converts a args (o >>= λ out. some (out, args))
takes_one a args o (out, e) = rw e (inl refl)

number_runs :
    (num base size precision : ℕ) (f : Flags)
    → (ltb base 2 || ltb 36 base) ≡ false
    → (out : List ℕ) × (number num base size precision f ≡ some out)
unfolding number
number_runs num base size precision f e = rw e (_, refl)

eaddr_loop_runs :
    (n i : ℕ) (upper : Bool) (addr : List ℕ)
    → n ≤ length addr
    → (out : List ℕ) × (eaddr_loop n i upper addr ≡ some out)
unfolding eaddr_loop
eaddr_loop_runs zero i upper addr le = ([], refl)
eaddr_loop_runs (suc n) i upper [] le = absurd (omega arith)
eaddr_loop_runs (suc n) i upper (a ∷ addr) le =
    let (rest, e) = eaddr_loop_runs n (i + 1) upper addr (omega arith) in rw e (_, refl)

iaddr_loop_runs :
    (n i : ℕ) (addr : List ℕ) → n ≤ length addr → (out : List ℕ) × (iaddr_loop n i addr ≡ some out)
unfolding iaddr_loop
iaddr_loop_runs zero i addr le = ([], refl)
iaddr_loop_runs (suc n) i [] le = absurd (omega arith)
iaddr_loop_runs (suc n) i (a ∷ addr) le =
    let (rest, e) = iaddr_loop_runs n (i + 1) addr (omega arith) in rw e (_, refl)

address_runs :
    (long : Bool) (addr : List ℕ) (size : ℕ) (f : Flags)
    → 6 ≤ length addr
    → (out : List ℕ) × ((if long then eaddr addr size f else iaddr addr size f) ≡ some out)
unfolding eaddr iaddr
address_runs true addr size f le =
    let (out, e) = eaddr_loop_runs 6 0 f.uppercase addr le in rw e (_, refl)
address_runs false addr size f le =
    let (out, e) = iaddr_loop_runs 4 0 addr (omega arith) in rw e (_, refl)

number-Converts :
    (d : Directive) (base : ℕ) (a : Arg) (args : List Arg)
    → (ltb base 2 || ltb 36 base) ≡ false
    → Converts a args (put_number d base (a ∷ args))
unfolding put_number va_arg
number-Converts d base a args e =
    takes_one a args _ (number_runs _ base d.field_width d.precision d.flags e)

pointer-Converts :
    (d : Directive) (a : Arg) (args : List Arg) → Converts a args (put_pointer d (a ∷ args))
unfolding put_pointer va_arg
pointer-Converts d a args = elim (Bool-cases (d.field_width == 2 ^ 32 - 1)) [
  | inl e ↦ rw e (
      takes_one a args _
        (number_runs a.slot 16 16 d.precision (record d.flags { zeropad = true }) refl))
  | inr e ↦ rw e (takes_one a args _ (number_runs a.slot 16 d.field_width d.precision d.flags refl))
]

address-Converts :
    (d : Directive) (a : Arg) (args : List Arg)
    → 6 ≤ length a.bytes
    → Converts a args (put_address d (a ∷ args))
unfolding put_address va_arg
address-Converts d a args le =
    takes_one a args _ (address_runs d.long a.bytes d.field_width d.flags le)

pub convert-Converts :
    (d : Directive) (c : ℕ) (a : Arg) (args : List Arg)
    → 6 ≤ length a.bytes
    → Converts a args (convert d c (a ∷ args))
unfolding convert va_arg
convert-Converts d c a args le = if_Converts a args (c == b'c') _ _ (inl refl) (
    if_Converts a args (c == b's') _ _ (inl refl) (
      if_Converts a args (c == b'p') _ _ (pointer-Converts d a args) (
        if_Converts a args (c == b'A') _ _
          (address-Converts (with_flags d (record d.flags { uppercase = true })) a args le)
          (if_Converts a args (c == b'a') _ _ (address-Converts d a args le) (
            if_Converts a args (c == b'o') _ _ (number-Converts d 8 a args refl) (
              if_Converts a args (c == b'X') _ _
                (number-Converts (with_flags d (record d.flags { uppercase = true })) 16 a args
                  refl)
                (if_Converts a args (c == b'x') _ _ (number-Converts d 16 a args refl) (
                  if_Converts a args (c == b'd' || c == b'i') _ _
                    (number-Converts (with_flags d (record d.flags { sign = true })) 10 a args refl)
                    (if_Converts a args (c == b'u') _ _ (number-Converts d 10 a args refl)
                      (inr refl))))))))))
