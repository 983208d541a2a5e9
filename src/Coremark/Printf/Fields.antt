-- ===== src/Coremark/Printf/Fields.antt =====
-- coremark/multiplix/ee_printf.c: the flags, the width, the precision and the qualifier of a
-- directive. An argument is the 64 bits of its slot, and for a pointer the bytes that it points to.
use multiplix.Prelude.{
  ℕ, ◌-◌, ◌%◌, ◌^◌, Bool, true, false, ◌||◌, Option, none, some, List, [], ◌∷◌, ◌==◌, if◌then◌else◌,
  ◌>>=◌,
}
use multiplix.Coremark.Printf.{Flags, is_digit, sub, int_less, skip_atoi}

pub record Arg : Type 0 where
  pub slot : ℕ
  pub bytes : List ℕ

abbrev pub no_flags : Flags
no_flags = record {
  zeropad = false;
  sign = false;
  plus = false;
  space = false;
  left = false;
  hex_prep = false;
  uppercase = false;
}

abbrev pub minus_one : ℕ
minus_one = 2 ^ 32 - 1

-- `va_arg`: the next argument and those after it. `none` is an argument that was not passed.
unfoldable pub va_arg : List Arg → Option (Arg × List Arg)
va_arg [] = none
va_arg (a ∷ args) = some (a, args)

-- The switch under `repeat`.
unfoldable pub is_flag : ℕ → Bool
is_flag c = c == b'-' || (c == b'+' || (c == b' ' || (c == b'#' || c == b'0')))

unfoldable pub add_flag : ℕ → Flags → Flags
add_flag c f =
    if c == b'-'
    then record f { left = true }
    else if c == b'+'
    then record f { plus = true }
    else if c == b' '
    then record f { space = true }
    else if c == b'#'
    then record f { hex_prep = true }
    else record f { zeropad = true }

unfoldable pub parse_flags : List ℕ → Flags → Flags × List ℕ
unfolding is_flag add_flag
parse_flags [] f = (f, [])
parse_flags (c ∷ fmt) f =
    let rest = parse_flags fmt (add_flag c f) in if is_flag c then rest else (f, c ∷ fmt)

-- What a field of a directive makes of the format and the arguments after it.
pub record Field : Type 0 where
  pub value : ℕ
  pub flags : Flags
  pub fmt : List ℕ
  pub args : List Arg

unfoldable pub get_field_width : Flags → (fmt : List ℕ) → List Arg → Option Field
unfolding skip_atoi is_digit va_arg
get_field_width f [] args = some (record { value = minus_one; flags = f; fmt = []; args = args })
get_field_width f (c ∷ fmt) args =
    if is_digit c
    then (let n = skip_atoi (c ∷ fmt) in
        some (record { value = n.0; flags = f; fmt = n.1; args = args }))
    else if c == b'*'
    then (va_arg args >>= λ r.
        let width = r.0.slot % 2 ^ 32 in
        some (record {
          value = if int_less width 0 then sub 0 width else width;
          flags = record f { left = f.left || int_less width 0 };
          fmt = fmt;
          args = r.1;
        }))
    else some (record { value = minus_one; flags = f; fmt = c ∷ fmt; args = args })

-- The precision after its point, before it is raised to 0.
unfoldable pub precision_of : Flags → (fmt : List ℕ) → List Arg → Option Field
unfolding skip_atoi is_digit va_arg
precision_of f [] args = some (record { value = minus_one; flags = f; fmt = []; args = args })
precision_of f (c ∷ fmt) args =
    if is_digit c
    then (let n = skip_atoi (c ∷ fmt) in
        some (record { value = n.0; flags = f; fmt = n.1; args = args }))
    else if c == b'*'
    then (va_arg args >>= λ r.
        some (record { value = r.0.slot % 2 ^ 32; flags = f; fmt = fmt; args = r.1 }))
    else some (record { value = minus_one; flags = f; fmt = c ∷ fmt; args = args })

unfoldable pub get_precision : Flags → (fmt : List ℕ) → List Arg → Option Field
unfolding precision_of
get_precision f [] args = some (record { value = minus_one; flags = f; fmt = []; args = args })
get_precision f (c ∷ fmt) args =
    if c == b'.'
    then (precision_of f fmt args >>= λ r.
        some (record r { value = if int_less r.value 0 then 0 else r.value }))
    else some (record { value = minus_one; flags = f; fmt = c ∷ fmt; args = args })

-- Whether the qualifier is `l`, and what follows it; `L` is skipped.
unfoldable pub get_qualifier : List ℕ → Bool × List ℕ
get_qualifier [] = (false, [])
get_qualifier (c ∷ fmt) =
    if c == b'l' then (true, fmt) else if c == b'L' then (false, fmt) else (false, c ∷ fmt)
