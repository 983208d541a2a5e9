-- ===== src/Coremark/Printf/Format.antt =====
-- coremark/multiplix/ee_printf.c: `ee_vsprintf` and `ee_printf`.
pub mod Supplied
pub mod Progress
pub mod Written
pub mod Laws
use multiplix.Prelude.{
  ℕ, zero, suc, ◌+◌, ◌-◌, ◌*◌, ◌/◌, ◌%◌, ◌^◌, Bool, true, false, ◌||◌, Option, none, some, List, [],
  ◌∷◌, ◌++◌, ltb, leb, ◌==◌, not, if◌then◌else◌, length, take, ◌>>=◌,
}
use multiplix.Coremark.Printf.{
  Flags, is_digit, sub, int_less, fill, fill_from, drained_to, strnlen, skip_atoi, atoi_loop,
  number, layout, sign_bytes, prefix_bytes, magnitude, tmp_digits, tmp_loop, digit, reversed_onto,
  eaddr, eaddr_loop, iaddr, iaddr_loop, byte_digits,
}
use multiplix.Coremark.Printf.Fields.{
  Arg, no_flags, minus_one, va_arg, is_flag, add_flag, parse_flags, Field, get_field_width,
  precision_of, get_precision, get_qualifier,
}

-- A directive up to its conversion.
pub record Directive : Type 0 where
  pub flags : Flags
  pub field_width : ℕ
  pub precision : ℕ
  pub long : Bool

-- `while (--field_width > 0)`, as `fill` of the lowered width.
pub put_char : Directive → (c : ℕ) → List ℕ
put_char d c =
    let width = sub d.field_width 1 in
    let width' = if d.flags.left then d.field_width else if int_less 0 width then 0 else width in
    (if d.flags.left then [] else fill width b' ') ++ c ∷ fill (sub width' 1) b' '

-- `(ee_size_t)precision`
pub size_of : ℕ → ℕ
size_of precision = if int_less precision 0 then precision + (2 ^ 64 - 2 ^ 32) else precision

pub put_string : Directive → List ℕ → List ℕ
unfolding strnlen size_of
put_string d s =
    let len = strnlen s (size_of d.precision) in
    let width = if d.flags.left then d.field_width else drained_to len d.field_width in
    (if d.flags.left then [] else fill_from len d.field_width)
    ++ (take len s ++ fill_from len width)

abbrev pub null_bytes : List ℕ
null_bytes = b'<' ∷ b'N' ∷ b'U' ∷ b'L' ∷ b'L' ∷ b'>' ∷ []

-- `(long)` of an `int` argument.
pub sign_extend : ℕ → ℕ
sign_extend x = if ltb x (2 ^ 31) then x else x + (2 ^ 64 - 2 ^ 32)

-- The end of the loop, for the integer conversions.
pub put_number : Directive → (base : ℕ) → List Arg → Option (List ℕ × List Arg)
unfolding va_arg number sign_extend
put_number d base args = va_arg args >>= λ r.
    let num =
      if d.long
      then r.0.slot
      else if d.flags.sign
      then sign_extend (r.0.slot % 2 ^ 32)
      else r.0.slot % 2 ^ 32 in
    number num base d.field_width d.precision d.flags >>= λ out. some (out, r.1)

pub put_address : Directive → List Arg → Option (List ℕ × List Arg)
unfolding va_arg eaddr iaddr
put_address d args = va_arg args >>= λ r.
    (if d.long
      then eaddr r.0.bytes d.field_width d.flags
      else iaddr r.0.bytes d.field_width d.flags)
    >>= λ out. some (out, r.1)

pub put_pointer : Directive → List Arg → Option (List ℕ × List Arg)
unfolding va_arg number
put_pointer d args = va_arg args >>= λ r.
    (if d.field_width == minus_one
      then number r.0.slot 16 16 d.precision (record d.flags { zeropad = true })
      else number r.0.slot 16 d.field_width d.precision d.flags)
    >>= λ out. some (out, r.1)

abbrev pub with_flags : Directive → Flags → Directive
with_flags d f = record d { flags = f }

-- The switch on the conversion.
pub convert : Directive → (c : ℕ) → List Arg → Option (List ℕ × List Arg)
unfolding va_arg put_char put_string put_pointer put_address put_number
convert d c args =
    if c == b'c'
    then (va_arg args >>= λ r. some (put_char d (r.0.slot % 2 ^ 8), r.1))
    else if c == b's'
    then (va_arg args >>= λ r.
        some (put_string d (if r.0.slot == 0 then null_bytes else r.0.bytes), r.1))
    else if c == b'p'
    then put_pointer d args
    else if c == b'A'
    then put_address (with_flags d (record d.flags { uppercase = true })) args
    else if c == b'a'
    then put_address d args
    else if c == b'o'
    then put_number d 8 args
    else if c == b'X'
    then put_number (with_flags d (record d.flags { uppercase = true })) 16 args
    else if c == b'x'
    then put_number d 16 args
    else if c == b'd' || c == b'i'
    then put_number (with_flags d (record d.flags { sign = true })) 10 args
    else if c == b'u'
    then put_number d 10 args
    else some (if c == b'%' then c ∷ [] else b'%' ∷ c ∷ [], args)

-- What a directive writes, and the format and the arguments after it. At the end of the format
-- `--fmt` takes back the step over the terminating 0.
pub directive : (fmt : List ℕ) → List Arg → Option (List ℕ × List ℕ × List Arg)
unfolding parse_flags get_field_width get_precision get_qualifier convert
directive fmt args =
    let (flags, fmt1) = parse_flags fmt no_flags in
    get_field_width flags fmt1 args >>= λ w. get_precision w.flags w.fmt w.args >>= λ p.
    let (long, fmt2) = get_qualifier p.fmt in
    let d : Directive = record {
      flags = p.flags;
      field_width = w.value;
      precision = p.value;
      long = long;
    } in
    elim fmt2 [
      | [] ↦ some (b'%' ∷ [], [], p.args)
      | c ∷ fmt3 ↦ convert d c p.args >>= λ r. some (r.0, fmt3, r.1)
    ]

-- The loop over the format. Each round takes one byte or more, so that the bytes of the format and
-- one round more are enough.
pub data Outcome : Type 0 where
  written : List ℕ → Outcome
  undefined out_of_fuel : Outcome

abbrev pub after : List ℕ → Outcome → Outcome
after out (written rest) = written (out ++ rest)
after out undefined = undefined
after out out_of_fuel = out_of_fuel

-- The rest of the loop after a directive.
abbrev pub resume : (List ℕ → List Arg → Outcome) → Option (List ℕ × List ℕ × List Arg) → Outcome
resume loop none = undefined
resume loop (some (out, fmt, args)) = after out (loop fmt args)

pub format_loop : (fuel : ℕ) → (fmt : List ℕ) → List Arg → Outcome
format_loop zero fmt args = out_of_fuel
format_loop (suc n) [] args = written []
format_loop (suc n) (c ∷ fmt) args = elim (c == b'%') [
  | false ↦ after (c ∷ []) (format_loop n fmt args)
  | true ↦ resume (format_loop n) (directive fmt args)
]

-- The bytes before the terminating 0; the length of them is returned.
unfoldable pub ee_vsprintf : (fmt : List ℕ) → List Arg → Outcome
unfolding format_loop directive
ee_vsprintf fmt args = format_loop (suc (length fmt)) fmt args

-- `while (*p)`: the bytes before the first 0.
pub before_zero : List ℕ → List ℕ
before_zero [] = []
before_zero (c ∷ s) = let rest = before_zero s in if c == 0 then [] else c ∷ rest

-- The bytes that go to the serial line, whose number is returned. A text that with its 0 does not
-- fit `buf` is written past it, which is undefined.
unfoldable pub ee_printf : (fmt : List ℕ) → List Arg → Outcome
unfolding ee_vsprintf before_zero
ee_printf fmt args = elim (ee_vsprintf fmt args) [
  | written s ↦ if leb (length s + 1) 1024 then written (before_zero s) else undefined
  | undefined ↦ undefined
  | out_of_fuel ↦ out_of_fuel
]
