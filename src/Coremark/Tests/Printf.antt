-- ===== src/Coremark/Tests/Printf.antt =====
-- Runs of the model of coremark/multiplix/ee_printf.c and of `parseval` on small inputs.
use multiplix.Prelude.{
  ℕ, ◌+◌, ◌-◌, ◌%◌, ◌^◌, ◌≡◌, ◌≢◌, refl, arith, inl, true, some, List, [], ◌∷◌, length, max,
}
use multiplix.Coremark.Printf.{Flags, is_digit, number, reversed_onto, tmp_digits, skip_atoi}
use multiplix.Coremark.Printf.Digits.{value}
use multiplix.Coremark.Printf.Width.{wanted, needed, length-number}
use multiplix.Coremark.Printf.Laws.{tmp_digits-value}
use multiplix.Coremark.Printf.Fields.{Arg, no_flags}
use multiplix.Coremark.Printf.Format.{written, out_of_fuel, after, ee_vsprintf, ee_printf}
use multiplix.Coremark.Printf.Format.Progress.{ee_vsprintf-total}
use multiplix.Coremark.Printf.Format.Laws.{ee_vsprintf-append, ee_vsprintf-skip_atoi}
use multiplix.Coremark.Parseval.{parseval}
use multiplix.Coremark.Parseval.Laws.{parseval-number, parseval_hex}

abbrev signed : Flags
signed = record no_flags { sign = true }

abbrev prefixed : Flags
prefixed = record no_flags { hex_prep = true }

length-number_example :
    (out : List ℕ) × (number (2 ^ 64 - 45) 10 6 3 signed ≡ some out)
    × (length out ≡ max (wanted 6) (needed (2 ^ 64 - 45) 10 3 signed))
length-number_example =
    length-number (2 ^ 64 - 45) 10 6 3 signed (omega arith) (omega arith) (inl (omega arith))
      (inl (omega arith))

tmp_digits-value_example : value 16 0 (reversed_onto (tmp_digits true 16 0xbeef) []) ≡ 0xbeef
tmp_digits-value_example = tmp_digits-value true 16 0xbeef (omega arith) (omega arith) (omega arith)

-- `%d` with two arguments too many.
abbrev args : List Arg
args = record { slot = 42; bytes = [] } ∷ record { slot = 0; bytes = [] } ∷ []

abbrev directive_d : List ℕ
directive_d = b'%' ∷ b'd' ∷ []

ee_vsprintf-total_example : ee_vsprintf directive_d args ≢ out_of_fuel
ee_vsprintf-total_example = ee_vsprintf-total directive_d args

-- `%la`, with three arguments of six bytes.
abbrev addresses : List Arg
addresses =
    let a : Arg = record { slot = 4096; bytes = 1 ∷ 2 ∷ 3 ∷ 4 ∷ 5 ∷ 255 ∷ [] } in a ∷ a ∷ a ∷ []

ee_vsprintf-append_example :
    ee_vsprintf (b'n' ∷ b'=' ∷ b'%' ∷ b'd' ∷ []) args
    ≡ after (b'n' ∷ b'=' ∷ []) (ee_vsprintf directive_d args)
ee_vsprintf-append_example =
    ee_vsprintf-append (b'n' ∷ b'=' ∷ []) directive_d args (refl, (refl, tt))

new_line : ee_vsprintf (b'.' ∷ []) args ≡ written (b'.' ∷ [])
unfolding ee_vsprintf
new_line = refl

ee_vsprintf-skip_atoi_example :
    (s : List ℕ) × (ee_vsprintf
        (b'n' ∷ b'%' ∷ b'u' ∷ b'.' ∷ [])
        (record { slot = 2 ^ 32 + 7; bytes = [] } ∷ args)
      ≡ written (b'n' ∷ s))
    × (skip_atoi s ≡ ((2 ^ 32 + 7) % 2 ^ 32, b'.' ∷ []))
unfolding is_digit
ee_vsprintf-skip_atoi_example =
    ee_vsprintf-skip_atoi (b'n' ∷ []) (b'.' ∷ []) (record { slot = 2 ^ 32 + 7; bytes = [] }) args
      (b'.' ∷ []) (refl, tt) new_line refl

parseval-number_example :
    (out : List ℕ) × (number (2 ^ 64 - 45) 10 (2 ^ 32 - 1) (2 ^ 32 - 1) signed ≡ some out)
    × (parseval out ≡ (2 ^ 64 - 45) % 2 ^ 32)
parseval-number_example = parseval-number (2 ^ 64 - 45) signed (omega arith) refl refl refl refl

parseval_hex_example :
    (out : List ℕ) × (number 0xbeef 16 (2 ^ 32 - 1) (2 ^ 32 - 1) prefixed ≡ some out)
    × (parseval out ≡ 0xbeef % 2 ^ 32)
parseval_hex_example = parseval_hex 0xbeef prefixed (omega arith) refl refl refl

-- "[%-6d|%#06x|%5.1s|%c|%%|%a]"
printed :
    ee_printf
      (b'%' ∷ b'-' ∷ b'6' ∷ b'd' ∷ b'|' ∷ b'%' ∷ b'#' ∷ b'0' ∷ b'6' ∷ b'x' ∷ b'|' ∷ b'%' ∷ b'5'
        ∷ b'.' ∷ b'1' ∷ b's' ∷ b'|' ∷ b'%' ∷ b'c' ∷ b'%' ∷ b'%' ∷ b'%' ∷ b'a' ∷ [])
      (record { slot = 2 ^ 32 - 45; bytes = [] }
        ∷ record { slot = 0x2a; bytes = [] }
        ∷ record { slot = 1; bytes = b'h' ∷ b'i' ∷ [] }
        ∷ record { slot = b'z'; bytes = [] }
        ∷ record { slot = 1; bytes = 10 ∷ 0 ∷ 0 ∷ 123 ∷ [] }
        ∷ [])
    ≡ written (
        b'-' ∷ b'4' ∷ b'5' ∷ b' ' ∷ b' ' ∷ b' ' ∷ b'|' ∷ b'0' ∷ b'x' ∷ b'0' ∷ b'0' ∷ b'2' ∷ b'a'
        ∷ b'|' ∷ b' ' ∷ b' ' ∷ b' ' ∷ b' ' ∷ b'h' ∷ b'|' ∷ b'z' ∷ b'%' ∷ b'1' ∷ b'0' ∷ b'.' ∷ b'0'
        ∷ b'.' ∷ b'0' ∷ b'.' ∷ b'1' ∷ b'2' ∷ b'3' ∷ [])
unfolding ee_printf
printed = refl
