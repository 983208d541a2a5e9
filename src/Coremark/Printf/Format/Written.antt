-- ===== src/Coremark/Printf/Format/Written.antt =====
-- `ee_vsprintf` of coremark/multiplix/ee_printf.c writes a text where the arguments suffice.
use multiplix.Prelude.{ℕ, ◌≤◌, ◌≡◌, Option, some, none, List}
use multiplix.Coremark.Printf.Fields.{Arg}
use multiplix.Coremark.Printf.Format.{Outcome, written}
use multiplix.Coremark.Printf.Format.Supplied.{Enough}

-- What a directive leaves.
abbrev Goes : Option (List ℕ × List ℕ × List Arg) → Type 0
Goes none = 1 ≤ 0
Goes (some (out, fmt, args)) = Enough fmt args

-- The outcome is a text.
abbrev Writes : Outcome → Type 0
Writes o = (out : List ℕ) × (o ≡ written out)
