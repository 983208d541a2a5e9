-- ===== src/Coremark/Tests/Init.antt =====
-- Runs of the model of coremark/'s inits on small inputs.
use multiplix.Prelude.{◌>>=◌, ℕ, ◌+◌, ◌≡◌, refl, arith, some, List, [], ◌∷◌, length}
use multiplix.Coremark.State.{Counts, no_counts, classify_all}
use multiplix.Coremark.State.Init.{core_init_state}
use multiplix.Coremark.State.Init.Block.{
  Filled, core_init_state-Filled, core_init_state-classify_all,
}
use multiplix.Coremark.Matrix.Init.{core_init_matrix, MatParams}
use multiplix.Coremark.Matrix.Init.Laws.{
  Initialised, Space, core_init_matrix-Initialised, core_init_matrix-Space,
}

-- Eight bytes for the block, and one behind.
abbrev nine : List ℕ
nine = 1 ∷ 2 ∷ 3 ∷ 4 ∷ 5 ∷ 6 ∷ 7 ∷ 8 ∷ 9 ∷ []

core_init_state-Filled_example : Filled 8 1 nine (core_init_state 8 0 nine)
core_init_state-Filled_example =
    core_init_state-Filled 8 0 nine (omega arith) (omega arith) (omega arith)

state_test : core_init_state 8 0 nine ≡ some (b'5' ∷ b'0' ∷ b'1' ∷ b'2' ∷ b',' ∷ 0 ∷ 0 ∷ 0 ∷ 9 ∷ [])
unfolding core_init_state
state_test = refl

core_init_state-classify_all_example :
    (out : List ℕ) × (counts : Counts × Counts) × (core_init_state 8 0 nine ≡ some out)
    × (classify_all (length out + 1) out no_counts no_counts ≡ some counts)
core_init_state-classify_all_example =
    core_init_state-classify_all 8 0 nine (omega arith) (omega arith) (omega arith)

abbrev twelve : List ℕ
twelve = 11 ∷ 12 ∷ 13 ∷ nine

-- A block of 40 bytes has matrices of 2 * 2 cells.
core_init_matrix-Initialised_example :
    Initialised 40 4096 5 twelve (core_init_matrix 40 4096 5 twelve)
core_init_matrix-Initialised_example =
    core_init_matrix-Initialised 40 4096 5 twelve (omega arith) (omega arith) (omega arith)

core_init_matrix-Space_example :
    (p : MatParams) × (core_init_matrix 40 4098 5 twelve ≡ some p) × Space 40 4098 p
core_init_matrix-Space_example =
    core_init_matrix-Space 40 4098 5 twelve (omega arith) (omega arith) (omega arith) (omega arith)

-- Matrix A, matrix B and four cells of the block behind them.
init_test :
    (core_init_matrix 40 4096 5 twelve >>= λ p. some p.cells)
    ≡ some (7 ∷ 14 ∷ 36 ∷ 128 ∷ 6 ∷ 12 ∷ 33 ∷ 124 ∷ 6 ∷ 7 ∷ 8 ∷ 9 ∷ [])
unfolding core_init_matrix
init_test = refl
