-- ===== src/Coremark/Tests.antt =====
-- Runs of the model of coremark/ on small inputs.
mod Printf
mod Init
mod Report
use multiplix.Prelude.{
  Option, none, ◌>>=◌, ◌+◌, ◌*◌, ◌≤◌, ℕ, zero, suc, ◌/◌, ◌%◌, ◌^◌, ◌<◌, ◌≡◌, ◌≢◌, refl, arith,
  bit_xor, true, some, List, [], ◌∷◌, get_or,
}
use multiplix.Coremark.ListJoin.{
  core_list_find, Memory, put, core_list_remove, core_list_undo_remove, core_list_reverse,
}
use multiplix.Coremark.ListJoin.Find.{First, wanted, core_list_find-First}
use multiplix.Coremark.ListJoin.Sort.ByIdx.{SortedByIdx, core_list_mergesort-SortedByIdx}
use multiplix.Coremark.ListJoin.Sort.{
  core_list_mergesort, cmp_idx, sort_loop, pass_loop, merge_rounds, merge_step, step_along,
}
use multiplix.Coremark.ListJoin.Bench.{Results, no_results}
use multiplix.Coremark.ListJoin.Laws.{remove-undo_remove, Reversed, core_list_reverse-Reversed}
use multiplix.Coremark.Matrix.{matrix_test, matrix_mul_matrix, product}
use multiplix.Coremark.Matrix.Laws.{sum, matrix_test-restores, matrix_mul_matrix_lem}
use multiplix.Coremark.Crc.{crcu8, crcu16}
use multiplix.Coremark.Crc.Register.{shifts}
use multiplix.Coremark.Crc.Laws.{crcu8-table, crcu16-detects}
use multiplix.Coremark.State.{Counts, no_counts, classify_all, core_bench_state}
use multiplix.Coremark.State.Progress.{classify_all_total}
use multiplix.Coremark.State.Corrupt.{hit}
use multiplix.Coremark.State.Laws.{collision, core_bench_state-restores, core_bench_state-collision}

crcu8-table_example :
    (crcu8 0x31 0xffff ≡ bit_xor (shifts 8 (bit_xor 0xffff 0x31 % 256)) (bit_xor 0xffff 0x31 / 256))
    × (crcu8 0x31 0xffff < 2 ^ 16)
crcu8-table_example = crcu8-table 0x31 0xffff (omega arith) (omega arith)

crcu16-detects_example : crcu16 0x1234 0xffff ≢ crcu16 0x1235 0xffff
crcu16-detects_example =
    crcu16-detects 0x1234 0x1235 0xffff (omega arith) (omega arith) (omega arith) (omega arith)

abbrev tokens : List ℕ
tokens = b'1' ∷ b'2' ∷ b',' ∷ b'-' ∷ b'x' ∷ 0 ∷ []

classify_all_total_example :
    (r : Counts × Counts) × (classify_all 7 tokens no_counts no_counts ≡ some r)
classify_all_total_example = classify_all_total 7 tokens no_counts no_counts refl (omega arith)

clean : (j : ℕ) → hit 2 5 0 j ≡ true → get_or tokens j 0 ≢ collision 7
clean zero h = omega arith
clean (suc zero) h = omega arith
clean (suc (suc zero)) h = omega arith
clean (suc (suc (suc zero))) h = omega arith
clean (suc (suc (suc (suc zero)))) h = omega arith
clean (suc (suc (suc (suc (suc zero))))) h = omega arith
clean (suc (suc (suc (suc (suc (suc j)))))) h = omega arith

core_bench_state-restores_example :
    (crc' : ℕ) × (core_bench_state 5 tokens 7 7 2 0 ≡ some (crc', tokens))
core_bench_state-restores_example =
    core_bench_state-restores 5 tokens 7 2 0 5 (omega arith) (omega arith) (omega arith) refl refl
      clean

abbrev plus : List ℕ
plus = b'1' ∷ b'+' ∷ 0 ∷ []

core_bench_state-collision_example :
    (crc' : ℕ) × (mem' : List ℕ) × (core_bench_state 2 plus 7 7 1 0 ≡ some (crc', mem'))
    × (get_or mem' 1 0 ≡ b',')
    × (get_or plus 1 0 ≢ b',')
core_bench_state-collision_example =
    core_bench_state-collision 2 plus 7 1 0 2 (omega arith) (omega arith) (omega arith) refl refl 1
      (omega arith) refl refl

-- A matrix of 2 rows with the values 1 to 4.
abbrev square : List ℕ
square = 1 ∷ 2 ∷ 3 ∷ 4 ∷ []

square_lt : (p : ℕ) → get_or square p 0 < 2 ^ 16
square_lt zero = omega arith
square_lt (suc zero) = omega arith
square_lt (suc (suc zero)) = omega arith
square_lt (suc (suc (suc zero))) = omega arith
square_lt (suc (suc (suc (suc p)))) = omega arith

matrix_test-restores_example : (matrix_test 2 square square square 0xfffe).2 ≡ square
matrix_test-restores_example =
    matrix_test-restores 2 square square square 0xfffe square_lt (omega arith) (omega arith)

matrix_mul_matrix_lem_example :
    ((i j : ℕ)
      → i < 2
      → j < 2
      → get_or (matrix_mul_matrix 2 square square square) (i * 2 + j) 0
        ≡ sum 2 0 (λ k. product (get_or square (i * 2 + k) 0) (get_or square (k * 2 + j) 0))
          % 2 ^ 32)
    × ((p : ℕ)
        → 2 * 2 ≤ p
        → get_or (matrix_mul_matrix 2 square square square) p 0 ≡ get_or square p 0)
matrix_mul_matrix_lem_example =
    matrix_mul_matrix_lem 2 square square square (omega arith) (omega arith)

-- Three cells at 16, 32 and 48 with the data at 1, 2 and 3.
abbrev three : Memory
three = record {
  next = put (put (λ x. 0) 16 32) 32 48;
  info = put (put (put (λ x. 0) 16 1) 32 2) 48 3;
  data16 = λ d. d;
  idx = put (put (put (λ x. 0) 1 30) 2 10) 3 20;
}

remove-undo_remove_example :
    (core_list_remove 16 three >>= λ r. core_list_undo_remove r.0 16 r.1) ≡ some (32, three)
remove-undo_remove_example = remove-undo_remove 16 three (omega arith) (omega arith) (omega arith)

core_list_reverse-Reversed_example :
    Reversed (16 ∷ 32 ∷ 48 ∷ []) [] three (core_list_reverse 4 16 three)
core_list_reverse-Reversed_example =
    core_list_reverse-Reversed 4 16 three (16 ∷ 32 ∷ 48 ∷ []) (omega arith)
      (refl, (λ e. omega arith), (refl, (λ e. omega arith), (refl, (λ e. omega arith), refl)))
      (λ a. ground arith)

core_list_find-First_example :
    (a : ℕ) × (core_list_find 4 16 2 three ≡ some a) × First (wanted 2 three) (16 ∷ 32 ∷ 48 ∷ []) a
core_list_find-First_example =
    core_list_find-First 4 16 2 three (16 ∷ 32 ∷ 48 ∷ []) (omega arith)
      (refl, (λ e. omega arith), (refl, (λ e. omega arith), (refl, (λ e. omega arith), refl)))

core_list_mergesort-SortedByIdx_example :
    SortedByIdx three (16 ∷ 32 ∷ 48 ∷ []) (core_list_mergesort cmp_idx 7 16 no_results three)
core_list_mergesort-SortedByIdx_example =
    core_list_mergesort-SortedByIdx 7 (16 ∷ 32 ∷ 48 ∷ []) 16 no_results three (omega arith)
      (omega arith) (omega arith) (λ a. ground arith) refl
      (refl, (λ e. omega arith), (refl, (λ e. omega arith), (refl, (λ e. omega arith), refl)))

-- The merge sort of the three cells by `idx`: 10, 20, 30.
order : Option (ℕ × Option Results × Memory) → List ℕ
order none = []
order (some (l, res, m)) = l ∷ m.next l ∷ m.next (m.next l) ∷ m.next (m.next (m.next l)) ∷ []

sort_test : order (core_list_mergesort cmp_idx 6 16 no_results three) ≡ 32 ∷ 48 ∷ 16 ∷ 0 ∷ []
unfolding order core_list_mergesort cmp_idx sort_loop pass_loop merge_rounds merge_step step_along
sort_test = refl
