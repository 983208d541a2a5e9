-- ===== src/Coremark/State/Laws.antt =====
-- `core_bench_state` of coremark/core_state.c runs to its end and, with equal seeds, restores the
-- block as its comment says, except where a corrupted byte turns into a comma.
use multiplix.Prelude.{
  ℕ, zero, suc, ◌+◌, ◌%◌, ◌≤◌, ◌<◌, ◌≡◌, ◌≢◌, sym, ◌∙◌, ap, true, false, some, List, [], ◌∷◌, arith,
  length, if◌then◌else◌, bit_xor, get_or, get_or_ext,
}
use multiplix.Prelude.Bits.Xor.{bit_xor_cancel, bit_xor_comm}
use multiplix.Coremark.State.{no_counts, corrupt, crc_counts, core_bench_state}
use multiplix.Coremark.State.Progress.{has_nul, classify_all_total}
use multiplix.Coremark.State.Corrupt.{hit, scramble, Corrupted, corrupt-Corrupted}

has_nul-get_or : (mem : List ℕ) (n : ℕ) → n < length mem → get_or mem n 0 ≡ 0 → has_nul mem ≡ true
has_nul-get_or [] n h e = absurd (omega arith)
has_nul-get_or (b ∷ mem) zero h e = ground arith
has_nul-get_or (b ∷ mem) (suc n) h e = ground (arith, has_nul-get_or mem n)

-- The byte that a visit turns into a comma.
abbrev pub collision : ℕ → ℕ
collision seed = bit_xor b',' (seed % 256)

scramble_twice : (seed b : ℕ) → b ≢ collision seed → scramble seed (scramble seed b) ≡ b
scramble_twice seed b ne = ground (
  arith,
  bit_xor_cancel b (seed % 256),
  ap (λ (t : ℕ). bit_xor t (seed % 256)) {x = bit_xor b (seed % 256)} {y = b','},
)

collision-ne : (seed : ℕ) → seed % 256 ≢ 0 → collision seed ≢ b','
collision-ne seed ne e = ne (
    sym (bit_xor_cancel (seed % 256) b',')
    ∙ ap (λ (t : ℕ). bit_xor t b',') (bit_xor_comm (seed % 256) b',' ∙ e))

module _ (blksize : ℕ) (mem : List ℕ) (seed stride crc n : ℕ) (pos : 0 < stride)
    (fits : blksize ≤ length mem) (inside : n < length mem) (nul : get_or mem n 0 ≡ 0)
    (spared : hit stride blksize 0 n ≡ false) where
  pass :
      (m : List ℕ)
      → blksize ≤ length m
      → Corrupted stride seed blksize 0 m (corrupt (blksize + 1) stride seed blksize 0 m)
  pass m h = corrupt-Corrupted (blksize + 1) stride seed blksize 0 m pos h (omega arith)

  -- A run of the benchmark, with the block after it.
  record Run : Type 0 where
    out : List ℕ
    result : ℕ
    returns : core_bench_state blksize mem seed seed stride crc ≡ some (result, out)
    same_length : length out ≡ length mem
    bytes :
        (j : ℕ)
        → get_or out j 0 ≡ (
            if hit stride blksize 0 j
            then scramble seed (scramble seed (get_or mem j 0))
            else get_or mem j 0)

  run : Run
  unfolding core_bench_state
  run =
      let first =
        classify_all_total (length mem + 1) mem no_counts no_counts
          (has_nul-get_or mem n inside nul) (omega arith) in
      let one = pass mem fits in
      let still : get_or one.out n 0 ≡ 0 = ground (arith, one.bytes n) in
      let second =
        classify_all_total (length one.out + 1) one.out first.0.0 first.0.1
          (has_nul-get_or one.out n (omega (arith, one.same_length)) still) (omega arith) in
      let two = pass one.out (omega (arith, one.same_length)) in
      record {
        out = two.out;
        result = crc_counts 8 0 second.0.0 second.0.1 crc;
        returns = rw (first.1, one.returns, second.1, two.returns);
        same_length = two.same_length ∙ one.same_length;
        bytes = λ j. ground (arith, one.bytes j, two.bytes j);
      }

  -- With a positive stride, the block inside the memory, a terminating zero that the corruption
  -- does not visit, and one seed for both corruptions, `core_bench_state` returns, and if no byte
  -- that it visits equals `',' ^ (ee_u8)seed`, the memory afterwards is the memory before.
  pub core_bench_state-restores :
      ((j : ℕ) → hit stride blksize 0 j ≡ true → get_or mem j 0 ≢ collision seed)
      → (crc' : ℕ) × (core_bench_state blksize mem seed seed stride crc ≡ some (crc', mem))
  core_bench_state-restores clean =
      let same : run.out ≡ mem =
        get_or_ext 0 run.out mem run.same_length
          (λ j h. ground (arith, run.bytes j, clean j, scramble_twice seed (get_or mem j 0))) in
      (run.result, run.returns ∙ ap (λ (m : List ℕ). some (run.result, m)) same)

  -- Under the same conditions, but with a seed whose low byte is not zero and a visited byte equal
  -- to `',' ^ (ee_u8)seed`, the run ends with a memory that differs from the first at that byte:
  -- equal seeds do not undo the corruption there.
  pub core_bench_state-collision :
      (j : ℕ)
      → seed % 256 ≢ 0
      → hit stride blksize 0 j ≡ true
      → get_or mem j 0 ≡ collision seed
      → (crc' : ℕ) × (mem' : List ℕ) × (core_bench_state blksize mem seed seed stride crc
          ≡ some (crc', mem'))
        × (get_or mem' j 0 ≡ b',')
        × (get_or mem j 0 ≢ b',')
  core_bench_state-collision j ne visited hits =
      let apart : get_or mem j 0 ≢ b',' = λ e. collision-ne seed ne (sym hits ∙ e) in
      let comma : scramble seed (scramble seed (get_or mem j 0)) ≡ b',' =
        ground
          (arith, bit_xor_cancel b',' (seed % 256), ap (λ (t : ℕ). bit_xor t (seed % 256)) hits) in
      (run.result, run.out, run.returns, ground (arith, run.bytes j), apart)
