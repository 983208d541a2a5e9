-- ===== src/Coremark/State/Init/Block.antt =====
-- The whole block that `core_init_state` of coremark/core_state.c makes.
use mathlib.Core.List.{append_assoc}
use multiplix.Prelude.{
  ℕ, zero, suc, ◌+◌, ◌-◌, ◌%◌, ◌^◌, ◌≤◌, ◌<◌, ◌≡◌, inl, inr, refl, sym, ◌∙◌, ap, arith, true, false,
  Option, some, List, [], ◌∷◌, ◌++◌, ltb, length, drop, replicate, ◌>>=◌, Bool-cases, length-append,
  length-drop,
}
use multiplix.Coremark.State.{Counts, no_counts, classify_all}
use multiplix.Coremark.State.Progress.{has_nul, classify_all_total}
use multiplix.Coremark.State.Init.{pattern_of, put_token, token_loop, zero_loop, core_init_state}
use multiplix.Coremark.State.Init.Tokens.{
  tokens, later, pattern_length, store_middle, drop-drop, drop_after, next_token, loop_next,
  token_run,
}

zero_run :
    (n total : ℕ) (xs ys : List ℕ)
    → total ≡ length xs
    → n ≤ length ys
    → zero_loop n total (xs ++ ys) ≡ some (xs ++ (replicate n 0 ++ drop n ys))
unfolding zero_loop
zero_run zero total xs ys e fits = refl
zero_run (suc n) total xs ys e fits = rw e (
    ap (λ (o : Option (List ℕ)). o >>= zero_loop n (length xs + 1))
      (store_middle xs 0 ys (omega arith))
    ∙ ap (zero_loop n (length xs + 1)) (sym (append_assoc xs (0 ∷ []) (drop 1 ys)))
    ∙ zero_run n (length xs + 1) (xs ++ 0 ∷ []) (drop 1 ys)
        (omega (arith, length-append xs (0 ∷ []))) (omega (arith, length-drop 1 ys))
    ∙ ap some (
        append_assoc xs (0 ∷ []) (replicate n 0 ++ drop n (drop 1 ys))
        ∙ ap (λ (z : List ℕ). xs ++ 0 ∷ (replicate n 0 ++ z)) (drop-drop n ys)))

-- A block of tokens, then zeros, then what was behind the block.
pub record Filled (size seed : ℕ) (mem : List ℕ) (result : Option (List ℕ)) : Type 0 where
  pub count : ℕ
  pub returns :
      result
      ≡ some
          (tokens count seed ++ (replicate (size - length (tokens count seed)) 0 ++ drop size mem))
  pub inside : length (tokens count seed) < size
  pub full : size ≤ length (tokens count seed) + length (pattern_of (later count seed)) + 2

first_round :
    (f size seed : ℕ) (mem : List ℕ)
    → 1 < size
    → token_loop (suc f) size 0 [] seed mem
      ≡ token_loop f size 0 (pattern_of ((seed + 1) % 2 ^ 16)) ((seed + 1) % 2 ^ 16) mem
unfolding next_token put_token
first_round f size seed mem h = loop_next f size 0 [] seed mem {b = true} (ground arith)

first_stop :
    (f size seed : ℕ) (mem : List ℕ)
    → size ≤ 1
    → token_loop (suc f) size 0 [] seed mem ≡ some (0, mem)
unfolding next_token
first_stop f size seed mem h = loop_next f size 0 [] seed mem {b = false} (ground arith)

-- The first loop as a whole: one round without a token, then the rounds that store one each.
start_run :
    (size seed : ℕ) (mem : List ℕ)
    → size ≤ length mem
    → size + 16 < 2 ^ 32
    → (n : ℕ) × (token_loop (length mem + 2) size 0 [] seed mem
        ≡ some (
          length (tokens n ((seed + 1) % 2 ^ 16)),
          tokens n ((seed + 1) % 2 ^ 16) ++ drop (length (tokens n ((seed + 1) % 2 ^ 16))) mem,
        ))
      × (length (tokens n ((seed + 1) % 2 ^ 16)) ≤ size)
      × (size
          ≤ length (tokens n ((seed + 1) % 2 ^ 16))
            + length (pattern_of (later n ((seed + 1) % 2 ^ 16)))
            + 1)
start_run size seed mem fits small =
    let e : length mem + 2 ≡ suc (length mem + 1) = omega arith in
    let s = (seed + 1) % 2 ^ 16 in
    elim (Bool-cases (ltb 1 size)) [
      | inr stop ↦ (
        0,
        ap (λ (f : ℕ). token_loop f size 0 [] seed mem) e
            ∙ first_stop (length mem + 1) size seed mem (ground arith),
        omega arith,
        ground (arith, pattern_length s),
      )
      | inl go ↦
          let run =
            token_run (length mem + 1) size 0 s [] mem refl (omega arith) (omega arith) small
              (omega arith) in
          (
            run.count,
            ap (λ (f : ℕ). token_loop f size 0 [] seed mem) e
                ∙ first_round (length mem + 1) size seed mem (ground arith)
                ∙ run.returns
                ∙ ap
                    (λ (k : ℕ).
                      some (k, tokens run.count s ++ drop (length (tokens run.count s)) mem))
                    (omega arith),
            omega (arith, run.inside),
            omega (arith, run.full),
          )
    ]

-- For a block of at least one byte that lies in the memory, and is 17 bytes or more short of 2^32,
-- `core_init_state` returns: the block holds the tokens of the seeds after `seed`, each with its
-- comma, as many as leave a byte free; the rest of the block is zero, at least one byte; and the
-- memory behind the block is as before. One more token with its comma would leave no two bytes.
pub core_init_state-Filled :
    (size seed : ℕ) (mem : List ℕ)
    → 1 ≤ size
    → size ≤ length mem
    → size + 16 < 2 ^ 32
    → Filled size ((seed + 1) % 2 ^ 16) mem (core_init_state size seed mem)
unfolding core_init_state
core_init_state-Filled size seed mem pos fits small =
    let lower : (size + (2 ^ 32 - 1)) % 2 ^ 32 ≡ size - 1 = omega arith in
    let s = (seed + 1) % 2 ^ 16 in
    let (n, run, inside, full) = start_run (size - 1) seed mem (omega arith) (omega arith) in
    let toks = tokens n s in
    let left = size - length toks in
    let sum : length toks + left ≡ size = omega (arith, inside) in
    record {
      count = n;
      returns =
          ap
            (λ (k : ℕ).
              token_loop (length mem + 2) k 0 [] seed mem >>= λ r. zero_loop (size - r.0) r.0 r.1)
            lower
          ∙ ap (λ (o : Option (ℕ × List ℕ)). o >>= λ r. zero_loop (size - r.0) r.0 r.1) run
          ∙ zero_run left (length toks) toks (drop (length toks) mem) refl
              (omega (arith, length-drop (length toks) mem, inside))
          ∙ ap (λ (z : List ℕ). some (toks ++ (replicate left 0 ++ z)))
              (drop_after (length toks) left mem ∙ ap (λ (k : ℕ). drop k mem) sum);
      inside = omega (arith, inside);
      full = omega (arith, full);
    }

nul-append : (xs ys : List ℕ) → has_nul ys ≡ true → has_nul (xs ++ ys) ≡ true
nul-append [] ys h = h
nul-append (x ∷ xs) ys h = ground (arith, nul-append xs ys h)

-- The block that `core_init_state` makes, under the same conditions, is one that the first loop of
-- `core_bench_state` reads to its end without leaving the memory.
pub core_init_state-classify_all :
    (size seed : ℕ) (mem : List ℕ)
    → 1 ≤ size
    → size ≤ length mem
    → size + 16 < 2 ^ 32
    → (out : List ℕ) × (counts : Counts × Counts) × (core_init_state size seed mem ≡ some out)
      × (classify_all (length out + 1) out no_counts no_counts ≡ some counts)
core_init_state-classify_all size seed mem pos fits small =
    let f = core_init_state-Filled size seed mem pos fits small in
    let toks = tokens f.count ((seed + 1) % 2 ^ 16) in
    let rest = drop size mem in
    let e : size - length toks ≡ suc (size - length toks - 1) = omega (arith, f.inside) in
    let out = toks ++ (replicate (size - length toks) 0 ++ rest) in
    let nul : has_nul out ≡ true =
      nul-append toks (replicate (size - length toks) 0 ++ rest)
        (ap (λ (k : ℕ). has_nul (replicate k 0 ++ rest)) e) in
    let run = classify_all_total (length out + 1) out no_counts no_counts nul (omega arith) in
    (out, run.0, f.returns, run.1)
