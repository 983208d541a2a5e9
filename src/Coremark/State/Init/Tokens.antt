-- ===== src/Coremark/State/Init/Tokens.antt =====
-- The block that `core_init_state` of coremark/core_state.c makes.
use mathlib.Core.List.{append_assoc}
use native.Mathlib.Nat.{mod-eq_of_lt}
use multiplix.Prelude.{
  ℕ, zero, suc, ◌+◌, ◌%◌, ◌^◌, ◌≤◌, ◌<◌, ◌≡◌, inl, inr, refl, sym, ◌∙◌, ap, arith, Bool, true,
  false, Option, some, List, [], ◌∷◌, ◌++◌, ltb, length, set, drop, ◌>>=◌, Bool-cases,
  length-append, length-drop,
}
use multiplix.Coremark.State.Init.{pattern_of, store, store_all, put_token, token_loop}

-- The tokens of `n` seeds from `seed` on, each with its comma.
abbrev pub tokens : (n seed : ℕ) → List ℕ
tokens zero seed = []
tokens (suc n) seed = pattern_of seed ++ b',' ∷ tokens n ((seed + 1) % 2 ^ 16)

-- The seed after `n` more.
abbrev pub later : (n seed : ℕ) → ℕ
later zero seed = seed
later (suc n) seed = later n ((seed + 1) % 2 ^ 16)

-- A token has 4 or 8 bytes.
pub pattern_length : (seed : ℕ) → (4 ≤ length (pattern_of seed)) × (length (pattern_of seed) ≤ 8)
unfolding pattern_of
pattern_length seed = ground arith

set-middle : (xs : List ℕ) (y v : ℕ) (ys : List ℕ) → set (xs ++ y ∷ ys) (length xs) v ≡ xs ++ v ∷ ys
set-middle [] y v ys = refl
set-middle (x ∷ xs) y v ys = ap (◌∷◌ x) (set-middle xs y v ys)

pub store_middle :
    (xs : List ℕ) (v : ℕ) (ys : List ℕ)
    → 1 ≤ length ys
    → store (xs ++ ys) (length xs) v ≡ some (xs ++ v ∷ drop 1 ys)
unfolding store
store_middle xs v [] h = absurd (omega arith)
store_middle xs v (y ∷ ys) h =
    let e : ltb (length xs) (length (xs ++ y ∷ ys)) ≡ true =
      ground (arith, length-append xs (y ∷ ys)) in
    rw e (ap some (set-middle xs y v ys))

pub drop-drop : (n : ℕ) (ys : List ℕ) → drop n (drop 1 ys) ≡ drop (suc n) ys
drop-drop zero [] = refl
drop-drop (suc n) [] = refl
drop-drop n (y ∷ ys) = refl

store_all_middle :
    (bs xs ys : List ℕ) (at : ℕ)
    → at ≡ length xs
    → length bs ≤ length ys
    → store_all bs at (xs ++ ys) ≡ some (xs ++ (bs ++ drop (length bs) ys))
unfolding store_all
store_all_middle [] xs ys at e h = refl
store_all_middle (b ∷ bs) xs ys at e h = rw e (
    ap (λ (o : Option (List ℕ)). o >>= store_all bs (length xs + 1))
      (store_middle xs b ys (omega arith))
    ∙ ap (store_all bs (length xs + 1)) (sym (append_assoc xs (b ∷ []) (drop 1 ys)))
    ∙ store_all_middle bs (xs ++ b ∷ []) (drop 1 ys) (length xs + 1)
        (omega (arith, length-append xs (b ∷ []))) (omega (arith, length-drop 1 ys))
    ∙ ap some (
        append_assoc xs (b ∷ []) (bs ++ drop (length bs) (drop 1 ys))
        ∙ ap (λ (z : List ℕ). xs ++ b ∷ (bs ++ z)) (drop-drop (length bs) ys)))

-- A token with its comma.
abbrev item : ℕ → List ℕ
item seed = pattern_of seed ++ b',' ∷ []

length-item : (seed : ℕ) → length (item seed) ≡ length (pattern_of seed) + 1
length-item seed = length-append (pattern_of seed) (b',' ∷ [])

drop_nil : (n : ℕ) → ◌≡◌ {A = List ℕ} (drop n []) []
drop_nil zero = refl
drop_nil (suc n) = refl

pub drop_after : (n m : ℕ) (ys : List ℕ) → drop m (drop n ys) ≡ drop (n + m) ys
drop_after zero m ys = ap (λ (k : ℕ). drop k ys) (omega arith)
drop_after (suc n) m [] = drop_nil m ∙ sym (drop_nil (suc n + m))
drop_after (suc n) m (y ∷ ys) =
    drop_after n m ys
    ∙ ap (λ (k : ℕ). drop k (y ∷ ys)) (let e : suc (n + m) ≡ suc n + m = omega arith in e)

put_written :
    (buf xs ys : List ℕ) (total : ℕ)
    → 1 ≤ length buf
    → total ≡ length xs
    → total + length buf + 1 < 2 ^ 32
    → length buf + 1 ≤ length ys
    → put_token buf total (xs ++ ys)
      ≡ some (total + length buf + 1, (xs ++ (buf ++ b',' ∷ [])) ++ drop (length buf + 1) ys)
unfolding put_token
put_written [] xs ys total some_bytes e lt fits = absurd (omega arith)
put_written (b ∷ buf) xs ys total some_bytes e lt fits =
    let bs = b ∷ buf in
    let one = store_all_middle bs xs ys total e (omega arith) in
    let regroup = ap some (sym (append_assoc xs bs (drop (length bs) ys))) in
    let at : total + length bs ≡ length (xs ++ bs) = omega (arith, length-append xs bs) in
    let two =
      store_middle (xs ++ bs) b',' (drop (length bs) ys)
        (omega (arith, length-drop (length bs) ys)) in
    let tidy : (xs ++ bs) ++ b',' ∷ drop 1 (drop (length bs) ys)
        ≡ (xs ++ (bs ++ b',' ∷ [])) ++ drop (length bs + 1) ys =
      ap (λ (z : List ℕ). (xs ++ bs) ++ b',' ∷ z) (drop_after (length bs) 1 ys)
      ∙ sym (append_assoc (xs ++ bs) (b',' ∷ []) (drop (length bs + 1) ys))
      ∙ ap (λ (z : List ℕ). z ++ drop (length bs + 1) ys) (append_assoc xs bs (b',' ∷ [])) in
    let put = λ (m : List ℕ).
      store m (total + length bs) b',' >>= λ mem2. some ((total + length bs + 1) % 2 ^ 32, mem2) in
    ap (λ (o : Option (List ℕ)). o >>= put) (one ∙ regroup)
    ∙ ap
        (λ (k : ℕ). store ((xs ++ bs) ++ drop (length bs) ys) k b',' >>= λ mem2.
          some ((total + length bs + 1) % 2 ^ 32, mem2))
        at
    ∙ ap (λ (o : Option (List ℕ)). o >>= λ mem2. some ((total + length bs + 1) % 2 ^ 32, mem2))
        (two ∙ ap some tidy)
    ∙ ap (λ (k : ℕ). some (k, (xs ++ (bs ++ b',' ∷ [])) ++ drop (length bs + 1) ys))
        (mod-eq_of_lt lt)

-- The tokens that the first loop writes from `total` on.
pub record Run (size total seed : ℕ) (xs ys : List ℕ) (result : Option (ℕ × List ℕ)) : Type 0 where
  pub count : ℕ
  pub returns :
      result
      ≡ some (
        total + length (tokens count seed),
        xs ++ (tokens count seed ++ drop (length (tokens count seed)) ys),
      )
  pub inside : total + length (tokens count seed) ≤ size
  pub full : size ≤ total + length (tokens count seed) + length (pattern_of (later count seed)) + 1

regroup :
    (xs buf toks ys : List ℕ) (c : ℕ)
    → (xs ++ (buf ++ c ∷ [])) ++ (toks ++ drop (length toks) (drop (length buf + 1) ys))
      ≡ xs ++ ((buf ++ c ∷ toks) ++ drop (length buf + 1 + length toks) ys)
regroup xs buf toks ys c =
    let rest = toks ++ drop (length toks) (drop (length buf + 1) ys) in
    append_assoc xs (buf ++ c ∷ []) rest
    ∙ ap (λ (z : List ℕ). xs ++ z)
        (append_assoc buf (c ∷ []) rest
          ∙ ap (λ (z : List ℕ). buf ++ c ∷ (toks ++ z))
              (drop_after (length buf + 1) (length toks) ys)
          ∙ sym (append_assoc buf (c ∷ toks) (drop (length buf + 1 + length toks) ys)))

unfoldable pub next_token :
    (f size total : ℕ) (buf : List ℕ) (seed : ℕ) (mem : List ℕ) → Bool → Option (ℕ × List ℕ)
next_token f size total buf seed mem b = elim b [
  | false ↦ some (total, mem)
  | true ↦ put_token buf total mem >>= λ r.
      token_loop f size r.0 (pattern_of ((seed + 1) % 2 ^ 16)) ((seed + 1) % 2 ^ 16) r.1
]

pub loop_next :
    (f size total : ℕ) (buf : List ℕ) (seed : ℕ) (mem : List ℕ) {b : Bool}
    → ltb ((total + length buf + 1) % 2 ^ 32) size ≡ b
    → token_loop (suc f) size total buf seed mem ≡ next_token f size total buf seed mem b
unfolding token_loop next_token
loop_next f size total buf seed mem e = ap (next_token f size total buf seed mem) e

pub token_run :
    (f size total seed : ℕ) (xs ys : List ℕ)
    → total ≡ length xs
    → total ≤ size
    → size ≤ total + length ys
    → size + 16 < 2 ^ 32
    → length ys < f
    → Run size total seed xs ys (token_loop f size total (pattern_of seed) seed (xs ++ ys))
unfolding next_token
token_run zero size total seed xs ys e le room small fuel = absurd (omega arith)
token_run (suc f) size total seed xs ys e le room small fuel =
    let buf = pattern_of seed in
    let len = pattern_length seed in
    let next = (seed + 1) % 2 ^ 16 in
    elim (Bool-cases (ltb ((total + length buf + 1) % 2 ^ 32) size)) [
      | inr stop ↦ record {
        count = 0;
        returns =
            loop_next f size total buf seed (xs ++ ys) stop
            ∙ ap (λ (k : ℕ). some (k, xs ++ ys)) (omega arith);
        inside = omega arith;
        full = ground (arith, len);
      }
      | inl go ↦
          let lt : total + length buf + 1 < size = ground (arith, len) in
          let put =
            put_written buf xs ys total (omega (arith, len.0)) e (omega arith) (omega arith) in
          let rest =
            token_run f size (total + length buf + 1) next (xs ++ item seed)
              (drop (length buf + 1) ys)
              (omega (arith, length-append xs (item seed), length-item seed)) (omega arith)
              (omega (arith, length-drop (length buf + 1) ys)) small
              (omega (arith, length-drop (length buf + 1) ys)) in
          let toks = tokens rest.count next in
          let counted : length (tokens (suc rest.count) seed) ≡ length buf + 1 + length toks =
            omega (arith, length-append buf (b',' ∷ toks)) in
          record {
            count = suc rest.count;
            returns =
                loop_next f size total buf seed (xs ++ ys) go
                ∙ ap
                    (λ (o : Option (ℕ × List ℕ)).
                      o >>= λ r. token_loop f size r.0 (pattern_of next) next r.1)
                    put
                ∙ rest.returns
                ∙ ap (λ (z : List ℕ). some (total + length buf + 1 + length toks, z))
                    (regroup xs buf toks ys b',')
                ∙ ap
                    (λ (k : ℕ).
                      some
                        (k, xs ++ ((buf ++ b',' ∷ toks) ++ drop (length buf + 1 + length toks) ys)))
                    (omega (arith, counted))
                ∙ ap
                    (λ (k : ℕ). some (
                      total + length (tokens (suc rest.count) seed),
                      xs ++ ((buf ++ b',' ∷ toks) ++ drop k ys),
                    ))
                    (sym counted);
            inside = omega (arith, counted, rest.inside);
            full = omega (arith, counted, rest.full);
          }
    ]
