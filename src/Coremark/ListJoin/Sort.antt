-- ===== src/Coremark/ListJoin/Sort.antt =====
-- coremark/core_list_join.c: `cmp_idx` and `core_list_mergesort`. `none` is out of fuel, or undefined
-- behaviour of the comparison.
pub mod Along
pub mod Merging
pub mod Chains
pub mod Moves
pub mod Turns
pub mod Rounds
pub mod Chunks
pub mod Passes
pub mod Order
pub mod ByIdx
use multiplix.Prelude.{
  ℕ, zero, suc, ◌+◌, ◌-◌, ◌*◌, ◌/◌, ◌%◌, ◌^◌, Bool, true, false, ◌&&◌, ◌||◌, Option, none, some,
  ltb, leb, ◌==◌, not, if◌then◌else◌, bit_and, bit_or, ◌>>=◌,
}
use multiplix.Coremark.ListJoin.{Memory, set_next, set_data16}

-- A comparison says whether `cmp(a, b, res) <= 0`, and may write to what `res` points to and to
-- memory.
abbrev pub ListCmp : Type 0 → Type 0
ListCmp R = ℕ → ℕ → R → Memory → Option (Bool × R × Memory)

-- `(data16 & 0xff00) | (0x00ff & (data16 >> 8))`
abbrev pub regenerate : ℕ → ℕ
regenerate x = bit_or (bit_and x 0xff00) (bit_and 0x00ff (x / 2 ^ 8))

-- `res == NULL`
abbrev pub is_null : {R : Type 0} → Option R → Bool
is_null none = true
is_null (some r) = false

-- `a->idx <= b->idx` as 16-bit integers with a sign.
unfoldable pub cmp_idx : {R : Type 0} → ListCmp (Option R)
cmp_idx a b res m =
    let m1 = set_data16 a (regenerate (m.data16 a)) m in
    let m2 = set_data16 b (regenerate (m1.data16 b)) m1 in
    some (
      leb ((m.idx a + 2 ^ 15) % 2 ^ 16) ((m.idx b + 2 ^ 15) % 2 ^ 16),
      res,
      (if is_null res then m2 else m),
    )

-- `for (i = 0; i < insize; i++)`: `psize` and `q`.
unfoldable pub step_along : (rounds psize q : ℕ) → Memory → ℕ × ℕ
step_along zero psize q m = (psize, q)
step_along (suc n) psize q m =
    let rest = step_along n (suc psize) (m.next q) m in
    if m.next q == 0 then (suc psize, 0) else rest

-- The variables of the merge.
pub record Merge : Type 0 where
  pub p : ℕ
  pub psize : ℕ
  pub q : ℕ
  pub qsize : ℕ
  pub list : ℕ
  pub tail : ℕ

-- `e` goes to the end of the merged list.
abbrev pub emit : ℕ → Merge → Memory → Merge × Memory
emit e s m =
    if s.tail == 0
    then (record s { list = e; tail = e }, m)
    else (record s { tail = e }, set_next s.tail e m)

abbrev pub from_p : Merge → Memory → Merge × Memory
from_p s m = emit s.p (record s { p = m.next s.p; psize = s.psize - 1 }) m

abbrev pub from_q : Merge → Memory → Merge × Memory
from_q s m = emit s.q (record s { q = m.next s.q; qsize = s.qsize - 1 }) m

module _ {R : Type 0} (cmp : ListCmp R) where
  -- One round of the merging loop.
  unfoldable pub merge_step : Merge → R → Memory → Option (Merge × R × Memory)
  merge_step s res m =
      if s.psize == 0
      then (let r = from_q s m in some (r.0, res, r.1))
      else if (s.qsize == 0) || (s.q == 0)
      then (let r = from_p s m in some (r.0, res, r.1))
      else cmp (m.info s.p) (m.info s.q) res m >>= λ c.
          let r = if c.0 then from_p s c.2 else from_q s c.2 in some (r.0, c.1, r.1)

  unfoldable pub merge_rounds : (fuel : ℕ) → Merge → R → Memory → Option (Merge × R × Memory)
  merge_rounds zero s res m = none
  merge_rounds (suc f) s res m =
      elim (not (s.psize == 0) || (not (s.qsize == 0) && not (s.q == 0))) [
        | false ↦ some (s, res, m)
        | true ↦ merge_step s res m >>= λ r. merge_rounds f r.0 r.1 r.2
      ]

  -- `while (p)`, with the number of merges so far: `nmerges`, `list`, `tail`.
  unfoldable pub pass_loop :
      (fuel insize nmerges p list tail : ℕ) → R → Memory → Option (ℕ × ℕ × ℕ × R × Memory)
  pass_loop zero insize nmerges p list tail res m = none
  pass_loop (suc f) insize nmerges p list tail res m = elim (p == 0) [
    | true ↦ some (nmerges, list, tail, res, m)
    | false ↦
        let along = step_along insize 0 p m in
        merge_rounds (suc f)
          (record { p = p; psize = along.0; q = along.1; qsize = insize; list = list; tail = tail })
          res m
        >>= λ r. pass_loop f insize (suc nmerges) r.0.q r.0.list r.0.tail r.1 r.2
  ]

  -- `while (1)` over `insize`. After a pass without a merge `tail` is null, and the write to
  -- `tail->next` is undefined, and so is the overflow of `insize`.
  unfoldable pub sort_loop : (fuel insize list : ℕ) → R → Memory → Option (ℕ × R × Memory)
  sort_loop zero insize list res m = none
  sort_loop (suc f) insize list res m = pass_loop (suc f) insize 0 list 0 0 res m >>= λ r.
      let (nmerges, list', tail, res', m') = r in
      elim (tail == 0) [
        | true ↦ none
        | false ↦ elim (leb nmerges 1) [
          | true ↦ some (list', res', set_next tail 0 m')
          | false ↦ elim (ltb (insize * 2) (2 ^ 31)) [
            | true ↦ sort_loop f (insize * 2) list' res' (set_next tail 0 m')
            | false ↦ none
          ]
        ]
      ]

  unfoldable pub core_list_mergesort : (fuel list : ℕ) → R → Memory → Option (ℕ × R × Memory)
  core_list_mergesort fuel list res m = sort_loop fuel 1 list res m
