-- ===== src/Coremark/ListJoin/Sort/Turns.antt =====
-- One turn of the merging loop of coremark/core_list_join.c, on each of its branches.
use multiplix.Prelude.{
  ℕ, suc, Bool, true, false, ◌≡◌, refl, ap, ◌==◌, not, ◌&&◌, ◌||◌, if◌then◌else◌, some, ◌>>=◌,
}
use multiplix.Coremark.ListJoin.{Memory}
use multiplix.Coremark.ListJoin.Sort.{ListCmp, Merge, from_p, from_q, merge_step, merge_rounds}

module _ {R : Type 0} (cmp : ListCmp R) where
  pub round :
      (f : ℕ) (s : Merge) (res : R) (m : Memory) (r : Merge × R × Memory)
      → (not (s.psize == 0) || (not (s.qsize == 0) && not (s.q == 0))) ≡ true
      → merge_step cmp s res m ≡ some r
      → merge_rounds cmp (suc f) s res m ≡ merge_rounds cmp f r.0 r.1 r.2
  unfolding merge_rounds
  round f s res m r more e =
      rw (more, merge_rounds) (ap (λ z. z >>= (λ c. merge_rounds cmp f c.0 c.1 c.2)) e)

  pub step_q :
      (s : Merge) (res : R) (m : Memory)
      → (s.psize == 0) ≡ true
      → merge_step cmp s res m ≡ some ((from_q s m).0, res, (from_q s m).1)
  unfolding merge_step
  step_q s res m a = rw a refl

  pub step_p :
      (s : Merge) (res : R) (m : Memory)
      → (s.psize == 0) ≡ false
      → ((s.qsize == 0) || (s.q == 0)) ≡ true
      → merge_step cmp s res m ≡ some ((from_p s m).0, res, (from_p s m).1)
  unfolding merge_step
  step_p s res m a b = rw (a, b) refl

  pub step_cmp :
      (s : Merge) (res res' : R) (m m' : Memory) (first : Bool)
      → (s.psize == 0) ≡ false
      → ((s.qsize == 0) || (s.q == 0)) ≡ false
      → cmp (m.info s.p) (m.info s.q) res m ≡ some (first, res', m')
      → merge_step cmp s res m
        ≡ (let r = if first then from_p s m' else from_q s m' in some (r.0, res', r.1))
  unfolding merge_step
  step_cmp s res res' m m' first a b c = rw (a, b, c) refl
