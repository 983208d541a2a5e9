-- ===== src/Coremark/State/Progress.antt =====
-- Every transition consumes input, so the loops of coremark/core_state.c end.
use multiplix.Prelude.{
  ℕ, zero, suc, ◌≤◌, ◌<◌, ◌≡◌, ◌≢◌, Bool, true, false, ◌||◌, Option, some, List, [], ◌∷◌, ◌==◌,
  arith, Bool-cases, inl, inr, length,
}
use native.Mathlib.Nat.{le_refl}
use multiplix.Coremark.State.{
  CoreState, start, is_invalid, Counts, step, scan, core_state_transition, bump, classify_all,
}

-- The string that starts here ends within the block.
abbrev pub has_nul : List ℕ → Bool
has_nul [] = false
has_nul (b ∷ str) = b == 0 || has_nul str

-- A scan that returns, with a terminated string of bounded length left.
pub record Scanned (limit : ℕ) (result : Option (CoreState × List ℕ × Counts)) : Type 0 where
  pub state : CoreState
  pub rest : List ℕ
  pub counts : Counts
  pub returns : result ≡ some (state, rest, counts)
  pub terminated : has_nul rest ≡ true
  pub shorter : length rest ≤ limit

scan_consumes :
    (s : CoreState) (b : ℕ) (str : List ℕ) (c : Counts)
    → (b == 0 || is_invalid s) ≡ false
    → has_nul str ≡ true
    → Scanned (length str) (scan (step s b c).0 str (step s b c).1)
    → Scanned (length str) (scan s (b ∷ str) c)
unfolding scan
scan_consumes s b str c go h next = elim (Bool-cases (b == b',')) [
  | inl comma ↦ record {
    state = s;
    rest = str;
    counts = c;
    returns = rw (go, comma);
    terminated = h;
    shorter = le_refl _;
  }
  | inr other ↦ record {
    state = next.state;
    rest = next.rest;
    counts = next.counts;
    returns = rw (go, other) next.returns;
    terminated = next.terminated;
    shorter = next.shorter;
  }
]

scan-Scanned :
    (s : CoreState) (str : List ℕ) (c : Counts)
    → has_nul str ≡ true
    → Scanned (length str) (scan s str c)
unfolding scan
scan-Scanned s [] c h = absurd (ground arith)
scan-Scanned s (b ∷ str) c h = elim (Bool-cases (b == 0 || is_invalid s)) [
  | inl stop ↦ record {
    state = s;
    rest = b ∷ str;
    counts = c;
    returns = rw stop;
    terminated = h;
    shorter = le_refl _;
  }
  | inr go ↦
      let h' : has_nul str ≡ true = ground arith in
      let once =
        scan_consumes s b str c go h' (scan-Scanned (step s b c).0 str (step s b c).1 h') in
      record {
        state = once.state;
        rest = once.rest;
        counts = once.counts;
        returns = once.returns;
        terminated = once.terminated;
        shorter = omega (arith, once.shorter);
      }
]

pub transition-Scanned :
    (b : ℕ) (str : List ℕ) (c : Counts)
    → b ≢ 0
    → has_nul str ≡ true
    → Scanned (length str) (core_state_transition (b ∷ str) c)
unfolding core_state_transition
transition-Scanned b str c ne h =
    scan_consumes start b str c (ground arith) h
      (scan-Scanned (step start b c).0 str (step start b c).1 h)

-- The loop over a terminated input ends within one round for each byte and one more, and reads
-- nothing outside the block.
pub classify_all_total :
    (f : ℕ) (p : List ℕ) (final track : Counts)
    → has_nul p ≡ true
    → length p < f
    → (r : Counts × Counts) × (classify_all f p final track ≡ some r)
unfolding classify_all
classify_all_total zero p final track h lt = absurd (omega arith)
classify_all_total (suc f) [] final track h lt = absurd (ground arith)
classify_all_total (suc f) (b ∷ p) final track h lt = elim (Bool-cases (b == 0)) [
  | inl done ↦ ((final, track), rw done)
  | inr more ↦
      let t = transition-Scanned b p track (ground arith) (ground arith) in
      let rest =
        classify_all_total f t.rest (bump t.state final) t.counts t.terminated
          (omega (arith, t.shorter)) in
      (rest.0, rw (more, t.returns) rest.1)
]
