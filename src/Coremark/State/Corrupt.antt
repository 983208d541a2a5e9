-- ===== src/Coremark/State/Corrupt.antt =====
-- The corruption of the input block in coremark/core_state.c, byte by byte.
use mathlib.Core.Path.{subst}
use native.Mathlib.Nat.{mod-eq_of_lt, mod-eq-sub-mod}
use multiplix.Prelude.{
  ℕ, zero, suc, ◌+◌, ◌-◌, ◌%◌, ◌≤◌, ◌<◌, ◌≡◌, ◌≢◌, refl, ◌∙◌, Bool, true, false, ◌&&◌, Option, some,
  List, ◌==◌, arith, Bool-cases, inl, inr, ==_iff, length, if◌then◌else◌, bit_xor, ltb, leb, get_or,
  set, length-set, get_elem?-get_or, get_or-set_self, get_or-set_ne,
}
use multiplix.Coremark.State.{corrupt}

-- The loop from `p` visits byte `j`.
abbrev pub hit : (stride blksize p j : ℕ) → Bool
hit stride blksize p j = leb p j && (ltb j blksize && (j - p) % stride == 0)

-- What a visit does to a byte.
abbrev pub scramble : ℕ → ℕ → ℕ
scramble seed b = if b == b',' then b else bit_xor b (seed % 256)

-- The loop returns, with the visited bytes scrambled and the others as they were.
pub record Corrupted (stride seed blksize p : ℕ) (mem : List ℕ) (result : Option (List ℕ))
    : Type 0 where
  pub out : List ℕ
  pub returns : result ≡ some out
  pub same_length : length out ≡ length mem
  pub bytes :
      (j : ℕ)
      → get_or out j 0
        ≡ (if hit stride blksize p j then scramble seed (get_or mem j 0) else get_or mem j 0)

hit-next :
    (stride blksize p j : ℕ)
    → 0 < stride
    → j ≢ p
    → hit stride blksize (p + stride) j ≡ hit stride blksize p j
hit-next stride blksize p j pos ne = elim (Bool-cases (leb (p + stride) j)) [
  | inl later ↦
      let same : (j - (p + stride)) % stride ≡ (j - p) % stride = grind (arith, mod-eq-sub-mod) in
      ground arith
  | inr sooner ↦ ground (arith, mod-eq_of_lt {n = j - p} {m = stride})
]

hit_self : (stride blksize p : ℕ) → p < blksize → hit stride blksize p p ≡ true
hit_self stride blksize p h = let none_left : (p - p) % stride ≡ 0 = grind arith in ground arith

abbrev visit : ℕ → List ℕ → ℕ → List ℕ
visit seed mem p =
    if get_or mem p 0 == b',' then mem else set mem p (bit_xor (get_or mem p 0) (seed % 256))

visit-length : (seed : ℕ) (mem : List ℕ) (p : ℕ) → length (visit seed mem p) ≡ length mem
visit-length seed mem p = ground (arith, length-set mem p (bit_xor (get_or mem p 0) (seed % 256)))

visit-bytes :
    (seed : ℕ) (mem : List ℕ) (p j : ℕ)
    → p < length mem
    → get_or (visit seed mem p) j 0
      ≡ (if j == p then scramble seed (get_or mem p 0) else get_or mem j 0)
visit-bytes seed mem p j h = ground (
  arith,
  get_or-set_self mem p (bit_xor (get_or mem p 0) (seed % 256)) 0 h,
  get_or-set_ne mem p j (bit_xor (get_or mem p 0) (seed % 256)) 0,
)

-- One visit, and the loop from the next byte on.
visited :
    (stride seed blksize p j : ℕ) (mem out : List ℕ)
    → 0 < stride
    → p < blksize
    → p < length mem
    → get_or out j 0 ≡ (
        if hit stride blksize (p + stride) j
        then scramble seed (get_or (visit seed mem p) j 0)
        else get_or (visit seed mem p) j 0)
    → get_or out j 0
      ≡ (if hit stride blksize p j then scramble seed (get_or mem j 0) else get_or mem j 0)
visited stride seed blksize p j mem out pos below fits rest = elim (Bool-cases (j == p)) [
  | inl same ↦
      let e : j ≡ p = (==_iff j p).0 same in
      rw (e, hit_self stride blksize p below)
        (let past : hit stride blksize (p + stride) p ≡ false = ground arith in
          let byte : get_or (visit seed mem p) p 0 ≡ scramble seed (get_or mem p 0) =
            ground (arith, visit-bytes seed mem p p fits) in
          let here =
            subst
              (λ k. get_or out k 0 ≡ (
                if hit stride blksize (p + stride) k
                then scramble seed (get_or (visit seed mem p) k 0)
                else get_or (visit seed mem p) k 0))
              e rest in
          (rw past at here) ∙ byte)
  | inr other ↦
      let byte : get_or (visit seed mem p) j 0 ≡ get_or mem j 0 =
        visit-bytes seed mem p j fits ∙ rw other in
      (rw (hit-next stride blksize p j pos (ground arith), byte) at rest)
]

-- With a positive stride and the block in memory, the loop ends within one round for each byte
-- that is left and one more.
pub corrupt-Corrupted :
    (f stride seed blksize p : ℕ) (mem : List ℕ)
    → 0 < stride
    → blksize ≤ length mem
    → blksize - p < f
    → Corrupted stride seed blksize p mem (corrupt f stride seed blksize p mem)
unfolding corrupt
corrupt-Corrupted zero stride seed blksize p mem pos fits enough = absurd (omega arith)
corrupt-Corrupted (suc f) stride seed blksize p mem pos fits enough =
    elim (Bool-cases (ltb p blksize)) [
      | inr past ↦ record {
        out = mem;
        returns = rw past;
        same_length = refl;
        bytes = λ j. ground arith;
      }
      | inl here ↦
          let read = get_elem?-get_or mem p 0 (ground arith) in
          let mem' : List ℕ = visit seed mem p in
          let rest =
            corrupt-Corrupted f stride seed blksize (p + stride) mem' pos
              (rw (visit-length seed mem p) fits) (ground arith) in
          record {
            out = rest.out;
            returns = rw (here, read) rest.returns;
            same_length = rest.same_length ∙ visit-length seed mem p;
            bytes = λ j.
                visited stride seed blksize p j mem rest.out pos (ground arith) (ground arith)
                  (rest.bytes j);
          }
    ]
