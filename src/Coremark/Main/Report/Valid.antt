-- ===== src/Coremark/Main/Report/Valid.antt =====
-- When coremark/core_main.c calls a run validated.
use multiplix.Prelude.{
  ℕ, ◌≤◌, ◌<◌, ◌≡◌, ◌⊎◌, ◌↔◌, inl, inr, refl, sym, ◌∙◌, ap, arith, false, Option, none, some,
  Bool-cases, get_or,
}
use multiplix.Coremark.ListJoin.Bench.{Results}
use multiplix.Coremark.Main.{executes}
use multiplix.Coremark.Main.Report.{
  list_known_crc, matrix_known_crc, state_known_crc, seedcrc, known_id, mismatch, err_of, Sizes,
  check_data_types, total_errors, validated, verdict, report,
}

-- An algorithm did not run or has the CRC that is known.
abbrev pub AsKnown : (execs i crc known : ℕ) → Type 0
AsKnown execs i crc known = (executes execs i ≡ false) ⊎ (crc ≡ known)

-- All three have.
abbrev pub AllKnown : ℕ → Results → Type 0
AllKnown k res =
    AsKnown res.execs 0 res.crclist (get_or list_known_crc k 0)
    × AsKnown res.execs 1 res.crcmatrix (get_or matrix_known_crc k 0)
    × AsKnown res.execs 2 res.crcstate (get_or state_known_crc k 0)

mismatch-le : (execs i crc known : ℕ) → mismatch execs i crc known ≤ 1
unfolding mismatch
mismatch-le execs i crc known = ground arith

mismatch_none : (execs i crc known : ℕ) → mismatch execs i crc known ≡ 0 → AsKnown execs i crc known
unfolding mismatch
mismatch_none execs i crc known h = elim (Bool-cases (executes execs i)) [
  | inr e ↦ inl e
  | inl e ↦ inr (let h' = rw e at h in ground arith)
]

none_mismatch : (execs i crc known : ℕ) → AsKnown execs i crc known → mismatch execs i crc known ≡ 0
unfolding mismatch
none_mismatch execs i crc known (inl e) = rw e refl
none_mismatch execs i crc known (inr e) = ground arith

err_small : (k : ℕ) (res : Results) → err_of k res ≤ 3
unfolding err_of
err_small k res = omega (
  arith,
  mismatch-le res.execs 0 res.crclist (get_or list_known_crc k 0),
  mismatch-le res.execs 1 res.crcmatrix (get_or matrix_known_crc k 0),
  mismatch-le res.execs 2 res.crcstate (get_or state_known_crc k 0),
)

err_none : (k : ℕ) (res : Results) → err_of k res ≡ 0 → AllKnown k res
unfolding err_of
err_none k res h = (
  mismatch_none res.execs 0 res.crclist (get_or list_known_crc k 0) (omega arith),
  mismatch_none res.execs 1 res.crcmatrix (get_or matrix_known_crc k 0) (omega arith),
  mismatch_none res.execs 2 res.crcstate (get_or state_known_crc k 0) (omega arith),
)

none_err : (k : ℕ) (res : Results) → AllKnown k res → err_of k res ≡ 0
unfolding err_of
none_err k res (a, b, c) = omega (
  arith,
  none_mismatch res.execs 0 res.crclist (get_or list_known_crc k 0) a,
  none_mismatch res.execs 1 res.crcmatrix (get_or matrix_known_crc k 0) b,
  none_mismatch res.execs 2 res.crcstate (get_or state_known_crc k 0) c,
)

verdict_zero : (e : ℕ) → verdict e ≡ validated → e ≡ 0
unfolding verdict
verdict_zero e h = ground arith

zero_verdict : (e : ℕ) → e ≡ 0 → verdict e ≡ validated
unfolding verdict
zero_verdict e h = ground arith

-- What makes a run valid, and what else passes for it.
abbrev pub Passes : (known : Option ℕ) → (secs : ℕ) → Results → Type 0
Passes none secs res = secs < 10
Passes (some k) secs res = (10 ≤ secs) × AllKnown k res

passes :
    (known : Option ℕ) (secs : ℕ) (res : Results)
    → total_errors known res 0 secs ≡ 0
    → Passes known secs res
unfolding total_errors
passes none secs res h = ground arith
passes (some k) secs res h =
    let small = err_small k res in (ground arith, err_none k res (ground arith))

passed :
    (known : Option ℕ) (secs : ℕ) (res : Results)
    → Passes known secs res
    → total_errors known res 0 secs ≡ 0
unfolding total_errors
passed none secs res h = ground arith
passed (some k) secs res (long, all) = let e = none_err k res all in ground arith

-- On a target whose types have the sizes that are meant, a run is called validated exactly in two
-- cases: its seeds and size are known, it took 10 seconds or more, and each algorithm that ran has
-- the CRC known for them; or its seeds and size are not known and it took less than 10 seconds,
-- whatever it computed.
pub report-validated :
    (z : Sizes) (secs : ℕ) (res : Results)
    → check_data_types z ≡ 0
    → (report z secs res ≡ validated) ↔ Passes (known_id (seedcrc res)) secs res
unfolding report
report-validated z secs res types =
    let known = known_id (seedcrc res) in
    let e = ap (λ (t : ℕ). total_errors known res t secs) types in
    (
      λ h.
          passes known secs res
            (sym e ∙ verdict_zero (total_errors known res (check_data_types z) secs) h),
      λ h.
          zero_verdict (total_errors known res (check_data_types z) secs)
            (e ∙ passed known secs res h),
    )
