-- ===== src/Coremark/ListJoin/Sort/Moves.antt =====
-- One cell's move to the merged list in the merging loop of coremark/core_list_join.c.
use mathlib.Core.Path.{subst}
use multiplix.Prelude.{
  ℕ, ◌+◌, ◌-◌, ◌≤◌, List, [], ◌∷◌, ◌++◌, length, ◌≡◌, ◌⊎◌, sym, arith, inl, inr,
}
use multiplix.Coremark.ListJoin.{Memory}
use multiplix.Coremark.ListJoin.Laws.{Linked, count}
use multiplix.Coremark.ListJoin.Sort.{Merge, from_p, from_q}
use multiplix.Coremark.ListJoin.Sort.Chains.{
  head, Run, Emitted, linked_to, started, Run-linked_to, Linked-linked_to, Emitted-linked_to,
  emit_lem,
}

-- The loop's variables: `r` is merged, `ps` and `qs` are to be merged, `rest` follows them.
pub record At (s : Merge) (next : ℕ → ℕ) (r ps qs rest : List ℕ) : Type 0 where
  pub out : Emitted next s.list r
  pub tail : s.tail ≡ head r
  pub from : Run next s.p ps
  pub behind : Linked next s.q (qs ++ rest)
  pub psize : s.psize ≡ length ps
  pub qsize : length qs ≤ s.qsize
  pub whole : (rest ≡ []) ⊎ (length qs ≡ s.qsize)

-- All cells differ, and none is null.
pub record Apart (r ps qs : List ℕ) : Type 0 where
  pub once : (a : ℕ) → count a r + (count a ps + count a qs) ≤ 1
  pub no_null : count 0 r + (count 0 ps + count 0 qs) ≡ 0

pub Apart-p : (r ps qs : List ℕ) (x : ℕ) → Apart r (x ∷ ps) qs → Apart (x ∷ r) ps qs
Apart-p r ps qs x h = record {
  once = λ a. omega (arith, h.once a);
  no_null = omega (arith, h.no_null);
}

pub Apart-q : (r ps qs : List ℕ) (y : ℕ) → Apart r ps (y ∷ qs) → Apart (y ∷ r) ps qs
Apart-q r ps qs y h = record {
  once = λ a. omega (arith, h.once a);
  no_null = omega (arith, h.no_null);
}

-- The state after `from_p` and `from_q`.
abbrev pub after_p : List ℕ → Merge → Memory → Merge
after_p r s m = record s {
  p = m.next s.p;
  psize = s.psize - 1;
  list = started r s.p s.list;
  tail = s.p;
}

abbrev pub after_q : List ℕ → Merge → Memory → Merge
after_q r s m = record s {
  q = m.next s.q;
  qsize = s.qsize - 1;
  list = started r s.q s.list;
  tail = s.q;
}

pub from_p-At :
    (s : Merge) (m : Memory) (r ps qs rest : List ℕ) (x : ℕ)
    → Apart r (x ∷ ps) (qs ++ rest)
    → At s m.next r (x ∷ ps) qs rest
    → (from_p s m ≡ (after_p r s m, record m { next = linked_to r s.p m.next }))
      × At (after_p r s m) (linked_to r s.p m.next) (x ∷ r) ps qs rest
from_p-At s m r ps qs rest x apart h =
    let (at, from) = h.from in
    (
      emit_lem r s.p (record s { p = m.next s.p; psize = s.psize - 1 }) m h.tail
          (omega (arith, apart.no_null)),
      record {
        out =
            subst (λ (z : ℕ). Emitted (linked_to r s.p m.next) (started r s.p s.list) (z ∷ r)) at
              (Emitted-linked_to m.next r s.p s.list (λ a. omega (arith, apart.once a)) h.out);
        tail = at;
        from =
            Run-linked_to m.next r s.p (m.next s.p) ps (λ a. omega (arith, apart.once a))
              (subst (λ (z : ℕ). Run m.next (m.next z) ps) (sym at) from);
        behind =
            Linked-linked_to m.next r s.p s.q (qs ++ rest) (λ a. omega (arith, apart.once a))
              h.behind;
        psize = omega (arith, h.psize);
        qsize = h.qsize;
        whole = h.whole;
      },
    )

pub from_q-At :
    (s : Merge) (m : Memory) (r ps qs rest : List ℕ) (y : ℕ)
    → Apart r ps (y ∷ qs ++ rest)
    → At s m.next r ps (y ∷ qs) rest
    → (from_q s m ≡ (after_q r s m, record m { next = linked_to r s.q m.next }))
      × At (after_q r s m) (linked_to r s.q m.next) (y ∷ r) ps qs rest
from_q-At s m r ps qs rest y apart h =
    let (at, ne, behind) = h.behind in
    (
      emit_lem r s.q (record s { q = m.next s.q; qsize = s.qsize - 1 }) m h.tail
          (omega (arith, apart.no_null)),
      record {
        out =
            subst (λ (z : ℕ). Emitted (linked_to r s.q m.next) (started r s.q s.list) (z ∷ r)) at
              (Emitted-linked_to m.next r s.q s.list (λ a. omega (arith, apart.once a)) h.out);
        tail = at;
        from = Run-linked_to m.next r s.q s.p ps (λ a. omega (arith, apart.once a)) h.from;
        behind =
            Linked-linked_to m.next r s.q (m.next s.q) (qs ++ rest)
              (λ a. omega (arith, apart.once a))
              (subst (λ (z : ℕ). Linked m.next (m.next z) (qs ++ rest)) (sym at) behind);
        psize = h.psize;
        qsize = omega (arith, h.qsize);
        whole = elim h.whole [ inl e ↦ inl e | inr e ↦ inr (omega arith) ];
      },
    )
