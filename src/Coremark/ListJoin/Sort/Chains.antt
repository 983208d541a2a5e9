-- ===== src/Coremark/ListJoin/Sort/Chains.antt =====
-- The chains of cells that a merge of coremark/core_list_join.c works on.
use multiplix.Prelude.{ℕ, ◌+◌, ◌≤◌, List, [], ◌∷◌, true, false, ◌≡◌, refl, ap, arith, ◌==◌}
use multiplix.Coremark.ListJoin.{Memory, put, set_next}
use multiplix.Coremark.ListJoin.Laws.{Linked, count, reversed, Linked-put}
use multiplix.Coremark.ListJoin.Sort.{Merge, emit}

abbrev pub head : List ℕ → ℕ
head [] = 0
head (x ∷ xs) = x

-- The cells from `p` on, whatever follows them.
abbrev pub Run : (ℕ → ℕ) → ℕ → List ℕ → Type 0
Run next p [] = Unit {0}
Run next p (x ∷ xs) = (p ≡ x) × Run next (next x) xs

-- The merged list with its last cell in front; what follows that one is open.
abbrev pub Emitted : (ℕ → ℕ) → (list : ℕ) → List ℕ → Type 0
Emitted next list [] = Unit {0}
Emitted next list (x ∷ []) = list ≡ x
Emitted next list (x ∷ y ∷ r) = (next y ≡ x) × Emitted next list (y ∷ r)

-- The links and the head of the merged list after `e`.
abbrev pub linked_to : List ℕ → ℕ → (ℕ → ℕ) → ℕ → ℕ
linked_to [] e next = next
linked_to (t ∷ r) e next = put next t e

abbrev pub started : List ℕ → ℕ → ℕ → ℕ
started [] e list = e
started (t ∷ r) e list = list

Run-put :
    (next : ℕ → ℕ) (a v p : ℕ) (xs : List ℕ)
    → count a xs ≡ 0
    → Run next p xs
    → Run (put next a v) p xs
Run-put next a v p [] away h = tt
Run-put next a v p (x ∷ xs) away (e, h) =
    let apart : (x == a) ≡ false = ground arith in
    (e, rw apart (Run-put next a v (next x) xs (omega arith) h))

pub Run-linked_to :
    (next : ℕ → ℕ) (r : List ℕ) (e p : ℕ) (xs : List ℕ)
    → ((a : ℕ) → count a r + count a xs ≤ 1)
    → Run next p xs
    → Run (linked_to r e next) p xs
Run-linked_to next [] e p xs once h = h
Run-linked_to next (t ∷ r) e p xs once h = Run-put next t e p xs (ground (arith, once t)) h

pub Linked-linked_to :
    (next : ℕ → ℕ) (r : List ℕ) (e p : ℕ) (xs : List ℕ)
    → ((a : ℕ) → count a r + count a xs ≤ 1)
    → Linked next p xs
    → Linked (linked_to r e next) p xs
Linked-linked_to next [] e p xs once h = h
Linked-linked_to next (t ∷ r) e p xs once h = Linked-put next t e p xs (ground (arith, once t)) h

pub Emitted-put :
    (next : ℕ → ℕ) (t v list : ℕ) (x : ℕ) (r : List ℕ)
    → count t r ≡ 0
    → Emitted next list (x ∷ r)
    → Emitted (put next t v) list (x ∷ r)
Emitted-put next t v list x [] away h = h
Emitted-put next t v list x (y ∷ r) away (e, h) =
    let apart : (y == t) ≡ false = ground arith in
    (rw apart e, Emitted-put next t v list y r (omega arith) h)

pub Emitted-linked_to :
    (next : ℕ → ℕ) (r : List ℕ) (e list : ℕ)
    → ((a : ℕ) → count a r ≤ 1)
    → Emitted next list r
    → Emitted (linked_to r e next) (started r e list) (e ∷ r)
Emitted-linked_to next [] e list once h = refl
Emitted-linked_to next (t ∷ r) e list once h =
    let here : put next t e t ≡ e = ground arith in
    (here, Emitted-put next t e list t r (ground (arith, once t)) h)

-- What `emit` does where the last cell is that of `r`.
pub emit_lem :
    (r : List ℕ) (e : ℕ) (s : Merge) (m : Memory)
    → s.tail ≡ head r
    → count 0 r ≡ 0
    → emit e s m
      ≡ (record s { list = started r e s.list; tail = e }, record m { next = linked_to r e m.next })
emit_lem [] e s m h away = let z : (s.tail == 0) ≡ true = ground arith in rw z refl
emit_lem (t ∷ r) e s m h away =
    let z : (s.tail == 0) ≡ false = ground arith in
    rw z (ap (λ (a : ℕ). (record s { tail = e }, set_next a e m)) h)

-- The whole list, once a null link ends it.
pub Emitted-Linked :
    (next : ℕ → ℕ) (list p x : ℕ) (r ys : List ℕ)
    → count 0 (x ∷ r) ≡ 0
    → next x ≡ p
    → Emitted next list (x ∷ r)
    → Linked next p ys
    → Linked next list (reversed (x ∷ r) ys)
Emitted-Linked next list p x [] ys away e h t = (h, (λ z. absurd (ground arith)), rw e t)
Emitted-Linked next list p x (y ∷ r) ys away e (e', h) t =
    Emitted-Linked next list x y r (x ∷ ys) (omega arith) e' h
      (refl, (λ z. absurd (ground arith)), rw e t)
