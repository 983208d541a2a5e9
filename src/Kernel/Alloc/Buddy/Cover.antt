-- ===== src/Kernel/Alloc/Buddy/Cover.antt =====
-- The bytes that the free blocks of src/plix/alloc/buddy.d cover, counted.
use native.Mathlib.Nat.{pow-suc}
use native.Mathlib.Decide.{ℕ_discrete}
use multiplix.Prelude.{
  ℕ, zero, suc, ◌+◌, ◌^◌, ◌≤◌, ◌<◌, ◌≡◌, ◌≢◌, refl, ap, arith, List, [], ◌∷◌, length, get_or, set,
  leb, ltb, if◌then◌else◌,
}

-- 1 if the byte `x` lies in the `s` bytes from `a` on.
abbrev pub inside : (s a x : ℕ) → ℕ
inside s a x = if leb a x then (if ltb x (a + s) then 1 else 0) else 0

-- The number of blocks of one list that cover `x`.
abbrev pub covered : (s : ℕ) → List ℕ → ℕ → ℕ
covered s [] x = 0
covered s (a ∷ l) x = inside s a x + covered s l x

-- The number of free blocks that cover `x`; the blocks of the first list have `2 ^ m` bytes.
abbrev pub cover : (m : ℕ) → List (List ℕ) → ℕ → ℕ
cover m [] x = 0
cover m (l ∷ ls) x = covered (2 ^ m) l x + cover (suc m) ls x

pub inside_self : (s a : ℕ) → 0 < s → inside s a a ≡ 1
inside_self s a h = ground arith

-- A block is its two halves.
pub inside-halves :
    (k a x : ℕ) → inside (2 ^ suc k) a x ≡ inside (2 ^ k) a x + inside (2 ^ k) (a + 2 ^ k) x
inside-halves k a x = ground (arith, pow-suc 2 k)

pub cover-set :
    (m : ℕ) (ls : List (List ℕ)) (o : ℕ) (l : List ℕ) (x : ℕ)
    → o < length ls
    → cover m (set ls o l) x + covered (2 ^ (m + o)) (get_or ls o []) x
      ≡ cover m ls x + covered (2 ^ (m + o)) l x
cover-set m [] o l x h = absurd (omega arith)
cover-set m (k ∷ ls) zero l x h = let e : m + 0 ≡ m = omega arith in rw e (omega arith)
cover-set m (k ∷ ls) (suc o) l x h =
    let e : m + suc o ≡ suc m + o = omega arith in
    rw e (omega (arith, cover-set (suc m) ls o l x (omega arith)))

pub covered-le :
    (m : ℕ) (ls : List (List ℕ)) (o x : ℕ)
    → o < length ls
    → covered (2 ^ (m + o)) (get_or ls o []) x ≤ cover m ls x
covered-le m [] o x h = absurd (omega arith)
covered-le m (k ∷ ls) zero x h = let e : m + 0 ≡ m = omega arith in rw e (omega arith)
covered-le m (k ∷ ls) (suc o) x h =
    let e : m + suc o ≡ suc m + o = omega arith in
    rw e (omega (arith, covered-le (suc m) ls o x (omega arith)))

pub covered-two :
    (m : ℕ) (ls : List (List ℕ)) (o o' x : ℕ)
    → o < length ls
    → o' < length ls
    → o ≢ o'
    → covered (2 ^ (m + o)) (get_or ls o []) x + covered (2 ^ (m + o')) (get_or ls o' []) x
      ≤ cover m ls x
covered-two m [] o o' x h h' ne = absurd (omega arith)
covered-two m (k ∷ ls) zero zero x h h' ne = absurd (ne refl)
covered-two m (k ∷ ls) zero (suc o') x h h' ne =
    let e : m + 0 ≡ m = omega arith in
    let e' : m + suc o' ≡ suc m + o' = omega arith in
    rw (e, e') (omega (arith, covered-le (suc m) ls o' x (omega arith)))
covered-two m (k ∷ ls) (suc o) zero x h h' ne =
    let e : m + 0 ≡ m = omega arith in
    let e' : m + suc o ≡ suc m + o = omega arith in
    rw (e, e') (omega (arith, covered-le (suc m) ls o x (omega arith)))
covered-two m (k ∷ ls) (suc o) (suc o') x h h' ne =
    let e : m + suc o ≡ suc m + o = omega arith in
    let e' : m + suc o' ≡ suc m + o' = omega arith in
    rw (e, e')
      (omega
        (arith, covered-two (suc m) ls o o' x (omega arith) (omega arith) (λ q. ne (ap suc q))))

-- The sum of `f` over the `n` bytes from `base` on.
abbrev total : (base n : ℕ) → (ℕ → ℕ) → ℕ
total base zero f = 0
total base (suc n) f = f (base + n) + total base n f

total-le : (base n : ℕ) (f : ℕ → ℕ) → ((x : ℕ) → f x ≤ 1) → total base n f ≤ n
total-le base zero f h = omega arith
total-le base (suc n) f h = omega (arith, h (base + n), total-le base n f h)

total-add :
    (base n : ℕ) (f g : ℕ → ℕ) → total base n (λ x. f x + g x) ≡ total base n f + total base n g
total-add base zero f g = refl
total-add base (suc n) f g = omega (arith, total-add base n f g)

total-inside : (base n s a : ℕ) → 0 < s → base ≤ a → a < base + n → 1 ≤ total base n (inside s a)
total-inside base zero s a pos lo hi = absurd (omega arith)
total-inside base (suc n) s a pos lo hi = elim (ℕ_discrete a (base + n)) [
  | yes e ↦ ground arith
  | no ne ↦ omega (arith, total-inside base n s a pos lo (omega arith))
]

-- A list of blocks inside `n` bytes that do not overlap has `n` blocks at most.
pub blocks-le :
    (base n s : ℕ) (xs : List ℕ)
    → 0 < s
    → ((x : ℕ) → covered s xs x ≤ 1)
    → ((x : ℕ) → covered s xs x ≢ 0 → (base ≤ x) × (x < base + n))
    → length xs ≤ n
blocks-le base n s xs pos once within =
    omega (arith, count xs within, total-le base n (covered s xs) once)
  where
    count :
        (l : List ℕ)
        → ((x : ℕ) → covered s l x ≢ 0 → (base ≤ x) × (x < base + n))
        → length l ≤ total base n (covered s l)
    count [] h = omega arith
    count (a ∷ l) h =
        let at = h a (omega (arith, inside_self s a pos)) in
        omega (
          arith,
          total-add base n (inside s a) (covered s l),
          total-inside base n s a pos at.0 at.1,
          count l (λ x c. h x (omega arith)),
        )
