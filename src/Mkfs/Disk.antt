-- ===== src/Mkfs/Disk.antt =====
-- The image file and the globals of tools/mkfs/mkfs.c, `rsect` and `wsect`, and the ways in which
-- the program stops.
use multiplix.Prelude.{
  ℕ, ◌-◌, ◌*◌, ◌/◌, ◌%◌, ◌^◌, arith, refl, Bool, true, false, none, some, List, [], ◌∷◌, ◌++◌,
  get_elem?, set, replicate, length, ltb, if◌then◌else◌, ◌≡◌, ◌<◌, lt→ltb,
}

abbrev pub bsize : ℕ
bsize = 1024

abbrev pub Block : Type 0
Block = List ℕ

-- `fsfd`, as its sectors, with `freeinode` and `freeblock`.
pub record Mkfs : Type 0 where
  pub disk : List Block
  pub freeinode : ℕ
  pub freeblock : ℕ

-- `usage` is exit(1) with the usage line, `died` is `die`; `out_of_fuel` is a loop of the model that
-- was given too few rounds.
pub data Stop : Type 0 where
  usage died assertion out_of_fuel : Stop

pub data Result (A : Type 0) : Type 0 where
  ok : A → Mkfs → Result A
  stop : Stop → Result A

abbrev pub M : Type 0 → Type 0
M A = Mkfs → Result A

abbrev pub pure : {A : Type 0} → A → M A
pure a s = ok a s

infixl 5 ◌>>=◌ ◌>>◌
abbrev pub ◌>>=◌ : {A B : Type 0} → M A → (A → M B) → M B
◌>>=◌ m f s = elim (m s) [ ok a s' ↦ f a s' | stop e ↦ stop e ]

abbrev pub ◌>>◌ : {B : Type 0} → M (Unit {0}) → M B → M B
m >> k = m >>= λ _. k

abbrev pub assert : Bool → M (Unit {0})
assert true s = ok tt s
assert false s = stop assertion

abbrev pub zeroes : Block
zeroes = replicate bsize 0

-- The sector at the offset `sec * BSIZE`, which is a `uint`.
abbrev pub sector_at : ℕ → ℕ
sector_at sec = sec * bsize % 2 ^ 32 / bsize

-- `lseek` and `read`: past the end of the file no whole sector is read, and the program dies.
unfoldable pub rsect : ℕ → M Block
rsect sec s = elim (get_elem? s.disk (sector_at sec)) [ none ↦ stop died | some b ↦ ok b s ]

-- `lseek` and `write`: a write past the end of the file extends it, the gap reading as zeroes.
unfoldable pub wsect : ℕ → Block → M (Unit {0})
wsect sec buf s =
    let at = sector_at sec in
    if ltb at (length s.disk)
    then ok tt (record s { disk = set s.disk at buf })
    else ok tt (record s { disk = s.disk ++ (replicate (at - length s.disk) zeroes ++ buf ∷ []) })

-- The rule for a step that succeeds.
pub >>=-ok :
    {A B : Type 0} (m : M A) (f : A → M B) (s : Mkfs) {a : A} {s' : Mkfs}
    → m s ≡ ok a s'
    → (m >>= f) s ≡ f a s'
>>=-ok m f s e = rw (e, ◌>>=◌)

pub sector_at_same : (sec : ℕ) → sec < 2 ^ 22 → sector_at sec ≡ sec
sector_at_same sec low = omega arith

pub rsect-some :
    (sec : ℕ) (s : Mkfs) (b : Block)
    → sec < 2 ^ 22
    → get_elem? s.disk sec ≡ some b
    → rsect sec s ≡ ok b s
unfolding rsect
rsect-some sec s b low e = rw (sector_at_same sec low, e, rsect)

pub wsect-set :
    (sec : ℕ) (buf : Block) (s : Mkfs)
    → sec < 2 ^ 22
    → sec < length s.disk
    → wsect sec buf s ≡ ok tt (record s { disk = set s.disk sec buf })
unfolding wsect
wsect-set sec buf s low lt = rw (sector_at_same sec low, lt→ltb sec (length s.disk) lt) refl
