-- ===== src/Memory/Blocks.antt =====
-- The free list of the heap as a list of blocks, each an address and a length, in ascending order
-- and apart from each other.
use xinu_c_mips.Base.{
  ℕ, ◌+◌, ◌-◌, ◌%◌, ◌^◌, ◌<◌, ◌≤◌, ◌≡◌, ◌∙◌, Option, none, some, List, [], ◌∷◌, length, ltb, ◌==◌,
  if◌then◌else◌, arith,
}
use xinu_c_mips.Memory.{roundmb}

-- From the header at `a` the free list leads through the blocks, which lie between `lo` and `hi`.
abbrev pub Blocks : (ℕ → ℕ) → ℕ → ℕ → ℕ → List (ℕ × ℕ) → Type 0
Blocks m a lo hi [] = m a ≡ 0
Blocks m a lo hi ((p, n) ∷ bs) =
    (m a ≡ p)
    × (m (p + 4) ≡ n)
    × (lo ≤ p)
    × (p + n ≤ hi)
    × (n % 8 ≡ 0)
    × (0 < n)
    × Blocks m p (p + n) hi bs

-- The same blocks from another header, in a memory that keeps the part behind it.
pub Blocks-move :
    (m m' : ℕ → ℕ) (a a' lo lo' hi : ℕ) (bs : List (ℕ × ℕ))
    → m' a' ≡ m a
    → lo' ≤ lo
    → ((x : ℕ) → lo ≤ x → m' x ≡ m x)
    → Blocks m a lo hi bs
    → Blocks m' a' lo' hi bs
Blocks-move m m' a a' lo lo' hi [] e h f b = e ∙ b
Blocks-move m m' a a' lo lo' hi ((p, n) ∷ bs) e h f b = (
  e ∙ b.0,
  f (p + 4) (omega (arith, b.2)) ∙ b.1,
  omega (arith, b.2),
  b.3,
  b.4,
  b.5,
  Blocks-move m m' p p (p + n) (p + n) hi bs (f p b.2) (omega arith)
      (λ x g. f x (omega (arith, b.2))) b.6,
)

-- A walk of the free list is shorter than the heap.
pub length-Blocks :
    (m : ℕ → ℕ) (a lo hi : ℕ) (bs : List (ℕ × ℕ))
    → lo ≤ hi
    → Blocks m a lo hi bs
    → lo + length bs ≤ hi
length-Blocks m a lo hi [] h b = omega arith
length-Blocks m a lo hi ((p, n) ∷ bs) h b =
    omega (arith, b.2, b.5, length-Blocks m p (p + n) hi bs b.3 b.6)

-- The first block that is long enough, and the free list without the part that is taken.
abbrev pub keep : ℕ × ℕ → Option (ℕ × List (ℕ × ℕ)) → Option (ℕ × List (ℕ × ℕ))
keep b none = none
keep b (some (r, bs)) = some (r, b ∷ bs)

abbrev pub first_fit : ℕ → List (ℕ × ℕ) → Option (ℕ × List (ℕ × ℕ))
first_fit size [] = none
first_fit size ((p, n) ∷ bs) =
    if n == size
    then some (p, bs)
    else if ltb size n
    then some (p, (p + size, n - size) ∷ bs)
    else keep (p, n) (first_fit size bs)

-- `roundmb` rounds up to the next multiple of 8, unless the sum wraps.
pub roundmb-bounds :
    (x : ℕ) → x ≤ 2 ^ 32 - 8 → (roundmb x % 8 ≡ 0) × (x ≤ roundmb x) × (roundmb x < x + 8)
unfolding roundmb
roundmb-bounds x h = (omega arith, omega arith, omega arith)
