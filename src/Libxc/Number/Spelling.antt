-- ===== src/Libxc/Number/Spelling.antt =====
-- The text that the routines of doprnt.c write: digits that spell the number, and a NUL.
use xinu_c_mips.Base.{
  ℤ, ℕ, zero, suc, ◌+◌, ◌*◌, ◌/◌, ◌%◌, ◌^◌, ◌⊎◌, ◌<◌, ◌≤◌, ◌≡◌, ◌≢◌, inl, inr, refl, ap, ◌∙◌, List,
  [], ◌∷◌, ◌++◌, arith, ◌==◌, ne→==, Bool-cases, get_or, IsInt32, to_uint32, length,
}
use xinu_c_mips.Libxc.Number.{
  highest, at_least_1, copy_down, print_temp, decimal_cells, decimal_temp, magnitude, binary_cells,
  hex_digit, shift_right, prtl10, prtl16,
}
use xinu_c_mips.Libxc.Number.Writing.{
  read_back, read_back_printed, decimal_value, hex_value, read_back-decimal_cells,
  read_back-hex_cells,
}

-- The number that a text spells behind `acc`, the highest digit first.
abbrev pub spell : (ℕ → ℕ) → ℕ → List ℕ → ℕ → ℕ
spell value base [] acc = acc
spell value base (c ∷ cs) acc = spell value base cs (acc * base + value c)

-- At least one digit, and the first is '0' only if it is alone.
abbrev pub Canonical : List ℕ → Type 0
Canonical [] = ⊥
Canonical (c ∷ []) = Unit {0}
Canonical (c ∷ d ∷ ds) = c ≢ 48

abbrev pub All : (ℕ → Type 0) → List ℕ → Type 0
All P [] = Unit {0}
All P (c ∷ cs) = P c × All P cs

abbrev pub IsDecimal : ℕ → Type 0
IsDecimal c = (48 ≤ c) × (c ≤ 57)

abbrev pub IsHex : ℕ → Type 0
IsHex c = IsDecimal c ⊎ ((97 ≤ c) × (c ≤ 102))

abbrev pub Spelled : (ℕ → Type 0) → (ℕ → ℕ) → ℕ → ℕ → List ℕ → ℕ → Type 0
Spelled P value base width out v =
    (ds : List ℕ) × (out ≡ ds ++ (0 ∷ []))
    × (spell value base ds 0 ≡ v)
    × Canonical ds
    × All P ds
    × (length ds ≤ width)

-- The cells from `i` down to 1.
abbrev pub cells_from : ℕ → List ℕ → List ℕ
cells_from zero t = []
cells_from (suc i) t = get_or t (suc i) 0 ∷ cells_from i t

pub copy_down_lem : (i : ℕ) (t : List ℕ) → copy_down i t ≡ cells_from i t ++ (get_or t 0 0 ∷ [])
unfolding copy_down
copy_down_lem zero t = refl
copy_down_lem (suc i) t = ap (λ l. get_or t (suc i) 0 ∷ l) (copy_down_lem i t)

pub spell-cells_from :
    (value : ℕ → ℕ) (base i : ℕ) (t : List ℕ) (acc : ℕ)
    → spell value base (cells_from i t) acc ≡ read_back value base i t acc
spell-cells_from value base zero t acc = refl
spell-cells_from value base (suc i) t acc =
    spell-cells_from value base i t (acc * base + value (get_or t (suc i) 0))

highest_lem : (i j : ℕ) (t : List ℕ) → highest i t ≡ suc j → get_or t (suc j) 0 ≢ 48
unfolding highest
highest_lem zero j t e = cc
highest_lem (suc i) j t e = elim (Bool-cases (get_or t (suc i) 0 == 48)) [
  | inl w ↦ highest_lem i j t (ground arith)
  | inr w ↦ ground arith
]

printed-Canonical : (i : ℕ) (t : List ℕ) → Canonical (cells_from (at_least_1 (highest i t)) t)
printed-Canonical i t = go (highest i t) refl
  where
    go : (h : ℕ) → highest i t ≡ h → Canonical (cells_from (at_least_1 h) t)
    go zero e = tt
    go (suc zero) e = tt
    go (suc (suc j)) e = rw (ne→== (suc (suc j)) 0 (omega arith)) (highest_lem i (suc j) t e)

highest-le : (i : ℕ) (t : List ℕ) → highest i t ≤ i
unfolding highest
highest-le zero t = omega arith
highest-le (suc i) t = ground (arith, highest-le i t)

length-cells_from : (i : ℕ) (t : List ℕ) → length (cells_from i t) ≡ i
length-cells_from zero t = refl
length-cells_from (suc i) t = ap suc (length-cells_from i t)

-- The cells are digits.
cells_from-All :
    (P : ℕ → Type 0) (n i : ℕ) (cells : List ℕ)
    → ((j : ℕ) → j < n → P (get_or cells j 0))
    → i ≤ n
    → All P (cells_from i (0 ∷ cells))
cells_from-All P n zero cells f h = tt
cells_from-All P n (suc i) cells f h =
    (f i (omega arith), cells_from-All P n i cells f (omega arith))

decimal_cells-IsDecimal : (n m j : ℕ) → j < n → IsDecimal (get_or (decimal_cells n m) j 0)
unfolding decimal_cells
decimal_cells-IsDecimal zero m j h = absurd (omega arith)
decimal_cells-IsDecimal (suc n) m zero h = (omega arith, omega arith)
decimal_cells-IsDecimal (suc n) m (suc j) h = decimal_cells-IsDecimal n (m / 10) j (omega arith)

hex_digit-IsHex : (d : ℕ) → d < 16 → IsHex (hex_digit d)
hex_digit-IsHex d h = ground arith

binary_cells-IsHex :
    (n : ℕ) (num : ℤ) (j : ℕ) → j < n → IsHex (get_or (binary_cells hex_digit 4 n num) j 0)
unfolding binary_cells
binary_cells-IsHex zero num j h = absurd (omega arith)
binary_cells-IsHex (suc n) num zero h = hex_digit-IsHex (to_uint32 num % 2 ^ 4) (omega arith)
binary_cells-IsHex (suc n) num (suc j) h = binary_cells-IsHex n (shift_right num 4) j (omega arith)

print_temp-Spelled :
    (P : ℕ → Type 0) (value : ℕ → ℕ) (base i v : ℕ) (cells : List ℕ)
    → value 48 ≡ 0
    → ((j : ℕ) → j < suc i → P (get_or cells j 0))
    → read_back value base (suc i) (0 ∷ cells) 0 ≡ v
    → Spelled P value base (suc i) (print_temp (suc i) (0 ∷ cells)) v
unfolding print_temp
print_temp-Spelled P value base i v cells z f e =
    let t = 0 ∷ cells in
    let h = at_least_1 (highest (suc i) t) in
    let width : h ≤ suc i = ground (arith, highest-le (suc i) t) in
    (
      cells_from h t,
      copy_down_lem h t,
      spell-cells_from value base h t 0 ∙ (read_back_printed value base z t i ∙ e),
      printed-Canonical (suc i) t,
      cells_from-All P (suc i) h cells f width,
      omega (arith, length-cells_from h t, width),
    )

-- `_prtl16` writes the digits of the number's 32 bits as an unsigned word in base 16, with no zero in
-- front but for the word 0, at most 8 of
-- them, and a NUL. The number is a `long`.
pub prtl16-Spelled :
    (num : ℤ) → IsInt32 num → Spelled IsHex hex_value 16 8 (prtl16 num) (to_uint32 num)
unfolding prtl16
prtl16-Spelled num h =
    print_temp-Spelled IsHex hex_value 16 7 (to_uint32 num) (binary_cells hex_digit 4 8 num) refl
      (binary_cells-IsHex 8 num) (read_back-hex_cells num h)

-- `_prtl10` writes the decimal digits of the number's magnitude, with no zero in front but for the
-- number 0, at most 10 of them, and a NUL. The number is a `long`.
pub prtl10-Spelled :
    (num : ℤ) → IsInt32 num → Spelled IsDecimal decimal_value 10 10 (prtl10 num) (magnitude num)
unfolding prtl10 decimal_temp
prtl10-Spelled num h =
    print_temp-Spelled IsDecimal decimal_value 10 9 (magnitude num)
      (decimal_cells 10 (magnitude num)) refl (decimal_cells-IsDecimal 10 (magnitude num))
      (read_back-decimal_cells (magnitude num) (small num h))
  where
    small : (num : ℤ) → IsInt32 num → magnitude num < 10 ^ 10
    small num h = omega arith
