-- ===== src/Libxc/Number/Writing.antt =====
-- The digits that the routines of doprnt.c write, read back in their base.
use xinu_c_mips.Base.{
  ℤ, pos, negsuc, ℕ, zero, suc, ◌+◌, ◌-◌, ◌*◌, ◌/◌, ◌%◌, ◌^◌, ◌<◌, ◌≡◌, inl, inr, refl, sym, ap,
  ◌∙◌, List, ◌∷◌, arith, ◌==◌, ==→eq, Bool-cases, get_or, IsInt32, leb, if◌then◌else◌, to_uint32,
}
use xinu_c_mips.Libxc.Number.{highest, at_least_1, decimal_cells, binary_cells, hex_digit}

-- The number that the cells from `i` down to 1 spell behind `acc`.
abbrev pub read_back : (ℕ → ℕ) → ℕ → ℕ → List ℕ → ℕ → ℕ
read_back value base zero t acc = acc
read_back value base (suc i) t acc =
    read_back value base i t (acc * base + value (get_or t (suc i) 0))

module _ (value : ℕ → ℕ) (base : ℕ) (zero_digit : value 48 ≡ 0) (t : List ℕ) where
  -- Zeros in front do not count.
  read_back-highest : (i : ℕ) → read_back value base (highest i t) t 0 ≡ read_back value base i t 0
  unfolding highest
  read_back-highest zero = refl
  read_back-highest (suc i) = elim (Bool-cases (get_or t (suc i) 0 == 48)) [
    | inl w ↦
        let e : 0 * base + value (get_or t (suc i) 0) ≡ 0 =
          omega (arith, ap value (==→eq (get_or t (suc i) 0) 48 w), zero_digit) in
        rw (w, e) (read_back-highest i)
    | inr w ↦ rw w refl
  ]

  highest_none : (i : ℕ) → highest (suc i) t ≡ 0 → get_or t 1 0 ≡ 48
  unfolding highest
  highest_none zero e = elim (Bool-cases (get_or t 1 0 == 48)) [
    | inl w ↦ ==→eq (get_or t 1 0) 48 w
    | inr w ↦ cc
  ]
  highest_none (suc i) e = ground (arith, highest_none i)

  pub read_back_printed :
      (i : ℕ)
      → read_back value base (at_least_1 (highest (suc i) t)) t 0 ≡ read_back value base (suc i) t 0
  read_back_printed i = elim (Bool-cases (highest (suc i) t == 0)) [
    | inl w ↦
        let none : highest (suc i) t ≡ 0 = ==→eq (highest (suc i) t) 0 w in
        let e : 0 * base + value (get_or t 1 0) ≡ 0 =
          omega (arith, ap value (highest_none i none), zero_digit) in
        rw w (e ∙ (ap (λ h. read_back value base h t 0) (sym none) ∙ read_back-highest (suc i)))
    | inr w ↦ rw w (read_back-highest (suc i))
  ]

abbrev pub decimal_value : ℕ → ℕ
decimal_value c = c - 48

pub decimal_value_lem : (d : ℕ) → decimal_value (d % 10 + 48) ≡ d % 10
decimal_value_lem d = omega arith

pub read_back-decimal_cells :
    (m : ℕ) → m < 10 ^ 10 → read_back decimal_value 10 10 (0 ∷ decimal_cells 10 m) 0 ≡ m
unfolding decimal_cells
read_back-decimal_cells m h = simp (decimal_value_lem) (omega arith)

abbrev pub hex_value : ℕ → ℕ
hex_value c = if leb c 57 then c - 48 else c - 87

hex_value_lem : (d : ℕ) → hex_value (hex_digit (d % 16)) ≡ d % 16
hex_value_lem d = ground arith

nibble : (a : ℕ) → a % 2 ^ 32 % 16 ≡ a % 16
nibble a = omega arith

-- The four bits of a negative number's pattern are those of the complement, flipped.
flipped : ℕ → ℕ
flipped a = 15 - a % 16

nibble_flipped : (a : ℕ) → (4294967295 - a % 2 ^ 32) % 16 ≡ flipped a
unfolding flipped
nibble_flipped a = omega arith

flipped_add : (a : ℕ) → flipped a + a % 16 ≡ 15
unfolding flipped
flipped_add a = omega arith

pub read_back-hex_cells :
    (num : ℤ)
    → IsInt32 num
    → read_back hex_value 16 8 (0 ∷ binary_cells hex_digit 4 8 num) 0 ≡ to_uint32 num
unfolding binary_cells to_uint32
read_back-hex_cells (pos n) h = simp (hex_value_lem) (simp nibble (omega arith))
read_back-hex_cells (negsuc n) h = simp (hex_value_lem) (
    simp nibble_flipped (
      omega (
        arith,
        h.1,
        flipped_add n,
        flipped_add (n / 16),
        flipped_add (n / 16 / 16),
        flipped_add (n / 16 / 16 / 16),
        flipped_add (n / 16 / 16 / 16 / 16),
        flipped_add (n / 16 / 16 / 16 / 16 / 16),
        flipped_add (n / 16 / 16 / 16 / 16 / 16 / 16),
        flipped_add (n / 16 / 16 / 16 / 16 / 16 / 16 / 16),
      )))
