-- ===== src/Libxc/Number/Reading.antt =====
-- `atoi` on a text: blanks, a sign, digits.
use xinu_c_mips.Base.{
  ℤ, pos, negsuc, ◌+ℤ◌, ◌-ℤ◌, ℕ, zero, suc, ◌+◌, ◌*◌, ◌%◌, ◌^◌, ◌<◌, ◌≤◌, ◌≡◌, refl, ap, List, [],
  ◌∷◌, ◌++◌, arith, to_uint32, to_int32, wrap32, some, length, le→leb, +ℤ_parts, -ℤ_parts, pos_part,
  neg_part,
}
use xinu_c_mips.Libxc.{Memory}
use xinu_c_mips.Libxc.Number.{read_digits, times10}
use xinu_c_mips.Libxc.Number.Writing.{decimal_value}
use xinu_c_mips.Libxc.Number.Spelling.{spell, All, IsDecimal}

-- The bytes of a text stand in memory from an address on.
abbrev pub Holds : Memory → ℕ → List ℕ → Type 0
Holds m p [] = Unit {0}
Holds m p (c ∷ cs) = (m p ≡ c) × Holds m (p + 1) cs

-- The bit pattern of an integer, and that of an `int` read back, modulo 2 ^ 32.
to_uint32_mod :
    (z : ℤ) → ((to_uint32 z + neg_part z) % 2 ^ 32 ≡ pos_part z % 2 ^ 32) × (to_uint32 z < 2 ^ 32)
unfolding to_uint32
to_uint32_mod (pos n) = (omega arith, omega arith)
to_uint32_mod (negsuc n) = (omega arith, omega arith)

to_int32_mod :
    (x : ℕ) → x < 2 ^ 32 → (x + neg_part (to_int32 x)) % 2 ^ 32 ≡ pos_part (to_int32 x) % 2 ^ 32
unfolding to_int32
to_int32_mod x h = ground arith

times10_parts :
    (z : ℤ) → (pos_part (times10 z) ≡ pos_part z * 10) × (neg_part (times10 z) ≡ neg_part z * 10)
times10_parts (pos n) = (refl, refl)
times10_parts (negsuc n) = (refl, omega arith)

-- One more digit, modulo 2 ^ 32.
digit_step :
    (v c : ℕ)
    → 48 ≤ c
    → wrap32 ((times10 (wrap32 (pos v)) +ℤ pos c) -ℤ pos 48)
      ≡ wrap32 (pos (v * 10 + decimal_value c))
unfolding wrap32
digit_step v c h =
    let x = to_uint32 (pos v) in
    let z = times10 (to_int32 x) in
    let a = z +ℤ pos c in
    let b = a -ℤ pos 48 in
    ap to_int32 (
      omega (
        arith,
        to_uint32_mod (pos v),
        to_int32_mod x (to_uint32_mod (pos v)).1,
        times10_parts (to_int32 x),
        +ℤ_parts z (pos c),
        -ℤ_parts a (pos 48),
        to_uint32_mod b,
        to_uint32_mod (pos (v * 10 + decimal_value c)),
      ))

pub read_digits_lem :
    (m : Memory) (fuel p v : ℕ) (ds : List ℕ)
    → length ds < fuel
    → All IsDecimal ds
    → Holds m p (ds ++ (0 ∷ []))
    → read_digits fuel m p (wrap32 (pos v)) ≡ some (wrap32 (pos (spell decimal_value 10 ds v)))
unfolding read_digits
read_digits_lem m zero p v ds enough d h = absurd (omega arith)
read_digits_lem m (suc fuel) p v [] enough d h = rw (h.0) refl
read_digits_lem m (suc fuel) p v (c ∷ ds) enough d h =
    rw (h.0, le→leb 48 c d.0.0, le→leb c 57 d.0.1, digit_step v c d.0.0)
      (read_digits_lem m fuel (p + 1) (v * 10 + decimal_value c) ds (omega arith) d.1 h.1)
