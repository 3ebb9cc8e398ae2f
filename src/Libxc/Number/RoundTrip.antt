-- ===== src/Libxc/Number/RoundTrip.antt =====
-- What `_prtl10` writes, with the sign that its caller writes in front, is read back by `atoi`.
use xinu_c_mips.Base.{
  ℤ, pos, negsuc, ◌-ℤ◌, ℕ, zero, suc, ◌+◌, ◌^◌, ◌<◌, ◌≤◌, ◌≡◌, refl, sym, subst, ap, ◌∙◌, List, [],
  ◌∷◌, ◌++◌, arith, to_uint32, to_int32, wrap32, wrap32_of_range, some, length, ne→==, true, false,
  IsInt32,
}
use xinu_c_mips.Libxc.{Memory, address_space}
use xinu_c_mips.Libxc.Number.{skip_sign, read_digits, atoi, negate_if, digits_from, prtl10}
use xinu_c_mips.Libxc.Number.Writing.{decimal_value}
use xinu_c_mips.Libxc.Number.Spelling.{spell, All, IsDecimal, Canonical, prtl10-Spelled}
use xinu_c_mips.Libxc.Number.Reading.{Holds, read_digits_lem}

-- `_doprnt` writes '-' in front of a negative number.
abbrev pub sign_of : ℤ → List ℕ
sign_of (pos n) = []
sign_of (negsuc n) = 45 ∷ []

skip_sign_digit :
    (m : Memory) (fuel p c : ℕ)
    → 0 < fuel
    → IsDecimal c
    → m p ≡ c
    → skip_sign fuel m p ≡ some (p, false)
unfolding skip_sign
skip_sign_digit m zero p c enough d h = absurd (omega arith)
skip_sign_digit m (suc fuel) p c enough d h =
    rw
      (
        h,
        ne→== c 32 (omega (arith, d.0)),
        ne→== c 9 (omega (arith, d.0)),
        ne→== c 45 (omega (arith, d.0)),
        ne→== c 43 (omega (arith, d.0)),
      )
      refl

skip_sign_minus :
    (m : Memory) (fuel p : ℕ) → 0 < fuel → m p ≡ 45 → skip_sign fuel m p ≡ some (p + 1, true)
unfolding skip_sign
skip_sign_minus m zero p enough h = absurd (omega arith)
skip_sign_minus m (suc fuel) p enough h = rw h refl

negate_magnitude : (n : ℕ) → n < 2 ^ 31 → wrap32 (pos 0 -ℤ wrap32 (pos (suc n))) ≡ negsuc n
unfolding wrap32 to_uint32 to_int32 ◌-ℤ◌
negate_magnitude n h = ground arith

-- The number behind a sign that has been read.
read_number :
    (m : Memory) (p v : ℕ) (out ds : List ℕ)
    → out ≡ ds ++ (0 ∷ [])
    → spell decimal_value 10 ds 0 ≡ v
    → All IsDecimal ds
    → length ds ≤ 10
    → Holds m p out
    → read_digits address_space m p (pos 0) ≡ some (wrap32 (pos v))
unfolding wrap32
read_number m p v out ds e s d l h =
    read_digits_lem m address_space p 0 ds (omega arith) d (subst (Holds m p) e h)
    ∙ ap (λ x. some (wrap32 (pos x))) s

-- The first byte of a text is a digit.
first_digit :
    (m : Memory) (p : ℕ) (ds : List ℕ)
    → Canonical ds
    → All IsDecimal ds
    → Holds m p (ds ++ (0 ∷ []))
    → IsDecimal (m p)
first_digit m p [] c d h = absurd c
first_digit m p (x ∷ ds) c d h = subst IsDecimal (sym h.0) d.0

-- `atoi` of the text that `_prtl10` writes for a number, behind `-` if the number is negative, is the
-- number, also for the least `long`, whose magnitude is none.
pub atoi-prtl10 :
    (m : Memory) (p : ℕ) (z : ℤ) → IsInt32 z → Holds m p (sign_of z ++ prtl10 z) → atoi m p ≡ some z
unfolding atoi
atoi-prtl10 m p (pos n) r h =
    let s = prtl10-Spelled (pos n) r in
    let d = first_digit m p s.0 s.3 s.4 (subst (Holds m p) s.1 h) in
    ap (digits_from m) (skip_sign_digit m address_space p (m p) (omega arith) d refl)
    ∙ (ap (negate_if false)
          (read_number m p n (prtl10 (pos n)) s.0 s.1 (s.2 ∙ omega arith) s.4 s.5 h)
        ∙ ap some (wrap32_of_range (pos n) r))
atoi-prtl10 m p (negsuc n) r h =
    let s = prtl10-Spelled (negsuc n) r in
    ap (digits_from m) (skip_sign_minus m address_space p (omega arith) h.0)
    ∙ (ap (negate_if true) (
          read_number m (p + 1) (suc n) (prtl10 (negsuc n)) s.0 s.1 (s.2 ∙ omega arith) s.4 s.5 h.1)
        ∙ ap some (negate_magnitude n (omega (arith, r.1))))
