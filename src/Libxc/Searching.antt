-- ===== src/Libxc/Searching.antt =====
-- What the searches of the C library find.
use xinu_c_mips.Base.{
  ℕ, zero, suc, ◌+◌, ◌<◌, ◌≡◌, inl, inr, refl, List, [], ◌∷◌, length, arith, ◌==◌, ne→==,
  Bool-cases, Bool, true, false, not, ◌&&◌, if◌then◌else◌, Option, some, is_nil,
}
use xinu_c_mips.Libxc.{Memory, address_space, strstr, strstr_loop, strstr_match}
use xinu_c_mips.Libxc.Text.{Str}

-- Whether a list starts with another.
abbrev pub starts : List ℕ → List ℕ → Bool
starts [] xs = true
starts (y ∷ ys) [] = false
starts (y ∷ ys) (x ∷ xs) = (x == y) && starts ys xs

-- The address of the first place in the string at `s` where the other string stands, or 0; the empty
-- string stands nowhere.
abbrev pub locate : ℕ → List ℕ → List ℕ → ℕ
locate s ys [] = 0
locate s ys (x ∷ xs) = if not (is_nil ys) && starts ys (x ∷ xs) then s else locate (s + 1) ys xs

-- What the comparison at one place says.
Matched : Memory → List ℕ → List ℕ → Option ℕ → Type 0
Matched m ys xs o = (r : ℕ) × (o ≡ some r) × ((m r == 0) ≡ starts ys xs)

strstr_match-Matched :
    (m : Memory) (fuel cq cr : ℕ) (xs ys : List ℕ)
    → length xs < fuel
    → Str m cq xs
    → Str m cr ys
    → Matched m ys xs (strstr_match fuel m cq cr)
unfolding strstr_match Matched
strstr_match-Matched m zero cq cr xs ys enough h g = absurd (omega arith)
strstr_match-Matched m (suc fuel) cq cr [] [] enough h g = rw h (cr, refl, rw g refl)
strstr_match-Matched m (suc fuel) cq cr [] (y ∷ ys) enough h g =
    rw h (cr, refl, rw (g.0, ne→== y 0 g.1) refl)
strstr_match-Matched m (suc fuel) cq cr (x ∷ xs) [] enough h g =
    rw (h.0, g, ne→== x 0 h.1) (cr, refl, rw g refl)
strstr_match-Matched m (suc fuel) cq cr (x ∷ xs) (y ∷ ys) enough h g = elim (Bool-cases (x == y)) [
  | inl w ↦
      rw (h.0, g.0, ne→== x 0 h.1, ne→== y 0 g.1, w)
        (strstr_match-Matched m fuel (cq + 1) (cr + 1) xs ys (omega arith) h.3 g.3)
  | inr w ↦ rw (h.0, g.0, ne→== x 0 h.1, ne→== y 0 g.1, w) (cr, refl, rw (g.0, ne→== y 0 g.1) refl)
]

strstr_loop_lem :
    (m : Memory) (fuel cs ct : ℕ) (xs ys : List ℕ)
    → length xs < fuel
    → length xs < address_space
    → Str m cs xs
    → Str m ct ys
    → strstr_loop fuel m cs ct ≡ some (locate cs ys xs)
unfolding strstr_loop Matched
strstr_loop_lem m zero cs ct xs ys enough fits h g = absurd (omega arith)
strstr_loop_lem m (suc fuel) cs ct [] ys enough fits h g = rw h refl
strstr_loop_lem m (suc fuel) cs ct (x ∷ xs) [] enough fits h g =
    rw (h.0, g, ne→== x 0 h.1)
      (strstr_loop_lem m fuel (cs + 1) ct xs [] (omega arith) (omega arith) h.3 g)
strstr_loop_lem m (suc fuel) cs ct (x ∷ xs) (y ∷ ys) enough fits h g =
    let rest = strstr_loop_lem m fuel (cs + 1) ct xs (y ∷ ys) (omega arith) (omega arith) h.3 g in
    let here = strstr_match-Matched m address_space cs ct (x ∷ xs) (y ∷ ys) fits h g in
    elim (Bool-cases (x == y)) [
      | inl w ↦
          rw (h.0, g.0, ne→== x 0 h.1, w, here.1)
            (elim (Bool-cases (starts ys xs)) [
              | inl v ↦ rw (here.2, w, v) refl
              | inr v ↦ rw (here.2, w, v) rest
            ])
      | inr w ↦ rw (h.0, g.0, ne→== x 0 h.1, w) rest
    ]

-- `strstr` returns the address of the first place of the string where the other stands, and NULL if
-- there is none; it finds the empty string nowhere. Its loops end. The string has its NUL within the
-- address space.
pub strstr-locate :
    (m : Memory) (cs ct : ℕ) (xs ys : List ℕ)
    → length xs < address_space
    → Str m cs xs
    → Str m ct ys
    → strstr m cs ct ≡ some (locate cs ys xs)
unfolding strstr
strstr-locate m cs ct xs ys fits h g = strstr_loop_lem m address_space cs ct xs ys fits fits h g
