-- ===== src/Libxc/Text.antt =====
-- A NUL-terminated string in memory as the list of its bytes.
use xinu_c_mips.Base.{
  ℕ, zero, suc, ◌+◌, ◌<◌, ◌≤◌, ◌≡◌, ◌≢◌, ap, ◌∙◌, List, [], ◌∷◌, length, arith, ne→==, some,
}
use xinu_c_mips.Libxc.{Memory, end_of_string}

abbrev pub Str : Memory → ℕ → List ℕ → Type 0
Str m s [] = m s ≡ 0
Str m s (x ∷ xs) = (m s ≡ x) × (x ≢ 0) × (x < 256) × Str m (s + 1) xs

-- The string stands in another memory that has the same bytes there.
pub Str-same :
    (m m' : Memory) (s : ℕ) (xs : List ℕ)
    → ((x : ℕ) → s ≤ x → x ≤ s + length xs → m' x ≡ m x)
    → Str m s xs
    → Str m' s xs
Str-same m m' s [] same h = same s (omega arith) (omega arith) ∙ h
Str-same m m' s (x ∷ xs) same h = (
  same s (omega arith) (omega arith) ∙ h.0,
  h.1,
  h.2,
  Str-same m m' (s + 1) xs (λ x a b. same x (omega arith) (omega arith)) h.3,
)

pub end_of_string-Str :
    (m : Memory) (fuel s : ℕ) (xs : List ℕ)
    → length xs < fuel
    → Str m s xs
    → end_of_string fuel m s ≡ some (s + length xs)
unfolding end_of_string
end_of_string-Str m zero s xs enough h = absurd (omega arith)
end_of_string-Str m (suc fuel) s [] enough h = rw h (ap some (omega arith))
end_of_string-Str m (suc fuel) s (x ∷ xs) enough h =
    rw (h.0, ne→== x 0 h.1)
      (end_of_string-Str m fuel (s + 1) xs (omega arith) h.3 ∙ ap some (omega arith))
