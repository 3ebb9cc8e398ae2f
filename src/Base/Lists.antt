-- ===== src/Base/Lists.antt =====
-- Lists of numbers: membership as a test, distinct entries, length.
use Prim.Native.Nat.{ℕ, zero, suc, ◌+◌, ◌<◌, ◌≤◌}
use mathlib.Core.Path.{◌≡◌, refl}
use mathlib.Core.Bool.{Bool, true, false, ◌||◌, or_assoc}
use mathlib.Core.List.{List, [], ◌∷◌, ◌++◌}
use native.Mathlib.Omega.{arith}
use xinu_c_mips.Base.Tests.{◌==◌, if◌then◌else◌}

abbrev pub length {ℓ} : {A : Type ℓ} → List A → ℕ
length [] = 0
length (x ∷ xs) = suc (length xs)

pub length-append {ℓ} : {A : Type ℓ} (xs ys : List A) → length (xs ++ ys) ≡ length xs + length ys
length-append [] ys = omega arith
length-append (x ∷ xs) ys = omega (arith, length-append xs ys)

abbrev pub take {ℓ} : {A : Type ℓ} → ℕ → List A → List A
take zero xs = []
take (suc n) [] = []
take (suc n) (x ∷ xs) = x ∷ take n xs

abbrev pub drop {ℓ} : {A : Type ℓ} → ℕ → List A → List A
drop zero xs = xs
drop (suc n) [] = []
drop (suc n) (x ∷ xs) = drop n xs

-- The entry at an index, or a default behind the end.
abbrev pub get_or {ℓ} : {A : Type ℓ} → List A → ℕ → A → A
get_or [] i d = d
get_or (x ∷ xs) zero d = x
get_or (x ∷ xs) (suc i) d = get_or xs i d

-- Whether a number stands in a list.
abbrev pub has : ℕ → List ℕ → Bool
has a [] = false
has a (x ∷ xs) = (a == x) || has a xs

pub has-append : (a : ℕ) (xs ys : List ℕ) → has a (xs ++ ys) ≡ (has a xs || has a ys)
has-append a [] ys = refl
has-append a (x ∷ xs) ys = rw (has-append a xs ys, or_assoc)

-- No number stands in the list twice.
abbrev pub Distinct : List ℕ → Type 0
Distinct [] = Unit {0}
Distinct (x ∷ xs) = (has x xs ≡ false) × Distinct xs

abbrev pub is_nil {ℓ} : {A : Type ℓ} → List A → Bool
is_nil [] = true
is_nil (x ∷ xs) = false

-- Every entry is below a bound.
abbrev pub Below : ℕ → List ℕ → Type 0
Below n [] = Unit {0}
Below n (x ∷ xs) = (x < n) × Below n xs

pub Below-mono : {m n : ℕ} (xs : List ℕ) → m ≤ n → Below m xs → Below n xs
Below-mono [] h b = tt
Below-mono (x ∷ xs) h b = (omega arith, Below-mono xs h b.1)

without : ℕ → List ℕ → List ℕ
without n [] = []
without n (x ∷ xs) = if x == n then without n xs else x ∷ without n xs

without_self : (n : ℕ) (xs : List ℕ) → has n xs ≡ false → length xs ≡ length (without n xs)
unfolding without
without_self n [] h = refl
without_self n (x ∷ xs) h = ground (arith, without_self n xs)

length-without : (n : ℕ) (xs : List ℕ) → Distinct xs → length xs ≤ suc (length (without n xs))
unfolding without
length-without n [] d = omega arith
length-without n (x ∷ xs) d = ground (arith, without_self n xs, length-without n xs d.1)

has-without : (i n : ℕ) (xs : List ℕ) → has i xs ≡ false → has i (without n xs) ≡ false
unfolding without
has-without i n [] h = refl
has-without i n (x ∷ xs) h = ground (arith, has-without i n xs)

Distinct-without : (n : ℕ) (xs : List ℕ) → Distinct xs → Distinct (without n xs)
unfolding without
Distinct-without n [] d = tt
Distinct-without n (x ∷ xs) d = ground (arith, has-without x n xs, Distinct-without n xs d.1)

Below-without : (n : ℕ) (xs : List ℕ) → Below (suc n) xs → Below n (without n xs)
unfolding without
Below-without n [] b = tt
Below-without n (x ∷ xs) b = ground (arith, Below-without n xs b.1)

-- Distinct numbers below `n` are at most `n`.
pub length-le_of_Below : (n : ℕ) (xs : List ℕ) → Below n xs → Distinct xs → length xs ≤ n
length-le_of_Below n [] b d = omega arith
length-le_of_Below zero (x ∷ xs) b d = absurd (omega arith)
length-le_of_Below (suc n) (x ∷ xs) b d = omega (
  arith,
  length-without n (x ∷ xs) d,
  length-le_of_Below n (without n (x ∷ xs)) (Below-without n (x ∷ xs) b)
      (Distinct-without n (x ∷ xs) d),
)
