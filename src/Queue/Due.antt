-- ===== src/Queue/Due.antt =====
-- What a delta list stands for: each process with the time at which it is due. A key holds the
-- delay behind the process in front.
use xinu_c_mips.Base.{
  ℕ, ◌+◌, ◌-◌, ◌^◌, ◌<◌, ◌≤◌, ◌≡◌, ◌≢◌, refl, sym, ◌∙◌, ap, true, false, Bool-cases, inl, inr, List,
  [], ◌∷◌, ◌++◌, has, Distinct, Below, pos, pos_part, leb, arith, if◌then◌else◌, ◌==◌, ==→eq,
}
use xinu_c_mips.Queue.Chain.{Table, first, ne_of_has, has-init}

abbrev pub delay : Table → ℕ → ℕ
delay t x = pos_part (t x).qkey

-- The delays are nonnegative values of an `int`.
abbrev pub Delays : Table → List ℕ → Type 0
Delays t [] = Unit {0}
Delays t (x ∷ xs) = ((t x).qkey ≡ pos (delay t x)) × (delay t x < 2 ^ 31) × Delays t xs

pub delay-of :
    (t : Table) (i : ℕ) (xs : List ℕ)
    → Delays t xs
    → has i xs ≡ true
    → ((t i).qkey ≡ pos (delay t i)) × (delay t i < 2 ^ 31)
delay-of t i [] ds h = absurd (cc)
delay-of t i (x ∷ xs) ds h = elim (Bool-cases (i == x)) [
  | inl e ↦ rw (==→eq i x e) (ds.0, ds.1)
  | inr n ↦ delay-of t i xs ds.2 (ground arith)
]

pub Delays-of :
    (t : Table) (xs : List ℕ)
    → ((i : ℕ) → has i xs ≡ true → (d : ℕ) × ((t i).qkey ≡ pos d) × (d < 2 ^ 31))
    → Delays t xs
Delays-of t [] f = tt
Delays-of t (x ∷ xs) f =
    let (d, e, h) = f x (ground arith) in (rw e, rw e h, Delays-of t xs (λ i g. f i (ground arith)))

-- When each process is due, for a list that starts at time `d`.
abbrev pub due : Table → ℕ → List ℕ → List (ℕ × ℕ)
due t d [] = []
due t d (x ∷ xs) = (x, d + delay t x) ∷ due t (d + delay t x) xs

-- A process that is due at `w` goes behind those that are due no later.
abbrev pub place : ℕ → ℕ → List (ℕ × ℕ) → List (ℕ × ℕ)
place pid w [] = (pid, w) ∷ []
place pid w ((x, d) ∷ r) = if leb d w then (x, d) ∷ place pid w r else (pid, w) ∷ (x, d) ∷ r

-- How `insertd` splits the list for a delay `n`: the processes that it passes, the delay that is
-- left, and the processes behind.
abbrev pub passed : Table → ℕ → List ℕ → List ℕ
passed t n [] = []
passed t n (x ∷ xs) = if leb (delay t x) n then x ∷ passed t (n - delay t x) xs else []

abbrev pub behind : Table → ℕ → List ℕ → List ℕ
behind t n [] = []
behind t n (x ∷ xs) = if leb (delay t x) n then behind t (n - delay t x) xs else x ∷ xs

abbrev pub left : Table → ℕ → List ℕ → ℕ
left t n [] = n
left t n (x ∷ xs) = if leb (delay t x) n then left t (n - delay t x) xs else n

pub passed-behind : (t : Table) (n : ℕ) (xs : List ℕ) → passed t n xs ++ behind t n xs ≡ xs
passed-behind t n [] = refl
passed-behind t n (x ∷ xs) = ground (arith, passed-behind t (n - delay t x) xs)

pub left-le : (t : Table) (n : ℕ) (xs : List ℕ) → left t n xs ≤ n
left-le t n [] = omega arith
left-le t n (x ∷ xs) = ground (arith, left-le t (n - delay t x) xs)

pub has-behind :
    (t : Table) (n : ℕ) (xs : List ℕ) (b : ℕ) → has (first (behind t n xs) b) (xs ++ b ∷ []) ≡ true
has-behind t n [] b = ground arith
has-behind t n (x ∷ xs) b = ground (arith, has-behind t (n - delay t x) xs b)

-- The first process behind is due later than the new one: what is left is below its delay.
abbrev pub Later : Table → ℕ → List ℕ → Type 0
Later t r [] = Unit {0}
Later t r (y ∷ ys) = r < delay t y

pub left-Later : (t : Table) (n : ℕ) (xs : List ℕ) → Later t (left t n xs) (behind t n xs)
left-Later t n [] = tt
left-Later t n (x ∷ xs) = ground (arith, left-Later t (n - delay t x) xs)

due-frame :
    (t t' : Table) (d : ℕ) (xs : List ℕ)
    → ((i : ℕ) → has i xs ≡ true → delay t' i ≡ delay t i)
    → due t' d xs ≡ due t d xs
due-frame t t' d [] same = refl
due-frame t t' d (x ∷ xs) same =
    ground (arith, same x, due-frame t t' (d + delay t x) xs (λ i h. same i (ground arith)))

-- The first delay behind is shorter by `r`.
abbrev pub Shorter : Table → Table → ℕ → List ℕ → Type 0
Shorter t t' r [] = Unit {0}
Shorter t t' r (y ∷ ys) = delay t' y + r ≡ delay t y

pub lt_of_Later :
    (t : Table) (r : ℕ) (ys : List ℕ) (b : ℕ)
    → Later t r ys
    → first ys b ≢ b
    → r < delay t (first ys b)
lt_of_Later t r [] b l h = absurd (h refl)
lt_of_Later t r (y ∷ ys) b l h = l

pub Shorter-first :
    (t t' : Table) (r : ℕ) (ys : List ℕ) (b : ℕ)
    → Below b ys
    → (first ys b ≢ b → delay t' (first ys b) + r ≡ delay t (first ys b))
    → Shorter t t' r ys
Shorter-first t t' r [] b p h = tt
Shorter-first t t' r (y ∷ ys) b p h = h (omega arith)

pub Below-behind : (t : Table) (n b : ℕ) (xs : List ℕ) → Below b xs → Below b (behind t n xs)
Below-behind t n b [] p = tt
Below-behind t n b (x ∷ xs) p = ground (arith, Below-behind t (n - delay t x) b xs p.1)

module _ (t t' : Table) (pid b : ℕ) where
  pub due-place :
      (n d : ℕ) (xs : List ℕ)
      → delay t' pid ≡ left t n xs
      → Shorter t t' (left t n xs) (behind t n xs)
      → ((i : ℕ) → i ≢ pid → i ≢ first (behind t n xs) b → delay t' i ≡ delay t i)
      → Distinct (xs ++ b ∷ [])
      → has pid (xs ++ b ∷ []) ≡ false
      → due t' d (passed t n xs ++ pid ∷ behind t n xs) ≡ place pid (d + n) (due t d xs)
  due-place n d [] here short other dis new = ground arith
  due-place n d (x ∷ xs) here short other dis new = elim (Bool-cases (leb (delay t x) n)) [
    | inl h ↦
        let m = n - delay t x in
        let e = d + delay t x in
        let same : delay t' x ≡ delay t x = (rw h at other) x (ground arith) (λ z.
          ne_of_has (first (behind t m xs) b) x (xs ++ b ∷ []) (has-behind t m xs b) dis.0
            (sym z)) in
        let rest =
          due-place m e xs (rw h at here) (rw h at short) (rw h at other) dis.1 (ground arith) in
        let total : e + m ≡ d + n = ground arith in
        let test : leb e (d + n) ≡ true = ground arith in
        rw (h, test, same)
          (ap (λ (r : List (ℕ × ℕ)). (x, e) ∷ r)
            (rest ∙ ap (λ (w : ℕ). place pid w (due t e xs)) total))
    | inr h ↦
        let test : leb (d + delay t x) (d + n) ≡ false = ground arith in
        let shorter : delay t' x + n ≡ delay t x = rw h at short in
        let here' : delay t' pid ≡ n = rw h at here in
        let rest = due-frame t t' (d + delay t x) xs (λ i g.
          (rw h at other) i (ne_of_has i pid (xs ++ b ∷ []) (has-init i xs b g) (ground arith))
            (ne_of_has i x (xs ++ b ∷ []) (has-init i xs b g) dis.0)) in
        rw (h, test) (ground (arith, here', shorter, rest))
  ]
