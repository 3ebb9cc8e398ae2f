-- ===== src/Queue/Removal.antt =====
-- Taking a process out of a delta list, its delay passed on to the one behind it.
use xinu_c_mips.Base.{
  ℕ, ◌+◌, ◌^◌, ◌<◌, ◌≡◌, ◌≢◌, refl, sym, ◌∙◌, ap, true, false, Bool-cases, inl, inr, List, [], ◌∷◌,
  ◌++◌, has, has-append, Distinct, pos, pos_part, if◌then◌else◌, ◌==◌, ==→eq, ◌+ℤ◌, wrap32,
  wrap32_of_range, arith,
}
use xinu_c_mips.Queue.Chain.{Table}
use xinu_c_mips.Queue.Due.{Delays, delay, due, Delays-of, delay-of}
use xinu_c_mips.Queue.Timed.{DueBelow, Timed, due-same}

abbrev pub without : ℕ → List (ℕ × ℕ) → List (ℕ × ℕ)
without pid [] = []
without pid ((x, d) ∷ ds) = if x == pid then without pid ds else (x, d) ∷ without pid ds

without-off :
    (pid : ℕ) (t : Table) (d : ℕ) (xs : List ℕ)
    → has pid xs ≡ false
    → without pid (due t d xs) ≡ due t d xs
without-off pid t d [] h = refl
without-off pid t d (x ∷ xs) h =
    let other : (x == pid) ≡ false = ground arith in
    rw other (
      ap (λ (ds : List (ℕ × ℕ)). (x, d + delay t x) ∷ ds)
        (without-off pid t (d + delay t x) xs (ground arith)))

pub without-DueBelow : (pid : ℕ) (ds : List (ℕ × ℕ)) → DueBelow ds → DueBelow (without pid ds)
without-DueBelow pid [] b = tt
without-DueBelow pid ((x, d) ∷ ds) b = elim (Bool-cases (x == pid)) [
  | inl e ↦ rw e (without-DueBelow pid ds b.1)
  | inr n ↦ rw n (b.0, without-DueBelow pid ds b.1)
]

-- `t'` is `t` with the delay of `pid` added to that of the process behind it.
abbrev pub Closed : Table → Table → ℕ → List ℕ → Type 0
Closed t t' pid [] = Unit {0}
Closed t t' pid (y ∷ ys) =
    ((t' y).qkey ≡ pos (delay t y + delay t pid))
    × ((i : ℕ) → has i ys ≡ true → (t' i).qkey ≡ (t i).qkey)

due-tail :
    (t t' : Table) (pid d : ℕ) (ys : List ℕ)
    → Closed t t' pid ys
    → due t' d ys ≡ due t (d + delay t pid) ys
due-tail t t' pid d [] c = refl
due-tail t t' pid d (y ∷ ys) c =
    let e : d + delay t' y ≡ d + delay t pid + delay t y = omega (arith, ap pos_part c.0) in
    rw e (
      ap (λ (ds : List (ℕ × ℕ)). (y, d + delay t pid + delay t y) ∷ ds)
        (due-same t t' (d + delay t pid + delay t y) ys c.1))

pub due-without :
    (t t' : Table) (pid d : ℕ) (xs ys : List ℕ)
    → ((i : ℕ) → has i xs ≡ true → (t' i).qkey ≡ (t i).qkey)
    → Closed t t' pid ys
    → Distinct (xs ++ pid ∷ ys)
    → due t' d (xs ++ ys) ≡ without pid (due t d (xs ++ pid ∷ ys))
due-without t t' pid d [] ys same c dist =
    let here : (pid == pid) ≡ true = ground arith in
    rw here (due-tail t t' pid d ys c ∙ sym (without-off pid t (d + delay t pid) ys dist.0))
due-without t t' pid d (x ∷ xs) ys same c dist =
    let other : (x == pid) ≡ false = ground (arith, has-append x xs (pid ∷ ys)) in
    rw (other, same x (ground arith))
      (ap (λ (ds : List (ℕ × ℕ)). (x, d + delay t x) ∷ ds)
        (due-without t t' pid (d + delay t x) xs ys (λ i h. same i (ground arith)) c dist.1))

-- Two delays in a row do not wrap when they are added.
pub delays-small :
    (t : Table) (d : ℕ) (xs : List ℕ) (pid y : ℕ) (ys : List ℕ)
    → DueBelow (due t d (xs ++ pid ∷ y ∷ ys))
    → delay t y + delay t pid < 2 ^ 31
delays-small t d [] pid y ys b = omega (arith, b.1.0)
delays-small t d (x ∷ xs) pid y ys b = delays-small t (d + delay t x) xs pid y ys b.1

pub wrap32-add : (n m : ℕ) → n + m < 2 ^ 31 → wrap32 (pos n +ℤ pos m) ≡ pos (n + m)
unfolding ◌+ℤ◌
wrap32-add n m h = wrap32_of_range (pos (n + m)) (omega arith, omega arith)

pub Distinct-apart :
    (xs ys : List ℕ) (i j : ℕ) → Distinct (xs ++ ys) → has i xs ≡ true → has j ys ≡ true → i ≢ j
Distinct-apart [] ys i j d h g = absurd (ground arith)
Distinct-apart (x ∷ xs) ys i j d h g = elim (Bool-cases (i == x)) [
  | inl e ↦ λ z. ground (arith, has-append x xs ys, ==→eq i x e)
  | inr n ↦ Distinct-apart xs ys i j d.1 (ground arith) g
]

pub Distinct-suffix : (xs ys : List ℕ) → Distinct (xs ++ ys) → Distinct ys
Distinct-suffix [] ys d = d
Distinct-suffix (x ∷ xs) ys d = Distinct-suffix xs ys d.1

-- Every process that stays has a delay again.
pub Delays-without :
    (t t' : Table) (pid : ℕ) (xs ys : List ℕ)
    → Timed t (xs ++ pid ∷ ys)
    → ((i : ℕ) → has i xs ≡ true → (t' i).qkey ≡ (t i).qkey)
    → Closed t t' pid ys
    → Delays t' (xs ++ ys)
Delays-without t t' pid xs ys s same c = Delays-of t' (xs ++ ys) (λ i h.
    elim (Bool-cases (has i xs)) [
      | inl front ↦
          let was =
            delay-of t i (xs ++ pid ∷ ys) s.0 (ground (arith, has-append i xs (pid ∷ ys))) in
          (delay t i, same i front ∙ was.0, was.1)
      | inr back ↦ behind_pid i ys (ground (arith, has-append i xs ys)) s c
    ])
  where
    behind_pid :
        (i : ℕ) (zs : List ℕ)
        → has i zs ≡ true
        → Timed t (xs ++ pid ∷ zs)
        → Closed t t' pid zs
        → (d : ℕ) × ((t' i).qkey ≡ pos d) × (d < 2 ^ 31)
    behind_pid i [] h s c = absurd (ground arith)
    behind_pid i (y ∷ zs) h s c = elim (Bool-cases (i == y)) [
      | inl e ↦ (
        delay t y + delay t pid,
        ap (λ (n : ℕ). (t' n).qkey) (==→eq i y e) ∙ c.0,
        delays-small t 0 xs pid y zs s.1,
      )
      | inr n ↦
          let here : has i zs ≡ true = ground arith in
          let was =
            delay-of t i (xs ++ pid ∷ y ∷ zs) s.0
              (ground (arith, has-append i xs (pid ∷ y ∷ zs))) in
          (delay t i, c.1 i here ∙ was.0, was.1)
    ]
