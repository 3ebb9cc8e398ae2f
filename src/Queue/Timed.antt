-- ===== src/Queue/Timed.antt =====
-- A delta list whose processes are all due at times that an `int` can hold.
use xinu_c_mips.Base.{
  ℕ, ◌+◌, ◌^◌, ◌<◌, ◌≡◌, refl, sym, ap, subst, true, Bool-cases, inl, inr, List, [], ◌∷◌, has, leb,
  arith,
}
use xinu_c_mips.Queue.Chain.{Table}
use xinu_c_mips.Queue.Due.{Delays, delay, due, place}

abbrev pub DueBelow : List (ℕ × ℕ) → Type 0
DueBelow [] = Unit {0}
DueBelow ((x, d) ∷ ds) = (d < 2 ^ 31) × DueBelow ds

abbrev pub Timed : Table → List ℕ → Type 0
Timed t xs = Delays t xs × DueBelow (due t 0 xs)

pub place-DueBelow :
    (pid w : ℕ) (ds : List (ℕ × ℕ)) → w < 2 ^ 31 → DueBelow ds → DueBelow (place pid w ds)
place-DueBelow pid w [] h b = (h, tt)
place-DueBelow pid w ((x, d) ∷ ds) h b = elim (Bool-cases (leb d w)) [
  | inl e ↦ rw e (b.0, place-DueBelow pid w ds h b.1)
  | inr n ↦ rw n (h, b)
]

Delays-same :
    (t t' : Table) (xs : List ℕ)
    → ((i : ℕ) → has i xs ≡ true → (t' i).qkey ≡ (t i).qkey)
    → Delays t xs
    → Delays t' xs
Delays-same t t' [] same s = tt
Delays-same t t' (x ∷ xs) same s =
    let e = same x (ground arith) in
    (rw e s.0, rw e s.1, Delays-same t t' xs (λ i h. same i (ground arith)) s.2)

pub due-same :
    (t t' : Table) (d : ℕ) (xs : List ℕ)
    → ((i : ℕ) → has i xs ≡ true → (t' i).qkey ≡ (t i).qkey)
    → due t' d xs ≡ due t d xs
due-same t t' d [] same = refl
due-same t t' d (x ∷ xs) same = rw (same x (ground arith)) (
    ap (λ (ds : List (ℕ × ℕ)). (x, d + delay t x) ∷ ds)
      (due-same t t' (d + delay t x) xs (λ i h. same i (ground arith))))

pub Timed-same :
    (t t' : Table) (xs : List ℕ)
    → ((i : ℕ) → has i xs ≡ true → (t' i).qkey ≡ (t i).qkey)
    → Timed t xs
    → Timed t' xs
Timed-same t t' xs same s =
    (Delays-same t t' xs same s.0, subst DueBelow (sym (due-same t t' 0 xs same)) s.1)
