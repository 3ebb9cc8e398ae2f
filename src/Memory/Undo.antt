-- ===== src/Memory/Undo.antt =====
-- On the list of free blocks, giving back what was taken restores the list.
use xinu_c_mips.Base.{
  ℕ, ◌+◌, ◌-◌, ◌<◌, ◌≤◌, ◌≡◌, refl, subst, ap, Option, none, some, List, [], ◌∷◌, Bool-cases, inl,
  inr, arith, false, ltb→lt, le→ltb, lt→ltb, ltb, ◌==◌, ==→eq, eq→==, ne→==,
}
use xinu_c_mips.Memory.Blocks.{Blocks, first_fit, keep}
use xinu_c_mips.Memory.Release.{starts_below, settle, on_some, release_behind, release}

-- No block ends where the next begins.
abbrev pub Spaced : List (ℕ × ℕ) → Type 0
Spaced [] = Unit {0}
Spaced ((p, n) ∷ []) = Unit {0}
Spaced ((p, n) ∷ (r, t) ∷ bs) = (p + n < r) × Spaced ((r, t) ∷ bs)

-- The front of a block that has no longer its place in the list settles there again.
settle-Spaced :
    (p n : ℕ) (bs : List (ℕ × ℕ)) → Spaced ((p, n) ∷ bs) → settle (p, n) bs ≡ some ((p, n) ∷ bs)
settle-Spaced p n [] sp = refl
settle-Spaced p n ((r, t) ∷ bs) sp =
    rw (le→ltb r (p + n) (omega (arith, sp.0)), ne→== (p + n) r (omega (arith, sp.0))) refl

settle_rest :
    (p n size : ℕ) (bs : List (ℕ × ℕ))
    → 0 < size
    → size < n
    → settle (p, size) ((p + size, n - size) ∷ bs) ≡ some ((p, n) ∷ bs)
settle_rest p n size bs h0 h =
    let e : size + (n - size) ≡ n = omega arith in
    rw (le→ltb (p + size) (p + size) (omega arith), eq→== (p + size) (p + size) refl, e) refl

-- Giving back behind a block that ends below.
behind_settle :
    (q s p n t : ℕ) (bs cs : List (ℕ × ℕ))
    → q + s < p
    → starts_below p bs ≡ false
    → settle (p, n) bs ≡ some ((p, t) ∷ cs)
    → release_behind (q, s) (p, n) bs ≡ some ((q, s) ∷ (p, t) ∷ cs)
behind_settle q s p n t [] cs h clear e =
    rw (le→ltb p (q + s) (omega arith), ne→== (q + s) p (omega arith))
      (ap (on_some (λ l. (q, s) ∷ l)) e)
behind_settle q s p n t ((u, w) ∷ bs) cs h clear e =
    rw (clear, le→ltb p (q + s) (omega arith), e, ne→== (q + s) p (omega arith)) refl

-- The block that is taken lies above `lo` and ends below `hi`.
abbrev pub Inside : ℕ → ℕ → ℕ → Option (ℕ × List (ℕ × ℕ)) → Type 0
Inside lo hi size none = Unit {0}
Inside lo hi size (some (r, rest)) = (lo ≤ r) × (r + size ≤ hi)

Inside-keep :
    (lo lo' hi size : ℕ) (b : ℕ × ℕ) (o : Option (ℕ × List (ℕ × ℕ)))
    → lo ≤ lo'
    → Inside lo' hi size o
    → Inside lo hi size (keep b o)
Inside-keep lo lo' hi size b none h i = tt
Inside-keep lo lo' hi size b (some (r, rest)) h i = (omega (arith, i.0), i.1)

pub first_fit-Inside :
    (m : ℕ → ℕ) (a lo hi size : ℕ) (bs : List (ℕ × ℕ))
    → Blocks m a lo hi bs
    → Inside lo hi size (first_fit size bs)
first_fit-Inside m a lo hi size [] b = tt
first_fit-Inside m a lo hi size ((p, n) ∷ bs) b = elim (Bool-cases (n == size)) [
  | inl whole ↦ rw whole (b.2, omega (arith, ==→eq n size whole, b.3))
  | inr other ↦ elim (Bool-cases (ltb size n)) [
    | inl longer ↦ rw (other, longer) (b.2, omega (arith, ltb→lt size n longer, b.3))
    | inr short ↦
        rw (other, short)
          (Inside-keep lo (p + n) hi size (p, n) (first_fit size bs) (omega (arith, b.2))
            (first_fit-Inside m p (p + n) hi size bs b.6))
  ]
]

starts_below-Blocks :
    (m : ℕ → ℕ) (a lo hi p : ℕ) (bs : List (ℕ × ℕ))
    → p ≤ lo
    → Blocks m a lo hi bs
    → starts_below p bs ≡ false
starts_below-Blocks m a lo hi p [] h b = refl
starts_below-Blocks m a lo hi p ((r, t) ∷ bs) h b = le→ltb r p (omega (arith, b.2))

-- Giving the block back restores the list behind the block `(q, s)`.
abbrev Restores : ℕ × ℕ → ℕ → List (ℕ × ℕ) → Option (ℕ × List (ℕ × ℕ)) → Type 0
Restores b size bs none = Unit {0}
Restores b size bs (some (r, rest)) = release_behind b (r, size) rest ≡ some (b ∷ bs)

Restores-keep :
    (p n q s hi size : ℕ) (bs : List (ℕ × ℕ)) (o : Option (ℕ × List (ℕ × ℕ)))
    → 0 < s
    → Inside (q + s) hi size o
    → Restores (q, s) size bs o
    → Restores (p, n) size ((q, s) ∷ bs) (keep (q, s) o)
Restores-keep p n q s hi size bs none h i g = tt
Restores-keep p n q s hi size bs (some (r, rest)) h i g =
    rw (lt→ltb q r (omega (arith, i.0)), g) refl

first_fit-Restores :
    (m : ℕ → ℕ) (hi size p n : ℕ) (bs : List (ℕ × ℕ))
    → 0 < size
    → Blocks m p (p + n) hi bs
    → Spaced ((p, n) ∷ bs)
    → Restores (p, n) size bs (first_fit size bs)
first_fit-Restores m hi size p n [] h b sp = tt
first_fit-Restores m hi size p n ((q, s) ∷ bs) h b sp = elim (Bool-cases (s == size)) [
  | inl whole ↦ rw whole (
      behind_settle p n q size s bs bs sp.0
        (starts_below-Blocks m q (q + s) hi q bs (omega arith) b.6)
        (subst (λ x. settle (q, x) bs ≡ some ((q, s) ∷ bs)) (==→eq s size whole)
          (settle-Spaced q s bs sp.1)))
  | inr other ↦ elim (Bool-cases (ltb size s)) [
    | inl longer ↦
        rw (other, longer)
          (behind_settle p n q size s ((q + size, s - size) ∷ bs) bs sp.0
            (le→ltb (q + size) q (omega arith)) (settle_rest q s size bs h (ltb→lt size s longer)))
    | inr short ↦
        rw (other, short)
          (Restores-keep p n q s hi size bs (first_fit size bs) b.5
            (first_fit-Inside m q (q + s) hi size bs b.6)
            (first_fit-Restores m hi size q s bs h b.6 sp.1))
  ]
]

-- Giving the block back restores the whole list.
abbrev pub Undone : ℕ → List (ℕ × ℕ) → Option (ℕ × List (ℕ × ℕ)) → Type 0
Undone size bs none = Unit {0}
Undone size bs (some (r, rest)) = release (r, size) rest ≡ some bs

Undone-keep :
    (p n hi size : ℕ) (bs : List (ℕ × ℕ)) (o : Option (ℕ × List (ℕ × ℕ)))
    → 0 < n
    → Inside (p + n) hi size o
    → Restores (p, n) size bs o
    → Undone size ((p, n) ∷ bs) (keep (p, n) o)
Undone-keep p n hi size bs none h i g = tt
Undone-keep p n hi size bs (some (r, rest)) h i g = rw (lt→ltb p r (omega (arith, i.0))) g

release-settle :
    (p n : ℕ) (bs : List (ℕ × ℕ)) → starts_below p bs ≡ false → release (p, n) bs ≡ settle (p, n) bs
release-settle p n [] e = refl
release-settle p n ((r, t) ∷ bs) e = rw e refl

pub first_fit-Undone :
    (m : ℕ → ℕ) (a lo hi size : ℕ) (bs : List (ℕ × ℕ))
    → 0 < size
    → Blocks m a lo hi bs
    → Spaced bs
    → Undone size bs (first_fit size bs)
first_fit-Undone m a lo hi size [] h b sp = tt
first_fit-Undone m a lo hi size ((p, n) ∷ bs) h b sp = elim (Bool-cases (n == size)) [
  | inl whole ↦
      rw
        (
          whole,
          release-settle p size bs (starts_below-Blocks m p (p + n) hi p bs (omega arith) b.6),
        )
        (subst (λ x. settle (p, x) bs ≡ some ((p, n) ∷ bs)) (==→eq n size whole)
          (settle-Spaced p n bs sp))
  | inr other ↦ elim (Bool-cases (ltb size n)) [
    | inl longer ↦
        rw (other, longer, le→ltb (p + size) p (omega arith))
          (settle_rest p n size bs h (ltb→lt size n longer))
    | inr short ↦
        rw (other, short)
          (Undone-keep p n hi size bs (first_fit size bs) b.5
            (first_fit-Inside m p (p + n) hi size bs b.6)
            (first_fit-Restores m hi size p n bs h b.6 sp))
  ]
]
