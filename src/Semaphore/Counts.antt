-- ===== src/Semaphore/Counts.antt =====
-- The arithmetic of a semaphore's count: it wraps nowhere near the values that occur, and its
-- negative part counts the waiting processes.
use xinu_c_mips.Base.{
  ℕ, ◌+◌, ◌<◌, ◌≤◌, ◌^◌, ◌≡◌, ◌≢◌, refl, sym, ◌∙◌, ap, true, false, ◌==◌, List, length, ℤ, pos,
  negsuc, pos_part, neg_part, ◌+ℤ◌, ◌-ℤ◌, wrap32, wrap32_of_range, ltb_ℤ, update, arith, ==→eq,
  Bool-cases, inl, inr,
}
use xinu_c_mips.Kernel.{Sentry, nsem, isbadsem}
use xinu_c_mips.Invariant.{Counted, sem_q}

abbrev pub dec : ℤ → ℤ
dec z = wrap32 (z -ℤ pos 1)

abbrev pub inc : ℤ → ℤ
inc z = wrap32 (z +ℤ pos 1)

pub dec-eq : (z : ℤ) → neg_part z < 2 ^ 31 → pos_part z < 2 ^ 31 → dec z ≡ z -ℤ pos 1
unfolding ◌-ℤ◌
dec-eq z h g = wrap32_of_range (z -ℤ pos 1) (ground arith)

pub dec-neg : (z : ℤ) → ltb_ℤ (z -ℤ pos 1) (pos 0) ≡ true → neg_part (z -ℤ pos 1) ≡ neg_part z + 1
unfolding ◌-ℤ◌
dec-neg z h = ground arith

pub dec-pos : (z : ℤ) → ltb_ℤ (z -ℤ pos 1) (pos 0) ≡ false → neg_part (z -ℤ pos 1) ≡ neg_part z
unfolding ◌-ℤ◌
dec-pos z h = ground arith

pub dec-bound : (z : ℤ) → pos_part z < 2 ^ 31 → pos_part (z -ℤ pos 1) < 2 ^ 31
unfolding ◌-ℤ◌
dec-bound z h = ground arith

pub inc-eq : (z : ℤ) → neg_part z < 2 ^ 31 → pos_part z + 1 < 2 ^ 31 → inc z ≡ z +ℤ pos 1
unfolding ◌+ℤ◌
inc-eq z h g = wrap32_of_range (z +ℤ pos 1) (ground arith)

pub inc-neg : (z : ℤ) → ltb_ℤ z (pos 0) ≡ true → neg_part (z +ℤ pos 1) + 1 ≡ neg_part z
unfolding ◌+ℤ◌
inc-neg z h = ground arith

pub inc-pos : (z : ℤ) → ltb_ℤ z (pos 0) ≡ false → (neg_part (z +ℤ pos 1) ≡ 0) × (neg_part z ≡ 0)
unfolding ◌+ℤ◌
inc-pos z h = ground arith

pub inc-bound : (z : ℤ) → pos_part z + 1 < 2 ^ 31 → pos_part (z +ℤ pos 1) < 2 ^ 31
unfolding ◌+ℤ◌
inc-bound z h = ground arith

-- A semaphore id that is not bad.
pub sem-of : (z : ℤ) → isbadsem z ≡ false → (s : ℕ) × (z ≡ pos s) × (s < nsem)
unfolding isbadsem
sem-of (pos s) h = (s, refl, ground arith)
sem-of (negsuc s) h = absurd (ground arith)

-- A new count for one semaphore, whose queue changes with it.
pub Counted-set :
    (s : ℕ → Sentry) (l l' : ℕ → List ℕ) (j : ℕ) (z : ℤ)
    → Counted s l
    → neg_part z ≡ length (l' (sem_q j))
    → pos_part z < 2 ^ 31
    → ((i : ℕ) → i < nsem → i ≢ j → l' (sem_q i) ≡ l (sem_q i))
    → Counted (update s j (record (s j) { scount = z })) l'
unfolding update
Counted-set s l l' j z c e b others = record {
  sem_id = λ i h. elim (Bool-cases (i == j)) [
    | inl g ↦ rw g (ap (λ (n : ℕ). (s n).squeue) (sym (==→eq i j g)) ∙ c.sem_id i h)
    | inr g ↦ rw g (c.sem_id i h)
  ];
  counts = λ i h. elim (Bool-cases (i == j)) [
    | inl g ↦ rw g (e ∙ ap (λ (n : ℕ). length (l' (sem_q n))) (sym (==→eq i j g)))
    | inr g ↦
        rw g (c.counts i h ∙ ap (λ (ys : List ℕ). length ys) (sym (others i h (ground arith))))
  ];
  bounds = λ i h. elim (Bool-cases (i == j)) [ inl g ↦ rw g b | inr g ↦ rw g (c.bounds i h) ];
}

pub inc-le : (z : ℤ) → pos_part (z +ℤ pos 1) ≤ pos_part z + 1
unfolding ◌+ℤ◌
inc-le z = ground arith
