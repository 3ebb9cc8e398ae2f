-- ===== src/Semaphore/Allocate.antt =====
-- `newsem` finds a free semaphore whenever there is one.
use xinu_c_mips.Base.{
  ℕ, zero, suc, ◌+◌, ◌-◌, ◌%◌, ◌<◌, ◌≡◌, ◌∙◌, ap, subst, ◌⊎◌, inl, inr, Bool, Bool-cases, true,
  false, leb, if◌then◌else◌, ℤ, pos, update, arith,
}
use xinu_c_mips.Kernel.{
  Kernel, Run, done, nsem, syserr, s_used, is_s_free, sem_at-pos, update_sem-pos,
}
use xinu_c_mips.Semaphore.{newsem, newsem_loop}

abbrev pub sem_free : Kernel → ℕ → Bool
sem_free k j = is_s_free (k.semtab j).sstate

-- A free entry was found and marked.
pub data Allocated (k : Kernel) : Run ℤ → Type 0 where
  allocated :
      (j n : ℕ)
      → j < nsem
      → sem_free k j ≡ true
      → n < nsem
      → Allocated k (
          done (pos j) (record k {
            nextsem = n;
            semtab = update k.semtab j (record (k.semtab j) { sstate = s_used });
          }))

-- The entries that `i` rounds look at.
abbrev AllUsed : Kernel → ℕ → Type 0
AllUsed k i = (m : ℕ) → m < i → sem_free k ((k.nextsem + m) % nsem) ≡ false

abbrev turn : ℕ → ℕ
turn sem = if leb nsem (sem + 1) then 0 else sem + 1

turn-mod : (sem : ℕ) → sem < nsem → turn sem ≡ (sem + 1) % nsem
turn-mod sem h = ground arith

-- It does not matter where the search starts.
Allocated-from :
    (k : Kernel) (n : ℕ) {r : Run ℤ} → Allocated (record k { nextsem = n }) r → Allocated k r
Allocated-from k n (allocated j m hj f hm) = allocated j m hj f hm

AllUsed-suc :
    (k : Kernel) (i n : ℕ)
    → n ≡ (k.nextsem + 1) % nsem
    → k.nextsem < nsem
    → sem_free k k.nextsem ≡ false
    → AllUsed (record k { nextsem = n }) i
    → AllUsed k (suc i)
AllUsed-suc k i n e h u all zero g = subst (λ (j : ℕ). sem_free k j ≡ false) (omega arith) u
AllUsed-suc k i n e h u all (suc m) g =
    subst (λ (j : ℕ). sem_free k j ≡ false) (omega arith) (all m (omega arith))

newsem_loop-Allocated :
    (i : ℕ) (k : Kernel)
    → k.nextsem < nsem
    → Allocated k (newsem_loop i k)
      ⊎ (AllUsed k i
          × (newsem_loop i k ≡ done syserr (record k { nextsem = (k.nextsem + i) % nsem })))
unfolding newsem_loop
newsem_loop-Allocated zero k h = inr (
  λ m g. absurd (omega arith),
  ap (λ (n : ℕ). done syserr (record k { nextsem = n })) (omega arith),
)
newsem_loop-Allocated (suc i) k h =
    let k1 = record k { nextsem = turn k.nextsem } in
    let next = turn-mod k.nextsem h in
    elim (Bool-cases (sem_free k k.nextsem)) [
      | inl f ↦ inl (
          rw
            (
              sem_at-pos k.nextsem k1 h,
              f,
              update_sem-pos k.nextsem k1 (λ s. record s { sstate = s_used }) h,
            )
            (allocated k.nextsem (turn k.nextsem) h f (omega (arith, next))))
      | inr u ↦
          let rest = newsem_loop-Allocated i k1 (omega (arith, next)) in
          rw (sem_at-pos k.nextsem k1 h, u)
            (elim rest [
              | inl found ↦ inl (Allocated-from k (turn k.nextsem) found)
              | inr none_free ↦ inr (
                AllUsed-suc k i (turn k.nextsem) next h u none_free.0,
                none_free.1
                    ∙ ap (λ (n : ℕ). done syserr (record k { nextsem = n })) (omega (arith, next)),
              )
            ])
    ]

-- `newsem` takes a free semaphore and marks it as used, and refuses only if all are used: then it
-- leaves the tables as they are. The next index to try is an index.
pub newsem-Allocated :
    (k : Kernel)
    → k.nextsem < nsem
    → Allocated k (newsem k)
      ⊎ (((j : ℕ) → j < nsem → sem_free k j ≡ false) × (newsem k ≡ done syserr k))
unfolding newsem
newsem-Allocated k h = elim (newsem_loop-Allocated nsem k h) [
  | inl found ↦ inl found
  | inr none_free ↦ inr (
    λ j g.
        subst (λ (i : ℕ). sem_free k i ≡ false) (omega arith)
          (none_free.0 ((j + nsem - k.nextsem) % nsem) (omega arith)),
    none_free.1 ∙ ap (λ (n : ℕ). done syserr (record k { nextsem = n })) (omega arith),
  )
]
