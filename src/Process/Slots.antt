-- ===== src/Process/Slots.antt =====
-- `newpid` finds a free process entry whenever there is one.
use xinu_c_mips.Base.{
  ℕ, zero, suc, ◌+◌, ◌-◌, ◌%◌, ◌<◌, ◌≡◌, refl, subst, ◌⊎◌, inl, inr, Bool, Bool-cases, true, false,
  ◌==◌, ℤ, pos, arith,
}
use xinu_c_mips.Kernel.{Kernel, Run, done, nproc, syserr, pr_free, proc_at-pos}
use xinu_c_mips.Process.{newpid, newpid_loop}

abbrev pub slot_free : Kernel → ℕ → Bool
slot_free k i = (k.proctab i).prstate == pr_free

-- A free entry was found; the next search starts behind it.
pub data Found (k : Kernel) : Run ℤ → Type 0 where
  found :
      (i : ℕ)
      → i < nproc
      → slot_free k i ≡ true
      → Found k (done (pos i) (record k { nextpid = i + 1 }))

abbrev Taken : Kernel → ℕ → Type 0
Taken k i = (m : ℕ) → m < i → slot_free k ((k.nextpid + m) % nproc) ≡ false

Found-from : (k : Kernel) (n : ℕ) {r : Run ℤ} → Found (record k { nextpid = n }) r → Found k r
Found-from k n (found i h f) = found i h f

Taken-suc :
    (k : Kernel) (i : ℕ)
    → slot_free k (k.nextpid % nproc) ≡ false
    → Taken (record k { nextpid = k.nextpid % nproc + 1 }) i
    → Taken k (suc i)
Taken-suc k i u all zero g = subst (λ (j : ℕ). slot_free k j ≡ false) (omega arith) u
Taken-suc k i u all (suc m) g =
    subst (λ (j : ℕ). slot_free k j ≡ false) (omega arith) (all m (omega arith))

newpid_loop-Found :
    (i : ℕ) (k : Kernel)
    → Found k (newpid_loop i k)
      ⊎ (Taken k i × (n : ℕ) × (newpid_loop i k ≡ done syserr (record k { nextpid = n })))
unfolding newpid_loop
newpid_loop-Found zero k = inr (λ m g. absurd (omega arith), k.nextpid, refl)
newpid_loop-Found (suc i) k =
    let slot = k.nextpid % nproc in
    let low : slot < nproc = omega arith in
    let k1 = record k { nextpid = slot + 1 } in
    elim (Bool-cases (slot_free k slot)) [
      | inl f ↦ inl (rw (proc_at-pos slot k1 low, f) (found slot low f))
      | inr u ↦
          rw (proc_at-pos slot k1 low, u)
            (elim (newpid_loop-Found i k1) [
              | inl here ↦ inl (Found-from k (slot + 1) here)
              | inr none_free ↦ inr (Taken-suc k i u none_free.0, none_free.1, none_free.2)
            ])
    ]

-- `newpid` returns the id of a free entry, and refuses only if no entry is free; it changes nothing
-- but the place where the next search starts.
pub newpid-Found :
    (k : Kernel)
    → Found k (newpid k)
      ⊎ (((i : ℕ) → i < nproc → slot_free k i ≡ false)
          × (n : ℕ) × (newpid k ≡ done syserr (record k { nextpid = n })))
unfolding newpid
newpid-Found k = elim (newpid_loop-Found nproc k) [
  | inl here ↦ inl here
  | inr none_free ↦ inr (
    λ j g.
        subst (λ (i : ℕ). slot_free k i ≡ false) (omega arith)
          (none_free.0 ((j + nproc - k.nextpid % nproc) % nproc) (omega arith)),
    none_free.1,
    none_free.2,
  )
]
