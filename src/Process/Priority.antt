-- ===== src/Process/Priority.antt =====
-- `chprio` keeps the kernel's tables consistent.
use xinu_c_mips.Base.{ℕ, ◌≡◌, refl, ◌∙◌, ap, Bool-cases, inl, inr, List, ℤ, ◌<ℤ◌, update}
use xinu_c_mips.Kernel.{
  Kernel, done, isbadpid, minkey, proc_at, proc_at-pos, update_proc, update_proc-pos, syserr,
}
use xinu_c_mips.Process.{chprio}
use xinu_c_mips.Process.Suspend.{pid-of}
use xinu_c_mips.Invariant.{Consistent}
use xinu_c_mips.Invariant.Entries.{Consistent-entry}

-- `chprio` returns the old priority of a process and sets the new one, if that is above MINKEY, or
-- refuses a bad id; the tables stay consistent, though a ready process keeps its old key, and only
-- the entry of the process changes.
pub chprio-Consistent :
    (pid newprio : ℤ) (k : Kernel) (l : ℕ → List ℕ)
    → Consistent k l
    → minkey <ℤ newprio
    → (z : ℤ) × (k' : Kernel) × (chprio pid newprio k ≡ done z k')
      × Consistent k' l
      × (k'.queuetab ≡ k.queuetab)
unfolding chprio
chprio-Consistent pid newprio k l inv big = elim (Bool-cases (isbadpid k pid)) [
  | inl bad ↦ (syserr, k, rw bad refl, inv, refl)
  | inr good ↦
      let (i, e, h, live) = pid-of k pid good in
      let p = record (k.proctab i) { prprio = newprio } in
      (
        (k.proctab i).prprio,
        record k { proctab = update k.proctab i p },
        rw
            (
              good,
              ap (λ (z : ℤ). proc_at z k) e ∙ proc_at-pos i k h,
              ap (λ (z : ℤ). update_proc z (λ p. record p { prprio = newprio }) k) e
                  ∙ update_proc-pos i k (λ p. record p { prprio = newprio }) h,
            )
            refl,
        Consistent-entry k l inv i p refl refl big,
        refl,
      )
]
