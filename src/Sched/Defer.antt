-- ===== src/Sched/Defer.antt =====
-- Deferred rescheduling keeps the kernel's tables consistent.
use xinu_c_mips.Base.{
  ℕ, Bool, Bool-cases, true, false, inl, inr, List, ℤ, pos, eqb_ℤ, leb_ℤ, ◌-ℤ◌, wrap32,
  if◌then◌else◌,
}
use xinu_c_mips.Kernel.{Kernel, pure, Safe, Safe-bind, ends}
use xinu_c_mips.Sched.{resched, sched_cntl, defer_start, defer_stop}
use xinu_c_mips.Sched.Dispatch.{Steady}
use xinu_c_mips.Sched.Resched.{resched-Safe}
use xinu_c_mips.Invariant.{Consistent}

module _ (k : Kernel) (l : ℕ → List ℕ) (inv : Consistent k l) where
  -- The end of a deferral, with the new number of deferrals.
  defer_ends :
      (z : ℤ) (tried : Bool)
      → Safe Steady
          (λ _. Steady)
          ((if eqb_ℤ z (pos 0) then (if tried then resched else pure tt) else pure tt)
            (record k { ndefers = z }))
  defer_ends z true = elim (Bool-cases (eqb_ℤ z (pos 0))) [
    | inl last ↦ rw last (resched-Safe (record k { ndefers = z }) l inv)
    | inr more ↦ rw more (ends (l, inv))
  ]
  defer_ends z false = elim (Bool-cases (eqb_ℤ z (pos 0))) [
    | inl last ↦ rw last (ends (l, inv))
    | inr more ↦ rw more (ends (l, inv))
  ]

  -- `sched_cntl` keeps the tables consistent and never faults for every request: a deferral starts
  -- or ends, the last end makes up for a `resched` that came in between, and an end without a
  -- start and an unknown request are refused.
  pub sched_cntl-Safe : (def : ℤ) → Safe Steady (λ _. Steady) (sched_cntl def k)
  unfolding sched_cntl
  sched_cntl-Safe def = elim (Bool-cases (eqb_ℤ def defer_start)) [
    | inl start ↦ rw start (ends (l, inv))
    | inr other ↦ elim (Bool-cases (eqb_ℤ def defer_stop)) [
      | inl stop ↦ elim (Bool-cases (leb_ℤ k.ndefers (pos 0))) [
        | inl none_out ↦ rw (other, stop, none_out) (ends (l, inv))
        | inr some_out ↦
            rw (other, stop, some_out)
              (Safe-bind (defer_ends (wrap32 (k.ndefers -ℤ pos 1)) k.attempt) (λ _ k' p. ends p))
      ]
      | inr unknown ↦ rw (other, unknown) (ends (l, inv))
    ]
  ]
