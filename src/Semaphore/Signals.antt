-- ===== src/Semaphore/Signals.antt =====
-- `signaln` keeps the kernel's tables consistent: it gives the signals one by one, and reschedules
-- at the end.
use xinu_c_mips.Base.{
  ℕ, zero, suc, ◌+◌, ◌<◌, ◌≤◌, ◌^◌, ◌≡◌, refl, ◌∙◌, ap, false, ◌||◌, List, ℤ, pos, pos_part, ltb_ℤ,
  update_same, arith, Bool-cases, inl, inr,
}
use xinu_c_mips.Kernel.{
  Kernel, Sentry, done, nsem, is_s_free, isbadsem, sem_at, sem_at-pos, update_sem-pos, Safe,
  Safe-bind, ends,
}
use xinu_c_mips.Queue.{dequeue}
use xinu_c_mips.Sched.Dispatch.{Steady}
use xinu_c_mips.Sched.Resched.{resched-Safe}
use xinu_c_mips.Semaphore.{signaln, signaln_loop}
use xinu_c_mips.Semaphore.Signal.{raised, inc-here, wake_first, none_wakes}
use xinu_c_mips.Semaphore.Counts.{inc, inc-le, sem-of}
use xinu_c_mips.Invariant.{Consistent, sem_q}

-- One round: the count rises, and the first waiting process, if any, becomes ready.
module _ (k : Kernel) (l : ℕ → List ℕ) (inv : Consistent k l) (j : ℕ) (hj : j < nsem)
    (room : pos_part (k.semtab j).scount + 1 < 2 ^ 31) where
  raised-le : pos_part (inc (k.semtab j).scount) ≤ pos_part (k.semtab j).scount + 1
  raised-le = omega (arith, ap pos_part (inc-here k l inv j hj room), inc-le (k.semtab j).scount)

signaln_loop-Consistent :
    (n j : ℕ) (k : Kernel) (l : ℕ → List ℕ)
    → Consistent k l
    → j < nsem
    → pos_part (k.semtab j).scount + n < 2 ^ 31
    → (k' : Kernel) × (signaln_loop n (pos j) k ≡ done tt k') × Steady k'
unfolding signaln_loop
signaln_loop-Consistent zero j k l inv hj room = (k, refl, (l, inv))
signaln_loop-Consistent (suc n) j k l inv hj room =
    let one : pos_part (k.semtab j).scount + 1 < 2 ^ 31 = omega arith in
    elim (Bool-cases (ltb_ℤ (k.semtab j).scount (pos 0))) [
      | inl low ↦
          let out = wake_first k l inv j hj one false (l (sem_q j)) refl low in
          let rest = signaln_loop-Consistent n j out.0 out.1 out.3 hj (
            omega (
              arith,
              raised-le k l inv j hj one,
              ap (λ (s : Sentry). pos_part s.scount) (out.4 j ∙ update_same k.semtab j _),
            )) in
          (
            rest.0,
            rw (sem_at-pos j k hj, update_sem-pos j k _ hj, low)
                (rw (ap (λ (z : ℤ). dequeue z (raised k l inv j hj one)) (inv.counted.sem_id j hj))
                  (rw out.2 rest.1)),
            rest.2,
          )
      | inr high ↦
          let rest =
            signaln_loop-Consistent n j (raised k l inv j hj one) l
              (none_wakes k l inv j hj one high) hj
              (omega (
                arith,
                raised-le k l inv j hj one,
                ap (λ (s : Sentry). pos_part s.scount)
                    (update_same k.semtab j
                      (record (k.semtab j) { scount = inc (k.semtab j).scount })),
              )) in
          (rest.0, rw (sem_at-pos j k hj, update_sem-pos j k _ hj, high) rest.1, rest.2)
    ]

-- `signaln` on any id and any count keeps the tables consistent and never faults: as many waiting
-- processes become ready as signals are given, if there are so many, and then the caller may lose
-- the processor. The count of the semaphore and the number of the signals together are below the
-- greatest value.
pub signaln-Safe :
    (sem count : ℤ) (k : Kernel) (l : ℕ → List ℕ)
    → Consistent k l
    → ((j : ℕ) → j < nsem → pos_part (k.semtab j).scount + pos_part count < 2 ^ 31)
    → Safe Steady (λ _. Steady) (signaln sem count k)
unfolding signaln
signaln-Safe sem count k l inv room = elim (Bool-cases (isbadsem sem || ltb_ℤ count (pos 0))) [
  | inl bad ↦ rw bad (ends (l, inv))
  | inr good ↦
      let (j, e, h) = sem-of sem (ground arith) in
      let at_sem : sem_at sem k ≡ done (k.semtab j) k =
        ap (λ (z : ℤ). sem_at z k) e ∙ sem_at-pos j k h in
      let out = signaln_loop-Consistent (pos_part count) j k l inv h (room j h) in
      let loop : signaln_loop (pos_part count) sem k ≡ done tt out.0 =
        ap (λ (z : ℤ). signaln_loop (pos_part count) z k) e ∙ out.1 in
      rw (good, at_sem)
        (elim (Bool-cases (is_s_free (k.semtab j).sstate)) [
          | inl f ↦ rw f (ends (l, inv))
          | inr u ↦ rw (u, loop) (Safe-bind (resched-Safe out.0 out.2.0 out.2.1) (λ _ k' p. ends p))
        ])
]
