-- ===== src/Semaphore/Signalled.antt =====
-- What `signal` does on each branch.
use xinu_c_mips.Base.{
  ℕ, ◌+◌, ◌<◌, ◌^◌, ◌≡◌, refl, sym, ◌∙◌, ap, subst, true, List, [], ◌∷◌, length, ℤ, pos, pos_part,
  ◌+ℤ◌, ltb_ℤ, update, arith, Bool-cases, inl, inr,
}
use xinu_c_mips.Kernel.{
  ok, syserr, Run, Kernel, done, pure, and_then_assoc, ◌>>◌, nsem, is_s_free, isbadsem,
  isbadsem-pos, sem_at-pos, update_sem-pos, Safe,
}
use xinu_c_mips.Queue.{dequeue}
use xinu_c_mips.Sched.{resched}
use xinu_c_mips.Sched.Dispatch.{Steady}
use xinu_c_mips.Semaphore.{signal}
use xinu_c_mips.Semaphore.Signal.{raised, inc-here, wake_first, none_wakes, Woken, signal-Safe}
use xinu_c_mips.Semaphore.Counts.{inc-pos, sem-of}
use xinu_c_mips.Invariant.{Consistent, sem_q}

-- A bad or free semaphore is refused. Otherwise the count rises by one; if a process waits, the first
-- one is made ready, and then `resched` runs, and if none waits, nothing else happens.
pub data Signalled (k : Kernel) (l : ℕ → List ℕ) : ℤ → Run ℤ → Type 0 where
  refuses_bad : {sem : ℤ} → isbadsem sem ≡ true → Signalled k l sem (done syserr k)
  refuses_free :
      {j : ℕ}
      → j < nsem
      → is_s_free (k.semtab j).sstate ≡ true
      → Signalled k l (pos j) (done syserr k)
  raises :
      {k' : Kernel} {j : ℕ}
      → l (sem_q j) ≡ []
      → k' ≡ record k {
        semtab = update k.semtab j (record (k.semtab j) { scount = (k.semtab j).scount +ℤ pos 1 });
      }
      → Consistent k' l
      → Signalled k l (pos j) (done ok k')
  wakes :
      {k' : Kernel} {l' : ℕ → List ℕ} {j : ℕ}
      → ((m : ℕ)
          → k'.semtab m
            ≡ update k.semtab j (record (k.semtab j) { scount = (k.semtab j).scount +ℤ pos 1 }) m)
      → Woken k k' l l' (sem_q j)
      → Consistent k' l'
      → Signalled k l (pos j) ((resched >> pure ok) k')

no_length : (xs : List ℕ) → length xs ≡ 0 → xs ≡ []
no_length [] h = refl
no_length (x ∷ xs) h = absurd (omega arith)

module _ (k : Kernel) (l : ℕ → List ℕ) (inv : Consistent k l) (j : ℕ) (hj : j < nsem)
    (room : pos_part (k.semtab j).scount + 1 < 2 ^ 31) where
  signal-used : Signalled k l (pos j) (signal (pos j) k)
  unfolding signal
  signal-used =
      rw (isbadsem-pos j hj, sem_at-pos j k hj)
        (elim (Bool-cases (is_s_free (k.semtab j).sstate)) [
          | inl f ↦ rw f (Signalled.refuses_free hj f)
          | inr u ↦
              rw (u, update_sem-pos j k _ hj)
                (elim (Bool-cases (ltb_ℤ (k.semtab j).scount (pos 0))) [
                  | inl low ↦ rw low (
                      rw
                        (ap (λ (z : ℤ). dequeue z (raised k l inv j hj room))
                          (inv.counted.sem_id j hj))
                        (let out = wake_first k l inv j hj room true (l (sem_q j)) refl low in
                          rw out.2 (
                            subst (Signalled k l (pos j))
                              (sym (
                                and_then_assoc ((resched >> pure ok) out.0) (λ _. pure tt)
                                  (λ _. pure ok)
                                ∙ and_then_assoc (resched out.0) (λ _. pure ok) (λ _. pure ok)))
                              (Signalled.wakes
                                (λ m.
                                  out.4 m
                                  ∙ ap
                                      (λ z.
                                        update k.semtab j (record (k.semtab j) { scount = z }) m)
                                      (inc-here k l inv j hj room))
                                out.5 out.3))))
                  | inr high ↦ rw high (
                      Signalled.raises
                        (no_length (l (sem_q j)) (
                          omega
                            (arith, (inc-pos (k.semtab j).scount high), inv.counted.counts j hj)))
                        (ap
                          (λ z. record k {
                            semtab = update k.semtab j (record (k.semtab j) { scount = z });
                          })
                          (inc-here k l inv j hj room))
                        (none_wakes k l inv j hj room high))
                ])
        ])

-- `signal` on any id keeps the tables consistent and never faults. A bad or free semaphore is refused
-- and nothing changes. Otherwise the count rises by one; if no process waits, that is all, and if one
-- waits, the first one leaves the semaphore's queue, which keeps the others in order, and is made
-- ready, and then `resched` runs; no other semaphore changes. The counts are below their greatest
-- value.
pub signal-Signalled :
    (sem : ℤ) (k : Kernel) (l : ℕ → List ℕ)
    → Consistent k l
    → ((j : ℕ) → j < nsem → pos_part (k.semtab j).scount + 1 < 2 ^ 31)
    → Safe Steady (λ _. Steady) (signal sem k) × Signalled k l sem (signal sem k)
unfolding signal
signal-Signalled sem k l inv room = (
  signal-Safe sem k l inv room,
  elim (Bool-cases (isbadsem sem)) [
    | inl bad ↦ rw bad (Signalled.refuses_bad bad)
    | inr good ↦
        let (j, e, h) = sem-of sem good in
        subst (λ (z : ℤ). Signalled k l z (signal z k)) (sym e) (signal-used k l inv j h (room j h))
  ],
)
