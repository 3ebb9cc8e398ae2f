-- ===== src/Message/Send.antt =====
-- `send` keeps the kernel's tables consistent: a process that waits for a message becomes ready.
use xinu_c_mips.Base.{
  ℕ, ◌<◌, ◌≡◌, ◌≢◌, refl, sym, ◌∙◌, ap, subst, true, not, ◌||◌, Bool-cases, inl, inr, List, length,
  ◌==◌, ==→eq, ℤ, pos, update, update_same, arith,
}
use xinu_c_mips.Kernel.{
  Kernel, Procent, Sentry, pure, ◌>>◌, nproc, nsem, pr_free, pr_recv, pr_rectim, isbadpid,
  isbadpid-pos, proc_at-pos, update_proc-pos, Safe, Safe-bind, ends,
}
use xinu_c_mips.Sched.{ready}
use xinu_c_mips.Sched.Dispatch.{Steady}
use xinu_c_mips.Sched.Resched.{ready-Safe}
use xinu_c_mips.Message.{send, unsleep}
use xinu_c_mips.Message.Unsleep.{unsleep-due}
use xinu_c_mips.Process.Suspend.{pid-of}
use xinu_c_mips.Invariant.{Counted, Consistent, sem_q}
use xinu_c_mips.Invariant.Placing.{loosen, IsOff-of}
use xinu_c_mips.Invariant.Entries.{Consistent-entry}

pub Counted-on :
    (s : ℕ → Sentry) (l l' : ℕ → List ℕ)
    → ((j : ℕ) → j < nsem → l' (sem_q j) ≡ l (sem_q j))
    → Counted s l
    → Counted s l'
Counted-on s l l' same c = record {
  sem_id = c.sem_id;
  counts = λ j h. c.counts j h ∙ ap (λ (ys : List ℕ). length ys) (sym (same j h));
  bounds = c.bounds;
}

module _ (k : Kernel) (l : ℕ → List ℕ) (inv : Consistent k l) (i : ℕ) (low : i < nproc)
    (live : (k.proctab i).prstate ≢ pr_free) where
  wake_receiver : (k.proctab i).prstate ≡ pr_recv → Safe Steady (λ _. Steady) (ready (pos i) true k)
  wake_receiver waits =
      ready-Safe k l inv.counted inv.running i low
        (loosen inv.placed i (IsOff-of inv.placed i low (λ r ir. ground (arith, waits)))) live

  wake_timed :
      (k.proctab i).prstate ≡ pr_rectim
      → Safe Steady (λ _. Steady) ((unsleep (pos i) >> (ready (pos i) true >> pure tt)) k)
  wake_timed waits =
      let out = unsleep-due k l i inv low (ground (arith, waits)) in
      rw out.2 (
        Safe-bind
          (ready-Safe (record k { queuetab = out.0 }) out.1
            (Counted-on k.semtab l out.1 (λ j h. out.5 (sem_q j) (omega arith)) inv.counted)
            inv.running i low out.3 live)
          (λ _ k' p. ends p))

module _ (k : Kernel) (l : ℕ → List ℕ) (inv : Consistent k l) (i msg : ℕ) (low : i < nproc)
    (live : (k.proctab i).prstate ≢ pr_free) where
  abbrev pub delivered : Kernel
  delivered = record k {
    proctab = update k.proctab i (record (k.proctab i) { prmsg = msg; prhasmsg = 1 });
  }

  pub delivered-Consistent : Consistent delivered l
  delivered-Consistent =
      Consistent-entry k l inv i (record (k.proctab i) { prmsg = msg; prhasmsg = 1 }) refl refl
        (inv.placed.prios i low)

  send-live : Safe Steady (λ _. Steady) (send (pos i) msg k)
  unfolding send
  send-live =
      let same : (delivered.proctab i).prstate ≡ (k.proctab i).prstate =
        ap (λ (p : Procent). p.prstate) (update_same k.proctab i _) in
      rw (isbadpid-pos k i low live, proc_at-pos i k low)
        (elim (Bool-cases
          (((k.proctab i).prstate == pr_free) || not ((k.proctab i).prhasmsg == 0))) [
            | inl full ↦ rw full (ends (l, inv))
            | inr room ↦
                rw (room, update_proc-pos i k (λ p. record p { prmsg = msg; prhasmsg = 1 }) low)
                  (elim (Bool-cases ((k.proctab i).prstate == pr_recv)) [
                    | inl r ↦ rw r (
                        Safe-bind
                          (Safe-bind
                            (wake_receiver delivered l delivered-Consistent i low
                              (λ z. live (sym same ∙ z)) (same ∙ ==→eq _ _ r))
                            (λ _ k' p. ends p))
                          (λ _ k' p. ends p))
                    | inr n ↦ elim (Bool-cases ((k.proctab i).prstate == pr_rectim)) [
                      | inl r ↦
                          rw (n, r)
                            (Safe-bind
                              (wake_timed delivered l delivered-Consistent i low
                                (λ z. live (sym same ∙ z)) (same ∙ ==→eq _ _ r))
                              (λ _ k' p. ends p))
                      | inr o ↦ rw (n, o) (ends (l, delivered-Consistent))
                    ]
                  ])
          ])

-- `send` on any id keeps the tables consistent and never faults: a bad id and a process that has a
-- message are refused; otherwise the message is left with the process, and one that waits for it,
-- with or without a time limit, becomes ready, and the caller may lose the processor to it.
pub send-Safe :
    (pid : ℤ) (msg : ℕ) (k : Kernel) (l : ℕ → List ℕ)
    → Consistent k l
    → Safe Steady (λ _. Steady) (send pid msg k)
unfolding send
send-Safe pid msg k l inv = elim (Bool-cases (isbadpid k pid)) [
  | inl bad ↦ rw bad (ends (l, inv))
  | inr good ↦
      let (i, e, h, live) = pid-of k pid good in
      subst (λ (z : ℤ). Safe Steady (λ _. Steady) (send z msg k)) (sym e)
        (send-live k l inv i msg h live)
]
