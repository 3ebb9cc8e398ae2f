-- ===== src/Message/Sent.antt =====
-- What `send` does on each branch.
use xinu_c_mips.Base.{
  ℕ, ◌<◌, ◌≡◌, ◌≢◌, ◌⊎◌, refl, sym, ◌∙◌, ap, subst, true, false, not, ◌||◌, Bool-cases, inl, inr,
  List, has, ◌==◌, ==→eq, ==→ne, eq→==, ℤ, pos, update, update_same, arith,
}
use xinu_c_mips.Kernel.{
  Kernel, Procent, Run, done, pure, and_then, and_then_assoc, ◌>>◌, ok, syserr, nproc, pr_free,
  pr_ready, pr_recv, pr_rectim, isbadpid, isbadpid-pos, proc_at-pos, update_proc-pos, Safe,
}
use xinu_c_mips.Queue.Chain.{Table}
use xinu_c_mips.Sched.{ready, resched}
use xinu_c_mips.Sched.Dispatch.{Steady}
use xinu_c_mips.Sched.Resched.{made_ready, ready-made}
use xinu_c_mips.Message.{send, unsleep}
use xinu_c_mips.Message.Unsleep.{unsleep-due}
use xinu_c_mips.Message.Send.{Counted-on, delivered, delivered-Consistent, send-Safe}
use xinu_c_mips.Process.Suspend.{pid-of}
use xinu_c_mips.Invariant.{Consistent, ready_q, sleep_q, sem_q}
use xinu_c_mips.Invariant.Placing.{loosen, IsOff-of}

-- Between two states process `i` got the message and was made ready.
pub record Received (k k' : Kernel) (l l' : ℕ → List ℕ) (i msg : ℕ) : Type 0 where
  pub entry : k'.proctab i ≡ record (k.proctab i) { prmsg = msg; prhasmsg = 1; prstate = pr_ready }
  pub processes : (m : ℕ) → m ≢ i → k'.proctab m ≡ k.proctab m
  pub is_queued : has i (l' ready_q) ≡ true
  pub wakes_up : has i (l' sleep_q) ≡ false
  pub queues : (r : ℕ) → r ≢ ready_q → r ≢ sleep_q → l' r ≡ l r

-- A bad id and a process that has a message are refused. Otherwise the message is left with the process;
-- if it waits for one, with or without a time limit, it is made ready, and then `resched` runs.
pub data Sent (k : Kernel) (l : ℕ → List ℕ) (msg : ℕ) : ℤ → Run ℤ → Type 0 where
  refuses_bad : {pid : ℤ} → isbadpid k pid ≡ true → Sent k l msg pid (done syserr k)
  refuses_full : {i : ℕ} → (k.proctab i).prhasmsg ≢ 0 → Sent k l msg (pos i) (done syserr k)
  leaves :
      {i : ℕ}
      → (k.proctab i).prhasmsg ≡ 0
      → (k.proctab i).prstate ≢ pr_recv
      → (k.proctab i).prstate ≢ pr_rectim
      → Sent k l msg (pos i) (
          done ok (record k {
            proctab = update k.proctab i (record (k.proctab i) { prmsg = msg; prhasmsg = 1 });
          }))
  wakes :
      {i : ℕ} {k' : Kernel} {l' : ℕ → List ℕ}
      → (k.proctab i).prhasmsg ≡ 0
      → ((k.proctab i).prstate ≡ pr_recv) ⊎ ((k.proctab i).prstate ≡ pr_rectim)
      → Received k k' l l' i msg
      → Consistent k' l'
      → Sent k l msg (pos i) ((resched >> pure ok) k')

-- How a process in either of the states of waiting is made ready.
abbrev Made : Kernel → (ℕ → List ℕ) → ℕ → Run (Unit {0}) → Type 0
Made k l i out =
    (t : Table) × (l' : ℕ → List ℕ) × (out ≡ ((resched >> pure ok) >> pure tt) (made_ready k i t))
    × Consistent (made_ready k i t) l'
    × ((r : ℕ) → r ≢ ready_q → r ≢ sleep_q → l' r ≡ l r)

module _ (k : Kernel) (l : ℕ → List ℕ) (inv : Consistent k l) (i : ℕ) (low : i < nproc)
    (live : (k.proctab i).prstate ≢ pr_free) where
  receiver-Made : (k.proctab i).prstate ≡ pr_recv → Made k l i ((ready (pos i) true >> pure tt) k)
  receiver-Made waits =
      let made =
        ready-made k l inv.counted inv.running i low
          (loosen inv.placed i (IsOff-of inv.placed i low (λ r ir. ground (arith, waits)))) live
          true in
      (
        made.0,
        made.1,
        ap (λ (r : Run ℤ). and_then r (λ _. pure tt)) made.2,
        made.3,
        λ r n m. made.4 r n,
      )

  timed-Made :
      (k.proctab i).prstate ≡ pr_rectim
      → Made k l i ((unsleep (pos i) >> (ready (pos i) true >> pure tt)) k)
  timed-Made waits =
      let out = unsleep-due k l i inv low (ground (arith, waits)) in
      let made =
        ready-made (record k { queuetab = out.0 }) out.1
          (Counted-on k.semtab l out.1 (λ j h. out.5 (sem_q j) (omega arith)) inv.counted)
          inv.running i low out.3 live true in
      (
        made.0,
        made.1,
        rw out.2 (ap (λ (r : Run ℤ). and_then r (λ _. pure tt)) made.2),
        made.3,
        λ r n m. made.4 r n ∙ out.5 r m,
      )

module _ (k : Kernel) (l : ℕ → List ℕ) (inv : Consistent k l) (i msg : ℕ) (low : i < nproc)
    (live : (k.proctab i).prstate ≢ pr_free) (room : (k.proctab i).prhasmsg ≡ 0)
    (waits : ((k.proctab i).prstate ≡ pr_recv) ⊎ ((k.proctab i).prstate ≡ pr_rectim)) where
  woken-Sent :
      (out : Run (Unit {0}))
      → Made (delivered k l inv i msg low live) l i out
      → Sent k l msg (pos i) (and_then out (λ _. pure ok))
  unfolding update
  woken-Sent out m =
      let k' = made_ready (delivered k l inv i msg low live) i m.0 in
      rw m.2 (
        subst (Sent k l msg (pos i))
          (sym (
            and_then_assoc ((resched >> pure ok) k') (λ _. pure tt) (λ _. pure ok)
            ∙ and_then_assoc (resched k') (λ _. pure ok) (λ _. pure ok)))
          (Sent.wakes room waits
            (record {
              entry = rw (eq→== i i refl) refl;
              processes = λ x n. ground arith;
              is_queued =
                  m.3.placed.member i ready_q low (omega arith) ∙ ground (arith, eq→== i i refl);
              wakes_up =
                  m.3.placed.member i sleep_q low (omega arith) ∙ ground (arith, eq→== i i refl);
              queues = m.4;
            })
            m.3))

module _ (k : Kernel) (l : ℕ → List ℕ) (inv : Consistent k l) (i msg : ℕ) (low : i < nproc)
    (live : (k.proctab i).prstate ≢ pr_free) where
  send_live-Sent : Sent k l msg (pos i) (send (pos i) msg k)
  unfolding send
  send_live-Sent =
      let kd = delivered k l inv i msg low live in
      let invd = delivered-Consistent k l inv i msg low live in
      let same : (kd.proctab i).prstate ≡ (k.proctab i).prstate =
        ap (λ (p : Procent). p.prstate) (update_same k.proctab i _) in
      let lived : (kd.proctab i).prstate ≢ pr_free = λ z. live (sym same ∙ z) in
      rw (isbadpid-pos k i low live, proc_at-pos i k low)
        (elim (Bool-cases
          (((k.proctab i).prstate == pr_free) || not ((k.proctab i).prhasmsg == 0))) [
            | inl full ↦ rw full (Sent.refuses_full (ground arith))
            | inr none_there ↦
                let room : (k.proctab i).prhasmsg ≡ 0 = ground arith in
                rw
                  (
                    none_there,
                    update_proc-pos i k (λ p. record p { prmsg = msg; prhasmsg = 1 }) low,
                  )
                  (elim (Bool-cases ((k.proctab i).prstate == pr_recv)) [
                    | inl r ↦ rw r (
                        woken-Sent k l inv i msg low live room (inl (==→eq _ _ r)) _
                          (receiver-Made kd l invd i low lived (same ∙ ==→eq _ _ r)))
                    | inr n ↦ elim (Bool-cases ((k.proctab i).prstate == pr_rectim)) [
                      | inl r ↦
                          rw (n, r)
                            (woken-Sent k l inv i msg low live room (inr (==→eq _ _ r)) _
                              (timed-Made kd l invd i low lived (same ∙ ==→eq _ _ r)))
                      | inr o ↦ rw (n, o) (Sent.leaves room (==→ne _ _ n) (==→ne _ _ o))
                    ]
                  ])
          ])

-- `send` on any id keeps the tables consistent and never faults. A bad id and a process that has a
-- message are refused, and nothing changes. Otherwise the message is left with the process; if it
-- waits for one, with or without a time limit, it is made ready and leaves the sleep queue, and then
-- `resched` runs; if it does not wait, nothing else happens.
pub send-Sent :
    (pid : ℤ) (msg : ℕ) (k : Kernel) (l : ℕ → List ℕ)
    → Consistent k l
    → Safe Steady (λ _. Steady) (send pid msg k) × Sent k l msg pid (send pid msg k)
unfolding send
send-Sent pid msg k l inv = (
  send-Safe pid msg k l inv,
  elim (Bool-cases (isbadpid k pid)) [
    | inl bad ↦ rw bad (Sent.refuses_bad bad)
    | inr good ↦
        let (i, e, h, live) = pid-of k pid good in
        subst (λ (z : ℤ). Sent k l msg z (send z msg k)) (sym e)
          (send_live-Sent k l inv i msg h live)
  ],
)
