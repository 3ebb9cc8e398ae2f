-- ===== src/Process/Suspend.antt =====
-- `suspend` and `resume` keep the kernel's tables consistent.
use xinu_c_mips.Base.{
  ℕ, ◌<◌, ◌≡◌, ◌≢◌, refl, sym, ◌∙◌, ap, subst, true, false, ◌==◌, List, [], ◌∷◌, ◌++◌, has, ℤ, pos,
  negsuc, eqb_ℤ, ◌≤ℤ◌, update, ==→eq, ==→ne, update_same, update_other, arith, Bool-cases, inl, inr,
}
use xinu_c_mips.Kernel.{
  Kernel, Procent, done, nproc, pr_free, pr_curr, pr_ready, pr_susp, isbadpid, isbadpid-pos,
  proc_at, proc_at-pos, update_proc-pos, Safe, Safe-bind, ends,
}
use xinu_c_mips.Queue.{getitem}
use xinu_c_mips.Queue.Chain.{Table}
use xinu_c_mips.Queue.Fifo.{getitem-remove}
use xinu_c_mips.Queue.Insert.{Sorted, LeHead}
use xinu_c_mips.Sched.{ready}
use xinu_c_mips.Sched.Dispatch.{Steady, Sorted-same, Timed-other, Counted-other}
use xinu_c_mips.Sched.Resched.{ready-Safe, resched-Safe}
use xinu_c_mips.Process.{suspend, resume}
use xinu_c_mips.Invariant.{Consistent, ready_q, sleep_q}
use xinu_c_mips.Invariant.Placing.{Loose-leave, Placed-off, IsOff-of, loosen}

-- A process id that is not bad.
pub pid-of :
    (k : Kernel) (z : ℤ)
    → isbadpid k z ≡ false
    → (i : ℕ) × (z ≡ pos i) × (i < nproc) × ((k.proctab i).prstate ≢ pr_free)
unfolding isbadpid
pid-of k (pos i) h = (i, refl, ground arith, ground arith)
pid-of k (negsuc i) h = absurd (ground arith)

-- A member stands somewhere.
pub has-split :
    (i : ℕ) (zs : List ℕ) → has i zs ≡ true → (xs : List ℕ) × (ys : List ℕ) × (zs ≡ xs ++ i ∷ ys)
has-split i [] h = absurd (ground arith)
has-split i (z ∷ zs) h = elim (Bool-cases (i == z)) [
  | inl e ↦ ([], zs, ap (λ (n : ℕ). n ∷ zs) (sym (==→eq i z e)))
  | inr n ↦
      let out = has-split i zs (ground arith) in
      (z ∷ out.0, out.1, ap (λ (ws : List ℕ). z ∷ ws) out.2)
]

-- An order survives a removal.
LeHead-le : (t : Table) (a b : ℤ) (xs : List ℕ) → a ≤ℤ b → LeHead t a xs → LeHead t b xs
LeHead-le t a b [] h g = tt
LeHead-le t a b (x ∷ xs) h g = ground arith

pub Sorted-remove :
    (t : Table) (xs : List ℕ) (x : ℕ) (ys : List ℕ) → Sorted t (xs ++ x ∷ ys) → Sorted t (xs ++ ys)
Sorted-remove t [] x ys s = s.1
Sorted-remove t (y ∷ []) x ys s = (LeHead-le t (t x).qkey (t y).qkey ys s.0 s.1.0, s.1.1)
Sorted-remove t (y ∷ z ∷ xs) x ys s = (s.0, Sorted-remove t (z ∷ xs) x ys s.1)

module _ (k : Kernel) (l : ℕ → List ℕ) (inv : Consistent k l) (pid : ℕ) (low : pid < nproc)
    (user : pid ≢ 0) where
  abbrev pub suspended : Procent
  suspended = record (k.proctab pid) { prstate = pr_susp }

  -- A ready process leaves the ready list.
  pub suspend_ready :
      (k.proctab pid).prstate ≡ pr_ready
      → (t : Table) × (l' : ℕ → List ℕ) × (getitem (pos pid) k
          ≡ done (pos pid) (record k { queuetab = t }))
        × Consistent (record k { queuetab = t; proctab = update k.proctab pid suspended }) l'
        × ((r : ℕ) → r ≢ ready_q → l' r ≡ l r)
  unfolding update
  suspend_ready is_ready =
      let here =
        has-split pid (l ready_q)
          (inv.placed.member pid ready_q low (omega arith) ∙ ground arith) in
      let (xs, ys, e) = here in
      let out = getitem-remove k l inv.placed.queues ready_q (omega arith) xs pid ys e in
      (
        out.0,
        update l ready_q (xs ++ ys),
        out.1,
        record {
          placed =
              Placed-off
                (Loose-leave inv.placed out.0 ready_q xs pid ys e out.3
                  (ap (has pid) (sym (update_same l ready_q (xs ++ ys)))
                    ∙ out.3 ready_q (omega arith))
                  out.2
                  (Sorted-same k.queuetab out.0 (xs ++ ys) out.4
                    (Sorted-remove k.queuetab xs pid ys (rw e at (inv.placed.sorted))))
                  (Timed-other k.queuetab out.0 l ready_q (xs ++ ys) sleep_q (omega arith) out.4
                    inv.placed.delays))
                suspended
                (record {
                  sem = λ h. absurd (omega arith);
                  prio = inv.placed.prios pid low;
                  null = λ h. absurd (user h);
                })
                (λ r ir. refl);
          counted = Counted-other k.semtab l ready_q (xs ++ ys) (omega arith) inv.counted;
          running = record {
            ready_id = inv.running.ready_id;
            sleep_id = inv.running.sleep_id;
            low = inv.running.low;
            single = λ i h. ground (arith, inv.running.single i);
          };
        },
        λ r n. update_other l ready_q (xs ++ ys) r n,
      )

  -- The running process stays off the queues.
  pub suspend_current :
      (k.proctab pid).prstate ≡ pr_curr
      → Consistent (record k { proctab = update k.proctab pid suspended }) l
  unfolding update
  suspend_current runs = record {
    placed =
        Placed-off
          (loosen inv.placed pid (IsOff-of inv.placed pid low (λ r ir. ground (arith, runs))))
          suspended
          (record {
            sem = λ h. absurd (omega arith);
            prio = inv.placed.prios pid low;
            null = λ h. absurd (user h);
          })
          (λ r ir. refl);
    counted = inv.counted;
    running = record {
      ready_id = inv.running.ready_id;
      sleep_id = inv.running.sleep_id;
      low = inv.running.low;
      single = λ i h. ground (arith, inv.running.single i);
    };
  }

  suspend-live : (k.proctab pid).prstate ≢ pr_free → Safe Steady (λ _. Steady) (suspend (pos pid) k)
  unfolding suspend
  suspend-live live =
      let nonnull : eqb_ℤ (pos pid) (pos 0) ≡ false = ground arith in
      rw (isbadpid-pos k pid low live, nonnull, proc_at-pos pid k low)
        (elim (Bool-cases ((k.proctab pid).prstate == pr_ready)) [
          | inl r ↦
              let out = suspend_ready (==→eq _ _ r) in
              let other : ((k.proctab pid).prstate == pr_curr) ≡ false = ground arith in
              rw
                (
                  r,
                  other,
                  out.2,
                  update_proc-pos pid (record k { queuetab = out.0 })
                      (λ p. record p { prstate = pr_susp }) low,
                  proc_at-pos pid
                      (record k { queuetab = out.0; proctab = update k.proctab pid suspended }) low,
                )
                (ends (out.1, out.3))
          | inr n ↦ elim (Bool-cases ((k.proctab pid).prstate == pr_curr)) [
            | inl c ↦
                rw (n, c, update_proc-pos pid k (λ p. record p { prstate = pr_susp }) low)
                  (Safe-bind
                    (resched-Safe (record k { proctab = update k.proctab pid suspended }) l
                      (suspend_current (==→eq _ _ c)))
                    (λ _ k' s. rw (proc_at-pos pid k' low) (ends s)))
            | inr o ↦ rw (n, o) (ends (l, inv))
          ]
        ])

-- `suspend` keeps the tables consistent and never faults: a bad id, the null process and a process
-- that is neither running nor ready are refused; a ready process leaves the ready list, and a
-- running one hands the processor over.
pub suspend-Safe :
    (pid : ℤ) (k : Kernel) (l : ℕ → List ℕ)
    → Consistent k l
    → Safe Steady (λ _. Steady) (suspend pid k)
unfolding suspend
suspend-Safe pid k l inv = elim (Bool-cases (isbadpid k pid)) [
  | inl bad ↦ rw bad (ends (l, inv))
  | inr good ↦
      let (i, e, h, live) = pid-of k pid good in
      elim (Bool-cases (i == 0)) [
        | inl null ↦
            let zero_pid : eqb_ℤ pid (pos 0) ≡ true = ap (λ (z : ℤ). eqb_ℤ z (pos 0)) e ∙ null in
            rw (good, zero_pid) (ends (l, inv))
        | inr user ↦
            subst (λ (z : ℤ). Safe Steady (λ _. Steady) (suspend z k)) (sym e)
              (suspend-live k l inv i h (==→ne i 0 user) live)
      ]
]

-- `resume` keeps the tables consistent and never faults: only a suspended process becomes ready,
-- and the caller may lose the processor to it; any other id is refused.
pub resume-Safe :
    (pid : ℤ) (k : Kernel) (l : ℕ → List ℕ)
    → Consistent k l
    → Safe Steady (λ _. Steady) (resume pid k)
unfolding resume
resume-Safe pid k l inv = elim (Bool-cases (isbadpid k pid)) [
  | inl bad ↦ rw bad (ends (l, inv))
  | inr good ↦
      let (i, e, h, live) = pid-of k pid good in
      let run : proc_at pid k ≡ done (k.proctab i) k =
        ap (λ (z : ℤ). proc_at z k) e ∙ proc_at-pos i k h in
      rw (good, run)
        (elim (Bool-cases ((k.proctab i).prstate == pr_susp)) [
          | inl s ↦
              let off = IsOff-of inv.placed i h (λ r ir. ground (arith, ==→eq _ _ s)) in
              rw s (
                Safe-bind
                  (subst (λ (z : ℤ). Safe Steady (λ _. Steady) (ready z true k)) (sym e)
                    (ready-Safe k l inv.counted inv.running i h (loosen inv.placed i off) live))
                  (λ _ k' p. ends p))
          | inr n ↦ rw n (ends (l, inv))
        ])
]
