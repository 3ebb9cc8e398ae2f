-- ===== src/Process/Suspended.antt =====
-- What `suspend` does on each branch.
use xinu_c_mips.Base.{
  ℕ, ◌<◌, ◌≡◌, ◌≢◌, refl, sym, ◌∙◌, ap, subst, true, false, ◌||◌, ◌==◌, List, has, ℤ, pos, eqb_ℤ,
  update, update_same, ==→eq, ==→ne, arith, Bool-cases, inl, inr,
}
use xinu_c_mips.Kernel.{
  Kernel, Run, done, pure, ◌>>=◌, and_then, syserr, nproc, pr_free, pr_curr, pr_ready, pr_susp,
  isbadpid, isbadpid-pos, proc_at, proc_at-pos, update_proc-pos, Safe,
}
use xinu_c_mips.Queue.Chain.{Table}
use xinu_c_mips.Sched.{resched}
use xinu_c_mips.Sched.Dispatch.{Steady}
use xinu_c_mips.Process.{suspend}
use xinu_c_mips.Process.Suspend.{suspended, suspend_ready, suspend_current, pid-of, suspend-Safe}
use xinu_c_mips.Invariant.{Consistent, on, ready_q}

-- A bad id, the null process and a process that is neither running nor ready are refused. A ready process
-- leaves the ready list; for the running one `resched` runs, and its priority is read afterwards.
pub data Suspended (k : Kernel) (l : ℕ → List ℕ) : ℤ → Run ℤ → Type 0 where
  refuses :
      {pid : ℤ} → (isbadpid k pid || eqb_ℤ pid (pos 0)) ≡ true → Suspended k l pid (done syserr k)
  refuses_state :
      {i : ℕ}
      → (k.proctab i).prstate ≢ pr_curr
      → (k.proctab i).prstate ≢ pr_ready
      → Suspended k l (pos i) (done syserr k)
  leaves :
      {i : ℕ} {t : Table} {l' : ℕ → List ℕ}
      → (k.proctab i).prstate ≡ pr_ready
      → has i (l' ready_q) ≡ false
      → ((r : ℕ) → r ≢ ready_q → l' r ≡ l r)
      → Consistent
          (record k {
            queuetab = t;
            proctab = update k.proctab i (record (k.proctab i) { prstate = pr_susp });
          })
          l'
      → Suspended k l (pos i) (
          done (k.proctab i).prprio (record k {
            queuetab = t;
            proctab = update k.proctab i (record (k.proctab i) { prstate = pr_susp });
          }))
  hands_over :
      {i : ℕ} {k' : Kernel}
      → (k.proctab i).prstate ≡ pr_curr
      → k' ≡ record k { proctab = update k.proctab i (record (k.proctab i) { prstate = pr_susp }) }
      → Consistent k' l
      → Suspended k l (pos i) (and_then (resched k') (λ _ kr. done (kr.proctab i).prprio kr))

module _ (k : Kernel) (l : ℕ → List ℕ) (inv : Consistent k l) (i : ℕ) (low : i < nproc)
    (user : i ≢ 0) where
  reads_prio :
      (kr : Kernel) → (proc_at (pos i) >>= λ p. pure p.prprio) kr ≡ done (kr.proctab i).prprio kr
  reads_prio kr = rw (proc_at-pos i kr low) refl

  suspend_live-Suspended :
      (k.proctab i).prstate ≢ pr_free → Suspended k l (pos i) (suspend (pos i) k)
  unfolding suspend
  suspend_live-Suspended live =
      let nonnull : eqb_ℤ (pos i) (pos 0) ≡ false = ground arith in
      let gone = suspended k l inv i low user in
      rw (isbadpid-pos k i low live, nonnull, proc_at-pos i k low)
        (elim (Bool-cases ((k.proctab i).prstate == pr_ready)) [
          | inl r ↦
              let out = suspend_ready k l inv i low user (==→eq _ _ r) in
              let other : ((k.proctab i).prstate == pr_curr) ≡ false = ground arith in
              rw
                (
                  r,
                  other,
                  out.2,
                  update_proc-pos i (record k { queuetab = out.0 })
                      (λ p. record p { prstate = pr_susp }) low,
                  proc_at-pos i (record k { queuetab = out.0; proctab = update k.proctab i gone })
                      low,
                )
                (subst
                  (λ (z : ℤ).
                    Suspended k l (pos i)
                      (done z (record k { queuetab = out.0; proctab = update k.proctab i gone })))
                  (ap (λ p. p.prprio) (sym (update_same k.proctab i gone)))
                  (Suspended.leaves (==→eq _ _ r)
                    (out.3.placed.member i ready_q low (omega arith)
                      ∙ ap (λ p. on p ready_q) (update_same k.proctab i gone))
                    out.4 out.3))
          | inr n ↦ elim (Bool-cases ((k.proctab i).prstate == pr_curr)) [
            | inl c ↦
                rw (n, c, update_proc-pos i k (λ p. record p { prstate = pr_susp }) low)
                  (subst (Suspended k l (pos i))
                    (ap (and_then (resched (record k { proctab = update k.proctab i gone })))
                      (λ x _ kr. sym (reads_prio kr) x))
                    (Suspended.hands_over (==→eq _ _ c) refl
                      (suspend_current k l inv i low user (==→eq _ _ c))))
            | inr o ↦ rw (n, o) (Suspended.refuses_state (==→ne _ _ o) (==→ne _ _ n))
          ]
        ])

-- `suspend` keeps the tables consistent and never faults. A bad id, the null process and a process that
-- is neither running nor ready are refused, and nothing changes. A ready process is marked and leaves
-- the ready list, and its priority is returned; a running one is marked, `resched` hands the
-- processor over, and its priority is returned when it runs again.
pub suspend-Suspended :
    (pid : ℤ) (k : Kernel) (l : ℕ → List ℕ)
    → Consistent k l
    → Safe Steady (λ _. Steady) (suspend pid k) × Suspended k l pid (suspend pid k)
unfolding suspend
suspend-Suspended pid k l inv = (
  suspend-Safe pid k l inv,
  elim (Bool-cases (isbadpid k pid)) [
    | inl bad ↦ rw bad (Suspended.refuses (rw bad refl))
    | inr good ↦
        let (i, e, h, live) = pid-of k pid good in
        elim (Bool-cases (i == 0)) [
          | inl null ↦
              let zero_pid : eqb_ℤ pid (pos 0) ≡ true = ap (λ (z : ℤ). eqb_ℤ z (pos 0)) e ∙ null in
              rw (good, zero_pid) (Suspended.refuses (rw (good, zero_pid) refl))
          | inr user ↦
              subst (λ (z : ℤ). Suspended k l z (suspend z k)) (sym e)
                (suspend_live-Suspended k l inv i h (==→ne i 0 user) live)
        ]
  ],
)
