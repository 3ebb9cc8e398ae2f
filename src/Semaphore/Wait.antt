-- ===== src/Semaphore/Wait.antt =====
-- `wait` keeps the kernel's tables consistent: a process that blocks is counted and queued.
use mathlib.Core.List.{append-nil}
use xinu_c_mips.Base.{
  ℕ, ◌<◌, ◌≤◌, ◌≡◌, ◌≢◌, refl, sym, ap, subst, true, false, List, [], ◌∷◌, ◌++◌, length,
  length-append, length-le_of_Below, ℤ, pos, pos_part, neg_part, ◌-ℤ◌, ltb_ℤ, update, update_other,
  update_same, arith, Bool-cases, inl, inr,
}
use xinu_c_mips.Kernel.{
  Kernel, Sentry, and_then, nproc, nsem, pr_curr, pr_wait, is_s_free, isbadsem, isbadsem-pos,
  sem_at-pos, update_sem-pos, update_proc-pos, Safe, Safe-bind, ends,
}
use xinu_c_mips.Queue.{enqueue}
use xinu_c_mips.Queue.Chain.{Table}
use xinu_c_mips.Queue.Table.{IsQid, Queues}
use xinu_c_mips.Queue.Fifo.{enqueue-append}
use xinu_c_mips.Sched.{resched}
use xinu_c_mips.Sched.Dispatch.{Steady, Sorted-other, Timed-other}
use xinu_c_mips.Sched.Resched.{resched-Safe}
use xinu_c_mips.Semaphore.{wait}
use xinu_c_mips.Semaphore.Counts.{dec, dec-eq, dec-neg, dec-pos, dec-bound, sem-of, Counted-set}
use xinu_c_mips.Invariant.{Consistent, ready_q, sleep_q, sem_q}
use xinu_c_mips.Invariant.Placing.{Placed-enter, IsOff-of, loosen}

-- At most all processes wait on a queue.
pub waiting-le : (t : Table) (l : ℕ → List ℕ) (q : ℕ) → Queues t l → IsQid q → length (l q) ≤ nproc
waiting-le t l q v iq = length-le_of_Below nproc (l q) (v.each q iq).pids (v.each q iq).distinct

module _ (k : Kernel) (l : ℕ → List ℕ) (inv : Consistent k l) (j : ℕ) (hj : j < nsem) where
  -- The semaphore's count is taken down.
  abbrev lowered : ℕ → Sentry
  lowered = update k.semtab j (record (k.semtab j) { scount = dec (k.semtab j).scount })

  -- The caller is marked as waiting.
  abbrev blocked : Kernel
  blocked = record k {
    semtab = lowered;
    proctab =
        update k.proctab k.currpid (record (k.proctab k.currpid) { prstate = pr_wait; prsem = j });
  }

  dec-here : dec (k.semtab j).scount ≡ (k.semtab j).scount -ℤ pos 1
  dec-here =
      dec-eq (k.semtab j).scount
        (omega (
          arith,
          inv.counted.counts j hj,
          waiting-le k.queuetab l (sem_q j) inv.placed.queues (omega arith),
        ))
        (inv.counted.bounds j hj)

  -- The caller blocks.
  block_current :
      (k.proctab k.currpid).prstate ≡ pr_curr
      → k.currpid ≢ 0
      → ltb_ℤ (dec (k.semtab j).scount) (pos 0) ≡ true
      → Safe Steady
          (λ _. Steady)
          (and_then (enqueue (pos k.currpid) (pos (sem_q j)) blocked) (λ _. resched))
  unfolding update
  block_current runs user low =
      let cur = k.currpid in
      let p' = record (k.proctab cur) { prstate = pr_wait; prsem = j } in
      let k1 = record k { semtab = lowered; proctab = update k.proctab cur p' } in
      let q = sem_q j in
      let off = IsOff-of inv.placed cur inv.running.low (λ r ir. ground (arith, runs)) in
      let out =
        enqueue-append k1 l inv.placed.queues q (omega arith) cur inv.running.low (ground arith)
          off in
      let l' = update l q (l q ++ cur ∷ []) in
      rw out.1 (
        resched-Safe (record k1 { queuetab = out.0 }) l'
          (record {
            placed =
                Placed-enter (loosen inv.placed cur off) p'
                  (record {
                    sem = λ h. hj;
                    prio = inv.placed.prios cur inv.running.low;
                    null = λ h. absurd (user h);
                  })
                  out.0 q (l q) [] (sym (append-nil (l q))) (λ r ir. ground arith) out.2
                  (Sorted-other k.queuetab out.0 l q _ ready_q (omega arith) out.3
                    inv.placed.sorted)
                  (Timed-other k.queuetab out.0 l q _ sleep_q (omega arith) out.3
                    inv.placed.delays);
            counted =
                Counted-set k.semtab l l' j (dec (k.semtab j).scount) inv.counted
                  (omega (
                    arith,
                    ap neg_part dec-here,
                    dec-neg (k.semtab j).scount (rw dec-here at low),
                    inv.counted.counts j hj,
                    length-append (l q) (cur ∷ []),
                    ap (λ (ys : List ℕ). length ys) (update_same l q (l q ++ cur ∷ [])),
                  ))
                  (omega (
                    arith,
                    ap pos_part dec-here,
                    dec-bound (k.semtab j).scount (inv.counted.bounds j hj),
                  ))
                  (λ i h n. update_other l q _ (sem_q i) (omega arith));
            running = record {
              ready_id = inv.running.ready_id;
              sleep_id = inv.running.sleep_id;
              low = inv.running.low;
              single = λ i h. ground (arith, inv.running.single i);
            };
          }))

  passes_current :
      ltb_ℤ (dec (k.semtab j).scount) (pos 0) ≡ false → Consistent (record k { semtab = lowered }) l
  passes_current high = record {
    placed = inv.placed;
    counted =
        Counted-set k.semtab l l j (dec (k.semtab j).scount) inv.counted
          (omega (
            arith,
            ap neg_part dec-here,
            dec-pos (k.semtab j).scount (rw dec-here at high),
            inv.counted.counts j hj,
          ))
          (omega
            (arith, ap pos_part dec-here, dec-bound (k.semtab j).scount (inv.counted.bounds j hj)))
          (λ i h n. refl);
    running = inv.running;
  }

  wait-used :
      (k.proctab k.currpid).prstate ≡ pr_curr
      → k.currpid ≢ 0
      → Safe Steady (λ _. Steady) (wait (pos j) k)
  unfolding wait
  wait-used runs user =
      rw (isbadsem-pos j hj, sem_at-pos j k hj)
        (elim (Bool-cases (is_s_free (k.semtab j).sstate)) [
          | inl f ↦ rw f (ends (l, inv))
          | inr u ↦
              rw (u, update_sem-pos j k _ hj, sem_at-pos j _ hj, update_same k.semtab j _)
                (elim (Bool-cases (ltb_ℤ (dec (k.semtab j).scount) (pos 0))) [
                  | inl low ↦
                      rw (low, update_proc-pos k.currpid _ _ inv.running.low)
                        (rw
                          (ap (λ (z : ℤ). enqueue (pos k.currpid) z blocked)
                            (inv.counted.sem_id j hj))
                          (Safe-bind (block_current runs user low) (λ _ k' p. ends p)))
                  | inr high ↦ rw high (ends (l, passes_current high))
                ])
        ])

-- `wait` on any id keeps the tables consistent and never faults: a bad or free semaphore is
-- refused, otherwise the count falls, and the caller goes on or is queued and another process runs.
-- The caller runs, and is not the null process.
pub wait-Safe :
    (sem : ℤ) (k : Kernel) (l : ℕ → List ℕ)
    → Consistent k l
    → (k.proctab k.currpid).prstate ≡ pr_curr
    → k.currpid ≢ 0
    → Safe Steady (λ _. Steady) (wait sem k)
unfolding wait
wait-Safe sem k l inv runs user = elim (Bool-cases (isbadsem sem)) [
  | inl bad ↦ rw bad (ends (l, inv))
  | inr good ↦
      let (j, e, h) = sem-of sem good in
      subst (λ (z : ℤ). Safe Steady (λ _. Steady) (wait z k)) (sym e)
        (wait-used k l inv j h runs user)
]
