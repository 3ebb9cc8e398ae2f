-- ===== src/Sched/Resched.antt =====
-- `ready` and `resched` keep the kernel's tables consistent, also across the switch.
use xinu_c_mips.Base.{
  update_other, ℕ, ◌+◌, ◌<◌, ◌≡◌, ◌≢◌, refl, sym, ◌∙◌, ap, inl, inr, Bool, Bool-cases, true, ◌==◌,
  List, [], ◌∷◌, ◌++◌, ℤ, pos, update, update_same, arith, if◌then◌else◌, ltb_ℤ, ==→eq, ==→ne,
}
use xinu_c_mips.Kernel.{
  Kernel, done, pure, update_proc-pos, proc_at-pos, queue_at-pos, nproc, pr_curr, pr_free, pr_ready,
  ok, isbadpid-pos, and_then, ◌>>◌, update_proc, Safe, Safe-bind, ends,
}
use xinu_c_mips.Queue.{insert, firstkey}
use xinu_c_mips.Queue.Chain.{Table, first, ne_of_has}
use xinu_c_mips.Queue.Table.{IsQid, Queues, first-lt}
use xinu_c_mips.Queue.Fifo.{firstid-first}
use xinu_c_mips.Queue.Insert.{above, below, above-below, insert-Sorted}
use xinu_c_mips.Queue.Timed.{Timed-same}
use xinu_c_mips.Sched.{dispatch, resched, ready}
use xinu_c_mips.Sched.Dispatch.{Steady, Counted-other, dispatch-Front}
use xinu_c_mips.Invariant.{Placed, Loose, Counted, Running, Consistent, ready_q, sleep_q}
use xinu_c_mips.Invariant.Placing.{Placed-enter, IsOff-of, loosen}

pub firstkey-first :
    (k : Kernel) (l : ℕ → List ℕ)
    → Queues k.queuetab l
    → (q : ℕ) → IsQid q
    → firstkey (pos q) k ≡ done ((k.queuetab (first (l q) (q + 1))).qkey) k
unfolding firstkey
firstkey-first k l v q iq =
    rw (
      firstid-first k l v q iq,
      queue_at-pos _ k (first-lt [] (l q) (q + 1) (v.each q iq).pids iq.1),
    )

-- The process `pid`, which is on no queue, becomes ready.
abbrev pub made_ready : Kernel → ℕ → Table → Kernel
made_ready k pid t = record k {
  proctab = update k.proctab pid (record (k.proctab pid) { prstate = pr_ready });
  queuetab = t;
}

module _ (k : Kernel) (l : ℕ → List ℕ) (c : Counted k.semtab l) (pid : ℕ) (low : pid < nproc)
    (v : Loose k.queuetab k.proctab l pid) where
  pub enter_ready :
      (t : Table) × (l' : ℕ → List ℕ) × (insert
          (pos pid)
          (pos ready_q)
          (k.proctab pid).prprio
          (record k {
            proctab = update k.proctab pid (record (k.proctab pid) { prstate = pr_ready });
          })
        ≡ done ok (made_ready k pid t))
      × Placed t (made_ready k pid t).proctab l'
      × Counted k.semtab l'
      × ((q : ℕ) → q ≢ ready_q → l' q ≡ l q)
      × ((i : ℕ) → i ≢ pid → (t i).qkey ≡ (k.queuetab i).qkey)
  unfolding update
  enter_ready =
      let p' = record (k.proctab pid) { prstate = pr_ready } in
      let k1 = record k { proctab = update k.proctab pid p' } in
      let key = (k.proctab pid).prprio in
      let xs = above k.queuetab key (l ready_q) in
      let ys = below k.queuetab key (l ready_q) in
      let e = sym (above-below k.queuetab key (l ready_q)) in
      let out =
        insert-Sorted k1 l v.queues ready_q (omega arith) pid key low (ground arith) v.off
          (v.prios pid low) in
      (
        out.0,
        update l ready_q (xs ++ pid ∷ ys),
        out.1,
        Placed-enter v p'
            (record {
              sem = λ h. absurd (omega arith);
              prio = v.prios pid low;
              null = λ h. inr refl;
            })
            out.0 ready_q xs ys e (λ r ir. ground arith) out.2 (out.4 v.sorted)
            (Timed-same k.queuetab out.0 (l sleep_q)
              (λ i h.
                ground
                  (arith, out.3 i, ne_of_has i pid (l sleep_q) h (v.off sleep_q (omega arith))))
              v.delays),
        Counted-other k.semtab l ready_q _ (omega arith) c,
        λ q h. update_other l ready_q (xs ++ pid ∷ ys) q h,
        λ i h. ground (arith, out.3 i),
      )

module _ (k : Kernel) (l : ℕ → List ℕ) (inv : Consistent k l) where
  dispatch-Safe :
      ((i : ℕ) → i < nproc → (k.proctab i).prstate ≢ pr_curr)
      → Safe Steady (λ _. Steady) (dispatch k)
  dispatch-Safe none_runs =
      dispatch-Front k l inv.placed inv.counted inv.running none_runs (l ready_q) refl

  -- The running process goes back to the ready list, and the first ready process runs.
  preempt_current :
      (k.proctab k.currpid).prstate ≡ pr_curr
      → Safe Steady
          (λ _. Steady)
          (and_then
            (update_proc (pos k.currpid) (λ p. record p { prstate = pr_ready }) k)
            (λ _. insert (pos k.currpid) k.readylist (k.proctab k.currpid).prprio >> dispatch))
  unfolding update
  preempt_current runs =
      let cur = k.currpid in
      let off = IsOff-of inv.placed cur inv.running.low (λ r ir. ground (arith, runs)) in
      let out = enter_ready k l inv.counted cur inv.running.low (loosen inv.placed cur off) in
      rw (update_proc-pos cur k (λ p. record p { prstate = pr_ready }) inv.running.low) (
        rw
          (ap
              (λ (z : ℤ). insert (pos cur) z (k.proctab cur).prprio (record k {
                proctab = update k.proctab cur (record (k.proctab cur) { prstate = pr_ready });
              }))
              inv.running.ready_id
            ∙ out.2)
          (dispatch-Front (made_ready k cur out.0) out.1 out.3 out.4
            (record {
              ready_id = inv.running.ready_id;
              sleep_id = inv.running.sleep_id;
              low = inv.running.low;
              single = λ i h. ground (arith, inv.running.single i);
            })
            (λ i h. ground (arith, inv.running.single i)) (out.1 ready_q) refl))

  -- `resched` hands the processor over or leaves it, and the tables stay consistent.
  pub resched-Safe : Safe Steady (λ _. Steady) (resched k)
  unfolding resched
  resched-Safe = elim (Bool-cases (ltb_ℤ (pos 0) k.ndefers)) [
    | inl d ↦ rw d (ends (l, inv))
    | inr n ↦
        rw (n, proc_at-pos k.currpid k inv.running.low)
          (elim (Bool-cases ((k.proctab k.currpid).prstate == pr_curr)) [
            | inl runs ↦
                let key = (k.queuetab (first (l ready_q) (ready_q + 1))).qkey in
                let run : firstkey k.readylist k ≡ done key k =
                  ap (λ (z : ℤ). firstkey z k) inv.running.ready_id
                  ∙ firstkey-first k l inv.placed.queues ready_q (omega arith) in
                rw (runs, run)
                  (elim (Bool-cases (ltb_ℤ key (k.proctab k.currpid).prprio)) [
                    | inl keeps ↦ rw keeps (ends (l, inv))
                    | inr yields ↦ rw yields (preempt_current (==→eq _ _ runs))
                  ])
            | inr stops ↦ rw stops (
                dispatch-Safe (λ i h g.
                  ==→ne _ _ stops
                    (ap (λ (n : ℕ). (k.proctab n).prstate) (sym (inv.running.single i h g)) ∙ g)))
          ])
  ]

-- A process in transit is made ready, without or with rescheduling.
module _ (k : Kernel) (l : ℕ → List ℕ) (c : Counted k.semtab l)
    (r : Running k.proctab k.readylist k.sleepq k.currpid) (pid : ℕ) (low : pid < nproc)
    (v : Loose k.queuetab k.proctab l pid) (live : (k.proctab pid).prstate ≢ pr_free) where
  pub ready-made :
      (resch : Bool)
      → (t : Table) × (l' : ℕ → List ℕ) × (ready (pos pid) resch k
          ≡ ((if resch then resched else pure tt) >> pure ok) (made_ready k pid t))
        × Consistent (made_ready k pid t) l'
        × ((q : ℕ) → q ≢ ready_q → l' q ≡ l q)
        × ((i : ℕ) → i ≢ pid → (t i).qkey ≡ (k.queuetab i).qkey)
  unfolding ready update
  ready-made resch =
      let out = enter_ready k l c pid low v in
      let same = update_same k.proctab pid (record (k.proctab pid) { prstate = pr_ready }) in
      (
        out.0,
        out.1,
        rw (
          isbadpid-pos k pid low live,
          update_proc-pos pid k (λ p. record p { prstate = pr_ready }) low,
          proc_at-pos pid
              (record k {
                proctab = update k.proctab pid (record (k.proctab pid) { prstate = pr_ready });
              })
              low,
          same,
          ap
                (λ (z : ℤ). insert (pos pid) z (k.proctab pid).prprio (record k {
                  proctab = update k.proctab pid (record (k.proctab pid) { prstate = pr_ready });
                }))
                r.ready_id
              ∙ out.2,
        ),
        record {
          placed = out.3;
          counted = out.4;
          running = record {
            ready_id = r.ready_id;
            sleep_id = r.sleep_id;
            low = r.low;
            single = λ i h. ground (arith, r.single i);
          };
        },
        out.5,
        out.6,
      )

  pub ready-Safe : Safe Steady (λ _. Steady) (ready (pos pid) true k)
  ready-Safe =
      let out = ready-made true in
      rw out.2 (Safe-bind (resched-Safe (made_ready k pid out.0) out.1 out.3) (λ _ k' p. ends p))
