-- ===== src/Sched/Dispatch.antt =====
-- Handing the processor to the first ready process keeps the kernel's tables consistent.
use xinu_c_mips.Base.{
  ℕ, ◌<◌, ◌≤◌, ◌≡◌, ◌≢◌, refl, sym, ◌∙◌, ap, subst, inl, inr, List, [], ◌∷◌, has, length, ℤ, pos,
  update, update_other, arith,
}
use xinu_c_mips.Kernel.{
  Kernel, Sentry, done, switch, index-pos, update_proc-pos, ctxsw, nproc, pr_curr, Safe, ends,
  switches,
}
use xinu_c_mips.Queue.{dequeue}
use xinu_c_mips.Queue.Chain.{Table}
use xinu_c_mips.Queue.Fifo.{dequeue-Front}
use xinu_c_mips.Queue.Insert.{Sorted}
use xinu_c_mips.Queue.Timed.{Timed, Timed-same}
use xinu_c_mips.Sched.{dispatch}
use xinu_c_mips.Invariant.{Placed, Counted, Running, Consistent, ready_q, sleep_q, sem_q}
use xinu_c_mips.Invariant.Placing.{Loose-leave, Placed-off}

-- Some lists of processes describe the tables.
abbrev pub Steady : Kernel → Type 0
Steady k = (l : ℕ → List ℕ) × Consistent k l

pub Sorted-same :
    (t t' : Table) (xs : List ℕ) → ((i : ℕ) → (t' i).qkey ≡ (t i).qkey) → Sorted t xs → Sorted t' xs
Sorted-same t t' [] same s = tt
Sorted-same t t' (x ∷ []) same s = (tt, tt)
Sorted-same t t' (x ∷ y ∷ xs) same s = (rw (same x, same y) s.0, Sorted-same t t' (y ∷ xs) same s.1)

-- The order of a queue other than the one that changes.
pub Sorted-other :
    (t t' : Table) (l : ℕ → List ℕ) (q : ℕ) (zs : List ℕ) (r : ℕ)
    → r ≢ q
    → ((i : ℕ) → (t' i).qkey ≡ (t i).qkey)
    → Sorted t (l r)
    → Sorted t' (update l q zs r)
Sorted-other t t' l q zs r h same s =
    subst (Sorted t') (sym (update_other l q zs r h)) (Sorted-same t t' (l r) same s)

pub Timed-other :
    (t t' : Table) (l : ℕ → List ℕ) (q : ℕ) (zs : List ℕ) (r : ℕ)
    → r ≢ q
    → ((i : ℕ) → (t' i).qkey ≡ (t i).qkey)
    → Timed t (l r)
    → Timed t' (update l q zs r)
Timed-other t t' l q zs r h same s =
    subst (Timed t') (sym (update_other l q zs r h)) (Timed-same t t' (l r) (λ i g. same i) s)

-- The ready list and the sleep queue are no semaphore's.
pub Counted-other :
    (s : ℕ → Sentry) (l : ℕ → List ℕ) (q : ℕ) (zs : List ℕ)
    → ready_q ≤ q
    → Counted s l
    → Counted s (update l q zs)
Counted-other s l q zs h c = record {
  sem_id = c.sem_id;
  counts = λ j g.
      c.counts j g
      ∙ sym (ap (λ (ys : List ℕ). length ys) (update_other l q zs (sem_q j) (omega arith)));
  bounds = c.bounds;
}

pub dispatch-run :
    (k : Kernel) (x : ℕ) (t : Table)
    → x < nproc
    → dequeue k.readylist k ≡ done (pos x) (record k { queuetab = t })
    → dispatch k
      ≡ switch
          (record k {
            queuetab = t;
            currpid = x;
            proctab = update k.proctab x (record (k.proctab x) { prstate = pr_curr });
            preempt = 2;
          })
          (done tt)
unfolding dispatch ctxsw
dispatch-run k x t h run = rw (run, index-pos nproc x _ h, update_proc-pos x _ _ h)

module _ (k : Kernel) (l : ℕ → List ℕ) (v : Placed k.queuetab k.proctab l) (c : Counted k.semtab l)
    (r : Running k.proctab k.readylist k.sleepq k.currpid)
    (none_runs : (i : ℕ) → i < nproc → (k.proctab i).prstate ≢ pr_curr) where
  pub dispatch-Front : (xs : List ℕ) → l ready_q ≡ xs → Safe Steady (λ _. Steady) (dispatch k)
  unfolding update
  dispatch-Front [] e = absurd (elim v.idle [
    | inl h ↦ none_runs 0 (omega arith) h
    | inr h ↦ ground (arith, v.member 0 ready_q (omega arith) (omega arith), ap (has 0) e)
  ])
  dispatch-Front (x ∷ xs) e =
      let out = dequeue-Front k l v.queues ready_q (omega arith) (x ∷ xs) e in
      let q = rw e at (v.queues.each ready_q (omega arith)) in
      let low : x < nproc = q.pids.0 in
      rw (dispatch-run k x out.0 low (ap (λ (z : ℤ). dequeue z k) r.ready_id ∙ out.1)) (
        switches
          (
            update l ready_q xs,
            record {
              placed =
                  Placed-off
                    (Loose-leave v out.0 ready_q [] x xs e out.3 q.distinct.0 out.2
                      (Sorted-same k.queuetab out.0 xs out.4 (rw e at v.sorted).1)
                      (Timed-same k.queuetab out.0 (l sleep_q) (λ i h. out.4 i) v.delays))
                    (record (k.proctab x) { prstate = pr_curr })
                    (record {
                      sem = λ h. absurd (omega arith);
                      prio = v.prios x low;
                      null = λ h. inl refl;
                    })
                    (λ z iz. refl);
              counted = Counted-other k.semtab l ready_q xs (omega arith) c;
              running = record {
                ready_id = r.ready_id;
                sleep_id = r.sleep_id;
                low = low;
                single = λ i h. ground (arith, none_runs i);
              };
            },
          )
          (λ k' p. ends p))
