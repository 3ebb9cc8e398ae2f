-- ===== src/Init/Empty.antt =====
-- After `sysinit` the queues are empty and the kernel's tables are consistent.
use xinu_c_mips.Base.{
  ℕ, zero, suc, ◌+◌, ◌<◌, ◌≤◌, ◌≡◌, refl, ap, subst, [], pos, update, arith, inl,
}
use xinu_c_mips.Kernel.{
  Kernel, Procent, Sentry, done, and_then, modify, ◌>>◌, nproc, nsem, nqent, empty, minkey, pr_free,
  s_free, quantum, with_qnext, with_qprev, with_qkey, set_qnext-pos, set_qprev-pos, set_qkey-pos,
  update_proc-pos, update_sem-pos,
}
use xinu_c_mips.Queue.{newqueue}
use xinu_c_mips.Queue.Chain.{Table}
use xinu_c_mips.Bufpool.{bufinit}
use xinu_c_mips.Memory.{store, sub32}
use xinu_c_mips.Init.Opened.{opened, Made, newqueue-opened, Made-opened, Made-next, Queues-of_Made}
use xinu_c_mips.Init.{
  cleared, null_entry, clkinit, clear_queues, clear_procs, init_sems, init_tables,
}
use xinu_c_mips.Invariant.{Consistent, ready_q, sleep_q, sem_q}

clear_queues-run :
    (n i : ℕ) (k : Kernel)
    → i + n ≤ nqent
    → (t : Table) × (clear_queues n i k ≡ done tt (record k { queuetab = t }))
unfolding clear_queues
clear_queues-run zero i k h = (k.queuetab, refl)
clear_queues-run (suc n) i k h =
    let t = with_qkey (with_qprev (with_qnext k.queuetab i empty) i empty) i minkey in
    let out = clear_queues-run n (i + 1) (record k { queuetab = t }) (omega arith) in
    (
      out.0,
      rw
          (
            set_qnext-pos i k (omega arith) empty,
            set_qprev-pos i _ (omega arith) empty,
            set_qkey-pos i _ (omega arith) minkey,
          )
          out.1,
    )

abbrev Cleared : (ℕ → Procent) → ℕ → Type 0
Cleared p n = (i : ℕ) → i < n → ((p i).prstate ≡ pr_free) × ((p i).prprio ≡ pos 0)

clear_procs-run :
    (n i : ℕ) (k : Kernel)
    → i + n ≡ nproc
    → Cleared k.proctab i
    → (p : ℕ → Procent) × (clear_procs n i k ≡ done tt (record k { proctab = p })) × Cleared p nproc
unfolding clear_procs update
clear_procs-run zero i k h c = (k.proctab, refl, λ j g. c j (omega arith))
clear_procs-run (suc n) i k h c =
    let p = update k.proctab i (cleared (k.proctab i)) in
    let out =
      clear_procs-run n (i + 1) (record k { proctab = p }) (omega arith)
        (λ j g. ground (arith, c j)) in
    (out.0, rw (update_proc-pos i k _ (omega arith)) out.1, out.2)

record SemsMade (s : ℕ → Sentry) (n : ℕ) : Type 0 where
  squeues : (j : ℕ) → j < n → (s j).squeue ≡ pos (sem_q j)
  zeros : (j : ℕ) → j < n → (s j).scount ≡ pos 0

-- The two writes of a round, with the queue made in between.
abbrev sem_made : (ℕ → Sentry) → ℕ → ℕ → ℕ → Sentry
sem_made s i q =
    let s1 = update s i (record (s i) { sstate = s_free; scount = pos 0 }) in
    update s1 i (record (s1 i) { squeue = pos q })

SemsMade-next :
    (s : ℕ → Sentry) (i q : ℕ) → q ≡ sem_q i → SemsMade s i → SemsMade (sem_made s i q) (i + 1)
unfolding update
SemsMade-next s i q e c = record {
  squeues = λ j h. ground (arith, c.squeues j);
  zeros = λ j h. ground (arith, c.zeros j);
}

init_sems-run :
    (n i : ℕ) (k : Kernel)
    → i + n ≡ nsem
    → k.nextqid ≡ sem_q i
    → Made k.queuetab (sem_q i)
    → SemsMade k.semtab i
    → (t : Table) × (s : ℕ → Sentry) × (init_sems n i k
        ≡ done tt (record k { queuetab = t; semtab = s; nextqid = ready_q }))
      × Made t ready_q
      × SemsMade s nsem
unfolding init_sems update
init_sems-run zero i k h e m c =
    let ei : i ≡ nsem = omega arith in
    (
      k.queuetab,
      k.semtab,
      ap (λ (q : ℕ). done tt (record k { nextqid = q })) (omega arith),
      subst (λ (j : ℕ). Made k.queuetab (sem_q j)) ei m,
      subst (SemsMade k.semtab) ei c,
    )
init_sems-run (suc n) i k h e m c =
    let s1 = update k.semtab i (record (k.semtab i) { sstate = s_free; scount = pos 0 }) in
    let s2 = update s1 i (record (s1 i) { squeue = pos k.nextqid }) in
    let k' = record k {
      semtab = s2;
      nextqid = k.nextqid + 2;
      queuetab = opened k.queuetab k.nextqid;
    } in
    let out =
      init_sems-run n (i + 1) k' (omega arith) (omega arith) (Made-next k.queuetab i k.nextqid e m)
        (SemsMade-next k.semtab i k.nextqid e c) in
    (
      out.0,
      out.1,
      rw
          (
            update_sem-pos i k _ (omega arith),
            newqueue-opened (record k { semtab = s1 }) (omega arith),
            update_sem-pos i
                (record k {
                  semtab = s1;
                  nextqid = k.nextqid + 2;
                  queuetab = opened k.queuetab k.nextqid;
                })
                _ (omega arith),
          )
          out.2,
      out.3,
      out.4,
    )

-- The state behind the initial writes, and the state in the end.
abbrev with_heap : Kernel → ℕ → Kernel
with_heap k maxaddr =
    let m1 = update k.mem k.memlist k.minheap in
    let m2 = update m1 k.minheap 0 in
    let m3 = update m2 (k.memlist + 4) (sub32 maxaddr k.minheap) in
    record k {
      prcount = pos 1;
      ndefers = pos 0;
      maxheap = maxaddr;
      mem = update m3 (k.minheap + 4) (sub32 maxaddr k.minheap);
    }

abbrev with_tables : Kernel → Table → (ℕ → Procent) → Kernel
with_tables k t p = record k {
  queuetab = t;
  proctab = update p 0 (null_entry k.minheap (p 0));
  currpid = 0;
  nextpid = 1;
  nextqid = nproc;
  nextsem = 0;
}

abbrev started : Kernel → Table → (ℕ → Sentry) → Kernel
started k t s = record k {
  queuetab = opened (opened t ready_q) sleep_q;
  semtab = s;
  nextqid = nqent;
  nbpools = pos 0;
  readylist = pos ready_q;
  sleepq = pos sleep_q;
  preempt = quantum + 1;
  clkticks = 0;
  clktime = 0;
}

-- The ready list and the sleep queue are made last.
last_queues :
    (k : Kernel) (t : Table) (s : ℕ → Sentry)
    → and_then
        (newqueue (record k { queuetab = t; semtab = s; nextqid = ready_q; nbpools = pos 0 }))
        (λ q. modify (λ k'. record k' { readylist = q }) >> clkinit)
      ≡ done tt (started k t s)
unfolding clkinit
last_queues k t s = rw (
  newqueue-opened (record k { queuetab = t; semtab = s; nextqid = ready_q; nbpools = pos 0 })
      (omega arith),
  newqueue-opened
      (record k {
        queuetab = opened t ready_q;
        semtab = s;
        nextqid = sleep_q;
        nbpools = pos 0;
        readylist = pos ready_q;
        preempt = quantum + 1;
      })
      (omega arith),
)

started-Consistent :
    (k : Kernel) (q t : Table) (p : ℕ → Procent) (s : ℕ → Sentry)
    → Cleared p nproc
    → Made t ready_q
    → SemsMade s nsem
    → Consistent (started (with_tables k q p) t s) (λ _. [])
unfolding update
started-Consistent k q t p s free made sems = record {
  placed = record {
    queues = Queues-of_Made _ (Made-opened _ sleep_q refl (Made-opened _ ready_q refl made));
    member = λ i r h ir. ground (arith, free i h);
    waits = λ i h g. absurd (ground (arith, free i h));
    sorted = tt;
    delays = (tt, tt);
    prios = λ i h. ground (arith, free i h);
    idle = inl refl;
  };
  counted = record {
    sem_id = sems.squeues;
    counts = λ j h. rw (sems.zeros j h) refl;
    bounds = λ j h. rw (sems.zeros j h) (omega arith);
  };
  running = record {
    ready_id = refl;
    sleep_id = refl;
    low = omega arith;
    single = λ i h g. ground (arith, free i h);
  };
}

-- `sysinit` makes the tables consistent, whatever the memory held before: every queue is empty, no
-- process waits, and the null process runs.
pub init_tables-Consistent :
    (maxaddr : ℕ) (k : Kernel)
    → (k' : Kernel) × (init_tables maxaddr k ≡ done tt k') × Consistent k' (λ _. [])
unfolding init_tables store bufinit
init_tables-Consistent maxaddr k =
    let k1 = with_heap k maxaddr in
    let q = clear_queues-run nqent 0 k1 (omega arith) in
    let p =
      clear_procs-run nproc 0 (record k1 { queuetab = q.0 }) refl (λ i h. absurd (omega arith)) in
    let k2 = with_tables k1 q.0 p.0 in
    let s =
      init_sems-run nsem 0 k2 refl refl (λ r h g. absurd (omega arith))
        (record { squeues = λ j h. absurd (omega arith); zeros = λ j h. absurd (omega arith) }) in
    (
      started k2 s.0 s.1,
      rw
          (
            q.1,
            p.1,
            update_proc-pos 0 (record k1 { queuetab = q.0; proctab = p.0 }) (null_entry k.minheap)
                (omega arith),
            s.2,
          )
          (last_queues k2 s.0 s.1),
      started-Consistent k1 q.0 s.0 p.0 s.1 p.2 s.3 s.4,
    )
