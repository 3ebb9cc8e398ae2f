-- ===== src/Examples/World.antt =====
-- A state of the kernel to evaluate the theorems on: process 1 runs, process 0 is ready, process 2
-- waits on semaphore 0, process 3 is suspended and process 4 sleeps for 5 more ticks.
use xinu_c_mips.Base.{
  ℕ, ◌+◌, ◌-◌, ◌%◌, refl, ap, false, ◌==◌, List, [], ◌∷◌, ℤ, pos, negsuc, update, arith, inr,
  if◌then◌else◌, ltb,
}
use xinu_c_mips.Kernel.{
  Kernel, Procent, Sentry, s_free, s_used, nqent, minkey, maxkey, pr_free, pr_curr, pr_ready,
  pr_sleep, pr_susp, pr_wait, with_qnext, with_qprev, with_qkey,
}
use xinu_c_mips.Queue.Chain.{Table}
use xinu_c_mips.Queue.Table.{Queues}
use xinu_c_mips.Queue.Links.{link_key, link_key-Spliced, link_key-qkey}
use xinu_c_mips.Queue.Splice.{Queues-splice}
use xinu_c_mips.Invariant.Placing.{IsOff-of}
use xinu_c_mips.Queue.Table.{IsOff}
use xinu_c_mips.Invariant.{Placed, Consistent, ready_q, sleep_q, sem_q}

-- The empty queues.
abbrev pub no_queues : Table
no_queues i = record {
  qkey = if i % 2 == 0 then maxkey else minkey;
  qnext = pos (i + 1);
  qprev = pos (i - 1);
}

abbrev pub none_queued : ℕ → List ℕ
none_queued q = []

pub no_queues-Queues : Queues no_queues none_queued
no_queues-Queues = record {
  each = λ q iq. record {
    linked = (refl, ap pos (omega arith));
    distinct = tt;
    pids = tt;
    tail_key = ground arith;
  };
  apart = λ q r i iq ir h g. absurd (ground arith);
}

-- Process 0 on the ready list, then process 2 on the queue of semaphore 0, then process 4 asleep.
abbrev one_queued : Table
one_queued = link_key no_queues 80 0 81 (pos 0)

abbrev two_queued : Table
two_queued = link_key one_queued 16 2 17 (pos 0)

abbrev pub world_queues : Table
world_queues = link_key two_queued 82 4 83 (pos 5)

abbrev one_list : ℕ → List ℕ
one_list = update none_queued 80 (0 ∷ [])

abbrev two_lists : ℕ → List ℕ
two_lists = update one_list 16 (2 ∷ [])

abbrev pub world_lists : ℕ → List ℕ
world_lists = update two_lists 82 (4 ∷ [])

one_queued-Queues : Queues one_queued one_list
one_queued-Queues =
    Queues-splice no_queues-Queues one_queued 80 (omega arith) [] [] 0 refl (omega arith)
      (λ r ir. refl) (link_key-Spliced no_queues 80 0 81 (pos 0) (omega arith) (omega arith))
      (λ i h. ground (arith, link_key-qkey no_queues 80 0 81 i (pos 0)))

two_queued-Queues : Queues two_queued two_lists
unfolding update
two_queued-Queues =
    Queues-splice one_queued-Queues two_queued 16 (omega arith) [] [] 2 refl (omega arith)
      (λ r ir. ground arith)
      (link_key-Spliced one_queued 16 2 17 (pos 0) (omega arith) (omega arith))
      (λ i h. ground (arith, link_key-qkey one_queued 16 2 17 i (pos 0)))

pub world_queues-Queues : Queues world_queues world_lists
unfolding update
world_queues-Queues =
    Queues-splice two_queued-Queues world_queues 82 (omega arith) [] [] 4 refl (omega arith)
      (λ r ir. ground arith)
      (link_key-Spliced two_queued 82 4 83 (pos 5) (omega arith) (omega arith))
      (λ i h. ground (arith, link_key-qkey two_queued 82 4 83 i (pos 5)))

-- A process in a given state and with a given priority.
abbrev pub process : ℕ → ℤ → Procent
process state prio = record {
  prstate = state;
  prprio = prio;
  prstkptr = 0;
  prstkbase = 0;
  prname = λ i. 0;
  prhasmsg = 0;
  prstklen = 0;
  prsem = 0;
  prparent = pos 0;
  prmsg = 0;
  prdesc = λ i. pos 0;
}

abbrev pub world_procs : ℕ → Procent
world_procs i =
    if i == 0
    then process pr_ready (pos 0)
    else if i == 1
    then process pr_curr (pos 20)
    else if i == 2
    then process pr_wait (pos 30)
    else if i == 3
    then process pr_susp (pos 10)
    else if i == 4
    then process pr_sleep (pos 10)
    else process pr_free (pos 0)

-- Semaphore 0 has one process waiting, semaphore 1 has room, the others are free.
abbrev pub world_sems : ℕ → Sentry
world_sems j = record {
  sstate = if ltb j 2 then s_used else s_free;
  squeue = pos (sem_q j);
  scount = if j == 0 then negsuc 0 else pos j;
}

abbrev pub world : Kernel
world = record {
  queuetab = world_queues;
  nextqid = nqent;
  proctab = world_procs;
  prcount = pos 5;
  currpid = 1;
  nextpid = 5;
  readylist = pos ready_q;
  sleepq = pos sleep_q;
  semtab = world_sems;
  nextsem = 2;
  ndefers = pos 0;
  attempt = false;
  clkticks = 0;
  clktime = 0;
  preempt = 2;
  mem = λ a. 0;
  memlist = 64;
  minheap = 1024;
  maxheap = 4096;
  buftab = λ i. record { bpnext = 0; bpsem = pos 0; bpsize = 0 };
  nbpools = pos 0;
  porttab = λ i. record {
    ptssem = pos 0;
    ptrsem = pos 0;
    ptstate = 0;
    ptmaxcnt = 0;
    ptseq = pos 0;
    pthead = 0;
    pttail = 0;
  };
  ptfree = 0;
  ptnextid = 0;
}

world-Placed : Placed world_queues world_procs world_lists
unfolding update with_qnext with_qprev with_qkey
world-Placed = record {
  queues = world_queues-Queues;
  member = λ i r h ir. ground arith;
  waits = λ i h g. ground arith;
  sorted = (tt, tt);
  delays = ((refl, omega arith, tt), (omega arith, tt));
  prios = λ i h. ground arith;
  idle = inr refl;
}

pub world-Consistent : Consistent world world_lists
unfolding update
world-Consistent = record {
  placed = world-Placed;
  counted = record {
    sem_id = λ j h. refl;
    counts = λ j h. ground arith;
    bounds = λ j h. ground arith;
  };
  running = record {
    ready_id = refl;
    sleep_id = refl;
    low = omega arith;
    single = λ i h g. ground arith;
  };
}

-- Process 3 is on no queue.
pub three-IsOff : IsOff world_lists 3
three-IsOff = IsOff-of world-Consistent.placed 3 (omega arith) (λ r ir. refl)
