-- ===== src/Invariant.antt =====
-- What holds of the kernel's tables between any two steps: the state of a process says which queue
-- it is on, a semaphore's count says how many processes wait, the ready list is in order of
-- priority and the sleep queue is a delta list. The queue ids are those that `sysinit` gives out:
-- 16 + 2 * j for semaphore j, 80 for the ready list and 82 for the sleep queue.
pub mod Moves
pub mod Placing
pub mod Entries
use xinu_c_mips.Base.{
  ℕ, ◌+◌, ◌*◌, ◌<◌, ◌^◌, ◌≡◌, ◌⊎◌, Bool, false, ◌&&◌, ◌||◌, ◌==◌, List, has, length, ℤ, pos,
  neg_part, pos_part, ◌<ℤ◌,
}
use xinu_c_mips.Kernel.{
  Kernel, Procent, Sentry, nproc, nsem, minkey, pr_curr, pr_ready, pr_sleep, pr_wait, pr_rectim,
}
use xinu_c_mips.Queue.Chain.{Table}
use xinu_c_mips.Queue.Table.{IsQid, Queues, IsOff}
use xinu_c_mips.Queue.Insert.{Sorted}
use xinu_c_mips.Queue.Timed.{Timed}

abbrev pub ready_q : ℕ
ready_q = 80

abbrev pub sleep_q : ℕ
sleep_q = 82

abbrev pub sem_q : ℕ → ℕ
sem_q j = 16 + 2 * j

-- Whether a process with this entry belongs on queue `q`.
abbrev pub on : Procent → ℕ → Bool
on p q =
    ((p.prstate == pr_ready) && (q == ready_q))
    || (((p.prstate == pr_sleep) || (p.prstate == pr_rectim)) && (q == sleep_q))
    || ((p.prstate == pr_wait) && (q == sem_q p.prsem))

-- What concerns the queues and the processes.
pub record Placed (t : Table) (p : ℕ → Procent) (l : ℕ → List ℕ) : Type 0 where
  pub queues : Queues t l
  pub member : (i q : ℕ) → i < nproc → IsQid q → has i (l q) ≡ on (p i) q
  pub waits : (i : ℕ) → i < nproc → (p i).prstate ≡ pr_wait → (p i).prsem < nsem
  pub sorted : Sorted t (l ready_q)
  pub delays : Timed t (l sleep_q)
  pub prios : (i : ℕ) → i < nproc → minkey <ℤ (p i).prprio
  pub idle : ((p 0).prstate ≡ pr_curr) ⊎ ((p 0).prstate ≡ pr_ready)

-- The same while process `pid` is in transit: it is on no queue, whatever its state says.
pub record Loose (t : Table) (p : ℕ → Procent) (l : ℕ → List ℕ) (pid : ℕ) : Type 0 where
  pub queues : Queues t l
  pub others : (i q : ℕ) → i < nproc → (i == pid) ≡ false → IsQid q → has i (l q) ≡ on (p i) q
  pub off : IsOff l pid
  pub waits : (i : ℕ) → i < nproc → (p i).prstate ≡ pr_wait → (p i).prsem < nsem
  pub sorted : Sorted t (l ready_q)
  pub delays : Timed t (l sleep_q)
  pub prios : (i : ℕ) → i < nproc → minkey <ℤ (p i).prprio
  pub idle : ((p 0).prstate ≡ pr_curr) ⊎ ((p 0).prstate ≡ pr_ready)

-- What concerns the semaphores.
pub record Counted (s : ℕ → Sentry) (l : ℕ → List ℕ) : Type 0 where
  pub sem_id : (j : ℕ) → j < nsem → (s j).squeue ≡ pos (sem_q j)
  pub counts : (j : ℕ) → j < nsem → neg_part (s j).scount ≡ length (l (sem_q j))
  pub bounds : (j : ℕ) → j < nsem → pos_part (s j).scount < 2 ^ 31

-- What concerns the processor: at most the process that it runs is in the state PR_CURR.
pub record Running (p : ℕ → Procent) (rl sq : ℤ) (cur : ℕ) : Type 0 where
  pub ready_id : rl ≡ pos ready_q
  pub sleep_id : sq ≡ pos sleep_q
  pub low : cur < nproc
  pub single : (i : ℕ) → i < nproc → (p i).prstate ≡ pr_curr → i ≡ cur

pub record Inv (t : Table) (p : ℕ → Procent) (s : ℕ → Sentry) (rl sq : ℤ) (cur : ℕ) (l : ℕ → List ℕ)
    : Type 0 where
  pub placed : Placed t p l
  pub counted : Counted s l
  pub running : Running p rl sq cur

abbrev pub Consistent : Kernel → (ℕ → List ℕ) → Type 0
Consistent k l = Inv k.queuetab k.proctab k.semtab k.readylist k.sleepq k.currpid l
