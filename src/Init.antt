-- ===== src/Init.antt =====
-- The start of the system: `sysinit` of xinu/system/initialize.c and xinu/system/clkinit.c. The
-- address of the heap's end is a parameter; its start comes from the boot code.
pub mod Opened
pub mod Empty
use xinu_c_mips.Base.{ℕ, zero, suc, ◌+◌, ◌-◌, ◌^◌, Bool, List, [], ◌∷◌, ℤ, pos, update}
use xinu_c_mips.Kernel.{
  Cmd, Procent, pure, get, modify, ◌>>=◌, ◌>>◌, nproc, nqent, nsem, ok, empty, minkey, pr_free,
  pr_curr, quantum, s_free, set_qnext, set_qprev, set_qkey, update_proc, update_sem,
}
use xinu_c_mips.Queue.{newqueue}
use xinu_c_mips.Memory.{store, mnext, mlength, sub32}
use xinu_c_mips.Bufpool.{bufinit}
use xinu_c_mips.Device.{Dentry, ndevs, init}
use xinu_c_mips.Process.{copy_name}

abbrev pub nullstk : ℕ
nullstk = 8192

-- `clkinit`; `enable_irq` and `clkupdate`, which program the hardware, are left out.
unfoldable pub clkinit : Cmd (Unit {0})
clkinit = do
  modify λ k. record k { preempt = quantum + 1 }
  q ← newqueue
  modify λ k. record k { sleepq = q; clkticks = 0; clktime = 0 }

-- The loops of `sysinit`, with the number of entries left and the next one.
unfoldable pub clear_queues : ℕ → ℕ → Cmd (Unit {0})
clear_queues zero i = pure tt
clear_queues (suc n) i = do
  set_qnext (pos i) empty
  set_qprev (pos i) empty
  set_qkey (pos i) minkey
  clear_queues n (i + 1)

abbrev pub cleared : Procent → Procent
cleared p = record p {
  prstate = pr_free;
  prprio = pos 0;
  prstkptr = 0;
  prstkbase = 0;
  prname = update p.prname 0 0;
  prhasmsg = 0;
  prstklen = nullstk;
  prsem = 0;
  prparent = pos 0;
  prmsg = 0;
}

unfoldable pub clear_procs : ℕ → ℕ → Cmd (Unit {0})
clear_procs zero i = pure tt
clear_procs (suc n) i = do update_proc (pos i) cleared; clear_procs n (i + 1)

unfoldable pub init_sems : ℕ → ℕ → Cmd (Unit {0})
init_sems zero i = pure tt
init_sems (suc n) i = do
  update_sem (pos i) λ s. record s { sstate = s_free; scount = pos 0 }
  q ← newqueue
  update_sem (pos i) λ s. record s { squeue = q }
  init_sems n (i + 1)

-- The characters of a string, with nulls behind it.
abbrev pub chars : List ℕ → ℕ → ℕ
chars [] i = 0
chars (c ∷ cs) zero = c
chars (c ∷ cs) (suc i) = chars cs i

-- "prnull"
abbrev pub prnull : ℕ → ℕ
prnull = chars (112 ∷ 114 ∷ 110 ∷ 117 ∷ 108 ∷ 108 ∷ [])

-- The entry of the null process.
abbrev pub null_entry : ℕ → Procent → Procent
null_entry minheap p = record p {
  prstate = pr_curr;
  prprio = pos 0;
  prname = copy_name 7 0 prnull p.prname;
  prstkbase = minheap;
  prstklen = nullstk;
  prstkptr = 0;
  prhasmsg = 0;
  prsem = 0;
  prparent = pos 0;
  prmsg = 0;
}

-- `sysinit` up to the initialization of the devices.
unfoldable pub init_tables : ℕ → Cmd (Unit {0})
init_tables maxaddr = do
  modify λ k. record k { prcount = pos 1; ndefers = pos 0; maxheap = maxaddr }
  k ← get
  store (mnext k.memlist) k.minheap
  store (mnext k.minheap) 0
  store (mlength k.memlist) (sub32 k.maxheap k.minheap)
  store (mlength k.minheap) (sub32 k.maxheap k.minheap)
  clear_queues nqent 0
  clear_procs nproc 0
  update_proc (pos 0) (null_entry k.minheap)
  modify λ k. record k { currpid = 0; nextpid = 1; nextqid = nproc; nextsem = 0 }
  init_sems nsem 0
  bufinit
  q ← newqueue
  modify λ k. record k { readylist = q }
  clkinit

module _ (devtab : ℕ → Dentry) where
  unfoldable pub init_devices : ℕ → ℕ → Cmd (Unit {0})
  init_devices zero i = pure tt
  init_devices (suc n) i = do init devtab (pos i); init_devices n (i + 1)

  unfoldable pub sysinit : ℕ → Cmd (Unit {0})
  sysinit maxaddr = do init_tables maxaddr; init_devices ndevs 0
