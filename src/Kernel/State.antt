-- ===== src/Kernel/State.antt =====
-- The global variables of the kernel (xinu/include/*.h) as one record, with the constants of
-- xinu/include/conf.h, kernel.h, process.h, queue.h and semaphore.h.
-- An id is an integer; a table is a function on the naturals whose size stands beside it.
use xinu_c_mips.Base.{
  ℕ, ◌<◌, ◌≡◌, ◌≢◌, Bool, true, false, ◌||◌, leb, ltb_ℤ, leb_ℤ, ◌==◌, ℤ, pos, negsuc, arith,
}

abbrev pub nproc : ℕ
nproc = 16

abbrev pub nsem : ℕ
nsem = 32

-- NPROC + 4 + NSEM + NSEM
abbrev pub nqent : ℕ
nqent = 84

abbrev pub empty : ℤ
empty = negsuc 0

abbrev pub maxkey : ℤ
maxkey = pos 0x7fff_ffff

abbrev pub minkey : ℤ
minkey = negsuc 0x7fff_ffff

abbrev pub ok : ℤ
ok = pos 1

abbrev pub syserr : ℤ
syserr = negsuc 0

abbrev pub pr_free : ℕ
pr_free = 0

abbrev pub pr_curr : ℕ
pr_curr = 1

abbrev pub pr_ready : ℕ
pr_ready = 2

abbrev pub pr_recv : ℕ
pr_recv = 3

abbrev pub pr_sleep : ℕ
pr_sleep = 4

abbrev pub pr_susp : ℕ
pr_susp = 5

abbrev pub pr_wait : ℕ
pr_wait = 6

abbrev pub pr_rectim : ℕ
pr_rectim = 7

abbrev pub quantum : ℕ
quantum = 2

-- `struct qentry`
pub record Qentry : Type 0 where
  pub qkey : ℤ
  pub qnext : ℤ
  pub qprev : ℤ

-- `struct procent`; the name is a table of characters, the descriptors a table of device ids
pub record Procent : Type 0 where
  pub prstate : ℕ
  pub prprio : ℤ
  pub prstkptr : ℕ
  pub prstkbase : ℕ
  pub prname : ℕ → ℕ
  pub prhasmsg : ℕ
  pub prstklen : ℕ
  pub prsem : ℕ
  pub prparent : ℤ
  pub prmsg : ℕ
  pub prdesc : ℕ → ℤ

pub data Sstate : Type 0 where
  s_free s_used : Sstate

abbrev pub is_s_free : Sstate → Bool
is_s_free s_free = true
is_s_free s_used = false

-- `struct sentry`
pub record Sentry : Type 0 where
  pub sstate : Sstate
  pub squeue : ℤ
  pub scount : ℤ

-- `struct bpentry`
pub record Bpentry : Type 0 where
  pub bpnext : ℕ
  pub bpsem : ℤ
  pub bpsize : ℕ

-- `struct ptentry`
pub record Ptentry : Type 0 where
  pub ptssem : ℤ
  pub ptrsem : ℤ
  pub ptstate : ℕ
  pub ptmaxcnt : ℕ
  pub ptseq : ℤ
  pub pthead : ℕ
  pub pttail : ℕ

-- `mem` holds a 32-bit word at each word address; `memlist` is the address of that variable.
pub record Kernel : Type 0 where
  pub queuetab : ℕ → Qentry
  pub nextqid : ℕ
  pub proctab : ℕ → Procent
  pub prcount : ℤ
  pub currpid : ℕ
  pub nextpid : ℕ
  pub readylist : ℤ
  pub sleepq : ℤ
  pub semtab : ℕ → Sentry
  pub nextsem : ℕ
  pub ndefers : ℤ
  pub attempt : Bool
  pub clkticks : ℕ
  pub clktime : ℕ
  pub preempt : ℕ
  pub mem : ℕ → ℕ
  pub memlist : ℕ
  pub minheap : ℕ
  pub maxheap : ℕ
  pub buftab : ℕ → Bpentry
  pub nbpools : ℤ
  pub porttab : ℕ → Ptentry
  pub ptfree : ℕ
  pub ptnextid : ℕ

-- `isbadqid`
unfoldable pub isbadqid : ℤ → Bool
isbadqid q = ltb_ℤ q (pos 0) || leb_ℤ (pos 83) q

-- `isbadpid`
unfoldable pub isbadpid : Kernel → ℤ → Bool
isbadpid k (pos i) = leb nproc i || ((k.proctab i).prstate == pr_free)
isbadpid k (negsuc n) = true

-- `isbadsem`
unfoldable pub isbadsem : ℤ → Bool
isbadsem s = ltb_ℤ s (pos 0) || leb_ℤ (pos nsem) s

pub isbadqid-pos : (q : ℕ) → q < 83 → isbadqid (pos q) ≡ false
unfolding isbadqid
isbadqid-pos q h = ground arith

pub isbadpid-pos :
    (k : Kernel) (i : ℕ) → i < nproc → (k.proctab i).prstate ≢ pr_free → isbadpid k (pos i) ≡ false
unfolding isbadpid
isbadpid-pos k i h g = ground arith

pub isbadsem-pos : (s : ℕ) → s < nsem → isbadsem (pos s) ≡ false
unfolding isbadsem
isbadsem-pos s h = ground arith
