-- ===== src/Sched.antt =====
-- The scheduler: xinu/system/resched.c, ready.c, yield.c and sched_cntl.c.
-- `disable` and `restore` have no counterpart: a command runs alone until it ends or switches.
pub mod Dispatch
pub mod Resched
pub mod Choice
pub mod Defer
pub mod Deferral
use xinu_c_mips.Base.{
  ℕ, Bool, true, false, ◌||◌, ltb_ℤ, leb_ℤ, eqb_ℤ, ◌==◌, if◌then◌else◌, ℤ, pos, ◌+ℤ◌, ◌-ℤ◌, wrap32,
}
use xinu_c_mips.Kernel.{
  Cmd, pure, get, modify, ctxsw, ◌>>=◌, ◌>>◌, index, nproc, ok, syserr, pr_curr, pr_ready, quantum,
  isbadpid, proc_at, update_proc,
}
use xinu_c_mips.Queue.{insert, dequeue, firstkey}

-- The part of `resched` that hands the processor to the first ready process.
unfoldable pub dispatch : Cmd (Unit {0})
dispatch = do
  k ← get
  pid ← dequeue k.readylist
  new ← index nproc pid
  modify λ k. record k { currpid = new }
  update_proc (pos new) λ p. record p { prstate = pr_curr }
  modify λ k. record k { preempt = quantum }
  ctxsw

unfoldable pub resched : Cmd (Unit {0})
resched = do
  k ← get
  if ltb_ℤ (pos 0) k.ndefers then modify (λ k. record k { attempt = true }) else do
    old ← proc_at (pos k.currpid)
    if old.prstate == pr_curr
        then (do
          key ← firstkey k.readylist
          if ltb_ℤ key old.prprio then pure tt else do
            update_proc (pos k.currpid) λ p. record p { prstate = pr_ready }
            insert (pos k.currpid) k.readylist old.prprio
            dispatch)
        else dispatch

-- The argument `resch` is RESCHED_YES or RESCHED_NO.
unfoldable pub ready : ℤ → Bool → Cmd ℤ
ready pid resch = do
  k ← get
  if isbadpid k pid then pure syserr else do
    update_proc pid λ p. record p { prstate = pr_ready }
    p ← proc_at pid
    insert pid k.readylist p.prprio
    if resch then resched else pure tt
    pure ok

unfoldable pub yield : Cmd ℤ
yield = resched >> pure ok

abbrev pub defer_start : ℤ
defer_start = pos 1

abbrev pub defer_stop : ℤ
defer_stop = pos 2

unfoldable pub sched_cntl : ℤ → Cmd ℤ
sched_cntl def = do
  k ← get
  if eqb_ℤ def defer_start
      then (do
        modify λ k. record k {
          ndefers = wrap32 (k.ndefers +ℤ pos 1);
          attempt = if eqb_ℤ k.ndefers (pos 0) then false else k.attempt;
        }
        pure ok)
      else if eqb_ℤ def defer_stop
      then (if leb_ℤ k.ndefers (pos 0) then pure syserr else do
        modify λ k. record k { ndefers = wrap32 (k.ndefers -ℤ pos 1) }
        k ← get
        if eqb_ℤ k.ndefers (pos 0) then (if k.attempt then resched else pure tt) else pure tt
        pure ok)
      else pure syserr
