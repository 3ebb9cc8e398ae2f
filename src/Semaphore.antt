-- ===== src/Semaphore.antt =====
-- The counting semaphores: xinu/system/semcreate.c, wait.c, signal.c, signaln.c, semreset.c,
-- semdelete.c and semcount.c.
pub mod Counts
pub mod Wait
pub mod Signal
pub mod Signalled
pub mod Signals
pub mod Allocate
use xinu_c_mips.Base.{
  ℕ, zero, suc, ◌+◌, Bool, true, false, ◌||◌, ltb, leb, ltb_ℤ, eqb_ℤ, if◌then◌else◌, ℤ, pos, negsuc,
  ◌+ℤ◌, ◌-ℤ◌, wrap32, pos_part,
}
use xinu_c_mips.Kernel.{
  Cmd, Sstate, s_free, s_used, is_s_free, out_of_fuel, pure, get, modify, ◌>>=◌, ◌>>◌, nsem, nqent,
  ok, syserr, empty, pr_wait, isbadsem, sem_at, update_sem, update_proc,
}
use xinu_c_mips.Queue.{enqueue, dequeue, getfirst}
use xinu_c_mips.Sched.{ready, resched}

-- The loop of `newsem`, with the number of entries still to try.
unfoldable pub newsem_loop : ℕ → Cmd ℤ
newsem_loop zero = pure syserr
newsem_loop (suc i) = do
  k ← get
  let sem = k.nextsem
  modify λ k. record k { nextsem = if leb nsem (sem + 1) then 0 else sem + 1 }
  s ← sem_at (pos sem)
  if is_s_free s.sstate
      then (do update_sem (pos sem) λ s. record s { sstate = s_used }; pure (pos sem))
      else newsem_loop i

unfoldable pub newsem : Cmd ℤ
newsem = newsem_loop nsem

unfoldable pub semcreate : ℤ → Cmd ℤ
semcreate count = if ltb_ℤ count (pos 0) then pure syserr else do
  sem ← newsem
  if eqb_ℤ sem syserr
      then pure syserr
      else do update_sem sem λ s. record s { scount = count }; pure sem

unfoldable pub wait : ℤ → Cmd ℤ
wait sem = if isbadsem sem then pure syserr else do
  s ← sem_at sem
  if is_s_free s.sstate then pure syserr else do
    update_sem sem λ s. record s { scount = wrap32 (s.scount -ℤ pos 1) }
    s ← sem_at sem
    if ltb_ℤ s.scount (pos 0)
        then (do
          k ← get
          update_proc (pos k.currpid) λ p. record p { prstate = pr_wait; prsem = pos_part sem }
          enqueue (pos k.currpid) s.squeue
          resched)
        else pure tt
    pure ok

unfoldable pub signal : ℤ → Cmd ℤ
signal sem = if isbadsem sem then pure syserr else do
  s ← sem_at sem
  if is_s_free s.sstate then pure syserr else do
    update_sem sem λ s. record s { scount = wrap32 (s.scount +ℤ pos 1) }
    if ltb_ℤ s.scount (pos 0) then (do pid ← dequeue s.squeue; ready pid true; pure tt) else pure tt
    pure ok

-- The loop of `signaln`, with the number of signals still to give.
unfoldable pub signaln_loop : ℕ → ℤ → Cmd (Unit {0})
signaln_loop zero sem = pure tt
signaln_loop (suc count) sem = do
  s ← sem_at sem
  update_sem sem λ s. record s { scount = wrap32 (s.scount +ℤ pos 1) }
  if ltb_ℤ s.scount (pos 0) then (do pid ← dequeue s.squeue; ready pid false; pure tt) else pure tt
  signaln_loop count sem

unfoldable pub signaln : ℤ → ℤ → Cmd ℤ
signaln sem count = if isbadsem sem || ltb_ℤ count (pos 0) then pure syserr else do
  s ← sem_at sem
  if is_s_free s.sstate then pure syserr else do signaln_loop (pos_part count) sem; resched; pure ok

-- The loop of `semreset`: every waiting process becomes ready. Each round takes one process off
-- the queue, so `nqent` rounds are enough.
unfoldable pub release_loop : ℕ → ℤ → Cmd (Unit {0})
release_loop zero q = λ _. out_of_fuel
release_loop (suc fuel) q = do
  pid ← getfirst q
  if eqb_ℤ pid empty then pure tt else do ready pid false; release_loop fuel q

unfoldable pub semreset : ℤ → ℤ → Cmd ℤ
semreset sem count = if ltb_ℤ count (pos 0) || isbadsem sem then pure syserr else do
  s ← sem_at sem
  if is_s_free s.sstate then pure syserr else do
    release_loop nqent s.squeue
    update_sem sem λ s. record s { scount = count }
    resched
    pure ok

-- The loop of `semdelete`: a process becomes ready for each count below zero.
unfoldable pub semdelete_loop : ℕ → ℤ → Cmd (Unit {0})
semdelete_loop zero sem = λ _. out_of_fuel
semdelete_loop (suc fuel) sem = do
  s ← sem_at sem
  update_sem sem λ s. record s { scount = wrap32 (s.scount +ℤ pos 1) }
  if ltb_ℤ s.scount (pos 0)
      then (do pid ← getfirst s.squeue; ready pid false; semdelete_loop fuel sem)
      else pure tt

unfoldable pub semdelete : ℤ → Cmd ℤ
semdelete sem = if isbadsem sem then pure syserr else do
  s ← sem_at sem
  if is_s_free s.sstate then pure syserr else do
    update_sem sem λ s. record s { sstate = s_free }
    semdelete_loop nqent sem
    resched
    pure ok

unfoldable pub semcount : ℤ → Cmd ℤ
semcount semid =
    if isbadsem semid
    then pure syserr
    else do s ← sem_at semid; if is_s_free s.sstate then pure syserr else pure s.scount
