-- ===== src/Message.antt =====
-- Messages between processes: xinu/system/send.c, receive.c, recvclr.c and recvtime.c, and the
-- sleep queue that a timed receive uses: sleep.c, unsleep.c, wakeup.c and clkhandler.c.
pub mod Sleep
pub mod Receive
pub mod Taken
pub mod Unsleep
pub mod Send
pub mod Sent
pub mod Wake
pub mod Clock
pub mod Ticked
use xinu_c_mips.Base.{
  ℕ, zero, suc, ◌+◌, ◌-◌, ◌*◌, ◌%◌, ◌^◌, Bool, true, false, not, ◌&&◌, ◌||◌, ltb, leb, ltb_ℤ, leb_ℤ,
  eqb_ℤ, ◌==◌, if◌then◌else◌, ℤ, pos, negsuc, ◌+ℤ◌, ◌-ℤ◌, wrap32, to_int32,
}
use xinu_c_mips.Kernel.{
  Cmd, out_of_fuel, pure, get, modify, ◌>>=◌, ◌>>◌, nproc, nqent, ok, syserr, pr_free, pr_recv,
  pr_sleep, pr_rectim, quantum, isbadpid, proc_at, update_proc, queue_at, set_qkey,
}
use xinu_c_mips.Queue.{insertd, getitem, dequeue, firstid, firstkey, nonempty}
use xinu_c_mips.Sched.{ready, resched, yield}

unfoldable pub sleepms : ℕ → Cmd ℤ
sleepms delay = if delay == 0 then yield else do
  k ← get
  r ← insertd (pos k.currpid) k.sleepq (to_int32 delay)
  if eqb_ℤ r syserr
      then pure syserr
      else do update_proc (pos k.currpid) λ p. record p { prstate = pr_sleep }; resched; pure ok

abbrev pub maxseconds : ℕ
maxseconds = 4294967

unfoldable pub sleep : ℕ → Cmd ℤ
sleep delay = if ltb maxseconds delay then pure syserr else sleepms (2 * delay % 2 ^ 32) >> pure ok

unfoldable pub unsleep : ℤ → Cmd ℤ
unsleep pid = do
  k ← get
  if isbadpid k pid then pure syserr else do
    p ← proc_at pid
    if not (p.prstate == pr_sleep) && not (p.prstate == pr_rectim) then pure syserr else do
      e ← queue_at pid
      let pidnext = e.qnext
      if ltb_ℤ pidnext (pos nproc)
          then (do n ← queue_at pidnext; set_qkey pidnext (wrap32 (n.qkey +ℤ e.qkey)))
          else pure tt
      getitem pid
      pure ok

-- The loop of `wakeup`: each round takes a process off the sleep queue, so `nqent` rounds are
-- enough.
unfoldable pub wakeup_loop : ℕ → Cmd (Unit {0})
wakeup_loop zero = λ _. out_of_fuel
wakeup_loop (suc fuel) = do
  k ← get
  some_sleep ← nonempty k.sleepq
  if some_sleep
      then (do
        key ← firstkey k.sleepq
        if leb_ℤ key (pos 0)
            then (do pid ← dequeue k.sleepq; ready pid false; wakeup_loop fuel)
            else pure tt)
      else pure tt

unfoldable pub wakeup : Cmd (Unit {0})
wakeup = wakeup_loop nqent >> resched

abbrev pub clkticks_per_sec : ℕ
clkticks_per_sec = 4

-- `clkupdate`, which programs the timer's hardware, is left out.
unfoldable pub count_tick : Cmd (Unit {0})
count_tick = do
  modify λ k. record k { clkticks = (k.clkticks + 1) % 2 ^ 32 }
  k ← get
  if k.clkticks == clkticks_per_sec
      then modify (λ k. record k { clktime = (k.clktime + 1) % 2 ^ 32; clkticks = 0 })
      else pure tt

unfoldable pub tick_sleepers : Cmd (Unit {0})
tick_sleepers = do
  k ← get
  some_sleep ← nonempty k.sleepq
  if some_sleep
      then (do
        first ← firstid k.sleepq
        e ← queue_at first
        let key = wrap32 (e.qkey -ℤ pos 1)
        set_qkey first key
        if leb_ℤ key (pos 0) then wakeup else pure tt)
      else pure tt

-- `preempt` is unsigned, so `--preempt <= 0` holds at zero only.
unfoldable pub clkhandler : Cmd (Unit {0})
clkhandler = do
  count_tick
  tick_sleepers
  modify λ k. record k { preempt = (k.preempt + 2 ^ 32 - 1) % 2 ^ 32 }
  k ← get
  if k.preempt == 0 then (do modify λ k. record k { preempt = quantum }; resched) else pure tt

unfoldable pub send : ℤ → ℕ → Cmd ℤ
send pid msg = do
  k ← get
  if isbadpid k pid then pure syserr else do
    p ← proc_at pid
    if (p.prstate == pr_free) || not (p.prhasmsg == 0) then pure syserr else do
      update_proc pid λ p. record p { prmsg = msg; prhasmsg = 1 }
      if p.prstate == pr_recv
          then (ready pid true >> pure tt)
          else if p.prstate == pr_rectim
          then (do unsleep pid; ready pid true; pure tt)
          else pure tt
      pure ok

-- `prptr` stays the entry of the caller across the switch.
unfoldable pub receive : Cmd ℕ
receive = do
  k ← get
  let self = pos k.currpid
  p ← proc_at self
  if p.prhasmsg == 0
      then (do update_proc self λ p. record p { prstate = pr_recv }; resched)
      else pure tt
  p ← proc_at self
  update_proc self λ p. record p { prhasmsg = 0 }
  pure p.prmsg

unfoldable pub recvclr : Cmd ℕ
recvclr = do
  k ← get
  let self = pos k.currpid
  p ← proc_at self
  if p.prhasmsg == 1
      then (do update_proc self λ p. record p { prhasmsg = 0 }; pure p.prmsg)
      else pure 1

-- SYSERR and TIMEOUT as a `umsg32`.
abbrev pub syserr_msg : ℕ
syserr_msg = 0xffff_ffff

abbrev pub timeout_msg : ℕ
timeout_msg = 0xffff_fffd

-- The part of `recvtime` after the wait.
unfoldable pub take_message : ℤ → Cmd ℕ
take_message self = do
  p ← proc_at self
  if not (p.prhasmsg == 0)
      then (do update_proc self λ p. record p { prhasmsg = 0 }; pure p.prmsg)
      else pure timeout_msg

unfoldable pub recvtime : ℤ → Cmd ℕ
recvtime maxwait = if ltb_ℤ maxwait (pos 0) then pure syserr_msg else do
  k ← get
  let self = pos k.currpid
  p ← proc_at self
  if p.prhasmsg == 0
      then (do
        r ← insertd self k.sleepq maxwait
        if eqb_ℤ r syserr then pure syserr_msg else do
          update_proc self λ p. record p { prstate = pr_rectim }
          resched
          take_message self)
      else take_message self
