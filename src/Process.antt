-- ===== src/Process.antt =====
-- Processes: xinu/system/create.c, kill.c, suspend.c, resume.c, chprio.c, getprio.c, getpid.c,
-- userret.c and xdone.c.
pub mod Suspend
pub mod Suspended
pub mod Slots
pub mod Priority
use xinu_c_mips.Base.{
  ℕ, zero, suc, ◌+◌, ◌-◌, ◌%◌, ◌^◌, ◌*◌, Bool, true, false, not, ◌&&◌, ◌||◌, ltb, leb_ℤ, eqb_ℤ,
  ◌==◌, if◌then◌else◌, ℤ, pos, negsuc, ◌+ℤ◌, ◌-ℤ◌, wrap32, update, List, [], ◌∷◌, length, to_uint32,
}
use xinu_c_mips.Kernel.{
  Cmd, Kernel, halted, out_of_fuel, pure, get, modify, ◌>>=◌, ◌>>◌, nproc, ok, syserr, pr_free,
  pr_curr, pr_ready, pr_sleep, pr_susp, pr_wait, pr_rectim, isbadpid, proc_at, update_proc, sem_at,
  update_sem,
}
use xinu_c_mips.Queue.{getitem}
use xinu_c_mips.Sched.{ready, resched}
use xinu_c_mips.Message.{send, unsleep}
use xinu_c_mips.Memory.{store, getstk, freestk, sub32, syserr_ptr}
use xinu_c_mips.Device.{Dentry, close}

unfoldable pub suspend : ℤ → Cmd ℤ
suspend pid = do
  k ← get
  if isbadpid k pid || eqb_ℤ pid (pos 0) then pure syserr else do
    p ← proc_at pid
    if not (p.prstate == pr_curr) && not (p.prstate == pr_ready) then pure syserr else do
      if p.prstate == pr_ready
          then (do getitem pid; update_proc pid λ p. record p { prstate = pr_susp })
          else (do update_proc pid λ p. record p { prstate = pr_susp }; resched)
      p ← proc_at pid
      pure p.prprio

unfoldable pub resume : ℤ → Cmd ℤ
resume pid = do
  k ← get
  if isbadpid k pid then pure syserr else do
    p ← proc_at pid
    if not (p.prstate == pr_susp) then pure syserr else do ready pid true; pure p.prprio

unfoldable pub chprio : ℤ → ℤ → Cmd ℤ
chprio pid newprio = do
  k ← get
  if isbadpid k pid
      then pure syserr
      else do p ← proc_at pid; update_proc pid λ p. record p { prprio = newprio }; pure p.prprio

unfoldable pub getprio : ℤ → Cmd ℤ
getprio pid = do k ← get; if isbadpid k pid then pure syserr else do p ← proc_at pid; pure p.prprio

unfoldable pub getpid : Cmd ℤ
getpid = do k ← get; pure (pos k.currpid)

-- The message is printed and the processor stops.
unfoldable pub xdone : Cmd (Unit {0})
xdone k = halted k

-- The `switch` of `kill`. A suicide goes on into the next case only if `resched` comes back.
unfoldable pub kill_state : ℤ → Cmd (Unit {0})
kill_state pid = do
  p ← proc_at pid
  if (p.prstate == pr_curr) || (p.prstate == pr_sleep) || (p.prstate == pr_rectim)
      then (do
        if p.prstate == pr_curr
            then (do update_proc pid λ p. record p { prstate = pr_free }; resched)
            else pure tt
        unsleep pid
        update_proc pid λ p. record p { prstate = pr_free })
      else (do
        if p.prstate == pr_wait
            then (update_sem (pos p.prsem) λ s. record s { scount = wrap32 (s.scount +ℤ pos 1) })
            else pure tt
        if (p.prstate == pr_wait) || (p.prstate == pr_ready)
            then (getitem pid >> pure tt)
            else pure tt
        update_proc pid λ p. record p { prstate = pr_free })

module _ (devtab : ℕ → Dentry) where
  unfoldable pub kill : ℤ → Cmd ℤ
  kill pid = do
    k ← get
    if isbadpid k pid || eqb_ℤ pid (pos 0) then pure syserr else do
      modify λ k. record k { prcount = wrap32 (k.prcount -ℤ pos 1) }
      k ← get
      if leb_ℤ k.prcount (pos 1) then xdone else pure tt
      p ← proc_at pid
      send p.prparent (to_uint32 pid)
      p ← proc_at pid
      close devtab (p.prdesc 0)
      p ← proc_at pid
      close devtab (p.prdesc 1)
      p ← proc_at pid
      close devtab (p.prdesc 2)
      p ← proc_at pid
      freestk p.prstkbase p.prstklen
      kill_state pid
      pure ok

  unfoldable pub userret : Cmd (Unit {0})
  userret = do pid ← getpid; kill pid; pure tt

-- The loop of `newpid`, with the number of slots still to try.
unfoldable pub newpid_loop : ℕ → Cmd ℤ
newpid_loop zero = pure syserr
newpid_loop (suc i) = do
  k ← get
  let slot = k.nextpid % nproc
  modify λ k. record k { nextpid = slot + 1 }
  p ← proc_at (pos slot)
  if p.prstate == pr_free then pure (pos slot) else newpid_loop i

unfoldable pub newpid : Cmd ℤ
newpid = newpid_loop nproc

abbrev pub minstk : ℕ
minstk = 400

abbrev pub pnmlen : ℕ
pnmlen = 12

abbrev pub stackmagic : ℕ
stackmagic = 0x0a0aaaa9

abbrev pub context_words : ℕ
context_words = 16

-- Copies at most `n` characters, up to a null character.
unfoldable pub copy_name : ℕ → ℕ → (ℕ → ℕ) → (ℕ → ℕ) → ℕ → ℕ
copy_name zero i from to = to
copy_name (suc n) i from to =
    let rest = copy_name n (i + 1) from (update to i (from i)) in
    if from i == 0 then update to i 0 else rest

-- Pushes `n` zero words, and returns the new stack address.
unfoldable pub push_zeros : ℕ → ℕ → Cmd ℕ
push_zeros zero saddr = pure saddr
push_zeros (suc n) saddr = do store (sub32 saddr 4) 0; push_zeros n (sub32 saddr 4)

unfoldable pub copy_args : ℕ → List ℕ → Cmd (Unit {0})
copy_args a [] = pure tt
copy_args a (x ∷ xs) = do store a x; copy_args ((a + 4) % 2 ^ 32) xs

-- The padding below the saved words, for a number of arguments.
unfoldable pub arg_pad : ℕ → ℕ
arg_pad nargs = if nargs == 0 then 4 else if nargs % 4 == 0 then 0 else 4 - nargs % 4

-- `userret` is the address INITRET; the arguments are those that follow `nargs`.
unfoldable pub create : (userret funcaddr ssize : ℕ) → ℤ → (ℕ → ℕ) → List ℕ → Cmd ℤ
create userret funcaddr ssize priority name args =
    if ltb ssize minstk || leb_ℤ priority (pos 0) then pure syserr else do
      pid ← newpid
      if eqb_ℤ pid syserr then pure syserr else do
        saddr ← getstk ssize
        if saddr == syserr_ptr then pure syserr else do
          modify λ k. record k { prcount = wrap32 (k.prcount +ℤ pos 1) }
          k ← get
          update_proc pid λ p. record p {
            prstate = pr_susp;
            prprio = priority;
            prstkbase = saddr;
            prstklen = ssize;
            prname = copy_name (pnmlen - 1) 0 name (update p.prname (pnmlen - 1) 0);
            prparent = pos k.currpid;
            prhasmsg = 0;
            prdesc = update (update (update p.prdesc 0 (pos 0)) 1 (pos 0)) 2 (pos 0);
          }
          store saddr stackmagic
          store (sub32 saddr 4) (to_uint32 pid)
          store (sub32 saddr 8) ssize
          store (sub32 saddr 12) ((sub32 saddr ssize + 4) % 2 ^ 32)
          padded ← push_zeros (arg_pad (length args)) (sub32 saddr 12)
          savargs ← push_zeros (length args) padded
          sp ← push_zeros context_words savargs
          update_proc pid λ p. record p { prstkptr = sp }
          store ((sp + 4 * (context_words - 1)) % 2 ^ 32) funcaddr
          store ((sp + 4 * (context_words - 2)) % 2 ^ 32) userret
          copy_args savargs args
          pure pid
