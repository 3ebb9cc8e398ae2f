-- ===== src/Message/Taken.antt =====
-- What `receive` does on each branch.
use xinu_c_mips.Base.{
  ℕ, ◌≡◌, ◌≢◌, refl, sym, ap, subst, ◌<◌, Bool-cases, inl, inr, ◌==◌, ==→eq, ==→ne, List, pos,
  update,
}
use xinu_c_mips.Kernel.{
  Kernel, Run, done, pure, and_then, ◌>>=◌, ◌>>◌, nproc, pr_curr, pr_recv, proc_at, proc_at-pos,
  update_proc, update_proc-pos, Safe,
}
use xinu_c_mips.Sched.{resched}
use xinu_c_mips.Sched.Dispatch.{Steady}
use xinu_c_mips.Message.{receive}
use xinu_c_mips.Message.Receive.{receiving, taking, receive-Safe}
use xinu_c_mips.Invariant.{Consistent}

-- The state after process `i` has taken its message.
abbrev pub without_message : Kernel → ℕ → Kernel
without_message k i = record k {
  proctab = update k.proctab i (record (k.proctab i) { prhasmsg = 0 });
}

-- A message that is there is taken. Otherwise the caller is marked, `resched` runs, and the caller takes
-- its message in the state in which it is resumed.
pub data Takes (k : Kernel) (l : ℕ → List ℕ) : Run ℕ → Type 0 where
  takes :
      (k.proctab k.currpid).prhasmsg ≢ 0
      → Consistent (without_message k k.currpid) l
      → Takes k l (done (k.proctab k.currpid).prmsg (without_message k k.currpid))
  waits :
      {k' : Kernel}
      → (k.proctab k.currpid).prhasmsg ≡ 0
      → k' ≡ record k {
        proctab = update k.proctab k.currpid (record (k.proctab k.currpid) { prstate = pr_recv });
      }
      → Consistent k' l
      → Takes k l (
          and_then
            (resched k')
            (λ _ kr. done (kr.proctab k.currpid).prmsg (without_message kr k.currpid)))

take_message-run :
    (i : ℕ) (kr : Kernel)
    → i < nproc
    → (proc_at (pos i) >>= λ p.
          (update_proc (pos i) (λ p. record p { prhasmsg = 0 }) >> pure p.prmsg))
        kr
      ≡ done (kr.proctab i).prmsg (without_message kr i)
take_message-run i kr h =
    rw (proc_at-pos i kr h, update_proc-pos i kr (λ p. record p { prhasmsg = 0 }) h) refl

module _ (k : Kernel) (l : ℕ → List ℕ) (inv : Consistent k l)
    (runs : (k.proctab k.currpid).prstate ≡ pr_curr) (user : k.currpid ≢ 0) where
  receive_lem : Takes k l (receive k)
  unfolding receive
  receive_lem =
      let low = inv.running.low in
      let cur = k.currpid in
      let k1 = record k {
        proctab = update k.proctab cur (record (k.proctab cur) { prstate = pr_recv });
      } in
      rw (proc_at-pos cur k low) (elim (Bool-cases ((k.proctab cur).prhasmsg == 0)) [
        | inl z ↦
            rw (z, update_proc-pos cur k (λ p. record p { prstate = pr_recv }) low)
              (subst (Takes k l)
                (ap (and_then (resched k1)) (λ x _ kr. sym (take_message-run cur kr low) x))
                (Takes.waits (==→eq _ _ z) refl (receiving k l inv runs user)))
        | inr n ↦ rw n (
            subst (Takes k l) (sym (take_message-run cur k low))
              (Takes.takes (==→ne _ _ n) (taking k l inv cur low)))
      ])

  -- `receive`, called by a running process that is not the null process, keeps the tables consistent and
  -- never faults. It returns the message that is there and marks it as taken; if there is none, the
  -- caller is marked as waiting and `resched` runs, and when the caller is resumed it returns the
  -- message that it has then, and marks that as taken.
  pub receive-Takes : Safe Steady (λ _. Steady) (receive k) × Takes k l (receive k)
  receive-Takes = (receive-Safe k l inv runs user, receive_lem)
