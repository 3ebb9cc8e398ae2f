-- ===== src/Message/Receive.antt =====
-- A process that waits for a message without a time limit keeps the tables consistent.
use xinu_c_mips.Base.{ℕ, ◌<◌, ◌≡◌, ◌≢◌, refl, Bool-cases, inl, inr, ◌==◌, List, pos, update, arith}
use xinu_c_mips.Kernel.{
  Kernel, pure, ◌>>=◌, ◌>>◌, nproc, pr_curr, pr_recv, proc_at, proc_at-pos, update_proc,
  update_proc-pos, Safe, Safe-bind, ends,
}
use xinu_c_mips.Sched.Dispatch.{Steady}
use xinu_c_mips.Sched.Resched.{resched-Safe}
use xinu_c_mips.Message.{receive}
use xinu_c_mips.Invariant.{Consistent}
use xinu_c_mips.Invariant.Placing.{Placed-off, IsOff-of, loosen}
use xinu_c_mips.Invariant.Entries.{Consistent-entry}

pub taking :
    (k : Kernel) (l : ℕ → List ℕ)
    → Consistent k l
    → (self : ℕ) → self < nproc
    → Consistent
        (record k { proctab = update k.proctab self (record (k.proctab self) { prhasmsg = 0 }) })
        l
taking k l inv self h =
    Consistent-entry k l inv self (record (k.proctab self) { prhasmsg = 0 }) refl refl
      (inv.placed.prios self h)

-- The message is taken.
take-Safe :
    (self : ℕ) (k : Kernel)
    → self < nproc
    → Steady k
    → Safe Steady
        (λ _. Steady)
        ((proc_at (pos self) >>= λ p.
            (update_proc (pos self) (λ p. record p { prhasmsg = 0 }) >> pure p.prmsg))
          k)
take-Safe self k h (l, inv) =
    rw (proc_at-pos self k h, update_proc-pos self k (λ p. record p { prhasmsg = 0 }) h)
      (ends (l, taking k l inv self h))

module _ (k : Kernel) (l : ℕ → List ℕ) (inv : Consistent k l)
    (runs : (k.proctab k.currpid).prstate ≡ pr_curr) (user : k.currpid ≢ 0) where
  pub receiving :
      Consistent
        (record k {
          proctab = update k.proctab k.currpid (record (k.proctab k.currpid) { prstate = pr_recv });
        })
        l
  unfolding update
  receiving =
      let cur = k.currpid in
      record {
        placed =
            Placed-off
              (loosen inv.placed cur
                (IsOff-of inv.placed cur inv.running.low (λ r ir. ground (arith, runs))))
              (record (k.proctab cur) { prstate = pr_recv })
              (record {
                sem = λ h. absurd (omega arith);
                prio = inv.placed.prios cur inv.running.low;
                null = λ h. absurd (user h);
              })
              (λ r ir. refl);
        counted = inv.counted;
        running = record {
          ready_id = inv.running.ready_id;
          sleep_id = inv.running.sleep_id;
          low = inv.running.low;
          single = λ i h. ground (arith, inv.running.single i);
        };
      }

  -- `receive` keeps the tables consistent and never faults: a message that is there is taken, and
  -- otherwise another process runs and the caller takes its message when it is resumed. The caller
  -- runs and is not the null process.
  pub receive-Safe : Safe Steady (λ _. Steady) (receive k)
  unfolding receive
  receive-Safe =
      let low = inv.running.low in
      rw (proc_at-pos k.currpid k low) (elim (Bool-cases ((k.proctab k.currpid).prhasmsg == 0)) [
        | inl z ↦
            rw (z, update_proc-pos k.currpid k (λ p. record p { prstate = pr_recv }) low)
              (Safe-bind (resched-Safe _ l receiving) (λ _ k' s. take-Safe k.currpid k' low s))
        | inr n ↦ rw n (take-Safe k.currpid k low (l, inv))
      ])
