-- ===== src/Message/Sleep.antt =====
-- A process that goes to sleep, with or without a message to wait for, keeps the tables consistent.
use xinu_c_mips.Base.{
  ℕ, ◌+◌, ◌<◌, ◌^◌, ◌≡◌, ◌≢◌, refl, sym, ◌∙◌, ap, subst, true, false, ◌==◌, List, [], ◌∷◌, ◌++◌,
  has, ℤ, pos, negsuc, update, to_int32-small, ltb_ℤ, IsInt32, arith, Bool-cases, ◌⊎◌, inl, inr,
}
use xinu_c_mips.Kernel.{
  Kernel, done, nproc, ok, pr_curr, pr_sleep, pr_rectim, proc_at-pos, update_proc-pos, Safe,
  Safe-bind, ends,
}
use xinu_c_mips.Queue.{insertd}
use xinu_c_mips.Queue.Chain.{Table, ne_of_has}
use xinu_c_mips.Queue.Table.{has-snoc, lt_of_has}
use xinu_c_mips.Queue.Delta.{insertd-due}
use xinu_c_mips.Queue.Timed.{DueBelow, place-DueBelow}
use xinu_c_mips.Queue.Insert.{Sorted}
use xinu_c_mips.Queue.Due.{passed, behind, passed-behind}
use xinu_c_mips.Sched.{yield}
use xinu_c_mips.Sched.Dispatch.{Steady, Counted-other}
use xinu_c_mips.Sched.Resched.{resched-Safe}
use xinu_c_mips.Message.{sleepms, recvtime, take_message}
use xinu_c_mips.Invariant.{Consistent, ready_q, sleep_q}
use xinu_c_mips.Invariant.Placing.{Placed-enter, IsOff-of, loosen}
use xinu_c_mips.Invariant.Entries.{Consistent-entry}

-- The order of a queue whose keys stay.
pub Sorted-on :
    (t t' : Table) (xs : List ℕ)
    → ((i : ℕ) → has i xs ≡ true → (t' i).qkey ≡ (t i).qkey)
    → Sorted t xs
    → Sorted t' xs
Sorted-on t t' [] same s = tt
Sorted-on t t' (x ∷ []) same s = (tt, tt)
Sorted-on t t' (x ∷ y ∷ xs) same s = (
  rw (same x (ground arith), same y (ground arith)) s.0,
  Sorted-on t t' (y ∷ xs) (λ i h. same i (ground arith)) s.1,
)

module _ (k : Kernel) (l : ℕ → List ℕ) (inv : Consistent k l)
    (runs : (k.proctab k.currpid).prstate ≡ pr_curr) (user : k.currpid ≢ 0) where
  -- No ready process is on the sleep queue.
  awake : (i : ℕ) → has i (l ready_q) ≡ true → has i (l sleep_q ++ (sleep_q + 1) ∷ []) ≡ false
  awake i h = ground (
    arith,
    has-snoc i (l sleep_q) (sleep_q + 1),
    lt_of_has i (l ready_q) (inv.placed.queues.each ready_q (omega arith)).pids h,
    inv.placed.queues.apart ready_q sleep_q i (omega arith) (omega arith) h,
  )

  -- The caller enters the sleep queue with one of the two states that belong there.
  pub sleep_current :
      (w state : ℕ)
      → w < 2 ^ 31
      → (state ≡ pr_sleep) ⊎ (state ≡ pr_rectim)
      → (t : Table) × (l' : ℕ → List ℕ) × (insertd (pos k.currpid) k.sleepq (pos w) k
          ≡ done ok (record k { queuetab = t }))
        × Consistent
            (record k {
              queuetab = t;
              proctab =
                  update k.proctab k.currpid (record (k.proctab k.currpid) { prstate = state });
            })
            l'
  unfolding update
  sleep_current w state small kind =
      let cur = k.currpid in
      let q = sleep_q in
      let t0 = k.queuetab in
      let off = IsOff-of inv.placed cur inv.running.low (λ r ir. ground (arith, runs)) in
      let out =
        insertd-due k l inv.placed.queues q (omega arith) cur w inv.running.low (ground arith) off
          small inv.placed.delays.0 in
      let xs = passed t0 w (l q) in
      let ys = behind t0 w (l q) in
      let p' = record (k.proctab cur) { prstate = state } in
      (
        out.0,
        update l q (xs ++ cur ∷ ys),
        ap (λ (z : ℤ). insertd (pos cur) z (pos w) k) inv.running.sleep_id ∙ out.1,
        record {
          placed =
              Placed-enter (loosen inv.placed cur off) p'
                (record {
                  sem = λ h. absurd (ground arith);
                  prio = inv.placed.prios cur inv.running.low;
                  null = λ h. absurd (user h);
                })
                out.0 q xs ys (sym (passed-behind t0 w (l q))) (λ r ir. ground arith) out.2
                (Sorted-on t0 out.0 (l ready_q)
                  (λ i h.
                    out.5 i (ne_of_has i cur (l ready_q) h (off ready_q (omega arith))) (awake i h))
                  inv.placed.sorted)
                (
                  out.3,
                  subst DueBelow (sym out.4) (place-DueBelow cur w _ small inv.placed.delays.1),
                );
          counted = Counted-other k.semtab l q (xs ++ cur ∷ ys) (omega arith) inv.counted;
          running = record {
            ready_id = inv.running.ready_id;
            sleep_id = inv.running.sleep_id;
            low = inv.running.low;
            single = λ i h. ground (arith, inv.running.single i);
          };
        },
      )

  -- `sleepms` keeps the tables consistent and never faults: the caller goes to the sleep queue, or
  -- just yields for a delay of 0, and another process runs. The caller runs and is not the null
  -- process; the delay is below 2 ^ 31.
  pub sleepms-Safe : (delay : ℕ) → delay < 2 ^ 31 → Safe Steady (λ _. Steady) (sleepms delay k)
  unfolding sleepms yield
  sleepms-Safe delay small = elim (Bool-cases (delay == 0)) [
    | inl z ↦ rw z (Safe-bind (resched-Safe k l inv) (λ _ k' p. ends p))
    | inr n ↦
        let out = sleep_current delay pr_sleep small (inl refl) in
        rw
          (
            n,
            to_int32-small delay small,
            out.2,
            update_proc-pos k.currpid (record k { queuetab = out.0 })
                (λ p. record p { prstate = pr_sleep }) inv.running.low,
          )
          (Safe-bind (resched-Safe _ out.1 out.3) (λ _ k' p. ends p))
  ]

take_message-Safe :
    (self : ℕ) (k : Kernel)
    → self < nproc
    → Steady k
    → Safe Steady (λ _. Steady) (take_message (pos self) k)
unfolding take_message
take_message-Safe self k h (l, inv) =
    rw (proc_at-pos self k h) (elim (Bool-cases ((k.proctab self).prhasmsg == 0)) [
      | inl z ↦ rw z (ends (l, inv))
      | inr n ↦
          rw (n, update_proc-pos self k (λ p. record p { prhasmsg = 0 }) h)
            (ends (
              l,
              Consistent-entry k l inv self (record (k.proctab self) { prhasmsg = 0 }) refl refl
                  (inv.placed.prios self h),
            ))
    ])

-- `recvtime` keeps the tables consistent and never faults: a negative time is refused, a message
-- that is there is taken, and otherwise the caller sleeps for the time given, and looks again when
-- it is resumed. The caller runs and is not the null process.
pub recvtime-Safe :
    (maxwait : ℤ) (k : Kernel) (l : ℕ → List ℕ)
    → Consistent k l
    → (k.proctab k.currpid).prstate ≡ pr_curr
    → k.currpid ≢ 0
    → IsInt32 maxwait
    → Safe Steady (λ _. Steady) (recvtime maxwait k)
unfolding recvtime
recvtime-Safe (negsuc n) k l inv runs user bounds = ends (l, inv)
recvtime-Safe (pos w) k l inv runs user bounds =
    let nonneg : ltb_ℤ (pos w) (pos 0) ≡ false = ground arith in
    rw (nonneg, proc_at-pos k.currpid k inv.running.low)
      (elim (Bool-cases ((k.proctab k.currpid).prhasmsg == 0)) [
        | inl z ↦
            let out = sleep_current k l inv runs user w pr_rectim bounds.0 (inr refl) in
            rw
              (
                z,
                out.2,
                update_proc-pos k.currpid (record k { queuetab = out.0 })
                    (λ p. record p { prstate = pr_rectim }) inv.running.low,
              )
              (Safe-bind (resched-Safe _ out.1 out.3)
                (λ _ k' p. take_message-Safe k.currpid k' inv.running.low p))
        | inr n ↦ rw n (take_message-Safe k.currpid k inv.running.low (l, inv))
      ])
