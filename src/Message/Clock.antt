-- ===== src/Message/Clock.antt =====
-- The clock handler keeps the kernel's tables consistent.
use xinu_c_mips.Base.{
  ℕ, zero, suc, ◌+◌, ◌-◌, ◌%◌, ◌^◌, ◌<◌, ◌≤◌, ◌≡◌, ◌≢◌, refl, sym, ◌∙◌, ap, subst, true, false, not,
  Bool-cases, inl, inr, List, [], ◌∷◌, has, length, is_nil, ℤ, pos, pos_part, negsuc, ◌==◌, leb_ℤ,
  ◌-ℤ◌, wrap32, wrap32_of_range, update, arith, eq→==, if◌then◌else◌, length-le_of_Below,
}
use xinu_c_mips.Kernel.{
  Kernel, done, pure, and_then, ◌>>◌, nproc, nqent, quantum, queue_at-pos, set_qkey-pos, with_qkey,
  Safe, Safe-bind, ends,
}
use xinu_c_mips.Queue.{dequeue, nonempty, firstid, firstkey}
use xinu_c_mips.Queue.Chain.{Table, first, ne_of_has}
use xinu_c_mips.Queue.Table.{Queues}
use xinu_c_mips.Queue.Fifo.{firstid-first}
use xinu_c_mips.Queue.Frame.{Queues-keys}
use xinu_c_mips.Queue.Shorten.{wrap32-sub}
use xinu_c_mips.Queue.Due.{delay, due}
use xinu_c_mips.Queue.Timed.{DueBelow, Timed, Timed-same, due-same}
use xinu_c_mips.Sched.{ready}
use xinu_c_mips.Sched.Dispatch.{Steady}
use xinu_c_mips.Sched.Resched.{resched-Safe, firstkey-first}
use xinu_c_mips.Message.{
  wakeup, wakeup_loop, count_tick, tick_sleepers, clkhandler, clkticks_per_sec,
}
use xinu_c_mips.Message.Sleep.{Sorted-on}
use xinu_c_mips.Message.Wake.{
  DueBelow-shift, wake_head, wake_more, later, Rose, nonempty-is_nil, wakeup_loop-Consistent,
}
use xinu_c_mips.Invariant.{Consistent, on, ready_q, sleep_q}

module _ (t : Table) (x : ℕ) (z : ℤ) where
  rekey-qnext : (i : ℕ) → (with_qkey t x z i).qnext ≡ (t i).qnext
  unfolding with_qkey update
  rekey-qnext i = ground arith

  rekey-qprev : (i : ℕ) → (with_qkey t x z i).qprev ≡ (t i).qprev
  unfolding with_qkey update
  rekey-qprev i = ground arith

  pub rekey-other : (i : ℕ) → i ≢ x → (with_qkey t x z i).qkey ≡ (t i).qkey
  unfolding with_qkey update
  rekey-other i h = ground arith

  pub rekey-same : (with_qkey t x z x).qkey ≡ z
  unfolding with_qkey update
  rekey-same = ground arith

-- The first delay may fall.
Timed-lower :
    (t : Table) (x m : ℕ) (xs : List ℕ)
    → has x xs ≡ false
    → m ≤ delay t x
    → Timed t (x ∷ xs)
    → Timed (with_qkey t x (pos m)) (x ∷ xs)
Timed-lower t x m xs new h s =
    let t1 = with_qkey t x (pos m) in
    let rest : Timed t1 xs =
      Timed-same t t1 xs (λ i g. rekey-other t x (pos m) i (ne_of_has i x xs g new))
        (s.0.2, DueBelow-shift t (0 + delay t x) 0 xs (omega arith) s.1.1) in
    let now : (t1 x).qkey ≡ pos m = rekey-same t x (pos m) in
    let wait : delay t1 x ≡ m = ap pos_part now in
    let same =
      due-same t t1 (0 + delay t1 x) xs
        (λ i g. rekey-other t x (pos m) i (ne_of_has i x xs g new)) in
    (
      (now ∙ ap pos (sym wait), omega (arith, wait, s.0.1), rest.0),
      (
        omega (arith, wait, s.0.1),
        subst DueBelow (sym same)
            (DueBelow-shift t (0 + delay t x) (0 + delay t1 x) xs (omega (arith, wait)) s.1.1),
      ),
    )

-- A delay that stays positive was positive.
pub delay-positive : (d : ℕ) → leb_ℤ (wrap32 (pos d -ℤ pos 1)) (pos 0) ≡ false → 1 ≤ d
unfolding ◌-ℤ◌
delay-positive zero h =
    let e : wrap32 (negsuc 0) ≡ negsuc 0 = wrap32_of_range (negsuc 0) (omega arith, omega arith) in
    absurd (ground (arith, h, ap (λ (z : ℤ). leb_ℤ z (pos 0)) e))
delay-positive (suc d) h = omega arith

module _ (k : Kernel) (l : ℕ → List ℕ) (inv : Consistent k l) (x : ℕ) (xs : List ℕ)
    (e : l sleep_q ≡ x ∷ xs) where
  rekeyed-Queues : (z : ℤ) → Queues (with_qkey k.queuetab x z) l
  rekeyed-Queues z =
      let old = rw e at (inv.placed.queues.each sleep_q (omega arith)) in
      Queues-keys k.queuetab _ l inv.placed.queues (rekey-qnext k.queuetab x z)
        (rekey-qprev k.queuetab x z)
        (λ i h. rekey-other k.queuetab x z i (omega (arith, old.pids.0)))

  -- The tick of a delay that does not run out.
  pub later-Consistent :
      (m : ℕ)
      → m ≤ delay k.queuetab x
      → Consistent (record k { queuetab = with_qkey k.queuetab x (pos m) }) l
  later-Consistent m h =
      let old = rw e at (inv.placed.queues.each sleep_q (omega arith)) in
      let here : has x (l sleep_q) ≡ true = ap (has x) e ∙ ground (arith, eq→== x x refl) in
      let not_ready : has x (l ready_q) ≡ false =
        ground
          (arith, here, inv.placed.queues.apart ready_q sleep_q x (omega arith) (omega arith)) in
      record {
        placed = record {
          queues = rekeyed-Queues (pos m);
          member = inv.placed.member;
          waits = inv.placed.waits;
          sorted =
              Sorted-on k.queuetab (with_qkey k.queuetab x (pos m)) (l ready_q)
                (λ i g. rekey-other k.queuetab x (pos m) i (ne_of_has i x (l ready_q) g not_ready))
                inv.placed.sorted;
          delays =
              subst (Timed (with_qkey k.queuetab x (pos m))) (sym e)
                (Timed-lower k.queuetab x m xs old.distinct.0 h (rw e at (inv.placed.delays)));
          prios = inv.placed.prios;
          idle = inv.placed.idle;
        };
        counted = inv.counted;
        running = inv.running;
      }

  -- A round in which the first process is due: it wakes, and so do those that are due with it.
  pub wake_round :
      (fuel : ℕ) (z : ℤ)
      → leb_ℤ z (pos 0) ≡ true
      → length xs < fuel
      → (k' : Kernel) × (wakeup_loop (suc fuel) (record k { queuetab = with_qkey k.queuetab x z })
          ≡ done tt k')
        × Rose k (x ∷ xs) (later 0 (due k.queuetab 0 xs)) k'
  unfolding wakeup_loop
  wake_round fuel z now enough =
      let t1 = with_qkey k.queuetab x z in
      let k1 = record k { queuetab = t1 } in
      let v1 = rekeyed-Queues z in
      let some_sleep : nonempty k.sleepq k1 ≡ done true k1 =
        ap (λ (q : ℤ). nonempty q k1) inv.running.sleep_id
        ∙ nonempty-is_nil k1 l v1 sleep_q (omega arith)
        ∙ ap (λ (zs : List ℕ). done (not (is_nil zs)) k1) e in
      let key : firstkey k.sleepq k1 ≡ done z k1 =
        ap (λ (q : ℤ). firstkey q k1) inv.running.sleep_id
        ∙ firstkey-first k1 l v1 sleep_q (omega arith)
        ∙ ap (λ (zs : List ℕ). done (t1 (first zs (sleep_q + 1))).qkey k1) e
        ∙ ap (λ (y : ℤ). done y k1) (rekey-same k.queuetab x z) in
      let out = wake_head k l inv t1 v1 x xs e (rekey-other k.queuetab x z) in
      let rest = wakeup_loop-Consistent fuel out.0 out.1 xs out.3 out.4 enough in
      (
        rest.0,
        rw (some_sleep, key, now)
            (ap (λ (q : ℤ). and_then (dequeue q k1) (λ pid. ready pid false >> wakeup_loop fuel))
                inv.running.sleep_id
              ∙ out.2 (wakeup_loop fuel)
              ∙ rest.1),
        wake_more k l inv x xs e out.0 rest.0 out.5 out.6 out.7 rest.2,
      )

  wakeup-due :
      (z : ℤ)
      → leb_ℤ z (pos 0) ≡ true
      → Safe Steady (λ _. Steady) (wakeup (record k { queuetab = with_qkey k.queuetab x z }))
  unfolding wakeup
  wakeup-due z now =
      let old = rw e at (inv.placed.queues.each sleep_q (omega arith)) in
      let out =
        wake_round 83 z now
          (omega (arith, length-le_of_Below nproc (x ∷ xs) old.pids old.distinct)) in
      rw out.1 (resched-Safe out.0 out.2.0 out.2.1)

  -- The tick of the first delay.
  tick_first :
      Safe Steady
        (λ _. Steady)
        ((if leb_ℤ (wrap32 ((k.queuetab x).qkey -ℤ pos 1)) (pos 0) then wakeup else pure tt)
          (record k { queuetab = with_qkey k.queuetab x (wrap32 ((k.queuetab x).qkey -ℤ pos 1)) }))
  tick_first =
      let d = delay k.queuetab x in
      let times = rw e at (inv.placed.delays) in
      elim (Bool-cases (leb_ℤ (wrap32 ((k.queuetab x).qkey -ℤ pos 1)) (pos 0))) [
        | inl now ↦ rw now (wakeup-due _ now)
        | inr later ↦
            let positive : 1 ≤ d =
              delay-positive d
                (ap (λ (y : ℤ). leb_ℤ (wrap32 (y -ℤ pos 1)) (pos 0)) (sym times.0.0) ∙ later) in
            let key : wrap32 ((k.queuetab x).qkey -ℤ pos 1) ≡ pos (d - 1) =
              ap (λ (y : ℤ). wrap32 (y -ℤ pos 1)) times.0.0 ∙ wrap32-sub d 1 times.0.1 positive in
            rw later (rw key (ends (l, later-Consistent (d - 1) (omega arith))))
      ]

tick_sleepers-Safe :
    (k : Kernel) (l : ℕ → List ℕ) (xs : List ℕ)
    → Consistent k l
    → l sleep_q ≡ xs
    → Safe Steady (λ _. Steady) (tick_sleepers k)
unfolding tick_sleepers
tick_sleepers-Safe k l [] inv e =
    let none_sleep : nonempty k.sleepq k ≡ done false k =
      ap (λ (z : ℤ). nonempty z k) inv.running.sleep_id
      ∙ nonempty-is_nil k l inv.placed.queues sleep_q (omega arith)
      ∙ ap (λ (zs : List ℕ). done (not (is_nil zs)) k) e in
    rw none_sleep (ends (l, inv))
tick_sleepers-Safe k l (x ∷ xs) inv e =
    let some_sleep : nonempty k.sleepq k ≡ done true k =
      ap (λ (z : ℤ). nonempty z k) inv.running.sleep_id
      ∙ nonempty-is_nil k l inv.placed.queues sleep_q (omega arith)
      ∙ ap (λ (zs : List ℕ). done (not (is_nil zs)) k) e in
    let head : firstid k.sleepq k ≡ done (pos x) k =
      ap (λ (z : ℤ). firstid z k) inv.running.sleep_id
      ∙ firstid-first k l inv.placed.queues sleep_q (omega arith)
      ∙ ap (λ (zs : List ℕ). done (pos (first zs (sleep_q + 1))) k) e in
    let old = rw e at (inv.placed.queues.each sleep_q (omega arith)) in
    let low : x < nqent = omega (arith, old.pids.0) in
    rw
      (
        some_sleep,
        head,
        queue_at-pos x k low,
        set_qkey-pos x k low (wrap32 ((k.queuetab x).qkey -ℤ pos 1)),
      )
      (tick_first k l inv x xs e)

count_tick-run :
    (k : Kernel)
    → (a : ℕ) × (b : ℕ) × (count_tick k ≡ done tt (record k { clkticks = a; clktime = b }))
unfolding count_tick
count_tick-run k = elim (Bool-cases ((k.clkticks + 1) % 2 ^ 32 == clkticks_per_sec)) [
  | inl wrap ↦ (0, (k.clktime + 1) % 2 ^ 32, rw wrap refl)
  | inr on ↦ ((k.clkticks + 1) % 2 ^ 32, k.clktime, rw on refl)
]

-- `clkhandler` keeps the tables consistent and never faults, whoever runs when the clock ticks: the
-- delay of the first sleeping process falls by one, those whose time has come become ready, and
-- the running process may lose the processor, to them or because its time slice is over.
pub clkhandler-Safe :
    (k : Kernel) (l : ℕ → List ℕ) → Consistent k l → Safe Steady (λ _. Steady) (clkhandler k)
unfolding clkhandler
clkhandler-Safe k l inv =
    let counted = count_tick-run k in
    rw counted.2 (
      Safe-bind
        (tick_sleepers-Safe (record k { clkticks = counted.0; clktime = counted.1 }) l (l sleep_q)
          inv refl)
        (λ _ k' p. elim (Bool-cases ((k'.preempt + 2 ^ 32 - 1) % 2 ^ 32 == 0)) [
          | inl over ↦ rw over (resched-Safe (record k' { preempt = quantum }) p.0 p.1)
          | inr left ↦ rw left (ends (p.0, p.1))
        ]))
