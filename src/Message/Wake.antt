-- ===== src/Message/Wake.antt =====
-- `wakeup` and the clock tick keep the kernel's tables consistent: the processes whose time has come
-- leave the sleep queue and become ready.
use xinu_c_mips.Base.{
  ◌-◌, ◌⊎◌, leb, if◌then◌else◌, ◌==◌, ==→eq, ℕ, zero, suc, ◌+◌, ◌<◌, ◌≤◌, ◌≡◌, ◌≢◌, refl, sym, ◌∙◌,
  ap, subst, true, false, not, Bool-cases, inl, inr, List, [], ◌∷◌, has, length, is_nil, ℤ, pos,
  leb_ℤ, update, update_same, update_other, arith, eq→==, length-le_of_Below,
}
use xinu_c_mips.Kernel.{
  Kernel, Run, Cmd, done, and_then, ◌>>◌, nproc, nqent, pr_free, pr_ready, Safe,
}
use xinu_c_mips.Queue.{dequeue, nonempty, firstkey}
use xinu_c_mips.Queue.Chain.{Table, first, ne_of_has}
use xinu_c_mips.Queue.Table.{IsQid, Queues, leb-first}
use xinu_c_mips.Queue.Fifo.{dequeue-Front, firstid-first}
use xinu_c_mips.Queue.Insert.{Sorted}
use xinu_c_mips.Queue.Due.{delay, due}
use xinu_c_mips.Queue.Timed.{DueBelow, Timed, Timed-same, due-same}
use xinu_c_mips.Sched.{ready}
use xinu_c_mips.Sched.Dispatch.{Steady, Counted-other}
use xinu_c_mips.Sched.Resched.{made_ready, ready-made, resched-Safe, firstkey-first}
use xinu_c_mips.Message.{wakeup, wakeup_loop}
use xinu_c_mips.Message.Sleep.{Sorted-on}
use xinu_c_mips.Invariant.{Consistent, ready_q, sleep_q}
use xinu_c_mips.Invariant.Placing.{Loose-leave}

-- Less time before a list is due.
pub DueBelow-shift :
    (t : Table) (d d' : ℕ) (xs : List ℕ) → d' ≤ d → DueBelow (due t d xs) → DueBelow (due t d' xs)
DueBelow-shift t d d' [] h b = tt
DueBelow-shift t d d' (x ∷ xs) h b =
    (omega (arith, b.0), DueBelow-shift t (d + delay t x) (d' + delay t x) xs (omega arith) b.1)

-- What is left of the sleeping processes after `s` ticks, and when they are due then.
abbrev pub later : ℕ → List (ℕ × ℕ) → List (ℕ × ℕ)
later s [] = []
later s ((x, d) ∷ ds) = if leb d s then later s ds else (x, d - s) ∷ later s ds

pub later-due : (t : Table) (d : ℕ) (xs : List ℕ) → 0 < d → later 0 (due t d xs) ≡ due t d xs
later-due t d [] h = refl
later-due t d (x ∷ xs) h =
    let more : leb (d + delay t x) 0 ≡ false = ground arith in
    let same : d + delay t x - 0 ≡ d + delay t x = omega arith in
    rw (more, later-due t (d + delay t x) xs (omega arith))
      (ap (λ n. (x, n) ∷ due t (d + delay t x) xs) same)

pub later-positive :
    (t : Table) (x : ℕ) (xs : List ℕ)
    → 0 < delay t x
    → later 0 (due t 0 (x ∷ xs)) ≡ due t 0 (x ∷ xs)
later-positive t x xs h =
    let more : leb (0 + delay t x) 0 ≡ false = ground arith in
    let same : 0 + delay t x - 0 ≡ 0 + delay t x = omega arith in
    rw (more, later-due t (0 + delay t x) xs (omega arith))
      (ap (λ n. (x, n) ∷ due t (0 + delay t x) xs) same)

later-now :
    (t : Table) (x : ℕ) (xs : List ℕ)
    → delay t x ≡ 0
    → later 0 (due t 0 (x ∷ xs)) ≡ later 0 (due t 0 xs)
later-now t x xs h = ap (λ d. later 0 ((x, 0 + d) ∷ due t (0 + d) xs)) h

-- Of the sleeping processes `xs` those that are not on the sleep queue any more are ready, the others are
-- due as `ds` says, and no other process changes.
abbrev pub Rose : Kernel → List ℕ → List (ℕ × ℕ) → Kernel → Type 0
Rose k xs ds k' =
    (l' : ℕ → List ℕ) × Consistent k' l'
    × (due k'.queuetab 0 (l' sleep_q) ≡ ds)
    × ((i : ℕ)
        → has i xs ≡ true
        → (has i (l' sleep_q) ≡ true) ⊎ ((k'.proctab i).prstate ≡ pr_ready))
    × ((i : ℕ) → has i xs ≡ false → k'.proctab i ≡ k.proctab i)

-- The first sleeping process wakes, in a table `t` whose keys are those of the consistent state
-- but for its own.
module _ (k : Kernel) (l : ℕ → List ℕ) (inv : Consistent k l) (t : Table) (v : Queues t l) (x : ℕ)
    (xs : List ℕ) (e : l sleep_q ≡ x ∷ xs)
    (same : (i : ℕ) → i ≢ x → (t i).qkey ≡ (k.queuetab i).qkey) where
  pub wake_head :
      (k' : Kernel) × (l' : ℕ → List ℕ) × ((next : Cmd (Unit {0}))
        → and_then
            (dequeue (pos sleep_q) (record k { queuetab = t }))
            (λ pid. ready pid false >> next)
          ≡ next k')
      × Consistent k' l'
      × (l' sleep_q ≡ xs)
      × ((i : ℕ) → i ≢ x → (k'.queuetab i).qkey ≡ (k.queuetab i).qkey)
      × ((k'.proctab x).prstate ≡ pr_ready)
      × ((i : ℕ) → i ≢ x → k'.proctab i ≡ k.proctab i)
  wake_head =
      let q = sleep_q in
      let out = dequeue-Front (record k { queuetab = t }) l v q (omega arith) (x ∷ xs) e in
      let old = rw e at (inv.placed.queues.each q (omega arith)) in
      let times = rw e at (inv.placed.delays) in
      let at_q : update l q xs q ≡ xs = update_same l q xs in
      let here : has x (l q) ≡ true = ap (has x) e ∙ ground (arith, eq→== x x refl) in
      let live : (k.proctab x).prstate ≢ pr_free =
        λ h. ground (arith, here, h, inv.placed.member x q old.pids.0 (omega arith)) in
      let not_ready : has x (l ready_q) ≡ false =
        ground (arith, here, inv.placed.queues.apart ready_q q x (omega arith) (omega arith)) in
      let rest : Timed out.0 xs =
        Timed-same k.queuetab out.0 xs (λ i h. out.4 i ∙ same i (ne_of_has i x xs h old.distinct.0))
          (
            times.0.2,
            DueBelow-shift k.queuetab (0 + delay k.queuetab x) 0 xs (omega arith) times.1.1,
          ) in
      let made =
        ready-made (record k { queuetab = out.0 }) (update l q xs)
          (Counted-other k.semtab l q xs (omega arith) inv.counted) inv.running x old.pids.0
          (Loose-leave inv.placed out.0 q [] x xs e out.3 old.distinct.0 out.2
            (subst (Sorted out.0) (sym (update_other l q xs ready_q (omega arith))) (
              Sorted-on k.queuetab out.0 (l ready_q)
                (λ i h. out.4 i ∙ same i (ne_of_has i x (l ready_q) h not_ready))
                inv.placed.sorted))
            (subst (Timed out.0) (sym at_q) rest))
          live false in
      (
        made_ready (record k { queuetab = out.0 }) x made.0,
        made.1,
        λ next. rw out.1 (ap (λ (r : Run ℤ). and_then r (λ _. next)) made.2),
        made.3,
        made.4 q (omega arith) ∙ at_q,
        λ i n. made.5 i n ∙ (out.4 i ∙ same i n),
        ap (λ p. p.prstate) (update_same k.proctab x _),
        λ i n. update_other k.proctab x _ i n,
      )

pub nonempty-is_nil :
    (k : Kernel) (l : ℕ → List ℕ)
    → Queues k.queuetab l
    → (q : ℕ) → IsQid q
    → nonempty (pos q) k ≡ done (not (is_nil (l q))) k
unfolding nonempty
nonempty-is_nil k l v q iq =
    rw (firstid-first k l v q iq)
      (ap (λ b. done (not b) k) (leb-first q (l q) iq.0 (v.each q iq).pids))

-- The first of the processes has been woken, and more may have been.
pub wake_more :
    (k : Kernel) (l : ℕ → List ℕ)
    → Consistent k l
    → (x : ℕ) (xs : List ℕ) → l sleep_q ≡ x ∷ xs
    → (k1 k' : Kernel) → ((i : ℕ) → i ≢ x → (k1.queuetab i).qkey ≡ (k.queuetab i).qkey)
    → (k1.proctab x).prstate ≡ pr_ready
    → ((i : ℕ) → i ≢ x → k1.proctab i ≡ k.proctab i)
    → Rose k1 xs (later 0 (due k1.queuetab 0 xs)) k'
    → Rose k (x ∷ xs) (later 0 (due k.queuetab 0 xs)) k'
wake_more k l inv x xs e k1 k' keys rises stay (l', inv', left, awake, others) =
    let old = rw e at (inv.placed.queues.each sleep_q (omega arith)) in
    (
      l',
      inv',
      left
          ∙ ap (later 0) (
              due-same k.queuetab k1.queuetab 0 xs
                (λ i h. keys i (ne_of_has i x xs h old.distinct.0))),
      λ i h. elim (Bool-cases (i == x)) [
        | inl at ↦
            let is : i ≡ x = ==→eq i x at in
            inr (
              ap (λ j. (k'.proctab j).prstate) is
              ∙ (ap (λ p. p.prstate) (others x old.distinct.0) ∙ rises))
        | inr n ↦ awake i (ground arith)
      ],
      λ i h. others i (ground arith) ∙ stay i (ground arith),
    )

pub wakeup_loop-Consistent :
    (fuel : ℕ) (k : Kernel) (l : ℕ → List ℕ) (xs : List ℕ)
    → Consistent k l
    → l sleep_q ≡ xs
    → length xs < fuel
    → (k' : Kernel) × (wakeup_loop fuel k ≡ done tt k')
      × Rose k xs (later 0 (due k.queuetab 0 xs)) k'
unfolding wakeup_loop
wakeup_loop-Consistent zero k l xs inv e h = absurd (omega arith)
wakeup_loop-Consistent (suc fuel) k l [] inv e h =
    let some_sleep : nonempty k.sleepq k ≡ done false k =
      ap (λ (z : ℤ). nonempty z k) inv.running.sleep_id
      ∙ nonempty-is_nil k l inv.placed.queues sleep_q (omega arith)
      ∙ ap (λ (zs : List ℕ). done (not (is_nil zs)) k) e in
    (
      k,
      rw some_sleep refl,
      (l, inv, ap (due k.queuetab 0) e, λ i h. absurd (ground arith), λ i h. refl),
    )
wakeup_loop-Consistent (suc fuel) k l (x ∷ xs) inv e h =
    let some_sleep : nonempty k.sleepq k ≡ done true k =
      ap (λ (z : ℤ). nonempty z k) inv.running.sleep_id
      ∙ nonempty-is_nil k l inv.placed.queues sleep_q (omega arith)
      ∙ ap (λ (zs : List ℕ). done (not (is_nil zs)) k) e in
    let key : firstkey k.sleepq k ≡ done (k.queuetab x).qkey k =
      ap (λ (z : ℤ). firstkey z k) inv.running.sleep_id
      ∙ firstkey-first k l inv.placed.queues sleep_q (omega arith)
      ∙ ap (λ (zs : List ℕ). done (k.queuetab (first zs (sleep_q + 1))).qkey k) e in
    let times = rw e at (inv.placed.delays) in
    elim (Bool-cases (leb_ℤ (k.queuetab x).qkey (pos 0))) [
      | inl now ↦
          let none_left : delay k.queuetab x ≡ 0 =
            ground (arith, ap (λ z. leb_ℤ z (pos 0)) (sym times.0.0) ∙ now) in
          let out = wake_head k l inv k.queuetab inv.placed.queues x xs e (λ i n. refl) in
          let rest = wakeup_loop-Consistent fuel out.0 out.1 xs out.3 out.4 (omega arith) in
          (
            rest.0,
            rw (some_sleep, key, now)
                (ap (λ (z : ℤ). and_then (dequeue z k) (λ pid. ready pid false >> wakeup_loop fuel))
                    inv.running.sleep_id
                  ∙ out.2 (wakeup_loop fuel)
                  ∙ rest.1),
            subst (λ ds. Rose k (x ∷ xs) ds rest.0) (sym (later-now k.queuetab x xs none_left))
                (wake_more k l inv x xs e out.0 rest.0 out.5 out.6 out.7 rest.2),
          )
      | inr positive ↦ (
        k,
        rw (some_sleep, key, positive) refl,
        (
          l,
          inv,
          ap (due k.queuetab 0) e
              ∙ sym (
                  later-positive k.queuetab x xs
                    (ground (arith, ap (λ z. leb_ℤ z (pos 0)) (sym times.0.0) ∙ positive))),
          λ i h. inl (ap (has i) e ∙ h),
          λ i h. refl,
        ),
      )
    ]

-- `wakeup` keeps the tables consistent and never faults, and its loop ends: the processes whose
-- delay has run out become ready, and the caller may lose the processor.
pub wakeup-Safe :
    (k : Kernel) (l : ℕ → List ℕ) → Consistent k l → Safe Steady (λ _. Steady) (wakeup k)
unfolding wakeup
wakeup-Safe k l inv =
    let old = inv.placed.queues.each sleep_q (omega arith) in
    let out =
      wakeup_loop-Consistent nqent k l (l sleep_q) inv refl
        (omega (arith, length-le_of_Below nproc (l sleep_q) old.pids old.distinct)) in
    rw out.1 (resched-Safe out.0 out.2.0 out.2.1)
