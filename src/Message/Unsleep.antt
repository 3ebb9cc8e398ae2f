-- ===== src/Message/Unsleep.antt =====
-- `unsleep`: a process leaves the sleep queue, and the others are due when they were.
use xinu_c_mips.Base.{
  Bool, if◌then◌else◌, ℕ, ◌+◌, ◌<◌, ◌≡◌, ◌≢◌, refl, sym, ◌∙◌, ap, subst, true, false, not, ◌||◌,
  ◌&&◌, Bool-cases, inl, inr, List, [], ◌∷◌, ◌++◌, has, has-append, Distinct, ℤ, pos, ltb_ℤ, ◌==◌,
  ◌+ℤ◌, wrap32, update, update_same, update_other, arith, eq→==,
}
use xinu_c_mips.Kernel.{
  Kernel, Procent, done, pure, and_then, ◌>>=◌, ◌>>◌, queue_at, set_qkey, ok, nproc, pr_sleep,
  pr_rectim, with_qkey, isbadpid-pos, proc_at-pos, queue_at-pos, set_qkey-pos,
}
use xinu_c_mips.Queue.{getitem}
use xinu_c_mips.Queue.Chain.{Table, first, qnext-mid}
use xinu_c_mips.Queue.Table.{Pids, not-has_ge}
use xinu_c_mips.Queue.Fifo.{getitem-remove}
use xinu_c_mips.Queue.Frame.{Queues-keys}
use xinu_c_mips.Queue.Insert.{Sorted}
use xinu_c_mips.Queue.Due.{delay, due, delay-of}
use xinu_c_mips.Queue.Timed.{DueBelow, Timed}
use xinu_c_mips.Queue.Removal.{
  without, Closed, due-without, without-DueBelow, delays-small, wrap32-add, Distinct-apart,
  Distinct-suffix, Delays-without,
}
use xinu_c_mips.Message.{unsleep}
use xinu_c_mips.Message.Sleep.{Sorted-on}
use xinu_c_mips.Process.Suspend.{has-split}
use xinu_c_mips.Invariant.{Loose, Consistent, ready_q, sleep_q}
use xinu_c_mips.Invariant.Placing.{Loose-leave}

-- The table after the delay of `pid` is passed on to the first of the processes behind it.
abbrev passed_on : Table → ℕ → List ℕ → Table
passed_on t pid [] = t
passed_on t pid (y ∷ ys) = with_qkey t y (wrap32 ((t y).qkey +ℤ (t pid).qkey))

passed_on-qnext :
    (t : Table) (pid : ℕ) (ys : List ℕ) (i : ℕ) → (passed_on t pid ys i).qnext ≡ (t i).qnext
unfolding with_qkey update
passed_on-qnext t pid [] i = refl
passed_on-qnext t pid (y ∷ ys) i = ground arith

passed_on-qprev :
    (t : Table) (pid : ℕ) (ys : List ℕ) (i : ℕ) → (passed_on t pid ys i).qprev ≡ (t i).qprev
unfolding with_qkey update
passed_on-qprev t pid [] i = refl
passed_on-qprev t pid (y ∷ ys) i = ground arith

-- Only the key of a process behind `pid` changes.
passed_on-other :
    (t : Table) (pid : ℕ) (ys : List ℕ) (i : ℕ)
    → has i ys ≡ false
    → (passed_on t pid ys i).qkey ≡ (t i).qkey
unfolding with_qkey update
passed_on-other t pid [] i h = refl
passed_on-other t pid (y ∷ ys) i h = ground arith

passed_on-Closed :
    (t : Table) (xs : List ℕ) (pid : ℕ) (ys : List ℕ)
    → Timed t (xs ++ pid ∷ ys)
    → Distinct (xs ++ pid ∷ ys)
    → Closed t (passed_on t pid ys) pid ys
unfolding with_qkey update
passed_on-Closed t xs pid [] s d = tt
passed_on-Closed t xs pid (y ∷ ys) s d =
    let all = xs ++ pid ∷ y ∷ ys in
    let dp = delay-of t pid all s.0 (ground (arith, has-append pid xs (pid ∷ y ∷ ys))) in
    let dy = delay-of t y all s.0 (ground (arith, has-append y xs (pid ∷ y ∷ ys))) in
    let sum = wrap32-add (delay t y) (delay t pid) (delays-small t 0 xs pid y ys s.1) in
    let value : (passed_on t pid (y ∷ ys) y).qkey ≡ wrap32 ((t y).qkey +ℤ (t pid).qkey) =
      rw (eq→== y y refl) refl in
    let apart = (Distinct-suffix xs (pid ∷ y ∷ ys) d).1.0 in
    (
      value
          ∙ ap (λ (z : ℤ). wrap32 (z +ℤ (t pid).qkey)) dy.0
          ∙ ap (λ (z : ℤ). wrap32 (pos (delay t y) +ℤ z)) dp.0
          ∙ sum,
      λ i h. ground (arith, apart),
    )

Closed-same :
    (t t1 t' : Table) (pid : ℕ) (ys : List ℕ)
    → ((i : ℕ) → (t' i).qkey ≡ (t1 i).qkey)
    → Closed t t1 pid ys
    → Closed t t' pid ys
Closed-same t t1 t' pid [] same c = tt
Closed-same t t1 t' pid (y ∷ ys) same c = (same y ∙ c.0, λ i h. same i ∙ c.1 i h)

Below-back : (xs : List ℕ) (x : ℕ) (ys : List ℕ) → Pids (xs ++ x ∷ ys) → Pids ys
Below-back [] x ys p = p.1
Below-back (z ∷ xs) x ys p = Below-back xs x ys p.1

-- The part of `unsleep` behind its tests.
pass_on-run :
    (k : Kernel) (pid : ℕ) (t' : Table) (ys : List ℕ)
    → Pids ys
    → getitem (pos pid) (record k { queuetab = passed_on k.queuetab pid ys })
      ≡ done (pos pid) (record k { queuetab = t' })
    → and_then
        ((if ltb_ℤ (pos (first ys (sleep_q + 1))) (pos nproc)
            then (queue_at (pos (first ys (sleep_q + 1))) >>= λ n.
                set_qkey (pos (first ys (sleep_q + 1))) (wrap32 (n.qkey +ℤ (k.queuetab pid).qkey)))
            else pure tt)
          k)
        (λ _. getitem (pos pid) >> pure ok)
      ≡ done ok (record k { queuetab = t' })
pass_on-run k pid t' [] p run = rw run refl
pass_on-run k pid t' (y ∷ ys) p run =
    let is_pid : ltb_ℤ (pos y) (pos nproc) ≡ true = ground (arith, p.0) in
    rw (is_pid, queue_at-pos y k (omega (arith, p.0)), set_qkey-pos y k (omega (arith, p.0)) _, run)
      refl

abbrev pub sleeps : Procent → Bool
sleeps p = (p.prstate == pr_sleep) || (p.prstate == pr_rectim)

module _ (k : Kernel) (l : ℕ → List ℕ) (inv : Consistent k l) (pid : ℕ) (low : pid < nproc)
    (asleep : sleeps (k.proctab pid) ≡ true) (xs ys : List ℕ) (e : l sleep_q ≡ xs ++ pid ∷ ys) where
  unsleep-run :
      (t' : Table)
      → getitem (pos pid) (record k { queuetab = passed_on k.queuetab pid ys })
        ≡ done (pos pid) (record k { queuetab = t' })
      → unsleep (pos pid) k ≡ done ok (record k { queuetab = t' })
  unfolding unsleep
  unsleep-run t' run =
      let old = rw e at (inv.placed.queues.each sleep_q (omega arith)) in
      let tests : (not ((k.proctab pid).prstate == pr_sleep)
            && not ((k.proctab pid).prstate == pr_rectim))
          ≡ false =
        ground (arith, asleep) in
      let next = qnext-mid k.queuetab sleep_q xs pid ys (sleep_q + 1) old.linked in
      rw
        (
          isbadpid-pos k pid low (ground (arith, asleep)),
          proc_at-pos pid k low,
          tests,
          queue_at-pos pid k (omega arith),
          next,
        )
        (pass_on-run k pid t' ys (Below-back xs pid ys old.pids) run)

  behind_only : (i : ℕ) → has i xs ≡ true → has i ys ≡ false
  behind_only i h =
      let old = rw e at (inv.placed.queues.each sleep_q (omega arith)) in
      elim (Bool-cases (has i ys)) [
        | inl g ↦ absurd (Distinct-apart xs (pid ∷ ys) i i old.distinct h (ground arith) refl)
        | inr g ↦ g
      ]

  not_ready : (i : ℕ) → has i (l ready_q) ≡ true → has i ys ≡ false
  not_ready i h = ground (
    arith,
    ap (has i) e,
    has-append i xs (pid ∷ ys),
    inv.placed.queues.apart ready_q sleep_q i (omega arith) (omega arith) h,
  )

  -- The queues, the delays and the times after the process has left.
  pub unsleep-Loose :
      let l' = update l sleep_q (xs ++ ys) in
      (t' : Table) × (unsleep (pos pid) k ≡ done ok (record k { queuetab = t' }))
      × Loose t' k.proctab l' pid
      × (due t' 0 (l' sleep_q) ≡ without pid (due k.queuetab 0 (l sleep_q)))
  unsleep-Loose =
      let t = k.queuetab in
      let q = sleep_q in
      let t1 = passed_on t pid ys in
      let old = rw e at (inv.placed.queues.each q (omega arith)) in
      let times = rw e at (inv.placed.delays) in
      let v1 =
        Queues-keys t t1 l inv.placed.queues (passed_on-qnext t pid ys) (passed_on-qprev t pid ys)
          (λ i h. passed_on-other t pid ys i (not-has_ge i ys (Below-back xs pid ys old.pids) h)) in
      let out = getitem-remove (record k { queuetab = t1 }) l v1 q (omega arith) xs pid ys e in
      let closed1 = passed_on-Closed t xs pid ys times old.distinct in
      let closed = Closed-same t t1 out.0 pid ys out.4 closed1 in
      let front =
        λ (i : ℕ) (h : has i xs ≡ true). out.4 i ∙ passed_on-other t pid ys i (behind_only i h) in
      let is = due-without t out.0 pid 0 xs ys front closed old.distinct in
      let at_q : update l q (xs ++ ys) q ≡ xs ++ ys = update_same l q (xs ++ ys) in
      (
        out.0,
        unsleep-run out.0 out.1,
        Loose-leave inv.placed out.0 q xs pid ys e out.3
            (ap (has pid) (sym at_q) ∙ out.3 q (omega arith)) out.2
            (subst (Sorted out.0) (sym (update_other l q (xs ++ ys) ready_q (omega arith))) (
              Sorted-on t out.0 (l ready_q)
                (λ i h. out.4 i ∙ passed_on-other t pid ys i (not_ready i h)) inv.placed.sorted))
            (subst (Timed out.0) (sym at_q) (
              Delays-without t out.0 pid xs ys times front closed,
              subst DueBelow (sym is) (without-DueBelow pid (due t 0 (xs ++ pid ∷ ys)) times.1),
            )),
        ap (due out.0 0) at_q ∙ is ∙ ap (λ (zs : List ℕ). without pid (due t 0 zs)) (sym e),
      )

-- `unsleep` takes a sleeping process off the sleep queue, wherever it stands there: the times at
-- which the other processes are due stay as they are, and so do the other queues. The process is
-- then on no queue, though its state still says that it sleeps.
pub unsleep-due :
    (k : Kernel) (l : ℕ → List ℕ) (pid : ℕ)
    → Consistent k l
    → pid < nproc
    → sleeps (k.proctab pid) ≡ true
    → (t' : Table) × (l' : ℕ → List ℕ) × (unsleep (pos pid) k
        ≡ done ok (record k { queuetab = t' }))
      × Loose t' k.proctab l' pid
      × (due t' 0 (l' sleep_q) ≡ without pid (due k.queuetab 0 (l sleep_q)))
      × ((r : ℕ) → r ≢ sleep_q → l' r ≡ l r)
unsleep-due k l pid inv low asleep =
    let (xs, ys, e) =
      has-split pid (l sleep_q)
        (inv.placed.member pid sleep_q low (omega arith) ∙ ground (arith, asleep)) in
    let out = unsleep-Loose k l inv pid low asleep xs ys e in
    (
      out.0,
      update l sleep_q (xs ++ ys),
      out.1,
      out.2,
      out.3,
      λ r h. update_other l sleep_q (xs ++ ys) r h,
    )
