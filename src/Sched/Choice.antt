-- ===== src/Sched/Choice.antt =====
-- Which process `resched` runs: one whose key is the greatest.
use xinu_c_mips.Base.{
  ℕ, ◌+◌, ◌<◌, ◌≡◌, refl, sym, ◌∙◌, ap, inl, inr, Bool-cases, true, false, ◌==◌, List, [], ◌∷◌,
  ◌++◌, has, ℤ, pos, ◌≤ℤ◌, ◌<ℤ◌, update, update_same, arith, ltb_ℤ, eq→==,
}
use xinu_c_mips.Kernel.{
  Kernel, Run, done, switch, update_proc, update_proc-pos, proc_at-pos, nproc, pr_curr, pr_ready,
  and_then, ◌>>◌,
}
use xinu_c_mips.Queue.{insert, firstkey, dequeue}
use xinu_c_mips.Queue.Chain.{Table, first}
use xinu_c_mips.Queue.Fifo.{dequeue-Front}
use xinu_c_mips.Queue.Insert.{Sorted, above, below, insert-Sorted}
use xinu_c_mips.Sched.{dispatch, resched}
use xinu_c_mips.Sched.Dispatch.{dispatch-run}
use xinu_c_mips.Sched.Resched.{firstkey-first}
use xinu_c_mips.Invariant.{Consistent, ready_q}
use xinu_c_mips.Invariant.Placing.{IsOff-of}

-- No key of a sorted queue is above the first one's.
Sorted-head :
    (t : Table) (x : ℕ) (xs : List ℕ)
    → Sorted t (x ∷ xs)
    → (y : ℕ) → has y (x ∷ xs) ≡ true
    → (t y).qkey ≤ℤ (t x).qkey
Sorted-head t x [] s y h = ground (arith)
Sorted-head t x (z ∷ xs) s y h = elim (Bool-cases (y == x)) [
  | inl e ↦ ground arith
  | inr n ↦ ground (arith, Sorted-head t z xs s.1 y)
]

-- What `resched` does when a process runs and rescheduling is not deferred.
pub data Choice (k : Kernel) (l : ℕ → List ℕ) : Run (Unit {0}) → Type 0 where
  keeps :
      ((x : ℕ) → has x (l ready_q) ≡ true → (k.queuetab x).qkey <ℤ (k.proctab k.currpid).prprio)
      → Choice k l (done tt k)
  hands_over :
      {k' : Kernel} (x : ℕ)
      → has x (l ready_q) ≡ true
      → (k.proctab k.currpid).prprio ≤ℤ (k.queuetab x).qkey
      → ((y : ℕ) → has y (l ready_q) ≡ true → (k.queuetab y).qkey ≤ℤ (k.queuetab x).qkey)
      → k'.currpid ≡ x
      → (k'.proctab x).prstate ≡ pr_curr
      → Choice k l (switch k' (done tt))

module _ (k : Kernel) (l : ℕ → List ℕ) (inv : Consistent k l)
    (runs : (k.proctab k.currpid).prstate ≡ pr_curr) where
  keep-Choice :
      (xs : List ℕ)
      → l ready_q ≡ xs
      → ltb_ℤ (k.queuetab (first xs (ready_q + 1))).qkey (k.proctab k.currpid).prprio ≡ true
      → Choice k l (done tt k)
  keep-Choice [] e low = keeps (λ x h. absurd (ground (arith, ap (has x) e)))
  keep-Choice (y ∷ ys) e low = keeps (λ x h.
      ground (
        arith,
        Sorted-head k.queuetab y ys (rw e at (inv.placed.sorted)) x (ap (has x) (sym e) ∙ h),
      ))

  -- The caller enters the ready list, whose first process is another and stays the first.
  hand_over :
      (xs : List ℕ)
      → l ready_q ≡ xs
      → ltb_ℤ (k.queuetab (first xs (ready_q + 1))).qkey (k.proctab k.currpid).prprio ≡ false
      → Choice k l (
          and_then
            (update_proc (pos k.currpid) (λ p. record p { prstate = pr_ready }) k)
            (λ _. insert (pos k.currpid) k.readylist (k.proctab k.currpid).prprio >> dispatch))
  unfolding update
  hand_over [] e high = absurd (
      ground (
        arith,
        inv.placed.prios k.currpid inv.running.low,
        (inv.placed.queues.each ready_q (omega arith)).tail_key,
      ))
  hand_over (y ∷ ys) e high =
      let cur = k.currpid in
      let key = (k.proctab cur).prprio in
      let k1 = record k {
        proctab = update k.proctab cur (record (k.proctab cur) { prstate = pr_ready });
      } in
      let off = IsOff-of inv.placed cur inv.running.low (λ r ir. ground (arith, runs)) in
      let out =
        insert-Sorted k1 l inv.placed.queues ready_q (omega arith) cur key inv.running.low
          (ground arith) off (inv.placed.prios cur inv.running.low) in
      let front : above k.queuetab key (l ready_q) ++ cur ∷ below k.queuetab key (l ready_q)
          ≡ y ∷ (above k.queuetab key ys ++ cur ∷ below k.queuetab key ys) =
        rw e (ground arith) in
      let low : y < nproc = (rw e at (inv.placed.queues.each ready_q (omega arith))).pids.0 in
      let order = rw e at (inv.placed.sorted) in
      let next =
        dequeue-Front (record k1 { queuetab = out.0 }) _ out.2 ready_q (omega arith)
          (y ∷ (above k.queuetab key ys ++ cur ∷ below k.queuetab key ys))
          (update_same l ready_q _ ∙ front) in
      rw (update_proc-pos cur k (λ p. record p { prstate = pr_ready }) inv.running.low) (
        rw (ap (λ (z : ℤ). insert (pos cur) z key k1) inv.running.ready_id ∙ out.1) (
          rw
            (dispatch-run (record k1 { queuetab = out.0 }) y next.0 low
              (ap (λ (z : ℤ). dequeue z (record k1 { queuetab = out.0 })) inv.running.ready_id
                ∙ next.1))
            (hands_over y (ap (has y) e ∙ ground (arith, eq→== y y refl)) (ground arith)
              (λ z h. Sorted-head k.queuetab y ys order z (ap (has z) (sym e) ∙ h)) refl
              (rw (eq→== y y refl) refl))))

  -- `resched`, when a process runs and rescheduling is not deferred, leaves the processor with it if
  -- its priority is above the keys of all ready processes, and otherwise hands it to a ready
  -- process that no ready process exceeds and whose key is at least the priority of the old one:
  -- equals take turns.
  pub resched-Choice : ltb_ℤ (pos 0) k.ndefers ≡ false → Choice k l (resched k)
  unfolding resched
  resched-Choice now =
      let is_curr : ((k.proctab k.currpid).prstate == pr_curr) ≡ true = eq→== _ _ runs in
      let key : firstkey k.readylist k
          ≡ done (k.queuetab (first (l ready_q) (ready_q + 1))).qkey k =
        ap (λ (z : ℤ). firstkey z k) inv.running.ready_id
        ∙ firstkey-first k l inv.placed.queues ready_q (omega arith) in
      rw (now, proc_at-pos k.currpid k inv.running.low, is_curr, key)
        (elim (Bool-cases (
          ltb_ℤ (k.queuetab (first (l ready_q) (ready_q + 1))).qkey (k.proctab k.currpid).prprio)) [
            | inl low ↦ rw low (keep-Choice (l ready_q) refl low)
            | inr high ↦ rw high (hand_over (l ready_q) refl high)
          ])
