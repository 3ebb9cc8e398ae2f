-- ===== src/Semaphore/Signal.antt =====
-- `signal` keeps the kernel's tables consistent: a waiting process leaves the queue and is ready.
use xinu_c_mips.Base.{
  if◌then◌else◌, Bool, ℕ, ◌+◌, ◌<◌, ◌^◌, ◌≡◌, ◌≢◌, refl, sym, ◌∙◌, ap, subst, true, false, List, [],
  ◌∷◌, has, length, ℤ, pos, pos_part, neg_part, ◌+ℤ◌, ltb_ℤ, update, eq→==, update_other,
  update_same, arith, Bool-cases, inl, inr,
}
use xinu_c_mips.Kernel.{
  ok, Run, Kernel, pure, and_then, ◌>>◌, nsem, pr_free, pr_ready, is_s_free, isbadsem, isbadsem-pos,
  sem_at-pos, update_sem-pos, Safe, Safe-bind, ends,
}
use xinu_c_mips.Queue.{dequeue}
use xinu_c_mips.Queue.Fifo.{dequeue-Front}
use xinu_c_mips.Sched.{ready, resched}
use xinu_c_mips.Sched.Dispatch.{Steady, Sorted-other, Timed-other}
use xinu_c_mips.Sched.Resched.{made_ready, ready-made, resched-Safe}
use xinu_c_mips.Semaphore.{signal}
use xinu_c_mips.Semaphore.Wait.{waiting-le}
use xinu_c_mips.Semaphore.Counts.{inc, inc-eq, inc-neg, inc-pos, inc-bound, sem-of, Counted-set}
use xinu_c_mips.Invariant.{Consistent, ready_q, sleep_q, sem_q}
use xinu_c_mips.Invariant.Placing.{Loose-leave}

-- Between two states the first process of queue `q` has left it for the ready list.
pub record Woken (k k' : Kernel) (l l' : ℕ → List ℕ) (q : ℕ) : Type 0 where
  pub head : ℕ
  pub rest : List ℕ
  pub waited : l q ≡ head ∷ rest
  pub left : l' q ≡ rest
  pub is_ready : (k'.proctab head).prstate ≡ pr_ready
  pub processes : (i : ℕ) → i ≢ head → k'.proctab i ≡ k.proctab i
  pub queues : (r : ℕ) → r ≢ q → r ≢ ready_q → l' r ≡ l r

module _ (k : Kernel) (l : ℕ → List ℕ) (inv : Consistent k l) (j : ℕ) (hj : j < nsem)
    (room : pos_part (k.semtab j).scount + 1 < 2 ^ 31) where
  abbrev pub raised : Kernel
  raised = record k {
    semtab = update k.semtab j (record (k.semtab j) { scount = inc (k.semtab j).scount });
  }

  pub inc-here : inc (k.semtab j).scount ≡ (k.semtab j).scount +ℤ pos 1
  inc-here =
      inc-eq (k.semtab j).scount
        (omega (
          arith,
          inv.counted.counts j hj,
          waiting-le k.queuetab l (sem_q j) inv.placed.queues (omega arith),
        ))
        room

  -- The first waiting process wakes, with or without rescheduling.
  pub wake_first :
      (resch : Bool) (xs : List ℕ)
      → l (sem_q j) ≡ xs
      → ltb_ℤ (k.semtab j).scount (pos 0) ≡ true
      → (k' : Kernel) × (l' : ℕ → List ℕ) × (and_then
            (dequeue (pos (sem_q j)) raised)
            (λ pid. ready pid resch >> pure tt)
          ≡ (((if resch then resched else pure tt) >> pure ok) >> pure tt) k')
        × Consistent k' l'
        × ((i : ℕ) → k'.semtab i ≡ raised.semtab i)
        × Woken k k' l l' (sem_q j)
  unfolding update
  wake_first resch [] e low = absurd (
      omega (
        arith,
        inc-neg (k.semtab j).scount low,
        inv.counted.counts j hj,
        ap (λ (ys : List ℕ). length ys) e,
      ))
  wake_first resch (x ∷ xs) e low =
      let q = sem_q j in
      let out = dequeue-Front raised l inv.placed.queues q (omega arith) (x ∷ xs) e in
      let old = rw e at (inv.placed.queues.each q (omega arith)) in
      let here : has x (l q) ≡ true = ap (has x) e ∙ ground (arith, eq→== x x refl) in
      let live : (k.proctab x).prstate ≢ pr_free =
        λ h. ground (arith, here, h, inv.placed.member x q old.pids.0 (omega arith)) in
      let made =
        ready-made (record raised { queuetab = out.0 }) (update l q xs)
          (Counted-set k.semtab l (update l q xs) j (inc (k.semtab j).scount) inv.counted
            (omega (
              arith,
              ap neg_part inc-here,
              inc-neg (k.semtab j).scount low,
              inv.counted.counts j hj,
              ap (λ (ys : List ℕ). length ys) e,
              ap (λ (ys : List ℕ). length ys) (update_same l q xs),
            ))
            (omega (arith, ap pos_part inc-here, inc-bound (k.semtab j).scount room))
            (λ i h n. update_other l q _ (sem_q i) (omega arith)))
          inv.running x old.pids.0
          (Loose-leave inv.placed out.0 q [] x xs e out.3 old.distinct.0 out.2
            (Sorted-other k.queuetab out.0 l q xs ready_q (omega arith) out.4 inv.placed.sorted)
            (Timed-other k.queuetab out.0 l q xs sleep_q (omega arith) out.4 inv.placed.delays))
          live resch in
      (
        made_ready (record raised { queuetab = out.0 }) x made.0,
        made.1,
        rw out.1 (ap (λ (r : Run ℤ). and_then r (λ _. pure tt)) made.2),
        made.3,
        λ i. refl,
        record {
          head = x;
          rest = xs;
          waited = e;
          left = made.4 q (omega arith) ∙ update_same l q xs;
          is_ready = ground (arith, eq→== x x refl);
          processes = λ i n. update_other k.proctab x _ i n;
          queues = λ r n m. made.4 r m ∙ update_other l q xs r n;
        },
      )

  pub none_wakes : ltb_ℤ (k.semtab j).scount (pos 0) ≡ false → Consistent raised l
  none_wakes high =
      let (none, was) = inc-pos (k.semtab j).scount high in
      record {
        placed = inv.placed;
        counted =
            Counted-set k.semtab l l j (inc (k.semtab j).scount) inv.counted
              (omega (arith, ap neg_part inc-here, none, was, inv.counted.counts j hj))
              (omega (arith, ap pos_part inc-here, inc-bound (k.semtab j).scount room))
              (λ i h n. refl);
        running = inv.running;
      }

  signal-used : Safe Steady (λ _. Steady) (signal (pos j) k)
  unfolding signal
  signal-used =
      rw (isbadsem-pos j hj, sem_at-pos j k hj)
        (elim (Bool-cases (is_s_free (k.semtab j).sstate)) [
          | inl f ↦ rw f (ends (l, inv))
          | inr u ↦
              rw (u, update_sem-pos j k _ hj)
                (elim (Bool-cases (ltb_ℤ (k.semtab j).scount (pos 0))) [
                  | inl low ↦ rw low (
                      rw (ap (λ (z : ℤ). dequeue z raised) (inv.counted.sem_id j hj)) (
                        let out = wake_first true (l (sem_q j)) refl low in
                        rw out.2 (
                          Safe-bind
                            (Safe-bind
                              (Safe-bind (resched-Safe out.0 out.1 out.3) (λ _ k' p. ends p))
                              (λ _ k' p. ends p))
                            (λ _ k' p. ends p))))
                  | inr high ↦ rw high (ends (l, none_wakes high))
                ])
        ])

-- `signal` on any id keeps the tables consistent and never faults: a bad or free semaphore is
-- refused, otherwise the count rises, and if a process waits the first one becomes ready, and the
-- caller may lose the processor to it. The count is below its greatest value.
pub signal-Safe :
    (sem : ℤ) (k : Kernel) (l : ℕ → List ℕ)
    → Consistent k l
    → ((j : ℕ) → j < nsem → pos_part (k.semtab j).scount + 1 < 2 ^ 31)
    → Safe Steady (λ _. Steady) (signal sem k)
unfolding signal
signal-Safe sem k l inv room = elim (Bool-cases (isbadsem sem)) [
  | inl bad ↦ rw bad (ends (l, inv))
  | inr good ↦
      let (j, e, h) = sem-of sem good in
      subst (λ (z : ℤ). Safe Steady (λ _. Steady) (signal z k)) (sym e)
        (signal-used k l inv j h (room j h))
]
