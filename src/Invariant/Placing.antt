-- ===== src/Invariant/Placing.antt =====
-- `Placed` after a process changes its state and enters a queue, leaves one, or does neither.
use xinu_c_mips.Base.{
  ℕ, ◌<◌, ◌≡◌, refl, sym, ◌∙◌, ap, ◌⊎◌, inl, inr, Bool-cases, false, ◌==◌, ==→eq, List, ◌∷◌, ◌++◌,
  has, update, arith, ◌<ℤ◌, eq→==,
}
use xinu_c_mips.Kernel.{Procent, nproc, nsem, minkey, pr_curr, pr_ready, pr_wait}
use xinu_c_mips.Queue.Chain.{Table}
use xinu_c_mips.Queue.Table.{IsQid, Queues, IsOff}
use xinu_c_mips.Queue.Insert.{Sorted}
use xinu_c_mips.Queue.Timed.{Timed}
use xinu_c_mips.Invariant.{Placed, Loose, on, ready_q, sleep_q}
use xinu_c_mips.Invariant.Moves.{has-enter, has-leave}

-- What the new entry of a process must meet wherever it goes.
pub record Fit (pid : ℕ) (p' : Procent) : Type 0 where
  pub sem : p'.prstate ≡ pr_wait → p'.prsem < nsem
  pub prio : minkey <ℤ p'.prprio
  pub null : pid ≡ 0 → (p'.prstate ≡ pr_curr) ⊎ (p'.prstate ≡ pr_ready)

module _ {t : Table} {p : ℕ → Procent} {l : ℕ → List ℕ} (v : Placed t p l) where
  -- A process whose state belongs to no queue is on none.
  pub IsOff-of : (pid : ℕ) → pid < nproc → ((r : ℕ) → IsQid r → on (p pid) r ≡ false) → IsOff l pid
  IsOff-of pid h place r ir = v.member pid r h ir ∙ place r ir

  pub loosen : (pid : ℕ) → IsOff l pid → Loose t p l pid
  loosen pid off = record {
    queues = v.queues;
    others = λ i q h n iq. v.member i q h iq;
    off = off;
    waits = v.waits;
    sorted = v.sorted;
    delays = v.delays;
    prios = v.prios;
    idle = v.idle;
  }

  -- A process leaves its queue.
  pub Loose-leave :
      (t' : Table) (q : ℕ) (xs : List ℕ) (pid : ℕ) (ys : List ℕ)
      → let l' = update l q (xs ++ ys) in
        l q ≡ xs ++ pid ∷ ys
        → IsOff l' pid
        → has pid (xs ++ ys) ≡ false
        → Queues t' l'
        → Sorted t' (l' ready_q)
        → Timed t' (l' sleep_q)
        → Loose t' p l' pid
  Loose-leave t' q xs pid ys e off out qs order times = record {
    queues = qs;
    others = λ i r h n ir. has-leave l q xs pid ys i r e out ∙ ground (arith, v.member i r h ir);
    off = off;
    waits = v.waits;
    sorted = order;
    delays = times;
    prios = v.prios;
    idle = v.idle;
  }

-- A process gets a new entry and arrives.
pub Placed-update :
    {t : Table} {p : ℕ → Procent} {l : ℕ → List ℕ} {pid : ℕ} (v : Loose t p l pid) (t' : Table)
    (l' : ℕ → List ℕ) (p' : Procent)
    → Fit pid p'
    → Queues t' l'
    → Sorted t' (l' ready_q)
    → Timed t' (l' sleep_q)
    → ((r : ℕ) → IsQid r → has pid (l' r) ≡ on p' r)
    → ((i r : ℕ) → (i == pid) ≡ false → IsQid r → has i (l' r) ≡ has i (l r))
    → Placed t' (update p pid p') l'
unfolding update
Placed-update {pid} v t' l' p' fit qs order times here others = record {
  queues = qs;
  member = λ i q h iq. elim (Bool-cases (i == pid)) [
    | inl e ↦ rw e (ap (λ (n : ℕ). has n (l' q)) (==→eq i pid e) ∙ here q iq)
    | inr n ↦ rw n (others i q n iq ∙ v.others i q h n iq)
  ];
  waits = λ i h. ground (arith, fit.sem, v.waits i h);
  sorted = order;
  delays = times;
  prios =
      λ i h. elim (Bool-cases (i == pid)) [ inl e ↦ rw e fit.prio | inr n ↦ rw n (v.prios i h) ];
  idle = elim (Bool-cases (0 == pid)) [
    | inl e ↦ rw e (fit.null (sym (==→eq 0 pid e)))
    | inr n ↦ rw n v.idle
  ];
}

module _ {t : Table} {p : ℕ → Procent} {l : ℕ → List ℕ} {pid : ℕ} (v : Loose t p l pid)
    (p' : Procent) (fit : Fit pid p') where
  -- The process enters queue `q`.
  pub Placed-enter :
      (t' : Table) (q : ℕ) (xs ys : List ℕ)
      → let l' = update l q (xs ++ pid ∷ ys) in
        l q ≡ xs ++ ys
        → ((r : ℕ) → IsQid r → on p' r ≡ (r == q))
        → Queues t' l'
        → Sorted t' (l' ready_q)
        → Timed t' (l' sleep_q)
        → Placed t' (update p pid p') l'
  Placed-enter t' q xs ys e place qs order times =
      Placed-update v t' _ p' fit qs order times
        (λ r ir.
          has-enter l q xs pid ys pid r e
          ∙ ground (arith, v.off r ir, place r ir, eq→== pid pid refl))
        (λ i r n ir. has-enter l q xs pid ys i r e ∙ ground arith)

  -- The process stays off the queues.
  pub Placed-off : ((r : ℕ) → IsQid r → on p' r ≡ false) → Placed t (update p pid p') l
  Placed-off place =
      Placed-update v t l p' fit v.queues v.sorted v.delays (λ r ir. v.off r ir ∙ sym (place r ir))
        (λ i r n ir. refl)
