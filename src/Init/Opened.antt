-- ===== src/Init/Opened.antt =====
-- The queues that `newqueue` has made so far, all of them empty.
use xinu_c_mips.Base.{ℕ, ◌+◌, ◌%◌, ◌<◌, ◌≤◌, ◌≡◌, sym, subst, [], pos, update, arith, le→ltb}
use xinu_c_mips.Kernel.{
  Kernel, done, nproc, nqent, empty, minkey, maxkey, with_qnext, with_qprev, with_qkey,
  set_qnext-pos, set_qprev-pos, set_qkey-pos,
}
use xinu_c_mips.Queue.{newqueue}
use xinu_c_mips.Queue.Chain.{Table, Linked}
use xinu_c_mips.Queue.Table.{Queues}
use xinu_c_mips.Queue.Links.{queuetail-pos}
use xinu_c_mips.Invariant.{sem_q}

-- The writes of `newqueue`.
abbrev pub opened : Table → ℕ → Table
opened t q =
    with_qkey
      (with_qprev
        (with_qnext (with_qkey (with_qprev (with_qnext t q (pos (q + 1))) q empty) q maxkey) (q + 1)
          empty)
        (q + 1) (pos q))
      (q + 1) minkey

-- The queues below `n` are made, and empty.
abbrev pub Made : Table → ℕ → Type 0
Made t n =
    (q : ℕ) → nproc ≤ q → q < n → q % 2 ≡ 0 → Linked t q [] (q + 1) × ((t (q + 1)).qkey ≡ minkey)

pub newqueue-opened :
    (k : Kernel)
    → k.nextqid + 1 < nqent
    → newqueue k
      ≡ done
          (pos k.nextqid)
          (record k { nextqid = k.nextqid + 2; queuetab = opened k.queuetab k.nextqid })
unfolding newqueue
newqueue-opened k h = rw (
  le→ltb nqent k.nextqid (omega arith),
  queuetail-pos k.nextqid,
  set_qnext-pos k.nextqid _ (omega arith) _,
  set_qprev-pos k.nextqid _ (omega arith) _,
  set_qkey-pos k.nextqid _ (omega arith) _,
  set_qnext-pos (k.nextqid + 1) _ h _,
  set_qprev-pos (k.nextqid + 1) _ h _,
  set_qkey-pos (k.nextqid + 1) _ h _,
)

pub Made-opened : (t : Table) (q : ℕ) → q % 2 ≡ 0 → Made t q → Made (opened t q) (q + 2)
unfolding with_qnext with_qprev with_qkey update
Made-opened t q even m r h g e = ground (arith, m r h)

pub Made-next :
    (t : Table) (i q : ℕ) → q ≡ sem_q i → Made t (sem_q i) → Made (opened t q) (sem_q (i + 1))
Made-next t i q e m =
    subst (Made (opened t q)) (omega arith)
      (Made-opened t q (omega arith) (subst (Made t) (sym e) m))

pub Queues-of_Made : (t : Table) → Made t nqent → Queues t (λ _. [])
Queues-of_Made t m = record {
  each = λ q iq.
      let made = m q iq.0 (omega arith) iq.2 in
      record { linked = made.0; distinct = tt; pids = tt; tail_key = made.1 };
  apart = λ q r i iq ir h g. absurd (ground arith);
}
