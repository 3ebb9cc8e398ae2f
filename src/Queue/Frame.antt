-- ===== src/Queue/Frame.antt =====
-- Writes to `queuetab` that leave the links of the queues alone.
use xinu_c_mips.Base.{ℕ, ◌+◌, ◌<◌, ◌≡◌, ◌≢◌, ◌∙◌, ap, List, [], ◌∷◌, ◌++◌, arith}
use xinu_c_mips.Kernel.{Qentry, nproc}
use xinu_c_mips.Queue.Chain.{Table, nodes, Linked-frame, ne_of_has, has-init}
use xinu_c_mips.Queue.Table.{Queues, IsOff, off-nodes}
use xinu_c_mips.Queue.Splice.{has-cons, SameEndKeys}

-- Writes to the entry of a process that is on no queue.
pub Queues-frame :
    (t t' : Table) (l : ℕ → List ℕ) (pid : ℕ)
    → Queues t l
    → pid < nproc
    → IsOff l pid
    → ((i : ℕ) → i ≢ pid → t' i ≡ t i)
    → Queues t' l
Queues-frame t t' l pid v low off same = record {
  each = λ q iq.
      let old = v.each q iq in
      let out = off-nodes v pid q iq low (off q iq) in
      record {
        linked =
            Linked-frame t t' q (l q) (q + 1)
              (λ i h.
                ap (λ (e : Qentry). e.qnext)
                  (same i
                    (ne_of_has i pid (nodes q (l q) (q + 1)) (has-init i (q ∷ l q) (q + 1) h) out)))
              (λ i h.
                ap (λ (e : Qentry). e.qprev)
                  (same i (
                    ne_of_has i pid (nodes q (l q) (q + 1)) (has-cons i q (l q ++ (q + 1) ∷ []) h)
                      out)))
              old.linked;
        distinct = old.distinct;
        pids = old.pids;
        tail_key = ap (λ (e : Qentry). e.qkey) (same (q + 1) (omega arith)) ∙ old.tail_key;
      };
  apart = v.apart;
}

-- Writes to the keys of processes.
pub Queues-keys :
    (t t' : Table) (l : ℕ → List ℕ)
    → Queues t l
    → ((i : ℕ) → (t' i).qnext ≡ (t i).qnext)
    → ((i : ℕ) → (t' i).qprev ≡ (t i).qprev)
    → SameEndKeys t t'
    → Queues t' l
Queues-keys t t' l v next prev keys = record {
  each = λ q iq.
      let old = v.each q iq in
      record {
        linked = Linked-frame t t' q (l q) (q + 1) (λ i h. next i) (λ i h. prev i) old.linked;
        distinct = old.distinct;
        pids = old.pids;
        tail_key = keys (q + 1) (omega arith) ∙ old.tail_key;
      };
  apart = v.apart;
}
