-- ===== src/Queue/Links.antt =====
-- The field writes of the queue operations, as updates of the table.
use xinu_c_mips.Base.{ℕ, ◌+◌, ◌≡◌, ◌≢◌, refl, ℤ, pos, arith, update, if◌then◌else◌, ◌==◌}
use xinu_c_mips.Kernel.{with_qnext, with_qprev, with_qkey, empty}
use xinu_c_mips.Queue.{queuetail}
use xinu_c_mips.Queue.Chain.{Table, Spliced, Unspliced}

-- `enqueue` and `insert` write these fields, in this order.
abbrev pub link : Table → ℕ → ℕ → ℕ → Table
link t p pid n =
    with_qprev (with_qnext (with_qprev (with_qnext t pid (pos n)) pid (pos p)) p (pos pid)) n
      (pos pid)

pub link-Spliced :
    (t : Table) (p pid n : ℕ) → pid ≢ p → pid ≢ n → Spliced t (link t p pid n) p pid n
unfolding with_qnext with_qprev update
link-Spliced t p pid n hp hn = record {
  next_pid = ground arith;
  prev_pid = ground arith;
  next_p = ground arith;
  prev_n = ground arith;
  next_other = λ i h g. ground arith;
  prev_other = λ i h g. ground arith;
}

pub link-qkey : (t : Table) (p pid n i : ℕ) → (link t p pid n i).qkey ≡ (t i).qkey
unfolding with_qnext with_qprev update
link-qkey t p pid n i = ground arith

-- `getitem` writes these.
abbrev pub unlink : Table → ℕ → ℕ → Table
unlink t p n = with_qprev (with_qnext t p (pos n)) n (pos p)

pub unlink-Unspliced : (t : Table) (p n : ℕ) → Unspliced t (unlink t p n) p n
unfolding with_qnext with_qprev update
unlink-Unspliced t p n = record {
  next_p = ground arith;
  prev_n = ground arith;
  next_other = λ i g. ground arith;
  prev_other = λ i g. ground arith;
}

pub unlink-qkey : (t : Table) (p n i : ℕ) → (unlink t p n i).qkey ≡ (t i).qkey
unfolding with_qnext with_qprev update
unlink-qkey t p n i = ground arith

pub queuetail-pos : (q : ℕ) → queuetail (pos q) ≡ pos (q + 1)
unfolding queuetail
queuetail-pos q = refl

pub cleared-other :
    (t : Table) (x i : ℕ) → i ≢ x → with_qnext (with_qprev t x empty) x empty i ≡ t i
unfolding with_qnext with_qprev update
cleared-other t x i h = ground arith

pub cleared-qkey :
    (t : Table) (x i : ℕ) → (with_qnext (with_qprev t x empty) x empty i).qkey ≡ (t i).qkey
unfolding with_qnext with_qprev update
cleared-qkey t x i = ground arith

-- The writes of `insert` and `insertd`, which set the key too.
abbrev pub link_key : Table → ℕ → ℕ → ℕ → ℤ → Table
link_key t p pid n key =
    with_qprev
      (with_qnext (with_qkey (with_qprev (with_qnext t pid (pos n)) pid (pos p)) pid key) p
        (pos pid))
      n (pos pid)

pub link_key-Spliced :
    (t : Table) (p pid n : ℕ) (key : ℤ)
    → pid ≢ p
    → pid ≢ n
    → Spliced t (link_key t p pid n key) p pid n
unfolding with_qnext with_qprev with_qkey update
link_key-Spliced t p pid n key hp hn = record {
  next_pid = ground arith;
  prev_pid = ground arith;
  next_p = ground arith;
  prev_n = ground arith;
  next_other = λ i h g. ground arith;
  prev_other = λ i h g. ground arith;
}

pub link_key-qkey :
    (t : Table) (p pid n i : ℕ) (key : ℤ)
    → (link_key t p pid n key i).qkey ≡ (if i == pid then key else (t i).qkey)
unfolding with_qnext with_qprev with_qkey update
link_key-qkey t p pid n i key = ground arith
