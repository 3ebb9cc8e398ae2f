-- ===== src/Queue/Table.antt =====
-- The abstract view of `queuetab`: a list of process ids for each queue. No process is on two
-- queues, and linking or unlinking a process in one queue leaves the others alone.
use xinu_c_mips.Base.{
  ℕ, ◌+◌, ◌%◌, ◌<◌, ◌≤◌, ◌≡◌, ◌≢◌, refl, sym, subst, true, false, ◌||◌, ◌⊎◌, List, [], ◌∷◌, ◌++◌,
  has, Distinct, Below, pos, arith, ◌==◌, leb_ℤ, is_nil,
}
use xinu_c_mips.Kernel.{nproc, nqent, minkey}
use xinu_c_mips.Queue.Chain.{Table, Linked, first, last, nodes}

-- The head of a queue: an even index behind the processes. The tail stands behind it.
abbrev pub IsQid : ℕ → Type 0
IsQid q = (nproc ≤ q) × (q + 1 < nqent) × (q % 2 ≡ 0)

abbrev pub Pids : List ℕ → Type 0
Pids = Below nproc

-- The queue with head `q` holds the processes `xs`, front first.
pub record IsQueue (t : Table) (q : ℕ) (xs : List ℕ) : Type 0 where
  pub linked : Linked t q xs (q + 1)
  pub distinct : Distinct xs
  pub pids : Pids xs
  pub tail_key : (t (q + 1)).qkey ≡ minkey

pub record Queues (t : Table) (l : ℕ → List ℕ) : Type 0 where
  pub each : (q : ℕ) → IsQid q → IsQueue t q (l q)
  pub apart : (q r i : ℕ) → IsQid q → IsQid r → has i (l q) ≡ true → has i (l r) ≡ true → q ≡ r

-- A process that is on no queue.
abbrev pub IsOff : (ℕ → List ℕ) → ℕ → Type 0
IsOff l pid = (q : ℕ) → IsQid q → has pid (l q) ≡ false

pub lt_of_has : (i : ℕ) (xs : List ℕ) → Pids xs → has i xs ≡ true → i < nproc
lt_of_has i [] p h = absurd (cc)
lt_of_has i (x ∷ xs) p h = ground (arith, lt_of_has i xs p.1)

pub not-has_ge : (i : ℕ) (xs : List ℕ) → Pids xs → nproc ≤ i → has i xs ≡ false
not-has_ge i [] p h = refl
not-has_ge i (x ∷ xs) p h = ground (arith, not-has_ge i xs p.1)

pub has-snoc : (i : ℕ) (xs : List ℕ) (b : ℕ) → has i (xs ++ b ∷ []) ≡ (has i xs || (i == b))
has-snoc i [] b = ground arith
has-snoc i (x ∷ xs) b = ground (arith, has-snoc i xs b)

Distinct-snoc : (xs : List ℕ) (b : ℕ) → Distinct xs → has b xs ≡ false → Distinct (xs ++ b ∷ [])
Distinct-snoc [] b d h = (refl, tt)
Distinct-snoc (x ∷ xs) b d h =
    (ground (arith, has-snoc x xs b), Distinct-snoc xs b d.1 (ground arith))

pub Distinct-nodes :
    (q : ℕ) (xs : List ℕ) → nproc ≤ q → Pids xs → Distinct xs → Distinct (nodes q xs (q + 1))
Distinct-nodes q xs h p d = (
  ground (arith, has-snoc q xs (q + 1), not-has_ge q xs p),
  Distinct-snoc xs (q + 1) d (not-has_ge (q + 1) xs p (omega arith)),
)

-- The entries of a queue: its two ends and its processes.
nodes-cases :
    (i q : ℕ) (xs : List ℕ)
    → Pids xs
    → has i (nodes q xs (q + 1)) ≡ true
    → ((i < nproc) × (has i xs ≡ true)) ⊎ ((q ≤ i) × (i ≤ q + 1))
nodes-cases i q xs p h = ground (arith, has-snoc i xs (q + 1), lt_of_has i xs p)

module _ {t : Table} {l : ℕ → List ℕ} (v : Queues t l) where
  -- No entry belongs to two queues.
  pub nodes-apart :
      (i q r : ℕ)
      → IsQid q
      → IsQid r
      → has i (nodes q (l q) (q + 1)) ≡ true
      → has i (nodes r (l r) (r + 1)) ≡ true
      → q ≡ r
  nodes-apart i q r iq ir h g = ground (
    arith,
    nodes-cases i q (l q) (v.each q iq).pids,
    nodes-cases i r (l r) (v.each r ir).pids,
    v.apart q r i iq ir,
  )

  pub nodes-ne :
      (i j q r : ℕ)
      → IsQid q
      → IsQid r
      → q ≢ r
      → has i (nodes q (l q) (q + 1)) ≡ true
      → has j (nodes r (l r) (r + 1)) ≡ true
      → i ≢ j
  nodes-ne i j q r iq ir ne h g e = ne (
      nodes-apart i q r iq ir h (subst (λ (n : ℕ). has n (nodes r (l r) (r + 1)) ≡ true) (sym e) g))

  pub off-nodes :
      (pid q : ℕ)
      → IsQid q
      → pid < nproc
      → has pid (l q) ≡ false
      → has pid (nodes q (l q) (q + 1)) ≡ false
  off-nodes pid q iq h off = ground (arith, has-snoc pid (l q) (q + 1))

pub last-lt : (q : ℕ) (xs ys : List ℕ) → Pids (xs ++ ys) → q < nqent → last q xs < nqent
last-lt q [] ys p h = h
last-lt q (x ∷ xs) ys p h = last-lt x xs ys p.1 (omega arith)

pub first-lt : (xs ys : List ℕ) (b : ℕ) → Pids (xs ++ ys) → b < nqent → first ys b < nqent
first-lt [] [] b p h = h
first-lt [] (y ∷ ys) b p h = omega arith
first-lt (x ∷ xs) ys b p h = first-lt xs ys b p.1 h

pub next-lt :
    (xs : List ℕ) (x : ℕ) (ys : List ℕ) (b : ℕ)
    → Pids (xs ++ x ∷ ys)
    → b < nqent
    → first ys b < nqent
next-lt [] x ys b p h = first-lt [] ys b p.1 h
next-lt (y ∷ xs) x ys b p h = next-lt xs x ys b p.1 h

-- The test of `isempty`: the first entry behind the head is no process.
pub leb-first :
    (q : ℕ) (xs : List ℕ)
    → nproc ≤ q
    → Pids xs
    → leb_ℤ (pos nproc) (pos (first xs (q + 1))) ≡ is_nil xs
leb-first q [] h p = ground arith
leb-first q (x ∷ xs) h p = ground arith
