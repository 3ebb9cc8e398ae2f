-- ===== src/Queue/Insert.antt =====
-- `insert`: a process enters a queue in descending order of the keys, behind its equals.
use xinu_c_mips.Base.{
  ℕ, zero, suc, ◌+◌, ◌<◌, ◌≡◌, ◌≢◌, refl, sym, false, Bool-cases, inl, inr, List, [], ◌∷◌, ◌++◌,
  has, length, length-le_of_Below, ℤ, pos, ◌≤ℤ◌, ◌<ℤ◌, leb_ℤ, arith, update, ◌==◌, if◌then◌else◌,
}
use xinu_c_mips.Kernel.{
  Kernel, done, ok, minkey, nproc, nqent, pr_free, queue_at-pos, set_qnext-pos, set_qprev-pos,
  set_qkey-pos, isbadqid-pos, isbadpid-pos,
}
use xinu_c_mips.Queue.{insert, insert_loop, firstid}
use xinu_c_mips.Queue.Chain.{Table, Linked, first, last, qprev-first, qnext-first}
use xinu_c_mips.Queue.Table.{IsQid, Pids, Queues, IsOff, last-lt, first-lt}
use xinu_c_mips.Queue.Links.{link_key, link_key-Spliced, link_key-qkey}
use xinu_c_mips.Queue.Splice.{Queues-splice, ne-last, ne-first}
use xinu_c_mips.Queue.Fifo.{firstid-first}

-- The processes that a new one with this key passes, and the others.
abbrev pub above : Table → ℤ → List ℕ → List ℕ
above t key [] = []
above t key (x ∷ xs) = if leb_ℤ key (t x).qkey then x ∷ above t key xs else []

abbrev pub below : Table → ℤ → List ℕ → List ℕ
below t key [] = []
below t key (x ∷ xs) = if leb_ℤ key (t x).qkey then below t key xs else x ∷ xs

pub above-below : (t : Table) (key : ℤ) (xs : List ℕ) → above t key xs ++ below t key xs ≡ xs
above-below t key [] = refl
above-below t key (x ∷ xs) = ground (arith, above-below t key xs)

-- Keys fall from the front to the back.
abbrev pub LeHead : Table → ℤ → List ℕ → Type 0
LeHead t key [] = Unit {0}
LeHead t key (x ∷ xs) = (t x).qkey ≤ℤ key

abbrev pub Sorted : Table → List ℕ → Type 0
Sorted t [] = Unit {0}
Sorted t (x ∷ xs) = LeHead t (t x).qkey xs × Sorted t xs

module _ (t t' : Table) (key : ℤ) (pid : ℕ) (here : (t' pid).qkey ≡ key)
    (other : (i : ℕ) → i ≢ pid → (t' i).qkey ≡ (t i).qkey) where
  Sorted-frame : (xs : List ℕ) → has pid xs ≡ false → Sorted t xs → Sorted t' xs
  Sorted-frame [] new s = tt
  Sorted-frame (x ∷ []) new s = (tt, tt)
  Sorted-frame (x ∷ y ∷ xs) new s =
      (ground (arith, other x, other y), Sorted-frame (y ∷ xs) (ground arith) s.1)

  Sorted-above :
      (xs : List ℕ)
      → has pid xs ≡ false
      → Sorted t xs
      → Sorted t' (above t key xs ++ pid ∷ below t key xs)
  Sorted-above [] new s = (tt, tt)
  Sorted-above (x ∷ []) new s = ground (arith, other x)
  Sorted-above (x ∷ y ∷ xs) new s = elim (Bool-cases (leb_ℤ key (t x).qkey)) [
    | inl h ↦ rw h (ground (arith, other x, other y), Sorted-above (y ∷ xs) (ground arith) s.1)
    | inr h ↦ rw h (ground (arith, other x), Sorted-frame (x ∷ y ∷ xs) new s)
  ]

insert_loop-below :
    (k : Kernel) (key : ℤ) (b : ℕ) (fuel a : ℕ) (xs : List ℕ)
    → Linked k.queuetab a xs b
    → Pids xs
    → b < nqent
    → (k.queuetab b).qkey ≡ minkey
    → minkey <ℤ key
    → length xs < fuel
    → insert_loop fuel (pos (first xs b)) key k ≡ done (pos (first (below k.queuetab key xs) b)) k
unfolding insert_loop
insert_loop-below k key b zero a xs l p hb end big h = absurd (omega arith)
insert_loop-below k key b (suc fuel) a [] l p hb end big h =
    let low : leb_ℤ key minkey ≡ false = ground arith in rw (queue_at-pos b k hb, end, low)
insert_loop-below k key b (suc fuel) a (x ∷ xs) l p hb end big h =
    rw (queue_at-pos x k (omega arith)) (elim (Bool-cases (leb_ℤ key (k.queuetab x).qkey)) [
      | inl t ↦
          rw (t, qnext-first k.queuetab x xs b l.2)
            (insert_loop-below k key b fuel x xs l.2 p.1 hb end big (omega arith))
      | inr f ↦ rw f
    ])

insert-link :
    (k : Kernel) (p pid n q : ℕ) (key : ℤ)
    → q + 1 < nqent
    → pid < nproc
    → p < nqent
    → n < nqent
    → (k.proctab pid).prstate ≢ pr_free
    → ((m : ℤ) × (firstid (pos q) k ≡ done m k) × (insert_loop nqent m key k ≡ done (pos n) k))
    → (k.queuetab n).qprev ≡ pos p
    → insert (pos pid) (pos q) key k
      ≡ done ok (record k { queuetab = link_key k.queuetab p pid n key })
unfolding insert
insert-link k p pid n q key hq hpid hp hn live found e = rw (
  isbadqid-pos q (omega arith),
  isbadpid-pos k pid hpid live,
  found.1,
  found.2,
  queue_at-pos n k hn,
  e,
  set_qnext-pos pid _ (omega arith) _,
  set_qprev-pos pid _ (omega arith) _,
  set_qkey-pos pid _ (omega arith) _,
  set_qnext-pos p _ hp _,
  set_qprev-pos n _ hn _,
)

module _ (k : Kernel) (l : ℕ → List ℕ) (v : Queues k.queuetab l) (q : ℕ) (iq : IsQid q) where
  -- `insert`, with a key above MINKEY, puts a live process that is on no queue behind the processes
  -- whose key is at least its own and in front of the others; a sorted queue stays sorted, the
  -- other queues and keys do not change, and its loop ends.
  pub insert-Sorted :
      (pid : ℕ) (key : ℤ)
      → pid < nproc
      → (k.proctab pid).prstate ≢ pr_free
      → IsOff l pid
      → minkey <ℤ key
      → let xs = above k.queuetab key (l q) ++ pid ∷ below k.queuetab key (l q) in
        (t : Table) × (insert (pos pid) (pos q) key k ≡ done ok (record k { queuetab = t }))
        × Queues t (update l q xs)
        × ((i : ℕ) → (t i).qkey ≡ (if i == pid then key else (k.queuetab i).qkey))
        × (Sorted k.queuetab (l q) → Sorted t xs)
  insert-Sorted pid key low live off big =
      let old = v.each q iq in
      let xs = above k.queuetab key (l q) in
      let ys = below k.queuetab key (l q) in
      let e : l q ≡ xs ++ ys = sym (above-below k.queuetab key (l q)) in
      let p = last q xs in
      let n = first ys (q + 1) in
      let t = link_key k.queuetab p pid n key in
      let keys = λ (i : ℕ). link_key-qkey k.queuetab p pid n i key in
      (
        t,
        insert-link k p pid n q key iq.1 low (last-lt q xs ys (rw e at (old.pids)) (omega arith))
            (first-lt xs ys (q + 1) (rw e at (old.pids)) iq.1) live
            (
              pos (first (l q) (q + 1)),
              firstid-first k l v q iq,
              insert_loop-below k key (q + 1) nqent q (l q) old.linked old.pids iq.1 old.tail_key
                  big (omega (arith, length-le_of_Below nproc (l q) old.pids old.distinct)),
            )
            (qprev-first k.queuetab q xs ys (q + 1) (rw e at (old.linked))),
        Queues-splice v t q iq xs ys pid e low off
            (link_key-Spliced k.queuetab p pid n key (ne-last v q iq xs ys pid e low (off q iq))
              (ne-first v q iq xs ys pid e low (off q iq)))
            (λ i h. ground (arith, keys i)),
        keys,
        Sorted-above k.queuetab t key pid (ground (arith, keys pid)) (λ i h. ground (arith, keys i))
            (l q) (off q iq),
      )
