-- ===== src/Queue/Fifo.antt =====
-- `enqueue`, `getitem`, `getfirst`, `getlast` and `dequeue` on the abstract queues.
use mathlib.Core.List.{append-nil}
use xinu_c_mips.Base.{
  ℕ, ◌+◌, ◌<◌, ◌≡◌, ◌≢◌, refl, sym, ◌∙◌, ap, false, List, [], ◌∷◌, ◌++◌, is_nil, ℤ, pos, arith,
  update,
}
use xinu_c_mips.Kernel.{
  Kernel, Cmd, done, empty, nproc, nqent, pr_free, with_qnext, with_qprev, queue_at-pos,
  set_qnext-pos, set_qprev-pos, isbadqid-pos, isbadpid-pos,
}
use xinu_c_mips.Queue.{enqueue, getitem, getfirst, getlast, dequeue, firstid, isempty}
use xinu_c_mips.Queue.Chain.{Table, first, last, qprev-first, qprev-last, qnext-first, qnext-mid}
use xinu_c_mips.Queue.Table.{IsQid, Queues, IsOff, last-lt, first-lt, next-lt, leb-first}
use xinu_c_mips.Queue.Links.{
  link, unlink, link-Spliced, link-qkey, unlink-Unspliced, unlink-qkey, queuetail-pos,
  cleared-other, cleared-qkey,
}
use xinu_c_mips.Queue.Splice.{Queues-splice, Queues-unsplice, ne-last}
use xinu_c_mips.Queue.Frame.{Queues-frame}

enqueue-link :
    (k : Kernel) (p pid q : ℕ)
    → q + 1 < 84
    → pid < nproc
    → p < 84
    → (k.proctab pid).prstate ≢ pr_free
    → (k.queuetab (q + 1)).qprev ≡ pos p
    → enqueue (pos pid) (pos q) k
      ≡ done (pos pid) (record k { queuetab = link k.queuetab p pid (q + 1) })
unfolding enqueue
enqueue-link k p pid q hq hpid hp live e = rw (
  isbadqid-pos q (omega arith),
  isbadpid-pos k pid hpid live,
  queuetail-pos q,
  queue_at-pos (q + 1) k hq,
  e,
  set_qnext-pos pid _ (omega arith) _,
  set_qprev-pos pid _ (omega arith) _,
  set_qnext-pos p _ hp _,
  set_qprev-pos (q + 1) _ hq _,
)

is_nil-snoc : (xs : List ℕ) (x : ℕ) → is_nil (xs ++ x ∷ []) ≡ false
is_nil-snoc [] x = refl
is_nil-snoc (y ∷ xs) x = refl

last-snoc : (a : ℕ) (xs : List ℕ) (x : ℕ) → last a (xs ++ x ∷ []) ≡ x
last-snoc a [] x = refl
last-snoc a (y ∷ xs) x = last-snoc y xs x

-- What taking the front process off queue `q` does, by the processes that it holds.
abbrev pub Front : Kernel → (ℕ → List ℕ) → ℕ → (ℤ → Cmd ℤ) → List ℕ → Type 0
Front k l q op [] = op (pos q) k ≡ done empty k
Front k l q op (x ∷ xs) =
    (t : Table) × (op (pos q) k ≡ done (pos x) (record k { queuetab = t }))
    × Queues t (update l q xs)
    × IsOff (update l q xs) x
    × ((i : ℕ) → (t i).qkey ≡ (k.queuetab i).qkey)

getitem-unlink :
    (k : Kernel) (pid p n : ℕ)
    → pid < nqent
    → p < nqent
    → n < nqent
    → (k.queuetab pid).qnext ≡ pos n
    → (k.queuetab pid).qprev ≡ pos p
    → getitem (pos pid) k ≡ done (pos pid) (record k { queuetab = unlink k.queuetab p n })
unfolding getitem
getitem-unlink k pid p n hpid hp hn en ep =
    rw (queue_at-pos pid k hpid, en, ep, set_qnext-pos p _ hp _, set_qprev-pos n _ hn _)

module _ (k : Kernel) (l : ℕ → List ℕ) (v : Queues k.queuetab l) (q : ℕ) (iq : IsQid q) where
  -- `enqueue` puts a live process that is on no queue at the end of the queue.
  pub enqueue-append :
      (pid : ℕ)
      → pid < nproc
      → (k.proctab pid).prstate ≢ pr_free
      → IsOff l pid
      → (t : Table) × (enqueue (pos pid) (pos q) k ≡ done (pos pid) (record k { queuetab = t }))
        × Queues t (update l q (l q ++ pid ∷ []))
        × ((i : ℕ) → (t i).qkey ≡ (k.queuetab i).qkey)
  enqueue-append pid low live off =
      let old = v.each q iq in
      let p = last q (l q) in
      let e = sym (append-nil (l q)) in
      (
        link k.queuetab p pid (q + 1),
        enqueue-link k p pid q iq.1 low
            (last-lt q (l q) [] (rw (append-nil (l q)) old.pids) (omega arith)) live
            (qprev-last k.queuetab q (l q) (q + 1) old.linked),
        Queues-splice v _ q iq (l q) [] pid e low off
            (link-Spliced k.queuetab p pid (q + 1) (ne-last v q iq (l q) [] pid e low (off q iq))
              (omega arith))
            (λ i h. link-qkey k.queuetab p pid (q + 1) i),
        λ i. link-qkey k.queuetab p pid (q + 1) i,
      )

  -- `getitem` takes a process out of the queue that it is on, wherever it stands there.
  pub getitem-remove :
      (xs : List ℕ) (pid : ℕ) (ys : List ℕ)
      → l q ≡ xs ++ pid ∷ ys
      → (t : Table) × (getitem (pos pid) k ≡ done (pos pid) (record k { queuetab = t }))
        × Queues t (update l q (xs ++ ys))
        × IsOff (update l q (xs ++ ys)) pid
        × ((i : ℕ) → (t i).qkey ≡ (k.queuetab i).qkey)
  getitem-remove xs pid ys e =
      let old = rw e at (v.each q iq) in
      let p = last q xs in
      let n = first ys (q + 1) in
      let out =
        Queues-unsplice v (unlink k.queuetab p n) q iq xs ys pid e (unlink-Unspliced k.queuetab p n)
          (λ i h. unlink-qkey k.queuetab p n i) in
      (
        unlink k.queuetab p n,
        getitem-unlink k pid p n (first-lt xs (pid ∷ ys) (q + 1) old.pids iq.1)
            (last-lt q xs (pid ∷ ys) old.pids (omega arith))
            (next-lt xs pid ys (q + 1) old.pids iq.1)
            (qnext-mid k.queuetab q xs pid ys (q + 1) old.linked)
            (qprev-first k.queuetab q xs (pid ∷ ys) (q + 1) old.linked),
        out.0,
        out.1,
        λ i. unlink-qkey k.queuetab p n i,
      )

  pub firstid-first : firstid (pos q) k ≡ done (pos (first (l q) (q + 1))) k
  unfolding firstid
  firstid-first =
      rw (
        queue_at-pos q k (omega arith),
        qnext-first k.queuetab q (l q) (q + 1) (v.each q iq).linked,
      )

  pub isempty-nil : isempty (pos q) k ≡ done (is_nil (l q)) k
  unfolding isempty
  isempty-nil = rw firstid-first (ap (λ b. done b k) (leb-first q (l q) iq.0 (v.each q iq).pids))

  -- `getfirst` takes the front process off the queue, and says `empty` if there is none.
  pub getfirst-Front : (xs : List ℕ) → l q ≡ xs → Front k l q getfirst xs
  unfolding getfirst
  getfirst-Front [] e = rw (isempty-nil, e)
  getfirst-Front (x ∷ xs) e =
      let out = getitem-remove [] x xs e in
      (
        out.0,
        rw
            (
              isempty-nil,
              e,
              queue_at-pos q k (omega arith),
              qnext-first k.queuetab q (x ∷ xs) (q + 1) (rw e at (v.each q iq)).linked,
            )
            out.1,
        out.2,
        out.3,
        out.4,
      )

  -- `dequeue` takes the front process off the queue and clears its links, and says `empty` if
  -- there is none.
  pub dequeue-Front : (xs : List ℕ) → l q ≡ xs → Front k l q dequeue xs
  unfolding dequeue
  dequeue-Front [] e = rw (isbadqid-pos q (omega arith), isempty-nil, e)
  dequeue-Front (x ∷ xs) e =
      let out = getfirst-Front (x ∷ xs) e in
      let low : x < nproc = (rw e at (v.each q iq)).pids.0 in
      let t = with_qnext (with_qprev out.0 x empty) x empty in
      (
        t,
        rw (
          isbadqid-pos q (omega arith),
          isempty-nil,
          e,
          out.1,
          set_qprev-pos x _ (omega arith) _,
          set_qnext-pos x _ (omega arith) _,
        ),
        Queues-frame out.0 t (update l q xs) x out.2 low out.3 (cleared-other out.0 x),
        out.3,
        λ i. cleared-qkey out.0 x i ∙ out.4 i,
      )

  -- `getlast` takes the last process off the queue.
  pub getlast-remove :
      (xs : List ℕ) (x : ℕ)
      → l q ≡ xs ++ x ∷ []
      → (t : Table) × (getlast (pos q) k ≡ done (pos x) (record k { queuetab = t }))
        × Queues t (update l q xs)
        × IsOff (update l q xs) x
  unfolding getlast
  getlast-remove xs x e =
      let out = getitem-remove xs x [] e in
      (
        out.0,
        rw
            (
              isempty-nil,
              e,
              is_nil-snoc xs x,
              queuetail-pos q,
              queue_at-pos (q + 1) k iq.1,
              qprev-last k.queuetab q (xs ++ x ∷ []) (q + 1) (rw e at (v.each q iq)).linked,
              last-snoc q xs x,
            )
            out.1,
        rw (append-nil xs) at (out.2),
        rw (append-nil xs) at (out.3),
      )
