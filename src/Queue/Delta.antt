-- ===== src/Queue/Delta.antt =====
-- `insertd`: a process enters a delta list. On the list seen as processes with the times at which
-- they are due, this is insertion by time, and no other process becomes due sooner or later.
use xinu_c_mips.Base.{
  ℕ, zero, suc, ◌+◌, ◌-◌, ◌^◌, ◌<◌, ◌≡◌, ◌≢◌, refl, sym, ◌∙◌, ap, true, false, Bool-cases, inl, inr,
  List, [], ◌∷◌, ◌++◌, has, length, length-le_of_Below, ℤ, pos, negsuc, pos_part, leb_ℤ, leb→le,
  eqb_ℤ, leb, ◌-ℤ◌, wrap32, arith, update, ◌==◌,
}
use xinu_c_mips.Kernel.{
  Kernel, done, ok, nproc, nqent, pr_free, queue_at-pos, set_qnext-pos, set_qprev-pos, set_qkey-pos,
  isbadqid-pos, isbadpid-pos,
}
use xinu_c_mips.Queue.{insertd, insertd_loop}
use xinu_c_mips.Queue.Chain.{Table, Linked, first, last, qnext-first, ne_of_has}
use xinu_c_mips.Queue.Table.{
  IsQid, Pids, Queues, IsOff, off-nodes, last-lt, first-lt, Distinct-nodes,
}
use xinu_c_mips.Queue.Due.{
  Delays, delay, due, place, passed, behind, left, passed-behind, due-place, has-behind,
}
use xinu_c_mips.Queue.Links.{link_key, link_key-Spliced, link_key-qkey, queuetail-pos}
use xinu_c_mips.Queue.Shorten.{
  wrap32-sub, shorten, next_of, inserted, shorten-qnext, shorten-qprev, after-pid, after-other,
  after-end, after-Shorter, after-Delays,
}
use xinu_c_mips.Queue.Splice.{Queues-splice, ne-last, ne-first}
use xinu_c_mips.Queue.Frame.{Queues-keys}

leb_ℤ-pos : (z : ℤ) (n : ℕ) → z ≡ pos (pos_part z) → leb_ℤ z (pos n) ≡ leb (pos_part z) n
leb_ℤ-pos (pos m) n e = ground arith
leb_ℤ-pos (negsuc m) n e = absurd (cc)

insertd_loop-left :
    (k : Kernel) (q fuel a n : ℕ) (xs : List ℕ)
    → Linked k.queuetab a xs (q + 1)
    → Pids xs
    → IsQid q
    → Delays k.queuetab xs
    → n < 2 ^ 31
    → length xs < fuel
    → insertd_loop fuel (pos q) (pos a) (pos (first xs (q + 1))) (pos n) k
      ≡ done
          (
            pos (last a (passed k.queuetab n xs)),
            pos (first (behind k.queuetab n xs) (q + 1)),
            pos (left k.queuetab n xs),
          )
          k
unfolding insertd_loop
insertd_loop-left k q zero a n xs l p iq ds hn h = absurd (omega arith)
insertd_loop-left k q (suc fuel) a n [] l p iq ds hn h =
    let stop : eqb_ℤ (pos (q + 1)) (pos (q + 1)) ≡ true = ground arith in rw (queuetail-pos q, stop)
insertd_loop-left k q (suc fuel) a n (x ∷ xs) l p iq ds hn h =
    let more : eqb_ℤ (pos x) (pos (q + 1)) ≡ false = ground arith in
    rw (queuetail-pos q, more, queue_at-pos x k (omega arith))
      (elim (Bool-cases (leb (delay k.queuetab x) n)) [
        | inl t ↦
            let t' : leb_ℤ (k.queuetab x).qkey (pos n) ≡ true = leb_ℤ-pos _ n ds.0 ∙ t in
            let less =
              ap (λ (z : ℤ). wrap32 (pos n -ℤ z)) ds.0
              ∙ wrap32-sub n (delay k.queuetab x) hn (leb→le _ n t) in
            rw (t, t', qnext-first k.queuetab x xs (q + 1) l.2, less)
              (insertd_loop-left k q fuel x (n - delay k.queuetab x) xs l.2 p.1 iq ds.2
                (omega arith) (omega arith))
        | inr f ↦
            let f' : leb_ℤ (k.queuetab x).qkey (pos n) ≡ false = leb_ℤ-pos _ n ds.0 ∙ f in
            rw (f, f')
      ])

insertd-link :
    (k : Kernel) (p pid n q w r : ℕ) (t : Table)
    → IsQid q
    → pid < nproc
    → p < nqent
    → n < nqent
    → (k.proctab pid).prstate ≢ pr_free
    → ((m : ℤ) × ((k.queuetab q).qnext ≡ m)
        × (insertd_loop nqent (pos q) (pos q) m (pos w) k ≡ done (pos p, pos n, pos r) k))
    → t ≡ link_key k.queuetab p pid n (pos r)
    → insertd (pos pid) (pos q) (pos w) k ≡ done ok (record k { queuetab = shorten t (q + 1) n r })
unfolding insertd
insertd-link k p pid n q w r t iq hpid hp hn live found e =
    rw
      (
        e,
        isbadqid-pos q (omega arith),
        isbadpid-pos k pid hpid live,
        queue_at-pos q k (omega arith),
        found.1,
        found.2,
        set_qnext-pos pid _ (omega arith) _,
        set_qprev-pos pid _ (omega arith) _,
        set_qkey-pos pid _ (omega arith) _,
        set_qnext-pos p _ hp _,
        set_qprev-pos n _ hn _,
        queuetail-pos q,
      )
      (elim (Bool-cases (n == q + 1)) [
        | inl c ↦ rw c
        | inr c ↦ rw (c, queue_at-pos n _ hn, set_qkey-pos n _ hn _)
      ])

module _ (k : Kernel) (l : ℕ → List ℕ) (v : Queues k.queuetab l) (q : ℕ) (iq : IsQid q) where
  -- `insertd` puts a live process that is on no queue into the delta list: with the list read as
  -- processes and the times at which they are due, it is placed by its own time, and no other
  -- time changes. The delays stay nonnegative, and no key outside the list changes.
  pub insertd-due :
      (pid w : ℕ)
      → pid < nproc
      → (k.proctab pid).prstate ≢ pr_free
      → IsOff l pid
      → w < 2 ^ 31
      → Delays k.queuetab (l q)
      → let xs = passed k.queuetab w (l q) ++ pid ∷ behind k.queuetab w (l q) in
        (t : Table) × (insertd (pos pid) (pos q) (pos w) k ≡ done ok (record k { queuetab = t }))
        × Queues t (update l q xs)
        × Delays t xs
        × (due t 0 xs ≡ place pid w (due k.queuetab 0 (l q)))
        × ((i : ℕ)
            → i ≢ pid
            → has i (l q ++ (q + 1) ∷ []) ≡ false
            → (t i).qkey ≡ (k.queuetab i).qkey)
  insertd-due pid w low live off small ds =
      let old = v.each q iq in
      let t0 = k.queuetab in
      let xs = passed t0 w (l q) in
      let ys = behind t0 w (l q) in
      let r = left t0 w (l q) in
      let e : l q ≡ xs ++ ys = sym (passed-behind t0 w (l q)) in
      let p = last q xs in
      let n = next_of t0 (q + 1) w (l q) in
      let t = link_key t0 p pid n (pos r) in
      let t' = inserted t0 pid (q + 1) w p (l q) in
      let new : has pid (l q ++ (q + 1) ∷ []) ≡ false =
        ground (arith, off-nodes v pid q iq low (off q iq)) in
      let linked =
        Queues-splice v t q iq xs ys pid e low off
          (link_key-Spliced t0 p pid n (pos r) (ne-last v q iq xs ys pid e low (off q iq))
            (ne-first v q iq xs ys pid e low (off q iq)))
          (λ i h. ground (arith, link_key-qkey t0 p pid n i (pos r))) in
      (
        t',
        insertd-link k p pid n q w r t iq low (last-lt q xs ys (rw e at (old.pids)) (omega arith))
            (first-lt xs ys (q + 1) (rw e at (old.pids)) iq.1) live
            (
              pos (first (l q) (q + 1)),
              qnext-first t0 q (l q) (q + 1) old.linked,
              insertd_loop-left k q nqent q w (l q) old.linked old.pids iq ds small
                  (omega (arith, length-le_of_Below nproc (l q) old.pids old.distinct)),
            )
            refl,
        Queues-keys t t' _ linked (shorten-qnext t (q + 1) n r) (shorten-qprev t (q + 1) n r)
            (λ i h.
              after-end t0 pid (q + 1) w p (l q) small ds old.pids (omega arith) new i (omega arith)
                h
              ∙ ground (arith, link_key-qkey t0 p pid n i (pos r))),
        after-Delays t0 pid (q + 1) w p (l q) small ds old.pids (omega arith) new,
        due-place t0 t' pid (q + 1) w 0 (l q)
              (ap pos_part (after-pid t0 pid (q + 1) w p (l q) small ds old.pids (omega arith) new))
              (after-Shorter t0 pid (q + 1) w p (l q) small ds old.pids (omega arith) new)
              (λ i a b.
                ap pos_part
                  (after-other t0 pid (q + 1) w p (l q) small ds old.pids (omega arith) new i a b))
              (Distinct-nodes q (l q) iq.0 old.pids old.distinct).1 new
            ∙ ap (λ (u : ℕ). place pid u (due t0 0 (l q))) (omega arith),
        λ i other out.
            after-other t0 pid (q + 1) w p (l q) small ds old.pids (omega arith) new i other (λ z.
              ne_of_has n i (l q ++ (q + 1) ∷ []) (has-behind t0 w (l q) (q + 1)) out (sym z)),
      )
