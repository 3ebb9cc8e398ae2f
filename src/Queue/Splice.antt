-- ===== src/Queue/Splice.antt =====
-- Linking a process into one queue, or out of it, seen on the abstract queues.
use xinu_c_mips.Base.{
  ℕ, ◌+◌, ◌<◌, ◌≤◌, ◌≡◌, ◌≢◌, refl, sym, ◌∙◌, ap, subst, true, false, ◌||◌, inl, inr, Bool-cases,
  List, [], ◌∷◌, ◌++◌, has, Distinct, arith, update, ◌==◌, ==→eq, ==→ne,
}
use xinu_c_mips.Kernel.{nproc}
use xinu_c_mips.Queue.Chain.{
  Table, first, last, nodes, Spliced, Unspliced, Linked-splice, Linked-unsplice, Linked-frame,
  ne_of_has, has-last, has-first, has-next, has-init,
}
use xinu_c_mips.Queue.Table.{
  IsQid, Pids, IsQueue, Queues, IsOff, Distinct-nodes, lt_of_has, nodes-ne, off-nodes,
}

-- The keys that an operation on processes leaves alone: those of the queues' ends.
abbrev pub SameEndKeys : Table → Table → Type 0
SameEndKeys t t' = (i : ℕ) → nproc ≤ i → (t' i).qkey ≡ (t i).qkey

pub has-insert :
    (i : ℕ) (xs : List ℕ) (pid : ℕ) (ys : List ℕ)
    → has i (xs ++ pid ∷ ys) ≡ ((i == pid) || has i (xs ++ ys))
has-insert i [] pid ys = refl
has-insert i (x ∷ xs) pid ys = ground (arith, has-insert i xs pid ys)

pub has-cons : (i a : ℕ) (xs : List ℕ) → has i xs ≡ true → has i (a ∷ xs) ≡ true
has-cons i a xs h = ground arith

Pids-insert :
    (xs : List ℕ) (pid : ℕ) (ys : List ℕ) → pid < nproc → Pids (xs ++ ys) → Pids (xs ++ pid ∷ ys)
Pids-insert [] pid ys h p = (h, p)
Pids-insert (x ∷ xs) pid ys h p = (p.0, Pids-insert xs pid ys h p.1)

Pids-remove : (xs : List ℕ) (pid : ℕ) (ys : List ℕ) → Pids (xs ++ pid ∷ ys) → Pids (xs ++ ys)
Pids-remove [] pid ys p = p.1
Pids-remove (x ∷ xs) pid ys p = (p.0, Pids-remove xs pid ys p.1)

Distinct-insert :
    (xs : List ℕ) (pid : ℕ) (ys : List ℕ)
    → has pid (xs ++ ys) ≡ false
    → Distinct (xs ++ ys)
    → Distinct (xs ++ pid ∷ ys)
Distinct-insert [] pid ys h d = (h, d)
Distinct-insert (x ∷ xs) pid ys h d =
    (ground (arith, has-insert x xs pid ys), Distinct-insert xs pid ys (ground arith) d.1)

Distinct-remove :
    (xs : List ℕ) (pid : ℕ) (ys : List ℕ)
    → Distinct (xs ++ pid ∷ ys)
    → Distinct (xs ++ ys) × (has pid (xs ++ ys) ≡ false)
Distinct-remove [] pid ys d = (d.1, d.0)
Distinct-remove (x ∷ xs) pid ys d =
    let rest = Distinct-remove xs pid ys d.1 in
    (
      (ground (arith, has-insert x xs pid ys), rest.0),
      ground (arith, has-insert x xs pid ys, rest.1),
    )

module _ {t : Table} {l : ℕ → List ℕ} (v : Queues t l) (t' : Table) (q : ℕ) (iq : IsQid q) where
  -- The queues after a change of queue `q` to `zs`, given what the change did to each queue.
  Queues-update :
      (zs : List ℕ)
      → IsQueue t' q zs
      → ((r : ℕ) → IsQid r → r ≢ q → IsQueue t' r (l r))
      → ((r i : ℕ) → IsQid r → r ≢ q → has i zs ≡ true → has i (l r) ≡ false)
      → Queues t' (update l q zs)
  unfolding update
  Queues-update zs here other new = record {
    each = λ r ir. elim (Bool-cases (r == q)) [
      | inl e ↦ rw e (subst (λ (n : ℕ). IsQueue t' n zs) (sym (==→eq r q e)) here)
      | inr n ↦ rw n (other r ir (==→ne r q n))
    ];
    apart = λ r s i ir is h g. ground (arith, new r i ir, new s i is, v.apart r s i ir is);
  }

  -- The other queues do not see a change at entries of this one.
  module _ (xs : List ℕ) (p n : ℕ) (hp : has p (nodes q (l q) (q + 1)) ≡ true)
      (hn : has n (nodes q (l q) (q + 1)) ≡ true) (keys : SameEndKeys t t') where
    other-IsQueue :
        (pid r : ℕ)
        → IsQid r
        → r ≢ q
        → pid < nproc
        → has pid (l r) ≡ false
        → ((i : ℕ) → i ≢ pid → i ≢ p → (t' i).qnext ≡ (t i).qnext)
        → ((i : ℕ) → i ≢ pid → i ≢ n → (t' i).qprev ≡ (t i).qprev)
        → IsQueue t' r (l r)
    other-IsQueue pid r ir ne low off next prev =
        let old = v.each r ir in
        let outside = off-nodes v pid r ir low off in
        record {
          linked =
              Linked-frame t t' r (l r) (r + 1)
                (λ i h.
                  next i
                    (ne_of_has i pid (nodes r (l r) (r + 1)) (has-init i (r ∷ l r) (r + 1) h)
                      outside)
                    (nodes-ne v i p r q ir iq ne (has-init i (r ∷ l r) (r + 1) h) hp))
                (λ i h.
                  prev i (ne_of_has i pid (nodes r (l r) (r + 1)) (ground arith) outside)
                    (nodes-ne v i n r q ir iq ne (ground arith) hn))
                old.linked;
          distinct = old.distinct;
          pids = old.pids;
          tail_key = keys (r + 1) (omega arith) ∙ old.tail_key;
        }

module _ {t : Table} {l : ℕ → List ℕ} (v : Queues t l) (t' : Table) (q : ℕ) (iq : IsQid q) where
  other-has : (r i : ℕ) → IsQid r → r ≢ q → has i (l q) ≡ true → has i (l r) ≡ false
  other-has r i ir ne h = ground (arith, v.apart r q i ir iq)

  pub Queues-splice :
      (xs ys : List ℕ) (pid : ℕ)
      → l q ≡ xs ++ ys
      → pid < nproc
      → IsOff l pid
      → Spliced t t' (last q xs) pid (first ys (q + 1))
      → SameEndKeys t t'
      → Queues t' (update l q (xs ++ pid ∷ ys))
  Queues-splice xs ys pid e low off s keys =
      let old = rw e at (v.each q iq) in
      let new : has pid (xs ++ ys) ≡ false = rw (← e) (off q iq) in
      Queues-update v t' q iq (xs ++ pid ∷ ys)
        (record {
          linked =
              Linked-splice t t' q xs ys (q + 1) pid old.linked s
                (Distinct-nodes q (xs ++ ys) iq.0 old.pids old.distinct)
                (rw (← e) (off-nodes v pid q iq low (off q iq)));
          distinct = Distinct-insert xs pid ys new old.distinct;
          pids = Pids-insert xs pid ys low old.pids;
          tail_key = keys (q + 1) (omega arith) ∙ old.tail_key;
        })
        (λ r ir ne.
          other-IsQueue v t' q iq xs (last q xs) (first ys (q + 1))
            (rw e (has-last q xs ys (q + 1)))
            (rw e (
              has-cons (first ys (q + 1)) q ((xs ++ ys) ++ (q + 1) ∷ []) (has-first xs ys (q + 1))))
            keys pid r ir ne low (off r ir) s.next_other s.prev_other)
        (λ r i ir ne h.
          ground (arith, has-insert i xs pid ys, other-has r i ir ne, off r ir, ap (has i) e))

  pub Queues-unsplice :
      (xs ys : List ℕ) (pid : ℕ)
      → l q ≡ xs ++ pid ∷ ys
      → Unspliced t t' (last q xs) (first ys (q + 1))
      → SameEndKeys t t'
      → Queues t' (update l q (xs ++ ys)) × IsOff (update l q (xs ++ ys)) pid
  unfolding update
  Queues-unsplice xs ys pid e s keys =
      let old = rw e at (v.each q iq) in
      let less = Distinct-remove xs pid ys old.distinct in
      let on : has pid (xs ++ pid ∷ ys) ≡ true = ground (arith, has-insert pid xs pid ys) in
      (
        Queues-update v t' q iq (xs ++ ys)
            (record {
              linked =
                  Linked-unsplice t t' q xs ys (q + 1) pid old.linked s
                    (Distinct-nodes q (xs ++ pid ∷ ys) iq.0 old.pids old.distinct);
              distinct = less.0;
              pids = Pids-remove xs pid ys old.pids;
              tail_key = keys (q + 1) (omega arith) ∙ old.tail_key;
            })
            (λ r ir ne.
              other-IsQueue v t' q iq xs (last q xs) (first ys (q + 1))
                (rw e (has-last q xs (pid ∷ ys) (q + 1)))
                (rw e (
                  has-cons (first ys (q + 1)) q ((xs ++ pid ∷ ys) ++ (q + 1) ∷ [])
                    (has-next xs pid ys (q + 1))))
                keys pid r ir ne (lt_of_has pid (xs ++ pid ∷ ys) old.pids on)
                (other-has r pid ir ne (rw e on)) (λ i h g. s.next_other i g)
                (λ i h g. s.prev_other i g))
            (λ r i ir ne h. other-has r i ir ne (rw e (ground (arith, has-insert i xs pid ys)))),
        λ r ir. ground (arith, less.1, other-has r pid ir, ap (has pid) e),
      )

module _ {t : Table} {l : ℕ → List ℕ} (v : Queues t l) (q : ℕ) (iq : IsQid q) where
  -- A process that is on no queue differs from the neighbours that it gets.
  module _ (xs ys : List ℕ) (pid : ℕ) (e : l q ≡ xs ++ ys) (low : pid < nproc)
      (off : has pid (l q) ≡ false) where
    outside : has pid (nodes q (xs ++ ys) (q + 1)) ≡ false
    outside = rw (← e) (off-nodes v pid q iq low off)

    pub ne-last : pid ≢ last q xs
    ne-last h =
        ne_of_has (last q xs) pid (nodes q (xs ++ ys) (q + 1)) (has-last q xs ys (q + 1)) outside
          (sym h)

    pub ne-first : pid ≢ first ys (q + 1)
    ne-first h =
        ne_of_has (first ys (q + 1)) pid (nodes q (xs ++ ys) (q + 1))
          (has-cons (first ys (q + 1)) q ((xs ++ ys) ++ (q + 1) ∷ []) (has-first xs ys (q + 1)))
          outside (sym h)
