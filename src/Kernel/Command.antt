-- ===== src/Kernel/Command.antt =====
-- Commands over the kernel's state. A command ends with a result, or reaches `ctxsw`: then another
-- process runs on the state, and the rest of the command waits for this process to be resumed.
use xinu_c_mips.Base.{ℕ, ◌<◌, ◌≡◌, ltb, lt→ltb, if◌then◌else◌, ℤ, pos, negsuc, update}
use xinu_c_mips.Kernel.State.{Kernel, Qentry, Procent, Sentry, nqent, nproc, nsem}

-- `fault`: an access outside a table, or to a null pointer. `halted`: the system stopped.
pub data Run (A : Type 0) : Type 0 where
  done : A → Kernel → Run A
  switch : Kernel → (Kernel → Run A) → Run A
  fault : Run A
  out_of_fuel : Run A
  halted : Kernel → Run A

abbrev pub Cmd : Type 0 → Type 0
Cmd A = Kernel → Run A

abbrev pub pure : {A : Type 0} → A → Cmd A
pure = done

module _ {A B : Type 0} where
  abbrev pub and_then : Run A → (A → Cmd B) → Run B
  and_then (done a k) f = f a k
  and_then (switch k rest) f = switch k (λ k'. and_then (rest k') f)
  and_then fault f = fault
  and_then out_of_fuel f = out_of_fuel
  and_then (halted k) f = halted k

  infixl 5 ◌>>=◌ ◌>>◌
  abbrev pub ◌>>=◌ : Cmd A → (A → Cmd B) → Cmd B
  m >>= f = λ k. and_then (m k) f

  abbrev pub ◌>>◌ : Cmd A → Cmd B → Cmd B
  m >> n = m >>= λ _. n

abbrev pub get : Cmd Kernel
get k = done k k

abbrev pub put : Kernel → Cmd (Unit {0})
put k _ = done tt k

abbrev pub modify : (Kernel → Kernel) → Cmd (Unit {0})
modify f k = done tt (f k)

-- An index into a table of `bound` entries.
unfoldable pub index : ℕ → ℤ → Cmd ℕ
index bound (pos i) k = if ltb i bound then done i k else fault
index bound (negsuc n) k = fault

pub index-pos : (bound i : ℕ) (k : Kernel) → i < bound → index bound (pos i) k ≡ done i k
unfolding index
index-pos bound i k h = rw (lt→ltb i bound h)

-- `ctxsw`: the caller's context is saved, and goes on when its process is resumed.
unfoldable pub ctxsw : Cmd (Unit {0})
ctxsw k = switch k (done tt)

-- `queuetab[i]`
unfoldable pub queue_at : ℤ → Cmd Qentry
queue_at z = do i ← index nqent z; k ← get; pure (k.queuetab i)

module _ (t : ℕ → Qentry) (i : ℕ) (v : ℤ) where
  unfoldable pub with_qnext : ℕ → Qentry
  with_qnext = update t i (record (t i) { qnext = v })

  unfoldable pub with_qprev : ℕ → Qentry
  with_qprev = update t i (record (t i) { qprev = v })

  unfoldable pub with_qkey : ℕ → Qentry
  with_qkey = update t i (record (t i) { qkey = v })

-- `queuetab[i].qnext = v`, and so on
unfoldable pub set_qnext : ℤ → ℤ → Cmd (Unit {0})
set_qnext z v = do i ← index nqent z; modify λ k. record k { queuetab = with_qnext k.queuetab i v }

unfoldable pub set_qprev : ℤ → ℤ → Cmd (Unit {0})
set_qprev z v = do i ← index nqent z; modify λ k. record k { queuetab = with_qprev k.queuetab i v }

unfoldable pub set_qkey : ℤ → ℤ → Cmd (Unit {0})
set_qkey z v = do i ← index nqent z; modify λ k. record k { queuetab = with_qkey k.queuetab i v }

-- `proctab[i]`
unfoldable pub proc_at : ℤ → Cmd Procent
proc_at z = do i ← index nproc z; k ← get; pure (k.proctab i)

-- A write to some fields of `proctab[i]`.
unfoldable pub update_proc : ℤ → (Procent → Procent) → Cmd (Unit {0})
update_proc z f = do
  i ← index nproc z
  modify λ k. record k { proctab = update k.proctab i (f (k.proctab i)) }

-- `semtab[i]`
unfoldable pub sem_at : ℤ → Cmd Sentry
sem_at z = do i ← index nsem z; k ← get; pure (k.semtab i)

unfoldable pub update_sem : ℤ → (Sentry → Sentry) → Cmd (Unit {0})
update_sem z f = do
  i ← index nsem z
  modify λ k. record k { semtab = update k.semtab i (f (k.semtab i)) }

module _ (i : ℕ) (k : Kernel) (h : i < nqent) where
  pub queue_at-pos : queue_at (pos i) k ≡ done (k.queuetab i) k
  unfolding queue_at
  queue_at-pos = rw (index-pos nqent i k h)

  pub set_qnext-pos :
      (v : ℤ) → set_qnext (pos i) v k ≡ done tt (record k { queuetab = with_qnext k.queuetab i v })
  unfolding set_qnext
  set_qnext-pos v = rw (index-pos nqent i k h)

  pub set_qprev-pos :
      (v : ℤ) → set_qprev (pos i) v k ≡ done tt (record k { queuetab = with_qprev k.queuetab i v })
  unfolding set_qprev
  set_qprev-pos v = rw (index-pos nqent i k h)

  pub set_qkey-pos :
      (v : ℤ) → set_qkey (pos i) v k ≡ done tt (record k { queuetab = with_qkey k.queuetab i v })
  unfolding set_qkey
  set_qkey-pos v = rw (index-pos nqent i k h)

module _ (i : ℕ) (k : Kernel) where
  pub proc_at-pos : i < nproc → proc_at (pos i) k ≡ done (k.proctab i) k
  unfolding proc_at
  proc_at-pos h = rw (index-pos nproc i k h)

  pub update_proc-pos :
      (f : Procent → Procent)
      → i < nproc
      → update_proc (pos i) f k
        ≡ done tt (record k { proctab = update k.proctab i (f (k.proctab i)) })
  unfolding update_proc
  update_proc-pos f h = rw (index-pos nproc i k h)

  pub sem_at-pos : i < nsem → sem_at (pos i) k ≡ done (k.semtab i) k
  unfolding sem_at
  sem_at-pos h = rw (index-pos nsem i k h)

  pub update_sem-pos :
      (f : Sentry → Sentry)
      → i < nsem
      → update_sem (pos i) f k ≡ done tt (record k { semtab = update k.semtab i (f (k.semtab i)) })
  unfolding update_sem
  update_sem-pos f h = rw (index-pos nsem i k h)
