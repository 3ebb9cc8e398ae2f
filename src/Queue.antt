-- ===== src/Queue.antt =====
-- The process queues: xinu/system/queue.c, getitem.c, insert.c, insertd.c, newqueue.c and the
-- macros of xinu/include/queue.h. A loop over a queue visits each entry of the table at most once,
-- so it is given `nqent` rounds.
pub mod Chain
pub mod Table
pub mod Splice
pub mod Frame
pub mod Links
pub mod Fifo
pub mod Insert
pub mod Due
pub mod Shorten
pub mod Delta
pub mod Timed
pub mod Removal
use xinu_c_mips.Base.{
  ℕ, zero, suc, ◌+◌, Bool, ◌||◌, not, ltb, leb_ℤ, eqb_ℤ, if◌then◌else◌, ℤ, pos, ◌+ℤ◌, ◌-ℤ◌, wrap32,
}
use xinu_c_mips.Kernel.{
  Cmd, out_of_fuel, pure, get, modify, ◌>>=◌, ◌>>◌, nproc, nqent, empty, syserr, ok, maxkey, minkey,
  isbadqid, isbadpid, queue_at, set_qnext, set_qprev, set_qkey,
}

abbrev pub queuehead : ℤ → ℤ
queuehead q = q

unfoldable pub queuetail : ℤ → ℤ
unfolding ◌+ℤ◌
queuetail q = q +ℤ pos 1

unfoldable pub firstid : ℤ → Cmd ℤ
firstid q = do h ← queue_at (queuehead q); pure h.qnext

unfoldable pub isempty : ℤ → Cmd Bool
isempty q = do first ← firstid q; pure (leb_ℤ (pos nproc) first)

unfoldable pub nonempty : ℤ → Cmd Bool
nonempty q = do first ← firstid q; pure (not (leb_ℤ (pos nproc) first))

unfoldable pub firstkey : ℤ → Cmd ℤ
firstkey q = do first ← firstid q; e ← queue_at first; pure e.qkey

unfoldable pub enqueue : ℤ → ℤ → Cmd ℤ
enqueue pid q = do
  k ← get
  if isbadqid q || isbadpid k pid then pure syserr else do
    let tail = queuetail q
    t ← queue_at tail
    let prev = t.qprev
    set_qnext pid tail
    set_qprev pid prev
    set_qnext prev pid
    set_qprev tail pid
    pure pid

unfoldable pub getitem : ℤ → Cmd ℤ
getitem pid = do
  e ← queue_at pid
  let next = e.qnext
  let prev = e.qprev
  set_qnext prev next
  set_qprev next prev
  pure pid

unfoldable pub getfirst : ℤ → Cmd ℤ
getfirst q = do
  none_left ← isempty q
  if none_left then pure empty else do h ← queue_at (queuehead q); getitem h.qnext

unfoldable pub getlast : ℤ → Cmd ℤ
getlast q = do
  none_left ← isempty q
  if none_left then pure empty else do t ← queue_at (queuetail q); getitem t.qprev

unfoldable pub dequeue : ℤ → Cmd ℤ
dequeue q = if isbadqid q then pure syserr else do
  none_left ← isempty q
  if none_left
      then pure empty
      else do pid ← getfirst q; set_qprev pid empty; set_qnext pid empty; pure pid

-- The search of `insert`: the first entry whose key is below `key`.
unfoldable pub insert_loop : ℕ → ℤ → ℤ → Cmd ℤ
insert_loop zero curr key = λ _. out_of_fuel
insert_loop (suc fuel) curr key = do
  e ← queue_at curr
  if leb_ℤ key e.qkey then insert_loop fuel e.qnext key else pure curr

unfoldable pub insert : ℤ → ℤ → ℤ → Cmd ℤ
insert pid q key = do
  k ← get
  if isbadqid q || isbadpid k pid then pure syserr else do
    first ← firstid q
    curr ← insert_loop nqent first key
    c ← queue_at curr
    let prev = c.qprev
    set_qnext pid curr
    set_qprev pid prev
    set_qkey pid key
    set_qnext prev pid
    set_qprev curr pid
    pure ok

-- The search of `insertd`: it ends with `prev`, `next` and the delay that is left.
unfoldable pub insertd_loop : ℕ → ℤ → ℤ → ℤ → ℤ → Cmd (ℤ × ℤ × ℤ)
insertd_loop zero q prev next key = λ _. out_of_fuel
insertd_loop (suc fuel) q prev next key =
    if eqb_ℤ next (queuetail q) then pure (prev, next, key) else do
      e ← queue_at next
      if leb_ℤ e.qkey key
          then insertd_loop fuel q next e.qnext (wrap32 (key -ℤ e.qkey))
          else pure (prev, next, key)

unfoldable pub insertd : ℤ → ℤ → ℤ → Cmd ℤ
insertd pid q delay = do
  k ← get
  if isbadqid q || isbadpid k pid then pure syserr else do
    h ← queue_at (queuehead q)
    (prev, next, key) ← insertd_loop nqent q (queuehead q) h.qnext delay
    set_qnext pid next
    set_qprev pid prev
    set_qkey pid key
    set_qnext prev pid
    set_qprev next pid
    if eqb_ℤ next (queuetail q)
        then pure ok
        else do e ← queue_at next; set_qkey next (wrap32 (e.qkey -ℤ key)); pure ok

-- `q > NQENT` is the source's test, though the table ends at `NQENT - 1`.
unfoldable pub newqueue : Cmd ℤ
newqueue = do
  k ← get
  let q = pos k.nextqid
  if ltb nqent k.nextqid then pure syserr else do
    modify λ k. record k { nextqid = k.nextqid + 2 }
    set_qnext (queuehead q) (queuetail q)
    set_qprev (queuehead q) empty
    set_qkey (queuehead q) maxkey
    set_qnext (queuetail q) empty
    set_qprev (queuetail q) (queuehead q)
    set_qkey (queuetail q) minkey
    pure q
