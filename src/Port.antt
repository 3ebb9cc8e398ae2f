-- ===== src/Port.antt =====
-- Communication ports: xinu/system/ptinit.c, ptcreate.c, ptsend.c, ptrecv.c, ptcount.c, ptclear.c,
-- ptreset.c and ptdelete.c. A message node holds two words, the message and the next node.
use xinu_c_mips.Base.{
  ℕ, zero, suc, ◌+◌, ◌-◌, ◌*◌, ◌%◌, ◌^◌, Bool, not, ◌||◌, ltb, leb, ltb_ℤ, leb_ℤ, eqb_ℤ, ◌==◌,
  if◌then◌else◌, ℤ, pos, pos_part, ◌+ℤ◌, ◌-ℤ◌, wrap32, update, to_uint32,
}
use xinu_c_mips.Kernel.{
  Cmd, Ptentry, out_of_fuel, pure, get, modify, ◌>>=◌, ◌>>◌, index, ok, syserr,
}
use xinu_c_mips.Semaphore.{semcreate, semreset, semdelete, semcount, wait, signal}
use xinu_c_mips.Memory.{load, store, getmem, add32, syserr_ptr}
use xinu_c_mips.Message.{syserr_msg}

abbrev pub nports : ℕ
nports = 30

abbrev pub pt_free : ℕ
pt_free = 1

abbrev pub pt_limbo : ℕ
pt_limbo = 2

abbrev pub pt_alloc : ℕ
pt_alloc = 3

-- The fields of a `struct ptnode` at an address.
abbrev pub ptmsg : ℕ → ℕ
ptmsg p = p

abbrev pub ptnext : ℕ → ℕ
ptnext p = p + 4

unfoldable pub isbadport : ℤ → Bool
isbadport portid = ltb_ℤ portid (pos 0) || leb_ℤ (pos nports) portid

unfoldable pub port_at : ℤ → Cmd Ptentry
port_at z = do i ← index nports z; k ← get; pure (k.porttab i)

unfoldable pub update_port : ℤ → (Ptentry → Ptentry) → Cmd (Unit {0})
update_port z f = do
  i ← index nports z
  modify λ k. record k { porttab = update k.porttab i (f (k.porttab i)) }

-- Links `n` further nodes behind the one at `node`; the last link is null.
unfoldable pub link_nodes : ℕ → ℕ → Cmd (Unit {0})
link_nodes zero node = store (ptnext node) 0
link_nodes (suc n) node = do store (ptnext node) (add32 node 8); link_nodes n (add32 node 8)

abbrev pub reset_ports : ℕ → (ℕ → Ptentry) → ℕ → Ptentry
reset_ports n t i = if ltb i n then record (t i) { ptstate = pt_free; ptseq = pos 0 } else t i

-- `panic`, which the repository does not define, is a parameter.
module _ (panic : Cmd (Unit {0})) where
  unfoldable pub ptinit : ℤ → Cmd ℤ
  ptinit maxmsgs = do
    free ← getmem (to_uint32 maxmsgs * 8 % 2 ^ 32)
    modify λ k. record k { ptfree = free }
    if free == syserr_ptr then panic else pure tt
    modify λ k. record k { porttab = reset_ports nports k.porttab; ptnextid = 0 }
    link_nodes (pos_part maxmsgs - 1) free
    pure ok

-- The loop of `ptcreate`, with the number of entries still to try.
unfoldable pub ptcreate_loop : ℕ → ℤ → Cmd ℤ
ptcreate_loop zero count = pure syserr
ptcreate_loop (suc i) count = do
  k ← get
  let ptnum = k.ptnextid
  modify λ k. record k { ptnextid = if leb nports (ptnum + 1) then 0 else ptnum + 1 }
  p ← port_at (pos ptnum)
  if p.ptstate == pt_free
      then (do
        update_port (pos ptnum) λ p. record p { ptstate = pt_alloc }
        ssem ← semcreate count
        update_port (pos ptnum) λ p. record p { ptssem = ssem }
        rsem ← semcreate (pos 0)
        update_port (pos ptnum) λ p. record p {
          ptrsem = rsem;
          pthead = 0;
          pttail = 0;
          ptseq = wrap32 (p.ptseq +ℤ pos 1);
          ptmaxcnt = pos_part count % 2 ^ 16;
        }
        pure (pos ptnum))
      else ptcreate_loop i count

unfoldable pub ptcreate : ℤ → Cmd ℤ
ptcreate count = if ltb_ℤ count (pos 0) then pure syserr else ptcreate_loop nports count

-- `panic`, which the repository does not define, is a parameter.
module _ (panic : Cmd (Unit {0})) where
  unfoldable pub ptsend : ℤ → ℕ → Cmd ℤ
  ptsend portid msg = if isbadport portid then pure syserr else do
    p ← port_at portid
    if not (p.ptstate == pt_alloc) then pure syserr else do
      let seq = p.ptseq
      r ← wait p.ptssem
      p ← port_at portid
      if eqb_ℤ r syserr || not (p.ptstate == pt_alloc) || not (eqb_ℤ p.ptseq seq)
          then pure syserr
          else do
            k ← get
            if k.ptfree == 0 then panic else pure tt
            let msgnode = k.ptfree
            next ← load (ptnext msgnode)
            modify λ k. record k { ptfree = next }
            store (ptnext msgnode) 0
            store (ptmsg msgnode) msg
            if p.pttail == 0
                then (update_port portid λ p. record p { pttail = msgnode; pthead = msgnode })
                else (do
                  store (ptnext p.pttail) msgnode
                  update_port portid λ p. record p { pttail = msgnode })
            signal p.ptrsem
            pure ok

unfoldable pub ptrecv : ℤ → Cmd ℕ
ptrecv portid = if isbadport portid then pure syserr_msg else do
  p ← port_at portid
  if not (p.ptstate == pt_alloc) then pure syserr_msg else do
    let seq = p.ptseq
    r ← wait p.ptrsem
    p ← port_at portid
    if eqb_ℤ r syserr || not (p.ptstate == pt_alloc) || not (eqb_ℤ p.ptseq seq)
        then pure syserr_msg
        else (do
          let msgnode = p.pthead
          msg ← load (ptmsg msgnode)
          if p.pthead == p.pttail
              then (update_port portid λ p. record p { pthead = 0; pttail = 0 })
              else (do
                next ← load (ptnext msgnode)
                update_port portid λ p. record p { pthead = next })
          k ← get
          store (ptnext msgnode) k.ptfree
          modify λ k. record k { ptfree = msgnode }
          signal p.ptssem
          pure msg)

unfoldable pub ptcount : ℤ → Cmd ℤ
ptcount portid = if isbadport portid then pure syserr else do
  p ← port_at portid
  if not (p.ptstate == pt_alloc) then pure syserr else do
    count ← semcount p.ptrsem
    if leb_ℤ (pos 0) count
        then (do
          sndcnt ← semcount p.ptssem
          pure (if ltb_ℤ sndcnt (pos 0) then wrap32 (count -ℤ sndcnt) else count))
        else pure count

-- A walk of the message list that disposes of each message. It takes a bound on the list's length.
unfoldable pub dispose_loop : ℕ → (ℕ → Cmd ℤ) → ℕ → Cmd (Unit {0})
dispose_loop zero dispose walk = λ _. out_of_fuel
dispose_loop (suc fuel) dispose walk = if walk == 0 then pure tt else do
  msg ← load (ptmsg walk)
  dispose msg
  next ← load (ptnext walk)
  dispose_loop fuel dispose next

-- `_ptclear`; `fuel` bounds the messages in the port.
unfoldable pub ptclear : ℕ → ℤ → ℕ → (ℕ → Cmd ℤ) → Cmd (Unit {0})
ptclear fuel portid newstate dispose = do
  update_port portid λ p. record p { ptstate = pt_limbo; ptseq = wrap32 (p.ptseq +ℤ pos 1) }
  p ← port_at portid
  if not (p.pthead == 0)
      then (do
        dispose_loop fuel dispose p.pthead
        p ← port_at portid
        k ← get
        store (ptnext p.pttail) k.ptfree
        modify λ k. record k { ptfree = p.pthead })
      else pure tt
  if newstate == pt_alloc
      then (do
        update_port portid λ p. record p { pttail = 0; pthead = 0 }
        p ← port_at portid
        semreset p.ptssem (pos p.ptmaxcnt)
        p ← port_at portid
        semreset p.ptrsem (pos 0)
        pure tt)
      else (do
        p ← port_at portid
        semdelete p.ptssem
        p ← port_at portid
        semdelete p.ptrsem
        pure tt)
  update_port portid λ p. record p { ptstate = newstate }

unfoldable pub ptreset : ℕ → ℤ → (ℕ → Cmd ℤ) → Cmd ℤ
ptreset fuel portid dispose = if isbadport portid then pure syserr else do
  p ← port_at portid
  if not (p.ptstate == pt_alloc)
      then pure syserr
      else do ptclear fuel portid pt_alloc dispose; pure ok

unfoldable pub ptdelete : ℕ → ℤ → (ℕ → Cmd ℤ) → Cmd ℤ
ptdelete fuel portid dispose = if isbadport portid then pure syserr else do
  p ← port_at portid
  if not (p.ptstate == pt_alloc) then pure syserr else do
    ptclear fuel portid pt_free dispose
    modify λ k. record k { ptnextid = pos_part portid }
    pure ok
