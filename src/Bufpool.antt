-- ===== src/Bufpool.antt =====
-- Buffer pools: xinu/system/bufinit.c, mkbufpool.c, getbuf.c and freebuf.c. The free buffers of a
-- pool are linked through their first words; a buffer in use holds its pool's id there.
use xinu_c_mips.Base.{
  ℕ, zero, suc, ◌+◌, ◌-◌, ◌*◌, ◌/◌, ◌%◌, ◌^◌, ◌||◌, ltb_ℤ, leb_ℤ, eqb_ℤ, ◌==◌, if◌then◌else◌, ℤ,
  pos, pos_part, ◌+ℤ◌, ◌-ℤ◌, wrap32, update, to_uint32, to_int32,
}
use xinu_c_mips.Kernel.{Cmd, Bpentry, pure, get, modify, ◌>>=◌, ◌>>◌, index, ok, syserr}
use xinu_c_mips.Semaphore.{semcreate, wait, signal}
use xinu_c_mips.Memory.{load, store, getmem, add32, sub32, syserr_ptr}

abbrev pub nbpools_max : ℕ
nbpools_max = 20

abbrev pub bp_maxb : ℕ
bp_maxb = 8192

abbrev pub bp_minb : ℕ
bp_minb = 8

abbrev pub bp_maxn : ℕ
bp_maxn = 2048

unfoldable pub pool_at : ℤ → Cmd Bpentry
pool_at z = do i ← index nbpools_max z; k ← get; pure (k.buftab i)

unfoldable pub update_pool : ℤ → (Bpentry → Bpentry) → Cmd (Unit {0})
update_pool z f = do
  i ← index nbpools_max z
  modify λ k. record k { buftab = update k.buftab i (f (k.buftab i)) }

unfoldable pub bufinit : Cmd ℤ
bufinit = modify (λ k. record k { nbpools = pos 0 }) >> pure ok

-- Links `n` further buffers of `size` bytes behind the one at `buf`; the last link is null.
unfoldable pub link_bufs : ℕ → ℕ → ℕ → Cmd (Unit {0})
link_bufs zero size buf = store buf 0
link_bufs (suc n) size buf = do store buf (add32 buf size); link_bufs n size (add32 buf size)

unfoldable pub mkbufpool : ℤ → ℤ → Cmd ℤ
mkbufpool bufsiz numbufs = do
  k ← get
  if ltb_ℤ bufsiz (pos bp_minb)
        || ltb_ℤ (pos bp_maxb) bufsiz
        || ltb_ℤ numbufs (pos 1)
        || ltb_ℤ (pos bp_maxn) numbufs
        || leb_ℤ (pos nbpools_max) k.nbpools
      then pure syserr
      else (do
        let size = (pos_part bufsiz + 3) / 4 * 4
        buf ← getmem (pos_part numbufs * (size + 4) % 2 ^ 32)
        if buf == syserr_ptr then pure syserr else do
          k ← get
          let poolid = k.nbpools
          modify λ k. record k { nbpools = wrap32 (k.nbpools +ℤ pos 1) }
          update_pool poolid λ b. record b { bpnext = buf; bpsize = size }
          sem ← semcreate numbufs
          update_pool poolid λ b. record b { bpsem = sem }
          if eqb_ℤ sem syserr
              then (do modify λ k. record k { nbpools = wrap32 (k.nbpools -ℤ pos 1) }; pure syserr)
              else (do link_bufs (pos_part numbufs - 1) (size + 4) buf; pure poolid))

-- The result of `wait` is not looked at.
unfoldable pub getbuf : ℤ → Cmd ℕ
getbuf poolid = do
  k ← get
  if ltb_ℤ poolid (pos 0) || leb_ℤ k.nbpools poolid then pure syserr_ptr else do
    b ← pool_at poolid
    wait b.bpsem
    b ← pool_at poolid
    let bufptr = b.bpnext
    next ← load bufptr
    update_pool poolid λ b. record b { bpnext = next }
    store bufptr (to_uint32 poolid)
    pure (add32 bufptr 4)

unfoldable pub freebuf : ℕ → Cmd ℤ
freebuf bufaddr = do
  let block = sub32 bufaddr 4
  word ← load block
  let poolid = to_int32 word
  k ← get
  if ltb_ℤ poolid (pos 0) || leb_ℤ k.nbpools poolid then pure syserr else do
    b ← pool_at poolid
    store block b.bpnext
    update_pool poolid λ b. record b { bpnext = block }
    signal b.bpsem
    pure ok
