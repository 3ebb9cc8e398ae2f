-- ===== src/Memory.antt =====
-- The heap: xinu/system/getmem.c, freemem.c and getstk.c. A free block holds two words, the address
-- of the next free block and its own length; `memlist` is such a pair too. The free list is in
-- ascending order of addresses, so a walk of it takes at most `maxheap + 1` rounds.
pub mod Blocks
pub mod Allocation
pub mod Getmem
pub mod Release
pub mod Between
pub mod Behind
pub mod Freemem
pub mod Undo
pub mod RoundTrip
use xinu_c_mips.Base.{
  ℕ, zero, suc, ◌+◌, ◌-◌, ◌*◌, ◌/◌, ◌%◌, ◌^◌, not, ◌&&◌, ◌||◌, ltb, leb, ◌==◌, if◌then◌else◌, ℤ,
  update,
}
use xinu_c_mips.Kernel.{Cmd, done, out_of_fuel, pure, get, ◌>>=◌, ◌>>◌, ok, syserr}

-- A word of memory.
unfoldable pub load : ℕ → Cmd ℕ
load a k = done (k.mem a) k

unfoldable pub store : ℕ → ℕ → Cmd (Unit {0})
store a v k = done tt (record k { mem = update k.mem a v })

abbrev pub add32 : ℕ → ℕ → ℕ
add32 a b = (a + b) % 2 ^ 32

abbrev pub sub32 : ℕ → ℕ → ℕ
sub32 a b = (a + 2 ^ 32 - b) % 2 ^ 32

-- `roundmb`: up to a multiple of 8, as a 32-bit word.
unfoldable pub roundmb : ℕ → ℕ
roundmb x = (7 + x) % 2 ^ 32 / 8 * 8

-- `(char *)SYSERR`
abbrev pub syserr_ptr : ℕ
syserr_ptr = 0xffff_ffff

-- The fields of a `struct memblk` at an address.
abbrev pub mnext : ℕ → ℕ
mnext p = p

abbrev pub mlength : ℕ → ℕ
mlength p = p + 4

-- `memlist.mlength -= nbytes` and `+=`
unfoldable pub take_free : ℕ → Cmd (Unit {0})
take_free nbytes = do
  k ← get
  total ← load (mlength k.memlist)
  store (mlength k.memlist) (sub32 total nbytes)

unfoldable pub give_free : ℕ → Cmd (Unit {0})
give_free nbytes = do
  k ← get
  total ← load (mlength k.memlist)
  store (mlength k.memlist) (add32 total nbytes)

unfoldable pub getmem_loop : ℕ → ℕ → ℕ → ℕ → Cmd ℕ
getmem_loop zero nbytes prev curr = λ _. out_of_fuel
getmem_loop (suc fuel) nbytes prev curr = if curr == 0 then pure syserr_ptr else do
  len ← load (mlength curr)
  if len == nbytes
      then (do next ← load (mnext curr); store (mnext prev) next; take_free nbytes; pure curr)
      else if ltb nbytes len
      then (do
        let leftover = add32 curr nbytes
        store (mnext prev) leftover
        next ← load (mnext curr)
        store (mnext leftover) next
        len ← load (mlength curr)
        store (mlength leftover) (sub32 len nbytes)
        take_free nbytes
        pure curr)
      else (do next ← load (mnext curr); getmem_loop fuel nbytes curr next)

unfoldable pub getmem : ℕ → Cmd ℕ
getmem nbytes = if nbytes == 0 then pure syserr_ptr else do
  k ← get
  curr ← load (mnext k.memlist)
  getmem_loop (suc k.maxheap) (roundmb nbytes) k.memlist curr

-- The walk of `freemem`: the neighbours of the block, by address.
unfoldable pub freemem_loop : ℕ → ℕ → ℕ → ℕ → Cmd (ℕ × ℕ)
freemem_loop zero block prev next = λ _. out_of_fuel
freemem_loop (suc fuel) block prev next =
    if not (next == 0) && ltb next block
    then (do after ← load (mnext next); freemem_loop fuel block next after)
    else pure (prev, next)

-- The block is put behind `prev`, or joins it. The result is the block that now holds it.
unfoldable pub link_block : ℕ → ℕ → ℕ → ℕ → ℕ → Cmd ℕ
link_block blkaddr nbytes prev next top =
    if top == blkaddr
    then (do plen ← load (mlength prev); store (mlength prev) (add32 plen nbytes); pure prev)
    else (do
      store (mnext blkaddr) next
      store (mlength blkaddr) nbytes
      store (mnext prev) blkaddr
      pure blkaddr)

-- The block takes in the one behind it when they touch.
unfoldable pub join_next : ℕ → ℕ → Cmd (Unit {0})
join_next block next = do
  blen ← load (mlength block)
  if add32 block blen == next
      then (do
        nlen ← load (mlength next)
        store (mlength block) (add32 blen nlen)
        after ← load (mnext next)
        store (mnext block) after)
      else pure tt

-- `freemem` from the two neighbours on.
unfoldable pub freemem_between : ℕ → ℕ → ℕ → ℕ → Cmd ℤ
freemem_between blkaddr nbytes prev next = do
  k ← get
  plen ← load (mlength prev)
  let top = if prev == k.memlist then 0 else add32 prev plen
  if (not (prev == k.memlist) && ltb blkaddr top)
        || (not (next == 0) && ltb next (add32 blkaddr nbytes))
      then pure syserr
      else (do
        give_free nbytes
        block ← link_block blkaddr nbytes prev next top
        join_next block next
        pure ok)

unfoldable pub freemem : ℕ → ℕ → Cmd ℤ
freemem blkaddr size = do
  k ← get
  if (size == 0) || ltb blkaddr k.minheap || ltb k.maxheap blkaddr then pure syserr else do
    let nbytes = roundmb size
    first ← load (mnext k.memlist)
    (prev, next) ← freemem_loop (suc k.maxheap) blkaddr k.memlist first
    freemem_between blkaddr nbytes prev next

-- The walk of `getstk` over the whole list: the last block that fits, and the one before it.
unfoldable pub getstk_loop : ℕ → ℕ → ℕ → ℕ → ℕ → ℕ → Cmd (ℕ × ℕ)
getstk_loop zero nbytes prev curr fits fitsprev = λ _. out_of_fuel
getstk_loop (suc fuel) nbytes prev curr fits fitsprev =
    if curr == 0 then pure (fits, fitsprev) else do
      len ← load (mlength curr)
      next ← load (mnext curr)
      if leb nbytes len
          then getstk_loop fuel nbytes curr next curr prev
          else getstk_loop fuel nbytes curr next fits fitsprev

unfoldable pub getstk : ℕ → Cmd ℕ
getstk size = if size == 0 then pure syserr_ptr else do
  let nbytes = roundmb size
  k ← get
  first ← load (mnext k.memlist)
  (fits, fitsprev) ← getstk_loop (suc k.maxheap) nbytes k.memlist first 0 0
  if fits == 0 then pure syserr_ptr else do
    len ← load (mlength fits)
    top ←
        if nbytes == len
        then (do after ← load (mnext fits); store (mnext fitsprev) after; pure fits)
        else (do store (mlength fits) (sub32 len nbytes); pure (add32 fits (sub32 len nbytes)))
    take_free nbytes
    pure (sub32 (add32 top nbytes) 4)

-- The macro `freestk`
unfoldable pub freestk : ℕ → ℕ → Cmd ℤ
freestk p len = freemem (add32 (sub32 p (roundmb len)) 4) (roundmb len)
