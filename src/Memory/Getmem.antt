-- ===== src/Memory/Getmem.antt =====
-- `getmem` implements first fit on the list of free blocks.
use xinu_c_mips.Base.{
  ℕ, zero, suc, ◌+◌, ◌-◌, ◌%◌, ◌^◌, ◌<◌, ◌≤◌, ◌≡◌, ◌≢◌, refl, sym, ◌∙◌, List, [], ◌∷◌, length, ltb,
  ◌==◌, eq→==, ne→==, Bool-cases, inl, inr, arith, ltb→lt,
}
use xinu_c_mips.Kernel.{Kernel, done}
use xinu_c_mips.Memory.{load, getmem, getmem_loop, store, roundmb, take_free}
use xinu_c_mips.Memory.Blocks.{Blocks, length-Blocks, first_fit, roundmb-bounds}
use xinu_c_mips.Memory.Allocation.{Grant, Grant-keep, take_whole, take_front}

load-run : (p : ℕ) (k : Kernel) → load p k ≡ done (k.mem p) k
unfolding load
load-run p k = refl

module _ (k : Kernel) (size hi : ℕ) (small : hi < 2 ^ 32) (round : size % 8 ≡ 0)
    (some_size : 0 < size) where
  getmem_loop-Grant :
      (fuel a lo curr : ℕ) (bs : List (ℕ × ℕ))
      → k.mem a ≡ curr
      → Blocks k.mem a lo hi bs
      → a + 8 ≤ lo
      → k.memlist + 4 < lo
      → k.memlist + 4 ≢ a
      → length bs < fuel
      → Grant k size a lo hi (getmem_loop fuel size a curr k) (first_fit size bs)
  unfolding getmem_loop store take_free
  getmem_loop-Grant zero a lo curr bs at_a b h c ne enough = absurd (omega arith)
  getmem_loop-Grant (suc fuel) a lo curr [] at_a b h c ne enough =
      rw (eq→== curr 0 (sym at_a ∙ b)) refl
  getmem_loop-Grant (suc fuel) a lo curr ((p, n) ∷ bs) at_a b h c ne enough =
      let here : curr ≡ p = sym at_a ∙ b.0 in
      rw (here, ne→== p 0 (omega (arith, b.2, h)), load-run (p + 4) k, b.1)
        (elim (Bool-cases (n == size)) [
          | inl whole ↦ rw whole (take_whole k size hi small round a lo p n bs b h c ne)
          | inr other ↦ elim (Bool-cases (ltb size n)) [
            | inl longer ↦
                rw (other, longer)
                  (take_front k size hi small round a lo p n bs b h c ne some_size
                    (ltb→lt size n longer))
            | inr short ↦
                rw (other, short, load-run p k)
                  (Grant-keep k size hi small round a lo p n bs _ (first_fit size bs) b h c ne (
                    getmem_loop-Grant fuel p (p + n) (k.mem p) bs refl b.6 (omega (arith, b.4, b.5))
                      (omega (arith, b.2)) (omega (arith, b.2)) (omega arith)))
          ]
        ])

-- `getmem`, on a heap whose free blocks lie in ascending order between the header's end and
-- `maxheap`, with lengths that are multiples of 8, gives the first block that is long enough for the
-- request rounded up, or the front of it, and the free list keeps the rest; the total falls by what
-- was given. It refuses only if no block is long enough, and its loop ends. The request is not 0
-- and is at most 2 ^ 32 - 8, so that it does not wrap.
pub getmem-Grant :
    (k : Kernel) (nbytes lo : ℕ) (bs : List (ℕ × ℕ))
    → k.maxheap < 2 ^ 32
    → lo ≤ k.maxheap
    → k.memlist + 8 ≤ lo
    → Blocks k.mem k.memlist lo k.maxheap bs
    → 0 < nbytes
    → nbytes ≤ 2 ^ 32 - 8
    → Grant k
        (roundmb nbytes)
        k.memlist
        lo
        k.maxheap
        (getmem nbytes k)
        (first_fit (roundmb nbytes) bs)
unfolding getmem
getmem-Grant k nbytes lo bs small below header b some_size fits =
    let bounds = roundmb-bounds nbytes fits in
    rw (ne→== nbytes 0 (omega arith), load-run k.memlist k)
      (getmem_loop-Grant k (roundmb nbytes) k.maxheap small bounds.0 (omega (arith, bounds.1))
        (suc k.maxheap) k.memlist lo (k.mem k.memlist) bs refl b header (omega arith) (omega arith)
        (omega (arith, length-Blocks k.mem k.memlist lo k.maxheap bs below b)))
