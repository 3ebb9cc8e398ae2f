-- ===== src/Examples/Heap.antt =====
-- The theorems about the heap at a free list of two blocks.
use xinu_c_mips.Base.{refl, [], ◌∷◌, update, arith}
use xinu_c_mips.Kernel.{Kernel, ◌>>=◌}
use xinu_c_mips.Memory.{getmem, freemem, roundmb}
use xinu_c_mips.Memory.Blocks.{Blocks, first_fit}
use xinu_c_mips.Memory.Allocation.{Grant}
use xinu_c_mips.Memory.Getmem.{getmem-Grant}
use xinu_c_mips.Memory.Release.{release}
use xinu_c_mips.Memory.Between.{Returned}
use xinu_c_mips.Memory.Freemem.{freemem-Returned}
use xinu_c_mips.Memory.RoundTrip.{Restored, freemem-getmem}
use xinu_c_mips.Examples.World.{world}

-- Two free blocks, of 16 and 64 bytes.
abbrev heap : Kernel
heap = record world {
  mem =
      update (update (update (update (update (λ a. 0) 64 1024) 1024 2048) 1028 16) 2048 0) 2052 64;
}

heap-Blocks : Blocks heap.mem 64 1024 4096 ((1024, 16) ∷ (2048, 64) ∷ [])
unfolding update
heap-Blocks = (
  refl,
  refl,
  omega arith,
  omega arith,
  refl,
  omega arith,
  (refl, refl, omega arith, omega arith, refl, omega arith, refl),
)

getmem-Grant_example :
    Grant heap
      (roundmb 21)
      64
      1024
      4096
      (getmem 21 heap)
      (first_fit (roundmb 21) ((1024, 16) ∷ (2048, 64) ∷ []))
getmem-Grant_example =
    getmem-Grant heap 21 1024 ((1024, 16) ∷ (2048, 64) ∷ []) (omega arith) (omega arith)
      (omega arith) heap-Blocks (omega arith) (omega arith)

-- The block touches the one before it.
freemem-Returned_example :
    Returned heap
      (roundmb 24)
      64
      1024
      4096
      (freemem 1040 24 heap)
      (release (1040, roundmb 24) ((1024, 16) ∷ (2048, 64) ∷ []))
unfolding roundmb
freemem-Returned_example =
    freemem-Returned heap 1040 24 1024 ((1024, 16) ∷ (2048, 64) ∷ []) (omega arith) (omega arith)
      (omega arith) heap-Blocks (omega arith) (omega arith) (omega arith) (omega arith)
      (omega arith)

freemem-getmem_example :
    Restored heap 1024 ((1024, 16) ∷ (2048, 64) ∷ []) ((getmem 21 >>= λ p. freemem p 21) heap)
unfolding roundmb update
freemem-getmem_example =
    freemem-getmem heap 21 1024 ((1024, 16) ∷ (2048, 64) ∷ []) 2048 ((1024, 16) ∷ (2072, 40) ∷ [])
      (omega arith) (omega arith) (omega arith) (omega arith) (omega arith) (omega arith)
      (omega arith) heap-Blocks (omega arith, tt) refl
