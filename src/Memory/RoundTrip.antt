-- ===== src/Memory/RoundTrip.antt =====
-- What `getmem` takes and `freemem` gives back: the free list is as it was.
use xinu_c_mips.Base.{ℤ, ℕ, ◌+◌, ◌-◌, ◌^◌, ◌<◌, ◌≤◌, ◌≡◌, ◌≢◌, subst, ap, ◌∙◌, some, List, arith}
use xinu_c_mips.Kernel.{Kernel, Run, done, and_then, ok, ◌>>=◌}
use xinu_c_mips.Memory.{getmem, freemem, roundmb}
use xinu_c_mips.Memory.Blocks.{Blocks, first_fit, roundmb-bounds}
use xinu_c_mips.Memory.Undo.{Spaced, Inside, first_fit-Inside, Undone, first_fit-Undone}
use xinu_c_mips.Memory.Getmem.{getmem-Grant}
use xinu_c_mips.Memory.Allocation.{Grant}
use xinu_c_mips.Memory.Between.{Returned}
use xinu_c_mips.Memory.Freemem.{freemem-Returned}

-- What the pair of calls leaves: the same blocks, the same total, the same memory below the heap.
abbrev pub Restored : Kernel → ℕ → List (ℕ × ℕ) → Run ℤ → Type 0
Restored k lo bs out =
    (m : ℕ → ℕ) × (out ≡ done ok (record k { mem = m }))
    × Blocks m k.memlist lo k.maxheap bs
    × (m (k.memlist + 4) ≡ k.mem (k.memlist + 4))
    × ((x : ℕ) → x < lo → x ≢ k.memlist → x ≢ k.memlist + 4 → m x ≡ k.mem x)

getmem-freemem :
    (k : Kernel) (nbytes lo : ℕ) (bs : List (ℕ × ℕ)) (r : ℕ) (rest : List (ℕ × ℕ))
    → k.maxheap < 2 ^ 32
    → lo ≤ k.maxheap
    → k.memlist + 8 ≤ lo
    → k.minheap ≤ lo
    → k.mem (k.memlist + 4) < 2 ^ 32
    → 0 < nbytes
    → nbytes ≤ 2 ^ 32 - 8
    → Grant k (roundmb nbytes) k.memlist lo k.maxheap (getmem nbytes k) (some (r, rest))
    → Inside lo k.maxheap (roundmb nbytes) (some (r, rest))
    → Undone (roundmb nbytes) bs (some (r, rest))
    → Restored k lo bs ((getmem nbytes >>= λ p. freemem p nbytes) k)
getmem-freemem k nbytes lo bs r rest small order header heap total some_size fits g i u =
    let k1 = record k { mem = g.0 } in
    let f : Returned k1 (roundmb nbytes) k.memlist lo k.maxheap (freemem r nbytes k1) (some bs) =
      subst (Returned k1 (roundmb nbytes) k.memlist lo k.maxheap (freemem r nbytes k1)) u (
        freemem-Returned k1 r nbytes lo rest small order header g.2 some_size fits
          (omega (arith, i.0)) i.0 i.1) in
    (
      f.0,
      ap (λ out. and_then out (λ p. freemem p nbytes)) g.1 ∙ f.1,
      f.2,
      omega (arith, f.3, g.3, i.1),
      λ x less n1 n2. f.4 x less n1 n2 ∙ g.4 x less n1 n2,
    )

-- `getmem` and then `freemem` of the block it returned restore the free list, its total and the
-- memory below the heap, if a block is long enough for the request: whether the block was taken
-- whole or split. No two free blocks touch, as `freemem` leaves them; the total is a 32-bit word,
-- and the request is not 0 and at most 2 ^ 32 - 8.
pub freemem-getmem :
    (k : Kernel) (nbytes lo : ℕ) (bs : List (ℕ × ℕ)) (r : ℕ) (rest : List (ℕ × ℕ))
    → k.maxheap < 2 ^ 32
    → lo ≤ k.maxheap
    → k.memlist + 8 ≤ lo
    → k.minheap ≤ lo
    → k.mem (k.memlist + 4) < 2 ^ 32
    → 0 < nbytes
    → nbytes ≤ 2 ^ 32 - 8
    → Blocks k.mem k.memlist lo k.maxheap bs
    → Spaced bs
    → first_fit (roundmb nbytes) bs ≡ some (r, rest)
    → Restored k lo bs ((getmem nbytes >>= λ p. freemem p nbytes) k)
freemem-getmem k nbytes lo bs r rest small order header heap total some_size fits b sp e =
    let size : 0 < roundmb nbytes = omega (arith, (roundmb-bounds nbytes fits).1) in
    getmem-freemem k nbytes lo bs r rest small order header heap total some_size fits
      (subst (Grant k (roundmb nbytes) k.memlist lo k.maxheap (getmem nbytes k)) e
        (getmem-Grant k nbytes lo bs small order header b some_size fits))
      (subst (Inside lo k.maxheap (roundmb nbytes)) e
        (first_fit-Inside k.mem k.memlist lo k.maxheap (roundmb nbytes) bs b))
      (subst (Undone (roundmb nbytes) bs) e
        (first_fit-Undone k.mem k.memlist lo k.maxheap (roundmb nbytes) bs size b sp))
