-- ===== src/Memory/Freemem.antt =====
-- `freemem` implements giving a block back on the list of free blocks.
use xinu_c_mips.Base.{
  ℤ, ℕ, zero, suc, ◌+◌, ◌-◌, ◌%◌, ◌^◌, ◌<◌, ◌≤◌, ◌≡◌, ◌≢◌, sym, ◌∙◌, Option, none, some, List, [],
  ◌∷◌, length, ltb, ne→==, Bool-cases, inl, inr, arith, ltb→lt, le→ltb,
}
use xinu_c_mips.Kernel.{Kernel, Run, ◌>>=◌}
use xinu_c_mips.Memory.{load, freemem, freemem_loop, freemem_between, roundmb}
use xinu_c_mips.Memory.Blocks.{Blocks, length-Blocks, roundmb-bounds}
use xinu_c_mips.Memory.Release.{on_some, release_behind, release}
use xinu_c_mips.Memory.Behind.{between-behind}
use xinu_c_mips.Memory.Between.{Returned, between-first, next_below}

module _ (k : Kernel) (hi p n : ℕ) (small : hi < 2 ^ 32) (below : p + n ≤ hi) (round : n % 8 ≡ 0)
    (some_size : 0 < n) where
  -- A block in front of the walk stays.
  Returned-keep :
      (h lo q s : ℕ) (bs : List (ℕ × ℕ)) (out : Run ℤ) (o : Option (List (ℕ × ℕ)))
      → Blocks k.mem h lo hi ((q, s) ∷ bs)
      → h + 8 ≤ lo
      → k.memlist + 4 < lo
      → k.memlist + 4 ≢ h
      → Returned k n q (q + s) hi out o
      → Returned k n h lo hi out (on_some (λ l. (q, s) ∷ l) o)
  Returned-keep h lo q s bs out none b header list ne g = g
  Returned-keep h lo q s bs out (some rest) b header list ne g = (
    g.0,
    g.1,
    (
      g.4 h (omega (arith, b.2, b.5)) (omega (arith, b.2)) (λ e. ne (sym e)) ∙ b.0,
      g.4 (q + 4) (omega (arith, b.4, b.5)) (omega arith) (omega (arith, b.2)) ∙ b.1,
      b.2,
      b.3,
      b.4,
      b.5,
      g.2,
    ),
    g.3,
    λ x less nx nt. g.4 x (omega (arith, b.2)) (omega (arith, b.2)) nt,
  )

  walk-behind :
      (fuel h lo q s : ℕ) (bs : List (ℕ × ℕ))
      → Blocks k.mem h lo hi ((q, s) ∷ bs)
      → h + 8 ≤ lo
      → k.memlist + 4 < lo
      → k.memlist + 4 ≢ h
      → q < p
      → length bs < fuel
      → Returned k n h lo hi
          ((freemem_loop fuel p q (k.mem q) >>= λ (x, y). freemem_between p n x y) k)
          (release_behind (q, s) (p, n) bs)
  unfolding freemem_loop load
  walk-behind zero h lo q s bs b header list ne before enough = absurd (omega arith)
  walk-behind (suc fuel) h lo q s [] b header list ne before enough =
      rw (next_below k.mem q (q + s) hi p [] (omega (arith, b.5)) b.6)
        (between-behind k hi p n small below round some_size h lo q s [] header list ne before b)
  walk-behind (suc fuel) h lo q s ((r, t) ∷ bs) b header list ne before enough =
      let nx = next_below k.mem q (q + s) hi p ((r, t) ∷ bs) (omega (arith, b.5)) b.6 in
      elim (Bool-cases (ltb r p)) [
        | inl on ↦
            rw (nx, on, b.6.0)
              (Returned-keep h lo q s ((r, t) ∷ bs) _ (release_behind (r, t) (p, n) bs) b header
                list ne
                (walk-behind fuel q (q + s) r t bs b.6 (omega (arith, b.4, b.5))
                  (omega (arith, b.2)) (omega (arith, b.2)) (ltb→lt r p on) (omega arith)))
        | inr stop ↦
            rw (nx, stop)
              (between-behind k hi p n small below round some_size h lo q s ((r, t) ∷ bs) header
                list ne before b)
      ]

  walk-first :
      (fuel lo : ℕ) (bs : List (ℕ × ℕ))
      → Blocks k.mem k.memlist lo hi bs
      → k.memlist + 8 ≤ lo
      → lo ≤ p
      → length bs < fuel
      → Returned k n k.memlist lo hi
          ((freemem_loop fuel p k.memlist (k.mem k.memlist) >>= λ (x, y). freemem_between p n x y)
            k)
          (release (p, n) bs)
  unfolding freemem_loop load
  walk-first zero lo bs b header above enough = absurd (omega arith)
  walk-first (suc fuel) lo [] b header above enough =
      rw (next_below k.mem k.memlist lo hi p [] (omega arith) b)
        (between-first k hi p n small below round some_size lo [] header above b)
  walk-first (suc fuel) lo ((q, s) ∷ bs) b header above enough =
      let nx = next_below k.mem k.memlist lo hi p ((q, s) ∷ bs) (omega arith) b in
      elim (Bool-cases (ltb q p)) [
        | inl on ↦
            rw (nx, on, b.0)
              (walk-behind fuel k.memlist lo q s bs b header (omega arith) (omega arith)
                (ltb→lt q p on) (omega arith))
        | inr stop ↦
            rw (nx, stop)
              (between-first k hi p n small below round some_size lo ((q, s) ∷ bs) header above b)
      ]

-- `freemem`, on a heap whose free blocks lie in ascending order between the header's end and
-- `maxheap`, with lengths that are multiples of 8, puts the block that ends within the heap in its
-- place in the order and joins it with the neighbours that it touches; the total grows by the size
-- rounded up. It refuses, and changes nothing, only if the block overlaps a free one, and its loop
-- ends. The size is not 0 and is at most 2 ^ 32 - 8, so that it does not wrap.
pub freemem-Returned :
    (k : Kernel) (p size lo : ℕ) (bs : List (ℕ × ℕ))
    → k.maxheap < 2 ^ 32
    → lo ≤ k.maxheap
    → k.memlist + 8 ≤ lo
    → Blocks k.mem k.memlist lo k.maxheap bs
    → 0 < size
    → size ≤ 2 ^ 32 - 8
    → k.minheap ≤ p
    → lo ≤ p
    → p + roundmb size ≤ k.maxheap
    → Returned k
        (roundmb size)
        k.memlist
        lo
        k.maxheap
        (freemem p size k)
        (release (p, roundmb size) bs)
unfolding freemem load
freemem-Returned k p size lo bs small order header b some_size fits inside above below =
    let bounds = roundmb-bounds size fits in
    rw (ne→== size 0 (omega arith), le→ltb p k.minheap inside, le→ltb k.maxheap p (omega arith))
      (walk-first k k.maxheap p (roundmb size) small below bounds.0 (omega (arith, bounds.1))
        (suc k.maxheap) lo bs b header above
        (omega (arith, length-Blocks k.mem k.memlist lo k.maxheap bs order b)))
