-- ===== src/Memory/Allocation.antt =====
-- `getmem` takes the first block of the free list that is long enough.
use xinu_c_mips.Base.{
  ℕ, ◌+◌, ◌-◌, ◌%◌, ◌^◌, ◌<◌, ◌≤◌, ◌≡◌, ◌≢◌, refl, sym, ◌∙◌, Option, none, some, List, ◌∷◌, update,
  update_same, update_other, arith,
}
use xinu_c_mips.Kernel.{Kernel, Run, done, pure, ◌>>=◌, ◌>>◌}
use xinu_c_mips.Memory.{load, store, take_free, syserr_ptr, add32, sub32, mnext, mlength}
use xinu_c_mips.Memory.Blocks.{Blocks, Blocks-move, keep}

-- What a request for `size` bytes from the free list behind the header `a` ends with.
abbrev pub Grant : Kernel → ℕ → ℕ → ℕ → ℕ → Run ℕ → Option (ℕ × List (ℕ × ℕ)) → Type 0
Grant k size a lo hi out none = out ≡ done syserr_ptr k
Grant k size a lo hi out (some (r, bs)) =
    (m : ℕ → ℕ) × (out ≡ done r (record k { mem = m }))
    × Blocks m a lo hi bs
    × (m (k.memlist + 4) ≡ sub32 (k.mem (k.memlist + 4)) size)
    × ((x : ℕ) → x < lo → x ≢ a → x ≢ k.memlist + 4 → m x ≡ k.mem x)

module _ (k : Kernel) (size hi : ℕ) (small : hi < 2 ^ 32) (round : size % 8 ≡ 0) where
  -- A block in front that is too short stays.
  pub Grant-keep :
      (a lo p n : ℕ) (bs : List (ℕ × ℕ)) (out : Run ℕ) (o : Option (ℕ × List (ℕ × ℕ)))
      → Blocks k.mem a lo hi ((p, n) ∷ bs)
      → a + 8 ≤ lo
      → k.memlist + 4 < lo
      → k.memlist + 4 ≢ a
      → Grant k size p (p + n) hi out o
      → Grant k size a lo hi out (keep (p, n) o)
  Grant-keep a lo p n bs out none b h c ne g = g
  Grant-keep a lo p n bs out (some (r, rest)) b h c ne g = (
    g.0,
    g.1,
    (
      g.4 a (omega (arith, b.2, b.5)) (omega (arith, b.2)) (λ e. ne (sym e)) ∙ b.0,
      g.4 (p + 4) (omega (arith, b.4, b.5)) (omega arith) (omega (arith, b.2)) ∙ b.1,
      b.2,
      b.3,
      b.4,
      b.5,
      g.2,
    ),
    g.3,
    λ x less nx nc. g.4 x (omega (arith, b.2, b.5)) (omega (arith, b.2)) nc,
  )

  -- The block is as long as the request.
  pub take_whole :
      (a lo p n : ℕ) (bs : List (ℕ × ℕ))
      → Blocks k.mem a lo hi ((p, n) ∷ bs)
      → a + 8 ≤ lo
      → k.memlist + 4 < lo
      → k.memlist + 4 ≢ a
      → Grant k size a lo hi
          ((load (mnext p) >>= λ next. (store (mnext a) next >> take_free size >> pure p)) k)
          (some (p, bs))
  unfolding load store take_free update
  take_whole a lo p n bs b h c ne =
      let m1 = update k.mem a (k.mem p) in
      (
        update m1 (k.memlist + 4) (sub32 (m1 (k.memlist + 4)) size),
        refl,
        Blocks-move k.mem _ p a (p + n) lo hi bs (ground arith) (omega (arith, b.2))
            (λ x g. ground (arith, b.2)) b.6,
        ground (arith, ne),
        λ x less nx nc. ground arith,
      )

  -- The memory after the front of a block is taken.
  abbrev front_taken : ℕ → ℕ → ℕ → ℕ → ℕ
  front_taken a p n =
      let m1 = update k.mem a (p + size) in
      let m2 = update m1 (p + size) (k.mem p) in
      let m3 = update m2 (p + size + 4) (sub32 n size) in
      update m3 (k.memlist + 4) (sub32 (k.mem (k.memlist + 4)) size)

  module _ (a lo p n : ℕ) (bs : List (ℕ × ℕ)) (b : Blocks k.mem a lo hi ((p, n) ∷ bs))
      (h : a + 8 ≤ lo) (c : k.memlist + 4 < lo) (ne : k.memlist + 4 ≢ a) (some_size : 0 < size)
      (longer : size < n) where
    front_taken-Blocks : Blocks (front_taken a p n) a lo hi ((p + size, n - size) ∷ bs)
    unfolding update
    front_taken-Blocks = (
      ground (arith, b.2),
      ground (arith, b.2, b.3),
      omega (arith, b.2),
      omega (arith, b.3),
      omega (arith, b.4),
      omega arith,
      Blocks-move k.mem (front_taken a p n) p (p + size) (p + n) (p + size + (n - size)) hi bs
          (ground (arith, b.2)) (omega arith) (λ x g. ground (arith, b.2, b.4)) b.6,
    )

    front_taken-other : (x : ℕ) → x < lo → x ≢ a → x ≢ k.memlist + 4 → front_taken a p n x ≡ k.mem x
    unfolding update
    front_taken-other x less nx nc = ground (arith, b.2)

    -- The block is longer: its front is taken, and the rest is the new block.
    pub take_front :
        Grant k size a lo hi
          ((store (mnext a) (add32 p size)
              >> (load (mnext p) >>= λ next.
                  (store (mnext (add32 p size)) next
                    >> (load (mlength p) >>= λ len.
                        (store (mlength (add32 p size)) (sub32 len size)
                          >> take_free size
                          >> pure p)))))
            k)
          (some (p, (p + size, n - size) ∷ bs))
    unfolding load store take_free
    take_front =
        let e : add32 p size ≡ p + size = omega (arith, b.3) in
        let m1 = update k.mem a (p + size) in
        let m2 = update m1 (p + size) (k.mem p) in
        let m3 = update m2 (p + size + 4) (sub32 n size) in
        let next : m1 p ≡ k.mem p = update_other k.mem a (p + size) p (omega (arith, b.2)) in
        let len : m2 (p + 4) ≡ n =
          update_other m1 (p + size) (k.mem p) (p + 4) (omega arith)
          ∙ update_other k.mem a (p + size) (p + 4) (omega (arith, b.2))
          ∙ b.1 in
        let total : m3 (k.memlist + 4) ≡ k.mem (k.memlist + 4) =
          update_other m2 (p + size + 4) (sub32 n size) (k.memlist + 4) (omega (arith, b.2))
          ∙ update_other m1 (p + size) (k.mem p) (k.memlist + 4) (omega (arith, b.2))
          ∙ update_other k.mem a (p + size) (k.memlist + 4) ne in
        (
          front_taken a p n,
          rw (e, next, len, total) refl,
          front_taken-Blocks,
          update_same m3 (k.memlist + 4) (sub32 (k.mem (k.memlist + 4)) size),
          front_taken-other,
        )
