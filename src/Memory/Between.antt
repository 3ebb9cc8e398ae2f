-- ===== src/Memory/Between.antt =====
-- `freemem` between two neighbours: it refuses a block that overlaps one, and joins those that touch.
use xinu_c_mips.Base.{
  ℤ, ℕ, ◌+◌, ◌%◌, ◌^◌, ◌<◌, ◌≤◌, ◌≡◌, ◌≢◌, refl, subst, ap, ◌∙◌, Option, none, some, List, [], ◌∷◌,
  true, false, not, ◌&&◌, ltb, ◌==◌, eq→==, ne→==, Bool-cases, inl, inr, arith, ltb→le, update,
  update_same, update_other,
}
use xinu_c_mips.Kernel.{Kernel, Run, done, ok, syserr, pure, and_then, ◌>>◌}
use xinu_c_mips.Memory.{load, store, freemem_between, give_free, link_block, join_next, add32}
use xinu_c_mips.Memory.Blocks.{Blocks, Blocks-move}
use xinu_c_mips.Memory.Release.{join, settle, link_join-Joined, starts_below}

-- What giving `size` bytes back to the free list behind the header `a` ends with.
abbrev pub Returned : Kernel → ℕ → ℕ → ℕ → ℕ → Run ℤ → Option (List (ℕ × ℕ)) → Type 0
Returned k size a lo hi out none = out ≡ done syserr k
Returned k size a lo hi out (some bs) =
    (m : ℕ → ℕ) × (out ≡ done ok (record k { mem = m }))
    × Blocks m a lo hi bs
    × (m (k.memlist + 4) ≡ add32 (k.mem (k.memlist + 4)) size)
    × ((x : ℕ) → x < lo → x ≢ a → x ≢ k.memlist + 4 → m x ≡ k.mem x)

-- Blocks that do not start below an address lie above it.
pub Blocks-raise :
    (m : ℕ → ℕ) (a lo lo' hi : ℕ) (bs : List (ℕ × ℕ))
    → starts_below lo' bs ≡ false
    → Blocks m a lo hi bs
    → Blocks m a lo' hi bs
Blocks-raise m a lo lo' hi [] e b = b
Blocks-raise m a lo lo' hi ((r, t) ∷ bs) e b = (b.0, b.1, ltb→le r lo' e, b.3, b.4, b.5, b.6)

pub settle_over :
    (p n : ℕ) (bs : List (ℕ × ℕ)) → starts_below (p + n) bs ≡ true → settle (p, n) bs ≡ none
settle_over p n [] e = cc
settle_over p n ((r, t) ∷ bs) e = rw e refl

pub settle_free :
    (p n : ℕ) (bs : List (ℕ × ℕ))
    → starts_below (p + n) bs ≡ false
    → settle (p, n) bs ≡ some (join (p, n) bs)
settle_free p n [] e = refl
settle_free p n ((r, t) ∷ bs) e = rw e refl

-- The tests of the code on the link of a header.
pub next_below :
    (m : ℕ → ℕ) (a lo hi x : ℕ) (bs : List (ℕ × ℕ))
    → 0 < lo
    → Blocks m a lo hi bs
    → (not (m a == 0) && ltb (m a) x) ≡ starts_below x bs
next_below m a lo hi x [] h b = rw b refl
next_below m a lo hi x ((r, t) ∷ bs) h b = rw (b.0, ne→== r 0 (omega (arith, b.2))) refl

-- The total has grown by the size of the block.
abbrev pub counted : Kernel → ℕ → Kernel
counted k n = record k { mem = update k.mem (k.memlist + 4) (add32 (k.mem (k.memlist + 4)) n) }

pub counted-other : (k : Kernel) (n x : ℕ) → x ≢ k.memlist + 4 → (counted k n).mem x ≡ k.mem x
counted-other k n x = update_other k.mem (k.memlist + 4) _ x

pub counted_total :
    (k : Kernel) (n : ℕ) → (counted k n).mem (k.memlist + 4) ≡ add32 (k.mem (k.memlist + 4)) n
counted_total k n = update_same k.mem (k.memlist + 4) _

module _ (k : Kernel) (hi p n : ℕ) (small : hi < 2 ^ 32) (below : p + n ≤ hi) (round : n % 8 ≡ 0)
    (some_size : 0 < n) where
  -- Behind the header of the list.
  pub between-first :
      (lo : ℕ) (bs : List (ℕ × ℕ))
      → k.memlist + 8 ≤ lo
      → lo ≤ p
      → Blocks k.mem k.memlist lo hi bs
      → Returned k n k.memlist lo hi
          (freemem_between p n k.memlist (k.mem k.memlist) k)
          (settle (p, n) bs)
  unfolding freemem_between give_free load store link_block
  between-first lo bs h above b =
      let e : add32 p n ≡ p + n = omega arith in
      elim (Bool-cases (starts_below (p + n) bs)) [
        | inl over ↦
            rw
              (
                eq→== k.memlist k.memlist refl,
                e,
                next_below k.mem k.memlist lo hi (p + n) bs (omega arith) b,
                over,
                settle_over p n bs over,
              )
              refl
        | inr free ↦
            let at : update k.mem (k.memlist + 4) (add32 (k.mem (k.memlist + 4)) n) k.memlist
                ≡ k.mem k.memlist =
              update_other k.mem (k.memlist + 4) (add32 (k.mem (k.memlist + 4)) n) k.memlist
                (omega arith) in
            let b' =
              Blocks-move k.mem (counted k n).mem k.memlist k.memlist (p + n) (p + n) hi bs at
                (omega arith) (λ x g. update_other k.mem (k.memlist + 4) _ x (omega arith))
                (Blocks-raise k.mem k.memlist lo (p + n) hi bs free b) in
            let l =
              link_join-Joined (counted k n) k.memlist lo hi p n bs small h above below round
                some_size b' in
            rw
              (
                eq→== k.memlist k.memlist refl,
                e,
                next_below k.mem k.memlist lo hi (p + n) bs (omega arith) b,
                free,
                ne→== 0 p (omega arith),
                settle_free p n bs free,
              )
              (
                l.0,
                ap (λ r. and_then r (λ _. pure ok))
                    (subst
                      (λ x.
                        (store p x >> (store (p + 4) n >> (store k.memlist p >> join_next p x)))
                          (counted k n)
                        ≡ done tt (record (counted k n) { mem = l.0 }))
                      at l.1),
                l.2,
                l.3 (k.memlist + 4) (omega arith) (omega arith) (omega arith)
                    ∙ update_same k.mem (k.memlist + 4) _,
                λ x less na nt.
                    l.3 x na (omega arith) (omega arith)
                    ∙ update_other k.mem (k.memlist + 4) _ x nt,
              )
      ]
