-- ===== src/Memory/Behind.antt =====
-- `freemem` behind a free block: the block before it takes it in when they touch.
use xinu_c_mips.Base.{
  ℕ, ◌+◌, ◌%◌, ◌^◌, ◌<◌, ◌≤◌, ◌≡◌, ◌≢◌, refl, sym, subst, ap, ◌∙◌, none, some, List, ◌∷◌, false,
  ltb, ◌==◌, eq→==, ne→==, if◌then◌else◌, Bool-cases, inl, inr, arith, ltb→le, update, update_same,
  update_other, ==→eq, ==→ne,
}
use xinu_c_mips.Kernel.{Kernel, done, ok, pure, and_then, ◌>>=◌, ◌>>◌}
use xinu_c_mips.Memory.{load, store, freemem_between, give_free, link_block, join_next, add32}
use xinu_c_mips.Memory.Blocks.{Blocks, Blocks-move}
use xinu_c_mips.Memory.Release.{
  join, settle, on_some, join_touch, join_apart, join_next-Joined, link_join-Joined, starts_below,
}
use xinu_c_mips.Memory.Between.{
  Returned, Blocks-raise, settle_over, settle_free, next_below, counted, counted-other,
}

module _ (k : Kernel) (hi p n : ℕ) (small : hi < 2 ^ 32) (below : p + n ≤ hi) (round : n % 8 ≡ 0)
    (some_size : 0 < n) where
  module _ (h lo q s : ℕ) (bs : List (ℕ × ℕ)) (header : h + 8 ≤ lo) (list : k.memlist + 4 < lo)
      (ne : k.memlist + 4 ≢ h) (before : q < p) (b : Blocks k.mem h lo hi ((q, s) ∷ bs)) where
    -- The block before it takes it in.
    grown : Kernel
    grown = record (counted k n) {
      mem = update (counted k n).mem (q + 4) (add32 ((counted k n).mem (q + 4)) n);
    }

    grown-other : (x : ℕ) → x ≢ q + 4 → x ≢ k.memlist + 4 → grown.mem x ≡ k.mem x
    unfolding grown
    grown-other x n1 n2 = update_other (counted k n).mem (q + 4) _ x n1 ∙ counted-other k n x n2

    grown-Blocks :
        q + s ≡ p → starts_below (p + n) bs ≡ false → Blocks grown.mem h lo hi ((q, s + n) ∷ bs)
    unfolding grown
    grown-Blocks touch free =
        let len : (counted k n).mem (q + 4) ≡ s =
          counted-other k n (q + 4) (omega (arith, b.2)) ∙ b.1 in
        (
          grown-other h (omega (arith, b.2)) (λ e. ne (sym e)) ∙ b.0,
          update_same (counted k n).mem (q + 4) _ ∙ omega (arith, len, b.3),
          b.2,
          omega arith,
          omega (arith, b.4),
          omega arith,
          Blocks-move k.mem grown.mem q q (p + n) (q + (s + n)) hi bs
              (grown-other q (omega arith) (omega (arith, b.2))) (omega arith)
              (λ x g. grown-other x (omega (arith, b.5, b.4)) (omega (arith, b.2)))
              (Blocks-raise k.mem q (q + s) (p + n) hi bs free b.6),
        )

    behind-touch :
        q + s ≡ p
        → starts_below (p + n) bs ≡ false
        → Returned k n h lo hi
            ((give_free n >>= λ _.
                (link_block p n q (k.mem q) (q + s) >>= λ block.
                (join_next block (k.mem q) >> pure ok)))
              k)
            (some (join (q, s) (join (p, n) bs)))
    unfolding give_free load store link_block grown
    behind-touch touch free =
        let j =
          join_next-Joined grown h lo hi q (s + n) bs small header (grown-Blocks touch free) in
        let total : grown.mem (k.memlist + 4) ≡ add32 (k.mem (k.memlist + 4)) n =
          update_other (counted k n).mem (q + 4) _ (k.memlist + 4) (omega (arith, b.2))
          ∙ update_same k.mem (k.memlist + 4) _ in
        rw (join_touch q s p n bs touch, eq→== (q + s) p touch)
          (
            j.0,
            ap (λ r. and_then r (λ _. pure ok))
                (subst (λ x. join_next q x grown ≡ done tt (record grown { mem = j.0 }))
                  (grown-other q (omega arith) (omega (arith, b.2))) j.1),
            j.2,
            j.3 (k.memlist + 4) (omega (arith, b.2)) (omega (arith, b.2)) ∙ total,
            λ x less na nt.
                j.3 x (omega (arith, b.2)) (omega (arith, b.2))
                ∙ grown-other x (omega (arith, b.2)) nt,
          )

    -- It does not.
    behind-apart :
        q + s < p
        → starts_below (p + n) bs ≡ false
        → Returned k n h lo hi
            ((give_free n >>= λ _.
                (link_block p n q (k.mem q) (q + s) >>= λ block.
                (join_next block (k.mem q) >> pure ok)))
              k)
            (some (join (q, s) (join (p, n) bs)))
    unfolding give_free load store link_block
    behind-apart apart free =
        let b' =
          Blocks-move k.mem (counted k n).mem q q (p + n) (p + n) hi bs
            (counted-other k n q (omega (arith, b.2))) (omega arith)
            (λ x g. counted-other k n x (omega (arith, b.2)))
            (Blocks-raise k.mem q (q + s) (p + n) hi bs free b.6) in
        let l =
          link_join-Joined (counted k n) q (q + s) hi p n bs small (omega (arith, b.4, b.5))
            (omega arith) below round some_size b' in
        let other : (x : ℕ) → x ≢ q → x ≢ p → x ≢ p + 4 → x ≢ k.memlist + 4 → l.0 x ≡ k.mem x =
          λ x n1 n2 n3 n4. l.3 x n1 n2 n3 ∙ counted-other k n x n4 in
        rw (join_apart q s p n bs apart, ne→== (q + s) p (omega arith))
          (
            l.0,
            ap (λ r. and_then r (λ _. pure ok))
                (subst
                  (λ x.
                    (store p x >> (store (p + 4) n >> (store q p >> join_next p x))) (counted k n)
                    ≡ done tt (record (counted k n) { mem = l.0 }))
                  (counted-other k n q (omega (arith, b.2))) l.1),
            (
              other h (omega (arith, b.2)) (omega (arith, b.2)) (omega (arith, b.2))
                    (λ e. ne (sym e))
                  ∙ b.0,
              other (q + 4) (omega arith) (omega (arith, b.4, b.5)) (omega (arith, b.4, b.5))
                    (omega (arith, b.2))
                  ∙ b.1,
              b.2,
              b.3,
              b.4,
              b.5,
              l.2,
            ),
            l.3 (k.memlist + 4) (omega (arith, b.2)) (omega (arith, b.2)) (omega (arith, b.2))
                ∙ update_same k.mem (k.memlist + 4) _,
            λ x less na nt.
                other x (omega (arith, b.2)) (omega (arith, b.2)) (omega (arith, b.2)) nt,
          )

    pub between-behind :
        Returned k n h lo hi
          (freemem_between p n q (k.mem q) k)
          (if ltb p (q + s) then none else on_some (join (q, s)) (settle (p, n) bs))
    unfolding freemem_between load
    between-behind =
        let e : add32 p n ≡ p + n = omega arith in
        let f : add32 q s ≡ q + s = omega (arith, b.3) in
        let nx = next_below k.mem q (q + s) hi (p + n) bs (omega (arith, b.5)) b.6 in
        elim (Bool-cases (ltb p (q + s))) [
          | inl inside ↦ rw (b.1, ne→== q k.memlist (omega (arith, b.2)), f, inside) refl
          | inr outside ↦ elim (Bool-cases (starts_below (p + n) bs)) [
            | inl over ↦
                rw
                  (
                    b.1,
                    ne→== q k.memlist (omega (arith, b.2)),
                    f,
                    outside,
                    e,
                    nx,
                    over,
                    settle_over p n bs over,
                  )
                  refl
            | inr free ↦ elim (Bool-cases (q + s == p)) [
              | inl touch ↦
                  rw
                    (
                      b.1,
                      ne→== q k.memlist (omega (arith, b.2)),
                      f,
                      outside,
                      e,
                      nx,
                      free,
                      settle_free p n bs free,
                    )
                    (behind-touch (==→eq (q + s) p touch) free)
              | inr apart ↦
                  rw
                    (
                      b.1,
                      ne→== q k.memlist (omega (arith, b.2)),
                      f,
                      outside,
                      e,
                      nx,
                      free,
                      settle_free p n bs free,
                    )
                    (behind-apart (omega (arith, ltb→le p (q + s) outside, ==→ne (q + s) p apart))
                      free)
            ]
          ]
        ]
