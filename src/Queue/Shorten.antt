-- ===== src/Queue/Shorten.antt =====
-- The keys of a delta list after `insertd` has linked a process in and shortened the next delay.
use xinu_c_mips.Base.{
  ℕ, ◌-◌, ◌^◌, ◌<◌, ◌≤◌, ◌≡◌, ◌≢◌, sym, ◌∙◌, ap, true, false, Bool-cases, inl, inr, List, [], ◌∷◌,
  ◌++◌, has, Below-mono, ℤ, pos, pos_part, ◌-ℤ◌, wrap32, wrap32_of_range, arith, update, ◌==◌,
  ==→eq, ==→ne, if◌then◌else◌,
}
use xinu_c_mips.Kernel.{nproc, with_qkey}
use xinu_c_mips.Queue.Chain.{Table, first, ne_of_has}
use xinu_c_mips.Queue.Table.{Pids, lt_of_has, has-snoc}
use xinu_c_mips.Queue.Due.{
  Delays, delay, Delays-of, delay-of, passed, behind, left, passed-behind, left-le, Shorter,
  lt_of_Later, Shorter-first, Below-behind, has-behind, left-Later,
}
use xinu_c_mips.Queue.Links.{link_key, link_key-qkey}
use xinu_c_mips.Queue.Splice.{has-insert}

-- A difference of delays is computed without wrapping.
pub wrap32-sub : (n m : ℕ) → n < 2 ^ 31 → m ≤ n → wrap32 (pos n -ℤ pos m) ≡ pos (n - m)
unfolding ◌-ℤ◌
wrap32-sub n m h g =
    let e : pos n -ℤ pos m ≡ pos (n - m) = ground arith in
    rw e (wrap32_of_range (pos (n - m)) (omega arith, omega arith))

-- The last write of `insertd`: the delay of the process behind is shortened.
abbrev pub shorten : Table → ℕ → ℕ → ℕ → Table
shorten t b n r = if n == b then t else with_qkey t n (wrap32 ((t n).qkey -ℤ pos r))

module _ (t : Table) (b n r : ℕ) where
  pub shorten-qnext : (i : ℕ) → (shorten t b n r i).qnext ≡ (t i).qnext
  unfolding with_qkey update
  shorten-qnext i = ground arith

  pub shorten-qprev : (i : ℕ) → (shorten t b n r i).qprev ≡ (t i).qprev
  unfolding with_qkey update
  shorten-qprev i = ground arith

  shorten-other : (i : ℕ) → i ≢ n → (shorten t b n r i).qkey ≡ (t i).qkey
  unfolding with_qkey update
  shorten-other i h = ground arith

  shorten-end : n ≡ b → (i : ℕ) → (shorten t b n r i).qkey ≡ (t i).qkey
  shorten-end e i = ground arith

  shorten-next :
      (d : ℕ)
      → n ≢ b
      → (t n).qkey ≡ pos d
      → d < 2 ^ 31
      → r ≤ d
      → (shorten t b n r n).qkey ≡ pos (d - r)
  unfolding with_qkey update
  shorten-next d h e g f =
      let w = ap (λ (z : ℤ). wrap32 (z -ℤ pos r)) e ∙ wrap32-sub d r g f in ground (arith, w)

-- The entry behind the new process, and the table after `insertd`.
abbrev pub next_of : Table → ℕ → ℕ → List ℕ → ℕ
next_of t b w xs = first (behind t w xs) b

abbrev pub inserted : Table → ℕ → ℕ → ℕ → ℕ → List ℕ → Table
inserted t pid b w p xs =
    shorten (link_key t p pid (next_of t b w xs) (pos (left t w xs))) b (next_of t b w xs)
      (left t w xs)

-- The keys after `insertd`, for the delta list `xs` that ends at `b`.
module _ (t0 : Table) (pid b w p : ℕ) (xs : List ℕ) (small : w < 2 ^ 31) (ds : Delays t0 xs)
    (pids : Pids xs) (hb : nproc ≤ b) (new : has pid (xs ++ b ∷ []) ≡ false) where
  abbrev pub next : ℕ
  next = next_of t0 b w xs

  abbrev pub after : Table
  after = inserted t0 pid b w p xs

  next-mem : next ≢ b → has next xs ≡ true
  next-mem h = ground (arith, has-behind t0 w xs b, has-snoc next xs b)

  next-ne : pid ≢ next
  next-ne h = ne_of_has next pid (xs ++ b ∷ []) (has-behind t0 w xs b) new (sym h)

  pub after-pid : (after pid).qkey ≡ pos (left t0 w xs)
  after-pid =
      shorten-other _ b next (left t0 w xs) pid next-ne
      ∙ ground (arith, link_key-qkey t0 p pid next pid (pos (left t0 w xs)))

  pub after-other : (i : ℕ) → i ≢ pid → i ≢ next → (after i).qkey ≡ (t0 i).qkey
  after-other i h g =
      shorten-other _ b next (left t0 w xs) i g
      ∙ ground (arith, link_key-qkey t0 p pid next i (pos (left t0 w xs)))

  pub after-end : (i : ℕ) → i ≢ pid → nproc ≤ i → (after i).qkey ≡ (t0 i).qkey
  after-end i h g = elim (Bool-cases (next == b)) [
    | inl e ↦
        shorten-end _ b next (left t0 w xs) (==→eq next b e) i
        ∙ ground (arith, link_key-qkey t0 p pid next i (pos (left t0 w xs)))
    | inr n ↦
        after-other i h (λ z. ground (arith, lt_of_has next xs pids (next-mem (==→ne next b n))))
  ]

  after-next :
      next ≢ b
      → ((after next).qkey ≡ pos (delay t0 next - left t0 w xs))
        × (left t0 w xs < delay t0 next)
        × (delay t0 next < 2 ^ 31)
  after-next h =
      let was = delay-of t0 next xs ds (next-mem h) in
      let less = lt_of_Later t0 (left t0 w xs) (behind t0 w xs) b (left-Later t0 w xs) h in
      (
        shorten-next _ b next (left t0 w xs) (delay t0 next) h
            (ground (arith, next-ne, was.0, link_key-qkey t0 p pid next next (pos (left t0 w xs))))
            was.1 (omega arith),
        less,
        was.1,
      )

  pub after-Shorter : Shorter t0 after (left t0 w xs) (behind t0 w xs)
  after-Shorter =
      Shorter-first t0 after (left t0 w xs) (behind t0 w xs) b
        (Below-mono (behind t0 w xs) hb (Below-behind t0 w nproc xs pids))
        (λ h. let a = after-next h in omega (arith, ap pos_part a.0, a.1))

  pub after-Delays : Delays after (passed t0 w xs ++ pid ∷ behind t0 w xs)
  after-Delays = Delays-of after _ (λ i h. elim (Bool-cases (i == pid)) [
    | inl e ↦ (
      left t0 w xs,
      ap (λ (n : ℕ). (after n).qkey) (==→eq i pid e) ∙ after-pid,
      omega (arith, left-le t0 w xs),
    )
    | inr n ↦
        let mem : has i xs ≡ true = ground (
          arith,
          has-insert i (passed t0 w xs) pid (behind t0 w xs),
          ap (has i) (passed-behind t0 w xs),
        ) in
        elim (Bool-cases (i == next)) [
          | inl e ↦
              let a = after-next (λ z. ground (arith, lt_of_has i xs pids mem, ==→eq i next e)) in
              (
                delay t0 next - left t0 w xs,
                ap (λ (n : ℕ). (after n).qkey) (==→eq i next e) ∙ a.0,
                omega (arith, a.2),
              )
          | inr m ↦
              let was = delay-of t0 i xs ds mem in
              (delay t0 i, after-other i (==→ne i pid n) (==→ne i next m) ∙ was.0, was.1)
        ]
  ])
