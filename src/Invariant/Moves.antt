-- ===== src/Invariant/Moves.antt =====
-- A process that enters or leaves a queue, and what that does to the membership of all.
use xinu_c_mips.Base.{
  ℕ, ◌≡◌, ◌∙◌, ap, inl, inr, Bool-cases, false, not, ◌&&◌, ◌||◌, ◌==◌, ==→eq, List, ◌∷◌, ◌++◌, has,
  update, arith,
}
use xinu_c_mips.Queue.Splice.{has-insert}

module _ (l : ℕ → List ℕ) (q : ℕ) (xs : List ℕ) (pid : ℕ) (ys : List ℕ) where
  pub has-enter :
      (i r : ℕ)
      → l q ≡ xs ++ ys
      → has i (update l q (xs ++ pid ∷ ys) r) ≡ (((i == pid) && (r == q)) || has i (l r))
  unfolding update
  has-enter i r e = elim (Bool-cases (r == q)) [
    | inl h ↦
        let at_q : has i (l r) ≡ has i (xs ++ ys) =
          ap (λ (n : ℕ). has i (l n)) (==→eq r q h) ∙ ap (has i) e in
        rw (h, at_q) (ground (arith, has-insert i xs pid ys))
    | inr h ↦ rw h (ground arith)
  ]

  pub has-leave :
      (i r : ℕ)
      → l q ≡ xs ++ pid ∷ ys
      → has pid (xs ++ ys) ≡ false
      → has i (update l q (xs ++ ys) r) ≡ (not ((i == pid) && (r == q)) && has i (l r))
  unfolding update
  has-leave i r e out = elim (Bool-cases (r == q)) [
    | inl h ↦
        let at_q : has i (l r) ≡ has i (xs ++ pid ∷ ys) =
          ap (λ (n : ℕ). has i (l n)) (==→eq r q h) ∙ ap (has i) e in
        rw (h, at_q)
          (elim (Bool-cases (i == pid)) [
            | inl g ↦ rw g (ap (λ (n : ℕ). has n (xs ++ ys)) (==→eq i pid g) ∙ out)
            | inr g ↦ rw g (ground (arith, has-insert i xs pid ys))
          ])
    | inr h ↦ rw h (ground arith)
  ]
