-- ===== src/Libxc/Comparing.antt =====
-- What the comparisons of the C library compare.
use xinu_c_mips.Base.{
  pos, ◌-ℤ◌, ℕ, zero, suc, ◌+◌, ◌<◌, ◌≡◌, ◌≢◌, ◌↔◌, inl, inr, refl, sym, ap, ◌∙◌, List, [], ◌∷◌,
  arith, ◌==◌, ne→==, ==→ne, ==→eq, Bool-cases, take, get_or, -ℤ_parts,
}
use xinu_c_mips.Libxc.{Memory, schar, strncmp, strncmp_loop}
use xinu_c_mips.Libxc.Text.{Str}

schar_differ : (x y : ℕ) → x < 256 → y < 256 → x ≢ y → schar x -ℤ schar y ≢ pos 0
schar_differ x y hx hy ne = ground (arith, -ℤ_parts (schar x) (schar y))

pos_differ : (x y : ℕ) → x ≢ y → pos x -ℤ pos y ≢ pos 0
pos_differ x y ne = ground (arith, -ℤ_parts (pos x) (pos y))

cons_differ : (x y : ℕ) (xs ys : List ℕ) → x ≢ y → x ∷ xs ≢ y ∷ ys
cons_differ x y xs ys ne e = ne (ap (λ l. get_or l 0 0) e)

rest_of : List ℕ → List ℕ
rest_of [] = []
rest_of (x ∷ xs) = xs

strncmp_loop_eq :
    (m : Memory) (n s1 s2 : ℕ) (xs ys : List ℕ)
    → Str m s1 xs
    → Str m s2 ys
    → strncmp_loop m s1 s2 n ≡ pos 0 ↔ take n xs ≡ take n ys
unfolding strncmp_loop rest_of
strncmp_loop_eq m zero s1 s2 xs ys h g = (λ e. refl, λ e. refl)
strncmp_loop_eq m (suc n) s1 s2 [] [] h g = rw (h, g) (λ e. refl, λ e. refl)
strncmp_loop_eq m (suc n) s1 s2 [] (y ∷ ys) h g =
    rw (h, g.0, ne→== 0 y (λ e. g.1 (sym e)))
      (λ e. absurd (schar_differ 0 y (omega arith) g.2 (λ e'. g.1 (sym e')) e), λ e. cc)
strncmp_loop_eq m (suc n) s1 s2 (x ∷ xs) [] h g =
    rw (h.0, g, ne→== x 0 h.1) (λ e. absurd (schar_differ x 0 h.2 (omega arith) h.1 e), λ e. cc)
strncmp_loop_eq m (suc n) s1 s2 (x ∷ xs) (y ∷ ys) h g = elim (Bool-cases (x == y)) [
  | inl w ↦
      let rest = strncmp_loop_eq m n (s1 + 1) (s2 + 1) xs ys h.3 g.3 in
      rw (h.0, g.0, w, ne→== x 0 h.1)
        (
          λ e. ap (λ z. z ∷ take n xs) (==→eq x y w) ∙ ap (λ l. y ∷ l) (rest.0 e),
          λ e. rest.1 (ap (rest_of) e),
        )
  | inr w ↦
      rw (h.0, g.0, w)
        (
          λ e. absurd (schar_differ x y h.2 g.2 (==→ne x y w) e),
          λ e. absurd (cons_differ x y _ _ (==→ne x y w) e),
        )
]

-- `strncmp` says 0 exactly when the first `n` bytes of the two strings, or all if they are fewer, are
-- the same.
pub strncmp-take :
    (m : Memory) (n s1 s2 : ℕ) (xs ys : List ℕ)
    → Str m s1 xs
    → Str m s2 ys
    → strncmp m s1 s2 (pos n) ≡ pos 0 ↔ take n xs ≡ take n ys
unfolding strncmp
strncmp-take = strncmp_loop_eq
