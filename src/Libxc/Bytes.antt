-- ===== src/Libxc/Bytes.antt =====
-- What the functions on blocks of bytes do: each byte of the destination, and no other.
use xinu_c_mips.Base.{
  ℕ, zero, suc, ◌+◌, ◌<◌, ◌≤◌, ◌≡◌, ◌≢◌, ◌⊎◌, inl, inr, refl, sym, subst, ap, ◌∙◌, ◌==◌, pos,
  update, update_same, update_other, Bool-cases, ==→eq, ==→ne, arith,
}
use xinu_c_mips.Libxc.{Memory, fill, memcpy, memcpy_loop, strnlen, strnlen_loop}

-- The addresses that are not in the region of `n` bytes from `s` on.
abbrev pub Outside : ℕ → ℕ → ℕ → Type 0
Outside s n x = (x < s) ⊎ (s + n ≤ x)

pub fill-Outside : (m : Memory) (s b n x : ℕ) → Outside s n x → fill m s b n x ≡ m x
unfolding fill
fill-Outside m s b zero x h = refl
fill-Outside m s b (suc n) x h =
    ground (arith, fill-Outside (update m s b) (s + 1) b n x, update_other m s b x)

pub fill_inside : (m : Memory) (s b n i x : ℕ) → i < n → x ≡ s + i → fill m s b n x ≡ b
unfolding fill
fill_inside m s b zero i x h e = absurd (omega arith)
fill_inside m s b (suc n) zero x h e =
    ground (arith, fill-Outside (update m s b) (s + 1) b n x, update_same m s b)
fill_inside m s b (suc n) (suc i) x h e =
    fill_inside (update m s b) (s + 1) b n i x (omega arith) (omega arith)

copy-Outside : (m : Memory) (dst src n x : ℕ) → Outside dst n x → memcpy_loop m dst src n x ≡ m x
unfolding memcpy_loop
copy-Outside m dst src zero x h = refl
copy-Outside m dst src (suc n) x h = ground (
  arith,
  copy-Outside (update m dst (m src)) (dst + 1) (src + 1) n x,
  update_other m dst (m src) x,
)

copy_inside :
    (m : Memory) (dst src n i x y : ℕ)
    → (dst ≤ src) ⊎ (src + n ≤ dst)
    → i < n
    → x ≡ dst + i
    → y ≡ src + i
    → memcpy_loop m dst src n x ≡ m y
unfolding memcpy_loop
copy_inside m dst src zero i x y o h e f = absurd (omega arith)
copy_inside m dst src (suc n) zero x y o h e f =
    ground (
      arith,
      copy-Outside (update m dst (m src)) (dst + 1) (src + 1) n x,
      update_same m dst (m src),
    )
copy_inside m dst src (suc n) (suc i) x y o h e f =
    copy_inside (update m dst (m src)) (dst + 1) (src + 1) n i x y (ground arith) (omega arith)
      (omega arith) (omega arith)
    ∙ update_other m dst (m src) y (ground arith)

-- `memcpy` gives each of the `n` bytes at the destination the value that the byte of the source had
-- before, and changes no other, if the destination starts below the source or behind its end.
pub memcpy-Copied :
    (m : Memory) (s ct n : ℕ)
    → (s ≤ ct) ⊎ (ct + n ≤ s)
    → ((i : ℕ) → i < n → memcpy m s ct (pos n) (s + i) ≡ m (ct + i))
      × ((x : ℕ) → Outside s n x → memcpy m s ct (pos n) x ≡ m x)
unfolding memcpy
memcpy-Copied m s ct n o =
    (λ i h. copy_inside m s ct n i (s + i) (ct + i) o h refl refl, λ x h. copy-Outside m s ct n x h)

strnlen_loop_add :
    (m : Memory) (left s n : ℕ) → strnlen_loop m left s n ≡ n + strnlen_loop m left s 0
unfolding strnlen_loop
strnlen_loop_add m zero s n = omega arith
strnlen_loop_add m (suc left) s n =
    ground (arith, strnlen_loop_add m left (s + 1) (n + 1), strnlen_loop_add m left (s + 1) 1)

-- How many bytes there are in front of the first NUL, up to a bound.
abbrev pub Counted : Memory → ℕ → ℕ → ℕ → Type 0
Counted m s len r =
    (r ≤ len) × ((x : ℕ) → s ≤ x → x < s + r → m x ≢ 0) × ((x : ℕ) → r < len → x ≡ s + r → m x ≡ 0)

Counted-suc :
    (m : Memory) (s len r : ℕ) → m s ≢ 0 → Counted m (s + 1) len r → Counted m s (suc len) (suc r)
Counted-suc m s len r h c = (
  omega (arith, c.0),
  λ x a b e. elim (Bool-cases (x == s)) [
    | inl w ↦ h (ap m (sym (==→eq x s w)) ∙ e)
    | inr w ↦ c.1 x (omega (arith, ==→ne x s w)) (omega arith) e
  ],
  λ x a e. c.2 x (omega arith) (omega arith),
)

-- `strnlen` counts the bytes in front of the first NUL, but at most `len` of them: it counts no NUL,
-- and stops short of `len` only at one.
pub strnlen-Counted : (m : Memory) (s len : ℕ) → Counted m s len (strnlen m s len)
unfolding strnlen strnlen_loop
strnlen-Counted m s zero =
    (omega arith, λ x a b. absurd (omega arith), λ x a e. absurd (omega arith))
strnlen-Counted m s (suc len) = elim (Bool-cases (m s == 0)) [
  | inl w ↦
      rw w
        (omega arith, λ x a b. absurd (omega arith), λ x a e. ap m (omega arith) ∙ ==→eq (m s) 0 w)
  | inr w ↦
      rw (w, strnlen_loop_add m len (s + 1) 1)
        (subst (Counted m s (suc len)) (omega arith)
          (Counted-suc m s len _ (==→ne (m s) 0 w) (strnlen-Counted m (s + 1) len)))
]
