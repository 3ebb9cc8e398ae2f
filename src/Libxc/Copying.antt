-- ===== src/Libxc/Copying.antt =====
-- What `strncpy` and `strncat` leave in memory.
use xinu_c_mips.Base.{
  pos, ℕ, zero, suc, ◌+◌, ◌<◌, ◌≤◌, ◌≡◌, ◌⊎◌, inl, refl, subst, ap, ◌∙◌, List, [], ◌∷◌, ◌++◌,
  length, arith, ne→==, take, get_or, update, update_same, update_other, Option, some,
}
use xinu_c_mips.Libxc.{
  Memory, address_space, fill, strncpy, strncpy_loop, strncat, strncat_loop, append_at,
}
use xinu_c_mips.Libxc.Bytes.{Outside, fill_inside, fill-Outside}
use xinu_c_mips.Libxc.Text.{Str, Str-same, end_of_string-Str}

-- A region of `n` bytes that holds no byte of a string of length `l` nor its NUL.
abbrev pub Apart : ℕ → ℕ → ℕ → ℕ → Type 0
Apart d n s l = (d + n ≤ s) ⊎ (s + l < d)

Str-update :
    (m : Memory) (d v n s : ℕ) (xs : List ℕ)
    → Apart d (suc n) s (length xs)
    → Str m s xs
    → Str (update m d v) s xs
Str-update m d v n s xs o h =
    Str-same m (update m d v) s xs (λ x a b. update_other m d v x (ground arith)) h

-- The result of a copy to `d`: a string, and no change outside the region.
abbrev Copied : Memory → Memory → ℕ → ℕ → List ℕ → Type 0
Copied m m' d n xs = Str m' d xs × ((x : ℕ) → Outside d n x → m' x ≡ m x)

strncat_loop-Copied :
    (m : Memory) (n d s : ℕ) (ys : List ℕ)
    → Apart d (n + 1) s (length ys)
    → Str m s ys
    → Copied m (strncat_loop m d s n) d (n + 1) (take n ys)
unfolding strncat_loop
strncat_loop-Copied m zero d s [] o h =
    rw h (update_same m d 0, λ x i. update_other m d 0 x (ground arith))
strncat_loop-Copied m zero d s (y ∷ ys) o h =
    rw (h.0, ne→== y 0 h.1)
      (
        update_same (update m d y) d 0,
        λ x i.
            update_other (update m d y) d 0 x (ground arith) ∙ update_other m d y x (ground arith),
      )
strncat_loop-Copied m (suc n) d s [] o h =
    rw h (update_same m d 0, λ x i. update_other m d 0 x (ground arith))
strncat_loop-Copied m (suc n) d s (y ∷ ys) o h =
    let m1 = update m d y in
    let tail = Str-update m d y (n + 1) (s + 1) ys (ground arith) h.3 in
    let rest = strncat_loop-Copied m1 n (d + 1) (s + 1) ys (ground arith) tail in
    let e : strncat_loop m1 (d + 1) (s + 1) n ≡ strncat_loop m d s (suc n) =
      rw (h.0, ne→== y 0 h.1) refl in
    subst (λ m'. Copied m m' d (suc n + 1) (y ∷ take n ys)) e
      (
        (rest.1 d (inl (omega arith)) ∙ update_same m d y, h.1, h.2, rest.0),
        λ x i. rest.1 x (ground arith) ∙ update_other m d y x (ground arith),
      )

Str-append :
    (m m' : Memory) (s e : ℕ) (xs zs : List ℕ)
    → e ≡ s + length xs
    → ((x : ℕ) → x < e → m' x ≡ m x)
    → Str m s xs
    → Str m' e zs
    → Str m' s (xs ++ zs)
Str-append m m' s e [] zs at same h g = subst (λ z. Str m' z zs) (omega arith) g
Str-append m m' s e (x ∷ xs) zs at same h g =
    (same s (omega arith) ∙ h.0, h.1, h.2, Str-append m m' (s + 1) e xs zs (omega arith) same h.3 g)

-- What appending leaves: the first string is followed by the start of the second, and no byte is
-- written but in the `n + 1` bytes from the NUL on.
abbrev pub Appended : Memory → ℕ → List ℕ → List ℕ → ℕ → Option Memory → Type 0
Appended m s xs ys n o =
    (m' : Memory) × (o ≡ some m')
    × Str m' s (xs ++ take n ys)
    × ((x : ℕ) → Outside (s + length xs) (n + 1) x → m' x ≡ m x)

-- `strncat` appends the first `n` bytes of the second string, or all if they are fewer, and a NUL to
-- the first, and writes at most `n + 1` bytes, from the NUL of the first string on. The strings end
-- within the address space, and the second does not meet those bytes.
pub strncat-Appended :
    (m : Memory) (n s1 s2 : ℕ) (xs ys : List ℕ)
    → length xs < address_space
    → Apart (s1 + length xs) (n + 1) s2 (length ys)
    → Str m s1 xs
    → Str m s2 ys
    → Appended m s1 xs ys n (strncat m s1 s2 (pos n))
unfolding strncat
strncat-Appended m n s1 s2 xs ys fits o h g =
    let c = strncat_loop-Copied m n (s1 + length xs) s2 ys o g in
    (
      strncat_loop m (s1 + length xs) s2 n,
      ap (append_at m s2 (pos n)) (end_of_string-Str m address_space s1 xs fits h),
      Str-append m (strncat_loop m (s1 + length xs) s2 n) s1 (s1 + length xs) xs (take n ys) refl
          (λ x a. c.1 x (inl a)) h c.0,
      c.1,
    )

-- The bytes of a string, and NULs behind its end; no change outside the region.
abbrev pub Padded : Memory → Memory → ℕ → ℕ → List ℕ → Type 0
Padded m m' d n xs =
    ((i x : ℕ) → i < n → x ≡ d + i → m' x ≡ get_or xs i 0) × ((x : ℕ) → Outside d n x → m' x ≡ m x)

strncpy_loop-Padded :
    (m : Memory) (n d s : ℕ) (ys : List ℕ)
    → Apart d n s (length ys)
    → Str m s ys
    → Padded m (strncpy_loop m d s n) d n ys
unfolding strncpy_loop
strncpy_loop-Padded m zero d s ys o h = (λ i x a e. absurd (omega arith), λ x i. refl)
strncpy_loop-Padded m (suc n) d s [] o h = rw h (
  pad_in,
  λ x i.
      fill-Outside (update m d 0) (d + 1) 0 n x (ground arith)
      ∙ update_other m d 0 x (ground arith),
)
  where
    pad_in : (i x : ℕ) → i < suc n → x ≡ d + i → fill (update m d 0) (d + 1) 0 n x ≡ 0
    pad_in zero x a e =
        fill-Outside (update m d 0) (d + 1) 0 n x (inl (omega arith))
        ∙ (ap (update m d 0) (omega arith) ∙ update_same m d 0)
    pad_in (suc i) x a e = fill_inside (update m d 0) (d + 1) 0 n i x (omega arith) (omega arith)
strncpy_loop-Padded m (suc n) d s (y ∷ ys) o h =
    let m1 = update m d y in
    let tail = Str-update m d y n (s + 1) ys (ground arith) h.3 in
    let rest = strncpy_loop-Padded m1 n (d + 1) (s + 1) ys (ground arith) tail in
    let e : strncpy_loop m1 (d + 1) (s + 1) n ≡ strncpy_loop m d s (suc n) =
      rw (h.0, ne→== y 0 h.1) refl in
    subst (λ m'. Padded m m' d (suc n) (y ∷ ys)) e
      (
        λ i x a f.
            elim i
                as (λ i.
                  i < suc n
                  → x ≡ d + i
                  → strncpy_loop m1 (d + 1) (s + 1) n x ≡ get_or (y ∷ ys) i 0) [
                    | zero ↦ λ a f.
                        rest.1 x (inl (omega arith)) ∙ (ap m1 (omega arith) ∙ update_same m d y)
                    | suc j ↦ λ a f. rest.0 j x (omega arith) (omega arith)
                  ]
              a f,
        λ x i. rest.1 x (ground arith) ∙ update_other m d y x (ground arith),
      )

-- `strncpy` copies the string up to `n` bytes and fills the rest of the `n` bytes with NULs; it writes
-- no other byte, and no NUL behind a string that is too long. The destination does not meet the
-- string.
pub strncpy-Padded :
    (m : Memory) (n s1 s2 : ℕ) (ys : List ℕ)
    → Apart s1 n s2 (length ys)
    → Str m s2 ys
    → Padded m (strncpy m s1 s2 (pos n)) s1 n ys
unfolding strncpy
strncpy-Padded = strncpy_loop-Padded
