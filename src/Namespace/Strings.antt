-- ===== src/Namespace/Strings.antt =====
-- Strings in the buffers of the namespace: a prefix, the rest of a name, two parts put together.
use xinu_c_mips.Base.{
  pos, ℕ, zero, suc, ◌+◌, ◌-◌, ◌<◌, ◌≤◌, ◌≡◌, inl, inr, refl, sym, subst, ap, ◌∙◌, List, [], ◌∷◌,
  ◌++◌, length, drop, arith, ◌==◌, ne→==, eq→==, ==→eq, ==→ne, if◌then◌else◌, update, update_same,
  Option, some, none, true, Bool-cases, to_uint32,
}
use xinu_c_mips.Libxc.Text.{Str}
use xinu_c_mips.Libxc.Searching.{starts}
use xinu_c_mips.Namespace.{Buffer, copy_chars, prefix_length, to_char}
use xinu_c_mips.Namespace.Prefix.{copy_chars_before}

abbrev pub if_starts : List ℕ → List ℕ → ℕ → Option ℕ
if_starts ps xs n = if starts ps xs then some n else none

pub prefix_length-starts :
    (prefix name : Buffer) (left i n : ℕ) (ps xs : List ℕ)
    → length ps < left
    → n ≡ i + length ps
    → Str prefix i ps
    → Str name i xs
    → prefix_length left prefix name i ≡ if_starts ps xs n
unfolding prefix_length
prefix_length-starts prefix name zero i n ps xs h e p s = absurd (omega arith)
prefix_length-starts prefix name (suc left) i n [] xs h e p s = rw p (ap some (omega arith))
prefix_length-starts prefix name (suc left) i n (y ∷ ps) [] h e p s =
    rw (p.0, s, ne→== y 0 p.1) refl
prefix_length-starts prefix name (suc left) i n (y ∷ ps) (x ∷ xs) h e p s =
    elim (Bool-cases (y == x)) [
      | inl w ↦
          rw (p.0, s.0, ne→== y 0 p.1, w, eq→== x y (sym (==→eq y x w)))
            (prefix_length-starts prefix name left (i + 1) n ps xs (omega arith) (omega arith) p.3
              s.3)
      | inr w ↦ rw (p.0, s.0, ne→== y 0 p.1, w, ne→== x y (λ f. ==→ne y x w (sym f))) refl
    ]

pub starts-length : (ps xs : List ℕ) → starts ps xs ≡ true → length ps ≤ length xs
starts-length [] xs e = omega arith
starts-length (y ∷ ps) [] e = cc
starts-length (y ∷ ps) (x ∷ xs) e = ground (arith, starts-length ps xs)

pub Str-drop :
    (b : Buffer) (i j n : ℕ) (xs : List ℕ)
    → n ≤ length xs
    → j ≡ i + n
    → Str b i xs
    → Str b j (drop n xs)
Str-drop b i j zero xs h e s = subst (λ j. Str b j xs) (omega arith) s
Str-drop b i j (suc n) [] h e s = absurd (omega arith)
Str-drop b i j (suc n) (x ∷ xs) h e s = Str-drop b (i + 1) j n xs (omega arith) (omega arith) s.3

pub length-drop : (n : ℕ) (xs : List ℕ) → length (drop n xs) ≡ length xs - n
length-drop zero xs = omega arith
length-drop (suc n) [] = omega arith
length-drop (suc n) (x ∷ xs) = omega (arith, length-drop n xs)

pub copy_chars_at :
    (n : ℕ) (dst : Buffer) (i : ℕ) (src : Buffer) (j k x : ℕ)
    → k < n
    → x ≡ i + k
    → copy_chars n dst i src j x ≡ src (j + k)
unfolding copy_chars
copy_chars_at zero dst i src j k x h e = absurd (omega arith)
copy_chars_at (suc n) dst i src j zero x h e =
    copy_chars_before n (update dst i (src j)) (i + 1) src (j + 1) x (omega arith)
    ∙ (ap (update dst i (src j)) {y = i} (omega arith)
        ∙ (update_same dst i (src j) ∙ ap src (omega arith)))
copy_chars_at (suc n) dst i src j (suc k) x h e =
    copy_chars_at n (update dst i (src j)) (i + 1) src (j + 1) k x (omega arith) (omega arith)
    ∙ ap src (omega arith)

-- A string in two parts: the bytes of one, and another behind them.
pub Str-join :
    (b src : Buffer) (i j e : ℕ) (rs zs : List ℕ)
    → e ≡ i + length rs
    → ((k x : ℕ) → k < length rs → x ≡ i + k → b x ≡ src (j + k))
    → Str src j rs
    → Str b e zs
    → Str b i (rs ++ zs)
Str-join b src i j e [] zs at f r z = subst (λ e. Str b e zs) (omega arith) z
Str-join b src i j e (x ∷ rs) zs at f r z = (
  f 0 i (omega arith) (omega arith) ∙ (ap src (omega arith) ∙ r.0),
  r.1,
  r.2,
  Str-join b src (i + 1) (j + 1) e rs zs (omega arith)
      (λ k x h g. f (suc k) x (omega arith) (omega arith) ∙ ap src (omega arith)) r.3 z,
)

pub to_char-small : (n : ℕ) → n < 128 → to_char (pos n) ≡ pos n
unfolding to_uint32
to_char-small n h = ground arith
