-- ===== src/Namespace/Mapping.antt =====
-- `namrepl` replaces the first prefix of the table that the name has, and `nammap` does so once.
use xinu_c_mips.Base.{
  ℤ, pos, ◌+ℤ◌, ◌-ℤ◌, ℕ, zero, suc, ◌+◌, ◌-◌, ◌<◌, ◌≤◌, ◌≡◌, inl, inr, refl, subst, ◌∙◌, List, [],
  ◌∷◌, ◌++◌, length, drop, arith, ne→==, le→ltb, if◌then◌else◌, update, update_same, update_other,
  Option, some, none, true, false, Bool-cases, eqb_ℤ, ltb_ℤ,
}
use xinu_c_mips.Kernel.{ok, syserr}
use xinu_c_mips.Libxc.Text.{Str}
use xinu_c_mips.Libxc.Searching.{starts}
use xinu_c_mips.Namespace.{
  Buffer, Nmentry, Names, nm_prelen, nm_maxlen, namlen, namlen_loop, copy_chars, to_char,
  substitute, namrepl_loop, namrepl, namcpy, namcpy_loop, nammap_loop, nammap,
}
use xinu_c_mips.Namespace.Prefix.{
  namlen_loop-Str, copy_chars_before, copy_chars-Str, Entry, IsEntry, Table, IsTable,
}
use xinu_c_mips.Namespace.Strings.{
  prefix_length-starts, starts-length, Str-drop, length-drop, copy_chars_at, Str-join,
  to_char-small,
}

-- What replacing a prefix leaves in the buffer for the new name.
abbrev Substituted : ℤ → List ℕ → ℤ × Buffer → Type 0
Substituted d ys (newdev, new) = (newdev ≡ d) × Str new 0 ys

minus_one : (n : ℕ) → pos (0 + n + 1) -ℤ pos 1 ≡ pos n
unfolding ◌-ℤ◌
minus_one n = ground arith

minus : (n m : ℕ) → m ≤ n → pos (0 + n + 1) -ℤ pos m ≡ pos (n + 1 - m)
unfolding ◌-ℤ◌
minus n m h = ground arith

no_overflow : (a b : ℕ) → a + b ≤ 256 → ltb_ℤ (pos nm_maxlen) (pos a +ℤ pos b) ≡ false
unfolding ◌+ℤ◌
no_overflow a b h = le→ltb 256 (a + b) h

substitute-Substituted :
    (v : Nmentry) (name new : Buffer) (plen : ℕ) (e : Entry) (xs : List ℕ)
    → IsEntry v e
    → Str name 0 xs
    → length xs < 127
    → plen ≤ length xs
    → Substituted e.device (e.replacement ++ drop plen xs) (substitute v name new plen)
unfolding substitute namlen
substitute-Substituted v name new plen e xs r s short h =
    let rlen = length e.replacement in
    let front = copy_chars rlen new 0 v.nreplace 0 in
    let n : namlen_loop nm_maxlen name 0 ≡ pos (0 + length xs + 1) =
      namlen_loop-Str name nm_maxlen 0 xs (omega arith) s in
    let m : namlen_loop nm_maxlen v.nreplace 0 ≡ pos (0 + rlen + 1) =
      namlen_loop-Str v.nreplace nm_maxlen 0 e.replacement (omega (arith, r.3)) r.2 in
    let c : to_char (pos (0 + length xs + 1)) ≡ pos (0 + length xs + 1) =
      to_char-small (0 + length xs + 1) (omega arith) in
    let a : pos (0 + rlen + 1) -ℤ pos 1 ≡ pos rlen = minus_one rlen in
    let b : pos (0 + length xs + 1) -ℤ pos plen ≡ pos (length xs + 1 - plen) =
      minus (length xs) plen h in
    let room : ltb_ℤ (pos nm_maxlen) (pos rlen +ℤ pos (length xs + 1 - plen)) ≡ false =
      no_overflow rlen (length xs + 1 - plen) (omega (arith, r.3)) in
    rw (n, m, c, a, b, room)
      (
        r.4,
        Str-join (copy_chars (length xs + 1 - plen) front rlen name plen) v.nreplace 0 0 rlen
            e.replacement (drop plen xs) (omega arith)
            (λ k x hk at.
              copy_chars_before (length xs + 1 - plen) front rlen name plen x (omega arith)
              ∙ copy_chars_at rlen new 0 v.nreplace 0 k x hk at)
            r.2
            (copy_chars-Str (length xs + 1 - plen) front rlen name plen (drop plen xs)
              (omega (arith, length-drop plen xs))
              (Str-drop name 0 plen plen xs h (omega arith) s)),
      )

-- The first mapping whose prefix the name has, and the name that it makes.
abbrev pub first_match : List Entry → List ℕ → Option (ℤ × List ℕ)
first_match [] xs = none
first_match (e ∷ es) xs =
    let rest = first_match es xs in
    if starts e.prefix xs then some (e.device, e.replacement ++ drop (length e.prefix) xs) else rest

abbrev pub Replaced : Buffer → ℤ × Buffer → Option (ℤ × List ℕ) → Type 0
Replaced new out none = out ≡ (syserr, new)
Replaced new out (some (d, ys)) = Substituted d ys out

namrepl_loop-Replaced :
    (tab : ℕ → Nmentry) (name new : Buffer) (left i : ℕ) (es : List Entry) (xs : List ℕ)
    → left ≡ length es
    → Table tab i es
    → Str name 0 xs
    → length xs < 127
    → Replaced new (namrepl_loop left tab i name new) (first_match es xs)
unfolding namrepl_loop
namrepl_loop-Replaced tab name new zero i [] xs e t s short = refl
namrepl_loop-Replaced tab name new (suc left) i [] xs e t s short = absurd (omega arith)
namrepl_loop-Replaced tab name new zero i (f ∷ es) xs e t s short = absurd (omega arith)
namrepl_loop-Replaced tab name new (suc left) i (f ∷ es) xs e t s short =
    let p =
      prefix_length-starts (tab i).nprefix name nm_prelen 0 (length f.prefix) f.prefix xs t.0.1
        (omega arith) t.0.0 s in
    elim (Bool-cases (starts f.prefix xs)) [
      | inl match ↦
          rw (p, match)
            (substitute-Substituted (tab i) name new (length f.prefix) f xs t.0 s short
              (starts-length f.prefix xs match))
      | inr other ↦
          rw (p, other)
            (namrepl_loop-Replaced tab name new left (i + 1) es xs (omega arith) t.1 s short)
    ]

-- `namrepl` puts the replacement of the first prefix of the table that the name has in front of the
-- rest of the name, and returns the device of that prefix; it refuses if the name has no prefix of
-- the table. The name has fewer than 127 characters: the code keeps its length in a `char`.
pub namrepl-Replaced :
    (st : Names) (name new : Buffer) (es : List Entry) (xs : List ℕ)
    → IsTable st es
    → Str name 0 xs
    → length xs < 127
    → Replaced new (namrepl st name new) (first_match es xs)
unfolding namrepl
namrepl-Replaced st name new es xs t s short =
    namrepl_loop-Replaced st.nametab name new st.nnames 0 es xs t.0 t.2 s short

-- What copying a name that fits leaves.
abbrev Namcopied : Buffer → ℕ → List ℕ → ℤ × Buffer → Type 0
Namcopied new i xs (status, new') =
    (status ≡ ok) × ((x : ℕ) → x < i → new' x ≡ new x) × Str new' i xs

namcpy_loop-Namcopied :
    (new old : Buffer) (left i : ℕ) (xs : List ℕ)
    → length xs < left
    → Str old i xs
    → Namcopied new i xs (namcpy_loop left new old i)
unfolding namcpy_loop
namcpy_loop-Namcopied new old zero i xs h s = absurd (omega arith)
namcpy_loop-Namcopied new old (suc left) i [] h s =
    rw s (refl, λ x less. update_other new i 0 x (omega arith), update_same new i 0)
namcpy_loop-Namcopied new old (suc left) i (x ∷ xs) h s =
    let rest = namcpy_loop-Namcopied (update new i x) old left (i + 1) xs (omega arith) s.3 in
    let e : namcpy_loop left (update new i x) old (i + 1) ≡ namcpy_loop (suc left) new old i =
      rw (s.0, ne→== x 0 s.1) refl in
    subst (Namcopied new i (x ∷ xs)) e (
      rest.0,
      λ y less. rest.1 y (omega arith) ∙ update_other new i x y (omega arith),
      (rest.1 i (omega arith) ∙ update_same new i x, s.1, s.2, rest.2),
    )

-- What `nammap` returns.
abbrev pub Mapped : ℤ → Option (ℤ × List ℕ) → ℤ × Buffer → Type 0
Mapped namdev none out = out.0 ≡ syserr
Mapped namdev (some (d, ys)) out = if eqb_ℤ d namdev then out.0 ≡ syserr else Substituted d ys out

-- A name that leads to the namespace's own device is looked up again and again.
nammap_same :
    (st : Names) (name : Buffer) (namdev d : ℤ)
    → ((new : Buffer) → (namrepl st name new).0 ≡ d)
    → eqb_ℤ d namdev ≡ true
    → (left : ℕ) (new : Buffer) → (nammap_loop left st name new namdev).0 ≡ syserr
unfolding nammap_loop
nammap_same st name namdev d f same zero new = refl
nammap_same st name namdev d f same (suc left) new =
    rw (f new, same) (nammap_same st name namdev d f same left (namrepl st name new).1)

nammap_loop-Mapped :
    (st : Names) (name : Buffer) (namdev : ℤ) (o : Option (ℤ × List ℕ))
    → ((new : Buffer) → Replaced new (namrepl st name new) o)
    → eqb_ℤ syserr namdev ≡ false
    → (left : ℕ) (new : Buffer) → Mapped namdev o (nammap_loop (suc left) st name new namdev)
unfolding nammap_loop
nammap_loop-Mapped st name namdev none f valid left new = rw (f new, valid) refl
nammap_loop-Mapped st name namdev (some (d, ys)) f valid left new =
    elim (Bool-cases (eqb_ℤ d namdev)) [
      | inl same ↦ rw same (nammap_same st name namdev d (λ new. (f new).0) same (suc left) new)
      | inr other ↦ rw (other, (f new).0, other) (refl, (f new).1)
    ]

-- `nammap` gives the device and the name of the first prefix of the table that the name has, and
-- refuses if it has none, and also if the device is the namespace itself: the name is then not mapped
-- a second time. The table is not empty, and the name has fewer than 127 characters.
pub nammap-Mapped :
    (st : Names) (name new tmp : Buffer) (es : List Entry) (xs : List ℕ) (namdev : ℤ)
    → IsTable st es
    → 0 < length es
    → Str name 0 xs
    → length xs < 127
    → eqb_ℤ syserr namdev ≡ false
    → Mapped namdev (first_match es xs) (nammap st name new tmp namdev)
unfolding nammap namcpy
nammap-Mapped st name new tmp es xs namdev t some_entry s short valid =
    let c = namcpy_loop-Namcopied tmp name nm_maxlen 0 xs (omega arith) s in
    let tmpname = (namcpy_loop nm_maxlen tmp name 0).1 in
    rw c.0 (
      subst (λ n. Mapped namdev (first_match es xs) (nammap_loop n st tmpname new namdev))
        (omega (arith, t.0))
        (nammap_loop-Mapped st tmpname namdev (first_match es xs)
          (λ new. namrepl-Replaced st tmpname new es xs t c.2 short) valid (st.nnames - 1) new))
