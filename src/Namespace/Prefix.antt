-- ===== src/Namespace/Prefix.antt =====
-- The table of the namespace as a list of prefixes, replacements and devices; `mount` adds to its end.
use xinu_c_mips.Base.{
  ℤ, pos, ℕ, zero, suc, ◌+◌, ◌<◌, ◌≤◌, ◌≡◌, inl, inr, refl, sym, subst, ap, ◌∙◌, List, [], ◌∷◌,
  ◌++◌, length, length-append, arith, ltb, ne→==, ltb→lt, ltb→le, le→leb, lt→leb, if◌then◌else◌,
  update, update_same, update_other, Bool, not, ◌&&◌, Bool-cases,
}
use xinu_c_mips.Kernel.{ok, syserr}
use xinu_c_mips.Device.{isbaddev}
use xinu_c_mips.Libxc.Text.{Str}
use xinu_c_mips.Namespace.{
  Buffer, Nmentry, Names, nm_prelen, nm_repllen, nnames_max, namlen, namlen_loop, copy_chars, mount,
}

pub namlen_loop-Str :
    (b : Buffer) (left i : ℕ) (xs : List ℕ)
    → length xs < left
    → Str b i xs
    → namlen_loop left b i ≡ pos (i + length xs + 1)
unfolding namlen_loop
namlen_loop-Str b zero i xs h s = absurd (omega arith)
namlen_loop-Str b (suc left) i [] h s = rw s (ap pos (omega arith))
namlen_loop-Str b (suc left) i (x ∷ xs) h s =
    rw (s.0, ne→== x 0 s.1)
      (namlen_loop-Str b left (i + 1) xs (omega arith) s.3 ∙ ap pos (omega arith))

namlen_loop_long :
    (b : Buffer) (left i : ℕ) (xs : List ℕ)
    → left ≤ length xs
    → Str b i xs
    → namlen_loop left b i ≡ syserr
unfolding namlen_loop
namlen_loop_long b zero i xs h s = refl
namlen_loop_long b (suc left) i [] h s = absurd (omega arith)
namlen_loop_long b (suc left) i (x ∷ xs) h s =
    rw (s.0, ne→== x 0 s.1) (namlen_loop_long b left (i + 1) xs (omega arith) s.3)

-- Copying leaves what stands before the place, and puts a string there.
pub copy_chars_before :
    (n : ℕ) (dst : Buffer) (i : ℕ) (src : Buffer) (j x : ℕ)
    → x < i
    → copy_chars n dst i src j x ≡ dst x
unfolding copy_chars
copy_chars_before zero dst i src j x h = refl
copy_chars_before (suc n) dst i src j x h =
    copy_chars_before n (update dst i (src j)) (i + 1) src (j + 1) x (omega arith)
    ∙ update_other dst i (src j) x (omega arith)

pub copy_chars-Str :
    (n : ℕ) (dst : Buffer) (i : ℕ) (src : Buffer) (j : ℕ) (xs : List ℕ)
    → n ≡ suc (length xs)
    → Str src j xs
    → Str (copy_chars n dst i src j) i xs
unfolding copy_chars
copy_chars-Str zero dst i src j xs e s = absurd (omega arith)
copy_chars-Str (suc n) dst i src j [] e s =
    copy_chars_before n (update dst i (src j)) (i + 1) src (j + 1) i (omega arith)
    ∙ (update_same dst i (src j) ∙ s)
copy_chars-Str (suc n) dst i src j (x ∷ xs) e s = (
  copy_chars_before n (update dst i (src j)) (i + 1) src (j + 1) i (omega arith)
      ∙ (update_same dst i (src j) ∙ s.0),
  s.1,
  s.2,
  copy_chars-Str n (update dst i (src j)) (i + 1) src (j + 1) xs (omega arith) s.3,
)

-- A mapping: a prefix, its replacement and a device.
pub record Entry : Type 0 where
  pub prefix : List ℕ
  pub replacement : List ℕ
  pub device : ℤ

abbrev pub IsEntry : Nmentry → Entry → Type 0
IsEntry n e =
    Str n.nprefix 0 e.prefix
    × (length e.prefix < nm_prelen)
    × Str n.nreplace 0 e.replacement
    × (length e.replacement < nm_repllen)
    × (n.ndevice ≡ e.device)

-- The entries of the table from an index on.
abbrev pub Table : (ℕ → Nmentry) → ℕ → List Entry → Type 0
Table tab i [] = Unit {0}
Table tab i (e ∷ es) = IsEntry (tab i) e × Table tab (i + 1) es

abbrev pub IsTable : Names → List Entry → Type 0
IsTable st es = (st.nnames ≡ length es) × (length es ≤ nnames_max) × Table st.nametab 0 es

Table-add :
    (tab : ℕ → Nmentry) (i n : ℕ) (v : Nmentry) (es : List Entry) (e : Entry)
    → n ≡ i + length es
    → IsEntry v e
    → Table tab i es
    → Table (update tab n v) i (es ++ (e ∷ []))
Table-add tab i n v [] e at h t = (
  subst (λ x. IsEntry x e) (sym (ap (update tab n v) {y = n} (omega arith) ∙ update_same tab n v))
      h,
  tt,
)
Table-add tab i n v (f ∷ es) e at h t = (
  subst (λ x. IsEntry x f) (sym (update_other tab n v i (omega arith))) t.0,
  Table-add tab (i + 1) n v es e (omega arith) h t.1,
)

IsTable-add :
    (st : Names) (es : List Entry) (e : Entry) (v : Nmentry)
    → length es < nnames_max
    → IsEntry v e
    → IsTable st es
    → IsTable
        (record { nametab = update st.nametab st.nnames v; nnames = st.nnames + 1 })
        (es ++ (e ∷ []))
IsTable-add st es e v free h t =
    let l = length-append es (e ∷ []) in
    (
      omega (arith, l, t.0),
      omega (arith, l),
      Table-add st.nametab 0 st.nnames v es e (omega (arith, t.0)) h t.2,
    )

-- Whether a mapping fits into the table.
abbrev pub fits : Entry → List Entry → Bool
fits e es =
    ltb (length e.prefix) nm_prelen
    && ltb (length e.replacement) nm_repllen
    && not (isbaddev e.device)
    && ltb (length es) nnames_max

abbrev pub Mounted : Names → List Entry → Entry → ℤ × Names → Type 0
Mounted st es e (status, st') =
    if fits e es
    then (status ≡ ok) × IsTable st' (es ++ (e ∷ []))
    else (status ≡ syserr) × (st' ≡ st)

-- `mount` adds the mapping at the end of the table. It refuses, and then changes nothing, exactly if
-- the prefix or the replacement is too long for its buffer, the device does not exist, or the table
-- is full.
pub mount-Mounted :
    (prefix replace : Buffer) (st : Names) (es : List Entry) (e : Entry)
    → Str prefix 0 e.prefix
    → Str replace 0 e.replacement
    → IsTable st es
    → Mounted st es e (mount prefix replace e.device st)
unfolding mount namlen
mount-Mounted prefix replace st es e p r t = elim (Bool-cases (ltb (length e.prefix) nm_prelen)) [
  | inr long ↦
      rw
        (
          long,
          namlen_loop_long prefix nm_prelen 0 e.prefix (ltb→le (length e.prefix) nm_prelen long) p,
        )
        (refl, refl)
  | inl short ↦
      let ps =
        namlen_loop-Str prefix nm_prelen 0 e.prefix (ltb→lt (length e.prefix) nm_prelen short) p in
      elim (Bool-cases (ltb (length e.replacement) nm_repllen)) [
        | inr rlong ↦
            rw
              (
                short,
                ps,
                rlong,
                namlen_loop_long replace nm_repllen 0 e.replacement
                    (ltb→le (length e.replacement) nm_repllen rlong) r,
              )
              (refl, refl)
        | inl rshort ↦
            let rs =
              namlen_loop-Str replace nm_repllen 0 e.replacement
                (ltb→lt (length e.replacement) nm_repllen rshort) r in
            elim (Bool-cases (isbaddev e.device)) [
              | inl bad ↦ rw (short, ps, rshort, rs, bad) (refl, refl)
              | inr good ↦ elim (Bool-cases (ltb (length es) nnames_max)) [
                | inr full ↦
                    rw
                      (
                        short,
                        ps,
                        rshort,
                        rs,
                        good,
                        full,
                        le→leb nnames_max st.nnames
                            (omega (arith, t.0, ltb→le (length es) nnames_max full)),
                      )
                      (refl, refl)
                | inl free ↦
                    rw
                      (
                        short,
                        ps,
                        rshort,
                        rs,
                        good,
                        free,
                        lt→leb nnames_max st.nnames
                            (omega (arith, t.0, ltb→lt (length es) nnames_max free)),
                      )
                      (
                        refl,
                        IsTable-add st es e
                            (record {
                              nprefix =
                                  copy_chars (0 + length e.prefix + 1)
                                    (st.nametab st.nnames).nprefix 0 prefix 0;
                              nreplace =
                                  copy_chars (0 + length e.replacement + 1)
                                    (st.nametab st.nnames).nreplace 0 replace 0;
                              ndevice = e.device;
                            })
                            (ltb→lt (length es) nnames_max free)
                            (
                              copy_chars-Str (0 + length e.prefix + 1)
                                  (st.nametab st.nnames).nprefix 0 prefix 0 e.prefix (omega arith)
                                  p,
                              ltb→lt (length e.prefix) nm_prelen short,
                              copy_chars-Str (0 + length e.replacement + 1)
                                  (st.nametab st.nnames).nreplace 0 replace 0 e.replacement
                                  (omega arith) r,
                              ltb→lt (length e.replacement) nm_repllen rshort,
                              refl,
                            )
                            t,
                      )
              ]
            ]
      ]
]
