-- ===== src/Shell/Bounds.antt =====
-- `lexan` stays within its buffers.
use xinu_c_mips.Base.{
  ℕ, zero, suc, ◌+◌, ◌<◌, ◌≤◌, ◌≡◌, refl, ap, arith, leb, ◌==◌, Bool-cases, inl, inr, ◌⊎◌, ℤ, pos,
  update_other, update_same, ltb, ltb→lt, ltb→le, Option, some, true, ◌||◌,
}
use xinu_c_mips.Kernel.{syserr}
use xinu_c_mips.Libxc.{address_space}
use xinu_c_mips.Shell.{
  Tokens, Round, returns, goes_on, lost, append_char, start_token, end_token, is_end, is_quote,
  is_special, quoted_token, word_token, scan_token, lexan_round, finish, after_round, lexan_loop,
  lexan, shell_buflen, shell_maxtok,
}
use xinu_c_mips.Shell.Loops.{
  Kept, At, Open, append_char-Kept, start_token-Kept, before_end, skip_spaces_lem, Copied,
  append_char-At, copy_quoted-Copied, copy_word-Copied,
}

-- What `lexan` returns: SYSERR, or the number of tokens, and then the buffer is filled up to `tlen`.
abbrev pub Answer : ℕ → ℤ → Tokens → Type 0
Answer e z s =
    (z ≡ syserr)
    ⊎ ((z ≡ pos s.ntok)
        × (s.ntok ≤ shell_maxtok)
        × (s.tlen ≤ e + s.ntok)
        × ((i : ℕ) → i < s.ntok → s.tok i < s.tlen))

abbrev pub Bounded : ℕ → Tokens → Option (ℤ × Tokens) → Type 0
Bounded e s0 out = (z : ℤ) × (s : Tokens) × (out ≡ some (z, s)) × Kept s0 s × Answer e z s

-- A round returns, or goes on behind one token more.
Scanned : Tokens → ℕ → ℕ → Round → Type 0
Scanned s0 e n (returns z s) = Kept s0 s × Answer e z s
Scanned s0 e n (goes_on p s) = (p ≤ e) × At s0 0 p s × (s.ntok ≡ suc n)
Scanned s0 e n lost = ⊥

module _ (line : ℕ → ℕ) (e : ℕ) (ends : is_end (line e) ≡ true) (short : e ≤ 129)
    (s0 : Tokens) where
  end_token-Scanned :
      (n p : ℕ) (s : Tokens)
      → p ≤ e
      → n < shell_maxtok
      → s.ntok ≡ n
      → At s0 0 p s
      → Open s
      → Scanned s0 e n (goes_on p (end_token s))
  unfolding Scanned
  end_token-Scanned n p s h room count a o = (
    h,
    record {
      kept =
          let k = append_char-Kept s0 s 0 (omega (arith, a.spare)) a.kept in
          record { buffer = k.buffer; starts = k.starts; types = k.types };
      few = omega arith;
      spare = omega (arith, a.spare);
      begun = λ i hi. elim (Bool-cases (ltb i s.ntok)) [
        | inl w ↦ omega (arith, a.begun i (ltb→lt i s.ntok w))
        | inr w ↦
            let last : i ≡ s.ntok = omega (arith, ltb→le i s.ntok w) in
            omega (arith, o, ap (λ j. s.tok j) last)
      ];
    },
    omega arith,
  )

  quoted_token-Scanned :
      (n ch : ℕ) (out : Option (ℕ × Tokens))
      → n < shell_maxtok
      → is_quote ch ≡ true
      → Copied line e ends short s0 1 n out
      → Scanned s0 e n (quoted_token line ch out)
  unfolding Scanned
  quoted_token-Scanned n ch out room quote (p, s, at, h, a, count, o) =
      rw at (elim (Bool-cases (line p == ch)) [
        | inl w ↦
            let more = before_end line e ends short s0 p h (ground arith) in
            rw w (
              end_token-Scanned n (p + 1) s (omega arith) room count
                (record {
                  kept = a.kept;
                  few = a.few;
                  spare = omega (arith, a.spare);
                  begun = a.begun;
                })
                o)
        | inr w ↦ rw w (a.kept, inl refl)
      ])

  word_token-Scanned :
      (n : ℕ) (out : Option (ℕ × Tokens))
      → n < shell_maxtok
      → Copied line e ends short s0 0 n out
      → Scanned s0 e n (word_token line out)
  unfolding Scanned
  word_token-Scanned n out room (p, s, at, h, a, count, o) =
      rw at (elim (Bool-cases (is_quote (line p) || (line p == 60) || (line p == 62))) [
        | inl w ↦ rw w (a.kept, inl refl)
        | inr w ↦ rw w (end_token-Scanned n p s h room count a o)
      ])

  scan_token-Scanned :
      (p : ℕ) (s : Tokens)
      → p < e
      → s.ntok < shell_maxtok
      → At s0 0 p s
      → Scanned s0 e s.ntok (scan_token line p s)
  unfolding scan_token
  scan_token-Scanned p s h room a =
      let ch = line p in
      let s1 = start_token ch s in
      let a1 : At s0 0 p s1 = record {
        kept = start_token-Kept s0 s ch room a.kept;
        few = a.few;
        spare = a.spare;
        begun = λ i hi.
            omega (arith, a.begun i hi, update_other s.tok s.ntok s.tbindex i (omega arith));
      } in
      let o1 : Open s1 = omega (arith, update_same s.tok s.ntok s.tbindex) in
      let a2 = append_char-At line e ends short s0 0 p ch s1 (omega arith) room a1 in
      elim (Bool-cases (is_special ch)) [
        | inl w ↦ rw w (
            end_token-Scanned s.ntok (p + 1) (append_char ch s1) (omega arith) room refl a2
              (omega arith))
        | inr w ↦ elim (Bool-cases (is_quote ch)) [
          | inl v ↦
              rw (w, v)
                (quoted_token-Scanned s.ntok ch _ room v (
                  copy_quoted-Copied line e ends short s0 address_space ch (p + 1) s1 (omega arith)
                    (omega arith) room
                    (record {
                      kept = a1.kept;
                      few = a1.few;
                      spare = omega (arith, a.spare);
                      begun = a1.begun;
                    })
                    o1))
          | inr v ↦
              rw (w, v)
                (word_token-Scanned s.ntok _ room (
                  copy_word-Copied line e ends short s0 address_space (p + 1) (append_char ch s1)
                    (omega arith) (omega arith) room a2 (omega arith)))
        ]
      ]

  finish-Scanned : (p : ℕ) (s : Tokens) → p ≤ e → At s0 0 p s → Scanned s0 e s.ntok (finish s)
  unfolding Scanned
  finish-Scanned p s h a = (
    record { buffer = a.kept.buffer; starts = a.kept.starts; types = a.kept.types },
    inr (refl, a.few, omega (arith, a.spare), a.begun),
  )

  lexan_round-Scanned :
      (p : ℕ) (s : Tokens) → p ≤ e → At s0 0 p s → Scanned s0 e s.ntok (lexan_round line p s)
  unfolding lexan_round Scanned
  lexan_round-Scanned p s h a = elim (Bool-cases (is_end (line p))) [
    | inl w ↦ rw w (finish-Scanned p s h a)
    | inr w ↦ elim (Bool-cases (leb shell_maxtok s.ntok)) [
      | inl v ↦ rw (w, v) (a.kept, inl refl)
      | inr v ↦
          let r = skip_spaces_lem line e ends short s0 address_space p h (omega arith) in
          let p' = r.0 in
          let room : s.ntok < shell_maxtok = ground arith in
          let a' : At s0 0 p' s = record {
            kept = a.kept;
            few = a.few;
            spare = omega (arith, a.spare, r.2);
            begun = a.begun;
          } in
          rw (w, v, r.1)
            (elim (Bool-cases (is_end (line p'))) [
              | inl u ↦ rw u (finish-Scanned p' s r.3 a')
              | inr u ↦
                  rw u (scan_token-Scanned p' s (before_end line e ends short s0 p' r.3 u) room a')
            ])
    ]
  ]

  after_round-Bounded :
      (n : ℕ) (r : Round) (next : ℕ → Tokens → Option (ℤ × Tokens))
      → Scanned s0 e n r
      → ((p : ℕ) (s : Tokens) → p ≤ e → At s0 0 p s → s.ntok ≡ suc n → Bounded e s0 (next p s))
      → Bounded e s0 (after_round r next)
  unfolding Scanned
  after_round-Bounded n (returns z s) next (k, answer) more = (z, s, refl, k, answer)
  after_round-Bounded n (goes_on p s) next (h, a, count) more = more p s h a count
  after_round-Bounded n lost next none_lost more = absurd none_lost

  lexan_loop-Bounded :
      (rounds p : ℕ) (s : Tokens)
      → p ≤ e
      → shell_maxtok < s.ntok + rounds
      → At s0 0 p s
      → Bounded e s0 (lexan_loop rounds line p s)
  unfolding lexan_loop
  lexan_loop-Bounded zero p s h enough a = absurd (omega (arith, a.few))
  lexan_loop-Bounded (suc rounds) p s h enough a =
      after_round-Bounded s.ntok (lexan_round line p s) (lexan_loop rounds line)
        (lexan_round-Scanned p s h a)
        λ p' s' h' a' count. lexan_loop-Bounded rounds p' s' h' (omega arith) a'

-- `lexan`, on a line with at most SHELL_BUFLEN characters in front of its end, ends and writes nothing
-- behind the SHELL_ARGLEN bytes of the token buffer and the SHELL_MAXTOK entries of the two arrays.
-- It returns SYSERR, or the number of tokens, at most SHELL_MAXTOK; then each token begins in
-- front of `tlen`, which is at most the length of the line and one byte for each token.
pub lexan-Bounded :
    (line : ℕ → ℕ) (e : ℕ) (s : Tokens)
    → is_end (line e) ≡ true
    → e ≤ shell_buflen
    → Bounded e s (lexan line s)
unfolding lexan
lexan-Bounded line e s ends short =
    lexan_loop-Bounded line e ends short s (shell_maxtok + 1) 0 (record s { ntok = 0; tbindex = 0 })
      (omega arith) (omega arith)
      (record {
        kept = record { buffer = λ i h. refl; starts = λ i h. refl; types = λ i h. refl };
        few = omega arith;
        spare = omega arith;
        begun = λ i h. absurd (omega arith);
      })
