-- ===== src/Shell/Loops.antt =====
-- The loops of `lexan` over a line, and the places that they write.
use xinu_c_mips.Base.{
  ℕ, zero, suc, ◌+◌, ◌<◌, ◌≤◌, ◌≡◌, refl, sym, ap, ◌∙◌, arith, leb, leb→le, ◌==◌, Bool-cases, inl,
  inr, update_other, Option, some, true, false, ◌||◌,
}
use xinu_c_mips.Shell.{
  Tokens, append_char, start_token, is_end, is_space, is_quote, is_special, skip_spaces,
  copy_quoted, copy_word, shell_maxtok, shell_arglen,
}

-- Nothing behind the token buffer and the two arrays differs from `s0`.
pub record Kept (s0 s : Tokens) : Type 0 where
  pub buffer : (i : ℕ) → shell_arglen ≤ i → s.tokbuf i ≡ s0.tokbuf i
  pub starts : (i : ℕ) → shell_maxtok ≤ i → s.tok i ≡ s0.tok i
  pub types : (i : ℕ) → shell_maxtok ≤ i → s.toktyp i ≡ s0.toktyp i

-- The analyser at offset `p`, with `extra` bytes to spare.
pub record At (s0 : Tokens) (extra p : ℕ) (s : Tokens) : Type 0 where
  pub kept : Kept s0 s
  pub few : s.ntok ≤ shell_maxtok
  pub spare : s.tbindex + extra ≤ p + s.ntok
  pub begun : (i : ℕ) → i < s.ntok → s.tok i < s.tbindex

-- The token that is being stored begins in the buffer.
abbrev pub Open : Tokens → Type 0
Open s = s.tok s.ntok ≤ s.tbindex

pub append_char-Kept :
    (s0 s : Tokens) (ch : ℕ) → s.tbindex < shell_arglen → Kept s0 s → Kept s0 (append_char ch s)
append_char-Kept s0 s ch h k = record {
  buffer = λ i hi. update_other s.tokbuf s.tbindex ch i (ground arith) ∙ k.buffer i hi;
  starts = k.starts;
  types = k.types;
}

pub start_token-Kept :
    (s0 s : Tokens) (ch : ℕ) → s.ntok < shell_maxtok → Kept s0 s → Kept s0 (start_token ch s)
start_token-Kept s0 s ch h k = record {
  buffer = k.buffer;
  starts = λ i hi. update_other s.tok s.ntok _ i (ground arith) ∙ k.starts i hi;
  types = λ i hi. update_other s.toktyp s.ntok _ i (ground arith) ∙ k.types i hi;
}

pub space_in_line : (c : ℕ) → is_space c ≡ true → is_end c ≡ false
space_in_line c h = ground arith

pub special_in_line : (c : ℕ) → is_special c ≡ true → is_end c ≡ false
special_in_line c h = ground arith

pub quote_in_line : (c : ℕ) → is_quote c ≡ true → is_end c ≡ false
quote_in_line c h = ground arith

module _ (line : ℕ → ℕ) (e : ℕ) (ends : is_end (line e) ≡ true) (short : e ≤ 129)
    (s0 : Tokens) where
  pub before_end : (p : ℕ) → p ≤ e → is_end (line p) ≡ false → p < e
  before_end p h f = elim (Bool-cases (leb e p)) [
    | inl w ↦
        let at : e ≡ p = omega (arith, leb→le e p w) in
        let no : true ≡ false = sym ends ∙ (ap (λ i. is_end (line i)) at ∙ f) in cc
    | inr w ↦ ground arith
  ]

  pub skip_spaces_lem :
      (rounds p : ℕ)
      → p ≤ e
      → e < p + rounds
      → (p' : ℕ) × (skip_spaces rounds line p ≡ some p') × (p ≤ p') × (p' ≤ e)
  unfolding skip_spaces
  skip_spaces_lem zero p h enough = absurd (omega arith)
  skip_spaces_lem (suc rounds) p h enough = elim (Bool-cases (is_space (line p))) [
    | inl w ↦
        let more = before_end p h (space_in_line (line p) w) in
        let r = skip_spaces_lem rounds (p + 1) (omega arith) (omega arith) in
        rw w (r.0, r.1, omega (arith, r.2), r.3)
    | inr w ↦ rw w (p, refl, omega arith, h)
  ]

  -- A loop ends in the line, and no token is counted.
  abbrev pub Copied : ℕ → ℕ → Option (ℕ × Tokens) → Type 0
  Copied extra n out =
      (p : ℕ) × (s : Tokens) × (out ≡ some (p, s))
      × (p ≤ e)
      × At s0 extra p s
      × (s.ntok ≡ n)
      × Open s

  pub append_char-At :
      (extra p ch : ℕ) (s : Tokens)
      → p ≤ e
      → s.ntok < shell_maxtok
      → At s0 extra p s
      → At s0 extra (p + 1) (append_char ch s)
  append_char-At extra p ch s h room a = record {
    kept = append_char-Kept s0 s ch (omega (arith, a.spare)) a.kept;
    few = a.few;
    spare = omega (arith, a.spare);
    begun = λ i hi. omega (arith, a.begun i hi);
  }

  pub copy_quoted-Copied :
      (rounds quote p : ℕ) (s : Tokens)
      → p ≤ e
      → e < p + rounds
      → s.ntok < shell_maxtok
      → At s0 1 p s
      → Open s
      → Copied 1 s.ntok (copy_quoted rounds line quote p s)
  unfolding copy_quoted
  copy_quoted-Copied zero quote p s h enough room a o = absurd (omega arith)
  copy_quoted-Copied (suc rounds) quote p s h enough room a o =
      elim (Bool-cases ((line p == quote) || is_end (line p))) [
        | inl w ↦ rw w (p, s, refl, h, a, refl, o)
        | inr w ↦
            let more = before_end p h (ground arith) in
            rw w (
              copy_quoted-Copied rounds quote (p + 1) (append_char (line p) s) (omega arith)
                (omega arith) room (append_char-At 1 p (line p) s h room a) (omega arith))
      ]

  pub copy_word-Copied :
      (rounds p : ℕ) (s : Tokens)
      → p ≤ e
      → e < p + rounds
      → s.ntok < shell_maxtok
      → At s0 0 p s
      → Open s
      → Copied 0 s.ntok (copy_word rounds line p s)
  unfolding copy_word
  copy_word-Copied zero p s h enough room a o = absurd (omega arith)
  copy_word-Copied (suc rounds) p s h enough room a o =
      elim (Bool-cases
        (is_end (line p) || is_space (line p) || is_special (line p) || is_quote (line p))) [
          | inl w ↦ rw w (p, s, refl, h, a, refl, o)
          | inr w ↦
              let more = before_end p h (ground arith) in
              rw w (
                copy_word-Copied rounds (p + 1) (append_char (line p) s) (omega arith) (omega arith)
                  room (append_char-At 0 p (line p) s h room a) (omega arith))
        ]
