-- ===== src/Shell.antt =====
-- The lexical analyser of the shell, xinu/shell/lexan.c. The line is a function from offsets to
-- characters; `p` is an offset in it. A walk of the line has as many rounds as there are addresses, and
-- `none` says that it met no end of the line in them.
pub mod Loops
pub mod Bounds
use xinu_c_mips.Base.{
  ℕ, zero, suc, ◌+◌, leb, ◌==◌, if◌then◌else◌, ℤ, pos, update, Option, none, some, Bool, true,
  false, not, ◌&&◌, ◌||◌,
}
use xinu_c_mips.Kernel.{syserr}
use xinu_c_mips.Libxc.{address_space}

-- `SHELL_BUFLEN`, `SHELL_MAXTOK` and `SHELL_ARGLEN`
abbrev pub shell_buflen : ℕ
shell_buflen = 129

abbrev pub shell_maxtok : ℕ
shell_maxtok = 32

abbrev pub shell_arglen : ℕ
shell_arglen = shell_buflen + shell_maxtok

-- What `lexan` writes, and its variables `tbindex` and `ntok`.
pub record Tokens : Type 0 where
  pub tokbuf : ℕ → ℕ
  pub tbindex : ℕ
  pub tok : ℕ → ℕ
  pub toktyp : ℕ → ℕ
  pub ntok : ℕ
  pub tlen : ℕ

-- NEWLINE or NULLCH
abbrev pub is_end : ℕ → Bool
is_end ch = (ch == 0) || (ch == 10)

abbrev pub is_space : ℕ → Bool
is_space ch = (ch == 32) || (ch == 9)

abbrev pub is_quote : ℕ → Bool
is_quote ch = (ch == 39) || (ch == 34)

-- `&`, `<` and `>`
abbrev pub is_special : ℕ → Bool
is_special ch = (ch == 38) || (ch == 60) || (ch == 62)

-- `SH_TOK_AMPER`, `SH_TOK_LESS`, `SH_TOK_GREATER` and `SH_TOK_OTHER`
abbrev pub token_type : ℕ → ℕ
token_type ch = if ch == 38 then 0 else if ch == 60 then 1 else if ch == 62 then 2 else 3

-- `tokbuf[tbindex++] = ch`
abbrev pub append_char : ℕ → Tokens → Tokens
append_char ch s = record s { tokbuf = update s.tokbuf s.tbindex ch; tbindex = s.tbindex + 1 }

abbrev pub start_token : ℕ → Tokens → Tokens
start_token ch s = record s {
  tok = update s.tok s.ntok s.tbindex;
  toktyp = update s.toktyp s.ntok (token_type ch);
}

-- The NUL behind a token, which counts it.
abbrev pub end_token : Tokens → Tokens
end_token s = let s' = append_char 0 s in record s' { ntok = s.ntok + 1 }

unfoldable pub skip_spaces : ℕ → (ℕ → ℕ) → ℕ → Option ℕ
skip_spaces zero line p = none
skip_spaces (suc rounds) line p =
    let rest = skip_spaces rounds line (p + 1) in if is_space (line p) then rest else some p

-- The loop over a quoted string: the offset of the character that ends it.
unfoldable pub copy_quoted : ℕ → (ℕ → ℕ) → ℕ → ℕ → Tokens → Option (ℕ × Tokens)
copy_quoted zero line quote p s = none
copy_quoted (suc rounds) line quote p s =
    let rest = copy_quoted rounds line quote (p + 1) (append_char (line p) s) in
    if (line p == quote) || is_end (line p) then some (p, s) else rest

unfoldable pub copy_word : ℕ → (ℕ → ℕ) → ℕ → Tokens → Option (ℕ × Tokens)
copy_word zero line p s = none
copy_word (suc rounds) line p s =
    let rest = copy_word rounds line (p + 1) (append_char (line p) s) in
    if is_end (line p) || is_space (line p) || is_special (line p) || is_quote (line p)
    then some (p, s)
    else rest

-- How a round of the main loop ends.
pub data Round : Type 0 where
  returns : ℤ → Tokens → Round
  goes_on : ℕ → Tokens → Round
  lost : Round

abbrev pub finish : Tokens → Round
finish s = returns (pos s.ntok) (record s { tlen = s.tbindex })

abbrev pub quoted_token : (ℕ → ℕ) → ℕ → Option (ℕ × Tokens) → Round
quoted_token line quote none = lost
quoted_token line quote (some (p, s)) =
    if line p == quote then goes_on (p + 1) (end_token s) else returns syserr s

abbrev pub word_token : (ℕ → ℕ) → Option (ℕ × Tokens) → Round
word_token line none = lost
word_token line (some (p, s)) =
    if is_quote (line p) || (line p == 60) || (line p == 62)
    then returns syserr s
    else goes_on p (end_token s)

-- The token that begins at `p`.
unfoldable pub scan_token : (ℕ → ℕ) → ℕ → Tokens → Round
scan_token line p s =
    let ch = line p in
    let s = start_token ch s in
    if is_special ch
    then goes_on (p + 1) (end_token (append_char ch s))
    else if is_quote ch
    then quoted_token line ch (copy_quoted address_space line ch (p + 1) s)
    else word_token line (copy_word address_space line (p + 1) (append_char ch s))

abbrev pub scan_from : (ℕ → ℕ) → Tokens → Option ℕ → Round
scan_from line s none = lost
scan_from line s (some p) = if is_end (line p) then finish s else scan_token line p s

unfoldable pub lexan_round : (ℕ → ℕ) → ℕ → Tokens → Round
lexan_round line p s =
    if is_end (line p)
    then finish s
    else if leb shell_maxtok s.ntok
    then returns syserr s
    else scan_from line s (skip_spaces address_space line p)

abbrev pub after_round : Round → (ℕ → Tokens → Option (ℤ × Tokens)) → Option (ℤ × Tokens)
after_round (returns z s) next = some (z, s)
after_round (goes_on p s) next = next p s
after_round lost next = none

unfoldable pub lexan_loop : ℕ → (ℕ → ℕ) → ℕ → Tokens → Option (ℤ × Tokens)
lexan_loop zero line p s = none
lexan_loop (suc rounds) line p s = after_round (lexan_round line p s) (lexan_loop rounds line)

-- `lexan`; every round but the last finds a token.
unfoldable pub lexan : (ℕ → ℕ) → Tokens → Option (ℤ × Tokens)
lexan line s = lexan_loop (shell_maxtok + 1) line 0 (record s { ntok = 0; tbindex = 0 })
