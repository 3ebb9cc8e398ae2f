-- ===== src/Examples/Command.antt =====
-- The theorem about the shell's lexical analyser at a command line.
use xinu_c_mips.Base.{refl, [], ◌∷◌, arith, update, ℕ}
use xinu_c_mips.Shell.{Tokens, lexan}
use xinu_c_mips.Shell.Bounds.{Bounded, lexan-Bounded}
use xinu_c_mips.Examples.Text.{bytes}

-- "ls >f", with a newline
abbrev command : ℕ → ℕ
command = bytes 0 (108 ∷ 115 ∷ 32 ∷ 62 ∷ 102 ∷ 10 ∷ [])

abbrev no_tokens : Tokens
no_tokens = record {
  tokbuf = λ i. 0;
  tbindex = 0;
  tok = λ i. 0;
  toktyp = λ i. 0;
  ntok = 0;
  tlen = 0;
}

lexan-Bounded_example : Bounded 5 no_tokens (lexan command no_tokens)
unfolding update
lexan-Bounded_example = lexan-Bounded command 5 no_tokens refl (omega arith)
